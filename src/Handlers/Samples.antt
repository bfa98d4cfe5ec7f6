-- ===== src/Handlers/Samples.antt =====
-- A backend and libraries for the examples.
use srv.Prelude.{
  ◌≡◌, refl, true, none, some, [], ◌∷◌, ok, err, external, Result, Text, codes, text_discrete, pos,
}
use srv.Platform.Orm.Objects.{RedisValue}
use srv.Storage.Types.{Profile, Conversation, Store}
use srv.Lifecycle.Session.{Backend}
use srv.Handlers.Http.{Request, Tokens, Web, Given}
use srv.Storage.Samples.{store}
use srv.Lifecycle.Samples.{manager}

abbrev pub profile_id : Text
profile_id = codes "profile-r"

abbrev pub user : Text → Profile
user name = record {
  id = profile_id;
  name = name;
  email_hash = codes "hash";
  secret = codes "secret";
}

-- A codec that encodes the profiles of this user by their names.
abbrev pub of_user : {P Q R : Type 0} → Dec P → Dec Q → Dec R → Text → Result Text
of_user (yes p) (yes q) (yes r) name = ok name
of_user _ _ _ name = err (external 1)

pub of_user-decodes :
    (id name hash secret : Text) (c : Dec (id ≡ profile_id)) (d : Dec (hash ≡ codes "hash"))
    (e : Dec (secret ≡ codes "secret")) (b : Text)
    → of_user c d e name ≡ ok b
    → ◌≡◌ {A = Result Profile}
        (ok (user b))
        (ok (record { id = id; name = name; email_hash = hash; secret = secret }))
of_user-decodes id name hash secret (no c) d e b h = absurd (cc h)
of_user-decodes id name hash secret (yes c) (no d) e b h = absurd (cc h)
of_user-decodes id name hash secret (yes c) (yes d) (no e) b h = absurd (cc h)
of_user-decodes id name hash secret (yes c) (yes d) (yes e) b h =
    let same : name ≡ b = cc in rw (c, d, e, same) refl

abbrev pub user_codec : RedisValue Profile
user_codec = record {
  to_redis = λ p.
      of_user (text_discrete p.id profile_id) (text_discrete p.email_hash (codes "hash"))
        (text_discrete p.secret (codes "secret")) p.name;
  from_redis = λ b. ok (user b);
  decodes = λ p b h. of_user-decodes p.id p.name p.email_hash p.secret _ _ _ b h;
}

-- A codec that encodes the first conversation of the user by its id.
abbrev pub first_conversation : Text → Conversation
first_conversation id = record { id = id; owner = profile_id; name = codes "Conversation 1" }

abbrev pub first_of : {P Q : Type 0} → Dec P → Dec Q → Text → Result Text
first_of (yes p) (yes q) id = ok id
first_of _ _ id = err (external 1)

pub first_of-decodes :
    (id owner name : Text) (c : Dec (owner ≡ profile_id)) (d : Dec (name ≡ codes "Conversation 1"))
    (b : Text)
    → first_of c d id ≡ ok b
    → ◌≡◌ {A = Result Conversation}
        (ok (first_conversation b))
        (ok (record { id = id; owner = owner; name = name }))
first_of-decodes id owner name (no c) d b h = absurd (cc h)
first_of-decodes id owner name (yes c) (no d) b h = absurd (cc h)
first_of-decodes id owner name (yes c) (yes d) b h = let same : id ≡ b = cc in rw (c, d, same) refl

abbrev pub first_codec : RedisValue Conversation
first_codec = record {
  to_redis = λ c.
      first_of (text_discrete c.owner profile_id) (text_discrete c.name (codes "Conversation 1"))
        c.id;
  from_redis = λ b. ok (first_conversation b);
  decodes = λ c b h. first_of-decodes c.id c.owner c.name _ _ b h;
}

-- The store of the user, and one whose conversations another profile owns.
abbrev pub user_store : Store
user_store = record store { profiles = user_codec; conversations = first_codec }

abbrev pub other_store : Store
other_store = record store { profiles = user_codec }

abbrev pub backend_of : Store → Backend
backend_of st = record {
  store = st;
  manager = manager;
  Speech = Unit {0};
  generate_speech = λ owner id text w. w;
}

-- Every token is of the client `c` and about the user, of the second 1000.
abbrev pub tokens : Tokens
tokens = record {
  Token = Unit {0};
  is_hmac = λ t. true;
  issuer = λ t. ok (codes "c");
  subject = λ t. ok profile_id;
  issued_at = λ t. ok (some (pos 1000));
  parse = λ now t key methods. ok tt;
}

-- A body decodes to a new name.
abbrev pub web : Web
web = record {
  tokens = tokens;
  Uuid = Text;
  parse_uuid = λ t. ok t;
  marshal_binary = λ u. ok u;
  bind = λ t. (t, none);
  bind_map = λ t. ok ((codes "name", t) ∷ []);
  quoted = λ t. t;
  sha1 = λ t. t;
  getenv = λ k. [];
  dial_and_send = λ host port account password m. ok tt;
}

abbrev pub given : Given
given = record {
  unix = 1200;
  milli = 1200000;
  random_profile = codes "r";
  random_conversation = codes "1";
  secret = codes "secret";
}

abbrev pub request : Request
request = record {
  client_id = codes "c";
  profile_id = profile_id;
  client_type = codes "type";
  authorization = codes "Bearer token";
  conversation_id = codes "convo-1";
  name = [];
  body = codes "new";
}
