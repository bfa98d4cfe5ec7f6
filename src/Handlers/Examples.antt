-- ===== src/Handlers/Examples.antt =====
-- The theorems on the handlers at concrete inputs.
use srv.Platform.Orm.Maps.{get_map_value}
use srv.Platform.Orm.Keys.{db_key}
use srv.Platform.Redis.Spec.{exec}
use srv.Lifecycle.Samples.{session_of}
use srv.Storage.Samples.{state_with, conversation_with}
use srv.Storage.Conversation.{get_conversation}
use srv.Handlers.Session.{start_whisper_session, status_ok}
use srv.Handlers.Session.Unowned.{IsWhispering, start_whisper_session-unowned}
use srv.Platform.Orm.Laws.{fetch-spec}
use srv.Storage.Types.{conversation_key, email_profile_map}
use srv.Storage.Conversation.{new_conversation, is_owned_conversation}
use srv.Storage.Users.{create_new_user}
use srv.Storage.Users.Created.{create_new_user-found}
use srv.Storage.Profile.{get_email_profile}
use srv.Prelude.{
  sub_int64, ◌≡◌, ◌≢◌, refl, ap, ◌∙◌, ite, true, false, none, some, [], ◌∷◌, ◌++◌, ok, Text, codes,
  text_discrete, ℕ_discrete, pos, arith, lookup,
}
use srv.Platform.Redis.Spec.{Keyspace, put, str, hash_at}
use srv.Platform.Redis.Simulation.{spec_documented}
use srv.Platform.Orm.Keys.{raw_key}
use srv.Platform.Orm.Laws.{put_self}
use srv.Protocol.Content.{new_id}
use srv.Storage.Types.{Profile, profile_key}
use srv.Storage.Profile.{get_profile}
use srv.Lifecycle.Session.{Backend}
use srv.Handlers.Http.{Request, Http, done, nothing, json_object, string, error_text}
use srv.Handlers.Auth.{too_far_off, authenticate_request}
use srv.Handlers.Auth.Admission.{Signed, Admissible, profile_read, authenticate_request-admits}
use srv.Handlers.Auth.Refusal.{Untouched, Refused, Settled, authenticate_request-Settled}
use srv.Handlers.Auth.Fresh.{WithinFiveMinutes, too_far_off-exact}
use srv.Handlers.Launch.{get_shutdown, launch_unknown}
use srv.Handlers.Launch.Unknown.{launch_unknown-twice}
use srv.Handlers.Profile.{patch_profile}
use srv.Handlers.Profile.Patch.{patch_profile-saved}
use srv.Handlers.Routes.{dispatch, list_conversations}
use srv.Handlers.Routes.Guarded.{Inverted, dispatch-refuses, get_shutdown-Inverted}
use srv.Handlers.Samples.{
  profile_id, user, user_store, other_store, backend_of, web, given, request,
}

abbrev backend : Backend
backend = backend_of user_store

abbrev state_of : Keyspace → Http backend
state_of m = record {
  server = record { sessions = []; pubsub = tt; redis = m; speech = tt };
  answers = [];
  realm = none;
  mails = [];
}

abbrev empty : Keyspace
empty k = none

-- The user is stored.
abbrev with_user : Keyspace
with_user =
    put (raw_key user_store.prefix (profile_key profile_id))
      (some (record { value = str (codes "old"); ttl = none })) empty

authenticate_request-admits_example :
    let s = state_of with_user in
    let r = authenticate_request web given request s in
    ((r.0 ≡ done (some (user (codes "old"))))
      → Admissible backend web given request s (user (codes "old")))
    × (Admissible backend web given request s (user (codes "old"))
        → r ≡ (done (some (user (codes "old"))), profile_read request s))
authenticate_request-admits_example =
    authenticate_request-admits web given request (state_of with_user) (user (codes "old"))

authenticate_request-Settled_example :
    Settled request (state_of empty) (authenticate_request web given request (state_of empty))
authenticate_request-Settled_example =
    authenticate_request-Settled web given request (state_of empty)

too_far_off-exact_example :
    ((too_far_off 1200 (pos 1000) ≡ false) → WithinFiveMinutes 1200 (pos 1000))
    × (WithinFiveMinutes 1200 (pos 1000) → too_far_off 1200 (pos 1000) ≡ false)
too_far_off-exact_example = too_far_off-exact 1200 (pos 1000) (omega arith) (omega arith)

-- A request that names no client.
abbrev anonymous : Request
anonymous = record request { client_id = [] }

anonymous-refused :
    (p : Profile) → (authenticate_request web given anonymous (state_of empty)).0 ≢ done (some p)
unfolding authenticate_request
anonymous-refused p e = absurd (cc e)

dispatch-refuses_example :
    Untouched anonymous
      (state_of empty)
      (dispatch web given list_conversations anonymous (state_of empty))
    × Refused (state_of empty) (dispatch web given list_conversations anonymous (state_of empty))
dispatch-refuses_example =
    dispatch-refuses web given anonymous (state_of empty) list_conversations refl anonymous-refused

get_shutdown-Inverted_example :
    Inverted web given request
      (state_of with_user)
      (get_shutdown web given request (state_of with_user))
get_shutdown-Inverted_example = get_shutdown-Inverted web given request (state_of with_user)

found_user : get_profile user_store profile_id with_user ≡ (ok (user (codes "old")), with_user)
unfolding get_profile
found_user =
    fetch-spec user_store.prefix user_store.profiles (profile_key profile_id) (user (codes "old"))
      (codes "old") none with_user (put_self _ _ _) refl

request-Signed : Signed web given (codes "c") profile_id (codes "token") (codes "secret")
unfolding too_far_off sub_int64
request-Signed = record {
  key = codes "secret";
  is_key = refl;
  key_bytes = codes "secret";
  are_bytes = refl;
  token = tt;
  is_token = refl;
  claims = record {
    from_client = refl;
    about_profile = refl;
    at = pos 1000;
    issued = refl;
    recent = refl;
  };
}

request-Admissible : Admissible backend web given request (state_of with_user) (user (codes "old"))
request-Admissible = record {
  has_client = λ e. cc;
  has_profile = λ e. cc;
  has_token = omega arith;
  is_profile = ap (λ r. r.0) found_user;
  signed = request-Signed;
}

patch_profile-saved_example :
    let r = patch_profile web given request (state_of with_user) in
    ((get_profile user_store profile_id r.server.redis).0 ≡ ok (user (codes "new")))
    × (r.answers ≡ (204, nothing) ∷ [])
unfolding lookup text_discrete ℕ_discrete
patch_profile-saved_example =
    patch_profile-saved spec_documented web given request (state_of with_user) (user (codes "old"))
      ((codes "name", codes "new") ∷ []) (codes "new") tt request-Admissible refl refl refl

launch_unknown-twice_example :
    let first = launch_unknown web given request (codes "hash") (state_of empty) in
    let next = launch_unknown web given anonymous (codes "hash") first in
    (first.answers
      ≡ (
        201,
        json_object (
            (codes "id", string profile_id)
            ∷ (codes "name", string [])
            ∷ (codes "secret", string (codes "secret"))
            ∷ []),
      )
        ∷ [])
    × (next.answers ≡ first.answers ++ (401, error_text (codes "Provide authorization token")) ∷ [])
    × (next.realm ≡ some profile_id)
unfolding new_id new_conversation get_email_profile hash_at text_discrete ℕ_discrete get_map_value
    db_key email_profile_map exec
launch_unknown-twice_example =
    launch_unknown-twice spec_documented web given given request anonymous (codes "hash") []
      (codes "convo-1") [] [] (state_of empty) tt refl refl refl refl refl

create_new_user-found_example :
    let p = user [] in
    let r =
      create_new_user user_store p.secret
        (codes "1")
        5
        p.id
        (codes "c")
        (codes "type")
        p.name
        p.email_hash
        empty in
    (r.0 ≡ ok p)
    × ((get_profile user_store p.id r.1).0 ≡ ok p)
    × ((j : Text)
        → (get_email_profile user_store j r.1).0
          ≡ ite (text_discrete p.email_hash j) (ok p.id) (get_email_profile user_store j empty).0)
unfolding new_conversation new_id hash_at text_discrete ℕ_discrete
create_new_user-found_example =
    create_new_user-found user_store spec_documented (codes "1") 5 (user []) (codes "c")
      (codes "type") [] (codes "convo-1") [] [] empty tt (λ e. cc) refl refl refl refl

-- The conversation is of another profile, and its session has no participants.
abbrev other : Backend
other = backend_of other_store

abbrev with_both : Keyspace
with_both =
    put (raw_key user_store.prefix (conversation_key (codes "convo-1")))
      (some (record { value = str (codes "convo-1"); ttl = none })) with_user

abbrev running : Http other
running = record {
  server = record {
    sessions = (codes "convo-1", session_of (state_with (codes "convo-1"))) ∷ [];
    pubsub = tt;
    redis = with_both;
    speech = tt;
  };
  answers = [];
  realm = none;
  mails = [];
}

found_both : get_profile other_store profile_id with_both ≡ (ok (user (codes "old")), with_both)
unfolding get_profile text_discrete ℕ_discrete put raw_key conversation_key profile_key
found_both =
    fetch-spec other_store.prefix other_store.profiles (profile_key profile_id) (user (codes "old"))
      (codes "old") none with_both refl refl

is_of_another :
    (is_owned_conversation other_store profile_id (codes "convo-1") with_both).0 ≡ ok false
unfolding is_owned_conversation get_conversation text_discrete ℕ_discrete
is_of_another =
    rw
      (fetch-spec other_store.prefix other_store.conversations (conversation_key (codes "convo-1"))
        (conversation_with (codes "convo-1")) (codes "convo-1") none with_both (put_self _ _ _)
        refl)
      refl

start_whisper_session-unowned_example :
    let r = start_whisper_session web given request running in
    (r.answers ≡ (400, error_text (codes "invalid conversation id")) ∷ (200, status_ok) ∷ [])
    × IsWhispering other request (user (codes "old")) r.server
unfolding lookup text_discrete ℕ_discrete
start_whisper_session-unowned_example =
    start_whisper_session-unowned web given request (user (codes "old")) running
      (session_of (state_with (codes "convo-1"))) true
      (record {
        has_client = λ e. cc;
        has_profile = λ e. cc;
        has_token = omega arith;
        is_profile = ap (λ r. r.0) found_both;
        signed = request-Signed;
      })
      (ap (λ r. (is_owned_conversation other_store profile_id (codes "convo-1") r.1).0) found_both
        ∙ is_of_another)
      refl refl refl
