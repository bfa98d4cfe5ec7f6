-- ===== src/Handlers/Launch/Unknown.antt =====
-- The first launch for an email makes a user, and the next one is asked to authenticate.
use srv.Prelude.{
  ℕ, ◌≡◌, refl, ap, ◌∙◌, some, if_pos, List, [], ◌∷◌, ◌++◌, ok, Text, codes, text_discrete, false,
}
use srv.Platform.Redis.Spec.{Keyspace, hash_at, Documented}
use srv.Platform.Orm.Keys.{raw_key, storable_map}
use srv.Platform.Orm.MapLaws.{get_map_value-spec}
use srv.Protocol.Content.{new_id}
use srv.Storage.Types.{Store, Profile, email_profile_map, owned_conversations_key}
use srv.Storage.Profile.{get_email_profile}
use srv.Storage.Conversation.{new_conversation}
use srv.Storage.Users.{create_new_user}
use srv.Storage.Users.Simulation.{spec_store, get_email_profile-Simulates}
use srv.Storage.Users.Created.{create_new_user-found}
use srv.Lifecycle.Session.{Backend}
use srv.Handlers.Http.{Request, Web, Given, Http, Body, json_object, string, error_text}
use srv.Handlers.Auth.{is_empty}
use srv.Handlers.Launch.{launch_unknown}

-- The profile of a new user.
abbrev pub new_profile : Given → Text → Profile
new_profile g email_hash = record {
  id = new_id (codes "profile-") g.random_profile;
  name = [];
  email_hash = email_hash;
  secret = g.secret;
}

email_keeps :
    (st : Store) (hash : Text) (fs : List (Text × Text)) (m : Keyspace)
    → hash_at (m (raw_key st.prefix email_profile_map)) ≡ ok fs
    → (get_email_profile (spec_store st) hash m).1 ≡ m
unfolding get_email_profile
email_keeps st hash fs m h =
    ap (λ r. r.1)
      (get_map_value-spec st.prefix email_profile_map
        (unfold email_profile_map storable_map in (λ x. cc)) m h hash)

-- What a new user is answered.
abbrev answer_of : Profile → ℕ × Body
answer_of p = (
  201,
  json_object (
      (codes "id", string p.id)
      ∷ (codes "name", string p.name)
      ∷ (codes "secret", string p.secret)
      ∷ []),
)

module _ {b : Backend} (d : Documented b.store.redis) (web : Web) where
  known :
      (g : Given) (c : Request) (hash id : Text) (s : Http b)
      → (get_email_profile b.store hash s.server.redis).0 ≡ ok id
      → is_empty id ≡ false
      → let r = launch_unknown web g c hash s in
        (r.answers ≡ s.answers ++ (401, error_text (codes "Provide authorization token")) ∷ [])
        × (r.realm ≡ some id)
  unfolding launch_unknown
  known g c hash id s e n = rw (e, launch_unknown, n) (refl, refl)

  fresh :
      (g : Given) (c : Request) (hash : Text) (s : Http b) (p : Profile)
      → (get_email_profile b.store hash s.server.redis).0 ≡ ok []
      → (create_new_user b.store g.secret g.random_conversation g.milli
          (new_id (codes "profile-") g.random_profile)
          c.client_id
          c.client_type
          []
          hash
          (get_email_profile b.store hash s.server.redis).1).0
        ≡ ok p
      → let r = launch_unknown web g c hash s in
        (r.answers ≡ s.answers ++ answer_of p ∷ [])
        × (r.server.redis
            ≡ (create_new_user b.store g.secret g.random_conversation g.milli
                (new_id (codes "profile-") g.random_profile)
                c.client_id
                c.client_type
                []
                hash
                (get_email_profile b.store hash s.server.redis).1).1)
  unfolding launch_unknown
  fresh g c hash s p e made = rw (e, launch_unknown, made) (refl, refl)

  -- Over a healthy client, where the map of the emails and the map of the new profile's id hold
  -- maps or nothing, and the new profile and its first conversation have encodings: the launch of a
  -- client without a profile, for an email that no profile has, is answered 201 with the id and the
  -- secret of a new profile; the next such launch for that email, of whatever client, is answered
  -- 401 with the id as its realm.
  pub launch_unknown-twice :
      (g g' : Given) (c c' : Request) (hash pb cb : Text) (fs gs : List (Text × Text)) (s : Http b)
      → d.Healthy s.server.redis
      → (get_email_profile b.store hash s.server.redis).0 ≡ ok []
      → b.store.profiles.to_redis (new_profile g hash) ≡ ok pb
      → b.store.conversations.to_redis
          (new_conversation g.random_conversation (new_profile g hash).id (codes "Conversation 1"))
        ≡ ok cb
      → hash_at (d.view s.server.redis (raw_key b.store.prefix email_profile_map)) ≡ ok fs
      → hash_at (
          d.view s.server.redis
            (raw_key b.store.prefix (owned_conversations_key (new_profile g hash).id)))
        ≡ ok gs
      → let id = (new_profile g hash).id in
        let first = launch_unknown web g c hash s in
        let next = launch_unknown web g' c' hash first in
        (first.answers
          ≡ s.answers
            ++ (
              201,
              json_object (
                  (codes "id", string id)
                  ∷ (codes "name", string [])
                  ∷ (codes "secret", string g.secret)
                  ∷ []),
            )
              ∷ [])
        × (next.answers
            ≡ first.answers ++ (401, error_text (codes "Provide authorization token")) ∷ [])
        × (next.realm ≡ some id)
  unfolding new_id
  launch_unknown-twice g g' c c' hash pb cb fs gs s up none_yet pe ce h o =
      let p = new_profile g hash in
      let w = s.server.redis in
      let read = get_email_profile-Simulates b.store d hash in
      let w1 = (get_email_profile b.store hash w).1 in
      let same : d.view w1 ≡ d.view w =
        read.keeps w up ∙ email_keeps b.store hash fs (d.view w) h in
      let (made, _, emails) =
        create_new_user-found b.store d g.random_conversation g.milli p c.client_id c.client_type pb
          cb fs gs w1 (read.healthy w up) (λ x. cc) pe ce
          (ap (λ m. hash_at (m (raw_key b.store.prefix email_profile_map))) same ∙ h)
          (ap (λ m. hash_at (m (raw_key b.store.prefix (owned_conversations_key p.id)))) same
            ∙ o) in
      let there = emails hash ∙ if_pos (text_discrete hash hash) refl _ _ in
      let (answered, redis) = fresh g c hash s p none_yet made in
      let (a, r) =
        known g' c' hash p.id (launch_unknown web g c hash s)
          (ap (λ v. (get_email_profile b.store hash v).0) redis ∙ there) refl in
      (answered, a, r)
