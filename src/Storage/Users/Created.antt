-- ===== src/Storage/Users/Created.antt =====
-- A user that is created is found by the hash of the email, with a profile and a conversation.
use srv.Storage.Users.Apart.{
  profile_apart, profile-conversation, profile-owned, profile-activity, email-conversation,
  email-owned, email-activity,
}
use srv.Prelude.{
  ℕ, ◌≡◌, ◌≢◌, ap, sym, ◌∙◌, ite, none, some, List, [], ok, Exec, bind_ok, ◌>>◌, Text, codes,
  text_discrete, arith,
}
use srv.Platform.Redis.Spec.{
  Keyspace, str, put, hash_at, keep_hash, ttl_at, field, set_field, Documented,
}
use srv.Platform.Redis.Simulation.{Simulates-then}
use srv.Platform.Orm.Keys.{raw_key, or_nil, storable_map}
use srv.Platform.Orm.Objects.{store_object}
use srv.Platform.Orm.Laws.{put_self, put_other, store-keeps, store-spec, fetch-spec}
use srv.Platform.Orm.MapLaws.{
  get_map_value-spec, set_map_value-spec, hash_at-keep_hash, field-set_field,
}
use srv.Storage.Types.{
  Profile, Store, profile_key, conversation_key, owned_conversations_key, activity_key,
  email_profile_map,
}
use srv.Storage.Profile.{get_profile, save_profile, get_email_profile, set_email_profile}
use srv.Storage.Conversation.{new_conversation}
use srv.Storage.Client.{observe_client_launch, save_client_activity}
use srv.Storage.Users.{or_cleanup, forget_user, create_new_owned_conversation, create_new_user}
use srv.Storage.Users.Simulation.{
  spec_store, create_new_user-Simulates, get_profile-Simulates, get_email_profile-Simulates,
}
use srv.Storage.Users.Owned.{created, create-spec, or_cleanup_ok}

module _ (st : Store) (random : Text) (now : ℕ) (p : Profile) (client_id client_type : Text)
    (m : Keyspace) where
  abbrev under_profile : Text
  under_profile = raw_key st.prefix (profile_key p.id)

  abbrev under_email : Text
  under_email = raw_key st.prefix email_profile_map

  abbrev under_owned : Text
  under_owned = raw_key st.prefix (owned_conversations_key p.id)

  abbrev name : Text
  name = codes "Conversation 1"

  -- The keys after the profile, and after the hash.
  abbrev with_profile : Text → Keyspace
  with_profile b = put under_profile (some (record { value = str b; ttl = none })) m

  abbrev with_email : Text → List (Text × Text) → Keyspace
  with_email b fs =
      put under_email
        (keep_hash (set_field p.email_hash p.id fs) (ttl_at (with_profile b under_email)))
        (with_profile b)

  abbrev with_convo : Text → List (Text × Text) → Text → List (Text × Text) → Keyspace
  with_convo b fs cb gs = created st random p.id name (with_email b fs) cb gs

  -- The observation of the launch leaves every key but its own.
  launch-keeps :
      (k : Text) (u : Keyspace)
      → k ≢ raw_key st.prefix (activity_key client_id)
      → observe_client_launch (spec_store st) now client_type client_id p.id u k ≡ u k
  unfolding observe_client_launch save_client_activity store_object
  launch-keeps k u n = store-keeps st.prefix st.activities (activity_key client_id) _ u k n

  -- The conversation leaves every key but its own and the map's.
  convo-keeps :
      (b : Text) (fs : List (Text × Text)) (cb : Text) (gs : List (Text × Text)) (k : Text)
      → k ≢ raw_key st.prefix (conversation_key (new_conversation random p.id name).id)
      → k ≢ under_owned
      → with_convo b fs cb gs k ≡ with_email b fs k
  convo-keeps b fs cb gs k c o = put_other under_owned k _ _ o ∙ put_other _ k _ (with_email b fs) c

  module _ (b cb : Text) (fs gs : List (Text × Text)) (n : p.id ≢ [])
      (e : st.profiles.to_redis p ≡ ok b)
      (ce : st.conversations.to_redis (new_conversation random p.id name) ≡ ok cb)
      (h : hash_at (m under_email) ≡ ok fs) (g : hash_at (m under_owned) ≡ ok gs) where
    save-spec : save_profile (spec_store st) p m ≡ (ok tt, with_profile b)
    unfolding save_profile store_object profile_key
    save-spec = store-spec st.prefix st.profiles (profile_key p.id) p b m n e

    email_there : hash_at (with_profile b under_email) ≡ ok fs
    email_there =
        ap hash_at (put_other under_profile under_email _ m (profile_apart st.prefix p.id)) ∙ h

    set-spec :
        set_email_profile (spec_store st) p.email_hash p.id (with_profile b)
        ≡ (ok tt, with_email b fs)
    unfolding set_email_profile
    set-spec =
        set_map_value-spec st.prefix email_profile_map
          (unfold email_profile_map storable_map in (λ x. cc)) (with_profile b) email_there
          p.email_hash p.id

    owned_there : hash_at (with_email b fs under_owned) ≡ ok gs
    owned_there =
        ap hash_at (
          put_other under_email under_owned _ (with_profile b)
            (λ x. email-owned st.prefix p.id p.id (sym x))
          ∙ put_other under_profile under_owned _ m
              (λ x. profile-owned st.prefix p.id p.id (sym x)))
        ∙ g

    convo-spec :
        create_new_owned_conversation (spec_store st) random p.id name (with_email b fs)
        ≡ (ok (new_conversation random p.id name), with_convo b fs cb gs)
    convo-spec = create-spec st random p.id name (with_email b fs) cb gs n ce owned_there

    abbrev after : Keyspace
    after =
        observe_client_launch (spec_store st) now client_type client_id p.id (with_convo b fs cb gs)

    user-spec :
        create_new_user
          (spec_store st)
          p.secret
          random
          now
          p.id
          client_id
          client_type
          p.name
          p.email_hash
          m
        ≡ (ok p, after)
    unfolding create_new_user
    user-spec =
        let sst = spec_store st in
        let set = set_email_profile sst p.email_hash p.id in
        let convo = create_new_owned_conversation sst random p.id name in
        let undo = forget_user sst p.id p.email_hash in
        let launched : Exec Keyspace Profile =
          λ w. (ok p, observe_client_launch sst now client_type client_id p.id w) in
        bind_ok (save_profile sst p) save-spec (λ _. or_cleanup sst (set >> convo) undo >> launched)
        ∙ bind_ok (or_cleanup sst (set >> convo) undo)
            (or_cleanup_ok sst (set >> convo) undo (bind_ok set set-spec (λ _. convo) ∙ convo-spec))
            (λ _. launched)

    profile_after : after under_profile ≡ some (record { value = str b; ttl = none })
    profile_after =
        launch-keeps under_profile (with_convo b fs cb gs)
          (profile-activity st.prefix client_id p.id)
        ∙ (convo-keeps b fs cb gs under_profile (profile-conversation st.prefix _ p.id)
              (profile-owned st.prefix p.id p.id)
            ∙ (put_other under_email under_profile _ (with_profile b)
                  (λ x. profile_apart st.prefix p.id (sym x))
                ∙ put_self under_profile _ m))

    email_after : hash_at (after under_email) ≡ ok (set_field p.email_hash p.id fs)
    email_after =
        ap hash_at (
          launch-keeps under_email (with_convo b fs cb gs) (email-activity st.prefix client_id p.id)
          ∙ (convo-keeps b fs cb gs under_email (email-conversation st.prefix _ p.id)
                (email-owned st.prefix p.id p.id)
              ∙ put_self under_email _ (with_profile b)))
        ∙ hash_at-keep_hash _ _

    get_profile-after : get_profile (spec_store st) p.id after ≡ (ok p, after)
    unfolding get_profile
    get_profile-after =
        fetch-spec st.prefix st.profiles (profile_key p.id) p b none after profile_after
          (st.profiles.decodes p b e)

    email_key : email_profile_map.storage_id ≢ []
    unfolding email_profile_map storable_map
    email_key x = cc

    get_email-after :
        (j : Text)
        → get_email_profile (spec_store st) j after
          ≡ (or_nil [] (field j (set_field p.email_hash p.id fs)), after)
    unfolding get_email_profile
    get_email-after j = get_map_value-spec st.prefix email_profile_map email_key after email_after j

    get_email-before :
        (j : Text) → get_email_profile (spec_store st) j m ≡ (or_nil [] (field j fs), m)
    unfolding get_email_profile
    get_email-before j = get_map_value-spec st.prefix email_profile_map email_key m h j

-- Over a healthy client, where the map of the emails and the map of the profile's id hold maps or
-- nothing, the profile has an id, and it and its first conversation have encodings: the user is
-- created without an error, also when the hash of the email led to another profile; the id then
-- leads to the profile, the hash to the id, and every other hash to what it led to before.
pub create_new_user-found :
    (st : Store) (d : Documented st.redis) (random : Text) (now : ℕ) (p : Profile)
    (client_id client_type b cb : Text) (fs gs : List (Text × Text)) (w : st.redis.World)
    → d.Healthy w
    → p.id ≢ []
    → st.profiles.to_redis p ≡ ok b
    → st.conversations.to_redis (new_conversation random p.id (codes "Conversation 1")) ≡ ok cb
    → hash_at (d.view w (raw_key st.prefix email_profile_map)) ≡ ok fs
    → hash_at (d.view w (raw_key st.prefix (owned_conversations_key p.id))) ≡ ok gs
    → let r =
        create_new_user st p.secret random now p.id client_id client_type p.name p.email_hash w in
      (r.0 ≡ ok p)
      × ((get_profile st p.id r.1).0 ≡ ok p)
      × ((j : Text)
          → (get_email_profile st j r.1).0
            ≡ ite (text_discrete p.email_hash j) (ok p.id) (get_email_profile st j w).0)
create_new_user-found st d random now p client_id client_type b cb fs gs w up n e ce h g =
    let m = d.view w in
    let create =
      create_new_user-Simulates st d p.secret random now p.id client_id client_type p.name
        p.email_hash in
    let spec = user-spec st random now p client_id client_type m b cb fs gs n e ce h g in
    (
      create.reply w up ∙ ap (λ r. r.0) spec,
      Simulates-then d create (get_profile-Simulates st d p.id) w up
          ∙ (ap (λ r. (get_profile (spec_store st) p.id r.1).0) spec
              ∙ ap (λ r. r.0)
                  (get_profile-after st random now p client_id client_type m b cb fs gs n e ce h
                    g)),
      λ j.
          Simulates-then d create (get_email_profile-Simulates st d j) w up
          ∙ (ap (λ r. (get_email_profile (spec_store st) j r.1).0) spec
              ∙ (ap (λ r. r.0)
                    (get_email-after st random now p client_id client_type m b cb fs gs n e ce h g
                      j)
                  ∙ ground (
                    arith,
                    (get_email_profile-Simulates st d j).reply w up,
                    get_email-before st random now p client_id client_type m b cb fs gs n e ce h g
                        j,
                    field-set_field p.email_hash j p.id fs,
                  ))),
    )
