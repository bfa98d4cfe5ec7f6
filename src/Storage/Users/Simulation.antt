-- ===== src/Storage/Users/Simulation.antt =====
-- The operations on users over a documented client, against the same over its specification.
use srv.Prelude.{ℕ, ok, err, Result, Exec, Text, pure, raise, handle, text_discrete, []}
use srv.Platform.Redis.Spec.{Keyspace, Documented}
use srv.Platform.Redis.Simulation.{
  spec_redis, Simulates, Simulates-bind, Simulates-handle, Simulates-lift, Simulates-ite,
}
use srv.Platform.Orm.Objects.{store_object}
use srv.Platform.Orm.Refinement.{
  delete_storage-Simulates, fetch_value_at_key-Simulates, store_value_at_key-Simulates,
  get_map_value-Simulates, set_map_value-Simulates, map_remove_key-Simulates,
}
use srv.Storage.Types.{Profile, Conversation, Store}
use srv.Storage.Profile.{
  get_profile, save_profile, delete_profile, get_email_profile, set_email_profile,
  remove_email_profile, add_owned_conversation, remove_owned_conversation,
  get_owned_conversation_id_by_name,
}
use srv.Storage.Conversation.{
  new_conversation, get_conversation, save_conversation, delete_conversation,
}
use srv.Storage.Client.{save_client_activity, observe_client_launch}
use srv.Storage.Users.{
  or_cleanup, create_new_owned_conversation, create_new_user, delete_owned_conversation,
  delete_found,
}

-- The same store over the specification.
abbrev pub spec_store : Store → Store
spec_store st = record st { redis = spec_redis }

module _ (st : Store) (d : Documented st.redis) where
  pub get_profile-Simulates :
      (id : Text) → Simulates d (get_profile st id) (get_profile (spec_store st) id)
  unfolding get_profile
  get_profile-Simulates id = fetch_value_at_key-Simulates d st.prefix st.profiles _

  pub save_profile-Simulates :
      (p : Profile) → Simulates d (save_profile st p) (save_profile (spec_store st) p)
  unfolding save_profile store_object
  save_profile-Simulates p = store_value_at_key-Simulates d st.prefix st.profiles _ p

  delete_profile-Simulates :
      (id : Text) → Simulates d (delete_profile st id) (delete_profile (spec_store st) id)
  unfolding delete_profile
  delete_profile-Simulates id = delete_storage-Simulates d st.prefix _

  pub get_email_profile-Simulates :
      (hash : Text)
      → Simulates d (get_email_profile st hash) (get_email_profile (spec_store st) hash)
  unfolding get_email_profile
  get_email_profile-Simulates hash = get_map_value-Simulates d st.prefix _ hash

  set_email_profile-Simulates :
      (hash id : Text)
      → Simulates d (set_email_profile st hash id) (set_email_profile (spec_store st) hash id)
  unfolding set_email_profile
  set_email_profile-Simulates hash id = set_map_value-Simulates d st.prefix _ hash id

  remove_email_profile-Simulates :
      (hash : Text)
      → Simulates d (remove_email_profile st hash) (remove_email_profile (spec_store st) hash)
  unfolding remove_email_profile
  remove_email_profile-Simulates hash = map_remove_key-Simulates d st.prefix _ hash

  pub get_owned_conversation_id_by_name-Simulates :
      (id name : Text)
      → Simulates d
          (get_owned_conversation_id_by_name st id name)
          (get_owned_conversation_id_by_name (spec_store st) id name)
  unfolding get_owned_conversation_id_by_name
  get_owned_conversation_id_by_name-Simulates id name = get_map_value-Simulates d st.prefix _ name

  add_owned_conversation-Simulates :
      (c : Conversation)
      → Simulates d (add_owned_conversation st c) (add_owned_conversation (spec_store st) c)
  unfolding add_owned_conversation
  add_owned_conversation-Simulates c = set_map_value-Simulates d st.prefix _ c.name c.id

  remove_owned_conversation-Simulates :
      (c : Conversation)
      → Simulates d (remove_owned_conversation st c) (remove_owned_conversation (spec_store st) c)
  unfolding remove_owned_conversation
  remove_owned_conversation-Simulates c = map_remove_key-Simulates d st.prefix _ c.name

  pub get_conversation-Simulates :
      (id : Text) → Simulates d (get_conversation st id) (get_conversation (spec_store st) id)
  unfolding get_conversation
  get_conversation-Simulates id = fetch_value_at_key-Simulates d st.prefix st.conversations _

  save_conversation-Simulates :
      (c : Conversation)
      → Simulates d (save_conversation st c) (save_conversation (spec_store st) c)
  unfolding save_conversation store_object
  save_conversation-Simulates c = store_value_at_key-Simulates d st.prefix st.conversations _ c

  delete_conversation-Simulates :
      (id : Text) → Simulates d (delete_conversation st id) (delete_conversation (spec_store st) id)
  unfolding delete_conversation
  delete_conversation-Simulates id = delete_storage-Simulates d st.prefix _

  or_cleanup-Simulates :
      {A B : Type 0} {m : Exec st.redis.World A} {s : Exec Keyspace A} {n : Exec st.redis.World B}
      {t : Exec Keyspace B}
      → Simulates d m s
      → Simulates d n t
      → Simulates d (or_cleanup st m n) (or_cleanup (spec_store st) s t)
  or_cleanup-Simulates {A} {n = n} {t = t} h k = Simulates-handle d h after
    where
      after :
          (res : Result A)
          → Simulates d
              (elim res [ ok a ↦ pure a | err e ↦ handle n (λ x. raise e) ])
              (elim res [ ok a ↦ pure a | err e ↦ handle t (λ x. raise e) ])
      after (ok a) = Simulates-lift d (ok a)
      after (err e) = Simulates-handle d k (λ x. Simulates-lift d (err e))

  pub create_new_owned_conversation-Simulates :
      (random id name : Text)
      → Simulates d
          (create_new_owned_conversation st random id name)
          (create_new_owned_conversation (spec_store st) random id name)
  unfolding create_new_owned_conversation
  create_new_owned_conversation-Simulates random id name =
      let c = new_conversation random id name in
      Simulates-bind d (save_conversation-Simulates c) (λ x.
        Simulates-bind d
          (or_cleanup-Simulates (add_owned_conversation-Simulates c)
            (delete_conversation-Simulates c.id))
          (λ y. Simulates-lift d (ok c)))

  pub delete_owned_conversation-Simulates :
      (id name : Text)
      → Simulates d
          (delete_owned_conversation st id name)
          (delete_owned_conversation (spec_store st) id name)
  unfolding delete_owned_conversation delete_found
  delete_owned_conversation-Simulates id name =
      Simulates-bind d (get_owned_conversation_id_by_name-Simulates id name) (λ convo_id.
        Simulates-ite d (text_discrete convo_id []) (Simulates-lift d (ok tt)) (
          Simulates-bind d (get_conversation-Simulates convo_id) (λ c.
            Simulates-bind d (remove_owned_conversation-Simulates c) (λ x.
              Simulates-ite d (text_discrete c.owner id) (delete_conversation-Simulates convo_id)
                (add_owned_conversation-Simulates c)))))

  -- A call whose result is dropped.
  launched-Simulates :
      (p : Profile) (now : ℕ) (client_type client_id : Text)
      → Simulates d
          (λ w. (ok p, observe_client_launch st now client_type client_id p.id w))
          (λ w. (ok p, observe_client_launch (spec_store st) now client_type client_id p.id w))
  unfolding observe_client_launch save_client_activity store_object
  launched-Simulates p now client_type client_id =
      Simulates-handle d (store_value_at_key-Simulates d st.prefix st.activities _ _)
        (λ res. Simulates-lift d (ok p))

  pub create_new_user-Simulates :
      (secret random : Text) (now : ℕ) (profile_id client_id client_type name hash : Text)
      → Simulates d
          (create_new_user st secret random now profile_id client_id client_type name hash)
          (create_new_user
            (spec_store st)
            secret
            random
            now
            profile_id
            client_id
            client_type
            name
            hash)
  unfolding create_new_user
  create_new_user-Simulates secret random now profile_id client_id client_type name hash =
      Simulates-bind d (save_profile-Simulates _) (λ x.
        Simulates-bind d
          (or_cleanup-Simulates
            (Simulates-bind d (set_email_profile-Simulates hash profile_id)
              (λ y. create_new_owned_conversation-Simulates random profile_id _))
            (Simulates-handle d (remove_email_profile-Simulates hash)
              (λ y. delete_profile-Simulates profile_id)))
          (λ y. launched-Simulates _ now client_type client_id))
