-- ===== src/Storage/Users.antt =====
-- Creating and deleting users and their conversations. Random parts of ids, the new secret and the
-- time are arguments.
pub mod Simulation
pub mod Owned
pub mod Lifetime
pub mod Apart
pub mod Created
use srv.Prelude.{
  ℕ, ite, List, [], ◌∷◌, ◌++◌, Error, ok, err, Exec, pure, raise, handle, ◌>>=◌, ◌>>◌, Text, codes,
  text_discrete,
}
use srv.Storage.Types.{Profile, Conversation, Store}
use srv.Storage.Profile.{
  get_profile, save_profile, delete_profile, set_email_profile, remove_email_profile,
  add_owned_conversation, remove_owned_conversation, get_owned_conversation_id_by_name,
  get_owned_conversations_name_to_id_map,
}
use srv.Storage.Conversation.{
  new_conversation, get_conversation, save_conversation, delete_conversation,
}
use srv.Storage.Client.{observe_client_launch}

module _ (st : Store) where
  open st use {redis}

  -- A deferred cleanup: its own errors are dropped and the error is returned.
  abbrev pub or_cleanup :
      {A B : Type 0} → Exec redis.World A → Exec redis.World B → Exec redis.World A
  or_cleanup m cleanup =
      handle m (λ res. elim res [ ok a ↦ pure a | err e ↦ handle cleanup (λ _. raise e) ])

  unfoldable pub create_new_owned_conversation : Text → Text → Text → Exec redis.World Conversation
  create_new_owned_conversation random profile_id name =
      let c = new_conversation random profile_id name in
      (do
        save_conversation st c
        or_cleanup (add_owned_conversation st c) (delete_conversation st c.id)
        pure c)

  -- Both removals of the cleanup are made whether or not they fail.
  abbrev pub forget_user : Text → Text → Exec redis.World (Unit {0})
  forget_user profile_id hashed_email =
      handle (remove_email_profile st hashed_email) (λ _. delete_profile st profile_id)

  unfoldable pub create_new_user :
      (secret random : Text) (now : ℕ) (profile_id client_id client_type name hashed_email : Text)
      → Exec redis.World Profile
  create_new_user secret random now profile_id client_id client_type name hashed_email =
      let p : Profile = record {
        id = profile_id;
        name = name;
        email_hash = hashed_email;
        secret = secret;
      } in
      (do
        save_profile st p
        or_cleanup
            (do
              set_email_profile st hashed_email profile_id
              create_new_owned_conversation random profile_id (codes "Conversation 1"))
            (forget_user profile_id hashed_email)
        (λ w. (ok p, observe_client_launch st now client_type client_id p.id w)))

  -- Errors are collected and do not stop the operation.
  abbrev collect : List Error → Exec redis.World (Unit {0}) → redis.World → List Error × redis.World
  collect errs m w =
      let (res, w') = m w in elim res [ ok _ ↦ (errs, w') | err e ↦ (errs ++ e ∷ [], w') ]

  unfoldable pub delete_conversations :
      List (Text × Text) → List Error → redis.World → List Error × redis.World
  delete_conversations [] errs w = (errs, w)
  delete_conversations ((name, c_id) ∷ c_ids) errs w =
      let (res, w1) = get_conversation st c_id w in
      let (errs', w') : List Error × redis.World = elim res [
        | err e ↦ (errs ++ e ∷ [], w1)
        | ok c ↦
            let (errs2, w2) = collect errs (remove_owned_conversation st c) w1 in
            collect errs2 (delete_conversation st c_id) w2
      ] in
      delete_conversations c_ids errs' w'

  unfoldable pub delete_existing_user : Text → redis.World → List Error × redis.World
  unfolding delete_conversations
  delete_existing_user profile_id w =
      let (found, w1) = get_profile st profile_id w in
      elim found [
        | err e ↦ ([], w1)
        | ok p ↦
            let (errs1, w2) = collect [] (remove_email_profile st p.email_hash) w1 in
            let (res, w3) = get_owned_conversations_name_to_id_map st profile_id w2 in
            let (errs2, w4) : List Error × redis.World = elim res [
              | err e ↦ (errs1 ++ e ∷ [], w3)
              | ok c_ids ↦ delete_conversations c_ids errs1 w3
            ] in
            collect errs2 (delete_profile st profile_id) w4
      ]

  -- A conversation that was found: it leaves the map, and is deleted when the profile owns it.
  unfoldable pub delete_found : Text → Text → Conversation → Exec redis.World (Unit {0})
  delete_found profile_id convo_id c = do
    remove_owned_conversation st c
    ite (text_discrete c.owner profile_id) (delete_conversation st convo_id)
        (add_owned_conversation st c)

  unfoldable pub delete_owned_conversation : Text → Text → Exec redis.World (Unit {0})
  unfolding delete_found
  delete_owned_conversation profile_id name = do
    convo_id ← get_owned_conversation_id_by_name st profile_id name
    ite (text_discrete convo_id []) (pure tt)
        (get_conversation st convo_id >>= delete_found profile_id convo_id)
