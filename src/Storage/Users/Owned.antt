-- ===== src/Storage/Users/Owned.antt =====
-- The creation and the deletion of a conversation on the specification.
use srv.Prelude.{
  ◌≡◌, ◌≢◌, refl, ap, sym, ◌∙◌, ite, if_pos, Exec, pure, raise, handle, bind_ok, ◌>>◌, ◌>>=◌,
  if_neg, none, some, List, [], ◌++◌, not_found, ok, err, Text, codes, text_discrete, append_cancel,
  arith,
}
use srv.Platform.Redis.Spec.{
  Keyspace, str, put, hash_at, keep_hash, ttl_at, field, set_field, remove_field,
}
use srv.Platform.Orm.Keys.{raw_key, or_nil}
use srv.Platform.Orm.Objects.{store_object}
use srv.Platform.Orm.Laws.{
  put_self, put_other, store-spec, fetch-spec, fetch_missing-spec, delete-spec,
}
use srv.Platform.Orm.MapLaws.{
  get_map_value-spec, set_map_value-spec, map_remove_key-spec, hash_at-keep_hash, field-set_field,
}
use srv.Protocol.Content.{new_id}
use srv.Storage.Types.{Conversation, Store, conversation_key, owned_conversations_key}
use srv.Storage.Profile.{
  add_owned_conversation, remove_owned_conversation, get_owned_conversation_id_by_name,
}
use srv.Storage.Conversation.{
  new_conversation, get_conversation, save_conversation, delete_conversation,
}
use srv.Storage.Users.{
  or_cleanup, create_new_owned_conversation, delete_owned_conversation, delete_found,
}
use srv.Storage.Users.Simulation.{spec_store}

-- A conversation and the map of a profile are under different keys.
apart :
    (prefix c p : Text)
    → raw_key prefix (owned_conversations_key p) ≢ raw_key prefix (conversation_key c)
unfolding raw_key owned_conversations_key conversation_key
apart prefix c p e =
    ground (
      arith,
      append_cancel prefix (codes "owned-conversations:" ++ p) (codes "conversation:" ++ c) e,
    )

-- No cleanup without an error.
pub or_cleanup_ok :
    {A B : Type 0} (st : Store) (m : Exec st.redis.World A) (n : Exec st.redis.World B) {a : A}
    {s t : st.redis.World}
    → m s ≡ (ok a, t)
    → or_cleanup st m n s ≡ (ok a, t)
or_cleanup_ok {A} st m n e =
    ap
      (λ r.
        (elim r.0 as (λ x. Exec st.redis.World A) [
          | ok a ↦ pure a
          | err x ↦ handle n (λ y. raise x)
        ])
          r.1)
      e

module _ (st : Store) (random profile_id name : Text) (m : Keyspace) where
  abbrev pub convo : Conversation
  convo = new_conversation random profile_id name

  abbrev pub here : Text
  here = raw_key st.prefix (conversation_key convo.id)

  abbrev pub owned : Text
  owned = raw_key st.prefix (owned_conversations_key profile_id)

  -- The keys after the two writes.
  abbrev saved : Text → Keyspace
  saved b = put here (some (record { value = str b; ttl = none })) m

  abbrev pub created : Text → List (Text × Text) → Keyspace
  created b fs =
      put owned (keep_hash (set_field name convo.id fs) (ttl_at (saved b owned))) (saved b)

  owned_apart : owned ≢ here
  owned_apart = apart st.prefix convo.id profile_id

  module _ (b : Text) (fs : List (Text × Text)) (n : profile_id ≢ [])
      (e : st.conversations.to_redis convo ≡ ok b) (h : hash_at (m owned) ≡ ok fs) where
    save-spec : save_conversation (spec_store st) convo m ≡ (ok tt, saved b)
    unfolding save_conversation store_object new_conversation conversation_key new_id
    save-spec =
        store-spec st.prefix st.conversations (conversation_key convo.id) convo b m (λ x. cc) e

    hash_saved : hash_at (saved b owned) ≡ ok fs
    hash_saved = ap hash_at (put_other here owned _ m owned_apart) ∙ h

    add-spec : add_owned_conversation (spec_store st) convo (saved b) ≡ (ok tt, created b fs)
    unfolding add_owned_conversation new_conversation owned_conversations_key
    add-spec =
        set_map_value-spec st.prefix (owned_conversations_key profile_id) n (saved b) hash_saved
          name convo.id

    pub create-spec :
        create_new_owned_conversation (spec_store st) random profile_id name m
        ≡ (ok convo, created b fs)
    unfolding create_new_owned_conversation
    create-spec =
        let add = add_owned_conversation (spec_store st) convo in
        let cleanup = delete_conversation (spec_store st) convo.id in
        bind_ok (save_conversation (spec_store st) convo) save-spec
          (λ _. or_cleanup (spec_store st) add cleanup >> pure convo)
        ∙ bind_ok (or_cleanup (spec_store st) add cleanup)
            (or_cleanup_ok (spec_store st) add cleanup add-spec) (λ _. pure convo)

    -- The keys after the two deletions.
    abbrev removed : Keyspace
    removed =
        put owned
          (keep_hash (remove_field name (set_field name convo.id fs)) (ttl_at (created b fs owned)))
          (created b fs)

    abbrev pub deleted : Keyspace
    deleted = put here none removed

    hash_created : hash_at (created b fs owned) ≡ ok (set_field name convo.id fs)
    hash_created = ap hash_at (put_self owned _ (saved b)) ∙ hash_at-keep_hash _ _

    here-created : created b fs here ≡ some (record { value = str b; ttl = none })
    here-created = put_other owned here _ (saved b) (λ x. owned_apart (sym x)) ∙ put_self here _ m

    pub id_after :
        (j : Text)
        → get_owned_conversation_id_by_name (spec_store st) profile_id j (created b fs)
          ≡ (or_nil [] (field j (set_field name convo.id fs)), created b fs)
    unfolding get_owned_conversation_id_by_name owned_conversations_key
    id_after j =
        get_map_value-spec st.prefix (owned_conversations_key profile_id) n (created b fs)
          hash_created j

    pub get_created :
        get_conversation (spec_store st) convo.id (created b fs) ≡ (ok convo, created b fs)
    unfolding get_conversation
    get_created =
        fetch-spec st.prefix st.conversations (conversation_key convo.id) convo b none
          (created b fs) here-created (st.conversations.decodes convo b e)

    remove-spec : remove_owned_conversation (spec_store st) convo (created b fs) ≡ (ok tt, removed)
    unfolding remove_owned_conversation new_conversation owned_conversations_key
    remove-spec =
        map_remove_key-spec st.prefix (owned_conversations_key profile_id) n (created b fs)
          hash_created name

    delete_convo-spec : delete_conversation (spec_store st) convo.id removed ≡ (ok tt, deleted)
    unfolding delete_conversation new_conversation conversation_key new_id
    delete_convo-spec = delete-spec st.prefix (conversation_key convo.id) removed (λ x. cc)

    name_there : or_nil [] (field name (set_field name convo.id fs)) ≡ ok convo.id
    name_there = rw (field-set_field name name convo.id fs) (ground arith)

    delete_found-spec :
        delete_found (spec_store st) profile_id convo.id convo (created b fs) ≡ (ok tt, deleted)
    unfolding delete_found new_conversation
    delete_found-spec =
        bind_ok (remove_owned_conversation (spec_store st) convo) remove-spec (λ _.
          ite (text_discrete profile_id profile_id) (delete_conversation (spec_store st) convo.id)
            (add_owned_conversation (spec_store st) convo))
        ∙ (ap {A = Exec Keyspace (Unit {0})} (λ f. f removed)
              (if_pos (text_discrete profile_id profile_id) refl _ _)
            ∙ delete_convo-spec)

    pub delete-owned-spec :
        delete_owned_conversation (spec_store st) profile_id name (created b fs) ≡ (ok tt, deleted)
    unfolding delete_owned_conversation new_conversation new_id
    delete-owned-spec =
        bind_ok (get_owned_conversation_id_by_name (spec_store st) profile_id name)
          (id_after name ∙ ap (λ r. (r, created b fs)) name_there)
          (λ id.
            ite (text_discrete id []) (pure tt)
              (get_conversation (spec_store st) id >>= delete_found (spec_store st) profile_id id))
        ∙ (ap {A = Exec Keyspace (Unit {0})} (λ f. f (created b fs))
              (if_neg (text_discrete convo.id []) (λ x. cc) _ _)
            ∙ (bind_ok (get_conversation (spec_store st) convo.id) get_created
                  (delete_found (spec_store st) profile_id convo.id)
                ∙ delete_found-spec))

    -- What is under the two keys afterwards.
    owned-deleted : hash_at (deleted owned) ≡ ok (remove_field name (set_field name convo.id fs))
    owned-deleted =
        ap hash_at (put_other here owned none removed owned_apart ∙ put_self owned _ (created b fs))
        ∙ hash_at-keep_hash _ _

    pub id_deleted :
        (j : Text)
        → get_owned_conversation_id_by_name (spec_store st) profile_id j deleted
          ≡ (or_nil [] (field j (remove_field name (set_field name convo.id fs))), deleted)
    unfolding get_owned_conversation_id_by_name owned_conversations_key
    id_deleted j =
        get_map_value-spec st.prefix (owned_conversations_key profile_id) n deleted owned-deleted j

    pub get_deleted : get_conversation (spec_store st) convo.id deleted ≡ (err not_found, deleted)
    unfolding get_conversation
    get_deleted =
        fetch_missing-spec st.prefix st.conversations (conversation_key convo.id) deleted
          (put_self here none removed)

    pub id_before :
        (j : Text)
        → get_owned_conversation_id_by_name (spec_store st) profile_id j m
          ≡ (or_nil [] (field j fs), m)
    unfolding get_owned_conversation_id_by_name owned_conversations_key
    id_before j = get_map_value-spec st.prefix (owned_conversations_key profile_id) n m h j
