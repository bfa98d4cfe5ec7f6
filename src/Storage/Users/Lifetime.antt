-- ===== src/Storage/Users/Lifetime.antt =====
-- A conversation that is created is found by its name, and no longer once it is deleted.
use srv.Prelude.{
  ◌≡◌, ◌≢◌, ap, ◌∙◌, ite, List, [], not_found, Result, ok, err, Exec, Text, text_discrete, arith,
}
use srv.Platform.Redis.Spec.{Keyspace, hash_at, Documented, set_field, field}
use srv.Platform.Redis.Simulation.{Simulates}
use srv.Platform.Orm.Keys.{raw_key, or_nil}
use srv.Platform.Orm.MapLaws.{field-set_field, field-remove_field}
use srv.Storage.Types.{Conversation, Store, owned_conversations_key}
use srv.Storage.Profile.{get_owned_conversation_id_by_name}
use srv.Storage.Conversation.{new_conversation, get_conversation}
use srv.Storage.Users.{create_new_owned_conversation, delete_owned_conversation}
use srv.Storage.Users.Simulation.{
  create_new_owned_conversation-Simulates, delete_owned_conversation-Simulates,
  get_owned_conversation_id_by_name-Simulates, get_conversation-Simulates,
}
use srv.Storage.Users.Owned.{
  created, deleted, create-spec, id_after, get_created, delete-owned-spec, id_deleted, get_deleted,
  id_before,
}

module _ (st : Store) (d : Documented st.redis) (random profile_id name b : Text)
    (fs : List (Text × Text)) (w : st.redis.World) (healthy : d.Healthy w) (n : profile_id ≢ [])
    (e : st.conversations.to_redis (new_conversation random profile_id name) ≡ ok b)
    (h : hash_at (d.view w (raw_key st.prefix (owned_conversations_key profile_id))) ≡ ok fs) where
  abbrev m : Keyspace
  m = d.view w

  abbrev create : Exec st.redis.World Conversation
  create = create_new_owned_conversation st random profile_id name

  abbrev delete_it : Exec st.redis.World (Unit {0})
  delete_it = delete_owned_conversation st profile_id name

  abbrev c : Conversation
  c = new_conversation random profile_id name

  -- The creation, and a call after it.
  after :
      {A : Type 0} {q : Exec st.redis.World A} {s : Exec Keyspace A} {r : Result A × Keyspace}
      → Simulates d q s
      → s (created st random profile_id name m b fs) ≡ r
      → ((q (create w).1).0 ≡ r.0) × (d.view (q (create w).1).1 ≡ r.1)
  after {s = s} sim expected =
      let first = create_new_owned_conversation-Simulates st d random profile_id name in
      let now : d.view (create w).1 ≡ created st random profile_id name m b fs =
        first.keeps w healthy
        ∙ ap (λ r. r.1) (create-spec st random profile_id name m b fs n e h) in
      let up = first.healthy w healthy in
      (
        sim.reply (create w).1 up ∙ (ap (λ v. (s v).0) now ∙ ap (λ r. r.0) expected),
        sim.keeps (create w).1 up ∙ (ap (λ v. (s v).1) now ∙ ap (λ r. r.1) expected),
      )

  -- The id under a name before.
  before :
      (j : Text) → (get_owned_conversation_id_by_name st profile_id j w).0 ≡ or_nil [] (field j fs)
  before j =
      (get_owned_conversation_id_by_name-Simulates st d profile_id j).reply w healthy
      ∙ ap (λ r. r.0) (id_before st random profile_id name m b fs n e h j)

  -- Over a healthy client, where the profile has an id and its map holds a map or nothing, and the
  -- conversation has an encoding: it is created without an error, its id then leads to the
  -- conversation, and the name leads to the id, and every other name to what it led to before.
  pub create_new_owned_conversation-found :
      let made = create_new_owned_conversation st random profile_id name w in
      let c = new_conversation random profile_id name in
      (made.0 ≡ ok c)
      × ((get_conversation st c.id made.1).0 ≡ ok c)
      × ((j : Text)
          → (get_owned_conversation_id_by_name st profile_id j made.1).0
            ≡ ite
                (text_discrete name j)
                (ok c.id)
                (get_owned_conversation_id_by_name st profile_id j w).0)
  create_new_owned_conversation-found = (
    (create_new_owned_conversation-Simulates st d random profile_id name).reply w healthy
        ∙ ap (λ r. r.0) (create-spec st random profile_id name m b fs n e h),
    (after (get_conversation-Simulates st d c.id)
        (get_created st random profile_id name m b fs n e h)).0,
    λ j.
        (after (get_owned_conversation_id_by_name-Simulates st d profile_id j)
          (id_after st random profile_id name m b fs n e h j)).0
        ∙ ground (arith, before j, field-set_field name j c.id fs),
  )

  -- After the deletion.
  after_deletion :
      {A : Type 0} {q : Exec st.redis.World A} {s : Exec Keyspace A} {r : Result A × Keyspace}
      → Simulates d q s
      → s (deleted st random profile_id name m b fs n e h) ≡ r
      → (q (delete_it (create w).1).1).0 ≡ r.0
  after_deletion {s = s} sim expected =
      let gone =
        (after (delete_owned_conversation-Simulates st d profile_id name)
          (delete-owned-spec st random profile_id name m b fs n e h)).1 in
      let first = create_new_owned_conversation-Simulates st d random profile_id name in
      let up =
        (delete_owned_conversation-Simulates st d profile_id name).healthy (create w).1
          (first.healthy w healthy) in
      sim.reply (delete_it (create w).1).1 up ∙ (ap (λ v. (s v).0) gone ∙ ap (λ r. r.0) expected)

  -- Over a healthy client, where the profile has an id and its map of conversations holds a map or
  -- nothing, and the new conversation has an encoding: the conversation that is created under a
  -- name, also one that led to another conversation, is deleted by that name without an error: then
  -- its id leads to nothing, the name to no id, and every other name to what it led to before the
  -- creation.
  pub delete_owned_conversation-create :
      let made = create_new_owned_conversation st random profile_id name w in
      let removed = delete_owned_conversation st profile_id name made.1 in
      let c = new_conversation random profile_id name in
      (removed.0 ≡ ok tt)
      × ((get_conversation st c.id removed.1).0 ≡ err not_found)
      × ((j : Text)
          → (get_owned_conversation_id_by_name st profile_id j removed.1).0
            ≡ ite
                (text_discrete name j)
                (ok [])
                (get_owned_conversation_id_by_name st profile_id j w).0)
  delete_owned_conversation-create = (
    (after (delete_owned_conversation-Simulates st d profile_id name)
        (delete-owned-spec st random profile_id name m b fs n e h)).0,
    after_deletion (get_conversation-Simulates st d c.id)
        (get_deleted st random profile_id name m b fs n e h),
    λ j.
        after_deletion (get_owned_conversation_id_by_name-Simulates st d profile_id j)
          (id_deleted st random profile_id name m b fs n e h j)
        ∙ ground (
          arith,
          before j,
          field-set_field name j c.id fs,
          field-remove_field name j (set_field name c.id fs),
        ),
  )
