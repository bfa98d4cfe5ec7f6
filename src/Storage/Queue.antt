-- ===== src/Storage/Queue.antt =====
-- The queue of the suspended sessions.
use srv.Prelude.{
  ℕ, ◌≡◌, refl, ap, ◌∙◌, true, false, some, List, [], ◌∷◌, ◌++◌, Result, ok, Text, pos, arith,
}
use mathlib.Core.List.{reverse-append, reverse-reverse}
use srv.Platform.Redis.Spec.{
  Keyspace, put, exec, list_at, keep_list, ttl_at, Documented, pop, push, moved, remove_count,
  remove_first,
}
use srv.Platform.Redis.{right}
use srv.Platform.Redis.Simulation.{spec_redis, Simulates, Simulates-handle, Simulates-lift}
use srv.Platform.Orm.Keys.{raw_key, db_key, or_nil}
use srv.Platform.Orm.Lists.{fetch_list_member_blocking, push_list_members, remove_list_element}
use srv.Platform.Orm.Refinement.{
  fetch_list_member_blocking-Simulates, push_list_members-Simulates, remove_list_element-Simulates,
}
use srv.Platform.Orm.Laws.{put_self, db_key_valid}
use srv.Platform.Orm.ListLaws.{list_at-keep_list}
use srv.Storage.Types.{Store, suspended_session_queue}
use srv.Storage.Sessions.{
  add_suspended_session, wait_for_suspended_session, remove_suspended_session,
}

abbrev pub spec_store : Store → Store
spec_store st = record st { redis = spec_redis }

pop-last : (x : Text) (xs : List Text) → pop right (xs ++ x ∷ []) ≡ some (x, xs)
unfolding pop
pop-last x xs = rw (pop, reverse-append xs (x ∷ [])) (ap (λ ys. some (x, ys)) (reverse-reverse xs))

remove_count-head : (x : Text) (xs : List Text) → remove_count (pos 1) x (x ∷ xs) ≡ xs
unfolding remove_count remove_first
remove_count-head x xs = ground arith

-- The list of the queue.
abbrev pub queue_at : Store → Keyspace → Result (List Text)
queue_at st m = list_at (m (raw_key st.prefix suspended_session_queue))

has_key :
    (st : Store)
    → db_key st.prefix suspended_session_queue ≡ ok (raw_key st.prefix suspended_session_queue)
unfolding suspended_session_queue
has_key st = db_key_valid st.prefix suspended_session_queue (λ e. cc)

module _ (st : Store) (m : Keyspace) where
  pub add-spec :
      (id : Text) (xs : List Text)
      → queue_at st m ≡ ok xs
      → let r = add_suspended_session (spec_store st) id m in
        (r.0 ≡ ok tt) × (queue_at st r.1 ≡ ok (id ∷ xs))
  unfolding add_suspended_session push_list_members exec
  add-spec id xs e =
      rw (has_key st, e)
        (
          refl,
          ap list_at (put_self _ _ m)
              ∙ list_at-keep_list (id ∷ xs)
                  (ttl_at (m (raw_key st.prefix suspended_session_queue))),
        )

  pub wait-spec :
      (timeout : ℕ) (x : Text) (xs : List Text)
      → queue_at st m ≡ ok (xs ++ x ∷ [])
      → let r = wait_for_suspended_session (spec_store st) timeout m in
        (r.0 ≡ ok x) × (queue_at st r.1 ≡ ok (x ∷ xs))
  unfolding wait_for_suspended_session fetch_list_member_blocking exec moved push
  wait-spec timeout x xs e =
      let key = raw_key st.prefix suspended_session_queue in
      let without = put key (keep_list xs (ttl_at (m key))) m in
      let rest : list_at (without key) ≡ ok xs =
        ap list_at (put_self key _ m) ∙ list_at-keep_list xs _ in
      rw (has_key st, moved, e, pop-last x xs, rest)
        (
          refl,
          ap list_at (put_self key _ without) ∙ list_at-keep_list (x ∷ xs) (ttl_at (without key)),
        )

  pub wait_empty-spec :
      (timeout : ℕ)
      → queue_at st m ≡ ok []
      → wait_for_suspended_session (spec_store st) timeout m ≡ (ok [], m)
  unfolding wait_for_suspended_session fetch_list_member_blocking exec moved pop
  wait_empty-spec timeout e = rw (has_key st, moved, e) refl

  pub remove-spec :
      (x : Text) (xs : List Text)
      → queue_at st m ≡ ok (x ∷ xs)
      → let r = remove_suspended_session (spec_store st) x m in
        (r.0 ≡ ok tt) × (queue_at st r.1 ≡ ok xs)
  unfolding remove_suspended_session remove_list_element exec
  remove-spec x xs e =
      rw (has_key st, e)
        (
          refl,
          ap list_at (put_self _ _ m) ∙ (list_at-keep_list _ _ ∙ ap ok (remove_count-head x xs)),
        )

module _ (st : Store) (d : Documented st.redis) where
  abbrev pub queue : st.redis.World → Result (List Text)
  queue w = queue_at st (d.view w)

  pub add-Simulates :
      (id : Text)
      → Simulates d (add_suspended_session st id) (add_suspended_session (spec_store st) id)
  unfolding add_suspended_session
  add-Simulates id = push_list_members-Simulates d st.prefix _ true _

  pub wait-Simulates :
      (timeout : ℕ)
      → Simulates d
          (wait_for_suspended_session st timeout)
          (wait_for_suspended_session (spec_store st) timeout)
  unfolding wait_for_suspended_session
  wait-Simulates timeout =
      Simulates-handle d (fetch_list_member_blocking-Simulates d st.prefix _ false _)
        (λ res. Simulates-lift d (or_nil [] res))

  pub remove-Simulates :
      (id : Text)
      → Simulates d (remove_suspended_session st id) (remove_suspended_session (spec_store st) id)
  unfolding remove_suspended_session
  remove-Simulates id = remove_list_element-Simulates d st.prefix _ _ _

  -- Over a healthy client, a session that is added to the queue goes behind those that are there.
  pub queue-add_suspended_session :
      (id : Text) (ids : List Text) (w : st.redis.World)
      → d.Healthy w
      → queue w ≡ ok ids
      → let added = add_suspended_session st id w in
        (added.0 ≡ ok tt) × (queue added.1 ≡ ok (id ∷ ids))
  queue-add_suspended_session id ids w h e =
      let s = add-Simulates id in
      let (reply, there) = add-spec st (d.view w) id ids e in
      (s.reply w h ∙ reply, ap (queue_at st) (s.keeps w h) ∙ there)

  -- Over a healthy client, waiting gives the session that was added first, which stays in the queue
  -- until it is removed; then the others are left in their order.
  pub wait_for_suspended_session-first :
      (timeout : ℕ) (id : Text) (ids : List Text) (w : st.redis.World)
      → d.Healthy w
      → queue w ≡ ok (ids ++ id ∷ [])
      → let waited = wait_for_suspended_session st timeout w in
        let removed = remove_suspended_session st id waited.1 in
        (waited.0 ≡ ok id)
        × (queue waited.1 ≡ ok (id ∷ ids))
        × (removed.0 ≡ ok tt)
        × (queue removed.1 ≡ ok ids)
  wait_for_suspended_session-first timeout id ids w h e =
      let s = wait-Simulates timeout in
      let r = remove-Simulates id in
      let (reply, there) = wait-spec st (d.view w) timeout id ids e in
      let w' = (wait_for_suspended_session st timeout w).1 in
      let rotated : queue w' ≡ ok (id ∷ ids) = ap (queue_at st) (s.keeps w h) ∙ there in
      let (answer, left_over) = remove-spec st (d.view w') id ids rotated in
      (
        s.reply w h ∙ reply,
        rotated,
        r.reply w' (s.healthy w h) ∙ answer,
        ap (queue_at st) (r.keeps w' (s.healthy w h)) ∙ left_over,
      )
