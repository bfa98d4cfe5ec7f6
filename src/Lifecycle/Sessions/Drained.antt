-- ===== src/Lifecycle/Sessions/Drained.antt =====
-- The loop over the suspended sessions ends, with an empty queue.
use srv.Prelude.{
  ℕ, zero, suc, ◌≤◌, ◌≡◌, ◌≢◌, refl, ap, subst, ◌∙◌, true, false, Option, none, some, List, [], ◌∷◌,
  ◌++◌, ok, Text, All, length, arith,
}
use mathlib.Core.List.{reverse, reverse-cons}
use srv.Platform.Redis.Spec.{Documented, list_at}
use srv.Storage.Sessions.{wait_for_suspended_session, remove_suspended_session}
use srv.Storage.Queue.{
  queue, queue_at, wait-spec, wait_empty-spec, remove-spec, wait-Simulates, remove-Simulates,
}
use srv.Lifecycle.Session.{Backend}
use srv.Lifecycle.Sessions.{
  Server, get_session, resume, start_suspended_session, start_all_suspended_sessions,
}
use srv.Lifecycle.Sessions.Queued.{get_session-SameQueue}

module _ (b : Backend) (d : Documented b.store.redis) where
  -- The client is healthy and the queue is this.
  abbrev pub Queued : Server b → List Text → Type 0
  Queued v ids = d.Healthy v.redis × (queue b.store d v.redis ≡ ok ids)

  got :
      (id : Text) (v : Server b) (ids : List Text)
      → Queued v ids
      → Queued (get_session b id v).1 ids
  got id v ids (up, e) =
      let (same, still) = get_session-SameQueue b d id v up in (still, ap list_at same ∙ e)

  removed :
      (id : Text) (ids : List Text) (w : b.store.redis.World)
      → d.Healthy w
      → queue b.store d w ≡ ok (id ∷ ids)
      → let u = (remove_suspended_session b.store id w).1 in
        d.Healthy u × (queue b.store d u ≡ ok ids)
  removed id ids w up e =
      let r = remove-Simulates b.store d id in
      (
        r.healthy w up,
        ap (queue_at b.store) (r.keeps w up) ∙ (remove-spec b.store (d.view w) id ids e).1,
      )

  resume-removes :
      (id : Text) (ids : List Text) (v : Server b)
      → Queued v (id ∷ ids)
      → Queued (resume b id v) ids
  unfolding resume
  resume-removes id ids v q =
      let (up, e) = got id (get_session b id v).1 (id ∷ ids) (got id v (id ∷ ids) q) in
      removed id ids (get_session b id (get_session b id v).1).1.redis up e

  waited :
      (id : Text) (ids : List Text) (v : Server b)
      → Queued v (ids ++ id ∷ [])
      → let r = wait_for_suspended_session b.store 30 v.redis in
        (r.0 ≡ ok id) × Queued (record v { redis = r.1 }) (id ∷ ids)
  waited id ids v (up, e) =
      let s = wait-Simulates b.store d 30 in
      let (reply, there) = wait-spec b.store (d.view v.redis) 30 id ids e in
      (
        s.reply v.redis up ∙ reply,
        (s.healthy v.redis up, ap (queue_at b.store) (s.keeps v.redis up) ∙ there),
      )

  -- A turn for a session that waits.
  turn :
      (id : Text) (ids : List Text) (v : Server b)
      → id ≢ []
      → Queued v (ids ++ id ∷ [])
      → let r = start_suspended_session b v in (r.0 ≡ true) × Queued r.1 ids
  unfolding start_suspended_session
  turn [] ids v n q = absurd (n refl)
  turn (c ∷ cs) ids v n q =
      let (reply, there) = waited (c ∷ cs) ids v q in
      rw (reply, start_suspended_session)
        (
          refl,
          resume-removes (c ∷ cs) ids
              (record v { redis = (wait_for_suspended_session b.store 30 v.redis).1 }) there,
        )

  -- A turn when none waits.
  last_turn :
      (v : Server b)
      → Queued v []
      → let r = start_suspended_session b v in (r.0 ≡ false) × Queued r.1 []
  unfolding start_suspended_session
  last_turn v (up, e) =
      let s = wait-Simulates b.store d 30 in
      let spec = wait_empty-spec b.store (d.view v.redis) 30 e in
      let reply = s.reply v.redis up ∙ ap (λ r. r.0) spec in
      rw (reply, start_suspended_session)
        (
          refl,
          (
            s.healthy v.redis up,
            ap (queue_at b.store) (s.keeps v.redis up ∙ ap (λ r. r.1) spec) ∙ e,
          ),
        )

  -- The queue, with the first to come at its end.
  abbrev pub Drains : Option (Server b) → Type 0
  Drains none = ⊥
  Drains (some v) = Queued v []

  drained :
      (n : ℕ) (rev : List Text) (v : Server b)
      → length rev ≤ n
      → All (λ id. id ≢ []) rev
      → Queued v (reverse rev)
      → Drains (start_all_suspended_sessions b (suc n) v)
  unfolding start_all_suspended_sessions
  drained n [] v len ns q =
      let (stops, after) = last_turn v q in rw (stops, start_all_suspended_sessions) after
  drained zero (id ∷ rev) v len ns q = absurd (omega arith)
  drained (suc n) (id ∷ rev) v len (m, ms) q =
      let (goes, after) = turn id (reverse rev) v m (subst (Queued v) (reverse-cons id rev) q) in
      rw (goes, start_all_suspended_sessions)
        (drained n rev (start_suspended_session b v).1 (omega arith) ms after)

  -- Over a healthy client, with sessions in the queue that all have an id, the loop ends after one
  -- turn for each of them and one more, also with more fuel, and then the queue is empty, whether
  -- each session could be started or not.
  pub start_all_suspended_sessions-Drains :
      (n : ℕ) (ids : List Text) (v : Server b)
      → length ids ≤ n
      → All (λ id. id ≢ []) ids
      → d.Healthy v.redis
      → queue b.store d v.redis ≡ ok (reverse ids)
      → Drains (start_all_suspended_sessions b (suc n) v)
  start_all_suspended_sessions-Drains n ids v len ns up e = drained n ids v len ns (up, e)
