-- ===== src/Lifecycle/Sessions/Suspended.antt =====
-- A server that shuts down leaves its sessions in the queue.
use srv.Prelude.{
  ℕ, suc, ◌≤◌, All, false, ◌≡◌, ◌≢◌, refl, ap, sym, subst, ◌∙◌, none, List, [], ◌∷◌, ◌++◌,
  append_assoc, append-nil, map, ok, Text, Dict, lookup, lookup-delete, text_discrete, length,
  arith,
}
use mathlib.Core.List.{reverse, reverse-cons}
use srv.Platform.Redis.Spec.{Documented, list_at}
use srv.Storage.Queue.{queue, queue_at, add-spec, add-Simulates}
use srv.Lifecycle.Session.{Backend, Session}
use srv.Lifecycle.Sessions.{
  Server, live_of, outside, begin_shutdown, finish_shutdown, suspended, begin_each, finish_each,
  shutdown_all_sessions, shutdown, start_all_suspended_sessions,
}
use srv.Lifecycle.Sessions.Drained.{Queued, Drains, start_all_suspended_sessions-Drains}
use srv.Lifecycle.Sessions.Queued.{save-SameQueue, stop-SameQueue}
use srv.Lifecycle.Transcribe.{stop_transcribing}
use srv.Lifecycle.Sessions.Found.{Keyed}

abbrev pub ids_of : Dict Session → List Text
ids_of = map (λ e. e.1.id)

module _ (b : Backend) where
  begin_each-ids :
      (es : Dict Session) (v : Server b)
      → (map (λ s. s.id) (begin_each b es v).0 ≡ ids_of es)
        × ((begin_each b es v).1.redis ≡ v.redis)
  unfolding begin_each begin_shutdown
  begin_each-ids [] v = (refl, refl)
  begin_each-ids ((k, s) ∷ es) v =
      let (ids, redis) = begin_each-ids es (begin_shutdown b s v).1 in (ap (◌∷◌ s.id) ids, redis)

  begin_each-absent :
      (es : Dict Session) (v : Server b) (j : Text)
      → lookup j v.sessions ≡ none
      → lookup j (begin_each b es v).1.sessions ≡ none
  unfolding begin_each begin_shutdown
  begin_each-absent [] v j h = h
  begin_each-absent ((k, s) ∷ es) v j h =
      begin_each-absent es (begin_shutdown b s v).1 j
        (ground (arith, lookup-delete s.id j v.sessions, h))

  begin_each-removes :
      (es : Dict Session) (v : Server b) (j : Text)
      → Keyed es
      → lookup j v.sessions ≡ lookup j es
      → lookup j (begin_each b es v).1.sessions ≡ none
  unfolding begin_each begin_shutdown lookup
  begin_each-removes [] v j h e = e
  begin_each-removes ((k, s) ∷ es) v j (own, h) e = elim (text_discrete k j) [
    | yes same ↦
        begin_each-absent es (begin_shutdown b s v).1 j
          (ground (arith, lookup-delete s.id j v.sessions))
    | no other ↦
        begin_each-removes es (begin_shutdown b s v).1 j h
          (ground (arith, lookup-delete s.id j v.sessions))
  ]

  finish_each-sessions :
      (ss : List Session) (v : Server b) → (finish_each b ss v).sessions ≡ v.sessions
  unfolding finish_each suspended
  finish_each-sessions [] v = refl
  finish_each-sessions (s ∷ ss) v =
      finish_each-sessions ss
        (suspended b s.id (outside b (finish_shutdown b (stop_transcribing b (live_of b s v))) v))

module _ (b : Backend) (d : Documented b.store.redis) where
  finish-Queued :
      (s : Session) (v : Server b) (ids : List Text)
      → Queued b d v ids
      → Queued b d (outside b (finish_shutdown b (stop_transcribing b (live_of b s v))) v) ids
  unfolding finish_shutdown
  finish-Queued s v ids (up, e) =
      let stopped = stop_transcribing b (live_of b s v) in
      let (kept, healthy) = stop-SameQueue b d (live_of b s v) up in
      let (same, still) = save-SameQueue b d stopped.session.state stopped.redis healthy in
      (still, ap list_at (same ∙ kept) ∙ e)

  suspended-Queued :
      (id : Text) (v : Server b) (ids : List Text)
      → Queued b d v ids
      → Queued b d (suspended b id v) (id ∷ ids)
  unfolding suspended
  suspended-Queued id v ids (up, e) =
      let s = add-Simulates b.store d id in
      (
        s.healthy v.redis up,
        ap (queue_at b.store) (s.keeps v.redis up) ∙ (add-spec b.store (d.view v.redis) id ids e).1,
      )

  finish_each-Queued :
      (ss : List Session) (v : Server b) (ids : List Text)
      → Queued b d v ids
      → Queued b d (finish_each b ss v) (reverse (map (λ s. s.id) ss) ++ ids)
  unfolding finish_each
  finish_each-Queued [] v ids q = q
  finish_each-Queued (s ∷ ss) v ids q =
      let after = outside b (finish_shutdown b (stop_transcribing b (live_of b s v))) v in
      let next = suspended-Queued s.id after ids (finish-Queued s v ids q) in
      subst (Queued b d (finish_each b ss (suspended b s.id after)))
        (sym (append_assoc (reverse (map (λ x. x.id) ss)) (s.id ∷ []) ids)
          ∙ ap (λ xs. xs ++ ids) (sym (reverse-cons s.id (map (λ x. x.id) ss))))
        (finish_each-Queued ss (suspended b s.id after) (s.id ∷ ids) next)

  -- Over a healthy client, a server that shuts down without ending its sessions keeps none of them,
  -- when each is under its own id: the ids of all of them are in the queue, behind those that were
  -- there, in the order in which they were shut down, and the count is their number.
  pub shutdown-suspends :
      (now : ℕ) (v : Server b) (ids : List Text)
      → Keyed v.sessions
      → d.Healthy v.redis
      → queue b.store d v.redis ≡ ok ids
      → let r = shutdown b now false v in
        (r.0 ≡ length v.sessions)
        × ((j : Text) → lookup j r.1.sessions ≡ none)
        × d.Healthy r.1.redis
        × (queue b.store d r.1.redis ≡ ok (reverse (ids_of v.sessions) ++ ids))
  unfolding shutdown shutdown_all_sessions
  shutdown-suspends now v ids keyed up e =
      let closing = begin_each b v.sessions v in
      let (same_ids, same_redis) = begin_each-ids b v.sessions v in
      let start : Queued b d closing.1 ids =
        subst (λ w. d.Healthy w × (queue b.store d w ≡ ok ids)) (sym same_redis) (up, e) in
      let (still, there) = finish_each-Queued closing.0 closing.1 ids start in
      (
        refl,
        λ j.
            ap (lookup j) (finish_each-sessions b closing.0 closing.1)
            ∙ begin_each-removes b v.sessions v j keyed refl,
        still,
        there ∙ ap (λ xs. ok (reverse xs ++ ids)) same_ids,
      )

  -- A server shuts down over a healthy client with an empty queue, its sessions under their own
  -- ids, none of which is empty. The loop of the next server, on the keys that this one leaves,
  -- ends after one turn for each of these sessions and one more, also with more fuel, and leaves an
  -- empty queue.
  pub shutdown-resumed :
      (now n : ℕ) (v u : Server b)
      → Keyed v.sessions
      → d.Healthy v.redis
      → queue b.store d v.redis ≡ ok []
      → All (λ id. id ≢ []) (ids_of v.sessions)
      → length (ids_of v.sessions) ≤ n
      → u.redis ≡ (shutdown b now false v).1.redis
      → Drains b d (start_all_suspended_sessions b (suc n) u)
  shutdown-resumed now n v u keyed up empty ns len same =
      let (_, _, healthy, there) = shutdown-suspends now v [] keyed up empty in
      start_all_suspended_sessions-Drains b d n (ids_of v.sessions) u len ns
        (subst d.Healthy (sym same) healthy)
        (ap (λ w. queue b.store d w) same
          ∙ (there ∙ ap ok (append-nil (reverse (ids_of v.sessions)))))
