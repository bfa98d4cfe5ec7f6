-- ===== src/Pubsub/Manager/Isolation.antt =====
-- Sessions by id: starting twice, and independence.
use srv.Prelude.{
  ◌≡◌, ◌≢◌, refl, none, some, Option-cases, Result-cases, inl, inr, Error, ok, err, [], Exec, Text,
  lookup, insert, lookup-insert_self, lookup-insert_ne, lookup-delete_self, lookup-delete_ne,
}
use srv.Pubsub.Ably.{Ably}
use srv.Pubsub.Session.{Session, State, start}
use srv.Pubsub.Manager.{AblyManager, start_session, end_session, on_session}

start_existing :
    (a : Ably) (server_id id : Text) (m : AblyManager a server_id) {s : Session}
    → lookup id m.sessions ≡ some s
    → start_session a server_id id m ≡ (ok tt, m)
unfolding start_session
start_existing a server_id id m e = rw (e, start_session) refl

module _ (a : Ably) (server_id : Text) (id : Text) (m : AblyManager a server_id) where
  abbrev fresh : Session
  fresh = record { id = id; cr = []; sr = []; participants = [] }

  abbrev with_fresh : AblyManager a server_id
  with_fresh = record {
    sessions = insert id fresh m.sessions;
    world = (start a server_id id m.world).1;
  }

  start_new :
      {u : Unit {0}}
      → lookup id m.sessions ≡ none
      → (start a server_id id m.world).0 ≡ ok u
      → start_session a server_id id m ≡ (ok tt, with_fresh)
  unfolding start_session
  start_new e started = rw (e, start_session, started) refl

  start_failed :
      {x : Error}
      → lookup id m.sessions ≡ none
      → (start a server_id id m.world).0 ≡ err x
      → start_session a server_id id m
        ≡ (err x, record m { world = (start a server_id id m.world).1 })
  unfolding start_session
  start_failed e failed = rw (e, start_session, failed) refl

  -- After a start without an error the session is there, with no participant if it is new, and to
  -- start it again does nothing and does not fail.
  pub start_session_twice :
      (start_session a server_id id m).0 ≡ ok tt
      → let m' = (start_session a server_id id m).1 in
        let new : Session = record { id = id; cr = []; sr = []; participants = [] } in
        (start_session a server_id id m' ≡ (ok tt, m'))
        × (lookup id m'.sessions
            ≡ elim (lookup id m.sessions) [ none ↦ some new | some s ↦ some s ])
  start_session_twice = elim (Option-cases (lookup id m.sessions)) [
    | inr (s, e) ↦
        rw (start_existing a server_id id m e) (λ _. (start_existing a server_id id m e, rw e refl))
    | inl e ↦ elim (Result-cases (start a server_id id m.world).0) [
      | inr (x, failed) ↦ rw (start_failed e failed) (λ bad. cc)
      | inl (u, started) ↦
          let there = lookup-insert_self id fresh m.sessions in
          rw (start_new e started)
            (λ _. (start_existing a server_id id with_fresh there, rw e there))
    ]
  ]

  -- A call on a session, and its end, leave every other session as it was, and a session that was
  -- ended is no longer there.
  pub other_sessions_kept :
      (j : Text) {A : Type 0} (f : Exec (State a) A)
      → id ≢ j
      → (lookup j (on_session a server_id id f m).1.sessions ≡ lookup j m.sessions)
        × (lookup j (end_session a server_id id m).sessions ≡ lookup j m.sessions)
        × (lookup id (end_session a server_id id m).sessions ≡ none)
  unfolding on_session end_session
  other_sessions_kept j f n = elim (Option-cases (lookup id m.sessions)) [
    | inl e ↦
        rw (e, on_session, end_session)
          (refl, lookup-delete_ne id j m.sessions n, lookup-delete_self id m.sessions)
    | inr (s, e) ↦
        rw (e, on_session, end_session)
          (
            lookup-insert_ne id j _ m.sessions n,
            lookup-delete_ne id j m.sessions n,
            lookup-delete_self id m.sessions,
          )
  ]
