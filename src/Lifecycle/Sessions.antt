-- ===== src/Lifecycle/Sessions.antt =====
-- The sessions of one server: how they are found, made, ended and handed over.
pub mod Handover
pub mod Found
pub mod Takeover
pub mod Queued
pub mod Drained
pub mod Suspended
use srv.Prelude.{
  ℕ, zero, suc, if◌then◌else◌, length, Bool, true, false, Option, none, some, List, [], ◌∷◌, Error,
  Result, ok, err, Exec, pure, handle, Text, Dict, lookup, insert, delete,
}
use srv.Storage.Types.{SessionState}
use srv.Storage.Conversation.{get_conversation}
use srv.Storage.Sessions.{
  load_session_state, save_session_state, add_suspended_session, wait_for_suspended_session,
  remove_suspended_session,
}
use srv.Lifecycle.Session.{Backend, Session, Live, start, with_redis, logged}
use srv.Lifecycle.Ending.{end}
use srv.Lifecycle.Transcribe.{stop_transcribing}

module _ (b : Backend) where
  -- The map of the sessions, and what is outside.
  pub record Server : Type 0 where
    pub sessions : Dict Session
    pub pubsub : b.manager.State
    pub redis : b.store.redis.World
    pub speech : b.Speech

  -- One session with what is outside, and the way back.
  abbrev pub live_of : Session → Server → Live b
  live_of s v = record { session = s; pubsub = v.pubsub; redis = v.redis; speech = v.speech }

  abbrev pub outside : Live b → Server → Server
  outside t v = record {
    sessions = v.sessions;
    pubsub = t.pubsub;
    redis = t.redis;
    speech = t.speech;
  }

  abbrev pub server_redis : {A : Type 0} → Exec b.store.redis.World A → Exec Server A
  server_redis m v = let (res, w) = m v.redis in (res, record v { redis = w })

  -- A missing token stands for a client that cannot authenticate.
  unfoldable pub authenticate_participant : Text → Text → Exec Server (Option Text)
  authenticate_participant conversation_id client_id v = elim (lookup conversation_id v.sessions) [
    | none ↦ (ok none, v)
    | some s ↦
        let (res, p) = b.manager.client_token conversation_id client_id v.pubsub in
        (res, record v { pubsub = p })
  ]

  unfoldable pub new_session : Text → Text → SessionState → Session
  new_session id owner state = record {
    id = id;
    owner = owner;
    state = state;
    cancelled = false;
    live_packets = [];
    live_text = [];
    overlap = [];
    shutting_down = false;
    transcript_id = [];
  }

  -- The session is kept when it has started.
  unfoldable pub started : Text → Session → Exec Server Session
  unfolding start
  started conversation_id s v =
      let (res, t) = start b (live_of s v) in
      elim res [
        | err e ↦ (err e, outside t v)
        | ok _ ↦ (
          ok t.session,
          record (outside t v) { sessions = insert conversation_id t.session v.sessions },
        )
      ]

  -- A state that was loaded is never missing, so no new state is made here.
  unfoldable pub get_session : Text → Exec Server Session
  unfolding started new_session
  get_session conversation_id v = elim (lookup conversation_id v.sessions) [
    | some s ↦ (ok s, v)
    | none ↦
        let (loaded, w) = load_session_state b.store conversation_id v.redis in
        elim loaded [
          | err e ↦ (err e, record v { redis = w })
          | ok state ↦
              let (found, u) = get_conversation b.store conversation_id w in
              elim found [
                | err e ↦ (err e, record v { redis = u })
                | ok c ↦
                    started conversation_id (new_session conversation_id c.owner state)
                      (record v { redis = u })
              ]
        ]
  ]

  -- The session that is ended is removed first.
  unfoldable pub end_session : ℕ → Session → Server → Text × Server
  unfolding end
  end_session now s v =
      let removed = record v { sessions = delete s.id v.sessions } in
      let (transcript_id, t) = end b now (live_of s removed) in (transcript_id, outside t removed)

  -- The sessions of the range, in the order of the entries.
  unfoldable pub end_each : ℕ → Dict Session → Server → Server
  unfolding end_session
  end_each now [] v = v
  end_each now ((k, s) ∷ rest) v = end_each now rest (end_session now s v).1

  unfoldable pub end_all_sessions : ℕ → Server → Server
  unfolding end_each
  end_all_sessions now v = end_each now v.sessions v

  -- The two halves of `Shutdown`: at once, and when the ten seconds have passed.
  unfoldable pub begin_shutdown : Session → Server → Session × Server
  begin_shutdown s v =
      (record s { shutting_down = true }, record v { sessions = delete s.id v.sessions })

  unfoldable pub finish_shutdown : Live b → Live b
  finish_shutdown t =
      let stopped = record t {
        session = record t.session { cancelled = true };
        pubsub = b.manager.end_session t.session.id t.pubsub;
      } in
      logged (with_redis (save_session_state b.store t.session.state)) stopped

  -- What `ShutdownAllSessions` does for a session that has finished.
  unfoldable pub suspended : Text → Server → Server
  suspended id v = (server_redis (add_suspended_session b.store id) v).1

  -- The first loop of `ShutdownAllSessions`: the sessions of the range, in the order of the
  -- entries.
  unfoldable pub begin_each : Dict Session → Server → List Session × Server
  unfolding begin_shutdown
  begin_each [] v = ([], v)
  begin_each ((k, s) ∷ rest) v =
      let (closing, v1) = begin_shutdown s v in
      let (others, v2) = begin_each rest v1 in (closing ∷ others, v2)

  -- The second loop, when the ten seconds have passed: each session is cancelled, which ends its
  -- transcription, finishes and is suspended.
  unfoldable pub finish_each : List Session → Server → Server
  unfolding finish_shutdown suspended
  finish_each [] v = v
  finish_each (s ∷ rest) v =
      finish_each rest
        (suspended s.id (outside (finish_shutdown (stop_transcribing b (live_of s v))) v))

  -- Nothing else happens here in the ten seconds, and the sessions finish in their order.
  unfoldable pub shutdown_all_sessions : Server → ℕ × Server
  unfolding begin_each finish_each
  shutdown_all_sessions v =
      let (closing, v1) = begin_each v.sessions v in (length v.sessions, finish_each closing v1)

  -- `Shutdown` of the server, with the count that it logs.
  unfoldable pub shutdown : ℕ → Bool → Server → ℕ × Server
  unfolding end_all_sessions shutdown_all_sessions
  shutdown now true v = (length v.sessions, end_all_sessions now v)
  shutdown now false v = shutdown_all_sessions v

  -- Two attempts, then the id leaves the queue; errors are logged.
  unfoldable pub resume : Text → Server → Server
  unfolding get_session
  resume id v =
      let first = get_session id v in
      let second = get_session id first.1 in
      (server_redis (remove_suspended_session b.store id) second.1).1

  -- One turn of the loop of `StartAllSuspendedSessions`, and whether the loop goes on.
  unfoldable pub start_suspended_session : Server → Bool × Server
  unfolding resume
  start_suspended_session v =
      let (res, after) = server_redis (wait_for_suspended_session b.store 30) v in
      elim res [
        | err e ↦ (false, after)
        | ok [] ↦ (false, after)
        | ok (c ∷ cs) ↦ (true, resume (c ∷ cs) after)
      ]

  -- The loop, with at most as many turns as there is fuel: none when that did not suffice.
  unfoldable pub start_all_suspended_sessions : ℕ → Server → Option Server
  unfolding start_suspended_session
  start_all_suspended_sessions zero v = none
  start_all_suspended_sessions (suc n) v =
      let (goes_on, after) = start_suspended_session v in
      let rest = start_all_suspended_sessions n after in if goes_on then rest else some after
