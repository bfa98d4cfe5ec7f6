-- ===== src/Pubsub/Manager.antt =====
-- The `ablyManager` of pubsub/ably.go: its sessions, and the interface that it fills.
pub mod Isolation
use srv.Prelude.{
  ◌≡◌, refl, ite, Bool, Option, none, some, List, [], ◌∷◌, Error, no_session, Result, ok, err, Exec,
  pure, raise, handle, ◌>>=◌, Text, Dict, lookup, insert, delete, lookup-insert, lookup-delete,
  lookup-delete_self, text_discrete, arith, Option-cases,
}
use srv.Protocol.Chunk.{ControlChunk}
use srv.Pubsub.Interface
use srv.Pubsub.Ably.{Ably}
use srv.Pubsub.Session.{Session, State, start, end}
use srv.Pubsub.Session

module _ (a : Ably) (server_id : Text) where
  pub record AblyManager : Type 0 where
    pub sessions : Dict Session
    pub world : a.World

  -- Starting a session that exists does nothing.
  unfoldable pub start_session : Text → Exec AblyManager (Unit {0})
  start_session session_id m = elim (lookup session_id m.sessions) [
    | some s ↦ (ok tt, m)
    | none ↦
        let (res, w) = start a server_id session_id m.world in
        elim res [
          | err e ↦ (err e, record m { world = w })
          | ok _ ↦
              let s : Session = record { id = session_id; cr = []; sr = []; participants = [] } in
              (ok tt, record { sessions = insert session_id s m.sessions; world = w })
        ]
  ]

  unfoldable pub end_session : Text → AblyManager → AblyManager
  end_session session_id m = elim (lookup session_id m.sessions) [
    | none ↦ record m { sessions = delete session_id m.sessions }
    | some s ↦ record { sessions = delete session_id m.sessions; world = end a s m.world }
  ]

  -- A method on the session with the id; sessions are shared by pointer, so a change stays.
  unfoldable pub on_session : {A : Type 0} → Text → Exec (State a) A → Exec AblyManager A
  on_session session_id f m = elim (lookup session_id m.sessions) [
    | none ↦ (err no_session, m)
    | some s ↦
        let (res, sw) = f (s, m.world) in
        (res, record { sessions = insert session_id sw.0 m.sessions; world = sw.1 })
  ]

  unfoldable pub add_whisperer : Text → Text → Exec AblyManager Bool
  unfolding on_session
  add_whisperer session_id client_id = on_session session_id (Session.add_whisperer a client_id)

  unfoldable pub add_listener : Text → Text → Exec AblyManager Bool
  unfolding on_session
  add_listener session_id client_id = on_session session_id (Session.add_listener a client_id)

  unfoldable pub client_token : Text → Text → Exec AblyManager (Option Text)
  unfolding on_session
  client_token session_id client_id = on_session session_id (Session.client_token a client_id)

  unfoldable pub remove_client : Text → Text → Exec AblyManager (Unit {0})
  unfolding on_session
  remove_client session_id client_id = on_session session_id (Session.remove_client a client_id)

  unfoldable pub send_control : Text → Text → ControlChunk → Exec AblyManager (Unit {0})
  unfolding on_session
  send_control session_id client_id chunk =
      on_session session_id (Session.send_control a client_id chunk)

  unfoldable pub broadcast_control : Text → ControlChunk → Exec AblyManager (Unit {0})
  unfolding on_session
  broadcast_control session_id chunk = on_session session_id (Session.broadcast_control a chunk)

  -- The interface of the lifecycle, filled.
  abbrev pub ably_manager : Interface.Manager
  ably_manager = record {
    State = AblyManager;
    start_session = start_session;
    end_session = end_session;
    add_whisperer = add_whisperer;
    add_listener = add_listener;
    client_token = client_token;
    remove_client = remove_client;
    send_control = send_control;
    broadcast_control = broadcast_control;
  }
