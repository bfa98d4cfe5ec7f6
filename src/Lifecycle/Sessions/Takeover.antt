-- ===== src/Lifecycle/Sessions/Takeover.antt =====
-- The next server goes on with the session.
use srv.Prelude.{false, Bool, Result, err, map, Dict}
use srv.Storage.Types.{SessionState, Participant}
use srv.Lifecycle.Session.{Session}
use srv.Prelude.{◌≡◌, none, some, [], ok, Text, lookup}
use srv.Storage.Types.{Conversation}
use srv.Lifecycle.Session.{Backend}
use srv.Lifecycle.Sessions.{Server}

-- The participants apart from who is online.
abbrev pub but_presence : Dict Participant → Dict Participant
but_presence = map (λ e. (e.0, record e.1 { is_online = false }))

-- A manager that lets every client into a session.
pub record Welcomes (b : Backend) : Type 0 where
  pub whisperer :
      (id k : Text) (w : b.manager.State)
      → (online : Bool) × ((b.manager.add_whisperer id k w).0 ≡ ok online)
  pub listener :
      (id k : Text) (w : b.manager.State)
      → (online : Bool) × ((b.manager.add_listener id k w).0 ≡ ok online)

-- A session with a state and an owner is given, and kept under its id.
pub record Resumes (b : Backend) (id owner : Text) (old : SessionState)
    (r : Result Session × Server b) : Type 0 where
  pub session : Session
  pub is_given : r.0 ≡ ok session
  pub is_kept : lookup id r.1.sessions ≡ some session
  pub has_id : session.id ≡ id
  pub has_owner : session.owner ≡ owner
  pub no_live_text : session.live_text ≡ []
  pub no_live_packets : session.live_packets ≡ []
  pub not_cancelled : session.cancelled ≡ false
  pub not_shutting_down : session.shutting_down ≡ false
  pub state_id : session.state.id ≡ old.id
  pub participants : but_presence session.state.participants ≡ but_presence old.participants
  pub waitlist : session.state.waitlist ≡ old.waitlist
  pub past_text : session.state.past_text ≡ old.past_text
  pub started_at : session.state.started_at ≡ old.started_at
  pub ended_at : session.state.ended_at ≡ old.ended_at

-- What the start of the session by the manager makes of the call.
abbrev pub TakenOver :
    (b : Backend)
    → Text
    → Text
    → SessionState
    → Result (Unit {0})
    → Result Session × Server b
    → Type 0
TakenOver b id owner old (err e) r = (r.0 ≡ err e) × (lookup id r.1.sessions ≡ none)
TakenOver b id owner old (ok _) r = Resumes b id owner old r
