-- ===== src/Pubsub/Interface.antt =====
-- The interface `Manager` of pubsub/interface.go, which the session lifecycle takes as a parameter.
use srv.Prelude.{Bool, Option, Exec, Text}
use srv.Protocol.Chunk.{ControlChunk}

pub record ClientStatus : Type 0 where
  pub client_id : Text
  pub is_online : Bool

-- The receivers are channels that the caller makes; what was sent on them is in the state. A token
-- may be missing without an error.
pub record Manager : Type 1 where
  pub State : Type 0
  pub start_session : Text → Exec State (Unit {0})
  pub end_session : Text → State → State
  pub add_whisperer : Text → Text → Exec State Bool
  pub add_listener : Text → Text → Exec State Bool
  pub client_token : Text → Text → Exec State (Option Text)
  pub remove_client : Text → Text → Exec State (Unit {0})
  pub send_control : Text → Text → ControlChunk → Exec State (Unit {0})
  pub broadcast_control : Text → ControlChunk → Exec State (Unit {0})
