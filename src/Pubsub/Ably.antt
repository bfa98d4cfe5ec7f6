-- ===== src/Pubsub/Ably.antt =====
-- The Ably client library: a parameter. Channels are named by their ids.
use srv.Prelude.{List, Exec, Text}

pub record Ably : Type 1 where
  pub World : Type 0
  pub new_realtime : Text → Exec World (Unit {0})
  pub close : Text → World → World
  pub subscribe_presence : Text → Exec World (Unit {0})
  pub subscribe_all : Text → Exec World (Unit {0})
  pub detach : Text → Exec World (Unit {0})
  pub publish : Text → Text → Text → Exec World (Unit {0})
  pub get_presence : Text → Exec World (List Text)
  pub create_token_request : Text → List (Text × List Text) → Exec World Text

-- The actions of a presence message.
pub data PresenceAction : Type 0 where
  enter present leave absent update unknown : PresenceAction
