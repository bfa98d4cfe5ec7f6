-- ===== src/Lifecycle/Samples.antt =====
-- Sessions and managers for the examples.
use srv.Prelude.{
  ℕ, refl, true, false, none, some, List, [], ◌∷◌, ok, Text, codes, Dict, lookup, insert,
  Each-insert,
}
use srv.Protocol.Chunk.{ContentPacket}
use srv.Protocol.Content.Play.{play}
use srv.Pubsub.Interface.{Manager}
use srv.Storage.Types.{SessionState, Participant}
use srv.Lifecycle.Session.{Backend, Session, Live, is_waiting}
use srv.Lifecycle.Session.Waitlist.{Distinct}
use srv.Lifecycle.Session.Invariant.{Sound}
use srv.Lifecycle.Transcribe.Play.{Replays}
use srv.Lifecycle.Sessions.{Server}
use srv.Storage.Samples.{state_with, store}

-- A manager for which nothing fails.
abbrev pub manager : Manager
manager = record {
  State = Unit {0};
  start_session = λ id w. (ok tt, w);
  end_session = λ id w. w;
  add_whisperer = λ id k w. (ok true, w);
  add_listener = λ id k w. (ok false, w);
  client_token = λ id k w. (ok (some (codes "token")), w);
  remove_client = λ id k w. (ok tt, w);
  send_control = λ id k c w. (ok tt, w);
  broadcast_control = λ id c w. (ok tt, w);
}

abbrev pub backend : Backend
backend = record {
  store = store;
  manager = manager;
  Speech = Unit {0};
  generate_speech = λ owner id text w. w;
}

abbrev pub person : Text → Participant
person k = record {
  client_id = k;
  profile_id = codes "p";
  name = codes "n";
  is_whisperer = false;
  is_online = false;
  joined_at = 0;
}

abbrev pub session_of : SessionState → Session
session_of s = record {
  id = codes "convo-1";
  owner = codes "owner";
  state = s;
  cancelled = false;
  live_packets = [];
  live_text = [];
  overlap = [];
  shutting_down = false;
  transcript_id = codes "t1";
}

abbrev pub live_with : Session → Live backend
live_with s = record { session = s; pubsub = tt; redis = λ k. none; speech = tt }

abbrev pub idle : Live backend
idle = live_with (session_of (state_with (codes "convo-1")))

abbrev pub busy_state : SessionState
busy_state = record (state_with (codes "convo-1")) {
  participants = (codes "a", person (codes "a")) ∷ [];
  waitlist = person (codes "b") ∷ [];
}

abbrev pub busy : Live backend
busy = live_with (session_of busy_state)

abbrev pub saying : Text → Text → ContentPacket
saying id payload = record { packet_id = id; payload = payload }

abbrev pub packets : List (ℕ × ContentPacket)
packets = (5, saying (codes "1") (codes "0|hi")) ∷ (6, saying (codes "2") (codes "-1|l")) ∷ []

abbrev pub server_with : Dict Session → Server backend
server_with ss = record { sessions = ss; pubsub = tt; redis = λ k. none; speech = tt }

pub busy-Distinct : Distinct busy.session.state.waitlist
unfolding is_waiting
busy-Distinct = (refl, tt)

pub busy-Sound : Sound busy.session
unfolding insert lookup
busy-Sound = record {
  waitlist = busy-Distinct;
  participants =
      Each-insert (codes "a") (person (codes "a")) [] refl
        (record { at = λ k p found. absurd (cc found) });
}

pub idle-Replays : Replays idle.session
unfolding play
idle-Replays = refl

abbrev pub same_random : ℕ → Text
same_random i = codes "x"

abbrev pub new_text : Text
new_text = codes "hi\nyou"
