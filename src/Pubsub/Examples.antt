-- ===== src/Pubsub/Examples.antt =====
-- The theorems on pubsub sessions at concrete inputs, over a client library that never fails.
use srv.Prelude.{
  ◌≡◌, refl, true, false, some, [], ◌∷◌, pure, codes, text_discrete, ℕ_discrete, lookup, insert,
  Each-insert,
}
use srv.Pubsub.Ably.{Ably, enter, leave}
use srv.Pubsub.Session.{Participant, Session, capabilities, content_id, control_id, presence_id}
use srv.Pubsub.Session.Invariant.{
  Sound, IsSound, history, history-Sound, whisperer, presence, removal,
}
use srv.Pubsub.Session.Tokens.{grants, token_rights}
use srv.Pubsub.Session.Presence.{IsTold, receive_all, receive_all-IsTold, told, attached_in}
use srv.Pubsub.Manager.{AblyManager, start_session}

abbrev ably : Ably
ably = record {
  World = Unit {0};
  new_realtime = λ id. pure tt;
  close = λ id w. w;
  subscribe_presence = λ id. pure tt;
  subscribe_all = λ id. pure tt;
  detach = λ id. pure tt;
  publish = λ id name text. pure tt;
  get_presence = λ id. pure [];
  create_token_request = λ id caps. pure (codes "token");
}

abbrev person : Participant
person = record { client_id = codes "a"; can_whisper = false; can_listen = true; attached = false }

abbrev session : Session
session = record { id = codes "s"; cr = []; sr = []; participants = (codes "a", person) ∷ [] }

person-IsSound : IsSound (codes "a") person
person-IsSound = (refl, λ e. refl)

session-Sound : Sound session
unfolding insert lookup
session-Sound =
    Each-insert (codes "a") person [] person-IsSound
      (record { at = λ k p found. absurd (cc found) })

abbrev manager : AblyManager ably (codes "server")
manager = record { sessions = (codes "s", session) ∷ []; world = tt }

history-Sound_example :
    Sound
      (history ably
        (whisperer (codes "b") ∷ presence (codes "b") enter ∷ removal (codes "a") ∷ [])
        (session, tt)).0
history-Sound_example =
    history-Sound ably
      (whisperer (codes "b") ∷ presence (codes "b") enter ∷ removal (codes "a") ∷ []) (session, tt)
      session-Sound

token_rights_example :
    let caps = capabilities (codes "s") person in
    (grants (content_id (codes "s")) (codes "publish") caps ≡ false)
    × (grants (content_id (codes "s")) (codes "subscribe") caps ≡ true)
    × (grants (control_id (codes "s")) (codes "subscribe") caps ≡ true)
    × (grants (control_id (codes "s")) (codes "publish") caps ≡ false)
    × (grants (presence_id (codes "s")) (codes "presence") caps ≡ true)
token_rights_example = token_rights (codes "s") (codes "a") person person-IsSound

receive_all-IsTold_example :
    IsTold
      (codes "a")
      (some false)
      (receive_all ((codes "a", enter) ∷ (codes "c", leave) ∷ []) session)
unfolding told attached_in lookup text_discrete ℕ_discrete
receive_all-IsTold_example =
    receive_all-IsTold ((codes "a", enter) ∷ (codes "c", leave) ∷ []) session (codes "a")
      (some false) session-Sound refl

abbrev started : AblyManager ably (codes "server")
started = (start_session ably (codes "server") (codes "t") manager).1
