-- ===== src/Pubsub/Session.antt =====
-- The `session` of pubsub/ably.go: its participants and what it sends to its receivers.
pub mod Invariant
pub mod Tokens
pub mod Presence
use srv.Prelude.{
  ◌≡◌, ite, Bool, true, false, Option, none, some, List, [], ◌∷◌, ◌++◌, Error, unknown_client,
  external, Result, ok, err, Exec, pure, raise, lift, handle, ◌>>=◌, ◌>>◌, Text, codes,
  text_discrete, Dict, lookup, insert, delete, if◌then◌else◌, ℤ,
}
use srv.Protocol.Chunk.{
  ControlChunk, control_string, ContentChunk, content_string, co_ignore, ContentPacket,
  attach_packet,
}
use srv.Pubsub.Interface.{ClientStatus}
use srv.Pubsub.Ably.{Ably, PresenceAction, enter, present, leave, absent, update, unknown}

pub record Participant : Type 0 where
  pub client_id : Text
  pub can_whisper : Bool
  pub can_listen : Bool
  pub attached : Bool

-- `cr` and `sr` hold what was sent on the two channels, oldest first.
pub record Session : Type 0 where
  pub id : Text
  pub cr : List ContentPacket
  pub sr : List ClientStatus
  pub participants : Dict Participant

unfoldable pub control_id : Text → Text
control_id id = id ++ codes ":control"

unfoldable pub presence_id : Text → Text
presence_id id = id ++ codes ":presence"

unfoldable pub content_id : Text → Text
content_id id = id ++ codes ":content"

unfoldable pub present_in : Text → List Text → Bool
present_in client_id [] = false
present_in client_id (m ∷ msgs) = ite (text_discrete m client_id) true (present_in client_id msgs)

-- Privileges of the three ways to add a client.
unfoldable pub capabilities : Text → Participant → List (Text × List Text)
capabilities id p =
    (presence_id id, codes "presence" ∷ [])
    ∷ (control_id id, codes "subscribe" ∷ [])
    ∷ (if p.can_whisper
        then (content_id id, codes "publish" ∷ codes "subscribe" ∷ []) ∷ []
        else if p.can_listen
        then (content_id id, codes "subscribe" ∷ []) ∷ []
        else [])

-- The presence messages of one participant: the new value of `attached`.
unfoldable pub attached_after : PresenceAction → Bool → Bool
attached_after enter attached = true
attached_after present attached = true
attached_after leave attached = false
attached_after absent attached = false
attached_after update attached = attached
attached_after unknown attached = attached

pub bool_eq : Bool → Bool → Bool
bool_eq true b = b
bool_eq false b = if b then false else true

unfoldable pub presence_receiver : Text → PresenceAction → Session → Session
unfolding attached_after bool_eq
presence_receiver client_id action s = elim (lookup client_id s.participants) [
  | none ↦ s
  | some p ↦
      let attached = attached_after action p.attached in
      if bool_eq attached p.attached then s else record s {
        participants = insert client_id (record p { attached = attached }) s.participants;
        sr = s.sr ++ record { client_id = p.client_id; is_online = attached } ∷ [];
      }
]

-- A message whose data is no string is `none`.
unfoldable pub content_receiver : Text → Option Text → Session → Session
unfolding content_string
content_receiver message_id payload s =
    let text : Text = elim payload [
      | some t ↦ t
      | none ↦
          content_string (record { offset = co_ignore; text = codes "Invalid content data type" })
    ] in
    record s { cr = s.cr ++ record { packet_id = message_id; payload = text } ∷ [] }

-- Ably calls this once the content channel is attached.
unfoldable pub content_attached : Session → Session
content_attached s = record s { cr = s.cr ++ attach_packet ∷ [] }

module _ (a : Ably) where
  abbrev pub State : Type 0
  State = Session × a.World

  -- An error of the presence query counts as not present.
  unfoldable pub update_presence : Text → Session → a.World → Bool × a.World
  unfolding present_in
  update_presence client_id s w =
      let (res, w') = a.get_presence (presence_id s.id) w in
      elim res [ ok msgs ↦ (present_in client_id msgs, w') | err e ↦ (false, w') ]

  -- What the three `add` methods do for a client that is not a participant yet.
  unfoldable pub add_new : Bool → Bool → Text → Exec State Bool
  unfolding update_presence
  add_new can_whisper can_listen client_id (s, w) =
      let (attached, w') = update_presence client_id s w in
      let l : Participant = record {
        client_id = client_id;
        can_whisper = can_whisper;
        can_listen = can_listen;
        attached = attached;
      } in
      (ok attached, (record s { participants = insert client_id l s.participants }, w'))

  unfoldable pub add_whisperer : Text → Exec State Bool
  unfolding add_new
  add_whisperer client_id (s, w) = elim (lookup client_id s.participants) [
    | some p ↦
        let q = record p { can_whisper = true; can_listen = true } in
        (ok p.attached, (record s { participants = insert client_id q s.participants }, w))
    | none ↦ add_new true true client_id (s, w)
  ]

  unfoldable pub add_listener : Text → Exec State Bool
  unfolding add_new
  add_listener client_id (s, w) = elim (lookup client_id s.participants) [
    | some p ↦
        let q = record p { can_listen = true } in
        (ok p.attached, (record s { participants = insert client_id q s.participants }, w))
    | none ↦ add_new false true client_id (s, w)
  ]

  unfoldable pub add_wait_lister : Text → Exec State Bool
  unfolding add_new
  add_wait_lister client_id (s, w) = elim (lookup client_id s.participants) [
    | some p ↦ (ok p.attached, (s, w))
    | none ↦ add_new false false client_id (s, w)
  ]

  unfoldable pub remove_client : Text → Exec State (Unit {0})
  remove_client client_id (s, w) = elim (lookup client_id s.participants) [
    | none ↦ (ok tt, (s, w))
    | some p ↦ (ok tt, (record s { participants = delete client_id s.participants }, w))
  ]

  -- A call of the client library that leaves the session alone.
  abbrev ably_call : {A : Type 0} → Exec a.World A → Exec State A
  ably_call m (s, w) = let (res, w') = m w in (res, (s, w'))

  -- The last step marshals the request, which does not fail on what the library makes.
  unfoldable pub client_token : Text → Exec State (Option Text)
  unfolding capabilities
  client_token client_id (s, w) = elim (lookup client_id s.participants) [
    | none ↦ (ok none, (s, w))
    | some p ↦
        handle (ably_call (a.create_token_request client_id (capabilities s.id p)))
          (λ res. elim res [ ok request ↦ pure (some request) | err e ↦ raise e ]) (s, w)
  ]

  unfoldable pub send_control : Text → ControlChunk → Exec State (Unit {0})
  send_control client_id chunk (s, w) = elim (lookup client_id s.participants) [
    | none ↦ (err unknown_client, (s, w))
    | some p ↦ ably_call (a.publish (control_id s.id) p.client_id (control_string chunk)) (s, w)
  ]

  unfoldable pub broadcast_control : ControlChunk → Exec State (Unit {0})
  broadcast_control chunk (s, w) =
      ably_call (a.publish (control_id s.id) (codes "all") (control_string chunk)) (s, w)

  -- The client that was created is closed again when a subscription fails.
  unfoldable pub start : Text → Text → Exec a.World (Unit {0})
  start server_id id = do
    a.new_realtime (server_id ++ (codes ":" ++ id))
    handle (do a.subscribe_presence (presence_id id); a.subscribe_all (content_id id))
        (λ res w. elim res [ ok _ ↦ (ok tt, w) | err e ↦ (err e, a.close id w) ])

  -- The errors of the two detach calls are only logged; the client is closed a second later.
  unfoldable pub end : Session → a.World → a.World
  end s w = a.close s.id (a.detach (presence_id s.id) (a.detach (content_id s.id) w).1).1
