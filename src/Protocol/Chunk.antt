-- ===== src/Protocol/Chunk.antt =====
-- Chunks and packets as they travel: protocol/chunk.go and protocol/control.go.
pub mod RoundTrip
use srv.Prelude.{
  ◌≡◌, refl, ite, Bool, true, false, Option, none, some, List, [], ◌∷◌, ◌++◌, Text, codes,
  text_discrete, cut, split, join, not, ltb_ℤ, eqb_ℤ, if◌then◌else◌, ℤ, pos, negsuc,
}
use srv.Protocol.Decimal.{atoi, format_int}

pub record ControlChunk : Type 0 where
  pub action : Text
  pub args : List Text

unfoldable pub control_string : ControlChunk → Text
control_string c = c.action ++ b'|' ∷ join b'|' c.args

unfoldable pub parse_control_chunk : Text → ControlChunk
parse_control_chunk s = elim (cut b'|' s) [
  | none ↦ record { action = s; args = [] }
  | some (left, right) ↦
      ite (text_discrete right []) (record { action = left; args = [] })
        (record { action = left; args = split b'|' right })
]

pub record ContentChunk : Type 0 where
  pub offset : ℤ
  pub text : Text

-- Shift the live text to past text (the chunk's text is the line's id).
abbrev pub co_newline : ℤ
co_newline = negsuc 0

-- Play the local sound that the chunk's text names.
abbrev pub co_play_sound : ℤ
co_play_sound = negsuc 1

-- Ignore the packet.
abbrev pub co_ignore : ℤ
co_ignore = negsuc 999

-- The map's lookup: a missing key gives the empty string.
unfoldable pub cc_names : ℤ → Text
cc_names z =
    if eqb_ℤ z co_newline
    then codes "newline"
    else if eqb_ℤ z co_play_sound
    then codes "play sound"
    else if eqb_ℤ z co_ignore
    then codes "ignore"
    else []

unfoldable pub content_string : ContentChunk → Text
content_string c = format_int c.offset ++ b'|' ∷ c.text

unfoldable pub debug_string : ContentChunk → Text
unfolding cc_names
debug_string c =
    if not (ltb_ℤ c.offset (pos 0))
    then format_int c.offset ++ b'|' ∷ c.text
    else ite (text_discrete (cc_names c.offset) [])
        (codes "unknown offset " ++ (format_int c.offset ++ (codes ": " ++ c.text)))
        (ite (text_discrete c.text []) (cc_names c.offset)
          (cc_names c.offset ++ (codes ": " ++ c.text)))

unfoldable pub parse_content_chunk : Text → ContentChunk
parse_content_chunk s = elim (cut b'|' s) [
  | none ↦ record { offset = co_ignore; text = s }
  | some (left, right) ↦ elim (atoi left) [
    | none ↦ record { offset = co_ignore; text = s }
    | some offset ↦ record { offset = offset; text = right }
  ]
]

pub record ContentPacket : Type 0 where
  pub packet_id : Text
  pub payload : Text

unfoldable pub packet_string : ContentPacket → Text
packet_string p = p.packet_id ++ b'|' ∷ p.payload

unfoldable pub parse_content_packet : Text → ContentPacket
parse_content_packet s = elim (cut b'|' s) [
  | none ↦ record { packet_id = s; payload = [] }
  | some (packet_id, payload) ↦ record { packet_id = packet_id; payload = payload }
]

-- Sent by pubsub when the content channel is attached.
unfoldable pub attach_packet : ContentPacket
unfolding content_string
attach_packet = record {
  packet_id = codes "0";
  payload = content_string (record { offset = co_ignore; text = codes "Channel attached" });
}

-- The control messages of the server.
abbrev action_of : Text → ControlChunk
action_of a = record { action = a; args = [] }

abbrev has_action : Text → ControlChunk → Bool
has_action a c = ite (text_discrete c.action a) true false

unfoldable pub requests_pending_chunk : ControlChunk
requests_pending_chunk = action_of (codes "approve-requests")

unfoldable pub is_requests_pending_chunk : ControlChunk → Bool
is_requests_pending_chunk = has_action (codes "approve-requests")

unfoldable pub participants_changed_chunk : ControlChunk
participants_changed_chunk = action_of (codes "participants-changed")

unfoldable pub is_participants_changed_chunk : ControlChunk → Bool
is_participants_changed_chunk = has_action (codes "participants-changed")

unfoldable pub end_chunk : ControlChunk
end_chunk = action_of (codes "end")

unfoldable pub is_end_chunk : ControlChunk → Bool
is_end_chunk = has_action (codes "end")
