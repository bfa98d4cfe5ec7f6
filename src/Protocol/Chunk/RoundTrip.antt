-- ===== src/Protocol/Chunk/RoundTrip.antt =====
-- What is printed is read back, and the other way round.
use srv.Prelude.{
  ◌≡◌, ◌≢◌, refl, ap, sym, ite, inl, inr, ◌⊎◌, some, List, [], ◌∷◌, Text, text_discrete, All, Lacks,
  cut, split, join, cut-append, split-join, join-split, cut_sound, IsInt64, arith,
}
use srv.Protocol.Decimal.{format_int, atoi-format_int, format_int-Lacks}
use srv.Protocol.Chunk.{
  ControlChunk, control_string, parse_control_chunk, ContentChunk, content_string,
  parse_content_chunk, ContentPacket, packet_string, parse_content_packet,
  is_requests_pending_chunk, is_participants_changed_chunk, is_end_chunk,
}

-- A content chunk with a 64-bit offset and any text is read back from its string.
pub parse_content_chunk-content_string :
    (c : ContentChunk) → IsInt64 c.offset → parse_content_chunk (content_string c) ≡ c
unfolding parse_content_chunk content_string
parse_content_chunk-content_string c h = ground (
  arith,
  cut-append b'|' (format_int c.offset) c.text (format_int-Lacks c.offset),
  atoi-format_int c.offset h,
)

-- A content packet is read back from its string if its id holds no bar; its data may hold any.
pub parse_content_packet-packet_string :
    (p : ContentPacket) → Lacks b'|' p.packet_id → parse_content_packet (packet_string p) ≡ p
unfolding parse_content_packet packet_string
parse_content_packet-packet_string p h = ground (arith, cut-append b'|' p.packet_id p.payload h)

control_wire :
    (c : ControlChunk)
    → Lacks b'|' c.action
    → parse_control_chunk (control_string c)
      ≡ ite
          (text_discrete (join b'|' c.args) [])
          (record { action = c.action; args = [] })
          (record { action = c.action; args = split b'|' (join b'|' c.args) })
unfolding parse_control_chunk control_string
control_wire c h = ground (arith, cut-append b'|' c.action (join b'|' c.args) h)

join_eq_nil : (args : List Text) → join b'|' args ≡ [] → (args ≡ []) ⊎ (args ≡ [] ∷ [])
unfolding join
join_eq_nil [] e = inl refl
join_eq_nil (a ∷ []) e = inr (ap (λ x. x ∷ []) e)
join_eq_nil ([] ∷ b ∷ bs) e = cc
join_eq_nil ((c ∷ a) ∷ b ∷ bs) e = cc

split_args :
    (args : List Text)
    → All (Lacks b'|') args
    → join b'|' args ≢ []
    → split b'|' (join b'|' args) ≡ args
unfolding join
split_args [] l n = absurd (n refl)
split_args (a ∷ rest) l n = split-join b'|' (a ∷ rest) (λ e. cc) l

-- The arguments that are read back: one empty string is no argument.
abbrev pub received_args : List Text → List Text
received_args [] = []
received_args ([] ∷ []) = []
received_args ((c ∷ a) ∷ []) = (c ∷ a) ∷ []
received_args (a ∷ b ∷ rest) = a ∷ b ∷ rest

args_wire :
    (args : List Text)
    → All (Lacks b'|') args
    → ite (text_discrete (join b'|' args) []) [] (split b'|' (join b'|' args)) ≡ received_args args
unfolding join
args_wire [] l = ground arith
args_wire ([] ∷ []) l = ground arith
args_wire ((c ∷ a) ∷ []) l = ground (arith, split_args ((c ∷ a) ∷ []) l)
args_wire (a ∷ b ∷ rest) l = ground (arith, join_eq_nil (a ∷ b ∷ rest), split_args (a ∷ b ∷ rest) l)

-- A control chunk whose action and arguments hold no bar is read back from its string with its
-- action and its arguments, but that one argument that is empty is read back as no argument.
pub parse_control_chunk-control_string :
    (c : ControlChunk)
    → Lacks b'|' c.action
    → All (Lacks b'|') c.args
    → parse_control_chunk (control_string c)
      ≡ record { action = c.action; args = received_args c.args }
parse_control_chunk-control_string c h l =
    rw (control_wire c h, sym (args_wire c.args l)) (ground arith)

-- A string with a bar in it is printed again as it was read.
pub control_string-parse_control_chunk :
    (s left right : Text)
    → cut b'|' s ≡ some (left, right)
    → control_string (parse_control_chunk s) ≡ s
unfolding control_string parse_control_chunk join
control_string-parse_control_chunk s left right e =
    ground (arith, e, cut_sound b'|' s left right e, join-split b'|' right)

-- The three predicates on control chunks give the same answers after the trip over the wire, for
-- every chunk whose action holds no bar, whatever its arguments are.
pub predicates_survive_wire :
    (c : ControlChunk)
    → Lacks b'|' c.action
    → let d = parse_control_chunk (control_string c) in
      (is_requests_pending_chunk d ≡ is_requests_pending_chunk c)
      × (is_participants_changed_chunk d ≡ is_participants_changed_chunk c)
      × (is_end_chunk d ≡ is_end_chunk c)
unfolding is_requests_pending_chunk is_participants_changed_chunk is_end_chunk
predicates_survive_wire c h =
    let e : (parse_control_chunk (control_string c)).action ≡ c.action =
      rw (control_wire c h) (ground arith) in
    rw e (refl, refl, refl)
