-- ===== src/Protocol/Examples.antt =====
-- The theorems on chunks and live text at concrete inputs.
use srv.Prelude.{ℕ, ◌≡◌, [], ◌∷◌, Text, codes, pos, split, Lacks, arith}
use srv.Protocol.Chunk.{
  ControlChunk, ContentChunk, ContentPacket, control_string, parse_control_chunk,
}
use srv.Protocol.Chunk.RoundTrip.{parse_control_chunk-control_string, received_args}
use srv.Protocol.Content.{diff_lines}
use srv.Protocol.Content.Play.{play, spoken}
use srv.Protocol.Content.Difference.{spoken-diff_lines}

abbrev same_random : ℕ → Text
same_random i = codes "x"

abbrev before : Text
before = codes "hello"

abbrev after : Text
after = codes "help\nme"

abbrev one_line : Text
one_line = codes "help"

abbrev chunk : ContentChunk
chunk = record { offset = pos 3; text = codes "p" }

abbrev packet : ContentPacket
packet = record { packet_id = codes "7"; payload = codes "3|p" }

abbrev control : ControlChunk
control = record { action = codes "end"; args = codes "now" ∷ [] }

Lacks-end : Lacks b'|' (codes "end")
Lacks-end = (λ e. omega arith, (λ e. omega arith, (λ e. omega arith, tt)))

Lacks-now : Lacks b'|' (codes "now")
Lacks-now = (λ e. omega arith, (λ e. omega arith, (λ e. omega arith, tt)))

Lacks-before : Lacks b'\n' before
Lacks-before = (
  λ e. omega arith,
  (λ e. omega arith, (λ e. omega arith, (λ e. omega arith, (λ e. omega arith, tt)))),
)

Lacks-line : Lacks b'\n' one_line
Lacks-line = (λ e. omega arith, (λ e. omega arith, (λ e. omega arith, (λ e. omega arith, tt))))

parse_control_chunk-control_string_example :
    parse_control_chunk (control_string control)
    ≡ record { action = codes "end"; args = received_args (codes "now" ∷ []) }
parse_control_chunk-control_string_example =
    parse_control_chunk-control_string control Lacks-end (Lacks-now, tt)

spoken-diff_lines_example :
    spoken (play before (diff_lines same_random before after)) ≡ split b'\n' after
spoken-diff_lines_example = spoken-diff_lines same_random before after Lacks-before
