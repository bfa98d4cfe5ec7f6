-- ===== src/Protocol/Content.antt =====
-- Live text and its differences: protocol/content.go.
pub mod Process
pub mod Play
pub mod Difference
pub mod Bounds
use srv.Prelude.{
  ℕ, zero, suc, ◌+◌, ◌-◌, Bool, Option, none, some, List, [], ◌∷◌, ◌++◌, Text, codes, length, take,
  drop, replicate, split, ltb, leb, ◌==◌, ltb_ℤ, eqb_ℤ, if◌then◌else◌, ℤ, pos, pos_part,
}
use srv.Protocol.Chunk.{ContentChunk, co_newline}

-- The three results of `ProcessLiveChunk`.
pub record Processed : Type 0 where
  pub new_live : Text
  pub new_past : Option Text
  pub new_past_id : Option Text

-- `oldLive` with the missing space filled by '?' up to the offset.
pub pad : Text → ℕ → Text
pad old offset =
    if ltb (length old) offset then old ++ replicate (offset - length old) b'?' else old

unfoldable pub process_live_chunk : Text → ContentChunk → Processed
unfolding pad
process_live_chunk old chunk =
    if ltb_ℤ chunk.offset co_newline
    then record { new_live = old; new_past = none; new_past_id = none }
    else if eqb_ℤ chunk.offset co_newline
    then record { new_live = []; new_past = some old; new_past_id = some chunk.text }
    else record {
      new_live = take (pos_part chunk.offset) (pad old (pos_part chunk.offset)) ++ chunk.text;
      new_past = none;
      new_past_id = none;
    }

-- The loop of `DiffLines`, at index `i`: the first index where both texts have a byte and differ.
pub first_difference : Text → Text → ℕ → Option ℕ
first_difference (o ∷ old) (n ∷ new) i =
    let rest = first_difference old new (suc i) in if o == n then rest else some i
first_difference old new i = none

-- `platform.NewId`: the random part comes from elsewhere.
unfoldable pub new_id : Text → Text → Text
new_id prefix random = prefix ++ random

-- `random i` is the random part of the id that the loop asks for at line `i`.
pub line_chunks : (ℕ → Text) → ℕ → List Text → List ContentChunk
line_chunks random i [] = []
line_chunks random i (line ∷ lines) =
    record { offset = co_newline; text = new_id (codes "line-") (random i) }
    ∷ record { offset = pos 0; text = line }
    ∷ line_chunks random (suc i) lines

-- The chunks for the lines of a suffix that starts at `start`; a split has a first line.
pub chunks_of_lines : (ℕ → Text) → ℕ → List Text → List ContentChunk
chunks_of_lines random start [] = []
chunks_of_lines random start (line ∷ lines) =
    record { offset = pos start; text = line } ∷ line_chunks random 1 lines

pub suffix_to_chunks : (ℕ → Text) → Text → ℕ → List ContentChunk
unfolding chunks_of_lines line_chunks
suffix_to_chunks random s start =
    if leb (length s) start then [] else chunks_of_lines random start (split b'\n' (drop start s))

unfoldable pub diff_lines : (ℕ → Text) → Text → Text → List ContentChunk
unfolding first_difference suffix_to_chunks
diff_lines random old new = elim (first_difference old new 0) [
  | some i ↦ suffix_to_chunks random new i
  | none ↦
      if ltb (length old) (length new)
      then suffix_to_chunks random new (length old)
      else if ltb (length new) (length old)
      then record { offset = pos (length new); text = [] } ∷ []
      else []
]
