-- ===== src/Protocol/Content/Play.antt =====
-- Playing a list of chunks, and what the chunks of a line list say.
use srv.Prelude.{
  ℕ, suc, ◌≤◌, ◌≡◌, refl, ap, Option, none, some, List, [], ◌∷◌, ◌++◌, Text, length, take, arith,
  pos,
}
use srv.Protocol.Chunk.{ContentChunk}
use srv.Protocol.Content.{process_live_chunk, pad, line_chunks}

abbrev pub past_lines : Option Text → List Text
past_lines none = []
past_lines (some line) = line ∷ []

-- A receiver that plays the chunks in order: the live text at the end and the past lines.
unfoldable pub play : Text → List ContentChunk → Text × List Text
play live [] = (live, [])
play live (c ∷ cs) =
    let r = process_live_chunk live c in
    let (end, past) = play r.new_live cs in (end, past_lines r.new_past ++ past)

-- Everything that was said: the past lines, then the live text.
unfoldable pub spoken : Text × List Text → List Text
spoken (live, past) = past ++ live ∷ []

-- A chunk that is not a newline sets the live text.
pub play_one :
    (old text : Text) (n : ℕ)
    → n ≤ length old
    → process_live_chunk old (record { offset = pos n; text = text })
      ≡ record { new_live = take n old ++ text; new_past = none; new_past_id = none }
unfolding process_live_chunk pad
play_one old text n h = ground arith

-- A chunk that makes no past line only changes the live text for the rest.
pub play_plain :
    (old : Text) (c : ContentChunk) (cs : List ContentChunk) (live : Text)
    → process_live_chunk old c ≡ record { new_live = live; new_past = none; new_past_id = none }
    → play old (c ∷ cs) ≡ play live cs
unfolding play
play_plain old c cs live e =
    λ i. ((play (e i).new_live cs).0, past_lines (e i).new_past ++ (play (e i).new_live cs).1)

-- The chunks of further lines move the live text to the past and end with the last line.
pub play-line_chunks :
    (random : ℕ → Text) (i : ℕ) (live : Text) (lines : List Text)
    → spoken (play live (line_chunks random i lines)) ≡ live ∷ lines
unfolding play spoken line_chunks process_live_chunk pad
play-line_chunks random i live [] = refl
play-line_chunks random i live (line ∷ lines) =
    ap (◌∷◌ live) (play-line_chunks random (suc i) line lines)
