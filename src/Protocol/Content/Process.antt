-- ===== src/Protocol/Content/Process.antt =====
-- What one content chunk does to the live text, by its offset.
use srv.Prelude.{
  ℕ, ◌+◌, ◌-◌, ◌≤◌, ◌≡◌, refl, ◌∙◌, none, ◌++◌, arith, Text, length, take, drop, replicate,
  length-append, length-take, length-replicate, take-append, take-take, drop-append, pos,
}
use Prim.Native.Nat.{min}
use srv.Protocol.Chunk.{ContentChunk}
use srv.Protocol.Content.{process_live_chunk, pad}

module _ (old : Text) (n : ℕ) where
  le-length-pad : n ≤ length (pad old n)
  unfolding pad
  le-length-pad = ground (
    arith,
    length-append old (replicate (n - length old) b'?'),
    length-replicate {A = ℕ} (n - length old) b'?',
  )

  take-pad : (i : ℕ) → i ≤ length old → take i (pad old n) ≡ take i old
  unfolding pad
  take-pad i h = ground (arith, take-append i old (replicate (n - length old) b'?') h)

  length-take-pad : length (take n (pad old n)) ≡ n
  length-take-pad = omega (arith, length-take n (pad old n), le-length-pad)

process_at :
    (old : Text) (c : ContentChunk) (n : ℕ)
    → c.offset ≡ pos n
    → process_live_chunk old c
      ≡ record { new_live = take n (pad old n) ++ c.text; new_past = none; new_past_id = none }
unfolding process_live_chunk
process_at old c n e = rw e (ground arith)

-- A chunk with an offset that is not negative makes no past line. The live text becomes as many
-- bytes as the offset, those of the old live text as far as it goes, and then the chunk's text.
pub process_live_chunk-pos :
    (old : Text) (c : ContentChunk) (n : ℕ)
    → c.offset ≡ pos n
    → let live = (process_live_chunk old c).new_live in
      let kept = min n (length old) in
      ((process_live_chunk old c).new_past ≡ none)
      × ((process_live_chunk old c).new_past_id ≡ none)
      × (length live ≡ n + length c.text)
      × (drop n live ≡ c.text)
      × (take kept live ≡ take kept old)
process_live_chunk-pos old c n e =
    let i = min n (length old) in
    rw (process_at old c n e) (
      refl,
      refl,
      omega (arith, length-append (take n (pad old n)) c.text, length-take-pad old n),
      drop-append n (take n (pad old n)) c.text (length-take-pad old n),
      take-append i (take n (pad old n)) c.text (omega (arith, length-take-pad old n))
          ∙ (take-take i n (pad old n) (omega arith) ∙ take-pad old n i (omega arith)),
    )
