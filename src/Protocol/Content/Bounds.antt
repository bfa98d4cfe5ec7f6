-- ===== src/Protocol/Content/Bounds.antt =====
-- The offsets of a difference are 64-bit integers.
use srv.Prelude.{
  ℕ, suc, ◌+◌, ◌^◌, ◌<◌, ◌≡◌, Option-cases, some, inl, inr, List, [], ◌∷◌, Text, arith, length, All,
  split, drop, ltb, leb, if_intro, IsInt64,
}
use srv.Protocol.Chunk.{ContentChunk}
use srv.Protocol.Content.{
  diff_lines, first_difference, suffix_to_chunks, chunks_of_lines, line_chunks,
}

-- Each offset is in the range of `int`.
abbrev pub Sendable : List ContentChunk → Type 0
Sendable cs = All (λ c. IsInt64 c.offset) cs

line_chunks-Sendable :
    (random : ℕ → Text) (i : ℕ) (lines : List Text) → Sendable (line_chunks random i lines)
unfolding line_chunks
line_chunks-Sendable random i [] = tt
line_chunks-Sendable random i (line ∷ lines) =
    (omega arith, (omega arith, line_chunks-Sendable random (suc i) lines))

chunks_of_lines-Sendable :
    (random : ℕ → Text) (start : ℕ) (lines : List Text)
    → start < 2 ^ 63
    → Sendable (chunks_of_lines random start lines)
unfolding chunks_of_lines
chunks_of_lines-Sendable random start [] h = tt
chunks_of_lines-Sendable random start (line ∷ lines) h = (h, line_chunks-Sendable random 1 lines)

suffix_to_chunks-Sendable :
    (random : ℕ → Text) (s : Text) (start : ℕ)
    → start < 2 ^ 63
    → Sendable (suffix_to_chunks random s start)
unfolding suffix_to_chunks
suffix_to_chunks-Sendable random s start h =
    if_intro Sendable (leb (length s) start) tt
      (chunks_of_lines-Sendable random start (split b'\n' (drop start s)) h)

first_difference-bound :
    (old new : Text) (i n : ℕ) → first_difference old new i ≡ some n → n < i + length new
unfolding first_difference
first_difference-bound (o ∷ old) (c ∷ new) i n e =
    grind (arith, first_difference-bound old new (suc i) n)
first_difference-bound (o ∷ old) [] i n e = absurd (cc e)
first_difference-bound [] new i n e = absurd (cc e)

-- For texts whose lengths are in the range of `int`, so is every offset that the difference sends.
pub diff_lines-Sendable :
    (random : ℕ → Text) (old new : Text)
    → length old < 2 ^ 63
    → length new < 2 ^ 63
    → Sendable (diff_lines random old new)
unfolding diff_lines
diff_lines-Sendable random old new h k = elim (Option-cases (first_difference old new 0)) [
  | inl e ↦
      rw (e, diff_lines)
        (if_intro Sendable (ltb (length old) (length new))
          (suffix_to_chunks-Sendable random new (length old) h)
          (if_intro Sendable (ltb (length new) (length old)) (k, tt) tt))
  | inr (n, e) ↦
      let bound = first_difference-bound old new 0 n e in
      rw (e, diff_lines) (suffix_to_chunks-Sendable random new n (omega arith))
]
