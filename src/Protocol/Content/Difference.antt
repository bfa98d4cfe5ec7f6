-- ===== src/Protocol/Content/Difference.antt =====
-- `DiffLines` and `ProcessLiveChunk` together: what a receiver has after it played a difference.
use srv.Prelude.{
  ℕ, zero, suc, ◌+◌, ◌≤◌, ◌<◌, ◌≡◌, ◌≢◌, refl, sym, ap, ◌∙◌, Bool-cases, Ordering-cases, lt→ltb,
  le→ltb, subst, take-nil, drop-all, inl, inr, none, some, Option-cases, List, [], ◌∷◌, ◌++◌,
  append-nil, append_assoc, arith, Text, length, take, drop, Lacks, split, join, split_one_part,
  split-ne-nil, join-split, take-append-drop, take-all, ltb, ◌==◌, if◌then◌else◌, pos,
}
use srv.Protocol.Chunk.{ContentChunk}
use srv.Protocol.Content.{
  first_difference, chunks_of_lines, suffix_to_chunks, diff_lines, line_chunks,
}
use srv.Protocol.Content.Play.{play, play_plain, spoken, play_one, play-line_chunks}

-- The first line of a text, extended to the left.
pub prefix_head : Text → List Text → List Text
prefix_head p [] = p ∷ []
prefix_head p (l ∷ ls) = (p ++ l) ∷ ls

prefix_head-nil : (ls : List Text) → ls ≢ [] → prefix_head [] ls ≡ ls
unfolding prefix_head
prefix_head-nil [] h = absurd (h refl)
prefix_head-nil (l ∷ ls) h = refl

join-prefix_head :
    (sep : ℕ) (p : Text) (ls : List Text) → ls ≢ [] → join sep (prefix_head p ls) ≡ p ++ join sep ls
unfolding prefix_head join
join-prefix_head sep p [] h = absurd (h refl)
join-prefix_head sep p (l ∷ []) h = refl
join-prefix_head sep p (l ∷ m ∷ ls) h = append_assoc p l (sep ∷ join sep (m ∷ ls))

split-prefix_head :
    (sep : ℕ) (p s : Text) → Lacks sep p → split sep (p ++ s) ≡ prefix_head p (split sep s)
unfolding split prefix_head
split-prefix_head sep [] s h = sym (prefix_head-nil (split sep s) (split-ne-nil sep s))
split-prefix_head sep (c ∷ p) s h =
    ground (arith, split-prefix_head sep p s h.1, split-ne-nil sep s)

spoken-chunks_of_lines :
    (random : ℕ → Text) (old : Text) (start : ℕ) (ls : List Text)
    → start ≤ length old
    → ls ≢ []
    → spoken (play old (chunks_of_lines random start ls)) ≡ prefix_head (take start old) ls
unfolding chunks_of_lines prefix_head
spoken-chunks_of_lines random old start [] h n = absurd (n refl)
spoken-chunks_of_lines random old start (l ∷ ls) h n =
    ap spoken (
      play_plain old (record { offset = pos start; text = l }) (line_chunks random 1 ls) _
        (play_one old l start h))
    ∙ play-line_chunks random 1 (take start old ++ l) ls

spoken-suffix :
    (random : ℕ → Text) (old new : Text) (start : ℕ)
    → start ≤ length old
    → start < length new
    → spoken (play old (suffix_to_chunks random new start))
      ≡ prefix_head (take start old) (split b'\n' (drop start new))
unfolding suffix_to_chunks
spoken-suffix random old new start h g = ground (
  arith,
  spoken-chunks_of_lines random old start (split b'\n' (drop start new)) h
      (split-ne-nil b'\n' (drop start new)),
)

-- Where the loop stops, the texts agree on what is before.
record Stops (old new : Text) (i k : ℕ) : Type 0 where
  at : ℕ
  at_eq : k ≡ i + at
  at_old : at < length old
  at_new : at < length new
  same : take at old ≡ take at new

first_difference-some :
    (old new : Text) (i k : ℕ) → first_difference old new i ≡ some k → Stops old new i k
unfolding first_difference
first_difference-some [] new i k e = cc
first_difference-some (o ∷ old) [] i k e = cc
first_difference-some (o ∷ old) (n ∷ new) i k e = elim (Bool-cases (o == n)) [
  | inl same ↦
      let r = first_difference-some old new (suc i) k (ground arith) in
      record {
        at = suc r.at;
        at_eq = omega (arith, r.at_eq);
        at_old = omega (arith, r.at_old);
        at_new = omega (arith, r.at_new);
        same = ground (arith, r.same);
      }
  | inr differ ↦ record {
    at = 0;
    at_eq = ground arith;
    at_old = omega arith;
    at_new = omega arith;
    same = refl;
  }
]

-- Where it does not stop, one text begins with the other.
first_difference-none :
    (old new : Text) (i : ℕ)
    → first_difference old new i ≡ none
    → (take (length new) old ≡ take (length old) new)
unfolding first_difference
first_difference-none [] new i e = take-nil (length new)
first_difference-none (o ∷ old) [] i e = refl
first_difference-none (o ∷ old) (n ∷ new) i e =
    ground (arith, first_difference-none old new (suc i))

spoken_trim :
    (old new : Text)
    → length new ≤ length old
    → take (length new) old ≡ new
    → spoken (play old (record { offset = pos (length new); text = [] } ∷ []))
      ≡ prefix_head new ([] ∷ [])
unfolding prefix_head
spoken_trim old new h e =
    ap spoken (play_plain old _ [] _ (play_one old [] (length new) h))
    ∙ unfold spoken play in ap (λ (t : Text). (t ++ []) ∷ []) e

-- What a receiver has said is the text cut at its newlines, but for newlines in the common part.
abbrev pub Says : Text → Text → List ContentChunk → Type 0
Says old new chunks =
    (i : ℕ) × (take i old ≡ take i new)
    × (spoken (play old chunks) ≡ prefix_head (take i new) (split b'\n' (drop i new)))

Says-suffix :
    (random : ℕ → Text) (old new : Text) (i : ℕ)
    → i ≤ length old
    → i < length new
    → take i old ≡ take i new
    → Says old new (suffix_to_chunks random new i)
Says-suffix random old new i h g e = (
  i,
  e,
  spoken-suffix random old new i h g ∙ ap (λ t. prefix_head t (split b'\n' (drop i new))) e,
)

Says-trim :
    (old new : Text)
    → length new ≤ length old
    → take (length new) old ≡ new
    → Says old new (record { offset = pos (length new); text = [] } ∷ [])
unfolding split
Says-trim old new h e =
    let whole = take-all (length new) new (omega arith) in
    (
      length new,
      e ∙ sym whole,
      rw (whole, drop-all (length new) new (omega arith)) (spoken_trim old new h e),
    )

Says-same : (old new : Text) → old ≡ new → Says old new []
unfolding split
Says-same old new e = (
  length new,
  ap (take (length new)) e,
  rw (take-all (length new) new (omega arith), drop-all (length new) new (omega arith))
      (unfold spoken play prefix_head in ground (arith, append-nil new)),
)

Says-no_difference :
    (random : ℕ → Text) (old new : Text)
    → take (length new) old ≡ take (length old) new
    → Says old new (
        if ltb (length old) (length new)
        then suffix_to_chunks random new (length old)
        else if ltb (length new) (length old)
        then record { offset = pos (length new); text = [] } ∷ []
        else [])
Says-no_difference random old new e = elim (Ordering-cases (length old) (length new)) [
  | inl lt ↦ rw (lt→ltb _ _ lt) (
      Says-suffix random old new (length old) (omega arith) lt (
        take-all (length old) old (omega arith)
        ∙ (sym (take-all (length new) old (omega arith)) ∙ e)))
  | inr (inl gt) ↦
      rw (le→ltb (length old) (length new) (omega arith), lt→ltb _ _ gt)
        (Says-trim old new (omega arith) (e ∙ take-all (length old) new (omega arith)))
  | inr (inr eq) ↦
      rw
        (
          le→ltb (length old) (length new) (omega arith),
          le→ltb (length new) (length old) (omega arith),
        )
        (Says-same old new (
          sym (take-all (length new) old (omega arith))
          ∙ (e ∙ take-all (length old) new (omega arith))))
]

Says-diff_lines : (random : ℕ → Text) (old new : Text) → Says old new (diff_lines random old new)
unfolding diff_lines
Says-diff_lines random old new = elim (Option-cases (first_difference old new 0)) [
  | inl e ↦
      rw (e, diff_lines) (Says-no_difference random old new (first_difference-none old new 0 e))
  | inr (k, e) ↦
      let r = first_difference-some old new 0 k e in
      let here : k ≡ r.at = omega (arith, r.at_eq) in
      rw (e, diff_lines, here)
        (Says-suffix random old new r.at (omega (arith, r.at_old)) r.at_new r.same)
]

Lacks-take : (b i : ℕ) (s : Text) → Lacks b s → Lacks b (take i s)
Lacks-take b zero s h = tt
Lacks-take b (suc i) [] h = tt
Lacks-take b (suc i) (c ∷ s) h = (h.0, Lacks-take b i s h.1)

-- A receiver with the old live text that plays all the chunks of a difference in order has said
-- the new text: its past lines and its live text, joined by newlines, are that text.
pub join-diff_lines :
    (random : ℕ → Text) (old new : Text)
    → join b'\n' (spoken (play old (diff_lines random old new))) ≡ new
join-diff_lines random old new =
    let (i, e, says) = Says-diff_lines random old new in
    rw
      (
        says,
        join-prefix_head b'\n' (take i new) _ (split-ne-nil b'\n' (drop i new)),
        join-split b'\n' (drop i new),
      )
      (take-append-drop i new)

-- If the old live text is one line, a receiver with that live text that plays all the chunks of a
-- difference in order has past lines and a live text that are the lines of the new text.
pub spoken-diff_lines :
    (random : ℕ → Text) (old new : Text)
    → Lacks b'\n' old
    → spoken (play old (diff_lines random old new)) ≡ split b'\n' new
spoken-diff_lines random old new h =
    let (i, e, says) = Says-diff_lines random old new in
    let clean = subst (Lacks b'\n') e (Lacks-take b'\n' i old h) in
    says
    ∙ (sym (split-prefix_head b'\n' (take i new) (drop i new) clean)
        ∙ ap (split b'\n') (take-append-drop i new))

first_difference_self : (s : Text) (i : ℕ) → first_difference s s i ≡ none
unfolding first_difference
first_difference_self [] i = refl
first_difference_self (c ∷ s) i = ground (arith, first_difference_self s (suc i))

Lacks-drop : (b i : ℕ) (s : Text) → Lacks b s → Lacks b (drop i s)
Lacks-drop b zero s h = h
Lacks-drop b (suc i) [] h = tt
Lacks-drop b (suc i) (c ∷ s) h = Lacks-drop b i s h.1

suffix_one_line :
    (random : ℕ → Text) (s : Text) (start : ℕ)
    → Lacks b'\n' s
    → start < length s
    → length (suffix_to_chunks random s start) ≡ 1
unfolding suffix_to_chunks chunks_of_lines line_chunks
suffix_one_line random s start l h =
    ground (arith, split_one_part b'\n' (drop start s) (Lacks-drop b'\n' start s l))

no_difference_one_line :
    (random : ℕ → Text) (old new : Text)
    → take (length new) old ≡ take (length old) new
    → old ≢ new
    → Lacks b'\n' new
    → length (
        if ltb (length old) (length new)
        then suffix_to_chunks random new (length old)
        else if ltb (length new) (length old)
        then record { offset = pos (length new); text = [] } ∷ []
        else [])
      ≡ 1
no_difference_one_line random old new e ne l = elim (Ordering-cases (length old) (length new)) [
  | inl lt ↦ rw (lt→ltb _ _ lt) (suffix_one_line random new (length old) l lt)
  | inr (inl gt) ↦ rw (le→ltb (length old) (length new) (omega arith), lt→ltb _ _ gt) refl
  | inr (inr eq) ↦ absurd (
      ne (
        sym (take-all (length new) old (omega arith))
        ∙ (e ∙ take-all (length old) new (omega arith))))
]

-- A text differs from itself by no chunk, and from another text of one line by one chunk.
pub length-diff_lines :
    (random : ℕ → Text) (old new : Text)
    → old ≢ new
    → Lacks b'\n' new
    → (diff_lines random old old ≡ []) × (length (diff_lines random old new) ≡ 1)
unfolding diff_lines
length-diff_lines random old new ne l = (
  ground (arith, first_difference_self old 0),
  elim (Option-cases (first_difference old new 0)) [
    | inl e ↦
        rw (e, diff_lines)
          (no_difference_one_line random old new (first_difference-none old new 0 e) ne l)
    | inr (k, e) ↦
        let r = first_difference-some old new 0 k e in
        let here : k ≡ r.at = omega (arith, r.at_eq) in
        rw (e, diff_lines, here) (suffix_one_line random new r.at l r.at_new)
  ],
)
