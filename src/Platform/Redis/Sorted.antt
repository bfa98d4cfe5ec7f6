-- ===== src/Platform/Redis/Sorted.antt =====
-- Sorted sets: their members with their scores, in the order of the scores and then of the bytes.
use srv.Prelude.{
  ℕ, zero, suc, ◌-◌, ◌^◌, ◌≡◌, ◌≢◌, refl, ite, Bool, true, false, ◌&&◌, ◌||◌, List, [], ◌∷◌,
  redis_nil, Result, ok, err, Text, text_discrete, ltb, leb, ◌%◌, ◌*◌, ◌==◌, ltb_ℤ, eqb_ℤ,
  if◌then◌else◌, ℤ, pos, negsuc, arith, Bool-cases, inl, inr, ite_intro,
}

-- A number below zero, by the size of its bits.
abbrev below_zero : ℕ → ℤ
below_zero zero = pos 0
below_zero (suc n) = negsuc n

-- The order of two floats is that of their bits, with the sign bit apart.
abbrev pub float_order : ℕ → ℤ
float_order bits = if ltb bits (2 ^ 63) then pos bits else below_zero (bits - 2 ^ 63)

-- The bits of a `float64` that is a number or infinite: no more than those of infinity, apart from
-- the sign.
unfoldable pub is_score : ℕ → Bool
is_score bits = ltb bits (2 ^ 64) && leb (bits % 2 ^ 63) (2047 * 2 ^ 52)

-- The byte order of texts.
abbrev text_before : Text → Text → Bool
text_before s [] = false
text_before [] (y ∷ t) = true
text_before (x ∷ s) (y ∷ t) = let rest = text_before s t in if x == y then rest else ltb x y

-- The first of two members comes before the second.
unfoldable pub comes_before : Text → ℕ → Text → ℕ → Bool
comes_before x a y b =
    ltb_ℤ (float_order a) (float_order b)
    || (eqb_ℤ (float_order a) (float_order b) && text_before x y)

unfoldable pub score_of : Text → List (Text × ℕ) → Result ℕ
score_of x [] = err redis_nil
score_of x ((y, a) ∷ ys) = ite (text_discrete y x) (ok a) (score_of x ys)

unfoldable pub remove_member : Text → List (Text × ℕ) → List (Text × ℕ)
remove_member x [] = []
remove_member x ((y, a) ∷ ys) =
    let rest = remove_member x ys in ite (text_discrete y x) rest ((y, a) ∷ rest)

-- At its place, for a member that is not there.
unfoldable pub place : Text → ℕ → List (Text × ℕ) → List (Text × ℕ)
unfolding comes_before
place x a [] = (x, a) ∷ []
place x a ((y, b) ∷ ys) =
    let rest = place x a ys in if comes_before x a y b then (x, a) ∷ (y, b) ∷ ys else (y, b) ∷ rest

-- The members whose scores are between two, which are included.
unfoldable pub between : ℕ → ℕ → List (Text × ℕ) → List (Text × ℕ)
between min max [] = []
between min max ((y, b) ∷ ys) =
    let rest = between min max ys in
    if ltb_ℤ (float_order b) (float_order min) || ltb_ℤ (float_order max) (float_order b)
    then rest
    else (y, b) ∷ rest

pub score_of-remove :
    (x j : Text) (ys : List (Text × ℕ))
    → score_of j (remove_member x ys) ≡ ite (text_discrete x j) (err redis_nil) (score_of j ys)
unfolding score_of remove_member
score_of-remove x j [] = ground arith
score_of-remove x j ((y, b) ∷ ys) = ground (arith, score_of-remove x j ys)

-- A member that has no score is neither the first nor among the others.
not_there :
    (x y : Text) (b : ℕ) (ys : List (Text × ℕ))
    → score_of x ((y, b) ∷ ys) ≡ err redis_nil
    → (y ≢ x) × (score_of x ys ≡ err redis_nil)
unfolding score_of
not_there x y b ys =
    ite_intro {A = Result ℕ} (λ r. r ≡ err redis_nil → (y ≢ x) × (score_of x ys ≡ err redis_nil))
      (text_discrete y x) (λ same bad. absurd (cc bad)) (λ apart rest. (apart, rest))

pub score_of-place :
    (x j : Text) (a : ℕ) (ys : List (Text × ℕ))
    → score_of x ys ≡ err redis_nil
    → score_of j (place x a ys) ≡ ite (text_discrete x j) (ok a) (score_of j ys)
unfolding score_of place
score_of-place x j a [] h = ground arith
score_of-place x j a ((y, b) ∷ ys) h =
    let (apart, rest) = not_there x y b ys h in
    elim (Bool-cases (comes_before x a y b)) [
      | inl e ↦ rw (e, place, score_of) refl
      | inr e ↦ rw (e, place, score_of) (ground (arith, apart, score_of-place x j a ys rest))
    ]
