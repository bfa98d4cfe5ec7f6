-- ===== src/Protocol/Decimal.antt =====
-- `strconv.Atoi` and the verb `%d` of fmt on a 64-bit `int`, as protocol/chunk.go uses them.
use srv.Prelude.{
  ℕ, zero, suc, ◌+◌, ◌-◌, ◌*◌, ◌/◌, ◌%◌, ◌^◌, ◌≤◌, ◌<◌, ◌≡◌, refl, ◌||◌, Option, none, some, [],
  ◌∷◌, arith, Text, Lacks, ltb, ◌==◌, if◌then◌else◌, ℤ, pos, negsuc, IsInt64,
}

-- The decimal digits of `n`, before `out`; `n + 1` rounds are enough.
emit : ℕ → ℕ → Text → Text
emit zero n out = out
emit (suc f) n out =
    let shown = (b'0' + n % 10) ∷ out in
    let rest = emit f (n / 10) shown in if ltb n 10 then shown else rest

unfoldable pub format_int : ℤ → Text
unfolding emit
format_int (pos n) = emit (suc n) n []
format_int (negsuc n) = b'-' ∷ emit (suc (suc n)) (suc n) []

scan : Text → ℕ → Option ℕ
scan [] n = some n
scan (c ∷ s) n = if ltb c b'0' || ltb b'9' c then none else scan s (n * 10 + (c - b'0'))

magnitude : Text → Option ℕ
unfolding scan
magnitude [] = none
magnitude (c ∷ s) = scan (c ∷ s) 0

positive : Option ℕ → Option ℤ
positive none = none
positive (some n) = if ltb n (2 ^ 63) then some (pos n) else none

negative : Option ℕ → Option ℤ
negative none = none
negative (some zero) = some (pos 0)
negative (some (suc n)) = if ltb n (2 ^ 63) then some (negsuc n) else none

-- `none` is a syntax error or a value out of range.
unfoldable pub atoi : Text → Option ℤ
unfolding magnitude positive negative
atoi [] = none
atoi (c ∷ s) =
    if c == b'-'
    then negative (magnitude s)
    else if c == b'+'
    then positive (magnitude s)
    else positive (magnitude (c ∷ s))

scan-emit : (f n : ℕ) (out : Text) → n < f → scan (emit f n out) 0 ≡ scan out n
unfolding scan emit
scan-emit zero n out h = elim h [ ]
scan-emit (suc f) n out h = ground (arith, scan-emit f (n / 10) ((b'0' + n % 10) ∷ out))

abbrev StartsWithDigit : Text → Type 0
StartsWithDigit [] = ⊥
StartsWithDigit (c ∷ s) = (b'0' ≤ c) × (c ≤ b'9')

emit-StartsWithDigit : (f n : ℕ) (out : Text) → n < f → StartsWithDigit (emit f n out)
unfolding emit
emit-StartsWithDigit zero n out h = elim h [ ]
emit-StartsWithDigit (suc f) n out h =
    ground (arith, emit-StartsWithDigit f (n / 10) ((b'0' + n % 10) ∷ out))

emit-Lacks : (b f n : ℕ) (out : Text) → b'9' < b → Lacks b out → Lacks b (emit f n out)
unfolding emit
emit-Lacks b zero n out h l = l
emit-Lacks b (suc f) n out h l = ground (arith, emit-Lacks b f (n / 10) ((b'0' + n % 10) ∷ out))

magnitude-eq-scan : (s : Text) → StartsWithDigit s → magnitude s ≡ scan s 0
unfolding magnitude
magnitude-eq-scan [] h = absurd h
magnitude-eq-scan (c ∷ s) h = refl

atoi_unsigned : (s : Text) → StartsWithDigit s → atoi s ≡ positive (scan s 0)
unfolding atoi
atoi_unsigned [] h = absurd h
atoi_unsigned (c ∷ s) h = ground arith

atoi-minus : (s : Text) → StartsWithDigit s → atoi (b'-' ∷ s) ≡ negative (scan s 0)
unfolding atoi
atoi-minus [] h = absurd h
atoi-minus (c ∷ s) h = refl

-- A printed integer is read back.
pub atoi-format_int : (z : ℤ) → IsInt64 z → atoi (format_int z) ≡ some z
unfolding format_int
atoi-format_int (pos n) h =
    rw
      (
        atoi_unsigned (emit (suc n) n []) (emit-StartsWithDigit (suc n) n [] (omega arith)),
        scan-emit (suc n) n [] (omega arith),
      )
      (unfold positive scan in ground arith)
atoi-format_int (negsuc n) h =
    rw
      (
        atoi-minus (emit (suc (suc n)) (suc n) [])
            (emit-StartsWithDigit (suc (suc n)) (suc n) [] (omega arith)),
        scan-emit (suc (suc n)) (suc n) [] (omega arith),
      )
      (unfold negative scan in ground arith)

-- Nor does it hold a bar.
pub format_int-Lacks : (z : ℤ) → Lacks b'|' (format_int z)
unfolding format_int
format_int-Lacks (pos n) = emit-Lacks b'|' (suc n) n [] (omega arith) tt
format_int-Lacks (negsuc n) =
    (omega arith, emit-Lacks b'|' (suc (suc n)) (suc n) [] (omega arith) tt)
