-- ===== src/Prelude/Texts.antt =====
-- Go strings as byte lists, with `strings.Cut`, `strings.Split` and `strings.Join` at one byte.
use Prim.Native.Nat.{ℕ}
use Prim.Native.Char.{code}
use Prim.Native.String.{String}
use mathlib.Core.Path.{◌≡◌, refl, ap}
use mathlib.Core.Logic.{◌≢◌, ite}
use mathlib.Core.List.{List, [], ◌∷◌, ◌++◌}
use mathlib.Core.Option.{Option, none, some}
use native.Mathlib.Omega.{arith}
unfoldable use native.Mathlib.Decide.{ℕ_discrete}
use srv.Prelude.Tests.{◌==◌, if◌then◌else◌}
use srv.Prelude.Lists.{All}

abbrev pub Text : Type 0
Text = List ℕ

-- The bytes of an ASCII literal.
abbrev pub codes : String → Text
codes String.[] = []
codes (String.◌∷◌ c s) = code c ∷ codes s

unfoldable pub text_discrete : Discrete Text
text_discrete [] [] = yes refl
text_discrete [] (y ∷ t) = no (λ e. cc)
text_discrete (x ∷ s) [] = no (λ e. cc)
text_discrete (x ∷ s) (y ∷ t) = elim (ℕ_discrete x y) [
  | yes p ↦ elim (text_discrete s t) [ yes q ↦ yes (cc) | no n ↦ no (λ e. n (cc)) ]
  | no n ↦ no (λ e. n (cc))
]

abbrev pub Lacks : ℕ → Text → Type 0
Lacks b = All (λ c. c ≢ b)

-- `strings.Cut` at the first `sep`; `none` when it does not occur.
unfoldable pub cut : ℕ → Text → Option (Text × Text)
cut sep [] = none
cut sep (c ∷ s) =
    let rest = cut sep s in
    if c == sep then some ([], s) else elim rest [ none ↦ none | some (l, r) ↦ some (c ∷ l, r) ]

abbrev push_head : ℕ → List Text → List Text
push_head c [] = (c ∷ []) ∷ []
push_head c (p ∷ ps) = (c ∷ p) ∷ ps

unfoldable pub split : ℕ → Text → List Text
split sep [] = [] ∷ []
split sep (c ∷ s) = let rest = split sep s in if c == sep then [] ∷ rest else push_head c rest

unfoldable pub join : ℕ → List Text → Text
join sep [] = []
join sep (p ∷ []) = p
join sep (p ∷ q ∷ ps) = p ++ sep ∷ join sep (q ∷ ps)

pub cut-append : (sep : ℕ) (l r : Text) → Lacks sep l → cut sep (l ++ sep ∷ r) ≡ some (l, r)
unfolding cut
cut-append sep [] r h = ground arith
cut-append sep (c ∷ l) r h = ground (arith, cut-append sep l r h.1)

pub cut-Lacks : (sep : ℕ) (s : Text) → Lacks sep s → cut sep s ≡ none
unfolding cut
cut-Lacks sep [] h = refl
cut-Lacks sep (c ∷ s) h = ground (arith, cut-Lacks sep s h.1)

pub cut_sound : (sep : ℕ) (s l r : Text) → cut sep s ≡ some (l, r) → s ≡ l ++ sep ∷ r
unfolding cut
cut_sound sep [] l r e = cc
cut_sound sep (c ∷ s) [] r e = ground arith
cut_sound sep (c ∷ s) (d ∷ l) r e = ground (arith, cut_sound sep s l r)

pub split-ne-nil : (sep : ℕ) (s : Text) → split sep s ≢ []
unfolding split
split-ne-nil sep [] = λ e. cc
split-ne-nil sep (c ∷ s) = ground (arith, split-ne-nil sep s)

join-push_head :
    (sep c : ℕ) (ps : List Text) → ps ≢ [] → join sep (push_head c ps) ≡ c ∷ join sep ps
unfolding join
join-push_head sep c [] h = absurd (h refl)
join-push_head sep c (p ∷ []) h = refl
join-push_head sep c (p ∷ q ∷ ps) h = refl

pub join-cons :
    (sep : ℕ) (p : Text) (ps : List Text) → ps ≢ [] → join sep (p ∷ ps) ≡ p ++ sep ∷ join sep ps
unfolding join
join-cons sep p [] h = absurd (h refl)
join-cons sep p (q ∷ ps) h = refl

pub join-split : (sep : ℕ) (s : Text) → join sep (split sep s) ≡ s
unfolding split
join-split sep [] = unfold join in refl
join-split sep (c ∷ s) = ground (
  arith,
  join-split sep s,
  split-ne-nil sep s,
  join-push_head sep c (split sep s),
  join-cons sep [] (split sep s),
)

pub split_one_part : (sep : ℕ) (s : Text) → Lacks sep s → split sep s ≡ s ∷ []
unfolding split
split_one_part sep [] h = refl
split_one_part sep (c ∷ s) h = ground (arith, split_one_part sep s h.1)

pub split-append : (sep : ℕ) (l r : Text) → Lacks sep l → split sep (l ++ sep ∷ r) ≡ l ∷ split sep r
unfolding split
split-append sep [] r h = ground arith
split-append sep (c ∷ l) r h = ground (arith, split-append sep l r h.1)

pub split-join :
    (sep : ℕ) (ps : List Text) → ps ≢ [] → All (Lacks sep) ps → split sep (join sep ps) ≡ ps
unfolding join
split-join sep [] h l = absurd (h refl)
split-join sep (p ∷ []) h l = split_one_part sep p l.0
split-join sep (p ∷ q ∷ ps) h l =
    rw (split-append sep p (join sep (q ∷ ps)) l.0)
      (ap (◌∷◌ p) (split-join sep (q ∷ ps) (λ e. cc) l.1))

-- A choice that is no choice.
pub ite_self {ℓ} :
    {A : Type ℓ} (f : Text → A) (k j : Text) → ite (text_discrete k j) (f k) (f j) ≡ f j
ite_self f k j = elim (text_discrete k j) as (λ c. ite c (f k) (f j) ≡ f j) [
  | yes same ↦ ap f same
  | no other ↦ refl
]

pub append_cancel : (s t u : Text) → s ++ t ≡ s ++ u → t ≡ u
append_cancel [] t u e = e
append_cancel (c ∷ s) t u e = append_cancel s t u (cc)
