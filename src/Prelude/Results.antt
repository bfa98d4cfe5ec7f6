-- ===== src/Prelude/Results.antt =====
-- A Go result `(value, error)` with its error cases, and state passing with failure.
-- The text that `fmt.Errorf` puts round a sentinel is not kept: only what `errors.Is` sees.
use mathlib.Core.Logic.{◌⊎◌, inl, inr}
use mathlib.Core.Path.{◌≡◌, refl, ap}
use Prim.Native.Nat.{ℕ}

-- The sentinels that the program compares with, and errors of other code, told apart by a number.
pub data Error : Type 0 where
  invalid_key not_found redis_nil already_present not_present no_session : Error
  unknown_client no_storage_id : Error
  external : ℕ → Error

pub data Result {ℓ} (A : Type ℓ) : Type ℓ where
  ok : A → Result A
  err : Error → Result A

-- A call changes the state whether or not it fails.
abbrev pub Exec {ℓ κ} : Type ℓ → Type κ → Type (ℓ ⊔ κ)
Exec S A = S → Result A × S

module _ {ℓ κ} {S : Type ℓ} {A : Type κ} where
  abbrev pub pure : A → Exec S A
  pure a s = (ok a, s)

  abbrev pub raise : Error → Exec S A
  raise e s = (err e, s)

  abbrev pub lift : Result A → Exec S A
  lift r s = (r, s)

module _ {ℓ κ ι} {S : Type ℓ} {A : Type κ} {B : Type ι} where
  -- `if err != nil { return err }` between two calls.
  abbrev pub and_then : Result A × S → (A → Exec S B) → Result B × S
  and_then (ok a, s) f = f a s
  and_then (err e, s) f = (err e, s)

  -- A call whose error is looked at: the continuation has the result as it came.
  abbrev pub handle : Exec S A → (Result A → Exec S B) → Exec S B
  handle m f s = let (r, s') = m s in f r s'

  infixl 5 ◌>>=◌ ◌>>◌
  abbrev pub ◌>>=◌ : Exec S A → (A → Exec S B) → Exec S B
  ◌>>=◌ m f s = and_then (m s) f

  abbrev pub ◌>>◌ : Exec S A → Exec S B → Exec S B
  m >> n = m >>= λ _. n

pub Result-cases {ℓ} :
    {A : Type ℓ} (r : Result A) → ((a : A) × (r ≡ ok a)) ⊎ ((e : Error) × (r ≡ err e))
Result-cases (ok a) = inl (a, refl)
Result-cases (err e) = inr (e, refl)

-- A call that gives a value, and the one after it.
pub bind_ok {ℓ κ ι} :
    {S : Type ℓ} {A : Type κ} {B : Type ι} (m : Exec S A) {a : A} {s t : S}
    → m s ≡ (ok a, t)
    → (f : A → Exec S B) → (m >>= f) s ≡ f a t
bind_ok m e f = ap (λ r. and_then r f) e
