-- ===== src/Handlers/Auth/Fresh.antt =====
-- The age of a token, whose difference is taken in 64 bits.
use srv.Prelude.{
  ℕ, ◌+◌, ◌≡◌, false, ◌≤◌, ◌<◌, ◌^◌, arith, ℤ, pos, negsuc, pos_part, neg_part, IsInt64, wrap,
  residue, sub_int64,
}
use srv.Handlers.Auth.{too_far_off}

-- The time of the token is at most 300 seconds before the server's and at most 300 after it.
abbrev pub WithinFiveMinutes : ℕ → ℤ → Type 0
WithinFiveMinutes unix at =
    (unix + neg_part at ≤ pos_part at + 300) × (pos_part at ≤ unix + neg_part at + 300)

-- For a time of the server before 2 ^ 62 and any time of 64 bits in the token, also a negative one
-- for which the difference wraps around: a token passes exactly when it is of the five minutes
-- before or after.
pub too_far_off-exact :
    (unix : ℕ) (at : ℤ)
    → unix < 2 ^ 62
    → IsInt64 at
    → ((too_far_off unix at ≡ false) → WithinFiveMinutes unix at)
      × (WithinFiveMinutes unix at → too_far_off unix at ≡ false)
unfolding too_far_off sub_int64 wrap residue
too_far_off-exact unix (pos n) h i = (λ e. (ground arith, ground arith), λ (a, c). ground arith)
too_far_off-exact unix (negsuc n) h i = (λ e. (ground arith, ground arith), λ (a, c). ground arith)
