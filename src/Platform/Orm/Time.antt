-- ===== src/Platform/Orm/Time.antt =====
-- `time.Duration(secs) * time.Second`: a product of 64-bit integers, in nanoseconds.
use srv.Prelude.{ℕ, suc, ◌-◌, ◌*◌, ◌%◌, ◌^◌, ◌≤◌, ◌≡◌, arith, ℤ, pos, negsuc, wrap}

unfoldable pub seconds : ℤ → ℤ
unfolding wrap
seconds (pos n) = wrap ((n * 1000000000) % 2 ^ 64)
seconds (negsuc n) = wrap ((2 ^ 64 - (suc n * 1000000000) % 2 ^ 64) % 2 ^ 64)

-- Up to 292 years nothing wraps around.
pub seconds_exact : (n : ℕ) → n ≤ 9223372036 → seconds (pos n) ≡ pos (n * 1000000000)
unfolding seconds wrap
seconds_exact n h = ground arith
