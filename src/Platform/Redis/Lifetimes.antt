-- ===== src/Platform/Redis/Lifetimes.antt =====
-- The documented behaviour of the commands on the fields of one hash, with the lifetimes that
-- HEXPIRE gives to fields and the time that passes.
use srv.Prelude.{
  ℕ, zero, suc, ◌+◌, ◌≡◌, ite, Option, none, some, redis_nil, Result, ok, err, Text, text_discrete,
  ltb, if◌then◌else◌, ℤ, pos, negsuc,
}
use srv.Platform.Redis.{Kind, Val, Command, Redis, h_get, h_set, h_del, h_expire}

pub data FieldCommand : Kind → Type 0 where
  read : Text → FieldCommand Kind.text
  write : Text → Text → FieldCommand Kind.unit
  remove : Text → FieldCommand Kind.unit
  limit : ℤ → Text → FieldCommand Kind.unit

abbrev pub command : Text → (k : Kind) → FieldCommand k → Command k
command key k (read f) = h_get key f
command key k (write f v) = h_set key f v
command key k (remove f) = h_del key f
command key k (limit d f) = h_expire key d f

-- A value, and the instant at which it is over.
abbrev pub Field : Type 0
Field = Option (Text × Option ℕ)

-- The time, and the fields by their names. A field that is over may still be there.
pub record TimedHash : Type 0 where
  pub now : ℕ
  pub fields : Text → Field

-- What is there of a field at a time.
unfoldable pub live : ℕ → Field → Option Text
live now none = none
live now (some (v, none)) = some v
live now (some (v, some t)) = if ltb now t then some v else none

abbrev pub put_field : Text → Field → TimedHash → TimedHash
put_field f x h = record h { fields = λ j. ite (text_discrete f j) x (h.fields j) }

abbrev pub found : Option Text → Result Text
found none = err redis_nil
found (some v) = ok v

-- A new value has no lifetime. A lifetime that is not positive is over at once, and a field that is
-- not there gets none.
unfoldable pub limited_to : ℤ → ℕ → Option Text → Field
limited_to d now none = none
limited_to (pos zero) now (some v) = none
limited_to (pos (suc n)) now (some v) = some (v, some (now + suc n))
limited_to (negsuc n) now (some v) = none

unfoldable pub exec_field : (k : Kind) → FieldCommand k → TimedHash → Result (Val k) × TimedHash
unfolding live limited_to
exec_field k (read f) h = (found (live h.now (h.fields f)), h)
exec_field k (write f v) h = (ok tt, put_field f (some (v, none)) h)
exec_field k (remove f) h = (ok tt, put_field f none h)
exec_field k (limit d f) h = (ok tt, put_field f (limited_to d h.now (live h.now (h.fields f))) h)

-- A client that shows this on a key while it is healthy: the connection is up, the key holds a hash
-- or nothing, and no other client writes between its commands. To wait makes only the time pass.
pub record KeepsLifetimes (r : Redis) (key : Text) : Type 1 where
  pub Healthy : r.World → Type 0
  pub view : r.World → TimedHash
  pub wait : ℕ → r.World → r.World
  pub replies :
      (k : Kind) (c : FieldCommand k) (w : r.World)
      → Healthy w
      → (r.run k (command key k c) w).0 ≡ (exec_field k c (view w)).0
  pub view-run :
      (k : Kind) (c : FieldCommand k) (w : r.World)
      → Healthy w
      → view (r.run k (command key k c) w).1 ≡ (exec_field k c (view w)).1
  pub run-Healthy :
      (k : Kind) (c : FieldCommand k) (w : r.World)
      → Healthy w
      → Healthy (r.run k (command key k c) w).1
  pub view-wait :
      (n : ℕ) (w : r.World)
      → Healthy w
      → view (wait n w) ≡ record (view w) { now = (view w).now + n }
  pub wait-Healthy : (n : ℕ) (w : r.World) → Healthy w → Healthy (wait n w)
