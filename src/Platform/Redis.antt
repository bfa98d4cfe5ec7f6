-- ===== src/Platform/Redis.antt =====
-- The Redis client that platform/orm.go calls: a parameter of everything that stores. A command is
-- what the source passes to a method of `redis.Client`; its reply is the value or an error.
pub mod Sorted
pub mod Spec
pub mod Simulation
pub mod Lifetimes
use srv.Prelude.{ℕ, Bool, Option, List, Text, Error, Result, ℤ}

-- The bits of a `float64`, which may be no number.
abbrev pub Float : Type 0
Float = ℕ

-- What a command answers when it does not fail.
pub data Kind : Type 0 where
  unit text texts flag pairs score : Kind

abbrev pub Val : Kind → Type 0
Val Kind.unit = Unit {0}
Val Kind.text = Text
Val Kind.texts = List Text
Val Kind.flag = Bool
Val Kind.pairs = List (Text × Text)
Val Kind.score = Float

pub data Side : Type 0 where
  left right : Side

-- A key comes first. Durations are in nanoseconds.
pub data Command : Kind → Type 0 where
  expire : Text → ℤ → Command Kind.unit
  del : Text → Command Kind.unit
  get : Text → Command Kind.text
  set : Text → Text → Command Kind.unit
  s_members : Text → Command Kind.texts
  s_is_member : Text → Text → Command Kind.flag
  s_add s_rem : Text → List Text → Command Kind.unit
  l_range : Text → ℤ → ℤ → Command Kind.texts
  bl_move : Text → Text → Side → Side → ℤ → Command Kind.text
  l_move : Text → Text → Side → Side → Command Kind.text
  l_push r_push : Text → List Text → Command Kind.unit
  l_rem : Text → ℤ → Text → Command Kind.unit
  h_get : Text → Text → Command Kind.text
  h_set : Text → Text → Text → Command Kind.unit
  h_keys : Text → Command Kind.texts
  h_get_all : Text → Command Kind.pairs
  h_del : Text → Text → Command Kind.unit
  h_expire : Text → ℤ → Text → Command Kind.unit
  z_add : Text → Float → Text → Command Kind.unit
  z_rem : Text → Text → Command Kind.unit
  z_score : Text → Text → Command Kind.score
  z_range : Text → ℤ → ℤ → Command Kind.texts
  z_range_by_score : Text → Float → Float → Command Kind.texts

-- A command may fail at any time, whatever it did. `scan` is the iterator over the keys that begin
-- with a text: those it gave, and the error that ended it early.
pub record Redis : Type 1 where
  pub World : Type 0
  pub run : (k : Kind) → Command k → World → Result (Val k) × World
  pub scan : Text → World → (List Text × Option Error) × World
