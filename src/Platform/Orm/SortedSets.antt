-- ===== src/Platform/Orm/SortedSets.antt =====
-- Sorted sets of strings, with scores that are floats.
use srv.Prelude.{List, Exec, lift, ◌>>=◌, Text, ℤ}
use srv.Platform.Redis.{Redis, Kind, Float, z_add, z_rem, z_score, z_range, z_range_by_score}
use srv.Platform.Orm.Keys.{RedisKey, db_key}

module _ (r : Redis) (prefix : Text) where
  unfoldable pub fetch_ss_range_by_index : RedisKey → ℤ → ℤ → Exec r.World (List Text)
  fetch_ss_range_by_index rk start end = do
    key ← lift (db_key prefix rk)
    r.run Kind.texts (z_range key start end)

  unfoldable pub fetch_ss_range_by_score : RedisKey → Float → Float → Exec r.World (List Text)
  fetch_ss_range_by_score rk min max = do
    key ← lift (db_key prefix rk)
    r.run Kind.texts (z_range_by_score key min max)

  unfoldable pub add_ss_member : RedisKey → Float → Text → Exec r.World (Unit {0})
  add_ss_member rk score member = do
    key ← lift (db_key prefix rk)
    r.run Kind.unit (z_add key score member)

  unfoldable pub remove_ss_member : RedisKey → Text → Exec r.World (Unit {0})
  remove_ss_member rk member = do key ← lift (db_key prefix rk); r.run Kind.unit (z_rem key member)

  -- What is no member is an error.
  unfoldable pub get_ss_member_score : RedisKey → Text → Exec r.World Float
  get_ss_member_score rk member = do
    key ← lift (db_key prefix rk)
    r.run Kind.score (z_score key member)
