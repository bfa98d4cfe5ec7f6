-- ===== src/Platform/Orm/Scan.antt =====
-- `MapKeys`, `MapStringsAtKeys`, `MapValuesAtKeys` and `MapObjects`: a function run over the keys
-- with one prefix.
use srv.Prelude.{
  List, [], ◌∷◌, ◌++◌, Exec, pure, lift, ◌>>=◌, ◌>>◌, Text, text_discrete, ite, length, take, drop,
}
use srv.Platform.Redis.{Redis, Kind, get}
use srv.Platform.Orm.Keys.{RedisKey}
use srv.Platform.Orm.Objects.{RedisValue}

-- `strings.TrimPrefix`.
unfoldable pub trim_prefix : Text → Text → Text
trim_prefix s prefix =
    ite (text_discrete (take (length prefix) s) prefix) (drop (length prefix) s) s

module _ (r : Redis) (prefix : Text) where
  -- `for iter.Next(ctx)`: the body's error ends the loop.
  unfoldable pub each : (Text → Exec r.World (Unit {0})) → List Text → Exec r.World (Unit {0})
  each body [] = pure tt
  each body (key ∷ keys) = do body key; each body keys

  -- The iterator's own error is not looked at.
  abbrev over_keys : (Text → Exec r.World (Unit {0})) → RedisKey → Exec r.World (Unit {0})
  over_keys body rk w =
      let ((keys, e), w') = r.scan (prefix ++ rk.storage_prefix) w in each body keys w'

  unfoldable pub map_keys : (Text → Exec r.World (Unit {0})) → RedisKey → Exec r.World (Unit {0})
  unfolding each
  map_keys f rk = over_keys (λ key. f (trim_prefix key (prefix ++ rk.storage_prefix))) rk

  unfoldable pub map_strings_at_keys :
      (Text → Text → Exec r.World (Unit {0})) → RedisKey → Exec r.World (Unit {0})
  unfolding each
  map_strings_at_keys f rk =
      over_keys
        (λ key. do
          val ← r.run Kind.text (get key)
          f (trim_prefix key (prefix ++ rk.storage_prefix)) val)
        rk

  -- The callback is a closure over the value that the loop fills: here its argument.
  unfoldable pub map_values_at_keys :
      {A : Type 0}
      → RedisValue A
      → (A → Exec r.World (Unit {0}))
      → RedisKey
      → Exec r.World (Unit {0})
  unfolding each
  map_values_at_keys v f rk =
      over_keys
        (λ key. do bytes ← r.run Kind.text (get key); value ← lift (v.from_redis bytes); f value) rk

  unfoldable pub map_objects :
      {A : Type 0}
      → RedisValue A
      → (A → Exec r.World (Unit {0}))
      → RedisKey
      → Exec r.World (Unit {0})
  unfolding map_values_at_keys
  map_objects v f obj = map_values_at_keys v f obj
