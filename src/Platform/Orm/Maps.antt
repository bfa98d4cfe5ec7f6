-- ===== src/Platform/Orm/Maps.antt =====
-- Maps from strings to strings.
use srv.Prelude.{List, [], Exec, lift, handle, ◌>>=◌, Text}
use srv.Platform.Redis.{Redis, Kind, h_get, h_set, h_keys, h_get_all, h_del}
use srv.Platform.Orm.Keys.{RedisKey, db_key, or_nil}

module _ (r : Redis) (prefix : Text) where
  unfoldable pub get_map_value : RedisKey → Text → Exec r.World Text
  get_map_value rk k = do
    key ← lift (db_key prefix rk)
    handle (r.run Kind.text (h_get key k)) (λ res. lift (or_nil [] res))

  unfoldable pub set_map_value : RedisKey → Text → Text → Exec r.World (Unit {0})
  set_map_value rk k v = do key ← lift (db_key prefix rk); r.run Kind.unit (h_set key k v)

  unfoldable pub get_map_keys : RedisKey → Exec r.World (List Text)
  get_map_keys rk = do key ← lift (db_key prefix rk); r.run Kind.texts (h_keys key)

  unfoldable pub get_map_all : RedisKey → Exec r.World (List (Text × Text))
  get_map_all rk = do key ← lift (db_key prefix rk); r.run Kind.pairs (h_get_all key)

  unfoldable pub map_remove_key : RedisKey → Text → Exec r.World (Unit {0})
  map_remove_key rk k = do key ← lift (db_key prefix rk); r.run Kind.unit (h_del key k)
