-- ===== src/Platform/Orm/Keys.antt =====
-- Storage keys, expiry, deletion and plain strings.
use srv.Prelude.{
  ite, [], ◌++◌, invalid_key, redis_nil, no_storage_id, Result, ok, err, Exec, raise, lift, handle,
  ◌>>=◌, Text, codes, text_discrete, ℤ,
}
use srv.Platform.Redis.{Redis, Kind, expire, del, get, set}
use srv.Platform.Orm.Time.{seconds}

-- What a value of a type with the interface `RedisKey` answers.
pub record RedisKey : Type 0 where
  pub storage_prefix : Text
  pub storage_id : Text

-- `projectPrefix + config.DbKeyPrefix`, the prefix that `GetDb` returns.
unfoldable pub get_db_prefix : Text → Text
get_db_prefix db_key_prefix = codes "whisper:" ++ db_key_prefix

-- The key without the check for an id.
unfoldable pub raw_key : Text → RedisKey → Text
raw_key prefix rk = prefix ++ (rk.storage_prefix ++ rk.storage_id)

unfoldable pub db_key : Text → RedisKey → Result Text
unfolding raw_key
db_key prefix rk = ite (text_discrete rk.storage_id []) (err invalid_key) (ok (raw_key prefix rk))

-- The typed string keys.
unfoldable pub storable_string : Text → RedisKey
storable_string s = record { storage_prefix = codes "string:"; storage_id = s }

unfoldable pub storable_set : Text → RedisKey
storable_set s = record { storage_prefix = codes "set:"; storage_id = s }

unfoldable pub storable_sorted_set : Text → RedisKey
storable_sorted_set s = record { storage_prefix = codes "zset:"; storage_id = s }

unfoldable pub storable_list : Text → RedisKey
storable_list s = record { storage_prefix = codes "list:"; storage_id = s }

unfoldable pub storable_map : Text → RedisKey
storable_map s = record { storage_prefix = codes "map:"; storage_id = s }

-- An answer of the client, where no value at all is an answer too.
abbrev pub or_nil {ℓ} : {A : Type ℓ} → A → Result A → Result A
or_nil a (ok b) = ok b
or_nil a (err redis_nil) = ok a
or_nil a (err e) = err e

module _ (r : Redis) (prefix : Text) where
  unfoldable pub set_expiration : RedisKey → ℤ → Exec r.World (Unit {0})
  set_expiration rk secs = do
    key ← lift (db_key prefix rk)
    r.run Kind.unit (expire key (seconds secs))

  unfoldable pub delete_storage : RedisKey → Exec r.World (Unit {0})
  delete_storage rk =
      ite (text_discrete rk.storage_id []) (raise no_storage_id)
        (do key ← lift (db_key prefix rk); r.run Kind.unit (del key))

  unfoldable pub fetch_string : RedisKey → Exec r.World Text
  fetch_string rk = do
    key ← lift (db_key prefix rk)
    handle (r.run Kind.text (get key)) (λ res. lift (or_nil [] res))

  unfoldable pub store_string : RedisKey → Text → Exec r.World (Unit {0})
  store_string rk val = do key ← lift (db_key prefix rk); r.run Kind.unit (set key val)
