-- ===== src/Platform/Orm/Objects.antt =====
-- Values that are stored as bytes, and objects that know their own key.
use srv.Prelude.{◌≡◌, redis_nil, not_found, Result, ok, err, Exec, lift, handle, ◌>>=◌, Text}
use srv.Platform.Redis.{Redis, Kind, get, set}
use srv.Platform.Orm.Keys.{RedisKey, db_key, raw_key}

-- The interface `RedisValue`. The types of storage implement it by encoding/gob, which is not
-- modelled: what it promises is `decodes`. `FromRedis` clears its receiver, so its result depends
-- on the bytes alone.
pub record RedisValue (A : Type 0) : Type 0 where
  pub to_redis : A → Result Text
  pub from_redis : Text → Result A
  pub decodes : (a : A) (b : Text) → to_redis a ≡ ok b → from_redis b ≡ ok a

-- No value is the sentinel `NotFoundError`.
abbrev pub missing {ℓ} : {A : Type ℓ} → Result A → Result A
missing (ok a) = ok a
missing (err redis_nil) = err not_found
missing (err e) = err e

module _ {A : Type 0} (r : Redis) (prefix : Text) (v : RedisValue A) where
  -- The key is not checked here.
  unfoldable pub fetch_value_at_key : RedisKey → Exec r.World A
  fetch_value_at_key rk = do
    bytes ← handle (r.run Kind.text (get (raw_key prefix rk))) (λ res. lift (missing res))
    lift (v.from_redis bytes)

  unfoldable pub store_value_at_key : RedisKey → A → Exec r.World (Unit {0})
  store_value_at_key rk rv = do
    key ← lift (db_key prefix rk)
    bytes ← lift (v.to_redis rv)
    r.run Kind.unit (set key bytes)

  -- An object gives its key by `key`.
  unfoldable pub fetch_object : (A → RedisKey) → A → Exec r.World A
  unfolding fetch_value_at_key
  fetch_object key obj = fetch_value_at_key (key obj)

  unfoldable pub store_object : (A → RedisKey) → A → Exec r.World (Unit {0})
  unfolding store_value_at_key
  store_object key obj = store_value_at_key (key obj) obj
