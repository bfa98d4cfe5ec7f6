-- ===== src/Platform/Orm/Laws.antt =====
-- What is stored is found again: the operations on the specification.
use srv.Prelude.{
  ◌≡◌, ◌≢◌, refl, Option, none, some, [], not_found, ok, err, invalid_key, Result-cases, inl, inr,
  text_discrete, Text, arith, ℤ,
}
use srv.Platform.Redis.Spec.{Keyspace, Entry, str, put, exec, text_at}
use srv.Platform.Redis.Simulation.{spec_redis}
use srv.Platform.Orm.Keys.{RedisKey, raw_key, db_key, delete_storage}
use srv.Platform.Orm.Objects.{RedisValue, fetch_value_at_key, store_value_at_key}

pub put_self : (k : Text) (e : Option Entry) (m : Keyspace) → put k e m k ≡ e
unfolding put
put_self k e m = ground arith

pub put_other : (k j : Text) (e : Option Entry) (m : Keyspace) → j ≢ k → put k e m j ≡ m j
unfolding put
put_other k j e m n = ground arith

pub db_key_valid :
    (prefix : Text) (rk : RedisKey) → rk.storage_id ≢ [] → db_key prefix rk ≡ ok (raw_key prefix rk)
unfolding db_key
db_key_valid prefix rk n = ground arith

pub db_key_empty :
    (prefix : Text) (rk : RedisKey) → rk.storage_id ≡ [] → db_key prefix rk ≡ err invalid_key
unfolding db_key
db_key_empty prefix rk e = ground arith

module _ {A : Type 0} (prefix : Text) (v : RedisValue A) (rk : RedisKey) where
  pub store-spec :
      (a : A) (b : Text) (m : Keyspace)
      → rk.storage_id ≢ []
      → v.to_redis a ≡ ok b
      → store_value_at_key spec_redis prefix v rk a m
        ≡ (ok tt, put (raw_key prefix rk) (some (record { value = str b; ttl = none })) m)
  unfolding store_value_at_key exec
  store-spec a b m n e = rw (db_key_valid prefix rk n, e) refl

  pub fetch-spec :
      (a : A) (b : Text) (ttl : Option ℤ) (m : Keyspace)
      → m (raw_key prefix rk) ≡ some (record { value = str b; ttl = ttl })
      → v.from_redis b ≡ ok a
      → fetch_value_at_key spec_redis prefix v rk m ≡ (ok a, m)
  unfolding fetch_value_at_key exec text_at
  fetch-spec a b ttl m e f = rw (e, f) refl

  pub fetch_missing-spec :
      (m : Keyspace)
      → m (raw_key prefix rk) ≡ none
      → fetch_value_at_key spec_redis prefix v rk m ≡ (err not_found, m)
  unfolding fetch_value_at_key exec text_at
  fetch_missing-spec m e = rw e refl

-- A write leaves every other key as it was, whether or not it succeeds.
pub store-keeps :
    {A : Type 0} (prefix : Text) (v : RedisValue A) (rk : RedisKey) (a : A) (m : Keyspace)
    (k : Text)
    → k ≢ raw_key prefix rk
    → (store_value_at_key spec_redis prefix v rk a m).1 k ≡ m k
unfolding store_value_at_key exec
store-keeps prefix v rk a m k n = elim (text_discrete rk.storage_id []) [
  | yes e ↦ rw (db_key_empty prefix rk e) refl
  | no i ↦ elim (Result-cases (v.to_redis a)) [
    | inl (b, e) ↦ rw (db_key_valid prefix rk i, e) (put_other (raw_key prefix rk) k _ m n)
    | inr (x, e) ↦ rw (db_key_valid prefix rk i, e) refl
  ]
]

pub delete-spec :
    (prefix : Text) (rk : RedisKey) (m : Keyspace)
    → rk.storage_id ≢ []
    → delete_storage spec_redis prefix rk m ≡ (ok tt, put (raw_key prefix rk) none m)
unfolding delete_storage exec
delete-spec prefix rk m n = ground (arith, db_key_valid prefix rk n)
