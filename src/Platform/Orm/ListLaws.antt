-- ===== src/Platform/Orm/ListLaws.antt =====
-- Lists over the specification of the client.
use srv.Platform.Orm.Laws.{db_key_empty, put_other}
use srv.Prelude.{◌≢◌, Result-cases, inl, inr, text_discrete}
use srv.Prelude.{
  ◌-◌, ◌≡◌, ◌≢◌, refl, false, Option, List, [], ◌∷◌, ◌++◌, ok, Text, arith, ℤ, pos, negsuc, length,
  take-all,
}
use srv.Platform.Redis.Spec.{Keyspace, put, exec, list_at, keep_list, ttl_at, range, limited}
use srv.Platform.Redis.Simulation.{spec_redis}
use srv.Platform.Orm.Keys.{RedisKey, raw_key, set_expiration}
use srv.Platform.Orm.Lists.{fetch_list_range, push_list_members}
use srv.Platform.Orm.Laws.{db_key_valid}
use srv.Platform.Orm.Time.{seconds}

pub list_at-keep_list : (xs : List Text) (ttl : Option ℤ) → list_at (keep_list xs ttl) ≡ ok xs
unfolding list_at keep_list
list_at-keep_list [] ttl = refl
list_at-keep_list (x ∷ xs) ttl = refl

range_all : (xs : List Text) → range xs (pos 0) (negsuc 0) ≡ xs
unfolding range
range_all xs = take-all (length xs - 0 - 0) xs (omega arith)

module _ (prefix : Text) (rk : RedisKey) (n : rk.storage_id ≢ []) (m : Keyspace) where
  pub set_expiration-spec :
      (secs : ℤ)
      → set_expiration spec_redis prefix rk secs m
        ≡ (ok tt, put (raw_key prefix rk) (limited (seconds secs) (m (raw_key prefix rk))) m)
  unfolding set_expiration exec
  set_expiration-spec secs = ground (arith, db_key_valid prefix rk n)

  module _ {xs : List Text} (e : list_at (m (raw_key prefix rk)) ≡ ok xs) where
    pub push_list_members-spec :
        (ys : List Text)
        → push_list_members spec_redis prefix rk false ys m ≡ (
          ok tt,
          put (raw_key prefix rk) (keep_list (xs ++ ys) (ttl_at (m (raw_key prefix rk)))) m,
        )
    unfolding push_list_members exec
    push_list_members-spec ys = ground (arith, db_key_valid prefix rk n)

    pub fetch_list_all-spec :
        fetch_list_range spec_redis prefix rk (pos 0) (negsuc 0) m ≡ (ok xs, m)
    unfolding fetch_list_range exec
    fetch_list_all-spec = ground (arith, db_key_valid prefix rk n, range_all xs)

-- A push leaves every other key as it was, whether or not it succeeds.
pub push-keeps :
    (prefix : Text) (rk : RedisKey) (xs : List Text) (m : Keyspace) (k : Text)
    → k ≢ raw_key prefix rk
    → (push_list_members spec_redis prefix rk false xs m).1 k ≡ m k
unfolding push_list_members exec
push-keeps prefix rk xs m k n = elim (text_discrete rk.storage_id []) [
  | yes e ↦ rw (db_key_empty prefix rk e) refl
  | no i ↦ elim (Result-cases (list_at (m (raw_key prefix rk)))) [
    | inl (ys, e) ↦ rw (db_key_valid prefix rk i, e) (put_other (raw_key prefix rk) k _ m n)
    | inr (x, e) ↦ rw (db_key_valid prefix rk i, e) refl
  ]
]
