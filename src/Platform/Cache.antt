-- ===== src/Platform/Cache.antt =====
-- The expiring cache: a map of blobs whose fields have a limited lifetime.
pub mod Laws
use srv.Prelude.{
  ℕ, Option, none, some, redis_nil, Result, ok, err, Exec, pure, raise, lift, handle, ◌>>◌, ◌++◌,
  Text, ℤ, pos,
}
use srv.Platform.Redis.{Redis, Kind, h_get, h_set, h_del, h_expire}
use srv.Platform.Orm.Time.{seconds}

pub record ExpiringCache : Type 0 where
  pub id : Text
  pub ttl : ℤ

unfoldable pub new_expiring_cache : Text → ℕ → ExpiringCache
new_expiring_cache id ttl_secs = record { id = id; ttl = seconds (pos ttl_secs) }

-- No value is an answer.
abbrev pub or_missing : Result Text → Result (Option Text)
or_missing (ok v) = ok (some v)
or_missing (err redis_nil) = ok none
or_missing (err e) = err e

module _ (r : Redis) (prefix : Text) where
  -- An entry that cannot expire is deleted, and an error of that is dropped.
  unfoldable pub expire_blob : ExpiringCache → Text → Exec r.World (Unit {0})
  expire_blob e id = handle (r.run Kind.unit (h_expire (prefix ++ e.id) e.ttl id)) (λ res.
      elim res [
        | ok _ ↦ pure tt
        | err x ↦ handle (r.run Kind.unit (h_del (prefix ++ e.id) id)) (λ _. raise x)
      ])

  unfoldable pub add_blob : ExpiringCache → Text → Text → Exec r.World (Unit {0})
  unfolding expire_blob
  add_blob e id blob = r.run Kind.unit (h_set (prefix ++ e.id) id blob) >> expire_blob e id

  unfoldable pub get_blob : ExpiringCache → Text → Exec r.World (Option Text)
  get_blob e id =
      handle (r.run Kind.text (h_get (prefix ++ e.id) id)) (λ res. lift (or_missing res))
