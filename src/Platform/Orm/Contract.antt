-- ===== src/Platform/Orm/Contract.antt =====
-- Stored objects over a documented client.
use srv.Prelude.{◌≡◌, ◌≢◌, ap, ◌∙◌, none, some, [], not_found, ok, err, Text, ite, text_discrete}
use srv.Platform.Redis.{Redis}
use srv.Platform.Redis.Spec.{str, put, Documented}
use srv.Platform.Redis.Simulation.{spec_redis, Simulates-then}
use srv.Platform.Orm.Keys.{RedisKey, raw_key, delete_storage}
use srv.Platform.Orm.Objects.{RedisValue, fetch_value_at_key, store_value_at_key}
use srv.Platform.Orm.Refinement.{
  delete_storage-Simulates, fetch_value_at_key-Simulates, store_value_at_key-Simulates,
}
use srv.Platform.Orm.Laws.{put_self, store-spec, fetch-spec, fetch_missing-spec, delete-spec}

module _ {A : Type 0} {r : Redis} (d : Documented r) (prefix : Text) (v : RedisValue A)
    (rk : RedisKey) where
  -- Over a healthy client, a value that has an encoding is stored under a key with an id without
  -- an error, is then fetched from the key, has no expiry, and leaves every other key as it was.
  pub fetch-store :
      (a : A) (b : Text) (w : r.World)
      → d.Healthy w
      → rk.storage_id ≢ []
      → v.to_redis a ≡ ok b
      → let stored = store_value_at_key r prefix v rk a w in
        (stored.0 ≡ ok tt)
        × ((fetch_value_at_key r prefix v rk stored.1).0 ≡ ok a)
        × ((j : Text)
            → d.view stored.1 j
              ≡ ite
                  (text_discrete (raw_key prefix rk) j)
                  (some (record { value = str b; ttl = none }))
                  (d.view w j))
  unfolding put
  fetch-store a b w h n e =
      let s = store_value_at_key-Simulates d prefix v rk a in
      let spec = store-spec prefix v rk a b (d.view w) n e in
      let after = s.keeps w h ∙ ap (λ p. p.1) spec in
      let key = raw_key prefix rk in
      (
        s.reply w h ∙ ap (λ p. p.0) spec,
        Simulates-then d s (fetch_value_at_key-Simulates d prefix v rk) w h
            ∙ ap (λ p. (fetch_value_at_key spec_redis prefix v rk p.1).0) spec
            ∙ ap (λ p. p.0)
                (fetch-spec prefix v rk a b none _ (put_self key _ (d.view w)) (v.decodes a b e)),
        λ j. ap (λ m. m j) after,
      )

  -- Over a healthy client, a key with an id is deleted without an error, a fetch then says that
  -- it is not found, and every other key is as it was, whether or not there was a value.
  pub fetch-delete :
      (w : r.World)
      → d.Healthy w
      → rk.storage_id ≢ []
      → let deleted = delete_storage r prefix rk w in
        (deleted.0 ≡ ok tt)
        × ((fetch_value_at_key r prefix v rk deleted.1).0 ≡ err not_found)
        × ((j : Text)
            → d.view deleted.1 j ≡ ite (text_discrete (raw_key prefix rk) j) none (d.view w j))
  unfolding put
  fetch-delete w h n =
      let s = delete_storage-Simulates d prefix rk in
      let spec = delete-spec prefix rk (d.view w) n in
      let after = s.keeps w h ∙ ap (λ p. p.1) spec in
      let key = raw_key prefix rk in
      (
        s.reply w h ∙ ap (λ p. p.0) spec,
        Simulates-then d s (fetch_value_at_key-Simulates d prefix v rk) w h
            ∙ ap (λ p. (fetch_value_at_key spec_redis prefix v rk p.1).0) spec
            ∙ ap (λ p. p.0) (fetch_missing-spec prefix v rk _ (put_self key none (d.view w))),
        λ j. ap (λ m. m j) after,
      )
