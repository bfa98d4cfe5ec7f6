-- ===== src/Storage/Client.antt =====
-- What is recorded of a client's launches and requests.
use srv.Prelude.{ℕ, ok, err, Exec, Text, codes}
use srv.Platform.Orm.Keys.{delete_storage}
use srv.Platform.Orm.Objects.{fetch_value_at_key, store_object}
use srv.Storage.Types.{ActivityData, Store, activity_key}

module _ (st : Store) where
  open st use {redis, prefix, activities}

  unfoldable pub get_client_activity : Text → Exec redis.World ActivityData
  get_client_activity client_id =
      fetch_value_at_key redis prefix activities (activity_key client_id)

  unfoldable pub save_client_activity : ActivityData → Exec redis.World (Unit {0})
  save_client_activity a = store_object redis prefix activities (λ x. activity_key x.client_id) a

  unfoldable pub delete_client_activity : Text → Exec redis.World (Unit {0})
  delete_client_activity client_id = delete_storage redis prefix (activity_key client_id)

  -- Failures are not returned.
  unfoldable pub observe_client_launch : ℕ → Text → Text → Text → redis.World → redis.World
  unfolding save_client_activity
  observe_client_launch now client_type client_id profile_id w =
      (save_client_activity
        (record {
          client_type = client_type;
          client_id = client_id;
          profile_id = profile_id;
          launch_time = now;
          last_activity = codes "launch";
          last_time = now;
        })
        w).1

  unfoldable pub observe_client_activity : ℕ → Text → Text → redis.World → redis.World
  unfolding get_client_activity save_client_activity
  observe_client_activity now client_id activity w =
      let (res, w') = get_client_activity client_id w in
      elim res [
        | err e ↦ w'
        | ok a ↦
            (save_client_activity (record a { last_activity = activity; last_time = now }) w').1
      ]
