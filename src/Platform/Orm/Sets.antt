-- ===== src/Platform/Orm/Sets.antt =====
-- Sets of strings.
use srv.Prelude.{Bool, List, [], ◌∷◌, Exec, pure, lift, ◌>>=◌, Text}
use srv.Platform.Redis.{Redis, Kind, s_members, s_is_member, s_add, s_rem}
use srv.Platform.Orm.Keys.{RedisKey, db_key}

module _ (r : Redis) (prefix : Text) where
  unfoldable pub fetch_set_members : RedisKey → Exec r.World (List Text)
  fetch_set_members rk = do key ← lift (db_key prefix rk); r.run Kind.texts (s_members key)

  unfoldable pub is_set_member : RedisKey → Text → Exec r.World Bool
  is_set_member rk member = do
    key ← lift (db_key prefix rk)
    r.run Kind.flag (s_is_member key member)

  unfoldable pub add_set_members : RedisKey → List Text → Exec r.World (Unit {0})
  add_set_members rk [] = pure tt
  add_set_members rk (m ∷ members) = do
    key ← lift (db_key prefix rk)
    r.run Kind.unit (s_add key (m ∷ members))

  unfoldable pub remove_set_members : RedisKey → List Text → Exec r.World (Unit {0})
  remove_set_members rk [] = pure tt
  remove_set_members rk (m ∷ members) = do
    key ← lift (db_key prefix rk)
    r.run Kind.unit (s_rem key (m ∷ members))
