-- ===== src/Platform/Orm/Lists.antt =====
-- Lists of strings.
use srv.Prelude.{Bool, List, Exec, lift, ◌>>=◌, Text, if◌then◌else◌, ℤ}
use srv.Platform.Redis.{
  Redis, Kind, Side, left, right, l_range, bl_move, l_move, l_push, r_push, l_rem,
}
use srv.Platform.Orm.Keys.{RedisKey, db_key, raw_key}

abbrev other : Side → Side
other left = right
other right = left

abbrev side : Bool → Side
side on_left = if on_left then left else right

module _ (r : Redis) (prefix : Text) where
  unfoldable pub fetch_list_range : RedisKey → ℤ → ℤ → Exec r.World (List Text)
  fetch_list_range rk start end = do
    key ← lift (db_key prefix rk)
    r.run Kind.texts (l_range key start end)

  -- The element fetched goes to the other end of the list.
  unfoldable pub fetch_list_member_blocking : RedisKey → Bool → ℤ → Exec r.World Text
  fetch_list_member_blocking rk on_left timeout = do
    key ← lift (db_key prefix rk)
    r.run Kind.text (bl_move key key (side on_left) (other (side on_left)) timeout)

  -- The keys are not checked here.
  unfoldable pub move_list_member : RedisKey → RedisKey → Bool → Bool → Exec r.World Text
  move_list_member src dst src_left dst_left =
      r.run Kind.text
        (l_move (raw_key prefix src) (raw_key prefix dst) (side src_left) (side dst_left))

  unfoldable pub push_list_members : RedisKey → Bool → List Text → Exec r.World (Unit {0})
  push_list_members rk on_left members = do
    key ← lift (db_key prefix rk)
    r.run Kind.unit (if on_left then l_push key members else r_push key members)

  unfoldable pub remove_list_element : RedisKey → ℤ → Text → Exec r.World (Unit {0})
  remove_list_element rk count element = do
    key ← lift (db_key prefix rk)
    r.run Kind.unit (l_rem key count element)
