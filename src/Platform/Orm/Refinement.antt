-- ===== src/Platform/Orm/Refinement.antt =====
-- Each operation over a documented client against the same operation over the specification.
use srv.Prelude.{text_discrete, ℤ, Bool, List, [], ◌∷◌, Text}
use srv.Platform.Redis.{Redis, Kind, set}
use srv.Platform.Redis.Spec.{Documented}
use srv.Platform.Redis.Simulation.{
  spec_redis, Simulates, Simulates-run, Simulates-lift, Simulates-ite, Simulates-bind,
  Simulates-keyed, simulation,
}
use srv.Platform.Orm.Objects.{RedisValue, fetch_value_at_key, store_value_at_key}
use srv.Platform.Orm.Keys.{
  RedisKey, db_key, set_expiration, delete_storage, fetch_string, store_string,
}
use srv.Platform.Orm.Sets.{fetch_set_members, is_set_member, add_set_members, remove_set_members}
use srv.Platform.Orm.Lists.{
  fetch_list_range, fetch_list_member_blocking, push_list_members, remove_list_element,
  move_list_member,
}
use srv.Platform.Orm.Maps.{get_map_value, set_map_value, get_map_keys, get_map_all, map_remove_key}

module _ {r : Redis} (d : Documented r) (prefix : Text) where
  pub set_expiration-Simulates :
      (rk : RedisKey) (secs : ℤ)
      → Simulates d (set_expiration r prefix rk secs) (set_expiration spec_redis prefix rk secs)
  unfolding set_expiration
  set_expiration-Simulates rk secs = Simulates-keyed d Kind.unit _ _

  pub delete_storage-Simulates :
      (rk : RedisKey)
      → Simulates d (delete_storage r prefix rk) (delete_storage spec_redis prefix rk)
  unfolding delete_storage
  delete_storage-Simulates rk =
      Simulates-ite d (text_discrete rk.storage_id []) (Simulates-lift d _)
        (Simulates-keyed d Kind.unit _ _)

  pub fetch_string-Simulates :
      (rk : RedisKey) → Simulates d (fetch_string r prefix rk) (fetch_string spec_redis prefix rk)
  unfolding fetch_string
  fetch_string-Simulates rk = search simulation

  pub store_string-Simulates :
      (rk : RedisKey) (val : Text)
      → Simulates d (store_string r prefix rk val) (store_string spec_redis prefix rk val)
  unfolding store_string
  store_string-Simulates rk val = Simulates-keyed d Kind.unit _ _

  pub fetch_set_members-Simulates :
      (rk : RedisKey)
      → Simulates d (fetch_set_members r prefix rk) (fetch_set_members spec_redis prefix rk)
  unfolding fetch_set_members
  fetch_set_members-Simulates rk = Simulates-keyed d Kind.texts _ _

  pub is_set_member-Simulates :
      (rk : RedisKey) (x : Text)
      → Simulates d (is_set_member r prefix rk x) (is_set_member spec_redis prefix rk x)
  unfolding is_set_member
  is_set_member-Simulates rk x = Simulates-keyed d Kind.flag _ _

  pub fetch_list_range-Simulates :
      (rk : RedisKey) (start end : ℤ)
      → Simulates d
          (fetch_list_range r prefix rk start end)
          (fetch_list_range spec_redis prefix rk start end)
  unfolding fetch_list_range
  fetch_list_range-Simulates rk start end = Simulates-keyed d Kind.texts _ _

  pub fetch_list_member_blocking-Simulates :
      (rk : RedisKey) (on_left : Bool) (timeout : ℤ)
      → Simulates d
          (fetch_list_member_blocking r prefix rk on_left timeout)
          (fetch_list_member_blocking spec_redis prefix rk on_left timeout)
  unfolding fetch_list_member_blocking
  fetch_list_member_blocking-Simulates rk on_left timeout = Simulates-keyed d Kind.text _ _

  pub push_list_members-Simulates :
      (rk : RedisKey) (on_left : Bool) (members : List Text)
      → Simulates d
          (push_list_members r prefix rk on_left members)
          (push_list_members spec_redis prefix rk on_left members)
  unfolding push_list_members
  push_list_members-Simulates rk on_left members = Simulates-keyed d Kind.unit _ _

  pub remove_list_element-Simulates :
      (rk : RedisKey) (count : ℤ) (element : Text)
      → Simulates d
          (remove_list_element r prefix rk count element)
          (remove_list_element spec_redis prefix rk count element)
  unfolding remove_list_element
  remove_list_element-Simulates rk count element = Simulates-keyed d Kind.unit _ _

  pub move_list_member-Simulates :
      (src dst : RedisKey) (src_left dst_left : Bool)
      → Simulates d
          (move_list_member r prefix src dst src_left dst_left)
          (move_list_member spec_redis prefix src dst src_left dst_left)
  unfolding move_list_member
  move_list_member-Simulates src dst src_left dst_left = Simulates-run d Kind.text _

  pub get_map_value-Simulates :
      (rk : RedisKey) (k : Text)
      → Simulates d (get_map_value r prefix rk k) (get_map_value spec_redis prefix rk k)
  unfolding get_map_value
  get_map_value-Simulates rk k = search simulation

  pub set_map_value-Simulates :
      (rk : RedisKey) (k v : Text)
      → Simulates d (set_map_value r prefix rk k v) (set_map_value spec_redis prefix rk k v)
  unfolding set_map_value
  set_map_value-Simulates rk k v = Simulates-keyed d Kind.unit _ _

  pub get_map_keys-Simulates :
      (rk : RedisKey) → Simulates d (get_map_keys r prefix rk) (get_map_keys spec_redis prefix rk)
  unfolding get_map_keys
  get_map_keys-Simulates rk = Simulates-keyed d Kind.texts _ _

  pub get_map_all-Simulates :
      (rk : RedisKey) → Simulates d (get_map_all r prefix rk) (get_map_all spec_redis prefix rk)
  unfolding get_map_all
  get_map_all-Simulates rk = Simulates-keyed d Kind.pairs _ _

  pub map_remove_key-Simulates :
      (rk : RedisKey) (k : Text)
      → Simulates d (map_remove_key r prefix rk k) (map_remove_key spec_redis prefix rk k)
  unfolding map_remove_key
  map_remove_key-Simulates rk k = Simulates-keyed d Kind.unit _ _

  pub add_set_members-Simulates :
      (rk : RedisKey) (members : List Text)
      → Simulates d
          (add_set_members r prefix rk members)
          (add_set_members spec_redis prefix rk members)
  unfolding add_set_members
  add_set_members-Simulates rk [] = search simulation
  add_set_members-Simulates rk (m ∷ ms) = Simulates-keyed d Kind.unit _ _

  pub remove_set_members-Simulates :
      (rk : RedisKey) (members : List Text)
      → Simulates d
          (remove_set_members r prefix rk members)
          (remove_set_members spec_redis prefix rk members)
  unfolding remove_set_members
  remove_set_members-Simulates rk [] = search simulation
  remove_set_members-Simulates rk (m ∷ ms) = Simulates-keyed d Kind.unit _ _

  module _ {A : Type 0} (v : RedisValue A) where
    pub fetch_value_at_key-Simulates :
        (rk : RedisKey)
        → Simulates d (fetch_value_at_key r prefix v rk) (fetch_value_at_key spec_redis prefix v rk)
    unfolding fetch_value_at_key
    fetch_value_at_key-Simulates rk = search simulation

    pub store_value_at_key-Simulates :
        (rk : RedisKey) (rv : A)
        → Simulates d
            (store_value_at_key r prefix v rk rv)
            (store_value_at_key spec_redis prefix v rk rv)
    unfolding store_value_at_key
    store_value_at_key-Simulates rk rv =
        Simulates-bind d (Simulates-lift d (db_key prefix rk))
          (λ key. Simulates-keyed d Kind.unit (v.to_redis rv) (set key))
