-- ===== src/Platform/Orm/MapLaws.antt =====
-- Maps and sets over a documented client.
use srv.Prelude.{
  ◌≡◌, ◌≢◌, refl, ap, ◌∙◌, ite, true, false, Option, List, [], ◌∷◌, ◌++◌, redis_nil, Result, ok,
  err, Text, text_discrete, arith, ℤ,
}
use srv.Platform.Redis.{Redis}
use srv.Platform.Redis.Spec.{
  Keyspace, put, exec, hash_at, members_at, keep_hash, keep_members, ttl_at, member, add_members,
  remove_members, field, set_field, remove_field, Documented,
}
use srv.Platform.Redis.Simulation.{spec_redis, Simulates-then}
use srv.Platform.Orm.Keys.{RedisKey, raw_key, or_nil}
use srv.Platform.Orm.Maps.{get_map_value, set_map_value, map_remove_key}
use srv.Platform.Orm.Sets.{is_set_member, add_set_members, remove_set_members}
use srv.Platform.Orm.Refinement.{
  get_map_value-Simulates, set_map_value-Simulates, map_remove_key-Simulates,
  is_set_member-Simulates, add_set_members-Simulates, remove_set_members-Simulates,
}
use srv.Platform.Orm.Laws.{put_self, db_key_valid}

pub field-set_field :
    (k j v : Text) (fs : List (Text × Text))
    → field j (set_field k v fs) ≡ ite (text_discrete k j) (ok v) (field j fs)
unfolding field set_field
field-set_field k j v [] = refl
field-set_field k j v ((g, x) ∷ fs) = ground (arith, field-set_field k j v fs)

pub field-remove_field :
    (k j : Text) (fs : List (Text × Text))
    → field j (remove_field k fs) ≡ ite (text_discrete k j) (err redis_nil) (field j fs)
unfolding field remove_field
field-remove_field k j [] = ground arith
field-remove_field k j ((g, x) ∷ fs) = ground (arith, field-remove_field k j fs)

pub hash_at-keep_hash :
    (fs : List (Text × Text)) (ttl : Option ℤ) → hash_at (keep_hash fs ttl) ≡ ok fs
unfolding hash_at keep_hash
hash_at-keep_hash [] ttl = refl
hash_at-keep_hash (f ∷ fs) ttl = refl

members_at-keep_members :
    (xs : List Text) (ttl : Option ℤ) → members_at (keep_members xs ttl) ≡ ok xs
unfolding members_at keep_members
members_at-keep_members [] ttl = refl
members_at-keep_members (x ∷ xs) ttl = refl

member-append :
    (x j : Text) (ys : List Text)
    → member j (ys ++ x ∷ []) ≡ ite (text_discrete x j) true (member j ys)
unfolding member
member-append x j [] = refl
member-append x j (y ∷ ys) = ground (arith, member-append x j ys)

member-add :
    (x j : Text) (ys : List Text)
    → member j (add_members (x ∷ []) ys) ≡ ite (text_discrete x j) true (member j ys)
unfolding add_members
member-add x j ys = ground (arith, member-append x j ys)

member-remove :
    (x j : Text) (ys : List Text)
    → member j (remove_members (x ∷ []) ys) ≡ ite (text_discrete x j) false (member j ys)
unfolding remove_members member
member-remove x j [] = ground arith
member-remove x j (y ∷ ys) = ground (arith, member-remove x j ys)

module _ (prefix : Text) (rk : RedisKey) (n : rk.storage_id ≢ []) (m : Keyspace) where
  module _ {fs : List (Text × Text)} (e : hash_at (m (raw_key prefix rk)) ≡ ok fs) where
    pub get_map_value-spec :
        (k : Text) → get_map_value spec_redis prefix rk k m ≡ (or_nil [] (field k fs), m)
    unfolding get_map_value exec
    get_map_value-spec k = ground (arith, db_key_valid prefix rk n)

    pub set_map_value-spec :
        (k v : Text)
        → set_map_value spec_redis prefix rk k v m ≡ (
          ok tt,
          put (raw_key prefix rk) (keep_hash (set_field k v fs) (ttl_at (m (raw_key prefix rk)))) m,
        )
    unfolding set_map_value exec
    set_map_value-spec k v = ground (arith, db_key_valid prefix rk n)

    pub map_remove_key-spec :
        (k : Text)
        → map_remove_key spec_redis prefix rk k m ≡ (
          ok tt,
          put
              (raw_key prefix rk)
              (keep_hash (remove_field k fs) (ttl_at (m (raw_key prefix rk))))
              m,
        )
    unfolding map_remove_key exec
    map_remove_key-spec k = ground (arith, db_key_valid prefix rk n)

  module _ {ys : List Text} (e : members_at (m (raw_key prefix rk)) ≡ ok ys) where
    is_set_member-spec : (x : Text) → is_set_member spec_redis prefix rk x m ≡ (ok (member x ys), m)
    unfolding is_set_member exec
    is_set_member-spec x = ground (arith, db_key_valid prefix rk n)

    add_set_members-spec :
        (x : Text) (xs : List Text)
        → add_set_members spec_redis prefix rk (x ∷ xs) m ≡ (
          ok tt,
          put
              (raw_key prefix rk)
              (keep_members (add_members (x ∷ xs) ys) (ttl_at (m (raw_key prefix rk))))
              m,
        )
    unfolding add_set_members exec
    add_set_members-spec x xs = ground (arith, db_key_valid prefix rk n)

    remove_set_members-spec :
        (x : Text) (xs : List Text)
        → remove_set_members spec_redis prefix rk (x ∷ xs) m ≡ (
          ok tt,
          put
              (raw_key prefix rk)
              (keep_members (remove_members (x ∷ xs) ys) (ttl_at (m (raw_key prefix rk))))
              m,
        )
    unfolding remove_set_members exec
    remove_set_members-spec x xs = ground (arith, db_key_valid prefix rk n)

module _ {r : Redis} (d : Documented r) (prefix : Text) (rk : RedisKey) (n : rk.storage_id ≢ [])
    (w : r.World) (h : d.Healthy w) where
  abbrev pub MapAfter : (k j : Text) (written : Result (Unit {0}) × r.World) → Result Text → Type 0
  MapAfter k j written expected =
      (written.0 ≡ ok tt)
      × ((get_map_value r prefix rk j written.1).0
          ≡ ite (text_discrete k j) expected (get_map_value r prefix rk j w).0)

  module _ {fs : List (Text × Text)} (e : hash_at (d.view w (raw_key prefix rk)) ≡ ok fs) where
    get_after :
        (j : Text) (ttl : Option ℤ) (gs : List (Text × Text))
        → (get_map_value spec_redis prefix rk j
            (put (raw_key prefix rk) (keep_hash gs ttl) (d.view w))).0
          ≡ or_nil [] (field j gs)
    get_after j ttl gs =
        ap (λ p. p.0)
          (get_map_value-spec prefix rk n _
            (ap hash_at (put_self (raw_key prefix rk) _ (d.view w)) ∙ hash_at-keep_hash gs ttl) j)

    get_before : (j : Text) → (get_map_value r prefix rk j w).0 ≡ or_nil [] (field j fs)
    get_before j =
        (get_map_value-Simulates d prefix rk j).reply w h
        ∙ ap (λ p. p.0) (get_map_value-spec prefix rk n (d.view w) e j)

    -- Over a healthy client, where a key with an id holds a map or nothing: setting a field does
    -- not fail, the field then has the value, and every other field has what it had.
    pub get_map_value-set : (k v j : Text) → MapAfter k j (set_map_value r prefix rk k v w) (ok v)
    get_map_value-set k v j =
        let s = set_map_value-Simulates d prefix rk k v in
        let spec = set_map_value-spec prefix rk n (d.view w) e k v in
        (
          s.reply w h ∙ ap (λ p. p.0) spec,
          Simulates-then d s (get_map_value-Simulates d prefix rk j) w h
              ∙ (ap (λ p. (get_map_value spec_redis prefix rk j p.1).0) spec
                  ∙ (get_after j _ (set_field k v fs)
                      ∙ ground (arith, get_before j, field-set_field k j v fs))),
        )

    -- Removing a field of such a map does not fail: the field then reads as the empty string, as a
    -- field that was never set does.
    pub get_map_value-remove : (k j : Text) → MapAfter k j (map_remove_key r prefix rk k w) (ok [])
    get_map_value-remove k j =
        let s = map_remove_key-Simulates d prefix rk k in
        let spec = map_remove_key-spec prefix rk n (d.view w) e k in
        (
          s.reply w h ∙ ap (λ p. p.0) spec,
          Simulates-then d s (get_map_value-Simulates d prefix rk j) w h
              ∙ (ap (λ p. (get_map_value spec_redis prefix rk j p.1).0) spec
                  ∙ (get_after j _ (remove_field k fs)
                      ∙ ground (arith, get_before j, field-remove_field k j fs))),
        )

  module _ {ys : List Text} (e : members_at (d.view w (raw_key prefix rk)) ≡ ok ys) where
    member_after :
        (j : Text) (ttl : Option ℤ) (zs : List Text)
        → (is_set_member spec_redis prefix rk j
            (put (raw_key prefix rk) (keep_members zs ttl) (d.view w))).0
          ≡ ok (member j zs)
    member_after j ttl zs =
        ap (λ p. p.0)
          (is_set_member-spec prefix rk n _
            (ap members_at (put_self (raw_key prefix rk) _ (d.view w))
              ∙ members_at-keep_members zs ttl)
            j)

    member_before : (j : Text) → (is_set_member r prefix rk j w).0 ≡ ok (member j ys)
    member_before j =
        (is_set_member-Simulates d prefix rk j).reply w h
        ∙ ap (λ p. p.0) (is_set_member-spec prefix rk n (d.view w) e j)

    -- Over a healthy client, where a key with an id holds a set or nothing: adding a member and
    -- removing it do not fail, and afterwards that member is in the set or is not, and every
    -- other text is in it if it was.
    pub is_set_member-change :
        (x j : Text)
        → let added = add_set_members r prefix rk (x ∷ []) w in
          let removed = remove_set_members r prefix rk (x ∷ []) w in
          let before = (is_set_member r prefix rk j w).0 in
          (added.0 ≡ ok tt)
          × ((is_set_member r prefix rk j added.1).0 ≡ ite (text_discrete x j) (ok true) before)
          × (removed.0 ≡ ok tt)
          × ((is_set_member r prefix rk j removed.1).0 ≡ ite (text_discrete x j) (ok false) before)
    is_set_member-change x j =
        let a = add_set_members-Simulates d prefix rk (x ∷ []) in
        let a_spec = add_set_members-spec prefix rk n (d.view w) e x [] in
        let q = is_set_member-Simulates d prefix rk j in
        let s = remove_set_members-Simulates d prefix rk (x ∷ []) in
        let s_spec = remove_set_members-spec prefix rk n (d.view w) e x [] in
        (
          a.reply w h ∙ ap (λ p. p.0) a_spec,
          Simulates-then d a q w h
              ∙ (ap (λ p. (is_set_member spec_redis prefix rk j p.1).0) a_spec
                  ∙ (member_after j _ (add_members (x ∷ []) ys)
                      ∙ ground (arith, member_before j, member-add x j ys))),
          s.reply w h ∙ ap (λ p. p.0) s_spec,
          Simulates-then d s q w h
              ∙ (ap (λ p. (is_set_member spec_redis prefix rk j p.1).0) s_spec
                  ∙ (member_after j _ (remove_members (x ∷ []) ys)
                      ∙ ground (arith, member_before j, member-remove x j ys))),
        )
