-- ===== src/Platform/Orm/SortedLaws.antt =====
-- The scores of the members of a sorted set over a documented client.
use srv.Prelude.{
  true, ◌≡◌, ◌≢◌, refl, ap, ◌∙◌, ite, Option, List, [], ◌∷◌, redis_nil, ok, err, Text,
  text_discrete, arith, ℤ,
}
use srv.Platform.Redis.{Redis, Kind, Float}
use srv.Platform.Redis.Sorted.{
  is_score, score_of, place, remove_member, score_of-place, score_of-remove,
}
use srv.Platform.Redis.Spec.{Keyspace, put, exec, sorted_at, keep_sorted, ttl_at, Documented}
use srv.Platform.Redis.Simulation.{spec_redis, Simulates, Simulates-keyed, Simulates-then}
use srv.Platform.Orm.Keys.{RedisKey, raw_key}
use srv.Platform.Orm.SortedSets.{add_ss_member, remove_ss_member, get_ss_member_score}
use srv.Platform.Orm.Laws.{put_self, db_key_valid}

sorted_at-keep :
    (xs : List (Text × Float)) (ttl : Option ℤ) → sorted_at (keep_sorted xs ttl) ≡ ok xs
unfolding sorted_at keep_sorted
sorted_at-keep [] ttl = refl
sorted_at-keep (x ∷ xs) ttl = refl

module _ (prefix : Text) (rk : RedisKey) (n : rk.storage_id ≢ []) (m : Keyspace)
    {xs : List (Text × Float)} (e : sorted_at (m (raw_key prefix rk)) ≡ ok xs) where
  abbrev key : Text
  key = raw_key prefix rk

  score-spec : (x : Text) → get_ss_member_score spec_redis prefix rk x m ≡ (score_of x xs, m)
  unfolding get_ss_member_score exec
  score-spec x = ground (arith, db_key_valid prefix rk n)

  add-spec :
      (x : Text) (score : Float)
      → is_score score ≡ true
      → add_ss_member spec_redis prefix rk score x m
        ≡ (ok tt, put key (keep_sorted (place x score (remove_member x xs)) (ttl_at (m key))) m)
  unfolding add_ss_member exec
  add-spec x score number = ground (arith, db_key_valid prefix rk n)

  remove-spec :
      (x : Text)
      → remove_ss_member spec_redis prefix rk x m
        ≡ (ok tt, put key (keep_sorted (remove_member x xs) (ttl_at (m key))) m)
  unfolding remove_ss_member exec
  remove-spec x = ground (arith, db_key_valid prefix rk n)

module _ {r : Redis} (d : Documented r) (prefix : Text) (rk : RedisKey) where
  score-Simulates :
      (x : Text)
      → Simulates d (get_ss_member_score r prefix rk x) (get_ss_member_score spec_redis prefix rk x)
  unfolding get_ss_member_score
  score-Simulates x = Simulates-keyed d Kind.score _ _

  add-Simulates :
      (score : Float) (x : Text)
      → Simulates d (add_ss_member r prefix rk score x) (add_ss_member spec_redis prefix rk score x)
  unfolding add_ss_member
  add-Simulates score x = Simulates-keyed d Kind.unit _ _

  remove-Simulates :
      (x : Text)
      → Simulates d (remove_ss_member r prefix rk x) (remove_ss_member spec_redis prefix rk x)
  unfolding remove_ss_member
  remove-Simulates x = Simulates-keyed d Kind.unit _ _

  module _ (n : rk.storage_id ≢ []) (w : r.World) (h : d.Healthy w) {xs : List (Text × Float)}
      (e : sorted_at (d.view w (raw_key prefix rk)) ≡ ok xs) where
    score_after :
        (j : Text) (ttl : Option ℤ) (ys : List (Text × Float))
        → (get_ss_member_score spec_redis prefix rk j
            (put (raw_key prefix rk) (keep_sorted ys ttl) (d.view w))).0
          ≡ score_of j ys
    score_after j ttl ys =
        ap (λ p. p.0)
          (score-spec prefix rk n _
            (ap sorted_at (put_self (raw_key prefix rk) _ (d.view w)) ∙ sorted_at-keep ys ttl) j)

    score_before : (j : Text) → (get_ss_member_score r prefix rk j w).0 ≡ score_of j xs
    score_before j =
        (score-Simulates j).reply w h ∙ ap (λ p. p.0) (score-spec prefix rk n (d.view w) e j)

    -- Over a healthy client, where a key with an id holds a sorted set or nothing: adding a member
    -- with a score that is not NaN does not fail, and neither does removing a member; afterwards
    -- that member has the score, also when it had another one, or its score is the error that there
    -- is no value; every other text has what it had.
    pub get_ss_member_score-change :
        (x j : Text) (score : Float)
        → is_score score ≡ true
        → let added = add_ss_member r prefix rk score x w in
          let removed = remove_ss_member r prefix rk x w in
          let before = (get_ss_member_score r prefix rk j w).0 in
          (added.0 ≡ ok tt)
          × ((get_ss_member_score r prefix rk j added.1).0
              ≡ ite (text_discrete x j) (ok score) before)
          × (removed.0 ≡ ok tt)
          × ((get_ss_member_score r prefix rk j removed.1).0
              ≡ ite (text_discrete x j) (err redis_nil) before)
    get_ss_member_score-change x j score number =
        let a = add-Simulates score x in
        let a_spec = add-spec prefix rk n (d.view w) e x score number in
        let s = remove-Simulates x in
        let s_spec = remove-spec prefix rk n (d.view w) e x in
        let q = score-Simulates j in
        let absent : score_of x (remove_member x xs) ≡ err redis_nil =
          ground (arith, score_of-remove x x xs) in
        (
          a.reply w h ∙ ap (λ p. p.0) a_spec,
          Simulates-then d a q w h
              ∙ (ap (λ p. (get_ss_member_score spec_redis prefix rk j p.1).0) a_spec
                  ∙ (score_after j _ (place x score (remove_member x xs))
                      ∙ ground (
                        arith,
                        score_before j,
                        score_of-place x j score (remove_member x xs) absent,
                        score_of-remove x j xs,
                      ))),
          s.reply w h ∙ ap (λ p. p.0) s_spec,
          Simulates-then d s q w h
              ∙ (ap (λ p. (get_ss_member_score spec_redis prefix rk j p.1).0) s_spec
                  ∙ (score_after j _ (remove_member x xs)
                      ∙ ground (arith, score_before j, score_of-remove x j xs))),
        )
