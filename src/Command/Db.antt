-- ===== src/Command/Db.antt =====
-- The commands that list and delete keys of the database. Regular expressions are a parameter.
pub mod Matching
use srv.Prelude.{
  ℕ, suc, ◌==◌, Bool, true, false, ltb, Option, none, some, List, [], ◌∷◌, ◌++◌, Result, ok, err,
  Exec, Text, codes, if◌then◌else◌, pos,
}
use srv.Platform.Redis.{Redis, Kind, del}
use srv.Protocol.Decimal.{format_int}

pub record Regexp : Type 0 where
  pub source : Text
  pub match_string : Text → Bool

-- The package regexp, and the verb `%q` of fmt.
pub record Patterns : Type 0 where
  pub compile : Text → Option Regexp
  pub quoted : Text → Text

-- The name of the environment, and the count of the flag `-v`.
pub record Settings : Type 0 where
  pub environment : Text
  pub verbose : ℕ

-- How many keys match so far, what was logged, and the database.
pub record Progress (r : Redis) : Type 0 where
  pub count : ℕ
  pub logged : List Text
  pub redis : r.World

module _ (r : Redis) (prefix : Text) (patterns : Patterns) (settings : Settings) where
  abbrev log : Text → Progress r → Progress r
  log t p = record p { logged = p.logged ++ t ∷ [] }

  -- A key that matches: the heading comes before the first. The reply of the deletion is dropped.
  unfoldable pub map_key : Bool → Bool → Text → Progress r → Progress r
  map_key also_list also_delete key p =
      let headed = if p.count == 0 then log (codes "Matching keys:") p else p in
      let listed = if also_list then log (codes "    " ++ patterns.quoted key) headed else p in
      let counted = record listed { count = suc p.count } in
      if also_delete
      then record counted { redis = (r.run Kind.unit (del key) p.redis).1 }
      else counted

  -- The loop over the keys that the iterator gives.
  unfoldable pub map_keys : Regexp → Bool → Bool → List Text → Progress r → Progress r
  unfolding map_key
  map_keys pat also_list also_delete [] p = p
  map_keys pat also_list also_delete (key ∷ keys) p =
      map_keys pat also_list also_delete keys
        (if pat.match_string key then map_key also_list also_delete key p else p)

  -- The iterator's own error is not looked at.
  unfoldable pub map_matching_keys : Regexp → Bool → Bool → Progress r → Progress r
  unfolding map_keys
  map_matching_keys pat also_list also_delete p =
      let ((keys, e), w) = r.scan prefix p.redis in
      map_keys pat also_list also_delete keys (record p { count = 0; redis = w })

  abbrev summary : Text → Text → Text → Progress r → Progress r
  summary nothing one many p =
      if p.count == 0
      then log nothing p
      else if p.count == 1
      then log one p
      else log (format_int (pos p.count) ++ many) p

  unfoldable pub list_matching_keys : Regexp → Progress r → Progress r
  unfolding map_matching_keys
  list_matching_keys pat p =
      let begun =
        log
          (codes "Finding keys in "
            ++ (settings.environment
                ++ (codes " that match " ++ (patterns.quoted pat.source ++ codes "..."))))
          p in
      summary (codes "No keys matched.") (codes "1 key matched.") (codes " keys matched.")
        (map_matching_keys pat true false begun)

  unfoldable pub delete_matching_keys : Regexp → Progress r → Progress r
  unfolding map_matching_keys
  delete_matching_keys pat p =
      let begun =
        log
          (codes "Deleting keys in "
            ++ (settings.environment
                ++ (codes " that match " ++ (patterns.quoted pat.source ++ codes "..."))))
          p in
      summary (codes "No keys matched, so no keys were deleted.") (codes "1 key was deleted.")
        (codes " keys were deleted.") (map_matching_keys pat (ltb 0 settings.verbose) true begun)

  -- A prefix that is no expression is a panic, which is none here.
  unfoldable pub delete_test_keys : Progress r → Option (Progress r)
  unfolding map_matching_keys
  delete_test_keys p =
      let begun =
        log (codes "Deleting keys left from testing in " ++ (settings.environment ++ codes "..."))
          p in
      elim (patterns.compile (codes "^" ++ (prefix ++ codes "[^:]+:test-"))) [
        | none ↦ none
        | some pat ↦ some (
            summary (codes "No keys left from testing found, so no keys were deleted.")
              (codes "1 key was deleted.") (codes " keys were deleted.")
              (map_matching_keys pat (ltb 0 settings.verbose) true begun))
      ]
