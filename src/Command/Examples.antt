-- ===== src/Command/Examples.antt =====
-- The theorem on the commands at a concrete database, whose scan finds two keys.
use srv.Prelude.{◌≡◌, refl, true, false, none, some, [], ◌∷◌, Text, codes, length, if◌then◌else◌}
use srv.Platform.Redis.{Redis}
use srv.Platform.Redis.Spec.{Keyspace, exec, member, str, put, Documented}
use srv.Command.Db.{Regexp, Patterns, Settings, Progress, map_matching_keys}
use srv.Command.Db.Matching.{matching, map_matching_keys-exact}

abbrev two_keys : Redis
two_keys = record {
  World = Keyspace;
  run = exec;
  scan = λ p m. ((codes "t:b" ∷ codes "t:a" ∷ [], none), m);
}

abbrev two_keys_documented : Documented two_keys
two_keys_documented = record {
  Healthy = λ m. Unit;
  view = λ m. m;
  replies = λ k c w h. refl;
  view-run = λ k c w h. refl;
  run-Healthy = λ k c w h. tt;
}

abbrev patterns : Patterns
patterns = record { compile = λ t. none; quoted = λ t. t }

abbrev settings : Settings
settings = record { environment = codes "dev"; verbose = 0 }

-- It matches one of the two.
abbrev ends_in_a : Regexp
ends_in_a = record { source = codes "a$"; match_string = λ t. member t (codes "t:a" ∷ []) }

abbrev database : Keyspace
database =
    put (codes "t:a") (some (record { value = str (codes "v"); ttl = none }))
      (put (codes "t:b") (some (record { value = str (codes "v"); ttl = none })) (λ k. none))

abbrev begun : Progress two_keys
begun = record { count = 0; logged = []; redis = database }

map_matching_keys-exact_example :
    let hits = matching ends_in_a (codes "t:b" ∷ codes "t:a" ∷ []) in
    let listed =
      map_matching_keys two_keys (codes "t:") patterns settings ends_in_a true false begun in
    let deleted =
      map_matching_keys two_keys (codes "t:") patterns settings ends_in_a true true begun in
    (listed.count ≡ length hits)
    × (deleted.count ≡ length hits)
    × ((j : Text) → listed.redis j ≡ database j)
    × ((j : Text) → deleted.redis j ≡ (if member j hits then none else database j))
map_matching_keys-exact_example =
    map_matching_keys-exact two_keys_documented (codes "t:") patterns settings ends_in_a true begun
      tt refl
