-- ===== src/Platform/Examples.antt =====
-- The theorems on the object mapper at concrete inputs, over the specification of the client.
use srv.Prelude.{ap, Result, ◌++◌, ltb, if◌then◌else◌, external, ◌+◌}
use srv.Platform.Redis.{Redis, Kind, Val, Command, h_get, h_set, h_del, h_expire}
use srv.Platform.Redis.Lifetimes.{
  FieldCommand, read, write, remove, limit, TimedHash, exec_field, KeepsLifetimes, command,
}
use srv.Platform.Redis.Spec.{sorted_at}
use srv.Platform.Orm.SortedSets.{add_ss_member, remove_ss_member, get_ss_member_score}
use srv.Platform.Redis.Sorted.{is_score}
use srv.Platform.Orm.SortedLaws.{get_ss_member_score-change}
use srv.Platform.Cache.{ExpiringCache, add_blob, get_blob}
use srv.Platform.Cache.Laws.{get_blob-add}
use srv.Platform.Config.{Machine, Host, find_env_file, environment_of}
use srv.Platform.Config.Loaded.{Nearest, find_env_file-Nearest}
use srv.Platform.Db.{Clients, Connection, get_db}
use srv.Platform.Db.Current.{Gives, Remembers, get_db-current}
use srv.Prelude.{Option, Bool, redis_nil}
use srv.Platform.Redis.Spec.{member}
use srv.Prelude.{
  ◌≡◌, ◌≢◌, refl, sym, ite, none, some, [], ◌∷◌, ok, err, Text, codes, text_discrete, pos,
}
use srv.Platform.Redis.Spec.{Keyspace, str}
use srv.Platform.Redis.Simulation.{spec_redis, spec_documented}
use srv.Platform.Orm.Keys.{RedisKey, raw_key}
use srv.Platform.Orm.Objects.{RedisValue, fetch_value_at_key, store_value_at_key}
use srv.Platform.Orm.Contract.{fetch-store}

abbrev prefix : Text
prefix = codes "t:"

abbrev key : RedisKey
key = record { storage_prefix = codes "profile:"; storage_id = codes "p1" }

abbrev empty : Keyspace
empty k = none

abbrev plain_text : RedisValue Text
plain_text = record { to_redis = λ a. ok a; from_redis = λ b. ok b; decodes = λ a b e. sym e }

has_id : key.storage_id ≢ []
has_id e = cc

fetch-store_example :
    let stored = store_value_at_key spec_redis prefix plain_text key (codes "v") empty in
    (stored.0 ≡ ok tt)
    × ((fetch_value_at_key spec_redis prefix plain_text key stored.1).0 ≡ ok (codes "v"))
    × ((j : Text)
        → stored.1 j
          ≡ ite
              (text_discrete (raw_key prefix key) j)
              (some (record { value = str (codes "v"); ttl = none }))
              none)
fetch-store_example =
    fetch-store spec_documented prefix plain_text key (codes "v") (codes "v") empty tt has_id refl

-- Only the file of the directory above is there.
abbrev one_above : Text → Bool
one_above f = member f (codes "../.env" ∷ [])

find_env_file-Nearest_example :
    Nearest one_above 5 0 (codes ".env") (find_env_file one_above (codes ".env"))
find_env_file-Nearest_example = find_env_file-Nearest one_above (codes ".env")

-- The variables are the name of the file that was loaded last.
abbrev machine : Machine
machine = record {
  World = Option Text;
  stat = λ f w. one_above f;
  overload = λ f w. (ok tt, f);
  getenv = λ k w. codes "8080";
}

abbrev host : Host machine
host = record { machine = none; loaded_config = environment_of (λ k. []) }

abbrev clients : Clients
clients = record { Client = Text; Options = Text; parse_url = λ u. ok u; new_client = λ o. o }

abbrev connection : Connection clients
connection = record { client = some (codes "u"); client_url = codes "u"; key_prefix = codes "t:" }

get_db-current_example :
    Gives clients host.loaded_config (get_db clients host.loaded_config connection).0
    × Remembers clients (get_db clients host.loaded_config connection).1
get_db-current_example =
    get_db-current clients host.loaded_config connection (codes "u", refl, refl)

get_ss_member_score-change_example :
    let added = add_ss_member spec_redis prefix key 5 (codes "a") empty in
    let removed = remove_ss_member spec_redis prefix key (codes "a") empty in
    let before = (get_ss_member_score spec_redis prefix key (codes "b") empty).0 in
    (added.0 ≡ ok tt)
    × ((get_ss_member_score spec_redis prefix key (codes "b") added.1).0
        ≡ ite (text_discrete (codes "a") (codes "b")) (ok 5) before)
    × (removed.0 ≡ ok tt)
    × ((get_ss_member_score spec_redis prefix key (codes "b") removed.1).0
        ≡ ite (text_discrete (codes "a") (codes "b")) (err redis_nil) before)
unfolding sorted_at is_score
get_ss_member_score-change_example =
    get_ss_member_score-change spec_documented prefix key has_id empty tt {xs = []} refl (codes "a")
      (codes "b") 5 refl

-- A client of one hash, whatever the key.
abbrev run_hash : (k : Kind) → Command k → TimedHash → Result (Val k) × TimedHash
run_hash k (h_get hash_key f) h = exec_field k (read f) h
run_hash k (h_set hash_key f v) h = exec_field k (write f v) h
run_hash k (h_del hash_key f) h = exec_field k (remove f) h
run_hash k (h_expire hash_key d f) h = exec_field k (limit d f) h
run_hash k _ h = (err (external 1), h)

abbrev one_hash : Redis
one_hash = record { World = TimedHash; run = run_hash; scan = λ p w. (([], none), w) }

abbrev no_fields : TimedHash
no_fields = record { now = 7; fields = λ f. none }

one_hash-replies :
    (hash_key : Text) (k : Kind) (c : FieldCommand k) (h : TimedHash)
    → run_hash k (command hash_key k c) h ≡ exec_field k c h
one_hash-replies hash_key k (read f) h = refl
one_hash-replies hash_key k (write f v) h = refl
one_hash-replies hash_key k (remove f) h = refl
one_hash-replies hash_key k (limit d f) h = refl

abbrev cache : ExpiringCache
cache = record { id = codes "blobs"; ttl = pos 300 }

abbrev one_hash_keeps : KeepsLifetimes one_hash (prefix ++ cache.id)
one_hash_keeps = record {
  Healthy = λ h. Unit;
  view = λ h. h;
  wait = λ n h. record h { now = h.now + n };
  replies = λ k c h up. ap (λ r. r.0) (one_hash-replies (prefix ++ cache.id) k c h);
  view-run = λ k c h up. ap (λ r. r.1) (one_hash-replies (prefix ++ cache.id) k c h);
  run-Healthy = λ k c h up. tt;
  view-wait = λ n h up. refl;
  wait-Healthy = λ n h up. tt;
}

-- The lifetime is over.
get_blob-add_example :
    let added = add_blob one_hash prefix cache (codes "a") (codes "blob") no_fields in
    (added.0 ≡ ok tt)
    × ((get_blob one_hash prefix cache (codes "a") (one_hash_keeps.wait 300 added.1)).0
        ≡ ite
            (text_discrete (codes "a") (codes "a"))
            (ok (if ltb 300 300 then some (codes "blob") else none))
            (get_blob one_hash prefix cache (codes "a") (one_hash_keeps.wait 300 no_fields)).0)
get_blob-add_example =
    get_blob-add prefix cache one_hash_keeps (codes "a") (codes "blob") 299 refl 300 (codes "a")
      no_fields tt
