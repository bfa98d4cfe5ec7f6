-- ===== src/Platform/Redis/Spec.antt =====
-- The documented behaviour of the commands on the keys of one database, as functions, and the
-- statement that a client shows it. It is what the storage theorems assume of the client.
use srv.Prelude.{
  ℕ, zero, suc, ◌-◌, ◌≡◌, ite, Bool, true, false, ◌&&◌, Option, none, some, List, [], ◌∷◌, ◌++◌,
  Error, redis_nil, external, Result, ok, err, Text, text_discrete, length, take, drop, ltb_ℤ,
  if◌then◌else◌, ℤ, pos, negsuc,
}
use mathlib.Core.List.{reverse, map}
use srv.Platform.Redis.{Kind, Val, Float, Side, left, right, Command, Redis}
use srv.Platform.Redis.Sorted.{is_score, score_of, place, remove_member, between}
use srv.Platform.Redis.{
  expire, del, get, set, s_members, s_is_member, s_add, s_rem, l_range, bl_move, l_move, l_push,
  r_push, l_rem, h_get, h_set, h_keys, h_get_all, h_del, h_expire, z_add, z_rem, z_score, z_range,
  z_range_by_score,
}

pub data Value : Type 0 where
  str : Text → Value
  members lst : List Text → Value
  hash : List (Text × Text) → Value
  zset : List (Text × Float) → Value

pub record Entry : Type 0 where
  pub value : Value
  pub ttl : Option ℤ

abbrev pub Keyspace : Type 0
Keyspace = Text → Option Entry

unfoldable pub put : Text → Option Entry → Keyspace → Keyspace
put k e m j = ite (text_discrete k j) e (m j)

abbrev pub wrong_type : Error
wrong_type = external 0

-- A score that is no number.
abbrev pub no_float : Error
no_float = external 4

-- Reads of a key at one type: a key that is not there is empty.
unfoldable pub text_at : Option Entry → Result Text
text_at none = err redis_nil
text_at (some e) = elim e.value [ str v ↦ ok v | _ ↦ err wrong_type ]

unfoldable pub list_at : Option Entry → Result (List Text)
list_at none = ok []
list_at (some e) = elim e.value [ lst xs ↦ ok xs | _ ↦ err wrong_type ]

unfoldable pub members_at : Option Entry → Result (List Text)
members_at none = ok []
members_at (some e) = elim e.value [ members xs ↦ ok xs | _ ↦ err wrong_type ]

unfoldable pub hash_at : Option Entry → Result (List (Text × Text))
hash_at none = ok []
hash_at (some e) = elim e.value [ hash xs ↦ ok xs | _ ↦ err wrong_type ]

unfoldable pub sorted_at : Option Entry → Result (List (Text × Float))
sorted_at none = ok []
sorted_at (some e) = elim e.value [ zset xs ↦ ok xs | _ ↦ err wrong_type ]

unfoldable pub ttl_at : Option Entry → Option ℤ
ttl_at none = none
ttl_at (some e) = e.ttl

unfoldable pub member : Text → List Text → Bool
member x [] = false
member x (y ∷ ys) = ite (text_discrete y x) true (member x ys)

unfoldable pub remove_all : Text → List Text → List Text
remove_all x [] = []
remove_all x (y ∷ ys) = let rest = remove_all x ys in ite (text_discrete y x) rest (y ∷ rest)

-- The first `n` occurrences, from the front.
unfoldable pub remove_first : ℕ → Text → List Text → List Text
remove_first zero x ys = ys
remove_first (suc n) x [] = []
remove_first (suc n) x (y ∷ ys) = elim (text_discrete y x) [
  | yes _ ↦ remove_first n x ys
  | no _ ↦ y ∷ remove_first (suc n) x ys
]

unfoldable pub add_members : List Text → List Text → List Text
unfolding member
add_members [] ys = ys
add_members (x ∷ xs) ys = add_members xs (if member x ys then ys else ys ++ x ∷ [])

unfoldable pub remove_members : List Text → List Text → List Text
unfolding remove_all
remove_members [] ys = ys
remove_members (x ∷ xs) ys = remove_members xs (remove_all x ys)

unfoldable pub field : Text → List (Text × Text) → Result Text
field f [] = err redis_nil
field f ((g, v) ∷ fs) = ite (text_discrete g f) (ok v) (field f fs)

unfoldable pub set_field : Text → Text → List (Text × Text) → List (Text × Text)
set_field f v [] = (f, v) ∷ []
set_field f v ((g, w) ∷ fs) = ite (text_discrete g f) ((f, v) ∷ fs) ((g, w) ∷ set_field f v fs)

unfoldable pub remove_field : Text → List (Text × Text) → List (Text × Text)
remove_field f [] = []
remove_field f ((g, w) ∷ fs) =
    let rest = remove_field f fs in ite (text_discrete g f) rest ((g, w) ∷ rest)

-- Indices from the end are negative; both ends are included.
unfoldable pub range : List Text → ℤ → ℤ → List Text
range xs start stop = take (end stop - begin start) (drop (begin start) xs)
  where
    begin : ℤ → ℕ
    begin (pos i) = i
    begin (negsuc i) = length xs - suc i

    end : ℤ → ℕ
    end (pos i) = suc i
    end (negsuc i) = length xs - i

unfoldable pub remove_count : ℤ → Text → List Text → List Text
unfolding remove_all remove_first
remove_count (pos zero) x xs = remove_all x xs
remove_count (pos (suc n)) x xs = remove_first (suc n) x xs
remove_count (negsuc n) x xs = reverse (remove_first (suc n) x (reverse xs))

-- The element at one end, and the rest.
unfoldable pub pop : Side → List Text → Option (Text × List Text)
pop left xs = elim xs [ [] ↦ none | x ∷ rest ↦ some (x, rest) ]
pop right xs = elim (reverse xs) [ [] ↦ none | x ∷ rest ↦ some (x, reverse rest) ]

unfoldable pub push : Side → Text → List Text → List Text
push left x xs = x ∷ xs
push right x xs = xs ++ x ∷ []

-- An empty collection is no key.
unfoldable pub keep_list : List Text → Option ℤ → Option Entry
keep_list [] ttl = none
keep_list (x ∷ xs) ttl = some (record { value = lst (x ∷ xs); ttl = ttl })

unfoldable pub keep_members : List Text → Option ℤ → Option Entry
keep_members [] ttl = none
keep_members (x ∷ xs) ttl = some (record { value = members (x ∷ xs); ttl = ttl })

unfoldable pub keep_hash : List (Text × Text) → Option ℤ → Option Entry
keep_hash [] ttl = none
keep_hash (x ∷ xs) ttl = some (record { value = hash (x ∷ xs); ttl = ttl })

unfoldable pub keep_sorted : List (Text × Float) → Option ℤ → Option Entry
keep_sorted [] ttl = none
keep_sorted (x ∷ xs) ttl = some (record { value = zset (x ∷ xs); ttl = ttl })

-- A change of a key's value that may fail at the wrong type.
abbrev changed {ℓ} :
    {A : Type ℓ}
    → Text
    → Result A
    → (A → Option ℤ → Option Entry)
    → Keyspace
    → Result (Unit {0}) × Keyspace
changed key (err e) f m = (err e, m)
changed key (ok a) f m = (ok tt, put key (f a (ttl_at (m key))) m)

abbrev answer {ℓ κ} :
    {A : Type ℓ} {B : Type κ} → Result A → (A → Result B) → Keyspace → Result B × Keyspace
answer (err e) f m = (err e, m)
answer (ok a) f m = (f a, m)

unfoldable pub limited : ℤ → Option Entry → Option Entry
limited d none = none
limited d (some e) = if ltb_ℤ (pos 0) d then some (record e { ttl = some d }) else none

unfoldable pub moved : Text → Text → Side → Side → Keyspace → Result Text × Keyspace
moved src dst from to m = elim (list_at (m src)) [
  | err e ↦ (err e, m)
  | ok xs ↦ elim (pop from xs) [
    | none ↦ (err redis_nil, m)
    | some (x, rest) ↦
        let without = put src (keep_list rest (ttl_at (m src))) m in
        elim (list_at (without dst)) [
          | err e ↦ (err e, m)
          | ok ys ↦ (ok x, put dst (keep_list (push to x ys) (ttl_at (without dst))) without)
        ]
  ]
]

-- `BLMOVE` answers nil when the wait for an element has run out. No time passes here: the lifetime
-- of a field is not kept, and only one that is over at once removes it. Lifetimes keeps them.
unfoldable pub exec : (k : Kind) → Command k → Keyspace → Result (Val k) × Keyspace
unfolding put text_at list_at members_at hash_at sorted_at ttl_at limited moved member field range
    keep_list keep_members keep_hash
exec k (expire key d) m = (ok tt, put key (limited d (m key)) m)
exec k (del key) m = (ok tt, put key none m)
exec k (get key) m = (text_at (m key), m)
exec k (set key v) m = (ok tt, put key (some (record { value = str v; ttl = none })) m)
exec k (s_members key) m = (members_at (m key), m)
exec k (s_is_member key x) m = answer (members_at (m key)) (λ xs. ok (member x xs)) m
exec k (s_add key xs) m =
    changed key (members_at (m key)) (λ ys. keep_members (add_members xs ys)) m
exec k (s_rem key xs) m =
    changed key (members_at (m key)) (λ ys. keep_members (remove_members xs ys)) m
exec k (l_range key start stop) m = answer (list_at (m key)) (λ xs. ok (range xs start stop)) m
exec k (bl_move src dst from to d) m = moved src dst from to m
exec k (l_move src dst from to) m = moved src dst from to m
exec k (l_push key xs) m = changed key (list_at (m key)) (λ ys. keep_list (reverse xs ++ ys)) m
exec k (r_push key xs) m = changed key (list_at (m key)) (λ ys. keep_list (ys ++ xs)) m
exec k (l_rem key n x) m = changed key (list_at (m key)) (λ ys. keep_list (remove_count n x ys)) m
exec k (h_get key f) m = answer (hash_at (m key)) (field f) m
exec k (h_set key f v) m = changed key (hash_at (m key)) (λ fs. keep_hash (set_field f v fs)) m
exec k (h_keys key) m = answer (hash_at (m key)) (λ fs. ok (map (λ e. e.0) fs)) m
exec k (h_get_all key) m = (hash_at (m key), m)
exec k (h_del key f) m = changed key (hash_at (m key)) (λ fs. keep_hash (remove_field f fs)) m
exec k (h_expire key d f) m =
    changed key (hash_at (m key))
      (λ fs. keep_hash (if ltb_ℤ (pos 0) d then fs else remove_field f fs)) m
exec k (z_add key score x) m =
    if is_score score
    then changed key (sorted_at (m key)) (λ xs. keep_sorted (place x score (remove_member x xs))) m
    else (err no_float, m)
exec k (z_rem key x) m = changed key (sorted_at (m key)) (λ xs. keep_sorted (remove_member x xs)) m
exec k (z_score key x) m = answer (sorted_at (m key)) (score_of x) m
exec k (z_range key start stop) m =
    answer (sorted_at (m key)) (λ xs. ok (range (map (λ e. e.0) xs) start stop)) m
exec k (z_range_by_score key min max) m =
    if is_score min && is_score max
    then answer (sorted_at (m key)) (λ xs. ok (map (λ e. e.0) (between min max xs))) m
    else (err no_float, m)

-- A client that shows the documented behaviour while it is healthy: the connection is up, and no
-- other client writes between its commands.
pub record Documented (r : Redis) : Type 1 where
  pub Healthy : r.World → Type 0
  pub view : r.World → Keyspace
  pub replies :
      (k : Kind) (c : Command k) (w : r.World) → Healthy w → (r.run k c w).0 ≡ (exec k c (view w)).0
  pub view-run :
      (k : Kind) (c : Command k) (w : r.World)
      → Healthy w
      → view (r.run k c w).1 ≡ (exec k c (view w)).1
  pub run-Healthy : (k : Kind) (c : Command k) (w : r.World) → Healthy w → Healthy (r.run k c w).1
