-- ===== src/Command/Db/Matching.antt =====
-- What the commands count and delete.
use srv.Prelude.{
  suc, ◌+◌, ◌==◌, ◌≡◌, refl, ap, sym, ◌∙◌, Bool, true, false, Bool-cases, inl, inr, ite, none, List,
  [], ◌∷◌, Text, text_discrete, length, if_intro, subst, if◌then◌else◌, arith,
}
use srv.Platform.Redis.{Redis, Kind, del}
use srv.Platform.Redis.Spec.{exec, put, member, Documented}
use srv.Command.Db.{Regexp, Patterns, Settings, Progress, map_key, map_keys, map_matching_keys}

-- The keys that match, in their order.
pub matching : Regexp → List Text → List Text
matching pat [] = []
matching pat (k ∷ ks) = if pat.match_string k then k ∷ matching pat ks else matching pat ks

module _ {r : Redis} (d : Documented r) (prefix : Text) (patterns : Patterns)
    (settings : Settings) where
  abbrev after : Regexp → Bool → Bool → List Text → Progress r → Progress r
  after = map_keys r prefix patterns settings

  map_key-count :
      (l x : Bool) (key : Text) (p : Progress r)
      → (map_key r prefix patterns settings l x key p).count ≡ suc p.count
  unfolding map_key
  map_key-count l true key p = refl
  map_key-count l false key p = refl

  map_keys-count :
      (pat : Regexp) (l x : Bool) (ks : List Text) (p : Progress r)
      → (after pat l x ks p).count ≡ p.count + length (matching pat ks)
  unfolding map_keys matching
  map_keys-count pat l x [] p = omega arith
  map_keys-count pat l x (k ∷ ks) p = elim (Bool-cases (pat.match_string k)) [
    | inl e ↦
        rw (e, map_keys, matching)
          (map_keys-count pat l x ks _ ∙ omega (arith, map_key-count l x k p))
    | inr e ↦ rw (e, map_keys, matching) (map_keys-count pat l x ks p)
  ]

  map_key-kept :
      (l : Bool) (key : Text) (p : Progress r)
      → (map_key r prefix patterns settings l false key p).redis ≡ p.redis
  unfolding map_key
  map_key-kept true key p =
      if_intro {A = Progress r} (λ q. q.redis ≡ p.redis) (p.count == 0) refl refl
  map_key-kept false key p = refl

  map_key-deleted :
      (l : Bool) (key : Text) (p : Progress r)
      → (map_key r prefix patterns settings l true key p).redis
        ≡ (r.run Kind.unit (del key) p.redis).1
  unfolding map_key
  map_key-deleted true key p = refl
  map_key-deleted false key p = refl

  map_keys-kept :
      (pat : Regexp) (l : Bool) (ks : List Text) (p : Progress r)
      → (after pat l false ks p).redis ≡ p.redis
  unfolding map_keys
  map_keys-kept pat l [] p = refl
  map_keys-kept pat l (k ∷ ks) p = elim (Bool-cases (pat.match_string k)) [
    | inl e ↦ rw (e, map_keys) (map_keys-kept pat l ks _ ∙ map_key-kept l k p)
    | inr e ↦ rw (e, map_keys) (map_keys-kept pat l ks p)
  ]

  deleted_view :
      (k : Text) (w : r.World)
      → d.Healthy w
      → (j : Text)
      → d.view (r.run Kind.unit (del k) w).1 j ≡ ite (text_discrete k j) none (d.view w j)
  unfolding exec put
  deleted_view k w up j = ap (λ m. m j) (d.view-run Kind.unit (del k) w up)

  map_keys-deleted :
      (pat : Regexp) (l : Bool) (ks : List Text) (p : Progress r)
      → d.Healthy p.redis
      → (j : Text)
      → d.view (after pat l true ks p).redis j
        ≡ (if member j (matching pat ks) then none else d.view p.redis j)
  unfolding map_keys matching member
  map_keys-deleted pat l [] p up j = refl
  map_keys-deleted pat l (k ∷ ks) p up j = elim (Bool-cases (pat.match_string k)) [
    | inr e ↦ rw (e, map_keys, matching) (map_keys-deleted pat l ks p up j)
    | inl e ↦
        let here = map_key-deleted l k p in
        let q = map_key r prefix patterns settings l true k p in
        let ok_there : d.Healthy q.redis =
          subst d.Healthy (sym here) (d.run-Healthy Kind.unit (del k) p.redis up) in
        let rest = map_keys-deleted pat l ks q ok_there j in
        let at : d.view q.redis j ≡ ite (text_discrete k j) none (d.view p.redis j) =
          ap (λ w. d.view w j) here ∙ deleted_view k p.redis up j in
        rw (e, map_keys, matching) (rest ∙ ground (arith, at))
  ]

  -- The keys that the scan gives.
  abbrev scanned : Progress r → List Text
  scanned p = (r.scan prefix p.redis).0.0

  -- Over a healthy client, whose scan changes no key: the count is the number of the scanned keys
  -- that match; when keys are to be deleted, exactly these are gone and every other key is as it
  -- was; when they are only listed, every key is as it was.
  pub map_matching_keys-exact :
      (pat : Regexp) (also_list : Bool) (p : Progress r)
      → d.Healthy (r.scan prefix p.redis).1
      → d.view (r.scan prefix p.redis).1 ≡ d.view p.redis
      → let hits = matching pat (r.scan prefix p.redis).0.0 in
        let listed = map_matching_keys r prefix patterns settings pat also_list false p in
        let deleted = map_matching_keys r prefix patterns settings pat also_list true p in
        (listed.count ≡ length hits)
        × (deleted.count ≡ length hits)
        × ((j : Text) → d.view listed.redis j ≡ d.view p.redis j)
        × ((j : Text) → d.view deleted.redis j ≡ (if member j hits then none else d.view p.redis j))
  unfolding map_matching_keys
  map_matching_keys-exact pat l p up same =
      let q : Progress r = record p { count = 0; redis = (r.scan prefix p.redis).1 } in
      (
        map_keys-count pat l false (scanned p) q ∙ omega arith,
        map_keys-count pat l true (scanned p) q ∙ omega arith,
        λ j. ap (λ w. d.view w j) (map_keys-kept pat l (scanned p) q) ∙ ap (λ m. m j) same,
        λ j.
            map_keys-deleted pat l (scanned p) q up j
            ∙ ap (λ v. if member j (matching pat (scanned p)) then none else v)
                (ap (λ m. m j) same),
      )
