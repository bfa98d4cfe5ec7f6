-- ===== src/Platform/Cache/Laws.antt =====
-- What is added to the cache is found in it until its lifetime has passed.
use srv.Prelude.{
  ℕ, suc, ◌+◌, ◌≡◌, refl, ap, ◌∙◌, ite, Option, none, some, ok, Text, text_discrete, ltb,
  if◌then◌else◌, ◌++◌, pos, arith,
}
use srv.Platform.Redis.{Redis, Kind, h_set, h_expire}
use srv.Platform.Redis.Lifetimes.{
  read, write, limit, TimedHash, live, limited_to, exec_field, KeepsLifetimes, found,
}
use srv.Platform.Cache.{ExpiringCache, or_missing, expire_blob, add_blob, get_blob}

or_missing-found : (v : Option Text) → or_missing (found v) ≡ ok v
or_missing-found none = refl
or_missing-found (some v) = refl

module _ {r : Redis} (prefix : Text) (e : ExpiringCache)
    (k : KeepsLifetimes r (prefix ++ e.id)) where
  get_blob-live :
      (j : Text) (w : r.World)
      → k.Healthy w
      → (get_blob r prefix e j w).0 ≡ ok (live (k.view w).now ((k.view w).fields j))
  unfolding get_blob exec_field
  get_blob-live j w up = ap or_missing (k.replies Kind.text (read j) w up) ∙ or_missing-found _

  -- The two commands of an addition, which do not fail.
  abbrev set_then_limited : Text → Text → r.World → r.World
  set_then_limited id blob w =
      (r.run Kind.unit (h_expire (prefix ++ e.id) e.ttl id)
        (r.run Kind.unit (h_set (prefix ++ e.id) id blob) w).1).1

  add_blob-runs :
      (id blob : Text) (w : r.World)
      → k.Healthy w
      → add_blob r prefix e id blob w ≡ (ok tt, set_then_limited id blob w)
  unfolding add_blob expire_blob exec_field
  add_blob-runs id blob w up =
      rw
        (
          k.replies Kind.unit (write id blob) w up,
          k.replies Kind.unit (limit e.ttl id) _ (k.run-Healthy Kind.unit (write id blob) w up),
        )
        refl

  module _ (id blob : Text) (t : ℕ) (lasts : e.ttl ≡ pos (suc t)) where
    -- The field of the blob ends when the lifetime does, and the others are as they were.
    field_after :
        (j : Text) (h : TimedHash)
        → (exec_field Kind.unit
              (limit e.ttl id)
              (exec_field Kind.unit (write id blob) h).1).1.fields
            j
          ≡ ite (text_discrete id j) (some (blob, some (h.now + suc t))) (h.fields j)
    unfolding exec_field limited_to live
    field_after j h = elim (text_discrete id id) [
      | no n ↦ absurd (n refl)
      | yes same ↦ rw lasts (ground arith)
    ]

    view_after :
        (w : r.World)
        → k.Healthy w
        → k.view (set_then_limited id blob w)
          ≡ (exec_field Kind.unit
              (limit e.ttl id)
              (exec_field Kind.unit (write id blob) (k.view w)).1).1
    view_after w up =
        k.view-run Kind.unit (limit e.ttl id) _ (k.run-Healthy Kind.unit (write id blob) w up)
        ∙ ap (λ h. (exec_field Kind.unit (limit e.ttl id) h).1)
            (k.view-run Kind.unit (write id blob) w up)

    abbrev after_add : TimedHash → TimedHash
    after_add h =
        (exec_field Kind.unit (limit e.ttl id) (exec_field Kind.unit (write id blob) h).1).1

    set-Healthy : (w : r.World) → k.Healthy w → k.Healthy (set_then_limited id blob w)
    set-Healthy w up =
        k.run-Healthy Kind.unit (limit e.ttl id) _ (k.run-Healthy Kind.unit (write id blob) w up)

    -- What is read after a while.
    get_blob-waited :
        (n : ℕ) (j : Text) (w : r.World)
        → k.Healthy w
        → (get_blob r prefix e j (k.wait n w)).0
          ≡ ok (live ((k.view w).now + n) ((k.view w).fields j))
    get_blob-waited n j w up =
        get_blob-live j (k.wait n w) (k.wait-Healthy n w up)
        ∙ ap (λ h. ok (live h.now (h.fields j))) (k.view-wait n w up)

    after_now : (h : TimedHash) → (after_add h).now ≡ h.now
    unfolding exec_field
    after_now h = refl

    live_after :
        (now n : ℕ)
        → live (now + n) (some (blob, some (now + suc t)))
          ≡ (if ltb n (suc t) then some blob else none)
    unfolding live
    live_after now n = ground arith

    get_blob-later :
        (n : ℕ) (j : Text) (w : r.World)
        → k.Healthy w
        → (get_blob r prefix e j (k.wait n (set_then_limited id blob w))).0
          ≡ ok (
              live ((k.view w).now + n) (
                ite
                  (text_discrete id j)
                  (some (blob, some ((k.view w).now + suc t)))
                  ((k.view w).fields j)))
    get_blob-later n j w up =
        get_blob-waited n j (set_then_limited id blob w) (set-Healthy w up)
        ∙ (ap (λ h. ok (live (h.now + n) (h.fields j))) (view_after w up)
            ∙ (ap (λ m. ok (live (m + n) ((after_add (k.view w)).fields j))) (after_now (k.view w))
                ∙ ap (λ f. ok (live ((k.view w).now + n) f)) (field_after j (k.view w))))

    -- Over a healthy client that keeps the lifetimes of fields, on a cache whose lifetime is
    -- positive: a blob is added without an error. When any time has passed since, with nothing else
    -- done, it is found under its id if that time is shorter than the lifetime, and no longer
    -- otherwise; every other id leads to what it would lead to at that time without the addition.
    pub get_blob-add :
        (n : ℕ) (j : Text) (w : r.World)
        → k.Healthy w
        → let added = add_blob r prefix e id blob w in
          (added.0 ≡ ok tt)
          × ((get_blob r prefix e j (k.wait n added.1)).0
              ≡ ite
                  (text_discrete id j)
                  (ok (if ltb n (suc t) then some blob else none))
                  (get_blob r prefix e j (k.wait n w)).0)
    get_blob-add n j w up =
        let added = add_blob-runs id blob w up in
        (
          ap (λ p. p.0) added,
          ap (λ p. (get_blob r prefix e j (k.wait n p.1)).0) added
              ∙ (get_blob-later n j w up
                  ∙ ground (arith, get_blob-waited n j w up, live_after (k.view w).now n)),
        )
