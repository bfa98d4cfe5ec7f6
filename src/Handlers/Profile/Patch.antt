-- ===== src/Handlers/Profile/Patch.antt =====
-- A patch of a profile is what is read afterwards.
use srv.Prelude.{
  Exec, and_then, ◌≡◌, ◌≢◌, refl, ap, sym, subst, ◌∙◌, ite_intro, Option, none, some, Option-cases,
  inl, inr, [], ◌∷◌, ◌++◌, Result, ok, err, Text, codes, text_discrete, Dict, lookup,
}
use srv.Platform.Redis.Spec.{Keyspace, exec, text_at, Documented}
use srv.Platform.Orm.Contract.{fetch-store}
use srv.Platform.Orm.Keys.{raw_key}
use srv.Platform.Orm.Objects.{fetch_value_at_key, store_object, missing}
use srv.Storage.Types.{Store, Profile, profile_key}
use srv.Storage.Profile.{get_profile, save_profile}
use srv.Storage.Users.Simulation.{spec_store, get_profile-Simulates}
use srv.Lifecycle.Session.{Backend}
use srv.Handlers.Http.{Request, Web, Given, Http, nothing}
use srv.Handlers.Auth.Admission.{profile_read, Admissible}
use srv.Handlers.Routes.Guarded.{authenticated-admits}
use srv.Handlers.Profile.{patch_of, patched, with_updates, save_patches, patch_profile}

-- What a field is after an update: an empty value is no update.
abbrev pub updated : Text → Text → Dict Text → Text
updated field old updates = elim (lookup field updates) [
  | none ↦ old
  | some [] ↦ old
  | some (x ∷ t) ↦ x ∷ t
]

abbrev pub with_all : Dict Text → Profile → Profile
with_all updates p = record p {
  name = updated (codes "name") p.name updates;
  secret = updated (codes "secret") p.secret updates;
}

-- A patch that is none leaves what the update is, and else it is that.
abbrev Gives : Option Text → Text → Text → Type 0
Gives none old new = new ≡ old
Gives (some t) old new = new ≡ t

patch_of-Gives :
    (field old : Text) (updates : Dict Text)
    → Gives (patch_of field old updates) old (updated field old updates)
unfolding patch_of
patch_of-Gives field old updates = elim (Option-cases (lookup field updates)) [
  | inl e ↦ rw (e, patch_of, updated) refl
  | inr ([], e) ↦ rw (e, patch_of, updated) refl
  | inr (x ∷ t, e) ↦
      rw (e, patch_of, updated)
        (ite_intro (λ o. Gives o old (x ∷ t)) (text_discrete (x ∷ t) old) (λ same. same)
          (λ other. refl))
]

-- The profile that is kept or saved.
abbrev kept : Option Profile → Profile → Profile
kept none p = p
kept (some q) p = q

with_updates-kept :
    (n s : Option Text) (p : Profile) (name secret : Text)
    → Gives n p.name name
    → Gives s p.secret secret
    → kept (with_updates n s p) p ≡ record p { name = name; secret = secret }
with_updates-kept none none p name secret a c = rw (a, c) refl
with_updates-kept (some n) none p name secret a c = rw (a, c) refl
with_updates-kept none (some s) p name secret a c = rw (a, c) refl
with_updates-kept (some n) (some s) p name secret a c = rw (a, c) refl

patched-kept : (updates : Dict Text) (p : Profile) → kept (patched updates p) p ≡ with_all updates p
unfolding patched
patched-kept updates p =
    with_updates-kept _ _ p _ _ (patch_of-Gives (codes "name") p.name updates)
      (patch_of-Gives (codes "secret") p.secret updates)

keeps_after :
    {A B : Type 0} (res : Result A) (m : Keyspace) (f : A → Exec Keyspace B)
    → ((a : A) → (f a m).1 ≡ m)
    → (and_then (res, m) f).1 ≡ m
keeps_after (ok a) m f h = h a
keeps_after (err e) m f h = refl

-- A read keeps every key.
get_profile-keeps :
    (st : Store) (id : Text) (m : Keyspace) → (get_profile (spec_store st) id m).1 ≡ m
unfolding get_profile fetch_value_at_key exec
get_profile-keeps st id m =
    keeps_after (missing (text_at (m (raw_key st.prefix (profile_key id))))) m
      (λ bytes s. (st.profiles.from_redis bytes, s)) (λ a. refl)

module _ {b : Backend} (d : Documented b.store.redis) (web : Web) (g : Given) (c : Request)
    (s : Http b) (p : Profile) where
  save_patches-saved :
      (t : Http b) (updates : Dict Text) (bytes : Text)
      → d.Healthy t.server.redis
      → p.id ≢ []
      → (get_profile b.store p.id t.server.redis).0 ≡ ok p
      → b.store.profiles.to_redis (with_all updates p) ≡ ok bytes
      → let r = save_patches web g updates p t in
        ((get_profile b.store p.id r.server.redis).0 ≡ ok (with_all updates p))
        × (r.answers ≡ t.answers ++ (204, nothing) ∷ [])
  unfolding save_patches save_profile get_profile store_object profile_key
  save_patches-saved t updates bytes up n there e = elim (Option-cases (patched updates p)) [
    | inl same ↦
        rw (same, save_patches)
          (there ∙ ap ok (sym (ap (λ o. kept o p) same) ∙ patched-kept updates p), refl)
    | inr (q, changed) ↦
        let what : with_all updates p ≡ q =
          sym (patched-kept updates p) ∙ ap (λ o. kept o p) changed in
        let encoded : b.store.profiles.to_redis q ≡ ok bytes =
          subst (λ x. b.store.profiles.to_redis x ≡ ok bytes) what e in
        let id : q.id ≡ p.id = sym (ap (λ x. x.id) what) in
        let (stored_ok, fetched, _) =
          fetch-store d b.store.prefix b.store.profiles (profile_key q.id) q bytes t.server.redis up
            (λ x. n (sym id ∙ x)) encoded in
        rw (changed, save_patches, stored_ok)
          (
            subst
                  (λ k.
                    (fetch_value_at_key b.store.redis b.store.prefix b.store.profiles
                      (profile_key k) (save_profile b.store q t.server.redis).1).0
                    ≡ ok q)
                  id fetched
                ∙ ap ok (sym what),
            refl,
          )
  ]

  -- Over a healthy client, for an admitted request whose profile is stored under its own id and
  -- whose body decodes to updates: afterwards the stored profile has the name and the secret that
  -- the body gives, where a missing or an empty one leaves what was there, it is otherwise as
  -- before, and the answer has the status 204. It is a condition that the new profile has an
  -- encoding.
  pub patch_profile-saved :
      (updates : Dict Text) (bytes : Text)
      → d.Healthy s.server.redis
      → Admissible b web g c s p
      → p.id ≡ c.profile_id
      → web.bind_map c.body ≡ ok updates
      → b.store.profiles.to_redis (with_all updates p) ≡ ok bytes
      → let r = patch_profile web g c s in
        ((get_profile b.store c.profile_id r.server.redis).0 ≡ ok (with_all updates p))
        × (r.answers ≡ s.answers ++ (204, nothing) ∷ [])
  unfolding patch_profile
  patch_profile-saved updates bytes up a id body e =
      let read = get_profile-Simulates b.store d c.profile_id in
      let w = s.server.redis in
      let view_same : d.view (get_profile b.store c.profile_id w).1 ≡ d.view w =
        read.keeps w up ∙ get_profile-keeps b.store c.profile_id (d.view w) in
      let again : (get_profile b.store c.profile_id (get_profile b.store c.profile_id w).1).0
          ≡ ok p =
        read.reply _ (read.healthy w up)
        ∙ (ap (λ v. (get_profile (spec_store b.store) c.profile_id v).0) view_same
            ∙ (sym (read.reply w up) ∙ a.is_profile)) in
      rw (body, patch_profile, authenticated-admits web g c s (save_patches web g updates) p a)
        (subst
          (λ k.
            let r = save_patches web g updates p (profile_read c s) in
            ((get_profile b.store k r.server.redis).0 ≡ ok (with_all updates p))
            × (r.answers ≡ s.answers ++ (204, nothing) ∷ []))
          id
          (save_patches-saved (profile_read c s) updates bytes (read.healthy w up)
            (λ x. a.has_profile (sym id ∙ x))
            (subst (λ k. (get_profile b.store k (get_profile b.store c.profile_id w).1).0 ≡ ok p)
              (sym id) again)
            e))
