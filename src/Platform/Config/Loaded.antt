-- ===== src/Platform/Config/Loaded.antt =====
-- Which file is found, and what is loaded.
use srv.Prelude.{
  ℕ, zero, suc, ◌+◌, ◌<◌, ◌≤◌, ◌==◌, ◌≡◌, refl, Bool, true, false, Bool-cases, inl, inr, none, [],
  ◌∷◌, ◌++◌, Result, Result-cases, ok, err, Text, codes, ltb_ℤ, if_intro, dec_lt, subst, pos, arith,
}
use srv.Platform.Config.{
  Machine, Host, atoi_value, get_env_port, environment_of, up, find_from, find_env_file,
  after_overload, set_env_config, set_config,
}

-- The first of the levels from `i` on that has the file.
abbrev pub Nearest : (Text → Bool) → ℕ → ℕ → Text → Result Text → Type 0
Nearest stat n i name (err e) = (k : ℕ) → i ≤ k → k < i + n → stat (up k ++ name) ≡ false
Nearest stat n i name (ok d) =
    (k : ℕ) × (d ≡ up k)
    × (k < i + n)
    × (stat (up k ++ name) ≡ true)
    × ((j : ℕ) → i ≤ j → j < k → stat (up j ++ name) ≡ false)

-- At the level itself, or further up.
at_or_above :
    (stat : Text → Bool) (name : Text) (i k : ℕ)
    → stat (up i ++ name) ≡ false
    → i ≤ k
    → (i < k → stat (up k ++ name) ≡ false)
    → stat (up k ++ name) ≡ false
at_or_above stat name i k absent low further = elim (dec_lt i k) [
  | yes above ↦ further above
  | no here ↦ let same : i ≡ k = omega arith in subst (λ l. stat (up l ++ name) ≡ false) same absent
]

none_here :
    (stat : Text → Bool) (name : Text) (i : ℕ)
    → stat (up i ++ name) ≡ false
    → (n : ℕ) (r : Result Text) → Nearest stat n (suc i) name r
    → Nearest stat (suc n) i name r
none_here stat name i absent n (err e) h =
    λ k low high. at_or_above stat name i k absent low (λ above. h k (omega arith) (omega arith))
none_here stat name i absent n (ok d) (k, same, high, there, before) = (
  k,
  same,
  omega arith,
  there,
  λ j low less. at_or_above stat name i j absent low (λ above. before j (omega arith) less),
)

find_from-Nearest :
    (stat : Text → Bool) (n i : ℕ) (name : Text) → Nearest stat n i name (find_from stat n i name)
unfolding find_from
find_from-Nearest stat zero i name = λ k low high. absurd (omega arith)
find_from-Nearest stat (suc n) i name = elim (Bool-cases (stat (up i ++ name))) [
  | inl e ↦ rw (e, find_from) (i, refl, omega arith, e, λ j low less. absurd (omega arith))
  | inr e ↦
      rw (e, find_from)
        (none_here stat name i e n (find_from stat n (suc i) name)
          (find_from-Nearest stat n (suc i) name))
]

-- The file is found in the nearest of the current directory and the four levels above it that has
-- it; an error says that none of the five has it.
pub find_env_file-Nearest :
    (stat : Text → Bool) (name : Text) → Nearest stat 5 0 name (find_env_file stat name)
unfolding find_env_file
find_env_file-Nearest stat name = find_from-Nearest stat 5 0 name

-- A port is positive when its default is, whatever the variable holds: also with a text that is no
-- number or is out of range.
pub get_env_port-positive :
    (s : Text) (d : ℕ) → 0 < d → ltb_ℤ (pos 0) (get_env_port s (pos d)) ≡ true
unfolding get_env_port
get_env_port-positive s d h = elim (Bool-cases (ltb_ℤ (pos 0) (atoi_value s))) [
  | inl e ↦ rw (e, get_env_port) e
  | inr e ↦ rw (e, get_env_port) (ground arith)
]

module _ (m : Machine) where
  -- A configuration is kept, or is made of the variables.
  abbrev pub Loads : Host m → Result (Unit {0}) × Host m → Type 0
  Loads h (ok _, t) = t.loaded_config ≡ environment_of (λ k. m.getenv k t.machine)
  Loads h (err e, t) = t.loaded_config ≡ h.loaded_config

  after_overload-Loads :
      (r : Result (Unit {0}) × m.World) (h : Host m) → Loads h (after_overload m r h)
  unfolding after_overload
  after_overload-Loads (err e, w) h = refl
  after_overload-Loads (ok u, w) h = refl

  set_env_config-Loads : (name : Text) (h : Host m) → Loads h (set_env_config m name h)
  unfolding set_env_config
  set_env_config-Loads [] h = after_overload-Loads (m.overload none h.machine) h
  set_env_config-Loads (c ∷ s) h =
      elim (Result-cases (find_env_file (λ f. m.stat f h.machine) (c ∷ s))) [
        | inr (x, e) ↦ rw (e, set_env_config) refl
        | inl (d, e) ↦ rw (e, set_env_config) (after_overload-Loads _ h)
      ]

  -- A configuration that could not be set stays as it was, and one that was set is what the
  -- variables of the machine then say.
  pub set_config-Loads : (name : Text) (h : Host m) → Loads h (set_config m name h)
  unfolding set_config
  set_config-Loads [] h = set_env_config-Loads [] h
  set_config-Loads (c ∷ s) h =
      let loads = set_env_config-Loads in
      if_intro {A = Result (Unit {0}) × Host m} (Loads h) (c == b'd') (loads (codes ".env") h) (
        if_intro {A = Result (Unit {0}) × Host m} (Loads h) (c == b's')
          (loads (codes ".env.staging") h)
          (if_intro {A = Result (Unit {0}) × Host m} (Loads h) (c == b'p')
            (loads (codes ".env.production") h)
            (if_intro {A = Result (Unit {0}) × Host m} (Loads h) (c == b't')
              (loads (codes ".env.testing") h) refl)))

  -- Of a name, only the first letter counts.
  pub set_config-first_letter :
      (c : ℕ) (s t : Text) (h : Host m) → set_config m (c ∷ s) h ≡ set_config m (c ∷ t) h
  unfolding set_config
  set_config-first_letter c s t h = refl
