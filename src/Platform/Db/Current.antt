-- ===== src/Platform/Db/Current.antt =====
-- The client is of the current configuration, however that changed.
use srv.Prelude.{
  ◌≡◌, refl, Option, none, some, Option-cases, inl, inr, Result-cases, Error, ok, err, Text,
  text_discrete, ite_intro, subst,
}
use srv.Platform.Config.{Environment}
use srv.Platform.Orm.Keys.{get_db_prefix}
use srv.Platform.Db.{Clients, Connection, connect, get_db}

module _ (r : Clients) where
  -- A client is of the URL that is remembered.
  abbrev pub IsOf : Option r.Client → Text → Type 0
  IsOf none url = Unit {0}
  IsOf (some c) url = (opts : r.Options) × (r.parse_url url ≡ ok opts) × (c ≡ r.new_client opts)

  abbrev pub Remembers : Connection r → Type 0
  Remembers s = IsOf s.client s.client_url

  -- What is given is of the configuration; nothing is given for a URL that is no good.
  abbrev pub Gives : Environment → Option (r.Client × Text) → Type 0
  Gives config none = (e : Error) × (r.parse_url config.db_url ≡ err e)
  Gives config (some (c, prefix)) =
      IsOf (some c) config.db_url × (prefix ≡ get_db_prefix config.db_key_prefix)

  Good : Environment → Option (r.Client × Text) × Connection r → Type 0
  Good config (given, s) = Gives config given × Remembers s

  connect-Good :
      (config : Environment) (s : Connection r) → Remembers s → Good config (connect r config s)
  unfolding connect Good
  connect-Good config s h = elim (Result-cases (r.parse_url config.db_url)) [
    | inr (x, e) ↦ rw (e, connect) ((x, e), h)
    | inl (opts, e) ↦ rw (e, connect) (((opts, e, refl), refl), (opts, e, refl))
  ]

  -- While every client is remembered with the URL it was made of: a call gives a client of the
  -- current URL with the current prefix, or panics when the URL is no good, and what is remembered
  -- is right again.
  pub get_db-current :
      (config : Environment) (s : Connection r)
      → Remembers s
      → Gives config (get_db r config s).0 × Remembers (get_db r config s).1
  unfolding get_db Good
  get_db-current config s h = elim (Option-cases s.client) [
    | inl e ↦ rw (e, get_db) (connect-Good config s h)
    | inr (c, e) ↦
        let fresh = connect-Good config s h in
        rw (e, get_db)
          (ite_intro {A = Option (r.Client × Text) × Connection r} (Good config)
            (text_discrete s.client_url config.db_url)
            (λ url.
              ite_intro {A = Option (r.Client × Text) × Connection r} (Good config)
                (text_discrete s.key_prefix (get_db_prefix config.db_key_prefix))
                (λ prefix.
                  let known = subst (λ x. IsOf x s.client_url) e h in
                  ((subst (IsOf (some c)) url known, prefix), h))
                (λ other. fresh))
            (λ other. fresh))
  ]
