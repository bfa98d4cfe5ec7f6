-- ===== src/Handlers/Auth/Refusal.antt =====
-- What a request is answered that is not admitted, and what it leaves as it was.
use srv.Prelude.{
  ℕ, ◌≡◌, refl, ap, Bool, true, false, Option, none, some, ◌∷◌, [], ◌++◌, ◌⊎◌, inl, inr, ok, err,
  Error, not_found, Result, Result-cases, Text, text_discrete, ite_intro, if_intro, length, drop,
  ltb, ℤ, ◌||◌,
}
use srv.Storage.Types.{Profile}
use srv.Storage.Profile.{get_profile}
use srv.Lifecycle.Session.{Backend}
use srv.Handlers.Http.{Request, Web, Given, Http, Outcome, done, panicked, Body, stored, answer}
use srv.Handlers.Auth.{
  validator, methods, bearer_length, too_far_off, check_issued_at, check_claims, authenticate_jwt,
  check_profile, authenticate_request, is_empty, verdict, no_profile,
}
use srv.Handlers.Auth.Admission.{profile_read}

-- An answer more, with the status of an error.
pub record Refused {b : Backend} (s t : Http b) : Type 0 where
  pub status : ℕ
  pub body : Body
  pub is_error : (status ≡ 400) ⊎ ((status ≡ 401) ⊎ ((status ≡ 403) ⊎ (status ≡ 500)))
  pub answers : t.answers ≡ s.answers ++ (status, body) ∷ []

-- One answer more when it is no, and none else.
abbrev Told : {b : Backend} → Outcome Bool × Http b → Http b → Type 0
Told (done true, t) s = t ≡ s
Told (done false, t) s = (t.server ≡ s.server) × (t.mails ≡ s.mails) × Refused s t
Told (panicked, t) s = t ≡ s

-- All but the answers and the header is as it was, and of the store at most the profile was read.
pub record Untouched {b : Backend} (c : Request) (s t : Http b) : Type 0 where
  pub sessions : t.server.sessions ≡ s.server.sessions
  pub pubsub : t.server.pubsub ≡ s.server.pubsub
  pub speech : t.server.speech ≡ s.server.speech
  pub mails : t.mails ≡ s.mails
  pub redis : (t.server.redis ≡ s.server.redis) ⊎ (t.server.redis ≡ (profile_read c s).server.redis)

-- What the three outcomes of the authentication leave.
abbrev pub Settled : {b : Backend} → Request → Http b → Outcome (Option Profile) × Http b → Type 0
Settled c s (done (some p), t) = t ≡ profile_read c s
Settled c s (done none, t) = Untouched c s t × Refused s t
Settled c s (panicked, t) = t ≡ profile_read c s

module _ {b : Backend} (web : Web) (g : Given) where
  forbidden : (s : Http b) (body : Body) → Told (done false, answer 403 body s) s
  forbidden s body = (
    refl,
    refl,
    record { status = 403; body = body; is_error = inr (inr (inl refl)); answers = refl },
  )

  broken : (s : Http b) (body : Body) → Told (done false, answer 500 body s) s
  broken s body = (
    refl,
    refl,
    record { status = 500; body = body; is_error = inr (inr (inr refl)); answers = refl },
  )

  check_issued_at-Told : (at : Option ℤ) (s : Http b) → Told (check_issued_at web g at s) s
  unfolding check_issued_at
  check_issued_at-Told none s = refl
  check_issued_at-Told (some at) s =
      if_intro {A = Outcome Bool × Http b} (λ r. Told r s) (too_far_off g.unix at) (forbidden s _)
        refl

  check_claims-Told :
      (token : web.tokens.Token) (client_id profile_id : Text) (s : Http b)
      → Told (check_claims web g token client_id profile_id s) s
  unfolding check_claims
  check_claims-Told token client_id profile_id s = elim (Result-cases (web.tokens.issuer token)) [
    | inr (x, e) ↦ rw (e, check_claims) (forbidden s _)
    | inl (i, e) ↦
        rw (e, check_claims)
          (ite_intro {A = Outcome Bool × Http b} (λ r. Told r s) (text_discrete i client_id)
            (λ from. elim (Result-cases (web.tokens.subject token)) [
              | inr (x, f) ↦ rw (f) (forbidden s _)
              | inl (j, f) ↦ rw (f) (
                  ite_intro {A = Outcome Bool × Http b} (λ r. Told r s) (text_discrete j profile_id)
                    (λ about. elim (Result-cases (web.tokens.issued_at token)) [
                      | inr (x, h) ↦ rw (h) (forbidden s _)
                      | inl (at, h) ↦ rw (h) (check_issued_at-Told at s)
                    ])
                    (λ other. forbidden s _))
            ])
            (λ other. forbidden s _))
  ]

  authenticate_jwt-Told :
      (bearer_token client_id profile_id secret : Text) (s : Http b)
      → Told (authenticate_jwt web g bearer_token client_id profile_id secret s) s
  unfolding authenticate_jwt
  authenticate_jwt-Told bearer_token client_id profile_id secret s =
      elim (Result-cases (web.parse_uuid secret)) [
        | inr (x, e) ↦ rw (e, authenticate_jwt) (broken s _)
        | inl (key, e) ↦ elim (Result-cases (web.marshal_binary key)) [
          | inr (x, f) ↦ rw (e, authenticate_jwt, f) (broken s _)
          | inl (bytes, f) ↦
              elim (Result-cases
                (web.tokens.parse g.unix bearer_token (validator web bytes) methods)) [
                  | inr (x, h) ↦ rw (e, authenticate_jwt, f, h) (forbidden s _)
                  | inl (token, h) ↦
                      rw (e, authenticate_jwt, f, h)
                        (check_claims-Told token client_id profile_id s)
                ]
        ]
      ]

  abbrev ReadOnly : (c : Request) (s t : Http b) → Type 0
  ReadOnly c s t = (t.server ≡ (profile_read c s).server) × (t.mails ≡ s.mails)

  Refused-Settled :
      (c : Request) (s t : Http b)
      → t.server ≡ (profile_read c s).server
      → t.mails ≡ s.mails
      → Refused s t
      → Settled c s (done none, t)
  Refused-Settled c s t e m r = (
    record {
      sessions = ap (λ v. v.sessions) e;
      pubsub = ap (λ v. v.pubsub) e;
      speech = ap (λ v. v.speech) e;
      mails = m;
      redis = inr (ap (λ v. v.redis) e);
    },
    r,
  )

  same : (c : Request) (s t : Http b) → t.server ≡ s.server → t.mails ≡ s.mails → Untouched c s t
  same c s t e m = record {
    sessions = ap (λ v. v.sessions) e;
    pubsub = ap (λ v. v.pubsub) e;
    speech = ap (λ v. v.speech) e;
    mails = m;
    redis = inl (ap (λ v. v.redis) e);
  }

  verdict-Settled :
      (c : Request) (s : Http b) (p : Profile) (r : Outcome Bool × Http b)
      → Told r (profile_read c s)
      → Settled c s (verdict p r.0, r.1)
  verdict-Settled c s p (done true, t) e = e
  verdict-Settled c s p (done false, t) (e, m, r) =
      Refused-Settled c s t e m
        (record { status = r.status; body = r.body; is_error = r.is_error; answers = r.answers })
  verdict-Settled c s p (panicked, t) e = e

  no_profile-Settled :
      (c : Request) (s : Http b) (x : Error) → Settled c s (no_profile x (profile_read c s))
  no_profile-Settled c s x = elim x as (λ k. Settled c s (no_profile k (profile_read c s))) [
    | not_found ↦
        let (e, m, r) = forbidden (profile_read c s) _ in
        Refused-Settled c s _ e m
          (record { status = r.status; body = r.body; is_error = r.is_error; answers = r.answers })
    | _ ↦
        let (e, m, r) = broken (profile_read c s) _ in
        Refused-Settled c s _ e m
          (record { status = r.status; body = r.body; is_error = r.is_error; answers = r.answers })
  ]

  check_profile-Settled :
      (c : Request) (res : Result Profile) (s : Http b)
      → Settled c s (check_profile web g c res (profile_read c s))
  unfolding check_profile
  check_profile-Settled c (err x) s = no_profile-Settled c s x
  check_profile-Settled c (ok p) s =
      verdict-Settled c s p
        (authenticate_jwt web g (drop bearer_length c.authorization) c.client_id c.profile_id
          p.secret (profile_read c s))
        (authenticate_jwt-Told _ c.client_id c.profile_id p.secret (profile_read c s))

  -- A request that is not admitted is answered once, with one of the statuses 400, 401, 403 and
  -- 500, and leaves the sessions, the managers and the mails as they were; of the store at most the
  -- profile is read. An admitted request and one that panics are not answered, and read the
  -- profile.
  pub authenticate_request-Settled :
      (c : Request) (s : Http b) → Settled c s (authenticate_request web g c s)
  unfolding authenticate_request
  authenticate_request-Settled c s =
      if_intro {A = Outcome (Option Profile) × Http b} (Settled c s)
        (is_empty c.client_id || is_empty c.profile_id)
        (
          same c s _ refl refl,
          record { status = 400; body = _; is_error = inl refl; answers = refl },
        )
        (if_intro {A = Outcome (Option Profile) × Http b} (Settled c s) (is_empty c.authorization)
          (
            same c s _ refl refl,
            record { status = 401; body = _; is_error = inr (inl refl); answers = refl },
          )
          (if_intro {A = Outcome (Option Profile) × Http b} (Settled c s)
            (ltb bearer_length (length c.authorization))
            (check_profile-Settled c (stored (get_profile b.store c.profile_id) s).0 s)
            (
              same c s _ refl refl,
              record { status = 403; body = _; is_error = inr (inr (inl refl)); answers = refl },
            )))
