-- ===== src/Handlers/Auth/Admission.antt =====
-- Which requests are admitted, and what the others are answered.
use srv.Prelude.{
  ◌≡◌, ◌≢◌, refl, ◌∙◌, sym, ap, Bool, true, false, Bool-cases, Option, none, some, inl, inr, [],
  ◌∷◌, ok, err, Result, Result-cases, Text, text_discrete, ite_intro, subst, Error, not_found,
  length, drop, lt→ltb, le→ltb, dec_lt, ◌<◌, arith, ℤ,
}
use srv.Storage.Types.{Profile}
use srv.Storage.Profile.{get_profile}
use srv.Lifecycle.Session.{Backend}
use srv.Handlers.Http.{Request, Web, Given, Http, Outcome, done, panicked, stored}
use srv.Handlers.Auth.{
  validator, methods, bearer_length, too_far_off, check_issued_at, check_claims, authenticate_jwt,
  check_profile, verdict, no_profile, authenticate_request, is_empty,
}

module _ (web : Web) (g : Given) (client_id profile_id : Text) where
  -- What a token has to claim.
  pub record Claims (token : web.tokens.Token) : Type 0 where
    pub from_client : web.tokens.issuer token ≡ ok client_id
    pub about_profile : web.tokens.subject token ≡ ok profile_id
    pub at : ℤ
    pub issued : web.tokens.issued_at token ≡ ok (some at)
    pub recent : too_far_off g.unix at ≡ false

  -- A token with these claims that is signed with the secret.
  pub record Signed (bearer_token secret : Text) : Type 0 where
    pub key : web.Uuid
    pub is_key : web.parse_uuid secret ≡ ok key
    pub key_bytes : Text
    pub are_bytes : web.marshal_binary key ≡ ok key_bytes
    pub token : web.tokens.Token
    pub is_token : web.tokens.parse g.unix bearer_token (validator web key_bytes) methods ≡ ok token
    pub claims : Claims token

  module _ {b : Backend} where
    recent_sound :
        (token : web.tokens.Token) (s : Http b) (at : Option ℤ)
        → web.tokens.issuer token ≡ ok client_id
        → web.tokens.subject token ≡ ok profile_id
        → web.tokens.issued_at token ≡ ok at
        → (check_issued_at web g at s).0 ≡ done true
        → Claims token
    unfolding check_issued_at
    recent_sound token s none from about issued = λ bad. absurd (cc bad)
    recent_sound token s (some at) from about issued = elim (Bool-cases (too_far_off g.unix at)) [
      | inl far ↦ rw (far) (λ bad. absurd (cc bad))
      | inr near ↦ λ good. record {
        from_client = from;
        about_profile = about;
        at = at;
        issued = issued;
        recent = near;
      }
    ]

    check_claims_sound :
        (token : web.tokens.Token) (s : Http b)
        → (check_claims web g token client_id profile_id s).0 ≡ done true
        → Claims token
    unfolding check_claims
    check_claims_sound token s = elim (Result-cases (web.tokens.issuer token)) [
      | inr (x, e) ↦ rw (e, check_claims) (λ bad. absurd (cc bad))
      | inl (i, e) ↦
          rw (e, check_claims)
            (ite_intro {A = Outcome Bool × Http b} (λ r. r.0 ≡ done true → Claims token)
              (text_discrete i client_id)
              (λ from. elim (Result-cases (web.tokens.subject token)) [
                | inr (x, f) ↦ rw (f) (λ bad. absurd (cc bad))
                | inl (j, f) ↦ rw (f) (
                    ite_intro {A = Outcome Bool × Http b} (λ r. r.0 ≡ done true → Claims token)
                      (text_discrete j profile_id)
                      (λ about. elim (Result-cases (web.tokens.issued_at token)) [
                        | inr (x, h) ↦ rw (h) (λ bad. absurd (cc bad))
                        | inl (at, h) ↦ rw (h) (recent_sound token s at (cc) (cc) h)
                      ])
                      (λ other bad. absurd (cc bad)))
              ])
              (λ other bad. absurd (cc bad)))
    ]

    check_claims_complete :
        (token : web.tokens.Token) (s : Http b)
        → Claims token
        → check_claims web g token client_id profile_id s ≡ (done true, s)
    unfolding check_claims check_issued_at
    check_claims_complete token s h =
        ground (arith, h.from_client, h.about_profile, h.issued, h.recent)

    authenticate_jwt_sound :
        (bearer_token secret : Text) (s : Http b)
        → (authenticate_jwt web g bearer_token client_id profile_id secret s).0 ≡ done true
        → Signed bearer_token secret
    unfolding authenticate_jwt
    authenticate_jwt_sound bearer_token secret s = elim (Result-cases (web.parse_uuid secret)) [
      | inr (x, e) ↦ rw (e, authenticate_jwt) (λ bad. absurd (cc bad))
      | inl (key, e) ↦ elim (Result-cases (web.marshal_binary key)) [
        | inr (x, f) ↦ rw (e, authenticate_jwt, f) (λ bad. absurd (cc bad))
        | inl (bytes, f) ↦
            elim (Result-cases
              (web.tokens.parse g.unix bearer_token (validator web bytes) methods)) [
                | inr (x, h) ↦ rw (e, authenticate_jwt, f, h) (λ bad. absurd (cc bad))
                | inl (token, h) ↦
                    rw (e, authenticate_jwt, f, h)
                      (λ good. record {
                        key = key;
                        is_key = e;
                        key_bytes = bytes;
                        are_bytes = f;
                        token = token;
                        is_token = h;
                        claims = check_claims_sound token s good;
                      })
              ]
      ]
    ]

    authenticate_jwt_complete :
        (bearer_token secret : Text) (s : Http b)
        → Signed bearer_token secret
        → authenticate_jwt web g bearer_token client_id profile_id secret s ≡ (done true, s)
    unfolding authenticate_jwt
    authenticate_jwt_complete bearer_token secret s h =
        rw (h.is_key, authenticate_jwt, h.are_bytes, h.is_token)
          (check_claims_complete h.token s h.claims)

-- A request with the two headers and a token, for a profile whose secret signed the token.
pub record Admissible (b : Backend) (web : Web) (g : Given) (c : Request) (s : Http b) (p : Profile)
    : Type 0 where
  pub has_client : c.client_id ≢ []
  pub has_profile : c.profile_id ≢ []
  pub has_token : bearer_length < length c.authorization
  pub is_profile : (get_profile b.store c.profile_id s.server.redis).0 ≡ ok p
  pub signed : Signed web g c.client_id c.profile_id (drop bearer_length c.authorization) p.secret

-- The state after the profile has been read.
abbrev pub profile_read : {b : Backend} → Request → Http b → Http b
profile_read {b} c s = (stored (get_profile b.store c.profile_id) s).1

is_empty-false : (t : Text) → t ≢ [] → is_empty t ≡ false
is_empty-false [] n = absurd (n refl)
is_empty-false (x ∷ t) n = refl

long_not_empty : (t : Text) → bearer_length < length t → is_empty t ≡ false
long_not_empty [] h = absurd (omega arith)
long_not_empty (x ∷ t) h = refl

verdict-some :
    (p q : Profile) (o : Outcome Bool) → verdict q o ≡ done (some p) → (o ≡ done true) × (q ≡ p)
verdict-some p q (done true) e = (refl, cc)
verdict-some p q (done false) e = absurd (cc e)
verdict-some p q panicked e = absurd (cc e)

no_profile-none : {b : Backend} (x : Error) (s : Http b) → (no_profile x s).0 ≡ done none
no_profile-none x s = elim x as (λ k. (no_profile k s).0 ≡ done none) [
  | not_found ↦ refl
  | _ ↦ refl
]

not_empty : (t : Text) → is_empty t ≡ false → t ≢ []
not_empty [] e = λ same. absurd (cc e)
not_empty (x ∷ t) e = λ same. cc

module _ {b : Backend} (web : Web) (g : Given) (c : Request) where
  check_profile_sound :
      (p : Profile) (res : Result Profile) (s : Http b)
      → (check_profile web g c res s).0 ≡ done (some p)
      → (res ≡ ok p)
        × Signed web g c.client_id c.profile_id (drop bearer_length c.authorization) p.secret
  unfolding check_profile
  check_profile_sound p (err x) s e =
      let none_there : done none ≡ done (some p) = sym (no_profile-none x s) ∙ e in
      absurd (cc none_there)
  check_profile_sound p (ok q) s e =
      let (good, same) = verdict-some p q _ e in
      (
        ap ok same,
        subst
            (λ r.
              Signed web g c.client_id c.profile_id (drop bearer_length c.authorization) r.secret)
            same (authenticate_jwt_sound web g c.client_id c.profile_id _ q.secret s good),
      )

  -- A request is admitted for a profile exactly when it names a client and a profile, the profile
  -- is stored, and its token is signed with the profile's secret, claims to be from that client
  -- about that profile, and is of a time that is not too far off. Nothing is answered then.
  pub authenticate_request-admits :
      (s : Http b) (p : Profile)
      → let r = authenticate_request web g c s in
        ((r.0 ≡ done (some p)) → Admissible b web g c s p)
        × (Admissible b web g c s p → r ≡ (done (some p), profile_read c s))
  unfolding authenticate_request check_profile
  authenticate_request-admits s p = (
    elim (Bool-cases (is_empty c.client_id)) [
      | inl e ↦ rw (e, authenticate_request) (λ bad. absurd (cc bad))
      | inr e ↦ elim (Bool-cases (is_empty c.profile_id)) [
        | inl f ↦ rw (e, authenticate_request, f) (λ bad. absurd (cc bad))
        | inr f ↦ elim (Bool-cases (is_empty c.authorization)) [
          | inl h ↦ rw (e, authenticate_request, f, h) (λ bad. absurd (cc bad))
          | inr h ↦ elim (dec_lt bearer_length (length c.authorization)) [
            | no n ↦
                rw
                  (
                    e,
                    authenticate_request,
                    f,
                    h,
                    le→ltb bearer_length (length c.authorization) (omega arith),
                  )
                  (λ bad. absurd (cc bad))
            | yes l ↦
                rw (e, authenticate_request, f, h, lt→ltb bearer_length (length c.authorization) l)
                  (λ good.
                    let (found, signed) = check_profile_sound p _ (profile_read c s) good in
                    record {
                      has_client = not_empty c.client_id e;
                      has_profile = not_empty c.profile_id f;
                      has_token = l;
                      is_profile = found;
                      signed = signed;
                    })
          ]
        ]
      ]
    ],
    λ h.
        rw
          (
            is_empty-false c.client_id h.has_client,
            authenticate_request,
            is_empty-false c.profile_id h.has_profile,
            long_not_empty c.authorization h.has_token,
            lt→ltb bearer_length (length c.authorization) h.has_token,
            h.is_profile,
            check_profile,
            authenticate_jwt_complete web g c.client_id c.profile_id
                (drop bearer_length c.authorization) p.secret (profile_read c s) h.signed,
          )
          refl,
  )
