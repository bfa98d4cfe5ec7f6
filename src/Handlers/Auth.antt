-- ===== src/Handlers/Auth.antt =====
-- Who makes a request: the headers, the profile and the token.
pub mod Admission
pub mod Refusal
pub mod Fresh
use srv.Prelude.{
  ite, Bool, true, false, ◌||◌, Option, none, some, List, [], ◌∷◌, Error, not_found, Result, ok,
  err, external, Text, codes, text_discrete, length, drop, ltb, ltb_ℤ, if◌then◌else◌, ℤ, pos,
  negsuc, sub_int64, ℕ,
}
use srv.Storage.Types.{Profile}
use srv.Storage.Profile.{get_profile}
use srv.Lifecycle.Session.{Backend}
use srv.Handlers.Http.{
  Request, Web, Given, Http, Outcome, done, panicked, nothing, answer, challenge, stored,
  error_text,
}

abbrev pub is_empty : Text → Bool
is_empty [] = true
is_empty (c ∷ t) = false

-- `len("Bearer ")`
abbrev pub bearer_length : ℕ
bearer_length = 7

abbrev pub methods : List Text
methods = codes "HS256" ∷ codes "HS384" ∷ codes "HS512" ∷ []

-- Five minutes to either side, of a difference that may wrap around.
unfoldable pub too_far_off : ℕ → ℤ → Bool
too_far_off unix issued_at =
    let age = sub_int64 (pos unix) issued_at in ltb_ℤ age (negsuc 299) || ltb_ℤ (pos 300) age

-- A verdict on the token, for the profile.
abbrev pub verdict : Profile → Outcome Bool → Outcome (Option Profile)
verdict p (done true) = done (some p)
verdict p (done false) = done none
verdict p panicked = panicked

-- The key of the signature, for a token whose method is one of the HMACs.
unfoldable pub validator : (web : Web) → Text → web.tokens.Token → Result Text
validator web key_bytes token = if web.tokens.is_hmac token then ok key_bytes else err (external 1)

module _ {b : Backend} where
  abbrev refuse : {A : Type 0} → A → ℕ → Text → Http b → Outcome A × Http b
  refuse a status text s = (done a, answer status (error_text text) s)

  abbrev invalid_token : Http b → Outcome Bool × Http b
  invalid_token = refuse false 403 (codes "invalid bearer token")

  abbrev pub no_profile : Error → Http b → Outcome (Option Profile) × Http b
  no_profile not_found = refuse none 403 (codes "profile not found")
  no_profile _ = refuse none 500 (codes "database failure")

  -- What the engine answers when a handler panics.
  abbrev pub recovered : Http b → Http b
  recovered = answer 500 nothing

module _ {b : Backend} (web : Web) (g : Given) where
  -- A token without the time it was issued at makes the code read through a nil pointer.
  unfoldable pub check_issued_at : Option ℤ → Http b → Outcome Bool × Http b
  unfolding too_far_off
  check_issued_at none s = (panicked, s)
  check_issued_at (some issued_at) s =
      if too_far_off g.unix issued_at then invalid_token s else (done true, s)

  unfoldable pub check_claims : web.tokens.Token → Text → Text → Http b → Outcome Bool × Http b
  unfolding check_issued_at
  check_claims token client_id profile_id s = elim (web.tokens.issuer token) [
    | err e ↦ invalid_token s
    | ok issuer ↦
        ite (text_discrete issuer client_id)
          (elim (web.tokens.subject token) [
            | err e ↦ invalid_token s
            | ok subject ↦
                ite (text_discrete subject profile_id)
                  (elim (web.tokens.issued_at token) [
                    | err e ↦ invalid_token s
                    | ok issued_at ↦ check_issued_at issued_at s
                  ])
                  (invalid_token s)
          ])
          (invalid_token s)
  ]

  unfoldable pub authenticate_jwt : Text → Text → Text → Text → Http b → Outcome Bool × Http b
  unfolding validator check_claims
  authenticate_jwt bearer_token client_id profile_id secret s = elim (web.parse_uuid secret) [
    | err e ↦ refuse false 500 (codes "server data is corrupt - please report a bug!") s
    | ok key ↦ elim (web.marshal_binary key) [
      | err e ↦ refuse false 500 (codes "server behavior is corrupt - please report a bug!") s
      | ok key_bytes ↦
          elim (web.tokens.parse g.unix bearer_token (validator web key_bytes) methods) [
            | err e ↦ invalid_token s
            | ok token ↦ check_claims token client_id profile_id s
          ]
    ]
  ]

  -- The token against the profile that was read.
  unfoldable pub check_profile :
      Request → Result Profile → Http b → Outcome (Option Profile) × Http b
  unfolding authenticate_jwt
  check_profile c (err e) s = no_profile e s
  check_profile c (ok p) s =
      let (res, s1) =
        authenticate_jwt (drop bearer_length c.authorization) c.client_id c.profile_id p.secret s in
      (verdict p res, s1)

  -- A profile, or none when the request has been answered.
  unfoldable pub authenticate_request : Request → Http b → Outcome (Option Profile) × Http b
  unfolding check_profile
  authenticate_request c s =
      if is_empty c.client_id || is_empty c.profile_id
      then refuse none 400 (codes "missing identification header") s
      else if is_empty c.authorization
      then refuse none 401 (codes "Provide an authorization token") (challenge c.profile_id s)
      else if ltb bearer_length (length c.authorization)
      then (let (res, s1) = stored (get_profile b.store c.profile_id) s in check_profile c res s1)
      else refuse none 403 (codes "invalid bearer token") s

  -- `p := AuthenticateRequest(c); if p == nil { return }`, and what follows. The recovery of the
  -- engine answers for a panic.
  unfoldable pub authenticated : Request → (Profile → Http b → Http b) → Http b → Http b
  unfolding authenticate_request
  authenticated c handler s =
      let (res, s1) = authenticate_request c s in
      elim res [ done (some p) ↦ handler p s1 | done none ↦ s1 | panicked ↦ recovered s1 ]
