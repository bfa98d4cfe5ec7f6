-- ===== src/Handlers/Routes/Guarded.antt =====
-- The routes that need an authenticated request.
use srv.Prelude.{
  ◌∙◌, ◌≡◌, ◌≢◌, refl, ap, Bool, true, false, Option, none, some, ◌∷◌, [], ◌++◌, inl, inr,
  Result-cases,
}
use srv.Storage.Types.{Profile}
use srv.Lifecycle.Session.{Backend}
use srv.Handlers.Http.{Request, Web, Given, Http, Outcome, done, panicked, nothing}
use srv.Handlers.Auth.{authenticate_request, authenticated, recovered}
use srv.Handlers.Auth.Admission.{profile_read, Admissible, authenticate_request-admits}
use srv.Handlers.Auth.Refusal.{Untouched, Refused, Settled, authenticate_request-Settled}
use srv.Handlers.Launch.{get_shutdown}
use srv.Handlers.Profile.{
  patch_profile, get_whisper_conversations, get_whisper_conversation_id, post_whisper_conversation,
  delete_whisper_conversation, save_patches, list_owned, find_owned, create_bound, delete_owned,
}
use srv.Handlers.Routes.{
  Route, launch, shutdown, profile, request_email, list_conversations, new_conversation,
  conversation_by_name, removed_conversation, dispatch,
}

-- All but the launch of a client, its shutdown, and the mail with a forgotten password.
abbrev pub is_guarded : Route → Bool
is_guarded launch = false
is_guarded shutdown = false
is_guarded request_email = false
is_guarded _ = true

-- The request is admitted for no profile.
abbrev pub NotAdmitted : {b : Backend} → Web → Given → Request → Http b → Type 0
NotAdmitted web g c s = (p : Profile) → (authenticate_request web g c s).0 ≢ done (some p)

-- What a shutdown leaves.
pub data Inverted {b : Backend} (web : Web) (g : Given) (c : Request) (s t : Http b) : Type 0 where
  silent : (p : Profile) → Admissible b web g c s p → t ≡ profile_read c s → Inverted web g c s t
  twice :
      NotAdmitted web g c s
      → (refused : Http b) → Refused s refused
      → t.answers ≡ refused.answers ++ (204, nothing) ∷ []
      → t.server.sessions ≡ s.server.sessions
      → t.server.pubsub ≡ s.server.pubsub
      → t.server.speech ≡ s.server.speech
      → t.mails ≡ s.mails
      → Inverted web g c s t
  broken :
      NotAdmitted web g c s → t.answers ≡ s.answers ++ (500, nothing) ∷ [] → Inverted web g c s t

abbrev TurnedAway : {b : Backend} → Request → Http b → Http b → Type 0
TurnedAway c s t = Untouched c s t × Refused s t

module _ {b : Backend} (web : Web) (g : Given) (c : Request) (s : Http b) where
  read-Untouched : Untouched c s (profile_read c s)
  read-Untouched = record {
    sessions = refl;
    pubsub = refl;
    speech = refl;
    mails = refl;
    redis = inr refl;
  }

  panic-TurnedAway : (t : Http b) → t ≡ profile_read c s → TurnedAway c s (recovered t)
  panic-TurnedAway t e = (
    record {
      sessions = ap (λ v. v.server.sessions) e;
      pubsub = ap (λ v. v.server.pubsub) e;
      speech = ap (λ v. v.server.speech) e;
      mails = ap (λ v. v.mails) e;
      redis = inr (ap (λ v. v.server.redis) e);
    },
    record {
      status = 500;
      body = nothing;
      is_error = inr (inr (inr refl));
      answers = ap (λ v. v.answers ++ (500, nothing) ∷ []) e;
    },
  )

  after_refusal :
      (handler : Profile → Http b → Http b) (r : Outcome (Option Profile) × Http b)
      → Settled c s r
      → ((p : Profile) → r.0 ≢ done (some p))
      → TurnedAway c s
          (elim r.0 [ done (some p) ↦ handler p r.1 | done none ↦ r.1 | panicked ↦ recovered r.1 ])
  after_refusal handler (done (some p), t) h n = absurd (n p refl)
  after_refusal handler (done none, t) h n = h
  after_refusal handler (panicked, t) h n = panic-TurnedAway t h

  authenticated-refuses :
      (handler : Profile → Http b → Http b)
      → NotAdmitted web g c s
      → TurnedAway c s (authenticated web g c handler s)
  unfolding authenticated
  authenticated-refuses handler =
      after_refusal handler (authenticate_request web g c s)
        (authenticate_request-Settled web g c s)

  patch_profile-refuses : NotAdmitted web g c s → TurnedAway c s (patch_profile web g c s)
  unfolding patch_profile
  patch_profile-refuses n = elim (Result-cases (web.bind_map c.body)) [
    | inr (x, e) ↦
        rw (e, patch_profile)
          (
            record {
              sessions = refl;
              pubsub = refl;
              speech = refl;
              mails = refl;
              redis = inl refl;
            },
            record { status = 400; body = _; is_error = inl refl; answers = refl },
          )
    | inl (updates, e) ↦
        rw (e, patch_profile) (authenticated-refuses (save_patches web g updates) n)
  ]

  -- On a guarded route, a request that is admitted for no profile is answered once, with one of the
  -- statuses 400, 401, 403 and 500, and leaves the sessions, the managers and the mails as they
  -- were; of the store at most the profile is read. A panic of the authentication counts as such a
  -- request.
  pub dispatch-refuses :
      (route : Route)
      → is_guarded route ≡ true
      → NotAdmitted web g c s
      → Untouched c s (dispatch web g route c s) × Refused s (dispatch web g route c s)
  unfolding dispatch get_whisper_conversations get_whisper_conversation_id post_whisper_conversation
      delete_whisper_conversation
  dispatch-refuses launch e n = absurd (cc e)
  dispatch-refuses shutdown e n = absurd (cc e)
  dispatch-refuses request_email e n = absurd (cc e)
  dispatch-refuses profile e n = patch_profile-refuses n
  dispatch-refuses list_conversations e n = authenticated-refuses (λ p. list_owned web g c) n
  dispatch-refuses new_conversation e n = authenticated-refuses (λ p. create_bound web g c) n
  dispatch-refuses conversation_by_name e n = authenticated-refuses (λ p. find_owned web g c) n
  dispatch-refuses removed_conversation e n = authenticated-refuses (λ p. delete_owned web g c) n

  -- What follows the authentication runs for an admitted request.
  pub authenticated-admits :
      (handler : Profile → Http b → Http b) (p : Profile)
      → Admissible b web g c s p
      → authenticated web g c handler s ≡ handler p (profile_read c s)
  unfolding authenticated
  authenticated-admits handler p a =
      ap
        (λ r. elim r.0 as (λ x. Http b) [
          | done (some q) ↦ handler q r.1
          | done none ↦ r.1
          | panicked ↦ recovered r.1
        ])
        ((authenticate_request-admits web g c s p).1 a)

  inverted :
      (o : Outcome (Option Profile)) (t : Http b)
      → authenticate_request web g c s ≡ (o, t)
      → Settled c s (o, t)
      → Inverted web g c s (get_shutdown web g c s)
  unfolding get_shutdown
  inverted (done (some p)) t e same =
      let admitted = (authenticate_request-admits web g c s p).0 (ap (λ r. r.0) e) in
      rw (e, get_shutdown) (silent p admitted (ap (λ r. r.1) e ∙ same))
  inverted (done none) t e (untouched, refused) =
      let no : NotAdmitted web g c s = λ p admitted. absurd (cc (e, admitted)) in
      rw (e, get_shutdown)
        (twice no t refused (ap (λ r. r.1.answers ++ (204, nothing) ∷ []) e)
          (ap (λ r. r.1.server.sessions) e ∙ untouched.sessions)
          (ap (λ r. r.1.server.pubsub) e ∙ untouched.pubsub)
          (ap (λ r. r.1.server.speech) e ∙ untouched.speech)
          (ap (λ r. r.1.mails) e ∙ untouched.mails))
  inverted panicked t e same =
      let no : NotAdmitted web g c s = λ p admitted. absurd (cc (e, admitted)) in
      rw (e, get_shutdown)
        (broken no (
          ap (λ r. r.1.answers ++ (500, nothing) ∷ []) e
          ∙ ap (λ u. u.answers ++ (500, nothing) ∷ []) same))

  -- The check of a shutdown is inverted. For every request one of three holds: it is admitted, and
  -- then nothing is answered, and nothing is done but the read of the profile; or it is admitted
  -- for no profile, and then the refusal with one of the statuses 400, 401, 403 and 500 is followed
  -- by a second answer with the status 204, and the sessions, the managers and the mails stay as
  -- they were; or the authentication panics, which is answered 500.
  pub get_shutdown-Inverted : Inverted web g c s (get_shutdown web g c s)
  get_shutdown-Inverted =
      let r = authenticate_request web g c s in
      inverted r.0 r.1 refl (authenticate_request-Settled web g c s)
