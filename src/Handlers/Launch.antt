-- ===== src/Handlers/Launch.antt =====
-- Launches, mails with a forgotten password, and shutdowns of a client.
pub mod Unknown
use srv.Prelude.{
  ite, Bool, true, false, ◌||◌, Option, none, some, List, [], ◌∷◌, ◌++◌, Error, external, Result,
  ok, err, Exec, Text, codes, text_discrete, ltb_ℤ, if◌then◌else◌, ℤ, pos, negsuc,
}
use srv.Platform.Orm.Maps.{get_map_value}
use srv.Protocol.Decimal.{atoi}
use srv.Protocol.Content.{new_id}
use srv.Storage.Types.{Profile, email_profile_map}
use srv.Storage.Profile.{get_profile, get_email_profile}
use srv.Storage.Client.{observe_client_launch, observe_client_activity}
use srv.Storage.Users.{create_new_user}
use srv.Lifecycle.Session.{Backend}
use srv.Handlers.Http.{
  Request, Web, Given, Http, Outcome, done, panicked, Mail, Body, nothing, json_object, string,
  answer, challenge, stored, error_text, error_of,
}
use srv.Handlers.Auth.{is_empty, authenticate_request, authenticated, recovered}

-- The port is a number of 16 bits.
abbrev parse_port : Text → Option ℤ
parse_port t = elim (atoi t) [
  | none ↦ none
  | some n ↦ if ltb_ℤ n (negsuc 32767) || ltb_ℤ (pos 32767) n then none else some n
]

-- The value, and the zero value with an error.
abbrev pub or_empty : Result Text → Text
or_empty (ok t) = t
or_empty (err e) = []

abbrev pub failed : Option Error → Bool
failed none = false
failed (some e) = true

module _ {b : Backend} (web : Web) (g : Given) where
  -- The mail is handed on when the environment has all of the account.
  unfoldable pub send_mail : Text → Text → Exec (Http b) (Unit {0})
  send_mail to pw s =
      let mail : Mail = record {
        from = codes "no-reply@whisper-project.com";
        to = to;
        subject = codes "Your Whisper profile information";
        content_type = codes "text/html";
        body =
            codes "As requested, your Whisper profile password is: <pre>" ++ (pw ++ codes "</pre>");
      } in
      let account = web.getenv (codes "SMTP_ACCOUNT") in
      let password = web.getenv (codes "SMTP_PASSWORD") in
      let host = web.getenv (codes "SMTP_HOST") in
      elim (parse_port (web.getenv (codes "SMTP_PORT"))) [
        | none ↦ (err (external 2), s)
        | some port ↦
            if is_empty account || is_empty password || is_empty host
            then (err (external 2), s)
            else (
              web.dial_and_send host port account password mail,
              record s { mails = s.mails ++ mail ∷ [] },
            )
      ]

  -- The launch of a client that does not know its profile.
  unfoldable pub launch_unknown : Request → Text → Http b → Http b
  launch_unknown c email_hash s =
      let (res, s1) = stored (get_email_profile b.store email_hash) s in
      let profile_id = or_empty res in
      if is_empty profile_id
      then (let (created, s2) =
            stored
              (create_new_user b.store g.secret g.random_conversation g.milli
                (new_id (codes "profile-") g.random_profile) c.client_id c.client_type []
                email_hash)
              s1 in
          elim created [
            | err e ↦ answer 500 (error_of e) s2
            | ok p ↦
                answer 201
                  (json_object (
                    (codes "id", string p.id)
                    ∷ (codes "name", string p.name)
                    ∷ (codes "secret", string p.secret)
                    ∷ []))
                  s2
          ])
      else answer 401 (error_text (codes "Provide authorization token")) (challenge profile_id s1)

  -- The observation is a call of the storage with no result.
  abbrev pub observed : (b.store.redis.World → b.store.redis.World) → Http b → Http b
  observed f s = record s { server = record s.server { redis = f s.server.redis } }

  unfoldable pub launch_known : Request → Text → Http b → Http b
  launch_known c email_hash s =
      let (res, s1) = stored (get_email_profile b.store email_hash) s in
      elim res [
        | err e ↦ answer 500 (error_of e) s1
        | ok profile_id ↦
            ite (text_discrete profile_id c.profile_id)
              (authenticated web g c
                (λ p t. answer 200 (json_object ((codes "name", string p.name) ∷ [])) (
                  observed
                    (observe_client_launch b.store g.milli c.client_type c.client_id c.profile_id)
                    t))
                s1)
              (answer 404 (error_text (codes "No user found for the supplied information")) s1)
      ]

  unfoldable pub post_launch : Request → Http b → Http b
  unfolding launch_unknown launch_known
  post_launch c s =
      let (email_hash, e) = web.bind c.body in
      if failed e || is_empty email_hash
      then answer 400 (error_text (codes "Invalid request")) s
      else if is_empty c.profile_id
      then launch_unknown c email_hash s
      else launch_known c email_hash s

  -- The profile of the email: the password is mailed, and an error of that is logged.
  unfoldable pub mail_password : Text → Text → Http b → Http b
  unfolding send_mail
  mail_password email profile_id s =
      if is_empty profile_id
      then answer 404 (error_text (codes "No profile found for email")) s
      else (let (found, s1) = stored (get_profile b.store profile_id) s in
          elim found [
            | err e ↦ answer 500 (error_of e) s1
            | ok p ↦ answer 204 nothing (send_mail email p.secret s1).1
          ])

  -- The decoder of the framework answers for its own error, and then the handler answers too.
  unfoldable pub post_request_email : Request → Http b → Http b
  unfolding mail_password
  post_request_email c s =
      let (email, e) = web.bind c.body in
      let bound = if failed e then answer 400 nothing s else s in
      if failed e || is_empty email
      then answer 400 (error_text (codes "Invalid request")) bound
      else (let (res, s1) =
            stored (get_map_value b.store.redis b.store.prefix email_profile_map (web.sha1 email))
              bound in
          elim res [
            | err x ↦ answer 500 (error_of x) s1
            | ok profile_id ↦ mail_password email profile_id s1
          ])

  -- The activity is recorded when the authentication fails.
  unfoldable pub get_shutdown : Request → Http b → Http b
  unfolding authenticate_request
  get_shutdown c s =
      let (res, s1) = authenticate_request web g c s in
      elim res [
        | panicked ↦ recovered s1
        | done (some p) ↦ s1
        | done none ↦
            answer 204 nothing
              (observed (observe_client_activity b.store g.milli c.client_id (codes "shutdown")) s1)
      ]
