-- ===== src/Handlers/Session.antt =====
-- The start of sessions, and tokens for their participants.
pub mod Unowned
use srv.Prelude.{
  Bool, true, false, none, some, [], ◌∷◌, Result, ok, err, Exec, Text, codes, insert, if◌then◌else◌,
}
use srv.Storage.Types.{Profile}
use srv.Storage.Conversation.{is_owned_conversation, is_allowed_listener}
use srv.Lifecycle.Session.{
  Backend, Session, Live, add_whisperer, add_listener, add_listener_request,
}
use srv.Lifecycle.Sessions.{Server, live_of, outside, get_session, authenticate_participant}
use srv.Handlers.Http.{
  Request, Web, Given, Http, Body, json_object, json_token, string, flag, answer, stored, served,
  error_text, error_of,
}
use srv.Handlers.Auth.{authenticated}

abbrev pub status_ok : Body
status_ok = json_object ((codes "status", string (codes "ok")) ∷ [])

abbrev status_allowed : Bool → Body
status_allowed allowed =
    json_object ((codes "status", string (codes "ok")) ∷ (codes "allowed", flag allowed) ∷ [])

module _ {b : Backend} where
  -- A method of a session that the server keeps.
  unfoldable pub on_session : {A : Type 0} → Text → Session → Exec (Live b) A → Exec (Server b) A
  on_session id s m v =
      let (res, t) = m (live_of b s v) in
      (res, record (outside b t v) { sessions = insert id t.session v.sessions })

  -- `if err = …; err != nil { … return }`, and then the answer.
  abbrev answered : Result (Unit {0}) → Body → Http b → Http b
  answered (err e) body = answer 500 (error_of e)
  answered (ok _) body = answer 200 body

module _ {b : Backend} (web : Web) (g : Given) where
  unfoldable pub whisper_in : Request → Profile → Result Session → Http b → Http b
  unfolding on_session
  whisper_in c p (err e) s = answer 500 (error_of e) s
  whisper_in c p (ok session) s =
      let (res, t) =
        served
          (on_session c.conversation_id session (add_whisperer b g.milli c.client_id p.id p.name))
          s in
      answered res status_ok t

  -- The session is started also when the conversation is not owned.
  unfoldable pub whisper : Request → Profile → Http b → Http b
  unfolding whisper_in
  whisper c p s =
      let (found, t) = served (get_session b c.conversation_id) s in whisper_in c p found t

  unfoldable pub whisper_admitted : Request → Profile → Http b → Http b
  unfolding whisper
  whisper_admitted c p s =
      let (is_owned, t) = stored (is_owned_conversation b.store p.id c.conversation_id) s in
      elim is_owned [
        | err e ↦ answer 500 (error_of e) t
        | ok true ↦ whisper c p t
        | ok false ↦ whisper c p (answer 400 (error_text (codes "invalid conversation id")) t)
      ]

  unfoldable pub start_whisper_session : Request → Http b → Http b
  unfolding authenticated whisper_admitted
  start_whisper_session c = authenticated web g c (whisper_admitted c)

  unfoldable pub start_listen_session : Request → Http b → Http b
  unfolding authenticated on_session
  start_listen_session c = authenticated web g c (λ p t.
      let (is_allowed, u) = stored (is_allowed_listener b.store c.conversation_id p.id) t in
      elim is_allowed [
        | err e ↦ answer 500 (error_of e) u
        | ok allowed ↦
            let (found, v) = served (get_session b c.conversation_id) u in
            elim found [
              | err e ↦ answer 500 (error_of e) v
              | ok session ↦
                  let add = if allowed then add_listener b else add_listener_request b in
                  let (res, x) =
                    served
                      (on_session c.conversation_id session (add g.milli c.client_id p.id p.name))
                      v in
                  answered res (status_allowed allowed) x
            ]
      ])

  unfoldable pub get_client_session_token : Request → Http b → Http b
  unfolding authenticated
  get_client_session_token c = authenticated web g c (λ p t.
      let (res, u) = served (authenticate_participant b c.conversation_id c.client_id) t in
      elim res [
        | err e ↦ answer 500 (error_of e) u
        | ok none ↦ answer 403 (error_text (codes "Not a participant in this conversation")) u
        | ok (some token) ↦ answer 200 (json_token token) u
      ])
