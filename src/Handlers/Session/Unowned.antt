-- ===== src/Handlers/Session/Unowned.antt =====
-- A session of a conversation that the profile does not own.
use srv.Prelude.{
  ◌≡◌, refl, ap, subst, ◌∙◌, sym, Bool, true, false, none, some, [], ◌∷◌, ◌++◌, ok, codes, lookup,
  lookup-insert_self, insert,
}
use srv.Storage.Types.{Profile, Participant}
use srv.Storage.Conversation.{is_owned_conversation}
use srv.Storage.Sessions
use srv.Lifecycle.Session.{Backend, Session, Live, add_whisperer, new_participant, set_participants}
use srv.Lifecycle.Session.Waitlist.{notify_state}
use srv.Lifecycle.Sessions.{Server, live_of, get_session}
use srv.Handlers.Http.{Request, Web, Given, Http, error_text, answer}
use srv.Handlers.Auth.Admission.{Admissible, profile_read}
use srv.Handlers.Routes.Guarded.{authenticated-admits}
use srv.Handlers.Session.{
  on_session, whisper, whisper_in, whisper_admitted, status_ok, start_whisper_session,
}

-- The client is in the session as a whisperer of the profile.
pub record IsWhispering (b : Backend) (c : Request) (p : Profile) (v : Server b) : Type 0 where
  pub session : Session
  pub is_kept : lookup c.conversation_id v.sessions ≡ some session
  pub participant : Participant
  pub is_there : lookup c.client_id session.state.participants ≡ some participant
  pub whispers : participant.is_whisperer ≡ true
  pub is_profile : participant.profile_id ≡ p.id

module _ {b : Backend} (web : Web) (g : Given) (c : Request) (p : Profile) where
  joined-whisperer :
      (x : Session) (t : Live b) (online : Bool)
      → lookup c.client_id t.session.state.participants ≡ none
      → (b.manager.add_whisperer t.session.id c.client_id t.pubsub).0 ≡ ok online
      → let r = add_whisperer b g.milli c.client_id p.id p.name t in
        (r.0 ≡ ok tt)
        × ((q : Participant) × (lookup c.client_id r.1.session.state.participants ≡ some q)
            × (q.is_whisperer ≡ true)
            × (q.profile_id ≡ p.id))
  unfolding add_whisperer new_participant Sessions.new_participant
  joined-whisperer x t online free joined =
      let q = record (Sessions.new_participant g.milli c.client_id p.id p.name true) {
        is_online = online;
      } in
      let w = (b.manager.add_whisperer t.session.id c.client_id t.pubsub).1 in
      rw (free, add_whisperer, new_participant, joined)
        (
          refl,
          (
            q,
            ap (λ s. lookup c.client_id s.state.participants)
                  (notify_state b (
                    set_participants (insert c.client_id q t.session.state.participants)
                      (record t { pubsub = w })))
                ∙ lookup-insert_self c.client_id q t.session.state.participants,
            refl,
            refl,
          ),
        )

  whisper_in-joins :
      (s : Http b) (x : Session) (online : Bool)
      → lookup c.client_id x.state.participants ≡ none
      → (b.manager.add_whisperer x.id c.client_id s.server.pubsub).0 ≡ ok online
      → let r = whisper_in web g c p (ok x) s in
        (r.answers ≡ s.answers ++ (200, status_ok) ∷ []) × IsWhispering b c p r.server
  unfolding whisper_in on_session
  whisper_in-joins s x online free joined =
      let (fine, (q, there, w, id)) =
        joined-whisperer x (live_of b x s.server) online free joined in
      rw (fine, whisper_in, on_session)
        (
          refl,
          record {
            session =
                (add_whisperer b g.milli c.client_id p.id p.name (live_of b x s.server)).1.session;
            is_kept = lookup-insert_self c.conversation_id _ _;
            participant = q;
            is_there = there;
            whispers = w;
            is_profile = id;
          },
        )

  whisper-joins :
      (s : Http b) (x : Session) (online : Bool)
      → lookup c.conversation_id s.server.sessions ≡ some x
      → lookup c.client_id x.state.participants ≡ none
      → (b.manager.add_whisperer x.id c.client_id s.server.pubsub).0 ≡ ok online
      → let r = whisper web g c p s in
        (r.answers ≡ s.answers ++ (200, status_ok) ∷ []) × IsWhispering b c p r.server
  unfolding whisper get_session
  whisper-joins s x online kept free joined =
      let found : get_session b c.conversation_id s.server ≡ (ok x, s.server) =
        rw (kept, get_session) refl in
      let same : whisper web g c p s ≡ whisper_in web g c p (ok x) s =
        ap (λ r. whisper_in web g c p r.0 (record s { server = r.1 })) found in
      subst (λ r. (r.answers ≡ s.answers ++ (200, status_ok) ∷ []) × IsWhispering b c p r.server)
        (sym same) (whisper_in-joins s x online free joined)

  -- An admitted request to whisper in a conversation that another profile owns, whose session this
  -- server runs without the client in it, and that the manager lets in: the refusal with the status
  -- 400 is answered, and the client whispers in the session all the same, with the answer 200.
  pub start_whisper_session-unowned :
      (s : Http b) (x : Session) (online : Bool)
      → Admissible b web g c s p
      → (is_owned_conversation b.store p.id c.conversation_id (profile_read c s).server.redis).0
        ≡ ok false
      → lookup c.conversation_id s.server.sessions ≡ some x
      → lookup c.client_id x.state.participants ≡ none
      → (b.manager.add_whisperer x.id c.client_id s.server.pubsub).0 ≡ ok online
      → let r = start_whisper_session web g c s in
        (r.answers
          ≡ (s.answers ++ (400, error_text (codes "invalid conversation id")) ∷ [])
            ++ (200, status_ok) ∷ [])
        × IsWhispering b c p r.server
  unfolding start_whisper_session whisper_admitted
  start_whisper_session-unowned s x online a foreign kept free joined =
      let asked = is_owned_conversation b.store p.id c.conversation_id in
      let t = profile_read c s in
      let told =
        answer 400 (error_text (codes "invalid conversation id"))
          (record t { server = record t.server { redis = (asked t.server.redis).1 } }) in
      rw
        (
          authenticated-admits web g c s (whisper_admitted web g c) p a,
          start_whisper_session,
          whisper_admitted,
          foreign,
        )
        (whisper-joins told x online kept free joined)
