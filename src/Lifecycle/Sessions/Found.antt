-- ===== src/Lifecycle/Sessions/Found.antt =====
-- The sessions that a server keeps.
use srv.Prelude.{
  ℕ, ◌≡◌, refl, ap, ◌∙◌, none, some, Option-cases, inl, inr, [], ◌∷◌, ok, Text, Dict, lookup,
  delete, lookup-insert_self, lookup-delete, text_discrete, Result-cases, arith,
}
use srv.Storage.Conversation.{get_conversation}
use srv.Storage.Sessions.{load_session_state}
use srv.Lifecycle.Session.{Backend, Session, start}
use srv.Lifecycle.Sessions.{
  Server, live_of, get_session, started, end_session, end_each, end_all_sessions,
}

ok_inj : {a c : Session} → ok a ≡ ok c → a ≡ c
ok_inj e = cc

module _ (b : Backend) where
  started-kept :
      (id : Text) (s s' : Session) (v : Server b)
      → (started b id s v).0 ≡ ok s'
      → lookup id (started b id s v).1.sessions ≡ some s'
  unfolding started
  started-kept id s s' v = elim (Result-cases (start b (live_of b s v)).0) [
    | inl (u, e) ↦
        rw (e, started) (λ same. lookup-insert_self id _ v.sessions ∙ ap some (ok_inj same))
    | inr (x, e) ↦ rw (e, started) (λ bad. cc)
  ]

  kept :
      (id : Text) (v : Server b) (s : Session)
      → (get_session b id v).0 ≡ ok s
      → lookup id (get_session b id v).1.sessions ≡ some s
  unfolding get_session
  kept id v s = elim (Option-cases (lookup id v.sessions)) [
    | inr (s', e) ↦ rw (e, get_session) (λ same. e ∙ ap some (ok_inj same))
    | inl e ↦ elim (Result-cases (load_session_state b.store id v.redis).0) [
      | inr (x, l) ↦ rw (e, l, get_session) (λ bad. cc)
      | inl (state, l) ↦
          elim (Result-cases
            (get_conversation b.store id (load_session_state b.store id v.redis).1).0) [
              | inr (x, c) ↦ rw (e, l, c, get_session) (λ bad. cc)
              | inl (conversation, c) ↦ rw (e, l, c, get_session) (started-kept id _ s _)
            ]
    ]
  ]

  -- A session that was found or made is found again as it is, and that changes nothing.
  pub get_session-again :
      (id : Text) (s : Session) (v : Server b)
      → (get_session b id v).0 ≡ ok s
      → get_session b id (get_session b id v).1 ≡ (ok s, (get_session b id v).1)
  unfolding get_session
  get_session-again id s v found =
      let there : lookup id (get_session b id v).1.sessions ≡ some s = kept id v s found in
      rw (there, get_session) refl

-- The entries of the map are keyed by the ids of their sessions.
abbrev pub Keyed : Dict Session → Type 0
Keyed [] = Unit
Keyed ((k, s) ∷ rest) = (s.id ≡ k) × Keyed rest

end_session-sessions :
    (b : Backend) (now : ℕ) (s : Session) (v : Server b)
    → (end_session b now s v).1.sessions ≡ delete s.id v.sessions
unfolding end_session
end_session-sessions b now s v = refl

absent_stays : (k j : Text) (m : Dict Session) → lookup j m ≡ none → lookup j (delete k m) ≡ none
absent_stays k j m e = ground (arith, lookup-delete k j m)

end_each-absent :
    (b : Backend) (now : ℕ) (es : Dict Session) (v : Server b) (j : Text)
    → lookup j v.sessions ≡ none
    → lookup j (end_each b now es v).sessions ≡ none
unfolding end_each
end_each-absent b now [] v j h = h
end_each-absent b now ((k, s) ∷ es) v j h =
    end_each-absent b now es (end_session b now s v).1 j
      (ap (lookup j) (end_session-sessions b now s v) ∙ absent_stays s.id j v.sessions h)

-- An id is ended, or was not among the entries.
end_each-ends :
    (b : Backend) (now : ℕ) (es : Dict Session) (v : Server b) (j : Text)
    → Keyed es
    → lookup j v.sessions ≡ lookup j es
    → lookup j (end_each b now es v).sessions ≡ none
unfolding end_each lookup
end_each-ends b now [] v j h e = e
end_each-ends b now ((k, s) ∷ es) v j (own, h) e = elim (text_discrete k j) [
  | yes same ↦ end_each-absent b now es (end_session b now s v).1 j (
      ap (lookup j) (end_session-sessions b now s v)
      ∙ ground (arith, lookup-delete s.id j v.sessions))
  | no other ↦ end_each-ends b now es (end_session b now s v).1 j h (
      ap (lookup j) (end_session-sessions b now s v)
      ∙ ground (arith, lookup-delete s.id j v.sessions))
]

-- When all sessions are ended, each under its own id, no session is left.
pub end_all_sessions-none :
    (b : Backend) (now : ℕ) (v : Server b) (j : Text)
    → Keyed v.sessions
    → lookup j (end_all_sessions b now v).sessions ≡ none
unfolding end_all_sessions
end_all_sessions-none b now v j h = end_each-ends b now v.sessions v j h refl
