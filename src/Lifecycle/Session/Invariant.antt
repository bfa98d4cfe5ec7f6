-- ===== src/Lifecycle/Session/Invariant.antt =====
-- What every session keeps, whatever is called.
use srv.Prelude.{
  ℕ, ◌≡◌, refl, sym, subst, Bool, Bool-cases, true, false, Option-cases, inl, inr, List, [], ◌∷◌,
  ◌++◌, Result, Result-cases, Text, Each, Each-insert, Each-delete, lookup, insert, if_intro,
}
use srv.Storage.Sessions
use srv.Pubsub.Interface.{ClientStatus}
use srv.Lifecycle.Session.{
  Backend, Session, Live, is_waiting, remove_waiting, set_waitlist, set_participants, add_whisperer,
  add_listener, add_listener_request, remove_client, monitor_participants, notify_needs_auth,
  new_participant,
}
use srv.Lifecycle.Session.Waitlist.{Distinct, Distinct-append, Distinct-remove, notify_state}

-- No client waits twice, and every participant stands under its own id.
pub record Sound (s : Session) : Type 0 where
  pub waitlist : Distinct s.state.waitlist
  pub participants : Each (λ k p. p.client_id ≡ k) s.state.participants

-- A call for a client, with the time, the profile and the name, or a status that came in.
pub data Event : Type 0 where
  whisperer listener request : ℕ → Text → Text → Text → Event
  removal : Text → Event
  status : ClientStatus → Event

unfoldable pub happen : (b : Backend) → Event → Live b → Live b
happen b (whisperer now k profile name) t = (add_whisperer b now k profile name t).1
happen b (listener now k profile name) t = (add_listener b now k profile name t).1
happen b (request now k profile name) t = (add_listener_request b now k profile name t).1
happen b (removal k) t = (remove_client b k t).1
happen b (status s) t = monitor_participants b s t

unfoldable pub history : (b : Backend) → List Event → Live b → Live b
unfolding happen
history b [] t = t
history b (e ∷ es) t = history b es (happen b e t)

module _ (b : Backend) where
  new_participant-Sound :
      (now : ℕ) (k profile name : Text) (w : Bool) (t : Live b)
      → Sound t.session
      → Sound (new_participant b now k profile name w t).1.session
  unfolding new_participant Sessions.new_participant
  new_participant-Sound now k profile name w t h =
      elim (Option-cases (lookup k t.session.state.participants)) [
        | inr (p, e) ↦ rw (e, new_participant) h
        | inl e ↦
            rw (e, new_participant)
              (record {
                waitlist = h.waitlist;
                participants = Each-insert k _ t.session.state.participants refl h.participants;
              })
      ]

  notify-Sound : (t : Live b) → Sound t.session → Sound (notify_needs_auth b t).session
  notify-Sound t h = subst Sound (sym (notify_state b t)) h

  add_listener_request-Sound :
      (now : ℕ) (k profile name : Text) (t : Live b)
      → Sound t.session
      → Sound (add_listener_request b now k profile name t).1.session
  unfolding add_listener_request Sessions.new_participant
  add_listener_request-Sound now k profile name t h =
      elim (Bool-cases (is_waiting k t.session.state.waitlist)) [
        | inl e ↦ rw (e, add_listener_request) h
        | inr e ↦
            let p = Sessions.new_participant now k profile name false in
            rw (e, add_listener_request)
              (notify-Sound (set_waitlist (t.session.state.waitlist ++ p ∷ []) t) (record {
                waitlist = Distinct-append t.session.state.waitlist p h.waitlist e;
                participants = h.participants;
              }))
      ]

  remove_client-Sound :
      (k : Text) (t : Live b) → Sound t.session → Sound (remove_client b k t).1.session
  unfolding remove_client
  remove_client-Sound k t h = elim (Option-cases (lookup k t.session.state.participants)) [
    | inl e ↦
        let gone : Sound (set_waitlist (remove_waiting k t.session.state.waitlist) t).session =
          record {
            waitlist = Distinct-remove k t.session.state.waitlist h.waitlist;
            participants = h.participants;
          } in
        rw (e, remove_client)
          (if_intro {A = Result (Unit {0}) × Live b} (λ r. Sound r.1.session)
            (is_waiting k t.session.state.waitlist) gone h)
    | inr (p, e) ↦ elim (Result-cases (b.manager.remove_client t.session.id k t.pubsub).0) [
      | inr (x, r) ↦ rw (e, r, remove_client) h
      | inl (u, r) ↦
          rw (e, r, remove_client)
            (record {
              waitlist = h.waitlist;
              participants = Each-delete k t.session.state.participants h.participants;
            })
    ]
  ]

  monitor_participants-Sound :
      (s : ClientStatus) (t : Live b) → Sound t.session → Sound (monitor_participants b s t).session
  unfolding monitor_participants
  monitor_participants-Sound s t h =
      elim (Option-cases (lookup s.client_id t.session.state.participants)) [
        | inl e ↦ rw (e, monitor_participants) h
        | inr (p, e) ↦
            let q = record p { is_online = s.is_online } in
            let ps = insert s.client_id q t.session.state.participants in
            let known : Sound (set_participants ps t).session = record {
              waitlist = h.waitlist;
              participants =
                  Each-insert s.client_id q t.session.state.participants
                    (h.participants.at s.client_id p e) h.participants;
            } in
            let told = notify-Sound (set_participants ps t) known in
            rw (e, monitor_participants)
              (if_intro {A = Live b} (λ u. Sound u.session) p.is_whisperer
                (if_intro {A = Live b} (λ u. Sound u.session) s.is_online told known) known)
      ]

happen-Sound :
    (b : Backend) (e : Event) (t : Live b) → Sound t.session → Sound (happen b e t).session
unfolding happen add_whisperer add_listener
happen-Sound b (whisperer now k profile name) t h =
    notify-Sound b _ (new_participant-Sound b now k profile name true t h)
happen-Sound b (listener now k profile name) t h =
    new_participant-Sound b now k profile name false _ (record {
      waitlist = Distinct-remove k t.session.state.waitlist h.waitlist;
      participants = h.participants;
    })
happen-Sound b (request now k profile name) t h =
    add_listener_request-Sound b now k profile name t h
happen-Sound b (removal k) t h = remove_client-Sound b k t h
happen-Sound b (status s) t h = monitor_participants-Sound b s t h

-- If no client waits twice and every participant stands under its own id, then this is so after
-- any calls for any clients and any statuses that come in, in any order, whatever the pubsub
-- manager answers.
pub history-keeps_Sound :
    (b : Backend) (es : List Event) (t : Live b) → Sound t.session → Sound (history b es t).session
unfolding history
history-keeps_Sound b [] t h = h
history-keeps_Sound b (e ∷ es) t h = history-keeps_Sound b es (happen b e t) (happen-Sound b e t h)
