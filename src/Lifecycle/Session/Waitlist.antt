-- ===== src/Lifecycle/Session/Waitlist.antt =====
-- Who waits, who takes part, and what the calls change of that.
use srv.Prelude.{
  ◌≡◌, refl, ap, ◌∙◌, ite, Bool, true, false, Option, Option-cases, none, some, inl, inr, List, [],
  ◌∷◌, ◌++◌, already_present, not_present, Result-cases, ok, err, Text, text_discrete, lookup,
  lookup-delete, arith, if◌then◌else◌, ℕ, Bool-cases, if_intro, ite_intro, ltb, length,
  lookup-insert_self,
}
use srv.Storage.Types.{Participant}
use srv.Storage.Sessions
use srv.Lifecycle.Session.{
  set_waitlist, Backend, Session, Live, is_waiting, remove_waiting, add_listener,
  add_listener_request, remove_client, whisperer_online, notify_needs_auth, new_participant,
}

-- No client waits twice.
abbrev pub Distinct : List Participant → Type 0
Distinct [] = Unit
Distinct (p ∷ ps) = (is_waiting p.client_id ps ≡ false) × Distinct ps

waiting_append :
    (k : Text) (ps : List Participant) (p : Participant)
    → is_waiting k (ps ++ p ∷ []) ≡ ite (text_discrete p.client_id k) true (is_waiting k ps)
unfolding is_waiting
waiting_append k [] p = refl
waiting_append k (q ∷ ps) p = ground (arith, waiting_append k ps p)

pub Distinct-append :
    (ps : List Participant) (p : Participant)
    → Distinct ps
    → is_waiting p.client_id ps ≡ false
    → Distinct (ps ++ p ∷ [])
unfolding is_waiting
Distinct-append [] p d h = (refl, tt)
Distinct-append (q ∷ ps) p (f, d) h =
    (ground (arith, waiting_append q.client_id ps p), Distinct-append ps p d (ground arith))

waiting-remove :
    (k j : Text) (ps : List Participant)
    → Distinct ps
    → is_waiting j (remove_waiting k ps) ≡ ite (text_discrete k j) false (is_waiting j ps)
unfolding is_waiting remove_waiting
waiting-remove k j [] d = ground arith
waiting-remove k j (p ∷ ps) (f, d) = ground (arith, waiting-remove k j ps d)

pub Distinct-remove :
    (k : Text) (ps : List Participant) → Distinct ps → Distinct (remove_waiting k ps)
unfolding is_waiting remove_waiting
Distinct-remove k [] d = tt
Distinct-remove k (p ∷ ps) (f, d) =
    ite_intro Distinct (text_discrete p.client_id k) (λ e. d)
      (λ n. (ground (arith, waiting-remove k p.client_id ps d), Distinct-remove k ps d))

abbrev seen : Option Participant → Bool
seen none = false
seen (some p) = true

unfoldable pub is_participant : Text → Session → Bool
is_participant k s = seen (lookup k s.state.participants)

waits_already :
    (k j : Text) (ps : List Participant)
    → is_waiting k ps ≡ true
    → is_waiting j ps ≡ ite (text_discrete k j) true (is_waiting j ps)
waits_already k j ps e = ground arith

waits_not :
    (k j : Text) (ps : List Participant)
    → is_waiting k ps ≡ false
    → is_waiting j ps ≡ ite (text_discrete k j) false (is_waiting j ps)
waits_not k j ps e = ground arith

module _ (b : Backend) where
  pub notify_state : (t : Live b) → (notify_needs_auth b t).session ≡ t.session
  unfolding notify_needs_auth
  notify_state t =
      if_intro {A = Live b} (λ u. u.session ≡ t.session) (ltb 0 (length t.session.state.waitlist))
        (if_intro {A = Live b} (λ u. u.session ≡ t.session)
          (whisperer_online t.session.state.participants) refl refl)
        refl

  pub new_participant-waitlist :
      (now : ℕ) (k profile name : Text) (w : Bool) (t : Live b)
      → (new_participant b now k profile name w t).1.session.state.waitlist
        ≡ t.session.state.waitlist
  unfolding new_participant
  new_participant-waitlist now k profile name w t =
      elim (Option-cases (lookup k t.session.state.participants)) [
        | inl e ↦ rw (e, new_participant) refl
        | inr (p, e) ↦ rw (e, new_participant) refl
      ]

  new_participant-joins :
      (now : ℕ) (k profile name : Text) (w : Bool) (t : Live b)
      → is_participant k (new_participant b now k profile name w t).1.session ≡ true
  unfolding new_participant is_participant
  new_participant-joins now k profile name w t =
      elim (Option-cases (lookup k t.session.state.participants)) [
        | inl e ↦
            rw (e, new_participant) (ap seen (lookup-insert_self k _ t.session.state.participants))
        | inr (p, e) ↦ rw (e, new_participant) (rw e refl)
      ]

  -- In a session where no client waits twice, a client that is added as a listener takes part and
  -- waits no more, whether or not the call fails, and everybody else waits who waited.
  pub add_listener-approves :
      (now : ℕ) (k profile name : Text) (t : Live b)
      → Distinct t.session.state.waitlist
      → let after = (add_listener b now k profile name t).1.session in
        (is_participant k after ≡ true)
        × ((j : Text)
            → is_waiting j after.state.waitlist
              ≡ ite (text_discrete k j) false (is_waiting j t.session.state.waitlist))
  unfolding add_listener
  add_listener-approves now k profile name t d = (
    new_participant-joins now k profile name false _,
    λ j.
        ap (is_waiting j) (new_participant-waitlist now k profile name false _)
        ∙ waiting-remove k j t.session.state.waitlist d,
  )

  -- A request to listen fails exactly if the client waits already. Either way the client waits
  -- afterwards, everybody else waits who waited, and who takes part stays the same.
  pub add_listener_request-waits :
      (now : ℕ) (k profile name : Text) (t : Live b)
      → let before = t.session.state in
        let after = add_listener_request b now k profile name t in
        (after.0 ≡ (if is_waiting k before.waitlist then err already_present else ok tt))
        × (after.1.session.state.participants ≡ before.participants)
        × ((j : Text)
            → is_waiting j after.1.session.state.waitlist
              ≡ ite (text_discrete k j) true (is_waiting j before.waitlist))
  unfolding add_listener_request Sessions.new_participant
  add_listener_request-waits now k profile name t =
      let p = Sessions.new_participant now k profile name false in
      let u = set_waitlist (t.session.state.waitlist ++ p ∷ []) t in
      elim (Bool-cases (is_waiting k t.session.state.waitlist)) [
        | inl e ↦
            rw (e, add_listener_request)
              (refl, refl, λ j. waits_already k j t.session.state.waitlist e)
        | inr e ↦
            rw (e, add_listener_request)
              (
                refl,
                ap (λ s. s.state.participants) (notify_state u),
                λ j.
                    ap (λ s. is_waiting j s.state.waitlist) (notify_state u)
                    ∙ waiting_append j t.session.state.waitlist _,
              )
      ]

  -- Removing a client that takes part gives the answer of the manager. If that is no error the
  -- client takes part no more and everybody else does as before, else nobody leaves; who waits
  -- stays the same.
  pub remove_client-participant :
      (k : Text) (p : Participant) (t : Live b)
      → lookup k t.session.state.participants ≡ some p
      → let before = t.session.state in
        let after = remove_client b k t in
        let asked = (b.manager.remove_client t.session.id k t.pubsub).0 in
        (after.0 ≡ asked)
        × (after.1.session.state.waitlist ≡ before.waitlist)
        × ((j : Text)
            → lookup j after.1.session.state.participants ≡ elim asked [
              | ok _ ↦ ite (text_discrete k j) none (lookup j before.participants)
              | err _ ↦ lookup j before.participants
            ])
  unfolding remove_client
  remove_client-participant k p t e =
      elim (Result-cases (b.manager.remove_client t.session.id k t.pubsub).0) [
        | inl (u, r) ↦
            rw (e, r, remove_client)
              (refl, refl, λ j. lookup-delete k j t.session.state.participants)
        | inr (x, r) ↦ rw (e, r, remove_client) (refl, refl, λ j. refl)
      ]

  -- In a session where no client waits twice, removing a client that does not take part asks the
  -- manager nothing and fails exactly if the client does not wait either. The client waits no more,
  -- everybody else waits who waited, and who takes part stays the same.
  pub remove_client-absent :
      (k : Text) (t : Live b)
      → lookup k t.session.state.participants ≡ none
      → Distinct t.session.state.waitlist
      → let before = t.session.state in
        let after = remove_client b k t in
        (after.0 ≡ (if is_waiting k before.waitlist then ok tt else err not_present))
        × (after.1.session.state.participants ≡ before.participants)
        × (after.1.pubsub ≡ t.pubsub)
        × ((j : Text)
            → is_waiting j after.1.session.state.waitlist
              ≡ ite (text_discrete k j) false (is_waiting j before.waitlist))
  unfolding remove_client
  remove_client-absent k t e d = elim (Bool-cases (is_waiting k t.session.state.waitlist)) [
    | inl w ↦
        rw (e, w, remove_client)
          (refl, refl, refl, λ j. waiting-remove k j t.session.state.waitlist d)
    | inr w ↦
        rw (e, w, remove_client) (refl, refl, refl, λ j. waits_not k j t.session.state.waitlist w)
  ]
