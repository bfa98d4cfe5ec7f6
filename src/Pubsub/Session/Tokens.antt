-- ===== src/Pubsub/Session/Tokens.antt =====
-- What the tokens of a session allow, and which calls change it.
use srv.Prelude.{
  append_cancel, sym, ite_self, ◌≡◌, ◌≢◌, refl, ap, ◌∙◌, ite, Bool, true, false, Option, none, some,
  Option-cases, inl, inr, List, [], ◌∷◌, Text, codes, text_discrete, ℕ_discrete, Dict, lookup,
  insert, lookup-insert, lookup-delete, arith,
}
use srv.Pubsub.Ably.{Ably}
use srv.Pubsub.Session.{
  Participant, Session, capabilities, control_id, presence_id, content_id, add_whisperer,
  add_listener, add_wait_lister, remove_client,
}
use srv.Pubsub.Session.Invariant.{IsSound}

has : Text → List Text → Bool
has op [] = false
has op (o ∷ ops) = ite (text_discrete o op) true (has op ops)

-- A capability map allows an operation on a channel.
unfoldable pub grants : Text → Text → List (Text × List Text) → Bool
unfolding has
grants channel op [] = false
grants channel op ((c, ops) ∷ rest) =
    ite (text_discrete c channel) (has op ops) (grants channel op rest)

module _ (id : Text) where
  control_ne_content : control_id id ≢ content_id id
  unfolding control_id content_id
  control_ne_content e = ground (arith, append_cancel id (codes ":control") (codes ":content") e)

  presence_ne_content : presence_id id ≢ content_id id
  unfolding presence_id content_id
  presence_ne_content e = ground (arith, append_cancel id (codes ":presence") (codes ":content") e)

  presence_ne_control : presence_id id ≢ control_id id
  unfolding presence_id control_id
  presence_ne_control e = ground (arith, append_cancel id (codes ":presence") (codes ":control") e)

ops_facts :
    (has (codes "publish") (codes "publish" ∷ codes "subscribe" ∷ []) ≡ true)
    × (has (codes "subscribe") (codes "publish" ∷ codes "subscribe" ∷ []) ≡ true)
    × (has (codes "publish") (codes "subscribe" ∷ []) ≡ false)
    × (has (codes "subscribe") (codes "subscribe" ∷ []) ≡ true)
    × (has (codes "presence") (codes "presence" ∷ []) ≡ true)
unfolding has text_discrete ℕ_discrete
ops_facts = (refl, refl, refl, refl, refl)

-- For a participant that can listen if it can whisper: its token allows to publish on the content
-- channel exactly when it can whisper, and to subscribe to it exactly when it can listen. Every
-- token allows to subscribe to the control channel and to enter the presence channel, none to
-- publish control.
pub token_rights :
    (id : Text) (k : Text) (p : Participant)
    → IsSound k p
    → let caps = capabilities id p in
      (grants (content_id id) (codes "publish") caps ≡ p.can_whisper)
      × (grants (content_id id) (codes "subscribe") caps ≡ p.can_listen)
      × (grants (control_id id) (codes "subscribe") caps ≡ true)
      × (grants (control_id id) (codes "publish") caps ≡ false)
      × (grants (presence_id id) (codes "presence") caps ≡ true)
unfolding capabilities grants
token_rights id k p h =
    let (a, b, c, d, e) = ops_facts in
    let n1 = control_ne_content id in
    let n2 = presence_ne_content id in
    let n3 = presence_ne_control id in
    (ground arith, ground arith, ground arith, ground arith, ground arith)

rights_of : Option Participant → Option (Bool × Bool)
rights_of none = none
rights_of (some p) = some (p.can_whisper, p.can_listen)

-- The rights of a client in a session: to whisper, to listen; none for no participant.
unfoldable pub rights : Text → Session → Option (Bool × Bool)
unfolding rights_of
rights k s = rights_of (lookup k s.participants)

pub whisper_right : Option (Bool × Bool) → Bool
whisper_right none = false
whisper_right (some (w, l)) = w

pub kept_or_none : Option (Bool × Bool) → Option (Bool × Bool)
kept_or_none none = some (false, false)
kept_or_none (some x) = some x

rights-insert :
    (k j : Text) (p : Participant) (m : Dict Participant)
    → rights_of (lookup j (insert k p m))
      ≡ ite (text_discrete k j) (some (p.can_whisper, p.can_listen)) (rights_of (lookup j m))
unfolding rights_of
rights-insert k j p m = ground (arith, lookup-insert k j p m)

module _ (a : Ably) (k j : Text) (s : Session) (w : a.World) where
  whisperer_rights :
      rights j (add_whisperer a k (s, w)).1.0
      ≡ ite (text_discrete k j) (some (true, true)) (rights j s)
  unfolding rights add_whisperer
  whisperer_rights = elim (Option-cases (lookup k s.participants)) [
    | inl e ↦ rw (e, add_whisperer) (rights-insert k j _ s.participants)
    | inr (p, e) ↦ rw (e, add_whisperer) (rights-insert k j _ s.participants)
  ]

  listener_rights :
      rights j (add_listener a k (s, w)).1.0
      ≡ ite (text_discrete k j) (some (whisper_right (rights k s), true)) (rights j s)
  unfolding rights add_listener whisper_right
  listener_rights = elim (Option-cases (lookup k s.participants)) [
    | inl e ↦ rw (e, add_listener) (rights-insert k j _ s.participants)
    | inr (p, e) ↦ rw (e, add_listener) (rights-insert k j _ s.participants)
  ]

  wait_lister_rights :
      rights j (add_wait_lister a k (s, w)).1.0
      ≡ ite (text_discrete k j) (kept_or_none (rights k s)) (rights j s)
  unfolding rights add_wait_lister kept_or_none
  wait_lister_rights = elim (Option-cases (lookup k s.participants)) [
    | inl e ↦ rw (e, add_wait_lister) (rights-insert k j _ s.participants)
    | inr (p, e) ↦
        rw (e, add_wait_lister)
          (sym (ite_self (λ x. rights_of (lookup x s.participants)) k j)
            ∙ ap (λ o. ite (text_discrete k j) (rights_of o) (rights j s)) e)
  ]

  removed_rights :
      rights j (remove_client a k (s, w)).1.0 ≡ ite (text_discrete k j) none (rights j s)
  unfolding rights remove_client
  removed_rights = elim (Option-cases (lookup k s.participants)) [
    | inl e ↦
        rw (e, remove_client)
          (sym (ite_self (λ x. rights_of (lookup x s.participants)) k j)
            ∙ ap (λ o. ite (text_discrete k j) (rights_of o) (rights j s)) e)
    | inr (p, e) ↦ rw (e, remove_client) (ground (arith, lookup-delete k j s.participants))
  ]

-- A whisperer gets both rights; a listener gets the right to listen and keeps a right to whisper
-- that it had; a client put on the waiting list keeps what it had, and has no right if it is new;
-- a removed client is none. No call changes the rights of another client.
pub rights_after :
    (a : Ably) (k j : Text) (s : Session) (w : a.World)
    → (rights j (add_whisperer a k (s, w)).1.0
        ≡ ite (text_discrete k j) (some (true, true)) (rights j s))
      × (rights j (add_listener a k (s, w)).1.0
          ≡ ite (text_discrete k j) (some (whisper_right (rights k s), true)) (rights j s))
      × (rights j (add_wait_lister a k (s, w)).1.0
          ≡ ite (text_discrete k j) (kept_or_none (rights k s)) (rights j s))
      × (rights j (remove_client a k (s, w)).1.0 ≡ ite (text_discrete k j) none (rights j s))
rights_after a k j s w = (
  whisperer_rights a k j s w,
  listener_rights a k j s w,
  wait_lister_rights a k j s w,
  removed_rights a k j s w,
)
