-- ===== src/Pubsub/Session/Invariant.antt =====
-- What the participants of a session always satisfy.
use srv.Prelude.{
  ◌≡◌, refl, Bool, true, false, Option, Option-cases, inl, inr, List, [], ◌∷◌, ◌∷◌, Text, Each,
  Each-insert, Each-delete, lookup, if_intro,
}
use srv.Pubsub.Ably.{Ably, PresenceAction}
use srv.Pubsub.Session.{
  Participant, Session, State, add_whisperer, add_listener, add_wait_lister, remove_client,
  presence_receiver, content_receiver, content_attached, add_new, attached_after, bool_eq,
}

-- A participant stands under its own id, and one that can whisper can listen.
abbrev pub IsSound : Text → Participant → Type 0
IsSound k p = (p.client_id ≡ k) × (p.can_whisper ≡ true → p.can_listen ≡ true)

abbrev pub Sound : Session → Type 0
Sound s = Each IsSound s.participants

-- A presence message keeps it.
pub presence_receiver-Sound :
    (k : Text) (action : PresenceAction) (s : Session)
    → Sound s
    → Sound (presence_receiver k action s)
unfolding presence_receiver
presence_receiver-Sound k action s h = elim (Option-cases (lookup k s.participants)) [
  | inl e ↦ rw (e, presence_receiver) h
  | inr (p, e) ↦
      rw (e, presence_receiver)
        (if_intro (λ m. Sound m) (bool_eq (attached_after action p.attached) p.attached) h
          (Each-insert k _ s.participants (h.at k p e) h))
]

module _ (a : Ably) (k : Text) (s : Session) (w : a.World) (h : Sound s) where
  add_new-Sound :
      (can_whisper can_listen : Bool)
      → (can_whisper ≡ true → can_listen ≡ true)
      → Sound (add_new a can_whisper can_listen k (s, w)).1.0
  unfolding add_new
  add_new-Sound can_whisper can_listen ok_rights =
      Each-insert k _ s.participants (refl, ok_rights) h

  pub add_whisperer-Sound : Sound (add_whisperer a k (s, w)).1.0
  unfolding add_whisperer
  add_whisperer-Sound = elim (Option-cases (lookup k s.participants)) [
    | inl e ↦ rw (e, add_whisperer) (add_new-Sound true true (λ t. t))
    | inr (p, e) ↦
        rw (e, add_whisperer) (Each-insert k _ s.participants ((h.at k p e).0, λ t. refl) h)
  ]

  add_listener-Sound : Sound (add_listener a k (s, w)).1.0
  unfolding add_listener
  add_listener-Sound = elim (Option-cases (lookup k s.participants)) [
    | inl e ↦ rw (e, add_listener) (add_new-Sound false true (λ t. refl))
    | inr (p, e) ↦
        rw (e, add_listener) (Each-insert k _ s.participants ((h.at k p e).0, λ t. refl) h)
  ]

  add_wait_lister-Sound : Sound (add_wait_lister a k (s, w)).1.0
  unfolding add_wait_lister
  add_wait_lister-Sound = elim (Option-cases (lookup k s.participants)) [
    | inl e ↦ rw (e, add_wait_lister) (add_new-Sound false false (λ t. t))
    | inr (p, e) ↦ rw (e, add_wait_lister) h
  ]

  remove_client-Sound : Sound (remove_client a k (s, w)).1.0
  unfolding remove_client
  remove_client-Sound = elim (Option-cases (lookup k s.participants)) [
    | inl e ↦ rw (e, remove_client) h
    | inr (p, e) ↦ rw (e, remove_client) (Each-delete k s.participants h)
  ]

-- What can happen to a session: a call for a client, a presence message, a content message.
pub data Event : Type 0 where
  whisperer listener wait_lister removal : Text → Event
  presence : Text → PresenceAction → Event
  content : Text → Option Text → Event
  attach : Event

unfoldable pub happen : (a : Ably) → Event → State a → State a
happen a (whisperer k) t = (add_whisperer a k t).1
happen a (listener k) t = (add_listener a k t).1
happen a (wait_lister k) t = (add_wait_lister a k t).1
happen a (removal k) t = (remove_client a k t).1
happen a (presence k action) (s, w) = (presence_receiver k action s, w)
happen a (content i payload) (s, w) = (content_receiver i payload s, w)
happen a attach (s, w) = (content_attached s, w)

unfoldable pub history : (a : Ably) → List Event → State a → State a
unfolding happen
history a [] t = t
history a (e ∷ es) t = history a es (happen a e t)

happen-Sound : (a : Ably) (e : Event) (t : State a) → Sound t.0 → Sound (happen a e t).0
unfolding happen
happen-Sound a (whisperer k) (s, w) h = add_whisperer-Sound a k s w h
happen-Sound a (listener k) (s, w) h = add_listener-Sound a k s w h
happen-Sound a (wait_lister k) (s, w) h = add_wait_lister-Sound a k s w h
happen-Sound a (removal k) (s, w) h = remove_client-Sound a k s w h
happen-Sound a (presence k action) (s, w) h = presence_receiver-Sound k action s h
happen-Sound a (content i payload) (s, w) h = unfold content_receiver in h
happen-Sound a attach (s, w) h = unfold content_attached in h

-- If every participant stands under its own id, and whoever can whisper can listen, then this is
-- so after any calls for any clients and any messages, in any order.
pub history-Sound :
    (a : Ably) (es : List Event) (t : State a) → Sound t.0 → Sound (history a es t).0
unfolding history
history-Sound a [] t h = h
history-Sound a (e ∷ es) t h = history-Sound a es (happen a e t) (happen-Sound a e t h)
