-- ===== src/Pubsub/Session/Presence.antt =====
-- What the status receiver of a session is told.
use srv.Prelude.{
  ◌≡◌, if_intro, refl, sym, ap, ◌∙◌, ite, Bool, Option, none, some, Option-cases, inl, inr, List,
  [], ◌∷◌, ◌++◌, Text, text_discrete, Dict, lookup, insert, lookup-insert, arith,
}
use srv.Pubsub.Interface.{ClientStatus}
use srv.Pubsub.Ably.{PresenceAction}
use srv.Pubsub.Session.{Participant, Session, presence_receiver, attached_after, bool_eq}
use srv.Pubsub.Session.Invariant.{Sound, presence_receiver-Sound}

-- The last status that was sent for a client; the start value if there is none.
unfoldable pub told : Text → Option Bool → List ClientStatus → Option Bool
told k b [] = b
told k b (c ∷ cs) = told k (ite (text_discrete c.client_id k) (some c.is_online) b) cs

attached_of : Option Participant → Option Bool
attached_of none = none
attached_of (some p) = some p.attached

unfoldable pub attached_in : Text → Session → Option Bool
unfolding attached_of
attached_in k s = attached_of (lookup k s.participants)

told-append :
    (k : Text) (b : Option Bool) (cs ds : List ClientStatus)
    → told k b (cs ++ ds) ≡ told k (told k b cs) ds
unfolding told
told-append k b [] ds = refl
told-append k b (c ∷ cs) ds =
    told-append k (ite (text_discrete c.client_id k) (some c.is_online) b) cs ds

unfoldable pub receive_all : List (Text × PresenceAction) → Session → Session
unfolding presence_receiver
receive_all [] s = s
receive_all ((k, action) ∷ ms) s = receive_all ms (presence_receiver k action s)

attached-insert :
    (k j : Text) (p : Participant) (m : Dict Participant)
    → attached_of (lookup j (insert k p m))
      ≡ ite (text_discrete k j) (some p.attached) (attached_of (lookup j m))
unfolding attached_of
attached-insert k j p m = ground (arith, lookup-insert k j p m)

-- What the receiver was told is how the session sees the client.
abbrev pub IsTold : Text → Option Bool → Session → Type 0
IsTold j b s = told j b s.sr ≡ attached_in j s

change_IsTold :
    (k j : Text) (b : Option Bool) (p : Participant) (attached : Bool) (s : Session)
    → p.client_id ≡ k
    → IsTold j b s
    → IsTold j b (record s {
      participants = insert k (record p { attached = attached }) s.participants;
      sr = s.sr ++ record { client_id = p.client_id; is_online = attached } ∷ [];
    })
unfolding attached_in
change_IsTold k j b p attached s e h =
    told-append j b s.sr (record { client_id = p.client_id; is_online = attached } ∷ [])
    ∙ (unfold told in
        (ap (λ x. ite (text_discrete x j) (some attached) (told j b s.sr)) e
          ∙ (ap (λ x. ite (text_discrete k j) (some attached) x) h
              ∙ sym (attached-insert k j (record p { attached = attached }) s.participants))))

step_IsTold :
    (k : Text) (action : PresenceAction) (s : Session) (j : Text) (b : Option Bool)
    → Sound s
    → IsTold j b s
    → IsTold j b (presence_receiver k action s)
unfolding presence_receiver
step_IsTold k action s j b v h = elim (Option-cases (lookup k s.participants)) [
  | inl e ↦ rw (e, presence_receiver) h
  | inr (p, e) ↦
      rw (e, presence_receiver)
        (if_intro (IsTold j b) (bool_eq (attached_after action p.attached) p.attached) h
          (change_IsTold k j b p (attached_after action p.attached) s (v.at k p e).0 h))
]

-- Through any presence messages, in any order and from any clients, in a session whose
-- participants stand under their own ids and can listen if they can whisper: if the last status
-- that the receiver was told of a client is how the session sees the client, it still is
-- afterwards.
pub receive_all-IsTold :
    (ms : List (Text × PresenceAction)) (s : Session) (j : Text) (b : Option Bool)
    → Sound s
    → IsTold j b s
    → IsTold j b (receive_all ms s)
unfolding receive_all
receive_all-IsTold [] s j b v h = h
receive_all-IsTold ((k, action) ∷ ms) s j b v h =
    receive_all-IsTold ms (presence_receiver k action s) j b (presence_receiver-Sound k action s v)
      (step_IsTold k action s j b v h)
