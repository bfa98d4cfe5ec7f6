-- ===== src/Lifecycle/Session.antt =====
-- One session: its state, its participants and its end.
pub mod Waitlist
pub mod Invariant
use srv.Prelude.{
  ℕ, ite, Bool, true, false, Option, none, some, List, [], ◌∷◌, ◌++◌, map, Error, already_present,
  not_present, Result, ok, err, Exec, pure, raise, handle, ◌>>=◌, ◌>>◌, Text, codes, text_discrete,
  Dict, lookup, insert, delete, if◌then◌else◌, length, ltb,
}
use srv.Protocol.Chunk.{
  ControlChunk, ContentChunk, ContentPacket, requests_pending_chunk, participants_changed_chunk,
  end_chunk,
}
use srv.Pubsub.Interface.{ClientStatus, Manager}
use srv.Storage.Types.{SessionState, Participant, PastTextLine, Store}
use srv.Storage.Sessions

-- What a session works with: the store, the pubsub manager, and a speech manager, whose call gives
-- no result.
pub record Backend : Type 1 where
  pub store : Store
  pub manager : Manager
  pub Speech : Type 0
  pub generate_speech : Text → Text → Text → Speech → Speech

-- The channels and the managers are no fields: what comes in is an argument of the steps.
pub record Session : Type 0 where
  pub id : Text
  pub owner : Text
  pub state : SessionState
  pub cancelled : Bool
  pub live_packets : List ContentPacket
  pub live_text : Text
  pub overlap : List ContentChunk
  pub shutting_down : Bool
  pub transcript_id : Text

-- One session and what is outside it.
pub record Live (b : Backend) : Type 0 where
  pub session : Session
  pub pubsub : b.manager.State
  pub redis : b.store.redis.World
  pub speech : b.Speech

-- Removes the first participant with the client id.
unfoldable pub remove_waiting : Text → List Participant → List Participant
remove_waiting k [] = []
remove_waiting k (p ∷ ps) = ite (text_discrete p.client_id k) ps (p ∷ remove_waiting k ps)

unfoldable pub is_waiting : Text → List Participant → Bool
is_waiting k [] = false
is_waiting k (p ∷ ps) = ite (text_discrete p.client_id k) true (is_waiting k ps)

-- A whisperer is online.
unfoldable pub whisperer_online : Dict Participant → Bool
whisperer_online [] = false
whisperer_online ((k, p) ∷ ps) =
    if p.is_whisperer
    then (if p.is_online then true else whisperer_online ps)
    else whisperer_online ps

abbrev pub set_state : {b : Backend} → SessionState → Live b → Live b
set_state s t = record t { session = record t.session { state = s } }

abbrev pub set_participants : {b : Backend} → Dict Participant → Live b → Live b
set_participants ps t = set_state (record t.session.state { participants = ps }) t

abbrev pub set_waitlist : {b : Backend} → List Participant → Live b → Live b
set_waitlist ps t = set_state (record t.session.state { waitlist = ps }) t

-- A call of the pubsub manager.
abbrev pub with_pubsub : {b : Backend} {A : Type 0} → Exec b.manager.State A → Exec (Live b) A
with_pubsub m t = let (res, p) = m t.pubsub in (res, record t { pubsub = p })

abbrev pub with_redis : {b : Backend} {A : Type 0} → Exec b.store.redis.World A → Exec (Live b) A
with_redis m t = let (res, w) = m t.redis in (res, record t { redis = w })

-- A call whose error is only logged.
abbrev pub logged : {b : Backend} {A : Type 0} → Exec (Live b) A → Live b → Live b
logged m t = (m t).1

-- The client is online when the manager says so; with an error it says no.
abbrev pub online_of : Result Bool → Bool
online_of (ok online) = online
online_of (err e) = false

abbrev pub error_of : {A : Type 0} → Result A → Result (Unit {0})
error_of (ok a) = ok tt
error_of (err e) = err e

-- Participants and requesters, as copies.
unfoldable pub participants : Session → List Participant
participants s = map (λ e. e.1) s.state.participants

unfoldable pub requesters : Session → List Participant
requesters s = s.state.waitlist

module _ (b : Backend) where
  abbrev request_approvals : Live b → Live b
  request_approvals t =
      logged
        (with_pubsub
          (b.manager.send_control t.session.id (codes "whisperer") requests_pending_chunk))
        t

  unfoldable pub notify_needs_auth : Live b → Live b
  unfolding whisperer_online
  notify_needs_auth t =
      if ltb 0 (length t.session.state.waitlist)
      then (if whisperer_online t.session.state.participants then request_approvals t else t)
      else t

  abbrev pub join : Text → Text → Bool → Exec b.manager.State Bool
  join id client_id is_whisperer =
      if is_whisperer
      then b.manager.add_whisperer id client_id
      else b.manager.add_listener id client_id

  -- The participant is added before the manager is asked, and stays when the manager fails.
  unfoldable pub new_participant : ℕ → Text → Text → Text → Bool → Exec (Live b) (Unit {0})
  new_participant now client_id profile_id name is_whisperer t =
      elim (lookup client_id t.session.state.participants) [
        | some p ↦ (err already_present, t)
        | none ↦
            let p = Sessions.new_participant now client_id profile_id name is_whisperer in
            let (res, w) = join t.session.id client_id is_whisperer t.pubsub in
            let joined = record p { is_online = online_of res } in
            (
              error_of res,
              set_participants (insert client_id joined t.session.state.participants)
                  (record t { pubsub = w }),
            )
      ]

  unfoldable pub add_whisperer : ℕ → Text → Text → Text → Exec (Live b) (Unit {0})
  unfolding new_participant notify_needs_auth
  add_whisperer now client_id profile_id name =
      handle (new_participant now client_id profile_id name true)
        (λ res t. (res, notify_needs_auth t))

  -- A client that was waiting is now approved.
  unfoldable pub add_listener : ℕ → Text → Text → Text → Exec (Live b) (Unit {0})
  unfolding new_participant remove_waiting
  add_listener now client_id profile_id name t =
      new_participant now client_id profile_id name false
        (set_waitlist (remove_waiting client_id t.session.state.waitlist) t)

  unfoldable pub add_listener_request : ℕ → Text → Text → Text → Exec (Live b) (Unit {0})
  unfolding is_waiting notify_needs_auth
  add_listener_request now client_id profile_id name t =
      if is_waiting client_id t.session.state.waitlist
      then (err already_present, t)
      else let p = Sessions.new_participant now client_id profile_id name false in
        (ok tt, notify_needs_auth (set_waitlist (t.session.state.waitlist ++ p ∷ []) t))

  unfoldable pub remove_client : Text → Exec (Live b) (Unit {0})
  unfolding is_waiting remove_waiting
  remove_client client_id t = elim (lookup client_id t.session.state.participants) [
    | none ↦
        if is_waiting client_id t.session.state.waitlist
        then (ok tt, set_waitlist (remove_waiting client_id t.session.state.waitlist) t)
        else (err not_present, t)
    | some p ↦
        let (res, w) = b.manager.remove_client t.session.id client_id t.pubsub in
        elim res [
          | err e ↦ (err e, record t { pubsub = w })
          | ok _ ↦ (
            ok tt,
            set_participants (delete client_id t.session.state.participants)
                (record t { pubsub = w }),
          )
        ]
  ]

  -- One step of the loop: a status of a client that came in.
  unfoldable pub monitor_participants : ClientStatus → Live b → Live b
  unfolding notify_needs_auth
  monitor_participants status t = elim (lookup status.client_id t.session.state.participants) [
    | none ↦ t
    | some p ↦
        let known =
          set_participants
            (insert status.client_id (record p { is_online = status.is_online })
              t.session.state.participants)
            t in
        let told =
          if p.is_whisperer
          then (if status.is_online then notify_needs_auth known else known)
          else known in
        logged (with_pubsub (b.manager.broadcast_control t.session.id participants_changed_chunk))
          told
  ]

  -- The loop over the participants, in the order of the entries; what is left out at an error stays
  -- as it was.
  unfoldable pub join_all :
      Text
      → Dict Participant
      → b.manager.State
      → Result (Unit {0}) × Dict Participant × b.manager.State
  join_all id [] w = (ok tt, [], w)
  join_all id ((k, p) ∷ ps) w =
      let joined = join id p.client_id p.is_whisperer w in
      let here : Text × Participant = (k, record p { is_online = online_of joined.0 }) in
      let rest = join_all id ps joined.1 in
      elim joined.0 [
        | ok _ ↦ (rest.0, here ∷ rest.1, rest.2)
        | err e ↦ (err e, here ∷ ps, joined.1)
      ]

  -- The two loops of the session start with it, and an error after that cancels them.
  unfoldable pub start : Exec (Live b) (Unit {0})
  unfolding join_all notify_needs_auth
  start t =
      let started = b.manager.start_session t.session.id t.pubsub in
      let joined = join_all t.session.id t.session.state.participants started.1 in
      let after = set_participants joined.1 (record t { pubsub = joined.2 }) in
      elim started.0 [
        | err e ↦ (err e, record t { pubsub = started.1 })
        | ok _ ↦ elim joined.0 [
          | err e ↦ (err e, record after { session = record after.session { cancelled = true } })
          | ok _ ↦ (ok tt, notify_needs_auth after)
        ]
      ]
