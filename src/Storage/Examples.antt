-- ===== src/Storage/Examples.antt =====
-- The theorems on the store at concrete inputs, over the specification of the client.
use srv.Storage.Sessions.{
  save_session_state, load_session_state, add_suspended_session, wait_for_suspended_session,
  remove_suspended_session,
}
use srv.Storage.Handoff.{load_session_state-save}
use srv.Storage.Queue.{queue, queue-add_suspended_session, wait_for_suspended_session-first}
use srv.Storage.Samples.{state_with}
use srv.Prelude.{ite, Text}
use srv.Platform.Redis.Spec.{hash_at}
use srv.Storage.Profile.{get_owned_conversation_id_by_name}
use srv.Storage.Conversation.{new_conversation, get_conversation}
use srv.Storage.Users.{create_new_owned_conversation, delete_owned_conversation}
use srv.Storage.Users.Lifetime.{delete_owned_conversation-create}
use srv.Prelude.{
  ◌≡◌, refl, none, List, [], ◌∷◌, not_found, ok, err, Text, codes, arith, text_discrete, ℕ_discrete,
}
use srv.Platform.Redis.Spec.{Keyspace, list_at}
use srv.Platform.Redis.Simulation.{spec_documented}
use srv.Protocol.Chunk.{ContentPacket}
use srv.Storage.Sessions.{
  save_suspended_session_packets, load_suspended_session_packets, add_suspended_session,
}
use srv.Storage.Transcripts.{load_transcript}
use srv.Storage.Handoff.{load_suspended_session_packets-save}
use srv.Storage.Queue.{queue, queue-add_suspended_session}
use srv.Storage.Sealed.{load_transcript-missing}
use srv.Storage.Samples.{store}

abbrev empty : Keyspace
empty k = none

abbrev convo : Text
convo = codes "convo-1"

abbrev packets : List ContentPacket
packets = record { packet_id = codes "1"; payload = codes "0|hi" } ∷ []

-- Two sessions wait.
abbrev waiting : Keyspace
waiting =
    (add_suspended_session store (codes "b") (add_suspended_session store (codes "a") empty).1).1

load_suspended_session_packets-save_example :
    let saved = save_suspended_session_packets store convo packets empty in
    (saved.0 ≡ ok tt) × ((load_suspended_session_packets store convo saved.1).0 ≡ ok packets)
unfolding list_at
load_suspended_session_packets-save_example =
    load_suspended_session_packets-save store spec_documented empty tt convo [] packets (λ e. cc)
      refl ((λ e. omega arith, tt), tt)

load_transcript-missing_example : (load_transcript store (codes "t1") empty).0 ≡ err not_found
load_transcript-missing_example =
    load_transcript-missing store spec_documented (codes "t1") empty tt refl

delete_owned_conversation-create_example :
    let made = create_new_owned_conversation store (codes "1") (codes "owner") [] empty in
    let removed = delete_owned_conversation store (codes "owner") [] made.1 in
    let c = new_conversation (codes "1") (codes "owner") [] in
    (removed.0 ≡ ok tt)
    × ((get_conversation store c.id removed.1).0 ≡ err not_found)
    × ((j : Text)
        → (get_owned_conversation_id_by_name store (codes "owner") j removed.1).0
          ≡ ite
              (text_discrete [] j)
              (ok [])
              (get_owned_conversation_id_by_name store (codes "owner") j empty).0)
unfolding hash_at new_conversation text_discrete ℕ_discrete
delete_owned_conversation-create_example =
    delete_owned_conversation-create store spec_documented (codes "1") (codes "owner") []
      (new_conversation (codes "1") (codes "owner") []).id [] empty tt (λ e. cc) refl refl

load_session_state-save_example :
    let saved = save_session_state store (state_with convo) empty in
    let loaded = load_session_state store convo saved.1 in
    (saved.0 ≡ ok tt)
    × (loaded.0 ≡ ok (state_with convo))
    × ((load_session_state store convo loaded.1).0 ≡ err not_found)
load_session_state-save_example =
    load_session_state-save store spec_documented empty tt (state_with convo) convo (λ e. cc) refl

one_waits :
    queue store spec_documented (add_suspended_session store (codes "a") empty).1
    ≡ ok (codes "a" ∷ [])
unfolding list_at
one_waits = (queue-add_suspended_session store spec_documented (codes "a") [] empty tt refl).1

waiting_there : queue store spec_documented waiting ≡ ok (codes "b" ∷ codes "a" ∷ [])
waiting_there =
    (queue-add_suspended_session store spec_documented (codes "b") (codes "a" ∷ [])
      (add_suspended_session store (codes "a") empty).1 tt one_waits).1

wait_for_suspended_session-first_example :
    let waited = wait_for_suspended_session store 30 waiting in
    let removed = remove_suspended_session store (codes "a") waited.1 in
    (waited.0 ≡ ok (codes "a"))
    × (queue store spec_documented waited.1 ≡ ok (codes "a" ∷ codes "b" ∷ []))
    × (removed.0 ≡ ok tt)
    × (queue store spec_documented removed.1 ≡ ok (codes "b" ∷ []))
wait_for_suspended_session-first_example =
    wait_for_suspended_session-first store spec_documented 30 (codes "a") (codes "b" ∷ []) waiting
      tt waiting_there
