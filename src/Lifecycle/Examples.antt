-- ===== src/Lifecycle/Examples.antt =====
-- The theorems on sessions at concrete inputs, over managers for which nothing fails.
use srv.Storage.Sessions.{add_suspended_session}
use srv.Storage.Queue.{queue, queue-add_suspended_session}
use srv.Lifecycle.Samples.{session_of}
use srv.Lifecycle.Sessions.{start_all_suspended_sessions, shutdown}
use srv.Lifecycle.Sessions.Drained.{Drains, start_all_suspended_sessions-Drains}
use srv.Lifecycle.Sessions.Suspended.{shutdown-suspends, shutdown-resumed}
use srv.Platform.Redis.Spec.{Keyspace, put, str}
use srv.Platform.Orm.Keys.{raw_key}
use srv.Storage.Types.{conversation_key}
use srv.Lifecycle.Sessions.{Server}
use srv.Prelude.{
  ℕ, suc, ◌≡◌, refl, ap, ite, true, false, none, some, List, [], ◌∷◌, ◌++◌, map, not_found, Result,
  ok, err, Text, codes, text_discrete, ℕ_discrete, lookup, split, arith,
}
use srv.Platform.Redis.Spec.{list_at}
use srv.Platform.Redis.Simulation.{spec_documented}
use srv.Protocol.Chunk.{ContentPacket, content_string}
use srv.Protocol.Content.{diff_lines}
use srv.Storage.Sessions.{load_suspended_session_packets}
use srv.Storage.Transcripts.{create_session_transcript, load_transcript}
use srv.Lifecycle.Session.{Live, is_waiting, add_listener, remove_client}
use srv.Lifecycle.Session.Waitlist.{is_participant, add_listener-approves}
use srv.Lifecycle.Session.Invariant.{
  Sound, history, history-keeps_Sound, request, listener, removal,
}
use srv.Lifecycle.Ending.{end}
use srv.Lifecycle.Transcribe.{Loop, leave_packet}
use srv.Lifecycle.Transcribe.Play.{
  Replays, past_texts, transcribe_packets, transcribe_packets-Replays,
}
use srv.Lifecycle.Transcribe.Fresh.{run, fresh, run-fresh}
use srv.Lifecycle.Transcribe.Wire.{transcribe_packets-diff_lines}
use srv.Lifecycle.Sessions.{get_session, finish_shutdown}
use srv.Lifecycle.Sessions.Handover.{get_session-missing, leave_packet-saved, end-transcript}
use srv.Storage.Samples.{state_with, store}
use srv.Lifecycle.Samples.{
  backend, idle, busy_state, busy, saying, packets, server_with, busy-Distinct, busy-Sound,
  idle-Replays, same_random, new_text,
}

-- Packets with these payloads, one each time unit.
abbrev carry : ℕ → List Text → List (ℕ × ContentPacket)
carry n [] = []
carry n (x ∷ xs) = (n, saying (codes "id") x) ∷ carry (suc n) xs

payload-carry : (n : ℕ) (xs : List Text) → map (λ e. e.1.payload) (carry n xs) ≡ xs
payload-carry n [] = refl
payload-carry n (x ∷ xs) = ap (◌∷◌ x) (payload-carry (suc n) xs)

abbrev payloads : List Text
payloads = map content_string (diff_lines same_random [] new_text)

abbrev typed : List (ℕ × ContentPacket)
typed = carry 1 payloads

transcribe_packets-diff_lines_example :
    let after = (transcribe_packets backend typed idle).session in
    past_texts after ++ after.live_text ∷ [] ≡ past_texts idle.session ++ split b'\n' new_text
transcribe_packets-diff_lines_example =
    transcribe_packets-diff_lines backend same_random new_text typed idle tt (omega arith)
      (omega arith) (payload-carry 1 payloads)

transcribe_packets-Replays_example : Replays (transcribe_packets backend packets idle).session
transcribe_packets-Replays_example = transcribe_packets-Replays backend packets idle idle-Replays

abbrev resumed : Loop backend
resumed = record { live = idle; processed = saying (codes "1") [] ∷ []; to_check = 1 }

run-fresh_example :
    (run backend packets resumed).live
    ≡ transcribe_packets backend (fresh resumed.processed resumed.to_check packets) resumed.live
run-fresh_example = run-fresh backend packets resumed refl

history-keeps_Sound_example :
    Sound
      (history backend
        (request 3 (codes "c") (codes "p") (codes "n")
          ∷ listener 4 (codes "b") (codes "p") (codes "n")
          ∷ removal (codes "a")
          ∷ [])
        busy).session
history-keeps_Sound_example =
    history-keeps_Sound backend
      (request 3 (codes "c") (codes "p") (codes "n")
        ∷ listener 4 (codes "b") (codes "p") (codes "n")
        ∷ removal (codes "a")
        ∷ [])
      busy busy-Sound

add_listener-approves_example :
    let after = (add_listener backend 4 (codes "b") (codes "p") (codes "n") busy).1.session in
    (is_participant (codes "b") after ≡ true)
    × ((j : Text)
        → is_waiting j after.state.waitlist
          ≡ ite (text_discrete (codes "b") j) false (is_waiting j busy.session.state.waitlist))
add_listener-approves_example =
    add_listener-approves backend 4 (codes "b") (codes "p") (codes "n") busy busy-Distinct

abbrev removed_a : Result (Unit {0}) × Live backend
removed_a = remove_client backend (codes "a") busy

abbrev removed_b : Result (Unit {0}) × Live backend
removed_b = remove_client backend (codes "b") busy

get_session-missing_example :
    let after = get_session backend (codes "new") (server_with []) in
    (after.0 ≡ err not_found)
    × (after.1.sessions ≡ (server_with []).sessions)
    × (after.1.pubsub ≡ (server_with []).pubsub)
unfolding lookup
get_session-missing_example =
    get_session-missing backend spec_documented (codes "new") (server_with []) tt refl refl

-- The keys of a store that holds the conversation.
abbrev with_conversation : Keyspace
with_conversation =
    put (raw_key store.prefix (conversation_key (codes "convo-1")))
      (some (record { value = str (codes "convo-1"); ttl = none })) (λ k. none)

abbrev ending : Live backend
ending = record idle { redis = with_conversation }

abbrev next_server : Server backend
next_server = record (server_with []) { redis = (finish_shutdown backend ending).redis }

leave_packet-saved_example :
    let after = leave_packet backend (saying (codes "4") (codes "2|k")) idle in
    (after.session.live_packets ≡ [])
    × ((load_suspended_session_packets store (codes "convo-1") after.redis).0
        ≡ ok (saying (codes "4") (codes "2|k") ∷ []))
unfolding list_at
leave_packet-saved_example =
    leave_packet-saved backend spec_documented (saying (codes "4") (codes "2|k")) idle [] tt
      (λ e. cc) refl ((λ e. omega arith, tt), tt)

end-transcript_example :
    let after = end backend 0 idle in
    let expected = create_session_transcript (codes "t1") (state_with (codes "convo-1")) in
    (after.0 ≡ [])
    × ((load_transcript store (codes "t1") after.1.redis).0 ≡ ok (some expected))
    × (expected.past_text ≡ [])
unfolding create_session_transcript text_discrete ℕ_discrete
end-transcript_example = end-transcript backend spec_documented 0 idle [] tt (λ e. cc) refl

-- One session is in the queue.
abbrev one_waits : Server backend
one_waits = record (server_with []) {
  redis = (add_suspended_session store (codes "convo-1") (λ k. none)).1;
}

start_all_suspended_sessions-Drains_example :
    Drains backend spec_documented (start_all_suspended_sessions backend 2 one_waits)
unfolding list_at
start_all_suspended_sessions-Drains_example =
    start_all_suspended_sessions-Drains backend spec_documented 1 (codes "convo-1" ∷ []) one_waits
      (omega arith) (λ e. cc, tt) tt
      (queue-add_suspended_session store spec_documented (codes "convo-1") [] (λ k. none) tt refl).1

abbrev open_session : Server backend
open_session = server_with ((codes "convo-1", session_of busy_state) ∷ [])

shutdown-suspends_example :
    let r = shutdown backend 9 false open_session in
    (r.0 ≡ 1)
    × ((j : Text) → lookup j r.1.sessions ≡ none)
    × (Unit {0})
    × (queue store spec_documented r.1.redis ≡ ok (codes "convo-1" ∷ []))
unfolding list_at
shutdown-suspends_example =
    shutdown-suspends backend spec_documented 9 open_session [] (refl, tt) tt refl

shutdown-resumed_example : Drains backend spec_documented (
    start_all_suspended_sessions backend 2
      (record (server_with []) { redis = (shutdown backend 9 false open_session).1.redis }))
unfolding list_at
shutdown-resumed_example =
    shutdown-resumed backend spec_documented 9 1 open_session
      (record (server_with []) { redis = (shutdown backend 9 false open_session).1.redis })
      (refl, tt) tt refl (λ e. cc, tt) (omega arith) refl
