-- ===== src/Lifecycle/Sessions/Handover.antt =====
-- Sessions that end, or that move to the next server, over a documented client.
use srv.Prelude.{
  ℕ, ◌≡◌, ◌≢◌, refl, none, some, List, [], ◌∷◌, ◌++◌, map, not_found, ok, err, Text, lookup, All,
  Lacks,
}
use srv.Platform.Redis.Spec.{Documented, list_at}
use srv.Platform.Orm.Keys.{raw_key}
use srv.Protocol.Chunk.{ContentPacket, packet_string}
use srv.Storage.Types.{session_state_key, suspended_packets_key}
use srv.Storage.Sessions.{load_suspended_session_packets}
use srv.Storage.Transcripts.{create_session_transcript, load_transcript}
use srv.Storage.Handoff.{load_suspended_session_packets-save, load_session_state_missing}
use srv.Storage.Sealed.{load_transcript-save}
use srv.Lifecycle.Session.{Backend, Live}
use srv.Lifecycle.Ending.{end, save_session_transcript}
use srv.Lifecycle.Transcribe.{leave_packet}
use srv.Lifecycle.Sessions.{Server, get_session}

module _ (b : Backend) (d : Documented b.store.redis) where
  -- Over a healthy client that has no state of a session under its key, on a server that does not
  -- run the session: it is neither found nor made, the call fails with `not_found`, and the
  -- server's sessions and the pubsub manager stay as they are.
  pub get_session-missing :
      (id : Text) (v : Server b)
      → d.Healthy v.redis
      → lookup id v.sessions ≡ none
      → d.view v.redis (raw_key b.store.prefix (session_state_key id)) ≡ none
      → let after = get_session b id v in
        (after.0 ≡ err not_found) × (after.1.sessions ≡ v.sessions) × (after.1.pubsub ≡ v.pubsub)
  unfolding get_session
  get_session-missing id v h absent gone =
      let missing = load_session_state_missing b.store d id v.redis h gone in
      rw (absent, missing, get_session) (refl, refl, refl)

  -- Over a healthy client, for a session with an id, where the list of the session holds the
  -- strings of earlier packets or is not there, and no packet id holds a bar: a packet that comes
  -- in during the shutdown is left for the next server, behind the live packets of the session
  -- and the earlier ones, and the session keeps no live packet.
  pub leave_packet-saved :
      (p : ContentPacket) (t : Live b) (earlier : List ContentPacket)
      → d.Healthy t.redis
      → t.session.id ≢ []
      → list_at (d.view t.redis (raw_key b.store.prefix (suspended_packets_key t.session.id)))
        ≡ ok (map packet_string earlier)
      → All (λ q. Lacks b'|' q.packet_id) (earlier ++ (t.session.live_packets ++ p ∷ []))
      → let after = leave_packet b p t in
        (after.session.live_packets ≡ [])
        × ((load_suspended_session_packets b.store t.session.id after.redis).0
            ≡ ok (earlier ++ (t.session.live_packets ++ p ∷ [])))
  unfolding leave_packet
  leave_packet-saved p t earlier h n e l =
      let kept = t.session.live_packets ++ p ∷ [] in
      let (saved, loaded) =
        load_suspended_session_packets-save b.store d t.redis h t.session.id earlier kept n e l in
      rw (saved, leave_packet) (refl, loaded)

  -- Over a healthy client, a session that is being transcribed, with an encoding of its transcript,
  -- leaves a transcript with the past lines of its state and not its live text; the end returns the
  -- empty text and not the transcript's id.
  pub end-transcript :
      (now : ℕ) (t : Live b) (bytes : Text)
      → let ended = record t.session.state { ended_at = now } in
        let expected = create_session_transcript t.session.transcript_id ended in
        d.Healthy t.redis
        → t.session.transcript_id ≢ []
        → b.store.transcripts.to_redis expected ≡ ok bytes
        → let after = end b now t in
          (after.0 ≡ [])
          × ((load_transcript b.store t.session.transcript_id after.1.redis).0 ≡ ok (some expected))
          × (expected.past_text ≡ t.session.state.past_text)
  unfolding end save_session_transcript create_session_transcript
  end-transcript now t bytes h n e =
      let ended = record t.session.state { ended_at = now } in
      let expected = create_session_transcript t.session.transcript_id ended in
      let (saved, loaded) = load_transcript-save b.store d expected bytes t.redis h n e in
      rw (saved, end, save_session_transcript) (refl, loaded, refl)
