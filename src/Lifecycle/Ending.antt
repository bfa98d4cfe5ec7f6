-- ===== src/Lifecycle/Ending.antt =====
-- The end of a session, with its transcript.
use srv.Prelude.{ℕ, true, [], ok, err, Exec, Text}
use srv.Protocol.Chunk.{end_chunk}
use srv.Storage.Transcripts.{create_session_transcript, save_transcript}
use srv.Lifecycle.Session.{Backend, Live, set_state, with_pubsub, logged}

module _ (b : Backend) where
  -- The id comes from elsewhere.
  unfoldable pub transcribe : Text → Live b → Text × Live b
  transcribe id t = (id, record t { session = record t.session { transcript_id = id } })

  -- The lines with the live text are built and not used.
  unfoldable pub save_session_transcript : Exec (Live b) (Unit {0})
  save_session_transcript t =
      let saved = create_session_transcript t.session.transcript_id t.session.state in
      let (res, w) = save_transcript b.store saved t.redis in
      elim res [
        | err e ↦ (err e, record t { redis = w })
        | ok _ ↦ (ok tt, record t { redis = w; session = record t.session { transcript_id = [] } })
      ]

  -- Without the removal from the sessions of the server. The text is the transcript id returned.
  unfoldable pub end : ℕ → Live b → Text × Live b
  unfolding save_session_transcript
  end now t =
      let ended = set_state (record t.session.state { ended_at = now }) t in
      let told = logged (with_pubsub (b.manager.broadcast_control t.session.id end_chunk)) ended in
      let stopped = record told {
        session = record told.session { cancelled = true };
        pubsub = b.manager.end_session t.session.id told.pubsub;
      } in
      let saved = logged save_session_transcript stopped in (saved.session.transcript_id, saved)
