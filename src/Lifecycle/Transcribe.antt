-- ===== src/Lifecycle/Transcribe.antt =====
-- The packets of the whisperer as they come in: the loop of `transcribeContent`.
pub mod Play
pub mod Wire
pub mod Fresh
use srv.Prelude.{
  ℕ, zero, suc, ◌-◌, Bool, true, false, Option, none, some, List, [], ◌∷◌, ◌++◌, Error, Result, ok,
  err, Text, text_discrete, ite, length, ltb, if◌then◌else◌,
}
use srv.Protocol.Chunk.{ContentPacket, parse_content_chunk}
use srv.Protocol.Content.{Processed, process_live_chunk}
use srv.Storage.Types.{PastTextLine, SessionState}
use srv.Storage.Sessions.{save_suspended_session_packets, load_suspended_session_packets}
use srv.Lifecycle.Session.{Backend, Session, Live, set_state, with_redis, logged}

unfoldable pub has_id : Text → List ContentPacket → Bool
has_id k [] = false
has_id k (p ∷ ps) = ite (text_discrete p.packet_id k) true (has_id k ps)

abbrev or_empty : Option Text → Text
or_empty none = []
or_empty (some t) = t

abbrev packets_of : Result (List ContentPacket) → List ContentPacket
packets_of (ok ps) = ps
packets_of (err e) = []

-- How many different ids there are.
unfoldable pub count_ids : List ContentPacket → ℕ
unfolding has_id
count_ids [] = 0
count_ids (p ∷ ps) = let rest = count_ids ps in if has_id p.packet_id ps then rest else suc rest

module _ (b : Backend) where
  -- The suspended packets whose ids are to be skipped; with an error there are none.
  unfoldable pub process_suspended_packets : Live b → List ContentPacket × Live b
  process_suspended_packets t =
      let (res, after) = with_redis (load_suspended_session_packets b.store t.session.id) t in
      (packets_of res, after)

  -- The time is that of the past line, if there is one.
  unfoldable pub transcribe_one_packet : ℕ → ContentPacket → Live b → Live b
  transcribe_one_packet now packet t =
      let r = process_live_chunk t.session.live_text (parse_content_chunk packet.payload) in
      elim r.new_past [
        | some past ↦
            let line : PastTextLine = record { time = now; text = past } in
            record t {
              session = record t.session {
                state = record t.session.state {
                  past_text = t.session.state.past_text ++ line ∷ [];
                };
                live_packets = [];
                live_text = r.new_live;
              };
              speech = b.generate_speech t.session.owner (or_empty r.new_past_id) past t.speech;
            }
        | none ↦ record t {
          session = record t.session {
            live_packets = t.session.live_packets ++ packet ∷ [];
            live_text = r.new_live;
          };
        }
      ]

  -- A packet that comes in while the session is shutting down is left for the next server.
  unfoldable pub leave_packet : ContentPacket → Live b → Live b
  leave_packet packet t =
      let kept = t.session.live_packets ++ packet ∷ [] in
      let (res, w) = save_suspended_session_packets b.store t.session.id kept t.redis in
      elim res [
        | err e ↦ record t { session = record t.session { live_packets = kept }; redis = w }
        | ok _ ↦ record t { session = record t.session { live_packets = [] }; redis = w }
      ]

  -- The loop's own variables: the ids of the prior server, and how many packets to check.
  pub record Loop : Type 0 where
    pub live : Live b
    pub processed : List ContentPacket
    pub to_check : ℕ

  -- When the first packet has come.
  unfoldable pub begin : Live b → Loop
  unfolding process_suspended_packets count_ids
  begin t =
      let (ps, after) = process_suspended_packets t in
      record { live = after; processed = ps; to_check = count_ids ps }

  -- A packet may also have been received and saved by the prior server.
  abbrev checked_packet : ℕ → ContentPacket → Loop → Loop
  checked_packet now packet l =
      if has_id packet.packet_id l.processed
      then record l { to_check = l.to_check - 1 }
      else record l { to_check = l.to_check - 1; live = transcribe_one_packet now packet l.live }

  unfoldable pub transcribe_content : ℕ → ContentPacket → Loop → Loop
  unfolding transcribe_one_packet leave_packet has_id
  transcribe_content now packet l =
      if l.live.session.shutting_down
      then record l { live = leave_packet packet l.live }
      else if ltb 0 l.to_check
      then checked_packet now packet l
      else record l { live = transcribe_one_packet now packet l.live }

  -- The loop ends when the session is cancelled.
  unfoldable pub stop_transcribing : Live b → Live b
  stop_transcribing t =
      if t.session.shutting_down
      then elim t.session.live_packets [
        | [] ↦ t
        | p ∷ ps ↦
            logged (with_redis (save_suspended_session_packets b.store t.session.id (p ∷ ps))) t
      ]
      else t
