-- ===== src/Lifecycle/Transcribe/Play.antt =====
-- What the server transcribes is what the whisperer's chunks say.
use srv.Prelude.{
  ℕ, ◌≡◌, refl, sym, ap, ◌∙◌, Option-cases, none, some, inl, inr, List, [], ◌∷◌, ◌++◌, append_assoc,
  append-nil, map, Text, arith,
}
use srv.Protocol.Chunk.{ContentChunk, ContentPacket, parse_content_chunk}
use srv.Protocol.Content.{process_live_chunk}
use srv.Protocol.Content.Play.{play, spoken, past_lines}
use srv.Storage.Types.{PastTextLine}
use srv.Lifecycle.Session.{Backend, Session, Live}
use srv.Lifecycle.Transcribe.{transcribe_one_packet}

abbrev pub chunk_of : ContentPacket → ContentChunk
chunk_of p = parse_content_chunk p.payload

abbrev pub past_texts : Session → List Text
past_texts s = map (λ line. line.text) s.state.past_text

-- The live packets say the live text and no past line.
abbrev pub Replays : Session → Type 0
Replays s = play [] (map chunk_of s.live_packets) ≡ (s.live_text, [])

-- Packets one after the other, with the time of each.
unfoldable pub transcribe_packets : (b : Backend) → List (ℕ × ContentPacket) → Live b → Live b
unfolding transcribe_one_packet
transcribe_packets b [] t = t
transcribe_packets b ((now, p) ∷ ps) t = transcribe_packets b ps (transcribe_one_packet b now p t)

play-append :
    (live : Text) (cs ds : List ContentChunk)
    → play live (cs ++ ds)
      ≡ ((play (play live cs).0 ds).0, (play live cs).1 ++ (play (play live cs).0 ds).1)
unfolding play
play-append live [] ds = refl
play-append live (c ∷ cs) ds =
    let r = process_live_chunk live c in
    ap (λ q. (q.0, past_lines r.new_past ++ q.1)) (play-append r.new_live cs ds)
    ∙ ap (λ q. ((play (play r.new_live cs).0 ds).0, q))
        (sym (append_assoc (past_lines r.new_past) (play r.new_live cs).1 _))

map-append :
    (ps qs : List ContentPacket) → map chunk_of (ps ++ qs) ≡ map chunk_of ps ++ map chunk_of qs
map-append [] qs = refl
map-append (p ∷ ps) qs = ap (◌∷◌ (chunk_of p)) (map-append ps qs)

map_text-append :
    (ps qs : List PastTextLine)
    → map (λ line. line.text) (ps ++ qs) ≡ map (λ line. line.text) ps ++ map (λ line. line.text) qs
map_text-append [] qs = refl
map_text-append (p ∷ ps) qs = ap (◌∷◌ p.text) (map_text-append ps qs)

-- A past line leaves no live text.
process_live_chunk-shift :
    (old : Text) (c : ContentChunk) (past : Text)
    → (process_live_chunk old c).new_past ≡ some past
    → (process_live_chunk old c).new_live ≡ []
unfolding process_live_chunk
process_live_chunk-shift old c past e = ground (arith, e)

-- One more chunk after those that say a live text and no past line.
replay_one :
    (packets : List ContentPacket) (p : ContentPacket) (live : Text)
    → play [] (map chunk_of packets) ≡ (live, [])
    → (process_live_chunk live (chunk_of p)).new_past ≡ none
    → play [] (map chunk_of (packets ++ p ∷ []))
      ≡ ((process_live_chunk live (chunk_of p)).new_live, [])
unfolding play
replay_one packets p live h e =
    ap (play []) (map-append packets (p ∷ []))
    ∙ play-append [] (map chunk_of packets) (chunk_of p ∷ [])
    ∙ rw (h, e) refl

module _ (b : Backend) (now : ℕ) (p : ContentPacket) (t : Live b) where
  transcribe_one_packet-Replays :
      Replays t.session → Replays (transcribe_one_packet b now p t).session
  unfolding transcribe_one_packet play
  transcribe_one_packet-Replays h =
      elim (Option-cases (process_live_chunk t.session.live_text (chunk_of p)).new_past) [
        | inl e ↦
            rw (e, transcribe_one_packet)
              (replay_one t.session.live_packets p t.session.live_text h e)
        | inr (past, e) ↦
            rw (e, transcribe_one_packet)
              (ap (λ x. (x, [])) (sym (process_live_chunk-shift t.session.live_text _ past e)))
      ]

  transcribe_one_packet-live :
      (transcribe_one_packet b now p t).session.live_text
      ≡ (process_live_chunk t.session.live_text (chunk_of p)).new_live
  unfolding transcribe_one_packet
  transcribe_one_packet-live =
      elim (Option-cases (process_live_chunk t.session.live_text (chunk_of p)).new_past) [
        | inl e ↦ rw (e, transcribe_one_packet) refl
        | inr (past, e) ↦ rw (e, transcribe_one_packet) refl
      ]

  transcribe_one_packet-past :
      past_texts (transcribe_one_packet b now p t).session
      ≡ past_texts t.session
        ++ past_lines (process_live_chunk t.session.live_text (chunk_of p)).new_past
  unfolding transcribe_one_packet
  transcribe_one_packet-past =
      elim (Option-cases (process_live_chunk t.session.live_text (chunk_of p)).new_past) [
        | inl e ↦ rw (e, transcribe_one_packet) (sym (append-nil (past_texts t.session)))
        | inr (past, e) ↦
            rw (e, transcribe_one_packet) (map_text-append t.session.state.past_text _)
      ]

-- Whatever packets come in: if the live packets, played from no text, say the live text and no
-- past line, they do so afterwards.
pub transcribe_packets-Replays :
    (b : Backend) (ps : List (ℕ × ContentPacket)) (t : Live b)
    → Replays t.session
    → Replays (transcribe_packets b ps t).session
unfolding transcribe_packets
transcribe_packets-Replays b [] t h = h
transcribe_packets-Replays b ((now, p) ∷ ps) t h =
    transcribe_packets-Replays b ps (transcribe_one_packet b now p t)
      (transcribe_one_packet-Replays b now p t h)

-- Whatever packets come in, the past lines and the live text that a session has afterwards are the
-- past lines that it had and what the chunks of the packets say, in order, from its live text.
pub transcribe_packets-spoken :
    (b : Backend) (ps : List (ℕ × ContentPacket)) (t : Live b)
    → let after = (transcribe_packets b ps t).session in
      past_texts after ++ after.live_text ∷ []
      ≡ past_texts t.session ++ spoken (play t.session.live_text (map (λ e. chunk_of e.1) ps))
unfolding transcribe_packets play spoken
transcribe_packets-spoken b [] t = refl
transcribe_packets-spoken b ((now, p) ∷ ps) t =
    let r = process_live_chunk t.session.live_text (chunk_of p) in
    let chunks = map (λ e. chunk_of e.1) ps in
    transcribe_packets-spoken b ps (transcribe_one_packet b now p t)
    ∙ (ap
          (λ live.
            past_texts (transcribe_one_packet b now p t).session ++ spoken (play live chunks))
          (transcribe_one_packet-live b now p t)
        ∙ (ap (λ past. past ++ spoken (play r.new_live chunks))
              (transcribe_one_packet-past b now p t)
            ∙ (append_assoc (past_texts t.session) (past_lines r.new_past) _
                ∙ ap (λ x. past_texts t.session ++ x)
                    (sym (append_assoc (past_lines r.new_past) (play r.new_live chunks).1 _)))))
