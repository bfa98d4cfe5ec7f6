-- ===== src/Lifecycle/Transcribe/Wire.antt =====
-- From the whisperer's keyboard to the transcript: the chunks of a difference, sent as packets.
use srv.Prelude.{
  ℕ, ◌^◌, ◌<◌, ◌≡◌, refl, ap, ap₂, ◌∙◌, List, [], ◌∷◌, ◌++◌, map, Text, length, Lacks, split,
}
use srv.Protocol.Chunk.{ContentChunk, ContentPacket, parse_content_chunk, content_string}
use srv.Protocol.Chunk.RoundTrip.{parse_content_chunk-content_string}
use srv.Protocol.Content.{diff_lines}
use srv.Protocol.Content.Bounds.{Sendable, diff_lines-Sendable}
use srv.Protocol.Content.Difference.{spoken-diff_lines}
use srv.Protocol.Content.Play.{play, spoken}
use srv.Lifecycle.Session.{Backend, Live}
use srv.Lifecycle.Transcribe.Play.{
  chunk_of, past_texts, transcribe_packets, transcribe_packets-spoken,
}

parse_all :
    (cs : List ContentChunk) → Sendable cs → map parse_content_chunk (map content_string cs) ≡ cs
parse_all [] h = refl
parse_all (c ∷ cs) (h, hs) =
    ap₂ (λ x xs. x ∷ xs) (parse_content_chunk-content_string c h) (parse_all cs hs)

map_payload :
    (ps : List (ℕ × ContentPacket))
    → map (λ e. chunk_of e.1) ps ≡ map parse_content_chunk (map (λ e. e.1.payload) ps)
map_payload [] = refl
map_payload (p ∷ ps) = ap (◌∷◌ (chunk_of p.1)) (map_payload ps)

-- If the live text of a session is the one line that the whisperer's text was, and the packets
-- carry, in order, the chunks of the difference to a new text, both texts of a length that a 64-bit
-- `int` can hold, then the past lines and the live text of the session are afterwards its former
-- past lines and the lines of the new text.
pub transcribe_packets-diff_lines :
    (b : Backend) (random : ℕ → Text) (new : Text) (ps : List (ℕ × ContentPacket)) (t : Live b)
    → Lacks b'\n' t.session.live_text
    → length t.session.live_text < 2 ^ 63
    → length new < 2 ^ 63
    → map (λ e. e.1.payload) ps ≡ map content_string (diff_lines random t.session.live_text new)
    → let after = (transcribe_packets b ps t).session in
      past_texts after ++ after.live_text ∷ [] ≡ past_texts t.session ++ split b'\n' new
transcribe_packets-diff_lines b random new ps t clean h k sent =
    let old = t.session.live_text in
    let received : map (λ e. chunk_of e.1) ps ≡ diff_lines random old new =
      map_payload ps
      ∙ (ap (map parse_content_chunk) sent
          ∙ parse_all _ (diff_lines-Sendable random old new h k)) in
    transcribe_packets-spoken b ps t
    ∙ ap (λ x. past_texts t.session ++ x)
        (ap (λ cs. spoken (play old cs)) received ∙ spoken-diff_lines random old new clean)
