-- ===== src/Lifecycle/Transcribe/Fresh.antt =====
-- Which packets the loop of `transcribeContent` passes over.
use srv.Prelude.{
  ℕ, zero, suc, ◌-◌, ◌≡◌, refl, ap, ◌∙◌, Option-cases, Bool-cases, true, false, inl, inr, List, [],
  ◌∷◌, ◌++◌, take, drop, arith, ltb, lt→ltb, if◌then◌else◌,
}
use srv.Protocol.Chunk.{ContentPacket}
use srv.Protocol.Content.{process_live_chunk}
use srv.Lifecycle.Session.{Backend, Live}
use srv.Lifecycle.Transcribe.{Loop, transcribe_content, transcribe_one_packet, has_id}
use srv.Lifecycle.Transcribe.Play.{chunk_of, transcribe_packets}

-- The loop over packets that come in, with the time of each.
unfoldable pub run : (b : Backend) → List (ℕ × ContentPacket) → Loop b → Loop b
unfolding transcribe_content
run b [] l = l
run b ((now, p) ∷ ps) l = run b ps (transcribe_content b now p l)

-- Without the packets whose ids are among those of the prior server.
unfoldable pub unknown : List ContentPacket → List (ℕ × ContentPacket) → List (ℕ × ContentPacket)
unfolding has_id
unknown known [] = []
unknown known ((now, p) ∷ ps) =
    let rest = unknown known ps in if has_id p.packet_id known then rest else (now, p) ∷ rest

-- What is to be transcribed when the first `n` packets are checked.
unfoldable pub fresh : List ContentPacket → ℕ → List (ℕ × ContentPacket) → List (ℕ × ContentPacket)
unfolding unknown
fresh known n ps = unknown known (take n ps) ++ drop n ps

module _ (b : Backend) (now : ℕ) (p : ContentPacket) (t : Live b) where
  transcribe_one_packet-running :
      t.session.shutting_down ≡ false
      → (transcribe_one_packet b now p t).session.shutting_down ≡ false
  unfolding transcribe_one_packet
  transcribe_one_packet-running h =
      elim (Option-cases (process_live_chunk t.session.live_text (chunk_of p)).new_past) [
        | inl e ↦ rw (e, transcribe_one_packet) h
        | inr (past, e) ↦ rw (e, transcribe_one_packet) h
      ]

positive : (n : ℕ) → ltb 0 (suc n) ≡ true
positive n = lt→ltb 0 (suc n) (omega arith)

one_less : (n : ℕ) → suc n - 1 ≡ n
one_less n = omega arith

module _ (b : Backend) (now : ℕ) (p : ContentPacket) (known : List ContentPacket) (t : Live b)
    (h : t.session.shutting_down ≡ false) where
  unchecked_step :
      transcribe_content b now p (record { live = t; processed = known; to_check = 0 })
      ≡ record { live = transcribe_one_packet b now p t; processed = known; to_check = 0 }
  unfolding transcribe_content
  unchecked_step = simp (h, transcribe_content) refl

  known_step :
      (n : ℕ)
      → has_id p.packet_id known ≡ true
      → transcribe_content b now p (record { live = t; processed = known; to_check = suc n })
        ≡ record { live = t; processed = known; to_check = n }
  unfolding transcribe_content
  known_step n e = simp (h, e, positive n, one_less n, transcribe_content) refl

  unknown_step :
      (n : ℕ)
      → has_id p.packet_id known ≡ false
      → transcribe_content b now p (record { live = t; processed = known; to_check = suc n })
        ≡ record { live = transcribe_one_packet b now p t; processed = known; to_check = n }
  unfolding transcribe_content
  unknown_step n e = simp (h, e, positive n, one_less n, transcribe_content) refl

run_unchecked :
    (b : Backend) (ps : List (ℕ × ContentPacket)) (known : List ContentPacket) (t : Live b)
    → t.session.shutting_down ≡ false
    → (run b ps (record { live = t; processed = known; to_check = 0 })).live
      ≡ transcribe_packets b ps t
unfolding run transcribe_packets
run_unchecked b [] known t h = refl
run_unchecked b ((now, p) ∷ ps) known t h =
    ap (λ l. (run b ps l).live) (unchecked_step b now p known t h)
    ∙ run_unchecked b ps known (transcribe_one_packet b now p t)
        (transcribe_one_packet-running b now p t h)

run_checked :
    (b : Backend) (ps : List (ℕ × ContentPacket)) (known : List ContentPacket) (n : ℕ) (t : Live b)
    → t.session.shutting_down ≡ false
    → (run b ps (record { live = t; processed = known; to_check = n })).live
      ≡ transcribe_packets b (fresh known n ps) t
unfolding run transcribe_packets fresh unknown
run_checked b ps known zero t h = run_unchecked b ps known t h
run_checked b [] known (suc n) t h = refl
run_checked b ((now, p) ∷ ps) known (suc n) t h = elim (Bool-cases (has_id p.packet_id known)) [
  | inl e ↦
      ap (λ l. (run b ps l).live) (known_step b now p known t h n e)
      ∙ (run_checked b ps known n t h ∙ rw e refl)
  | inr e ↦
      ap (λ l. (run b ps l).live) (unknown_step b now p known t h n e)
      ∙ (run_checked b ps known n (transcribe_one_packet b now p t)
            (transcribe_one_packet-running b now p t h)
          ∙ rw e refl)
]

-- In a session that is not shutting down, the loop transcribes the packets in order, less those
-- among the first `to_check` whose ids the prior server had saved; later packets are all
-- transcribed.
pub run-fresh :
    (b : Backend) (ps : List (ℕ × ContentPacket)) (l : Loop b)
    → l.live.session.shutting_down ≡ false
    → (run b ps l).live ≡ transcribe_packets b (fresh l.processed l.to_check ps) l.live
run-fresh b ps l h = run_checked b ps l.processed l.to_check l.live h
