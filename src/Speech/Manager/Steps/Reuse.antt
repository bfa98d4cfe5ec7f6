-- ===== src/Speech/Manager/Steps/Reuse.antt =====
-- The manager panics when an id is used twice at a time.
use srv.Prelude.{suc, ◌++◌, All-weaken, arith}
use srv.Speech.Manager.Steps.{Run}
use srv.Speech.Manager.Steps.Sound.{new_is_open}
use srv.Speech.Manager.Steps.Safe.{Run-Sound, new-Sound}
use srv.Prelude.{
  ℕ, ◌≡◌, refl, ap, ◌∙◌, true, false, inl, inr, [], ◌∷◌, some, Result-cases, Text, lookup,
  lookup-insert_self,
}
use srv.Speech.Resemble.{Resemble, Outside, text_to_speech}
use srv.Speech.Manager.{
  Job, Speeches, is_closed, get_resemble_manager, generate_speech, close_signal, finish,
}

module _ {c : Resemble} where
  close_signal-closes :
      (s : Speeches c) (id : Text) (ch : ℕ)
      → lookup id s.signals ≡ some ch
      → is_closed ch s.closed ≡ false
      → ((close_signal id s).signals ≡ s.signals) × ((close_signal id s).closed ≡ ch ∷ s.closed)
  unfolding close_signal
  close_signal-closes s id ch e f = rw (e, close_signal, f) (refl, refl)

  close_signal-panics :
      (s : Speeches c) (id : Text) (ch : ℕ)
      → lookup id s.signals ≡ some ch
      → is_closed ch s.closed ≡ true
      → (close_signal id s).panicked ≡ true
  unfolding close_signal
  close_signal-panics s id ch e f = rw (e, close_signal, f) refl

  finish-closes :
      (s : Speeches c) (j : Job) (ch : ℕ)
      → lookup j.speech_id s.signals ≡ some ch
      → is_closed ch s.closed ≡ false
      → ((finish j s).signals ≡ s.signals) × ((finish j s).closed ≡ ch ∷ s.closed)
  unfolding finish
  finish-closes s j ch e f =
      elim (Result-cases (text_to_speech c j.profile_id j.text s.outside).0) [
        | inr (x, h) ↦ rw (h, finish) (close_signal-closes _ j.speech_id ch e f)
        | inl (a, h) ↦ rw (h, finish) (close_signal-closes _ j.speech_id ch e f)
      ]

  finish-panics :
      (s : Speeches c) (j : Job) (ch : ℕ)
      → lookup j.speech_id s.signals ≡ some ch
      → is_closed ch s.closed ≡ true
      → (finish j s).panicked ≡ true
  unfolding finish
  finish-panics s j ch e f =
      elim (Result-cases (text_to_speech c j.profile_id j.text s.outside).0) [
        | inr (x, h) ↦ rw (h, finish) (close_signal-panics _ j.speech_id ch e f)
        | inl (a, h) ↦ rw (h, finish) (close_signal-panics _ j.speech_id ch e f)
      ]

  -- In every state that careful steps of a new manager lead to: when two speeches are asked for
  -- under one id right after each other, and then the first job ends and after it the second, with
  -- no other step in between, the manager panics, whatever comes of the two texts.
  pub reused_id-panics :
      (o : Outside c) (s : Speeches c) (profile_id other_id speech_id text other_text : Text)
      → Run (get_resemble_manager o) s
      → let first : Job = record { profile_id = profile_id; speech_id = speech_id; text = text } in
        let second : Job = record {
          profile_id = other_id;
          speech_id = speech_id;
          text = other_text;
        } in
        let asked =
          generate_speech other_id speech_id other_text
            (generate_speech profile_id speech_id text s) in
        let one_ended = finish first (record asked { running = s.running ++ second ∷ [] }) in
        (asked.running ≡ (s.running ++ first ∷ []) ++ second ∷ [])
        × ((finish second (record one_ended { running = s.running })).panicked ≡ true)
  unfolding generate_speech is_closed
  reused_id-panics o s profile_id other_id speech_id text other_text run =
      let first : Job = record { profile_id = profile_id; speech_id = speech_id; text = text } in
      let second : Job = record {
        profile_id = other_id;
        speech_id = speech_id;
        text = other_text;
      } in
      let asked =
        generate_speech other_id speech_id other_text
          (generate_speech profile_id speech_id text s) in
      let ch = suc s.next_channel in
      let there : lookup speech_id asked.signals ≡ some ch = lookup-insert_self speech_id ch _ in
      let below = (Run-Sound (new-Sound o) run).closed_below in
      let is_open : is_closed ch s.closed ≡ false =
        new_is_open ch s.closed (All-weaken s.closed (λ x lower. omega arith) below) in
      let (kept, shut) =
        finish-closes (record asked { running = s.running ++ second ∷ [] }) first ch there
          is_open in
      (
        refl,
        finish-panics _ second ch (ap (lookup speech_id) kept ∙ there)
            (ap (is_closed ch) shut ∙ ground arith),
      )
