-- ===== src/Speech/Manager/Steps/Safe.antt =====
-- The manager does not panic while ids are not used twice at a time.
use srv.Prelude.{
  ℕ, ◌≡◌, ◌≢◌, refl, sym, ap, subst, ◌∙◌, Bool, true, false, Option-cases, some, inl, inr, List, [],
  ◌∷◌, ◌++◌, Result-cases, Text, Dict, lookup, delete, lookup-delete, lookup-delete_ne, Each-delete,
  All, All-weaken, All-both, All-snoc, All-middle, arith,
}
use srv.Speech.Resemble.{Resemble, Outside, text_to_speech}
use srv.Speech.Manager.{
  Job, Waiter, Speeches, is_closed, get_resemble_manager, generate_speech, close_signal, finish,
  retrieve, ask, wake, cancel,
}
use srv.Speech.Manager.Steps.{
  Step, generates, finishes, asks, wakes, cancels, IsCareful, Run, start, step,
}
use srv.Speech.Manager.Steps.Sound.{IsOpen, Knows, SoundParts, Sound, closes, opens}

lookup_kept :
    (signals : Dict ℕ) (id k : Text) (ch : ℕ)
    → lookup k (delete id signals) ≡ some ch
    → lookup k signals ≡ some ch
lookup_kept signals id k ch e = ground (arith, lookup-delete id k signals, e)

-- A job whose caller's channel is closed has left.
left :
    (signals : Dict ℕ) (closed : List ℕ) (running : List Job) (w : Waiter)
    → is_closed w.channel closed ≡ true
    → Knows signals running w
    → All (IsOpen signals closed) running
    → All (λ j. j.speech_id ≢ w.speech_id) running
left signals closed running w shut knows opened =
    All-both running
      (λ j known (o : IsOpen signals closed j) same.
        let there : some w.channel ≡ some o.channel =
          sym (known same) ∙ (ap (λ k. lookup k signals) (sym same) ∙ o.found) in
        let equal : w.channel ≡ o.channel = cc there in
        absurd (cc (sym shut ∙ (ap (λ x. is_closed x closed) equal ∙ o.is_open))))
      knows opened

module _ {p : Bool} {signals : Dict ℕ} {closed : List ℕ} {next : ℕ} {running : List Job} where
  -- A waiter that leaves.
  leaves :
      (before after : List Waiter) (w : Waiter)
      → SoundParts p signals closed next running (before ++ w ∷ after)
      → SoundParts p signals closed next running (before ++ after)
  leaves before after w h = record {
    calm = h.calm;
    below = h.below;
    closed_below = h.closed_below;
    apart = h.apart;
    opened = h.opened;
    once = h.once;
    waiters = (All-middle (Knows signals running) before w after h.waiters).1;
  }

  -- A waiter that finds a channel.
  joins :
      (waiting : List Waiter) (w : Waiter)
      → SoundParts p signals closed next running waiting
      → lookup w.speech_id signals ≡ some w.channel
      → SoundParts p signals closed next running (waiting ++ w ∷ [])
  joins waiting w h found = record {
    calm = h.calm;
    below = h.below;
    closed_below = h.closed_below;
    apart = h.apart;
    opened = h.opened;
    once = h.once;
    waiters =
        All-snoc (Knows signals running) waiting w h.waiters
          (All-weaken running (λ j o same. found) h.opened);
  }

  -- An id that no job has is forgotten.
  forgets :
      (waiting : List Waiter) (id : Text)
      → SoundParts p signals closed next running waiting
      → All (λ j. j.speech_id ≢ id) running
      → SoundParts p (delete id signals) closed next running waiting
  forgets waiting id h free = record {
    calm = h.calm;
    below = Each-delete id signals h.below;
    closed_below = h.closed_below;
    apart = λ j k ch e f.
        h.apart j k ch (lookup_kept signals id j ch e) (lookup_kept signals id k ch f);
    opened =
        All-both running
          (λ i (o : IsOpen signals closed i) (n : i.speech_id ≢ id). record {
            channel = o.channel;
            found = lookup-delete_ne id i.speech_id signals (λ e. n (sym e)) ∙ o.found;
            is_open = o.is_open;
          })
          h.opened free;
    once = h.once;
    waiters =
        All-weaken waiting
          (λ w (k : Knows signals running w).
            All-both running
              (λ j known (n : j.speech_id ≢ id) same.
                lookup-delete_ne id w.speech_id signals (λ e. n (same ∙ sym e)) ∙ known same)
              k free)
          h.waiters;
  }

module _ {c : Resemble} where
  close_signal-Sound :
      (s : Speeches c) (before after : List Job) (j : Job)
      → SoundParts s.panicked s.signals s.closed s.next_channel (before ++ j ∷ after) s.waiting
      → s.running ≡ before ++ after
      → Sound (close_signal j.speech_id s)
  unfolding close_signal
  close_signal-Sound s before after j h e =
      let (o, _) = All-middle (IsOpen s.signals s.closed) before j after h.opened in
      rw (o.found, close_signal, o.is_open)
        (subst
          (λ js. SoundParts s.panicked s.signals (o.channel ∷ s.closed) s.next_channel js s.waiting)
          (sym e) (closes before after j h o))

  finish-Sound :
      (s : Speeches c) (before after : List Job) (j : Job)
      → s.running ≡ before ++ j ∷ after
      → Sound s
      → Sound (finish j (record s { running = before ++ after }))
  unfolding finish
  finish-Sound s before after j e h =
      let h' =
        subst (λ js. SoundParts s.panicked s.signals s.closed s.next_channel js s.waiting) e h in
      elim (Result-cases (text_to_speech c j.profile_id j.text s.outside).0) [
        | inr (x, f) ↦ rw (f, finish) (close_signal-Sound _ before after j h' refl)
        | inl (audio, f) ↦ rw (f, finish) (close_signal-Sound _ before after j h' refl)
      ]

  ask-Sound : (id : Text) (s : Speeches c) → Sound s → Sound (ask id s)
  unfolding ask retrieve
  ask-Sound id s h = elim (Option-cases (lookup id s.signals)) [
    | inl e ↦ rw (e, ask) h
    | inr (ch, e) ↦ rw (e, ask) (joins s.waiting (record { channel = ch; speech_id = id }) h e)
  ]

  wake-Sound :
      (s : Speeches c) (before after : List Waiter) (w : Waiter)
      → s.waiting ≡ before ++ w ∷ after
      → is_closed w.channel s.closed ≡ true
      → Sound s
      → Sound (wake w (record s { waiting = before ++ after }))
  unfolding wake retrieve
  wake-Sound s before after w e shut h =
      let h' = subst (SoundParts s.panicked s.signals s.closed s.next_channel s.running) e h in
      let (knows, _) = All-middle (Knows s.signals s.running) before w after h'.waiters in
      forgets (before ++ after) w.speech_id (leaves before after w h')
        (left s.signals s.closed s.running w shut knows h.opened)

  Step-Sound : {s t : Speeches c} (r : Step s t) → IsCareful r → Sound s → Sound t
  unfolding generate_speech cancel
  Step-Sound {s} (generates profile_id id text) u h =
      opens s.running (record { profile_id = profile_id; speech_id = id; text = text }) h u.jobs
        u.waiters
  Step-Sound {s} (finishes before after j e) u h = finish-Sound s before after j e h
  Step-Sound {s} (asks id) u h = ask-Sound id s h
  Step-Sound {s} (wakes before after w e shut) u h = wake-Sound s before after w e shut h
  Step-Sound {s} (cancels x before after w e) u h =
      leaves before after w
        (subst (SoundParts s.panicked s.signals s.closed s.next_channel s.running) e h)

  pub Run-Sound : {s t : Speeches c} → Sound s → Run s t → Sound t
  Run-Sound h start = h
  Run-Sound h (step run r u) = Step-Sound r u (Run-Sound h run)

  pub new-Sound : (o : Outside c) → Sound (get_resemble_manager o)
  unfolding get_resemble_manager lookup
  new-Sound o = record {
    calm = refl;
    below = record { at = λ k ch e. absurd (cc e) };
    closed_below = tt;
    apart = λ j k ch e f. absurd (cc e);
    opened = tt;
    once = tt;
    waiters = tt;
  }

  -- From a new manager, steps in any order and of any number do not panic, when a speech is only
  -- asked for under an id that no running job and no waiting caller has: jobs may fail, and callers
  -- may come before the speech is there or after it, more than once, and give up.
  pub Run-calm :
      (o : Outside c) (t : Speeches c) → Run (get_resemble_manager o) t → t.panicked ≡ false
  Run-calm o t run = (Run-Sound (new-Sound o) run).calm
