-- ===== src/Speech/Manager.antt =====
-- The speech manager: who waits for what is generated. A goroutine that generates is a job, a
-- caller that waits is a waiter, and each of them goes on in a step of its own. A Go channel that
-- is only ever closed is a number, with the list of those that are closed.
pub mod Steps
use srv.Prelude.{
  ℕ, suc, ◌==◌, Bool, true, false, Option, none, some, List, [], ◌∷◌, ◌++◌, Error, not_found,
  Result, ok, err, Exec, Text, codes, Dict, lookup, insert, delete, if◌then◌else◌,
}
use srv.Platform.Cache.{ExpiringCache, new_expiring_cache, add_blob, get_blob}
use srv.Speech.Resemble.{Resemble, Outside, text_to_speech}

pub record Job : Type 0 where
  pub profile_id : Text
  pub speech_id : Text
  pub text : Text

-- A caller in the `select`, with the channel that it found.
pub record Waiter : Type 0 where
  pub channel : ℕ
  pub speech_id : Text

-- The manager, its goroutines and callers, the answers to the callers, and whether it panicked.
pub record Speeches (c : Resemble) : Type 0 where
  pub outside : Outside c
  pub signals : Dict ℕ
  pub closed : List ℕ
  pub next_channel : ℕ
  pub running : List Job
  pub waiting : List Waiter
  pub replies : List (Text × Result Text)
  pub panicked : Bool

unfoldable pub generated_cache : ExpiringCache
unfolding new_expiring_cache
generated_cache = new_expiring_cache (codes "resemble-speech") 300

unfoldable pub is_closed : ℕ → List ℕ → Bool
is_closed channel [] = false
is_closed channel (x ∷ xs) = if x == channel then true else is_closed channel xs

-- What the cache answers, as a result of the caller.
abbrev retrieved : Result (Option Text) → Result Text
retrieved (err e) = err e
retrieved (ok none) = err not_found
retrieved (ok (some blob)) = ok blob

module _ {c : Resemble} where
  -- The manager at the start, with nothing generated.
  unfoldable pub get_resemble_manager : Outside c → Speeches c
  get_resemble_manager o = record {
    outside = o;
    signals = [];
    closed = [];
    next_channel = 0;
    running = [];
    waiting = [];
    replies = [];
    panicked = false;
  }

  abbrev cached : {A : Type 0} → Exec c.redis.World A → Speeches c → Result A × Speeches c
  cached m s =
      let (res, w) = m s.outside.redis in
      (res, record s { outside = record s.outside { redis = w } })

  unfoldable pub generate_speech : Text → Text → Text → Speeches c → Speeches c
  generate_speech profile_id speech_id text s =
      let job : Job = record { profile_id = profile_id; speech_id = speech_id; text = text } in
      record s {
        signals = insert speech_id s.next_channel s.signals;
        next_channel = suc s.next_channel;
        running = s.running ++ job ∷ [];
      }

  -- `close(rm.signals[speechId])`: it panics on a nil channel and on one that is closed.
  unfoldable pub close_signal : Text → Speeches c → Speeches c
  unfolding is_closed
  close_signal speech_id s = elim (lookup speech_id s.signals) [
    | none ↦ record s { panicked = true }
    | some channel ↦
        if is_closed channel s.closed
        then record s { panicked = true }
        else record s { closed = channel ∷ s.closed }
  ]

  -- The goroutine of a job: errors are logged, and the signal is closed in the end. The job has
  -- left the list.
  unfoldable pub finish : Job → Speeches c → Speeches c
  unfolding close_signal generated_cache
  finish job s =
      let (res, o) = text_to_speech c job.profile_id job.text s.outside in
      let spoken = record s { outside = o } in
      let after : Speeches c = elim res [
        | err e ↦ spoken
        | ok audio ↦
            (cached (add_blob c.redis c.prefix generated_cache job.speech_id audio) spoken).1
      ] in
      close_signal job.speech_id after

  -- The end of `GeneratedSpeech`: the answer of the cache.
  unfoldable pub retrieve : Text → Speeches c → Speeches c
  unfolding generated_cache
  retrieve speech_id s =
      let (res, t) = cached (get_blob c.redis c.prefix generated_cache speech_id) s in
      record t { replies = t.replies ++ (speech_id, retrieved res) ∷ [] }

  -- The start of `GeneratedSpeech`: a caller that finds a signal waits for it.
  unfoldable pub ask : Text → Speeches c → Speeches c
  unfolding retrieve
  ask speech_id s = elim (lookup speech_id s.signals) [
    | none ↦ retrieve speech_id s
    | some channel ↦
        let waiter : Waiter = record { channel = channel; speech_id = speech_id } in
        record s { waiting = s.waiting ++ waiter ∷ [] }
  ]

  -- A caller whose signal is closed removes what is under the id then. The waiter has left the
  -- list.
  unfoldable pub wake : Waiter → Speeches c → Speeches c
  unfolding retrieve
  wake w s = retrieve w.speech_id (record s { signals = delete w.speech_id s.signals })

  -- A caller whose context is done.
  unfoldable pub cancel : Error → Waiter → Speeches c → Speeches c
  cancel e w s = record s { replies = s.replies ++ (w.speech_id, err e) ∷ [] }
