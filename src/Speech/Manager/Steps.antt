-- ===== src/Speech/Manager/Steps.antt =====
-- The steps of the manager in any order, and what holds in every state they lead to.
pub mod Sound
pub mod Safe
pub mod Reuse
use srv.Prelude.{◌≡◌, ◌≢◌, true, List, ◌∷◌, ◌++◌, Text, Error, All}
use srv.Speech.Resemble.{Resemble}
use srv.Speech.Manager.{
  Job, Waiter, Speeches, is_closed, generate_speech, finish, ask, wake, cancel,
}

-- No job that runs, and no caller that waits, has the id.
pub record Unused {c : Resemble} (speech_id : Text) (s : Speeches c) : Type 0 where
  pub jobs : All (λ j. j.speech_id ≢ speech_id) s.running
  pub waiters : All (λ w. w.speech_id ≢ speech_id) s.waiting

module _ {c : Resemble} where
  -- One step. A job and a waiter are taken from anywhere in their lists.
  pub data Step (s : Speeches c) : Speeches c → Type 0 where
    generates :
        (profile_id speech_id text : Text) → Step s (generate_speech profile_id speech_id text s)
    finishes :
        (before after : List Job) (j : Job)
        → s.running ≡ before ++ j ∷ after
        → Step s (finish j (record s { running = before ++ after }))
    asks : (speech_id : Text) → Step s (ask speech_id s)
    wakes :
        (before after : List Waiter) (w : Waiter)
        → s.waiting ≡ before ++ w ∷ after
        → is_closed w.channel s.closed ≡ true
        → Step s (wake w (record s { waiting = before ++ after }))
    cancels :
        (e : Error) (before after : List Waiter) (w : Waiter)
        → s.waiting ≡ before ++ w ∷ after
        → Step s (cancel e w (record s { waiting = before ++ after }))

  -- A speech is only asked for under an id that is not in use.
  abbrev pub IsCareful : {s t : Speeches c} → Step s t → Type 0
  IsCareful {s} (generates profile_id speech_id text) = Unused speech_id s
  IsCareful _ = Unit {0}

  -- Steps in a row.
  pub data Run (s : Speeches c) : Speeches c → Type 0 where
    start : Run s s
    step : {t u : Speeches c} → Run s t → (r : Step t u) → IsCareful r → Run s u
