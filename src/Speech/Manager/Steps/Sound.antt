-- ===== src/Speech/Manager/Steps/Sound.antt =====
-- Under ids that are not in use, no step panics.
use srv.Prelude.{
  ℕ, suc, ◌<◌, ◌≡◌, ◌≢◌, refl, sym, ap, ◌∙◌, Bool, false, some, List, [], ◌∷◌, ◌++◌, Text,
  text_discrete, Dict, lookup, insert, lookup-insert, lookup-insert_self, lookup-insert_ne, Each,
  Each-insert, All, All-weaken, All-both, All-snoc, All-middle, arith,
}
use srv.Speech.Resemble.{Resemble}
use srv.Speech.Manager.{Job, Waiter, Speeches, is_closed}

-- The channel under the id of a job is there and open.
pub record IsOpen (signals : Dict ℕ) (closed : List ℕ) (j : Job) : Type 0 where
  pub channel : ℕ
  pub found : lookup j.speech_id signals ≡ some channel
  pub is_open : is_closed channel closed ≡ false

-- While a job of the same id runs, a caller waits on the channel of that job.
abbrev pub Knows : Dict ℕ → List Job → Waiter → Type 0
Knows signals running w =
    All (λ j. j.speech_id ≡ w.speech_id → lookup w.speech_id signals ≡ some w.channel) running

-- No two jobs have one id.
abbrev Once : List Job → Type 0
Once [] = Unit
Once (j ∷ js) = All (λ i. i.speech_id ≢ j.speech_id) js × Once js

pub record SoundParts (panicked : Bool) (signals : Dict ℕ) (closed : List ℕ) (next : ℕ)
    (running : List Job) (waiting : List Waiter) : Type 0 where
  pub calm : panicked ≡ false
  pub below : Each (λ k channel. channel < next) signals
  pub closed_below : All (λ channel. channel < next) closed
  pub apart :
      (j k : Text) (channel : ℕ)
      → lookup j signals ≡ some channel
      → lookup k signals ≡ some channel
      → j ≡ k
  pub opened : All (IsOpen signals closed) running
  pub once : Once running
  pub waiters : All (Knows signals running) waiting

abbrev pub Sound : {c : Resemble} → Speeches c → Type 0
Sound s = SoundParts s.panicked s.signals s.closed s.next_channel s.running s.waiting

Once-snoc :
    (js : List Job) (i : Job)
    → Once js
    → All (λ j. j.speech_id ≢ i.speech_id) js
    → Once (js ++ i ∷ [])
Once-snoc [] i h n = (tt, tt)
Once-snoc (j ∷ js) i (h, hs) (n, ns) =
    (All-snoc (λ x. x.speech_id ≢ j.speech_id) js i h (λ e. n (sym e)), Once-snoc js i hs ns)

Once-middle :
    (xs : List Job) (j : Job) (ys : List Job)
    → Once (xs ++ j ∷ ys)
    → All (λ i. i.speech_id ≢ j.speech_id) (xs ++ ys) × Once (xs ++ ys)
Once-middle [] j ys h = h
Once-middle (x ∷ xs) j ys (h, hs) =
    let (k, ks) = Once-middle xs j ys hs in
    let (a, b) = All-middle (λ i. i.speech_id ≢ x.speech_id) xs j ys h in
    ((λ e. a (sym e), k), (b, ks))

-- A channel that was never made is not closed.
pub new_is_open : (n : ℕ) (closed : List ℕ) → All (λ x. x < n) closed → is_closed n closed ≡ false
unfolding is_closed
new_is_open n [] h = refl
new_is_open n (x ∷ xs) (h, hs) = ground (arith, new_is_open n xs hs)

still_open :
    (channel other : ℕ) (closed : List ℕ)
    → other ≢ channel
    → is_closed channel closed ≡ false
    → is_closed channel (other ∷ closed) ≡ false
unfolding is_closed
still_open channel other closed n h = ground arith

module _ {p : Bool} {signals : Dict ℕ} {closed : List ℕ} {next : ℕ} {waiting : List Waiter} where
  -- A job that leaves closes its channel.
  pub closes :
      (before after : List Job) (j : Job)
      → SoundParts p signals closed next (before ++ j ∷ after) waiting
      → (o : IsOpen signals closed j)
      → SoundParts p signals (o.channel ∷ closed) next (before ++ after) waiting
  closes before after j h o =
      let (mine, rest) = All-middle (IsOpen signals closed) before j after h.opened in
      let (others, alone) = Once-middle before j after h.once in
      record {
        calm = h.calm;
        below = h.below;
        closed_below = (h.below.at j.speech_id o.channel o.found, h.closed_below);
        apart = h.apart;
        opened =
            All-both (before ++ after)
              (λ i (k : IsOpen signals closed i) (n : i.speech_id ≢ j.speech_id). record {
                channel = k.channel;
                found = k.found;
                is_open =
                    still_open k.channel o.channel closed
                      (λ e.
                        n (h.apart i.speech_id j.speech_id k.channel k.found (o.found ∙ ap some e)))
                      k.is_open;
              })
              rest others;
        once = alone;
        waiters =
            All-weaken waiting
              (λ w k.
                (All-middle
                  (λ i. i.speech_id ≡ w.speech_id → lookup w.speech_id signals ≡ some w.channel)
                  before j after k).1)
              h.waiters;
      }

  apart_after :
      (id j k : Text) (ch : ℕ) (running : List Job)
      → SoundParts p signals closed next running waiting
      → lookup j (insert id next signals) ≡ some ch
      → lookup k (insert id next signals) ≡ some ch
      → j ≡ k
  apart_after id j k ch running h e f =
      let e' = sym (lookup-insert id j next signals) ∙ e in
      let f' = sym (lookup-insert id k next signals) ∙ f in
      elim (text_discrete id j) [
        | yes a ↦ elim (text_discrete id k) [
          | yes b ↦ sym a ∙ b
          | no b ↦ absurd (ground (arith, e', f', h.below.at k ch))
        ]
        | no a ↦ elim (text_discrete id k) [
          | yes b ↦ absurd (ground (arith, e', f', h.below.at j ch))
          | no b ↦
              h.apart j k ch (sym (lookup-insert_ne id j next signals a) ∙ e)
                (sym (lookup-insert_ne id k next signals b) ∙ f)
        ]
      ]

  -- A new channel under an id that is not in use.
  pub opens :
      (running : List Job) (j : Job)
      → SoundParts p signals closed next running waiting
      → All (λ i. i.speech_id ≢ j.speech_id) running
      → All (λ w. w.speech_id ≢ j.speech_id) waiting
      → SoundParts p (insert j.speech_id next signals) closed (suc next) (running ++ j ∷ []) waiting
  opens running j h free quiet =
      let id = j.speech_id in
      record {
        calm = h.calm;
        below =
            Each-insert id next signals (omega arith)
              (record { at = λ k ch found. let lower = h.below.at k ch found in omega arith });
        closed_below = All-weaken closed (λ x lower. omega arith) h.closed_below;
        apart = λ j k ch. apart_after id j k ch running h;
        opened =
            All-snoc (IsOpen (insert id next signals) closed) running j
              (All-both running
                (λ i (k : IsOpen signals closed i) (n : i.speech_id ≢ id). record {
                  channel = k.channel;
                  found = lookup-insert_ne id i.speech_id next signals (λ e. n (sym e)) ∙ k.found;
                  is_open = k.is_open;
                })
                h.opened free)
              (record {
                channel = next;
                found = lookup-insert_self id next signals;
                is_open = new_is_open next closed h.closed_below;
              });
        once = Once-snoc running j h.once free;
        waiters =
            All-both waiting
              (λ w (k : Knows signals running w) (n : w.speech_id ≢ id).
                All-snoc
                  (λ i.
                    i.speech_id ≡ w.speech_id
                    → lookup w.speech_id (insert id next signals) ≡ some w.channel)
                  running j
                  (All-weaken running
                    (λ i known same.
                      lookup-insert_ne id w.speech_id next signals (λ e. n (sym e)) ∙ known same)
                    k)
                  (λ same. absurd (n (sym same))))
              h.waiters quiet;
      }
