-- ===== src/Speech/Examples.antt =====
-- The theorems on speech at concrete inputs, for a service with fixed answers.
use srv.Prelude.{◌++◌, ℕ, ◌≡◌, true, false, none, [], ◌∷◌, ok, err, external, codes}
use srv.Platform.Redis.Spec.{Keyspace}
use srv.Platform.Redis.Simulation.{spec_redis}
use srv.Speech.Resemble.{ResembleVoice, Service, Resemble, Outside, text_to_speech}
use srv.Speech.Resemble.Spoken.{Spoken, text_to_speech-Spoken}
use srv.Speech.Manager.{Job, Speeches, get_resemble_manager, generate_speech, ask, finish}
use srv.Speech.Manager.Steps.{Run, start, step, generates, asks}
use srv.Speech.Manager.Steps.Safe.{Run-calm}
use srv.Speech.Manager.Steps.Reuse.{reused_id-panics}

-- A voice is encoded by its id, and every text to speak becomes one audio.
abbrev service : Service
service = record {
  Net = ℕ;
  send = λ r n. (ok (record { status = 200; body = r.body }), n);
  decode_generic = λ t. ok true;
  decode_voices = λ t. err (external 1);
  decode_tts = λ t. ok (record { success = true; audio = t });
  marshal_tts = λ r. r.text;
  marshal_voice = λ v. v.uuid;
  unmarshal_voice = λ t. record { uuid = t; name = [] };
  decode_base64 = λ t. ok t;
}

abbrev resemble : Resemble
resemble = record {
  redis = spec_redis;
  prefix = codes "t:";
  service = service;
  resemble_token = codes "token";
}

abbrev empty : Keyspace
empty k = none

abbrev outside : Outside resemble
outside = record { redis = empty; net = 0 }

abbrev voice : ResembleVoice
voice = record { uuid = codes "v"; name = [] }

text_to_speech-Spoken_example :
    (((text_to_speech resemble (codes "p") (codes "hi") outside).0 ≡ ok (codes "hi"))
      → Spoken resemble (codes "p") (codes "hi") outside (codes "hi"))
    × (Spoken resemble (codes "p") (codes "hi") outside (codes "hi")
        → (text_to_speech resemble (codes "p") (codes "hi") outside).0 ≡ ok (codes "hi"))
text_to_speech-Spoken_example =
    text_to_speech-Spoken resemble (codes "p") (codes "hi") outside (codes "hi")

-- A speech is asked for, and then a caller waits for it.
abbrev asked : Speeches resemble
asked = generate_speech (codes "p") (codes "s") (codes "hi") (get_resemble_manager outside)

asked-Run : Run (get_resemble_manager outside) (ask (codes "s") asked)
unfolding get_resemble_manager
asked-Run =
    step
      (step start (generates (codes "p") (codes "s") (codes "hi"))
        (record { jobs = tt; waiters = tt }))
      (asks (codes "s")) tt

Run-calm_example : (ask (codes "s") asked).panicked ≡ false
Run-calm_example = Run-calm outside (ask (codes "s") asked) asked-Run

-- Two jobs more have one id, while the first one still runs.
reused_id-panics_example :
    let first : Job = record { profile_id = codes "p"; speech_id = codes "t"; text = codes "hi" } in
    let second : Job = record {
      profile_id = codes "q";
      speech_id = codes "t";
      text = codes "you";
    } in
    let before = ask (codes "s") asked in
    let both =
      generate_speech
        (codes "q")
        (codes "t")
        (codes "you")
        (generate_speech (codes "p") (codes "t") (codes "hi") before) in
    let one_ended = finish first (record both { running = before.running ++ second ∷ [] }) in
    (both.running ≡ (before.running ++ first ∷ []) ++ second ∷ [])
    × ((finish second (record one_ended { running = before.running })).panicked ≡ true)
reused_id-panics_example =
    reused_id-panics outside (ask (codes "s") asked) (codes "p") (codes "q") (codes "t")
      (codes "hi") (codes "you") asked-Run
