-- ===== src/Storage/Transcripts.antt =====
-- Transcripts of ended sessions.
use srv.Prelude.{
  ℕ, ◌*◌, Option, none, some, [], ◌∷◌, redis_nil, Result, ok, err, Exec, pure, lift, handle, ◌>>=◌,
  ◌>>◌, Text, codes, Dict, if◌then◌else◌, pos,
}
use srv.Platform.Orm.Keys.{set_expiration, delete_storage}
use srv.Platform.Orm.Objects.{fetch_value_at_key, store_object}
use srv.Storage.Types.{Participant, SessionState, Transcript, Store, transcript_key}

-- `range` over the participants, in the order of the entries: the first whisperer's name.
whisperer_name : Dict Participant → Text
whisperer_name [] = codes "Unknown Whisperer"
whisperer_name ((k, p) ∷ ps) = if p.is_whisperer then p.name else whisperer_name ps

unfoldable pub create_session_transcript : Text → SessionState → Transcript
unfolding whisperer_name
create_session_transcript id state = record {
  id = id;
  conversation_id = state.id;
  whisperer_name = whisperer_name state.participants;
  start_time = state.started_at;
  end_time = state.ended_at;
  past_text = state.past_text;
}

abbrev pub year_secs : ℕ
year_secs = 365 * 24 * 60 * 60

-- `errors.Is(err, redis.Nil)`: no transcript and no error.
abbrev pub or_none : Result Transcript → Result (Option Transcript)
or_none (ok t) = ok (some t)
or_none (err redis_nil) = ok none
or_none (err e) = err e

module _ (st : Store) where
  open st use {redis, prefix, transcripts}

  -- The error of the expiry is dropped.
  unfoldable pub save_transcript : Transcript → Exec redis.World (Unit {0})
  save_transcript t = do
    store_object redis prefix transcripts (λ x. transcript_key x.id) t
    handle (set_expiration redis prefix (transcript_key t.id) (pos year_secs)) (λ _. pure tt)

  -- A transcript that is read is kept for another year.
  abbrev pub renew : Option Transcript → Exec redis.World (Option Transcript)
  renew none = pure none
  renew (some t) =
      handle (set_expiration redis prefix (transcript_key t.id) (pos year_secs))
        (λ _. pure (some t))

  unfoldable pub load_transcript : Text → Exec redis.World (Option Transcript)
  load_transcript id =
      handle (fetch_value_at_key redis prefix transcripts (transcript_key id))
        (λ res. lift (or_none res))
      >>= renew

  unfoldable pub delete_transcript : Text → Exec redis.World (Unit {0})
  delete_transcript id = delete_storage redis prefix (transcript_key id)
