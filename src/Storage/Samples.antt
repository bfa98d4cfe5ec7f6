-- ===== src/Storage/Samples.antt =====
-- A store for the examples: codecs that encode enough of the stored values.
use srv.Prelude.{
  ℕ, zero, suc, ◌≡◌, refl, List, [], ◌∷◌, external, Result, ok, err, Text, codes, text_discrete,
  Dict,
}
use srv.Platform.Redis.Simulation.{spec_redis}
use srv.Platform.Orm.Objects.{RedisValue}
use srv.Storage.Types.{Conversation, SessionState, Participant, PastTextLine, Transcript, Store}
use srv.Storage.Transcripts.{create_session_transcript}

-- A codec that encodes nothing.
pub no_codec : {A : Type 0} → RedisValue A
no_codec = record {
  to_redis = λ a. err (external 1);
  from_redis = λ b. err (external 1);
  decodes = λ a b e. absurd (cc e);
}

-- A codec that encodes the states that have nothing but an id.
abbrev pub state_with : Text → SessionState
state_with id = record {
  id = id;
  participants = [];
  waitlist = [];
  past_text = [];
  started_at = 0;
  ended_at = 0;
}

abbrev pub plain :
    Text → Dict Participant → List Participant → List PastTextLine → ℕ → ℕ → Result Text
plain id [] [] [] zero zero = ok id
plain id _ _ _ _ _ = err (external 1)

pub plain-decodes :
    (id : Text) (ps : Dict Participant) (ws : List Participant) (ls : List PastTextLine) (m n : ℕ)
    (b : Text)
    → plain id ps ws ls m n ≡ ok b
    → ◌≡◌ {A = Result SessionState} (ok (state_with b)) (
        ok (record {
          id = id;
          participants = ps;
          waitlist = ws;
          past_text = ls;
          started_at = m;
          ended_at = n;
        }))
plain-decodes id [] [] [] zero zero b e = cc
plain-decodes id (p ∷ ps) ws ls m n b e = absurd (cc e)
plain-decodes id [] (w ∷ ws) ls m n b e = absurd (cc e)
plain-decodes id [] [] (l ∷ ls) m n b e = absurd (cc e)
plain-decodes id [] [] [] (suc m) n b e = absurd (cc e)
plain-decodes id [] [] [] zero (suc n) b e = absurd (cc e)

abbrev pub state_codec : RedisValue SessionState
state_codec = record {
  to_redis = λ s. plain s.id s.participants s.waitlist s.past_text s.started_at s.ended_at;
  from_redis = λ b. ok (state_with b);
  decodes = λ s. plain-decodes s.id s.participants s.waitlist s.past_text s.started_at s.ended_at;
}

-- The transcript that the codec below encodes.
abbrev pub sample_transcript : Transcript
sample_transcript = create_session_transcript (codes "t1") (state_with (codes "convo-1"))

abbrev pub sealed :
    {P Q R : Type 0} → Dec P → Dec Q → Dec R → List PastTextLine → ℕ → ℕ → Result Text
sealed (yes p) (yes q) (yes r) [] zero zero = ok []
sealed _ _ _ _ _ _ = err (external 1)

pub sealed-decodes :
    (id conv name : Text) (c : Dec (id ≡ codes "t1")) (d : Dec (conv ≡ codes "convo-1"))
    (e : Dec (name ≡ codes "Unknown Whisperer")) (ls : List PastTextLine) (m n : ℕ) (b : Text)
    → sealed c d e ls m n ≡ ok b
    → ◌≡◌ {A = Result Transcript} (ok sample_transcript) (
        ok (record {
          id = id;
          conversation_id = conv;
          whisperer_name = name;
          start_time = m;
          end_time = n;
          past_text = ls;
        }))
unfolding create_session_transcript
sealed-decodes id conv name (no c) d e ls m n b h = absurd (cc h)
sealed-decodes id conv name (yes c) (no d) e ls m n b h = absurd (cc h)
sealed-decodes id conv name (yes c) (yes d) (no e) ls m n b h = absurd (cc h)
sealed-decodes id conv name (yes c) (yes d) (yes e) (l ∷ ls) m n b h = absurd (cc h)
sealed-decodes id conv name (yes c) (yes d) (yes e) [] (suc m) n b h = absurd (cc h)
sealed-decodes id conv name (yes c) (yes d) (yes e) [] zero (suc n) b h = absurd (cc h)
sealed-decodes id conv name (yes c) (yes d) (yes e) [] zero zero b h = rw (c, d, e) refl

abbrev pub transcript_codec : RedisValue Transcript
transcript_codec = record {
  to_redis = λ t.
      sealed (text_discrete t.id (codes "t1")) (text_discrete t.conversation_id (codes "convo-1"))
        (text_discrete t.whisperer_name (codes "Unknown Whisperer")) t.past_text t.start_time
        t.end_time;
  from_redis = λ b. ok sample_transcript;
  decodes = λ t b h.
      sealed-decodes t.id t.conversation_id t.whisperer_name _ _ _ t.past_text t.start_time
        t.end_time b h;
}

-- A codec that encodes the conversations of one owner that have no name.
abbrev pub conversation_with : Text → Conversation
conversation_with id = record { id = id; owner = codes "owner"; name = [] }

abbrev pub nameless : {P : Type 0} → Text → Dec P → Text → Result Text
nameless id (yes p) [] = ok id
nameless id _ _ = err (external 1)

pub nameless-decodes :
    (id owner name : Text) (c : Dec (owner ≡ codes "owner")) (b : Text)
    → nameless id c name ≡ ok b
    → ◌≡◌ {A = Result Conversation}
        (ok (conversation_with b))
        (ok (record { id = id; owner = owner; name = name }))
nameless-decodes id owner name (no c) b h = absurd (cc h)
nameless-decodes id owner (x ∷ name) (yes c) b h = absurd (cc h)
nameless-decodes id owner [] (yes c) b h = cc

abbrev pub conversation_codec : RedisValue Conversation
conversation_codec = record {
  to_redis = λ c. nameless c.id (text_discrete c.owner (codes "owner")) c.name;
  from_redis = λ b. ok (conversation_with b);
  decodes = λ c b h. nameless-decodes c.id c.owner c.name _ b h;
}

abbrev pub store : Store
store = record {
  redis = spec_redis;
  prefix = codes "t:";
  profiles = no_codec;
  conversations = conversation_codec;
  activities = no_codec;
  session_states = state_codec;
  transcripts = transcript_codec;
}
