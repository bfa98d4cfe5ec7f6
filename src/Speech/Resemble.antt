-- ===== src/Speech/Resemble.antt =====
-- The calls of the Resemble service, with the tokens and the voices of the profiles. The HTTP
-- client, encoding/json and encoding/base64 are parameters.
pub mod Registered
pub mod Spoken
use srv.Prelude.{
  ℕ, Bool, true, false, ◌==◌, List, [], ◌∷◌, ◌++◌, external, Result, ok, err, Exec, pure, raise,
  lift, handle, ◌>>=◌, ◌>>◌, Text, codes, if◌then◌else◌,
}
use srv.Platform.Redis.{Redis}
use srv.Platform.Orm.Keys.{RedisKey, storable_map}
use srv.Platform.Orm.Maps.{get_map_value, set_map_value}

pub record ResembleVoice : Type 0 where
  pub uuid : Text
  pub name : Text

pub record ResembleTtsRequest : Type 0 where
  pub uuid : Text
  pub text : Text
  pub model : Text
  pub format : Text

-- The duration, which nothing reads, is left out.
pub record ResembleTtsResponse : Type 0 where
  pub success : Bool
  pub audio : Text

pub record ResembleListVoicesResponse : Type 0 where
  pub success : Bool
  pub items : List ResembleVoice

pub record HttpRequest : Type 0 where
  pub method : Text
  pub url : Text
  pub headers : List (Text × Text)
  pub body : Text

pub record HttpResponse : Type 0 where
  pub status : ℕ
  pub body : Text

-- The network and the codecs. A decoder of a generic response gives its field `success`; a voice
-- that does not decode is what was decoded until then.
pub record Service : Type 1 where
  pub Net : Type 0
  pub send : HttpRequest → Exec Net HttpResponse
  pub decode_generic : Text → Result Bool
  pub decode_voices : Text → Result ResembleListVoicesResponse
  pub decode_tts : Text → Result ResembleTtsResponse
  pub marshal_tts : ResembleTtsRequest → Text
  pub marshal_voice : ResembleVoice → Text
  pub unmarshal_voice : Text → ResembleVoice
  pub decode_base64 : Text → Result Text

-- What the methods work with: the database and its prefix, the service, and the server's own token.
pub record Resemble : Type 1 where
  pub redis : Redis
  pub prefix : Text
  pub service : Service
  pub resemble_token : Text

-- The database and the network.
pub record Outside (c : Resemble) : Type 0 where
  pub redis : c.redis.World
  pub net : c.service.Net

unfoldable pub profile_tokens : RedisKey
unfolding storable_map
profile_tokens = storable_map (codes "resemble-profile-tokens")

unfoldable pub profile_voices : RedisKey
unfolding storable_map
profile_voices = storable_map (codes "resemble-profile-voices")

unfoldable pub resemble_default_voice : ResembleVoice
resemble_default_voice = record { uuid = codes "55592656"; name = codes "Ember" }

abbrev accept_json : Text × Text
accept_json = (codes "Accept", codes "application/json")

abbrev pub bearer : Text → Text × Text
bearer token = (codes "Authorization", codes "Bearer " ++ token)

abbrev failed : {A : Type 0} → Result A
failed = err (external 3)

-- The default when a text is empty.
abbrev pub or_default : Text → Text → Text
or_default d [] = d
or_default d (x ∷ t) = x ∷ t

-- The default when a voice has no id.
abbrev pub or_default_voice : ResembleVoice → ResembleVoice
or_default_voice v = elim v.uuid [ [] ↦ resemble_default_voice | x ∷ t ↦ v ]

module _ (c : Resemble) where
  abbrev with_redis : {A : Type 0} → Exec c.redis.World A → Exec (Outside c) A
  with_redis m o = let (res, w) = m o.redis in (res, record o { redis = w })

  abbrev with_net : {A : Type 0} → Exec c.service.Net A → Exec (Outside c) A
  with_net m o = let (res, w) = m o.net in (res, record o { net = w })

  -- A response whose status is not 200 is an error.
  abbrev accepted : HttpResponse → Exec c.service.Net Text
  accepted r = if r.status == 200 then pure r.body else lift (failed)

  unfoldable pub account_request : Text → HttpRequest
  account_request token = record {
    method = codes "GET";
    url = codes "https://app.resemble.ai/api/v2/account";
    headers = accept_json ∷ bearer token ∷ [];
    body = [];
  }

  abbrev success_of : Result Bool → Bool
  success_of (ok success) = success
  success_of (err e) = false

  unfoldable pub validate_api_token : Text → c.service.Net → Bool × c.service.Net
  unfolding account_request
  validate_api_token token w =
      let (res, w') =
        (do
          r ← c.service.send (account_request token)
          body ← accepted r
          lift (c.service.decode_generic body))
          w in
      (success_of res, w')

  unfoldable pub register_profile_token : Text → Text → Exec (Outside c) (Unit {0})
  unfolding validate_api_token
  register_profile_token profile_id token o =
      let (valid, w) = validate_api_token token o.net in
      if valid
      then with_redis (set_map_value c.redis c.prefix profile_tokens profile_id token)
          (record o { net = w })
      else (failed, record o { net = w })

  -- With an error the value is empty, and the server's token is used.
  unfoldable pub get_profile_token : Text → c.redis.World → Text × c.redis.World
  get_profile_token profile_id w =
      let (res, w') = get_map_value c.redis c.prefix profile_tokens profile_id w in
      (elim res [ ok token ↦ or_default c.resemble_token token | err e ↦ c.resemble_token ], w')

  unfoldable pub register_profile_voice : Text → ResembleVoice → Exec c.redis.World (Unit {0})
  register_profile_voice profile_id voice =
      set_map_value c.redis c.prefix profile_voices profile_id (c.service.marshal_voice voice)

  unfoldable pub get_profile_voice : Text → c.redis.World → ResembleVoice × c.redis.World
  unfolding resemble_default_voice
  get_profile_voice profile_id w =
      let (res, w') = get_map_value c.redis c.prefix profile_voices profile_id w in
      (
        elim res [
          | ok s ↦ or_default_voice (c.service.unmarshal_voice s)
          | err e ↦ resemble_default_voice
        ],
        w',
      )

  unfoldable pub voices_request : Text → HttpRequest
  voices_request token = record {
    method = codes "GET";
    url = codes "https://app.resemble.ai/api/v2/voices?page=1&page_size=500";
    headers = accept_json ∷ bearer token ∷ [];
    body = [];
  }

  abbrev items_of : ResembleListVoicesResponse → Result (List ResembleVoice)
  items_of r = if r.success then ok r.items else failed

  unfoldable pub list_voices : Text → Exec (Outside c) (List ResembleVoice)
  unfolding get_profile_token voices_request
  list_voices profile_id o =
      let (token, w) = get_profile_token profile_id o.redis in
      with_net
        (do
          r ← c.service.send (voices_request token)
          body ← accepted r
          response ← lift (c.service.decode_voices body)
          lift (items_of response))
        (record o { redis = w })

  unfoldable pub tts_request : Text → ResembleVoice → Text → HttpRequest
  tts_request token voice text = record {
    method = codes "POST";
    url = codes "https://f.cluster.resemble.ai/synthesize";
    headers = accept_json ∷ bearer token ∷ (codes "Content-Type", codes "application/json") ∷ [];
    body = c.service.marshal_tts (record {
      uuid = voice.uuid;
      text = text;
      model = codes "chatterbox-turbo";
      format = codes "mp3";
    });
  }

  unfoldable pub extract_audio : ResembleTtsResponse → Result Text
  extract_audio r = c.service.decode_base64 r.audio

  unfoldable pub text_to_speech : Text → Text → Exec (Outside c) Text
  unfolding get_profile_token get_profile_voice tts_request extract_audio
  text_to_speech profile_id text o =
      let (token, w1) = get_profile_token profile_id o.redis in
      let (voice, w2) = get_profile_voice profile_id w1 in
      with_net
        (do
          r ← c.service.send (tts_request token voice text)
          body ← accepted r
          response ← lift (c.service.decode_tts body)
          lift (if response.success then extract_audio response else failed))
        (record o { redis = w2 })
