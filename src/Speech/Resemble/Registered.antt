-- ===== src/Speech/Resemble/Registered.antt =====
-- A voice and a token that are registered are used.
use srv.Prelude.{
  ◌≡◌, ◌≢◌, refl, ap, ◌∙◌, ite, Bool-cases, inl, inr, List, [], ◌∷◌, Result, ok, err, external,
  Text, text_discrete, if◌then◌else◌,
}
use srv.Platform.Redis.Spec.{hash_at, Documented}
use srv.Platform.Orm.Keys.{raw_key, storable_map}
use srv.Platform.Orm.MapLaws.{get_map_value-set}
use srv.Speech.Resemble.{
  Resemble, ResembleVoice, Outside, profile_tokens, profile_voices, resemble_default_voice,
  or_default, or_default_voice, validate_api_token, register_profile_token, get_profile_token,
  register_profile_voice, get_profile_voice,
}

choice : {A B P : Type 0} (f : A → B) (c : Dec P) (x y : A) → f (ite c x y) ≡ ite c (f x) (f y)
choice f (yes p) x y = refl
choice f (no n) x y = refl

abbrev voice_of : (c : Resemble) → Result Text → ResembleVoice
voice_of c res = elim res [
  | ok s ↦ or_default_voice (c.service.unmarshal_voice s)
  | err e ↦ resemble_default_voice
]

abbrev token_of : (c : Resemble) → Result Text → Text
token_of c res = elim res [
  | ok token ↦ or_default c.resemble_token token
  | err e ↦ c.resemble_token
]

has_uuid : (v : ResembleVoice) → v.uuid ≢ [] → or_default_voice v ≡ v
has_uuid v n = with_id v v.uuid refl n
  where
    with_id : (v : ResembleVoice) (u : Text) → v.uuid ≡ u → u ≢ [] → or_default_voice v ≡ v
    with_id v [] e n = absurd (n refl)
    with_id v (x ∷ t) e n = rw e refl

tokens_key : profile_tokens.storage_id ≢ []
unfolding profile_tokens storable_map
tokens_key e = cc

voices_key : profile_voices.storage_id ≢ []
unfolding profile_voices storable_map
voices_key e = cc

module _ (c : Resemble) (d : Documented c.redis) where
  -- Over a healthy client, where the map of the voices is one or nothing: a voice that has an id
  -- and whose encoding decodes to it is registered for a profile without an error, and is then the
  -- voice of that profile, and every other profile has the voice that it had.
  pub get_profile_voice-register :
      (w : c.redis.World) (fs : List (Text × Text))
      → d.Healthy w
      → hash_at (d.view w (raw_key c.prefix profile_voices)) ≡ ok fs
      → (profile_id j : Text) (v : ResembleVoice) → v.uuid ≢ []
      → c.service.unmarshal_voice (c.service.marshal_voice v) ≡ v
      → let r = register_profile_voice c profile_id v w in
        (r.0 ≡ ok tt)
        × ((get_profile_voice c j r.1).0
            ≡ ite (text_discrete profile_id j) v (get_profile_voice c j w).0)
  unfolding register_profile_voice get_profile_voice
  get_profile_voice-register w fs up h profile_id j v n e =
      let (fine, there) =
        get_map_value-set d c.prefix profile_voices voices_key w up h profile_id
          (c.service.marshal_voice v) j in
      (
        fine,
        ap (voice_of c) there
            ∙ (choice (voice_of c) (text_discrete profile_id j) _ _
                ∙ ap (λ x. ite (text_discrete profile_id j) x (get_profile_voice c j w).0)
                    (ap or_default_voice e ∙ has_uuid v n)),
      )

  -- Over a healthy client, where the map of the tokens is one or nothing: a token that the service
  -- accepts is registered without an error and is then the token of the profile, or the server's
  -- own when it is empty; a token that the service does not accept is an error, and changes no
  -- profile's token. The other profiles keep their tokens.
  pub get_profile_token-register :
      (o : Outside c) (fs : List (Text × Text))
      → d.Healthy o.redis
      → hash_at (d.view o.redis (raw_key c.prefix profile_tokens)) ≡ ok fs
      → (profile_id j token : Text)
      → let valid = (validate_api_token c token o.net).0 in
        let r = register_profile_token c profile_id token o in
        let before = (get_profile_token c j o.redis).0 in
        (r.0 ≡ (if valid then ok tt else err (external 3)))
        × ((get_profile_token c j r.1.redis).0 ≡ (
            if valid
            then ite (text_discrete profile_id j) (or_default c.resemble_token token) before
            else before))
  unfolding register_profile_token get_profile_token
  get_profile_token-register o fs up h profile_id j token =
      let (fine, there) =
        get_map_value-set d c.prefix profile_tokens tokens_key o.redis up h profile_id token j in
      elim (Bool-cases (validate_api_token c token o.net).0) [
        | inr e ↦ rw (e, register_profile_token) (refl, refl)
        | inl e ↦
            rw (e, register_profile_token)
              (fine, ap (token_of c) there ∙ choice (token_of c) (text_discrete profile_id j) _ _)
      ]
