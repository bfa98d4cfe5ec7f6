-- ===== src/Speech/Resemble/Spoken.antt =====
-- Where the audio of a text comes from.
use srv.Prelude.{◌≡◌, true, Bool-cases, inl, inr, ◌==◌, Result-cases, ok, Text}
use srv.Speech.Resemble.{
  Resemble, Outside, HttpResponse, ResembleTtsResponse, get_profile_token, get_profile_voice,
  tts_request, text_to_speech, extract_audio,
}

module _ (c : Resemble) (profile_id text : Text) (o : Outside c) where
  abbrev token : Text × c.redis.World
  token = get_profile_token c profile_id o.redis

  -- A successful response of the service to the one request, whose audio this is.
  pub record Spoken (audio : Text) : Type 0 where
    pub response : HttpResponse
    pub sent :
        (c.service.send
          (tts_request c token.0 (get_profile_voice c profile_id token.1).0 text)
          o.net).0
        ≡ ok response
    pub status : (response.status == 200) ≡ true
    pub decoded : ResembleTtsResponse
    pub decodes : c.service.decode_tts response.body ≡ ok decoded
    pub success : decoded.success ≡ true
    pub is_audio : c.service.decode_base64 decoded.audio ≡ ok audio

  -- Text becomes audio exactly when the service answers the one request, made with the token and
  -- the voice of the profile, with the status 200 and a success whose audio decodes to it.
  pub text_to_speech-Spoken :
      (audio : Text)
      → (((text_to_speech c profile_id text o).0 ≡ ok audio) → Spoken audio)
        × (Spoken audio → (text_to_speech c profile_id text o).0 ≡ ok audio)
  unfolding text_to_speech extract_audio
  text_to_speech-Spoken audio = (
    elim (Result-cases
        (c.service.send (tts_request c token.0 (get_profile_voice c profile_id token.1).0 text)
          o.net).0) [
            | inr (x, e) ↦ rw (e, text_to_speech) (λ bad. absurd (cc bad))
            | inl (r, e) ↦ elim (Bool-cases (r.status == 200)) [
              | inr f ↦ rw (e, text_to_speech, f) (λ bad. absurd (cc bad))
              | inl f ↦ elim (Result-cases (c.service.decode_tts r.body)) [
                | inr (x, h) ↦ rw (e, text_to_speech, f, h) (λ bad. absurd (cc bad))
                | inl (a, h) ↦ elim (Bool-cases a.success) [
                  | inr i ↦ rw (e, text_to_speech, f, h, i) (λ bad. absurd (cc bad))
                  | inl i ↦
                      rw (e, text_to_speech, f, h, i, extract_audio)
                        (λ good. record {
                          response = r;
                          sent = e;
                          status = f;
                          decoded = a;
                          decodes = h;
                          success = i;
                          is_audio = good;
                        })
                ]
              ]
            ]
          ],
    λ s. rw (s.sent, text_to_speech, s.status, s.decodes, s.success, extract_audio) s.is_audio,
  )
