-- ===== src/Storage/Sealed.antt =====
-- A transcript that is saved is found until a year has passed.
use srv.Prelude.{◌≡◌, ◌≢◌, refl, ◌∙◌, none, some, [], not_found, Option, ok, err, Text, pos}
use srv.Platform.Redis.Spec.{Keyspace, put, str, Documented, limited}
use srv.Platform.Redis.Simulation.{
  spec_redis, Simulates, Simulates-bind, Simulates-handle, Simulates-lift, Simulates-then,
}
use srv.Platform.Orm.Keys.{raw_key}
use srv.Platform.Orm.Time.{seconds}
use srv.Platform.Orm.Objects.{store_object}
use srv.Platform.Orm.Refinement.{
  fetch_value_at_key-Simulates, store_value_at_key-Simulates, set_expiration-Simulates,
}
use srv.Platform.Orm.Laws.{put_self, store-spec, fetch-spec, fetch_missing-spec}
use srv.Platform.Orm.ListLaws.{set_expiration-spec}
use srv.Storage.Types.{Transcript, Store, transcript_key}
use srv.Storage.Transcripts.{save_transcript, load_transcript, or_none, renew, year_secs}

module _ (st : Store) where
  save_transcript-spec :
      (t : Transcript) (b : Text) (m : Keyspace)
      → t.id ≢ []
      → st.transcripts.to_redis t ≡ ok b
      → let saved = save_transcript (record st { redis = spec_redis }) t m in
        (saved.0 ≡ ok tt)
        × (saved.1 (raw_key st.prefix (transcript_key t.id))
            ≡ some (record { value = str b; ttl = some (seconds (pos year_secs)) }))
  unfolding save_transcript store_object transcript_key limited seconds
  save_transcript-spec t b m n e =
      let key = raw_key st.prefix (transcript_key t.id) in
      let stored = store-spec st.prefix st.transcripts (transcript_key t.id) t b m n e in
      let expiring =
        set_expiration-spec st.prefix (transcript_key t.id) n
          (put key (some (record { value = str b; ttl = none })) m) (pos year_secs) in
      rw (stored, expiring) (refl, put_self key _ _ ∙ rw (put_self key _ m) refl)

  fetch_saved-spec :
      (t : Transcript) (b : Text) (m : Keyspace)
      → st.transcripts.to_redis t ≡ ok b
      → m (raw_key st.prefix (transcript_key t.id))
        ≡ some (record { value = str b; ttl = some (seconds (pos year_secs)) })
      → (load_transcript (record st { redis = spec_redis }) t.id m).0 ≡ ok (some t)
  unfolding load_transcript
  fetch_saved-spec t b m e there =
      rw
        (fetch-spec st.prefix st.transcripts (transcript_key t.id) t b _ m there
          (st.transcripts.decodes t b e))
        refl

  fetch_missing_transcript-spec :
      (id : Text) (m : Keyspace)
      → m (raw_key st.prefix (transcript_key id)) ≡ none
      → (load_transcript (record st { redis = spec_redis }) id m).0 ≡ err not_found
  unfolding load_transcript
  fetch_missing_transcript-spec id m gone =
      rw (fetch_missing-spec st.prefix st.transcripts (transcript_key id) m gone) refl

module _ (st : Store) (d : Documented st.redis) where
  pub save_transcript-Simulates :
      (t : Transcript)
      → Simulates d (save_transcript st t) (save_transcript (record st { redis = spec_redis }) t)
  unfolding save_transcript store_object
  save_transcript-Simulates t =
      Simulates-bind d (store_value_at_key-Simulates d st.prefix st.transcripts _ t) (λ _.
        Simulates-handle d (set_expiration-Simulates d st.prefix _ _)
          (λ _. Simulates-lift d (ok tt)))

  renew-Simulates :
      (found : Option Transcript)
      → Simulates d (renew st found) (renew (record st { redis = spec_redis }) found)
  renew-Simulates none = Simulates-lift d (ok none)
  renew-Simulates (some t) =
      Simulates-handle d (set_expiration-Simulates d st.prefix _ _)
        (λ _. Simulates-lift d (ok (some t)))

  load_transcript-Simulates :
      (id : Text)
      → Simulates d (load_transcript st id) (load_transcript (record st { redis = spec_redis }) id)
  unfolding load_transcript
  load_transcript-Simulates id =
      Simulates-bind d
        (Simulates-handle d (fetch_value_at_key-Simulates d st.prefix st.transcripts _)
          (λ res. Simulates-lift d (or_none res)))
        renew-Simulates

  -- Over a healthy client, a transcript that has an id and an encoding is saved without an error,
  -- and is then loaded as it was saved.
  pub load_transcript-save :
      (t : Transcript) (b : Text) (w : st.redis.World)
      → d.Healthy w
      → t.id ≢ []
      → st.transcripts.to_redis t ≡ ok b
      → let saved = save_transcript st t w in
        (saved.0 ≡ ok tt) × ((load_transcript st t.id saved.1).0 ≡ ok (some t))
  load_transcript-save t b w h n e =
      let save = save_transcript-Simulates t in
      let (stored, there) = save_transcript-spec st t b (d.view w) n e in
      (
        save.reply w h ∙ stored,
        Simulates-then d save (load_transcript-Simulates t.id) w h
            ∙ fetch_saved-spec st t b _ e there,
      )

  -- Over a healthy client that has nothing under its key, loading a transcript fails with
  -- `not_found`.
  pub load_transcript-missing :
      (id : Text) (w : st.redis.World)
      → d.Healthy w
      → d.view w (raw_key st.prefix (transcript_key id)) ≡ none
      → (load_transcript st id w).0 ≡ err not_found
  load_transcript-missing id w h gone =
      (load_transcript-Simulates id).reply w h ∙ fetch_missing_transcript-spec st id (d.view w) gone
