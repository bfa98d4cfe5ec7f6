-- ===== src/Storage/Handoff.antt =====
-- What one server saves, the next one finds.
use srv.Prelude.{
  ◌≡◌, ◌≢◌, refl, sym, ap, ap₂, ◌∙◌, none, some, List, [], ◌∷◌, ◌++◌, append-nil, map, not_found,
  Result, ok, err, Text, All, Lacks, false,
}
use srv.Platform.Redis.Spec.{Keyspace, put, str, list_at, Documented}
use srv.Platform.Redis.Simulation.{
  spec_redis, Simulates, Simulates-bind, Simulates-handle, Simulates-lift, Simulates-then,
}
use srv.Platform.Orm.Keys.{raw_key}
use srv.Platform.Orm.Objects.{store_object}
use srv.Platform.Orm.Refinement.{
  delete_storage-Simulates, fetch_value_at_key-Simulates, store_value_at_key-Simulates,
  push_list_members-Simulates, fetch_list_range-Simulates, set_expiration-Simulates,
}
use srv.Platform.Orm.Laws.{
  put_other, put_self, store-spec, fetch-spec, fetch_missing-spec, delete-spec,
}
use srv.Platform.Orm.ListLaws.{list_at-keep_list, push_list_members-spec, fetch_list_all-spec}
use srv.Protocol.Chunk.{ContentPacket, packet_string, parse_content_packet}
use srv.Protocol.Chunk.RoundTrip.{parse_content_packet-packet_string}
use srv.Storage.Types.{SessionState, Store, session_state_key, suspended_packets_key}
use srv.Storage.Sessions.{
  save_session_state, load_session_state, save_suspended_session_packets,
  load_suspended_session_packets,
}

parse_packets :
    (ps : List ContentPacket)
    → All (λ p. Lacks b'|' p.packet_id) ps
    → map parse_content_packet (map packet_string ps) ≡ ps
parse_packets [] l = refl
parse_packets (p ∷ ps) (h, l) =
    ap₂ (λ x xs. x ∷ xs) (parse_content_packet-packet_string p h) (parse_packets ps l)

-- The same store over the specification.
abbrev spec_store : Store → Store
spec_store st = record st { redis = spec_redis }

module _ (st : Store) (d : Documented st.redis) where
  pub load_session_state-Simulates :
      (id : Text) → Simulates d (load_session_state st id) (load_session_state (spec_store st) id)
  unfolding load_session_state
  load_session_state-Simulates id =
      Simulates-bind d (fetch_value_at_key-Simulates d st.prefix st.session_states _) (λ s.
        Simulates-handle d (delete_storage-Simulates d st.prefix _) (λ _. Simulates-lift d (ok s)))

  pub save_session_state-Simulates :
      (s : SessionState)
      → Simulates d (save_session_state st s) (save_session_state (spec_store st) s)
  unfolding save_session_state store_object
  save_session_state-Simulates s = store_value_at_key-Simulates d st.prefix st.session_states _ s

  pub save_suspended_session_packets-Simulates :
      (id : Text) (ps : List ContentPacket)
      → Simulates d
          (save_suspended_session_packets st id ps)
          (save_suspended_session_packets (spec_store st) id ps)
  unfolding save_suspended_session_packets
  save_suspended_session_packets-Simulates id [] = Simulates-lift d (ok tt)
  save_suspended_session_packets-Simulates id (p ∷ ps) =
      push_list_members-Simulates d st.prefix _ false _

  load_suspended_session_packets-Simulates :
      (id : Text)
      → Simulates d
          (load_suspended_session_packets st id)
          (load_suspended_session_packets (spec_store st) id)
  unfolding load_suspended_session_packets
  load_suspended_session_packets-Simulates id =
      Simulates-bind d (fetch_list_range-Simulates d st.prefix _ _ _) (λ strings.
        Simulates-handle d (set_expiration-Simulates d st.prefix _ _)
          (λ _. Simulates-lift d (ok (map parse_content_packet strings))))

module _ (st : Store) where
  save_session_state-spec :
      (s : SessionState) (b : Text) (m : Keyspace)
      → s.id ≢ []
      → st.session_states.to_redis s ≡ ok b
      → save_session_state (spec_store st) s m ≡ (
        ok tt,
        put
            (raw_key st.prefix (session_state_key s.id))
            (some (record { value = str b; ttl = none }))
            m,
      )
  unfolding save_session_state store_object session_state_key
  save_session_state-spec s b m n e =
      store-spec st.prefix st.session_states (session_state_key s.id) s b m n e

  load_session_state-spec :
      (s : SessionState) (b : Text) (m : Keyspace)
      → s.id ≢ []
      → st.session_states.to_redis s ≡ ok b
      → m (raw_key st.prefix (session_state_key s.id)) ≡ some (record { value = str b; ttl = none })
      → load_session_state (spec_store st) s.id m
        ≡ (ok s, put (raw_key st.prefix (session_state_key s.id)) none m)
  unfolding load_session_state session_state_key
  load_session_state-spec s b m n e there =
      rw
        (
          fetch-spec st.prefix st.session_states (session_state_key s.id) s b none m there
              (st.session_states.decodes s b e),
          delete-spec st.prefix (session_state_key s.id) m n,
        )
        refl

  load_session_state_missing-spec :
      (id : Text) (m : Keyspace)
      → m (raw_key st.prefix (session_state_key id)) ≡ none
      → load_session_state (spec_store st) id m ≡ (err not_found, m)
  unfolding load_session_state
  load_session_state_missing-spec id m gone =
      rw (fetch_missing-spec st.prefix st.session_states (session_state_key id) m gone) refl

-- The list of the packets of a session.
abbrev packets_at : Store → Text → Keyspace → Result (List Text)
packets_at st id m = list_at (m (raw_key st.prefix (suspended_packets_key id)))

map-append :
    (ps qs : List ContentPacket)
    → map packet_string (ps ++ qs) ≡ map packet_string ps ++ map packet_string qs
map-append [] qs = refl
map-append (p ∷ ps) qs = ap (◌∷◌ (packet_string p)) (map-append ps qs)

module _ (st : Store) (id : Text) where
  packets_saved :
      (earlier ps : List ContentPacket) (m : Keyspace)
      → id ≢ []
      → packets_at st id m ≡ ok (map packet_string earlier)
      → let saved = save_suspended_session_packets (spec_store st) id ps m in
        (saved.0 ≡ ok tt) × (packets_at st id saved.1 ≡ ok (map packet_string (earlier ++ ps)))
  unfolding save_suspended_session_packets suspended_packets_key
  packets_saved earlier [] m n e =
      (refl, e ∙ ap (λ x. ok (map packet_string x)) (sym (append-nil earlier)))
  packets_saved earlier (p ∷ ps) m n e =
      let key = raw_key st.prefix (suspended_packets_key id) in
      let pushed =
        push_list_members-spec st.prefix (suspended_packets_key id) n m e
          (map packet_string (p ∷ ps)) in
      (
        ap (λ q. q.0) pushed,
        ap (λ q. list_at (q.1 key)) pushed
            ∙ (ap list_at (put_self key _ m)
                ∙ (list_at-keep_list _ _ ∙ ap ok (sym (map-append earlier (p ∷ ps))))),
      )

  packets_loaded :
      (strings : List Text) (m : Keyspace)
      → id ≢ []
      → packets_at st id m ≡ ok strings
      → (load_suspended_session_packets (spec_store st) id m).0
        ≡ ok (map parse_content_packet strings)
  unfolding load_suspended_session_packets suspended_packets_key
  packets_loaded strings m n e =
      rw (fetch_list_all-spec st.prefix (suspended_packets_key id) n m e) refl

module _ (st : Store) (d : Documented st.redis) (w : st.redis.World) (h : d.Healthy w) where
  -- Over a healthy client, a session state that has an id and an encoding is saved without an
  -- error; the next server that loads it gets that state, and to load it once more does not find
  -- it.
  pub load_session_state-save :
      (s : SessionState) (b : Text)
      → s.id ≢ []
      → st.session_states.to_redis s ≡ ok b
      → let saved = save_session_state st s w in
        let loaded = load_session_state st s.id saved.1 in
        (saved.0 ≡ ok tt)
        × (loaded.0 ≡ ok s)
        × ((load_session_state st s.id loaded.1).0 ≡ err not_found)
  load_session_state-save s b n e =
      let key = raw_key st.prefix (session_state_key s.id) in
      let save = save_session_state-Simulates st d s in
      let load = load_session_state-Simulates st d s.id in
      let spec_load = load_session_state (spec_store st) s.id in
      let stored = save_session_state-spec st s b (d.view w) n e in
      let w1 = (save_session_state st s w).1 in
      let h1 = save.healthy w h in
      let view1 = save.keeps w h ∙ ap (λ p. p.1) stored in
      let found = load_session_state-spec st s b _ n e (put_self key _ (d.view w)) in
      let view2 = load.keeps w1 h1 ∙ (ap (λ m. (spec_load m).1) view1 ∙ ap (λ p. p.1) found) in
      (
        save.reply w h ∙ ap (λ p. p.0) stored,
        load.reply w1 h1 ∙ (ap (λ m. (spec_load m).0) view1 ∙ ap (λ p. p.0) found),
        load.reply (load_session_state st s.id w1).1 (load.healthy w1 h1)
            ∙ (ap (λ m. (spec_load m).0) view2
                ∙ ap (λ p. p.0) (load_session_state_missing-spec st s.id _ (put_self key none _))),
      )

  -- Over a healthy client, for an id that is not empty, where the list of the session holds the
  -- strings of earlier packets or is not there: packets are saved without an error and are then
  -- loaded after the earlier ones, in order, if no packet id holds a bar.
  pub load_suspended_session_packets-save :
      (id : Text) (earlier ps : List ContentPacket)
      → id ≢ []
      → list_at (d.view w (raw_key st.prefix (suspended_packets_key id)))
        ≡ ok (map packet_string earlier)
      → All (λ p. Lacks b'|' p.packet_id) (earlier ++ ps)
      → let saved = save_suspended_session_packets st id ps w in
        (saved.0 ≡ ok tt) × ((load_suspended_session_packets st id saved.1).0 ≡ ok (earlier ++ ps))
  load_suspended_session_packets-save id earlier ps n e l =
      let save = save_suspended_session_packets-Simulates st d id ps in
      let load = load_suspended_session_packets-Simulates st d id in
      let (saved, there) = packets_saved st id earlier ps (d.view w) n e in
      (
        save.reply w h ∙ saved,
        Simulates-then d save load w h
            ∙ (packets_loaded st id _ _ n there ∙ ap ok (parse_packets (earlier ++ ps) l)),
      )

-- Over a healthy client that has nothing under its key, a session state is not found.
pub load_session_state_missing :
    (st : Store) (d : Documented st.redis) (id : Text) (w : st.redis.World)
    → d.Healthy w
    → d.view w (raw_key st.prefix (session_state_key id)) ≡ none
    → (load_session_state st id w).0 ≡ err not_found
load_session_state_missing st d id w h gone =
    (load_session_state-Simulates st d id).reply w h
    ∙ ap (λ p. p.0) (load_session_state_missing-spec st id (d.view w) gone)

-- The keys after a save and a load, over a healthy client: only the key of the state has changed.
pub load_session_state-view :
    (st : Store) (d : Documented st.redis) (s : SessionState) (b : Text) (w : st.redis.World)
    → d.Healthy w
    → s.id ≢ []
    → st.session_states.to_redis s ≡ ok b
    → let loaded = load_session_state st s.id (save_session_state st s w).1 in
      d.Healthy loaded.1
      × ((j : Text)
          → j ≢ raw_key st.prefix (session_state_key s.id)
          → d.view loaded.1 j ≡ d.view w j)
load_session_state-view st d s b w h n e =
    let key = raw_key st.prefix (session_state_key s.id) in
    let save = save_session_state-Simulates st d s in
    let load = load_session_state-Simulates st d s.id in
    let spec_load = load_session_state (spec_store st) s.id in
    let w1 = (save_session_state st s w).1 in
    let h1 = save.healthy w h in
    let view1 = save.keeps w h ∙ ap (λ p. p.1) (save_session_state-spec st s b (d.view w) n e) in
    let found = load_session_state-spec st s b _ n e (put_self key _ (d.view w)) in
    let view2 = load.keeps w1 h1 ∙ (ap (λ m. (spec_load m).1) view1 ∙ ap (λ p. p.1) found) in
    (
      load.healthy w1 h1,
      λ j other.
          ap (λ m. m j) view2 ∙ (put_other key j none _ other ∙ put_other key j _ (d.view w) other),
    )
