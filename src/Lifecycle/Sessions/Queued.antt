-- ===== src/Lifecycle/Sessions/Queued.antt =====
-- A session that is found or made leaves the queue of the suspended sessions as it is.
use srv.Platform.Orm.ListLaws.{push-keeps}
use srv.Storage.Types.{suspended_packets_key}
use srv.Storage.Sessions.{save_suspended_session_packets}
use srv.Storage.Handoff.{save_suspended_session_packets-Simulates}
use srv.Protocol.Chunk.{ContentPacket}
use srv.Lifecycle.Transcribe.{stop_transcribing}
use srv.Prelude.{true, List, Bool-cases}
use srv.Prelude.{
  ◌≡◌, ◌≢◌, refl, ap, sym, ◌∙◌, none, Option-cases, inl, inr, [], ◌∷◌, ◌++◌, Result, Result-cases,
  ok, err, Exec, and_then, Text, codes, lookup, length, ltb, append_cancel, if_intro, subst,
  text_discrete, arith,
}
use srv.Platform.Redis.Spec.{Keyspace, exec, text_at, Documented}
use srv.Platform.Redis.Simulation.{spec_redis}
use srv.Platform.Orm.Keys.{raw_key, delete_storage}
use srv.Platform.Orm.Objects.{fetch_value_at_key, store_object, missing}
use srv.Platform.Orm.Laws.{put_other, delete-spec, store-keeps}
use srv.Storage.Types.{
  SessionState, Store, session_state_key, conversation_key, suspended_session_queue,
}
use srv.Platform.Orm.Keys.{storable_list}
use srv.Storage.Conversation.{get_conversation}
use srv.Storage.Sessions.{load_session_state, save_session_state}
use srv.Storage.Handoff.{load_session_state-Simulates, save_session_state-Simulates}
use srv.Storage.Users.Simulation.{spec_store, get_conversation-Simulates}
use srv.Lifecycle.Session.{
  Backend, Session, Live, start, notify_needs_auth, whisperer_online, set_participants, join_all,
}
use srv.Lifecycle.Sessions.{Server, live_of, get_session, started, new_session}

queue_apart :
    (prefix id : Text)
    → raw_key prefix suspended_session_queue ≢ raw_key prefix (session_state_key id)
unfolding raw_key suspended_session_queue storable_list session_state_key
queue_apart prefix id e = ground (
  arith,
  append_cancel prefix (codes "list:suspended-session-list") (codes "session-state:" ++ id) e,
)

packets_apart :
    (prefix id : Text)
    → raw_key prefix suspended_session_queue ≢ raw_key prefix (suspended_packets_key id)
unfolding raw_key suspended_session_queue storable_list suspended_packets_key
packets_apart prefix id e = ground (
  arith,
  append_cancel prefix (codes "list:suspended-session-list") (codes "suspended-packets:" ++ id) e,
)

module _ (st : Store) where
  abbrev pub key : Text
  key = raw_key st.prefix suspended_session_queue

  kept_after :
      {A B : Type 0} (res : Result A) (m : Keyspace) (f : A → Exec Keyspace B)
      → ((a : A) → (f a m).1 key ≡ m key)
      → (and_then (res, m) f).1 key ≡ m key
  kept_after (ok a) m f h = h a
  kept_after (err e) m f h = refl

  kept_then :
      {A B : Type 0} (r : Result A × Keyspace) (m : Keyspace) (f : A → Exec Keyspace B)
      → r.1 key ≡ m key
      → ((a : A) → (f a r.1).1 key ≡ r.1 key)
      → (and_then r f).1 key ≡ m key
  kept_then (ok a, u) m f e h = h a ∙ e
  kept_then (err x, u) m f e h = e

  deletion-keeps :
      (id : Text) (m : Keyspace)
      → (delete_storage spec_redis st.prefix (session_state_key id) m).1 key ≡ m key
  unfolding session_state_key
  deletion-keeps [] m = unfold delete_storage text_discrete in refl
  deletion-keeps (c ∷ id) m =
      ap (λ r. r.1 key) (delete-spec st.prefix (session_state_key (c ∷ id)) m (λ e. cc))
      ∙ put_other _ key none m (queue_apart st.prefix (c ∷ id))

  load-keeps : (id : Text) (m : Keyspace) → (load_session_state (spec_store st) id m).1 key ≡ m key
  unfolding load_session_state fetch_value_at_key exec
  load-keeps id m =
      kept_then (fetch_value_at_key spec_redis st.prefix st.session_states (session_state_key id) m)
        m (λ s u. (ok s, (delete_storage spec_redis st.prefix (session_state_key s.id) u).1))
        (kept_after (missing (text_at (m (raw_key st.prefix (session_state_key id))))) m
          (λ bytes u. (st.session_states.from_redis bytes, u)) (λ a. refl))
        (λ s. deletion-keeps s.id _)

  conversation-keeps :
      (id : Text) (m : Keyspace) → (get_conversation (spec_store st) id m).1 key ≡ m key
  unfolding get_conversation fetch_value_at_key exec
  conversation-keeps id m =
      kept_after (missing (text_at (m (raw_key st.prefix (conversation_key id))))) m
        (λ bytes s. (st.conversations.from_redis bytes, s)) (λ a. refl)

  save-keeps :
      (s : SessionState) (m : Keyspace) → (save_session_state (spec_store st) s m).1 key ≡ m key
  unfolding save_session_state store_object
  save-keeps s m =
      store-keeps st.prefix st.session_states (session_state_key s.id) s m key
        (queue_apart st.prefix s.id)

  packets-keeps :
      (id : Text) (ps : List ContentPacket) (m : Keyspace)
      → (save_suspended_session_packets (spec_store st) id ps m).1 key ≡ m key
  unfolding save_suspended_session_packets
  packets-keeps id [] m = refl
  packets-keeps id (p ∷ ps) m =
      push-keeps st.prefix (suspended_packets_key id) _ m key (packets_apart st.prefix id)

module _ (b : Backend) (d : Documented b.store.redis) where
  -- The queue's key and the health of the client.
  abbrev pub SameQueue : b.store.redis.World → b.store.redis.World → Type 0
  SameQueue w u = (d.view u (key b.store) ≡ d.view w (key b.store)) × d.Healthy u

  load-SameQueue :
      (id : Text) (w : b.store.redis.World)
      → d.Healthy w
      → SameQueue w (load_session_state b.store id w).1
  load-SameQueue id w up =
      let s = load_session_state-Simulates b.store d id in
      (ap (λ m. m (key b.store)) (s.keeps w up) ∙ load-keeps b.store id (d.view w), s.healthy w up)

  conversation-SameQueue :
      (id : Text) (w : b.store.redis.World)
      → d.Healthy w
      → SameQueue w (get_conversation b.store id w).1
  conversation-SameQueue id w up =
      let s = get_conversation-Simulates b.store d id in
      (
        ap (λ m. m (key b.store)) (s.keeps w up) ∙ conversation-keeps b.store id (d.view w),
        s.healthy w up,
      )

  notify-redis : (t : Live b) → (notify_needs_auth b t).redis ≡ t.redis
  unfolding notify_needs_auth
  notify-redis t =
      if_intro {A = Live b} (λ u. u.redis ≡ t.redis) (ltb 0 (length t.session.state.waitlist))
        (if_intro {A = Live b} (λ u. u.redis ≡ t.redis)
          (whisperer_online t.session.state.participants) refl refl)
        refl

  start-redis : (t : Live b) → (start b t).1.redis ≡ t.redis
  unfolding start
  start-redis t =
      let started = b.manager.start_session t.session.id t.pubsub in
      elim (Result-cases started.0) [
        | inr (x, e) ↦ rw (e, start) refl
        | inl (u, e) ↦
            elim (Result-cases (join_all b t.session.id t.session.state.participants started.1).0) [
              | inr (x, f) ↦ rw (e, start, f) refl
              | inl (v, f) ↦
                  (let joined = join_all b t.session.id t.session.state.participants started.1 in
                    rw (e, start, f)
                      (notify-redis (set_participants joined.1 (record t { pubsub = joined.2 }))))
            ]
      ]

  started-redis : (id : Text) (s : Session) (v : Server b) → (started b id s v).1.redis ≡ v.redis
  unfolding started
  started-redis id s v = elim (Result-cases (start b (live_of b s v)).0) [
    | inr (x, e) ↦ rw (e, started) (start-redis (live_of b s v))
    | inl (u, e) ↦ rw (e, started) (start-redis (live_of b s v))
  ]

  pub get_session-SameQueue :
      (id : Text) (v : Server b)
      → d.Healthy v.redis
      → SameQueue v.redis (get_session b id v).1.redis
  unfolding get_session
  get_session-SameQueue id v up = elim (Option-cases (lookup id v.sessions)) [
    | inr (s, e) ↦ rw (e, get_session) (refl, up)
    | inl e ↦
        let (kept, up1) = load-SameQueue id v.redis up in
        elim (Result-cases (load_session_state b.store id v.redis).0) [
          | inr (x, l) ↦ rw (e, l, get_session) (kept, up1)
          | inl (state, l) ↦
              let w = (load_session_state b.store id v.redis).1 in
              let (same, up2) = conversation-SameQueue id w up1 in
              elim (Result-cases (get_conversation b.store id w).0) [
                | inr (x, f) ↦ rw (e, l, f, get_session) (same ∙ kept, up2)
                | inl (c, f) ↦
                    rw (e, l, f, get_session)
                      (subst (SameQueue v.redis)
                        (sym (
                          started-redis id (new_session b id c.owner state)
                            (record v { redis = (get_conversation b.store id w).1 })))
                        (same ∙ kept, up2))
              ]
        ]
  ]

  -- A state that is saved is under another key, or under none.
  pub save-SameQueue :
      (s : SessionState) (w : b.store.redis.World)
      → d.Healthy w
      → SameQueue w (save_session_state b.store s w).1
  save-SameQueue s w up =
      let sim = save_session_state-Simulates b.store d s in
      (
        ap (λ m. m (key b.store)) (sim.keeps w up) ∙ save-keeps b.store s (d.view w),
        sim.healthy w up,
      )

  packets-SameQueue :
      (id : Text) (ps : List ContentPacket) (w : b.store.redis.World)
      → d.Healthy w
      → SameQueue w (save_suspended_session_packets b.store id ps w).1
  packets-SameQueue id ps w up =
      let sim = save_suspended_session_packets-Simulates b.store d id ps in
      (
        ap (λ m. m (key b.store)) (sim.keeps w up) ∙ packets-keeps b.store id ps (d.view w),
        sim.healthy w up,
      )

  saved-SameQueue :
      (t : Live b) (ps : List ContentPacket)
      → t.session.live_packets ≡ ps
      → t.session.shutting_down ≡ true
      → d.Healthy t.redis
      → SameQueue t.redis (stop_transcribing b t).redis
  unfolding stop_transcribing
  saved-SameQueue t [] live e up = rw (e, stop_transcribing, live) (refl, up)
  saved-SameQueue t (p ∷ ps) live e up =
      rw (e, stop_transcribing, live) (packets-SameQueue t.session.id (p ∷ ps) t.redis up)

  -- What a session leaves that is cancelled.
  pub stop-SameQueue :
      (t : Live b) → d.Healthy t.redis → SameQueue t.redis (stop_transcribing b t).redis
  unfolding stop_transcribing
  stop-SameQueue t up = elim (Bool-cases t.session.shutting_down) [
    | inr e ↦ rw (e, stop_transcribing) (refl, up)
    | inl e ↦ saved-SameQueue t t.session.live_packets refl e up
  ]
