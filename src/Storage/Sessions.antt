-- ===== src/Storage/Sessions.antt =====
-- What one server leaves for the next: the queue of suspended sessions, the state of each, and the
-- packets that came in meanwhile.
use srv.Prelude.{
  ℕ, Bool, true, false, List, [], ◌∷◌, map, Exec, pure, lift, handle, ◌>>=◌, Text, pos, negsuc,
}
use srv.Platform.Orm.Time.{seconds}
use srv.Platform.Orm.Keys.{set_expiration, delete_storage, or_nil}
use srv.Platform.Orm.Lists.{
  fetch_list_range, fetch_list_member_blocking, push_list_members, remove_list_element,
}
use srv.Platform.Orm.Objects.{fetch_value_at_key, store_object}
use srv.Protocol.Chunk.{ContentPacket, packet_string, parse_content_packet}
use srv.Storage.Types.{
  SessionState, Participant, Store, session_state_key, suspended_packets_key,
  suspended_session_queue,
}

unfoldable pub new_session_state : ℕ → Text → SessionState
new_session_state now id = record {
  id = id;
  participants = [];
  waitlist = [];
  past_text = [];
  started_at = now;
  ended_at = 0;
}

unfoldable pub new_participant : ℕ → Text → Text → Text → Bool → Participant
new_participant now client_id profile_id name is_whisperer = record {
  client_id = client_id;
  profile_id = profile_id;
  name = name;
  is_whisperer = is_whisperer;
  is_online = false;
  joined_at = now;
}

module _ (st : Store) where
  open st use {redis, prefix, session_states}

  unfoldable pub add_suspended_session : Text → Exec redis.World (Unit {0})
  add_suspended_session id = push_list_members redis prefix suspended_session_queue true (id ∷ [])

  unfoldable pub remove_suspended_session : Text → Exec redis.World (Unit {0})
  remove_suspended_session id = remove_list_element redis prefix suspended_session_queue (pos 1) id

  -- The empty id stands for a timeout.
  unfoldable pub wait_for_suspended_session : ℕ → Exec redis.World Text
  wait_for_suspended_session timeout =
      handle
        (fetch_list_member_blocking redis prefix suspended_session_queue false
          (seconds (pos timeout)))
        (λ res. lift (or_nil [] res))

  unfoldable pub save_session_state : SessionState → Exec redis.World (Unit {0})
  save_session_state s = store_object redis prefix session_states (λ x. session_state_key x.id) s

  -- The error of the deletion is dropped.
  unfoldable pub load_session_state : Text → Exec redis.World SessionState
  load_session_state id = do
    s ← fetch_value_at_key redis prefix session_states (session_state_key id)
    handle (delete_storage redis prefix (session_state_key s.id)) (λ _. pure s)

  unfoldable pub save_suspended_session_packets :
      Text → List ContentPacket → Exec redis.World (Unit {0})
  save_suspended_session_packets id [] = pure tt
  save_suspended_session_packets id (p ∷ packets) =
      push_list_members redis prefix (suspended_packets_key id) false
        (map packet_string (p ∷ packets))

  -- The error of the expiry is dropped.
  unfoldable pub load_suspended_session_packets : Text → Exec redis.World (List ContentPacket)
  load_suspended_session_packets id = do
    strings ← fetch_list_range redis prefix (suspended_packets_key id) (pos 0) (negsuc 0)
    handle (set_expiration redis prefix (suspended_packets_key id) (pos 30))
        (λ _. pure (map parse_content_packet strings))
