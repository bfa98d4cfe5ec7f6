-- ===== src/Storage/Types.antt =====
-- The stored types with their keys, and what all of storage works over.
use srv.Prelude.{ℕ, Bool, List, Text, codes, Dict}
use srv.Platform.Redis.{Redis}
use srv.Platform.Orm.Keys.{RedisKey, storable_list, storable_map}
use srv.Platform.Orm.Objects.{RedisValue}

pub record Profile : Type 0 where
  pub id : Text
  pub name : Text
  pub email_hash : Text
  pub secret : Text

pub record Conversation : Type 0 where
  pub id : Text
  pub owner : Text
  pub name : Text

-- Times are in milliseconds since the epoch.
pub record ActivityData : Type 0 where
  pub client_id : Text
  pub client_type : Text
  pub profile_id : Text
  pub launch_time : ℕ
  pub last_activity : Text
  pub last_time : ℕ

pub record Participant : Type 0 where
  pub client_id : Text
  pub profile_id : Text
  pub name : Text
  pub is_whisperer : Bool
  pub is_online : Bool
  pub joined_at : ℕ

pub record PastTextLine : Type 0 where
  pub time : ℕ
  pub text : Text

-- The participant map has one entry at most for each client id. An unended session ends at 0.
pub record SessionState : Type 0 where
  pub id : Text
  pub participants : Dict Participant
  pub waitlist : List Participant
  pub past_text : List PastTextLine
  pub started_at : ℕ
  pub ended_at : ℕ

pub record Transcript : Type 0 where
  pub id : Text
  pub conversation_id : Text
  pub whisperer_name : Text
  pub start_time : ℕ
  pub end_time : ℕ
  pub past_text : List PastTextLine

-- `StoragePrefix` and `StorageId` of each type.
unfoldable pub profile_key : Text → RedisKey
profile_key id = record { storage_prefix = codes "profile:"; storage_id = id }

unfoldable pub conversation_key : Text → RedisKey
conversation_key id = record { storage_prefix = codes "conversation:"; storage_id = id }

unfoldable pub activity_key : Text → RedisKey
activity_key id = record { storage_prefix = codes "activity-data:"; storage_id = id }

unfoldable pub session_state_key : Text → RedisKey
session_state_key id = record { storage_prefix = codes "session-state:"; storage_id = id }

unfoldable pub transcript_key : Text → RedisKey
transcript_key id = record { storage_prefix = codes "transcript:"; storage_id = id }

unfoldable pub allowed_listeners_key : Text → RedisKey
allowed_listeners_key id = record { storage_prefix = codes "allowed-listeners:"; storage_id = id }

unfoldable pub owned_conversations_key : Text → RedisKey
owned_conversations_key id = record {
  storage_prefix = codes "owned-conversations:";
  storage_id = id;
}

unfoldable pub suspended_packets_key : Text → RedisKey
suspended_packets_key id = record { storage_prefix = codes "suspended-packets:"; storage_id = id }

unfoldable pub email_profile_map : RedisKey
unfolding storable_map
email_profile_map = storable_map (codes "email-profile-map")

unfoldable pub suspended_session_queue : RedisKey
unfolding storable_list
suspended_session_queue = storable_list (codes "suspended-session-list")

-- The client, the prefix of its keys, and the gob codec of each type.
pub record Store : Type 1 where
  pub redis : Redis
  pub prefix : Text
  pub profiles : RedisValue Profile
  pub conversations : RedisValue Conversation
  pub activities : RedisValue ActivityData
  pub session_states : RedisValue SessionState
  pub transcripts : RedisValue Transcript
