-- ===== src/Storage/Profile.antt =====
-- Profiles, the map from email hashes to profiles, and the conversations that a profile owns.
use srv.Prelude.{List, Exec, Text}
use srv.Platform.Orm.Keys.{delete_storage}
use srv.Platform.Orm.Maps.{get_map_value, set_map_value, get_map_all, map_remove_key}
use srv.Platform.Orm.Objects.{fetch_value_at_key, store_object}
use srv.Storage.Types.{
  Profile, Conversation, Store, profile_key, email_profile_map, owned_conversations_key,
}

module _ (st : Store) where
  open st use {redis, prefix, profiles}

  -- The object that is fetched into has only its id.
  unfoldable pub get_profile : Text → Exec redis.World Profile
  get_profile id = fetch_value_at_key redis prefix profiles (profile_key id)

  unfoldable pub save_profile : Profile → Exec redis.World (Unit {0})
  save_profile p = store_object redis prefix profiles (λ q. profile_key q.id) p

  unfoldable pub delete_profile : Text → Exec redis.World (Unit {0})
  delete_profile id = delete_storage redis prefix (profile_key id)

  unfoldable pub get_email_profile : Text → Exec redis.World Text
  get_email_profile hashed_email = get_map_value redis prefix email_profile_map hashed_email

  unfoldable pub set_email_profile : Text → Text → Exec redis.World (Unit {0})
  set_email_profile hashed_email profile_id =
      set_map_value redis prefix email_profile_map hashed_email profile_id

  unfoldable pub remove_email_profile : Text → Exec redis.World (Unit {0})
  remove_email_profile hashed_email = map_remove_key redis prefix email_profile_map hashed_email

  unfoldable pub add_owned_conversation : Conversation → Exec redis.World (Unit {0})
  add_owned_conversation c =
      set_map_value redis prefix (owned_conversations_key c.owner) c.name c.id

  unfoldable pub remove_owned_conversation : Conversation → Exec redis.World (Unit {0})
  remove_owned_conversation c = map_remove_key redis prefix (owned_conversations_key c.owner) c.name

  unfoldable pub get_owned_conversation_id_by_name : Text → Text → Exec redis.World Text
  get_owned_conversation_id_by_name profile_id name =
      get_map_value redis prefix (owned_conversations_key profile_id) name

  unfoldable pub get_owned_conversations_name_to_id_map :
      Text → Exec redis.World (List (Text × Text))
  get_owned_conversations_name_to_id_map profile_id =
      get_map_all redis prefix (owned_conversations_key profile_id)
