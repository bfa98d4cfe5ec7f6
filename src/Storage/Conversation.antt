-- ===== src/Storage/Conversation.antt =====
-- Conversations and their allowed listeners.
use srv.Prelude.{
  ite, Bool, true, false, List, [], ◌∷◌, Exec, pure, ◌>>=◌, Text, codes, text_discrete,
}
use srv.Platform.Orm.Keys.{delete_storage}
use srv.Platform.Orm.Sets.{fetch_set_members, is_set_member, add_set_members, remove_set_members}
use srv.Platform.Orm.Objects.{fetch_value_at_key, store_object}
use srv.Protocol.Content.{new_id}
use srv.Storage.Types.{Conversation, Store, conversation_key, allowed_listeners_key}

-- `random` is the random part of the id.
unfoldable pub new_conversation : Text → Text → Text → Conversation
unfolding new_id
new_conversation random owner name = record {
  id = new_id (codes "convo-") random;
  owner = owner;
  name = name;
}

module _ (st : Store) where
  open st use {redis, prefix, conversations}

  unfoldable pub get_conversation : Text → Exec redis.World Conversation
  get_conversation id = fetch_value_at_key redis prefix conversations (conversation_key id)

  unfoldable pub save_conversation : Conversation → Exec redis.World (Unit {0})
  save_conversation c = store_object redis prefix conversations (λ x. conversation_key x.id) c

  unfoldable pub delete_conversation : Text → Exec redis.World (Unit {0})
  delete_conversation id = delete_storage redis prefix (conversation_key id)

  unfoldable pub is_owned_conversation : Text → Text → Exec redis.World Bool
  is_owned_conversation profile_id conversation_id = do
    c ← get_conversation conversation_id
    pure (ite (text_discrete c.owner profile_id) true false)

  unfoldable pub is_allowed_listener : Text → Text → Exec redis.World Bool
  is_allowed_listener conversation_id profile_id =
      is_set_member redis prefix (allowed_listeners_key conversation_id) profile_id

  unfoldable pub add_allowed_listener : Text → Text → Exec redis.World (Unit {0})
  add_allowed_listener conversation_id profile_id =
      add_set_members redis prefix (allowed_listeners_key conversation_id) (profile_id ∷ [])

  unfoldable pub remove_allowed_listener : Text → Text → Exec redis.World (Unit {0})
  remove_allowed_listener conversation_id profile_id =
      remove_set_members redis prefix (allowed_listeners_key conversation_id) (profile_id ∷ [])

  unfoldable pub list_allowed_listeners : Text → Exec redis.World (List Text)
  list_allowed_listeners conversation_id =
      fetch_set_members redis prefix (allowed_listeners_key conversation_id)
