-- ===== src/Handlers/Conversation.antt =====
-- The allowed listeners of a conversation, with the context of a request.
use srv.Prelude.{Bool, [], ◌∷◌, Exec, handle, pure, Text}
use srv.Platform.Orm.Sets.{is_set_member, add_set_members, remove_set_members}
use srv.Storage.Types.{Store, allowed_listeners_key}

module _ (st : Store) where
  open st use {redis, prefix}

  unfoldable pub is_allowed_listener : Text → Text → Exec redis.World Bool
  is_allowed_listener conversation_id profile_id =
      is_set_member redis prefix (allowed_listeners_key conversation_id) profile_id

  unfoldable pub add_allowed_listener : Text → Text → Exec redis.World (Unit {0})
  add_allowed_listener conversation_id profile_id =
      add_set_members redis prefix (allowed_listeners_key conversation_id) (profile_id ∷ [])

  -- An error is logged, and none is returned.
  unfoldable pub remove_allowed_listener : Text → Text → Exec redis.World (Unit {0})
  remove_allowed_listener conversation_id profile_id =
      handle
        (remove_set_members redis prefix (allowed_listeners_key conversation_id) (profile_id ∷ []))
        (λ res. pure tt)
