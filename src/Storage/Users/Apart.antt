-- ===== src/Storage/Users/Apart.antt =====
-- The five kinds of keys that the creation of a user writes differ.
use srv.Prelude.{◌≢◌, ◌++◌, Text, codes, append_cancel, arith}
use srv.Platform.Orm.Keys.{raw_key, storable_map}
use srv.Storage.Types.{
  profile_key, conversation_key, owned_conversations_key, activity_key, email_profile_map,
}

pub profile_apart :
    (prefix p : Text) → raw_key prefix email_profile_map ≢ raw_key prefix (profile_key p)
unfolding raw_key email_profile_map storable_map profile_key
profile_apart prefix p e =
    ground (arith, append_cancel prefix (codes "map:email-profile-map") (codes "profile:" ++ p) e)

module _ (prefix k p : Text) where
  pub profile-conversation : raw_key prefix (profile_key p) ≢ raw_key prefix (conversation_key k)
  unfolding raw_key profile_key conversation_key
  profile-conversation e =
      ground (arith, append_cancel prefix (codes "profile:" ++ p) (codes "conversation:" ++ k) e)

  pub profile-owned : raw_key prefix (profile_key p) ≢ raw_key prefix (owned_conversations_key k)
  unfolding raw_key profile_key owned_conversations_key
  profile-owned e =
      ground
        (arith, append_cancel prefix (codes "profile:" ++ p) (codes "owned-conversations:" ++ k) e)

  pub profile-activity : raw_key prefix (profile_key p) ≢ raw_key prefix (activity_key k)
  unfolding raw_key profile_key activity_key
  profile-activity e =
      ground (arith, append_cancel prefix (codes "profile:" ++ p) (codes "activity-data:" ++ k) e)

  pub email-conversation : raw_key prefix email_profile_map ≢ raw_key prefix (conversation_key k)
  unfolding raw_key email_profile_map storable_map conversation_key
  email-conversation e =
      ground
        (arith, append_cancel prefix (codes "map:email-profile-map") (codes "conversation:" ++ k) e)

  pub email-owned : raw_key prefix email_profile_map ≢ raw_key prefix (owned_conversations_key k)
  unfolding raw_key email_profile_map storable_map owned_conversations_key
  email-owned e = ground (
    arith,
    append_cancel prefix (codes "map:email-profile-map") (codes "owned-conversations:" ++ k) e,
  )

  pub email-activity : raw_key prefix email_profile_map ≢ raw_key prefix (activity_key k)
  unfolding raw_key email_profile_map storable_map activity_key
  email-activity e =
      ground (
        arith,
        append_cancel prefix (codes "map:email-profile-map") (codes "activity-data:" ++ k) e,
      )
