-- ===== src/Handlers/Routes.antt =====
-- The routes of the console API.
pub mod Guarded
use srv.Lifecycle.Session.{Backend}
use srv.Handlers.Http.{Request, Web, Given, Http}
use srv.Handlers.Launch.{post_launch, get_shutdown, post_request_email}
use srv.Handlers.Profile.{
  patch_profile, get_whisper_conversations, post_whisper_conversation, get_whisper_conversation_id,
  delete_whisper_conversation,
}

-- A method and a path.
pub data Route : Type 0 where
  launch shutdown profile request_email list_conversations new_conversation : Route
  conversation_by_name removed_conversation : Route

unfoldable pub dispatch : {b : Backend} → Web → Given → Route → Request → Http b → Http b
unfolding post_launch get_shutdown patch_profile post_request_email get_whisper_conversations
    post_whisper_conversation get_whisper_conversation_id delete_whisper_conversation
dispatch web g launch = post_launch web g
dispatch web g shutdown = get_shutdown web g
dispatch web g profile = patch_profile web g
dispatch web g request_email = post_request_email web g
dispatch web g list_conversations = get_whisper_conversations web g
dispatch web g new_conversation = post_whisper_conversation web g
dispatch web g conversation_by_name = get_whisper_conversation_id web g
dispatch web g removed_conversation = delete_whisper_conversation web g
