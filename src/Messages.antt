-- ===== src/Messages.antt =====
-- types/messages.ts: the frames between client and server. Times are ISO strings.
use halengine.Prelude.{ℕ, Text, Bool, Option, List, Number}
use halengine.Session.{SessionEntry}

pub record ConversationCursor : Type 0 where
  pub updated_at : Text
  pub session_id : Text

pub data IncomingMessage : Type 0 where
  user_message : Text → IncomingMessage
  ping : Number → IncomingMessage
  list_conversations : Option ℕ → Option ConversationCursor → IncomingMessage

pub data ResumeFailure : Type 0 where
  expired unknown : ResumeFailure

pub record ConnectedMessage : Type 0 where
  pub session_id : Text
  pub message : Text
  pub example_prompts : List Text
  pub resumed : Option Bool
  pub entry_count : Option ℕ
  pub resume_failure : Option ResumeFailure

pub record ConversationSummary : Type 0 where
  pub session_id : Text
  pub created_at : Text
  pub updated_at : Text
  pub entry_count : ℕ
  pub preview : Option Text

pub data OutgoingMessage : Type 0 where
  connected : ConnectedMessage → OutgoingMessage
  conversation_list : List ConversationSummary → OutgoingMessage
  entry_upsert : (index : ℕ) → SessionEntry → OutgoingMessage
  entry_delta : (index : ℕ) → Text → OutgoingMessage
  entry_commit : (index : ℕ) → OutgoingMessage
  entry_skip : (index : ℕ) → OutgoingMessage
  error : (code message : Text) (retry_after_ms : Option ℕ) → OutgoingMessage
  pong : Number → OutgoingMessage
  stream_end : OutgoingMessage
