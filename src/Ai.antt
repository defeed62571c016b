-- ===== src/Ai.antt =====
-- types/ai.ts: messages to a provider, its chunks, and its errors.
use halengine.Prelude.{ℕ, Text, Bool, Option, List, Fields}
use halengine.Messages.{OutgoingMessage}

pub record ToolCallContent : Type 0 where
  pub tool_use_id : Text
  pub name : Text
  pub input : Fields
  pub signature : Option Text

pub record ToolResultContent : Type 0 where
  pub tool_use_id : Text
  pub content : Text
  pub is_error : Bool

pub data Speaker : Type 0 where
  from_user from_assistant : Speaker

pub data Message : Type 0 where
  text_message : Speaker → Text → Message
  tool_use_message : List ToolCallContent → Message
  tool_result_message : List ToolResultContent → Message

pub record ToolDefinition : Type 0 where
  pub name : Text
  pub description : Text
  pub input_schema : Fields
  pub prompt_instructions : Option Text
  pub example_prompts : Option (List Text)

pub record ToolCall : Type 0 where
  pub id : Text
  pub name : Text
  pub input : Fields
  pub signature : Option Text

pub record UsageMetadata : Type 0 where
  pub input_tokens : ℕ
  pub output_tokens : ℕ
  pub total_tokens : ℕ

pub data MessageChunk : Type 0 where
  text_chunk : Text → MessageChunk
  tool_use : ToolCall → MessageChunk
  tool_result : List OutgoingMessage → MessageChunk
  suppress_output : MessageChunk
  stop : (stop_reason : Text) → Option UsageMetadata → MessageChunk

-- What a call can throw: an `AIError`, or anything else.
pub data Thrown : Type 0 where
  ai_error : (message code : Text) (retryable : Bool) → Thrown
  other_error : (message : Text) → Thrown
