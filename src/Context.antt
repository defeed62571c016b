-- ===== src/Context.antt =====
-- orchestration/conversationContext.ts: which of a session's entries a turn sends to the provider.
-- `JSON.stringify(content).length`, for a message of tool blocks, is the parameter `json_length`.
pub mod Window
pub mod Pairing
pub mod Examples
use halengine.Prelude.{
  ℕ, zero, suc, ◌+◌, ◌-◌, ◌/◌, ◌%◌, Text, text, Bool, true, false, Option, none, some, List, [],
  ◌∷◌, ◌++◌, length, drop, if◌then◌else◌, ltb, ◌==◌, decimal,
}
use halengine.Session.{SessionEntry, user, assistant, thinking, tool, other, is_cleared}
use halengine.Ai.{
  ToolCallContent, ToolResultContent, Message, text_message, tool_use_message, tool_result_message,
  from_user, from_assistant,
}

pub record ContextConfig : Type 0 where
  pub max_messages : ℕ
  pub max_content_length : ℕ

unfoldable pub create_context_config : Option ℕ → Option ℕ → ContextConfig
create_context_config max_messages max_content_length = record {
  max_messages = elim max_messages [ none ↦ 50 | some n ↦ n ];
  max_content_length = elim max_content_length [ none ↦ 100000 | some n ↦ n ];
}

abbrev pub synthetic_id : ℕ → Text
synthetic_id n = text "hist-" ++ decimal n

-- What one entry contributes, with the value of `toolCallCounter` before it.
unfoldable pub messages_of : ℕ → SessionEntry → List Message
messages_of counter (user e) = if e.cleared then [] else text_message from_user e.content ∷ []
messages_of counter (assistant e) =
    if e.cleared then [] else text_message from_assistant e.content ∷ []
messages_of counter (thinking e) = []
messages_of counter (other e) = []
messages_of counter (tool e) =
    if e.cleared
    then []
    else tool_use_message (
        record {
          tool_use_id = synthetic_id counter;
          name = e.tool_name;
          input = e.tool_input;
          signature = none;
        }
        ∷ [])
      ∷ tool_result_message (
          record {
            tool_use_id = synthetic_id counter;
            content = text "[result was returned to user]";
            is_error = false;
          }
          ∷ [])
      ∷ []

unfoldable pub counter_after : ℕ → SessionEntry → ℕ
counter_after counter (tool e) = if e.cleared then counter else counter + 1
counter_after counter e = counter

unfoldable pub content_from : ℕ → List SessionEntry → List Message
unfolding messages_of counter_after
content_from counter [] = []
content_from counter (e ∷ entries) =
    messages_of counter e ++ content_from (counter_after counter e) entries

unfoldable pub to_content_messages : List SessionEntry → List Message
unfolding content_from
to_content_messages entries = content_from 0 entries

-- messages.slice(-n): `-0` is 0, so that a count of 0 takes the whole list.
unfoldable pub slice_last {ℓ} : {A : Type ℓ} → ℕ → List A → List A
slice_last n xs = if n == 0 then xs else drop (length xs - n) xs

unfoldable pub opens_with_user_text : Message → Bool
opens_with_user_text (text_message from_user content) = true
opens_with_user_text _ = false

-- The loop that drops what stands before the first user message of text.
unfoldable pub from_user_text : List Message → List Message
unfolding opens_with_user_text
from_user_text [] = []
from_user_text (m ∷ rest) = if opens_with_user_text m then m ∷ rest else from_user_text rest

module _ (json_length : Message → ℕ) where
  unfoldable pub content_length : Message → ℕ
  content_length (text_message speaker content) = length content
  content_length m = json_length m

  unfoldable pub total_length : List Message → ℕ
  unfolding content_length
  total_length [] = 0
  total_length (m ∷ messages) = content_length m + total_length messages

  -- The loop that shifts messages off while the total is too long and more than one is left.
  unfoldable pub shift_while : ℕ → ℕ → List Message → List Message
  unfolding content_length
  shift_while most total [] = []
  shift_while most total (m ∷ []) = m ∷ []
  shift_while most total (m ∷ n ∷ rest) =
      if ltb most total
      then shift_while most (total - content_length m) (n ∷ rest)
      else m ∷ n ∷ rest

  unfoldable pub apply_message_window : List Message → ContextConfig → List Message
  unfolding slice_last total_length shift_while from_user_text
  apply_message_window messages config =
      let result = slice_last config.max_messages messages in
      from_user_text (shift_while config.max_content_length (total_length result) result)

  unfoldable pub to_messages : List SessionEntry → ContextConfig → List Message
  unfolding to_content_messages apply_message_window
  to_messages entries config = apply_message_window (to_content_messages entries) config
