-- ===== src/Orchestrator.antt =====
-- orchestration/chatOrchestrator.ts and orchestratorHelpers.ts: one turn, as a run over its state
-- that ends, throws, or is abandoned. What the code leaves to others is the record `Engine`.
pub mod Turn
pub mod Tooling
pub mod Loop
pub mod Process
pub mod Counts
pub mod Rounds
pub mod Budget
pub mod Hooks
pub mod Ending
pub mod Answers
pub mod Spoken
pub mod Heard
pub mod Examples
use halengine.Prelude.{
  ℕ, zero, suc, ◌+◌, ◌<◌, Text, text, Bool, true, false, ◌&&◌, Option, none, some, List, [], ◌∷◌,
  ◌++◌, Fields, Number, whole, minus, between, below, not_finite, min, if◌then◌else◌, ltb,
}
use halengine.Session.{ChatSession}
use halengine.Entries.{EntryWriter}
use halengine.Context.{ContextConfig}
use halengine.Ai.{Message, MessageChunk, ToolCall, ToolDefinition, UsageMetadata, Thrown}
use halengine.Tools.{ToolRegistry, ToolResponse, SchemaError}
use halengine.Prompt.{PromptBuilderConfig}

-- A negative budget means no tool rounds; one that is no finite number is the default.
unfoldable pub normalize_tool_rounds : Option Number → ℕ
normalize_tool_rounds none = 5
normalize_tool_rounds (some (whole n)) = n
normalize_tool_rounds (some (minus n)) = 0
normalize_tool_rounds (some (between n)) = n
normalize_tool_rounds (some (below n)) = 0
normalize_tool_rounds (some not_finite) = 5

abbrev pub max_timer_delay_ms : ℕ
max_timer_delay_ms = 2147483647

-- A negative or unusable timeout is the default; a larger one than a timer can hold is cut.
unfoldable pub normalize_tool_timeout : Option Number → Number
normalize_tool_timeout none = whole 30000
normalize_tool_timeout (some (whole n)) = whole (min n max_timer_delay_ms)
normalize_tool_timeout (some (minus n)) = whole 30000
normalize_tool_timeout (some (between n)) =
    if ltb n max_timer_delay_ms then between n else whole max_timer_delay_ms
normalize_tool_timeout (some (below n)) = whole 30000
normalize_tool_timeout (some not_finite) = whole 30000

pub record ToolBudgetInfo : Type 0 where
  pub max_tool_rounds : ℕ
  pub requested_tools : List Text

pub record SendMessageParams : Type 0 where
  pub messages : List Message
  pub system_prompt : Text
  pub tools : Option (List ToolDefinition)

-- What one call of a provider yields, and what it throws at the end, if anything.
pub record ProviderRun : Type 0 where
  pub chunks : List MessageChunk
  pub failure : Option Thrown

-- What a consumer's hook does: its answer or its throw, and the session as it leaves it.
pub data Answer (A : Type 0) : Type 0 where
  answers : A → ChatSession → Answer A
  throws : Thrown → ChatSession → Answer A

pub record OrchestratorHooks : Type 0 where
  pub before_session : Option (ChatSession → Answer (Unit {0}))
  pub after_session : Option (ChatSession → Answer (Unit {0}))
  pub before_user_input : Option (ChatSession → Text → Answer Text)
  pub after_user_input : Option (ChatSession → Text → Answer (Unit {0}))
  pub before_model_response : Option (ChatSession → Text → Answer Text)
  pub after_model_response : Option (ChatSession → Text → Option UsageMetadata → Answer (Unit {0}))
  pub on_error : Option (ChatSession → Thrown → Answer (Unit {0}))
  pub before_tool_call : Option (ChatSession → ToolCall → Answer (Option ToolResponse))
  pub on_tool_budget_exhausted : Option (ChatSession → ToolBudgetInfo → Answer (Option Text))

-- How the race between a tool call and its stop came out.
pub data Raced : Type 0 where
  in_time timed_out abandoned_call : Raced

-- The places at which a turn reads its abort signal.
pub data Checkpoint : Type 0 where
  after_stream after_calls after_tools : (round : ℕ) → Checkpoint
  in_catch : Checkpoint

pub record Engine : Type 0 where
  pub max_tool_rounds : ℕ
  pub tool_timeout_ms : Number
  pub show_number : Number → Text
  pub context_config : ContextConfig
  pub json_length : Message → ℕ
  pub writer : EntryWriter
  pub prompt : PromptBuilderConfig
  pub additional_context : Option Text
  pub registry : Option ToolRegistry
  pub compiles : Fields → Bool
  pub errors_of : Fields → Fields → List SchemaError
  pub hooks : OrchestratorHooks
  pub saves : Bool
  pub provider : (call : ℕ) → SendMessageParams → ProviderRun
  pub now : ℕ
  pub has_signal : Bool
  pub signal_aborted : Checkpoint → Bool
  pub race : (round : ℕ) → ToolCall → Raced
  pub call_aborted : (round : ℕ) → ToolCall → Bool

unfoldable pub is_aborted : Engine → Checkpoint → Bool
is_aborted engine at = engine.has_signal && engine.signal_aborted at
