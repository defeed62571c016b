-- ===== src/Orchestrator/Examples.antt =====
-- Tests and examples of a turn: a model that always asks for its tool, under a budget of one round.
use halengine.Prelude.{
  ℕ, ◌≤◌, text, Bool, true, false, ◌≡◌, ◌≢◌, refl, none, some, List, [], ◌∷◌, ◌++◌, map, length,
  All, Fields, empty, whole,
}
use halengine.Session.{ChatSession, named, user}
use halengine.Entries.Closing.{IsClosed}
use halengine.Ai.{text_chunk, tool_use, stop, ToolCall, ToolResultContent, tool_result_message}
use halengine.Tools.{
  ToolContext, Executed, answered_text, static, ToolRegistry, SchemaError, find_tool, has_tool,
  resolve_definition, get_definitions, plain_response, normalize_tool_response, join, missing_tool,
  describe_error, invalid_input, crashed, kind_of, malformed_input, static_compiles, register,
  run_tool, execute, instruction_of, prompt_instructions_of,
}
use halengine.Orchestrator.{
  Engine, OrchestratorHooks, SendMessageParams, ProviderRun, in_time, Checkpoint, is_aborted,
}
use halengine.Orchestrator.Turn.{done, unfinished}
use halengine.Orchestrator.Tooling.{
  build_tool_call_messages, context_for, declined_response, skip_abandoned, timed_out_response,
  abandoned_response, policy_answer, consult_policy, start_call, tool_call_runner, stopped_by,
  with_deadline, run_calls, all_settled, tool_result_of, client_messages_of, any_suppresses,
  assign_entry_index, assign_entry_indices, record_responses, execute_tool_calls,
  ToolExecutionResult,
}
use halengine.Orchestrator.Loop.{
  should_continue_tool_loop, take_chunk, take_chunks, stream_round, accumulate_usage, budget_spent,
  budget_sentence, close_exhausted_turn, report_round, tool_round, exhausted_round, executed_round,
  round_with, after_round, one_round, tool_loop, Gathered,
}
use halengine.Orchestrator.Process.{process_message_stream, collect_text, new_turn}
use halengine.Orchestrator.Ending.{
  process_message_stream_budget, process_message_stream_saved, process_message_stream-IsClosed,
}
use halengine.Orchestrator.Answers.{execute_tool_calls_answers}
use halengine.Orchestrator.Heard.{tool_loop-heard}

abbrev asking : ToolCall
asking = record { id = text "c1"; name = text "lookup"; input = empty; signature = none }

abbrev always_asks : ℕ → SendMessageParams → ProviderRun
always_asks call request = record {
  chunks = text_chunk (text "Let me see. ") ∷ tool_use asking ∷ stop (text "tool_use") none ∷ [];
  failure = none;
}

abbrev shipped : Fields → ToolContext → Executed
shipped input context = answered_text (text "It ships today.")

abbrev tools : ToolRegistry
tools =
    (
      text "lookup",
      record {
        definition_source = static (record {
          name = text "lookup";
          description = text "Looks an order up.";
          input_schema = empty;
          prompt_instructions = none;
          example_prompts = none;
        });
        execute = shipped;
      },
    )
    ∷ []

abbrev any_schema : Fields → Bool
any_schema schema = true

abbrev no_errors : Fields → Fields → List SchemaError
no_errors schema input = []

abbrev no_hooks : OrchestratorHooks
no_hooks = record {
  before_session = none;
  after_session = none;
  before_user_input = none;
  after_user_input = none;
  before_model_response = none;
  after_model_response = none;
  on_error = none;
  before_tool_call = none;
  on_tool_budget_exhausted = none;
}

abbrev never : Checkpoint → Bool
never at = false

abbrev engine : Engine
engine = record {
  max_tool_rounds = 1;
  tool_timeout_ms = whole 30000;
  show_number = λ n. text "30000";
  context_config = record { max_messages = 10; max_content_length = 1000 };
  json_length = λ m. 80;
  writer = record { max_content_entries = none; redact_entry = none };
  prompt = record {
    identity = text "Hal";
    domain_context = none;
    response_guidelines = none;
    tool_preamble = none;
  };
  additional_context = none;
  registry = some tools;
  compiles = any_schema;
  errors_of = no_errors;
  hooks = no_hooks;
  saves = true;
  provider = always_asks;
  now = 0;
  has_signal = true;
  signal_aborted = never;
  race = λ round tc. in_time;
  call_aborted = λ round tc. false;
}

abbrev session : ChatSession
session = record {
  session_id = text "s1";
  user_id = named (text "u1");
  entries =
      user (record { content = text "Where is my order?"; timestamp = text "t1"; cleared = false })
      ∷ [];
  auth_headers = none;
  workspace_id = none;
  active_persona = none;
  created_at = none;
  user = none;
}

-- The same engine with a provider that fails under a signal that is aborted.
process_message_stream_budget_example :
    let r = process_message_stream engine (new_turn session) in
    (r.0 ≢ unfinished) × (r.1.provider_calls ≤ 2) × (length r.1.executed ≤ 1)
process_message_stream_budget_example = process_message_stream_budget engine session

process_message_stream_saved_example :
    (process_message_stream engine (new_turn session)).1.saved
    ≡ (process_message_stream engine (new_turn session)).1.session ∷ []
process_message_stream_saved_example = process_message_stream_saved engine session

process_message_stream-IsClosed_example :
    All IsClosed (process_message_stream engine (new_turn session)).1.session.entries
process_message_stream-IsClosed_example = process_message_stream-IsClosed engine session refl tt

abbrev answered_round : ToolExecutionResult
unfolding build_tool_call_messages
answered_round = record {
  messages =
      build_tool_call_messages (asking ∷ [])
      ∷ tool_result_message (
          record { tool_use_id = text "c1"; content = text "It ships today."; is_error = false }
          ∷ [])
      ∷ [];
  client_messages = [];
  suppress_output = false;
}

answered_round_test :
    (execute_tool_calls engine tools 0 (asking ∷ []) [] (new_turn session)).0 ≡ done answered_round
unfolding build_tool_call_messages context_for declined_response skip_abandoned timed_out_response
    abandoned_response policy_answer consult_policy start_call tool_call_runner stopped_by
    with_deadline run_calls all_settled tool_result_of client_messages_of any_suppresses
    assign_entry_index assign_entry_indices record_responses execute_tool_calls is_aborted find_tool
    has_tool resolve_definition get_definitions plain_response normalize_tool_response join
    missing_tool describe_error invalid_input crashed kind_of malformed_input static_compiles
    register run_tool execute instruction_of prompt_instructions_of
answered_round_test = refl

execute_tool_calls_answers_example :
    (results : List ToolResultContent) × (answered_round.messages
      ≡ ([] ++ build_tool_call_messages (asking ∷ []) ∷ []) ++ tool_result_message results ∷ [])
    × (map (λ x. x.tool_use_id) results ≡ map (λ tc. tc.id) (asking ∷ []))
unfolding is_aborted
execute_tool_calls_answers_example =
    execute_tool_calls_answers engine tools 0 (asking ∷ []) [] (new_turn session) answered_round
      answered_round_test refl

abbrev nothing_gathered : Gathered
nothing_gathered = record { messages = []; response_text = []; total_usage = none }

abbrev both_rounds : Gathered
both_rounds = record {
  messages = answered_round.messages;
  response_text = text "Let me see. Let me see. ";
  total_usage = none;
}

both_rounds_test :
    (tool_loop engine [] none 2 0 nothing_gathered (new_turn session)).0 ≡ done both_rounds
unfolding build_tool_call_messages context_for declined_response skip_abandoned timed_out_response
    abandoned_response policy_answer consult_policy start_call tool_call_runner stopped_by
    with_deadline run_calls all_settled tool_result_of client_messages_of any_suppresses
    assign_entry_index assign_entry_indices record_responses execute_tool_calls is_aborted find_tool
    has_tool resolve_definition get_definitions plain_response normalize_tool_response join
    missing_tool describe_error invalid_input crashed kind_of malformed_input static_compiles
    register run_tool execute instruction_of prompt_instructions_of should_continue_tool_loop
    take_chunk take_chunks stream_round accumulate_usage budget_spent budget_sentence
    close_exhausted_turn report_round tool_round exhausted_round executed_round round_with
    after_round one_round tool_loop answered_round
both_rounds_test = refl

tool_loop-heard_example :
    both_rounds.response_text
    ≡ collect_text (tool_loop engine [] none 2 0 nothing_gathered (new_turn session)).1.yielded
unfolding collect_text
tool_loop-heard_example =
    tool_loop-heard engine [] none 2 0 nothing_gathered both_rounds (new_turn session) refl
      both_rounds_test
