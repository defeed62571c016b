-- ===== src/Orchestrator/Tooling.antt =====
-- chatOrchestrator.ts: one tool round. The calls of a round start together; the model takes their
-- effects on the session, which only a policy hook has, in the order of the calls.
use halengine.Prelude.{
  ℕ, Text, text, Bool, true, false, ◌||◌, Option, none, some, List, [], ◌∷◌, ◌++◌, map, get_elem?,
  if◌then◌else◌, Number, whole, object, ◌==◌,
}
use mathlib.Core.Option
use halengine.Session.{ChatSession, SessionEntry}
use halengine.Entries.{EntryWriter, append_entry}
use halengine.Messages.{OutgoingMessage, entry_upsert}
use halengine.Ai.{Message, tool_use_message, tool_result_message, ToolCall, ToolResultContent}
use halengine.Tools.{
  ToolRegistry, ToolResponse, ToolContext, has_tool, execute, plain_response, Result, ok,
}
use halengine.Tools
use halengine.Orchestrator.{
  Engine, Answer, answers, throws, Raced, in_time, timed_out, abandoned_call, is_aborted,
  after_calls,
}
use halengine.Orchestrator.Turn.{
  Turn, Outcome, done, abandoned, threw, unfinished, Run, pure, continue,
}

-- buildToolCallMessages
unfoldable pub build_tool_call_messages : List ToolCall → Message
build_tool_call_messages calls = tool_use_message (
    map
      (λ tc. record {
        tool_use_id = tc.id;
        name = tc.name;
        input = tc.input;
        signature = tc.signature;
      })
      calls)

unfoldable pub context_for : ChatSession → Bool → ToolContext
context_for session aborted = record {
  user_id = session.user_id;
  session_id = session.session_id;
  workspace_id = session.workspace_id;
  auth_headers = session.auth_headers;
  user = session.user;
  aborted = aborted;
}

unfoldable pub declined_response : Text → ToolResponse
unfolding plain_response
declined_response name =
    plain_response (text "The " ++ name ++ text " call was declined and not performed.") true

unfoldable pub skip_abandoned : Text → ToolResponse
unfolding plain_response
skip_abandoned name =
    plain_response
      (text "The " ++ name ++ text " call was abandoned before it started and was not performed.")
      false

unfoldable pub timed_out_response : Text → Text → ToolResponse
unfolding plain_response
timed_out_response name ms =
    plain_response
      (text "Tool '"
        ++ name
        ++ text "' did not answer within "
        ++ ms
        ++ text " ms, so the call was abandoned and returned no result.")
      true

unfoldable pub abandoned_response : Text → ToolResponse
unfolding plain_response
abandoned_response name =
    plain_response (text "The " ++ name ++ text " call was abandoned with its turn.") false

-- A policy that throws declines its call.
unfoldable pub policy_answer :
    ToolCall → Answer (Option ToolResponse) → Turn → Option ToolResponse × Turn
unfolding declined_response
policy_answer tc (answers response session) t = (response, record t { session = session })
policy_answer tc (throws e session) t =
    (some (declined_response tc.name), record t { session = session })

unfoldable pub consult_policy : Engine → ToolRegistry → ToolCall → Turn → Option ToolResponse × Turn
unfolding policy_answer
consult_policy engine registry tc t = elim engine.hooks.before_tool_call [
  | none ↦ (none, t)
  | some policy ↦
      if has_tool registry tc.name then policy_answer tc (policy t.session tc) t else (none, t)
]

abbrev pub outcome_of : Result ToolResponse → Outcome ToolResponse
outcome_of (Tools.Result.ok r) = done r
outcome_of (Tools.Result.threw e) = threw e

-- What the call itself answers, for a call that its policy has let through.
unfoldable pub start_call :
    Engine → ToolRegistry → (aborted : Bool) → ToolCall → ChatSession → Outcome ToolResponse
unfolding skip_abandoned context_for
start_call engine registry aborted tc session =
    if aborted
    then done (skip_abandoned tc.name)
    else outcome_of (
        execute engine.compiles engine.errors_of registry engine.now tc.name (object tc.input)
          (context_for session aborted))

-- toolCallRunner
unfoldable pub tool_call_runner :
    Engine → ToolRegistry → ℕ → ToolCall → Turn → Outcome ToolResponse × Turn
unfolding consult_policy start_call
tool_call_runner engine registry round tc t =
    let (declined, t') = consult_policy engine registry tc t in
    elim declined [
      | some response ↦ (done response, t')
      | none ↦ (start_call engine registry (engine.call_aborted round tc) tc t'.session, t')
    ]

abbrev pub is_zero : Number → Bool
is_zero (whole n) = n == 0
is_zero _ = false

-- A timer that is not set and a signal that is not given cannot stop a call.
unfoldable pub stopped_by : Engine → Raced → Raced
stopped_by engine in_time = in_time
stopped_by engine timed_out = if is_zero engine.tool_timeout_ms then in_time else timed_out
stopped_by engine abandoned_call = if engine.has_signal then abandoned_call else in_time

-- withDeadline: the call has started either way, and what it answers after the stop is dropped.
unfoldable pub with_deadline :
    Engine → ToolRegistry → ℕ → ToolCall → Turn → Outcome ToolResponse × Turn
unfolding stopped_by timed_out_response abandoned_response tool_call_runner
with_deadline engine registry round tc t =
    let (called, t') = tool_call_runner engine registry round tc t in
    elim (stopped_by engine (engine.race round tc)) [
      | in_time ↦ (called, t')
      | timed_out ↦
          (done (timed_out_response tc.name (engine.show_number engine.tool_timeout_ms)), t')
      | abandoned_call ↦ (done (abandoned_response tc.name), t')
    ]

unfoldable pub run_calls :
    Engine → ToolRegistry → ℕ → List ToolCall → Turn → List (ToolCall × Outcome ToolResponse) × Turn
unfolding with_deadline
run_calls engine registry round [] t = ([], t)
run_calls engine registry round (tc ∷ calls) t =
    let (called, t') = with_deadline engine registry round tc t in
    let (rest, t'') = run_calls engine registry round calls t' in ((tc, called) ∷ rest, t'')

-- Promise.all
unfoldable pub all_settled :
    List (ToolCall × Outcome ToolResponse) → Outcome (List (ToolCall × ToolResponse))
all_settled [] = done []
all_settled ((tc, done r) ∷ rest) = elim (all_settled rest) [
  | done rs ↦ done ((tc, r) ∷ rs)
  | abandoned ↦ abandoned
  | threw e ↦ threw e
  | unfinished ↦ unfinished
]
all_settled ((tc, threw e) ∷ rest) = threw e
all_settled ((tc, abandoned) ∷ rest) = abandoned
all_settled ((tc, unfinished) ∷ rest) = unfinished

unfoldable pub tool_result_of : ToolCall × ToolResponse → ToolResultContent
tool_result_of (tc, r) = record { tool_use_id = tc.id; content = r.result; is_error = r.is_error }

unfoldable pub client_messages_of : List (ToolCall × ToolResponse) → List OutgoingMessage
client_messages_of [] = []
client_messages_of ((tc, r) ∷ responses) = r.client_messages ++ client_messages_of responses

unfoldable pub any_suppresses : List (ToolCall × ToolResponse) → Bool
any_suppresses [] = false
any_suppresses ((tc, r) ∷ responses) = r.suppress_assistant_response || any_suppresses responses

-- assignEntryIndices: each entry is stored, and sent as stored under the index that it got.
unfoldable pub assign_entry_index :
    EntryWriter → List SessionEntry → OutgoingMessage → OutgoingMessage × List SessionEntry
unfolding append_entry
assign_entry_index w entries (entry_upsert index entry) =
    let (after, at) = append_entry w entries entry in
    (entry_upsert at (Option.get_or (get_elem? after at) entry), after)
assign_entry_index w entries message = (message, entries)

unfoldable pub assign_entry_indices :
    EntryWriter
    → List SessionEntry
    → List OutgoingMessage
    → List OutgoingMessage × List SessionEntry
unfolding assign_entry_index
assign_entry_indices w entries [] = ([], entries)
assign_entry_indices w entries (m ∷ messages) =
    let (m', entries') = assign_entry_index w entries m in
    let (rest, after) = assign_entry_indices w entries' messages in (m' ∷ rest, after)

-- What a tool round leaves: the messages for the provider, those for the client, and whether the
-- model's words are suppressed.
pub record ToolExecutionResult : Type 0 where
  pub messages : List Message
  pub client_messages : List OutgoingMessage
  pub suppress_output : Bool

-- The rest of executeToolCalls, once every call has answered.
unfoldable pub record_responses :
    Engine → List Message → List (ToolCall × ToolResponse) → Run ToolExecutionResult
unfolding client_messages_of any_suppresses assign_entry_indices tool_result_of
record_responses engine messages responses t =
    let (client, entries) =
      assign_entry_indices engine.writer t.session.entries (client_messages_of responses) in
    (
      done (record {
        messages = messages ++ tool_result_message (map tool_result_of responses) ∷ [];
        client_messages = client;
        suppress_output = any_suppresses responses;
      }),
      record t { session = record t.session { entries = entries } },
    )

unfoldable pub execute_tool_calls :
    Engine → ToolRegistry → ℕ → List ToolCall → List Message → Run ToolExecutionResult
unfolding build_tool_call_messages run_calls all_settled record_responses is_aborted
execute_tool_calls engine registry round calls messages t =
    let asked = messages ++ build_tool_call_messages calls ∷ [] in
    let (called, t') =
      run_calls engine registry round calls (record t { executed = t.executed ++ calls ∷ [] }) in
    continue (all_settled called)
      (λ responses.
        if is_aborted engine (after_calls round)
        then pure (record { messages = asked; client_messages = []; suppress_output = false })
        else record_responses engine asked responses)
      t'
