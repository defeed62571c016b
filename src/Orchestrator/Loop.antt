-- ===== src/Orchestrator/Loop.antt =====
-- chatOrchestrator.ts and orchestratorHelpers.ts: the rounds of a turn. The `for` loop has no bound in
-- its header; here it takes fuel; Orchestrator/Budget counts what it needs.
use halengine.Prelude.{
  ℕ, zero, suc, ◌+◌, Text, text, text_eq, Bool, true, false, not, ◌&&◌, Option, none, some, List,
  [], ◌∷◌, ◌++◌, map, length, if◌then◌else◌, ltb,
}
use mathlib.Core.Option
use halengine.Ai.{
  Message, MessageChunk, text_chunk, tool_use, tool_result, suppress_output, stop, ToolCall,
  ToolDefinition, UsageMetadata, Thrown,
}
use halengine.Tools.{ToolRegistry}
use halengine.Orchestrator.{
  Engine, SendMessageParams, ToolBudgetInfo, is_aborted, after_stream, after_tools,
}
use halengine.Orchestrator.Turn.{
  Outcome, done, threw, unfinished, Run, pure, abandon, ◌>>=◌, ◌>>◌, continue, yield, settle,
}
use halengine.Orchestrator.Tooling.{execute_tool_calls, ToolExecutionResult}

abbrev pub tool_use_reason : Text
tool_use_reason = text "tool_use"

abbrev pub tool_budget_exhausted : Text
tool_budget_exhausted = text "tool_budget_exhausted"

unfoldable pub should_continue_tool_loop : Text → List ToolCall → Option ToolRegistry → Bool
should_continue_tool_loop stop_reason pending registry =
    text_eq stop_reason tool_use_reason
    && (ltb 0 (length pending) && elim registry [ none ↦ false | some _ ↦ true ])

-- What a round gathers from its chunks: RoundOutcome, and the pending tool calls.
pub record RoundOutcome : Type 0 where
  pub stop_reason : Text
  pub text : Text
  pub usage : Option UsageMetadata
  pub pending : List ToolCall

abbrev pub new_round : RoundOutcome
new_round = record { stop_reason = []; text = []; usage = none; pending = [] }

-- collectToolCalls, extractStopReason, extractUsage and the text of one chunk.
unfoldable pub take_chunk : RoundOutcome → MessageChunk → RoundOutcome
take_chunk r (text_chunk s) = record r { text = r.text ++ s }
take_chunk r (tool_use tc) = record r { pending = r.pending ++ tc ∷ [] }
take_chunk r (tool_result messages) = r
take_chunk r suppress_output = r
take_chunk r (stop reason none) = record r { stop_reason = reason }
take_chunk r (stop reason (some u)) = record r { stop_reason = reason; usage = some u }

unfoldable pub take_chunks : RoundOutcome → List MessageChunk → RoundOutcome
unfolding take_chunk
take_chunks r [] = r
take_chunks r (chunk ∷ chunks) = take_chunks (take_chunk r chunk) chunks

abbrev pub thrown_or : RoundOutcome → Option Thrown → Outcome RoundOutcome
thrown_or r none = done r
thrown_or r (some e) = threw e

-- Every chunk is handed on as it comes; a provider that fails has handed on what it had.
unfoldable pub stream_round : Engine → SendMessageParams → Run RoundOutcome
unfolding take_chunks
stream_round engine request t =
    let run = engine.provider t.provider_calls request in
    (
      thrown_or (take_chunks new_round run.chunks) run.failure,
      record t { yielded = t.yielded ++ run.chunks; provider_calls = t.provider_calls + 1 },
    )

unfoldable pub accumulate_usage : Option UsageMetadata → Option UsageMetadata → Option UsageMetadata
accumulate_usage none next = next
accumulate_usage (some a) none = some a
accumulate_usage (some a) (some b) = some (record {
  input_tokens = a.input_tokens + b.input_tokens;
  output_tokens = a.output_tokens + b.output_tokens;
  total_tokens = a.total_tokens + b.total_tokens;
})

unfoldable pub budget_spent : ℕ → ℕ → Bool
budget_spent round max_tool_rounds = not (ltb round max_tool_rounds)

-- The hook's sentence; an unset hook and an answer of none are the empty text.
unfoldable pub budget_sentence : Engine → ToolBudgetInfo → Run Text
budget_sentence engine budget t = elim engine.hooks.on_tool_budget_exhausted [
  | none ↦ (done [], t)
  | some hook ↦ (settle (hook t.session budget) >>= λ said. pure (Option.get_or said [])) t
]

unfoldable pub close_exhausted_turn : Engine → ToolBudgetInfo → Run Text
unfolding budget_sentence
close_exhausted_turn engine budget = do
  sentence ← budget_sentence engine budget
  (if ltb 0 (length sentence) then yield (text_chunk sentence) else pure tt)
  yield (stop tool_budget_exhausted none)
  pure sentence

-- What the turn has gathered over its rounds.
pub record Gathered : Type 0 where
  pub messages : List Message
  pub response_text : Text
  pub total_usage : Option UsageMetadata

-- What the loop does after a tool round, before it goes on to the next round.
unfoldable pub report_round : ToolExecutionResult → Run (Unit {0})
report_round r = do
  (if ltb 0 (length r.client_messages) then yield (tool_result r.client_messages) else pure tt)
  (if r.suppress_output then yield suppress_output else pure tt)

unfoldable pub tool_round : Engine → ToolRegistry → ℕ → List ToolCall → Gathered → Run Gathered
unfolding report_round
tool_round engine registry round pending g = do
  r ← execute_tool_calls engine registry round pending g.messages
  if is_aborted engine (after_tools round)
      then abandon
      else do report_round r; pure (record g { messages = r.messages })

-- The last round of a spent budget, and a round that another follows: the flag says which.
unfoldable pub exhausted_round : Engine → List ToolCall → Gathered → Run (Gathered × Bool)
unfolding close_exhausted_turn
exhausted_round engine pending g = do
  sentence ← close_exhausted_turn engine (record {
    max_tool_rounds = engine.max_tool_rounds;
    requested_tools = map (λ tc. tc.name) pending;
  })
  pure (record g { response_text = g.response_text ++ sentence }, false)

unfoldable pub executed_round :
    Engine → ToolRegistry → ℕ → List ToolCall → Gathered → Run (Gathered × Bool)
unfolding tool_round
executed_round engine registry round pending g = do
  g' ← tool_round engine registry round pending g
  pure (g', true)

-- A round up to its `break`, with or without a registry: true if another round follows.
unfoldable pub round_with :
    Engine → ℕ → RoundOutcome → Gathered → Option ToolRegistry → Run (Gathered × Bool)
unfolding should_continue_tool_loop budget_spent exhausted_round executed_round
round_with engine round outcome g none = pure (g, false)
round_with engine round outcome g (some registry) =
    if should_continue_tool_loop outcome.stop_reason outcome.pending (some registry)
    then (if budget_spent round engine.max_tool_rounds
        then exhausted_round engine outcome.pending g
        else executed_round engine registry round outcome.pending g)
    else pure (g, false)

unfoldable pub after_round : Engine → ℕ → RoundOutcome → Gathered → Run (Gathered × Bool)
unfolding round_with
after_round engine round outcome g = round_with engine round outcome g engine.registry

unfoldable pub one_round :
    Engine → Text → Option (List ToolDefinition) → ℕ → Gathered → Run (Gathered × Bool)
unfolding stream_round accumulate_usage after_round is_aborted
one_round engine system_prompt tools round g = do
  outcome ←
      stream_round engine
        (record { messages = g.messages; system_prompt = system_prompt; tools = tools })
  if is_aborted engine (after_stream round)
      then abandon
      else after_round engine round outcome (record g {
        response_text = g.response_text ++ outcome.text;
        total_usage = accumulate_usage g.total_usage outcome.usage;
      })

-- What follows a round: the rest of the loop, or its end.
abbrev pub goes_on : (Gathered → Run Gathered) → Gathered × Bool → Run Gathered
goes_on rest (g, false) t = (done g, t)
goes_on rest (g, true) t = rest g t

unfoldable pub tool_loop :
    Engine → Text → Option (List ToolDefinition) → (fuel round : ℕ) → Gathered → Run Gathered
unfolding one_round
tool_loop engine system_prompt tools zero round g t = (unfinished, t)
tool_loop engine system_prompt tools (suc fuel) round g t =
    continue (one_round engine system_prompt tools round g t).0
      (goes_on (λ g'. tool_loop engine system_prompt tools fuel (round + 1) g'))
      (one_round engine system_prompt tools round g t).1
