-- ===== src/Orchestrator/Answers.antt =====
-- What the provider is sent of a tool round of executeToolCalls.
use halengine.Prelude.{ℕ, false, ◌≡◌, refl, ◌∙◌, sym, ap, List, [], ◌∷◌, ◌++◌, map, if◌then◌else◌}
use halengine.Ai.{Message, tool_result_message, ToolCall, ToolResultContent}
use halengine.Tools.{ToolRegistry, ToolResponse}
use halengine.Orchestrator.{Engine, is_aborted, after_calls}
use halengine.Orchestrator.Turn.{Turn, Outcome, done, abandoned, threw, unfinished, pure, continue}
use halengine.Orchestrator.Tooling.{
  build_tool_call_messages, run_calls, all_settled, tool_result_of, record_responses,
  execute_tool_calls, ToolExecutionResult,
}

pub done-injective : {A : Type 0} (a b : A) → done a ≡ done b → a ≡ b
done-injective a b e = cc

run_calls-calls :
    (engine : Engine) (registry : ToolRegistry) (round : ℕ) (calls : List ToolCall) (t : Turn)
    → map (λ c. c.0) (run_calls engine registry round calls t).0 ≡ calls
unfolding run_calls
run_calls-calls engine registry round [] t = refl
run_calls-calls engine registry round (tc ∷ calls) t =
    ap (λ cs. tc ∷ cs) (run_calls-calls engine registry round calls _)

all_settled-calls :
    (called : List (ToolCall × Outcome ToolResponse)) (responses : List (ToolCall × ToolResponse))
    → all_settled called ≡ done responses
    → map (λ r. r.0) responses ≡ map (λ c. c.0) called
unfolding all_settled
all_settled-calls [] responses e = rw⁻¹ (done-injective [] responses e) refl
all_settled-calls ((tc, done r) ∷ rest) responses e =
    with_rest (all_settled rest) (λ rs s. all_settled-calls rest rs s) e
  where
    with_rest :
        (settled : Outcome (List (ToolCall × ToolResponse)))
        → ((rs : List (ToolCall × ToolResponse))
            → settled ≡ done rs
            → map (λ x. x.0) rs ≡ map (λ c. c.0) rest)
        → elim settled [
          | done rs ↦ done ((tc, r) ∷ rs)
          | abandoned ↦ abandoned
          | threw e ↦ threw e
          | unfinished ↦ unfinished
        ]
          ≡ done responses
        → map (λ x. x.0) responses ≡ tc ∷ map (λ c. c.0) rest
    with_rest (done rs) same e =
        rw⁻¹ (done-injective _ responses e) (ap (λ cs. tc ∷ cs) (same rs refl))
    with_rest abandoned same e = cc
    with_rest (threw x) same e = cc
    with_rest unfinished same e = cc
all_settled-calls ((tc, threw x) ∷ rest) responses e = cc
all_settled-calls ((tc, abandoned) ∷ rest) responses e = cc
all_settled-calls ((tc, unfinished) ∷ rest) responses e = cc

ids-tool_result_of :
    (responses : List (ToolCall × ToolResponse))
    → map (λ r. r.tool_use_id) (map tool_result_of responses)
      ≡ map (λ tc. tc.id) (map (λ r. r.0) responses)
unfolding tool_result_of
ids-tool_result_of [] = refl
ids-tool_result_of ((tc, r) ∷ responses) = ap (λ ids. tc.id ∷ ids) (ids-tool_result_of responses)

-- A round that is over and was not aborted sends the provider its calls and then one result for
-- each of them, in the order of the calls, under the ids that the model gave.
pub execute_tool_calls_answers :
    (engine : Engine) (registry : ToolRegistry) (round : ℕ) (calls : List ToolCall)
    (messages : List Message) (t : Turn) (r : ToolExecutionResult)
    → (execute_tool_calls engine registry round calls messages t).0 ≡ done r
    → is_aborted engine (after_calls round) ≡ false
    → (results : List ToolResultContent) × (r.messages
        ≡ (messages ++ build_tool_call_messages calls ∷ []) ++ tool_result_message results ∷ [])
      × (map (λ x. x.tool_use_id) results ≡ map (λ tc. tc.id) calls)
unfolding execute_tool_calls record_responses
execute_tool_calls_answers engine registry round calls messages t r e on =
    let begun : Turn = record t { executed = t.executed ++ calls ∷ [] } in
    let called = run_calls engine registry round calls begun in
    answered (all_settled called.0) called.1
      (λ rs s. all_settled-calls called.0 rs s ∙ run_calls-calls engine registry round calls begun)
      e
  where
    asked : List Message
    asked = messages ++ build_tool_call_messages calls ∷ []

    answered :
        (settled : Outcome (List (ToolCall × ToolResponse))) (u : Turn)
        → ((rs : List (ToolCall × ToolResponse)) → settled ≡ done rs → map (λ x. x.0) rs ≡ calls)
        → (continue settled
            (λ responses.
              if is_aborted engine (after_calls round)
              then pure (record { messages = asked; client_messages = []; suppress_output = false })
              else record_responses engine asked responses)
            u).0
          ≡ done r
        → (results : List ToolResultContent) × (r.messages
            ≡ asked ++ tool_result_message results ∷ [])
          × (map (λ x. x.tool_use_id) results ≡ map (λ tc. tc.id) calls)
    answered (done rs) u same e = (
      map tool_result_of rs,
      sym (ap (λ x. x.messages) (done-injective _ r (rw on at e))),
      ids-tool_result_of rs ∙ ap (λ cs. map (λ tc. tc.id) cs) (same rs refl),
    )
    answered abandoned u same e = cc
    answered (threw x) u same e = cc
    answered unfinished u same e = cc
