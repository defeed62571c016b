-- ===== src/Orchestrator/Counts.antt =====
-- What the steps of a turn count: the provider calls and tool rounds of a run, and that it ends.
use halengine.Prelude.{
  ℕ, ◌+◌, ◌≤◌, Bool, true, false, ◌≡◌, refl, ◌∙◌, ap, ◌≢◌, Option, List, [], ◌∷◌, ◌++◌, length,
  length-append, if◌then◌else◌, arith, Bool-cases, Option-cases, inl, inr,
}
use halengine.Session.{ChatSession}
use halengine.Ai.{Message, ToolCall}
use halengine.Tools.{ToolRegistry, ToolResponse, Result, has_tool}
use halengine.Tools
use halengine.Orchestrator.{Engine, Answer, answers, throws, is_aborted, after_calls}
use halengine.Orchestrator.Turn.{
  Turn, Outcome, done, abandoned, threw, unfinished, Run, pure, continue, settle,
}
use halengine.Orchestrator.Tooling.{
  outcome_of, build_tool_call_messages, execute_tool_calls, run_calls, with_deadline,
  tool_call_runner, consult_policy, policy_answer, start_call, all_settled, record_responses,
}

-- A run that makes at most so many provider calls, runs at most so many tool rounds, and ends.
pub record Within {ℓ} {A : Type ℓ} (calls rounds : ℕ) (t : Turn) (r : Outcome A × Turn)
    : Type ℓ where
  pub called : r.1.provider_calls ≤ t.provider_calls + calls
  pub ran : length r.1.executed ≤ length t.executed + rounds
  pub ends : r.0 ≢ unfinished
  pub kept : r.1.saved ≡ t.saved

module _ {ℓ κ} {A : Type ℓ} {B : Type κ} where
  pub continue-Within :
      (c r d s : ℕ) (t t' : Turn) (o : Outcome A) (f : A → Run B)
      → Within c r t (o, t')
      → ((a : A) → o ≡ done a → Within d s t' (f a t'))
      → Within (c + d) (r + s) t (continue o f t')
  continue-Within c r d s t t' (done a) f w k =
      let next = k a refl in
      record {
        called = omega (arith, w.called, next.called);
        ran = omega (arith, w.ran, next.ran);
        ends = next.ends;
        kept = next.kept ∙ w.kept;
      }
  continue-Within c r d s t t' abandoned f w k = record {
    called = omega (arith, w.called);
    ran = omega (arith, w.ran);
    ends = λ e. cc;
    kept = w.kept;
  }
  continue-Within c r d s t t' (threw x) f w k = record {
    called = omega (arith, w.called);
    ran = omega (arith, w.ran);
    ends = λ e. cc;
    kept = w.kept;
  }
  continue-Within c r d s t t' unfinished f w k = absurd (w.ends refl)

pub settle-Within : {A : Type 0} (a : Answer A) (t : Turn) → Within 0 0 t (settle a t)
settle-Within (answers a s) t = record {
  called = omega arith;
  ran = omega arith;
  ends = λ e. cc;
  kept = refl;
}
settle-Within (throws x s) t = record {
  called = omega arith;
  ran = omega arith;
  ends = λ e. cc;
  kept = refl;
}

-- A step that calls no provider and runs no round.
abbrev pub SameCounts : Turn → Turn → Type 0
SameCounts t t' =
    (t'.provider_calls ≡ t.provider_calls)
    × (t'.executed ≡ t.executed)
    × (t'.saved ≡ t.saved)
    × (t'.yielded ≡ t.yielded)

policy_answer-SameCounts :
    (tc : ToolCall) (a : Answer (Option ToolResponse)) (t : Turn)
    → SameCounts t (policy_answer tc a t).1
unfolding policy_answer
policy_answer-SameCounts tc (answers r s) t = (refl, refl, refl, refl)
policy_answer-SameCounts tc (throws e s) t = (refl, refl, refl, refl)

consult_policy-SameCounts :
    (engine : Engine) (registry : ToolRegistry) (tc : ToolCall) (t : Turn)
    → SameCounts t (consult_policy engine registry tc t).1
unfolding consult_policy
consult_policy-SameCounts engine registry tc t = elim (Option-cases engine.hooks.before_tool_call) [
  | inl e ↦ rw (e, consult_policy) (refl, refl, refl, refl)
  | inr (policy, e) ↦ elim (Bool-cases (has_tool registry tc.name)) [
    | inl known ↦
        rw (e, known, consult_policy) (policy_answer-SameCounts tc (policy t.session tc) t)
    | inr unknown ↦ rw (e, unknown, consult_policy) (refl, refl, refl, refl)
  ]
]

tool_call_runner-SameCounts :
    (engine : Engine) (registry : ToolRegistry) (round : ℕ) (tc : ToolCall) (t : Turn)
    → SameCounts t (tool_call_runner engine registry round tc t).1
unfolding tool_call_runner
tool_call_runner-SameCounts engine registry round tc t =
    ground (arith, consult_policy-SameCounts engine registry tc t)

outcome_of-ends : (r : Result ToolResponse) → outcome_of r ≢ unfinished
outcome_of-ends (Tools.Result.ok r) e = cc
outcome_of-ends (Tools.Result.threw x) e = cc

start_call-ends :
    (engine : Engine) (registry : ToolRegistry) (aborted : Bool) (tc : ToolCall) (s : ChatSession)
    → start_call engine registry aborted tc s ≢ unfinished
unfolding start_call
start_call-ends engine registry true tc s e = cc
start_call-ends engine registry false tc s e = outcome_of-ends _ e

tool_call_runner-ends :
    (engine : Engine) (registry : ToolRegistry) (round : ℕ) (tc : ToolCall) (t : Turn)
    → (tool_call_runner engine registry round tc t).0 ≢ unfinished
unfolding tool_call_runner
tool_call_runner-ends engine registry round tc t =
    let (declined, t') = consult_policy engine registry tc t in
    ground (arith, start_call-ends engine registry (engine.call_aborted round tc) tc t'.session)

with_deadline-SameCounts :
    (engine : Engine) (registry : ToolRegistry) (round : ℕ) (tc : ToolCall) (t : Turn)
    → SameCounts t (with_deadline engine registry round tc t).1
unfolding with_deadline
with_deadline-SameCounts engine registry round tc t =
    ground (arith, tool_call_runner-SameCounts engine registry round tc t)

with_deadline-ends :
    (engine : Engine) (registry : ToolRegistry) (round : ℕ) (tc : ToolCall) (t : Turn)
    → (with_deadline engine registry round tc t).0 ≢ unfinished
unfolding with_deadline
with_deadline-ends engine registry round tc t =
    ground (arith, tool_call_runner-ends engine registry round tc t)

-- Every call of a list has ended.
abbrev AllEnd : List (ToolCall × Outcome ToolResponse) → Type 0
AllEnd [] = Unit
AllEnd ((tc, o) ∷ rest) = (o ≢ unfinished) × AllEnd rest

pub run_calls-SameCounts :
    (engine : Engine) (registry : ToolRegistry) (round : ℕ) (calls : List ToolCall) (t : Turn)
    → SameCounts t (run_calls engine registry round calls t).1
unfolding run_calls
run_calls-SameCounts engine registry round [] t = (refl, refl, refl, refl)
run_calls-SameCounts engine registry round (tc ∷ calls) t =
    let first = with_deadline-SameCounts engine registry round tc t in
    let rest =
      run_calls-SameCounts engine registry round calls
        (with_deadline engine registry round tc t).1 in
    (rest.0 ∙ first.0, rest.1 ∙ first.1, rest.2 ∙ first.2, rest.3 ∙ first.3)

run_calls-AllEnd :
    (engine : Engine) (registry : ToolRegistry) (round : ℕ) (calls : List ToolCall) (t : Turn)
    → AllEnd (run_calls engine registry round calls t).0
unfolding run_calls
run_calls-AllEnd engine registry round [] t = tt
run_calls-AllEnd engine registry round (tc ∷ calls) t =
    (with_deadline-ends engine registry round tc t, run_calls-AllEnd engine registry round calls _)

all_settled-ends :
    (called : List (ToolCall × Outcome ToolResponse))
    → AllEnd called
    → all_settled called ≢ unfinished
unfolding all_settled
all_settled-ends [] h e = cc
all_settled-ends ((tc, done r) ∷ rest) (h, hs) e = ground (arith, all_settled-ends rest hs)
all_settled-ends ((tc, threw x) ∷ rest) h e = cc
all_settled-ends ((tc, abandoned) ∷ rest) h e = cc
all_settled-ends ((tc, unfinished) ∷ rest) (h, hs) e = h refl

record_or_stop-Within :
    (stopped : Bool) (engine : Engine) (messages : List Message)
    (responses : List (ToolCall × ToolResponse)) (t : Turn)
    → Within 0 0 t (
        (if stopped
            then pure
                (record { messages = messages; client_messages = []; suppress_output = false })
            else record_responses engine messages responses)
          t)
unfolding record_responses
record_or_stop-Within true engine messages responses t = record {
  called = omega arith;
  ran = omega arith;
  ends = λ e. cc;
  kept = refl;
}
record_or_stop-Within false engine messages responses t = record {
  called = omega arith;
  ran = omega arith;
  ends = λ e. cc;
  kept = refl;
}

pub execute_tool_calls-Within :
    (engine : Engine) (registry : ToolRegistry) (round : ℕ) (calls : List ToolCall)
    (messages : List Message) (t : Turn)
    → Within 0 1 t (execute_tool_calls engine registry round calls messages t)
unfolding execute_tool_calls
execute_tool_calls-Within engine registry round calls messages t =
    let begun = record t { executed = t.executed ++ calls ∷ [] } in
    let called = (run_calls engine registry round calls begun).0 in
    let same = run_calls-SameCounts engine registry round calls begun in
    continue-Within 0 1 0 0 t (run_calls engine registry round calls begun).1 (all_settled called) _
      (record {
        called = omega (arith, same.0);
        ran = omega (arith, ap length same.1, length-append t.executed (calls ∷ []));
        ends = all_settled-ends called (run_calls-AllEnd engine registry round calls begun);
        kept = same.2;
      })
      (λ responses _.
        record_or_stop-Within (is_aborted engine (after_calls round)) engine
          (messages ++ build_tool_call_messages calls ∷ []) responses _)
