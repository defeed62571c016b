-- ===== src/Orchestrator/Rounds.antt =====
-- One round of a turn: what it counts, and when another follows.
use halengine.Prelude.{
  ℕ, ◌-◌, ◌<◌, Text, Bool, true, false, ◌≡◌, refl, ◌≢◌, Option, none, some, List, [], ◌++◌, length,
  if◌then◌else◌, min, ltb, ltb→lt, arith, Bool-cases, Option-cases, inl, inr,
}
use halengine.Ai.{MessageChunk, text_chunk, suppress_output, tool_result, stop, ToolCall, Thrown}
use halengine.Tools.{ToolRegistry}
use halengine.Orchestrator.{Engine, SendMessageParams, ToolBudgetInfo, is_aborted, after_tools}
use halengine.Orchestrator.Turn.{
  Turn, Outcome, done, abandoned, threw, unfinished, Run, pure, abandon, ◌>>◌, continue, yield,
}
use halengine.Orchestrator.Tooling.{ToolExecutionResult}
use halengine.Orchestrator.Counts.{
  Within, continue-Within, settle-Within, execute_tool_calls-Within,
}
use halengine.Orchestrator.Loop.{
  RoundOutcome, Gathered, stream_round, budget_sentence, close_exhausted_turn, report_round,
  tool_round, round_with, thrown_or, after_round, exhausted_round, executed_round,
  should_continue_tool_loop, budget_spent, tool_budget_exhausted,
}

module _ {ℓ} {A : Type ℓ} where
  pub pure-Within : (a : A) (t : Turn) → Within 0 0 t (pure a t)
  pure-Within a t = record { called = omega arith; ran = omega arith; ends = λ e. cc; kept = refl }

  abandon-Within : (t : Turn) → Within 0 0 t (abandon {A = A} t)
  abandon-Within t = record { called = omega arith; ran = omega arith; ends = λ e. cc; kept = refl }

yield-Within : (c : MessageChunk) (t : Turn) → Within 0 0 t (yield c t)
yield-Within c t = record { called = omega arith; ran = omega arith; ends = λ e. cc; kept = refl }

if-yield-Within :
    (b : Bool) (c : MessageChunk) (t : Turn) → Within 0 0 t ((if b then yield c else pure tt) t)
if-yield-Within true c t = yield-Within c t
if-yield-Within false c t = pure-Within tt t

budget_sentence-Within :
    (engine : Engine) (b : ToolBudgetInfo) (t : Turn) → Within 0 0 t (budget_sentence engine b t)
unfolding budget_sentence
budget_sentence-Within engine b t = elim (Option-cases engine.hooks.on_tool_budget_exhausted) [
  | inl e ↦ rw (e, budget_sentence) (pure-Within [] t)
  | inr (hook, e) ↦
      rw (e, budget_sentence)
        (continue-Within 0 0 0 0 t _ _ _ (settle-Within (hook t.session b) t)
          (λ said _. pure-Within _ _))
]

close_exhausted_turn-Within :
    (engine : Engine) (b : ToolBudgetInfo) (t : Turn)
    → Within 0 0 t (close_exhausted_turn engine b t)
unfolding close_exhausted_turn
close_exhausted_turn-Within engine b t =
    continue-Within 0 0 0 0 t _ _ _ (budget_sentence-Within engine b t) λ s _.
      continue-Within 0 0 0 0 _ _ _ _ (if-yield-Within (ltb 0 (length s)) (text_chunk s) _) λ _ _.
        continue-Within 0 0 0 0 _ _ _ (λ _. pure s)
          (yield-Within (stop tool_budget_exhausted none) _) λ _ _. pure-Within s _

report_round-Within : (r : ToolExecutionResult) (t : Turn) → Within 0 0 t (report_round r t)
unfolding report_round
report_round-Within r t =
    continue-Within 0 0 0 0 t _ _ _
      (if-yield-Within (ltb 0 (length r.client_messages)) (tool_result r.client_messages) t)
      λ _ _. if-yield-Within r.suppress_output suppress_output _

tool_round-Within :
    (engine : Engine) (registry : ToolRegistry) (round : ℕ) (pending : List ToolCall) (g : Gathered)
    (t : Turn)
    → Within 0 1 t (tool_round engine registry round pending g t)
unfolding tool_round
tool_round-Within engine registry round pending g t =
    continue-Within 0 1 0 0 t _ _ _
      (execute_tool_calls-Within engine registry round pending g.messages t)
      λ r _. reported r (is_aborted engine (after_tools round)) _
  where
    reported :
        (r : ToolExecutionResult) (stopped : Bool) (u : Turn)
        → Within 0 0 u (
            (if stopped
                then abandon
                else (report_round r >> pure (record g { messages = r.messages })))
              u)
    reported r true u = abandon-Within u
    reported r false u =
        continue-Within 0 0 0 0 u _ _ _ (report_round-Within r u) (λ _ _. pure-Within _ _)

-- Another round follows only while the budget lasts.
abbrev pub GoesOn : Engine → ℕ → Outcome (Gathered × Bool) → Type 0
GoesOn engine round o = (g : Gathered) → o ≡ done (g, true) → round < engine.max_tool_rounds

module _ (engine : Engine) (round : ℕ) where
  stays :
      (o : Outcome Text) (g : Gathered) (t : Turn)
      → GoesOn engine round
          (continue o
            (λ sentence. pure (record g { response_text = g.response_text ++ sentence }, false))
            t).0
  stays (done said) g t g' e = cc
  stays abandoned g t g' e = cc
  stays (threw x) g t g' e = cc
  stays unfinished g t g' e = cc

  exhausted_round-Within :
      (pending : List ToolCall) (g : Gathered) (t : Turn)
      → Within 0 0 t (exhausted_round engine pending g t)
        × GoesOn engine round (exhausted_round engine pending g t).0
  unfolding exhausted_round
  exhausted_round-Within pending g t = (
    continue-Within 0 0 0 0 t _ _ _ (close_exhausted_turn-Within engine _ t)
        (λ s _. pure-Within _ _),
    λ g' e. stays (close_exhausted_turn engine _ t).0 g _ g' e,
  )

  executed_round-Within :
      (registry : ToolRegistry) (pending : List ToolCall) (g : Gathered) (t : Turn)
      → round < engine.max_tool_rounds
      → Within 0 1 t (executed_round engine registry round pending g t)
        × GoesOn engine round (executed_round engine registry round pending g t).0
  unfolding executed_round
  executed_round-Within registry pending g t h = (
    continue-Within 0 1 0 0 t _ _ _ (tool_round-Within engine registry round pending g t)
        (λ g' _. pure-Within (g', true) _),
    λ _ _. h,
  )

  ended_round :
      (g : Gathered) (t : Turn)
      → Within 0 0 t (pure {A = Gathered × Bool} (g, false) t)
        × GoesOn engine round (done (g, false))
  ended_round g t = (pure-Within (g, false) t, λ g' e. cc)

  -- A run of a round that counts at most one tool round, and that only while the budget lasts.
  unfoldable pub Bounded : Turn → Outcome (Gathered × Bool) × Turn → Type 0
  Bounded t r = Within 0 (min 1 (engine.max_tool_rounds - round)) t r × GoesOn engine round r.0

  Bounded-quiet :
      (t : Turn) (r : Outcome (Gathered × Bool) × Turn)
      → Within 0 0 t r × GoesOn engine round r.0
      → Bounded t r
  unfolding Bounded
  Bounded-quiet t r (w, g) =
      (record { called = w.called; ran = omega (arith, w.ran); ends = w.ends; kept = w.kept }, g)

  Bounded-round :
      (t : Turn) (r : Outcome (Gathered × Bool) × Turn)
      → round < engine.max_tool_rounds
      → Within 0 1 t r × GoesOn engine round r.0
      → Bounded t r
  unfolding Bounded
  Bounded-round t r h (w, g) =
      (record { called = w.called; ran = omega (arith, w.ran); ends = w.ends; kept = w.kept }, g)

  round_with-Bounded :
      (outcome : RoundOutcome) (g : Gathered) (registry : Option ToolRegistry) (t : Turn)
      → Bounded t (round_with engine round outcome g registry t)
  unfolding round_with budget_spent
  round_with-Bounded outcome g none t = Bounded-quiet t _ (ended_round g t)
  round_with-Bounded outcome g (some registry) t =
      elim (Bool-cases
        (should_continue_tool_loop outcome.stop_reason outcome.pending (some registry))) [
          | inr over ↦ rw over (Bounded-quiet t _ (ended_round g t))
          | inl more ↦ elim (Bool-cases (ltb round engine.max_tool_rounds)) [
            | inl left ↦
                let room = ltb→lt round engine.max_tool_rounds left in
                rw (more, left)
                  (Bounded-round t _ room (executed_round-Within registry outcome.pending g t room))
            | inr spent ↦
                rw (more, spent) (Bounded-quiet t _ (exhausted_round-Within outcome.pending g t))
          ]
        ]

pub stream_round-Within :
    (engine : Engine) (request : SendMessageParams) (t : Turn)
    → Within 1 0 t (stream_round engine request t)
unfolding stream_round
stream_round-Within engine request t = record {
  called = omega arith;
  ran = omega arith;
  ends = thrown_or-ends _ _;
  kept = refl;
}
  where
    thrown_or-ends : (r : RoundOutcome) (f : Option Thrown) → thrown_or r f ≢ unfinished
    thrown_or-ends r none e = cc
    thrown_or-ends r (some x) e = cc

pub stopped_or-Within :
    (engine : Engine) (round : ℕ) (stopped : Bool) (outcome : RoundOutcome) (g : Gathered)
    (t : Turn)
    → let r = (if stopped then abandon else after_round engine round outcome g) t in
      Within 0 (min 1 (engine.max_tool_rounds - round)) t r × GoesOn engine round r.0
unfolding after_round Bounded
stopped_or-Within engine round true outcome g t =
    (record { called = omega arith; ran = omega arith; ends = λ e. cc; kept = refl }, λ g' e. cc)
stopped_or-Within engine round false outcome g t =
    round_with-Bounded engine round outcome g engine.registry t

pub continue-GoesOn :
    {A : Type 0} (engine : Engine) (round : ℕ) (o : Outcome A) (f : A → Run (Gathered × Bool))
    (t : Turn)
    → ((a : A) → GoesOn engine round (f a t).0)
    → GoesOn engine round (continue o f t).0
continue-GoesOn engine round (done a) f t h = h a
continue-GoesOn engine round abandoned f t h = λ g e. cc
continue-GoesOn engine round (threw x) f t h = λ g e. cc
continue-GoesOn engine round unfinished f t h = λ g e. cc
