-- ===== src/Orchestrator/Budget.antt =====
-- The tool budget over the rounds of the loop.
use halengine.Prelude.{
  ℕ, zero, suc, ◌+◌, ◌-◌, ◌<◌, Text, Bool, true, false, refl, ◌∙◌, Option, List, ◌++◌,
  if◌then◌else◌, min, arith,
}
use halengine.Ai.{ToolDefinition}
use halengine.Orchestrator.{Engine, SendMessageParams, is_aborted, after_stream}
use halengine.Orchestrator.Turn.{
  Turn, Outcome, done, abandoned, threw, unfinished, Run, abandon, continue,
}
use halengine.Orchestrator.Counts.{Within, continue-Within}
use halengine.Orchestrator.Loop.{
  accumulate_usage, RoundOutcome, Gathered, stream_round, after_round, one_round, tool_loop,
  goes_on,
}
use halengine.Orchestrator.Rounds.{GoesOn, stream_round-Within, stopped_or-Within, continue-GoesOn}

module _ (engine : Engine) (system_prompt : Text) (tools : Option (List ToolDefinition)) where
  one_round-Within :
      (round : ℕ) (g : Gathered) (t : Turn)
      → let r = one_round engine system_prompt tools round g t in
        Within 1 (min 1 (engine.max_tool_rounds - round)) t r × GoesOn engine round r.0
  unfolding one_round
  one_round-Within round g t =
      let request : SendMessageParams = record {
        messages = g.messages;
        system_prompt = system_prompt;
        tools = tools;
      } in
      let streamed = stream_round engine request t in
      let gathered : RoundOutcome → Gathered = λ outcome. record g {
        response_text = g.response_text ++ outcome.text;
        total_usage = accumulate_usage g.total_usage outcome.usage;
      } in
      let after : RoundOutcome → Run (Gathered × Bool) = λ outcome.
        if is_aborted engine (after_stream round)
        then abandon
        else after_round engine round outcome (gathered outcome) in
      let w =
        continue-Within 1 0 0 (min 1 (engine.max_tool_rounds - round)) t streamed.1 streamed.0 after
          (stream_round-Within engine request t)
          (λ outcome _. (stopped_or-Within engine round _ outcome _ _).0) in
      (
        record {
          called = omega (arith, w.called);
          ran = omega (arith, w.ran);
          ends = w.ends;
          kept = w.kept;
        },
        continue-GoesOn engine round streamed.0 after streamed.1
            (λ outcome. (stopped_or-Within engine round _ outcome _ _).1),
      )

  next_rounds-Within :
      (fuel round : ℕ) (t t' : Turn) (o : Outcome (Gathered × Bool))
      → Within 1 (min 1 (engine.max_tool_rounds - round)) t (o, t')
      → GoesOn engine round o
      → ((g : Gathered)
          → round < engine.max_tool_rounds
          → Within
              (suc (engine.max_tool_rounds - (round + 1)))
              (engine.max_tool_rounds - (round + 1))
              t'
              (tool_loop engine system_prompt tools fuel (round + 1) g t'))
      → Within
          (suc (engine.max_tool_rounds - round))
          (engine.max_tool_rounds - round)
          t
          (continue o (goes_on (λ g. tool_loop engine system_prompt tools fuel (round + 1) g)) t')
  next_rounds-Within fuel round t t' (done (g, false)) w goes ih = record {
    called = omega (arith, w.called);
    ran = omega (arith, w.ran);
    ends = λ e. cc;
    kept = w.kept;
  }
  next_rounds-Within fuel round t t' (done (g, true)) w goes ih =
      let room = goes g refl in
      let rest = ih g room in
      record {
        called = omega (arith, w.called, rest.called, room);
        ran = omega (arith, w.ran, rest.ran, room);
        ends = rest.ends;
        kept = rest.kept ∙ w.kept;
      }
  next_rounds-Within fuel round t t' abandoned w goes ih = record {
    called = omega (arith, w.called);
    ran = omega (arith, w.ran);
    ends = λ e. cc;
    kept = w.kept;
  }
  next_rounds-Within fuel round t t' (threw x) w goes ih = record {
    called = omega (arith, w.called);
    ran = omega (arith, w.ran);
    ends = λ e. cc;
    kept = w.kept;
  }
  next_rounds-Within fuel round t t' unfinished w goes ih = absurd (w.ends refl)

  -- Within the fuel the loop ends by itself, after at most one provider call more than the rounds
  -- that the budget still allows.
  pub tool_loop-Within :
      (fuel round : ℕ) (g : Gathered) (t : Turn)
      → engine.max_tool_rounds - round < fuel
      → Within
          (suc (engine.max_tool_rounds - round))
          (engine.max_tool_rounds - round)
          t
          (tool_loop engine system_prompt tools fuel round g t)
  unfolding tool_loop
  tool_loop-Within zero round g t h = absurd (omega arith)
  tool_loop-Within (suc fuel) round g t h =
      let one = one_round-Within round g t in
      next_rounds-Within fuel round t (one_round engine system_prompt tools round g t).1
        (one_round engine system_prompt tools round g t).0 one.0 one.1
        (λ g' room. tool_loop-Within fuel (round + 1) g' _ (omega arith))
