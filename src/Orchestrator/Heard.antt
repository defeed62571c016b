-- ===== src/Orchestrator/Heard.antt =====
-- What the loop gathers of the model's words, beside what the consumer has been given of them.
use halengine.Prelude.{
  ℕ, zero, suc, ◌+◌, Text, Bool, true, false, ◌≡◌, ◌∙◌, sym, ap, Option, none, some, List, ◌++◌,
  if◌then◌else◌, Bool-cases, inl, inr,
}
use halengine.Ai.{MessageChunk, ToolCall, ToolDefinition, Thrown}
use halengine.Tools.{ToolRegistry}
use halengine.Orchestrator.{Engine, SendMessageParams}
use halengine.Orchestrator.Turn.{Turn, Outcome, done, abandoned, threw, unfinished, abandon}
use halengine.Orchestrator.Loop.{
  RoundOutcome, new_round, Gathered, take_chunks, stream_round, thrown_or, exhausted_round,
  executed_round, round_with, after_round, one_round, goes_on, tool_loop, should_continue_tool_loop,
  budget_spent,
}
use halengine.Orchestrator.Process.{collect_text}
use halengine.Orchestrator.Spoken.{
  Post, continue-Post, heard, close_exhausted_turn-Post, tool_round-Post, collect_text-append,
  take_chunks-text,
}
use halengine.Orchestrator.Answers.{done-injective}

-- The words gathered are the words heard.
AllHeard : Gathered × Bool → Turn → Type 0
AllHeard r u = r.0.response_text ≡ heard u

module _ (engine : Engine) (round : ℕ) where
  exhausted_round-AllHeard :
      (pending : List ToolCall) (g : Gathered) (t : Turn)
      → g.response_text ≡ heard t
      → Post AllHeard (exhausted_round engine pending g t)
  unfolding exhausted_round AllHeard
  exhausted_round-AllHeard pending g t h =
      continue-Post (λ s u. heard u ≡ heard t ++ s) _ _ _ _ (close_exhausted_turn-Post engine _ t)
        λ s said. ap (λ x. x ++ s) h ∙ sym said

  executed_round-AllHeard :
      (registry : ToolRegistry) (pending : List ToolCall) (g : Gathered) (t : Turn)
      → g.response_text ≡ heard t
      → Post AllHeard (executed_round engine registry round pending g t)
  unfolding executed_round AllHeard
  executed_round-AllHeard registry pending g t h =
      continue-Post (λ g' u. (heard u ≡ heard t) × (g'.response_text ≡ g.response_text)) _ _ _ _
        (tool_round-Post engine registry round pending g t) λ g' same. same.1 ∙ h ∙ sym same.0

  round_with-AllHeard :
      (outcome : RoundOutcome) (g : Gathered) (registry : Option ToolRegistry) (t : Turn)
      → g.response_text ≡ heard t
      → Post AllHeard (round_with engine round outcome g registry t)
  unfolding round_with AllHeard
  round_with-AllHeard outcome g none t h = h
  round_with-AllHeard outcome g (some registry) t h =
      elim (Bool-cases
        (should_continue_tool_loop outcome.stop_reason outcome.pending (some registry))) [
          | inr over ↦ rw over h
          | inl more ↦ elim (Bool-cases (budget_spent round engine.max_tool_rounds)) [
            | inl spent ↦ rw (more, spent) (exhausted_round-AllHeard outcome.pending g t h)
            | inr left ↦ rw (more, left) (executed_round-AllHeard registry outcome.pending g t h)
          ]
        ]

  stopped_or-AllHeard :
      (stopped : Bool) (outcome : RoundOutcome) (g : Gathered) (t : Turn)
      → g.response_text ≡ heard t
      → Post AllHeard ((if stopped then abandon else after_round engine round outcome g) t)
  unfolding after_round
  stopped_or-AllHeard true outcome g t h = tt
  stopped_or-AllHeard false outcome g t h = round_with-AllHeard outcome g engine.registry t h

stream_round-Post :
    (engine : Engine) (request : SendMessageParams) (t : Turn)
    → Post (λ r u. heard u ≡ heard t ++ r.text) (stream_round engine request t)
unfolding stream_round heard
stream_round-Post engine request t =
    let run = engine.provider t.provider_calls request in ended run.failure run.chunks
  where
    ended :
        (failure : Option Thrown) (chunks : List MessageChunk)
        → Post
            (λ r u. collect_text u.yielded ≡ collect_text t.yielded ++ r.text)
            (
              thrown_or (take_chunks new_round chunks) failure,
              record t { yielded = t.yielded ++ chunks; provider_calls = t.provider_calls + 1 },
            )
    ended none chunks =
        collect_text-append t.yielded chunks
        ∙ ap (λ x. collect_text t.yielded ++ x) (sym (take_chunks-text new_round chunks))
    ended (some e) chunks = tt

module _ (engine : Engine) (system_prompt : Text) (tools : Option (List ToolDefinition)) where
  one_round-AllHeard :
      (round : ℕ) (g : Gathered) (t : Turn)
      → g.response_text ≡ heard t
      → Post AllHeard (one_round engine system_prompt tools round g t)
  unfolding one_round
  one_round-AllHeard round g t h =
      continue-Post (λ r u. heard u ≡ heard t ++ r.text) _ _ _ _ (stream_round-Post engine _ t)
        λ outcome said.
          stopped_or-AllHeard engine round _ outcome _ _ (ap (λ x. x ++ outcome.text) h ∙ sym said)

  tool_loop-AllHeard :
      (fuel round : ℕ) (g : Gathered) (t : Turn)
      → g.response_text ≡ collect_text t.yielded
      → Post
          (λ g' u. g'.response_text ≡ collect_text u.yielded)
          (tool_loop engine system_prompt tools fuel round g t)
  unfolding tool_loop AllHeard heard
  tool_loop-AllHeard zero round g t h = tt
  tool_loop-AllHeard (suc fuel) round g t h =
      continue-Post AllHeard _ _ _ _ (one_round-AllHeard round g t h)
        λ r same. next (λ g' u k. tool_loop-AllHeard fuel (round + 1) g' u k) r _ same
    where
      next :
          ((g' : Gathered) (u : Turn)
            → g'.response_text ≡ collect_text u.yielded
            → Post
                (λ g'' v. g''.response_text ≡ collect_text v.yielded)
                (tool_loop engine system_prompt tools fuel (round + 1) g' u))
          → (r : Gathered × Bool) (u : Turn) → AllHeard r u
          → Post
              (λ g' v. g'.response_text ≡ collect_text v.yielded)
              (goes_on (λ g'. tool_loop engine system_prompt tools fuel (round + 1) g') r u)
      next ih (g', false) u same = same
      next ih (g', true) u same = ih g' u same

  done-Post :
      (r : Outcome Gathered × Turn) (g : Gathered)
      → Post (λ g' u. g'.response_text ≡ collect_text u.yielded) r
      → r.0 ≡ done g
      → g.response_text ≡ collect_text r.1.yielded
  done-Post (done g', u) g p e = rw⁻¹ (done-injective g' g e) p
  done-Post (abandoned, u) g p e = cc
  done-Post (threw x, u) g p e = cc
  done-Post (unfinished, u) g p e = cc

  -- A loop that is done has gathered, as the turn's response, exactly the text that its consumer was
  -- given over all its rounds, the closing sentence of a spent budget included, if that held when it
  -- started.
  pub tool_loop-heard :
      (fuel round : ℕ) (g g' : Gathered) (t : Turn)
      → g.response_text ≡ collect_text t.yielded
      → (tool_loop engine system_prompt tools fuel round g t).0 ≡ done g'
      → g'.response_text
        ≡ collect_text (tool_loop engine system_prompt tools fuel round g t).1.yielded
  tool_loop-heard fuel round g g' t h e =
      done-Post (tool_loop engine system_prompt tools fuel round g t) g'
        (tool_loop-AllHeard fuel round g t h) e
