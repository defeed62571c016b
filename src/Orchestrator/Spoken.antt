-- ===== src/Orchestrator/Spoken.antt =====
-- The text that a step of a turn gives its consumer.
use halengine.Prelude.{
  ℕ, Text, Bool, true, false, ◌≡◌, refl, ◌∙◌, sym, ap, subst, lt→ltb, none, some, List, [], ◌∷◌,
  ◌++◌, append-nil, append_assoc, length, ltb, if◌then◌else◌, Option-cases, inl, inr, arith,
}
use halengine.Ai.{
  Message, MessageChunk, text_chunk, tool_use, tool_result, suppress_output, stop, ToolCall,
}
use halengine.Tools.{ToolRegistry, ToolResponse}
use halengine.Orchestrator.{
  Engine, ToolBudgetInfo, Answer, answers, throws, is_aborted, after_calls, after_tools,
}
use halengine.Orchestrator.Turn.{
  Turn, Outcome, done, abandoned, threw, unfinished, Run, pure, abandon, ◌>>◌, continue, yield,
  settle,
}
use halengine.Orchestrator.Tooling.{
  execute_tool_calls, run_calls, all_settled, record_responses, build_tool_call_messages,
  ToolExecutionResult,
}
use halengine.Orchestrator.Counts.{run_calls-SameCounts}
use halengine.Orchestrator.Loop.{
  RoundOutcome, Gathered, take_chunk, take_chunks, budget_sentence, close_exhausted_turn,
  report_round, tool_round, tool_budget_exhausted,
}
use halengine.Orchestrator.Process.{collect_text}

pub collect_text-append :
    (chunks more : List MessageChunk)
    → collect_text (chunks ++ more) ≡ collect_text chunks ++ collect_text more
unfolding collect_text
collect_text-append [] more = refl
collect_text-append (text_chunk s ∷ chunks) more =
    ap (λ x. s ++ x) (collect_text-append chunks more)
    ∙ sym (append_assoc s (collect_text chunks) (collect_text more))
collect_text-append (tool_use tc ∷ chunks) more = collect_text-append chunks more
collect_text-append (tool_result ms ∷ chunks) more = collect_text-append chunks more
collect_text-append (suppress_output ∷ chunks) more = collect_text-append chunks more
collect_text-append (stop reason u ∷ chunks) more = collect_text-append chunks more

pub take_chunks-text :
    (r : RoundOutcome) (chunks : List MessageChunk)
    → (take_chunks r chunks).text ≡ r.text ++ collect_text chunks
unfolding take_chunks take_chunk collect_text
take_chunks-text r [] = sym (append-nil r.text)
take_chunks-text r (text_chunk s ∷ chunks) =
    take_chunks-text _ chunks ∙ append_assoc r.text s (collect_text chunks)
take_chunks-text r (tool_use tc ∷ chunks) = take_chunks-text _ chunks
take_chunks-text r (tool_result ms ∷ chunks) = take_chunks-text _ chunks
take_chunks-text r (suppress_output ∷ chunks) = take_chunks-text _ chunks
take_chunks-text r (stop reason none ∷ chunks) = take_chunks-text _ chunks
take_chunks-text r (stop reason (some u) ∷ chunks) = take_chunks-text _ chunks

-- What holds of a run's value and the turn that it leaves, if it is done.
abbrev pub Post {ℓ} : {A : Type ℓ} → (A → Turn → Type 0) → Outcome A × Turn → Type 0
Post P (done a, t) = P a t
Post P (abandoned, t) = Unit
Post P (threw e, t) = Unit
Post P (unfinished, t) = Unit

module _ {ℓ κ} {A : Type ℓ} {B : Type κ} (P : A → Turn → Type 0) (Q : B → Turn → Type 0) where
  pub continue-Post :
      (o : Outcome A) (t : Turn) (f : A → Run B)
      → Post P (o, t)
      → ((a : A) → P a t → Post Q (f a t))
      → Post Q (continue o f t)
  continue-Post (done a) t f p k = k a p
  continue-Post abandoned t f p k = tt
  continue-Post (threw e) t f p k = tt
  continue-Post unfinished t f p k = tt

unfoldable pub heard : Turn → Text
heard t = collect_text t.yielded

settle-Post :
    {A : Type 0} (a : Answer A) (t : Turn) → Post (λ _ u. u.yielded ≡ t.yielded) (settle a t)
settle-Post (answers a s) t = refl
settle-Post (throws e s) t = tt

yield-Post :
    (c : MessageChunk) (t : Turn)
    → Post (λ _ u. heard u ≡ heard t ++ collect_text (c ∷ [])) (yield c t)
unfolding heard
yield-Post c t = collect_text-append t.yielded (c ∷ [])

-- A chunk with no text of its own, yielded if a test says so.
quiet_yield-Post :
    (b : Bool) (c : MessageChunk) (t : Turn)
    → collect_text (c ∷ []) ≡ []
    → Post (λ _ u. heard u ≡ heard t) ((if b then yield c else pure tt) t)
quiet_yield-Post false c t h = refl
quiet_yield-Post true c t h = yield-Post c t ∙ ap (λ s. heard t ++ s) h ∙ append-nil (heard t)

-- The sentence is yielded unless it is empty, which leaves nothing to be heard.
sentence-Post :
    (s : Text) (t : Turn)
    → Post
        (λ _ u. heard u ≡ heard t ++ s)
        ((if ltb 0 (length s) then yield (text_chunk s) else pure tt) t)
unfolding collect_text
sentence-Post [] t = sym (append-nil (heard t))
sentence-Post (c ∷ s) t =
    rw (lt→ltb 0 (length (c ∷ s)) (omega arith))
      (yield-Post (text_chunk (c ∷ s)) t ∙ ap (λ x. heard t ++ x) (append-nil (c ∷ s)))

sentence_after :
    (s base : Text) (t : Turn)
    → heard t ≡ base
    → Post
        (λ _ u. heard u ≡ base ++ s)
        ((if ltb 0 (length s) then yield (text_chunk s) else pure tt) t)
sentence_after s base t h =
    subst
      (λ b.
        Post (λ _ u. heard u ≡ b ++ s)
          ((if ltb 0 (length s) then yield (text_chunk s) else pure tt) t))
      h (sentence-Post s t)

budget_sentence-Post :
    (engine : Engine) (b : ToolBudgetInfo) (t : Turn)
    → Post (λ _ u. heard u ≡ heard t) (budget_sentence engine b t)
unfolding budget_sentence heard
budget_sentence-Post engine b t = elim (Option-cases engine.hooks.on_tool_budget_exhausted) [
  | inl e ↦ rw (e, budget_sentence) refl
  | inr (hook, e) ↦
      rw (e, budget_sentence)
        (continue-Post (λ _ u. u.yielded ≡ t.yielded) _ _ _ _ (settle-Post (hook t.session b) t)
          (λ _ same. ap collect_text same))
]

pub close_exhausted_turn-Post :
    (engine : Engine) (b : ToolBudgetInfo) (t : Turn)
    → Post (λ s u. heard u ≡ heard t ++ s) (close_exhausted_turn engine b t)
unfolding close_exhausted_turn collect_text
close_exhausted_turn-Post engine b t =
    continue-Post (λ _ u. heard u ≡ heard t) _ _ _ _ (budget_sentence-Post engine b t)
      λ s same.
        continue-Post (λ _ u. heard u ≡ heard t ++ s) _ _ _ _ (sentence_after s (heard t) _ same)
          λ _ said. yield-Post (stop tool_budget_exhausted none) _ ∙ append-nil _ ∙ said

report_round-Post :
    (r : ToolExecutionResult) (t : Turn) → Post (λ _ u. heard u ≡ heard t) (report_round r t)
unfolding report_round collect_text
report_round-Post r t =
    continue-Post (λ _ u. heard u ≡ heard t) _ _ _ _
      (quiet_yield-Post (ltb 0 (length r.client_messages)) (tool_result r.client_messages) t refl)
      λ _ same. rw⁻¹ same (quiet_yield-Post r.suppress_output suppress_output _ refl)

execute_tool_calls-Post :
    (engine : Engine) (registry : ToolRegistry) (round : ℕ) (calls : List ToolCall)
    (messages : List Message) (t : Turn)
    → Post (λ _ u. heard u ≡ heard t) (execute_tool_calls engine registry round calls messages t)
unfolding execute_tool_calls record_responses heard
execute_tool_calls-Post engine registry round calls messages t =
    let begun : Turn = record t { executed = t.executed ++ calls ∷ [] } in
    let called = run_calls engine registry round calls begun in
    let asked = messages ++ build_tool_call_messages calls ∷ [] in
    settled (all_settled called.0) called.1 asked (is_aborted engine (after_calls round))
      (ap collect_text (run_calls-SameCounts engine registry round calls begun).3)
  where
    settled :
        (o : Outcome (List (ToolCall × ToolResponse))) (u : Turn) (asked : List Message)
        (stopped : Bool)
        → heard u ≡ heard t
        → Post
            (λ _ v. heard v ≡ heard t)
            (continue o
              (λ responses.
                if stopped
                then pure
                    (record { messages = asked; client_messages = []; suppress_output = false })
                else record_responses engine asked responses)
              u)
    settled (done rs) u asked true same = same
    settled (done rs) u asked false same = same
    settled abandoned u asked stopped same = tt
    settled (threw e) u asked stopped same = tt
    settled unfinished u asked stopped same = tt

pub tool_round-Post :
    (engine : Engine) (registry : ToolRegistry) (round : ℕ) (pending : List ToolCall) (g : Gathered)
    (t : Turn)
    → Post
        (λ g' u. (heard u ≡ heard t) × (g'.response_text ≡ g.response_text))
        (tool_round engine registry round pending g t)
unfolding tool_round
tool_round-Post engine registry round pending g t =
    continue-Post (λ _ u. heard u ≡ heard t) _ _ _ _
      (execute_tool_calls-Post engine registry round pending g.messages t)
      λ r same. reported r (is_aborted engine (after_tools round)) _ same
  where
    reported :
        (r : ToolExecutionResult) (stopped : Bool) (u : Turn)
        → heard u ≡ heard t
        → Post
            (λ g' v. (heard v ≡ heard t) × (g'.response_text ≡ g.response_text))
            ((if stopped
                then abandon
                else (report_round r >> pure (record g { messages = r.messages })))
              u)
    reported r true u same = tt
    reported r false u same =
        continue-Post (λ _ v. heard v ≡ heard u) _ _ _ _ (report_round-Post r u)
          (λ _ more. (more ∙ same, refl))
