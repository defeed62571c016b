-- ===== src/Orchestrator/Hooks.antt =====
-- The `try` and the `catch` of a turn: the hooks around the loop, and what they count.
use halengine.Prelude.{
  ℕ, suc, Text, Bool, true, false, refl, ◌≢◌, Option, none, some, List, if◌then◌else◌, arith,
  Bool-cases, Option-cases, inl, inr, text_eq,
}
use halengine.Session.{ChatSession}
use halengine.Ai.{ToolDefinition, Thrown}
use halengine.Orchestrator.{Engine, Answer, is_aborted, in_catch}
use halengine.Orchestrator.Turn.{
  Turn, Outcome, done, abandoned, threw, unfinished, Run, raise, continue, call_hook,
}
use halengine.Orchestrator.Loop.{Gathered}
use halengine.Orchestrator.Process.{
  rewrite_user_message, start_input, before_model, after_user, after_model, start_loop, try_turn,
  report_error, catch_turn, update_last_user_content,
}
use halengine.Orchestrator.Counts.{Within, continue-Within, settle-Within}
use halengine.Orchestrator.Rounds.{pure-Within}
use halengine.Orchestrator.Budget.{tool_loop-Within}

pub call_hook-Within :
    (hook : Option (ChatSession → Answer (Unit {0}))) (t : Turn) → Within 0 0 t (call_hook hook t)
call_hook-Within none t = pure-Within tt t
call_hook-Within (some hook) t = settle-Within (hook t.session) t

rewrite_user_message-Within :
    (engine : Engine) (message : Text) (t : Turn)
    → Within 0 0 t (rewrite_user_message engine message t)
unfolding rewrite_user_message
rewrite_user_message-Within engine message t = elim (Option-cases engine.hooks.before_user_input) [
  | inl e ↦ rw (e, rewrite_user_message) (pure-Within message t)
  | inr (hook, e) ↦
      rw (e, rewrite_user_message)
        (continue-Within 0 0 0 0 t _ _ _ (settle-Within (hook t.session message) t)
          (λ modified _. modified-Within (text_eq modified message) modified _))
]
  where
    modified-Within :
        (same : Bool) (modified : Text) (u : Turn)
        → Within 0 0 u (
            if same then (done message, u) else (
              done modified,
              record u {
                session = record u.session {
                  entries = update_last_user_content modified u.session.entries;
                };
              },
            ))
    modified-Within true modified u = pure-Within message u
    modified-Within false modified u = record {
      called = omega arith;
      ran = omega arith;
      ends = λ e. cc;
      kept = refl;
    }

after_user-Within :
    (engine : Engine) (message : Text) (t : Turn) → Within 0 0 t (after_user engine message t)
unfolding after_user
after_user-Within engine message t = elim (Option-cases engine.hooks.after_user_input) [
  | inl e ↦ rw (e, after_user) (pure-Within tt t)
  | inr (hook, e) ↦ rw (e, after_user) (settle-Within (hook t.session message) t)
]

before_model-Within :
    (engine : Engine) (prompt : Text) (t : Turn) → Within 0 0 t (before_model engine prompt t)
unfolding before_model
before_model-Within engine prompt t = elim (Option-cases engine.hooks.before_model_response) [
  | inl e ↦ rw (e, before_model) (pure-Within prompt t)
  | inr (hook, e) ↦ rw (e, before_model) (settle-Within (hook t.session prompt) t)
]

after_model-Within :
    (engine : Engine) (g : Gathered) (t : Turn) → Within 0 0 t (after_model engine g t)
unfolding after_model
after_model-Within engine g t = elim (Option-cases engine.hooks.after_model_response) [
  | inl e ↦ rw (e, after_model) (pure-Within tt t)
  | inr (hook, e) ↦
      rw (e, after_model) (settle-Within (hook t.session g.response_text g.total_usage) t)
]

module _ {A B : Type 0} (c r : ℕ) (t t' : Turn) (o : Outcome A) (f : A → Run B) where
  after-Within :
      Within 0 0 t (o, t') → ((a : A) → Within c r t' (f a t')) → Within c r t (continue o f t')
  after-Within w k =
      let w' = continue-Within 0 0 c r t t' o f w (λ a _. k a) in
      record {
        called = omega (arith, w'.called);
        ran = omega (arith, w'.ran);
        ends = w'.ends;
        kept = w'.kept;
      }

  before-Within :
      Within c r t (o, t') → ((a : A) → Within 0 0 t' (f a t')) → Within c r t (continue o f t')
  before-Within w k =
      let w' = continue-Within c r 0 0 t t' o f w (λ a _. k a) in
      record {
        called = omega (arith, w'.called);
        ran = omega (arith, w'.ran);
        ends = w'.ends;
        kept = w'.kept;
      }

module _ (engine : Engine) where
  start_loop-Within :
      (prompt : Text) (tools : Option (List ToolDefinition)) (t : Turn)
      → Within
          (suc engine.max_tool_rounds)
          engine.max_tool_rounds
          t
          (start_loop engine prompt tools t)
  unfolding start_loop
  start_loop-Within prompt tools t =
      let w =
        tool_loop-Within engine prompt tools (suc engine.max_tool_rounds) 0 _ t (omega arith) in
      record {
        called = omega (arith, w.called);
        ran = omega (arith, w.ran);
        ends = w.ends;
        kept = w.kept;
      }

  start_input-Within : (t : Turn) → Within 0 0 t (start_input engine t)
  unfolding start_input
  start_input-Within t = rewrite_user_message-Within engine _ t

  pub try_turn-Within :
      (t : Turn) → Within (suc engine.max_tool_rounds) engine.max_tool_rounds t (try_turn engine t)
  unfolding try_turn
  try_turn-Within t = after-Within _ _ t _ _ _ (call_hook-Within engine.hooks.before_session t) λ _.
      after-Within _ _ _ _ _ _ (start_input-Within _) λ message.
        after-Within _ _ _ _ _ _ (after_user-Within engine message _) λ _.
          after-Within _ _ _ _ _ _ (before_model-Within engine _ _) λ prompt.
            before-Within _ _ _ _ _ _ (start_loop-Within prompt _ _)
              λ g. after_model-Within engine g _

report_error-Within :
    (engine : Engine) (e : Thrown) (t : Turn) → Within 0 0 t (report_error engine e t)
unfolding report_error
report_error-Within engine e t = elim (Option-cases engine.hooks.on_error) [
  | inl none_set ↦ rw (none_set, report_error) (pure-Within tt t)
  | inr (hook, is_set) ↦ rw (is_set, report_error) (settle-Within (hook t.session e) t)
]

raise-Within : (e : Thrown) (t : Turn) → Within 0 0 t (raise {A = Unit {0}} e t)
raise-Within e t = record { called = omega arith; ran = omega arith; ends = λ e. cc; kept = refl }

pub catch_turn-Within :
    (engine : Engine) (tried : Outcome (Unit {0})) (t : Turn)
    → tried ≢ unfinished
    → Within 0 0 t (catch_turn engine tried t)
unfolding catch_turn
catch_turn-Within engine (done x) t h = pure-Within tt t
catch_turn-Within engine abandoned t h = record {
  called = omega arith;
  ran = omega arith;
  ends = λ e. cc;
  kept = refl;
}
catch_turn-Within engine unfinished t h = absurd (h refl)
catch_turn-Within engine (threw e) t h = elim (Bool-cases (is_aborted engine in_catch)) [
  | inl stopped ↦
      rw (stopped, catch_turn)
        (record { called = omega arith; ran = omega arith; ends = λ e. cc; kept = refl })
  | inr on ↦
      rw (on, catch_turn)
        (continue-Within 0 0 0 0 t _ _ _ (report_error-Within engine e t) (λ _ _. raise-Within e _))
]
