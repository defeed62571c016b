-- ===== src/Orchestrator/Ending.antt =====
-- How a whole turn of processMessageStream ends.
use halengine.Prelude.{
  suc, ◌≤◌, ◌≡◌, refl, ◌∙◌, ap, ◌≢◌, none, [], ◌∷◌, ◌++◌, All, length, if◌then◌else◌, arith,
  Bool-cases, inl, inr,
}
use halengine.Session.{ChatSession}
use halengine.Entries.{close_turn}
use halengine.Entries.Closing.{IsClosed, ClosesWhatItReturns, close_turn-IsClosed}
use halengine.Orchestrator.{Engine}
use halengine.Orchestrator.Turn.{Turn, Outcome, done, abandoned, threw, unfinished, call_hook}
use halengine.Orchestrator.Process.{
  try_turn, catch_turn, after_finally, save_session, end_turn, process_message_stream, new_turn,
}
use halengine.Orchestrator.Hooks.{call_hook-Within, try_turn-Within, catch_turn-Within}

-- The end of a turn: its outcome stays an end, and the session that it ends with is saved.
record Ended (engine : Engine) (t : Turn) (r : Outcome (Unit {0}) × Turn) : Type 0 where
  finished : r.0 ≢ unfinished
  calls_kept : r.1.provider_calls ≤ t.provider_calls
  rounds_kept : length r.1.executed ≤ length t.executed
  saved_last : r.1.saved ≡ (if engine.saves then t.saved ++ r.1.session ∷ [] else t.saved)

after_finally-ends :
    (before after : Outcome (Unit {0}))
    → before ≢ unfinished
    → after ≢ unfinished
    → after_finally before after ≢ unfinished
after_finally-ends before (done x) b a = b
after_finally-ends before (threw e) b a = λ e. cc
after_finally-ends before abandoned b a = λ e. cc
after_finally-ends before unfinished b a = λ e. a refl

save_session-saved :
    (engine : Engine) (t u : Turn)
    → u.saved ≡ t.saved
    → (save_session engine u).saved
      ≡ (if engine.saves then t.saved ++ (save_session engine u).session ∷ [] else t.saved)
unfolding save_session
save_session-saved engine t u h = elim (Bool-cases engine.saves) [
  | inl saves ↦ rw saves (ap (λ ss. ss ++ u.session ∷ []) h)
  | inr not_saves ↦ rw not_saves h
]

save_session-counts :
    (engine : Engine) (u : Turn)
    → ((save_session engine u).provider_calls ≡ u.provider_calls)
      × ((save_session engine u).executed ≡ u.executed)
unfolding save_session
save_session-counts engine u = elim (Bool-cases engine.saves) [
  | inl saves ↦ rw saves (refl, refl)
  | inr not_saves ↦ rw not_saves (refl, refl)
]

end_turn-Ended :
    (engine : Engine) (before : Outcome (Unit {0})) (t : Turn)
    → before ≢ unfinished
    → Ended engine t (end_turn engine before t)
unfolding end_turn
end_turn-Ended engine before t h =
    let closed : Turn = record t {
      session = record t.session { entries = close_turn engine.writer t.session.entries };
    } in
    let w = call_hook-Within engine.hooks.after_session closed in
    let u = (call_hook engine.hooks.after_session closed).1 in
    let same = save_session-counts engine u in
    record {
      finished = after_finally-ends before _ h w.ends;
      calls_kept = omega (arith, w.called, same.0);
      rounds_kept = omega (arith, w.ran, ap length same.1);
      saved_last = save_session-saved engine t u w.kept;
    }

-- Whatever the provider, the tools, the hooks and the abort signal answer, if each call of theirs
-- returns or throws and each stream ends, a turn comes to an end; it calls the provider at most once
-- more than its tool budget allows rounds, and runs at most that many tool rounds.
pub process_message_stream_budget :
    (engine : Engine) (session : ChatSession)
    → let r = process_message_stream engine (new_turn session) in
      (r.0 ≢ unfinished)
      × (r.1.provider_calls ≤ suc engine.max_tool_rounds)
      × (length r.1.executed ≤ engine.max_tool_rounds)
unfolding process_message_stream
process_message_stream_budget engine session =
    let t = new_turn session in
    let tried = try_turn engine t in
    let w = try_turn-Within engine t in
    let c = catch_turn-Within engine tried.0 tried.1 w.ends in
    let e =
      end_turn-Ended engine (catch_turn engine tried.0 tried.1).0
        (catch_turn engine tried.0 tried.1).1 c.ends in
    (
      e.finished,
      omega (arith, w.called, c.called, e.calls_kept),
      omega (arith, w.ran, c.ran, e.rounds_kept),
    )

-- On every path out of a turn, a throw of the provider, of a tool or of a hook included, a store
-- that is set is given one session: the one that the turn ends with.
pub process_message_stream_saved :
    (engine : Engine) (session : ChatSession)
    → let t = (process_message_stream engine (new_turn session)).1 in
      t.saved ≡ (if engine.saves then t.session ∷ [] else [])
unfolding process_message_stream
process_message_stream_saved engine session =
    let t = new_turn session in
    let tried = try_turn engine t in
    let w = try_turn-Within engine t in
    let c = catch_turn-Within engine tried.0 tried.1 w.ends in
    let e =
      end_turn-Ended engine (catch_turn engine tried.0 tried.1).0
        (catch_turn engine tried.0 tried.1).1 c.ends in
    let last = (process_message_stream engine t).1.session in
    e.saved_last ∙ ap (λ ss. if engine.saves then ss ++ last ∷ [] else ss) (c.kept ∙ w.kept)

-- With no hook after the session, every entry that a turn leaves is closed, whatever ended the
-- turn, if the redactor answers no streaming entry for one that is not streaming.
pub process_message_stream-IsClosed :
    (engine : Engine) (session : ChatSession)
    → engine.hooks.after_session ≡ none
    → ClosesWhatItReturns engine.writer.redact_entry
    → All IsClosed (process_message_stream engine (new_turn session)).1.session.entries
unfolding process_message_stream end_turn save_session
process_message_stream-IsClosed engine session h c = elim (Bool-cases engine.saves) [
  | inl s ↦ rw (h, s) (close_turn-IsClosed engine.writer _ c)
  | inr s ↦ rw (h, s) (close_turn-IsClosed engine.writer _ c)
]
