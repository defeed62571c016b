-- ===== src/Turns/Examples.antt =====
-- Tests of the answers to a client's frames and the witnesses of their theorems.
use halengine.Prelude.{
  ◌≡◌, refl, Text, text, true, false, none, some, List, [], ◌∷◌, Number, Json, null, str, object,
  empty, field,
}
use halengine.Session.{ChatSession, named}
use halengine.Entries.{EntryWriter}
use halengine.Messages.{user_message, list_conversations, error, stream_end}
use halengine.Ai.{text_chunk, ai_error, other_error}
use halengine.Frames.{ValidationResult, valid, invalid, is_user_message_frame, member}
use halengine.RateLimit.{
  RateLimit, Limiter, consume, prune_idle, kept_bucket, is_idle, refilled, held, ceil_div, spend,
  set_bucket,
}
use halengine.Handler.{came}
use halengine.Turns.{
  Socket, is_open, closed, client_error_for, dropped_for_closed_socket, ws_error, end_turn,
  report_invalid, Run, turned, answers, refuses, refuse_in_turn, answer_user_message,
  answer_in_turn, run_job, refusal, job_for, answer_frame, refused_by, handle_message,
}
use halengine.Turns.Ending.{EndsOnce, gone_by, run_job-EndsOnce}
use halengine.Turns.Limits.{Arrival, turns_of}

abbrev writer : EntryWriter
writer = record { max_content_entries = none; redact_entry = none }

abbrev session : ChatSession
session = record {
  session_id = text "s1";
  user_id = named (text "u1");
  entries = [];
  auth_headers = none;
  workspace_id = none;
  active_persona = none;
  created_at = none;
  user = none;
}

abbrev here : Socket
here = record { aborted = false; ready_state = is_open }

abbrev gone : Socket
gone = record { aborted = false; ready_state = closed }

abbrev quits : Run
quits = record {
  events = came (text_chunk (text "Hi")) ∷ [];
  threw = some (ai_error (text "key sk-1 is over its quota") (text "RATE_LIMITED") true);
  broken = record { session = session; sent = [] };
}

errors :
    (ws_error quits.threw
      ≡ error (text "RATE_LIMITED") (text "AI service is busy, please try again") none ∷ [])
    × (ws_error (some (ai_error [] (text "constructor") false))
        ≡ error (text "UPSTREAM_ERROR") (text "AI service temporarily unavailable") none ∷ [])
    × (ws_error (some (other_error (text "x is undefined")))
        ≡ error (text "SERVER_ERROR") (text "Failed to process message") none ∷ [])
unfolding ws_error client_error_for
errors = (refl, refl, refl)

jobs :
    (run_job writer (text "t") session (answers (invalid (text "no"))) here quits false ≡ record {
      session = session;
      sent = error (text "INVALID_MESSAGE") (text "no") none ∷ stream_end ∷ [];
    })
    × (run_job writer (text "t") session (answers (invalid (text "no"))) gone quits true
        ≡ record { session = session; sent = [] })
    × (run_job writer (text "t") session (refuses 500) here quits true ≡ record {
      session = session;
      sent =
          error (text "TOO_MANY_REQUESTS") (text "Too many requests, please slow down") (some 500)
          ∷ stream_end
          ∷ [];
    })
unfolding run_job answer_in_turn refuse_in_turn answer_user_message report_invalid
    dropped_for_closed_socket end_turn
jobs = (refl, refl, refl)

frames :
    (answer_frame (λ limit before. stream_end ∷ []) (valid (list_conversations none none)) true
      ≡ [])
    × (answer_frame (λ limit before. []) (invalid (text "no")) true
        ≡ error (text "INVALID_MESSAGE") (text "no") none ∷ [])
unfolding answer_frame report_invalid
frames = (refl, refl)

-- A write that finds no entry.
broken_off : turned quits none ≡ record {
  session = session;
  sent = error (text "SERVER_ERROR") (text "Failed to process message") none ∷ [];
}
unfolding turned ws_error
broken_off = refl

run_job-EndsOnce_example :
    EndsOnce
      (gone_by (answers (valid (user_message (text "Hi")))) false)
      (run_job writer
        (text "t")
        session
        (answers (valid (user_message (text "Hi"))))
        here
        quits
        false).sent
unfolding dropped_for_closed_socket
run_job-EndsOnce_example =
    run_job-EndsOnce writer (text "t") session quits (answers (valid (user_message (text "Hi"))))
      here false tt tt refl

abbrev digits : Number → Text
digits n = text "7"

abbrev passes : Json → ValidationResult
passes j = valid (user_message (text "Hi"))

abbrev hi : Json
hi = object (field (text "type") (str (text "user_message")) empty)

-- One request a second, one at once.
abbrev budget : RateLimit
budget = record { limit = 1; window_ms = 1000; burst = 1 }

abbrev fresh : Limiter
fresh = record { buckets = λ key. none; pruned_at = 0 }

abbrev three : List Arrival
three =
    record { session = session; raw = hi; at = 10 }
    ∷ record { session = session; raw = null; at = 20 }
    ∷ record { session = session; raw = hi; at = 30 }
    ∷ []

-- The second message comes too early.
three_turns : turns_of digits passes (some (budget, fresh)) (text "user:u1") three ≡ 1
unfolding turns_of handle_message refused_by refusal job_for is_user_message_frame member consume
    prune_idle kept_bucket is_idle refilled held ceil_div spend set_bucket
three_turns = refl
