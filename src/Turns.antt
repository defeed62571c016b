-- ===== src/Turns.antt =====
-- transport/ws/messageHandler.ts around the handling of a turn, and transport/errorMapping.ts: how a frame
-- from a client is queued, refused, answered and ended. What can change while a frame waits or is
-- answered is an argument: the state of its socket when its turn comes, and whether it has closed by the
-- end.
pub mod Ending
pub mod Limits
pub mod Examples
use halengine.Prelude.{
  ℕ, Text, text, text_eq, Bool, true, false, not, ◌&&◌, Option, none, some, List, [], ◌∷◌, ◌++◌,
  if◌then◌else◌, Number, Json,
}
use halengine.Session.{ChatSession, UserId}
use halengine.Entries.{EntryWriter}
use halengine.Messages.{
  ConversationCursor, IncomingMessage, user_message, ping, list_conversations, OutgoingMessage,
  error, pong, stream_end,
}
use halengine.Ai.{Thrown, ai_error, other_error}
use halengine.Frames.{ValidationResult, valid, invalid, is_user_message_frame}
use halengine.RateLimit.{RateLimit, Limiter, Verdict, consume}
use halengine.Resume.{user_id_text}
use halengine.Handler.{Handling, Event, handle_user_message}

pub record ClientError : Type 0 where
  pub code : Text
  pub status : ℕ
  pub message : Text

abbrev pub ai_unavailable : Text
ai_unavailable = text "AI service temporarily unavailable"

-- PROVIDER_CONDITIONS, and UPSTREAM_ERROR for every other code.
unfoldable pub client_error_for : (code : Text) → ClientError
client_error_for code =
    if text_eq code (text "RATE_LIMITED")
    then record {
      code = text "RATE_LIMITED";
      status = 429;
      message = text "AI service is busy, please try again";
    }
    else if text_eq code (text "SERVICE_UNAVAILABLE")
    then record { code = text "SERVICE_UNAVAILABLE"; status = 503; message = ai_unavailable }
    else if text_eq code (text "TIMEOUT")
    then record { code = text "TIMEOUT"; status = 504; message = text "AI service timed out" }
    else record { code = text "UPSTREAM_ERROR"; status = 502; message = ai_unavailable }

-- ws.readyState
pub data ReadyState : Type 0 where
  connecting is_open closing closed : ReadyState

abbrev pub is_going : ReadyState → Bool
is_going closing = true
is_going closed = true
is_going _ = false

pub record Socket : Type 0 where
  pub aborted : Bool
  pub ready_state : ReadyState

unfoldable pub dropped_for_closed_socket : Socket → Bool
dropped_for_closed_socket socket = not (not socket.aborted && not (is_going socket.ready_state))

-- The frames of the `catch` in wsErrorHandler.
unfoldable pub ws_error : Option Thrown → List OutgoingMessage
unfolding client_error_for
ws_error none = []
ws_error (some (ai_error message code retryable)) =
    error (client_error_for code).code (client_error_for code).message none ∷ []
ws_error (some (other_error message)) =
    error (text "SERVER_ERROR") (text "Failed to process message") none ∷ []

unfoldable pub end_turn : (aborted : Bool) → List OutgoingMessage
end_turn true = []
end_turn false = stream_end ∷ []

unfoldable pub report_invalid : ValidationResult → List OutgoingMessage
report_invalid (valid message) = []
report_invalid (invalid reason) = error (text "INVALID_MESSAGE") reason none ∷ []

-- The session that a turn leaves, and the frames that it sends.
pub record Turned : Type 0 where
  pub session : ChatSession
  pub sent : List OutgoingMessage

-- The chunks of the run, what it threw, if it did, and, should a write find no entry at its index and so
-- throw a TypeError, the session and the frames that the writes up to there have left.
pub record Run : Type 0 where
  pub events : List Event
  pub threw : Option Thrown
  pub broken : Turned

abbrev pub handled : Option Thrown → Handling → Turned
unfolding ws_error
handled threw s = record { session = s.session; sent = s.sent ++ ws_error threw }

-- A TypeError is caught as any other throw is, and answered SERVER_ERROR.
unfoldable pub turned : Run → Option Handling → Turned
unfolding handled
turned run none = record run.broken {
  sent = run.broken.sent ++ ws_error (some (other_error (text "TypeError")));
}
turned run (some s) = handled run.threw s

module _ (w : EntryWriter) (now : Text) where
  -- answerUserMessage under wsErrorHandler.
  unfoldable pub answer_user_message : ChatSession → ValidationResult → Run → Turned
  unfolding turned report_invalid
  answer_user_message session (valid (user_message content)) run =
      turned run (handle_user_message w now content session run.events)
  answer_user_message session result run = record {
    session = session;
    sent = report_invalid result;
  }

  abbrev pub ended : Bool → Turned → Turned
  unfolding end_turn
  ended aborted t = record t { sent = t.sent ++ end_turn aborted }

  unfoldable pub answer_in_turn :
      ChatSession → ValidationResult → Socket → Run → (aborted : Bool) → Turned
  unfolding dropped_for_closed_socket answer_user_message ended
  answer_in_turn session result socket run aborted =
      if dropped_for_closed_socket socket
      then record { session = session; sent = [] }
      else ended aborted (answer_user_message session result run)

abbrev pub too_many_requests_message : Text
too_many_requests_message = text "Too many requests, please slow down"

unfoldable pub refuse_in_turn : ChatSession → (retry_after_ms : ℕ) → Socket → Turned
unfolding dropped_for_closed_socket end_turn
refuse_in_turn session retry_after_ms socket =
    if dropped_for_closed_socket socket then record { session = session; sent = [] } else record {
      session = session;
      sent =
          error (text "TOO_MANY_REQUESTS") too_many_requests_message (some retry_after_ms)
          ∷ end_turn socket.aborted;
    }

-- What a queued frame does when its turn comes.
pub data Job : Type 0 where
  answers : ValidationResult → Job
  refuses : (retry_after_ms : ℕ) → Job

-- The callback that the lock runs.
unfoldable pub run_job :
    EntryWriter → (now : Text) → ChatSession → Job → Socket → Run → (aborted : Bool) → Turned
unfolding answer_in_turn refuse_in_turn
run_job w now session (answers result) socket run aborted =
    answer_in_turn w now session result socket run aborted
run_job w now session (refuses retry_after_ms) socket run aborted =
    refuse_in_turn session retry_after_ms socket

-- A user message is queued under its session's id; every other frame is answered at once.
pub data Routed : Type 0 where
  queued : (key : Text) → Job → Routed
  at_once : ValidationResult → Routed

unfoldable pub refusal : Verdict → Option ℕ
refusal verdict = if verdict.allowed then none else some verdict.retry_after_ms

unfoldable pub job_for : Option ℕ → ValidationResult → Job
job_for none result = answers result
job_for (some retry_after_ms) result = refuses retry_after_ms

unfoldable pub answer_frame :
    (Option ℕ → Option ConversationCursor → List OutgoingMessage)
    → ValidationResult
    → (aborted : Bool) → List OutgoingMessage
unfolding report_invalid
answer_frame listed (valid (ping timestamp)) aborted = pong timestamp ∷ []
answer_frame listed (valid (list_conversations limit before)) aborted =
    if aborted then [] else listed limit before
answer_frame listed result aborted = report_invalid result

module _ (number_text : Number → Text) (validate : Json → ValidationResult) where
  abbrev pub limiter_key : UserId → Text
  limiter_key user_id = text "user:" ++ user_id_text number_text user_id

  unfoldable pub refused_by :
      Option (RateLimit × Limiter)
      → ChatSession
      → (at : ℕ) → Option ℕ × Option (RateLimit × Limiter)
  unfolding refusal
  refused_by none session at = (none, none)
  refused_by (some (budget, limiter)) session at =
      let (verdict, after) = consume budget limiter (limiter_key session.user_id) at in
      (refusal verdict, some (budget, after))

  -- handleMessage, up to what it queues or answers.
  unfoldable pub handle_message :
      Option (RateLimit × Limiter)
      → ChatSession
      → Json
      → (at : ℕ) → Routed × Option (RateLimit × Limiter)
  unfolding refused_by job_for
  handle_message limiter session raw at =
      let (refused, after) = refused_by limiter session at in
      if is_user_message_frame raw
      then (queued session.session_id (job_for refused (validate raw)), after)
      else (at_once (validate raw), limiter)
