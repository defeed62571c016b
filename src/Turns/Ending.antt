-- ===== src/Turns/Ending.antt =====
-- transport/ws/messageHandler.ts: how the answer to a user message ends.
use halengine.Prelude.{
  ◌≡◌, ◌⊎◌, refl, ap, Text, text, text_eq, Bool, true, false, ◌&&◌, ◌||◌, Option, none, some, List,
  [], ◌∷◌, ◌++◌, All, String, if-either, inl, inr, arith,
}
use halengine.Session.{ChatSession}
use halengine.Entries.{EntryWriter}
use halengine.Messages.{user_message, ping, list_conversations, OutgoingMessage, error, stream_end}
use halengine.Ai.{Thrown, ai_error, other_error}
use halengine.Frames.{ValidationResult, valid, invalid}
use halengine.Handler.Tracking.{Post}
use halengine.Handler.{Handling, handle_user_message}
use halengine.Handler.Sent.{ToolsSend, HoldsOfEntries, handle_user_message-Sends}
use halengine.Turns.{
  ClientError, client_error_for, Socket, dropped_for_closed_socket, ws_error, end_turn,
  report_invalid, Turned, Run, turned, answer_user_message, answer_in_turn,
  too_many_requests_message, refuse_in_turn, Job, answers, refuses, run_job,
}

-- A frame that neither ends a turn nor reports an error.
abbrev pub IsQuiet : OutgoingMessage → Type 0
IsQuiet stream_end = ⊥
IsQuiet (error code message retry) = ⊥
IsQuiet _ = Unit

entries-IsQuiet : HoldsOfEntries IsQuiet
entries-IsQuiet = record {
  upserts = λ index entry. tt;
  deltas = λ index delta. tt;
  commits = λ index. tt;
  skips = λ index. tt;
}

abbrev is_pair : String → String → Text → Text → Bool
is_pair c m code message = text_eq code (text c) && text_eq message (text m)

-- The sentences that a client is told of an error, each with its code.
pub is_fixed_sentence : Text → Text → Bool
is_fixed_sentence code message =
    is_pair "RATE_LIMITED" "AI service is busy, please try again" code message
    || (is_pair "SERVICE_UNAVAILABLE" "AI service temporarily unavailable" code message
        || (is_pair "TIMEOUT" "AI service timed out" code message
            || (is_pair "UPSTREAM_ERROR" "AI service temporarily unavailable" code message
                || (is_pair "SERVER_ERROR" "Failed to process message" code message
                    || is_pair "TOO_MANY_REQUESTS" "Too many requests, please slow down" code
                        message))))

-- At most one error: a fixed sentence, or what the validator has against the frame itself.
abbrev pub OneError : List OutgoingMessage → Type 0
OneError [] = Unit
OneError (error code message retry ∷ []) =
    (is_fixed_sentence code message ≡ true) ⊎ (code ≡ text "INVALID_MESSAGE")
OneError _ = ⊥

client_error-fixed :
    (code : Text)
    → is_fixed_sentence (client_error_for code).code (client_error_for code).message ≡ true
unfolding client_error_for is_fixed_sentence
client_error-fixed code =
    if-either (λ (e : ClientError). is_fixed_sentence e.code e.message ≡ true)
      (text_eq code (text "RATE_LIMITED")) (λ _. refl)
      (λ _.
        if-either (λ (e : ClientError). is_fixed_sentence e.code e.message ≡ true)
          (text_eq code (text "SERVICE_UNAVAILABLE")) (λ _. refl)
          (λ _.
            if-either (λ (e : ClientError). is_fixed_sentence e.code e.message ≡ true)
              (text_eq code (text "TIMEOUT")) (λ _. refl) (λ _. refl)))

ws_error-OneError : (threw : Option Thrown) → OneError (ws_error threw)
unfolding ws_error
ws_error-OneError none = tt
ws_error-OneError (some (ai_error message code retryable)) = inl (client_error-fixed code)
ws_error-OneError (some (other_error message)) = inl (unfold is_fixed_sentence in refl)

report_invalid-OneError : (result : ValidationResult) → OneError (report_invalid result)
unfolding report_invalid
report_invalid-OneError (valid message) = tt
report_invalid-OneError (invalid reason) = inr refl

-- The frames of a turn: quiet ones, at most one error, and then its end.
abbrev pub EndsOnce : Bool → List OutgoingMessage → Type 0
EndsOnce aborted frames =
    (body : List OutgoingMessage) × (failed : List OutgoingMessage) × (frames
      ≡ (body ++ failed) ++ end_turn aborted)
    × All IsQuiet body
    × OneError failed

here→open : (socket : Socket) → dropped_for_closed_socket socket ≡ false → socket.aborted ≡ false
unfolding dropped_for_closed_socket
here→open socket h = ground (arith, h)

-- A refusal goes out whole as its turn comes.
abbrev pub gone_by : Job → Bool → Bool
gone_by (answers result) aborted = aborted
gone_by (refuses retry_after_ms) aborted = false

module _ (w : EntryWriter) (now : Text) (session : ChatSession) (run : Run) where
  -- The frames of an answer before its end.
  abbrev Answers : List OutgoingMessage → Type 0
  Answers frames =
      (body : List OutgoingMessage) × (failed : List OutgoingMessage) × (frames ≡ body ++ failed)
      × All IsQuiet body
      × OneError failed

  turned-Answers :
      (o : Option Handling)
      → Post (λ s. All IsQuiet s.sent) o
      → All IsQuiet run.broken.sent
      → Answers (turned run o).sent
  unfolding turned
  turned-Answers none h b = (
    run.broken.sent,
    ws_error (some (other_error (text "TypeError"))),
    refl,
    b,
    ws_error-OneError (some (other_error (text "TypeError"))),
  )
  turned-Answers (some s) h b = (s.sent, ws_error run.threw, refl, h, ws_error-OneError run.threw)

  answered-Answers :
      (result : ValidationResult)
      → ToolsSend IsQuiet run.events
      → All IsQuiet run.broken.sent
      → Answers (answer_user_message w now session result run).sent
  unfolding answer_user_message
  answered-Answers (valid (user_message content)) quiet broken =
      turned-Answers (handle_user_message w now content session run.events)
        (handle_user_message-Sends IsQuiet entries-IsQuiet w now content session run.events quiet)
        broken
  answered-Answers (invalid reason) quiet broken =
      ([], report_invalid (invalid reason), refl, tt, report_invalid-OneError (invalid reason))
  answered-Answers (valid (ping n)) quiet broken = ([], [], unfold report_invalid in refl, tt, tt)
  answered-Answers (valid (list_conversations limit before)) quiet broken =
      ([], [], unfold report_invalid in refl, tt, tt)

  -- A user message whose turn comes while its socket is open is answered, whether the validator passes
  -- it, the rate limiter refuses it, its run throws or a write of an entry throws, if neither the tools'
  -- own frames nor those sent before such a write end a turn or report an error: entry and tool frames,
  -- at most one error, a fixed sentence or INVALID_MESSAGE, and one stream_end, last. If the socket
  -- has closed by the end of the turn, there is no stream_end.
  pub run_job-EndsOnce :
      (job : Job) (socket : Socket) (aborted : Bool)
      → ToolsSend IsQuiet run.events
      → All IsQuiet run.broken.sent
      → dropped_for_closed_socket socket ≡ false
      → EndsOnce (gone_by job aborted) (run_job w now session job socket run aborted).sent
  unfolding run_job answer_in_turn refuse_in_turn
  run_job-EndsOnce (answers result) socket aborted quiet broken is_here =
      if-either (λ (t : Turned). EndsOnce aborted t.sent) (dropped_for_closed_socket socket)
        (λ e. absurd (cc (e, is_here)))
        (λ _.
          let (body, failed, q, b, f) = answered-Answers result quiet broken in
          (body, failed, ap (λ z. z ++ end_turn aborted) q, b, f))
  run_job-EndsOnce (refuses retry_after_ms) socket aborted quiet broken is_here =
      if-either (λ (t : Turned). EndsOnce false t.sent) (dropped_for_closed_socket socket)
        (λ e. absurd (cc (e, is_here)))
        (λ _. (
          [],
          error (text "TOO_MANY_REQUESTS") too_many_requests_message (some retry_after_ms) ∷ [],
          ap
              (λ b.
                error (text "TOO_MANY_REQUESTS") too_many_requests_message (some retry_after_ms)
                ∷ end_turn b)
              (here→open socket is_here),
          tt,
          inl (unfold is_fixed_sentence in refl),
        ))
