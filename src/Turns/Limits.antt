-- ===== src/Turns/Limits.antt =====
-- transport/ws/messageHandler.ts with transport/rateLimit.ts: how many model turns a user can start.
use halengine.Prelude.{
  ℕ, suc, Text, text_eq, Bool, true, false, Option, List, [], ◌∷◌, if◌then◌else◌, Number, Json,
}
use halengine.Session.{ChatSession}
use halengine.Frames.{ValidationResult, is_user_message_frame}
use halengine.RateLimit.{RateLimit, Limiter}
use halengine.Turns.{answers, refuses, Routed, queued, at_once, limiter_key, handle_message}

-- A frame of a session and the time it arrives at.
pub record Arrival : Type 0 where
  pub session : ChatSession
  pub raw : Json
  pub at : ℕ

-- Whether a frame starts a turn of the model.
abbrev pub starts_turn : Routed → Bool
starts_turn (queued key (answers result)) = true
starts_turn (queued key (refuses retry_after_ms)) = false
starts_turn (at_once result) = false

module _ (number_text : Number → Text) (validate : Json → ValidationResult) where
  -- The turns that the frames of one user start, on whatever sessions and sockets they arrive.
  unfoldable pub turns_of : Option (RateLimit × Limiter) → (key : Text) → List Arrival → ℕ
  turns_of limiter key [] = 0
  turns_of limiter key (a ∷ arrivals) =
      let (routed, after) = handle_message number_text validate limiter a.session a.raw a.at in
      let rest = turns_of after key arrivals in
      if text_eq (limiter_key number_text validate a.session.user_id) key
      then (if starts_turn routed then suc rest else rest)
      else rest

  -- The requests that the limiter is asked for.
  unfoldable pub requests : List Arrival → List (Text × ℕ)
  requests [] = []
  requests (a ∷ arrivals) =
      let rest = requests arrivals in
      if is_user_message_frame a.raw
      then (limiter_key number_text validate a.session.user_id, a.at) ∷ rest
      else rest
