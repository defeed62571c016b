-- ===== src/Frames.antt =====
-- transport/ws/validation.ts and the session id pattern of transport/ws/helpers.ts: what a frame from a
-- client must be. An object's keys are distinct, as `JSON.parse` leaves them. `Date.parse` is a
-- parameter: of a text in a form that the standard does not name, what it answers is the engine's own.
pub mod Accepted
pub mod Roundtrip
pub mod Examples
use halengine.Prelude.{
  ℕ, Text, text, text_eq, Bool, true, false, not, ◌&&◌, ◌||◌, Option, none, some, List, [], ◌∷◌,
  ◌++◌, if◌then◌else◌, ltb, leb, ◌==◌, length, decimal, Number, whole, minus, between, below,
  not_finite, Json, undefined, null, boolean, number, str, array, object, Elements, Fields, empty,
  field,
}
use halengine.Messages.{ConversationCursor, IncomingMessage, user_message, ping, list_conversations}

abbrev pub max_content_length : ℕ
max_content_length = 10000

-- sessionListWindow.ts
abbrev pub max_limit : ℕ
max_limit = 200

pub data ValidationResult : Type 0 where
  valid : IncomingMessage → ValidationResult
  invalid : (error : Text) → ValidationResult

-- message[key]
unfoldable pub member : Fields → Text → Json
member empty key = undefined
member (field k v fields) key = let rest = member fields key in if text_eq k key then v else rest

abbrev in_range : ℕ → ℕ → ℕ → Bool
in_range lo hi u = leb lo u && leb u hi

-- The code units that `trim` takes off.
unfoldable pub is_white : ℕ → Bool
is_white u =
    in_range 9 13 u
    || (u == 32
        || (u == 0xA0
            || (u == 0x1680
                || (in_range 0x2000 0x200A u
                    || (in_range 0x2028 0x2029 u
                        || (u == 0x202F || (u == 0x205F || (u == 0x3000 || u == 0xFEFF))))))))

unfoldable pub trim_start : Text → Text
trim_start [] = []
trim_start (u ∷ s) = let rest = trim_start s in if is_white u then rest else u ∷ s

-- The unit stands if anything after it does.
unfoldable pub kept_before : ℕ → Text → Text
kept_before u [] = if is_white u then [] else u ∷ []
kept_before u (v ∷ s) = u ∷ v ∷ s

unfoldable pub trim_end : Text → Text
unfolding kept_before
trim_end [] = []
trim_end (u ∷ s) = kept_before u (trim_end s)

unfoldable pub trim : Text → Text
unfolding trim_start trim_end
trim s = trim_end (trim_start s)

-- [A-Za-z0-9_-]
unfoldable pub is_id_unit : ℕ → Bool
is_id_unit u = in_range 65 90 u || (in_range 97 122 u || (in_range 48 57 u || (u == 95 || u == 45)))

unfoldable pub all_id_units : Text → Bool
unfolding is_id_unit
all_id_units [] = true
all_id_units (u ∷ s) = is_id_unit u && all_id_units s

-- SESSION_ID_PATTERN.test(id)
unfoldable pub matches_session_id : Text → Bool
unfolding all_id_units
matches_session_id id = leb 1 (length id) && (leb (length id) 128 && all_id_units id)

unfoldable pub is_page : Json → Bool
is_page (number (whole n)) = leb 1 n && leb n max_limit
is_page _ = false

-- `limit as number | undefined`
unfoldable pub limit_of : Json → Option ℕ
limit_of (number (whole n)) = some n
limit_of _ = none

abbrev pub is_undefined : Json → Bool
is_undefined undefined = true
is_undefined _ = false

-- Number.isFinite(n)
abbrev pub is_finite : Number → Bool
is_finite not_finite = false
is_finite _ = true

unfoldable pub validate_content : Json → ValidationResult
unfolding trim
validate_content (str content) =
    if length (trim content) == 0
    then invalid (text "Message content cannot be empty")
    else if ltb max_content_length (length content)
    then invalid
        (text "Message content too long (max " ++ decimal max_content_length ++ text " chars)")
    else valid (user_message content)
validate_content _ = invalid (text "user_message must have content string")

unfoldable pub validate_user_message : Fields → ValidationResult
unfolding validate_content
validate_user_message message = validate_content (member message (text "content"))

unfoldable pub validate_timestamp : Json → ValidationResult
validate_timestamp (number timestamp) = valid (ping timestamp)
validate_timestamp _ = invalid (text "ping must have timestamp number")

unfoldable pub validate_ping_message : Fields → ValidationResult
unfolding validate_timestamp
validate_ping_message message = validate_timestamp (member message (text "timestamp"))

module _ (date_parse : Text → Number) where
  unfoldable pub checked_cursor : Json → Json → Option ConversationCursor
  unfolding matches_session_id
  checked_cursor (str updated_at) (str session_id) =
      if not (is_finite (date_parse updated_at))
      then none
      else if not (matches_session_id session_id)
      then none
      else some (record { updated_at = updated_at; session_id = session_id })
  checked_cursor _ _ = none

  -- An array is an object too, without these keys.
  unfoldable pub as_cursor : Json → Option ConversationCursor
  unfolding member checked_cursor
  as_cursor (object before) =
      checked_cursor (member before (text "updatedAt")) (member before (text "sessionId"))
  as_cursor (array items) = checked_cursor undefined undefined
  as_cursor _ = none

  unfoldable pub list_frame : Json → Bool → Option ConversationCursor → ValidationResult
  unfolding limit_of
  list_frame limit true cursor = valid (list_conversations (limit_of limit) none)
  list_frame limit false none =
      invalid (text "list_conversations before must carry an ISO updatedAt and a sessionId")
  list_frame limit false (some cursor) = valid (list_conversations (limit_of limit) (some cursor))

  unfoldable pub validate_window : Json → Json → ValidationResult
  unfolding is_page list_frame as_cursor
  validate_window limit before =
      if not (is_undefined limit) && not (is_page limit)
      then invalid
          (text "list_conversations limit must be a whole number from 1 to " ++ decimal max_limit)
      else list_frame limit (is_undefined before) (as_cursor before)

  unfoldable pub validate_list_conversations : Fields → ValidationResult
  unfolding validate_window
  validate_list_conversations message =
      validate_window (member message (text "limit")) (member message (text "before"))

  -- VALIDATORS
  unfoldable pub validate_type : Text → Fields → ValidationResult
  unfolding validate_user_message validate_ping_message validate_list_conversations
  validate_type type message =
      if text_eq type (text "user_message")
      then validate_user_message message
      else if text_eq type (text "ping")
      then validate_ping_message message
      else if text_eq type (text "list_conversations")
      then validate_list_conversations message
      else invalid (text "Unknown message type: " ++ type)

  unfoldable pub validate_typed : Json → Fields → ValidationResult
  unfolding validate_type
  validate_typed (str type) message = validate_type type message
  validate_typed _ message = invalid (text "Message must have a type field")

  unfoldable pub validate_message : Json → ValidationResult
  unfolding validate_typed member
  validate_message (object message) = validate_typed (member message (text "type")) message
  validate_message (array items) = validate_typed undefined empty
  validate_message _ = invalid (text "Message must be an object")

-- isUserMessageFrame(rawMessage)
abbrev is_text : Json → Text → Bool
is_text (str s) t = text_eq s t
is_text _ t = false

unfoldable pub is_user_message_frame : Json → Bool
unfolding member
is_user_message_frame (object message) =
    is_text (member message (text "type")) (text "user_message")
is_user_message_frame _ = false
