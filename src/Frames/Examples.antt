-- ===== src/Frames/Examples.antt =====
-- Tests of transport/ws/validation.ts and the witnesses of its theorems.
use halengine.Prelude.{
  ◌≡◌, ◌↔◌, refl, Text, text, true, some, [], ◌∷◌, Number, whole, not_finite, Json, null, number,
  str, array, object, end, empty, field,
}
use halengine.Messages.{ConversationCursor, list_conversations}
use halengine.Frames.{
  valid, invalid, member, is_white, trim_start, kept_before, trim_end, trim, is_id_unit,
  all_id_units, matches_session_id, is_page, limit_of, validate_content, validate_user_message,
  checked_cursor, as_cursor, list_frame, validate_window, validate_list_conversations,
  validate_type, validate_typed, validate_message, is_user_message_frame,
}
use halengine.Frames.Accepted.{WellFormed, accepted_WellFormed}
use halengine.Frames.Roundtrip.{encode, validate_message-encode}

-- A clock to which any text but the empty one is a time.
abbrev reads_any : Text → Number
reads_any [] = not_finite
reads_any (u ∷ s) = whole 7

abbrev seen : ConversationCursor
seen = record { updated_at = text "2026-01-01T00:00:00.000Z"; session_id = text "a-1_Z" }

abbrev page_frame : Json
page_frame = object (
    field (text "type") (str (text "list_conversations")) (
      field (text "limit") (number (whole 200)) (
        field (text "before")
          (object (
            field (text "updatedAt") (str seen.updated_at)
              (field (text "sessionId") (str seen.session_id) empty)))
          empty)))

page_frame_lem :
    validate_message reads_any page_frame ≡ valid (list_conversations (some 200) (some seen))
unfolding validate_message validate_typed validate_type validate_list_conversations validate_window
    list_frame as_cursor checked_cursor matches_session_id all_id_units is_id_unit is_page limit_of
    member
page_frame_lem = refl

abbrev frame_of : Json → Json
frame_of content =
    object (field (text "type") (str (text "user_message")) (field (text "content") content empty))

refusals :
    (validate_message reads_any null ≡ invalid (text "Message must be an object"))
    × (validate_message reads_any (array end) ≡ invalid (text "Message must have a type field"))
    × (validate_message reads_any (object (field (text "type") (str (text "constructor")) empty))
        ≡ invalid (text "Unknown message type: constructor"))
    × (validate_message reads_any (frame_of null)
        ≡ invalid (text "user_message must have content string"))
    × (validate_message reads_any (frame_of (str (text "  ")))
        ≡ invalid (text "Message content cannot be empty"))
unfolding validate_message validate_typed validate_type validate_user_message validate_content trim
    trim_start trim_end is_white member
refusals = (refl, refl, refl, refl, refl)

trim_lem : trim (text " a b ") ≡ text "a b"
unfolding trim trim_start trim_end kept_before is_white
trim_lem = refl

is_user_message_frame_lem : is_user_message_frame (frame_of null) ≡ true
unfolding is_user_message_frame member
is_user_message_frame_lem = refl

accepted_WellFormed_example : WellFormed reads_any (list_conversations (some 200) (some seen))
accepted_WellFormed_example =
    accepted_WellFormed reads_any page_frame (list_conversations (some 200) (some seen))
      page_frame_lem

validate_message-encode_example :
    (validate_message reads_any (encode (list_conversations (some 3) (some seen)))
      ≡ valid (list_conversations (some 3) (some seen)))
    ↔ WellFormed reads_any (list_conversations (some 3) (some seen))
validate_message-encode_example =
    validate_message-encode reads_any (list_conversations (some 3) (some seen))
