-- ===== src/Frames/Roundtrip.antt =====
-- transport/ws/validation.ts: what a client that follows types/messages.ts sends is read as it was meant.
use halengine.Prelude.{
  ℕ, ◌≡◌, ◌↔◌, refl, ap, ap₂, ◌∙◌, Text, text, false, not, ◌&&◌, Option, none, some, ltb, leb,
  le→leb, ◌==◌, length, Number, whole, Json, undefined, number, str, object, Fields, empty, field,
  inl, inr, arith, both→and, List-cases, if-either, ltb→lt,
}
use halengine.Messages.{ConversationCursor, IncomingMessage, user_message, ping, list_conversations}
use halengine.Frames.{
  max_content_length, max_limit, valid, member, trim, is_page, limit_of, is_undefined, is_finite,
  matches_session_id, validate_content, validate_user_message, validate_timestamp,
  validate_ping_message, checked_cursor, as_cursor, list_frame, validate_window,
  validate_list_conversations, validate_type, validate_typed, validate_message,
}
use halengine.Frames.Accepted.{
  Blank, Blank-trim, WellFormed, IsPage, IsCursor, IsSessionId→matches, ne→is_finite,
  accepted_WellFormed,
}

-- The interfaces UserMessagePayload, PingMessage and ListConversationsMessage, as JSON: a member that is
-- undefined is left out.
encode_cursor : ConversationCursor → Json
encode_cursor c = object (
    field (text "updatedAt") (str c.updated_at) (field (text "sessionId") (str c.session_id) empty))

encode_before : Option ConversationCursor → Fields
unfolding encode_cursor
encode_before none = empty
encode_before (some c) = field (text "before") (encode_cursor c) empty

encode_limit : Option ℕ → Fields → Fields
encode_limit none rest = rest
encode_limit (some n) rest = field (text "limit") (number (whole n)) rest

unfoldable pub encode : IncomingMessage → Json
unfolding encode_before encode_limit
encode (user_message content) =
    object
      (field (text "type") (str (text "user_message")) (field (text "content") (str content) empty))
encode (ping timestamp) =
    object
      (field (text "type") (str (text "ping")) (field (text "timestamp") (number timestamp) empty))
encode (list_conversations limit before) = object (
    field (text "type") (str (text "list_conversations"))
      (encode_limit limit (encode_before before)))

not_empty : (s : Text) → (Blank s → ⊥) → (length (trim s) == 0) ≡ false
not_empty s h = elim (List-cases (trim s)) [
  | inl e ↦ absurd (h (Blank-trim s e))
  | inr (u, rest, e) ↦ rw e (ground arith)
]

-- What the members of an encoded list frame are.
limit_json : Option ℕ → Json
limit_json none = undefined
limit_json (some n) = number (whole n)

before_json : Option ConversationCursor → Json
unfolding encode_cursor
before_json none = undefined
before_json (some c) = encode_cursor c

limit-encode :
    (limit : Option ℕ) (before : Option ConversationCursor)
    → member
        (field
          (text "type")
          (str (text "list_conversations"))
          (encode_limit limit (encode_before before)))
        (text "limit")
      ≡ limit_json limit
unfolding member encode_limit encode_before limit_json
limit-encode none none = refl
limit-encode none (some c) = refl
limit-encode (some n) before = refl

before-encode :
    (limit : Option ℕ) (before : Option ConversationCursor)
    → member
        (field
          (text "type")
          (str (text "list_conversations"))
          (encode_limit limit (encode_before before)))
        (text "before")
      ≡ before_json before
unfolding member encode_limit encode_before before_json
before-encode none none = refl
before-encode none (some c) = refl
before-encode (some n) none = refl
before-encode (some n) (some c) = refl

usable-limit_json :
    (limit : Option ℕ)
    → IsPage limit
    → (not (is_undefined (limit_json limit)) && not (is_page (limit_json limit))) ≡ false
unfolding is_page limit_json
usable-limit_json none h = refl
usable-limit_json (some n) (lo, hi) =
    ap not (both→and (leb 1 n) (leb n max_limit) (le→leb 1 n lo) (le→leb n max_limit hi))

limit_of-limit_json : (limit : Option ℕ) → limit_of (limit_json limit) ≡ limit
unfolding limit_of limit_json
limit_of-limit_json none = refl
limit_of-limit_json (some n) = refl

module _ (date_parse : Text → Number) where
  checked-known :
      (c : ConversationCursor)
      → IsCursor date_parse (some c)
      → checked_cursor date_parse (str c.updated_at) (str c.session_id) ≡ some c
  unfolding checked_cursor
  checked-known c (time, id) =
      if-either (λ o. o ≡ some c) (not (is_finite (date_parse c.updated_at)))
        (λ e. absurd (cc (e, ap not (ne→is_finite (date_parse c.updated_at) time))))
        (λ _.
          if-either (λ o. o ≡ some c) (not (matches_session_id c.session_id))
            (λ e. absurd (cc (e, ap not (IsSessionId→matches c.session_id id)))) (λ _. refl))

  list_frame-known :
      (limit : Option ℕ) (before : Option ConversationCursor)
      → IsCursor date_parse before
      → list_frame date_parse
          (limit_json limit)
          (is_undefined (before_json before))
          (as_cursor date_parse (before_json before))
        ≡ valid (list_conversations limit before)
  unfolding list_frame before_json encode_cursor as_cursor member
  list_frame-known limit none c =
      ap (λ l. valid (list_conversations l none)) (limit_of-limit_json limit)
  list_frame-known limit (some b) c =
      ap (list_frame date_parse (limit_json limit) false) (checked-known b c)
      ∙ ap (λ l. valid (list_conversations l (some b))) (limit_of-limit_json limit)

  window-known :
      (limit : Option ℕ) (before : Option ConversationCursor)
      → IsPage limit
      → IsCursor date_parse before
      → validate_window date_parse (limit_json limit) (before_json before)
        ≡ valid (list_conversations limit before)
  unfolding validate_window
  window-known limit before p c =
      if-either (λ r. r ≡ valid (list_conversations limit before))
        (not (is_undefined (limit_json limit)) && not (is_page (limit_json limit)))
        (λ e. absurd (cc (e, usable-limit_json limit p))) (λ _. list_frame-known limit before c)

  encode-WellFormed :
      (message : IncomingMessage)
      → WellFormed date_parse message
      → validate_message date_parse (encode message) ≡ valid message
  unfolding validate_message validate_typed validate_type member validate_user_message
      validate_content encode validate_ping_message validate_timestamp validate_list_conversations
  encode-WellFormed (user_message content) (ink, short) =
      if-either (λ r. r ≡ valid (user_message content)) (length (trim content) == 0)
        (λ e. absurd (cc (e, not_empty content ink)))
        (λ _.
          if-either (λ r. r ≡ valid (user_message content))
            (ltb max_content_length (length content))
            (λ e. absurd (omega (arith, ltb→lt max_content_length (length content) e))) (λ _. refl))
  encode-WellFormed (ping timestamp) h = refl
  encode-WellFormed (list_conversations limit before) (p, c) =
      ap₂ (validate_window date_parse) (limit-encode limit before) (before-encode limit before)
      ∙ window-known limit before p c

  -- A message that is written as JSON in the form that types/messages.ts gives is read back as itself
  -- exactly if it is well formed.
  pub validate_message-encode :
      (message : IncomingMessage)
      → (validate_message date_parse (encode message) ≡ valid message)
        ↔ WellFormed date_parse message
  validate_message-encode message =
      (accepted_WellFormed date_parse (encode message) message, encode-WellFormed message)
