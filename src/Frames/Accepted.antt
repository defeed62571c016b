-- ===== src/Frames/Accepted.antt =====
-- transport/ws/validation.ts: what the validator lets through.
use halengine.Prelude.{
  ℕ, ◌≤◌, ◌≡◌, ◌≢◌, refl, sym, ap, subst, ◌∙◌, Text, text, text_eq, Bool, true, false, not, ◌&&◌,
  Option, none, some, [], ◌∷◌, ltb, leb, leb→le, le→leb, ◌==◌, length, All, Number, whole, minus,
  between, below, not_finite, Json, undefined, number, str, array, object, Fields, if-either,
  and→both, both→and, arith,
}
use halengine.Messages.{ConversationCursor, IncomingMessage, user_message, ping, list_conversations}
use halengine.Frames.{
  max_content_length, ValidationResult, valid, invalid, member, is_white, trim_start, kept_before,
  trim_end, trim, is_id_unit, all_id_units, matches_session_id, is_page, limit_of, is_undefined,
  is_finite, validate_content, validate_user_message, validate_timestamp, validate_ping_message,
  checked_cursor, as_cursor, list_frame, validate_window, validate_list_conversations,
  validate_type, validate_typed, validate_message,
}

-- White space and nothing else.
abbrev pub Blank : Text → Type 0
Blank s = All (λ u. is_white u ≡ true) s

abbrev pub IsSessionId : Text → Type 0
IsSessionId id = (1 ≤ length id) × (length id ≤ 128) × All (λ u. is_id_unit u ≡ true) id

abbrev pub IsPage : Option ℕ → Type 0
IsPage none = Unit
IsPage (some n) = (1 ≤ n) × (n ≤ 200)

module _ (date_parse : Text → Number) where
  abbrev pub IsCursor : Option ConversationCursor → Type 0
  IsCursor none = Unit
  IsCursor (some c) = (date_parse c.updated_at ≢ not_finite) × IsSessionId c.session_id

  -- What the protocol lets a client say.
  abbrev pub WellFormed : IncomingMessage → Type 0
  WellFormed (user_message content) = (Blank content → ⊥) × (length content ≤ 10000)
  WellFormed (ping timestamp) = Unit
  WellFormed (list_conversations limit before) = IsPage limit × IsCursor before

  abbrev pub Accepts : ValidationResult → Type 0
  Accepts (valid message) = WellFormed message
  Accepts (invalid error) = Unit

trim_start-Blank : (s : Text) → Blank s → trim_start s ≡ []
unfolding trim_start
trim_start-Blank [] h = refl
trim_start-Blank (u ∷ s) (h, hs) = rw (h) (trim_start-Blank s hs)

pub trim-Blank : (s : Text) → Blank s → trim s ≡ []
unfolding trim
trim-Blank s h = rw (trim_start-Blank s h) (unfold trim_end in refl)

Blank-trim_start : (s : Text) → Blank (trim_start s) → Blank s
unfolding trim_start
Blank-trim_start [] h = h
Blank-trim_start (u ∷ s) h =
    if-either (λ t. Blank t → Blank (u ∷ s)) (is_white u) (λ e k. (e, Blank-trim_start s k))
      (λ e k. k) h

Blank-kept_before : (u : ℕ) (t : Text) → kept_before u t ≡ [] → (is_white u ≡ true) × (t ≡ [])
unfolding kept_before
Blank-kept_before u [] h = (ground (arith, h), refl)
Blank-kept_before u (v ∷ s) h = absurd (cc h)

Blank-trim_end : (s : Text) → trim_end s ≡ [] → Blank s
unfolding trim_end
Blank-trim_end [] h = tt
Blank-trim_end (u ∷ s) h =
    let (e, rest) = Blank-kept_before u (trim_end s) h in (e, Blank-trim_end s rest)

pub Blank-trim : (s : Text) → trim s ≡ [] → Blank s
unfolding trim
Blank-trim s h = Blank-trim_start s (Blank-trim_end (trim_start s) h)

id_units→All : (s : Text) → all_id_units s ≡ true → All (λ u. is_id_unit u ≡ true) s
unfolding all_id_units
id_units→All [] h = tt
id_units→All (u ∷ s) h =
    let (e, rest) = and→both (is_id_unit u) (all_id_units s) h in (e, id_units→All s rest)

All→id_units : (s : Text) → All (λ u. is_id_unit u ≡ true) s → all_id_units s ≡ true
unfolding all_id_units
All→id_units [] h = refl
All→id_units (u ∷ s) (h, hs) = both→and (is_id_unit u) (all_id_units s) h (All→id_units s hs)

-- A session id pattern that matches.
pub matches→IsSessionId : (id : Text) → matches_session_id id ≡ true → IsSessionId id
unfolding matches_session_id
matches→IsSessionId id h =
    let (lo, rest) = and→both (leb 1 (length id)) _ h in
    let (hi, units) = and→both (leb (length id) 128) _ rest in
    (leb→le _ _ lo, leb→le _ _ hi, id_units→All id units)

pub IsSessionId→matches : (id : Text) → IsSessionId id → matches_session_id id ≡ true
unfolding matches_session_id
IsSessionId→matches id (lo, hi, units) =
    both→and (leb 1 (length id)) _ (le→leb _ _ lo)
      (both→and (leb (length id) 128) _ (le→leb _ _ hi) (All→id_units id units))

is_finite→ne : (n : Number) → is_finite n ≡ true → n ≢ not_finite
is_finite→ne n h = λ e. cc (sym h ∙ ap is_finite e)

pub ne→is_finite : (n : Number) → n ≢ not_finite → is_finite n ≡ true
ne→is_finite (whole n) h = refl
ne→is_finite (minus n) h = refl
ne→is_finite (between n) h = refl
ne→is_finite (below n) h = refl
ne→is_finite not_finite h = absurd (h refl)

pub not→true : (b : Bool) → not b ≡ false → b ≡ true
not→true true h = refl
not→true false h = cc h

-- A limit that passes is the whole number that it reads as.
IsPage-limit_of : (j : Json) → is_page j ≡ true → IsPage (limit_of j)
unfolding is_page limit_of
IsPage-limit_of (number (whole n)) h = ground (arith, h)
IsPage-limit_of _ h = absurd (cc h)

module _ (date_parse : Text → Number) where
  checked-IsCursor : (u s : Json) → IsCursor date_parse (checked_cursor date_parse u s)
  unfolding checked_cursor
  checked-IsCursor (str u) (str s) =
      if-either (IsCursor date_parse) (not (is_finite (date_parse u))) (λ _. tt)
        (λ f.
          if-either (IsCursor date_parse) (not (matches_session_id s)) (λ _. tt)
            (λ m.
              (is_finite→ne (date_parse u) (not→true _ f), matches→IsSessionId s (not→true _ m))))
  checked-IsCursor _ _ = tt

  as_cursor-IsCursor : (j : Json) → IsCursor date_parse (as_cursor date_parse j)
  unfolding as_cursor
  as_cursor-IsCursor (object before) = checked-IsCursor _ _
  as_cursor-IsCursor (array items) = checked-IsCursor undefined undefined
  as_cursor-IsCursor _ = tt

  validate_content-Accepts : (j : Json) → Accepts date_parse (validate_content j)
  unfolding validate_content
  validate_content-Accepts (str content) =
      if-either (Accepts date_parse) (length (trim content) == 0) (λ _. tt)
        (λ e.
          if-either (Accepts date_parse) (ltb max_content_length (length content)) (λ _. tt)
            (λ l. (
              λ b. absurd (cc (e, ap (λ t. length t == 0) (trim-Blank content b))),
              ground (arith, l),
            )))
  validate_content-Accepts _ = tt

  list_frame-Accepts :
      (limit : Json) (absent : Bool) (o : Option ConversationCursor)
      → IsPage (limit_of limit)
      → IsCursor date_parse o
      → Accepts date_parse (list_frame date_parse limit absent o)
  unfolding list_frame
  list_frame-Accepts limit true o p c = (p, tt)
  list_frame-Accepts limit false none p c = tt
  list_frame-Accepts limit false (some cursor) p c = (p, c)

  usable_limit :
      (limit : Json)
      → (not (is_undefined limit) && not (is_page limit)) ≡ false
      → IsPage (limit_of limit)
  unfolding limit_of
  usable_limit undefined h = tt
  usable_limit (number n) h = IsPage-limit_of (number n) (not→true _ h)
  usable_limit _ h = tt

  validate_window-Accepts :
      (limit before : Json) → Accepts date_parse (validate_window date_parse limit before)
  unfolding validate_window
  validate_window-Accepts limit before =
      if-either (Accepts date_parse) (not (is_undefined limit) && not (is_page limit)) (λ _. tt)
        (λ e.
          list_frame-Accepts limit (is_undefined before) (as_cursor date_parse before)
            (usable_limit limit e) (as_cursor-IsCursor before))

  ping-Accepts : (j : Json) → Accepts date_parse (validate_timestamp j)
  unfolding validate_timestamp
  ping-Accepts (number timestamp) = tt
  ping-Accepts _ = tt

  validate_typed-Accepts :
      (type : Json) (message : Fields) → Accepts date_parse (validate_typed date_parse type message)
  unfolding validate_typed validate_type validate_user_message validate_ping_message
      validate_list_conversations
  validate_typed-Accepts (str type) message =
      if-either (Accepts date_parse) (text_eq type (text "user_message"))
        (λ _. validate_content-Accepts (member message (text "content")))
        (λ _.
          if-either (Accepts date_parse) (text_eq type (text "ping"))
            (λ _. ping-Accepts (member message (text "timestamp")))
            (λ _.
              if-either (Accepts date_parse) (text_eq type (text "list_conversations"))
                (λ _.
                  validate_window-Accepts (member message (text "limit"))
                    (member message (text "before")))
                (λ _. tt)))
  validate_typed-Accepts _ message = tt

  validate_message-Accepts : (j : Json) → Accepts date_parse (validate_message date_parse j)
  unfolding validate_message
  validate_message-Accepts (object message) =
      validate_typed-Accepts (member message (text "type")) message
  validate_message-Accepts (array items) = tt
  validate_message-Accepts _ = tt

  -- Whatever a client sends, a frame that is accepted is well formed: the content of a user message has
  -- a unit that is not white space and at most 10000 units, the limit of a list is from 1 to 200, and
  -- its cursor has a time that parses and a session id of 1 to 128 letters, digits, dashes and
  -- underscores.
  pub accepted_WellFormed :
      (payload : Json) (message : IncomingMessage)
      → validate_message date_parse payload ≡ valid message
      → WellFormed date_parse message
  accepted_WellFormed payload message h =
      subst (Accepts date_parse) h (validate_message-Accepts payload)
