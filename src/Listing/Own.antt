-- ===== src/Listing/Own.antt =====
-- transport/ws/conversationList.ts over infrastructure/stores/inMemorySessionStore.ts: what a client's
-- list shows.
use halengine.Prelude.{
  ℕ, ◌≤◌, ◌≡◌, refl, Text, Bool, true, false, Option, none, some, List, [], ◌∷◌, All, length,
  if-either, Number, Json,
}
use mathlib.Core.Option
use halengine.Session.{UserId, ChatSession}
use halengine.Messages.{
  ConversationCursor, ConversationSummary, OutgoingMessage, conversation_list, error,
}
use halengine.Preview.{label_from, points}
use halengine.Preview.Label.{label_from_fixed}
use halengine.Stores.{SessionSummary, SessionListOptions, HeldSession}
use halengine.Stores.Memory.{Sessions, Clock, list_for}
use halengine.Stores.Order.{All-imp}
use halengine.Stores.Owned.{IsOwnHeld, ShowsOwn, list_for-IsOwn}
use halengine.Listing.{
  ConversationHistoryOptions, Listed, summaries, list_failed, ListFor, is_enabled, shows_preview,
  json_of, iso_of, wire_row, on_the_wire, with_preview, joined_row, mapped_rows, sent_list,
  sent_summaries, list_options, answer_with, answer_one,
}

-- The in-memory store as the one that a deployer gives.
abbrev pub listed_of : Option (List SessionSummary) → Listed
listed_of none = list_failed
listed_of (some rows) = summaries rows

abbrev pub in_memory : (Text → Number) → ℕ → Clock → Sessions → ListFor
in_memory date_parse max_age_ms now sessions user_id options =
    listed_of (list_for date_parse max_age_ms now user_id options sessions)

-- The answer is one frame: an error, or a list whose rows `P` holds of.
abbrev pub OneAnswer : (ConversationSummary → Type 0) → List OutgoingMessage → Type 0
OneAnswer P (conversation_list rows ∷ []) = All P rows
OneAnswer P (error code message retry ∷ []) = Unit
OneAnswer P _ = ⊥

OneAnswer-imp :
    (P Q : ConversationSummary → Type 0) (frames : List OutgoingMessage)
    → ((row : ConversationSummary) → P row → Q row)
    → OneAnswer P frames
    → OneAnswer Q frames
OneAnswer-imp P Q (conversation_list rows ∷ []) f h = All-imp P Q rows f h
OneAnswer-imp P Q (error code message retry ∷ []) f h = tt
OneAnswer-imp P Q _ f h = elim h [ ]

-- No preview at all, or a label of at most 120 code points where the deployer shows them.
abbrev pub PreviewFits : Bool → Option Text → Type 0
PreviewFits shown none = Unit
PreviewFits shown (some label) = (shown ≡ true) × (length (points label) ≤ 120)

label_from-Fits : (value : Json) (o : Option Text) → label_from value ≡ o → PreviewFits true o
label_from-Fits value none e = tt
label_from-Fits value (some label) e = (refl, (label_from_fixed value label e).2)

module _ (to_iso : ℕ → Option Text) (Q : Text → Type 0) where
  abbrev RowFits : Bool → ConversationSummary → Type 0
  RowFits shown row = Q row.session_id × PreviewFits shown row.preview

  abbrev RowsFit : Bool → Option ConversationSummary → Type 0
  RowsFit shown none = Unit
  RowsFit shown (some row) = RowFits shown row

  on_the_wire-Fits :
      (shown : Bool) (s : SessionSummary) → Q s.session_id → RowsFit shown (on_the_wire to_iso s)
  unfolding on_the_wire
  on_the_wire-Fits shown s q = by_times (iso_of to_iso s.created_at) (to_iso s.updated_at)
    where
      by_times : (created updated : Option Text) → RowsFit shown (wire_row to_iso s created updated)
      by_times (some c) (some u) = unfold wire_row in (q, tt)
      by_times (some c) none = unfold wire_row in tt
      by_times none u = unfold wire_row in tt

  with_preview-Fits : (s : SessionSummary) → Q s.session_id → RowsFit true (with_preview to_iso s)
  unfolding with_preview
  with_preview-Fits s q = labelled (on_the_wire to_iso s) (on_the_wire-Fits true s q)
    where
      labelled :
          (o : Option ConversationSummary)
          → RowsFit true o
          → RowsFit true (
              Option.map
                (λ (row : ConversationSummary). record row {
                  preview = label_from (json_of s.preview);
                })
                o)
      labelled none h = tt
      labelled (some row) h =
          (h.0, label_from-Fits (json_of s.preview) (label_from (json_of s.preview)) refl)

  abbrev AllFit : Bool → Option (List ConversationSummary) → Type 0
  AllFit shown none = Unit
  AllFit shown (some rows) = All (RowFits shown) rows

  joined_row-Fit :
      (shown : Bool) (o : Option ConversationSummary) (rest : Option (List ConversationSummary))
      → RowsFit shown o
      → AllFit shown rest
      → AllFit shown (joined_row o rest)
  unfolding joined_row
  joined_row-Fit shown none rest h k = tt
  joined_row-Fit shown (some row) none h k = tt
  joined_row-Fit shown (some row) (some rows) h k = (h, k)

  mapped_rows-Fit :
      (shown : Bool) (f : SessionSummary → Option ConversationSummary)
      → ((s : SessionSummary) → Q s.session_id → RowsFit shown (f s))
      → (rows : List SessionSummary) → All (λ s. Q s.session_id) rows
      → AllFit shown (mapped_rows f rows)
  unfolding mapped_rows
  mapped_rows-Fit shown f h [] q = tt
  mapped_rows-Fit shown f h (s ∷ rows) q =
      joined_row-Fit shown (f s) (mapped_rows f rows) (h s q.0) (mapped_rows-Fit shown f h rows q.1)

  sent_list-OneAnswer :
      (shown : Bool) (o : Option (List ConversationSummary))
      → AllFit shown o
      → OneAnswer (RowFits shown) (sent_list o)
  unfolding sent_list
  sent_list-OneAnswer shown none h = tt
  sent_list-OneAnswer shown (some rows) h = h

  sent_summaries-OneAnswer :
      (shown : Bool) (rows : List SessionSummary)
      → All (λ s. Q s.session_id) rows
      → OneAnswer (RowFits shown) (sent_summaries to_iso shown (summaries rows))
  unfolding sent_summaries
  sent_summaries-OneAnswer true rows q =
      sent_list-OneAnswer true _
        (mapped_rows-Fit true (with_preview to_iso) with_preview-Fits rows q)
  sent_summaries-OneAnswer false rows q =
      sent_list-OneAnswer false _
        (mapped_rows-Fit false (on_the_wire to_iso) (on_the_wire-Fits false) rows q)

-- A session that the store holds, live and the user's, has the id.
abbrev pub IsOwnId : ℕ → Clock → UserId → Sessions → Text → Type 0
IsOwnId max_age_ms now user_id sessions id =
    (held : HeldSession) × IsOwnHeld max_age_ms now user_id sessions held
    × (id ≡ held.session.session_id)

module _ (date_parse : Text → Number) (time_of : Text → Option ℕ) (to_iso : ℕ → Option Text)
    (max_age_ms : ℕ) (now : Clock) (sessions : Sessions) where
  in_memory-OneAnswer :
      (shown : Bool) (user_id : UserId) (options : SessionListOptions)
      → OneAnswer (RowFits to_iso (IsOwnId max_age_ms now user_id sessions) shown) (
          sent_summaries to_iso shown
            (in_memory date_parse max_age_ms now sessions user_id options))
  in_memory-OneAnswer shown user_id options =
      by_answer (list_for date_parse max_age_ms now user_id options sessions)
        (list_for-IsOwn max_age_ms now user_id sessions date_parse options).0
    where
      by_answer :
          (o : Option (List SessionSummary))
          → ShowsOwn max_age_ms now user_id sessions o
          → OneAnswer
              (RowFits to_iso (IsOwnId max_age_ms now user_id sessions) shown)
              (sent_summaries to_iso shown (listed_of o))
      by_answer none h = unfold sent_summaries sent_list in tt
      by_answer (some rows) h =
          sent_summaries-OneAnswer to_iso (IsOwnId max_age_ms now user_id sessions) shown rows h

  -- A list frame on a socket of the session is answered by one frame, whatever its limit and cursor. If
  -- the deployer's store is the in-memory one and the frame is a list, then history is enabled, every
  -- row has the id of a session that the store holds, of that user and not aged out, and a row has a preview only where the
  -- deployer shows them, of at most 120 code points.
  pub answer_one-own :
      (history : Option ConversationHistoryOptions) (session : ChatSession) (limit : Option ℕ)
      (before : Option ConversationCursor)
      → OneAnswer
          (λ row.
            (is_enabled history ≡ true)
            × IsOwnId max_age_ms now session.user_id sessions row.session_id
            × PreviewFits (shows_preview history) row.preview)
          (answer_one to_iso time_of session limit before (
            some (record {
              list_for = some (in_memory date_parse max_age_ms now sessions);
              history = history;
            })))
  unfolding answer_one answer_with
  answer_one-own history session limit before =
      if-either (OneAnswer P) (is_enabled history)
        (λ e.
          OneAnswer-imp
            (RowFits to_iso (IsOwnId max_age_ms now session.user_id sessions)
              (shows_preview history))
            P
            (sent_summaries to_iso (shows_preview history)
              (in_memory date_parse max_age_ms now sessions session.user_id options))
            (λ row h. (e, h.0, h.1))
            (in_memory-OneAnswer (shows_preview history) session.user_id options))
        (λ _. tt)
    where
      options : SessionListOptions
      options = list_options time_of (shows_preview history) limit before

      P : ConversationSummary → Type 0
      P row =
          (is_enabled history ≡ true)
          × IsOwnId max_age_ms now session.user_id sessions row.session_id
          × PreviewFits (shows_preview history) row.preview
