-- ===== src/Listing.antt =====
-- transport/ws/conversationList.ts: the answer to a `list_conversations` frame. The store is what the
-- deployer gives the engine: an interface whose list may be absent, may throw, or may say that it
-- cannot list at all. `toISOString` is a parameter, which throws on a time out of its range.
pub mod Own
pub mod Examples
use halengine.Prelude.{
  ℕ, Text, text, Bool, true, false, Option, none, some, List, [], ◌∷◌, if◌then◌else◌, Number, whole,
  Json, undefined, str,
}
use mathlib.Core.Option
use halengine.Session.{UserId, ChatSession}
use halengine.Messages.{
  ConversationCursor, ConversationSummary, OutgoingMessage, conversation_list, error,
}
use halengine.Preview.{label_from}
use halengine.Stores.{SessionSummary, SessionCursor, SessionListOptions}

pub record ConversationHistoryOptions : Type 0 where
  pub enabled : Bool
  pub preview : Bool

-- What a store's `listFor` comes to; `cannot_list` is a StoreCannotList.
pub data Listed : Type 0 where
  summaries : List SessionSummary → Listed
  cannot_list : Listed
  list_failed : Listed

abbrev pub ListFor : Type 0
ListFor = UserId → SessionListOptions → Listed

pub record ConversationListDeps : Type 0 where
  pub list_for : Option ListFor
  pub history : Option ConversationHistoryOptions

abbrev pub is_enabled : Option ConversationHistoryOptions → Bool
is_enabled none = false
is_enabled (some history) = history.enabled

abbrev pub shows_preview : Option ConversationHistoryOptions → Bool
shows_preview none = false
shows_preview (some history) = history.preview

abbrev pub json_of : Option Text → Json
json_of none = undefined
json_of (some s) = str s

abbrev pub sent_error : Text → Text → List OutgoingMessage
sent_error code message = error code message none ∷ []

abbrev pub no_list : List OutgoingMessage
no_list = sent_error (text "UNSUPPORTED") (text "This session store cannot list conversations")

unfoldable pub joined_row :
    Option ConversationSummary
    → Option (List ConversationSummary)
    → Option (List ConversationSummary)
joined_row (some row) (some rows) = some (row ∷ rows)
joined_row _ _ = none

-- summaries.map(preview ? withPreview : onTheWire), where one throw is the whole list's.
unfoldable pub mapped_rows :
    (SessionSummary → Option ConversationSummary)
    → List SessionSummary
    → Option (List ConversationSummary)
unfolding joined_row
mapped_rows f [] = some []
mapped_rows f (s ∷ rest) = joined_row (f s) (mapped_rows f rest)

unfoldable pub sent_list : Option (List ConversationSummary) → List OutgoingMessage
sent_list none = sent_error (text "SERVER_ERROR") (text "Could not list conversations")
sent_list (some conversations) = conversation_list conversations ∷ []

module _ (to_iso : ℕ → Option Text) where
  abbrev pub iso_of : Option ℕ → Option Text
  iso_of none = none
  iso_of (some time) = to_iso time

  unfoldable pub wire_row : SessionSummary → Option Text → Option Text → Option ConversationSummary
  wire_row summary (some created_at) (some updated_at) = some (record {
    session_id = summary.session_id;
    created_at = created_at;
    updated_at = updated_at;
    entry_count = summary.entry_count;
    preview = none;
  })
  wire_row summary _ _ = none

  unfoldable pub on_the_wire : SessionSummary → Option ConversationSummary
  unfolding wire_row
  on_the_wire summary = wire_row summary (iso_of summary.created_at) (to_iso summary.updated_at)

  unfoldable pub with_preview : SessionSummary → Option ConversationSummary
  unfolding on_the_wire
  with_preview summary =
      Option.map
        (λ (row : ConversationSummary). record row {
          preview = label_from (json_of summary.preview);
        })
        (on_the_wire summary)

  unfoldable pub sent_summaries : Bool → Listed → List OutgoingMessage
  unfolding mapped_rows sent_list with_preview on_the_wire
  sent_summaries preview (summaries rows) =
      sent_list (mapped_rows (if preview then with_preview else on_the_wire) rows)
  sent_summaries preview cannot_list = no_list
  sent_summaries preview list_failed = sent_list none

-- `new Date(before.updatedAt)` is left to the store.
module _ (date_parse : Text → Option ℕ) where
  unfoldable pub store_cursor : ConversationCursor → SessionCursor
  store_cursor c = record { updated_at = date_parse c.updated_at; session_id = c.session_id }

  unfoldable pub list_options : Bool → Option ℕ → Option ConversationCursor → SessionListOptions
  unfolding store_cursor
  list_options preview limit before = record {
    limit = Option.map whole limit;
    before = Option.map store_cursor before;
    preview = preview;
  }

module _ (to_iso : ℕ → Option Text) (date_parse : Text → Option ℕ) where
  unfoldable pub answer_with :
      Option ListFor → Bool → UserId → Option ℕ → Option ConversationCursor → List OutgoingMessage
  unfolding sent_summaries list_options
  answer_with none preview user_id limit before = no_list
  answer_with (some list_for) preview user_id limit before =
      sent_summaries to_iso preview
        (list_for user_id (list_options date_parse preview limit before))

  -- The frames that answer one list frame: the user is the session's own, since the frame names none.
  unfoldable pub answer_one :
      ChatSession
      → Option ℕ
      → Option ConversationCursor
      → Option ConversationListDeps
      → List OutgoingMessage
  unfolding answer_with
  answer_one session limit before none =
      sent_error (text "UNSUPPORTED") (text "Conversation history is not enabled on this server")
  answer_one session limit before (some deps) =
      if is_enabled deps.history
      then answer_with deps.list_for (shows_preview deps.history) session.user_id limit before
      else sent_error (text "UNSUPPORTED")
          (text "Conversation history is not enabled on this server")
