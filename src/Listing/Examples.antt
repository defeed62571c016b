-- ===== src/Listing/Examples.antt =====
-- Tests of transport/ws/conversationList.ts and the witness of its theorem.
use halengine.Prelude.{
  ℕ, ◌≡◌, refl, Text, text, true, Option, none, some, [], ◌∷◌, Number, not_finite,
}
use halengine.Session.{named}
use halengine.Entries.{create_user_entry}
use halengine.Messages.{conversation_list, error}
use halengine.Frames.{trim, trim_start, trim_end, kept_before, is_white}
use halengine.Preview.{
  preview_of, label_from, label_of, collapse, points, starts_low, join, non_empty,
}
use halengine.Stores.{
  HeldSession, capped_limit, is_scalar_user_id, user_id_eq, rows_from, sort_rows, insert_row,
}
use halengine.Stores.Memory.{
  Sessions, has_expired, owned_by, rows_of, row_of, summary_of, last_activity, latest_stamp,
  stamp_of, latest_of, list_for, page_of, labelled,
}
use halengine.Listing.{
  ConversationHistoryOptions, wire_row, on_the_wire, with_preview, joined_row, mapped_rows,
  sent_list, sent_summaries, list_options, answer_with, answer_one, is_enabled, shows_preview,
}
use halengine.Listing.Own.{in_memory, OneAnswer, IsOwnId, PreviewFits, answer_one-own}

abbrev no_dates : Text → Number
no_dates s = not_finite

abbrev no_time : Text → Option ℕ
no_time s = none

abbrev iso : ℕ → Option Text
iso n = some (text "t")

abbrev asked : Option ℕ → HeldSession
asked created_at = record {
  session = record {
    session_id = text "a";
    user_id = named (text "ann");
    entries = create_user_entry (text "t0") (text " why? ") ∷ [];
    auth_headers = none;
    workspace_id = none;
    active_persona = none;
    created_at = none;
    user = none;
  };
  created_at = created_at;
}

abbrev store_of : Option ℕ → Sessions
store_of created_at = (text "a", asked created_at) ∷ []

abbrev with_labels : ConversationHistoryOptions
with_labels = record { enabled = true; preview = true }

answered :
    answer_one iso no_time (asked none).session none none (
      some (record {
        list_for = some (in_memory no_dates 100 (some 5) (store_of (some 3)));
        history = some with_labels;
      }))
    ≡ conversation_list (
        record {
          session_id = text "a";
          created_at = text "t";
          updated_at = text "t";
          entry_count = 1;
          preview = some (text "why?");
        }
        ∷ [])
      ∷ []
unfolding answer_one answer_with list_options sent_summaries mapped_rows joined_row sent_list
    with_preview on_the_wire wire_row list_for rows_of owned_by has_expired user_id_eq row_of
    summary_of last_activity latest_stamp stamp_of latest_of capped_limit is_scalar_user_id
    rows_from sort_rows insert_row page_of labelled preview_of label_from label_of collapse points
    starts_low join non_empty trim trim_start trim_end kept_before is_white create_user_entry
answered = refl

-- One session that was opened on an unusable clock reading fails the whole list.
unusable :
    answer_one iso no_time (asked none).session none none (
      some (record {
        list_for = some (in_memory no_dates 100 (some 5) (store_of none));
        history = some with_labels;
      }))
    ≡ error (text "SERVER_ERROR") (text "Could not list conversations") none ∷ []
unfolding answer_one answer_with list_options sent_summaries mapped_rows joined_row sent_list
    with_preview on_the_wire wire_row list_for rows_of owned_by has_expired user_id_eq row_of
    summary_of last_activity latest_stamp stamp_of latest_of capped_limit is_scalar_user_id
    rows_from sort_rows insert_row page_of labelled
unusable = refl

unsupported :
    answer_one iso no_time (asked none).session none none none
    ≡ error (text "UNSUPPORTED") (text "Conversation history is not enabled on this server") none
      ∷ []
unfolding answer_one
unsupported = refl

answer_one-own_example :
    OneAnswer
      (λ row.
        (is_enabled (some with_labels) ≡ true)
        × IsOwnId 100 (some 5) (named (text "ann")) (store_of (some 3)) row.session_id
        × PreviewFits (shows_preview (some with_labels)) row.preview)
      (answer_one iso no_time (asked none).session (some 20) none (
        some (record {
          list_for = some (in_memory no_dates 100 (some 5) (store_of (some 3)));
          history = some with_labels;
        })))
answer_one-own_example =
    answer_one-own no_dates no_time iso 100 (some 5) (store_of (some 3)) (some with_labels)
      (asked none).session (some 20) none
