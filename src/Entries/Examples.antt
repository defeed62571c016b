-- ===== src/Entries/Examples.antt =====
-- Tests and examples of the entry writer.
use halengine.Prelude.{
  text, true, false, ◌≡◌, refl, none, some, List, [], ◌∷◌, All, get_elem?, empty, whole, between,
  arith,
}
use mathlib.Core.Option
use halengine.Session.{SessionEntry, user, assistant, thinking, tool, other, Redactor}
use halengine.Entries.{
  EntryWriter, create_user_entry, create_assistant_entry, create_tool_entry, create_entry_writer,
  is_open, clear, kept_or_cleared, redacted, append_entry, with_delta, append_delta, mark_truncated,
  as_truncated, stop_streaming, committed, commit_entry, closed, clear_first, clear_beyond,
  close_turn,
}
use halengine.Entries.Roles.{roles, roles_kept}
use halengine.Entries.Closing.{
  ClosesWhatItReturns, IsClosed, close_turn-IsClosed, get_elem?-close_turn, close_turn_idempotent,
}

-- A redactor that fails on tool entries and blanks an assistant's words.
abbrev blanking : Redactor
blanking (assistant e) = some (assistant (record e { content = text "*" }))
blanking (tool e) = none
blanking e = some e

abbrev writer : EntryWriter
writer = record { max_content_entries = some 2; redact_entry = some blanking }

blanking-ClosesWhatItReturns : ClosesWhatItReturns (some blanking)
unfolding is_open
blanking-ClosesWhatItReturns (assistant e) r h k = ground arith
blanking-ClosesWhatItReturns (user e) r h k = ground arith
blanking-ClosesWhatItReturns (thinking e) r h k = ground arith
blanking-ClosesWhatItReturns (tool e) r h k = ground arith
blanking-ClosesWhatItReturns (other e) r h k = ground arith

abbrev turn : List SessionEntry
unfolding create_user_entry create_tool_entry create_assistant_entry
turn =
    create_user_entry (text "t0") (text "hi")
    ∷ create_tool_entry (text "t1") (text "lookup") empty
    ∷ create_assistant_entry (text "t2") none
    ∷ []

ops : Unit {0}
unfolding turn is_open clear kept_or_cleared redacted append_entry with_delta append_delta
    mark_truncated as_truncated stop_streaming committed commit_entry closed clear_first
    clear_beyond close_turn create_entry_writer
ops = tt

close_turn_test :
    close_turn writer turn
    ≡ user (record { content = []; timestamp = text "t0"; cleared = true })
      ∷ create_tool_entry (text "t1") (text "lookup") empty
      ∷ assistant (record {
        content = text "*";
        timestamp = text "t2";
        is_streaming = false;
        cleared = false;
        truncated = true;
        suppressed = false;
        persona = none;
      })
      ∷ []
unfolding ops create_tool_entry create_user_entry create_assistant_entry
close_turn_test = refl

policy_test :
    (create_entry_writer (record { max_content_entries = some (whole 0); redact_entry = none })
      ≡ none)
    × (create_entry_writer (record { max_content_entries = some (between 1); redact_entry = none })
        ≡ none)
unfolding ops
policy_test = (refl, refl)

roles_kept_example :
    Option.map roles (append_delta writer turn 2 (text "x"))
    ≡ Option.map (λ _. roles turn) (get_elem? turn 2)
roles_kept_example = (roles_kept writer turn (create_user_entry [] []) 2 (text "x")).2

close_turn-IsClosed_example : All IsClosed (close_turn writer turn)
close_turn-IsClosed_example = close_turn-IsClosed writer turn blanking-ClosesWhatItReturns

get_elem?-close_turn_example :
    get_elem? (close_turn writer turn) 0
    ≡ Option.map (λ e. clear (closed writer e)) (get_elem? turn 0)
unfolding ops create_user_entry create_tool_entry create_assistant_entry
get_elem?-close_turn_example = get_elem?-close_turn writer turn 0

close_turn_idempotent_example : close_turn writer (close_turn writer turn) ≡ close_turn writer turn
close_turn_idempotent_example = close_turn_idempotent writer turn blanking-ClosesWhatItReturns
