-- ===== src/Context/Examples.antt =====
-- Tests and examples of the conversation window.
use halengine.Prelude.{
  ℕ, text, false, true, ◌≡◌, refl, none, List, [], ◌∷◌, ◌++◌, empty, decimal, arith,
}
use halengine.Session.{SessionEntry, UserEntry, user, assistant}
use halengine.Entries.{create_tool_entry}
use halengine.Ai.{Message, text_message, from_user}
use halengine.Context.{ContextConfig, to_messages, to_content_messages}
use halengine.Context.Window.{
  EndsWith, Fits, to_messages_window, to_messages-user, to_messages_zero,
}
use halengine.Context.Pairing.{IsPaired, to_messages-IsPaired}

-- Any measure of a message of tool blocks will do; here each counts 80.
abbrev blocks : Message → ℕ
blocks m = 80

abbrev question : UserEntry
question = record { content = text "And the next one?"; timestamp = text "t2"; cleared = false }

abbrev history : List SessionEntry
unfolding create_tool_entry
history =
    user (record { content = []; timestamp = text "t0"; cleared = true })
    ∷ create_tool_entry (text "t1") (text "lookup") empty
    ∷ assistant (record {
      content = text "It ships today.";
      timestamp = text "t1";
      is_streaming = false;
      cleared = false;
      truncated = false;
      suppressed = false;
      persona = none;
    })
    ∷ []

abbrev three : ContextConfig
three = record { max_messages = 3; max_content_length = 100000 }

window_test :
    to_messages blocks (history ++ user question ∷ []) three
    ≡ text_message from_user (text "And the next one?") ∷ []
unfolding to_messages decimal history create_tool_entry
window_test = refl

to_messages_window_example : Fits blocks 100000 (to_messages blocks history three)
to_messages_window_example = (to_messages_window blocks history three).2

to_messages-user_example :
    EndsWith
      (text_message from_user question.content)
      (to_messages blocks (history ++ user question ∷ []) three)
to_messages-user_example = to_messages-user blocks history question three refl

to_messages_zero_example :
    to_messages blocks history (record { max_messages = 0; max_content_length = 9 })
    ≡ to_messages blocks history (record { max_messages = 3; max_content_length = 9 })
unfolding to_content_messages history create_tool_entry decimal
to_messages_zero_example = to_messages_zero blocks history 3 9 (omega arith)

to_messages-IsPaired_example : IsPaired (to_messages blocks history three)
to_messages-IsPaired_example = to_messages-IsPaired blocks history three
