-- ===== src/Handler.antt =====
-- transport/ws/messageHandler.ts: how the chunks of a turn become entries of the session and frames to
-- the client. A `TypeError` on an index with no entry is `none`; what the orchestrator writes to the
-- session between two chunks is an event of its own.
pub mod Words
pub mod Tracking
pub mod Suppression
pub mod Retraction
pub mod Hiding
pub mod Valid
pub mod Total
pub mod Ends
pub mod Sent
pub mod Examples
use halengine.Prelude.{
  ℕ, Text, Bool, true, false, Option, none, some, List, [], ◌∷◌, ◌++◌, get_elem?,
}
use mathlib.Core.Option
use halengine.Thinking.{
  ThinkingTagParser, ParsedSegment, text_segment, thinking_segment, new_parser, push, flush,
}
use halengine.Session.{ChatSession, SessionEntry, user, assistant, thinking, tool, other}
use halengine.Entries.{
  EntryWriter, create_user_entry, create_assistant_entry, create_thinking_entry, create_tool_entry,
  append_entry, append_delta, mark_truncated, commit_entry, update_at,
}
use halengine.Messages.{OutgoingMessage, entry_upsert, entry_delta, entry_commit, entry_skip}
use halengine.Ai.{MessageChunk, text_chunk, tool_use, tool_result, suppress_output, stop, ToolCall}

-- The session, StreamState, the parser, and the frames sent in this turn.
pub record Handling : Type 0 where
  pub session : ChatSession
  pub parser : ThinkingTagParser
  pub thinking_index : Option ℕ
  pub assistant_index : Option ℕ
  pub suppressed : Bool
  pub blankable_indices : List ℕ
  pub sent : List OutgoingMessage

pub data StateIndexKey : Type 0 where
  thinking_key assistant_key : StateIndexKey

abbrev pub index_at : StateIndexKey → Handling → Option ℕ
index_at thinking_key s = s.thinking_index
index_at assistant_key s = s.assistant_index

abbrev pub with_index : StateIndexKey → Option ℕ → Handling → Handling
with_index thinking_key index s = record s { thinking_index = index }
with_index assistant_key index s = record s { assistant_index = index }

abbrev pub with_entries : List SessionEntry → Handling → Handling
with_entries entries s = record s { session = record s.session { entries = entries } }

infixl 5 ◌>=◌
abbrev pub ◌>=◌ : Option Handling → (Handling → Option Handling) → Option Handling
none >= f = none
some s >= f = f s

abbrev pub send : OutgoingMessage → Handling → Handling
send frame s = record s { sent = s.sent ++ frame ∷ [] }

abbrev pub send_unless : Bool → OutgoingMessage → Handling → Handling
send_unless true frame s = s
send_unless false frame s = send frame s

-- A write that throws where there is no entry.
abbrev pub written : Option (List SessionEntry) → Handling → Option Handling
written none s = none
written (some entries) s = some (with_entries entries s)

-- sendUpsert of the entry as it is stored.
abbrev pub upsert : ℕ → Option SessionEntry → Handling → Option Handling
upsert index none s = none
upsert index (some entry) s = some (send (entry_upsert index entry) s)

abbrev pub upsert_stored : ℕ → Handling → Option Handling
upsert_stored index s = upsert index (get_elem? s.session.entries index) s

abbrev pub upsert_unless : Bool → ℕ → Handling → Option Handling
upsert_unless true index s = some s
upsert_unless false index s = upsert_stored index s

unfoldable pub as_suppressed : SessionEntry → SessionEntry
as_suppressed (assistant e) = assistant (record e { suppressed = true })
as_suppressed (thinking e) = thinking (record e { suppressed = true })
as_suppressed entry = entry

unfoldable pub mark_suppressed : ℕ → Handling → Option Handling
unfolding as_suppressed
mark_suppressed index s = written (update_at as_suppressed s.session.entries index) s

unfoldable pub skip_suppressed : ℕ → Handling → Option Handling
unfolding mark_suppressed
skip_suppressed index s = mark_suppressed index s >= λ s'. some (send (entry_skip index) s')

abbrev pub announce : Bool → ℕ → Handling → Option Handling
unfolding skip_suppressed
announce true index s = skip_suppressed index s
announce false index s = upsert_stored index s

-- What the client was sent is committed for it too, and can be retracted.
unfoldable pub told_commit : Bool → ℕ → Handling → Handling
told_commit true index s = s
told_commit false index s = record s {
  sent = s.sent ++ entry_commit index ∷ [];
  blankable_indices = s.blankable_indices ++ index ∷ [];
}

unfoldable pub process_tool_result_chunk : List OutgoingMessage → Handling → Handling
process_tool_result_chunk messages s = record s { sent = s.sent ++ messages }

-- `{...entry, content: ''}`
unfoldable pub blank : SessionEntry → SessionEntry
blank (user e) = user (record e { content = [] })
blank (assistant e) = assistant (record e { content = [] })
blank (thinking e) = thinking (record e { content = [] })
blank (tool e) = tool e
blank (other e) = other (record e { content = some [] })

unfoldable pub blank_at : ℕ → Handling → Option Handling
unfolding blank mark_suppressed
blank_at index s =
    upsert index (Option.map blank (get_elem? s.session.entries index)) s >= mark_suppressed index

unfoldable pub blank_all : List ℕ → Handling → Option Handling
unfolding blank_at
blank_all [] s = some s
blank_all (index ∷ indices) s = blank_at index s >= blank_all indices

-- What happens while a turn runs: a chunk comes, or the orchestrator leaves the session otherwise.
pub data Event : Type 0 where
  came : MessageChunk → Event
  left : (ChatSession → ChatSession) → Event

module _ (w : EntryWriter) (now : Text) where
  unfoldable pub stream_delta : ℕ → Text → Handling → Option Handling
  stream_delta index content s = written (append_delta w s.session.entries index content) s >= λ s'.
      some (send_unless s'.suppressed (entry_delta index content) s')

  -- initSegment and the rest of streamSegment, for an entry that is open already or a new one.
  unfoldable pub stream_at :
      Option ℕ → StateIndexKey → SessionEntry → Text → Handling → Option Handling
  unfolding stream_delta announce
  stream_at (some index) key entry content s = stream_delta index content s
  stream_at none key entry content s =
      let (entries, index) = append_entry w s.session.entries entry in
      announce s.suppressed index (with_index key (some index) (with_entries entries s))
      >= stream_delta index content

  unfoldable pub stream_segment : StateIndexKey → SessionEntry → Text → Handling → Option Handling
  unfolding stream_at
  stream_segment key entry content s = stream_at (index_at key s) key entry content s

  unfoldable pub commit_at : Option ℕ → StateIndexKey → Handling → Option Handling
  unfolding told_commit
  commit_at none key s = some s
  commit_at (some index) key s = written (commit_entry w s.session.entries index) s >= λ s'.
      some (told_commit s'.suppressed index (with_index key none s'))

  unfoldable pub commit_and_clear : StateIndexKey → Handling → Option Handling
  unfolding commit_at
  commit_and_clear key s = commit_at (index_at key s) key s

  unfoldable pub commit_open_entries : Handling → Option Handling
  unfolding commit_and_clear
  commit_open_entries s = commit_and_clear thinking_key s >= commit_and_clear assistant_key

  unfoldable pub handle_text_segment : ParsedSegment → Handling → Option Handling
  unfolding stream_segment commit_and_clear
  handle_text_segment segment s = elim segment.type [
    | thinking_segment ↦ stream_segment thinking_key (create_thinking_entry now) segment.content s
    | text_segment ↦ commit_and_clear thinking_key s >= λ s'.
        stream_segment assistant_key (create_assistant_entry now s'.session.active_persona)
          segment.content s'
  ]

  unfoldable pub handle_text_segments : List ParsedSegment → Handling → Option Handling
  unfolding handle_text_segment
  handle_text_segments [] s = some s
  handle_text_segments (segment ∷ segments) s =
      handle_text_segment segment s >= handle_text_segments segments

  unfoldable pub process_text_chunk : Text → Handling → Option Handling
  unfolding handle_text_segments
  process_text_chunk text s =
      let (segments, parser) = push s.parser text in
      handle_text_segments segments (record s { parser = parser })

  unfoldable pub flush_held_text : Handling → Option Handling
  unfolding handle_text_segments
  flush_held_text s =
      let (segments, parser) = flush s.parser in
      handle_text_segments segments (record s { parser = parser })

  unfoldable pub process_tool_use_chunk : ToolCall → Handling → Option Handling
  process_tool_use_chunk tc s =
      let (entries, index) =
        append_entry w s.session.entries (create_tool_entry now tc.name tc.input) in
      upsert_stored index (with_entries entries s)

  unfoldable pub process_suppress_chunk : Handling → Option Handling
  unfolding commit_open_entries blank_all
  process_suppress_chunk s = commit_open_entries s >= λ s'.
      blank_all s'.blankable_indices s' >= λ s''.
      some (record s'' { blankable_indices = []; suppressed = true })

  unfoldable pub process_stop_chunk : Handling → Option Handling
  unfolding flush_held_text commit_open_entries
  process_stop_chunk s = flush_held_text s >= commit_open_entries

  unfoldable pub process_chunk : MessageChunk → Handling → Option Handling
  unfolding process_text_chunk process_tool_use_chunk process_tool_result_chunk
      process_suppress_chunk process_stop_chunk
  process_chunk (text_chunk text) s = process_text_chunk text s
  process_chunk (tool_use tc) s = process_tool_use_chunk tc s
  process_chunk (tool_result messages) s = some (process_tool_result_chunk messages s)
  process_chunk suppress_output s = process_suppress_chunk s
  process_chunk (stop reason usage) s = process_stop_chunk s

  unfoldable pub close_at : Option ℕ → StateIndexKey → Handling → Option Handling
  unfolding commit_and_clear
  close_at none key s = some s
  close_at (some index) key s = written (mark_truncated s.session.entries index) s >= λ s'.
      upsert_unless s'.suppressed index s' >= commit_and_clear key

  unfoldable pub close_cut_off : StateIndexKey → Handling → Option Handling
  unfolding close_at
  close_cut_off key s = close_at (index_at key s) key s

  -- The `finally` block of handleUserMessage.
  unfoldable pub finish : Handling → Option Handling
  unfolding flush_held_text close_cut_off
  finish s = flush_held_text s >= close_cut_off thinking_key >= close_cut_off assistant_key

  unfoldable pub process_event : Event → Handling → Option Handling
  unfolding process_chunk
  process_event (came chunk) s = process_chunk chunk s
  process_event (left change) s = some (record s { session = change s.session })

  unfoldable pub process_events : List Event → Handling → Option Handling
  unfolding process_event
  process_events [] s = some s
  process_events (event ∷ events) s = process_event event s >= process_events events

  -- The user's entry is sent as it was created, not as it is stored.
  unfoldable pub start_handling : Text → ChatSession → Handling
  start_handling content session =
      let entry = create_user_entry now content in
      let (entries, index) = append_entry w session.entries entry in
      record {
        session = record session { entries = entries };
        parser = new_parser;
        thinking_index = none;
        assistant_index = none;
        suppressed = false;
        blankable_indices = [];
        sent = entry_upsert index entry ∷ [];
      }

  unfoldable pub handle_user_message : Text → ChatSession → List Event → Option Handling
  unfolding start_handling process_events finish
  handle_user_message content session events =
      process_events events (start_handling content session) >= finish
