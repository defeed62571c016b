-- ===== src/Handler/Examples.antt =====
-- Tests and examples of a turn's frames.
use halengine.Prelude.{
  length-append, arith, ◌≤◌, length, text, true, false, ◌≡◌, refl, Option, none, some, List, [],
  ◌∷◌, ◌++◌,
}
use mathlib.Core.Option
use halengine.Thinking.{
  index_of, ends_with, partial_from, partial_match_length, emit, found_tag, hold_tail, drain_round,
  drain_loop, drain, push, flush,
}
use halengine.Session.{ChatSession, AssistantEntry, named, assistant}
use halengine.Entries.{
  EntryWriter, create_user_entry, create_assistant_entry, create_thinking_entry, create_tool_entry,
  is_open, role_and_time_only, clear, kept_or_cleared, redacted, is_positive_whole,
  create_entry_writer, append_entry, with_delta, append_delta, as_truncated, mark_truncated,
  stop_streaming, committed, commit_entry, closed, clear_first, clear_beyond, close_turn,
}
use halengine.Messages.{OutgoingMessage, entry_upsert, entry_delta, entry_commit, entry_skip}
use halengine.Ai.{text_chunk, suppress_output, stop}
use halengine.Handler.{
  left, Handling, Event, came, as_suppressed, mark_suppressed, skip_suppressed, told_commit,
  process_tool_result_chunk, blank, blank_at, blank_all, stream_delta, stream_at, stream_segment,
  commit_at, commit_and_clear, commit_open_entries, handle_text_segment, handle_text_segments,
  process_text_chunk, flush_held_text, process_tool_use_chunk, process_suppress_chunk,
  process_stop_chunk, process_chunk, close_at, close_cut_off, finish, process_event, process_events,
  start_handling, handle_user_message,
}
use halengine.Handler.Words.{words}
use halengine.Handler.Ends.{handle_user_message_total}
use halengine.Handler.Hiding.{suppression_hides}

abbrev writer : EntryWriter
writer = record { max_content_entries = none; redact_entry = none }

abbrev session : ChatSession
session = record {
  session_id = text "s1";
  user_id = named (text "u1");
  entries = [];
  auth_headers = none;
  workspace_id = none;
  active_persona = none;
  created_at = none;
  user = none;
}

abbrev spoken : List Event
spoken =
    came (text_chunk (text "It is <thin"))
    ∷ came (text_chunk (text "king>hm</thinking>late."))
    ∷ came (stop (text "tool_use") none)
    ∷ []

abbrev followed : List Event
followed = came (text_chunk (text "Never mind.")) ∷ came (stop (text "end_turn") none) ∷ []

abbrev ended : Handling
unfolding as_suppressed mark_suppressed skip_suppressed told_commit process_tool_result_chunk blank
    blank_at blank_all stream_delta stream_at stream_segment commit_at commit_and_clear
    commit_open_entries handle_text_segment handle_text_segments process_text_chunk flush_held_text
    process_tool_use_chunk process_suppress_chunk process_stop_chunk process_chunk close_at
    close_cut_off finish process_event process_events start_handling handle_user_message
ended =
    Option.get_or
      (handle_user_message writer (text "t") (text "Hi") session
        (spoken ++ came suppress_output ∷ followed))
      (start_handling writer (text "t") (text "Hi") session)

abbrev frames_of : Option Handling → List OutgoingMessage
frames_of none = []
frames_of (some s) = s.sent

abbrev entry : AssistantEntry
entry = record {
  content = [];
  timestamp = text "t";
  is_streaming = true;
  cleared = false;
  truncated = false;
  suppressed = false;
  persona = none;
}

abbrev spoken_frames : List OutgoingMessage
unfolding create_user_entry create_thinking_entry create_assistant_entry
spoken_frames =
    entry_upsert 0 (create_user_entry (text "t") (text "Hi"))
    ∷ entry_upsert 1 (assistant entry)
    ∷ entry_delta 1 (text "It is ")
    ∷ entry_upsert 2 (create_thinking_entry (text "t"))
    ∷ entry_delta 2 (text "hm")
    ∷ entry_commit 2
    ∷ entry_delta 1 (text "late.")
    ∷ entry_commit 1
    ∷ []

spoken_test :
    frames_of (
      process_events writer
        (text "t")
        spoken
        (start_handling writer (text "t") (text "Hi") session))
    ≡ spoken_frames
unfolding as_suppressed mark_suppressed skip_suppressed told_commit process_tool_result_chunk blank
    blank_at blank_all stream_delta stream_at stream_segment commit_at commit_and_clear
    commit_open_entries handle_text_segment handle_text_segments process_text_chunk flush_held_text
    process_tool_use_chunk process_suppress_chunk process_stop_chunk process_chunk close_at
    close_cut_off finish process_event process_events start_handling handle_user_message index_of
    ends_with partial_from partial_match_length emit found_tag hold_tail drain_round drain_loop
    drain push flush create_user_entry create_assistant_entry create_thinking_entry
    create_tool_entry is_open role_and_time_only clear kept_or_cleared redacted is_positive_whole
    create_entry_writer append_entry with_delta append_delta as_truncated mark_truncated
    stop_streaming committed commit_entry closed clear_first clear_beyond close_turn spoken_frames
spoken_test = refl

ended_test :
    handle_user_message writer
      (text "t")
      (text "Hi")
      session
      (spoken ++ came suppress_output ∷ followed)
    ≡ some ended
unfolding as_suppressed mark_suppressed skip_suppressed told_commit process_tool_result_chunk blank
    blank_at blank_all stream_delta stream_at stream_segment commit_at commit_and_clear
    commit_open_entries handle_text_segment handle_text_segments process_text_chunk flush_held_text
    process_tool_use_chunk process_suppress_chunk process_stop_chunk process_chunk close_at
    close_cut_off finish process_event process_events start_handling handle_user_message index_of
    ends_with partial_from partial_match_length emit found_tag hold_tail drain_round drain_loop
    drain push flush create_user_entry create_assistant_entry create_thinking_entry
    create_tool_entry is_open role_and_time_only clear kept_or_cleared redacted is_positive_whole
    create_entry_writer append_entry with_delta append_delta as_truncated mark_truncated
    stop_streaming committed commit_entry closed clear_first clear_beyond close_turn ended
ended_test = refl

hidden_test :
    ended.sent
    ≡ spoken_frames
      ++ entry_upsert 2 (stop_streaming (create_thinking_entry (text "t")))
        ∷ entry_upsert 1 (assistant (record entry { is_streaming = false }))
        ∷ entry_skip 3
        ∷ []
unfolding as_suppressed mark_suppressed skip_suppressed told_commit process_tool_result_chunk blank
    blank_at blank_all stream_delta stream_at stream_segment commit_at commit_and_clear
    commit_open_entries handle_text_segment handle_text_segments process_text_chunk flush_held_text
    process_tool_use_chunk process_suppress_chunk process_stop_chunk process_chunk close_at
    close_cut_off finish process_event process_events start_handling handle_user_message index_of
    ends_with partial_from partial_match_length emit found_tag hold_tail drain_round drain_loop
    drain push flush create_user_entry create_assistant_entry create_thinking_entry
    create_tool_entry is_open role_and_time_only clear kept_or_cleared redacted is_positive_whole
    create_entry_writer append_entry with_delta append_delta as_truncated mark_truncated
    stop_streaming committed commit_entry closed clear_first clear_beyond close_turn ended
    spoken_frames
hidden_test = refl

suppression_hides_example : words 1 ended.sent ≡ []
suppression_hides_example =
    suppression_hides writer (text "t") (text "Hi") session spoken followed ended 1
      (tt, (tt, (tt, tt))) (tt, (tt, tt)) ended_test

-- The orchestrator stores an entry of a tool's while the turn runs.
abbrev stores : ChatSession → ChatSession
stores s = record s { entries = s.entries ++ assistant entry ∷ [] }

stores-KeepsEntries : (s : ChatSession) → length s.entries ≤ length (stores s).entries
stores-KeepsEntries s = omega (arith, length-append s.entries (assistant entry ∷ []))

handle_user_message_test :
    (s : Handling) × (handle_user_message writer
        (text "t")
        (text "Hi")
        session
        (came (text_chunk (text "Let me see.")) ∷ left stores ∷ came suppress_output ∷ [])
      ≡ some s)
handle_user_message_test =
    handle_user_message_total writer (text "t") (text "Hi") session
      (came (text_chunk (text "Let me see.")) ∷ left stores ∷ came suppress_output ∷ [])
      (tt, (stores-KeepsEntries, (tt, tt)))
