-- ===== src/Handler/Sent.antt =====
-- Which frames the handling of a turn sends: those of entries, and those that the tools' results carry.
use halengine.Prelude.{
  ℕ, Text, Bool, true, false, Option, none, some, List, [], ◌∷◌, get_elem?, All, All-append,
}
use mathlib.Core.Option
use halengine.Session.{SessionEntry, ChatSession}
use halengine.Entries.{
  EntryWriter, create_thinking_entry, create_tool_entry, create_user_entry, append_entry,
  append_delta, commit_entry, mark_truncated, update_at,
}
use halengine.Messages.{OutgoingMessage, entry_upsert, entry_delta, entry_commit, entry_skip}
use halengine.Thinking.{ParsedSegment, text_segment, thinking_segment, push, flush}
use halengine.Ai.{MessageChunk, text_chunk, tool_use, tool_result, suppress_output, stop}
use halengine.Handler.{
  Handling, StateIndexKey, thinking_key, assistant_key, index_at, with_index, with_entries, ◌>=◌,
  send, send_unless, written, upsert, upsert_unless, as_suppressed, mark_suppressed,
  skip_suppressed, announce, told_commit, process_tool_result_chunk, blank, blank_at, blank_all,
  Event, came, left, stream_delta, stream_at, stream_segment, commit_at, commit_and_clear,
  commit_open_entries, handle_text_segment, handle_text_segments, process_text_chunk,
  flush_held_text, process_tool_use_chunk, process_suppress_chunk, process_stop_chunk,
  process_chunk, close_at, close_cut_off, finish, process_event, process_events, start_handling,
  handle_user_message,
}
use halengine.Handler.Tracking.{Post, then-Post}

-- The frames of the tools' own that a sequence of events carries.
abbrev pub ToolsSend : (OutgoingMessage → Type 0) → List Event → Type 0
ToolsSend P [] = Unit
ToolsSend P (came (tool_result messages) ∷ events) = All P messages × ToolsSend P events
ToolsSend P (event ∷ events) = ToolsSend P events

split_head :
    (P : OutgoingMessage → Type 0) (chunk : MessageChunk) (events : List Event)
    → ToolsSend P (came chunk ∷ events)
    → ToolsSend P (came chunk ∷ [])
split_head P (tool_result messages) events t = (t.0, tt)
split_head P (text_chunk text) events t = tt
split_head P (tool_use tc) events t = tt
split_head P suppress_output events t = tt
split_head P (stop reason usage) events t = tt

split_tail :
    (P : OutgoingMessage → Type 0) (chunk : MessageChunk) (events : List Event)
    → ToolsSend P (came chunk ∷ events)
    → ToolsSend P events
split_tail P (tool_result messages) events t = t.1
split_tail P (text_chunk text) events t = t
split_tail P (tool_use tc) events t = t
split_tail P suppress_output events t = t
split_tail P (stop reason usage) events t = t

pub record HoldsOfEntries (P : OutgoingMessage → Type 0) : Type 0 where
  pub upserts : (index : ℕ) (entry : SessionEntry) → P (entry_upsert index entry)
  pub deltas : (index : ℕ) (delta : Text) → P (entry_delta index delta)
  pub commits : (index : ℕ) → P (entry_commit index)
  pub skips : (index : ℕ) → P (entry_skip index)

module _ (P : OutgoingMessage → Type 0) (own : HoldsOfEntries P) where
  abbrev Sends : Handling → Type 0
  Sends s = All P s.sent

  send-Sends : (frame : OutgoingMessage) (s : Handling) → P frame → Sends s → Sends (send frame s)
  send-Sends frame s p h = All-append P s.sent (frame ∷ []) h (p, tt)

  written-Sends :
      (o : Option (List SessionEntry)) (s : Handling) → Sends s → Post Sends (written o s)
  written-Sends none s h = tt
  written-Sends (some entries) s h = h

  upsert-Sends :
      (index : ℕ) (o : Option SessionEntry) (s : Handling) → Sends s → Post Sends (upsert index o s)
  upsert-Sends index none s h = tt
  upsert-Sends index (some entry) s h =
      send-Sends (entry_upsert index entry) s (own.upserts index entry) h

  with_index-Sends :
      (key : StateIndexKey) (o : Option ℕ) (s : Handling) → Sends s → Sends (with_index key o s)
  with_index-Sends thinking_key o s h = h
  with_index-Sends assistant_key o s h = h

  mark_suppressed-Sends :
      (index : ℕ) (s : Handling) → Sends s → Post Sends (mark_suppressed index s)
  unfolding mark_suppressed
  mark_suppressed-Sends index s h =
      written-Sends (update_at as_suppressed s.session.entries index) s h

  announce-Sends : (b : Bool) (index : ℕ) (s : Handling) → Sends s → Post Sends (announce b index s)
  unfolding skip_suppressed
  announce-Sends true index s h =
      then-Post Sends Sends (mark_suppressed index s) _ (mark_suppressed-Sends index s h)
        λ s' h'. send-Sends (entry_skip index) s' (own.skips index) h'
  announce-Sends false index s h = upsert-Sends index (get_elem? s.session.entries index) s h

  blank_all-Sends : (indices : List ℕ) (s : Handling) → Sends s → Post Sends (blank_all indices s)
  unfolding blank_all blank_at
  blank_all-Sends [] s h = h
  blank_all-Sends (index ∷ indices) s h =
      then-Post Sends Sends (blank_at index s) _
        (then-Post Sends Sends
          (upsert index (Option.map blank (get_elem? s.session.entries index)) s) _
          (upsert-Sends index _ s h) λ s' h'. mark_suppressed-Sends index s' h')
        λ s' h'. blank_all-Sends indices s' h'

  module _ (w : EntryWriter) (now : Text) where
    stream_delta-Sends :
        (index : ℕ) (content : Text) (s : Handling)
        → Sends s
        → Post Sends (stream_delta w now index content s)
    unfolding stream_delta
    stream_delta-Sends index content s h =
        then-Post Sends Sends (written (append_delta w s.session.entries index content) s) _
          (written-Sends _ s h) λ s' h'. told s'.suppressed s' h'
      where
        told :
            (b : Bool) (s' : Handling)
            → Sends s'
            → Sends (send_unless b (entry_delta index content) s')
        told true s' h' = h'
        told false s' h' = send-Sends (entry_delta index content) s' (own.deltas index content) h'

    stream_at-Sends :
        (o : Option ℕ) (key : StateIndexKey) (entry : SessionEntry) (content : Text) (s : Handling)
        → Sends s
        → Post Sends (stream_at w now o key entry content s)
    unfolding stream_at
    stream_at-Sends (some index) key entry content s h = stream_delta-Sends index content s h
    stream_at-Sends none key entry content s h =
        let (entries, index) = append_entry w s.session.entries entry in
        then-Post Sends Sends
          (announce s.suppressed index (with_index key (some index) (with_entries entries s))) _
          (announce-Sends s.suppressed index _
            (with_index-Sends key (some index) (with_entries entries s) h))
          λ s' h'. stream_delta-Sends index content s' h'

    commit_at-Sends :
        (o : Option ℕ) (key : StateIndexKey) (s : Handling)
        → Sends s
        → Post Sends (commit_at w now o key s)
    unfolding commit_at told_commit
    commit_at-Sends none key s h = h
    commit_at-Sends (some index) key s h =
        then-Post Sends Sends (written (commit_entry w s.session.entries index) s) _
          (written-Sends _ s h)
          λ s' h'. told s'.suppressed (with_index key none s') (with_index-Sends key none s' h')
      where
        told : (b : Bool) (s' : Handling) → Sends s' → Sends (told_commit b index s')
        told true s' h' = h'
        told false s' h' = All-append P s'.sent (entry_commit index ∷ []) h' (own.commits index, tt)

    commit_open_entries-Sends : (s : Handling) → Sends s → Post Sends (commit_open_entries w now s)
    unfolding commit_open_entries commit_and_clear
    commit_open_entries-Sends s h =
        then-Post Sends Sends (commit_at w now s.thinking_index thinking_key s) _
          (commit_at-Sends s.thinking_index thinking_key s h)
          λ s' h'. commit_at-Sends s'.assistant_index assistant_key s' h'

    handle_text_segment-Sends :
        (segment : ParsedSegment) (s : Handling)
        → Sends s
        → Post Sends (handle_text_segment w now segment s)
    unfolding handle_text_segment stream_segment commit_and_clear
    handle_text_segment-Sends segment s h =
        elim segment.type
          as (λ type. Post Sends (handle_text_segment w now (record segment { type = type }) s)) [
            | thinking_segment ↦
                stream_at-Sends s.thinking_index thinking_key (create_thinking_entry now)
                  segment.content s h
            | text_segment ↦
                then-Post Sends Sends (commit_at w now s.thinking_index thinking_key s) _
                  (commit_at-Sends s.thinking_index thinking_key s h)
                  λ s' h'. stream_at-Sends s'.assistant_index assistant_key _ segment.content s' h'
          ]

    handle_text_segments-Sends :
        (segments : List ParsedSegment) (s : Handling)
        → Sends s
        → Post Sends (handle_text_segments w now segments s)
    unfolding handle_text_segments
    handle_text_segments-Sends [] s h = h
    handle_text_segments-Sends (segment ∷ segments) s h =
        then-Post Sends Sends (handle_text_segment w now segment s) _
          (handle_text_segment-Sends segment s h) λ s' h'. handle_text_segments-Sends segments s' h'

    process_text_chunk-Sends :
        (text : Text) (s : Handling) → Sends s → Post Sends (process_text_chunk w now text s)
    unfolding process_text_chunk
    process_text_chunk-Sends text s h =
        handle_text_segments-Sends (push s.parser text).0
          (record s { parser = (push s.parser text).1 }) h

    flush_held_text-Sends : (s : Handling) → Sends s → Post Sends (flush_held_text w now s)
    unfolding flush_held_text
    flush_held_text-Sends s h =
        handle_text_segments-Sends (flush s.parser).0 (record s { parser = (flush s.parser).1 }) h

    process_chunk-Sends :
        (chunk : MessageChunk) (s : Handling)
        → ToolsSend P (came chunk ∷ [])
        → Sends s
        → Post Sends (process_chunk w now chunk s)
    unfolding process_chunk process_tool_use_chunk process_tool_result_chunk process_suppress_chunk
        process_stop_chunk
    process_chunk-Sends (text_chunk text) s t h = process_text_chunk-Sends text s h
    process_chunk-Sends (tool_use tc) s t h =
        let (entries, index) =
          append_entry w s.session.entries (create_tool_entry now tc.name tc.input) in
        upsert-Sends index (get_elem? entries index) (with_entries entries s) h
    process_chunk-Sends (tool_result messages) s t h = All-append P s.sent messages h t.0
    process_chunk-Sends suppress_output s t h =
        then-Post Sends Sends (commit_open_entries w now s) _ (commit_open_entries-Sends s h)
          λ s' h'.
            then-Post Sends Sends (blank_all s'.blankable_indices s') _
              (blank_all-Sends s'.blankable_indices s' h') λ s'' h''. h''
    process_chunk-Sends (stop reason usage) s t h =
        then-Post Sends Sends (flush_held_text w now s) _ (flush_held_text-Sends s h)
          λ s' h'. commit_open_entries-Sends s' h'

    process_events-Sends :
        (events : List Event) (s : Handling)
        → ToolsSend P events
        → Sends s
        → Post Sends (process_events w now events s)
    unfolding process_events process_event
    process_events-Sends [] s t h = h
    process_events-Sends (came chunk ∷ events) s t h =
        then-Post Sends Sends (process_chunk w now chunk s) _
          (process_chunk-Sends chunk s (split_head P chunk events t) h)
          λ s' h'. process_events-Sends events s' (split_tail P chunk events t) h'
    process_events-Sends (left change ∷ events) s t h =
        process_events-Sends events (record s { session = change s.session }) t h

    close_at-Sends :
        (o : Option ℕ) (key : StateIndexKey) (s : Handling)
        → Sends s
        → Post Sends (close_at w now o key s)
    unfolding close_at commit_and_clear
    close_at-Sends none key s h = h
    close_at-Sends (some index) key s h =
        then-Post Sends Sends (written (mark_truncated s.session.entries index) s) _
          (written-Sends _ s h)
          λ s' h'.
            then-Post Sends Sends (upsert_unless s'.suppressed index s') _
              (resent s'.suppressed s' h') λ s'' h''. commit_at-Sends (index_at key s'') key s'' h''
      where
        resent : (b : Bool) (s' : Handling) → Sends s' → Post Sends (upsert_unless b index s')
        resent true s' h' = h'
        resent false s' h' = upsert-Sends index (get_elem? s'.session.entries index) s' h'

    finish-Sends : (s : Handling) → Sends s → Post Sends (finish w now s)
    unfolding finish close_cut_off
    finish-Sends s h =
        then-Post Sends Sends (flush_held_text w now s >= close_cut_off w now thinking_key) _
          (then-Post Sends Sends (flush_held_text w now s) _ (flush_held_text-Sends s h)
            λ s' h'. close_at-Sends s'.thinking_index thinking_key s' h')
          λ s' h'. close_at-Sends s'.assistant_index assistant_key s' h'

    -- A frame that the handling of a turn sends is one of an entry, or a tool's own.
    pub handle_user_message-Sends :
        (content : Text) (session : ChatSession) (events : List Event)
        → ToolsSend P events
        → Post (λ s. All P s.sent) (handle_user_message w now content session events)
    unfolding handle_user_message start_handling
    handle_user_message-Sends content session events t =
        then-Post Sends Sends (process_events w now events (start_handling w now content session)) _
          (process_events-Sends events (start_handling w now content session) t
            (own.upserts _ (create_user_entry now content), tt))
          λ s h. finish-Sends s h
