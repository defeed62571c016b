-- ===== src/Handler/Ends.antt =====
-- A whole turn, and the indices that it writes at.
use halengine.Prelude.{
  ℕ, ◌≤◌, Text, Bool, true, false, ◌≡◌, refl, Option, none, some, List, [], ◌∷◌, get_elem?, All,
  length, length-append, arith, if◌then◌else◌, get_elem?-append_self,
}
use halengine.Thinking.{ParsedSegment, SegmentType, text_segment, thinking_segment, push, flush}
use halengine.Session.{ChatSession, SessionEntry}
use halengine.Entries.{
  EntryWriter, create_assistant_entry, create_thinking_entry, create_tool_entry, append_entry,
  mark_truncated, as_truncated, is_open, redacted,
}
use halengine.Ai.{MessageChunk, text_chunk, tool_use, tool_result, suppress_output, stop}
use halengine.Handler.{
  Handling, StateIndexKey, thinking_key, assistant_key, index_at, ◌>=◌, written, upsert_unless,
  process_tool_result_chunk, Event, came, left, stream_segment, commit_and_clear,
  handle_text_segment, handle_text_segments, process_text_chunk, flush_held_text,
  process_tool_use_chunk, process_stop_chunk, process_chunk, close_at, close_cut_off, finish,
  process_event, process_events, start_handling, handle_user_message,
}
use halengine.Handler.Valid.{
  Sure, then-Sure, size, IndexBelow, Valid, at_key, written-Valid, upsert-Valid, stored_at,
}
use halengine.Handler.Total.{
  Fits, Valid-Fits, Fits-all, stream_at-Fits, commit_and_clear-Valid, commit_open_entries-Valid,
  process_suppress_chunk-Valid,
}

-- What the orchestrator and the hooks write between two chunks takes no entry away.
abbrev pub KeepsEntries : Event → Type 0
KeepsEntries (came chunk) = Unit
KeepsEntries (left change) =
    (session : ChatSession) → length session.entries ≤ length (change session).entries

module _ (w : EntryWriter) (now : Text) where
  stream_segment-Fits :
      (key : StateIndexKey) (entry : SessionEntry) (content : Text) (s : Handling)
      → Fits s
      → Sure Fits (stream_segment w now key entry content s)
  unfolding stream_segment
  stream_segment-Fits key entry content s v =
      stream_at-Fits w now (index_at key s) key entry content s (at_key (size s) key s v) v

  handle_text_segments-Fits :
      (segments : List ParsedSegment) (s : Handling)
      → Fits s
      → Sure Fits (handle_text_segments w now segments s)
  unfolding handle_text_segments handle_text_segment
  handle_text_segments-Fits [] s v = v
  handle_text_segments-Fits (segment ∷ segments) s v =
      then-Sure Fits Fits (handle_text_segment w now segment s) _ (by_type segment.type)
        λ s' v'. handle_text_segments-Fits segments s' v'
    where
      by_type :
          (type : SegmentType)
          → Sure Fits (elim type [
            | thinking_segment ↦
                stream_segment w now thinking_key (create_thinking_entry now) segment.content s
            | text_segment ↦ commit_and_clear w now thinking_key s >= λ s'.
                stream_segment w now assistant_key
                  (create_assistant_entry now s'.session.active_persona)
                  segment.content
                  s'
          ])
      by_type thinking_segment = stream_segment-Fits thinking_key _ segment.content s v
      by_type text_segment =
          then-Sure Fits Fits (commit_and_clear w now thinking_key s) _
            (Fits-all (size s) _ (commit_and_clear-Valid w now (size s) thinking_key s v))
            λ s' v'. stream_segment-Fits assistant_key _ segment.content s' v'

  flush_held_text-Fits : (s : Handling) → Fits s → Sure Fits (flush_held_text w now s)
  unfolding flush_held_text
  flush_held_text-Fits s v =
      handle_text_segments-Fits (flush s.parser).0 (record s { parser = (flush s.parser).1 })
        (record {
          thinking_below = v.thinking_below;
          assistant_below = v.assistant_below;
          blankable_below = v.blankable_below;
          room = v.room;
        })

  process_chunk-Fits :
      (chunk : MessageChunk) (s : Handling) → Fits s → Sure Fits (process_chunk w now chunk s)
  unfolding process_chunk process_text_chunk process_tool_use_chunk process_tool_result_chunk
      process_stop_chunk append_entry
  process_chunk-Fits (text_chunk text) s v =
      handle_text_segments-Fits (push s.parser text).0
        (record s { parser = (push s.parser text).1 })
        (record {
          thinking_below = v.thinking_below;
          assistant_below = v.assistant_below;
          blankable_below = v.blankable_below;
          room = v.room;
        })
  process_chunk-Fits (tool_use tc) s v =
      let entry = create_tool_entry now tc.name tc.input in
      let stored = if is_open entry then entry else redacted w.redact_entry entry in
      rw (get_elem?-append_self s.session.entries stored) (
        Valid-Fits (size s) _ (record {
          thinking_below = v.thinking_below;
          assistant_below = v.assistant_below;
          blankable_below = v.blankable_below;
          room = omega (arith, length-append s.session.entries (stored ∷ []));
        }))
  process_chunk-Fits (tool_result messages) s v = record {
    thinking_below = v.thinking_below;
    assistant_below = v.assistant_below;
    blankable_below = v.blankable_below;
    room = v.room;
  }
  process_chunk-Fits suppress_output s v =
      Fits-all (size s) _ (process_suppress_chunk-Valid w now (size s) s v)
  process_chunk-Fits (stop reason usage) s v =
      then-Sure Fits Fits (flush_held_text w now s) _ (flush_held_text-Fits s v)
        λ s' v'. Fits-all (size s') _ (commit_open_entries-Valid w now (size s') s' v')

  process_events-Fits :
      (events : List Event) (s : Handling)
      → All KeepsEntries events
      → Fits s
      → Sure Fits (process_events w now events s)
  unfolding process_events process_event
  process_events-Fits [] s h v = v
  process_events-Fits (came chunk ∷ events) s (h, hs) v =
      then-Sure Fits Fits (process_chunk w now chunk s) _ (process_chunk-Fits chunk s v)
        λ s' v'. process_events-Fits events s' hs v'
  process_events-Fits (left change ∷ events) s (h, hs) v =
      let changed : Handling = record s { session = change s.session } in
      process_events-Fits events changed hs (
        Valid-Fits (size s) changed (record {
          thinking_below = v.thinking_below;
          assistant_below = v.assistant_below;
          blankable_below = v.blankable_below;
          room = h s.session;
        }))

  close_at-Valid :
      (n : ℕ) (o : Option ℕ) (key : StateIndexKey) (s : Handling)
      → IndexBelow n o
      → Valid n s
      → Sure (Valid n) (close_at w now o key s)
  unfolding close_at mark_truncated
  close_at-Valid n none key s h v = v
  close_at-Valid n (some index) key s h v =
      then-Sure (Valid n) (Valid n) (written (mark_truncated s.session.entries index) s) _
        (written-Valid n as_truncated index s h v)
        λ s' v'.
          then-Sure (Valid n) (Valid n) (upsert_unless s'.suppressed index s') _
            (resent s'.suppressed s' v') λ s'' v''. commit_and_clear-Valid w now n key s'' v''
    where
      resent : (b : Bool) (s' : Handling) → Valid n s' → Sure (Valid n) (upsert_unless b index s')
      resent true s' v' = v'
      resent false s' v' =
          upsert-Valid n index (get_elem? s'.session.entries index) s' (stored_at n index s' h v')
            v'

  finish-Fits : (s : Handling) → Fits s → Sure Fits (finish w now s)
  unfolding finish close_cut_off
  finish-Fits s v =
      then-Sure Fits Fits (flush_held_text w now s >= close_cut_off w now thinking_key) _
        (then-Sure Fits Fits (flush_held_text w now s) _ (flush_held_text-Fits s v) λ s' v'.
          Fits-all (size s') _
            (close_at-Valid (size s') s'.thinking_index thinking_key s' v'.thinking_below v'))
        λ s' v'.
          Fits-all (size s') _
            (close_at-Valid (size s') s'.assistant_index assistant_key s' v'.assistant_below v')

  started-Fits :
      (content : Text) (session : ChatSession) → Fits (start_handling w now content session)
  unfolding start_handling
  started-Fits content session = record {
    thinking_below = tt;
    assistant_below = tt;
    blankable_below = tt;
    room = omega arith;
  }

-- The handling of a turn runs to its end, whatever chunks come, as long as what the orchestrator writes
-- in between takes no entry away: no index that it holds is ever without an entry.
pub handle_user_message_total :
    (w : EntryWriter) (now content : Text) (session : ChatSession) (events : List Event)
    → All KeepsEntries events
    → (s : Handling) × (handle_user_message w now content session events ≡ some s)
unfolding handle_user_message
handle_user_message_total w now content session events h =
    reached (handle_user_message w now content session events) (
      then-Sure Fits Fits (process_events w now events (start_handling w now content session)) _
        (process_events-Fits w now events (start_handling w now content session) h
          (started-Fits w now content session))
        λ s v. finish-Fits w now s v)
  where
    reached : (o : Option Handling) → Sure Fits o → (s : Handling) × (o ≡ some s)
    reached none v = absurd v
    reached (some s) v = (s, refl)
