-- ===== src/Entries.antt =====
-- orchestration/entryMutations.ts and entryFactories.ts: every write to a session's entries. A
-- `TypeError` on an index outside the entries is `none`.
pub mod Roles
pub mod Closing
pub mod Examples
use halengine.Prelude.{
  ℕ, zero, suc, ◌+◌, ◌-◌, Text, text, Bool, true, false, ◌||◌, ◌&&◌, Option, none, some, List, [],
  ◌∷◌, ◌++◌, map, length, get_elem?, set, if◌then◌else◌, ltb, leb, Number, whole, minus, between,
  below, not_finite, Fields, empty,
}
use mathlib.Core.Option
use halengine.Session.{
  SessionEntry, UserEntry, AssistantEntry, ThinkingEntry, ToolEntry, OtherEntry, user, assistant,
  thinking, tool, other, Role, role_of, role_eq, is_cleared, ChatSession, EntryPolicy, Redactor,
}

-- The factories; `now` is the clock reading as an ISO string.
unfoldable pub create_user_entry : Text → Text → SessionEntry
create_user_entry now content =
    user (record { content = content; timestamp = now; cleared = false })

unfoldable pub create_assistant_entry : Text → Option Text → SessionEntry
create_assistant_entry now persona = assistant (record {
  content = [];
  timestamp = now;
  is_streaming = true;
  cleared = false;
  truncated = false;
  suppressed = false;
  persona = persona;
})

unfoldable pub create_thinking_entry : Text → SessionEntry
create_thinking_entry now = thinking (record {
  content = [];
  timestamp = some now;
  is_streaming = true;
  cleared = false;
  truncated = false;
  suppressed = false;
})

unfoldable pub create_tool_entry : Text → Text → Fields → SessionEntry
create_tool_entry now tool_name tool_input =
    tool
      (record { tool_name = tool_name; tool_input = tool_input; timestamp = now; cleared = false })

unfoldable pub is_open : SessionEntry → Bool
is_open (assistant e) = e.is_streaming
is_open (thinking e) = e.is_streaming
is_open _ = false

unfoldable pub role_and_time_only : OtherEntry → SessionEntry
role_and_time_only e = other (record e { content = none; cleared = true; fields = empty })

-- `cleared` of the source, the function.
unfoldable pub clear : SessionEntry → SessionEntry
unfolding role_and_time_only
clear (user e) = user (record e { content = []; cleared = true })
clear (assistant e) = assistant (record e { content = []; cleared = true })
clear (thinking e) = thinking (record e { content = []; cleared = true })
clear (tool e) = tool (record e { tool_input = empty; cleared = true })
clear (other e) = elim e.content [
  | none ↦ role_and_time_only e
  | some _ ↦ other (record e { content = some []; cleared = true })
]

-- `hasRole`, with the fallback to the cleared entry.
unfoldable pub kept_or_cleared : SessionEntry → Option SessionEntry → SessionEntry
unfolding clear
kept_or_cleared entry none = clear entry
kept_or_cleared entry (some result) =
    if role_eq (role_of result) (role_of entry) then result else clear entry

unfoldable pub redacted : Option Redactor → SessionEntry → SessionEntry
unfolding kept_or_cleared
redacted none entry = entry
redacted (some redact) (user e) = user e
redacted (some redact) entry = kept_or_cleared entry (redact entry)

-- What `createEntryWriter` closes over, once `refuseUnusable` has passed the policy.
pub record EntryWriter : Type 0 where
  pub max_content_entries : Option ℕ
  pub redact_entry : Option Redactor

unfoldable pub is_positive_whole : Number → Option ℕ
is_positive_whole (whole zero) = none
is_positive_whole (whole (suc n)) = some (suc n)
is_positive_whole _ = none

-- `none` is the constructor's throw.
unfoldable pub create_entry_writer : EntryPolicy → Option EntryWriter
unfolding is_positive_whole
create_entry_writer policy = elim policy.max_content_entries [
  | none ↦ some (record { max_content_entries = none; redact_entry = policy.redact_entry })
  | some value ↦
      Option.map (λ n. record { max_content_entries = some n; redact_entry = policy.redact_entry })
        (is_positive_whole value)
]

-- The writer's methods, over `session.entries`, the one field that they touch. `update_at` reads
-- the entry at an index and writes its new value back.
abbrev pub update_at :
    (SessionEntry → SessionEntry) → List SessionEntry → ℕ → Option (List SessionEntry)
update_at f entries index = Option.map (λ e. set entries index (f e)) (get_elem? entries index)

unfoldable pub append_entry : EntryWriter → List SessionEntry → SessionEntry → List SessionEntry × ℕ
append_entry w entries entry = (
  entries ++ (if is_open entry then entry else redacted w.redact_entry entry) ∷ [],
  length entries,
)

unfoldable pub with_delta : EntryWriter → Text → SessionEntry → SessionEntry
with_delta w delta (assistant e) =
    if e.cleared
    then assistant e
    else let longer = assistant (record e { content = e.content ++ delta }) in
      if e.is_streaming then longer else redacted w.redact_entry longer
with_delta w delta (thinking e) =
    if e.cleared
    then thinking e
    else let longer = thinking (record e { content = e.content ++ delta }) in
      if e.is_streaming then longer else redacted w.redact_entry longer
with_delta w delta entry = entry

unfoldable pub append_delta :
    EntryWriter → List SessionEntry → ℕ → Text → Option (List SessionEntry)
append_delta w entries index delta = update_at (with_delta w delta) entries index

unfoldable pub as_truncated : SessionEntry → SessionEntry
as_truncated (assistant e) = assistant (record e { truncated = true })
as_truncated (thinking e) = thinking (record e { truncated = true })
as_truncated entry = entry

unfoldable pub mark_truncated : List SessionEntry → ℕ → Option (List SessionEntry)
unfolding as_truncated
mark_truncated entries index = update_at as_truncated entries index

-- entry.isStreaming = false
unfoldable pub stop_streaming : SessionEntry → SessionEntry
stop_streaming (assistant e) = assistant (record e { is_streaming = false })
stop_streaming (thinking e) = thinking (record e { is_streaming = false })
stop_streaming entry = entry

unfoldable pub committed : EntryWriter → SessionEntry → SessionEntry
committed w entry = if is_open entry then redacted w.redact_entry (stop_streaming entry) else entry

unfoldable pub commit_entry : EntryWriter → List SessionEntry → ℕ → Option (List SessionEntry)
commit_entry w entries index = update_at (committed w) entries index

-- One step of closeTurn's loop.
unfoldable pub closed : EntryWriter → SessionEntry → SessionEntry
closed w entry =
    if is_open entry then redacted w.redact_entry (stop_streaming (as_truncated entry)) else entry

-- The loop of clearBeyond, for the first `n` entries.
unfoldable pub clear_first : ℕ → List SessionEntry → List SessionEntry
clear_first zero entries = entries
clear_first (suc n) [] = []
clear_first (suc n) (entry ∷ entries) =
    (if is_cleared entry then entry else clear entry) ∷ clear_first n entries

unfoldable pub clear_beyond : List SessionEntry → Option ℕ → List SessionEntry
clear_beyond entries none = entries
clear_beyond entries (some kept) = clear_first (length entries - kept) entries

unfoldable pub close_turn : EntryWriter → List SessionEntry → List SessionEntry
close_turn w entries = clear_beyond (map (closed w) entries) w.max_content_entries
