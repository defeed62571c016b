-- ===== src/Handler/Total.antt =====
-- The steps of the handler on indices that have an entry.
use halengine.Prelude.{
  ℕ, ◌+◌, ◌≤◌, ◌<◌, Text, Bool, true, false, Option, none, some, List, [], ◌∷◌, get_elem?, All,
  All-append, length, length-append, arith, if◌then◌else◌,
}
use mathlib.Core.Option
use halengine.Session.{SessionEntry}
use halengine.Entries.{
  EntryWriter, append_entry, append_delta, with_delta, commit_entry, committed, update_at, is_open,
  redacted,
}
use halengine.Messages.{entry_delta, entry_skip}
use halengine.Handler.{
  Handling, StateIndexKey, thinking_key, assistant_key, index_at, with_index, with_entries, written,
  upsert, as_suppressed, mark_suppressed, skip_suppressed, announce, told_commit, blank, blank_at,
  blank_all, stream_delta, stream_at, commit_at, commit_and_clear, commit_open_entries,
  process_suppress_chunk,
}
use halengine.Handler.Valid.{
  Sure, then-Sure, size, IndexBelow, Valid, at_key, written-Valid, send-Valid, send_unless-Valid,
  upsert-Valid, stored_at, blanked_at, raise-Valid,
}

-- Every index that the stream state holds has an entry.
abbrev pub Fits : Handling → Type 0
Fits s = Valid (size s) s

pub Valid-Fits : (n : ℕ) (s : Handling) → Valid n s → Fits s
Valid-Fits n s v = raise-Valid n (size s) s v.room (omega arith) v

pub Fits-all : (n : ℕ) (o : Option Handling) → Sure (Valid n) o → Sure Fits o
Fits-all n none h = h
Fits-all n (some s) v = Valid-Fits n s v

pub written-Fits :
    (f : SessionEntry → SessionEntry) (index : ℕ) (s : Handling)
    → index < size s
    → Fits s
    → Sure (Valid (size s)) (written (update_at f s.session.entries index) s)
written-Fits f index s h v = written-Valid (size s) f index s h v

with_index-Valid :
    (n : ℕ) (key : StateIndexKey) (o : Option ℕ) (s : Handling)
    → IndexBelow n o
    → Valid n s
    → Valid n (with_index key o s)
with_index-Valid n thinking_key o s h v = record {
  thinking_below = h;
  assistant_below = v.assistant_below;
  blankable_below = v.blankable_below;
  room = v.room;
}
with_index-Valid n assistant_key o s h v = record {
  thinking_below = v.thinking_below;
  assistant_below = h;
  blankable_below = v.blankable_below;
  room = v.room;
}

told_commit-Valid :
    (n : ℕ) (b : Bool) (index : ℕ) (s : Handling)
    → index < n
    → Valid n s
    → Valid n (told_commit b index s)
unfolding told_commit
told_commit-Valid n true index s h v = v
told_commit-Valid n false index s h v = record {
  thinking_below = v.thinking_below;
  assistant_below = v.assistant_below;
  blankable_below =
      All-append (λ j. j < n) s.blankable_indices (index ∷ []) v.blankable_below (h, tt);
  room = v.room;
}

mark_suppressed-Valid :
    (n index : ℕ) (s : Handling) → index < n → Valid n s → Sure (Valid n) (mark_suppressed index s)
unfolding mark_suppressed
mark_suppressed-Valid n index s h v = written-Valid n as_suppressed index s h v

announce-Valid :
    (n : ℕ) (b : Bool) (index : ℕ) (s : Handling)
    → index < n
    → Valid n s
    → Sure (Valid n) (announce b index s)
unfolding skip_suppressed
announce-Valid n true index s h v =
    then-Sure (Valid n) (Valid n) (mark_suppressed index s) _ (mark_suppressed-Valid n index s h v)
      λ s' v'. send-Valid n (entry_skip index) s' v'
announce-Valid n false index s h v =
    upsert-Valid n index (get_elem? s.session.entries index) s (stored_at n index s h v) v

blank_all-Valid :
    (n : ℕ) (indices : List ℕ) (s : Handling)
    → All (λ j. j < n) indices
    → Valid n s
    → Sure (Valid n) (blank_all indices s)
unfolding blank_all blank_at
blank_all-Valid n [] s h v = v
blank_all-Valid n (index ∷ indices) s (h, hs) v =
    then-Sure (Valid n) (Valid n) (blank_at index s) _
      (then-Sure (Valid n) (Valid n)
        (upsert index (Option.map blank (get_elem? s.session.entries index)) s) _
        (upsert-Valid n index _ s (blanked_at n index s h v) v)
        λ s' v'. mark_suppressed-Valid n index s' h v')
      λ s' v'. blank_all-Valid n indices s' hs v'

module _ (w : EntryWriter) (now : Text) where
  stream_delta-Valid :
      (n index : ℕ) (content : Text) (s : Handling)
      → index < n
      → Valid n s
      → Sure (Valid n) (stream_delta w now index content s)
  unfolding stream_delta append_delta
  stream_delta-Valid n index content s h v =
      then-Sure (Valid n) (Valid n) (written (append_delta w s.session.entries index content) s) _
        (written-Valid n (with_delta w content) index s h v)
        λ s' v'. send_unless-Valid n s'.suppressed (entry_delta index content) s' v'

  pub stream_at-Fits :
      (o : Option ℕ) (key : StateIndexKey) (entry : SessionEntry) (content : Text) (s : Handling)
      → IndexBelow (size s) o
      → Fits s
      → Sure Fits (stream_at w now o key entry content s)
  unfolding stream_at append_entry
  stream_at-Fits (some index) key entry content s h v =
      Fits-all (size s) _ (stream_delta-Valid (size s) index content s h v)
  stream_at-Fits none key entry content s h v =
      let appended = append_entry w s.session.entries entry in
      let n = length s.session.entries in
      let longer : Handling = with_entries appended.0 s in
      let more : n + 1 ≤ size longer = omega (
        arith,
        length-append s.session.entries
            ((if is_open entry then entry else redacted w.redact_entry entry) ∷ []),
      ) in
      let held : Valid n longer = record {
        thinking_below = v.thinking_below;
        assistant_below = v.assistant_below;
        blankable_below = v.blankable_below;
        room = omega (arith, more);
      } in
      let begun = with_index key (some n) longer in
      let begun_Valid =
        with_index-Valid (n + 1) key (some n) longer (omega arith)
          (raise-Valid n (n + 1) longer (omega arith) more held) in
      Fits-all (n + 1) _ (
        then-Sure (Valid (n + 1)) (Valid (n + 1)) (announce s.suppressed n begun) _
          (announce-Valid (n + 1) s.suppressed n begun (omega arith) begun_Valid)
          λ s' v'. stream_delta-Valid (n + 1) n content s' (omega arith) v')

  commit_at-Valid :
      (n : ℕ) (o : Option ℕ) (key : StateIndexKey) (s : Handling)
      → IndexBelow n o
      → Valid n s
      → Sure (Valid n) (commit_at w now o key s)
  unfolding commit_at commit_entry
  commit_at-Valid n none key s h v = v
  commit_at-Valid n (some index) key s h v =
      then-Sure (Valid n) (Valid n) (written (commit_entry w s.session.entries index) s) _
        (written-Valid n (committed w) index s h v)
        λ s' v'.
          told_commit-Valid n s'.suppressed index (with_index key none s') h
            (with_index-Valid n key none s' tt v')

  pub commit_and_clear-Valid :
      (n : ℕ) (key : StateIndexKey) (s : Handling)
      → Valid n s
      → Sure (Valid n) (commit_and_clear w now key s)
  unfolding commit_and_clear
  commit_and_clear-Valid n key s v = commit_at-Valid n (index_at key s) key s (at_key n key s v) v

  pub commit_open_entries-Valid :
      (n : ℕ) (s : Handling) → Valid n s → Sure (Valid n) (commit_open_entries w now s)
  unfolding commit_open_entries
  commit_open_entries-Valid n s v =
      then-Sure (Valid n) (Valid n) (commit_and_clear w now thinking_key s) _
        (commit_and_clear-Valid n thinking_key s v)
        λ s' v'. commit_and_clear-Valid n assistant_key s' v'

  pub process_suppress_chunk-Valid :
      (n : ℕ) (s : Handling) → Valid n s → Sure (Valid n) (process_suppress_chunk w now s)
  unfolding process_suppress_chunk
  process_suppress_chunk-Valid n s v =
      then-Sure (Valid n) (Valid n) (commit_open_entries w now s) _
        (commit_open_entries-Valid n s v)
        λ s' v'.
          then-Sure (Valid n) (Valid n) (blank_all s'.blankable_indices s') _
            (blank_all-Valid n s'.blankable_indices s' v'.blankable_below v')
            λ s'' v''. record {
              thinking_below = v''.thinking_below;
              assistant_below = v''.assistant_below;
              blankable_below = tt;
              room = v''.room;
            }
