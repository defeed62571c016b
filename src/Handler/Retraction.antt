-- ===== src/Handler/Retraction.antt =====
-- The suppress chunk, and what each of the other steps does about an entry that it is to blank.
use halengine.Prelude.{
  ℕ, Text, Bool, true, false, ◌≡◌, refl, ◌∙◌, sym, subst, ◌⊎◌, inl, inr, Option, none, some, List,
  [], ◌∷◌, ◌++◌, ==_iff, get_elem?, get_elem?-append_self,
}
use mathlib.Core.Option
use halengine.Thinking.{ParsedSegment, flush}
use halengine.Session.{SessionEntry, user, assistant, thinking, tool, other, role_of, tool_role}
use halengine.Entries.{
  EntryWriter, create_tool_entry, append_entry, mark_truncated, commit_entry, update_at,
}
use halengine.Entries.Roles.{role_of_stored}
use halengine.Messages.{entry_upsert}
use halengine.Ai.{ToolCall}
use halengine.Handler.{
  Handling, StateIndexKey, thinking_key, assistant_key, index_at, with_index, with_entries, ◌>=◌,
  send, written, upsert, upsert_stored, upsert_unless, as_suppressed, mark_suppressed, told_commit,
  blank, blank_at, blank_all, commit_at, commit_and_clear, commit_open_entries,
  handle_text_segments, flush_held_text, process_tool_use_chunk, process_suppress_chunk, close_at,
}
use halengine.Handler.Words.{words, words_in, words-send, words-wordless, words_in-blank}
use halengine.Handler.Tracking.{
  Post, then-Post, Listed, IsOpenAt, Good, send-wordless, written-Good, opened_at,
  upsert_stored-Good,
}
use halengine.Handler.Words.{upsert-same}
use halengine.Handler.Suppression.{commit_and_clear-Good, handle_text_segments-Good}

both-Post :
    (P Q : Handling → Type 0) (o : Option Handling) → Post P o → Post Q o → Post (λ s. P s × Q s) o
both-Post P Q none p q = tt
both-Post P Q (some s) p q = (p, q)

pub weaken-Post :
    (P Q : Handling → Type 0) (o : Option Handling)
    → Post P o
    → ((s : Handling) → P s → Q s)
    → Post Q o
weaken-Post P Q none p k = tt
weaken-Post P Q (some s) p k = k s p

told_commit-index :
    (b : Bool) (key : StateIndexKey) (index : ℕ) (s : Handling)
    → index_at key (told_commit b index (with_index key none s)) ≡ none
unfolding told_commit
told_commit-index true thinking_key index s = refl
told_commit-index true assistant_key index s = refl
told_commit-index false thinking_key index s = refl
told_commit-index false assistant_key index s = refl

told_commit-thinking :
    (b : Bool) (index : ℕ) (s : Handling)
    → (told_commit b index (with_index assistant_key none s)).thinking_index ≡ s.thinking_index
unfolding told_commit
told_commit-thinking true index s = refl
told_commit-thinking false index s = refl

mark_suppressed-sent :
    (index : ℕ) (s : Handling) → Post (λ s'. s'.sent ≡ s.sent) (mark_suppressed index s)
unfolding mark_suppressed
mark_suppressed-sent index s = kept (update_at as_suppressed s.session.entries index)
  where
    kept : (o : Option (List SessionEntry)) → Post (λ s'. s'.sent ≡ s.sent) (written o s)
    kept none = tt
    kept (some entries) = refl

module _ (i : ℕ) where
  -- Blanking an index leaves no words there, and none anywhere else.
  blank_at-words :
      (index : ℕ) (indices : List ℕ) (s : Handling)
      → (words i s.sent ≡ []) ⊎ Listed i (index ∷ indices)
      → Post (λ s'. (words i s'.sent ≡ []) ⊎ Listed i indices) (blank_at index s)
  unfolding blank_at
  blank_at-words index indices s h = sent_blank (get_elem? s.session.entries index)
    where
      blanked :
          (e : SessionEntry)
          → (words i s.sent ≡ []) ⊎ Listed i (index ∷ indices)
          → (words i (s.sent ++ entry_upsert index (blank e) ∷ []) ≡ []) ⊎ Listed i indices
      blanked e (inl none_yet) = inl (
          words-wordless i s.sent (entry_upsert index (blank e) ∷ []) (words_in-blank e, tt)
            none_yet)
      blanked e (inr (inl same)) = inl (
          words-send i s.sent (entry_upsert index (blank e))
          ∙ upsert-same i index (blank e) (words i s.sent) ((==_iff index i).1 same)
          ∙ words_in-blank e)
      blanked e (inr (inr later)) = inr later

      sent_blank :
          (o : Option SessionEntry)
          → Post
              (λ s'. (words i s'.sent ≡ []) ⊎ Listed i indices)
              (upsert index (Option.map blank o) s >= mark_suppressed index)
      sent_blank none = tt
      sent_blank (some e) =
          weaken-Post (λ s'. s'.sent ≡ s.sent ++ entry_upsert index (blank e) ∷ [])
            (λ s'. (words i s'.sent ≡ []) ⊎ Listed i indices)
            (mark_suppressed index (send (entry_upsert index (blank e)) s))
            (mark_suppressed-sent index (send (entry_upsert index (blank e)) s))
            (λ s' same.
              subst (λ frames. (words i frames ≡ []) ⊎ Listed i indices) (sym same) (blanked e h))

  blank_all-words :
      (indices : List ℕ) (s : Handling)
      → (words i s.sent ≡ []) ⊎ Listed i indices
      → Post (λ s'. words i s'.sent ≡ []) (blank_all indices s)
  unfolding blank_all
  blank_all-words [] s (inl e) = e
  blank_all-words [] s (inr h) = absurd h
  blank_all-words (index ∷ indices) s h =
      then-Post (λ s'. (words i s'.sent ≡ []) ⊎ Listed i indices) (λ s'. words i s'.sent ≡ [])
        (blank_at index s) _ (blank_at-words index indices s h)
        λ s' h'. blank_all-words indices s' h'

  -- With no entry open, what is covered is blank or can be retracted.
  to_blank :
      (b : Bool) (s : Handling)
      → Good i b s
      → s.thinking_index ≡ none
      → s.assistant_index ≡ none
      → (words i s.sent ≡ []) ⊎ Listed i s.blankable_indices
  to_blank b s (inl e, f) t a = inl e
  to_blank b s (inr (n, inl (inl o)), f) t a = absurd cc
  to_blank b s (inr (n, inl (inr o)), f) t a = absurd cc
  to_blank b s (inr (n, inr l), f) t a = inr l

module _ (i : ℕ) (w : EntryWriter) (now : Text) where
  commit-cleared :
      (key : StateIndexKey) (s : Handling)
      → Post (λ s'. index_at key s' ≡ none) (commit_and_clear w now key s)
  unfolding commit_and_clear commit_at
  commit-cleared key s = cleared (index_at key s) refl
    where
      cleared :
          (o : Option ℕ)
          → index_at key s ≡ o
          → Post (λ s'. index_at key s' ≡ none) (commit_at w now o key s)
      cleared none e = e
      cleared (some index) e = by_write (commit_entry w s.session.entries index)
        where
          by_write :
              (o : Option (List SessionEntry))
              → Post
                  (λ s'. index_at key s' ≡ none)
                  (written o s >= λ s'.
                    some (told_commit s'.suppressed index (with_index key none s')))
          by_write none = tt
          by_write (some entries) =
              told_commit-index s.suppressed key index (with_entries entries s)

  commit-thinking :
      (s : Handling)
      → Post (λ s'. s'.thinking_index ≡ s.thinking_index) (commit_and_clear w now assistant_key s)
  unfolding commit_and_clear commit_at
  commit-thinking s = kept s.assistant_index
    where
      kept :
          (o : Option ℕ)
          → Post (λ s'. s'.thinking_index ≡ s.thinking_index) (commit_at w now o assistant_key s)
      kept none = refl
      kept (some index) = by_write (commit_entry w s.session.entries index)
        where
          by_write :
              (o : Option (List SessionEntry))
              → Post
                  (λ s'. s'.thinking_index ≡ s.thinking_index)
                  (written o s >= λ s'.
                    some (told_commit s'.suppressed index (with_index assistant_key none s')))
          by_write none = tt
          by_write (some entries) = told_commit-thinking s.suppressed index (with_entries entries s)

  -- After both commits no entry is open, and none is lost track of.
  pub commit_open_entries-Good :
      (b : Bool) (s : Handling)
      → Good i b s
      → Post
          (λ s'. Good i b s' × ((s'.thinking_index ≡ none) × (s'.assistant_index ≡ none)))
          (commit_open_entries w now s)
  unfolding commit_open_entries
  commit_open_entries-Good b s g =
      then-Post (λ s'. Good i b s' × (s'.thinking_index ≡ none)) _
        (commit_and_clear w now thinking_key s) _
        (both-Post (Good i b) (λ s'. s'.thinking_index ≡ none)
          (commit_and_clear w now thinking_key s) (commit_and_clear-Good i w now b thinking_key s g)
          (commit-cleared thinking_key s))
        λ s' h.
          let second = commit_and_clear w now assistant_key s' in
          both-Post (Good i b) (λ s''. (s''.thinking_index ≡ none) × (s''.assistant_index ≡ none))
            second (commit_and_clear-Good i w now b assistant_key s' h.0)
            (both-Post (λ s''. s''.thinking_index ≡ none) (λ s''. s''.assistant_index ≡ none) second
              (weaken-Post (λ s''. s''.thinking_index ≡ s'.thinking_index)
                (λ s''. s''.thinking_index ≡ none) second (commit-thinking s') λ s'' e. e ∙ h.1)
              (commit-cleared assistant_key s'))

  pub process_suppress_chunk-Good :
      (b : Bool) (s : Handling) → Good i b s → Post (Good i true) (process_suppress_chunk w now s)
  unfolding process_suppress_chunk
  process_suppress_chunk-Good b s g =
      then-Post _ (Good i true) (commit_open_entries w now s) _ (commit_open_entries-Good b s g)
        λ s' h.
          then-Post (λ s''. words i s''.sent ≡ []) (Good i true) (blank_all s'.blankable_indices s')
            _ (blank_all-words i s'.blankable_indices s' (to_blank i b s' h.0 h.1.0 h.1.1))
            λ s'' e. (inl e, refl)

  pub parsed-Good :
      (b : Bool) (segments : List ParsedSegment) (s : Handling)
      → Good i b s
      → Post (Good i b) (handle_text_segments w now segments s)
  parsed-Good b segments s g = handle_text_segments-Good i w now b segments s g

  pub flush_held_text-Good :
      (b : Bool) (s : Handling) → Good i b s → Post (Good i b) (flush_held_text w now s)
  unfolding flush_held_text
  flush_held_text-Good b s g =
      parsed-Good b (flush s.parser).0 (record s { parser = (flush s.parser).1 }) g

  words_in-tool : (e : SessionEntry) → role_of e ≡ tool_role → words_in e ≡ []
  unfolding words_in
  words_in-tool (user e) h = refl
  words_in-tool (assistant e) h = cc
  words_in-tool (thinking e) h = cc
  words_in-tool (tool e) h = refl
  words_in-tool (other e) h = refl

  pub process_tool_use_chunk-Good :
      (b : Bool) (tc : ToolCall) (s : Handling)
      → Good i b s
      → Post (Good i b) (process_tool_use_chunk w now tc s)
  unfolding process_tool_use_chunk append_entry create_tool_entry
  process_tool_use_chunk-Good b tc s g =
      let entry = create_tool_entry now tc.name tc.input in
      let appended = append_entry w s.session.entries entry in
      rw (get_elem?-append_self s.session.entries _) (
        send-wordless i b (entry_upsert appended.1 _) (with_entries appended.0 s)
          (words_in-tool _ (role_of_stored w entry)) g)

  pub close_at-Good :
      (b : Bool) (o : Option ℕ) (key : StateIndexKey) (s : Handling)
      → index_at key s ≡ o
      → Good i b s
      → Post (Good i b) (close_at w now o key s)
  unfolding close_at
  close_at-Good b none key s e g = g
  close_at-Good b (some index) key s e g =
      then-Post _ (Good i b) (written (mark_truncated s.session.entries index) s) _
        (written-Good i b (mark_truncated s.session.entries index) s g)
        λ s' h.
          then-Post (Good i b) (Good i b) (upsert_unless s'.suppressed index s') _
            (subst (λ c. Post (Good i b) (upsert_unless c index s')) (sym h.0.1)
              (resent b index s' (opened_at i key index s' (h.2 key ∙ e)) h.0))
            λ s'' h'. commit_and_clear-Good i w now b key s'' h'
    where
      resent :
          (b : Bool) (index : ℕ) (s : Handling)
          → IsOpenAt index s
          → Good i b s
          → Post (Good i b) (upsert_unless b index s)
      resent true index s opened g = g
      resent false index s opened g =
          weaken-Post _ (Good i false) (upsert_stored index s)
            (upsert_stored-Good i index (get_elem? s.session.entries index) s opened g) λ s' h. h.0
