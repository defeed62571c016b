-- ===== src/Handler/Suppression.antt =====
-- The model's text, streamed to entries whose words the client has.
use halengine.Prelude.{ℕ, Text, Bool, ◌≡◌, refl, ◌∙◌, sym, subst, Option, none, some, List, [], ◌∷◌}
use halengine.Thinking.{ParsedSegment, SegmentType, text_segment, thinking_segment}
use halengine.Session.{SessionEntry}
use halengine.Entries.{
  EntryWriter, create_assistant_entry, create_thinking_entry, append_entry, append_delta,
  commit_entry,
}
use halengine.Messages.{entry_delta}
use halengine.Handler.{
  Handling, StateIndexKey, thinking_key, assistant_key, index_at, with_index, with_entries, ◌>=◌,
  send_unless, written, announce, told_commit, stream_delta, stream_at, stream_segment, commit_at,
  commit_and_clear, handle_text_segment, handle_text_segments,
}
use halengine.Handler.Tracking.{
  Post, then-Post, IsOpenAt, Good, send_unless-open, written-Good, opened_at, opened_with,
  with_index-Good, announce-Good, told_commit-Good, index_at-with_entries,
}

module _ (i : ℕ) (w : EntryWriter) (now : Text) where
  stream_delta-Good :
      (b : Bool) (index : ℕ) (content : Text) (s : Handling)
      → IsOpenAt index s
      → Good i b s
      → Post (Good i b) (stream_delta w now index content s)
  unfolding stream_delta
  stream_delta-Good b index content s opened g =
      then-Post _ (Good i b) (written (append_delta w s.session.entries index content) s) _
        (written-Good i b (append_delta w s.session.entries index content) s g)
        λ s' h.
          subst (λ c. Good i b (send_unless c (entry_delta index content) s')) (sym h.0.1)
            (send_unless-open i b index content s' (h.1 index opened) h.0)

  stream_at-Good :
      (b : Bool) (o : Option ℕ) (key : StateIndexKey) (entry : SessionEntry) (content : Text)
      (s : Handling)
      → index_at key s ≡ o
      → Good i b s
      → Post (Good i b) (stream_at w now o key entry content s)
  unfolding stream_at
  stream_at-Good b (some index) key entry content s e g =
      stream_delta-Good b index content s (opened_at i key index s e) g
  stream_at-Good b none key entry content s e g =
      let appended = append_entry w s.session.entries entry in
      let begun = with_index key (some appended.1) (with_entries appended.0 s) in
      let opened = opened_with i key appended.1 (with_entries appended.0 s) in
      let fresh =
        with_index-Good i b key (some appended.1) (with_entries appended.0 s)
          (index_at-with_entries i key appended.0 s ∙ e) g in
      then-Post (λ s'. Good i b s' × ((j : ℕ) → IsOpenAt j begun → IsOpenAt j s')) (Good i b)
        (announce s.suppressed appended.1 begun) _
        (subst
          (λ c.
            Post (λ s'. Good i b s' × ((j : ℕ) → IsOpenAt j begun → IsOpenAt j s'))
              (announce c appended.1 begun))
          (sym g.1) (announce-Good i b appended.1 begun opened fresh))
        λ s' h. stream_delta-Good b appended.1 content s' (h.1 appended.1 opened) h.0

  commit_at-Good :
      (b : Bool) (o : Option ℕ) (key : StateIndexKey) (s : Handling)
      → index_at key s ≡ o
      → Good i b s
      → Post (Good i b) (commit_at w now o key s)
  unfolding commit_at
  commit_at-Good b none key s e g = g
  commit_at-Good b (some index) key s e g =
      then-Post _ (Good i b) (written (commit_entry w s.session.entries index) s) _
        (written-Good i b (commit_entry w s.session.entries index) s g)
        λ s' h.
          subst (λ c. Good i b (told_commit c index (with_index key none s'))) (sym h.0.1)
            (told_commit-Good i b key index s' (h.2 key ∙ e) h.0)

  pub commit_and_clear-Good :
      (b : Bool) (key : StateIndexKey) (s : Handling)
      → Good i b s
      → Post (Good i b) (commit_and_clear w now key s)
  unfolding commit_and_clear
  commit_and_clear-Good b key s g = commit_at-Good b (index_at key s) key s refl g

  stream_segment-Good :
      (b : Bool) (key : StateIndexKey) (entry : SessionEntry) (content : Text) (s : Handling)
      → Good i b s
      → Post (Good i b) (stream_segment w now key entry content s)
  unfolding stream_segment
  stream_segment-Good b key entry content s g =
      stream_at-Good b (index_at key s) key entry content s refl g

  handle_text_segment-Good :
      (b : Bool) (segment : ParsedSegment) (s : Handling)
      → Good i b s
      → Post (Good i b) (handle_text_segment w now segment s)
  unfolding handle_text_segment
  handle_text_segment-Good b segment s g = by_type segment.type
    where
      by_type :
          (type : SegmentType)
          → Post (Good i b) (elim type [
            | thinking_segment ↦
                stream_segment w now thinking_key (create_thinking_entry now) segment.content s
            | text_segment ↦ commit_and_clear w now thinking_key s >= λ s'.
                stream_segment w now assistant_key
                  (create_assistant_entry now s'.session.active_persona)
                  segment.content
                  s'
          ])
      by_type thinking_segment = stream_segment-Good b thinking_key _ segment.content s g
      by_type text_segment =
          then-Post (Good i b) (Good i b) (commit_and_clear w now thinking_key s) _
            (commit_and_clear-Good b thinking_key s g)
            λ s' h. stream_segment-Good b assistant_key _ segment.content s' h

  pub handle_text_segments-Good :
      (b : Bool) (segments : List ParsedSegment) (s : Handling)
      → Good i b s
      → Post (Good i b) (handle_text_segments w now segments s)
  unfolding handle_text_segments
  handle_text_segments-Good b [] s g = g
  handle_text_segments-Good b (segment ∷ segments) s g =
      then-Post (Good i b) (Good i b) (handle_text_segment w now segment s) _
        (handle_text_segment-Good b segment s g) λ s' h. handle_text_segments-Good b segments s' h
