-- ===== src/Handler/Hiding.antt =====
-- A whole turn whose output a tool suppresses.
use halengine.Prelude.{
  ℕ, Text, Bool, true, false, ◌≡◌, refl, subst, ◌⊎◌, inl, inr, Option, none, some, List, [], ◌∷◌,
  ◌++◌, All,
}
use halengine.Thinking.{push}
use halengine.Session.{ChatSession}
use halengine.Entries.{EntryWriter, create_user_entry}
use halengine.Messages.{entry_upsert}
use halengine.Ai.{MessageChunk, text_chunk, tool_use, tool_result, suppress_output, stop}
use halengine.Handler.{
  Handling, thinking_key, assistant_key, ◌>=◌, process_tool_result_chunk, Event, came, left,
  commit_open_entries, process_text_chunk, flush_held_text, process_tool_use_chunk,
  process_suppress_chunk, process_stop_chunk, process_chunk, close_cut_off, finish, process_event,
  process_events, start_handling, handle_user_message,
}
use halengine.Handler.Words.{words, words_in, IsWordless, words-wordless}
use halengine.Handler.Tracking.{Post, then-Post, Good}
use halengine.Handler.Retraction.{
  weaken-Post, flush_held_text-Good, process_tool_use_chunk-Good, close_at-Good,
  commit_open_entries-Good, parsed-Good, process_suppress_chunk-Good,
}

-- What a tool sends to the client carries none of the model's words.
abbrev pub IsPlain : Event → Type 0
IsPlain (came (tool_result messages)) = All IsWordless messages
IsPlain event = Unit

chain-Post :
    (Q R : Handling → Type 0) (o : Option Handling) (f g : Handling → Option Handling)
    → Post Q o
    → ((s : Handling) → Q s → Post R (f s >= g))
    → Post R (o >= f >= g)
chain-Post Q R none f g q k = tt
chain-Post Q R (some s) f g q k = k s q

module _ (i : ℕ) (w : EntryWriter) (now : Text) where
  process_chunk-Good :
      (b : Bool) (chunk : MessageChunk) (s : Handling)
      → IsPlain (came chunk)
      → Good i b s
      → Post (λ s'. Good i b s' ⊎ Good i true s') (process_chunk w now chunk s)
  unfolding process_chunk process_text_chunk process_tool_result_chunk process_stop_chunk
  process_chunk-Good b (text_chunk text) s h g =
      weaken-Post (Good i b) _ (process_text_chunk w now text s)
        (parsed-Good i w now b (push s.parser text).0 (record s { parser = (push s.parser text).1 })
          g)
        λ s' k. inl k
  process_chunk-Good b (tool_use tc) s h g =
      weaken-Post (Good i b) _ (process_tool_use_chunk w now tc s)
        (process_tool_use_chunk-Good i w now b tc s g) λ s' k. inl k
  process_chunk-Good b (tool_result messages) s h (inl e, f) =
      inl (inl (words-wordless i s.sent messages h e), f)
  process_chunk-Good b (tool_result messages) s h (inr t, f) = inl (inr t, f)
  process_chunk-Good b suppress_output s h g =
      weaken-Post (Good i true) _ (process_suppress_chunk w now s)
        (process_suppress_chunk-Good i w now b s g) λ s' k. inr k
  process_chunk-Good b (stop reason usage) s h g =
      then-Post (Good i b) _ (flush_held_text w now s) _ (flush_held_text-Good i w now b s g)
        λ s' h'.
          weaken-Post _ _ (commit_open_entries w now s') (commit_open_entries-Good i w now b s' h')
            λ s'' k. inl k.0

  process_event-Good :
      (b : Bool) (event : Event) (s : Handling)
      → IsPlain event
      → Good i b s
      → Post (λ s'. Good i b s' ⊎ Good i true s') (process_event w now event s)
  unfolding process_event
  process_event-Good b (came chunk) s h g = process_chunk-Good b chunk s h g
  process_event-Good b (left change) s h g = inl g

  finish-Good : (b : Bool) (s : Handling) → Good i b s → Post (Good i b) (finish w now s)
  unfolding finish close_cut_off
  finish-Good b s g =
      then-Post (Good i b) (Good i b) (flush_held_text w now s >= close_cut_off w now thinking_key)
        _
        (then-Post (Good i b) (Good i b) (flush_held_text w now s) _
          (flush_held_text-Good i w now b s g)
          λ s' h. close_at-Good i w now b s'.thinking_index thinking_key s' refl h)
        λ s' h. close_at-Good i w now b s'.assistant_index assistant_key s' refl h

  -- Once suppressed, a turn shows no words at the index, to its end.
  hidden_to_end :
      (events : List Event) (s : Handling)
      → All IsPlain events
      → Good i true s
      → Post (λ s'. words i s'.sent ≡ []) (process_events w now events s >= finish w now)
  unfolding process_events
  hidden_to_end [] s h g =
      weaken-Post (Good i true) _ (finish w now s) (finish-Good true s g) shown_nothing
    where
      shown_nothing : (s' : Handling) → Good i true s' → words i s'.sent ≡ []
      shown_nothing s' (inl e, f) = e
      shown_nothing s' (inr (n, t), f) = absurd cc
  hidden_to_end (event ∷ events) s (h, hs) g =
      chain-Post (λ s'. Good i true s' ⊎ Good i true s') _ (process_event w now event s) _ _
        (process_event-Good true event s h g)
        λ s' e. elim e [
          | inl k ↦ hidden_to_end events s' hs k
          | inr k ↦ hidden_to_end events s' hs k
        ]

  suppressed_now :
      (b : Bool) (s : Handling)
      → Good i b s
      → Post (Good i true) (process_event w now (came suppress_output) s)
  unfolding process_event process_chunk
  suppressed_now b s g = process_suppress_chunk-Good i w now b s g

  suppressed_later :
      (b : Bool) (before after : List Event) (s : Handling)
      → All IsPlain before
      → All IsPlain after
      → Good i b s
      → Post
          (λ s'. words i s'.sent ≡ [])
          (process_events w now (before ++ came suppress_output ∷ after) s >= finish w now)
  unfolding process_events
  suppressed_later b [] after s h k g =
      chain-Post (Good i true) _ (process_event w now (came suppress_output) s) _ _
        (suppressed_now b s g) λ s' g'. hidden_to_end after s' k g'
  suppressed_later b (event ∷ before) after s (h, hs) k g =
      chain-Post (λ s'. Good i b s' ⊎ Good i true s') _ (process_event w now event s) _ _
        (process_event-Good b event s h g)
        λ s' e. elim e [
          | inl g' ↦ suppressed_later b before after s' hs k g'
          | inr g' ↦ suppressed_later true before after s' hs k g'
        ]

  started-Good :
      (content : Text) (session : ChatSession) → Good i false (start_handling w now content session)
  unfolding start_handling create_user_entry
  started-Good content session = (
    inl (
        words-wordless i [] (entry_upsert _ (create_user_entry now content) ∷ [])
          (unfold words_in in refl, tt) (unfold words in refl)),
    refl,
  )

-- Once a tool has suppressed the output of a turn, a client that replays the frames of the whole turn
-- shows none of the model's words at any index: what it was sent before is blanked and nothing comes
-- after, whatever the orchestrator writes to the session meanwhile, if the tools' own frames carry none.
pub suppression_hides :
    (w : EntryWriter) (now content : Text) (session : ChatSession) (before after : List Event)
    (s : Handling) (i : ℕ)
    → All IsPlain before
    → All IsPlain after
    → handle_user_message w now content session (before ++ came suppress_output ∷ after) ≡ some s
    → words i s.sent ≡ []
unfolding handle_user_message
suppression_hides w now content session before after s i h k e =
    subst (Post (λ s'. words i s'.sent ≡ [])) e (
      suppressed_later i w now false before after (start_handling w now content session) h k
        (started-Good i w now content session))
