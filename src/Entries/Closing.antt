-- ===== src/Entries/Closing.antt =====
-- closeTurn at the end of a turn: the open entries, and those beyond the content bound.
use halengine.Prelude.{
  ℕ, zero, suc, ◌-◌, Bool, true, false, ◌≡◌, refl, ap, ◌∙◌, Option, none, some, List, [], ◌∷◌, map,
  All, length, get_elem?, arith, ltb, Bool-cases, Option-cases, inl, inr, if◌then◌else◌,
}
use mathlib.Core.Option
use halengine.Session.{SessionEntry, user, assistant, thinking, tool, other, is_cleared, Redactor}
use halengine.Entries.{
  is_open, clear, kept_or_cleared, redacted, EntryWriter, stop_streaming, closed, clear_first,
  clear_beyond, close_turn,
}

-- A redactor that does not set `isStreaming` on what it answers.
abbrev pub ClosesWhatItReturns : Option Redactor → Type 0
ClosesWhatItReturns none = Unit
ClosesWhatItReturns (some redact) =
    (e r : SessionEntry) → redact e ≡ some r → is_open e ≡ false → is_open r ≡ false

abbrev pub IsClosed : SessionEntry → Type 0
IsClosed e = is_open e ≡ false

clear-IsClosed : (e : SessionEntry) → IsClosed e → IsClosed (clear e)
unfolding clear is_open
clear-IsClosed (other e) h = ground arith
clear-IsClosed (assistant e) h = h
clear-IsClosed (thinking e) h = h
clear-IsClosed (user e) h = refl
clear-IsClosed (tool e) h = refl

kept-IsClosed :
    (e r : SessionEntry) → IsClosed e → IsClosed r → IsClosed (kept_or_cleared e (some r))
unfolding kept_or_cleared
kept-IsClosed e r h k = ground (arith, clear-IsClosed e h)

kept_or_cleared-IsClosed :
    (f : Redactor) (e : SessionEntry)
    → ClosesWhatItReturns (some f)
    → IsClosed e
    → IsClosed (kept_or_cleared e (f e))
kept_or_cleared-IsClosed f e c h = elim (Option-cases (f e)) [
  | inl n ↦ rw n (unfold kept_or_cleared in clear-IsClosed e h)
  | inr (r, s) ↦ rw s (kept-IsClosed e r h (c e r s h))
]

redacted-IsClosed :
    (f : Option Redactor) (e : SessionEntry)
    → ClosesWhatItReturns f
    → IsClosed e
    → IsClosed (redacted f e)
unfolding redacted
redacted-IsClosed none e c h = h
redacted-IsClosed (some f) (user e) c h = h
redacted-IsClosed (some f) (assistant e) c h = kept_or_cleared-IsClosed f (assistant e) c h
redacted-IsClosed (some f) (thinking e) c h = kept_or_cleared-IsClosed f (thinking e) c h
redacted-IsClosed (some f) (tool e) c h = kept_or_cleared-IsClosed f (tool e) c h
redacted-IsClosed (some f) (other e) c h = kept_or_cleared-IsClosed f (other e) c h

stop_streaming-IsClosed : (e : SessionEntry) → IsClosed (stop_streaming e)
unfolding stop_streaming is_open
stop_streaming-IsClosed (assistant e) = refl
stop_streaming-IsClosed (thinking e) = refl
stop_streaming-IsClosed _ = refl

closed-IsClosed :
    (w : EntryWriter) (e : SessionEntry)
    → ClosesWhatItReturns w.redact_entry
    → IsClosed (closed w e)
unfolding closed
closed-IsClosed w e c = elim (Bool-cases (is_open e)) [
  | inl h ↦ rw (h, closed) (redacted-IsClosed w.redact_entry _ c (stop_streaming-IsClosed _))
  | inr h ↦ rw (h, closed) h
]

clear_first-IsClosed :
    (n : ℕ) (entries : List SessionEntry)
    → All IsClosed entries
    → All IsClosed (clear_first n entries)
unfolding clear_first
clear_first-IsClosed zero entries h = h
clear_first-IsClosed (suc n) [] h = tt
clear_first-IsClosed (suc n) (e ∷ entries) (h, hs) =
    (ground (arith, clear-IsClosed e h), clear_first-IsClosed n entries hs)

map-closed-IsClosed :
    (w : EntryWriter) (entries : List SessionEntry)
    → ClosesWhatItReturns w.redact_entry
    → All IsClosed (map (closed w) entries)
map-closed-IsClosed w [] c = tt
map-closed-IsClosed w (e ∷ entries) c = (closed-IsClosed w e c, map-closed-IsClosed w entries c)

clear_beyond-IsClosed :
    (entries : List SessionEntry) (kept : Option ℕ)
    → All IsClosed entries
    → All IsClosed (clear_beyond entries kept)
unfolding clear_beyond
clear_beyond-IsClosed entries none h = h
clear_beyond-IsClosed entries (some kept) h = clear_first-IsClosed (length entries - kept) entries h

-- After the end of a turn no entry is streaming, under a redactor that answers no streaming entry
-- for one that is not streaming.
pub close_turn-IsClosed :
    (w : EntryWriter) (entries : List SessionEntry)
    → ClosesWhatItReturns w.redact_entry
    → All IsClosed (close_turn w entries)
unfolding close_turn
close_turn-IsClosed w entries c =
    clear_beyond-IsClosed (map (closed w) entries) w.max_content_entries
      (map-closed-IsClosed w entries c)

map-closed_of_IsClosed :
    (w : EntryWriter) (entries : List SessionEntry)
    → All IsClosed entries
    → map (closed w) entries ≡ entries
unfolding closed
map-closed_of_IsClosed w [] h = refl
map-closed_of_IsClosed w (e ∷ entries) (h, hs) =
    rw h (ap (◌∷◌ e) (map-closed_of_IsClosed w entries hs))

is_cleared-clear : (e : SessionEntry) → is_cleared (clear e) ≡ true
unfolding clear
is_cleared-clear (other e) = ground arith
is_cleared-clear (user e) = refl
is_cleared-clear _ = refl

clear_first-clear_first :
    (n : ℕ) (entries : List SessionEntry)
    → clear_first n (clear_first n entries) ≡ clear_first n entries
unfolding clear_first
clear_first-clear_first zero entries = refl
clear_first-clear_first (suc n) [] = refl
clear_first-clear_first (suc n) (e ∷ entries) =
    ground (arith, is_cleared-clear e, clear_first-clear_first n entries)

length-clear_first :
    (n : ℕ) (entries : List SessionEntry) → length (clear_first n entries) ≡ length entries
unfolding clear_first
length-clear_first zero entries = refl
length-clear_first (suc n) [] = refl
length-clear_first (suc n) (e ∷ entries) = ap suc (length-clear_first n entries)

-- Whether the bound has emptied the entry at index `i` of `n` entries.
abbrev pub beyond_bound : Option ℕ → ℕ → ℕ → Bool
beyond_bound none n i = false
beyond_bound (some kept) n i = ltb i (n - kept)

abbrev pub emptied : SessionEntry → SessionEntry
emptied e = if is_cleared e then e else clear e

map-not_below :
    (o : Option SessionEntry) (i : ℕ) → o ≡ Option.map (λ e. if ltb i 0 then emptied e else e) o
map-not_below none i = refl
map-not_below (some e) i = ground arith

ltb-suc : (i n : ℕ) → ltb (suc i) (suc n) ≡ ltb i n
ltb-suc i n = ground arith

get_elem?-clear_first :
    (n : ℕ) (entries : List SessionEntry) (i : ℕ)
    → get_elem? (clear_first n entries) i
      ≡ Option.map (λ e. if ltb i n then emptied e else e) (get_elem? entries i)
unfolding clear_first
get_elem?-clear_first zero entries i = map-not_below (get_elem? entries i) i
get_elem?-clear_first (suc n) [] i = refl
get_elem?-clear_first (suc n) (e ∷ entries) zero = ground arith
get_elem?-clear_first (suc n) (e ∷ entries) (suc i) =
    rw (ltb-suc i n) (get_elem?-clear_first n entries i)

length-map-closed :
    (w : EntryWriter) (entries : List SessionEntry)
    → length (map (closed w) entries) ≡ length entries
length-map-closed w [] = refl
length-map-closed w (e ∷ entries) = ap suc (length-map-closed w entries)

get_elem?-map-closed :
    (w : EntryWriter) (entries : List SessionEntry) (i : ℕ)
    → get_elem? (map (closed w) entries) i ≡ Option.map (closed w) (get_elem? entries i)
get_elem?-map-closed w [] i = refl
get_elem?-map-closed w (e ∷ entries) zero = refl
get_elem?-map-closed w (e ∷ entries) (suc i) = get_elem?-map-closed w entries i

map-map_option :
    (f g : SessionEntry → SessionEntry) (o : Option SessionEntry)
    → Option.map g (Option.map f o) ≡ Option.map (λ e. g (f e)) o
map-map_option f g none = refl
map-map_option f g (some e) = refl

-- The end of a turn closes the entry at each index, and then empties it exactly if it lies beyond
-- the content bound, counted from the newest entry; an entry that was emptied before is left alone.
pub get_elem?-close_turn :
    (w : EntryWriter) (entries : List SessionEntry) (i : ℕ)
    → get_elem? (close_turn w entries) i
      ≡ Option.map
          (λ e.
            if beyond_bound w.max_content_entries (length entries) i
            then emptied (closed w e)
            else closed w e)
          (get_elem? entries i)
unfolding close_turn
get_elem?-close_turn w entries i = at_bound w.max_content_entries
  where
    es : List SessionEntry
    es = map (closed w) entries

    at_bound :
        (kept : Option ℕ)
        → get_elem? (clear_beyond es kept) i
          ≡ Option.map
              (λ e.
                if beyond_bound kept (length entries) i then emptied (closed w e) else closed w e)
              (get_elem? entries i)
    at_bound none = unfold clear_beyond in get_elem?-map-closed w entries i
    at_bound (some kept) =
        unfold clear_beyond in
        get_elem?-clear_first (length es - kept) es i
        ∙ rw (length-map-closed w entries, get_elem?-map-closed w entries i)
            (map-map_option (closed w) _ (get_elem? entries i))

clear_beyond-clear_beyond :
    (entries : List SessionEntry) (kept : Option ℕ)
    → clear_beyond (clear_beyond entries kept) kept ≡ clear_beyond entries kept
unfolding clear_beyond
clear_beyond-clear_beyond entries none = refl
clear_beyond-clear_beyond entries (some kept) =
    rw (length-clear_first (length entries - kept) entries)
      (clear_first-clear_first (length entries - kept) entries)

-- Ending a turn twice is ending it once, under a redactor that answers no streaming entry for one
-- that is not streaming.
pub close_turn_idempotent :
    (w : EntryWriter) (entries : List SessionEntry)
    → ClosesWhatItReturns w.redact_entry
    → close_turn w (close_turn w entries) ≡ close_turn w entries
close_turn_idempotent w entries c =
    let once = close_turn-IsClosed w entries c in
    unfold close_turn in
    ap (λ es. clear_beyond es w.max_content_entries)
      (map-closed_of_IsClosed w (close_turn w entries) once)
    ∙ clear_beyond-clear_beyond (map (closed w) entries) w.max_content_entries
