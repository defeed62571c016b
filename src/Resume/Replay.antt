-- ===== src/Resume/Replay.antt =====
-- transport/ws/sessionResume.ts: what a client that rejoins a session is shown of it.
use halengine.Prelude.{
  ℕ, zero, suc, ◌+◌, ◌<◌, ◌≡◌, refl, sym, ap, subst, ◌∙◌, Text, text, text_eq, text_eq_refl,
  text_eq→eq, true, false, ◌||◌, Option, none, some, List, [], ◌∷◌, get_elem?, All, if◌then◌else◌,
  if-either, ◌==◌, ==_iff, Bool-cases, inl, inr, arith, Json, boolean, Fields, empty, field,
}
use halengine.Session.{SessionEntry, user, assistant, thinking, tool, other, ChatSession}
use halengine.Messages.{OutgoingMessage, entry_upsert, entry_skip}
use halengine.Handler.Words.{words_in, replay_frame, replay, words, upsert-same}
use halengine.Frames.{member}
use halengine.Resume.{
  is_suppressed, is_hidden, is_streaming, cut_off, replay_entry, replay_from, replay_entries,
  with_member, is_true, is_truthy,
}

-- The model's words that an entry shows.
abbrev pub shown_words : Option SessionEntry → Text
shown_words none = []
shown_words (some entry) = if is_hidden entry then [] else words_in entry

words_in-cut_off : (entry : SessionEntry) → words_in (cut_off entry) ≡ words_in entry
unfolding words_in cut_off
words_in-cut_off (user e) = refl
words_in-cut_off (assistant e) = refl
words_in-cut_off (thinking e) = refl
words_in-cut_off (tool e) = refl
words_in-cut_off (other e) = refl

replay_entry-other :
    (i index : ℕ) (entry : SessionEntry) (shown : Text)
    → (index == i) ≡ false
    → replay_frame i shown (replay_entry index entry) ≡ shown
unfolding replay_frame replay_entry
replay_entry-other i index entry shown d =
    if-either (λ f. replay_frame i shown f ≡ shown) (is_hidden entry) (λ _. refl)
      (λ _.
        if-either (λ f. replay_frame i shown f ≡ shown) (is_streaming entry) (λ _. rw d refl)
          (λ _. rw d refl))

replay_entry-same :
    (i : ℕ) (entry : SessionEntry)
    → replay_frame i [] (replay_entry i entry) ≡ shown_words (some entry)
unfolding replay_frame replay_entry
replay_entry-same i entry = elim (Bool-cases (is_hidden entry)) [
  | inl h ↦ rw (replay_entry, h) refl
  | inr v ↦
      rw (replay_entry, v)
        (if-either (λ f. replay_frame i [] f ≡ words_in entry) (is_streaming entry)
          (λ _. upsert-same i i (cut_off entry) [] ((==_iff i i).1 refl) ∙ words_in-cut_off entry)
          (λ _. upsert-same i i entry [] ((==_iff i i).1 refl)))
]

later_entries :
    (i index : ℕ) (entries : List SessionEntry) (shown : Text)
    → i < index
    → replay i shown (replay_from index entries) ≡ shown
unfolding replay replay_from
later_entries i index [] shown h = refl
later_entries i index (entry ∷ entries) shown h =
    ap (λ t. replay i t (replay_from (suc index) entries))
      (replay_entry-other i index entry shown (ground (arith, h)))
    ∙ later_entries i (suc index) entries shown (omega arith)

replay_from-shown :
    (i k index : ℕ) (entries : List SessionEntry)
    → index + k ≡ i
    → replay i [] (replay_from index entries) ≡ shown_words (get_elem? entries k)
unfolding replay replay_from
replay_from-shown i k index [] e = refl
replay_from-shown i zero index (entry ∷ entries) e =
    let same : i ≡ index = omega (arith, e) in
    ap (λ t. replay i t (replay_from (suc index) entries))
      (subst (λ z. replay_frame i [] (replay_entry z entry) ≡ shown_words (some entry)) same
        (replay_entry-same i entry))
    ∙ later_entries i (suc index) entries (shown_words (some entry)) (omega (arith, e))
replay_from-shown i (suc k) index (entry ∷ entries) e =
    ap (λ t. replay i t (replay_from (suc index) entries))
      (replay_entry-other i index entry [] (ground (arith, e)))
    ∙ replay_from-shown i k (suc index) entries (omega (arith, e))

member-with_self :
    (fields : Fields) (key : Text) (v : Json) → member (with_member fields key v) key ≡ v
unfolding member with_member
member-with_self empty key v = rw (text_eq_refl key) refl
member-with_self (field k w fields) key v = elim (Bool-cases (text_eq k key)) [
  | inl e ↦ rw (e, with_member, member, e) refl
  | inr e ↦ rw (e, with_member, member, e) (member-with_self fields key v)
]

member-with_ne :
    (fields : Fields) (key k : Text) (v : Json)
    → text_eq key k ≡ false
    → member (with_member fields key v) k ≡ member fields k
unfolding member with_member
member-with_ne empty key k v d = rw (d) refl
member-with_ne (field k' w fields) key k v d = elim (Bool-cases (text_eq k' key)) [
  | inl e ↦
      let same : text_eq k' k ≡ false =
        subst (λ z. text_eq z k ≡ false) (sym (text_eq→eq k' key e)) d in
      rw (e, with_member, member, same) refl
  | inr e ↦ rw (e, with_member, member, member-with_ne fields key k v d) refl
]

is_streaming-cut_off : (entry : SessionEntry) → is_streaming (cut_off entry) ≡ false
unfolding is_streaming cut_off
is_streaming-cut_off (user e) = refl
is_streaming-cut_off (assistant e) = refl
is_streaming-cut_off (thinking e) = refl
is_streaming-cut_off (tool e) = refl
is_streaming-cut_off (other e) = ap is_truthy (
    member-with_ne (with_member e.fields (text "isStreaming") (boolean false)) (text "truncated")
      (text "isStreaming") (boolean true) refl
    ∙ member-with_self e.fields (text "isStreaming") (boolean false))

is_hidden-cut_off : (entry : SessionEntry) → is_hidden (cut_off entry) ≡ is_hidden entry
unfolding is_hidden is_suppressed cut_off
is_hidden-cut_off (user e) = refl
is_hidden-cut_off (assistant e) = refl
is_hidden-cut_off (thinking e) = refl
is_hidden-cut_off (tool e) = refl
is_hidden-cut_off (other e) =
    ap (λ j. e.cleared || is_true j)
      (member-with_ne (with_member e.fields (text "isStreaming") (boolean false)) (text "truncated")
          (text "suppressed") (boolean true) refl
        ∙ member-with_ne e.fields (text "isStreaming") (text "suppressed") (boolean false) refl)

-- A frame that leaves the client waiting for nothing and shows it nothing hidden.
abbrev pub IsSettled : OutgoingMessage → Type 0
IsSettled (entry_skip index) = Unit
IsSettled (entry_upsert index entry) = (is_hidden entry ≡ false) × (is_streaming entry ≡ false)
IsSettled _ = ⊥

replay_entry-IsSettled : (index : ℕ) (entry : SessionEntry) → IsSettled (replay_entry index entry)
unfolding replay_entry
replay_entry-IsSettled index entry =
    if-either IsSettled (is_hidden entry) (λ _. tt)
      (λ v.
        if-either IsSettled (is_streaming entry)
          (λ _. (is_hidden-cut_off entry ∙ v, is_streaming-cut_off entry)) (λ o. (v, o)))

replay_from-IsSettled :
    (index : ℕ) (entries : List SessionEntry) → All IsSettled (replay_from index entries)
unfolding replay_from
replay_from-IsSettled index [] = tt
replay_from-IsSettled index (entry ∷ entries) =
    (replay_entry-IsSettled index entry, replay_from-IsSettled (suc index) entries)

-- The entry that a client holds at an index, after a frame.
unfoldable pub held_after : ℕ → Option SessionEntry → OutgoingMessage → Option SessionEntry
held_after i held (entry_upsert index entry) = if index == i then some entry else held
held_after i held (entry_skip index) = if index == i then none else held
held_after i held frame = held

unfoldable pub held_at : ℕ → Option SessionEntry → List OutgoingMessage → Option SessionEntry
unfolding held_after
held_at i held [] = held
held_at i held (frame ∷ frames) = held_at i (held_after i held frame) frames

-- What a client is to hold of an entry: nothing hidden, and nothing that still streams.
abbrev pub seen_of : Option SessionEntry → Option SessionEntry
seen_of none = none
seen_of (some entry) =
    if is_hidden entry then none else some (if is_streaming entry then cut_off entry else entry)

held_after-other :
    (i index : ℕ) (held : Option SessionEntry) (entry : SessionEntry)
    → (index == i) ≡ false
    → held_after i held (replay_entry index entry) ≡ held
unfolding held_after replay_entry
held_after-other i index held entry d =
    if-either (λ f. held_after i held f ≡ held) (is_hidden entry) (λ _. rw d refl)
      (λ _.
        if-either (λ f. held_after i held f ≡ held) (is_streaming entry) (λ _. rw d refl)
          (λ _. rw d refl))

held_after-same :
    (i : ℕ) (entry : SessionEntry) → held_after i none (replay_entry i entry) ≡ seen_of (some entry)
unfolding held_after replay_entry
held_after-same i entry = elim (Bool-cases (is_hidden entry)) [
  | inl h ↦ rw (replay_entry, h, (==_iff i i).1 refl) refl
  | inr v ↦ elim (Bool-cases (is_streaming entry)) [
    | inl s ↦ rw (replay_entry, v, s, (==_iff i i).1 refl) refl
    | inr s ↦ rw (replay_entry, v, s, (==_iff i i).1 refl) refl
  ]
]

later_held :
    (i index : ℕ) (held : Option SessionEntry) (entries : List SessionEntry)
    → i < index
    → held_at i held (replay_from index entries) ≡ held
unfolding held_at replay_from
later_held i index held [] h = refl
later_held i index held (entry ∷ entries) h =
    ap (λ t. held_at i t (replay_from (suc index) entries))
      (held_after-other i index held entry (ground (arith, h)))
    ∙ later_held i (suc index) held entries (omega arith)

replay_from-held :
    (i k index : ℕ) (entries : List SessionEntry)
    → index + k ≡ i
    → held_at i none (replay_from index entries) ≡ seen_of (get_elem? entries k)
unfolding held_at replay_from
replay_from-held i k index [] e = refl
replay_from-held i zero index (entry ∷ entries) e =
    let same : i ≡ index = omega (arith, e) in
    ap (λ t. held_at i t (replay_from (suc index) entries))
      (subst (λ z. held_after i none (replay_entry z entry) ≡ seen_of (some entry)) same
        (held_after-same i entry))
    ∙ later_held i (suc index) (seen_of (some entry)) entries (omega (arith, e))
replay_from-held i (suc k) index (entry ∷ entries) e =
    ap (λ t. held_at i t (replay_from (suc index) entries))
      (held_after-other i index none entry (ground (arith, e)))
    ∙ replay_from-held i k (suc index) entries (omega (arith, e))

-- A client that rejoins a session holds, at each index, the entry of the session there, of whatever role,
-- cut off if it streams to another socket, and nothing where the entry was suppressed or cleared or where
-- there is none; it is shown the words of each answer and thought that is not hidden. No frame is of a
-- hidden entry but a skip, and none leaves the client waiting on an entry that streams.
pub replay_entries-shown :
    (session : ChatSession) (i : ℕ)
    → (held_at i none (replay_entries session) ≡ seen_of (get_elem? session.entries i))
      × (words i (replay_entries session) ≡ shown_words (get_elem? session.entries i))
      × All IsSettled (replay_entries session)
unfolding replay_entries words
replay_entries-shown session i = (
  replay_from-held i i 0 session.entries (omega arith),
  replay_from-shown i i 0 session.entries (omega arith),
  replay_from-IsSettled 0 session.entries,
)
