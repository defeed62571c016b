-- ===== src/Handler/Words.antt =====
-- What a client that replays the frames of a turn shows of the model's words, entry by entry.
use halengine.Prelude.{
  ℕ, Text, true, false, ◌≡◌, refl, ◌∙◌, inl, inr, List, [], ◌∷◌, ◌++◌, ◌==◌, if◌then◌else◌,
  Bool-cases, All,
}
use halengine.Session.{SessionEntry, user, assistant, thinking, tool, other}
use halengine.Messages.{
  OutgoingMessage, connected, conversation_list, entry_upsert, entry_delta, entry_commit,
  entry_skip, error, pong, stream_end,
}
use halengine.Handler.{blank}

-- The model's words in an entry.
unfoldable pub words_in : SessionEntry → Text
words_in (assistant e) = e.content
words_in (thinking e) = e.content
words_in entry = []

-- A frame of the entry at `i`, replayed on the words shown so far.
unfoldable pub replay_frame : ℕ → Text → OutgoingMessage → Text
unfolding words_in
replay_frame i shown (entry_upsert index entry) = if index == i then words_in entry else shown
replay_frame i shown (entry_delta index delta) = if index == i then shown ++ delta else shown
replay_frame i shown frame = shown

unfoldable pub replay : ℕ → Text → List OutgoingMessage → Text
unfolding replay_frame
replay i shown [] = shown
replay i shown (frame ∷ frames) = replay i (replay_frame i shown frame) frames

unfoldable pub words : ℕ → List OutgoingMessage → Text
unfolding replay
words i frames = replay i [] frames

replay-append :
    (i : ℕ) (shown : Text) (frames more : List OutgoingMessage)
    → replay i shown (frames ++ more) ≡ replay i (replay i shown frames) more
unfolding replay
replay-append i shown [] more = refl
replay-append i shown (frame ∷ frames) more =
    replay-append i (replay_frame i shown frame) frames more

-- One more frame, replayed last.
pub words-send :
    (i : ℕ) (frames : List OutgoingMessage) (frame : OutgoingMessage)
    → words i (frames ++ frame ∷ []) ≡ replay_frame i (words i frames) frame
unfolding words
words-send i frames frame = unfold replay in replay-append i [] frames (frame ∷ [])

-- A frame that carries none of the model's words.
abbrev pub IsWordless : OutgoingMessage → Type 0
IsWordless (entry_upsert index entry) = words_in entry ≡ []
IsWordless (entry_delta index delta) = ⊥
IsWordless frame = Unit

-- Wordless frames leave an empty entry empty.
pub replay_wordless :
    (i : ℕ) (frame : OutgoingMessage) (shown : Text)
    → IsWordless frame
    → shown ≡ []
    → replay_frame i shown frame ≡ []
unfolding replay_frame
replay_wordless i (entry_upsert index entry) shown h e = elim (Bool-cases (index == i)) [
  | inl same ↦ rw same h
  | inr differs ↦ rw differs e
]
replay_wordless i (entry_delta index delta) shown h e = absurd h
replay_wordless i (entry_commit index) shown h e = e
replay_wordless i (entry_skip index) shown h e = e
replay_wordless i (connected m) shown h e = e
replay_wordless i (conversation_list cs) shown h e = e
replay_wordless i (error code message after) shown h e = e
replay_wordless i (pong n) shown h e = e
replay_wordless i stream_end shown h e = e

pub words-wordless :
    (i : ℕ) (frames more : List OutgoingMessage)
    → All IsWordless more
    → words i frames ≡ []
    → words i (frames ++ more) ≡ []
unfolding words
words-wordless i frames more h e = replay-append i [] frames more ∙ all_wordless more _ h e
  where
    all_wordless :
        (ms : List OutgoingMessage) (shown : Text)
        → All IsWordless ms
        → shown ≡ []
        → replay i shown ms ≡ []
    all_wordless [] shown h e = e
    all_wordless (m ∷ ms) shown (h, hs) e = all_wordless ms _ hs (replay_wordless i m shown h e)

-- A frame of another entry changes nothing.
pub upsert-other :
    (i index : ℕ) (entry : SessionEntry) (shown : Text)
    → (index == i) ≡ false
    → replay_frame i shown (entry_upsert index entry) ≡ shown
unfolding replay_frame
upsert-other i index entry shown e = rw e refl

pub upsert-same :
    (i index : ℕ) (entry : SessionEntry) (shown : Text)
    → (index == i) ≡ true
    → replay_frame i shown (entry_upsert index entry) ≡ words_in entry
unfolding replay_frame
upsert-same i index entry shown e = rw e refl

pub delta-other :
    (i index : ℕ) (delta shown : Text)
    → (index == i) ≡ false
    → replay_frame i shown (entry_delta index delta) ≡ shown
unfolding replay_frame
delta-other i index delta shown e = rw e refl

pub words_in-blank : (entry : SessionEntry) → words_in (blank entry) ≡ []
unfolding words_in blank
words_in-blank (user e) = refl
words_in-blank (assistant e) = refl
words_in-blank (thinking e) = refl
words_in-blank (tool e) = refl
words_in-blank (other e) = refl
