-- ===== src/Handler/Valid.antt =====
-- Indices that have an entry, and the writes at them.
use halengine.Prelude.{
  ℕ, zero, suc, ◌≤◌, ◌<◌, Bool, true, false, ◌≡◌, refl, ap, Option, none, some, List, [], ◌∷◌,
  get_elem?, set, All, length, length-set, arith,
}
use mathlib.Core.Option
use halengine.Session.{SessionEntry}
use halengine.Entries.{update_at}
use halengine.Messages.{OutgoingMessage, entry_upsert}
use halengine.Handler.{
  Handling, StateIndexKey, thinking_key, assistant_key, index_at, ◌>=◌, send, send_unless, written,
  upsert, blank,
}

-- A step that does not throw, and what holds of the state that it leaves.
abbrev pub Sure : (Handling → Type 0) → Option Handling → Type 0
Sure P none = ⊥
Sure P (some s) = P s

pub then-Sure :
    (P Q : Handling → Type 0) (o : Option Handling) (f : Handling → Option Handling)
    → Sure P o
    → ((s : Handling) → P s → Sure Q (f s))
    → Sure Q (o >= f)
then-Sure P Q none f p k = absurd p
then-Sure P Q (some s) f p k = k s p

abbrev pub size : Handling → ℕ
size s = length s.session.entries

abbrev pub IndexBelow : ℕ → Option ℕ → Type 0
IndexBelow n none = Unit
IndexBelow n (some j) = j < n

-- Every index that the stream state holds has an entry, of at least so many.
pub record Valid (n : ℕ) (s : Handling) : Type 0 where
  pub thinking_below : IndexBelow n s.thinking_index
  pub assistant_below : IndexBelow n s.assistant_index
  pub blankable_below : All (λ j. j < n) s.blankable_indices
  pub room : n ≤ size s

pub at_key :
    (n : ℕ) (key : StateIndexKey) (s : Handling) → Valid n s → IndexBelow n (index_at key s)
at_key n thinking_key s v = v.thinking_below
at_key n assistant_key s v = v.assistant_below

get_elem?-below :
    {A : Type 0} (xs : List A) (i : ℕ) → i < length xs → (a : A) × (get_elem? xs i ≡ some a)
get_elem?-below [] i h = absurd (omega (arith, h))
get_elem?-below (x ∷ xs) zero h = (x, refl)
get_elem?-below (x ∷ xs) (suc i) h = get_elem?-below xs i (omega (arith, h))

-- A write at an index that has an entry keeps the indices and the number of entries.
pub written-Valid :
    (n : ℕ) (f : SessionEntry → SessionEntry) (index : ℕ) (s : Handling)
    → index < n
    → Valid n s
    → Sure (Valid n) (written (update_at f s.session.entries index) s)
written-Valid n f index s h v =
    stored (get_elem? s.session.entries index)
      (get_elem?-below s.session.entries index (omega (arith, h, v.room)))
  where
    stored :
        (o : Option SessionEntry)
        → (e : SessionEntry) × (o ≡ some e)
        → Sure (Valid n) (written (Option.map (λ e. set s.session.entries index (f e)) o) s)
    stored none (e, found) = absurd cc
    stored (some x) found = record {
      thinking_below = v.thinking_below;
      assistant_below = v.assistant_below;
      blankable_below = v.blankable_below;
      room = omega (arith, v.room, length-set s.session.entries index (f x));
    }

pub send-Valid :
    (n : ℕ) (frame : OutgoingMessage) (s : Handling) → Valid n s → Valid n (send frame s)
send-Valid n frame s v = record {
  thinking_below = v.thinking_below;
  assistant_below = v.assistant_below;
  blankable_below = v.blankable_below;
  room = v.room;
}

pub send_unless-Valid :
    (n : ℕ) (b : Bool) (frame : OutgoingMessage) (s : Handling)
    → Valid n s
    → Valid n (send_unless b frame s)
send_unless-Valid n true frame s v = v
send_unless-Valid n false frame s v = send-Valid n frame s v

pub upsert-Valid :
    (n index : ℕ) (o : Option SessionEntry) (s : Handling)
    → (e : SessionEntry) × (o ≡ some e)
    → Valid n s
    → Sure (Valid n) (upsert index o s)
upsert-Valid n index none s (e, found) v = absurd cc
upsert-Valid n index (some x) s found v = send-Valid n (entry_upsert index x) s v

-- The entry at an index below, blanked or not.
pub stored_at :
    (n index : ℕ) (s : Handling)
    → index < n
    → Valid n s
    → (e : SessionEntry) × (get_elem? s.session.entries index ≡ some e)
stored_at n index s h v = get_elem?-below s.session.entries index (omega (arith, h, v.room))

pub blanked_at :
    (n index : ℕ) (s : Handling)
    → index < n
    → Valid n s
    → (e : SessionEntry) × (Option.map blank (get_elem? s.session.entries index) ≡ some e)
blanked_at n index s h v =
    let (e, found) = stored_at n index s h v in (blank e, ap (λ o. Option.map blank o) found)

pub raise-Valid : (n m : ℕ) (s : Handling) → n ≤ m → m ≤ size s → Valid n s → Valid m s
raise-Valid n m s le room v = record {
  thinking_below = raised s.thinking_index v.thinking_below;
  assistant_below = raised s.assistant_index v.assistant_below;
  blankable_below = all_raised s.blankable_indices v.blankable_below;
  room = room;
}
  where
    raised : (o : Option ℕ) → IndexBelow n o → IndexBelow m o
    raised none h = tt
    raised (some j) h = omega (arith, h, le)

    all_raised : (js : List ℕ) → All (λ j. j < n) js → All (λ j. j < m) js
    all_raised [] h = tt
    all_raised (j ∷ js) (h, hs) = (omega (arith, h, le), all_raised js hs)
