-- ===== src/Lock.antt =====
-- shared/perSessionLock.ts: a queue of callbacks per key. A call of `run` is numbered in call order.
-- Its promises settle in steps of their own: the callback begins once the promise that its call found
-- in `tails` has settled, its result settles, then its tail, and then its `forget` runs. Steps of
-- different calls interleave in any order.
pub mod Order
pub mod Liveness
pub mod Examples
use halengine.Prelude.{
  ℕ, ◌+◌, ◌-◌, ◌≤◌, ◌<◌, ◌≡◌, Text, Bool, true, false, Option, none, some, List, [], if◌then◌else◌,
  ◌==◌, length, StringMap, map_get, map_set, map_delete,
}

-- How far a call of `run` has come.
pub data Phase : Type 0 where
  queued running answered settled forgotten : Phase

abbrev pub rank : Phase → ℕ
rank queued = 0
rank running = 1
rank answered = 2
rank settled = 3
rank forgotten = 4

-- `after` is the call whose tail a call found, if the key had one.
pub record PerSessionLock : Type 0 where
  pub tails : StringMap ℕ
  pub calls : ℕ
  pub key_of : ℕ → Text
  pub after : ℕ → Option ℕ
  pub phase : ℕ → Phase

unfoldable pub new_lock : PerSessionLock
new_lock = record {
  tails = [];
  calls = 0;
  key_of = λ i. [];
  after = λ i. none;
  phase = λ i. queued;
}

-- get size()
unfoldable pub size : PerSessionLock → ℕ
size s = length s.tails

abbrev pub update {ℓ} : {A : Type ℓ} → (ℕ → A) → ℕ → A → ℕ → A
update f i v j = if i == j then v else f j

-- run(key, fn), up to its return.
unfoldable pub run : Text → PerSessionLock → PerSessionLock
run key s = record {
  tails = map_set s.tails key s.calls;
  calls = s.calls + 1;
  key_of = update s.key_of s.calls key;
  after = update s.after s.calls (map_get s.tails key);
  phase = update s.phase s.calls queued;
}

abbrev pub moved : Phase → ℕ → PerSessionLock → PerSessionLock
moved p i s = record s { phase = update s.phase i p }

-- this.tails.get(key) === tail
unfoldable pub is_tail : ℕ → Option ℕ → Bool
is_tail tail none = false
is_tail tail (some newest) = newest == tail

unfoldable pub forget : Text → ℕ → PerSessionLock → PerSessionLock
unfolding is_tail
forget key tail s =
    if is_tail tail (map_get s.tails key) then record s { tails = map_delete s.tails key } else s

-- Whether the promise that a call waits on has settled.
pub data Released (s : PerSessionLock) : Option ℕ → Type 0 where
  at_once : Released s none
  behind : {p : ℕ} → 3 ≤ rank (s.phase p) → Released s (some p)

-- A step that no caller makes: a callback begins, ends or is forgotten.
pub data Move (s : PerSessionLock) : PerSessionLock → Type 0 where
  begins :
      (i : ℕ)
      → i < s.calls
      → s.phase i ≡ queued
      → Released s (s.after i)
      → Move s (moved running i s)
  answers : (i : ℕ) → i < s.calls → s.phase i ≡ running → Move s (moved answered i s)
  settles : (i : ℕ) → i < s.calls → s.phase i ≡ answered → Move s (moved settled i s)
  forgets :
      (i : ℕ)
      → i < s.calls
      → s.phase i ≡ settled
      → Move s (forget (s.key_of i) i (moved forgotten i s))

-- The states that calls of `run` and moves lead to, in any order.
pub data Reach : PerSessionLock → Type 0 where
  start : Reach new_lock
  called : {s : PerSessionLock} → Reach s → (key : Text) → Reach (run key s)
  stepped : {s t : PerSessionLock} → Reach s → Move s t → Reach t
