-- ===== src/Lock/Examples.antt =====
-- Tests of shared/perSessionLock.ts and the witnesses of its theorems.
use halengine.Prelude.{ℕ, ◌+◌, ◌≤◌, ◌<◌, ◌≡◌, ◌⊎◌, refl, text, none, some, map_get, map_set, arith}
use halengine.Lock.{
  running, forgotten, rank, PerSessionLock, new_lock, size, run, moved, at_once, Move, begins,
  Reach, start, called, stepped,
}
use halengine.Lock.Liveness.{pending, Moves, rest, then_move, every_callback_settles, one_at_a_time}

-- Two calls for session `a`, then one for session `b`.
abbrev three_calls : PerSessionLock
three_calls = run (text "b") (run (text "a") (run (text "a") new_lock))

abbrev three_calls_reach : Reach three_calls
three_calls_reach = called (called (called start (text "a")) (text "a")) (text "b")

three_calls_lem :
    (three_calls.after 1 ≡ some 0)
    × (three_calls.after 2 ≡ none)
    × (size three_calls ≡ 2)
    × (map_get three_calls.tails (text "a") ≡ some 1)
unfolding new_lock run map_get map_set size
three_calls_lem = (refl, refl, refl, refl)

-- The first call of each session begins.
abbrev both_begin : PerSessionLock
both_begin = moved running 2 (moved running 0 three_calls)

begin_both : Moves three_calls 2 both_begin
unfolding new_lock run map_get map_set
begin_both =
    then_move (then_move rest (begins 0 (omega arith) refl at_once))
      (begins 2 (omega arith) refl at_once)

every_callback_settles_example :
    (2 + pending both_begin ≡ pending three_calls)
    × (((u : PerSessionLock) × Move both_begin u)
        ⊎ (((i : ℕ) → i < both_begin.calls → both_begin.phase i ≡ forgotten)
            × (size both_begin ≡ 0)))
every_callback_settles_example = every_callback_settles three_calls_reach begin_both

both_begin-Reach : Reach both_begin
unfolding new_lock run map_get map_set
both_begin-Reach =
    stepped (stepped three_calls_reach (begins 0 (omega arith) refl at_once))
      (begins 2 (omega arith) refl at_once)

one_at_a_time_example :
    (0 < 1 → 1 ≤ rank (both_begin.phase 1) → 3 ≤ rank (both_begin.phase 0))
    × (both_begin.phase 0 ≡ running → both_begin.phase 1 ≡ running → ◌≡◌ {A = ℕ} 0 1)
unfolding new_lock run
one_at_a_time_example = one_at_a_time both_begin-Reach 0 1 (omega arith) (omega arith) refl
