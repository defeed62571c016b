-- ===== src/Stores/Examples.antt =====
-- Tests of the in-memory session store and the witnesses of its theorems.
use halengine.Prelude.{
  ℕ, suc, ◌≡◌, refl, Text, text, text_eq, true, false, Option, none, some, List, [], ◌∷◌, map,
  length, Number, whole, between, minus, not_finite, map_get, map_set, map_delete, arith,
}
use mathlib.Core.Option
use mathlib.Core.List.{Perm}
use halengine.Session.{ChatSession, named, numbered}
use halengine.Stores.{
  SessionSummary, SessionCreateOptions, HeldSession, active, expired, missing, capped_limit,
  text_lt, newest_first, is_scalar_user_id, user_id_eq, insert_row, sort_rows, rows_from,
}
use halengine.Stores.Memory.{
  Sessions, Clock, has_expired, latest_stamp, last_activity, summary_of, row_of, sweep_expired,
  create, lookup, count, owned_by, count_for, rows_of, page_of, list_for, latest_for,
}
use halengine.Stores.Order.{IsSorted}
use halengine.Stores.Paging.{walk, plain_options}
use halengine.Stores.Keys.{IsKeyed}
use halengine.Stores.Owned.{walk_all, ShowsOwn, IsOwnHeld, list_for-IsOwn, create-lookup}

abbrev no_dates : Text → Number
no_dates s = not_finite

abbrev iso : ℕ → Text
iso n = text "t"

abbrev bare_options : SessionCreateOptions
bare_options = record { auth_headers = none; workspace_id = none; user = none }

abbrev session_named : Text → Text → ChatSession
session_named id owner = record {
  session_id = id;
  user_id = named owner;
  entries = [];
  auth_headers = none;
  workspace_id = none;
  active_persona = none;
  created_at = some (text "t");
  user = none;
}

abbrev held_named : Text → Text → ℕ → HeldSession
held_named id owner at = record { session = session_named id owner; created_at = some at }

-- Two sessions of one user that began at the same time, an earlier one, and one of another user.
abbrev four : Sessions
four =
    (text "a", held_named (text "a") (text "ann") 10)
    ∷ (text "b", held_named (text "b") (text "bob") 20)
    ∷ (text "c", held_named (text "c") (text "ann") 30)
    ∷ (text "d", held_named (text "d") (text "ann") 30)
    ∷ []

ids_of : List SessionSummary → List Text
ids_of summaries = map (λ s. s.session_id) summaries

-- The newest first, the larger id first on a tie.
listed :
    Option.map ids_of
      (list_for no_dates 100 (some 50) (named (text "ann")) (plain_options none none) four)
    ≡ some (text "d" ∷ text "c" ∷ text "a" ∷ [])
unfolding list_for rows_of page_of sort_rows insert_row newest_first text_lt owned_by has_expired
    user_id_eq row_of summary_of last_activity latest_stamp capped_limit is_scalar_user_id rows_from
    ids_of
listed = refl

capped_limit_lem :
    (capped_limit none ≡ 50)
    × (capped_limit (some (whole 500)) ≡ 200)
    × (capped_limit (some (between 3)) ≡ 3)
    × (capped_limit (some (minus 0)) ≡ 50)
unfolding capped_limit
capped_limit_lem = (refl, refl, refl, refl)

count_for_lem : count_for 100 (some 115) (named (text "ann")) four ≡ some 2
unfolding count_for owned_by has_expired user_id_eq is_scalar_user_id
count_for_lem = refl

refused :
    (count_for 100 (some 115) (numbered not_finite) four ≡ none)
    × (create 100 iso (some 5) (text "e") (numbered not_finite) bare_options four ≡ none)
unfolding count_for create is_scalar_user_id
refused = (refl, refl)

four-IsKeyed : IsKeyed four
four-IsKeyed = (
  refl,
  (refl, (refl, (refl, tt))),
  (refl, (refl, (refl, tt)), (refl, (refl, tt), (refl, tt, tt))),
)

walk_all_example :
    (walk no_dates 100
        (suc (length (rows_of no_dates 100 (some 50) (named (text "ann")) four)))
        (some 50)
        (named (text "ann"))
        (some (whole 2))
        four
        none
      ≡ map (λ row. row.summary) (rows_of no_dates 100 (some 50) (named (text "ann")) four))
    × IsSorted (rows_of no_dates 100 (some 50) (named (text "ann")) four)
    × Perm
        (rows_of no_dates 100 (some 50) (named (text "ann")) four)
        (map (row_of no_dates) (owned_by 100 (some 50) (named (text "ann")) four))
unfolding capped_limit is_scalar_user_id
walk_all_example =
    walk_all no_dates 100 (some 50) (named (text "ann")) four (some (whole 2)) four-IsKeyed refl
      (omega arith)

list_for-IsOwn_example :
    ShowsOwn 100
      (some 115)
      (named (text "ann"))
      four
      (list_for no_dates 100 (some 115) (named (text "ann")) (plain_options none none) four)
    × ((session : ChatSession)
        → latest_for no_dates 100 (some 115) (named (text "ann")) four ≡ some (some session)
        → (created_at : Option ℕ) × IsOwnHeld 100
            (some 115)
            (named (text "ann"))
            four
            (record { session = session; created_at = created_at }))
list_for-IsOwn_example =
    list_for-IsOwn 100 (some 115) (named (text "ann")) four no_dates (plain_options none none)

abbrev five : Sessions
five =
    map_set (sweep_expired 100 (some 115) four) (text "e") (held_named (text "e") (text "bob") 115)

opened :
    create 100 iso (some 115) (text "e") (named (text "bob")) bare_options four
    ≡ some (session_named (text "e") (text "bob"), five)
unfolding create is_scalar_user_id
opened = refl

-- Opening it swept the first session away, which had aged out.
opened_lem : (count five ≡ 4) × (map_get five (text "a") ≡ none)
unfolding map_set sweep_expired has_expired map_get count
opened_lem = (refl, refl)

create-lookup_example :
    (has_expired 100 (some 300) (held_named (text "e") (text "bob") 115) ≡ false
      → lookup 100 (some 300) (text "e") five
        ≡ (active (session_named (text "e") (text "bob")), five))
    × (has_expired 100 (some 300) (held_named (text "e") (text "bob") 115) ≡ true
        → (lookup 100 (some 300) (text "e") five
            ≡ (expired (named (text "bob")), map_delete five (text "e")))
          × ((again : Clock)
              → lookup 100 again (text "e") (map_delete five (text "e"))
                ≡ (missing, map_delete five (text "e"))))
    × ((k : Text) (held : HeldSession)
        → text_eq (text "e") k ≡ false
        → map_get four k ≡ some held
        → has_expired 100 (some 115) held ≡ false
        → map_get five k ≡ some held)
create-lookup_example =
    create-lookup 100 iso (some 115) (some 300) (text "e") (named (text "bob")) bare_options four
      five (session_named (text "e") (text "bob")) opened
