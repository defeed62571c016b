-- ===== src/Stores.antt =====
-- infrastructure/stores/inMemorySessionStore.ts and sessionListWindow.ts: the sessions that the engine
-- keeps, and the window of a user's conversations. A clock reading is a whole number of milliseconds,
-- or none where it is not finite. `Date.parse` and `toISOString` are parameters.
pub mod Memory
pub mod Order
pub mod Paging
pub mod Keys
pub mod Owned
pub mod Examples
use halengine.Prelude.{
  ℕ, zero, suc, ◌+◌, min, max, Text, text_eq, Bool, true, false, not, ◌&&◌, ◌||◌, Option, none,
  some, List, [], ◌∷◌, ◌++◌, map, take, length, if◌then◌else◌, ltb, leb, ◌==◌, Number, whole, minus,
  between, below, not_finite, StringMap, map_get, map_set, map_delete,
}
use halengine.Session.{
  SessionEntry, user, assistant, thinking, tool, other, UserId, named, numbered, AuthHeaders,
  AuthenticatedUser, ChatSession,
}
use halengine.Preview.{preview_of}
use halengine.Frames.{max_limit}

pub record SessionSummary : Type 0 where
  pub session_id : Text
  pub created_at : Option ℕ
  pub updated_at : ℕ
  pub entry_count : ℕ
  pub preview : Option Text

-- `updated_at` is the time of `new Date(cursor.updatedAt)`, if it is one.
pub record SessionCursor : Type 0 where
  pub updated_at : Option ℕ
  pub session_id : Text

pub record SessionListOptions : Type 0 where
  pub limit : Option Number
  pub before : Option SessionCursor
  pub preview : Bool

pub record SessionCreateOptions : Type 0 where
  pub auth_headers : Option AuthHeaders
  pub workspace_id : Option UserId
  pub user : Option AuthenticatedUser

pub record HeldSession : Type 0 where
  pub session : ChatSession
  pub created_at : Option ℕ

pub data SessionLookup : Type 0 where
  active : ChatSession → SessionLookup
  expired : UserId → SessionLookup
  missing : SessionLookup

abbrev pub default_limit : ℕ
default_limit = 50

unfoldable pub capped_limit : Option Number → ℕ
capped_limit none = default_limit
capped_limit (some (whole n)) = min n max_limit
capped_limit (some (between n)) = min n max_limit
capped_limit (some _) = default_limit

-- first < second, by code units
unfoldable pub text_lt : Text → Text → Bool
text_lt s [] = false
text_lt [] (v ∷ t) = true
text_lt (u ∷ s) (v ∷ t) = ltb u v || (u == v && text_lt s t)

-- newestFirst(first, second) < 0
unfoldable pub newest_first : SessionSummary → SessionSummary → Bool
unfolding text_lt
newest_first first second =
    if not (second.updated_at == first.updated_at)
    then ltb second.updated_at first.updated_at
    else not (text_lt first.session_id second.session_id)

unfoldable pub sits_after : SessionSummary → (time : ℕ) (id : Text) → Bool
unfolding text_lt
sits_after summary time id =
    ltb summary.updated_at time || (summary.updated_at == time && text_lt summary.session_id id)

-- isScalarUserId(userId)
unfoldable pub is_scalar_user_id : UserId → Bool
is_scalar_user_id (named s) = true
is_scalar_user_id (numbered not_finite) = false
is_scalar_user_id (numbered n) = true

abbrev pub number_eq : Number → Number → Bool
number_eq (whole m) (whole n) = m == n
number_eq (minus m) (minus n) = m == n
number_eq (between m) (between n) = m == n
number_eq (below m) (below n) = m == n
number_eq _ _ = false

-- ===
unfoldable pub user_id_eq : UserId → UserId → Bool
user_id_eq (named s) (named t) = text_eq s t
user_id_eq (numbered m) (numbered n) = number_eq m n
user_id_eq _ _ = false

-- entry.timestamp
abbrev pub timestamp_of : SessionEntry → Option Text
timestamp_of (user e) = some e.timestamp
timestamp_of (assistant e) = some e.timestamp
timestamp_of (thinking e) = e.timestamp
timestamp_of (tool e) = some e.timestamp
timestamp_of (other e) = e.timestamp

pub record ListRow : Type 0 where
  pub held : HeldSession
  pub summary : SessionSummary

-- rows.sort(byNewestRow)
unfoldable pub insert_row : ListRow → List ListRow → List ListRow
unfolding newest_first
insert_row r [] = r ∷ []
insert_row r (x ∷ rows) =
    let rest = insert_row r rows in
    if newest_first r.summary x.summary then r ∷ x ∷ rows else x ∷ rest

unfoldable pub sort_rows : List ListRow → List ListRow
unfolding insert_row
sort_rows [] = []
sort_rows (r ∷ rows) = insert_row r (sort_rows rows)

unfoldable pub rows_after : (time : ℕ) (id : Text) → List ListRow → List ListRow
unfolding sits_after
rows_after time id [] = []
rows_after time id (r ∷ rows) =
    let rest = rows_after time id rows in if sits_after r.summary time id then r ∷ rest else rest

-- from(rows, before), which throws where the cursor has no usable time.
unfoldable pub rows_from : List ListRow → Option SessionCursor → Option (List ListRow)
unfolding rows_after
rows_from rows none = some rows
rows_from rows (some before) = cursor_at before.updated_at
  where
    cursor_at : Option ℕ → Option (List ListRow)
    cursor_at none = none
    cursor_at (some time) = some (rows_after time before.session_id rows)
