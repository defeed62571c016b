-- ===== src/Stores/Memory.antt =====
-- infrastructure/stores/inMemorySessionStore.ts: the class, its map of sessions as the state. A call that
-- throws is `none`. The clock is read once in a call.
use halengine.Prelude.{
  ℕ, ◌+◌, ◌*◌, max, Text, Bool, true, false, not, ◌&&◌, Option, none, some, List, [], ◌∷◌, map,
  take, length, if◌then◌else◌, ltb, ◌==◌, Number, whole, between, not_finite, StringMap, map_get,
  map_set, map_delete,
}
use mathlib.Core.Option
use halengine.Session.{SessionEntry, UserId, ChatSession}
use halengine.Preview.{preview_of}
use halengine.Stores.{
  SessionSummary, SessionListOptions, SessionCreateOptions, HeldSession, SessionLookup, active,
  expired, missing, capped_limit, is_scalar_user_id, user_id_eq, timestamp_of, ListRow, sort_rows,
  rows_from,
}

-- maxAgeMs, eight hours unless given.
abbrev pub default_max_age_ms : ℕ
default_max_age_ms = 8 * 60 * 60 * 1000

abbrev pub Sessions : Type 0
Sessions = StringMap HeldSession

-- A clock: `Date.now()`, where it is finite.
abbrev pub Clock : Type 0
Clock = Option ℕ

abbrev pub first_of : List SessionEntry → Option SessionEntry
first_of [] = none
first_of (entry ∷ entries) = some entry

abbrev pub is_some {ℓ} : {A : Type ℓ} → Option A → Bool
is_some none = false
is_some (some a) = true

-- The latest of the finite times, from 0 on.
unfoldable pub latest_of : ℕ → Number → ℕ
latest_of latest (whole n) = max latest n
latest_of latest (between n) = max latest n
latest_of latest _ = latest

module _ (date_parse : Text → Number) where
  unfoldable pub stamp_of : Option Text → Number
  stamp_of none = not_finite
  stamp_of (some timestamp) = date_parse timestamp

  unfoldable pub latest_stamp : ℕ → List SessionEntry → ℕ
  unfolding stamp_of latest_of
  latest_stamp latest [] = latest
  latest_stamp latest (entry ∷ entries) =
      latest_stamp (latest_of latest (stamp_of (timestamp_of entry))) entries

  unfoldable pub last_activity : HeldSession → ℕ
  unfolding latest_stamp
  last_activity held = latest_stamp (Option.get_or held.created_at 0) held.session.entries

  unfoldable pub summary_of : HeldSession → SessionSummary
  unfolding last_activity
  summary_of held = record {
    session_id = held.session.session_id;
    created_at = held.created_at;
    updated_at = last_activity held;
    entry_count = length held.session.entries;
    preview = none;
  }

  unfoldable pub row_of : HeldSession → ListRow
  unfolding summary_of
  row_of held = record { held = held; summary = summary_of held }

unfoldable pub labelled : ListRow → SessionSummary
labelled row = record row.summary { preview = preview_of (first_of row.held.session.entries) }

unfoldable pub page_of : SessionListOptions → (limit : ℕ) → List ListRow → List SessionSummary
unfolding labelled
page_of options limit rows =
    map (if options.preview then labelled else (λ row. row.summary)) (take limit rows)

abbrev pub first_session : List ListRow → Option ChatSession
first_session [] = none
first_session (row ∷ rows) = some row.held.session

-- delete and evict: whether there was such a session.
unfoldable pub delete : Text → Sessions → Bool × Sessions
delete id sessions = (is_some (map_get sessions id), map_delete sessions id)

unfoldable pub clear : Sessions → Sessions
clear sessions = []

unfoldable pub count : Sessions → ℕ
count sessions = length sessions

module _ (max_age_ms : ℕ) where
  unfoldable pub has_expired : Clock → HeldSession → Bool
  has_expired none held = false
  has_expired (some now) held = aged held.created_at
    where
      aged : Option ℕ → Bool
      aged none = false
      aged (some created_at) = ltb (created_at + max_age_ms) now

  unfoldable pub sweep_expired : Clock → Sessions → Sessions
  unfolding has_expired
  sweep_expired now [] = []
  sweep_expired now ((id, held) ∷ sessions) =
      let rest = sweep_expired now sessions in
      if has_expired now held then rest else (id, held) ∷ sessions

  unfoldable pub create :
      (to_iso : ℕ → Text)
      → Clock
      → (session_id : Text) → UserId
      → SessionCreateOptions
      → Sessions
      → Option (ChatSession × Sessions)
  unfolding sweep_expired
  create to_iso now session_id user_id options sessions =
      let session : ChatSession = record {
        session_id = session_id;
        user_id = user_id;
        entries = [];
        auth_headers = options.auth_headers;
        workspace_id = options.workspace_id;
        active_persona = none;
        created_at = Option.map to_iso now;
        user = options.user;
      } in
      if is_scalar_user_id user_id
      then some (
        session,
        map_set (sweep_expired now sessions) session_id
            (record { session = session; created_at = now }),
      )
      else none

  unfoldable pub lookup_held :
      Clock → Text → Option HeldSession → Sessions → SessionLookup × Sessions
  unfolding has_expired
  lookup_held now id none sessions = (missing, sessions)
  lookup_held now id (some held) sessions =
      if not (has_expired now held)
      then (active held.session, sessions)
      else (expired held.session.user_id, map_delete sessions id)

  unfoldable pub lookup : Clock → Text → Sessions → SessionLookup × Sessions
  unfolding lookup_held
  lookup now id sessions = lookup_held now id (map_get sessions id) sessions

  unfoldable pub get_held :
      Clock → Text → Option HeldSession → Sessions → Option ChatSession × Sessions
  unfolding has_expired
  get_held now id none sessions = (none, sessions)
  get_held now id (some held) sessions =
      if not (has_expired now held)
      then (some held.session, sessions)
      else (none, map_delete sessions id)

  unfoldable pub get : Clock → Text → Sessions → Option ChatSession × Sessions
  unfolding get_held
  get now id sessions = get_held now id (map_get sessions id) sessions

  unfoldable pub owned_by : Clock → UserId → Sessions → List HeldSession
  unfolding has_expired
  owned_by now user_id [] = []
  owned_by now user_id ((id, held) ∷ sessions) =
      let rest = owned_by now user_id sessions in
      if user_id_eq held.session.user_id user_id && not (has_expired now held)
      then held ∷ rest
      else rest

  unfoldable pub count_for : Clock → UserId → Sessions → Option ℕ
  unfolding owned_by
  count_for now user_id sessions =
      if is_scalar_user_id user_id then some (length (owned_by now user_id sessions)) else none

module _ (date_parse : Text → Number) (max_age_ms : ℕ) where
  -- The user's rows, newest first.
  unfoldable pub rows_of : Clock → UserId → Sessions → List ListRow
  unfolding owned_by row_of
  rows_of now user_id sessions =
      sort_rows (map (row_of date_parse) (owned_by max_age_ms now user_id sessions))

  unfoldable pub list_for :
      Clock → UserId → SessionListOptions → Sessions → Option (List SessionSummary)
  unfolding rows_of page_of
  list_for now user_id options sessions =
      let limit = capped_limit options.limit in
      if not (is_scalar_user_id user_id)
      then none
      else if limit == 0
      then some []
      else Option.map (page_of options limit)
          (rows_from (rows_of now user_id sessions) options.before)

  unfoldable pub latest_for : Clock → UserId → Sessions → Option (Option ChatSession)
  unfolding rows_of
  latest_for now user_id sessions =
      if is_scalar_user_id user_id
      then some (first_session (rows_of now user_id sessions))
      else none
