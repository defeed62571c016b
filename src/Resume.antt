-- ===== src/Resume.antt =====
-- transport/ws/sessionResume.ts: which stored session a connection rejoins, and what its client is shown
-- of it. The store is what the deployer gives the engine; a call of it that throws is `none`. String(n) of
-- a numeric user id is a parameter.
pub mod Owner
pub mod Replay
pub mod Examples
use halengine.Prelude.{
  ℕ, suc, ◌+◌, Text, text, text_eq, Bool, true, false, not, ◌&&◌, ◌||◌, Option, none, some, List,
  [], ◌∷◌, length, if◌then◌else◌, Number, whole, Json, undefined, null, number, str, boolean, ◌==◌,
  Fields, empty, field,
}
use mathlib.Core.Option
use halengine.Session.{
  SessionEntry, user, assistant, thinking, tool, other, UserId, named, numbered, ChatSession,
  is_cleared,
}
use halengine.Messages.{ResumeFailure, OutgoingMessage, entry_upsert, entry_skip}
use halengine.Frames.{member}
use halengine.Stores.{SessionLookup, active, missing}

pub record SessionResumeOptions : Type 0 where
  pub enabled : Bool
  pub latest : Bool

pub record Requester : Type 0 where
  pub requested_session_id : Option Text
  pub start_new_session : Bool
  pub user_id : UserId

pub record ResumeOutcome : Type 0 where
  pub session : Option ChatSession
  pub failure : Option ResumeFailure

-- The reads of a SessionStore that a connection makes; `lookup` and `latestFor` may be absent.
pub record ResumeStore : Type 0 where
  pub lookup : Option (Text → Option SessionLookup)
  pub get : Text → Option (Option ChatSession)
  pub latest_for : Option (UserId → Option (Option ChatSession))

abbrev pub no_outcome : ResumeOutcome
no_outcome = record { session = none; failure = none }

unfoldable pub as_lookup : Option ChatSession → SessionLookup
as_lookup none = missing
as_lookup (some session) = active session

unfoldable pub named_by :
    Option (Text → Option SessionLookup)
    → (Text → Option (Option ChatSession))
    → Text
    → Option SessionLookup
unfolding as_lookup
named_by (some lookup) get id = lookup id
named_by none get id = Option.map as_lookup (get id)

unfoldable pub latest_by :
    Option (UserId → Option (Option ChatSession)) → UserId → Option SessionLookup
unfolding as_lookup
latest_by none user_id = some missing
latest_by (some latest_for) user_id = Option.map as_lookup (latest_for user_id)

abbrev pub wants_latest : Option SessionResumeOptions → Bool
wants_latest none = false
wants_latest (some options) = options.enabled && options.latest

-- `some none` is undefined: nothing was looked up.
unfoldable pub look_up :
    ResumeStore
    → Option Text
    → Bool
    → UserId
    → Option SessionResumeOptions
    → Option (Option SessionLookup)
unfolding named_by latest_by
look_up store (some id) fresh user_id options =
    Option.map (λ found. some found) (named_by store.lookup store.get id)
look_up store none fresh user_id options =
    if not (wants_latest options) || fresh
    then some none
    else Option.map (λ found. some found) (latest_by store.latest_for user_id)

unfoldable pub stored_session : Option (Option SessionLookup) → Option SessionLookup
stored_session none = some missing
stored_session (some found) = found

module _ (number_text : Number → Text) where
  -- String(userId)
  abbrev pub user_id_text : UserId → Text
  user_id_text (named s) = s
  user_id_text (numbered n) = number_text n

  unfoldable pub is_owned_by : UserId → UserId → Bool
  is_owned_by owner user_id = text_eq (user_id_text owner) (user_id_text user_id)

  unfoldable pub failure_of : SessionLookup → UserId → ResumeFailure
  unfolding is_owned_by
  failure_of (SessionLookup.expired owner) user_id =
      if is_owned_by owner user_id then ResumeFailure.expired else ResumeFailure.unknown
  failure_of (active session) user_id = ResumeFailure.unknown
  failure_of missing user_id = ResumeFailure.unknown

  -- Without a named id there is no failure to report.
  unfoldable pub no_resume : SessionLookup → Option Text → UserId → ResumeOutcome
  unfolding failure_of
  no_resume found none user_id = no_outcome
  no_resume found (some id) user_id = record {
    session = none;
    failure = some (failure_of found user_id);
  }

  unfoldable pub resumed_from : Option SessionLookup → Option Text → UserId → ResumeOutcome
  unfolding no_resume is_owned_by
  resumed_from none requested user_id = no_outcome
  resumed_from (some (active session)) requested user_id =
      if is_owned_by session.user_id user_id
      then record { session = some session; failure = none }
      else no_resume (active session) requested user_id
  resumed_from (some found) requested user_id = no_resume found requested user_id

  unfoldable pub resumable_session :
      ResumeStore → Requester → Option SessionResumeOptions → ResumeOutcome
  unfolding look_up stored_session resumed_from
  resumable_session store r options =
      resumed_from
        (stored_session
          (look_up store r.requested_session_id r.start_new_session r.user_id options))
        r.requested_session_id r.user_id

-- The three fields of the connected frame.
pub record ResumeFields : Type 0 where
  pub resumed : Option Bool
  pub entry_count : Option ℕ
  pub resume_failure : Option ResumeFailure

abbrev pub is_on : Option SessionResumeOptions → Bool
is_on none = false
is_on (some options) = options.enabled

unfoldable pub told_fields : Option ChatSession → Option ResumeFailure → ResumeFields
told_fields (some session) failure = record {
  resumed = some true;
  entry_count = some (length session.entries);
  resume_failure = none;
}
told_fields none failure = record {
  resumed = some false;
  entry_count = none;
  resume_failure = failure;
}

unfoldable pub resume_fields : Option SessionResumeOptions → ResumeOutcome → ResumeFields
unfolding told_fields
resume_fields options outcome =
    if not (is_on options)
    then record { resumed = none; entry_count = none; resume_failure = none }
    else told_fields outcome.session outcome.failure

-- An entry of a role outside the four holds its flags among its fields.
abbrev pub is_true : Json → Bool
is_true (boolean b) = b
is_true _ = false

-- What a test of a value reads; NaN is not told from the infinities.
abbrev pub is_truthy : Json → Bool
is_truthy undefined = false
is_truthy null = false
is_truthy (boolean b) = b
is_truthy (number (whole n)) = not (n == 0)
is_truthy (str []) = false
is_truthy _ = true

unfoldable pub is_suppressed : SessionEntry → Bool
unfolding member
is_suppressed (assistant e) = e.suppressed
is_suppressed (thinking e) = e.suppressed
is_suppressed (other e) = is_true (member e.fields (text "suppressed"))
is_suppressed _ = false

unfoldable pub is_hidden : SessionEntry → Bool
unfolding is_suppressed
is_hidden entry = is_cleared entry || is_suppressed entry

unfoldable pub is_streaming : SessionEntry → Bool
unfolding member
is_streaming (assistant e) = e.is_streaming
is_streaming (thinking e) = e.is_streaming
is_streaming (other e) = is_truthy (member e.fields (text "isStreaming"))
is_streaming _ = false

-- {...fields, [key]: value}
unfoldable pub with_member : Fields → Text → Json → Fields
with_member empty key value = field key value empty
with_member (field k v fields) key value =
    let rest = with_member fields key value in
    if text_eq k key then field k value fields else field k v rest

-- {...entry, isStreaming: false, truncated: true}
unfoldable pub cut_off : SessionEntry → SessionEntry
unfolding with_member
cut_off (assistant e) = assistant (record e { is_streaming = false; truncated = true })
cut_off (thinking e) = thinking (record e { is_streaming = false; truncated = true })
cut_off (other e) = other (record e {
  fields =
      with_member (with_member e.fields (text "isStreaming") (boolean false)) (text "truncated")
        (boolean true);
})
cut_off entry = entry

unfoldable pub replay_entry : ℕ → SessionEntry → OutgoingMessage
unfolding is_hidden is_streaming cut_off
replay_entry index entry =
    if is_hidden entry
    then entry_skip index
    else if is_streaming entry
    then entry_upsert index (cut_off entry)
    else entry_upsert index entry

unfoldable pub replay_from : ℕ → List SessionEntry → List OutgoingMessage
unfolding replay_entry
replay_from index [] = []
replay_from index (entry ∷ entries) = replay_entry index entry ∷ replay_from (suc index) entries

unfoldable pub replay_entries : ChatSession → List OutgoingMessage
unfolding replay_from
replay_entries session = replay_from 0 session.entries
