-- ===== src/Resume/Examples.antt =====
-- Tests of transport/ws/sessionResume.ts and the witnesses of its theorems.
use halengine.Prelude.{
  ◌≡◌, refl, Text, text, Bool, true, false, Option, none, some, [], ◌∷◌, All, get_elem?, Number,
}
use halengine.Session.{SessionEntry, assistant, named, ChatSession}
use halengine.Messages.{ResumeFailure, entry_upsert, entry_skip}
use halengine.Stores.{SessionLookup, active, missing}
use halengine.Handler.Words.{words}
use halengine.Resume.{
  SessionResumeOptions, Requester, ResumeStore, as_lookup, named_by, latest_by, look_up,
  stored_session, is_owned_by, failure_of, no_resume, resumed_from, resumable_session,
  is_suppressed, is_hidden, is_streaming, cut_off, replay_entry, replay_from, replay_entries,
}
use halengine.Resume.Owner.{OwnOutcome, resumable_session-Own}
use halengine.Resume.Replay.{held_at, seen_of, shown_words, IsSettled, replay_entries-shown}

abbrev digits : Number → Text
digits n = text "7"

abbrev answer : Bool → Bool → SessionEntry
answer streaming hidden = assistant (record {
  content = text "yes";
  timestamp = text "t";
  is_streaming = streaming;
  cleared = false;
  truncated = false;
  suppressed = hidden;
  persona = none;
})

abbrev told : ChatSession
told = record {
  session_id = text "a";
  user_id = named (text "ann");
  entries = answer false false ∷ answer false true ∷ answer true false ∷ [];
  auth_headers = none;
  workspace_id = none;
  active_persona = none;
  created_at = none;
  user = none;
}

-- A store whose one session is `told`, or has expired.
abbrev store_of : SessionLookup → ResumeStore
store_of found = record {
  lookup = some (λ id. some found);
  get = λ id. none;
  latest_for = some (λ id. some (some told));
}

abbrev asks : Option Text → Text → Requester
asks id owner = record {
  requested_session_id = id;
  start_new_session = false;
  user_id = named owner;
}

abbrev both_on : Option SessionResumeOptions
both_on = some (record { enabled = true; latest = true })

outcomes :
    (resumable_session digits (store_of (active told)) (asks (some (text "a")) (text "ann")) both_on
      ≡ record { session = some told; failure = none })
    × (resumable_session digits
          (store_of (active told))
          (asks (some (text "a")) (text "bob"))
          both_on
        ≡ record { session = none; failure = some ResumeFailure.unknown })
    × (resumable_session digits
          (store_of (SessionLookup.expired (named (text "ann"))))
          (asks (some (text "a")) (text "ann"))
          both_on
        ≡ record { session = none; failure = some ResumeFailure.expired })
    × (resumable_session digits
          (store_of (SessionLookup.expired (named (text "ann"))))
          (asks (some (text "a")) (text "bob"))
          both_on
        ≡ record { session = none; failure = some ResumeFailure.unknown })
    × (resumable_session digits (store_of missing) (asks none (text "ann")) both_on
        ≡ record { session = some told; failure = none })
    × (resumable_session digits (store_of missing) (asks none (text "ann")) none
        ≡ record { session = none; failure = none })
unfolding resumable_session look_up named_by latest_by as_lookup stored_session resumed_from
    no_resume failure_of is_owned_by
outcomes = (refl, refl, refl, refl, refl, refl)

replayed :
    replay_entries told
    ≡ entry_upsert 0 (answer false false)
      ∷ entry_skip 1
      ∷ entry_upsert 2 (cut_off (answer true false))
      ∷ []
unfolding replay_entries replay_from replay_entry is_hidden is_suppressed is_streaming
replayed = refl

resumable_session-Own_example :
    OwnOutcome digits
      (stored_session
        (look_up (store_of (active told)) (some (text "a")) false (named (text "ann")) both_on))
      (some (text "a"))
      (named (text "ann"))
      (resumable_session digits
        (store_of (active told))
        (asks (some (text "a")) (text "ann"))
        both_on)
resumable_session-Own_example =
    resumable_session-Own digits (store_of (active told)) (asks (some (text "a")) (text "ann"))
      both_on

replay_entries-shown_example :
    (held_at 1 none (replay_entries told) ≡ seen_of (get_elem? told.entries 1))
    × (words 1 (replay_entries told) ≡ shown_words (get_elem? told.entries 1))
    × All IsSettled (replay_entries told)
replay_entries-shown_example = replay_entries-shown told 1
