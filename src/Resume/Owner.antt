-- ===== src/Resume/Owner.antt =====
-- transport/ws/sessionResume.ts: only the owner of a session rejoins it, or hears that it has expired.
use halengine.Prelude.{◌≡◌, refl, Text, text_eq→eq, Option, none, some, Number, if-either}
use halengine.Session.{UserId, ChatSession}
use halengine.Messages.{ResumeFailure}
use halengine.Stores.{SessionLookup, active, missing}
use halengine.Resume.{
  SessionResumeOptions, Requester, ResumeOutcome, ResumeStore, look_up, stored_session,
  user_id_text, is_owned_by, failure_of, no_resume, resumed_from, resumable_session,
}

module _ (number_text : Number → Text) where
  -- What a requester may be told of what was found: a session of its own, that its own session has
  -- expired, or nothing but `unknown` for an id that it named.
  abbrev pub OwnSession : Option ChatSession → Option ResumeFailure → UserId → Type 0
  OwnSession none failure user_id = Unit
  OwnSession (some session) failure user_id =
      (user_id_text number_text session.user_id ≡ user_id_text number_text user_id)
      × (failure ≡ none)

  abbrev pub OwnFailure :
      Option ResumeFailure → Option SessionLookup → Option Text → UserId → Type 0
  OwnFailure none found requested user_id = Unit
  OwnFailure (some ResumeFailure.unknown) found requested user_id =
      (id : Text) × (requested ≡ some id)
  OwnFailure (some ResumeFailure.expired) found requested user_id =
      ((id : Text) × (requested ≡ some id))
      × ((owner : UserId) × (found ≡ some (SessionLookup.expired owner))
          × (user_id_text number_text owner ≡ user_id_text number_text user_id))

  abbrev pub OwnOutcome : Option SessionLookup → Option Text → UserId → ResumeOutcome → Type 0
  OwnOutcome found requested user_id o =
      OwnSession o.session o.failure user_id × OwnFailure o.failure found requested user_id

  failure_of-Own :
      (found : SessionLookup) (id : Text) (user_id : UserId)
      → OwnFailure (some (failure_of number_text found user_id)) (some found) (some id) user_id
  unfolding failure_of is_owned_by
  failure_of-Own (SessionLookup.expired owner) id user_id =
      if-either (λ f. OwnFailure (some f) (some (SessionLookup.expired owner)) (some id) user_id)
        (is_owned_by number_text owner user_id) (λ e. ((id, refl), (owner, refl, text_eq→eq _ _ e)))
        (λ _. (id, refl))
  failure_of-Own (active session) id user_id = (id, refl)
  failure_of-Own missing id user_id = (id, refl)

  no_resume-Own :
      (found : SessionLookup) (requested : Option Text) (user_id : UserId)
      → OwnOutcome (some found) requested user_id (no_resume number_text found requested user_id)
  unfolding no_resume
  no_resume-Own found none user_id = (tt, tt)
  no_resume-Own found (some id) user_id = (tt, failure_of-Own found id user_id)

  resumed_from-Own :
      (found : Option SessionLookup) (requested : Option Text) (user_id : UserId)
      → OwnOutcome found requested user_id (resumed_from number_text found requested user_id)
  unfolding resumed_from is_owned_by
  resumed_from-Own none requested user_id = (tt, tt)
  resumed_from-Own (some (active session)) requested user_id =
      if-either (OwnOutcome (some (active session)) requested user_id)
        (is_owned_by number_text session.user_id user_id) (λ e. ((text_eq→eq _ _ e, refl), tt))
        (λ _. no_resume-Own (active session) requested user_id)
  resumed_from-Own (some (SessionLookup.expired owner)) requested user_id =
      no_resume-Own (SessionLookup.expired owner) requested user_id
  resumed_from-Own (some missing) requested user_id = no_resume-Own missing requested user_id

  -- Whatever the store answers or throws: a session that is rejoined is the requester's own, by the text
  -- of the user id, and comes with no failure; `expired` is told only to the owner of a session that the
  -- store found expired, and any failure only to a requester that named an id.
  pub resumable_session-Own :
      (store : ResumeStore) (r : Requester) (options : Option SessionResumeOptions)
      → OwnOutcome
          (stored_session
            (look_up store r.requested_session_id r.start_new_session r.user_id options))
          r.requested_session_id
          r.user_id
          (resumable_session number_text store r options)
  unfolding resumable_session
  resumable_session-Own store r options = resumed_from-Own _ r.requested_session_id r.user_id
