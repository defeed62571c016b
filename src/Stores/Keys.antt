-- ===== src/Stores/Keys.antt =====
-- infrastructure/stores/inMemorySessionStore.ts: each session is held once, under its own id.
use halengine.Prelude.{
  ℕ, ◌≡◌, refl, sym, ap, subst, ◌∙◌, Text, text_eq, text_eq_refl, text_eq→eq, false, not, ◌&&◌,
  Option, none, some, [], ◌∷◌, map, All, map_get, map_set, map_delete, Bool-cases, if-either, inl,
  inr, Number,
}
use halengine.Session.{ChatSession, UserId}
use halengine.Stores.{
  HeldSession, SessionCreateOptions, SessionLookup, is_scalar_user_id, user_id_eq,
}
use halengine.Stores.Memory.{
  Sessions, Clock, has_expired, row_of, sweep_expired, create, lookup_held, lookup, get_held, get,
  delete, owned_by, summary_of,
}
use halengine.Stores.Order.{IsDistinct, Differs}

abbrev pub Other : Text → Text × HeldSession → Type 0
Other id kept = text_eq id kept.0 ≡ false

-- No id stands twice, and each is that of the session under it.
abbrev pub IsKeyed : Sessions → Type 0
IsKeyed [] = Unit
IsKeyed ((id, held) ∷ sessions) =
    (held.session.session_id ≡ id) × All (Other id) sessions × IsKeyed sessions

Other-sym : (s t : Text) → text_eq s t ≡ false → text_eq t s ≡ false
Other-sym s t h = elim (Bool-cases (text_eq t s)) [
  | inl e ↦ absurd (cc (h, ap (text_eq s) (text_eq→eq t s e), text_eq_refl s))
  | inr e ↦ e
]

Other-set :
    (m : Sessions) (id key : Text) (v : HeldSession)
    → text_eq id key ≡ false
    → All (Other id) m
    → All (Other id) (map_set m key v)
unfolding map_set
Other-set [] id key v d h = (d, tt)
Other-set ((k, w) ∷ m) id key v d h =
    if-either (All (Other id)) (text_eq k key) (λ _. h) (λ _. (h.0, Other-set m id key v d h.1))

Other-delete : (m : Sessions) (id key : Text) → All (Other id) m → All (Other id) (map_delete m key)
unfolding map_delete
Other-delete [] id key h = tt
Other-delete ((k, w) ∷ m) id key h =
    if-either (All (Other id)) (text_eq k key) (λ _. Other-delete m id key h.1)
      (λ _. (h.0, Other-delete m id key h.1))

pub set-IsKeyed :
    (m : Sessions) (key : Text) (v : HeldSession)
    → v.session.session_id ≡ key
    → IsKeyed m
    → IsKeyed (map_set m key v)
unfolding map_set
set-IsKeyed [] key v e h = (e, tt, tt)
set-IsKeyed ((k, w) ∷ m) key v e h =
    if-either IsKeyed (text_eq k key) (λ s. (e ∙ sym (text_eq→eq k key s), h.1, h.2))
      (λ d. (h.0, Other-set m k key v d h.1, set-IsKeyed m key v e h.2))

pub delete-IsKeyed : (m : Sessions) (key : Text) → IsKeyed m → IsKeyed (map_delete m key)
unfolding map_delete
delete-IsKeyed [] key h = tt
delete-IsKeyed ((k, w) ∷ m) key h =
    if-either IsKeyed (text_eq k key) (λ _. delete-IsKeyed m key h.2)
      (λ _. (h.0, Other-delete m k key h.1, delete-IsKeyed m key h.2))

abbrev pub KeyedAfter : Option (ChatSession × Sessions) → Type 0
KeyedAfter none = Unit
KeyedAfter (some (session, m)) = IsKeyed m

module _ (max_age_ms : ℕ) (now : Clock) where
  sweep_expired-IsKeyed : (m : Sessions) → IsKeyed m → IsKeyed (sweep_expired max_age_ms now m)
  unfolding sweep_expired
  sweep_expired-IsKeyed [] h = tt
  sweep_expired-IsKeyed ((k, w) ∷ m) h =
      if-either IsKeyed (has_expired max_age_ms now w) (λ _. sweep_expired-IsKeyed m h.2) (λ _. h)

  create-IsKeyed :
      (to_iso : ℕ → Text) (id : Text) (user_id : UserId) (options : SessionCreateOptions)
      (m : Sessions)
      → IsKeyed m
      → KeyedAfter (create max_age_ms to_iso now id user_id options m)
  unfolding create
  create-IsKeyed to_iso id user_id options m h =
      if-either KeyedAfter (is_scalar_user_id user_id)
        (λ _. set-IsKeyed (sweep_expired max_age_ms now m) id _ refl (sweep_expired-IsKeyed m h))
        (λ _. tt)

  lookup_held-IsKeyed :
      (id : Text) (o : Option HeldSession) (m : Sessions)
      → IsKeyed m
      → IsKeyed (lookup_held max_age_ms now id o m).1
  unfolding lookup_held
  lookup_held-IsKeyed id none m h = h
  lookup_held-IsKeyed id (some held) m h =
      if-either (λ (r : SessionLookup × Sessions). IsKeyed r.1)
        (not (has_expired max_age_ms now held)) (λ _. h) (λ _. delete-IsKeyed m id h)

  get_held-IsKeyed :
      (id : Text) (o : Option HeldSession) (m : Sessions)
      → IsKeyed m
      → IsKeyed (get_held max_age_ms now id o m).1
  unfolding get_held
  get_held-IsKeyed id none m h = h
  get_held-IsKeyed id (some held) m h =
      if-either (λ (r : Option ChatSession × Sessions). IsKeyed r.1)
        (not (has_expired max_age_ms now held)) (λ _. h) (λ _. delete-IsKeyed m id h)

  -- Every call that writes the map leaves each session held once, under its own id: a create that does
  -- not throw, a lookup, a get and a delete.
  pub writes-IsKeyed :
      (to_iso : ℕ → Text) (id : Text) (user_id : UserId) (options : SessionCreateOptions)
      (m : Sessions)
      → IsKeyed m
      → KeyedAfter (create max_age_ms to_iso now id user_id options m)
        × IsKeyed (lookup max_age_ms now id m).1
        × IsKeyed (get max_age_ms now id m).1
        × IsKeyed (delete id m).1
  unfolding lookup get delete
  writes-IsKeyed to_iso id user_id options m h = (
    create-IsKeyed to_iso id user_id options m h,
    lookup_held-IsKeyed id (map_get m id) m h,
    get_held-IsKeyed id (map_get m id) m h,
    delete-IsKeyed m id h,
  )

  module _ (date_parse : Text → Number) (user_id : UserId) where
    owned_by-Differs :
        (held : HeldSession) (m : Sessions)
        → IsKeyed m
        → All (Other held.session.session_id) m
        → All
            (Differs (row_of date_parse held))
            (map (row_of date_parse) (owned_by max_age_ms now user_id m))
    unfolding owned_by row_of summary_of
    owned_by-Differs held [] h d = tt
    owned_by-Differs held ((k, w) ∷ m) h d =
        if-either (λ l. All (Differs (row_of date_parse held)) (map (row_of date_parse) l))
          (user_id_eq w.session.user_id user_id && not (has_expired max_age_ms now w))
          (λ _. (ap (text_eq held.session.session_id) h.0 ∙ d.0, owned_by-Differs held m h.2 d.1))
          (λ _. owned_by-Differs held m h.2 d.1)

    pub owned_by-IsDistinct :
        (m : Sessions)
        → IsKeyed m
        → IsDistinct (map (row_of date_parse) (owned_by max_age_ms now user_id m))
    unfolding owned_by
    owned_by-IsDistinct [] h = tt
    owned_by-IsDistinct ((k, w) ∷ m) h =
        if-either (λ l. IsDistinct (map (row_of date_parse) l))
          (user_id_eq w.session.user_id user_id && not (has_expired max_age_ms now w))
          (λ _. (
            owned_by-Differs w m h.2 (subst (λ z. All (Other z) m) (sym h.0) h.1),
            owned_by-IsDistinct m h.2,
          ))
          (λ _. owned_by-IsDistinct m h.2)
