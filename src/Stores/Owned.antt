-- ===== src/Stores/Owned.antt =====
-- infrastructure/stores/inMemorySessionStore.ts: what a user is shown, and how long a session lives.
use halengine.Prelude.{
  ℕ, zero, suc, ◌-◌, ◌≤◌, ◌≡◌, refl, sym, ap, subst, ◌∙◌, Text, text_eq, Bool, true, false, not,
  ◌&&◌, Option, none, some, List, [], ◌∷◌, map, length, take, if◌then◌else◌, ◌==◌, All, Number,
  map_get, map_set, map_delete, get-set_self, get-set_ne, get-delete_self, if-either, and→both,
  arith, ◌⊎◌, inl, inr,
}
use mathlib.Core.Option
use mathlib.Core.List.{Perm}
use halengine.Session.{ChatSession, UserId}
use halengine.Stores.{
  SessionSummary, SessionCursor, SessionListOptions, SessionCreateOptions, HeldSession, active,
  expired, missing, capped_limit, is_scalar_user_id, user_id_eq, ListRow, sort_rows, rows_after,
  rows_from, sits_after,
}
use halengine.Stores.Memory.{
  Sessions, Clock, has_expired, summary_of, row_of, sweep_expired, create, lookup_held, lookup,
  owned_by, rows_of, page_of, labelled, first_session, list_for, latest_for,
}
use halengine.Stores.Order.{All-imp, IsSorted, All-sort_rows, sort_rows-IsSorted, sort_rows-Perm}
use halengine.Stores.Paging.{walk, walk-rest}
use halengine.Stores.Keys.{IsKeyed, owned_by-IsDistinct}

module _ (date_parse : Text → Number) (max_age_ms : ℕ) (now : Clock) (user_id : UserId)
    (sessions : Sessions) where
  -- A user pages through a store whose sessions are held once each, under their own ids, from the top,
  -- each page from the last row of the one before, and the clock stands still. If the user id is usable
  -- and the limit is not 0, the pages together are the whole list: every live session of that user, each
  -- once, newest activity first.
  pub walk_all :
      (limit : Option Number)
      → IsKeyed sessions
      → is_scalar_user_id user_id ≡ true
      → 1 ≤ capped_limit limit
      → (walk date_parse max_age_ms
            (suc (length (rows_of date_parse max_age_ms now user_id sessions)))
            now
            user_id
            limit
            sessions
            none
          ≡ map (λ row. row.summary) (rows_of date_parse max_age_ms now user_id sessions))
        × IsSorted (rows_of date_parse max_age_ms now user_id sessions)
        × Perm
            (rows_of date_parse max_age_ms now user_id sessions)
            (map (row_of date_parse) (owned_by max_age_ms now user_id sessions))
  unfolding rows_of rows_from
  walk_all limit keyed scalar positive = (
    walk-rest date_parse max_age_ms now user_id sessions _ (capped_limit limit - 1) limit [] _ none
        scalar (omega arith) sorted refl refl (omega arith),
    sorted,
    sort_rows-Perm (map (row_of date_parse) (owned_by max_age_ms now user_id sessions)),
  )
    where
      sorted :
          IsSorted (sort_rows (map (row_of date_parse) (owned_by max_age_ms now user_id sessions)))
      sorted =
          sort_rows-IsSorted _
            (owned_by-IsDistinct max_age_ms now date_parse user_id sessions keyed)

not→false : (b : Bool) → not b ≡ true → b ≡ false
not→false b h = ground (arith, h)

-- The store holds the session under some id.
abbrev pub IsHeld : HeldSession → Sessions → Type 0
IsHeld held [] = ⊥
IsHeld held ((id, w) ∷ m) = (w ≡ held) ⊎ IsHeld held m

module _ (max_age_ms : ℕ) (now : Clock) (user_id : UserId) where
  -- A session of the user's that has not aged out.
  abbrev pub IsLive : HeldSession → Type 0
  IsLive held =
      (user_id_eq held.session.user_id user_id ≡ true) × (has_expired max_age_ms now held ≡ false)

  owned_by-Live :
      (m : Sessions) → All (λ held. IsLive held × IsHeld held m) (owned_by max_age_ms now user_id m)
  unfolding owned_by
  owned_by-Live [] = tt
  owned_by-Live ((id, held) ∷ m) =
      if-either (All (λ h. IsLive h × IsHeld h ((id, held) ∷ m)))
        (user_id_eq held.session.user_id user_id && not (has_expired max_age_ms now held))
        (λ e. ((live (and→both _ _ e), inl refl), later (owned_by-Live m)))
        (λ _. later (owned_by-Live m))
    where
      later :
          All (λ h. IsLive h × IsHeld h m) (owned_by max_age_ms now user_id m)
          → All (λ h. IsLive h × IsHeld h ((id, held) ∷ m)) (owned_by max_age_ms now user_id m)
      later =
          All-imp (λ h. IsLive h × IsHeld h m) (λ h. IsLive h × IsHeld h ((id, held) ∷ m)) _
            (λ h l. (l.0, inr l.1))

      live :
          (user_id_eq held.session.user_id user_id ≡ true)
            × (not (has_expired max_age_ms now held) ≡ true)
          → IsLive held
      live (a, b) = (a, not→false _ b)

module _ (max_age_ms : ℕ) (now : Clock) (user_id : UserId) (sessions : Sessions) where
  -- One of the sessions that the store holds, live and the user's.
  abbrev pub IsOwnHeld : HeldSession → Type 0
  IsOwnHeld held = IsLive max_age_ms now user_id held × IsHeld held sessions

  -- What a summary is of.
  abbrev pub IsOwn : SessionSummary → Type 0
  IsOwn s = (held : HeldSession) × IsOwnHeld held × (s.session_id ≡ held.session.session_id)

  IsOwnRow : ListRow → Type 0
  IsOwnRow row = IsOwnHeld row.held × (row.summary.session_id ≡ row.held.session.session_id)

  rows-IsOwn :
      (date_parse : Text → Number) (hs : List HeldSession)
      → All IsOwnHeld hs
      → All IsOwnRow (map (row_of date_parse) hs)
  unfolding row_of summary_of IsOwnRow
  rows-IsOwn date_parse [] h = tt
  rows-IsOwn date_parse (held ∷ hs) h = ((h.0, refl), rows-IsOwn date_parse hs h.1)

  rows_after-All :
      (time : ℕ) (id : Text) (rows : List ListRow)
      → All IsOwnRow rows
      → All IsOwnRow (rows_after time id rows)
  unfolding rows_after
  rows_after-All time id [] h = tt
  rows_after-All time id (r ∷ rows) h =
      if-either (All IsOwnRow) (sits_after r.summary time id)
        (λ _. (h.0, rows_after-All time id rows h.1)) (λ _. rows_after-All time id rows h.1)

  page-IsOwn :
      (f : ListRow → SessionSummary)
      → ((row : ListRow) → (f row).session_id ≡ row.summary.session_id)
      → (n : ℕ) (rows : List ListRow) → All IsOwnRow rows
      → All IsOwn (map f (take n rows))
  unfolding IsOwnRow
  page-IsOwn f e zero rows h = tt
  page-IsOwn f e (suc n) [] h = tt
  page-IsOwn f e (suc n) (r ∷ rows) h = ((r.held, h.0.0, e r ∙ h.0.1), page-IsOwn f e n rows h.1)

  rows_from-All :
      (rows : List ListRow) (before : Option SessionCursor) (page : List ListRow)
      → rows_from rows before ≡ some page
      → All IsOwnRow rows
      → All IsOwnRow page
  unfolding rows_from
  rows_from-All rows none page e h = subst (All IsOwnRow) (Option.some-injective rows page e) h
  rows_from-All rows (some before) page e h = at before.updated_at e
    where
      at :
          (time : Option ℕ)
          → rows_from rows (some (record { updated_at = time; session_id = before.session_id }))
            ≡ some page
          → All IsOwnRow page
      at none k = absurd (cc k)
      at (some time) k =
          subst (All IsOwnRow) (Option.some-injective _ page k)
            (rows_after-All time before.session_id rows h)

  abbrev pub ShowsOwn : Option (List SessionSummary) → Type 0
  ShowsOwn none = Unit
  ShowsOwn (some page) = All IsOwn page

  mapped-ShowsOwn :
      (options : SessionListOptions) (n : ℕ) (answer : Option (List ListRow))
      → ((page : List ListRow) → answer ≡ some page → All IsOwnRow page)
      → ShowsOwn (Option.map (page_of options n) answer)
  unfolding page_of labelled
  mapped-ShowsOwn options n none h = tt
  mapped-ShowsOwn options n (some page) h =
      page-IsOwn (if options.preview then labelled else (λ row. row.summary))
        (λ row.
          if-either (λ (f : ListRow → SessionSummary). (f row).session_id ≡ row.summary.session_id)
            options.preview (λ _. refl) (λ _. refl))
        n page (h page refl)

  first-IsOwn :
      (rows : List ListRow) (session : ChatSession)
      → first_session rows ≡ some session
      → All IsOwnRow rows
      → (created_at : Option ℕ) × IsOwnHeld (record { session = session; created_at = created_at })
  unfolding IsOwnRow
  first-IsOwn [] session e h = absurd (cc e)
  first-IsOwn (row ∷ rows) session e h = (
    row.held.created_at,
    subst (λ s. IsOwnHeld (record { session = s; created_at = row.held.created_at }))
        (Option.some-injective row.held.session session e) h.0.0,
  )

  -- Whatever limit, cursor and preview a list is asked for with, each summary that it answers with has the
  -- id of a session that the store holds, that is that user's and that has not aged out; and the user's
  -- latest session is such a one itself.
  pub list_for-IsOwn :
      (date_parse : Text → Number) (options : SessionListOptions)
      → ShowsOwn (list_for date_parse max_age_ms now user_id options sessions)
        × ((session : ChatSession)
            → latest_for date_parse max_age_ms now user_id sessions ≡ some (some session)
            → (created_at : Option ℕ) × IsOwnHeld
                (record { session = session; created_at = created_at }))
  unfolding list_for latest_for
  list_for-IsOwn date_parse options = (
    if-either ShowsOwn (not (is_scalar_user_id user_id)) (λ _. tt)
        (λ _.
          if-either ShowsOwn (capped_limit options.limit == 0) (λ _. tt)
            (λ _.
              mapped-ShowsOwn options (capped_limit options.limit) _
                (λ page e. rows_from-All _ options.before page e own))),
    λ session.
        if-either
          (λ o.
            o ≡ some (some session)
            → (created_at : Option ℕ) × IsOwnHeld
                (record { session = session; created_at = created_at }))
          (is_scalar_user_id user_id)
          (λ _ e. first-IsOwn _ session (Option.some-injective _ (some session) e) own)
          (λ _ e. absurd (cc e)),
  )
    where
      own : All IsOwnRow (rows_of date_parse max_age_ms now user_id sessions)
      own =
          unfold rows_of in
          All-sort_rows IsOwnRow _
            (rows-IsOwn date_parse _ (owned_by-Live max_age_ms now user_id sessions))

module _ (max_age_ms : ℕ) where
  -- A sweep takes nothing away that has not aged out.
  get-sweep_expired :
      (now : Clock) (m : Sessions) (k : Text) (held : HeldSession)
      → map_get m k ≡ some held
      → has_expired max_age_ms now held ≡ false
      → map_get (sweep_expired max_age_ms now m) k ≡ some held
  unfolding sweep_expired map_get
  get-sweep_expired now [] k held e h = e
  get-sweep_expired now ((id, w) ∷ m) k held e h =
      if-either (λ z. map_get z k ≡ some held) (has_expired max_age_ms now w)
        (λ x.
          get-sweep_expired now m k held
            (if-either (λ o. o ≡ some held → map_get m k ≡ some held) (text_eq id k)
              (λ _ q.
                absurd
                  (cc (x, h, ap (has_expired max_age_ms now) (Option.some-injective w held q))))
              (λ _ q. q) e)
            h)
        (λ _. e)

  created_lem :
      (to_iso : ℕ → Text) (now : Clock) (id : Text) (user_id : UserId)
      (options : SessionCreateOptions) (m m' : Sessions) (session : ChatSession)
      → create max_age_ms to_iso now id user_id options m ≡ some (session, m')
      → (map_set
            (sweep_expired max_age_ms now m)
            id
            (record { session = session; created_at = now })
          ≡ m')
        × (session.user_id ≡ user_id)
  unfolding create
  created_lem to_iso now id user_id options m m' session =
      if-either
        (λ (o : Option (ChatSession × Sessions)).
          o ≡ some (session, m')
          → (map_set (sweep_expired max_age_ms now m) id
                (record { session = session; created_at = now })
              ≡ m')
            × (session.user_id ≡ user_id))
        (is_scalar_user_id user_id)
        (λ _ e.
          let q = Option.some-injective _ (session, m') e in
          let s = ap (λ (r : ChatSession × Sessions). r.0) q in
          (
            ap
                  (λ z.
                    map_set (sweep_expired max_age_ms now m) id
                      (record { session = z; created_at = now }))
                  (sym s)
                ∙ ap (λ (r : ChatSession × Sessions). r.1) q,
            ap (λ (z : ChatSession). z.user_id) (sym s),
          ))
        (λ _ e. absurd (cc e))

  lookup_held-live :
      (later : Clock) (id : Text) (held : HeldSession) (o : Option HeldSession) (m : Sessions)
      → o ≡ some held
      → has_expired max_age_ms later held ≡ false
      → lookup_held max_age_ms later id o m ≡ (active held.session, m)
  unfolding lookup_held
  lookup_held-live later id held o m e h = rw (e, h) refl

  lookup_held-expired :
      (later : Clock) (id : Text) (held : HeldSession) (o : Option HeldSession) (m : Sessions)
      → o ≡ some held
      → has_expired max_age_ms later held ≡ true
      → lookup_held max_age_ms later id o m ≡ (expired held.session.user_id, map_delete m id)
  unfolding lookup_held
  lookup_held-expired later id held o m e h = rw (e, h) refl

  lookup_held-none :
      (later : Clock) (id : Text) (o : Option HeldSession) (m : Sessions)
      → o ≡ none
      → lookup_held max_age_ms later id o m ≡ (missing, m)
  unfolding lookup_held
  lookup_held-none later id o m e = rw e refl

  -- The look up of a session that was created: until it has aged out it is there, after that it is
  -- expired once, by its owner, and missing from then on. Opening it loses no other session that has not
  -- aged out.
  pub create-lookup :
      (to_iso : ℕ → Text) (now later : Clock) (id : Text) (user_id : UserId)
      (options : SessionCreateOptions) (m m' : Sessions) (session : ChatSession)
      → create max_age_ms to_iso now id user_id options m ≡ some (session, m')
      → (has_expired max_age_ms later (record { session = session; created_at = now }) ≡ false
          → lookup max_age_ms later id m' ≡ (active session, m'))
        × (has_expired max_age_ms later (record { session = session; created_at = now }) ≡ true
            → (lookup max_age_ms later id m' ≡ (expired user_id, map_delete m' id))
              × ((again : Clock)
                  → lookup max_age_ms again id (map_delete m' id) ≡ (missing, map_delete m' id)))
        × ((k : Text) (held : HeldSession)
            → text_eq id k ≡ false
            → map_get m k ≡ some held
            → has_expired max_age_ms now held ≡ false
            → map_get m' k ≡ some held)
  unfolding lookup
  create-lookup to_iso now later id user_id options m m' session e = (
    λ h. lookup_held-live later id held (map_get m' id) m' found h,
    λ h. (
      lookup_held-expired later id held (map_get m' id) m' found h
          ∙ ap (λ u. (expired u, map_delete m' id)) (made.1),
      λ again.
          lookup_held-none again id (map_get (map_delete m' id) id) (map_delete m' id)
            (get-delete_self m' id),
    ),
    λ k other d g h.
        ap (λ z. map_get z k) (sym made.0)
        ∙ get-set_ne (sweep_expired max_age_ms now m) id k held d
        ∙ get-sweep_expired now m k other g h,
  )
    where
      held : HeldSession
      held = record { session = session; created_at = now }

      made : (map_set (sweep_expired max_age_ms now m) id held ≡ m') × (session.user_id ≡ user_id)
      made = created_lem to_iso now id user_id options m m' session e

      found : map_get m' id ≡ some held
      found =
          ap (λ z. map_get z id) (sym made.0)
          ∙ get-set_self (sweep_expired max_age_ms now m) id held
