-- ===== src/Stores/Paging.antt =====
-- infrastructure/stores/inMemorySessionStore.ts: a client that pages through its list.
use halengine.Prelude.{
  ℕ, zero, suc, ◌<◌, ◌≡◌, refl, sym, ap, subst, ◌∙◌, Text, Bool, true, false, Option, none, some,
  List, [], ◌∷◌, ◌++◌, map, take, drop, length, take-append-drop, length-drop, append_assoc,
  if◌then◌else◌, ◌==◌, ==_iff, All, if-either, arith, Number,
}
use mathlib.Core.List.{map-append}
use halengine.Session.{UserId}
use halengine.Stores.{
  SessionSummary, SessionCursor, SessionListOptions, sits_after, capped_limit, is_scalar_user_id,
  ListRow, rows_after, rows_from,
}
use halengine.Stores.Memory.{Sessions, Clock, rows_of, page_of, list_for}
use halengine.Stores.Order.{After, After-asym, After-irrefl, IsSorted}

-- A summary as the cursor of the next page.
abbrev pub cursor_of : SessionSummary → SessionCursor
cursor_of s = record { updated_at = some s.updated_at; session_id = s.session_id }

rest_kept :
    (r : ListRow) (ys : List ListRow)
    → All (λ y. After r.summary y.summary) ys
    → rows_after r.summary.updated_at r.summary.session_id ys ≡ ys
unfolding rows_after
rest_kept r [] h = refl
rest_kept r (y ∷ ys) h = rw (h.0) (ap (◌∷◌ y) (rest_kept r ys h.1))

skipped :
    (r x : ListRow) (rows : List ListRow)
    → sits_after x.summary r.summary.updated_at r.summary.session_id ≡ false
    → rows_after r.summary.updated_at r.summary.session_id (x ∷ rows)
      ≡ rows_after r.summary.updated_at r.summary.session_id rows
unfolding rows_after
skipped r x rows h = rw h

All-middle {κ} :
    (P : ListRow → Type κ) (xs ys : List ListRow) (r : ListRow) → All P (xs ++ r ∷ ys) → P r
All-middle P [] ys r h = h.0
All-middle P (x ∷ xs) ys r h = All-middle P xs ys r h.1

-- The page after a row is the rest of the list, no more and no less.
pub rest_after :
    (xs ys : List ListRow) (r : ListRow)
    → IsSorted (xs ++ r ∷ ys)
    → rows_after r.summary.updated_at r.summary.session_id (xs ++ r ∷ ys) ≡ ys
rest_after [] ys r h = skipped r r ys (After-irrefl r.summary) ∙ rest_kept r ys h.0
rest_after (x ∷ xs) ys r h =
    skipped r x (xs ++ r ∷ ys)
      (After-asym x.summary r.summary (All-middle (λ y. After x.summary y.summary) xs ys r h.0))
    ∙ rest_after xs ys r h.1

-- What a page ends with.
last_split :
    (n : ℕ) (y : ListRow) (ys : List ListRow)
    → (zs : List ListRow) × (r : ListRow) × (take (suc n) (y ∷ ys) ≡ zs ++ r ∷ [])
last_split zero y ys = ([], y, refl)
last_split (suc n) y [] = ([], y, refl)
last_split (suc n) y (z ∷ ys) = let (zs, r, e) = last_split n z ys in (y ∷ zs, r, ap (◌∷◌ y) e)

abbrev pub cursor_after : List SessionSummary → Option SessionCursor
cursor_after [] = none
cursor_after (s ∷ []) = some (cursor_of s)
cursor_after (s ∷ t ∷ rest) = cursor_after (t ∷ rest)

cursor_after-last :
    (zs : List ListRow) (r : ListRow)
    → cursor_after (map (λ row. row.summary) (zs ++ r ∷ [])) ≡ some (cursor_of r.summary)
cursor_after-last [] r = refl
cursor_after-last (z ∷ []) r = refl
cursor_after-last (z ∷ z' ∷ zs) r = cursor_after-last (z' ∷ zs) r

abbrev pub page_answer : Option (List SessionSummary) → List SessionSummary
page_answer none = []
page_answer (some page) = page

abbrev pub is_empty {ℓ} : {A : Type ℓ} → List A → Bool
is_empty [] = true
is_empty (x ∷ xs) = false

abbrev pub plain_options : Option Number → Option SessionCursor → SessionListOptions
plain_options limit before = record { limit = limit; before = before; preview = false }

module _ (date_parse : Text → Number) (max_age_ms : ℕ) where
  -- A client asks for page after page, each from the last row of the one before, until one is empty.
  unfoldable pub walk :
      ℕ → Clock → UserId → Option Number → Sessions → Option SessionCursor → List SessionSummary
  walk zero now user_id limit sessions before = []
  walk (suc fuel) now user_id limit sessions before =
      let page =
        page_answer
          (list_for date_parse max_age_ms now user_id (plain_options limit before) sessions) in
      let rest = walk fuel now user_id limit sessions (cursor_after page) in
      if is_empty page then [] else page ++ rest

  module _ (now : Clock) (user_id : UserId) (sessions : Sessions) where
    abbrev rows : List ListRow
    rows = rows_of date_parse max_age_ms now user_id sessions

    list_for-page :
        (limit : Option Number) (before : Option SessionCursor) (n : ℕ) (ys : List ListRow)
        → is_scalar_user_id user_id ≡ true
        → capped_limit limit ≡ suc n
        → rows_from rows before ≡ some ys
        → list_for date_parse max_age_ms now user_id (plain_options limit before) sessions
          ≡ some (map (λ row. row.summary) (take (suc n) ys))
    unfolding list_for page_of
    list_for-page limit before n ys s l f =
        rw (s, l, f)
          (if-either (λ o. o ≡ some (map (λ row. row.summary) (take (suc n) ys))) (suc n == 0)
            (λ e. absurd (omega (arith, (==_iff (suc n) 0).0 e))) (λ _. refl))

    -- The list cut before a page, and within it before the last row of the page.
    cut_at_last :
        (n : ℕ) (xs ys zs : List ListRow) (y r : ListRow)
        → xs ++ y ∷ ys ≡ rows
        → take (suc n) (y ∷ ys) ≡ zs ++ r ∷ []
        → (xs ++ zs) ++ r ∷ drop n ys ≡ rows
    cut_at_last n xs ys zs y r e k =
        append_assoc xs zs (r ∷ drop n ys)
        ∙ ap (λ t. xs ++ t)
            (sym (append_assoc zs (r ∷ []) (drop n ys))
              ∙ ap (λ t. t ++ drop n ys) (sym k)
              ∙ take-append-drop (suc n) (y ∷ ys))
        ∙ e

    next_from :
        (n : ℕ) (xs ys : List ListRow) (y : ListRow)
        → IsSorted rows
        → xs ++ y ∷ ys ≡ rows
        → rows_from rows (cursor_after (map (λ row. row.summary) (take (suc n) (y ∷ ys))))
          ≡ some (drop n ys)
    unfolding rows_from
    next_from n xs ys y o e =
        let (zs, r, k) = last_split n y ys in
        let cut = cut_at_last n xs ys zs y r e k in
        ap (rows_from rows)
          (ap (λ t. cursor_after (map (λ row. row.summary) t)) k ∙ cursor_after-last zs r)
        ∙ ap some (
            subst (λ z. rows_after r.summary.updated_at r.summary.session_id z ≡ drop n ys) cut
              (rest_after (xs ++ zs) (drop n ys) r (subst IsSorted (sym cut) o)))

    -- Where the pages so far have shown `xs`, the next ones show the rest.
    pub walk-rest :
        (fuel n : ℕ) (limit : Option Number) (xs ys : List ListRow) (before : Option SessionCursor)
        → is_scalar_user_id user_id ≡ true
        → capped_limit limit ≡ suc n
        → IsSorted rows
        → xs ++ ys ≡ rows
        → rows_from rows before ≡ some ys
        → length ys < fuel
        → walk fuel now user_id limit sessions before ≡ map (λ row. row.summary) ys
    unfolding walk rows_from
    walk-rest zero n limit xs ys before s l o e f h = absurd (omega arith)
    walk-rest (suc fuel) n limit xs [] before s l o e f h =
        rw (list_for-page limit before n [] s l f) refl
    walk-rest (suc fuel) n limit xs (y ∷ ys) before s l o e f h =
        rw (list_for-page limit before n (y ∷ ys) s l f) (
          ap (λ t. map (λ row. row.summary) (take (suc n) (y ∷ ys)) ++ t)
            (walk-rest fuel n limit (xs ++ take (suc n) (y ∷ ys)) (drop n ys)
              (cursor_after (map (λ row. row.summary) (take (suc n) (y ∷ ys)))) s l o
              (append_assoc xs (take (suc n) (y ∷ ys)) (drop n ys)
                ∙ ap (λ t. xs ++ t) (take-append-drop (suc n) (y ∷ ys))
                ∙ e)
              (next_from n xs ys y o e) (omega (arith, length-drop n ys, h)))
          ∙ sym (map-append (λ row. row.summary) (take (suc n) (y ∷ ys)) (drop n ys))
          ∙ ap (map (λ row. row.summary)) (take-append-drop (suc n) (y ∷ ys)))
