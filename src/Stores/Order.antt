-- ===== src/Stores/Order.antt =====
-- infrastructure/stores/sessionListWindow.ts: the order of a list is total on distinct session ids.
use halengine.Prelude.{
  ◌≡◌, ◌⊎◌, refl, Text, text_eq, true, false, List, [], ◌∷◌, All, Bool-cases, if-either, inl, inr,
  arith,
}
use mathlib.Core.List.{Perm}
use mathlib.Core.List.Perm
use halengine.Stores.{
  SessionSummary, text_lt, newest_first, sits_after, ListRow, insert_row, sort_rows,
}

pub text_lt_trans : (r s t : Text) → text_lt r s ≡ true → text_lt s t ≡ true → text_lt r t ≡ true
unfolding text_lt
text_lt_trans r s [] h k = k
text_lt_trans r [] (w ∷ t) h k = absurd (cc h)
text_lt_trans [] (v ∷ s) (w ∷ t) h k = refl
text_lt_trans (u ∷ r) (v ∷ s) (w ∷ t) h k = ground (arith, text_lt_trans r s t, h, k)

pub text_lt_irrefl : (s : Text) → text_lt s s ≡ false
unfolding text_lt
text_lt_irrefl [] = refl
text_lt_irrefl (u ∷ s) = ground (arith, text_lt_irrefl s)

pub text_lt_total : (s t : Text) → text_eq s t ≡ false → (text_lt s t ≡ true) ⊎ (text_lt t s ≡ true)
unfolding text_lt
text_lt_total [] [] h = absurd (cc h)
text_lt_total [] (v ∷ t) h = inl refl
text_lt_total (u ∷ s) [] h = inr refl
text_lt_total (u ∷ s) (v ∷ t) h = ground (arith, text_lt_total s t, h)

-- `later` comes after `row` in the order of a list.
abbrev pub After : SessionSummary → SessionSummary → Type 0
After row later = sits_after later row.updated_at row.session_id ≡ true

pub After-trans : (r x y : SessionSummary) → After r x → After x y → After r y
unfolding sits_after
After-trans r x y h k = ground (arith, text_lt_trans y.session_id x.session_id r.session_id, h, k)

pub After-irrefl : (r : SessionSummary) → sits_after r r.updated_at r.session_id ≡ false
unfolding sits_after
After-irrefl r = ground (arith, text_lt_irrefl r.session_id)

-- No row comes after one that comes after it.
pub After-asym : (r x : SessionSummary) → After r x → sits_after r x.updated_at x.session_id ≡ false
After-asym r x h = elim (Bool-cases (sits_after r x.updated_at x.session_id)) [
  | inl k ↦ absurd (cc (After-trans r x r h k, After-irrefl r))
  | inr k ↦ k
]

newest_first→After :
    (r x : SessionSummary)
    → text_eq r.session_id x.session_id ≡ false
    → newest_first r x ≡ true
    → After r x
unfolding newest_first sits_after
newest_first→After r x d h = ground (arith, text_lt_total r.session_id x.session_id d, h)

older→After : (r x : SessionSummary) → newest_first r x ≡ false → After x r
unfolding newest_first sits_after
older→After r x h = ground (arith, h)

-- Each row comes after all before it.
abbrev pub IsSorted : List ListRow → Type 0
IsSorted [] = Unit
IsSorted (r ∷ rows) = All (λ x. After r.summary x.summary) rows × IsSorted rows

abbrev pub Differs : ListRow → ListRow → Type 0
Differs r x = text_eq r.summary.session_id x.summary.session_id ≡ false

-- No two rows have one session id.
abbrev pub IsDistinct : List ListRow → Type 0
IsDistinct [] = Unit
IsDistinct (r ∷ rows) = All (Differs r) rows × IsDistinct rows

pub All-imp {ℓ κ λ'} :
    {A : Type ℓ} (P : A → Type κ) (Q : A → Type λ') (xs : List A)
    → ((x : A) → P x → Q x)
    → All P xs
    → All Q xs
All-imp P Q [] f h = tt
All-imp P Q (x ∷ xs) f h = (f x h.0, All-imp P Q xs f h.1)

pub All-insert_row {κ} :
    (P : ListRow → Type κ) (r : ListRow) (rows : List ListRow)
    → P r
    → All P rows
    → All P (insert_row r rows)
unfolding insert_row
All-insert_row P r [] h hs = (h, tt)
All-insert_row P r (x ∷ rows) h hs =
    if-either (All P) (newest_first r.summary x.summary) (λ _. (h, hs))
      (λ _. (hs.0, All-insert_row P r rows h hs.1))

pub All-sort_rows {κ} :
    (P : ListRow → Type κ) (rows : List ListRow) → All P rows → All P (sort_rows rows)
unfolding sort_rows
All-sort_rows P [] h = tt
All-sort_rows P (r ∷ rows) h = All-insert_row P r (sort_rows rows) h.0 (All-sort_rows P rows h.1)

insert_row-IsSorted :
    (r : ListRow) (rows : List ListRow)
    → All (Differs r) rows
    → IsSorted rows
    → IsSorted (insert_row r rows)
unfolding insert_row
insert_row-IsSorted r [] d h = (tt, tt)
insert_row-IsSorted r (x ∷ rows) d h =
    if-either IsSorted (newest_first r.summary x.summary)
      (λ n. (
        (
          newest_first→After r.summary x.summary d.0 n,
          All-imp _ _ rows
              (λ y k.
                After-trans r.summary x.summary y.summary
                  (newest_first→After r.summary x.summary d.0 n) k)
              h.0,
        ),
        h,
      ))
      (λ o. (
        All-insert_row (λ y. After x.summary y.summary) r rows (older→After r.summary x.summary o)
            h.0,
        insert_row-IsSorted r rows d.1 h.1,
      ))

pub sort_rows-IsSorted : (rows : List ListRow) → IsDistinct rows → IsSorted (sort_rows rows)
unfolding sort_rows
sort_rows-IsSorted [] d = tt
sort_rows-IsSorted (r ∷ rows) d =
    insert_row-IsSorted r (sort_rows rows) (All-sort_rows (Differs r) rows d.0)
      (sort_rows-IsSorted rows d.1)

insert_row-Perm : (r : ListRow) (rows : List ListRow) → Perm (insert_row r rows) (r ∷ rows)
unfolding insert_row
insert_row-Perm r [] = Perm.rfl
insert_row-Perm r (x ∷ rows) =
    if-either (λ out. Perm out (r ∷ x ∷ rows)) (newest_first r.summary x.summary) (λ _. Perm.rfl)
      (λ _. Perm.trans (Perm.cons x (insert_row-Perm r rows)) (Perm.swap r x rows))

pub sort_rows-Perm : (rows : List ListRow) → Perm (sort_rows rows) rows
unfolding sort_rows
sort_rows-Perm [] = Perm.rfl
sort_rows-Perm (r ∷ rows) =
    Perm.trans (insert_row-Perm r (sort_rows rows)) (Perm.cons r (sort_rows-Perm rows))
