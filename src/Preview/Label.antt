-- ===== src/Preview/Label.antt =====
-- infrastructure/stores/sessionPreview.ts: what a label is, whoever derives it.
use halengine.Prelude.{
  ◌≤◌, ◌≡◌, ◌≢◌, refl, sym, ap, subst, ◌∙◌, Text, true, false, ◌&&◌, Option, none, some, [], ◌∷◌,
  take, take_all, length, length-take, leb, leb→le, le→leb, ◌==◌, ==_iff, if-either, and→both,
  both→and, Json, str, arith,
}
use halengine.Preview.{points, join, strip_end, non_empty, label_of, label_from}
use halengine.Preview.Cut.{
  IsPrefix, IsPrefix-trans, join-points, points-join-take, length-points, points-prefix,
  join-take-IsPrefix, take-IsPrefix,
}
use halengine.Preview.Tidy.{
  IsTidy, leads_white, ends_white, trim-IsTidy, strip_end-IsTidy, strip_end-IsPrefix, trim-fixed,
}

-- A text that is its own label.
record IsLabel (s : Text) : Type 0 where
  is_tidy : IsTidy s
  is_short : length (points s) ≤ 120

IsLabelled : Option Text → Type 0
IsLabelled none = Unit
IsLabelled (some s) = IsLabel s × (s ≢ [])

non_empty-IsLabelled : (s : Text) → IsLabel s → IsLabelled (non_empty s)
unfolding non_empty IsLabelled
non_empty-IsLabelled [] h = tt
non_empty-IsLabelled (u ∷ s) h = (h, λ e. cc e)

-- A text that no cut reached is its own label.
uncut :
    (s : Text)
    → length (points (take 240 s)) ≤ 120
    → length (take 240 s) ≡ length s
    → join (take 120 (points (take 240 s))) ≡ s
uncut s few whole =
    ap join (take_all 120 (points (take 240 s)) few)
    ∙ join-points (take 240 s)
    ∙ take_all 240 s (omega (arith, length-take 240 s, whole))

cut-IsPrefix : (s : Text) → IsPrefix (join (take 120 (points (take 240 s)))) s
cut-IsPrefix s =
    IsPrefix-trans _ (take 240 s) s
      (subst (λ t. IsPrefix (join (take 120 (points (take 240 s)))) t) (join-points (take 240 s))
        (join-take-IsPrefix 120 (points (take 240 s))))
      (take-IsPrefix 240 s)

cut_short : (s : Text) → length (points (strip_end (join (take 120 (points s))))) ≤ 120
cut_short s =
    let (r, e) = strip_end-IsPrefix (join (take 120 (points s))) in
    omega (
      arith,
      points-prefix (strip_end (join (take 120 (points s)))) r,
      ap (λ t. length (points t)) e,
      ap length (points-join-take 120 s),
      length-take 120 (points s),
    )

label_of-IsLabelled : (s : Text) → IsTidy s → IsLabelled (label_of s)
unfolding label_of
label_of-IsLabelled s h =
    if-either IsLabelled (leb (length (points (take 240 s))) 120 && length (take 240 s) == length s)
      (λ e. whole (and→both (leb (length (points (take 240 s))) 120) _ e))
      (λ _. non_empty-IsLabelled _ (record {
        is_tidy = strip_end-IsTidy _ s h (cut-IsPrefix s);
        is_short = cut_short (take 240 s);
      }))
  where
    whole :
        (leb (length (points (take 240 s))) 120 ≡ true) × ((length (take 240 s) == length s) ≡ true)
        → IsLabelled (non_empty (join (take 120 (points (take 240 s)))))
    whole (a, b) =
        let few : length (points (take 240 s)) ≤ 120 = leb→le _ _ a in
        let all : length (take 240 s) ≡ length s = (==_iff _ _).0 b in
        subst (λ t. IsLabelled (non_empty t)) (sym (uncut s few all))
          (non_empty-IsLabelled s (record {
            is_tidy = h;
            is_short =
                subst (λ t. length (points t) ≤ 120)
                  (take_all 240 s (omega (arith, length-take 240 s, all))) few;
          }))

non_empty-some : (s : Text) → s ≢ [] → non_empty s ≡ some s
unfolding non_empty
non_empty-some [] h = absurd (h refl)
non_empty-some (u ∷ s) h = refl

label_of-fixed : (s : Text) → IsLabel s → s ≢ [] → label_of s ≡ some s
unfolding label_of
label_of-fixed s h ink =
    if-either (λ o. o ≡ some s)
      (leb (length (points (take 240 s))) 120 && length (take 240 s) == length s)
      (λ _. ap non_empty (uncut s few (ap length same)) ∙ non_empty-some s ink)
      (λ e. absurd (
        cc (
          e,
          both→and (leb (length (points (take 240 s))) 120) (length (take 240 s) == length s)
              (le→leb _ _ few) ((==_iff _ _).1 (ap length same)),
        )))
  where
    same : take 240 s ≡ s
    same = take_all 240 s (omega (arith, length-points s, h.is_short))

    few : length (points (take 240 s)) ≤ 120
    few = subst (λ t. length (points t) ≤ 120) (sym same) h.is_short

label_from-IsLabelled : (j : Json) → IsLabelled (label_from j)
unfolding label_from IsLabelled
label_from-IsLabelled (str s) = label_of-IsLabelled _ (trim-IsTidy s)
label_from-IsLabelled _ = tt

labelled : (o : Option Text) (s : Text) → o ≡ some s → IsLabelled o → IsLabel s × (s ≢ [])
unfolding IsLabelled
labelled o s e h = subst IsLabelled e h

-- A label that is derived from any value has at least one and at most 120 code points, begins and ends
-- with no white space, and is its own label: deriving it again, from the text a store answered with,
-- gives the same.
pub label_from_fixed :
    (value : Json) (label : Text)
    → label_from value ≡ some label
    → (label_from (str label) ≡ some label)
      × (1 ≤ length (points label))
      × (length (points label) ≤ 120)
      × (leads_white label ≡ false)
      × (ends_white label ≡ false)
unfolding label_from
label_from_fixed value label e =
    let (h, ink) = labelled (label_from value) label e (label_from-IsLabelled value) in
    (
      ap label_of (trim-fixed label h.is_tidy) ∙ label_of-fixed label h ink,
      omega (arith, length-points label, some_unit label ink),
      h.is_short,
      h.is_tidy.no_lead,
      h.is_tidy.no_trail,
    )
  where
    some_unit : (s : Text) → s ≢ [] → 1 ≤ length s
    some_unit [] h = absurd (h refl)
    some_unit (u ∷ s) h = omega arith
