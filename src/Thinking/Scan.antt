-- ===== src/Thinking/Scan.antt =====
-- The reference scan on what `indexOf` and `partialMatchLength` find, whatever text follows.
use Prim.Native.Nat.add
use halengine.Prelude.{
  ℕ, zero, suc, ◌+◌, ◌-◌, ◌≤◌, ◌<◌, min, Text, text_eq_refl, has_prefix, Bool, true, false, not,
  ◌≡◌, refl, ap, ◌∙◌, ◌≢◌, some, none, ◌⊎◌, inl, inr, [], ◌∷◌, ◌++◌, length, length-drop, take,
  drop, arith, Bool-cases, Option-cases,
}
use halengine.Thinking.{tag_of, type_of, index_of, ends_with, partial_match_length}
use halengine.Thinking.Search.{
  has_prefix-length, has_prefix-append, has_prefix-short, index_of-some, index_of-none,
  partial_from-max,
}
use halengine.Thinking.Reference.{label, scan_from, scan}

pub scan_from-drop : (m : Bool) (k : ℕ) (s : Text) → scan_from m k s ≡ scan m (drop k s)
unfolding scan scan_from
scan_from-drop m zero s = refl
scan_from-drop m (suc k) [] = refl
scan_from-drop m (suc k) (c ∷ s) = scan_from-drop m k s

scan-tag :
    (m : Bool) (b : ℕ) (s : Text)
    → has_prefix (tag_of m) (b ∷ s) ≡ true
    → scan m (b ∷ s) ≡ scan (not m) (drop (length (tag_of m)) (b ∷ s))
unfolding scan scan_from
scan-tag true b s h = rw (h, scan_from) (scan_from-drop false 10 s)
scan-tag false b s h = rw (h, scan_from) (scan_from-drop true 9 s)

scan-unit :
    (m : Bool) (b : ℕ) (s : Text)
    → has_prefix (tag_of m) (b ∷ s) ≡ false
    → scan m (b ∷ s) ≡ (type_of m, b) ∷ scan m s
unfolding scan scan_from
scan-unit m b s h = rw (h, scan_from)

drop-append_left : (k : ℕ) (s c : Text) → k ≤ length s → drop k (s ++ c) ≡ drop k s ++ c
drop-append_left zero s c h = refl
drop-append_left (suc k) [] c h = absurd (omega arith)
drop-append_left (suc k) (x ∷ s) c h = drop-append_left k s c (omega arith)

-- A tag found at `i` ends the mode there.
pub scan-found :
    (m : Bool) (s c : Text) (i : ℕ)
    → index_of (tag_of m) s ≡ some i
    → scan m (s ++ c)
      ≡ label (type_of m) (take i s) ++ scan (not m) (drop (i + length (tag_of m)) s ++ c)
unfolding index_of
scan-found m [] c i e = ground arith
scan-found m (b ∷ s) c i e = elim (Bool-cases (has_prefix (tag_of m) (b ∷ s))) [
  | inl h ↦
      let at_head : i ≡ 0 = ground arith in
      let fits : length (tag_of m) ≤ length (b ∷ s) = has_prefix-length (tag_of m) (b ∷ s) h in
      rw (at_head, add.zero)
        (scan-tag m b (s ++ c) (has_prefix-append (tag_of m) (b ∷ s) c fits ∙ h)
          ∙ ap (scan (not m)) (drop-append_left (length (tag_of m)) (b ∷ s) c fits))
  | inr h ↦ elim (Option-cases (index_of (tag_of m) s)) [
    | inl n ↦ ground arith
    | inr (j, f) ↦
        let later : i ≡ suc j = ground arith in
        let room : j + length (tag_of m) ≤ length s = index_of-some (tag_of m) s j f in
        let fits : length (tag_of m) ≤ length (b ∷ s) = omega arith in
        rw (later, add.suc)
          (scan-unit m b (s ++ c) (has_prefix-append (tag_of m) (b ∷ s) c fits ∙ h)
            ∙ ap (◌∷◌ (type_of m, b)) (scan-found m s c j f))
  ]
]

-- A stretch in which no tag starts is emitted as it is.
pub scan-plain :
    (m : Bool) (h : ℕ) (s c : Text)
    → h ≤ length s
    → ((i : ℕ) → i < h → has_prefix (tag_of m) (drop i s ++ c) ≡ false)
    → scan m (s ++ c) ≡ label (type_of m) (take h s) ++ scan m (drop h s ++ c)
scan-plain m zero s c l p = refl
scan-plain m (suc h) [] c l p = absurd (omega arith)
scan-plain m (suc h) (b ∷ s) c l p =
    rw (scan-unit m b (s ++ c) (p 0 (omega arith)))
      (ap (◌∷◌ (type_of m, b)) (scan-plain m h s c (omega arith) (λ i q. p (suc i) (omega arith))))

ends_with-drop : (i : ℕ) (s : Text) → i ≤ length s → ends_with s (drop i s) ≡ true
unfolding ends_with
ends_with-drop i s h =
    let back : length s - length (drop i s) ≡ i = omega (arith, length-drop i s) in
    rw back (text_eq_refl (drop i s))

-- With no tag in the text, none starts before the part held back, whatever follows.
pub no_tag_before_held :
    (tag s c : Text) (i : ℕ)
    → tag ≢ []
    → index_of tag s ≡ none
    → i < length s - partial_match_length s tag
    → has_prefix tag (drop i s ++ c) ≡ false
unfolding partial_match_length
no_tag_before_held tag s c i t e l = elim (Bool-cases (has_prefix tag (drop i s ++ c))) [
  | inr h ↦ h
  | inl h ↦ elim (le_or_lt (length tag) (length (drop i s))) [
    | inl long ↦ has_prefix-append tag (drop i s) c long ∙ index_of-none tag s i t e
    | inr short ↦
        let size : length (drop i s) ≡ length s - i = length-drop i s in
        let longer : partial_match_length s tag < length (drop i s) = omega arith in
        let same : take (length (drop i s)) tag ≡ drop i s =
          has_prefix-short tag (drop i s) c (omega arith) h in
        let ends : ends_with s (drop i s) ≡ false = rw (← same) (
          partial_from-max s tag (min (length s) (length tag - 1)) (length (drop i s)) longer
            (omega arith)) in
        cc (ends_with-drop i s (omega arith))
  ]
]
  where
    le_or_lt : (a b : ℕ) → (a ≤ b) ⊎ (b < a)
    le_or_lt a b = grind arith
