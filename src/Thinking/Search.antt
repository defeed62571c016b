-- ===== src/Thinking/Search.antt =====
-- `indexOf` and `partialMatchLength` of the parser.
use halengine.Prelude.{
  ℕ, zero, suc, ◌+◌, ◌≤◌, ◌<◌, Text, has_prefix, ◌≡◌, refl, ◌≢◌, true, false, none, some, [], ◌∷◌,
  ◌++◌, length, take, drop, arith, Bool-cases, Option-cases, inl, inr, ◌⊎◌,
}
use halengine.Thinking.{index_of, ends_with, partial_from}

pub has_prefix-length : (p s : Text) → has_prefix p s ≡ true → length p ≤ length s
has_prefix-length [] s h = omega arith
has_prefix-length (a ∷ p) [] h = ground arith
has_prefix-length (a ∷ p) (b ∷ s) h = ground (arith, has_prefix-length p s)

-- What follows a text that is long enough does not change whether it starts with the prefix.
pub has_prefix-append :
    (p s c : Text) → length p ≤ length s → has_prefix p (s ++ c) ≡ has_prefix p s
has_prefix-append [] s c h = refl
has_prefix-append (a ∷ p) [] c h = absurd (omega arith)
has_prefix-append (a ∷ p) (b ∷ s) c h = ground (arith, has_prefix-append p s c)

-- A shorter text whose continuation starts with the prefix is itself a prefix of it.
pub has_prefix-short :
    (p s c : Text) → length s ≤ length p → has_prefix p (s ++ c) ≡ true → take (length s) p ≡ s
has_prefix-short p [] c h e = refl
has_prefix-short [] (b ∷ s) c h e = absurd (omega arith)
has_prefix-short (a ∷ p) (b ∷ s) c h e = ground (arith, has_prefix-short p s c)

pub index_of-some : (tag s : Text) (i : ℕ) → index_of tag s ≡ some i → i + length tag ≤ length s
unfolding index_of
index_of-some tag [] i e = ground arith
index_of-some tag (c ∷ s) i e = elim (Bool-cases (has_prefix tag (c ∷ s))) [
  | inl h ↦ ground (arith, has_prefix-length tag (c ∷ s))
  | inr h ↦ elim (Option-cases (index_of tag s)) [
    | inl n ↦ ground arith
    | inr (j, f) ↦ ground (arith, index_of-some tag s j f)
  ]
]

pub index_of-none :
    (tag s : Text) (i : ℕ) → tag ≢ [] → index_of tag s ≡ none → has_prefix tag (drop i s) ≡ false
unfolding index_of
index_of-none [] s i t e = absurd (t refl)
index_of-none (a ∷ tag) [] zero t e = refl
index_of-none (a ∷ tag) [] (suc i) t e = refl
index_of-none (a ∷ tag) (c ∷ s) zero t e = ground arith
index_of-none (a ∷ tag) (c ∷ s) (suc i) t e = ground (arith, index_of-none (a ∷ tag) s i t)

pub partial_from-le : (s tag : Text) (n : ℕ) → partial_from s tag n ≤ n
unfolding partial_from
partial_from-le s tag zero = omega arith
partial_from-le s tag (suc n) = ground (arith, partial_from-le s tag n)

-- No longer proper prefix of the tag ends the text.
pub partial_from-max :
    (s tag : Text) (n k : ℕ) → partial_from s tag n < k → k ≤ n → ends_with s (take k tag) ≡ false
unfolding partial_from
partial_from-max s tag zero k h l = absurd (omega arith)
partial_from-max s tag (suc n) k h l = elim (Bool-cases (ends_with s (take (suc n) tag))) [
  | inl e ↦ ground arith
  | inr e ↦ elim (eq_or_le k n l) [
    | inl same ↦ rw same e
    | inr less ↦ partial_from-max s tag n k (ground arith) less
  ]
]
  where
    eq_or_le : (k n : ℕ) → k ≤ suc n → (k ≡ suc n) ⊎ (k ≤ n)
    eq_or_le k n l = grind arith
