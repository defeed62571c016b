-- ===== src/Preview/Cut.antt =====
-- infrastructure/stores/sessionPreview.ts: a text cut between two code points.
use halengine.Prelude.{
  ℕ, zero, suc, ◌*◌, ◌≤◌, ◌≡◌, refl, sym, ap, ◌∙◌, Text, Bool, true, false, ◌&&◌, List, [], ◌∷◌,
  ◌++◌, take, length, if◌then◌else◌, Bool-cases, if-either, and→both, inl, inr, arith, append_assoc,
}
use halengine.Preview.{is_high, is_low, starts_low, glue, points, join}

-- One text is the beginning of another.
abbrev pub IsPrefix : Text → Text → Type 0
IsPrefix p s = (r : Text) × (p ++ r ≡ s)

join-glue : (u : ℕ) (ps : List Text) → join (glue u ps) ≡ u ∷ join ps
unfolding join glue
join-glue u [] = refl
join-glue u (p ∷ ps) = refl

glue-cons :
    (u : ℕ) (ps : List Text) → (q : Text) × (rest : List Text) × (glue u ps ≡ (u ∷ q) ∷ rest)
unfolding glue
glue-cons u [] = ([], [], refl)
glue-cons u (p ∷ ps) = (p, ps, refl)

take-glue : (n u : ℕ) (ps : List Text) → take (suc n) (glue u ps) ≡ glue u (take (suc n) ps)
unfolding glue
take-glue zero u [] = refl
take-glue (suc n) u [] = refl
take-glue n u (p ∷ ps) = refl

pub join-points : (s : Text) → join (points s) ≡ s
unfolding points join
join-points [] = refl
join-points (u ∷ s) =
    if-either (λ ps. join ps ≡ u ∷ s) (is_high u && starts_low s)
      (λ _. join-glue u (points s) ∙ ap (◌∷◌ u) (join-points s)) (λ _. ap (◌∷◌ u) (join-points s))

points-cons : (u : ℕ) (s : Text) → (q : Text) × (ps : List Text) × (points (u ∷ s) ≡ (u ∷ q) ∷ ps)
unfolding points
points-cons u s =
    if-either (λ ps. (q : Text) × (rest : List Text) × (ps ≡ (u ∷ q) ∷ rest))
      (is_high u && starts_low s) (λ _. glue-cons u (points s)) (λ _. ([], points s, refl))

-- What a cut leaves begins as the whole does.
starts_low-take : (n : ℕ) (s : Text) → starts_low (join (take (suc n) (points s))) ≡ starts_low s
unfolding join starts_low
starts_low-take n [] = unfold points in refl
starts_low-take n (u ∷ s) = let (q, ps, e) = points-cons u s in rw e refl

points-joined :
    (u : ℕ) (s : Text) (b : Bool)
    → (is_high u && starts_low s) ≡ b
    → points (u ∷ s) ≡ (if b then glue u (points s) else (u ∷ []) ∷ points s)
unfolding points
points-joined u s b e = ap (λ c. if c then glue u (points s) else (u ∷ []) ∷ points s) e

unglued : (b : Bool) → (b && false) ≡ false
unglued true = refl
unglued false = refl

alone :
    (u : ℕ) (s : Text) (n : ℕ)
    → (is_high u && starts_low s) ≡ false
    → (is_high u && starts_low (join (take n (points s)))) ≡ false
unfolding join starts_low
alone u s zero e = unglued (is_high u)
alone u s (suc n) e = ap (λ b. is_high u && b) (starts_low-take n s) ∙ e

-- The code points of the first `n` code points are these.
pub points-join-take : (n : ℕ) (s : Text) → points (join (take n (points s))) ≡ take n (points s)
unfolding join
points-join-take zero s = unfold points in refl
points-join-take (suc n) [] = unfold points in refl
points-join-take (suc n) (u ∷ s) = elim (Bool-cases (is_high u && starts_low s)) [
  | inl e ↦
      rw (points-joined u s true e, take-glue n u (points s), join-glue u (take (suc n) (points s)))
        (points-joined u (join (take (suc n) (points s))) true
            (ap (λ b. is_high u && b) (starts_low-take n s) ∙ e)
          ∙ ap (glue u) (points-join-take (suc n) s))
  | inr e ↦ rw (points-joined u s false e) (
      points-joined u (join (take n (points s))) false (alone u s n e)
      ∙ ap (◌∷◌ (u ∷ [])) (points-join-take n s))
]

low_not_high : (u : ℕ) (b : Bool) → is_low u ≡ true → (is_high u && b) ≡ false
low_not_high u b h = ground (arith, h)

length-glue : (u v : ℕ) (s : Text) → length (glue u (points (v ∷ s))) ≡ length (points (v ∷ s))
unfolding glue
length-glue u v s = let (q, ps, e) = points-cons v s in rw e refl

points-one : (u : ℕ) → points (u ∷ []) ≡ (u ∷ []) ∷ []
unfolding starts_low
points-one u = points-joined u [] false (unglued (is_high u)) ∙ (unfold points in refl)

-- A code point is at most two units.
pub length-points : (s : Text) → length s ≤ 2 * length (points s)
unfolding starts_low
length-points [] = omega arith
length-points (u ∷ []) = rw (points-one u) (omega arith)
length-points (u ∷ v ∷ s) = elim (Bool-cases (is_high u && is_low v)) [
  | inr e ↦ rw (points-joined u (v ∷ s) false e) (omega (arith, length-points (v ∷ s)))
  | inl e ↦
      rw
        (
          points-joined u (v ∷ s) true e,
          length-glue u v s,
          points-joined v s false
              (low_not_high v (starts_low s) (and→both (is_high u) (is_low v) e).1),
        )
        (omega (arith, length-points s))
]

-- The shorter text has no more code points.
pub points-prefix : (p r : Text) → length (points p) ≤ length (points (p ++ r))
unfolding starts_low
points-prefix [] r = unfold points in omega arith
points-prefix (u ∷ []) r = let (q, ps, e) = points-cons u r in rw (e, points-one u) (omega arith)
points-prefix (u ∷ v ∷ p) r = elim (Bool-cases (is_high u && is_low v)) [
  | inr e ↦
      rw (points-joined u (v ∷ p) false e, points-joined u (v ∷ (p ++ r)) false e)
        (omega (arith, points-prefix (v ∷ p) r))
  | inl e ↦
      rw
        (
          points-joined u (v ∷ p) true e,
          points-joined u (v ∷ (p ++ r)) true e,
          length-glue u v p,
          length-glue u v (p ++ r),
        )
        (points-prefix (v ∷ p) r)
]

-- Cutting by code points leaves the beginning of a text.
pub join-take-IsPrefix : (n : ℕ) (ps : List Text) → IsPrefix (join (take n ps)) (join ps)
unfolding join
join-take-IsPrefix zero ps = (join ps, refl)
join-take-IsPrefix (suc n) [] = ([], refl)
join-take-IsPrefix (suc n) (p ∷ ps) =
    let (r, e) = join-take-IsPrefix n ps in (r, append_assoc p (join (take n ps)) r ∙ ap (◌++◌ p) e)

pub take-IsPrefix : (n : ℕ) (s : Text) → IsPrefix (take n s) s
take-IsPrefix zero s = (s, refl)
take-IsPrefix (suc n) [] = ([], refl)
take-IsPrefix (suc n) (u ∷ s) = let (r, e) = take-IsPrefix n s in (r, ap (◌∷◌ u) e)

pub IsPrefix-trans : (p q s : Text) → IsPrefix p q → IsPrefix q s → IsPrefix p s
IsPrefix-trans p q s (r, e) (r', e') =
    (r ++ r', sym (append_assoc p r r') ∙ ap (λ z. z ++ r') e ∙ e')
