-- ===== src/Preview/Tidy.antt =====
-- infrastructure/stores/sessionPreview.ts: text whose white space is single spaces inside.
use halengine.Prelude.{
  ℕ, ◌≡◌, refl, sym, ap, subst, ◌∙◌, Text, Bool, true, false, [], ◌∷◌, ◌++◌, ◌==◌, ==_iff,
  Bool-cases, if-either, inl, inr, arith,
}
use halengine.Frames.{is_white, trim_start, kept_before, trim_end, trim}
use halengine.Preview.{spaced, collapse, is_break, stripped_before, strip_end}
use halengine.Preview.Cut.{IsPrefix, IsPrefix-trans}

unfoldable pub leads_white : Text → Bool
leads_white [] = false
leads_white (u ∷ s) = is_white u

-- Every white unit is a space, and none is next to another.
pub IsSpaced : Text → Type 0
IsSpaced [] = Unit
IsSpaced (u ∷ s) = (is_white u ≡ true → (u ≡ 32) × (leads_white s ≡ false)) × IsSpaced s

unfoldable pub ends_white : Text → Bool
ends_white [] = false
ends_white (u ∷ []) = is_white u
ends_white (u ∷ v ∷ s) = ends_white (v ∷ s)

pub record IsTidy (s : Text) : Type 0 where
  pub is_spaced : IsSpaced s
  pub no_lead : leads_white s ≡ false
  pub no_trail : ends_white s ≡ false

spaced-IsSpaced : (s : Text) → IsSpaced s → IsSpaced (spaced s)
unfolding IsSpaced spaced leads_white
spaced-IsSpaced [] h = (λ e. (refl, refl), tt)
spaced-IsSpaced (v ∷ s) h =
    if-either IsSpaced (v == 32) (λ _. h)
      (λ e. (
        λ w. (
          refl,
          elim (Bool-cases (is_white v)) [
            | inl k ↦ absurd (cc (e, (==_iff v 32).1 (h.0 k).0))
            | inr k ↦ k
          ],
        ),
        h,
      ))

collapse-IsSpaced : (s : Text) → IsSpaced (collapse s)
unfolding IsSpaced collapse
collapse-IsSpaced [] = tt
collapse-IsSpaced (u ∷ s) =
    if-either IsSpaced (is_white u) (λ _. spaced-IsSpaced (collapse s) (collapse-IsSpaced s))
      (λ e. (λ w. absurd (cc (w, e)), collapse-IsSpaced s))

IsSpaced-trim_start : (s : Text) → IsSpaced s → IsSpaced (trim_start s)
unfolding IsSpaced trim_start
IsSpaced-trim_start [] h = tt
IsSpaced-trim_start (u ∷ s) h =
    if-either IsSpaced (is_white u) (λ _. IsSpaced-trim_start s h.1) (λ _. h)

trim_start-lead : (s : Text) → leads_white (trim_start s) ≡ false
unfolding trim_start leads_white
trim_start-lead [] = refl
trim_start-lead (u ∷ s) =
    if-either (λ t. leads_white t ≡ false) (is_white u) (λ _. trim_start-lead s) (λ e. e)

IsSpaced-prefix : (p r : Text) → IsSpaced (p ++ r) → IsSpaced p
unfolding IsSpaced leads_white
IsSpaced-prefix [] r h = tt
IsSpaced-prefix (u ∷ []) r h = (λ e. ((h.0 e).0, refl), tt)
IsSpaced-prefix (u ∷ v ∷ p) r h = (h.0, IsSpaced-prefix (v ∷ p) r h.1)

lead-prefix : (p r : Text) → leads_white (p ++ r) ≡ false → leads_white p ≡ false
unfolding leads_white
lead-prefix [] r h = refl
lead-prefix (u ∷ p) r h = h

kept_before-IsPrefix : (u : ℕ) (t s : Text) → IsPrefix t s → IsPrefix (kept_before u t) (u ∷ s)
unfolding kept_before
kept_before-IsPrefix u [] s h =
    if-either (λ t. IsPrefix t (u ∷ s)) (is_white u) (λ _. (u ∷ s, refl)) (λ _. (s, refl))
kept_before-IsPrefix u (v ∷ t) s (r, e) = (r, ap (◌∷◌ u) e)

trim_end-IsPrefix : (s : Text) → IsPrefix (trim_end s) s
unfolding trim_end
trim_end-IsPrefix [] = ([], refl)
trim_end-IsPrefix (u ∷ s) = kept_before-IsPrefix u (trim_end s) s (trim_end-IsPrefix s)

kept_before-trail : (u : ℕ) (t : Text) → ends_white t ≡ false → ends_white (kept_before u t) ≡ false
unfolding kept_before ends_white
kept_before-trail u [] h = if-either (λ t. ends_white t ≡ false) (is_white u) (λ _. refl) (λ e. e)
kept_before-trail u (v ∷ t) h = h

trim_end-trail : (s : Text) → ends_white (trim_end s) ≡ false
unfolding trim_end
trim_end-trail [] = unfold ends_white in refl
trim_end-trail (u ∷ s) = kept_before-trail u (trim_end s) (trim_end-trail s)

stripped_before-IsPrefix :
    (u : ℕ) (t s : Text) → IsPrefix t s → IsPrefix (stripped_before u t) (u ∷ s)
unfolding stripped_before
stripped_before-IsPrefix u [] s h =
    if-either (λ t. IsPrefix t (u ∷ s)) (is_break u) (λ _. (u ∷ s, refl)) (λ _. (s, refl))
stripped_before-IsPrefix u (v ∷ t) s (r, e) = (r, ap (◌∷◌ u) e)

pub strip_end-IsPrefix : (s : Text) → IsPrefix (strip_end s) s
unfolding strip_end
strip_end-IsPrefix [] = ([], refl)
strip_end-IsPrefix (u ∷ s) = stripped_before-IsPrefix u (strip_end s) s (strip_end-IsPrefix s)

not_break : (u : ℕ) → is_break u ≡ false → is_white u ≡ false
unfolding is_break
not_break u h = ground (arith, h)

stripped_before-trail :
    (u : ℕ) (t : Text) → ends_white t ≡ false → ends_white (stripped_before u t) ≡ false
unfolding stripped_before ends_white
stripped_before-trail u [] h =
    if-either (λ t. ends_white t ≡ false) (is_break u) (λ _. refl) (λ e. not_break u e)
stripped_before-trail u (v ∷ t) h = h

strip_end-trail : (s : Text) → ends_white (strip_end s) ≡ false
unfolding strip_end
strip_end-trail [] = unfold ends_white in refl
strip_end-trail (u ∷ s) = stripped_before-trail u (strip_end s) (strip_end-trail s)

-- Collapsed and trimmed text is tidy, and so is its beginning once the end is stripped.
pub trim-IsTidy : (s : Text) → IsTidy (trim (collapse s))
unfolding trim
trim-IsTidy s =
    let (r, e) = trim_end-IsPrefix (trim_start (collapse s)) in
    record {
      is_spaced =
          IsSpaced-prefix _ r
            (subst IsSpaced (sym e) (IsSpaced-trim_start (collapse s) (collapse-IsSpaced s)));
      no_lead =
          lead-prefix _ r
            (subst (λ t. leads_white t ≡ false) (sym e) (trim_start-lead (collapse s)));
      no_trail = trim_end-trail (trim_start (collapse s));
    }

pub strip_end-IsTidy : (p s : Text) → IsTidy s → IsPrefix p s → IsTidy (strip_end p)
strip_end-IsTidy p s h q =
    let (r, e) = IsPrefix-trans (strip_end p) p s (strip_end-IsPrefix p) q in
    record {
      is_spaced = IsSpaced-prefix _ r (subst IsSpaced (sym e) h.is_spaced);
      no_lead = lead-prefix _ r (subst (λ t. leads_white t ≡ false) (sym e) h.no_lead);
      no_trail = strip_end-trail p;
    }

trim_start-fixed : (s : Text) → leads_white s ≡ false → trim_start s ≡ s
unfolding trim_start leads_white
trim_start-fixed [] h = refl
trim_start-fixed (u ∷ s) h =
    if-either (λ t. t ≡ u ∷ s) (is_white u) (λ e. absurd (cc (e, h))) (λ _. refl)

trim_end-fixed : (s : Text) → ends_white s ≡ false → trim_end s ≡ s
unfolding trim_end kept_before ends_white
trim_end-fixed [] h = refl
trim_end-fixed (u ∷ []) h =
    if-either (λ t. t ≡ u ∷ []) (is_white u) (λ e. absurd (cc (e, h))) (λ _. refl)
trim_end-fixed (u ∷ v ∷ s) h = ap (kept_before u) (trim_end-fixed (v ∷ s) h)

space_white : is_white 32 ≡ true
unfolding is_white
space_white = refl

spaced-fixed : (s : Text) → leads_white s ≡ false → spaced s ≡ 32 ∷ s
unfolding spaced leads_white
spaced-fixed [] h = refl
spaced-fixed (v ∷ s) h =
    if-either (λ t. t ≡ 32 ∷ v ∷ s) (v == 32)
      (λ e. absurd (cc (h, ap is_white ((==_iff v 32).0 e), space_white))) (λ _. refl)

collapse-fixed : (s : Text) → IsSpaced s → collapse s ≡ s
unfolding collapse IsSpaced
collapse-fixed [] h = refl
collapse-fixed (u ∷ s) h =
    if-either (λ t. t ≡ u ∷ s) (is_white u)
      (λ e.
        ap spaced (collapse-fixed s h.1)
        ∙ spaced-fixed s (h.0 e).1
        ∙ ap (λ v. v ∷ s) (sym (h.0 e).0))
      (λ _. ap (◌∷◌ u) (collapse-fixed s h.1))

-- Tidy text is left as it is.
pub trim-fixed : (s : Text) → IsTidy s → trim (collapse s) ≡ s
unfolding trim
trim-fixed s h =
    ap (λ t. trim_end (trim_start t)) (collapse-fixed s h.is_spaced)
    ∙ ap trim_end (trim_start-fixed s h.no_lead)
    ∙ trim_end-fixed s h.no_trail
