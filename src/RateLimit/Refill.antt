-- ===== src/RateLimit/Refill.antt =====
-- The credit of a key over time, with and without its bucket.
use halengine.Prelude.{
  ℕ, ◌-◌, ◌*◌, ◌≤◌, true, ◌≡◌, refl, ◌∙◌, sym, Option, none, some, Text, arith, Bool-cases, inl,
  inr, leb→le,
}
use native.Mathlib.Nat.{mul-le-mul_right}
use halengine.RateLimit.{
  RateLimit, Bucket, Limiter, full_credit, is_idle, kept_bucket, prune_idle, refilled, held,
}

-- What a key could spend at a time.
unfoldable pub credit_of : RateLimit → Limiter → Text → ℕ → ℕ
credit_of b s key t = refilled b (held b t (s.buckets key)) t

-- A bucket that is idle at a time is full at every later one.
idle-refilled :
    (b : RateLimit) (bucket : Bucket) (at t : ℕ)
    → is_idle b at bucket.refilled_at ≡ true
    → at ≤ t
    → refilled b bucket t ≡ full_credit b
unfolding is_idle refilled
idle-refilled b bucket at t h le =
    let enough = leb→le (full_credit b) ((at - bucket.refilled_at) * b.limit) h in
    let more : (at - bucket.refilled_at) * b.limit ≤ (t - bucket.refilled_at) * b.limit =
      mul-le-mul_right b.limit (omega (arith, le)) in
    omega (arith, enough, more)

fresh-refilled :
    (b : RateLimit) (t : ℕ)
    → refilled b (record { credit = full_credit b; refilled_at = t }) t ≡ full_credit b
unfolding refilled
fresh-refilled b t = omega arith

kept_bucket-refilled :
    (b : RateLimit) (o : Option Bucket) (at t : ℕ)
    → at ≤ t
    → refilled b (held b t (kept_bucket b at o)) t ≡ refilled b (held b t o) t
unfolding kept_bucket held
kept_bucket-refilled b none at t le = refl
kept_bucket-refilled b (some bucket) at t le = elim (Bool-cases (is_idle b at bucket.refilled_at)) [
  | inl idle ↦
      rw (idle, kept_bucket) (fresh-refilled b t ∙ sym (idle-refilled b bucket at t idle le))
  | inr live ↦ rw (live, kept_bucket) refl
]

-- Dropping the idle buckets changes no key's credit, now or later.
pub prune_idle-credit_of :
    (b : RateLimit) (s : Limiter) (key : Text) (at t : ℕ)
    → at ≤ t
    → credit_of b (prune_idle b s at) key t ≡ credit_of b s key t
unfolding credit_of prune_idle
prune_idle-credit_of b s key at t le = elim (Bool-cases (is_idle b at s.pruned_at)) [
  | inl due ↦ rw (due, prune_idle) (kept_bucket-refilled b (s.buckets key) at t le)
  | inr early ↦ rw (early, prune_idle) refl
]
