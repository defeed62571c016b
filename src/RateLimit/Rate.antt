-- ===== src/RateLimit/Rate.antt =====
-- How many requests of a key a limiter allows over a stretch of time.
use halengine.Prelude.{
  ℕ, suc, ◌+◌, ◌-◌, ◌*◌, ◌≤◌, Text, text_eq, text_eq→eq, true, false, ◌≡◌, ◌∙◌, ap, Option, none,
  some, List, [], ◌∷◌, arith, Bool-cases, inl, inr, leb, leb→le, if◌then◌else◌,
}
use native.Mathlib.Nat.{mul-le-mul_right, add-mul, zero-mul}
use halengine.RateLimit.{RateLimit, Bucket, Limiter, refilled, held, spend, set_bucket, consume}
use halengine.RateLimit.Refill.{credit_of, prune_idle-credit_of}
use halengine.RateLimit.Pruning.{Ascending}
use halengine.RateLimit.Waiting.{
  consume-spend, credit_of-consume, spend-allowed, spend_granted, spend_refused,
}

-- The requests of a key that a run of calls allows, and the time of the last call.
unfoldable pub allowed_of : RateLimit → Limiter → Text → List (Text × ℕ) → ℕ
allowed_of b s key [] = 0
allowed_of b s key ((k, at) ∷ calls) =
    let rest = allowed_of b (consume b s k at).1 key calls in
    if text_eq k key then (if (consume b s k at).0.allowed then suc rest else rest) else rest

abbrev pub last_time : ℕ → List (Text × ℕ) → ℕ
last_time from [] = from
last_time from ((k, at) ∷ calls) = last_time at calls

last_time-later :
    (from : ℕ) (calls : List (Text × ℕ)) → Ascending from calls → from ≤ last_time from calls
last_time-later from [] up = omega arith
last_time-later from ((k, at) ∷ calls) (le, up) = omega (arith, le, last_time-later at calls up)

-- Time adds at most its refill to a credit.
refilled-grows :
    (b : RateLimit) (bucket : Bucket) (t u : ℕ)
    → t ≤ u
    → refilled b bucket u ≤ refilled b bucket t + (u - t) * b.limit
unfolding refilled
refilled-grows b bucket t u le =
    let r = bucket.refilled_at in
    let steps : u - r ≤ (t - r) + (u - t) = omega (arith, le) in
    let more = mul-le-mul_right b.limit steps in
    omega (arith, more, add-mul (t - r) (u - t) b.limit)

held-grows :
    (b : RateLimit) (o : Option Bucket) (t u : ℕ)
    → t ≤ u
    → refilled b (held b u o) u ≤ refilled b (held b t o) t + (u - t) * b.limit
unfolding held
held-grows b none t u le = unfold refilled in omega arith
held-grows b (some bucket) t u le = refilled-grows b bucket t u le

credit_of-grows :
    (b : RateLimit) (s : Limiter) (key : Text) (t u : ℕ)
    → t ≤ u
    → credit_of b s key u ≤ credit_of b s key t + (u - t) * b.limit
unfolding credit_of
credit_of-grows b s key t u le = held-grows b (s.buckets key) t u le

-- A bucket that was just written holds no more than was written.
refilled-now :
    (b : RateLimit) (c at : ℕ) → refilled b (record { credit = c; refilled_at = at }) at ≤ c
unfolding refilled
refilled-now b c at =
    let none_yet : (at - at) * b.limit ≡ 0 =
      ap (λ n. n * b.limit) (omega arith) ∙ zero-mul b.limit in
    omega (arith, none_yet)

credit_of-other :
    (b : RateLimit) (s : Limiter) (k key : Text) (at : ℕ)
    → text_eq k key ≡ false
    → credit_of b (consume b s k at).1 key at ≡ credit_of b s key at
unfolding consume credit_of set_bucket
credit_of-other b s k key at e = rw e (prune_idle-credit_of b s key at at (omega arith))

-- One call of the key: what it is allowed is paid for with its credit.
paid :
    (b : RateLimit) (s : Limiter) (key : Text) (at : ℕ)
    → ((consume b s key at).0.allowed ≡ false
        → credit_of b (consume b s key at).1 key at ≤ credit_of b s key at)
      × ((consume b s key at).0.allowed ≡ true
          → credit_of b (consume b s key at).1 key at + b.window_ms ≤ credit_of b s key at)
paid b s key at =
    let c = credit_of b s key at in
    let allowed : (consume b s key at).0.allowed ≡ leb b.window_ms c =
      ap (λ v. v.allowed) (consume-spend b s key at) ∙ spend-allowed b c at in
    let after : (bucket : Bucket)
        → (spend b c at).1 ≡ bucket
        → credit_of b (consume b s key at).1 key at ≡ refilled b bucket at =
      λ bucket e. credit_of-consume b s key at at ∙ ap (λ x. refilled b x at) e in
    elim (Bool-cases (leb b.window_ms c)) [
      | inl e ↦ (
        λ no. absurd cc,
        λ yes. omega (
          arith,
          after _ (spend_granted b c at e),
          refilled-now b (c - b.window_ms) at,
          leb→le b.window_ms c e,
        ),
      )
      | inr e ↦ (
        λ no. omega (arith, after _ (ap (λ r. r.1) (spend_refused b c at e)), refilled-now b c at),
        λ yes. absurd cc,
      )
    ]

paid_for :
    (b : RateLimit) (s : Limiter) (k key : Text) (at : ℕ)
    → k ≡ key
    → ((consume b s k at).0.allowed ≡ false
        → credit_of b (consume b s k at).1 key at ≤ credit_of b s key at)
      × ((consume b s k at).0.allowed ≡ true
          → credit_of b (consume b s k at).1 key at + b.window_ms ≤ credit_of b s key at)
paid_for b s k key at e = rw⁻¹ e (paid b s k at)

allowed_of-credit :
    (b : RateLimit) (s : Limiter) (key : Text) (from : ℕ) (calls : List (Text × ℕ))
    → Ascending from calls
    → allowed_of b s key calls * b.window_ms
      ≤ credit_of b s key from + (last_time from calls - from) * b.limit
unfolding allowed_of
allowed_of-credit b s key from [] up = omega (arith, zero-mul b.window_ms)
allowed_of-credit b s key from ((k, at) ∷ calls) (le, up) =
    let rest = allowed_of b (consume b s k at).1 key calls in
    let ih = allowed_of-credit b (consume b s k at).1 key at calls up in
    let grown = credit_of-grows b s key from at le in
    let split : (last_time at calls - from) * b.limit
        ≡ (at - from) * b.limit + (last_time at calls - at) * b.limit =
      ap (λ n. n * b.limit) (omega (arith, le, last_time-later at calls up))
      ∙ add-mul (at - from) (last_time at calls - at) b.limit in
    elim (Bool-cases (text_eq k key)) [
      | inr e ↦ rw e (omega (arith, ih, grown, split, credit_of-other b s k key at e))
      | inl e ↦
          let bill = paid_for b s k key at (text_eq→eq k key e) in
          elim (Bool-cases (consume b s k at).0.allowed) [
            | inr refused ↦ rw (e, refused) (omega (arith, ih, grown, split, bill.0 refused))
            | inl granted ↦
                rw (e, granted)
                  (omega (arith, ih, grown, split, bill.1 granted, add-mul 1 rest b.window_ms))
          ]
    ]

-- Over any sequence of requests on a clock that does not run backwards, a key is allowed no more than
-- its burst and what the time between the first and the last refills.
pub allowed_of_bounded :
    (b : RateLimit) (s : Limiter) (key : Text) (from : ℕ) (calls : List (Text × ℕ))
    → Ascending from calls
    → allowed_of b s key calls * b.window_ms
      ≤ b.burst * b.window_ms + (last_time from calls - from) * b.limit
allowed_of_bounded b s key from calls up =
    omega (arith, allowed_of-credit b s key from calls up, credit_of_full b s key from)
  where
    credit_of_full :
        (b : RateLimit) (s : Limiter) (key : Text) (t : ℕ)
        → credit_of b s key t ≤ b.burst * b.window_ms
    credit_of_full b s key t = unfold credit_of refilled in omega arith
