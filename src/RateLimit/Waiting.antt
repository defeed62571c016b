-- ===== src/RateLimit/Waiting.antt =====
-- transport/rateLimit.ts: what a request does to the credit of its key.
use halengine.Prelude.{
  ℕ, ◌+◌, ◌-◌, ◌*◌, ◌≤◌, ◌<◌, Text, text_eq_refl, true, false, ◌≡◌, ◌↔◌, refl, ap, arith,
  Bool-cases, inl, inr, leb,
}
use native.Mathlib.Nat.{div-lt_iff_lt-mul}
use halengine.RateLimit.{RateLimit, Limiter, refilled, held, ceil_div, spend, set_bucket, consume}
use halengine.RateLimit.Refill.{credit_of, prune_idle-credit_of}

-- Math.ceil of a quotient: the least count whose multiple reaches.
pub ceil_div_iff : (a k n : ℕ) → 0 < k → (ceil_div a k ≤ n) ↔ (a ≤ n * k)
unfolding ceil_div
ceil_div_iff a k n pos =
    let iff = div-lt_iff_lt-mul {k = k} {x = a + (k - 1)} {y = n + 1} pos in
    (
      λ h. omega (arith, iff.0 (omega (arith, h)), pos),
      λ h. omega (arith, iff.1 (omega (arith, h, pos))),
    )

pub spend-allowed : (b : RateLimit) (c at : ℕ) → (spend b c at).0.allowed ≡ leb b.window_ms c
unfolding spend
spend-allowed b c at = elim (Bool-cases (leb b.window_ms c)) [
  | inl e ↦ rw (e, spend) refl
  | inr e ↦ rw (e, spend) refl
]

pub spend_granted :
    (b : RateLimit) (c at : ℕ)
    → leb b.window_ms c ≡ true
    → (spend b c at).1 ≡ record { credit = c - b.window_ms; refilled_at = at }
unfolding spend
spend_granted b c at e = rw (e, spend) refl

pub spend_refused :
    (b : RateLimit) (c at : ℕ)
    → leb b.window_ms c ≡ false
    → spend b c at ≡ (
      record { allowed = false; retry_after_ms = ceil_div (b.window_ms - c) b.limit },
      record { credit = c; refilled_at = at },
    )
unfolding spend
spend_refused b c at e = rw (e, spend) refl

pub consume-spend :
    (b : RateLimit) (s : Limiter) (key : Text) (at : ℕ)
    → (consume b s key at).0 ≡ (spend b (credit_of b s key at) at).0
unfolding consume credit_of
consume-spend b s key at =
    ap (λ c. (spend b c at).0) (prune_idle-credit_of b s key at at (omega arith))

pub credit_of-consume :
    (b : RateLimit) (s : Limiter) (key : Text) (at t : ℕ)
    → credit_of b (consume b s key at).1 key t ≡ refilled b (spend b (credit_of b s key at) at).1 t
unfolding consume credit_of set_bucket held
credit_of-consume b s key at t =
    rw (text_eq_refl key)
      (ap (λ c. refilled b (spend b c at).1 t) (prune_idle-credit_of b s key at at (omega arith)))
