-- ===== src/RateLimit.antt =====
-- transport/rateLimit.ts: the token bucket. Tokens are counted in milliseconds of the window, so that
-- one request costs `windowMs` and a millisecond refills `limit`: the fractions of the source, exact.
-- Times are whole milliseconds of a clock that does not run backwards.
pub mod Refill
pub mod Pruning
pub mod Waiting
pub mod Rate
pub mod Examples
use halengine.Prelude.{
  ℕ, ◌+◌, ◌-◌, ◌*◌, ◌/◌, min, Text, text_eq, Bool, true, false, Option, none, some, List, [], ◌∷◌,
  if◌then◌else◌, ltb, leb, Number, whole, minus, between, below, not_finite, ◌&&◌, not, ◌==◌,
}

-- The configuration with its defaults: usable ones have a limit, a window and a burst of at least 1.
pub record RateLimit : Type 0 where
  pub limit : ℕ
  pub window_ms : ℕ
  pub burst : ℕ

abbrev pub default_rate_limit : RateLimit
default_rate_limit = record { limit = 20; window_ms = 60000; burst = 5 }

unfoldable pub is_usable_budget : RateLimit → Bool
is_usable_budget b = ltb 0 b.limit && (ltb 0 b.window_ms && leb 1 b.burst)

pub record Verdict : Type 0 where
  pub allowed : Bool
  pub retry_after_ms : ℕ

-- `credit` is the tokens times `windowMs`.
pub record Bucket : Type 0 where
  pub credit : ℕ
  pub refilled_at : ℕ

pub record Limiter : Type 0 where
  pub buckets : Text → Option Bucket
  pub pruned_at : ℕ

abbrev pub full_credit : RateLimit → ℕ
full_credit b = b.burst * b.window_ms

unfoldable pub create_rate_limiter : RateLimit → (now : ℕ) → Option Limiter
unfolding is_usable_budget
create_rate_limiter b now =
    if is_usable_budget b then some (record { buckets = λ key. none; pruned_at = now }) else none

-- A bucket has been idle for as long as it takes to refill in full.
unfoldable pub is_idle : RateLimit → (at since : ℕ) → Bool
is_idle b at since = leb (full_credit b) ((at - since) * b.limit)

unfoldable pub kept_bucket : RateLimit → ℕ → Option Bucket → Option Bucket
unfolding is_idle
kept_bucket b at none = none
kept_bucket b at (some bucket) = if is_idle b at bucket.refilled_at then none else some bucket

unfoldable pub prune_idle : RateLimit → Limiter → ℕ → Limiter
unfolding kept_bucket is_idle
prune_idle b s at =
    if is_idle b at s.pruned_at
    then record { buckets = λ key. kept_bucket b at (s.buckets key); pruned_at = at }
    else s

unfoldable pub refilled : RateLimit → Bucket → ℕ → ℕ
refilled b bucket at = min (full_credit b) (bucket.credit + (at - bucket.refilled_at) * b.limit)

-- The bucket that a key has, or the full one that it starts with.
unfoldable pub held : RateLimit → ℕ → Option Bucket → Bucket
held b at none = record { credit = full_credit b; refilled_at = at }
held b at (some bucket) = bucket

unfoldable pub ceil_div : ℕ → ℕ → ℕ
ceil_div a k = (a + (k - 1)) / k

unfoldable pub spend : RateLimit → (credit at : ℕ) → Verdict × Bucket
unfolding ceil_div
spend b credit at =
    if leb b.window_ms credit
    then (
      record { allowed = true; retry_after_ms = 0 },
      record { credit = credit - b.window_ms; refilled_at = at },
    )
    else (
      record { allowed = false; retry_after_ms = ceil_div (b.window_ms - credit) b.limit },
      record { credit = credit; refilled_at = at },
    )

unfoldable pub set_bucket : (Text → Option Bucket) → Text → Bucket → Text → Option Bucket
set_bucket buckets key bucket k = if text_eq key k then some bucket else buckets k

unfoldable pub consume : RateLimit → Limiter → Text → ℕ → Verdict × Limiter
unfolding prune_idle refilled held spend set_bucket
consume b s key at =
    let pruned = prune_idle b s at in
    let (verdict, bucket) = spend b (refilled b (held b at (pruned.buckets key)) at) at in
    (verdict, record pruned { buckets = set_bucket pruned.buckets key bucket })

-- The verdicts of a sequence of requests, each a key and its time.
unfoldable pub verdicts : RateLimit → Limiter → List (Text × ℕ) → List Verdict
unfolding consume
verdicts b s [] = []
verdicts b s ((key, at) ∷ calls) = (consume b s key at).0 ∷ verdicts b (consume b s key at).1 calls
