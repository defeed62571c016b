-- ===== src/RateLimit/Examples.antt =====
-- Tests and examples of the rate limiter.
use halengine.Prelude.{
  ℕ, ◌+◌, ◌-◌, ◌*◌, ◌≤◌, Text, text, true, false, ◌≡◌, refl, none, some, List, [], ◌∷◌, arith,
}
use halengine.RateLimit.{
  RateLimit, is_usable_budget, Limiter, create_rate_limiter, is_idle, kept_bucket, prune_idle,
  refilled, held, ceil_div, spend, set_bucket, consume, verdicts,
}
use halengine.RateLimit.Rate.{allowed_of, allowed_of_bounded}

-- Two requests at once, and one each half second.
abbrev budget : RateLimit
budget = record { limit = 2; window_ms = 1000; burst = 2 }

abbrev empty_limiter : Limiter
empty_limiter = record { buckets = λ key. none; pruned_at = 0 }

abbrev calls : List (Text × ℕ)
calls =
    (text "user:7", 100)
    ∷ (text "user:7", 110)
    ∷ (text "user:7", 120)
    ∷ (text "user:8", 130)
    ∷ (text "user:7", 620)
    ∷ (text "user:7", 5000)
    ∷ []

created_test : create_rate_limiter budget 0 ≡ some empty_limiter
unfolding create_rate_limiter is_usable_budget
created_test = refl

verdicts_test :
    verdicts budget empty_limiter calls
    ≡ record { allowed = true; retry_after_ms = 0 }
      ∷ record { allowed = true; retry_after_ms = 0 }
      ∷ record { allowed = false; retry_after_ms = 480 }
      ∷ record { allowed = true; retry_after_ms = 0 }
      ∷ record { allowed = true; retry_after_ms = 0 }
      ∷ record { allowed = true; retry_after_ms = 0 }
      ∷ []
unfolding verdicts consume prune_idle kept_bucket is_idle refilled held ceil_div spend set_bucket
verdicts_test = refl

allowed_of_test :
    allowed_of budget empty_limiter (text "user:7") calls * 1000 ≤ 2 * 1000 + (5000 - 100) * 2
allowed_of_test =
    allowed_of_bounded budget empty_limiter (text "user:7") 100 calls
      (omega arith, (omega arith, (omega arith, (omega arith, (omega arith, (omega arith, tt))))))
