-- ===== src/RateLimit/Pruning.antt =====
-- The limiter, which drops idle buckets, beside one that keeps a bucket for every key.
use halengine.Prelude.{ℕ, ◌≤◌, Text, text_eq, ◌≡◌, List, [], ◌∷◌, if◌then◌else◌}
use halengine.RateLimit.{RateLimit, Verdict, Bucket, Limiter, full_credit, refilled, spend}
use halengine.RateLimit.Refill.{credit_of}

-- A bucket for every key, full since time began, and never dropped.
abbrev pub Ideal : Type 0
Ideal = Text → Bucket

unfoldable pub all_full : RateLimit → Ideal
all_full b key = record { credit = full_credit b; refilled_at = 0 }

unfoldable pub ideal_consume : RateLimit → Ideal → Text → ℕ → Verdict × Ideal
ideal_consume b f key at =
    let (verdict, bucket) = spend b (refilled b (f key) at) at in
    (verdict, λ k. if text_eq key k then bucket else f k)

unfoldable pub ideal_verdicts : RateLimit → Ideal → List (Text × ℕ) → List Verdict
unfolding ideal_consume
ideal_verdicts b f [] = []
ideal_verdicts b f ((key, at) ∷ calls) =
    (ideal_consume b f key at).0 ∷ ideal_verdicts b (ideal_consume b f key at).1 calls

-- The calls come in the order of their times, from a first one on.
abbrev pub Ascending : ℕ → List (Text × ℕ) → Type 0
Ascending from [] = Unit
Ascending from ((key, at) ∷ calls) = (from ≤ at) × Ascending at calls

-- From a time on, each key has the credit that it has ideally.
abbrev Agrees : RateLimit → Limiter → Ideal → ℕ → Type 0
Agrees b s f now = (key : Text) (t : ℕ) → now ≤ t → credit_of b s key t ≡ refilled b (f key) t
