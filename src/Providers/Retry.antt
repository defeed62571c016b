-- ===== src/Providers/Retry.antt =====
-- What a stream of withRetry.ts is, by its attempts.
use halengine.Prelude.{
  ℕ, zero, suc, ◌+◌, ◌-◌, ◌*◌, ◌^◌, ◌≤◌, ◌<◌, ◌≡◌, refl, ◌∙◌, sym, ap, ap₂, ◌⊎◌, inl, inr, Option,
  none, some, List, [], ◌∷◌, arith, Option-cases, Bool-cases, subst, leb, leb→le, leb→gt,
}
use native.Mathlib.Nat.{mul_comm, mul-lt-mul_of_pos_right, div-lt_iff_lt-mul}
use mathlib.Core.Option
use halengine.Ai.{MessageChunk, Thrown}
use halengine.Orchestrator.{ProviderRun}
use halengine.Providers.{
  Attempt, seen, fails_with, retry_error, after_attempt, retry_loop, retry_send, jitter_cap,
  jitter_delay,
}

-- A run that gave nothing and failed with an error to retry on, which leaves `e`.
pub record GaveNothing (run : ProviderRun) (e : Thrown) : Type 0 where
  pub quiet : run.chunks ≡ []
  pub thrown : Thrown
  pub failed : run.failure ≡ some thrown
  pub retried : retry_error thrown ≡ some e

-- How the attempts ended: with the whole of the last one, which is not one to retry, or, when they are
-- spent, with its error.
pub data Ending (attempts : ℕ → Attempt) (most : ℕ) (r : ProviderRun × ℕ) : Type 0 where
  answered :
      r.0 ≡ seen (attempts r.1)
      → ((e : Thrown) → GaveNothing (seen (attempts r.1)) e → ⊥)
      → Ending attempts most r
  exhausted :
      (e : Thrown)
      → r.1 ≡ most
      → GaveNothing (seen (attempts r.1)) e
      → r.0 ≡ fails_with e
      → Ending attempts most r

pub record Retried (attempts : ℕ → Attempt) (made most : ℕ) (r : ProviderRun × ℕ) : Type 0 where
  pub more : made ≤ r.1
  pub bounded : r.1 ≤ most
  pub before : (j : ℕ) → made < j → j < r.1 → (e : Thrown) × GaveNothing (seen (attempts j)) e
  pub ending : Ending attempts most r

abbrev run_of : List MessageChunk → Option Thrown → ProviderRun
run_of chunks failure = record { chunks = chunks; failure = failure }

-- The number after `n`, or one beyond it.
next_or_later : (n j : ℕ) → n < j → (j ≡ n + 1) ⊎ (n + 1 < j)
next_or_later n j h = elim (Bool-cases (leb (n + 2) j)) [
  | inl e ↦ inr (omega (arith, leb→le (n + 2) j e))
  | inr e ↦ inl (omega (arith, h, leb→gt (n + 2) j e))
]

module _ (attempts : ℕ → Attempt) where
  -- One attempt, and what follows it if it is retried.
  one_more :
      (made most : ℕ) (run : ProviderRun) (next : Thrown → ProviderRun × ℕ)
      → made < most
      → run ≡ seen (attempts (made + 1))
      → ((e : Thrown) → GaveNothing run e → Retried attempts (made + 1) most (next e))
      → Retried attempts made most (after_attempt run.chunks run.failure (made + 1) next)
  unfolding after_attempt
  one_more made most run next room e k = by_chunks run.chunks run.failure refl refl
    where
      ends :
          (r : ProviderRun)
          → r ≡ run
          → ((x : Thrown) → GaveNothing run x → ⊥)
          → Retried attempts made most (r, made + 1)
      ends r s n = record {
        more = omega arith;
        bounded = omega (arith, room);
        before = λ j low high. absurd (omega (arith, low, high));
        ending = answered (s ∙ e) (λ x g. n x (subst (λ run. GaveNothing run x) (sym e) g));
      }

      goes : (x : Thrown) → GaveNothing run x → Retried attempts made most (next x)
      goes x g =
          let w = k x g in
          record {
            more = omega (arith, w.more);
            bounded = w.bounded;
            before = λ j low high. elim (next_or_later made j low) [
              | inl same ↦ (
                x,
                subst (λ run. GaveNothing run x) (e ∙ ap (λ n. seen (attempts n)) (sym same)) g,
              )
              | inr later ↦ w.before j later high
            ];
            ending = w.ending;
          }

      by_chunks :
          (chunks : List MessageChunk) (failure : Option Thrown)
          → run.chunks ≡ chunks
          → run.failure ≡ failure
          → Retried attempts made most (after_attempt chunks failure (made + 1) next)
      by_chunks (c ∷ chunks) failure a b =
          ends _ (ap₂ run_of (sym a) (sym b)) (λ x g. absurd (cc (a, g.quiet)))
      by_chunks [] none a b = ends _ (ap₂ run_of (sym a) (sym b)) (λ x g. absurd (cc (b, g.failed)))
      by_chunks [] (some x) a b = elim (Option-cases (retry_error x)) [
        | inl n ↦
            rw (n, after_attempt)
              (ends _ (ap₂ run_of (sym a) (sym b)) (λ y g.
                let same : g.thrown ≡ x = Option.some-injective g.thrown x (sym g.failed ∙ b) in
                absurd (cc (n, g.retried, ap retry_error same))))
        | inr (y, s) ↦
            rw (s, after_attempt)
              (goes y (record { quiet = a; thrown = x; failed = b; retried = s }))
      ]

  -- The attempt before the ones that are left gave nothing, and left the error that the loop holds.
  loop_Retried :
      (left made : ℕ) (e : Thrown)
      → GaveNothing (seen (attempts made)) e
      → Retried attempts made (made + left) (retry_loop attempts left made (some e))
  unfolding retry_loop
  loop_Retried zero made e g = record {
    more = omega arith;
    bounded = omega arith;
    before = λ j low high. absurd (omega (arith, low, high));
    ending = exhausted e (omega arith) g refl;
  }
  loop_Retried (suc left) made e g =
      one_more made (made + suc left) (seen (attempts (made + 1))) _ (omega arith) refl (λ x h.
        subst
          (λ most. Retried attempts (made + 1) most (retry_loop attempts left (made + 1) (some x)))
          (omega arith) (loop_Retried left (made + 1) x h))

  after_attempt-made :
      (made : ℕ) (chunks : List MessageChunk) (failure : Option Thrown)
      (next : Thrown → ProviderRun × ℕ)
      → ((e : Thrown) → made ≤ (next e).1)
      → made ≤ (after_attempt chunks failure made next).1
  unfolding after_attempt
  after_attempt-made made (c ∷ chunks) failure next h = omega arith
  after_attempt-made made [] none next h = omega arith
  after_attempt-made made [] (some x) next h = elim (Option-cases (retry_error x)) [
    | inl n ↦ rw (n, after_attempt) (omega arith)
    | inr (y, s) ↦ rw (s, after_attempt) (h y)
  ]

  retry_loop-made :
      (left made : ℕ) (last : Option Thrown) → made ≤ (retry_loop attempts left made last).1
  unfolding retry_loop
  retry_loop-made zero made last = omega arith
  retry_loop-made (suc left) made last =
      let after : made + 1 ≤ (retry_loop attempts (suc left) made last).1 =
        after_attempt-made (made + 1) (seen (attempts (made + 1))).chunks
          (seen (attempts (made + 1))).failure _ (λ e. retry_loop-made left (made + 1) (some e)) in
      omega (arith, after)

-- With at least one attempt allowed, a retried stream calls the provider at least once and at most
-- `maxAttempts` times. Every attempt but the last gave no chunk and failed with an error that is retried,
-- so no text is given twice; and the stream is the whole of the last attempt, its later failure included,
-- if that is not one to retry, or, when all the attempts are spent, the error that the last one leaves.
pub retry_send_lem :
    (attempts : ℕ → Attempt) (max_attempts : ℕ)
    → 0 < max_attempts
    → (1 ≤ (retry_send attempts max_attempts).1)
      × Retried attempts 0 max_attempts (retry_send attempts max_attempts)
unfolding retry_send retry_loop
retry_send_lem attempts zero h = absurd (omega (arith, h))
retry_send_lem attempts (suc n) h = (
  after_attempt-made attempts 1 (seen (attempts 1)).chunks (seen (attempts 1)).failure _
      (λ e. retry_loop-made attempts n 1 (some e)),
  one_more attempts 0 (suc n) (seen (attempts (0 + 1))) _ (omega arith) refl (λ x g.
      subst (λ most. Retried attempts (0 + 1) most (retry_loop attempts n (0 + 1) (some x)))
        (omega arith) (loop_Retried attempts n (0 + 1) x g)),
)

-- A wait between two attempts is at most the longest delay, and at most the base delay doubled once for
-- each earlier retry.
pub jitter_delay_bounded :
    (base_delay max_delay retry_index random : ℕ)
    → random < 2 ^ 53
    → (jitter_delay base_delay max_delay retry_index random ≤ max_delay)
      × (jitter_delay base_delay max_delay retry_index random ≤ base_delay * 2 ^ (retry_index - 1))
unfolding jitter_delay jitter_cap
jitter_delay_bounded base_delay max_delay retry_index random h =
    let cap = jitter_cap base_delay max_delay retry_index in
    let scaled : random * (cap + 1) < (cap + 1) * 2 ^ 53 =
      rw (mul_comm (cap + 1) (2 ^ 53)) (mul-lt-mul_of_pos_right h (omega arith)) in
    let small =
      (div-lt_iff_lt-mul {k = 2 ^ 53} {x = random * (cap + 1)} {y = cap + 1} (omega arith)).1
        scaled in
    (omega (arith, small), omega (arith, small))
