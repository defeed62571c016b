-- ===== src/Providers.antt =====
-- providers/withRetry.ts and providers/withFallback.ts: a provider's stream under retries, and a chain
-- of providers. When a chunk timer fires, and what the abort signal says, are observations.
pub mod Retry
pub mod Fallback
pub mod Examples
use halengine.Prelude.{
  ℕ, zero, suc, ◌+◌, ◌-◌, ◌*◌, ◌/◌, ◌^◌, min, Text, text, text_eq, decimal, Bool, true, false, ◌&&◌,
  ◌||◌, not, Option, none, some, List, [], ◌∷◌, ◌++◌, length, take, get_elem?, if◌then◌else◌, ◌==◌,
}
use mathlib.Core.Option
use halengine.Ai.{MessageChunk, Thrown, ai_error, other_error}
use halengine.Orchestrator.{ProviderRun}

abbrev pub silent : ProviderRun
silent = record { chunks = []; failure = none }

abbrev pub fails_with : Thrown → ProviderRun
fails_with e = record { chunks = []; failure = some e }

-- One attempt: what the provider would yield, and after how many chunks a timer fires, if one does.
pub record Attempt : Type 0 where
  pub run : ProviderRun
  pub times_out_after : Option ℕ

-- What the race of the stream against its chunk timers lets through.
unfoldable pub seen : Attempt → ProviderRun
seen attempt = elim attempt.times_out_after [
  | none ↦ attempt.run
  | some k ↦ record {
    chunks = take k attempt.run.chunks;
    failure = some (ai_error (text "chunk timeout") (text "TIMEOUT") false);
  }
]

-- The error that a failed first read leaves for the next attempt, or none if it is thrown at once.
unfoldable pub retry_error : Thrown → Option Thrown
retry_error (ai_error message code retryable) =
    if text_eq code (text "TIMEOUT")
    then some (ai_error (text "first chunk timeout") (text "TIMEOUT") true)
    else if retryable
    then some (ai_error message code retryable)
    else none
retry_error (other_error message) = none

-- An attempt that has handed on a chunk is the answer, whatever follows; `next` is the loop's next turn.
unfoldable pub after_attempt :
    List MessageChunk → Option Thrown → ℕ → (Thrown → ProviderRun × ℕ) → ProviderRun × ℕ
unfolding retry_error
after_attempt (c ∷ chunks) failure made next =
    (record { chunks = c ∷ chunks; failure = failure }, made)
after_attempt [] none made next = (silent, made)
after_attempt [] (some e) made next = elim (retry_error e) [
  | none ↦ (fails_with e, made)
  | some last ↦ next last
]

abbrev pub retry_exhausted : Thrown
retry_exhausted = ai_error (text "max attempts exhausted") (text "RETRY_EXHAUSTED") false

-- The attempts that are left, after so many calls; with the number of calls that were made.
unfoldable pub retry_loop : (ℕ → Attempt) → (left made : ℕ) → Option Thrown → ProviderRun × ℕ
unfolding after_attempt seen
retry_loop attempts zero made last = (fails_with (Option.get_or last retry_exhausted), made)
retry_loop attempts (suc left) made last =
    let run = seen (attempts (made + 1)) in
    after_attempt run.chunks run.failure (made + 1)
      (λ e. retry_loop attempts left (made + 1) (some e))

unfoldable pub retry_send : (ℕ → Attempt) → (max_attempts : ℕ) → ProviderRun × ℕ
unfolding retry_loop
retry_send attempts max_attempts = retry_loop attempts max_attempts 0 none

-- jitterDelay; Math.random answers one of the 2 ^ 53 fractions below 1.
unfoldable pub jitter_cap : (base_delay max_delay retry_index : ℕ) → ℕ
jitter_cap base_delay max_delay retry_index = min max_delay (base_delay * 2 ^ (retry_index - 1))

unfoldable pub jitter_delay : (base_delay max_delay retry_index random : ℕ) → ℕ
unfolding jitter_cap
jitter_delay base_delay max_delay retry_index random =
    random * (jitter_cap base_delay max_delay retry_index + 1) / 2 ^ 53

-- withFallback: a provider of the chain, and what the signal says before it starts and after it fails.
pub record Link : Type 0 where
  pub run : ProviderRun
  pub aborted_before : Bool
  pub aborted_after : Bool

unfoldable pub is_one_of : Text → List Text → Bool
is_one_of code [] = false
is_one_of code (c ∷ codes) = text_eq code c || is_one_of code codes

abbrev pub outage_codes : List Text
outage_codes =
    text "SERVICE_UNAVAILABLE"
    ∷ text "TIMEOUT"
    ∷ text "RATE_LIMITED"
    ∷ text "BEDROCK_ERROR"
    ∷ text "PROVIDER_ERROR"
    ∷ text "UNKNOWN_ERROR"
    ∷ []

abbrev pub configuration_faults : List Text
configuration_faults = text "AUTH_ERROR" ∷ text "ACCESS_DENIED" ∷ text "VALIDATION_ERROR" ∷ []

unfoldable pub fails_over : Thrown → Bool
unfolding is_one_of
fails_over (ai_error message code retryable) =
    not (is_one_of code configuration_faults) && (retryable || is_one_of code outage_codes)
fails_over (other_error message) = false

pub record FailoverEvent : Type 0 where
  pub failed : Text
  pub next : Text
  pub code : Text

unfoldable pub name_of : List Text → ℕ → Text
name_of labels index = Option.get_or (get_elem? labels index) (decimal (index + 1))

abbrev pub code_of : Thrown → Text
code_of (ai_error message code retryable) = code
code_of (other_error message) = []

-- reportFailover: the last provider's failure is reported to nobody. What the hook throws is dropped.
unfoldable pub report_failover : List Text → (total position : ℕ) → Thrown → List FailoverEvent
unfolding name_of
report_failover labels total position e =
    if position == total - 1
    then []
    else (record {
      failed = name_of labels position;
      next = name_of labels (position + 1);
      code = code_of e;
    })
      ∷ []

-- What a chain gives: its stream, the providers that it started, and the failovers that it reported.
pub record Fellback : Type 0 where
  pub run : ProviderRun
  pub started : ℕ
  pub reported : List FailoverEvent

-- The provider of a link has been started and read once.
unfoldable pub after_first :
    List MessageChunk
    → Option Thrown
    → (aborted : Bool) → ℕ
    → List FailoverEvent
    → (Thrown → Fellback)
    → Fellback
unfolding fails_over
after_first (c ∷ chunks) failure aborted position reported next = record {
  run = record { chunks = c ∷ chunks; failure = failure };
  started = position + 1;
  reported = reported;
}
after_first [] none aborted position reported next = record {
  run = silent;
  started = position + 1;
  reported = reported;
}
after_first [] (some e) aborted position reported next =
    if aborted
    then record { run = silent; started = position + 1; reported = reported }
    else if fails_over e
    then next e
    else record { run = fails_with e; started = position + 1; reported = reported }

-- A chain has a primary, so that the loop has an error when it ends.
unfoldable pub fallback_loop :
    List Text → (total position : ℕ) → Option Thrown → List FailoverEvent → List Link → Fellback
unfolding after_first report_failover
fallback_loop labels total position last reported [] = record {
  run = record { chunks = []; failure = last };
  started = position;
  reported = reported;
}
fallback_loop labels total position last reported (link ∷ links) =
    let rest : Thrown → Fellback = λ e.
      fallback_loop labels total (position + 1) (some e)
        (reported ++ report_failover labels total position e) links in
    if link.aborted_before
    then record { run = silent; started = position; reported = reported }
    else after_first link.run.chunks link.run.failure link.aborted_after position reported rest

unfoldable pub fallback_send : List Text → (primary : Link) → (fallbacks : List Link) → Fellback
unfolding fallback_loop
fallback_send labels primary fallbacks =
    fallback_loop labels (suc (length fallbacks)) 0 none [] (primary ∷ fallbacks)
