-- ===== src/Providers/Examples.antt =====
-- Tests and examples of retries and fallbacks.
use halengine.Prelude.{
  ℕ, zero, suc, ◌≤◌, text, true, false, ◌≡◌, refl, none, some, [], ◌∷◌, decimal, arith,
}
use halengine.Ai.{text_chunk, stop, Thrown, ai_error}
use halengine.Orchestrator.{ProviderRun}
use halengine.Providers.{
  Attempt, seen, fails_with, retry_error, after_attempt, retry_loop, retry_send, jitter_delay, Link,
  is_one_of, fails_over, name_of, report_failover, after_first, fallback_loop, fallback_send,
}
use halengine.Providers.Retry.{Retried, retry_send_lem, jitter_delay_bounded}
use halengine.Providers.Fallback.{EndsWithOne, fallback_send_lem}

abbrev answer : ProviderRun
answer = record {
  chunks = text_chunk (text "Hello.") ∷ stop (text "end_turn") none ∷ [];
  failure = none;
}

abbrev busy : Thrown
busy = ai_error (text "busy") (text "RATE_LIMITED") true

-- The first attempt is refused, the second answers and then hangs.
abbrev attempts : ℕ → Attempt
attempts zero = record { run = answer; times_out_after = none }
attempts (suc zero) = record { run = fails_with busy; times_out_after = none }
attempts (suc (suc n)) = record { run = answer; times_out_after = some 1 }

retry_test : retry_send attempts 3 ≡ (
  record {
    chunks = text_chunk (text "Hello.") ∷ [];
    failure = some (ai_error (text "chunk timeout") (text "TIMEOUT") false);
  },
  2,
)
unfolding retry_send retry_loop after_attempt seen retry_error
retry_test = refl

retry_send_lem_example :
    (1 ≤ (retry_send attempts 3).1) × Retried attempts 0 3 (retry_send attempts 3)
retry_send_lem_example = retry_send_lem attempts 3 (omega arith)

jitter_delay_test : (jitter_delay 500 5000 2 7 ≤ 5000) × (jitter_delay 500 5000 2 7 ≤ 1000)
jitter_delay_test = jitter_delay_bounded 500 5000 2 7 (omega arith)

abbrev down : Link
down = record { run = fails_with busy; aborted_before = false; aborted_after = false }

abbrev up : Link
up = record { run = answer; aborted_before = false; aborted_after = false }

fallback_test : fallback_send [] down (up ∷ []) ≡ record {
  run = answer;
  started = 2;
  reported = record { failed = text "1"; next = text "2"; code = text "RATE_LIMITED" } ∷ [];
}
unfolding fallback_send fallback_loop after_first fails_over is_one_of report_failover name_of
    decimal
fallback_test = refl

fallback_send_lem_example : EndsWithOne (down ∷ up ∷ []) 0 [] (fallback_send [] down (up ∷ []))
fallback_send_lem_example = fallback_send_lem [] down (up ∷ [])
