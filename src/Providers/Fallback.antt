-- ===== src/Providers/Fallback.antt =====
-- What a chain of withFallback.ts gives, by its providers.
use halengine.Prelude.{
  ℕ, suc, subst, ◌+◌, ◌-◌, ◌<◌, Text, Bool, true, false, ◌≡◌, refl, sym, ap, ap₂, inl, inr, Option,
  none, some, List, [], ◌∷◌, ◌++◌, append-nil, length, length-append, All, arith, Bool-cases,
  if◌then◌else◌, ◌==◌, ==_iff,
}
use halengine.Ai.{MessageChunk, Thrown}
use halengine.Orchestrator.{ProviderRun}
use halengine.Providers.{
  silent, fails_with, Link, fails_over, FailoverEvent, report_failover, Fellback, after_first,
  fallback_loop, fallback_send,
}

-- A provider that gave no chunk and failed with an error that routes onward.
pub record HasFailedOver (link : Link) : Type 0 where
  pub thrown : Thrown
  pub quiet : link.run.chunks ≡ []
  pub failed : link.run.failure ≡ some thrown
  pub onward : fails_over thrown ≡ true

-- How a chain that has started `begun` providers ends at a link: with the provider's own stream, which a
-- failure that routes onward can be only at the end of the chain; silent, for a caller that was gone
-- before the provider started; or silent, for one that was gone when its first read failed.
pub data EndsAt (link : Link) (after : List Link) (begun : ℕ) (r : Fellback) : Type 0 where
  own :
      link.aborted_before ≡ false
      → r.run ≡ link.run
      → r.started ≡ begun + 1
      → ((e : Thrown)
          → link.run.chunks ≡ []
          → link.run.failure ≡ some e
          → (link.aborted_after ≡ false) × (fails_over e ≡ true → after ≡ []))
      → EndsAt link after begun r
  unstarted :
      link.aborted_before ≡ true → r.run ≡ silent → r.started ≡ begun → EndsAt link after begun r
  dropped :
      (e : Thrown)
      → link.aborted_before ≡ false
      → link.aborted_after ≡ true
      → link.run.chunks ≡ []
      → link.run.failure ≡ some e
      → r.run ≡ silent
      → r.started ≡ begun + 1
      → EndsAt link after begun r

-- One provider of the chain ends it: those before it failed over, each reported once, and those after
-- it are never started.
pub record EndsWithOne (links : List Link) (position : ℕ) (reported : List FailoverEvent)
    (r : Fellback) : Type 0 where
  pub before : List Link
  pub speaker : Link
  pub after : List Link
  pub split : links ≡ before ++ speaker ∷ after
  pub passed : All HasFailedOver before
  pub ended : EndsAt speaker after (position + length before) r
  pub told : length r.reported ≡ length reported + length before

abbrev run_of : List MessageChunk → Option Thrown → ProviderRun
run_of chunks failure = record { chunks = chunks; failure = failure }

report_failover-last :
    (labels : List Text) (total position : ℕ) (e : Thrown)
    → position + 1 ≡ total
    → report_failover labels total position e ≡ []
unfolding report_failover
report_failover-last labels total position e h =
    rw ((==_iff position (total - 1)).1 (omega (arith, h)), report_failover) refl

module _ (labels : List Text) (total : ℕ) where
  ends_here :
      (position : ℕ) (reported : List FailoverEvent) (link : Link) (links : List Link)
      (r : Fellback)
      → EndsAt link links position r
      → r.reported ≡ reported
      → EndsWithOne (link ∷ links) position reported r
  ends_here position reported link links r ended told = record {
    before = [];
    speaker = link;
    after = links;
    split = refl;
    passed = tt;
    ended = subst (λ n. EndsAt link links n r) (omega arith) ended;
    told = omega (arith, ap length told);
  }

  goes_on_to :
      (position : ℕ) (reported : List FailoverEvent) (link : Link) (links : List Link) (e : Thrown)
      (r : Fellback)
      → link.run.chunks ≡ []
      → link.run.failure ≡ some e
      → fails_over e ≡ true
      → length (report_failover labels total position e) ≡ 1
      → EndsWithOne links (position + 1) (reported ++ report_failover labels total position e) r
      → EndsWithOne (link ∷ links) position reported r
  goes_on_to position reported link links e r quiet failed onward one w = record {
    before = link ∷ w.before;
    speaker = w.speaker;
    after = w.after;
    split = ap (λ ls. link ∷ ls) w.split;
    passed = (record { thrown = e; quiet = quiet; failed = failed; onward = onward }, w.passed);
    ended = subst (λ n. EndsAt w.speaker w.after n r) (omega arith) w.ended;
    told =
        omega
          (arith, w.told, one, length-append reported (report_failover labels total position e));
  }

  -- A provider that is started, by what its first read gives; `next` ends the chain if it fails over.
  started_link :
      (position : ℕ) (reported : List FailoverEvent) (link : Link) (links : List Link)
      (next : Thrown → Fellback)
      → link.aborted_before ≡ false
      → ((e : Thrown)
          → link.run.chunks ≡ []
          → link.run.failure ≡ some e
          → link.aborted_after ≡ false
          → fails_over e ≡ true
          → EndsWithOne (link ∷ links) position reported (next e))
      → EndsWithOne
          (link ∷ links)
          position
          reported
          (after_first link.run.chunks link.run.failure link.aborted_after position reported next)
  unfolding after_first
  started_link position reported link links next here k =
      by_read link.run.chunks link.run.failure link.aborted_after refl refl refl
    where
      ends :
          (run : ProviderRun)
          → run ≡ link.run
          → ((e : Thrown)
              → link.run.chunks ≡ []
              → link.run.failure ≡ some e
              → (link.aborted_after ≡ false) × (fails_over e ≡ true → links ≡ []))
          → EndsWithOne
              (link ∷ links)
              position
              reported
              (record { run = run; started = position + 1; reported = reported })
      ends run h only = ends_here position reported link links _ (own here h refl only) refl

      by_read :
          (chunks : List MessageChunk) (failure : Option Thrown) (aborted : Bool)
          → link.run.chunks ≡ chunks
          → link.run.failure ≡ failure
          → link.aborted_after ≡ aborted
          → EndsWithOne
              (link ∷ links)
              position
              reported
              (after_first chunks failure aborted position reported next)
      by_read (c ∷ chunks) failure aborted a b g =
          ends (run_of (c ∷ chunks) failure) (ap₂ run_of (sym a) (sym b))
            (λ e q f. absurd (cc (q, a)))
      by_read [] none aborted a b g =
          ends silent (ap₂ run_of (sym a) (sym b)) (λ e q f. absurd (cc (f, b)))
      by_read [] (some e) true a b g =
          ends_here position reported link links _ (dropped e here g a b refl refl) refl
      by_read [] (some e) false a b g = elim (Bool-cases (fails_over e)) [
        | inl onward ↦ rw (onward, after_first) (k e a b g onward)
        | inr thrown ↦
            rw (thrown, after_first)
              (ends (fails_with e) (ap₂ run_of (sym a) (sym b))
                (λ x q f. (g, λ o. absurd (cc (o, thrown, b, f)))))
      ]

  report_failover-next :
      (position : ℕ) (e : Thrown)
      → position + 1 < total
      → length (report_failover labels total position e) ≡ 1
  unfolding report_failover
  report_failover-next position e h = elim (Bool-cases (position == total - 1)) [
    | inl last ↦ absurd (omega (arith, h, (==_iff position (total - 1)).0 last))
    | inr more ↦ rw (more, report_failover) refl
  ]

  aborted_or_started :
      (position : ℕ) (reported : List FailoverEvent) (link : Link) (links : List Link)
      (next : Thrown → Fellback)
      → ((e : Thrown)
          → link.aborted_before ≡ false
          → link.run.chunks ≡ []
          → link.run.failure ≡ some e
          → link.aborted_after ≡ false
          → fails_over e ≡ true
          → EndsWithOne (link ∷ links) position reported (next e))
      → (aborted : Bool) → link.aborted_before ≡ aborted
      → EndsWithOne (link ∷ links) position reported (
          if aborted
          then record { run = silent; started = position; reported = reported }
          else after_first link.run.chunks link.run.failure link.aborted_after position reported
              next)
  aborted_or_started position reported link links next k true h =
      ends_here position reported link links _ (unstarted h refl refl) refl
  aborted_or_started position reported link links next k false h =
      started_link position reported link links next h (λ e. k e h)

  chain_lem :
      (position : ℕ) (last : Option Thrown) (reported : List FailoverEvent) (link : Link)
      (links : List Link)
      → position + suc (length links) ≡ total
      → EndsWithOne
          (link ∷ links)
          position
          reported
          (fallback_loop labels total position last reported (link ∷ links))
  unfolding fallback_loop
  chain_lem position last reported link [] h =
      aborted_or_started position reported link []
        (λ e.
          fallback_loop labels total (position + 1) (some e)
            (reported ++ report_failover labels total position e) [])
        (λ e here a b g c.
          ends_here position reported link [] _
            (own here (ap₂ run_of (sym a) (sym b)) refl (λ x q f. (g, λ o. refl)))
            (rw (report_failover-last labels total position e (omega (arith, h)))
              (append-nil reported)))
        link.aborted_before refl
  chain_lem position last reported link (l ∷ ls) h =
      aborted_or_started position reported link (l ∷ ls)
        (λ e.
          fallback_loop labels total (position + 1) (some e)
            (reported ++ report_failover labels total position e) (l ∷ ls))
        (λ e here a b g c.
          goes_on_to position reported link (l ∷ ls) e _ a b c
            (report_failover-next position e (omega (arith, h)))
            (chain_lem (position + 1) (some e) (reported ++ report_failover labels total position e)
              l ls (omega (arith, h))))
        link.aborted_before refl

-- A chain of providers ends with one of them. Those before it gave no chunk and failed with an error
-- that routes onward, and each of these failovers is reported once; those after it are not started.
-- The stream is the whole of that provider's own, a failure in it included, which routes onward only if
-- it is the last; or it is silent, and only for a caller whose signal was aborted before that provider
-- started, or when its first read failed.
pub fallback_send_lem :
    (labels : List Text) (primary : Link) (fallbacks : List Link)
    → EndsWithOne (primary ∷ fallbacks) 0 [] (fallback_send labels primary fallbacks)
unfolding fallback_send
fallback_send_lem labels primary fallbacks =
    chain_lem labels (suc (length fallbacks)) 0 none [] primary fallbacks (omega arith)
