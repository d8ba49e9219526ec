-- ===== src/Service/Retry/Backoff.antt =====
-- The delays of a row of failures.
use native.Mathlib.Nat.{two-pow-succ}
use perseval.Base.{
  ℕ, zero, suc, ◌+◌, ◌*◌, ◌^◌, ◌≤◌, ◌<◌, ◌≡◌, none, some, true, false, List, [], ◌∷◌, length, min,
  arith, refl, ◌∙◌, ap,
}
use perseval.Service.Retry.{
  ProjectionRetryState, ProjectionHealth, record_failure, record_caught_up, after_delay, Round,
  nothing_pending, retry_pending_projections,
}

-- A duration that is doubled so many times.
abbrev pub raised : ℕ → ℕ → ℕ
raised first zero = first
raised first (suc n) = raised first n * 2

raised_double : (first n : ℕ) → raised (first * 2) n ≡ raised first (suc n)
raised_double first zero = refl
raised_double first (suc n) = ap (λ x. x * 2) (raised_double first n)

raised_pow : (first n : ℕ) → raised first n ≡ first * 2 ^ n
raised_pow first zero = omega arith
raised_pow first (suc n) =
    let e = raised_pow first n in
    let p : first * 2 ^ suc n ≡ first * (2 ^ n + 2 ^ n) = ap (λ t. first * t) (two-pow-succ n) in
    omega (arith, e, p)

-- A limit in between does not matter to a limit at the end.
raised-min : (c maximum n : ℕ) → min (raised (min c maximum) n) maximum ≡ min (raised c n) maximum
raised-min c maximum zero = omega arith
raised-min c maximum (suc n) = omega (arith, raised-min c maximum n)

module _ {Text : Type 0} (most latest : ℕ) where
  -- The failures of one outage: when each is seen, and its error.
  unfoldable pub fail_all :
      List (ℕ × Text)
      → ProjectionHealth Text × ProjectionRetryState
      → ProjectionHealth Text × ProjectionRetryState
  fail_all [] s = s
  fail_all ((now, error) ∷ failures) s = fail_all failures (record_failure most latest now error s)

  fail_all-raised :
      (failures : List (ℕ × Text)) (health : ProjectionHealth Text) (r : ProjectionRetryState)
      → r.backoff ≤ r.maximum_backoff
      → r.maximum_backoff ≤ most
      → let r' = (fail_all failures (health, r)).1 in
        (r'.backoff ≡ min (raised r.backoff (length failures)) r.maximum_backoff)
        × (r'.maximum_backoff ≡ r.maximum_backoff)
        × (r'.initial_backoff ≡ r.initial_backoff)
  unfolding fail_all record_failure
  fail_all-raised [] health r b small = (omega arith, refl, refl)
  fail_all-raised ((at, error) ∷ failures) health r b small =
      let (health₁, r₁) = record_failure most latest at error (health, r) in
      let next : r₁.backoff ≡ min (r.backoff * 2) r.maximum_backoff = ground arith in
      let (backoff, maximum, initial) =
        fail_all-raised failures health₁ r₁ (omega (arith, next)) small in
      let limit = raised-min (r.backoff * 2) r.maximum_backoff (length failures) in
      (
        backoff
            ∙ ap (λ x. min (raised x (length failures)) r.maximum_backoff) next
            ∙ limit
            ∙ ap (λ x. min x r.maximum_backoff) (raised_double r.backoff (length failures)),
        maximum,
        initial,
      )

  -- For a first delay within the configured maximum, and a clock that can hold the times: after `n`
  -- failures of an outage, the next one puts the projection off by the first delay times `2 ^ n`, or by
  -- the maximum where that is less. A round before that time changes nothing, whatever it would meet;
  -- a round at that time that finds nothing pending ends the outage, with the initial delay and
  -- no error.
  pub fail_all-backoff :
      (failures : List (ℕ × Text)) (error : Text) (now later after : ℕ) (found : Round Text)
      (health : ProjectionHealth Text) (r : ProjectionRetryState)
      → r.backoff ≤ r.maximum_backoff
      → r.maximum_backoff ≤ most
      → now + r.maximum_backoff ≤ latest
      → later < now + min (r.backoff * 2 ^ length failures) r.maximum_backoff
      → let due = now + min (r.backoff * 2 ^ length failures) r.maximum_backoff in
        let s = record_failure most latest now error (fail_all failures (health, r)) in
        let calm = retry_pending_projections most latest due after nothing_pending s in
        (s.1.next_attempt ≡ due)
        × (s.0.projection_degraded ≡ true)
        × (s.0.projection_last_error ≡ some error)
        × (retry_pending_projections most latest later after found s ≡ s)
        × (calm.1.backoff ≡ r.initial_backoff)
        × (calm.0.projection_degraded ≡ false)
        × (calm.0.projection_last_error ≡ none)
  unfolding record_failure after_delay retry_pending_projections record_caught_up
  fail_all-backoff failures error now later after found health r b small fits early =
      let (backoff, maximum, initial) = fail_all-raised failures health r b small in
      let times = raised_pow r.backoff (length failures) in
      let due = now + min (r.backoff * 2 ^ length failures) r.maximum_backoff in
      let delay : (fail_all failures (health, r)).1.backoff
          ≡ min (r.backoff * 2 ^ length failures) r.maximum_backoff =
        backoff ∙ ap (λ x. min x r.maximum_backoff) times in
      let next : (record_failure most latest now error
            (fail_all failures (health, r))).1.next_attempt
          ≡ due =
        ground arith in
      (
        next,
        refl,
        refl,
        ground (arith, next),
        ground (arith, next, initial),
        ground (arith, next),
        ground (arith, next),
      )
