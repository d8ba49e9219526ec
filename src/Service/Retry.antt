-- ===== src/Service/Retry.antt =====
-- `ProjectionRetryState` of crates/perseval-service/src/live/writer.rs. Instants and durations are
-- counts of one unit; `most` is the largest duration, and `latest` the largest instant.
pub mod Backoff
use perseval.Base.{
  ℕ, ◌+◌, ◌*◌, Option, none, some, Bool, true, false, min, ltb, if◌then◌else◌, saturating_add,
  u64_max,
}

pub record ProjectionRetryState : Type 0 where
  pub next_attempt : ℕ
  pub backoff : ℕ
  pub initial_backoff : ℕ
  pub maximum_backoff : ℕ

-- The fields of the health that the projection writes; the error is any text.
pub record ProjectionHealth (Text : Type 0) : Type 0 where
  pub projection_degraded : Bool
  pub projection_retry_count : ℕ
  pub projection_last_error : Option Text

-- `checked_add(delay).unwrap_or_else(Instant::now)`
unfoldable pub after_delay : ℕ → ℕ → ℕ → ℕ
after_delay latest now delay = if ltb latest (now + delay) then now else now + delay

-- `saturating_mul(2)`
abbrev pub doubled : ℕ → ℕ → ℕ
doubled most duration = min (duration * 2) most

unfoldable pub new : ℕ → ℕ → ℕ → ProjectionRetryState
new now projection_retry_initial projection_retry_max = record {
  next_attempt = now;
  backoff = projection_retry_initial;
  initial_backoff = projection_retry_initial;
  maximum_backoff = projection_retry_max;
}

unfoldable pub schedule_now : ℕ → ProjectionRetryState → ProjectionRetryState
schedule_now now r = record r { next_attempt = now }

unfoldable pub schedule_after : ℕ → ℕ → ℕ → ProjectionRetryState → ProjectionRetryState
unfolding after_delay
schedule_after latest now delay r = record r { next_attempt = after_delay latest now delay }

-- What a round of the writer meets once it is due: the query or the publication fails, nothing is
-- pending, or what is pending is published.
pub data Round (Text : Type 0) : Type 0 where
  fails : Text → Round Text
  nothing_pending publishes : Round Text

module _ {Text : Type 0} (most latest : ℕ) where
  unfoldable pub record_failure :
      ℕ
      → Text
      → ProjectionHealth Text × ProjectionRetryState
      → ProjectionHealth Text × ProjectionRetryState
  unfolding after_delay
  record_failure now error (health, r) = (
    record {
      projection_degraded = true;
      projection_retry_count = saturating_add u64_max health.projection_retry_count 1;
      projection_last_error = some error;
    },
    record r {
      next_attempt = after_delay latest now r.backoff;
      backoff = min (doubled most r.backoff) r.maximum_backoff;
    },
  )

  unfoldable pub record_caught_up :
      ℕ
      → ProjectionHealth Text × ProjectionRetryState
      → ProjectionHealth Text × ProjectionRetryState
  unfolding after_delay
  record_caught_up now (health, r) = (
    record health { projection_degraded = false; projection_last_error = none },
    record r {
      backoff = r.initial_backoff;
      next_attempt = after_delay latest now r.initial_backoff;
    },
  )

  -- The clock is read once for the test, and once more where an attempt is scheduled.
  unfoldable pub retry_pending_projections :
      ℕ
      → ℕ
      → Round Text
      → ProjectionHealth Text × ProjectionRetryState
      → ProjectionHealth Text × ProjectionRetryState
  unfolding record_failure record_caught_up schedule_now
  retry_pending_projections now then_ found (health, r) =
      if ltb now r.next_attempt then (health, r) else (elim found [
        | fails error ↦ record_failure then_ error (health, r)
        | nothing_pending ↦ record_caught_up then_ (health, r)
        | publishes ↦ (health, schedule_now then_ r)
      ])
