-- ===== src/Service/Admission.antt =====
-- The byte budget of `LiveIngestHandle` (crates/perseval-service/src/live.rs). Threads share the
-- counter `queued_bytes`; a step is one atomic access of one thread.
pub mod Bounded
use perseval.Base.{
  ℕ, Option, none, some, Bool, true, false, List, [], ◌∷◌, ◌+◌, ◌-◌, ltb, ◌==◌, if◌then◌else◌,
  checked_add, u64_max, not, ◌&&◌,
}

-- The loop of `reserve_bytes`: about to try with a value it has read, or back with its answer.
pub data Reservation : Type 0 where
  trying : ℕ → Reservation
  answered : Bool → Reservation

-- What a round does before the exchange: `none` is the answer `false`, else the next value.
unfoldable pub next_bytes : ℕ → ℕ → ℕ → Option ℕ
next_bytes capacity current bytes = elim (checked_add u64_max current bytes) [
  | none ↦ none
  | some next ↦ if ltb capacity next then none else some next
]

-- `compare_exchange_weak` on the counter; it may fail although the value is the expected one.
-- The counter, and the value seen where it fails.
unfoldable pub compare_exchange : Bool → ℕ → ℕ → ℕ → ℕ × Option ℕ
compare_exchange spurious counter current next =
    if not spurious && (counter == current) then (next, none) else (counter, some counter)

-- One round of the loop against the counter as it is then.
unfoldable pub reserve_round : ℕ → ℕ → Bool → ℕ → Reservation → ℕ × Reservation
unfolding next_bytes compare_exchange
reserve_round capacity bytes spurious counter (answered b) = (counter, answered b)
reserve_round capacity bytes spurious counter (trying current) =
    elim (next_bytes capacity current bytes) [
      | none ↦ (counter, answered false)
      | some next ↦
          let (counter', observed) = compare_exchange spurious counter current next in
          elim observed [ none ↦ (counter', answered true) | some seen ↦ (counter', trying seen) ]
    ]

-- `fetch_sub`, which wraps around.
abbrev pub fetch_sub : ℕ → ℕ → ℕ
fetch_sub counter amount =
    if ltb counter amount then counter + (u64_max + 1) - amount else counter - amount

-- `release`: the two counters.
unfoldable pub release : ℕ → ℕ × ℕ → ℕ × ℕ
release bytes (queued_bytes, queued_batches) =
    (fetch_sub queued_bytes bytes, fetch_sub queued_batches 1)
