-- ===== src/Service/Admission/Bounded.antt =====
-- Whatever the threads do, the counter is the bytes that are admitted, within the capacity.
use perseval.Base.{
  ℕ, some, Bool, true, false, List, [], ◌∷◌, ◌+◌, ◌≤◌, ◌≡◌, refl, arith, inl, inr, Option-cases,
  Bool-cases, not, ◌&&◌, ◌==◌,
}
use perseval.Service.Admission.{
  Reservation, trying, answered, next_bytes, compare_exchange, reserve_round, release,
}

-- One call: its bytes, and where it stands. `released` is a call whose bytes were given back.
pub data Call : Type 0 where
  reserving : ℕ → Reservation → Call
  released : Call

-- The bytes that a call holds.
abbrev pub held : Call → ℕ
held (reserving bytes (trying current)) = 0
held (reserving bytes (answered true)) = bytes
held (reserving bytes (answered false)) = 0
held released = 0

abbrev pub all_held : List Call → ℕ
all_held [] = 0
all_held (call ∷ calls) = held call + all_held calls

-- A step of one of the calls: it begins with a relaxed load of the counter, runs a round, or gives
-- its bytes back.
pub data Step (capacity : ℕ) : ℕ → List Call → ℕ → List Call → Type 0 where
  begins :
      (counter bytes : ℕ) (calls : List Call)
      → Step capacity counter calls counter (reserving bytes (trying counter) ∷ calls)
  rounds :
      (counter bytes : ℕ) (spurious : Bool) (reservation : Reservation) (calls : List Call)
      → Step capacity counter
          (reserving bytes reservation ∷ calls)
          (reserve_round capacity bytes spurious counter reservation).0
          (reserving bytes (reserve_round capacity bytes spurious counter reservation).1 ∷ calls)
  releases :
      (counter batches bytes : ℕ) (calls : List Call)
      → Step capacity counter
          (reserving bytes (answered true) ∷ calls)
          (release bytes (counter, batches)).0
          (released ∷ calls)
  -- Another call takes its turn.
  elsewhere :
      (counter counter' : ℕ) (call : Call) (calls calls' : List Call)
      → Step capacity counter calls counter' calls'
      → Step capacity counter (call ∷ calls) counter' (call ∷ calls')

pub data Run (capacity : ℕ) : ℕ → List Call → Type 0 where
  start : Run capacity 0 []
  then_step :
      (counter counter' : ℕ) (calls calls' : List Call)
      → Run capacity counter calls
      → Step capacity counter calls counter' calls'
      → Run capacity counter' calls'

next_bytes-sum :
    (capacity current bytes next : ℕ)
    → next_bytes capacity current bytes ≡ some next
    → (next ≡ current + bytes) × (next ≤ capacity)
unfolding next_bytes
next_bytes-sum capacity current bytes next n = ground arith

round-accounts :
    (capacity bytes counter others : ℕ) (spurious : Bool) (reservation : Reservation)
    → counter ≡ held (reserving bytes reservation) + others
    → counter ≤ capacity
    → let (counter', reservation') = reserve_round capacity bytes spurious counter reservation in
      (counter' ≡ held (reserving bytes reservation') + others) × (counter' ≤ capacity)
unfolding reserve_round compare_exchange
round-accounts capacity bytes counter others spurious (answered b) e h = (e, h)
round-accounts capacity bytes counter others spurious (trying current) e h =
    elim (Option-cases (next_bytes capacity current bytes)) [
      | inl n ↦ rw (n, reserve_round) (e, h)
      | inr (next, n) ↦
          rw (n, reserve_round)
            (let (sum, fits) = next_bytes-sum capacity current bytes next n in
              elim (Bool-cases (not spurious && (counter == current))) [
                | inl same ↦ rw (same, compare_exchange) (ground arith)
                | inr other ↦ rw (other, compare_exchange) (ground arith)
              ])
    ]

Step-accounts :
    (capacity counter counter' others : ℕ) (calls calls' : List Call)
    → Step capacity counter calls counter' calls'
    → counter ≡ all_held calls + others
    → counter ≤ capacity
    → (counter' ≡ all_held calls' + others) × (counter' ≤ capacity)
Step-accounts capacity _ _ others _ _ (begins counter bytes rest) e h = (omega (arith, e), h)
Step-accounts capacity _ _ others _ _ (rounds counter bytes spurious reservation rest) e h =
    let (e', h') =
      round-accounts capacity bytes counter (all_held rest + others) spurious reservation
        (omega (arith, e)) h in
    (omega (arith, e'), h')
Step-accounts capacity _ _ others _ _ (releases counter batches bytes rest) e h =
    (unfold release in ground (arith, e), unfold release in ground (arith, h))
Step-accounts capacity _ _ others _ _ (elsewhere counter counter' call rest rest' step) e h =
    let (e', h') =
      Step-accounts capacity counter counter' (held call + others) rest rest' step
        (omega (arith, e)) h in
    (omega (arith, e'), h')

-- However the calls interleave, and however often an exchange fails, the counter is the sum of the
-- bytes admitted and not yet released, and never above the capacity.
pub Run-accounts :
    (capacity counter : ℕ) (calls : List Call)
    → Run capacity counter calls
    → (counter ≡ all_held calls) × (counter ≤ capacity)
Run-accounts capacity _ _ start = (refl, omega arith)
Run-accounts capacity _ _ (then_step counter counter' calls calls' run step) =
    let (e, h) = Run-accounts capacity counter calls run in
    let (e', h') =
      Step-accounts capacity counter counter' 0 calls calls' step (omega (arith, e)) h in
    (omega (arith, e'), h')
