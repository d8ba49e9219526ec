-- ===== src/Controllers/Requests/Laws.antt =====
-- What the request tracker promises: only the newest request of a scope is current.
use perseval.Base.{
  ℕ, ◌≤◌, ◌<◌, ◌≡◌, some, false, List, [], ◌∷◌, arith, u64_max, saturating_add, get, get-put,
  get-del, true, ◌+◌, length, ◌≢◌, put,
}
use perseval.Controllers.Requests.{Tracker, begin, is_current, finish, cancel, clear}

module _ {K : Type 0} (dec : Discrete K) where
  -- Every generation that is active was handed out.
  abbrev pub Issued : Tracker K → Type 0
  Issued t = (k : K) (g : ℕ) → get dec k t.active ≡ some g → g ≤ t.next

  -- An operation on the tracker.
  pub data Call : Type 0 where
    beginning : K → Call
    finishing : K → ℕ → Call
    cancelling : K → Call
    clearing : Call

  unfoldable pub perform : Call → Tracker K → Tracker K
  unfolding begin finish cancel clear
  perform (beginning key) t = (begin dec key t).0
  perform (finishing key generation) t = (finish dec key generation t).0
  perform (cancelling key) t = cancel dec key t
  perform clearing t = clear t

  unfoldable pub run : List Call → Tracker K → Tracker K
  run [] t = t
  run (call ∷ calls) t = run calls (perform call t)

  perform-Issued :
      (call : Call) (t : Tracker K) → Issued t → t.next ≤ u64_max → Issued (perform call t)
  unfolding perform get
  perform-Issued (beginning key) t v b =
      λ k g h. ground (arith, v k g, get-put dec key k (saturating_add u64_max t.next 1) t.active)
  perform-Issued (finishing key generation) t v b =
      λ k g h. ground (arith, v k g, get-del dec key k t.active)
  perform-Issued (cancelling key) t v b = λ k g h. ground (arith, v k g, get-del dec key k t.active)
  perform-Issued clearing t v b = λ k g h. ground arith

  perform-next : (call : Call) (t : Tracker K) → t.next ≤ u64_max → (perform call t).next ≤ u64_max
  unfolding perform
  perform-next (beginning key) t b = ground arith
  perform-next (finishing key generation) t b = ground arith
  perform-next (cancelling key) t b = b
  perform-next clearing t b = b

  perform-next-le :
      (call : Call) (t : Tracker K) → t.next ≤ u64_max → t.next ≤ (perform call t).next
  unfolding perform
  perform-next-le (beginning key) t b = ground arith
  perform-next-le (finishing key generation) t b = ground arith
  perform-next-le (cancelling key) t b = omega arith
  perform-next-le clearing t b = omega arith

  perform-next-step :
      (call : Call) (t : Tracker K) → t.next ≤ u64_max → (perform call t).next ≤ t.next + 1
  unfolding perform
  perform-next-step (beginning key) t b = ground arith
  perform-next-step (finishing key generation) t b = ground arith
  perform-next-step (cancelling key) t b = omega arith
  perform-next-step clearing t b = omega arith

  -- A generation that is not current stays so, whatever is called, while it is not handed out again.
  perform_stale :
      (call : Call) (t : Tracker K) (key : K) (generation : ℕ)
      → t.next < u64_max
      → generation ≤ t.next
      → is_current dec key generation t ≡ false
      → is_current dec key generation (perform call t) ≡ false
  unfolding perform is_current get
  perform_stale (beginning k) t key generation b le h =
      ground (arith, get-put dec k key (saturating_add u64_max t.next 1) t.active)
  perform_stale (finishing k g) t key generation b le h = ground (arith, get-del dec k key t.active)
  perform_stale (cancelling k) t key generation b le h = ground (arith, get-del dec k key t.active)
  perform_stale clearing t key generation b le h = ground arith

  -- After any calls a generation that was not current is still not, while the counter has room.
  run_stale :
      (calls : List Call) (t : Tracker K) (key : K) (generation : ℕ)
      → t.next + length calls ≤ u64_max
      → generation ≤ t.next
      → is_current dec key generation t ≡ false
      → is_current dec key generation (run calls t) ≡ false
  unfolding run
  run_stale [] t key generation b le h = h
  run_stale (call ∷ calls) t key generation b le h =
      run_stale calls (perform call t) key generation
        (omega (arith, perform-next-step call t (omega arith)))
        (omega (arith, perform-next-le call t (omega arith)))
        (perform_stale call t key generation (omega arith) le h)

  -- The answer to a request that was superseded is refused as long as the generations stay below
  -- 2^64: after a second `begin` of the same scope, and as many calls as leave the next generation in
  -- that range, the first generation is not current, and finishing it changes nothing.
  pub superseded_refused :
      (key : K) (t : Tracker K) (calls : List Call)
      → t.next + 2 + length calls ≤ u64_max
      → let (t₁, old) = begin dec key t in
        let u = run calls (begin dec key t₁).0 in
        (is_current dec key old u ≡ false) × (finish dec key old u ≡ (u, false))
  unfolding finish
  superseded_refused key t calls b =
      let (t₁, old) = begin dec key t in
      let stale : is_current dec key old (run calls (begin dec key t₁).0) ≡ false =
        run_stale calls (begin dec key t₁).0 key old (unfold begin in ground arith)
          (unfold begin in ground arith)
          (unfold begin is_current in
            ground (arith, get-put dec key key (saturating_add u64_max t₁.next 1) t₁.active)) in
      (stale, rw stale)

  -- The request that began last is current, its answer is accepted once, and other scopes keep
  -- their requests.
  pub begin-finish :
      (key other : K) (generation : ℕ) (t : Tracker K)
      → let (t₁, g) = begin dec key t in
        let (t₂, accepted) = finish dec key g t₁ in
        (is_current dec key g t₁ ≡ true)
        × (accepted ≡ true)
        × ((finish dec key g t₂).1 ≡ false)
        × (key ≢ other → is_current dec other generation t₂ ≡ is_current dec other generation t)
  unfolding begin finish
  begin-finish key other generation t =
      let g = saturating_add u64_max t.next 1 in
      let active = put dec key g t.active in
      ground (
        arith,
        get-put dec key key g t.active,
        get-put dec key other g t.active,
        get-del dec key key active,
        get-del dec key other active,
      )
