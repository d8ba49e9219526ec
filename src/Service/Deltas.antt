-- ===== src/Service/Deltas.antt =====
-- `DeltaHub` of crates/perseval-service/src/live.rs. A sender of the channel library, with its
-- channel, is of any type; `try_send` and `close` are parameters.
pub mod Delivery
use perseval.Base.{ℕ, ◌≡◌, ◌≤◌, ◌<◌, Bool, true, false, List, [], ◌∷◌, ◌++◌, length, if◌then◌else◌}

-- The answers of `try_send`: done, on a full channel, on a closed channel.
pub data SendResult : Type 0 where
  sent full refused : SendResult

module _ {Delta Sender : Type 0} (try_send : Delta → Sender → Sender × SendResult)
    (close : Sender → Sender) where
  -- The closure of `publish`: the sender after it, and whether the hub keeps it.
  abbrev pub after_send : Sender → SendResult → Sender × Bool
  after_send s sent = (s, true)
  after_send s full = (close s, false)
  after_send s refused = (s, false)

  unfoldable pub publish_one : Delta → Sender → Sender × Bool
  publish_one delta s = let (next, result) = try_send delta s in after_send next result

  -- The senders that `publish` keeps.
  unfoldable pub publish : Delta → List Sender → List Sender
  unfolding publish_one
  publish delta [] = []
  publish delta (s ∷ senders) =
      let rest = publish delta senders in
      let (next, kept) = publish_one delta s in if kept then next ∷ rest else rest

  -- One subscriber's sender under deltas that are published one after the other; when the hub does
  -- not keep it, it gets none of the later ones.
  unfoldable pub publish_all : List Delta → Sender → Sender × Bool
  unfolding publish_one
  publish_all [] s = (s, true)
  publish_all (delta ∷ deltas) s =
      let (next, kept) = publish_one delta s in
      let rest = publish_all deltas next in if kept then rest else (next, false)

-- What the library documents of a bounded channel: what it holds, and how the two calls change it.
pub record Documented {Delta Sender : Type 0} (try_send : Delta → Sender → Sender × SendResult)
    (close : Sender → Sender) : Type 0 where
  pub held : Sender → List Delta
  pub capacity : Sender → ℕ
  pub is_closed : Sender → Bool
  pub sends :
      (delta : Delta) (s : Sender)
      → is_closed s ≡ false
      → length (held s) < capacity s
      → ((try_send delta s).1 ≡ sent)
        × (held (try_send delta s).0 ≡ held s ++ delta ∷ [])
        × (capacity (try_send delta s).0 ≡ capacity s)
        × (is_closed (try_send delta s).0 ≡ false)
  pub fills :
      (delta : Delta) (s : Sender)
      → is_closed s ≡ false
      → capacity s ≤ length (held s)
      → try_send delta s ≡ (s, full)
  pub refuses : (delta : Delta) (s : Sender) → is_closed s ≡ true → try_send delta s ≡ (s, refused)
  pub closes :
      (s : Sender)
      → (held (close s) ≡ held s) × (capacity (close s) ≡ capacity s) × (is_closed (close s) ≡ true)
