-- ===== src/Service/Deltas/Delivery.antt =====
-- A subscriber has all deltas, or knows that it has not.
use perseval.Base.{
  ◌<◌, true, false, List, [], ◌∷◌, ◌++◌, length, leb, arith, refl, inl, inr, ◌⊎◌, Bool-cases, ◌≡◌,
  ◌≤◌, ap, ◌∙◌, length-append, sym,
}
use perseval.Service.Deltas.{SendResult, publish_one, publish_all, Documented}

append_assoc : {A : Type 0} (xs ys zs : List A) → (xs ++ ys) ++ zs ≡ xs ++ (ys ++ zs)
append_assoc [] ys zs = refl
append_assoc (x ∷ xs) ys zs = ap (◌∷◌ x) (append_assoc xs ys zs)

append-nil : {A : Type 0} (xs : List A) → xs ++ [] ≡ xs
append-nil [] = refl
append-nil (x ∷ xs) = ap (◌∷◌ x) (append-nil xs)

module _ {Delta Sender : Type 0} (try_send : Delta → Sender → Sender × SendResult)
    (close : Sender → Sender) (channel : Documented try_send close) where
  publish_one-room :
      (delta : Delta) (s : Sender)
      → channel.is_closed s ≡ false
      → length (channel.held s) < channel.capacity s
      → publish_one try_send close delta s ≡ ((try_send delta s).0, true)
  unfolding publish_one
  publish_one-room delta s o room =
      let (yes_, _, _, _) = channel.sends delta s o room in rw yes_ refl

  publish_one-full :
      (delta : Delta) (s : Sender)
      → channel.is_closed s ≡ false
      → channel.capacity s ≤ length (channel.held s)
      → publish_one try_send close delta s ≡ (close s, false)
  unfolding publish_one
  publish_one-full delta s o no_room = rw (channel.fills delta s o no_room) refl

  -- What a subscriber that receives nothing meanwhile finds, if the channel does what its library
  -- documents: the hub keeps the sender, the channel is open and holds all deltas in their order; or
  -- the hub does not keep it, the channel is closed and full, and it holds the deltas up to the one
  -- that found it full.
  pub publish_all-delivers :
      (deltas : List Delta) (s : Sender)
      → channel.is_closed s ≡ false
      → length (channel.held s) ≤ channel.capacity s
      → let (next, kept) = publish_all try_send close deltas s in
        (length (channel.held next) ≤ channel.capacity s)
        × (missed : List Delta) × (channel.held next ++ missed ≡ channel.held s ++ deltas)
        × (((kept ≡ true) × (missed ≡ []) × (channel.is_closed next ≡ false))
            ⊎ ((kept ≡ false)
                × (channel.is_closed next ≡ true)
                × (length (channel.held next) ≡ channel.capacity s)))
  unfolding publish_all
  publish_all-delivers [] s o fits = (
    fits,
    [],
    append-nil (channel.held s) ∙ sym (append-nil (channel.held s)),
    inl (refl, refl, o),
  )
  publish_all-delivers (delta ∷ deltas) s o fits =
      elim (Bool-cases (leb (channel.capacity s) (length (channel.held s)))) [
        | inl no_room ↦
            let (same_, size, closed) = channel.closes s in
            rw (publish_one-full delta s o (ground arith)) (
              rw same_ fits,
              delta ∷ deltas,
              rw same_ refl,
              inr (refl, closed, rw same_ (ground arith)),
            )
        | inr room ↦
            let less : length (channel.held s) < channel.capacity s = ground arith in
            let (_, longer, same_size, still) = channel.sends delta s o less in
            let size = length-append (channel.held s) (delta ∷ []) in
            let (le, missed, all, ends) =
              publish_all-delivers deltas (try_send delta s).0 still
                (rw (longer, same_size) (omega (arith, size))) in
            rw (publish_one-room delta s o less) (
              omega (arith, same_size, le),
              missed,
              all
                  ∙ ap (λ xs. xs ++ deltas) longer
                  ∙ append_assoc (channel.held s) (delta ∷ []) deltas,
              elim ends [
                | inl (a, b, c) ↦ inl (a, b, c)
                | inr (a, b, c) ↦ inr (a, b, c ∙ same_size)
              ],
            )
      ]
