-- ===== src/Mcp/Cursor/Bound.antt =====
-- What a cursor is bound to.
use perseval.Base.{
  ℕ, Option, none, some, true, arith, refl, ◌≡◌, ◌≤◌, ◌<◌, ◌≢◌, saturating_add, u64_max, ◌∙◌,
}
use perseval.Mcp.Cursor.{
  Codec, CursorCodec, CursorPayload, SignedCursor, position, expired, encode, decode, decode_signed,
  decode_payload, decode_numbers, matches, same_scope, payload_of, same,
}

module _ {Text : Type 0} (dec : Discrete Text) (codec : Codec Text) (self : CursorCodec Text) where
  -- What the other packages promise of a payload: what is encoded is decoded again, and a printed
  -- u64 is parsed.
  pub record RoundTrips (p : CursorPayload Text) : Type 0 where
    pub payload : codec.decode_payload (codec.encode_payload p) ≡ some p
    pub signed :
        let s : SignedCursor Text = record {
          payload = codec.encode_payload p;
          signature = codec.sign (codec.encode_payload p);
        } in
        codec.decode_signed (codec.encode_signed s) ≡ some s
    pub number : (n : ℕ) → n ≤ u64_max → codec.parse (codec.print n) ≡ some n

  same_self : (a : Text) → same dec codec self a a ≡ true
  same_self a = ground arith

  same_scope_self : (a : Option Text) → same_scope dec codec self a a ≡ true
  same_scope_self none = refl
  same_scope_self (some a) = ground arith

  payload_matches :
      (now offset commit : ℕ) (tool filter_hash : Text) (scope_id : Option Text)
      → matches dec codec self tool scope_id filter_hash
          (payload_of dec codec self now tool scope_id filter_hash offset commit)
        ≡ true
  unfolding matches
  payload_matches now offset commit tool filter_hash scope_id = ground (
    arith,
    same_self codec.cursor_version,
    same_self self.workspace_id,
    same_self tool,
    same_scope_self scope_id,
    same_self filter_hash,
  )

  -- The checks let an encoded cursor through to its numbers.
  decode-numbers :
      (now later offset commit current : ℕ) (tool filter_hash : Text) (scope_id : Option Text)
      → RoundTrips (payload_of dec codec self now tool scope_id filter_hash offset commit)
      → offset ≤ u64_max
      → commit ≤ u64_max
      → decode dec codec self later
          (encode dec codec self now tool scope_id filter_hash offset commit)
          tool
          scope_id
          filter_hash
          current
        ≡ decode_numbers dec codec self later current
            (some (saturating_add u64_max now self.ttl_seconds))
            (some commit)
            (some offset)
  unfolding decode encode decode_signed decode_payload
  decode-numbers now later offset commit current tool filter_hash scope_id r ho hc =
      let p = payload_of dec codec self now tool scope_id filter_hash offset commit in
      let ends : saturating_add u64_max now self.ttl_seconds ≤ u64_max = ground arith in
      rw
        (
          r.signed,
          same_self (codec.sign (codec.encode_payload p)),
          r.payload,
          payload_matches now offset commit tool filter_hash scope_id,
          r.number (saturating_add u64_max now self.ttl_seconds) ends,
          r.number commit hc,
          r.number offset ho,
        )
        refl

  -- If the codecs give back this payload and the numbers of the u64 range, a cursor that was encoded
  -- is decoded at any time of its life, for the same tool, scope, filter and snapshot; after its
  -- life, or at another snapshot, it is expired.
  pub decode-encode :
      (now later offset commit current : ℕ) (tool filter_hash : Text) (scope_id : Option Text)
      → RoundTrips (payload_of dec codec self now tool scope_id filter_hash offset commit)
      → offset ≤ u64_max
      → commit ≤ u64_max
      → let cursor = encode dec codec self now tool scope_id filter_hash offset commit in
        (later ≤ saturating_add u64_max now self.ttl_seconds
          → decode dec codec self later cursor tool scope_id filter_hash commit
            ≡ position (record { offset = offset; commit_sequence = commit }))
        × (saturating_add u64_max now self.ttl_seconds < later
            → decode dec codec self later cursor tool scope_id filter_hash commit ≡ expired)
        × (commit ≢ current
            → decode dec codec self later cursor tool scope_id filter_hash current ≡ expired)
  decode-encode now later offset commit current tool filter_hash scope_id r ho hc =
      let cursor = encode dec codec self now tool scope_id filter_hash offset commit in
      let numbers =
        λ (at : ℕ). decode-numbers now later offset commit at tool filter_hash scope_id r ho hc in
      (
        λ h. numbers commit ∙ (unfold decode_numbers in ground arith),
        λ h. numbers commit ∙ (unfold decode_numbers in ground arith),
        λ h. numbers current ∙ (unfold decode_numbers in ground arith),
      )
