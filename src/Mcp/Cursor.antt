-- ===== src/Mcp/Cursor.antt =====
-- `CursorCodec` of crates/perseval-mcp/src/cursor.rs. The base64 and JSON codecs, the hash and the
-- printing of numbers are code of other packages: the record `Codec` takes them as they are used.
pub mod Bound
use perseval.Base.{
  ℕ, Option, none, some, Bool, true, false, ltb, ◌==◌, ◌&&◌, ◌||◌, not, if◌then◌else◌, ite,
  saturating_add, u64_max,
}

pub record CursorPosition : Type 0 where
  pub offset : ℕ
  pub commit_sequence : ℕ

pub data CursorResult : Type 0 where
  position : CursorPosition → CursorResult
  invalid expired : CursorResult

pub record CursorPayload (Text : Type 0) : Type 0 where
  pub version : Text
  pub workspace_id : Text
  pub tool : Text
  pub scope_id : Option Text
  pub filter_hash : Text
  pub offset : Text
  pub commit_sequence : Text
  pub expires_at_unix_seconds : Text

pub record SignedCursor (Text : Type 0) : Type 0 where
  pub payload : Text
  pub signature : Text

-- What the codec takes from elsewhere. `sign` is the keyed hash of this codec's key.
pub record Codec (Text : Type 0) : Type 0 where
  pub cursor_version : Text
  pub sign : Text → Text
  pub print : ℕ → Text
  pub parse : Text → Option ℕ
  pub encode_payload : CursorPayload Text → Text
  pub decode_payload : Text → Option (CursorPayload Text)
  pub encode_signed : SignedCursor Text → Text
  pub decode_signed : Text → Option (SignedCursor Text)

-- The codec of a workspace.
pub record CursorCodec (Text : Type 0) : Type 0 where
  pub workspace_id : Text
  pub ttl_seconds : ℕ

module _ {Text : Type 0} (dec : Discrete Text) (codec : Codec Text) (self : CursorCodec Text) where
  abbrev pub payload_of : ℕ → Text → Option Text → Text → ℕ → ℕ → CursorPayload Text
  payload_of now tool scope_id filter_hash offset commit_sequence = record {
    version = codec.cursor_version;
    workspace_id = self.workspace_id;
    tool = tool;
    scope_id = scope_id;
    filter_hash = filter_hash;
    offset = codec.print offset;
    commit_sequence = codec.print commit_sequence;
    expires_at_unix_seconds = codec.print (saturating_add u64_max now self.ttl_seconds);
  }

  unfoldable pub encode : ℕ → Text → Option Text → Text → ℕ → ℕ → Text
  encode now tool scope_id filter_hash offset commit_sequence =
      let payload =
        codec.encode_payload (payload_of now tool scope_id filter_hash offset commit_sequence) in
      codec.encode_signed (record { payload = payload; signature = codec.sign payload })

  abbrev pub same : Text → Text → Bool
  same a b = ite (dec a b) true false

  abbrev pub same_scope : Option Text → Option Text → Bool
  same_scope none none = true
  same_scope (some a) (some b) = same a b
  same_scope none (some b) = false
  same_scope (some a) none = false

  -- Whether the payload is of this version, workspace, tool, scope and filter.
  unfoldable pub matches : Text → Option Text → Text → CursorPayload Text → Bool
  matches tool scope_id filter_hash payload =
      same payload.version codec.cursor_version
      && (same payload.workspace_id self.workspace_id
          && (same payload.tool tool
              && (same_scope payload.scope_id scope_id && same payload.filter_hash filter_hash)))

  -- From the two numbers on.
  unfoldable pub decode_numbers : ℕ → ℕ → Option ℕ → Option ℕ → Option ℕ → CursorResult
  decode_numbers now current none commit offset = invalid
  decode_numbers now current (some expires_at) none offset = invalid
  decode_numbers now current (some expires_at) (some commit) none =
      if ltb expires_at now || not (commit == current) then expired else invalid
  decode_numbers now current (some expires_at) (some commit) (some offset) =
      if ltb expires_at now || not (commit == current)
      then expired
      else position (record { offset = offset; commit_sequence = commit })

  unfoldable pub decode_payload :
      ℕ → Text → Option Text → Text → ℕ → Option (CursorPayload Text) → CursorResult
  unfolding matches decode_numbers
  decode_payload now tool scope_id filter_hash current none = invalid
  decode_payload now tool scope_id filter_hash current (some payload) =
      if matches tool scope_id filter_hash payload
      then decode_numbers now current (codec.parse payload.expires_at_unix_seconds)
          (codec.parse payload.commit_sequence) (codec.parse payload.offset)
      else invalid

  unfoldable pub decode_signed :
      ℕ → Text → Option Text → Text → ℕ → Option (SignedCursor Text) → CursorResult
  unfolding decode_payload
  decode_signed now tool scope_id filter_hash current none = invalid
  decode_signed now tool scope_id filter_hash current (some signed) =
      if same signed.signature (codec.sign signed.payload)
      then decode_payload now tool scope_id filter_hash current
          (codec.decode_payload signed.payload)
      else invalid

  unfoldable pub decode : ℕ → Text → Text → Option Text → Text → ℕ → CursorResult
  unfolding decode_signed
  decode now cursor tool scope_id filter_hash current_commit_sequence =
      decode_signed now tool scope_id filter_hash current_commit_sequence
        (codec.decode_signed cursor)
