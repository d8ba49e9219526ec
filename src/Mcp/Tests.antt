-- ===== src/Mcp/Tests.antt =====
-- A cursor whose texts are numbers, for one payload.
use perseval.Base.{ℕ, some, refl, arith, ◌≡◌, ◌≤◌, ◌<◌, ◌≢◌, ℕ_discrete, saturating_add, u64_max}
use perseval.Mcp.Cursor.{
  Codec, CursorCodec, CursorPayload, position, expired, encode, decode, payload_of,
}
use perseval.Mcp.Cursor.Bound.{RoundTrips, decode-encode}

abbrev workspace : CursorCodec ℕ
workspace = record { workspace_id = 1; ttl_seconds = 900 }

-- The payload of `cursor_binds_tool_scope_filter_and_snapshot`.
abbrev runs_payload : CursorPayload ℕ
runs_payload = record {
  version = 5;
  workspace_id = 1;
  tool = 2;
  scope_id = some 3;
  filter_hash = 4;
  offset = 50;
  commit_sequence = 8;
  expires_at_unix_seconds = 1900;
}

abbrev numbers : Codec ℕ
numbers = record {
  cursor_version = 5;
  sign = λ payload. payload;
  print = λ n. n;
  parse = λ n. some n;
  encode_payload = λ payload. payload.offset;
  decode_payload = λ text. some runs_payload;
  encode_signed = λ signed. signed.payload;
  decode_signed = λ text. some (record { payload = text; signature = text });
}

round_trips :
    RoundTrips ℕ_discrete numbers workspace
      (payload_of ℕ_discrete numbers workspace 1000 2 (some 3) 4 50 8)
round_trips = record { payload = refl; signed = refl; number = λ n h. refl }

decode-encode_example :
    let cursor = encode ℕ_discrete numbers workspace 1000 2 (some 3) 4 50 8 in
    (1500 ≤ saturating_add u64_max 1000 900
      → decode ℕ_discrete numbers workspace 1500 cursor 2 (some 3) 4 8
        ≡ position (record { offset = 50; commit_sequence = 8 }))
    × (saturating_add u64_max 1000 900 < 1500
        → decode ℕ_discrete numbers workspace 1500 cursor 2 (some 3) 4 8 ≡ expired)
    × (◌≢◌ {A = ℕ} 8 9 → decode ℕ_discrete numbers workspace 1500 cursor 2 (some 3) 4 9 ≡ expired)
decode-encode_example =
    decode-encode ℕ_discrete numbers workspace 1000 1500 50 8 9 2 4 (some 3) round_trips
      (omega arith) (omega arith)
