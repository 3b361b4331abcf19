-- ===== src/Common/Codec.antt =====
-- The crates that turn values into text and back: `uuid`, `time` (RFC 3339) and `serde_json`.
-- They are parameters of the model; a law states what the program relies on.
use helium_sync.Prelude.{ℕ, ◌≡◌, String, Option, some}
use helium_sync.Common.Types.{EncryptedEnvelopeV1}

pub record Codec : Type 0 where
  -- `Uuid::to_string`, `Uuid::parse_str`
  pub uuid_text : ℕ → String
  pub parse_uuid_text : String → Option ℕ
  -- `OffsetDateTime::format` and `OffsetDateTime::parse` with `Rfc3339`
  pub format_time : ℕ → Option String
  pub parse_time : String → Option ℕ
  -- `serde_json::to_string` and `serde_json::from_str` at `EncryptedEnvelopeV1`
  pub envelope_text : EncryptedEnvelopeV1 → Option String
  pub parse_envelope : String → Option EncryptedEnvelopeV1

-- Documented behaviour of those crates: what one of them wrote it reads back.
pub record ReadsBack (c : Codec) : Type 0 where
  pub uuid : (u : ℕ) → c.parse_uuid_text (c.uuid_text u) ≡ some u
  pub time : (t : ℕ) (s : String) → c.format_time t ≡ some s → c.parse_time s ≡ some t
  pub envelope :
      (e : EncryptedEnvelopeV1) (s : String)
      → c.envelope_text e ≡ some s
      → c.parse_envelope s ≡ some e
