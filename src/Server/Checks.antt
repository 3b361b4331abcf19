-- ===== src/Server/Checks.antt =====
-- api.rs: validation, number ranges, and the decoding of rows.
use Prim.Native.String.{len}
use helium_sync.Prelude.{
  ℕ, ◌+◌, ◌*◌, ℤ, pos, negsuc, not, ◌||◌, ltb, leb, ◌==◌, str_eq, if◌then◌else◌, String, Result, ok,
  err, ◌>>=◌, ◌>>◌, guard, ok_or, transpose, length, i64_max, u64_max,
}
use helium_sync.Common.Types.{Timestamp, EncryptedEnvelopeV1, SyncObject, PutObjectRequest, Change}
use helium_sync.Common.Codec.{Codec}
use helium_sync.Server.Errors.{ApiError, api_error, serialization_error}
use helium_sync.Server.Tables.{ObjectRow, ChangeRow}

abbrev pub max_payload_bytes : ℕ
max_payload_bytes = 4 * 1024 * 1024

unfoldable pub validate_put : PutObjectRequest → Result ApiError (Unit {0})
validate_put request = do
  guard (not (str_eq request.namespace "" || ltb 128 (len request.namespace)))
      (api_error 422 "invalid_namespace")
  guard
      (not (
        not (request.envelope.version == 1)
        || not (str_eq request.envelope.algorithm "XCHACHA20-POLY1305")
        || not (length request.envelope.nonce.bytes == 24)))
      (api_error 422 "invalid_envelope")
  guard (not (ltb max_payload_bytes (length request.envelope.ciphertext.bytes)))
      (api_error 413 "payload_too_large")

abbrev pub numeric_range : ApiError
numeric_range = api_error 422 "numeric_range"

unfoldable pub i64_from_u64 : ℕ → Result ApiError ℤ
i64_from_u64 value = if leb value i64_max then ok (pos value) else err numeric_range

unfoldable pub u64_from_i64 : ℤ → Result ApiError ℕ
u64_from_i64 (pos n) = ok n
u64_from_i64 (negsuc n) = err serialization_error

-- `revision.checked_add(1)`, with its error
unfoldable pub checked_next : ℕ → Result ApiError ℕ
checked_next revision =
    if ltb revision u64_max then ok (revision + 1) else err (api_error 409 "revision_exhausted")

module _ (c : Codec) where
  unfoldable pub timestamp_string : Timestamp → Result ApiError String
  timestamp_string t = ok_or (c.format_time t.instant) serialization_error

  unfoldable pub parse_timestamp : String → Result ApiError Timestamp
  parse_timestamp s = do t ← ok_or (c.parse_time s) serialization_error; ok (record { instant = t })

  unfoldable pub parse_uuid : String → Result ApiError ℕ
  parse_uuid s = ok_or (c.parse_uuid_text s) serialization_error

  abbrev pub read_envelope : String → Result ApiError EncryptedEnvelopeV1
  read_envelope s = ok_or (c.parse_envelope s) serialization_error

  unfoldable pub row_to_object : String → ObjectRow → Result ApiError SyncObject
  unfolding parse_uuid parse_timestamp u64_from_i64
  row_to_object key row = do
    id ← parse_uuid key
    revision ← u64_from_i64 row.revision
    cursor ← u64_from_i64 row.cursor
    device_id ← parse_uuid row.device_id
    modified_at ← parse_timestamp row.modified_at
    envelope ← transpose read_envelope row.envelope_json
    ok (record {
      id = record { uuid = id };
      namespace = row.namespace;
      revision = revision;
      cursor = cursor;
      device_id = record { uuid = device_id };
      modified_at = modified_at;
      deleted = not (row.deleted == 0);
      envelope = envelope;
    })

  unfoldable pub row_to_change : ChangeRow → Result ApiError Change
  unfolding parse_uuid parse_timestamp u64_from_i64
  row_to_change row = do
    cursor ← u64_from_i64 (pos row.cursor)
    object_id ← parse_uuid row.object_id
    revision ← u64_from_i64 row.revision
    device_id ← parse_uuid row.device_id
    modified_at ← parse_timestamp row.modified_at
    ok (record {
      cursor = cursor;
      object_id = record { uuid = object_id };
      namespace = row.namespace;
      revision = revision;
      device_id = record { uuid = device_id };
      modified_at = modified_at;
      deleted = not (row.deleted == 0);
    })
