-- ===== src/Common/Types.antt =====
-- crates/helium-sync-common/src/lib.rs: the wire types of the protocol.
-- A UUID and an `OffsetDateTime` are values of third-party crates: the program compares UUIDs and
-- turns both into text and back, so each is a number here and the texts come from a codec.
use helium_sync.Common.Protocol.{ProtocolVersion, ProtocolRange}
use helium_sync.Prelude.{ℕ, Bool, String, List, Option}

-- `ObjectId` and `DeviceId`, newtypes of `Uuid`
pub record ObjectId : Type 0 where
  pub uuid : ℕ

pub record DeviceId : Type 0 where
  pub uuid : ℕ

pub record Timestamp : Type 0 where
  pub instant : ℕ

-- bytes, each a number below 256
pub record Base64UrlBytes : Type 0 where
  pub bytes : List ℕ

pub record EncryptedEnvelopeV1 : Type 0 where
  pub version : ℕ
  pub algorithm : String
  pub key_version : ℕ
  pub nonce : Base64UrlBytes
  pub ciphertext : Base64UrlBytes

pub record SyncObject : Type 0 where
  pub id : ObjectId
  pub namespace : String
  pub revision : ℕ
  pub cursor : ℕ
  pub device_id : DeviceId
  pub modified_at : Timestamp
  pub deleted : Bool
  pub envelope : Option EncryptedEnvelopeV1

pub record PutObjectRequest : Type 0 where
  pub namespace : String
  pub base_revision : Option ℕ
  pub device_id : DeviceId
  pub modified_at : Timestamp
  pub envelope : EncryptedEnvelopeV1

pub record DeleteObjectRequest : Type 0 where
  pub base_revision : ℕ
  pub device_id : DeviceId
  pub modified_at : Timestamp

pub data BatchOperation : Type 0 where
  put : ObjectId → PutObjectRequest → BatchOperation
  delete : ObjectId → DeleteObjectRequest → BatchOperation

pub record BatchRequest : Type 0 where
  pub operations : List BatchOperation

pub record BatchResponse : Type 0 where
  pub objects : List SyncObject

pub record Change : Type 0 where
  pub cursor : ℕ
  pub object_id : ObjectId
  pub namespace : String
  pub revision : ℕ
  pub device_id : DeviceId
  pub modified_at : Timestamp
  pub deleted : Bool

pub record ChangesResponse : Type 0 where
  pub changes : List Change
  pub next_cursor : ℕ
  pub has_more : Bool

pub record Device : Type 0 where
  pub id : DeviceId
  pub name : String
  pub created_at : Timestamp
  pub revoked_at : Option Timestamp

pub record RegisterDeviceRequest : Type 0 where
  pub id : DeviceId
  pub name : String

pub record VersionResponse : Type 0 where
  pub server_version : String
  pub protocol : ProtocolRange
  pub capabilities : List String

pub record StatusResponse : Type 0 where
  pub status : String
  pub database : String
  pub server_time : Timestamp
  pub protocol : ProtocolVersion
