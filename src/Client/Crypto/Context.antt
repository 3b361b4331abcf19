-- ===== src/Client/Crypto/Context.antt =====
-- What the associated data of an envelope tells (crypto.rs: `associated_data`).
use helium_sync.Prelude.{
  ℕ, ◌^◌, ◌<◌, ◌≡◌, refl, sym, ap, ◌∙◌, String, List, [], ◌∷◌, ◌++◌, arith, length, ok,
}
use helium_sync.Client.Crypto.{Primitives, ObjectMetadata, associated_data}
use helium_sync.Client.Crypto.Bytes.{
  be_bytes, append_field, framed, append-cancel, append_assoc, length-be_bytes, be_bytes-injective,
  framed-cancel,
}

-- Documented behaviour of the crates: different texts, UUIDs and times are written differently.
pub record TellsApart (p : Primitives) : Type 0 where
  pub utf8 : (s t : String) → p.utf8 s ≡ p.utf8 t → s ≡ t
  pub uuid : (m n : ℕ) → p.uuid_bytes m ≡ p.uuid_bytes n → m ≡ n
  pub time : (m n : ℕ) (s : String) → p.rfc3339 m ≡ ok s → p.rfc3339 n ≡ ok s → m ≡ n

-- the numbers of a record fit their types, `u16` and `u64`
abbrev pub InRange : ObjectMetadata → Type 0
InRange m = (m.protocol < 2 ^ 16) × (m.revision < 2 ^ 64)

metadata-eq :
    (m m' : ObjectMetadata)
    → m.protocol ≡ m'.protocol
    → m.object_id.uuid ≡ m'.object_id.uuid
    → m.namespace ≡ m'.namespace
    → m.device_id.uuid ≡ m'.device_id.uuid
    → m.revision ≡ m'.revision
    → m.modified_at.instant ≡ m'.modified_at.instant
    → m ≡ m'
metadata-eq m m' p0 p1 p2 p3 p4 p5 = ground arith

last_byte : (x y : ℕ) → x ∷ [] ≡ y ∷ [] → x ≡ y
last_byte x y h = ground arith

abbrev IsShort : List ℕ → Type 0
IsShort field = length field < 2 ^ 32

module _ (p : Primitives) where
  reassociate :
      (a b c d e f g h : List ℕ)
      → ((((((a ++ b) ++ c) ++ d) ++ e) ++ f) ++ g) ++ h
        ≡ a ++ (b ++ (c ++ (d ++ (e ++ (f ++ (g ++ h))))))
  reassociate a b c d e f g h = simp append_assoc

  record Fields (m : ObjectMetadata) (version : ℕ) (aad : List ℕ) : Type 0 where
    timestamp : String
    time_ok : p.rfc3339 m.modified_at.instant ≡ ok timestamp
    object_short : IsShort (p.uuid_bytes m.object_id.uuid)
    namespace_short : IsShort (p.utf8 m.namespace)
    device_short : IsShort (p.uuid_bytes m.device_id.uuid)
    time_short : IsShort (p.utf8 timestamp)
    bytes :
        aad
        ≡ ((((((p.utf8 "helium-sync/aad/v1" ++ be_bytes 2 m.protocol)
                    ++ framed (p.uuid_bytes m.object_id.uuid))
                  ++ framed (p.utf8 m.namespace))
                ++ framed (p.uuid_bytes m.device_id.uuid))
              ++ be_bytes 8 m.revision)
            ++ framed (p.utf8 timestamp))
          ++ version ∷ []

  associated_data-Fields :
      (m : ObjectMetadata) (version : ℕ) (aad : List ℕ)
      → associated_data p m version ≡ ok aad
      → Fields m version aad
  unfolding associated_data append_field
  associated_data-Fields m version aad h = ground arith

  -- The associated data determines every field of the metadata and the envelope version, if the
  -- numbers fit their types and different texts, UUIDs and times are written differently.
  pub associated_data-injective :
      TellsApart p
      → (m m' : ObjectMetadata) (version version' : ℕ) (aad : List ℕ) → InRange m
      → InRange m'
      → associated_data p m version ≡ ok aad
      → associated_data p m' version' ≡ ok aad
      → (m ≡ m') × (version ≡ version')
  associated_data-injective laws m m' version version' aad small small' h h' =
      let f = associated_data-Fields m version aad h in
      let g = associated_data-Fields m' version' aad h' in
      let prefix = p.utf8 "helium-sync/aad/v1" in
      let s0 =
        sym (
          reassociate prefix (be_bytes 2 m.protocol) (framed (p.uuid_bytes m.object_id.uuid))
            (framed (p.utf8 m.namespace)) (framed (p.uuid_bytes m.device_id.uuid))
            (be_bytes 8 m.revision) (framed (p.utf8 f.timestamp)) (version ∷ []))
        ∙ sym f.bytes
        ∙ g.bytes
        ∙ reassociate prefix (be_bytes 2 m'.protocol) (framed (p.uuid_bytes m'.object_id.uuid))
            (framed (p.utf8 m'.namespace)) (framed (p.uuid_bytes m'.device_id.uuid))
            (be_bytes 8 m'.revision) (framed (p.utf8 g.timestamp)) (version' ∷ []) in
      let (e0, s1) = append-cancel prefix prefix _ _ refl s0 in
      let (protocols, s2) =
        append-cancel (be_bytes 2 m.protocol) (be_bytes 2 m'.protocol) _ _
          (length-be_bytes 2 m.protocol ∙ sym (length-be_bytes 2 m'.protocol)) s1 in
      let (objects, s3) = framed-cancel _ _ _ _ f.object_short g.object_short s2 in
      let (namespaces, s4) = framed-cancel _ _ _ _ f.namespace_short g.namespace_short s3 in
      let (devices, s5) = framed-cancel _ _ _ _ f.device_short g.device_short s4 in
      let (revisions, s6) =
        append-cancel (be_bytes 8 m.revision) (be_bytes 8 m'.revision) _ _
          (length-be_bytes 8 m.revision ∙ sym (length-be_bytes 8 m'.revision)) s5 in
      let (times, s7) = framed-cancel _ _ _ _ f.time_short g.time_short s6 in
      let d0 : m.protocol ≡ m'.protocol = be_bytes-injective 2 _ _ small.0 small'.0 protocols in
      let d1 : m.object_id.uuid ≡ m'.object_id.uuid = laws.uuid _ _ objects in
      let d2 : m.namespace ≡ m'.namespace = laws.utf8 _ _ namespaces in
      let d3 : m.device_id.uuid ≡ m'.device_id.uuid = laws.uuid _ _ devices in
      let d4 : m.revision ≡ m'.revision = be_bytes-injective 8 _ _ small.1 small'.1 revisions in
      let stamps : f.timestamp ≡ g.timestamp = laws.utf8 _ _ times in
      let d5 : m.modified_at.instant ≡ m'.modified_at.instant =
        laws.time _ _ g.timestamp (f.time_ok ∙ ap ok stamps) g.time_ok in
      (metadata-eq m m' d0 d1 d2 d3 d4 d5, last_byte version version' s7)
