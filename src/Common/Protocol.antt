-- ===== src/Common/Protocol.antt =====
-- crates/helium-sync-common/src/lib.rs: protocol versions and their negotiation.
use helium_sync.Prelude.{
  ℕ, ◌≤◌, ◌≡◌, inl, inr, String, Option, none, some, arith, leb, min, max, if◌then◌else◌,
  Bool-cases,
}

-- a `u16`
abbrev pub ProtocolVersion : Type 0
ProtocolVersion = ℕ

abbrev pub protocol_min : ProtocolVersion
protocol_min = 1

abbrev pub protocol_max : ProtocolVersion
protocol_max = 1

abbrev pub protocol_header : String
protocol_header = "x-helium-sync-protocol"

pub record ProtocolRange : Type 0 where
  pub min_version : ProtocolVersion
  pub max_version : ProtocolVersion

abbrev pub default_range : ProtocolRange
default_range = record { min_version = protocol_min; max_version = protocol_max }

unfoldable pub negotiate : ProtocolRange → ProtocolRange → Option ProtocolVersion
negotiate self peer =
    let lowest_max = min self.max_version peer.max_version in
    if leb (max self.min_version peer.min_version) lowest_max then some lowest_max else none

abbrev pub Supports : ProtocolRange → ProtocolVersion → Type 0
Supports r v = (r.min_version ≤ v) × (v ≤ r.max_version)

-- What a negotiation promises: a version that both sides support and no other such version
-- exceeds, or, with no answer, that no version is supported by both.
abbrev pub IsHighestShared : ProtocolRange → ProtocolRange → Option ProtocolVersion → Type 0
IsHighestShared a b (some v) =
    Supports a v × Supports b v × ((w : ProtocolVersion) → Supports a w → Supports b w → w ≤ v)
IsHighestShared a b none = (w : ProtocolVersion) → Supports a w → ¬ Supports b w

-- Negotiation answers the highest protocol version that both ranges contain, and answers nothing
-- only when the ranges share no version.
pub negotiate-IsHighestShared : (a b : ProtocolRange) → IsHighestShared a b (negotiate a b)
unfolding negotiate
negotiate-IsHighestShared a b =
    elim (Bool-cases (leb (max a.min_version b.min_version) (min a.max_version b.max_version))) [
      | inl e ↦ rw e (ground arith, ground arith, λ w p q. omega arith)
      | inr e ↦ rw e (λ w p q. ground arith)
    ]

-- Both sides of a connection select the same version: negotiation does not depend on who asks.
pub negotiate_comm : (a b : ProtocolRange) → negotiate a b ≡ negotiate b a
unfolding negotiate
negotiate_comm a b = ground arith
