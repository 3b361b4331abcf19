-- ===== src/Tests/Common.antt =====
-- Protocol negotiation at concrete ranges.
use helium_sync.Prelude.{ℕ, ◌≡◌, refl, some, none}
use helium_sync.Common.Protocol.{
  ProtocolRange, IsHighestShared, negotiate, negotiate-IsHighestShared, negotiate_comm,
}

abbrev range : ℕ → ℕ → ProtocolRange
range low high = record { min_version = low; max_version = high }

overlap : negotiate (range 1 4) (range 3 9) ≡ some 4
unfolding negotiate
overlap = refl

apart : negotiate (range 1 2) (range 3 9) ≡ none
unfolding negotiate
apart = refl

negotiate-IsHighestShared_example :
    IsHighestShared (range 1 4) (range 3 9) (negotiate (range 1 4) (range 3 9))
negotiate-IsHighestShared_example = negotiate-IsHighestShared (range 1 4) (range 3 9)

negotiate_comm_example : negotiate (range 1 4) (range 3 9) ≡ negotiate (range 3 9) (range 1 4)
negotiate_comm_example = negotiate_comm (range 1 4) (range 3 9)
