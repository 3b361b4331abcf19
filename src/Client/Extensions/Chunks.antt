-- ===== src/Client/Extensions/Chunks.antt =====
-- orchestration.rs: the chunks of an archive (`archive.chunks(EXTENSION_CHUNK_BYTES)`).
use helium_sync.Prelude.{
  ℕ, zero, suc, ◌+◌, ◌≤◌, ◌≡◌, refl, ap, List, [], ◌∷◌, ◌++◌, arith, length, take, drop, All,
  take-append-drop, length-take, length-append,
}
use helium_sync.Client.Extensions.{chunks_fuel, chunks}

abbrev pub concat : List (List ℕ) → List ℕ
concat [] = []
concat (c ∷ cs) = c ++ concat cs

abbrev pub IsPiece : ℕ → List ℕ → Type 0
IsPiece size c = (1 ≤ length c) × (length c ≤ size)

length-drop : (n : ℕ) (xs : List ℕ) → length (take n xs) + length (drop n xs) ≡ length xs
length-drop n xs =
    let whole = ap length (take-append-drop n xs) in
    let sum = length-append (take n xs) (drop n xs) in omega arith

module _ (size : ℕ) (positive : 1 ≤ size) where
  concat-chunks_fuel :
      (fuel : ℕ) (xs : List ℕ) → length xs ≤ fuel → concat (chunks_fuel fuel size xs) ≡ xs
  unfolding chunks_fuel
  concat-chunks_fuel zero [] h = refl
  concat-chunks_fuel zero (x ∷ xs) h = absurd (omega arith)
  concat-chunks_fuel (suc fuel) [] h = refl
  concat-chunks_fuel (suc fuel) (x ∷ xs) h =
      let whole = length-drop size (x ∷ xs) in
      let first = length-take size (x ∷ xs) in
      let rest = concat-chunks_fuel fuel (drop size (x ∷ xs)) (omega arith) in
      rw rest (take-append-drop size (x ∷ xs))

  chunks_fuel-IsPiece : (fuel : ℕ) (xs : List ℕ) → All (IsPiece size) (chunks_fuel fuel size xs)
  unfolding chunks_fuel
  chunks_fuel-IsPiece zero xs = tt
  chunks_fuel-IsPiece (suc fuel) [] = tt
  chunks_fuel-IsPiece (suc fuel) (x ∷ xs) =
      let first = length-take size (x ∷ xs) in
      ((omega arith, omega arith), chunks_fuel-IsPiece fuel (drop size (x ∷ xs)))

  -- The chunks, in order, are the archive, and the fuel is enough.
  pub concat-chunks : (archive : List ℕ) → concat (chunks size archive) ≡ archive
  unfolding chunks
  concat-chunks archive = concat-chunks_fuel (length archive) archive (omega arith)

  pub chunks-IsPiece : (archive : List ℕ) → All (IsPiece size) (chunks size archive)
  unfolding chunks
  chunks-IsPiece archive = chunks_fuel-IsPiece (length archive) archive
