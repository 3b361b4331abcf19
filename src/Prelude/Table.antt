-- ===== src/Prelude/Table.antt =====
-- A table with a text primary key: an association list, newest row of a key written in place.
use Prim.Native.String.{String}
use mathlib.Core.Path.{◌≡◌, refl}
use mathlib.Core.Option.{Option, none, some}
use mathlib.Core.List.{List, [], ◌∷◌}
use native.Mathlib.Omega.{arith}
use text.Mathlib.Text.{◌==◌ as str_eq}
use text.Mathlib.TextEquality.{eq_iff}
use text.Mathlib.TextPositions.{eq_refl}
use helium_sync.Prelude.Tests.{if◌then◌else◌}

abbrev pub Table {ℓ} : Type ℓ → Type ℓ
Table V = List (String × V)

module _ {ℓ} {V : Type ℓ} where
  -- `SELECT … WHERE id = ?`
  unfoldable pub lookup : String → Table V → Option V
  lookup id [] = none
  lookup id ((key, row) ∷ rest) =
      let later = lookup id rest in if str_eq key id then some row else later

  -- `INSERT … ON CONFLICT(id) DO UPDATE`, and `UPDATE … WHERE id = ?` of a row that is there
  unfoldable pub insert : String → V → Table V → Table V
  insert id new [] = (id, new) ∷ []
  insert id new ((key, row) ∷ rest) =
      let later = insert id new rest in
      if str_eq key id then (id, new) ∷ rest else (key, row) ∷ later

  -- A read after a write sees the written row under its key, and what was there under others.
  pub lookup-insert :
      (id at : String) (new : V) (rows : Table V)
      → lookup at (insert id new rows) ≡ (if str_eq id at then some new else lookup at rows)
  unfolding lookup insert
  lookup-insert id at new [] = refl
  lookup-insert id at new ((key, row) ∷ rest) =
      let ih = lookup-insert id at new rest in
      ground (arith, ih, eq_iff key id, eq_iff key at, eq_iff id at)

  pub lookup-insert_self :
      (id : String) (new : V) (rows : Table V) → lookup id (insert id new rows) ≡ some new
  lookup-insert_self id new rows = rw (lookup-insert, eq_refl)
