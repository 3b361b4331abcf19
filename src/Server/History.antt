-- ===== src/Server/History.antt =====
-- The invariant of the server's tables: the change feed is the history of the object table.
-- Cursors rise along the feed, an object's revisions in the feed are 1, 2, 3, …, and its row says
-- what its latest change says.
pub mod Order
pub mod Revisions
pub mod Latest
pub mod Steps
use helium_sync.Prelude.{
  ◌<◌, i64_max, ℕ, suc, ◌+◌, ◌≤◌, ◌≡◌, refl, sym, subst, ℤ, pos, negsuc, String, Option, none, some,
  List, [], ◌∷◌, ◌++◌, arith, str_eq, eq_iff, eq_refl, if◌then◌else◌, Bool-cases, inl, inr,
}
use helium_sync.Prelude.Table.{lookup, lookup-insert, lookup-insert_self}
use helium_sync.Server.Tables.{ObjectRow, ChangeRow, Tables, no_rows}
use helium_sync.Server.Objects.Written.{change_of, written}
use Order.{Ascending, Ascending-append}
use Revisions.{Counted, done, Counted-append_own, Counted-append_other}
use Latest.{latest, latest-append}

-- the revision of a row, and 0 where there is none
abbrev pub revision_of : Option ObjectRow → ℕ
revision_of none = 0
revision_of (some row) = elim row.revision [ pos n ↦ n | negsuc n ↦ 0 ]

-- the change that a row repeats
abbrev pub Agrees : String → Option ChangeRow → Option ObjectRow → Type 0
Agrees key none none = Unit
Agrees key none (some row) = ⊥
Agrees key (some change) none = ⊥
Agrees key (some change) (some row) =
    (change ≡ change_of change.cursor key row)
    × (row.cursor ≡ pos change.cursor)
    × (row.revision ≡ pos (revision_of (some row)))

pub record IsConsistent (t : Tables) : Type 0 where
  pub ascending : Ascending 0 t.changes t.sequence
  pub in_range : t.sequence ≤ i64_max
  pub counted : (key : String) → Counted key 0 t.changes (revision_of (lookup key t.objects))
  pub agrees : (key : String) → Agrees key (latest key t.changes) (lookup key t.objects)

pub no_rows-IsConsistent : IsConsistent no_rows
unfolding lookup latest
no_rows-IsConsistent = record {
  ascending = omega arith;
  in_range = omega arith;
  counted = λ key. done;
  agrees = λ key. tt;
}

module _ (t : Tables) (key : String) (row : ObjectRow) (v : IsConsistent t)
    (next : row.revision ≡ pos (suc (revision_of (lookup key t.objects))))
    (fresh : row.cursor ≡ pos (t.sequence + 1)) (room : t.sequence < i64_max) where
  revision_of_row : revision_of (some row) ≡ suc (revision_of (lookup key t.objects))
  revision_of_row = ground arith

  written-Counted_own :
      Counted key 0
        (written t key row).changes
        (revision_of (lookup key (written t key row).objects))
  written-Counted_own = rw lookup-insert_self (
      subst (Counted key 0 (written t key row).changes) (sym revision_of_row) (
        Counted-append_own (change_of (t.sequence + 1) key row) (eq_refl key) next (v.counted key)))

  written-Counted :
      (j : String)
      → Counted j 0 (written t key row).changes (revision_of (lookup j (written t key row).objects))
  written-Counted j = elim (Bool-cases (str_eq key j)) [
    | inl own_key ↦ rw (← (eq_iff key j).0 own_key) written-Counted_own
    | inr other_key ↦
        rw (lookup-insert, other_key)
          (Counted-append_other (change_of (t.sequence + 1) key row) other_key (v.counted j))
  ]

  written-Agrees_own :
      Agrees key (latest key (written t key row).changes) (lookup key (written t key row).objects)
  written-Agrees_own = rw (lookup-insert_self, latest-append, eq_refl) (refl, fresh, ground arith)

  written-Agrees :
      (j : String)
      → Agrees j (latest j (written t key row).changes) (lookup j (written t key row).objects)
  written-Agrees j = elim (Bool-cases (str_eq key j)) [
    | inl own_key ↦ rw (← (eq_iff key j).0 own_key) written-Agrees_own
    | inr other_key ↦ rw (lookup-insert, latest-append, other_key) (v.agrees j)
  ]

  -- A write at the next revision and the next cursor keeps the invariant.
  pub written-IsConsistent : IsConsistent (written t key row)
  written-IsConsistent = record {
    ascending =
        Ascending-append 0 t.changes t.sequence (change_of (t.sequence + 1) key row) v.ascending
          refl;
    in_range = omega arith;
    counted = written-Counted;
    agrees = written-Agrees;
  }
