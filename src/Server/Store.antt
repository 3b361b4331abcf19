-- ===== src/Server/Store.antt =====
-- What the object store of api.rs promises: a map from keys to versioned entries, on which a write
-- needs the current revision and gives the next one. It knows no rows, cursors or statements.
pub mod View
pub mod Refines
use helium_sync.Prelude.{
  ℕ, suc, ◌≡◌, Option, none, some, String, str_eq, if◌then◌else◌, List, [], ◌∷◌, ◌++◌,
}

-- `content` is the stored envelope; a tombstone has none
pub record Entry : Type 0 where
  pub revision : ℕ
  pub namespace : String
  pub content : Option String

abbrev pub Store : Type 0
Store = String → Option Entry

abbrev pub empty : Store
empty key = none

abbrev pub current : Option Entry → Option ℕ
current none = none
current (some e) = some e.revision

abbrev pub after : Option ℕ → ℕ
after none = 1
after (some revision) = suc revision

abbrev pub update : Store → String → Entry → Store
update s key e at = if str_eq key at then some e else s at

-- what a write was asked for; a delete has no content, and names no namespace
pub record Label : Type 0 where
  pub key : String
  pub namespace : Option String
  pub base : Option ℕ
  pub content : Option String

-- one write under its label
pub data Write (s u : Store) : Label → Type 0 where
  put :
      (key namespace content : String) (base : Option ℕ)
      → base ≡ current (s key)
      → u
        ≡ update s key
            (record { revision = after base; namespace = namespace; content = some content })
      → Write s u
          (record { key = key; namespace = some namespace; base = base; content = some content })
  delete :
      (key : String) (old : Entry) (base : ℕ)
      → s key ≡ some old
      → base ≡ old.revision
      → u ≡ update s key (record { revision = suc base; namespace = old.namespace; content = none })
      → Write s u (record { key = key; namespace = none; base = some base; content = none })

-- writes one after the other, with their labels from the first to the last
pub data Writes : Store → List Label → Store → Type 0 where
  here : {s : Store} → Writes s [] s
  next :
      {labels : List Label} {s u w : Store} {label : Label}
      → Write s u label
      → Writes u labels w
      → Writes s (label ∷ labels) w

pub Writes-append :
    {s u w : Store} (labels others : List Label)
    → Writes s labels u
    → Writes u others w
    → Writes s (labels ++ others) w
Writes-append _ others Writes.here second = second
Writes-append (label ∷ labels) others (Writes.next write rest) second =
    Writes.next write (Writes-append labels others rest second)
