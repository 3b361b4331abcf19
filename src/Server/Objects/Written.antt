-- ===== src/Server/Objects/Written.antt =====
-- The tables after a successful write: one row of `objects` and one change that repeats it.
use helium_sync.Prelude.{ℕ, ◌+◌, String, [], ◌∷◌, ◌++◌}
use helium_sync.Prelude.Table.{insert}
use helium_sync.Server.Tables.{ObjectRow, ChangeRow, Tables}

-- the change that tells of `row`
abbrev pub change_of : ℕ → String → ObjectRow → ChangeRow
change_of cursor key row = record {
  cursor = cursor;
  columns = record {
    object_id = key;
    namespace = row.namespace;
    revision = row.revision;
    device_id = row.device_id;
    modified_at = row.modified_at;
    deleted = row.deleted;
  };
}

abbrev pub written : Tables → String → ObjectRow → Tables
written t key row = record {
  devices = t.devices;
  objects = insert key row t.objects;
  changes = t.changes ++ change_of (t.sequence + 1) key row ∷ [];
  sequence = t.sequence + 1;
}
