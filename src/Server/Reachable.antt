-- ===== src/Server/Reachable.antt =====
-- All that the server can come to (api.rs: `router` and the handlers behind it) by requests in any
-- order, failing or not, from the empty database.
use helium_sync.Prelude.{List}
use helium_sync.Server.Tables.{Tables, no_rows}
use helium_sync.Server.History.{IsConsistent, no_rows-IsConsistent}
use helium_sync.Server.History.Steps.{apply_operation-IsConsistent}
use helium_sync.Server.Invariant.{SameObjects, run-rule}
use helium_sync.Server.Router.{Env, Request, run}

SameObjects-IsConsistent : (t u : Tables) → SameObjects t u → IsConsistent t → IsConsistent u
SameObjects-IsConsistent t u s v = record {
  ascending = rw (s.1, s.2) v.ascending;
  in_range = rw s.2 v.in_range;
  counted = λ key. rw (s.0, s.1) (v.counted key);
  agrees = λ key. rw (s.0, s.1) (v.agrees key);
}

-- Whatever requests reach the server, in whatever order, with whatever statements refused by the
-- database, the tables that the empty database comes to are consistent: cursors rise along the
-- change feed and stay at most i64::MAX, the revisions of each object in the feed are 1, 2, 3, …
-- up to the revision of its row, and each row says what its latest change says.
pub run-no_rows-IsConsistent :
    (requests : List (Env × Request)) → IsConsistent (run requests no_rows)
run-no_rows-IsConsistent requests =
    run-rule IsConsistent SameObjects-IsConsistent apply_operation-IsConsistent requests no_rows
      no_rows-IsConsistent
