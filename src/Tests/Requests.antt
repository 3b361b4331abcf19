-- ===== src/Tests/Requests.antt =====
-- Whole requests (router, feed) on a small world, and their theorems at concrete inputs.
use helium_sync.Prelude.{
  map, ℕ, ◌≡◌, ◌≢◌, refl, false, String, Option, none, some, List, [], ◌∷◌, ok, err, arith, take,
  ap, sym, ◌∙◌,
}
use helium_sync.Prelude.Table.{lookup, insert}
use helium_sync.Common.Types.{Change, BatchOperation, BatchRequest}
use helium_sync.Server.Errors.{api_error}
use helium_sync.Server.Tables.{
  Tables, no_rows, fetch_device, fetch_object, record_change, store_object,
}
use helium_sync.Server.Checks.{
  validate_put, i64_from_u64, u64_from_i64, checked_next, timestamp_string, row_to_change,
}
use helium_sync.Server.Objects
use helium_sync.Server.Objects.{
  active_device, next_revision, ensure_active_device, put_object_tx, transact, batch,
}
use helium_sync.Server.Devices.{collect, register_device, autocommit, add_device}
use helium_sync.Prelude.Trim.{trim, trim_start, trim_end, is_whitespace}
use helium_sync.Server.Feed.{rows_after, changes}
use helium_sync.Server.Feed.Pages.{changes-page}
use helium_sync.Server.Auth.{
  ct_eq, strip_prefix, presented_token, require_auth, parse_digits, parse_u16, require_protocol,
  requested_version,
}
use helium_sync.Server.Router.{Env, Request, Endpoint, serve, admit, handle, run}
use helium_sync.Server.Router.Gate.{serve-err, serve-admitted}
use helium_sync.Server.Reachable.{run-no_rows-IsConsistent}
use helium_sync.Server.Store.Refines.{accepted, run-no_rows-Writes}
use helium_sync.Server.Store.{empty, Writes}
use helium_sync.Server.Store.View.{view, named}
use helium_sync.Server.Objects.Batch.{Opens, one_by_one, all_or_nothing, batch-one_by_one}
use helium_sync.Server.History.{IsConsistent}
use helium_sync.Client.Discovery.{gather, note_all}
use helium_sync.Client.Discovery.Complete.{server_page, gather-server}
use helium_sync.Tests.Codec.{sample_codec, unary, parse_unary, sample_text, is_sample}
use helium_sync.Tests.Server.{up, alice, note_id, with_device, put_request, with_object}

abbrev pub world : Env
world = record {
  codec = sample_codec;
  sha256 = λ s. 1 ∷ 2 ∷ [];
  token_digest = 1 ∷ 2 ∷ [];
  server_version = "0.1.0";
  now = record { instant = 1 };
  fails = up;
  outage = λ n. up;
}

abbrev asking : Endpoint → Request
asking e = record { authorization = some "Bearer t"; protocol = some "1"; endpoint = e }

abbrev putting : Option ℕ → Request
putting base = asking (Endpoint.put_object note_id (put_request base))

stale_put : (serve world (putting (some 3)) with_device).0 ≡ err (api_error 409 "object_missing")
unfolding serve admit handle require_auth presented_token strip_prefix ct_eq require_protocol
    parse_u16 parse_digits Objects.put_object transact put_object_tx ensure_active_device
    fetch_device fetch_object record_change store_object timestamp_string i64_from_u64 u64_from_i64
    checked_next validate_put next_revision active_device lookup insert unary sample_text is_sample
stale_put = refl

serve-err_example : (serve world (putting (some 3)) with_device).1 ≡ with_device
serve-err_example =
    serve-err world (putting (some 3)) with_device (api_error 409 "object_missing") stale_put

written_put : (serve world (putting none) with_device).1 ≡ with_object
unfolding serve admit handle require_auth presented_token strip_prefix ct_eq require_protocol
    parse_u16 parse_digits Objects.put_object transact put_object_tx ensure_active_device
    fetch_device fetch_object record_change store_object timestamp_string i64_from_u64 u64_from_i64
    checked_next validate_put next_revision active_device lookup insert unary sample_text is_sample
written_put = refl

put_changes : (serve world (putting none) with_device).1 ≢ with_device
put_changes e =
    let h : with_object.sequence ≡ 0 = ap (λ (t : Tables). t.sequence) (sym written_put ∙ e) in
    omega arith

serve-admitted_example :
    ((token : String) × (presented_token (some "Bearer t") ≡ some token)
      × (world.sha256 token ≡ world.token_digest))
    × (requested_version (some "1") ≡ some 1)
serve-admitted_example = serve-admitted world (putting none) with_device put_changes

abbrev session : List (Env × Request)
session =
    (world, asking (Endpoint.register_device (record { id = alice; name = "alice" })))
    ∷ (world, putting none)
    ∷ (world, putting none)
    ∷ []

run-no_rows-IsConsistent_example : IsConsistent (run session no_rows)
run-no_rows-IsConsistent_example = run-no_rows-IsConsistent session

abbrev the_change : Change
the_change = record {
  cursor = 1;
  object_id = note_id;
  namespace = "bookmarks";
  revision = 1;
  device_id = alice;
  modified_at = record { instant = 3 };
  deleted = false;
}

decoded : collect (row_to_change sample_codec) with_object.changes ≡ ok (the_change ∷ [])
unfolding collect row_to_change parse_unary unary i64_from_u64 u64_from_i64
decoded = refl

page_decoded :
    collect (row_to_change sample_codec) (take 5 (rows_after 0 with_object.changes))
    ≡ ok (the_change ∷ [])
unfolding collect row_to_change parse_unary unary i64_from_u64 u64_from_i64 rows_after
page_decoded = refl

changes-page_example :
    changes sample_codec up (record { after = 0; limit = 5 }) with_object
    ≡ ok (record { changes = the_change ∷ []; next_cursor = 1; has_more = false })
unfolding rows_after unary
changes-page_example =
    changes-page sample_codec up (record { after = 0; limit = 5 }) with_object (the_change ∷ [])
      refl (omega arith) (omega arith) (omega arith) page_decoded

after_session : run session no_rows ≡ with_object
unfolding run serve admit handle require_auth presented_token strip_prefix ct_eq require_protocol
    parse_u16 parse_digits Objects.put_object transact put_object_tx ensure_active_device
    fetch_device fetch_object record_change store_object timestamp_string i64_from_u64 u64_from_i64
    checked_next validate_put next_revision active_device lookup insert unary sample_text is_sample
    register_device add_device autocommit trim trim_start trim_end is_whitespace
after_session = refl

gather-server_example :
    gather (server_page sample_codec up (run session no_rows)) "bookmarks" 2 0 []
    ≡ some (ok (note_all "bookmarks" [] (the_change ∷ [])))
gather-server_example =
    gather-server sample_codec up (run session no_rows) "bookmarks" 2 (the_change ∷ [])
      (run-no_rows-IsConsistent session) refl (rw after_session (omega arith))
      (rw after_session decoded)

run-no_rows-Writes_example :
    Writes empty (accepted session no_rows) (view (run session no_rows))
    × (named (run session no_rows).changes ≡ map (λ label. label.key) (accepted session no_rows))
run-no_rows-Writes_example = run-no_rows-Writes session

-- one of the two puts is accepted
one_accepted :
    accepted session no_rows
    ≡ record { key = "11"; namespace = some "bookmarks"; base = none; content = some "sample" } ∷ []
unfolding accepted run serve admit handle require_auth presented_token strip_prefix ct_eq
    require_protocol parse_u16 parse_digits Objects.put_object transact put_object_tx
    ensure_active_device fetch_device fetch_object record_change store_object timestamp_string
    i64_from_u64 u64_from_i64 checked_next validate_put next_revision active_device lookup insert
    unary sample_text is_sample register_device add_device autocommit trim trim_start trim_end
    is_whitespace
one_accepted = refl

abbrev up-Opens : Opens up
up-Opens = record { begins = refl; commits = refl }

-- the second put is stale
abbrev two_puts : BatchRequest
two_puts = record {
  operations =
      BatchOperation.put note_id (put_request none)
      ∷ BatchOperation.put note_id (put_request none)
      ∷ [];
}

batch-one_by_one_example :
    batch sample_codec up (λ n. up) two_puts with_device
    ≡ all_or_nothing with_device (one_by_one sample_codec (λ n. up) two_puts.operations with_device)
batch-one_by_one_example =
    batch-one_by_one sample_codec up up-Opens (λ n. up) (λ n. up-Opens) two_puts with_device refl
