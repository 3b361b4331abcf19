-- ===== src/Client/Discovery/Complete.antt =====
-- The client's discovery loop against the server's change feed.
use helium_sync.Prelude.{
  ltb-false→le, ltb→lt, ok-injective, ℕ, zero, suc, ◌≤◌, ◌<◌, ◌≡◌, refl, ap, sym, ◌∙◌, Bool, true,
  false, List, [], ◌∷◌, ◌++◌, String, some, Result, ok, err, arith, take, drop, length, ltb, leb,
  Bool-cases, inl, inr, take-append-drop, take_all, i64_max,
}
use helium_sync.Common.Types.{Change, ChangesResponse}
use helium_sync.Common.Codec.{Codec}
use helium_sync.Server.Tables.{ChangeRow, Tables, Statement}
use helium_sync.Server.Checks.{row_to_change}
use helium_sync.Server.Devices.{collect}
use helium_sync.Server.Feed.{rows_after, changes, default_changes_limit}
use helium_sync.Server.Feed.Rows.{
  end_of, Rising, rows_after-Rising, rows_after_all, Ascending-Rising, rows_after_page, end_of-le,
}
use helium_sync.Server.Feed.Pages.{changes-page}
use helium_sync.Server.Feed.Decode.{
  collect-take, collect-drop, Bounded, rows_after-Bounded, Ascending-Bounded, Bounded-mono,
  end_of-Bounded,
}
use helium_sync.Server.History.{IsConsistent}
use helium_sync.Client.Errors.{ClientError}
use helium_sync.Client.Api.{client_error}
use helium_sync.Client.Discovery.{Candidate, note, note_all, gather}

-- `ApiClient::changes`, answered by the server with the tables `t`; the query names no limit
abbrev pub server_page :
    Codec → (Statement → Bool) → Tables → ℕ → Result ClientError ChangesResponse
server_page c fails t after =
    elim (changes c fails (record { after = after; limit = default_changes_limit }) t) [
      | ok page ↦ ok page
      | err e ↦ err (client_error e)
    ]

note_all-append :
    (namespace : String) (acc : List Candidate) (xs ys : List Change)
    → note_all namespace acc (xs ++ ys) ≡ note_all namespace (note_all namespace acc xs) ys
unfolding note_all
note_all-append namespace acc [] ys = refl
note_all-append namespace acc (x ∷ xs) ys = note_all-append namespace (note namespace acc x) xs ys

length-drop-lt :
    {A : Type 0} (n : ℕ) (xs : List A) → n < length xs → length (drop (suc n) xs) < length xs
length-drop-lt n [] h = elim h [ ]
length-drop-lt zero (x ∷ xs) h = omega arith
length-drop-lt (suc n) (x ∷ xs) h = omega (arith, length-drop-lt n xs (omega arith))

end_of-lt :
    (after n : ℕ) (xs : List ChangeRow)
    → n < length xs
    → Rising after xs
    → after < end_of after (take (suc n) xs)
end_of-lt after n [] h r = elim h [ ]
end_of-lt after n (x ∷ xs) h r = omega (arith, end_of-le x.cursor n xs r.1)

module _ (source : ℕ → Result ClientError ChangesResponse) (namespace : String) (fuel after : ℕ)
    (acc : List Candidate) (page : ChangesResponse) (answer : source after ≡ ok page) where
  gather_last :
      page.has_more ≡ false
      → gather source namespace (suc fuel) after acc
        ≡ some (ok (note_all namespace acc page.changes))
  unfolding gather
  gather_last h = rw (answer, h, gather)

  gather_more :
      page.has_more ≡ true
      → after < page.next_cursor
      → gather source namespace (suc fuel) after acc
        ≡ gather source namespace fuel page.next_cursor (note_all namespace acc page.changes)
  unfolding gather
  gather_more h forward =
      let advances : leb page.next_cursor after ≡ false = ground arith in
      rw (answer, h, advances, gather)

module _ (c : Codec) (fails : Statement → Bool) (t : Tables) (namespace : String) (lo : ℕ)
    (up : fails Statement.select_changes ≡ false) (rising : Rising lo t.changes)
    (bounded : Bounded i64_max t.changes) where
  -- The loop notes every change behind its cursor, page by page, once each and in order.
  pub gather_all :
      (fuel after : ℕ) (acc : List Candidate) (ys : List Change)
      → length (rows_after after t.changes) < fuel
      → after ≤ i64_max
      → collect (row_to_change c) (rows_after after t.changes) ≡ ok ys
      → gather (server_page c fails t) namespace fuel after acc
        ≡ some (ok (note_all namespace acc ys))
  unfolding gather
  gather_all zero after acc ys h small decoded = elim h [ ]
  gather_all (suc fuel) after acc ys h small decoded =
      let rows = rows_after after t.changes in
      let next : ℕ = end_of after (take 100 rows) in
      let rise : Rising after rows = rows_after-Rising after lo t.changes rising in
      let here : collect (row_to_change c) (take 100 rows) ≡ ok (take 100 ys) =
        collect-take (row_to_change c) 100 rows ys decoded in
      let page =
        changes-page c fails (record { after = after; limit = 100 }) t (take 100 ys) up
          (omega arith) (omega arith) small here in
      let reply : ChangesResponse = record {
        changes = take 100 ys;
        next_cursor = next;
        has_more = ltb 100 (length rows);
      } in
      let answered : server_page c fails t after ≡ ok reply = rw (page, server_page) in
      elim (Bool-cases (ltb 100 (length rows))) [
        | inl more ↦
            let some_left : 99 < length rows = omega (arith, ltb→lt 100 (length rows) more) in
            let forward : after < next = end_of-lt after 99 rows some_left rise in
            let next_small : next ≤ i64_max =
              end_of-Bounded i64_max after 100 rows small
                (rows_after-Bounded i64_max after t.changes bounded) in
            let rest = rows_after_page 100 after lo t.changes rising in
            let shorter : length (rows_after next t.changes) < fuel =
              rw rest (omega (arith, length-drop-lt 99 rows some_left)) in
            let behind : collect (row_to_change c) (rows_after next t.changes) ≡ ok (drop 100 ys) =
              rw rest (collect-drop (row_to_change c) 100 rows ys decoded) in
            let ih =
              gather_all fuel next (note_all namespace acc (take 100 ys)) (drop 100 ys) shorter
                next_small behind in
            gather_more (server_page c fails t) namespace fuel after acc reply answered more forward
            ∙ ih
            ∙ ap (λ z. some (ok z))
                (sym (note_all-append namespace acc (take 100 ys) (drop 100 ys))
                  ∙ ap (note_all namespace acc) (take-append-drop 100 ys))
        | inr last ↦
            let all_rows : take 100 rows ≡ rows =
              take_all 100 rows (ltb-false→le 100 (length rows) last) in
            let same : take 100 ys ≡ ys =
              ok-injective (sym here ∙ ap (collect (row_to_change c)) all_rows ∙ decoded) in
            gather_last (server_page c fails t) namespace fuel after acc reply answered last
            ∙ ap (λ z. some (ok (note_all namespace acc z))) same
      ]

-- Against consistent tables whose feed decodes, and a database that executes the query, the
-- client's discovery loop ends without an error, with fuel for one page more than there are
-- changes, and has noted every change of the feed once and in order.
pub gather-server :
    (c : Codec) (fails : Statement → Bool) (t : Tables) (namespace : String) (fuel : ℕ)
    (ys : List Change)
    → IsConsistent t
    → fails Statement.select_changes ≡ false
    → length t.changes < fuel
    → collect (row_to_change c) t.changes ≡ ok ys
    → gather (server_page c fails t) namespace fuel 0 [] ≡ some (ok (note_all namespace [] ys))
gather-server c fails t namespace fuel ys v up enough decoded =
    let rising = Ascending-Rising 0 t.changes t.sequence v.ascending in
    let whole : rows_after 0 t.changes ≡ t.changes = rows_after_all 0 t.changes rising in
    let bounded =
      Bounded-mono t.sequence i64_max t.changes v.in_range
        (Ascending-Bounded 0 t.changes t.sequence v.ascending) in
    gather_all c fails t namespace 0 up rising bounded fuel 0 [] ys (rw whole enough) (omega arith)
      (rw whole decoded)
