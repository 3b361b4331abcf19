-- ===== src/Client/Discovery/Pages/Enough.antt =====
-- orchestration.rs: the fuel of the loop over the pages is enough.
use helium_sync.Prelude.{
  ℕ, zero, suc, ◌+◌, ◌≤◌, ◌≡◌, refl, Bool-cases, leb, inl, inr, arith, String, List, Result-cases,
  ok, u64_max,
}
use helium_sync.Common.Types.{ChangesResponse}
use helium_sync.Client.Api
use helium_sync.Client.Api.{Session}
use helium_sync.Client.Sync.{ClientCore}
use helium_sync.Client.Discovery.{Candidate, note_all}
use helium_sync.Client.Discovery.Pages.{gather_pages}

-- Cursors are numbers of 64 bits.
abbrev pub HasU64Cursors : {S : Type 0} → ClientCore S → Type 0
HasU64Cursors core =
    (after : ℕ) (s t : _) (page : ChangesResponse)
    → Api.changes core.api after s ≡ (ok page, t)
    → page.next_cursor ≤ u64_max

module _ {S : Type 0} (core : ClientCore S) (cursors : HasU64Cursors core)
    (namespace : String) where
  -- Any two amounts of fuel for the cursors that can follow give the same.
  pub gather_pages-same :
      (fuel more after : ℕ) (candidates : List Candidate) (s : Session S)
      → u64_max + 1 ≤ fuel + after
      → u64_max + 1 ≤ more + after
      → 1 ≤ fuel
      → 1 ≤ more
      → gather_pages core namespace more after candidates s
        ≡ gather_pages core namespace fuel after candidates s
  unfolding gather_pages
  gather_pages-same zero more after candidates s h g some_fuel more_fuel = absurd (omega arith)
  gather_pages-same (suc fuel) zero after candidates s h g some_fuel more_fuel =
      absurd (omega arith)
  gather_pages-same (suc fuel) (suc more) after candidates s h g some_fuel more_fuel =
      elim (Result-cases (Api.changes core.api after s).0) [
        | inl (e, failed) ↦ rw (failed, gather_pages) refl
        | inr (page, got) ↦ elim (Bool-cases page.has_more) [
          | inr last ↦ rw (got, gather_pages, last) refl
          | inl further ↦ elim (Bool-cases (leb page.next_cursor after)) [
            | inl stuck ↦ rw (got, gather_pages, further, stuck) refl
            | inr on ↦
                let fits = cursors after s (Api.changes core.api after s).1 page (ground arith) in
                rw (got, gather_pages, further, on)
                  (gather_pages-same fuel more page.next_cursor
                    (note_all namespace candidates page.changes) (Api.changes core.api after s).1
                    (ground arith) (ground arith) (ground arith) (ground arith))
          ]
        ]
      ]
