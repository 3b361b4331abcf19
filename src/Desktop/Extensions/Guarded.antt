-- ===== src/Desktop/Extensions/Guarded.antt =====
-- main.rs: what `sync_extensions_with_server` does where a manifest is on the server and a base is
-- recorded.
use helium_sync.Prelude.{
  ℕ, ◌≡◌, ◌≢◌, inl, inr, refl, sym, false, Bool-cases, String, some, List, ok, err, str_eq, eq_iff,
}
use helium_sync.Client.Extensions.{ExtensionBundleDescriptor}
use helium_sync.Profile.Files.{DiscoveredProfile}
use helium_sync.Desktop.Machine.{Desktop, Turn, Machine}
use helium_sync.Desktop.Records.{extension_base_hash}
use helium_sync.Desktop.Extensions.{
  Remote, Choice, choose, refusal, capture_extensions, remote_extension_manifest, carry_out,
  sync_extensions_with_server, keep_remote, load_extensions_from_server, save_extensions_to_server,
}

module _ (base local remote : String) where
  str_neq : (a b : String) → a ≢ b → str_eq a b ≡ false
  str_neq a b h = elim (Bool-cases (str_eq a b)) [
    | inl same ↦ absurd (h ((eq_iff a b).0 same))
    | inr differs ↦ differs
  ]

  choose-keep : local ≡ base → remote ≡ base → choose (some base) local remote ≡ Choice.keep
  unfolding choose
  choose-keep h g = rw ((eq_iff base local).1 (sym h), (eq_iff base remote).1 (sym g)) refl

  choose-restore : local ≡ base → remote ≢ base → choose (some base) local remote ≡ Choice.restore
  unfolding choose
  choose-restore h g = rw ((eq_iff base local).1 (sym h), str_neq base remote (λ e. g (sym e))) refl

  choose-upload : local ≢ base → remote ≡ base → choose (some base) local remote ≡ Choice.upload
  unfolding choose
  choose-upload h g = rw (str_neq base local (λ e. h (sym e)), (eq_iff base remote).1 (sym g)) refl

  choose-refuse : local ≢ base → remote ≢ base → choose (some base) local remote ≡ Choice.refuse
  unfolding choose
  choose-refuse h g =
      rw (str_neq base local (λ e. h (sym e)), str_neq base remote (λ e. g (sym e))) refl

module _ {S F : Type 0} (desktop : Desktop S F) (turn : Turn) (profile : DiscoveredProfile)
    (backup_dir : String) (m m1 m2 m3 : Machine S F) (captured : ExtensionBundleDescriptor × List ℕ)
    (remote : Remote) (base : String)
    (capture : capture_extensions desktop turn profile m ≡ (ok captured, m1))
    (find : remote_extension_manifest desktop turn profile m1 ≡ (ok (some remote), m2))
    (read : extension_base_hash desktop turn profile m2 ≡ (ok (some base), m3)) where
  abbrev local_hash : String
  local_hash = captured.0.archive_sha256

  abbrev remote_hash : String
  remote_hash = remote.0.archive_sha256

  carried_out :
      (choice : Choice)
      → choose (some base) local_hash remote_hash ≡ choice
      → sync_extensions_with_server desktop turn profile backup_dir m
        ≡ carry_out desktop turn profile backup_dir remote choice m3
  unfolding sync_extensions_with_server
  carried_out choice h = rw (capture, find, read, h) refl

  -- Where the extensions are captured, a manifest is on the server and a base is recorded, a
  -- synchronisation restores the extensions of the server only if the local ones are as the base
  -- says and those of the server are not, uploads only in the opposite case, records the base
  -- again if neither has changed, and refuses, with nothing changed after the reads, if both have.
  pub sync_extensions_with_server-guarded :
      (local_hash ≡ base
        → remote_hash ≢ base
        → sync_extensions_with_server desktop turn profile backup_dir m
          ≡ load_extensions_from_server desktop turn profile backup_dir m3)
      × (local_hash ≢ base
          → remote_hash ≡ base
          → sync_extensions_with_server desktop turn profile backup_dir m
            ≡ save_extensions_to_server desktop turn profile m3)
      × (local_hash ≢ base
          → remote_hash ≢ base
          → sync_extensions_with_server desktop turn profile backup_dir m ≡ (err refusal, m3))
      × (local_hash ≡ base
          → remote_hash ≡ base
          → sync_extensions_with_server desktop turn profile backup_dir m
            ≡ keep_remote desktop turn profile remote m3)
  sync_extensions_with_server-guarded = (
    λ h g. carried_out Choice.restore (choose-restore base local_hash remote_hash h g),
    λ h g. carried_out Choice.upload (choose-upload base local_hash remote_hash h g),
    λ h g. carried_out Choice.refuse (choose-refuse base local_hash remote_hash h g),
    λ h g. carried_out Choice.keep (choose-keep base local_hash remote_hash h g),
  )
