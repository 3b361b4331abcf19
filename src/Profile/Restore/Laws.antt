-- ===== src/Profile/Restore/Laws.antt =====
-- crates/helium-sync-profile/src/lib.rs: what a restore relies on of the file system and of the
-- archive writer, and what the writing of an archive leaves alone.
use helium_sync.Prelude.{
  ℕ, ◌≡◌, ◌≢◌, Bool, true, false, String, Option, none, some, List, ok, err, Result,
}
use helium_sync.Prelude.Step.{Step, ◌>>◌, Ends, Ends->>=, Ends-on_error, Ends-map_err, branch}
use helium_sync.Profile.Files.{FileSystem, DiscoveredProfile}
use helium_sync.Profile.Restore.{
  ZipWriter, create_backup_archive, fill_archive, entry_name, no_bookmarks,
}

-- the contents of the files of a disk
abbrev pub Contents : Type 0 → Type 0
Contents F = String → F → Option (List ℕ)

module _ {F : Type 0} (content : Contents F) where
  abbrev pub Same : F → F → Type 0
  Same disk disk' = (q : String) → content q disk' ≡ content q disk

  abbrev pub OnlyAt : String → F → F → Type 0
  OnlyAt p disk disk' = (q : String) → q ≢ p → content q disk' ≡ content q disk

  abbrev pub Renamed : String → String → F → F → Type 0
  Renamed a b disk disk' =
      (content b disk' ≡ content a disk)
      × (content a disk' ≡ none)
      × ((q : String) → q ≢ a → q ≢ b → content q disk' ≡ content q disk)

  abbrev pub Touches : String → Step String F (Unit {0}) → Type 0
  Touches p m = (disk : F) → OnlyAt p disk (m disk).1

  -- What the program relies on while no other program writes: an operation changes the files that
  -- it names and no others, and a rename or a removal that fails changes none.
  pub record Lawful (fs : FileSystem F) (zip : ZipWriter F) : Type 0 where
    pub create_dir_all : (p : String) (disk : F) → Same disk (fs.create_dir_all p disk).1
    pub create_new : (p : String) (disk : F) → OnlyAt p disk (fs.create_new p disk).1
    pub write_all :
        (p : String) (bytes : List ℕ) (disk : F)
        → Ends
            (λ a disk'. (content p disk' ≡ some bytes) × OnlyAt p disk disk')
            (λ e disk'. OnlyAt p disk disk')
            (fs.write_all p bytes disk)
    pub rename :
        (a b : String) (disk : F)
        → a ≢ b
        → Ends (λ _ disk'. Renamed a b disk disk') (λ e disk'. Same disk disk') (fs.rename a b disk)
    pub remove_file : (p : String) (disk : F) → OnlyAt p disk (fs.remove_file p disk).1
    pub start_file : (p entry : String) → Touches p (zip.start_file p entry)
    pub copy : (p source : String) → Touches p (zip.copy p source)
    pub write_text : (p text : String) → Touches p (zip.write_text p text)
    pub finish : (p : String) → Touches p (zip.finish p)

-- the paths of a restore
pub record AreApart (live staged previous backup : String) : Type 0 where
  pub live_staged : live ≢ staged
  pub live_previous : live ≢ previous
  pub live_backup : live ≢ backup
  pub staged_previous : staged ≢ previous
  pub previous_staged : previous ≢ staged
  pub staged_live : staged ≢ live
  pub previous_live : previous ≢ live

-- A property of the disk that a step keeps on both outcomes.
pub Ends-both :
    {E A F : Type 0} (P : F → Type 0) (r : Result E A × F)
    → P r.1
    → Ends (λ a s. P s) (λ e s. P s) r
Ends-both P (ok a, s) h = h
Ends-both P (err e, s) h = h

module _ {F : Type 0} (fs : FileSystem F) (zip : ZipWriter F) (content : Contents F)
    (laws : Lawful content fs zip) where
  -- a property that writing the archive keeps
  module _ (backup : String) (P : F → Type 0)
      (kept : (disk disk' : F) → OnlyAt content backup disk disk' → P disk → P disk') where
    touched :
        (m : Step String F (Unit {0})) (disk : F) → Touches content backup m → P disk → P (m disk).1
    touched m disk touches h = kept disk (m disk).1 (touches disk) h

    Ends-touched :
        (m : Step String F (Unit {0})) (disk : F)
        → Touches content backup m
        → P disk
        → Ends (λ a s. P s) (λ e s. P s) (m disk)
    Ends-touched m disk touches h = Ends-both P (m disk) (touched m disk touches h)

    Ends-two :
        (m n : Step String F (Unit {0})) (disk : F)
        → Touches content backup m
        → Touches content backup n
        → P disk
        → Ends (λ a s. P s) (λ e s. P s) ((m >> n) disk)
    Ends-two m n disk first second h =
        Ends->>= (λ a s. P s) (λ a s. P s) (λ e s. P s) (m disk) _ (Ends-touched m disk first h)
          (λ a s h'. Ends-touched n s second h')

    Ends-branch :
        (test : Bool) (m n : Step String F (Unit {0})) (disk : F)
        → Ends (λ a s. P s) (λ e s. P s) (m disk)
        → Ends (λ a s. P s) (λ e s. P s) (n disk)
        → Ends (λ a s. P s) (λ e s. P s) (branch test m n disk)
    Ends-branch true m n disk h g = h
    Ends-branch false m n disk h g = g

    fill_archive-keeps :
        (profile : DiscoveredProfile) (disk : F)
        → P disk
        → Ends (λ a s. P s) (λ e s. P s) (fill_archive fs zip backup profile disk)
    fill_archive-keeps profile disk h =
        Ends->>= (λ a s. P s) (λ a s. P s) (λ e s. P s) _ _
          (Ends-branch (fs.is_file profile.bookmarks_path disk) _ _ disk
            (Ends-two (zip.start_file backup (entry_name profile))
              (zip.copy backup profile.bookmarks_path) disk (laws.start_file backup _)
              (laws.copy backup _) h)
            (Ends-two (zip.start_file backup "README.txt") (zip.write_text backup no_bookmarks) disk
              (laws.start_file backup _) (laws.write_text backup _) h))
          (λ a s h'. Ends-touched (zip.finish backup) s (laws.finish backup) h')

    pub create_backup_archive-keeps :
        (profile : DiscoveredProfile) (disk : F)
        → P disk
        → Ends (λ a s. P s) (λ e s. P s) (create_backup_archive fs zip backup profile disk)
    unfolding create_backup_archive
    create_backup_archive-keeps profile disk h =
        Ends->>= (λ a s. P s) (λ a s. P s) (λ e s. P s) _ _
          (Ends-map_err (λ a s. P s) P _ (fs.create_new backup disk)
            (Ends-both P _ (kept disk _ (laws.create_new backup disk) h)))
          (λ a s h'.
            Ends-on_error (λ a s. P s) (λ e s. P s) (λ e s. P s)
              (fill_archive fs zip backup profile s) _ (fill_archive-keeps profile s h')
              (λ e t g. kept t _ (laws.remove_file backup t) g))
