-- ===== src/Profile/Restore/Kept.antt =====
-- crates/helium-sync-profile/src/lib.rs: what `restore_bookmarks` does to the files, whichever of its
-- steps fails.
use helium_sync.Prelude.{
  ℕ, ◌≡◌, ◌∙◌, ◌≢◌, ◌⊎◌, inl, inr, Bool, true, false, String, some, List, ok, err, Result,
}
use helium_sync.Prelude.Step.{Ends, Ends->>=, Ends-on_error, Ends-map_err, Ends-weaken, branch}
use helium_sync.Profile.Files.{FileSystem, DiscoveredProfile, IoError}
use helium_sync.Profile.Restore.{
  ZipWriter, backup_path_in, staged_path, previous_path, stage, swap, install,
}
use helium_sync.Profile.Restore.Laws.{Contents, OnlyAt, Same, Lawful, AreApart, Ends-both}

-- The four paths of a restore, and what the disk was at its start.
pub record Site (F : Type 0) : Type 0 where
  pub live : String
  pub staged : String
  pub previous : String
  pub backup : String
  pub start : F

module _ {F : Type 0} (content : Contents F) (site : Site F) where
  -- no file but the four has changed
  abbrev pub Others : F → Type 0
  Others disk =
      (q : String)
      → q ≢ site.live
      → q ≢ site.staged
      → q ≢ site.previous
      → q ≢ site.backup
      → content q disk ≡ content q site.start

  -- the live file is as it was
  abbrev pub IsStart : F → Type 0
  IsStart disk = (content site.live disk ≡ content site.live site.start) × Others disk

  -- the live file has been moved aside
  abbrev pub IsAside : F → Type 0
  IsAside disk = (content site.previous disk ≡ content site.live site.start) × Others disk

  module _ (bytes : List ℕ) where
    abbrev pub IsStaged : F → Type 0
    IsStaged disk = IsStart disk × (content site.staged disk ≡ some bytes)

    -- the live file is the new one
    abbrev pub IsDone : F → Type 0
    IsDone disk = (content site.live disk ≡ some bytes) × Others disk

    abbrev pub IsKept : F → Type 0
    IsKept disk = IsStart disk ⊎ (IsDone disk ⊎ IsAside disk)

module _ {F : Type 0} (fs : FileSystem F) (zip : ZipWriter F) (content : Contents F)
    (laws : Lawful content fs zip) (live staged previous backup : String)
    (apart : AreApart live staged previous backup) (start : F) (bytes : List ℕ) where
  abbrev site : Site F
  site = record {
    live = live;
    staged = staged;
    previous = previous;
    backup = backup;
    start = start;
  }

  pub IsStart-backup :
      (disk disk' : F)
      → OnlyAt content backup disk disk'
      → (IsStart content site) disk
      → (IsStart content site) disk'
  IsStart-backup disk disk' only (here, others) =
      (only live apart.live_backup ∙ here, λ q l s p b. only q b ∙ others q l s p b)

  IsStart-staged :
      (disk disk' : F)
      → OnlyAt content staged disk disk'
      → (IsStart content site) disk
      → (IsStart content site) disk'
  IsStart-staged disk disk' only (here, others) =
      (only live apart.live_staged ∙ here, λ q l s p b. only q s ∙ others q l s p b)

  pub IsStart-Same :
      (disk disk' : F)
      → Same content disk disk'
      → (IsStart content site) disk
      → (IsStart content site) disk'
  IsStart-Same disk disk' same (here, others) =
      (same live ∙ here, λ q l s p b. same q ∙ others q l s p b)

  pub stage-staged :
      (disk : F)
      → (IsStart content site) disk
      → Ends
          (λ a t. (IsStaged content site bytes) t)
          (λ e t. (IsStart content site) t)
          (stage fs zip staged bytes disk)
  stage-staged disk h =
      Ends->>= (λ a t. (IsStart content site) t) (λ a t. (IsStaged content site bytes) t)
        (λ e t. (IsStart content site) t) _ _
        (Ends-map_err (λ a t. (IsStart content site) t) (IsStart content site) _
          (fs.create_new staged disk)
          (Ends-both (IsStart content site) _
            (IsStart-staged disk _ (laws.create_new staged disk) h)))
        (λ a t g.
          Ends-on_error (λ a t. (IsStaged content site bytes) t) (λ e t. (IsStart content site) t)
            (λ e t. (IsStart content site) t) (fs.write_all staged bytes t) _
            (Ends-weaken _ _ _ _ (fs.write_all staged bytes t) (laws.write_all staged bytes t)
              (λ a u k. (IsStart-staged t u k.1 g, k.0)) (λ e u k. IsStart-staged t u k g))
            (λ e u k. IsStart-staged u _ (laws.remove_file staged u) k))

  install-IsDone :
      (disk : F)
      → (IsStaged content site bytes) disk
      → Ends
          (λ a t. (IsDone content site bytes) t)
          (λ e t. (IsKept content site bytes) t)
          (install fs zip staged live disk)
  install-IsDone disk h =
      Ends-on_error (λ a t. (IsDone content site bytes) t) (λ e t. (IsStart content site) t)
        (λ e t. (IsKept content site bytes) t) (fs.rename staged live disk) _
        (Ends-weaken _ _ _ _ (fs.rename staged live disk)
          (laws.rename staged live disk apart.staged_live)
          (λ a u k. (k.0 ∙ h.1, λ q l s p b. k.2 q s l ∙ h.0.1 q l s p b))
          (λ e u k. IsStart-Same disk u k h.0))
        (λ e u k. inl (IsStart-staged u _ (laws.remove_file staged u) k))

  -- after the first rename of a swap
  abbrev IsMoved : F → Type 0
  IsMoved disk = (IsAside content site) disk × (content staged disk ≡ some bytes)

  IsAside-staged :
      (disk disk' : F)
      → OnlyAt content staged disk disk'
      → (IsAside content site) disk
      → (IsAside content site) disk'
  IsAside-staged disk disk' only (here, others) =
      (only previous apart.previous_staged ∙ here, λ q l s p b. only q s ∙ others q l s p b)

  first_rename :
      (disk : F)
      → (IsStaged content site bytes) disk
      → Ends (λ a t. IsMoved t) (λ e t. (IsStart content site) t) (fs.rename live previous disk)
  first_rename disk h =
      Ends-weaken _ _ _ _ (fs.rename live previous disk)
        (laws.rename live previous disk apart.live_previous)
        (λ a u k. (
          (k.0 ∙ h.0.0, λ q l s p b. k.2 q l p ∙ h.0.1 q l s p b),
          k.2 staged apart.staged_live apart.staged_previous ∙ h.1,
        ))
        (λ e u k. IsStart-Same disk u k h.0)

  second_rename :
      (disk : F)
      → IsMoved disk
      → Ends
          (λ a t. (IsDone content site bytes) t)
          (λ e t. (IsAside content site) t)
          (fs.rename staged live disk)
  second_rename disk h =
      Ends-weaken _ _ _ _ (fs.rename staged live disk)
        (laws.rename staged live disk apart.staged_live)
        (λ a u k. (k.0 ∙ h.1, λ q l s p b. k.2 q s l ∙ h.0.1 q l s p b))
        (λ e u k. (k previous ∙ h.0.0, λ q l s p b. k q ∙ h.0.1 q l s p b))

  -- The rename back restores the live file, or leaves it aside.
  rename_back :
      (disk : F)
      → (IsAside content site) disk
      → Ends
          (λ a t. (IsStart content site) t)
          (λ e t. (IsAside content site) t)
          (fs.rename previous live disk)
  rename_back disk h =
      Ends-weaken _ _ _ _ (fs.rename previous live disk)
        (laws.rename previous live disk apart.previous_live)
        (λ a u k. (k.0 ∙ h.0, λ q l s p b. k.2 q p l ∙ h.1 q l s p b))
        (λ e u k. (k previous ∙ h.0, λ q l s p b. k q ∙ h.1 q l s p b))

  removed :
      (r : Result IoError (Unit {0}) × F)
      → Ends (λ a t. (IsStart content site) t) (λ e t. (IsAside content site) t) r
      → (IsKept content site bytes) (fs.remove_file staged r.1).1
  removed (ok a, t) h = inl (IsStart-staged t _ (laws.remove_file staged t) h)
  removed (err e, t) h = inr (inr (IsAside-staged t _ (laws.remove_file staged t) h))

  IsDone-previous :
      (disk disk' : F)
      → OnlyAt content previous disk disk'
      → (IsDone content site bytes) disk
      → (IsDone content site bytes) disk'
  IsDone-previous disk disk' only (here, others) =
      (only live apart.live_previous ∙ here, λ q l s p b. only q p ∙ others q l s p b)

  IsDone-Ends :
      (r : Result IoError (Unit {0}) × F)
      → (IsDone content site bytes) r.1
      → Ends (λ a t. (IsDone content site bytes) t) (λ e t. (IsKept content site bytes) t) r
  IsDone-Ends (ok a, t) h = h
  IsDone-Ends (err e, t) h = inr (inl h)

  swap-IsDone :
      (disk : F)
      → (IsStaged content site bytes) disk
      → Ends
          (λ a t. (IsDone content site bytes) t)
          (λ e t. (IsKept content site bytes) t)
          (swap fs zip backup previous staged live disk)
  swap-IsDone disk h =
      Ends->>= (λ a t. IsMoved t) (λ a t. (IsDone content site bytes) t)
        (λ e t. (IsKept content site bytes) t) _ _
        (Ends-on_error (λ a t. IsMoved t) (λ e t. (IsStart content site) t)
          (λ e t. (IsKept content site bytes) t) (fs.rename live previous disk) _
          (first_rename disk h) (λ e u k. inl (IsStart-staged u _ (laws.remove_file staged u) k)))
        (λ a t g.
          Ends->>= (λ a t. (IsDone content site bytes) t) (λ a t. (IsDone content site bytes) t)
            (λ e t. (IsKept content site bytes) t) _ _
            (Ends-on_error (λ a t. (IsDone content site bytes) t) (λ e t. (IsAside content site) t)
              (λ e t. (IsKept content site bytes) t) (fs.rename staged live t) _ (second_rename t g)
              (λ e u k. removed (fs.rename previous live u) (rename_back u k)))
            (λ a u k.
              Ends-map_err (λ a t. (IsDone content site bytes) t) (IsKept content site bytes) _
                (fs.remove_file previous u)
                (IsDone-Ends (fs.remove_file previous u)
                  (IsDone-previous u _ (laws.remove_file previous u) k))))

  pub exchange-IsDone :
      (exists : Bool) (disk : F)
      → (IsStaged content site bytes) disk
      → Ends
          (λ a t. (IsDone content site bytes) t)
          (λ e t. (IsKept content site bytes) t)
          (branch exists
            (swap fs zip backup previous staged live)
            (install fs zip staged live)
            disk)
  exchange-IsDone true disk h = swap-IsDone disk h
  exchange-IsDone false disk h = install-IsDone disk h

-- The paths of a restore of a profile into a directory.
abbrev pub ArePaths :
    {F : Type 0} → FileSystem F → ZipWriter F → String → DiscoveredProfile → String → Type 0
ArePaths fs zip unique profile downloads =
    AreApart profile.bookmarks_path (staged_path fs zip unique profile)
      (previous_path fs zip unique profile) (backup_path_in fs zip unique profile downloads)
