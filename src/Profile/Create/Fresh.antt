-- ===== src/Profile/Create/Fresh.antt =====
-- crates/helium-sync-profile/src/lib.rs: the directory that `create_profile_with_reserved` takes.
use helium_sync.Prelude.{
  ◌==◌, ==_iff, subst, ℕ, zero, suc, ◌+◌, ◌≤◌, ◌<◌, ◌≡◌, ◌⊎◌, inl, inr, refl, arith, true, false,
  Bool-cases, String, List, Result, Result-cases, ok, err,
}
use helium_sync.Profile.Files.{IoError, FileSystem, DiscoveredProfile}
use helium_sync.Profile.Create.{
  u32_max, has, directory_of, new_profile, reserve, create_profile_with_reserved,
}

module _ {F : Type 0} (fs : FileSystem F) (decimal : ℕ → String) (user_data_dir : String)
    (reserved : List String) where
  -- Making the number's directory on this disk.
  abbrev pub made_on : F → ℕ → Result IoError (Unit {0}) × F
  made_on disk number =
      fs.create_dir (fs.join user_data_dir (directory_of fs decimal user_data_dir reserved number))
        disk

  -- The number's directory is reserved, or exists on the disk.
  abbrev pub IsTaken : F → ℕ → Type 0
  IsTaken disk number =
      (has (directory_of fs decimal user_data_dir reserved number) reserved ≡ true)
      ⊎ ((e : IoError) × (made_on disk number ≡ (err e, disk)) × (e.already_exists ≡ true))

  -- A directory that cannot be made leaves the disk as it is.
  abbrev pub LeavesDisk : Type 0
  LeavesDisk =
      (path : String) (disk disk' : F) (e : IoError)
      → fs.create_dir path disk ≡ (err e, disk')
      → disk' ≡ disk

  -- The profile has the first number from `start` on that is not taken, and its directory was made.
  pub record IsFirstFree (start limit : ℕ) (profile : DiscoveredProfile) (disk disk' : F)
      : Type 0 where
    pub number : ℕ
    pub from : start ≤ number
    pub below : number < limit
    pub free : has (directory_of fs decimal user_data_dir reserved number) reserved ≡ false
    pub made :
        profile
        ≡ new_profile fs decimal user_data_dir reserved
            (directory_of fs decimal user_data_dir reserved number)
    pub created : made_on disk number ≡ (ok tt, disk')
    pub taken : (n : ℕ) → start ≤ n → n < number → IsTaken disk n

  later :
      (start limit : ℕ) (profile : DiscoveredProfile) (disk disk' : F)
      → IsTaken disk start
      → IsFirstFree (suc start) limit profile disk disk'
      → IsFirstFree start limit profile disk disk'
  later start limit profile disk disk' here f =
      let from = f.from in
      record {
        number = f.number;
        from = omega arith;
        below = f.below;
        free = f.free;
        made = f.made;
        created = f.created;
        taken = λ n low high. elim (Bool-cases (start == n)) [
          | inl same ↦ subst (IsTaken disk) ((==_iff start n).0 same) here
          | inr above ↦ f.taken n (ground arith) high
        ];
      }

  first_is_free :
      (number left : ℕ) (disk disk' : F)
      → has (directory_of fs decimal user_data_dir reserved number) reserved ≡ false
      → made_on disk number ≡ (ok tt, disk')
      → IsFirstFree number
          (number + suc left)
          (new_profile fs decimal user_data_dir reserved
            (directory_of fs decimal user_data_dir reserved number))
          disk
          disk'
  first_is_free number left disk disk' free created = record {
    number = number;
    from = omega arith;
    below = omega arith;
    free = free;
    made = refl;
    created = created;
    taken = λ n low high. absurd (omega arith);
  }

  reserve-IsFirstFree :
      LeavesDisk
      → (left number : ℕ) (disk disk' : F) (profile : DiscoveredProfile)
      → reserve fs decimal user_data_dir reserved left number disk ≡ (ok profile, disk')
      → IsFirstFree number (number + left) profile disk disk'
  unfolding reserve
  reserve-IsFirstFree quiet zero number disk disk' profile h = absurd (ground arith)
  reserve-IsFirstFree quiet (suc left) number disk disk' profile h =
      let name = directory_of fs decimal user_data_dir reserved number in
      let further : reserve fs decimal user_data_dir reserved left (suc number) disk
            ≡ (ok profile, disk')
          → IsTaken disk number
          → IsFirstFree number (number + suc left) profile disk disk' =
        λ rest taken.
          subst (λ limit. IsFirstFree number limit profile disk disk') (omega arith)
            (later number (suc number + left) profile disk disk' taken
              (reserve-IsFirstFree quiet left (suc number) disk disk' profile rest)) in
      elim (Bool-cases (has name reserved)) [
        | inl held ↦ further (ground arith) (inl held)
        | inr free ↦ elim (Result-cases (made_on disk number).0) [
          | inr (u, made) ↦
              subst (λ p. IsFirstFree number (number + suc left) p disk disk') (ground arith)
                (first_is_free number left disk disk' free (ground arith))
          | inl (e, failed) ↦
              let same =
                quiet (fs.join user_data_dir name) disk (made_on disk number).1 e (ground arith) in
              elim (Bool-cases e.already_exists) [
                | inl exists ↦ further (ground arith) (inr (e, ground arith, exists))
                | inr other ↦ absurd (ground arith)
              ]
        ]
      ]

  -- A profile that is created has the first number from 1 on, within 32 bits, whose directory is
  -- neither reserved nor on the disk, with the names and the paths of that number and without
  -- bookmarks, and its directory is made on the disk as it was, where a directory that cannot be
  -- made leaves the disk as it is.
  pub create_profile_with_reserved-IsFirstFree :
      LeavesDisk
      → (disk disk' : F) (profile : DiscoveredProfile)
      → create_profile_with_reserved fs decimal user_data_dir reserved disk ≡ (ok profile, disk')
      → IsFirstFree 1 (1 + u32_max) profile disk disk'
  unfolding create_profile_with_reserved
  create_profile_with_reserved-IsFirstFree quiet disk disk' profile h =
      elim (Bool-cases (fs.is_dir user_data_dir disk)) [
        | inl there ↦ reserve-IsFirstFree quiet u32_max 1 disk disk' profile (ground arith)
        | inr gone ↦ absurd (ground arith)
      ]
