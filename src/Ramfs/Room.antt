-- ===== src/Ramfs/Room.antt =====
-- The free entry and the free inode that the operations of kernel/fs/ramfs/ramfs.c that add a name look
-- for.
use weenix_assignment.Base.{
  ℕ, zero, suc, ◌-◌, ◌≤◌, ◌<◌, ◌≡◌, refl, ap, ◌∙◌, true, false, not, none, some, List, [], ◌∷◌,
  arith, length, is_some, inl, inr, ◌⊎◌,
}
use weenix_assignment.Ramfs.State.{
  Mode, Dirent, Inode, Ramfs, ramfs_max_files, ramfs_max_dirent, name_len, set_inode,
}
use weenix_assignment.Ramfs.Entries.{find_space, is_free, take, stored, ramfs_alloc_inode}
use weenix_assignment.Ramfs.Names.{is_name, space_for}
use weenix_assignment.Ramfs.First.{first_lem, find_space-first, free_inode-first}
use weenix_assignment.Ramfs.NameMap.{names}
use weenix_assignment.Ramfs.Found.{lookup_missing}

-- The inode that `ramfs_alloc_inode` makes.
abbrev pub fresh : ℕ → Mode → ℕ → Inode
fresh ino mode devid = record {
  rf_size = 0;
  rf_ino = ino;
  rf_mode = mode;
  rf_linkcount = 1;
  rf_bytes = λ _. 0;
  rf_entries = λ _. record { rd_ino = 0; rd_name = [] };
  rf_devid = devid;
}

-- A directory with no free entry, and a table with no free inode.
abbrev pub IsFull : Inode → Type 0
IsFull inode = (j : ℕ) → j < ramfs_max_dirent → is_free (inode.rf_entries j) ≡ false

abbrev pub NoInode : Ramfs → Type 0
NoInode s = (i : ℕ) → i < ramfs_max_files → is_some (s.rfs_inodes i) ≡ true

-- A free entry of a directory and a free inode.
pub record IsRoom (s : Ramfs) (inode : Inode) (k ino : ℕ) : Type 0 where
  pub high : k < ramfs_max_dirent
  pub free : (inode.rf_entries k).rd_name ≡ []
  pub below : ino < ramfs_max_files
  pub none_there : s.rfs_inodes ino ≡ none
  pub alloc :
      (mode : Mode) (devid : ℕ)
      → ramfs_alloc_inode s mode devid ≡ some (ino, set_inode s ino (some (fresh ino mode devid)))

free_name : (e : Dirent) → is_free e ≡ true → e.rd_name ≡ []
free_name e h = name_empty e.rd_name h
  where
    name_empty : (name : List ℕ) → elim name [ [] ↦ true | _ ∷ _ ↦ false ] ≡ true → name ≡ []
    name_empty [] h = refl
    name_empty (c ∷ name) h = absurd (ground (arith, h))

alloc_lem :
    (s : Ramfs)
    → ((mode : Mode) (devid : ℕ) → ramfs_alloc_inode s mode devid ≡ none) × NoInode s
      ⊎ (ino : ℕ) × (ino < ramfs_max_files)
        × (s.rfs_inodes ino ≡ none)
        × ((mode : Mode) (devid : ℕ)
            → ramfs_alloc_inode s mode devid
              ≡ some (ino, set_inode s ino (some (fresh ino mode devid))))
unfolding ramfs_alloc_inode
alloc_lem s =
    let search = free_inode-first ramfs_max_files s.rfs_inodes 0 in
    elim (first_lem ramfs_max_files (λ j. not (is_some (s.rfs_inodes j))) 0) [
      | inl (gone, all) ↦ inl (
        λ mode devid. ground (arith, search ∙ gone),
        λ i h. ground (arith, all i (omega arith) h),
      )
      | inr (ino, found, low, high, here, before) ↦
          inr (ino, high, ground (arith, here), λ mode devid. ground (arith, search ∙ found))
    ]

space_step :
    (s : Ramfs) (dir : ℕ) (name : List ℕ) (inode : Inode)
    → s.rfs_inodes dir ≡ some inode
    → is_name name ≡ true
    → names s dir name ≡ none
    → space_for s dir name ≡ some (find_space ramfs_max_dirent inode.rf_entries 0)
unfolding space_for
space_step s dir name inode here h new =
    ground (arith, (lookup_missing s dir name inode here h new).0, here)

-- Either there is no room, and the code sees it, or there is.
pub room_lem :
    (s : Ramfs) (dir : ℕ) (name : List ℕ) (inode : Inode)
    → s.rfs_inodes dir ≡ some inode
    → is_name name ≡ true
    → names s dir name ≡ none
    → (space_for s dir name ≡ some none) × IsFull inode
      ⊎ (k : ℕ) × (space_for s dir name ≡ some (some k))
        × (k < ramfs_max_dirent)
        × ((inode.rf_entries k).rd_name ≡ [])
        × (((mode : Mode) (devid : ℕ) → ramfs_alloc_inode s mode devid ≡ none) × NoInode s
            ⊎ (ino : ℕ) × IsRoom s inode k ino)
room_lem s dir name inode here h new =
    let step = space_step s dir name inode here h new in
    let search = find_space-first ramfs_max_dirent inode.rf_entries 0 in
    elim (first_lem ramfs_max_dirent (λ j. is_free (inode.rf_entries j)) 0) [
      | inl (gone, all) ↦ inl (step ∙ ap some (search ∙ gone), λ j less. all j (omega arith) less)
      | inr (k, found, low, high, free, before) ↦ inr (
        k,
        step ∙ ap some (search ∙ found),
        high,
        free_name (inode.rf_entries k) free,
        elim (alloc_lem s) [
          | inl full ↦ inl full
          | inr (ino, below, there, alloc) ↦ inr (
            ino,
            record {
              high = high;
              free = free_name (inode.rf_entries k) free;
              below = below;
              none_there = there;
              alloc = alloc;
            },
          )
        ],
      )
    ]

-- A name that fits is stored whole.
take_whole : (n : ℕ) (name : List ℕ) → length name ≤ n → take n name ≡ name
take_whole zero [] h = refl
take_whole zero (c ∷ name) h = absurd (omega (arith, h))
take_whole (suc n) [] h = refl
take_whole (suc n) (c ∷ name) h = ap (λ l. c ∷ l) (take_whole n name (omega (arith, h)))

pub stored_lem : (name : List ℕ) → length name < name_len → stored name ≡ name
stored_lem name h = take_whole (name_len - 1) name (omega (arith, h))
