-- ===== src/Ramfs/Entries.antt =====
-- The loops over the entries of a directory and over the table of inodes, and what they use of
-- kernel/include/fs/vfs.h. Each loop has `n` rounds left from the index `i` on.
use weenix_assignment.Base.{
  ℕ, zero, suc, ◌+◌, ◌-◌, Bool, true, false, ◌&&◌, ◌||◌, Option, none, some, List, [], ◌∷◌, ◌==◌,
  if◌then◌else◌, is_some,
}
use weenix_assignment.Ramfs.State.{Mode, Dirent, Inode, Ramfs, ramfs_max_files, name_len, set_inode}

-- `name_match`: a name of the directory against a piece of a path.
unfoldable pub name_match : List ℕ → List ℕ → Bool
name_match [] [] = true
name_match [] (_ ∷ _) = false
name_match (_ ∷ _) [] = false
name_match (a ∷ s) (b ∷ t) = a == b && name_match s t

abbrev pub is_free : Dirent → Bool
is_free e = elim e.rd_name [ [] ↦ true | _ ∷ _ ↦ false ]

unfoldable pub find_name : ℕ → (ℕ → Dirent) → (name : List ℕ) → (i : ℕ) → Option ℕ
find_name zero entries name i = none
find_name (suc n) entries name i =
    let rest = find_name n entries name (i + 1) in
    if name_match (entries i).rd_name name then some i else rest

unfoldable pub find_space : ℕ → (ℕ → Dirent) → (i : ℕ) → Option ℕ
find_space zero entries i = none
find_space (suc n) entries i =
    let rest = find_space n entries (i + 1) in if is_free (entries i) then some i else rest

abbrev pub dot : List ℕ
dot = b'.' ∷ []

abbrev pub dot_dot : List ℕ
dot_dot = b'.' ∷ b'.' ∷ []

-- Whether a directory has nothing but "." and "..".
unfoldable pub only_dots : ℕ → (ℕ → Dirent) → (i : ℕ) → Bool
only_dots zero entries i = true
only_dots (suc n) entries i =
    let rest = only_dots n entries (i + 1) in
    let name = (entries i).rd_name in
    if name_match name dot || name_match name dot_dot
    then rest
    else if is_free (entries i)
    then rest
    else false

unfoldable pub free_inode : ℕ → (ℕ → Option Inode) → (i : ℕ) → Option ℕ
free_inode zero inodes i = none
free_inode (suc n) inodes i =
    let rest = free_inode n inodes (i + 1) in if is_some (inodes i) then rest else some i

abbrev pub take : ℕ → List ℕ → List ℕ
take zero s = []
take (suc n) [] = []
take (suc n) (c ∷ s) = c ∷ take n s

-- What `strncpy` leaves of a name, cut at NAME_LEN - 1 bytes.
abbrev pub stored : List ℕ → List ℕ
stored name = take (name_len - 1) name

-- A fresh page is all zeros. The allocators are taken to succeed; `none` is -ENOSPC.
unfoldable pub ramfs_alloc_inode : Ramfs → Mode → (devid : ℕ) → Option (ℕ × Ramfs)
ramfs_alloc_inode s mode devid = elim (free_inode ramfs_max_files s.rfs_inodes 0) [
  | none ↦ none
  | some i ↦ some (
    i,
    set_inode s i (
        some (record {
          rf_size = 0;
          rf_ino = i;
          rf_mode = mode;
          rf_linkcount = 1;
          rf_bytes = λ _. 0;
          rf_entries = λ _. record { rd_ino = 0; rd_name = [] };
          rf_devid = devid;
        })),
  )
]
