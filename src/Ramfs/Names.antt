-- ===== src/Ramfs/Names.antt =====
-- The vnode operations on the names of a directory: `ramfs_lookup`, `ramfs_create`, `ramfs_mknod`,
-- `ramfs_link` and `ramfs_unlink` of kernel/fs/ramfs/ramfs.c. `none` is a failed KASSERT or a null
-- dereference.
use weenix_assignment.Base.{
  ℕ, ◌+◌, ◌-◌, Bool, true, false, not, Option, none, some, List, [], ◌∷◌, ◌==◌, ◌>>=◌, ◌>>◌,
  kassert, Result, ok, err, enoent, enospc,
}
use weenix_assignment.Ramfs.State.{
  Mode, type_data, type_chr, type_blk, is_dir, Dirent, Ramfs, ramfs_max_dirent, dirent_size, put,
  set_inode,
}
use weenix_assignment.Ramfs.Vnodes.{vget, vput}
use weenix_assignment.Ramfs.Entries.{find_name, find_space, stored, ramfs_alloc_inode}

-- A name to look up is not empty and does not start with a slash.
abbrev pub is_name : List ℕ → Bool
is_name [] = false
is_name (c ∷ s) = not (c == b'/')

unfoldable pub ramfs_lookup : Ramfs → (dir : ℕ) → List ℕ → Option (Result ℕ × Ramfs)
ramfs_lookup s dir name = do
  inode ← s.rfs_inodes dir
  kassert (is_name name)
  elim (find_name ramfs_max_dirent inode.rf_entries name 0) [
    | none ↦ some (err enoent, s)
    | some i ↦ (do
      s' ← vget s (inode.rf_entries i).rd_ino
      some (ok (inode.rf_entries i).rd_ino, s'))
  ]

abbrev pub is_ok {ℓ} : {A : Type ℓ} → Result A → Bool
is_ok (ok a) = true
is_ok (err e) = false

-- Writing an entry of a directory, with the new size of the directory.
unfoldable pub set_entry : Ramfs → (dir i : ℕ) → Dirent → (size : ℕ → ℕ) → Option Ramfs
set_entry s dir i e size = do
  inode ← s.rfs_inodes dir
  some (
      set_inode s dir (
        some
          (record inode { rf_entries = put inode.rf_entries i e; rf_size = size inode.rf_size })))

abbrev pub grow : ℕ → ℕ
grow size = size + dirent_size

abbrev pub shrink : ℕ → ℕ
shrink size = size - dirent_size

-- The assertion that the name is new, and the search for a free entry: `none` inside is -ENOSPC.
unfoldable pub space_for : Ramfs → (dir : ℕ) → List ℕ → Option (Option ℕ)
space_for s dir name = do
  (found, s') ← ramfs_lookup s dir name
  kassert (not (is_ok found))
  inode ← s.rfs_inodes dir
  some (find_space ramfs_max_dirent inode.rf_entries 0)

unfoldable pub ramfs_create : Ramfs → (dir : ℕ) → List ℕ → Option (Result ℕ × Ramfs)
ramfs_create s dir name = do
  space ← space_for s dir name
  elim space [
    | none ↦ some (err enospc, s)
    | some i ↦ elim (ramfs_alloc_inode s type_data 0) [
      | none ↦ some (err enospc, s)
      | some (ino, s₁) ↦ (do
        s₂ ← vget s₁ ino
        s₃ ← set_entry s₂ dir i (record { rd_ino = ino; rd_name = stored name }) grow
        some (ok ino, s₃))
    ]
  ]

-- Anything but a device panics.
abbrev pub is_device : Mode → Bool
is_device type_chr = true
is_device type_blk = true
is_device _ = false

unfoldable pub ramfs_mknod :
    Ramfs → (dir : ℕ) → List ℕ → Mode → (devid : ℕ) → Option (Result (Unit {0}) × Ramfs)
ramfs_mknod s dir name mode devid = do
  space ← space_for s dir name
  elim space [
    | none ↦ some (err enospc, s)
    | some i ↦ (do
      kassert (is_device mode)
      elim (ramfs_alloc_inode s mode devid) [
        | none ↦ some (err enospc, s)
        | some (ino, s₁) ↦ (do
          s₂ ← set_entry s₁ dir i (record { rd_ino = ino; rd_name = stored name }) grow
          some (ok tt, s₂))
      ])
  ]

abbrev pub set_linkcount : Ramfs → ℕ → (ℕ → ℕ) → Option Ramfs
set_linkcount s ino count = do
  inode ← s.rfs_inodes ino
  some (set_inode s ino (some (record inode { rf_linkcount = count inode.rf_linkcount })))

unfoldable pub ramfs_link : Ramfs → (old dir : ℕ) → List ℕ → Option (Result (Unit {0}) × Ramfs)
ramfs_link s old dir name = do
  space ← space_for s dir name
  elim space [
    | none ↦ some (err enospc, s)
    | some i ↦ (do
      s₁ ← set_entry s dir i (record { rd_ino = old; rd_name = stored name }) grow
      s₂ ← set_linkcount s₁ old (λ n. n + 1)
      some (ok tt, s₂))
  ]

-- The loop that clears the entry of a name, the size of the directory, and the link count. The
-- number in the entry stays.
unfoldable pub drop_name : Ramfs → (dir : ℕ) → List ℕ → (vno : ℕ) → Option Ramfs
drop_name s dir name vno = do
  inode ← s.rfs_inodes dir
  s₁ ← elim (find_name ramfs_max_dirent inode.rf_entries name 0) [
    | none ↦ some s
    | some i ↦ set_entry s dir i (record (inode.rf_entries i) { rd_name = [] }) (λ size. size)
  ]
  inode₁ ← s₁.rfs_inodes dir
  let s₂ = set_inode s₁ dir (some (record inode₁ { rf_size = shrink inode₁.rf_size }))
  s₃ ← set_linkcount s₂ vno (λ n. n - 1)
  vput s₃ vno

abbrev pub mode_is_dir : Ramfs → ℕ → Bool
mode_is_dir s vno = elim (s.vnode vno) [ none ↦ false | some vn ↦ is_dir vn.vn_mode ]

unfoldable pub ramfs_unlink : Ramfs → (dir : ℕ) → List ℕ → Option (Result (Unit {0}) × Ramfs)
ramfs_unlink s dir name = do
  (found, s₁) ← ramfs_lookup s dir name
  elim found [
    | err _ ↦ none
    | ok vno ↦ (do
      kassert (not (mode_is_dir s₁ vno))
      s₂ ← drop_name s₁ dir name vno
      some (ok tt, s₂))
  ]
