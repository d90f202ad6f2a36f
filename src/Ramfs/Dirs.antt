-- ===== src/Ramfs/Dirs.antt =====
-- Directories themselves: `ramfs_mount`, `ramfs_mkdir`, `ramfs_rmdir` and `ramfs_readdir` of
-- kernel/fs/ramfs/ramfs.c.
use weenix_assignment.Base.{
  ℕ, zero, suc, ◌+◌, ◌-◌, ◌/◌, ◌%◌, ◌*◌, not, ◌||◌, Option, none, some, List, ◌==◌, if◌then◌else◌,
  ◌>>=◌, ◌>>◌, kassert, Result, ok, err, enospc, enotdir, enotempty,
}
use weenix_assignment.Ramfs.State.{
  type_dir, Dirent, Ramfs, ramfs_max_dirent, dirent_size, put, set_inode,
}
use weenix_assignment.Ramfs.Vnodes.{vget, vput}
use weenix_assignment.Ramfs.Entries.{
  is_free, name_match, dot, dot_dot, only_dots, stored, ramfs_alloc_inode,
}
use weenix_assignment.Ramfs.Names.{ramfs_lookup, set_entry, grow, space_for, drop_name, mode_is_dir}

-- The first two entries of a directory.
abbrev pub dots : (self parent : ℕ) → (ℕ → Dirent) → ℕ → Dirent
dots self parent entries =
    put (put entries 0 (record { rd_ino = self; rd_name = dot })) 1
      (record { rd_ino = parent; rd_name = dot_dot })

unfoldable pub set_dots : Ramfs → (self parent : ℕ) → Option Ramfs
set_dots s self parent = do
  inode ← s.rfs_inodes self
  some (
      set_inode s self (
        some (record inode {
          rf_entries = dots self parent inode.rf_entries;
          rf_size = 2 * dirent_size;
        })))

unfoldable pub no_files : Ramfs
no_files = record { rfs_inodes = λ _. none; vnode = λ _. none }

unfoldable pub ramfs_mount : Option Ramfs
unfolding no_files
ramfs_mount = do
  (ino, s) ← ramfs_alloc_inode no_files type_dir 0
  kassert (ino == 0)
  s₁ ← set_dots s 0 0
  vget s₁ 0

unfoldable pub ramfs_mkdir : Ramfs → (parent : ℕ) → List ℕ → Option (Result (Unit {0}) × Ramfs)
ramfs_mkdir s parent name = do
  space ← space_for s parent name
  elim space [
    | none ↦ some (err enospc, s)
    | some i ↦ elim (ramfs_alloc_inode s type_dir 0) [
      | none ↦ some (err enospc, s)
      | some (ino, s₁) ↦ (do
        s₂ ← set_entry s₁ parent i (record { rd_ino = ino; rd_name = stored name }) grow
        s₃ ← set_dots s₂ ino parent
        some (ok tt, s₃))
    ]
  ]

unfoldable pub ramfs_rmdir : Ramfs → (parent : ℕ) → List ℕ → Option (Result (Unit {0}) × Ramfs)
ramfs_rmdir s parent name = do
  kassert (not (name_match dot name || name_match dot_dot name))
  (found, s₁) ← ramfs_lookup s parent name
  elim found [
    | err e ↦ some (err e, s₁)
    | ok vno ↦
        if not (mode_is_dir s₁ vno) then (do s₂ ← vput s₁ vno; some (err enotdir, s₂)) else (do
          inode ← s₁.rfs_inodes vno
          if not (only_dots ramfs_max_dirent inode.rf_entries 0)
              then (do s₂ ← vput s₁ vno; some (err enotempty, s₂))
              else (do s₂ ← drop_name s₁ parent name vno; some (ok tt, s₂)))
  ]

-- The first used entry from the index `i` on, with `n` entries left.
unfoldable pub next_used : ℕ → (ℕ → Dirent) → (i : ℕ) → Option ℕ
next_used zero entries i = none
next_used (suc n) entries i =
    let rest = next_used n entries (i + 1) in if is_free (entries i) then rest else some i

-- The result is the number of bytes passed over, with the entry; 0 at the end.
unfoldable pub ramfs_readdir : Ramfs → (vno offset : ℕ) → Option (ℕ × Option Dirent)
ramfs_readdir s vno offset = do
  kassert (mode_is_dir s vno)
  kassert (offset % dirent_size == 0)
  inode ← s.rfs_inodes vno
  let from = offset / dirent_size
  some (elim (next_used (ramfs_max_dirent - from) inode.rf_entries from) [
    | none ↦ (0, none)
    | some i ↦ ((i + 1 - from) * dirent_size, some (inode.rf_entries i))
  ])
