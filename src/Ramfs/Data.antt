-- ===== src/Ramfs/Data.antt =====
-- The contents of files: `ramfs_read`, `ramfs_write` and `ramfs_stat` of kernel/fs/ramfs/ramfs.c. An
-- offset is at least 0.
use weenix_assignment.Base.{
  ℕ, zero, suc, ◌+◌, ◌-◌, ◌^◌, ltb, min, max, not, Option, some, List, [], ◌∷◌, leb, ◌==◌,
  if◌then◌else◌, ◌>>=◌, ◌>>◌, kassert, length,
}
use weenix_assignment.Ramfs.State.{Mode, Ramfs, page_bytes, put, set_inode, set_vnode}
use weenix_assignment.Ramfs.Names.{is_device, mode_is_dir}
use weenix_assignment.Ramfs.Entries.{take}

unfoldable pub bytes_from : (ℕ → ℕ) → (offset n : ℕ) → List ℕ
bytes_from mem offset zero = []
bytes_from mem offset (suc n) = mem offset ∷ bytes_from mem (offset + 1) n

-- A count that the cast to `off_t` makes negative reads nothing.
unfoldable pub ramfs_read : Ramfs → (vno offset count : ℕ) → Option (List ℕ)
ramfs_read s vno offset count = do
  kassert (not (mode_is_dir s vno))
  inode ← s.rfs_inodes vno
  let n = if leb (2 ^ 31) count then 0 else min count (inode.rf_size - offset)
  some (bytes_from inode.rf_bytes offset n)

unfoldable pub copy_in : (ℕ → ℕ) → (offset : ℕ) → List ℕ → ℕ → ℕ
copy_in mem offset [] = mem
copy_in mem offset (c ∷ s) = copy_in (put mem offset c) (offset + 1) s

-- The result is the number of bytes written. From an offset behind the page, or with a count that the
-- cast to `off_t` makes negative, the code copies a negative number of bytes, which is a fault (`none`).
unfoldable pub ramfs_write : Ramfs → (vno offset : ℕ) → List ℕ → Option (ℕ × Ramfs)
ramfs_write s vno offset buf = do
  kassert (not (mode_is_dir s vno))
  inode ← s.rfs_inodes vno
  vn ← s.vnode vno
  kassert (leb offset page_bytes)
  kassert (ltb (length buf) (2 ^ 31))
  let ret = min (length buf) (page_bytes - offset)
  kassert (vn.vn_len == inode.rf_size)
  let len = max vn.vn_len (offset + ret)
  let s₁ = set_inode s vno (
      some
        (record inode { rf_bytes = copy_in inode.rf_bytes offset (take ret buf); rf_size = len }))
  some (ret, set_vnode s₁ vno (some (record vn { vn_len = len })))

-- The fields of `struct stat` that `ramfs_stat` takes from the file; the device is 0, the block size a
-- page and the blocks one.
pub record Stat : Type 0 where
  pub st_mode : Mode
  pub st_ino : ℕ
  pub st_nlink : ℕ
  pub st_size : ℕ
  pub st_rdev : ℕ

unfoldable pub ramfs_stat : Ramfs → (vno : ℕ) → Option Stat
ramfs_stat s vno = do
  vn ← s.vnode vno
  inode ← s.rfs_inodes vno
  some (record {
    st_mode = vn.vn_mode;
    st_ino = vno;
    st_nlink = inode.rf_linkcount - 1;
    st_size = inode.rf_size;
    st_rdev = if is_device vn.vn_mode then inode.rf_devid else 0;
  })
