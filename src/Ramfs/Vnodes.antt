-- ===== src/Ramfs/Vnodes.antt =====
-- `vref`, `vget` and `vput` of kernel/fs/vnode.c, with `ramfs_read_vnode` and `ramfs_delete_vnode`.
-- These do not block, so no vnode is ever found busy; there are no resident pages to wait for.
use weenix_assignment.Base.{
  ℕ, ◌+◌, ◌-◌, Option, none, some, ltb, ◌==◌, if◌then◌else◌, ◌>>=◌, ◌>>◌, kassert,
}
use weenix_assignment.Ramfs.State.{Vnode, Ramfs, set_inode, set_vnode}

unfoldable pub vref : Ramfs → ℕ → Option Ramfs
vref s vno = do
  vn ← s.vnode vno
  kassert (ltb 0 vn.vn_refcount)
  some (set_vnode s vno (some (record vn { vn_refcount = vn.vn_refcount + 1 })))

-- The new vnode counts as a link of its inode.
unfoldable pub ramfs_read_vnode : Ramfs → ℕ → Option (Vnode × Ramfs)
ramfs_read_vnode s vno = do
  inode ← s.rfs_inodes vno
  kassert (inode.rf_ino == vno)
  some (
    record { vn_refcount = 0; vn_mode = inode.rf_mode; vn_len = inode.rf_size },
    set_inode s vno (some (record inode { rf_linkcount = inode.rf_linkcount + 1 })),
  )

unfoldable pub vget : Ramfs → ℕ → Option Ramfs
vget s vno = elim (s.vnode vno) [
  | some _ ↦ vref s vno
  | none ↦ (do
    (vn, s') ← ramfs_read_vnode s vno
    some (set_vnode s' vno (some (record vn { vn_refcount = 1 }))))
]

unfoldable pub ramfs_delete_vnode : Ramfs → ℕ → Option Ramfs
ramfs_delete_vnode s vno = do
  inode ← s.rfs_inodes vno
  some (
      set_inode s vno (
        if inode.rf_linkcount == 1
        then none
        else some (record inode { rf_linkcount = inode.rf_linkcount - 1 })))

unfoldable pub vput : Ramfs → ℕ → Option Ramfs
vput s vno = do
  vn ← s.vnode vno
  kassert (ltb 0 vn.vn_refcount)
  if vn.vn_refcount == 1
      then (do s' ← ramfs_delete_vnode s vno; some (set_vnode s' vno none))
      else some (set_vnode s vno (some (record vn { vn_refcount = vn.vn_refcount - 1 })))
