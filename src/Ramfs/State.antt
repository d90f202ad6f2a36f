-- ===== src/Ramfs/State.antt =====
-- The state of kernel/fs/ramfs/ramfs.c, with the vnodes in use of kernel/fs/vnode.c. There is one
-- file system, so a vnode is named by its number `vn_vno`, which is that of its inode.
use weenix_assignment.Base.{ℕ, Bool, true, false, Option, List}
pub use weenix_assignment.Base.{put}

-- RAMFS_TYPE_DATA, RAMFS_TYPE_DIR, RAMFS_TYPE_CHR, RAMFS_TYPE_BLK; a vnode's `vn_mode` is S_IFREG,
-- S_IFDIR, S_IFCHR or S_IFBLK, one for each.
pub data Mode : Type 0 where
  type_data type_dir type_chr type_blk : Mode

abbrev pub is_dir : Mode → Bool
is_dir type_dir = true
is_dir _ = false

-- `ramfs_dirent_t`. The name is the text before the NUL; a free entry has the empty name.
pub record Dirent : Type 0 where
  pub rd_ino : ℕ
  pub rd_name : List ℕ

-- `ramfs_inode_t`. `rf_mem` is read as bytes, as an array of entries or as a device identifier,
-- according to the type; these are three fields here.
pub record Inode : Type 0 where
  pub rf_size : ℕ
  pub rf_ino : ℕ
  pub rf_mode : Mode
  pub rf_linkcount : ℕ
  pub rf_bytes : ℕ → ℕ
  pub rf_entries : ℕ → Dirent
  pub rf_devid : ℕ

-- The part of `vnode_t` that the file system uses. No vnode of it has resident pages, for its files
-- have no `mmap` operation.
pub record Vnode : Type 0 where
  pub vn_refcount : ℕ
  pub vn_mode : Mode
  pub vn_len : ℕ

pub record Ramfs : Type 0 where
  pub rfs_inodes : ℕ → Option Inode
  pub vnode : ℕ → Option Vnode

abbrev pub ramfs_max_files : ℕ
ramfs_max_files = 64

-- PAGE_SIZE / sizeof(ramfs_dirent_t), with four bytes for the number and NAME_LEN = 28 for the name.
abbrev pub ramfs_max_dirent : ℕ
ramfs_max_dirent = 128

abbrev pub dirent_size : ℕ
dirent_size = 32

abbrev pub page_bytes : ℕ
page_bytes = 4096

abbrev pub name_len : ℕ
name_len = 28

abbrev pub set_inode : Ramfs → ℕ → Option Inode → Ramfs
set_inode s i x = record s { rfs_inodes = put s.rfs_inodes i x }

abbrev pub set_vnode : Ramfs → ℕ → Option Vnode → Ramfs
set_vnode s i x = record s { vnode = put s.vnode i x }
