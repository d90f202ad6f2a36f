-- ===== src/Path/Tests.antt =====
-- Paths in a mounted file system on which the theorems are applied.
use weenix_assignment.Base.{
  ℕ, ◌<◌, ◌≡◌, refl, Option, none, some, List, [], ◌∷◌, arith, ◌⊎◌, ok, err, enospc,
}
use weenix_assignment.Ramfs.State.{Ramfs}
use weenix_assignment.Ramfs.Entries.{
  find_name, free_inode, ramfs_alloc_inode, name_match, find_space,
}
use weenix_assignment.Ramfs.Dirs.{set_dots, no_files, ramfs_mount}
use weenix_assignment.Ramfs.Vnodes.{vget, ramfs_read_vnode}
use weenix_assignment.Ramfs.NameMap.{names, ino_of}
use weenix_assignment.Ramfs.Valid.{vn_refs, IsRamfs}
use weenix_assignment.Ramfs.Create.{Made}
use weenix_assignment.Ramfs.Tests.{
  disk, disk_valid, root_inode, name_a, IsPlace-a, disk_file, disk_file_valid, inode_in,
}
use weenix_assignment.Path.Namev.{slash, named_dir, dir_namev}
use weenix_assignment.Path.Walk.{pieces, split, resolve, dir_namev-path_of}
use weenix_assignment.Path.Balance.{Same}
use weenix_assignment.Path.Resolve.{Leads, arrived, into, IsDir, cur_refs, dir_namev_lem}
use weenix_assignment.Path.Calls.{do_mkdir, do_unlink}
use weenix_assignment.Path.MkdirCall.{Reaches}
use weenix_assignment.Ramfs.Room.{IsFull, NoInode}
use weenix_assignment.Ramfs.Mkdir.{new_dir}
use weenix_assignment.Path.MkdirSafe.{do_mkdir_new}
use weenix_assignment.Ramfs.Names.{ramfs_create, space_for, ramfs_lookup, set_entry}
use weenix_assignment.Ramfs.Links.{links}
use weenix_assignment.Ramfs.Drop.{minus_one}
use weenix_assignment.Ramfs.Unlink.{Unnamed}
use weenix_assignment.Path.UnlinkSafe.{do_unlink_lem}

-- "./../a/"
abbrev path_a : List ℕ
path_a = b'.' ∷ slash ∷ b'.' ∷ b'.' ∷ slash ∷ b'a' ∷ slash ∷ []

abbrev before_a : Option (List ℕ)
before_a = some (b'.' ∷ slash ∷ b'.' ∷ b'.' ∷ [])

dir_namev-path_of_example :
    dir_namev disk 0 path_a
    ≡ named_dir name_a (resolve disk 0 none ((b'.' ∷ []) ∷ (b'.' ∷ b'.' ∷ []) ∷ []))
unfolding pieces split
dir_namev-path_of_example =
    dir_namev-path_of disk 0 before_a name_a 1 (λ e. ground (arith, e), tt) (ground arith)

root-IsDir : IsDir disk 0
unfolding ramfs_mount set_dots no_files ramfs_alloc_inode free_inode vget ramfs_read_vnode
root-IsDir = record { inode = root_inode; here = refl; is = refl }

Leads-root : Leads disk 0 (pieces (b'.' ∷ slash ∷ b'.' ∷ b'.' ∷ [])) 0
unfolding ramfs_mount set_dots no_files ramfs_alloc_inode free_inode vget ramfs_read_vnode names
    ino_of find_name name_match pieces split
Leads-root = into root_inode refl refl refl refl (into root_inode refl refl refl refl arrived)

root_held : 0 < vn_refs disk 0
unfolding ramfs_mount set_dots no_files ramfs_alloc_inode free_inode vget ramfs_read_vnode
root_held = ground arith

dir_namev_lem_example :
    (s' : Ramfs) × (dir_namev disk 0 path_a ≡ some (ok (0, name_a), s'))
    × IsDir disk 0
    × Same disk s' (cur_refs (some 0))
dir_namev_lem_example =
    dir_namev_lem disk 0 0 before_a name_a 1 disk_valid (λ e. ground (arith, e), tt) (ground arith)
      (ground arith) root-IsDir root_held Leads-root

Reaches-a : Reaches disk 0 0 before_a name_a 1
Reaches-a = record {
  valid = disk_valid;
  clean = (λ e. ground (arith, e), tt);
  some_name = ground arith;
  short = ground arith;
  from = root-IsDir;
  positive = root_held;
  leads = Leads-root;
}

do_mkdir_new_example :
    ((s' : Ramfs) × (do_mkdir disk 0 path_a ≡ some (err enospc, s'))
      × Same disk s' (λ _. 0)
      × (IsFull root_inode ⊎ NoInode disk))
    ⊎ (ino : ℕ) × (s' : Ramfs) × (do_mkdir disk 0 path_a ≡ some (ok tt, s'))
      × Made disk s' 0 ino name_a
      × (s'.rfs_inodes ino ≡ some (new_dir ino 0))
      × ((w : ℕ) → vn_refs s' w ≡ vn_refs disk w)
do_mkdir_new_example = do_mkdir_new disk 0 0 before_a name_a 1 Reaches-a root_inode IsPlace-a

file-IsDir : IsDir disk_file 0
unfolding ramfs_mount set_dots no_files ramfs_alloc_inode free_inode vget ramfs_read_vnode find_name
    name_match ramfs_create space_for ramfs_lookup find_space set_entry
file-IsDir = record { inode = inode_in disk_file 0; here = refl; is = refl }

file_held : 0 < vn_refs disk_file 0
unfolding ramfs_mount set_dots no_files ramfs_alloc_inode free_inode vget ramfs_read_vnode find_name
    name_match ramfs_create space_for ramfs_lookup find_space set_entry
file_held = ground arith

Leads-file : Leads disk_file 0 (pieces (b'.' ∷ slash ∷ b'.' ∷ b'.' ∷ [])) 0
unfolding ramfs_mount set_dots no_files ramfs_alloc_inode free_inode vget ramfs_read_vnode find_name
    name_match ramfs_create space_for ramfs_lookup find_space set_entry names ino_of pieces split
Leads-file =
    into (inode_in disk_file 0) refl refl refl refl
      (into (inode_in disk_file 0) refl refl refl refl arrived)

Reaches-file : Reaches disk_file 0 0 before_a name_a 1
Reaches-file = record {
  valid = disk_file_valid;
  clean = (λ e. ground (arith, e), tt);
  some_name = ground arith;
  short = ground arith;
  from = file-IsDir;
  positive = file_held;
  leads = Leads-file;
}

do_unlink_lem_example :
    (s' : Ramfs) × (do_unlink disk_file 0 path_a ≡ some (ok tt, s'))
    × IsRamfs s'
    × Unnamed disk_file s' 0 1 name_a
    × ((ino : ℕ) → links s' ino ≡ minus_one (links disk_file) 1 ino)
    × ((w : ℕ) → vn_refs s' w ≡ vn_refs disk_file w)
unfolding ramfs_mount set_dots no_files ramfs_alloc_inode free_inode vget ramfs_read_vnode find_name
    name_match ramfs_create space_for ramfs_lookup find_space set_entry names ino_of
do_unlink_lem_example =
    do_unlink_lem disk_file 0 0 1 before_a name_a 1 (inode_in disk_file 1) Reaches-file refl
      (ground arith) refl refl refl
