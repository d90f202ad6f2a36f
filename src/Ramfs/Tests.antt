-- ===== src/Ramfs/Tests.antt =====
-- A file system, a file and a directory on which the theorems are applied.
use weenix_assignment.Base.{
  ℕ, ◌+◌, ◌≡◌, ◌≢◌, refl, ap, ◌∙◌, sym, true, false, ◌&&◌, Option, none, some, List, [], ◌∷◌, arith,
  ◌==◌, if◌then◌else◌, inl, inr, ◌⊎◌, Result, ok, err, enospc, Bool,
}
use mathlib.Core.Path.{subst}
use weenix_assignment.Ramfs.State.{type_data, Inode, Ramfs}
use weenix_assignment.Ramfs.Entries.{
  name_match, find_name, find_space, free_inode, only_dots, ramfs_alloc_inode,
}
use weenix_assignment.Ramfs.Names.{
  is_ok, space_for, ramfs_lookup, set_entry, ramfs_create, ramfs_link, ramfs_unlink, is_name,
}
use weenix_assignment.Ramfs.Dirs.{set_dots, no_files, ramfs_mount, ramfs_mkdir, ramfs_rmdir}
use weenix_assignment.Ramfs.Data.{ramfs_write}
use weenix_assignment.Ramfs.Vnodes.{vget, ramfs_read_vnode}
use weenix_assignment.Ramfs.NameMap.{names, ino_of}
use weenix_assignment.Ramfs.Links.{links}
use weenix_assignment.Ramfs.Valid.{vn_refs, IsRamfs}
use weenix_assignment.Ramfs.Refs.{counted}
use weenix_assignment.Ramfs.Mount.{ramfs_mount_lem}
use weenix_assignment.Ramfs.Create.{IsPlace, Made}
use weenix_assignment.Ramfs.NewFile.{ramfs_create_lem}
use weenix_assignment.Ramfs.Mkdir.{new_dir, ramfs_mkdir_lem}
use weenix_assignment.Ramfs.Link.{ramfs_link_lem}
use weenix_assignment.Ramfs.Unlink.{Unnamed, ramfs_unlink_lem}
use weenix_assignment.Ramfs.Rmdir.{ramfs_rmdir_lem, Ruling}
use weenix_assignment.Ramfs.Drop.{minus_one}
use weenix_assignment.Ramfs.AddName.{plus_one, Named}
use weenix_assignment.Ramfs.Room.{IsFull, NoInode}
use weenix_assignment.Ramfs.WriteRead.{IsFile, Written, ramfs_write-ramfs_read}

abbrev state {ℓ} : {A : Type ℓ} → Option (Result A × Ramfs) → Ramfs
state none = no_files
state (some (res, s)) = s

abbrev went_well {ℓ} : {A : Type ℓ} → Option (Result A × Ramfs) → Bool
went_well none = false
went_well (some (res, s)) = is_ok res

abbrev pub mounted : Option Ramfs → Ramfs
mounted none = no_files
mounted (some s) = s

-- The mounted file system.
abbrev pub disk : Ramfs
disk = mounted ramfs_mount

pub disk_valid : IsRamfs disk
disk_valid =
    let (s, done, valid, _, _, _) = ramfs_mount_lem in subst IsRamfs (ap mounted (sym done)) valid

abbrev pub name_a : List ℕ
name_a = b'a' ∷ []

abbrev name_b : List ℕ
name_b = b'b' ∷ []

abbrev pub root_inode : Inode
root_inode = counted (new_dir 0 0) 2

pub IsPlace-a : IsPlace disk 0 name_a root_inode
unfolding ramfs_mount set_dots no_files ramfs_alloc_inode free_inode vget ramfs_read_vnode names
    ino_of find_name name_match
IsPlace-a = record {
  here = refl;
  is = refl;
  reachable = ground arith;
  named = refl;
  no_dots = refl;
  short = ground arith;
  new = refl;
}

ramfs_create_lem_example :
    (ramfs_create disk 0 name_a ≡ some (err enospc, disk)) × (IsFull root_inode ⊎ NoInode disk)
    ⊎ (ino : ℕ) × (s' : Ramfs) × (ramfs_create disk 0 name_a ≡ some (ok ino, s'))
      × Made disk s' 0 ino name_a
      × ((f : Inode) × (s'.rfs_inodes ino ≡ some f) × (f.rf_mode ≡ type_data) × (f.rf_size ≡ 0))
      × ((w : ℕ) → vn_refs s' w ≡ vn_refs disk w + (if ino == w then 1 else 0))
ramfs_create_lem_example = ramfs_create_lem disk 0 name_a root_inode disk_valid IsPlace-a

-- A file "a".
abbrev pub disk_file : Ramfs
disk_file = state (ramfs_create disk 0 name_a)

file_made : went_well (ramfs_create disk 0 name_a) ≡ true
unfolding ramfs_mount set_dots no_files ramfs_alloc_inode free_inode vget ramfs_read_vnode find_name
    name_match ramfs_create space_for ramfs_lookup find_space set_entry
file_made = refl

pub disk_file_valid : IsRamfs disk_file
disk_file_valid = elim (ramfs_create_lem disk 0 name_a root_inode disk_valid IsPlace-a) [
  | inl (e, _) ↦ absurd (ground (arith, sym file_made ∙ ap went_well e))
  | inr (ino, s', done, made, _, _) ↦ subst IsRamfs (ap state (sym done)) made.valid
]

-- A directory "a".
abbrev disk_dir : Ramfs
disk_dir = state (ramfs_mkdir disk 0 name_a)

dir_made : went_well (ramfs_mkdir disk 0 name_a) ≡ true
unfolding ramfs_mount set_dots no_files ramfs_alloc_inode free_inode vget ramfs_read_vnode find_name
    name_match ramfs_mkdir space_for ramfs_lookup find_space set_entry
dir_made = refl

disk_dir_valid : IsRamfs disk_dir
disk_dir_valid = elim (ramfs_mkdir_lem disk 0 name_a root_inode disk_valid IsPlace-a) [
  | inl (e, _) ↦ absurd (ground (arith, sym dir_made ∙ ap went_well e))
  | inr (ino, s', done, made, _, _, _, _) ↦ subst IsRamfs (ap state (sym done)) made.valid
]

abbrev pub inode_in : Ramfs → ℕ → Inode
inode_in s i = elim (s.rfs_inodes i) [ none ↦ root_inode | some inode ↦ inode ]

ramfs_unlink_lem_example :
    (s' : Ramfs) × (ramfs_unlink disk_file 0 name_a ≡ some (ok tt, s'))
    × IsRamfs s'
    × Unnamed disk_file s' 0 1 name_a
    × ((ino : ℕ) → links s' ino ≡ minus_one (links disk_file) 1 ino)
    × ((w : ℕ) → vn_refs s' w ≡ vn_refs disk_file w)
unfolding ramfs_mount set_dots no_files ramfs_alloc_inode free_inode vget ramfs_read_vnode find_name
    name_match ramfs_create space_for ramfs_lookup find_space set_entry names ino_of
ramfs_unlink_lem_example =
    ramfs_unlink_lem disk_file 0 1 name_a (inode_in disk_file 0) (inode_in disk_file 1)
      disk_file_valid refl refl refl refl refl refl refl

IsPlace-b : IsPlace disk_file 0 name_b (inode_in disk_file 0)
unfolding ramfs_mount set_dots no_files ramfs_alloc_inode free_inode vget ramfs_read_vnode find_name
    name_match ramfs_create space_for ramfs_lookup find_space set_entry names ino_of
IsPlace-b = record {
  here = refl;
  is = refl;
  reachable = ground arith;
  named = refl;
  no_dots = refl;
  short = ground arith;
  new = refl;
}

ramfs_link_lem_example :
    (ramfs_link disk_file 1 0 name_b ≡ some (err enospc, disk_file)) × IsFull (inode_in disk_file 0)
    ⊎ (s' : Ramfs) × (ramfs_link disk_file 1 0 name_b ≡ some (ok tt, s'))
      × IsRamfs s'
      × Named disk_file s' 0 1 name_b
      × ((i : ℕ) → links s' i ≡ plus_one (links disk_file) 1 i)
      × (s'.vnode ≡ disk_file.vnode)
unfolding ramfs_mount set_dots no_files ramfs_alloc_inode free_inode vget ramfs_read_vnode find_name
    name_match ramfs_create space_for ramfs_lookup find_space set_entry
ramfs_link_lem_example =
    ramfs_link_lem disk_file 1 0 name_b (inode_in disk_file 0) (inode_in disk_file 1)
      disk_file_valid IsPlace-b refl refl

ramfs_rmdir_lem_example :
    (r : Result (Unit {0})) × (s' : Ramfs) × (ramfs_rmdir disk_dir 0 name_a ≡ some (r, s'))
    × Ruling disk_dir 1 (inode_in disk_dir 1) r
    × IsRamfs s'
    × ((d : ℕ) (other : List ℕ)
        → 1 ≢ d
        → is_name other ≡ true
        → names s' d other ≡ (
            if is_ok r && (0 == d && name_match name_a other)
            then none
            else names disk_dir d other))
    × ((ino : ℕ)
        → links s' ino ≡ (if is_ok r then minus_one (links disk_dir) 1 ino else links disk_dir ino))
    × ((w : ℕ) → vn_refs s' w ≡ vn_refs disk_dir w)
unfolding ramfs_mount set_dots no_files ramfs_alloc_inode free_inode vget ramfs_read_vnode find_name
    name_match ramfs_mkdir space_for ramfs_lookup find_space set_entry names ino_of only_dots
ramfs_rmdir_lem_example =
    ramfs_rmdir_lem disk_dir 0 1 name_a (inode_in disk_dir 0) (inode_in disk_dir 1) disk_dir_valid
      refl refl refl refl refl refl (λ e. ground (arith, e))

IsFile-a :
    IsFile disk_file 1
      (inode_in disk_file 1)
      (record { vn_refcount = 1; vn_mode = type_data; vn_len = 0 })
unfolding ramfs_mount set_dots no_files ramfs_alloc_inode free_inode vget ramfs_read_vnode find_name
    name_match ramfs_create space_for ramfs_lookup find_space set_entry
IsFile-a = record {
  stored = refl;
  used = refl;
  regular = refl;
  in_step = refl;
  fits = ground arith;
}

-- Four bytes written at 4094, of which two fit.
ramfs_write-ramfs_read_example :
    (ret : ℕ) × (s' : Ramfs) × (ramfs_write disk_file 1 4094 (1 ∷ 2 ∷ 3 ∷ 4 ∷ []) ≡ some (ret, s'))
    × Written disk_file s' 1 4094 ret (1 ∷ 2 ∷ 3 ∷ 4 ∷ []) (inode_in disk_file 1)
ramfs_write-ramfs_read_example =
    ramfs_write-ramfs_read disk_file 1 4094 (1 ∷ 2 ∷ 3 ∷ 4 ∷ []) (inode_in disk_file 1)
      (record { vn_refcount = 1; vn_mode = type_data; vn_len = 0 }) IsFile-a (ground arith)
      (ground arith)
