-- ===== src/Ramfs/NewFile.antt =====
-- `ramfs_create` and `ramfs_mknod` of kernel/fs/ramfs/ramfs.c, on every way out.
use weenix_assignment.Base.{
  ℕ, ◌+◌, ◌≡◌, ◌≢◌, refl, ◌∙◌, true, none, some, List, arith, ◌==◌, if◌then◌else◌, inl, inr, ◌⊎◌,
  ℕ_discrete, ok, err, enospc,
}
use mathlib.Core.Path.{subst}
use weenix_assignment.Ramfs.State.{Mode, type_data, type_chr, Inode, Ramfs, dirent_size}
use weenix_assignment.Ramfs.Vnodes.{vget}
use weenix_assignment.Ramfs.Entries.{stored, ramfs_alloc_inode}
use weenix_assignment.Ramfs.Names.{set_entry, space_for, ramfs_create, is_device, ramfs_mknod}
use weenix_assignment.Ramfs.Links.{links, links_same}
use weenix_assignment.Ramfs.Valid.{vn_refs, IsRamfs}
use weenix_assignment.Ramfs.Refs.{vget_lem}
use weenix_assignment.Ramfs.GiveBack.{Taken-links}
use weenix_assignment.Ramfs.Room.{fresh, IsFull, NoInode, IsRoom, room_lem, stored_lem}
use weenix_assignment.Ramfs.AddName.{plus_one, added}
use weenix_assignment.Ramfs.Create.{
  allocated, allocated_valid, links-allocated, IsPlace, Made, made_lem,
}

create_step :
    (s : Ramfs) (dir k ino : ℕ) (name : List ℕ) (inode : Inode) {s₁ s₂ : Ramfs}
    → space_for s dir name ≡ some (some k)
    → ramfs_alloc_inode s type_data 0 ≡ some (ino, s₁)
    → vget s₁ ino ≡ some s₂
    → s₂.rfs_inodes dir ≡ some inode
    → stored name ≡ name
    → ramfs_create s dir name
      ≡ some (ok ino, added s₂ dir k ino (inode.rf_size + dirent_size) name inode)
unfolding ramfs_create set_entry
create_step s dir k ino name inode {s₁} {s₂} space alloc got here whole =
    ground (arith, space, alloc, got, here, whole)

mknod_step :
    (s : Ramfs) (dir k ino devid : ℕ) (mode : Mode) (name : List ℕ) (inode : Inode) {s₁ : Ramfs}
    → is_device mode ≡ true
    → space_for s dir name ≡ some (some k)
    → ramfs_alloc_inode s mode devid ≡ some (ino, s₁)
    → s₁.rfs_inodes dir ≡ some inode
    → stored name ≡ name
    → ramfs_mknod s dir name mode devid
      ≡ some (ok tt, added s₁ dir k ino (inode.rf_size + dirent_size) name inode)
unfolding ramfs_mknod set_entry
mknod_step s dir k ino devid mode name inode {s₁} device space alloc here whole =
    ground (arith, device, space, alloc, here, whole)

full_step :
    (s : Ramfs) (dir devid : ℕ) (mode : Mode) (name : List ℕ)
    → space_for s dir name ≡ some none
    → (ramfs_create s dir name ≡ some (err enospc, s))
      × (ramfs_mknod s dir name mode devid ≡ some (err enospc, s))
unfolding ramfs_create ramfs_mknod
full_step s dir devid mode name space = (ground (arith, space), ground (arith, space))

no_inode_step :
    (s : Ramfs) (dir k devid : ℕ) (mode : Mode) (name : List ℕ)
    → space_for s dir name ≡ some (some k)
    → ((mode : Mode) (devid : ℕ) → ramfs_alloc_inode s mode devid ≡ none)
    → is_device mode ≡ true
    → (ramfs_create s dir name ≡ some (err enospc, s))
      × (ramfs_mknod s dir name mode devid ≡ some (err enospc, s))
unfolding ramfs_create ramfs_mknod
no_inode_step s dir k devid mode name space full device =
    (ground (arith, space, full type_data 0), ground (arith, device, space, full mode devid))

-- The new file behind its `vget`.
Made-file :
    (s : Ramfs) (dir k ino : ℕ) (name : List ℕ) (inode : Inode)
    → IsRamfs s
    → IsPlace s dir name inode
    → IsRoom s inode k ino
    → space_for s dir name ≡ some (some k)
    → (s' : Ramfs) × (ramfs_create s dir name ≡ some (ok ino, s'))
      × Made s s' dir ino name
      × ((f : Inode) × (s'.rfs_inodes ino ≡ some f) × (f.rf_mode ≡ type_data) × (f.rf_size ≡ 0))
      × ((w : ℕ) → vn_refs s' w ≡ vn_refs s w + (if ino == w then 1 else 0))
Made-file s dir k ino name inode v place room space =
    let s₁ : Ramfs = allocated s ino type_data 0 in
    let v₁ = allocated_valid s inode k ino type_data 0 v room in
    let at : s₁.rfs_inodes ino ≡ some (fresh ino type_data 0) = ground arith in
    let (s₂, got, t) = vget_lem s₁ (plus_one (links s) ino) ino (fresh ino type_data 0) v₁ at in
    let same : (i : ℕ) → links s₂ i ≡ links s i = λ i.
      links_same s₂ s₁ i
        (Taken-links s₁ s₂ (plus_one (links s) ino) ino i (fresh ino type_data 0) at t)
      ∙ links-allocated s inode k ino type_data 0 v room i in
    let size = inode.rf_size + dirent_size in
    let (here, made) =
      made_lem s s₂ dir k ino size 0 type_data name inode v place room t.valid t.apart same in
    let other : dir ≢ ino = λ e. ground (arith, e, room.none_there, place.here) in
    let (vn, opened, count) = t.more in
    (
      added s₂ dir k ino size name inode,
      create_step s dir k ino name inode space (room.alloc type_data 0) got here
          (stored_lem name place.short),
      made,
      (
        record (fresh ino type_data 0) { rf_linkcount = t.kept.0 },
        ground (arith, t.kept.1, other),
        refl,
        refl,
      ),
      λ w. elim (ℕ_discrete ino w) [
        | yes e ↦
            subst (λ w. vn_refs s₂ w ≡ vn_refs s w + (if ino == w then 1 else 0)) e
              (ground (arith, opened, count))
        | no ne ↦ ground (arith, ne, (t.apart w ne).1)
      ],
    )

-- Creating a file under a new name of at most 27 bytes, in a directory of a well-formed file system
-- that a link leads to: without a free entry or a free inode it is -ENOSPC and nothing changes; else a
-- new inode has the name, every other name outside of it stands for what it did, the file is empty, its
-- vnode has one reference more, no other has another number of them, and the file system is well
-- formed.
pub ramfs_create_lem :
    (s : Ramfs) (dir : ℕ) (name : List ℕ) (inode : Inode)
    → IsRamfs s
    → IsPlace s dir name inode
    → (ramfs_create s dir name ≡ some (err enospc, s)) × (IsFull inode ⊎ NoInode s)
      ⊎ (ino : ℕ) × (s' : Ramfs) × (ramfs_create s dir name ≡ some (ok ino, s'))
        × Made s s' dir ino name
        × ((f : Inode) × (s'.rfs_inodes ino ≡ some f) × (f.rf_mode ≡ type_data) × (f.rf_size ≡ 0))
        × ((w : ℕ) → vn_refs s' w ≡ vn_refs s w + (if ino == w then 1 else 0))
ramfs_create_lem s dir name inode v place =
    elim (room_lem s dir name inode place.here place.named place.new) [
      | inl (space, full) ↦ inl ((full_step s dir 0 type_data name space).0, inl full)
      | inr (k, space, _, _, inl (alloc, full)) ↦
          inl ((no_inode_step s dir k 0 type_chr name space alloc refl).0, inr full)
      | inr (k, space, _, _, inr (ino, room)) ↦
          (let (s', done, made, file, refs) = Made-file s dir k ino name inode v place room space in
            inr (ino, s', done, made, file, refs))
    ]

-- Making a device special file under a new name of at most 27 bytes, in a directory of a well-formed
-- file system that a link leads to: without a free entry or a free inode it is -ENOSPC and nothing
-- changes; else a new inode of that mode has the name, every other name stands for what it did, no
-- vnode changes, and the file system is well formed.
pub ramfs_mknod_lem :
    (s : Ramfs) (dir devid : ℕ) (mode : Mode) (name : List ℕ) (inode : Inode)
    → IsRamfs s
    → IsPlace s dir name inode
    → is_device mode ≡ true
    → (ramfs_mknod s dir name mode devid ≡ some (err enospc, s)) × (IsFull inode ⊎ NoInode s)
      ⊎ (ino : ℕ) × (s' : Ramfs) × (ramfs_mknod s dir name mode devid ≡ some (ok tt, s'))
        × Made s s' dir ino name
        × (s'.rfs_inodes ino ≡ some (fresh ino mode devid))
        × (s'.vnode ≡ s.vnode)
ramfs_mknod_lem s dir devid mode name inode v place device =
    elim (room_lem s dir name inode place.here place.named place.new) [
      | inl (space, full) ↦ inl ((full_step s dir devid mode name space).1, inl full)
      | inr (k, space, _, _, inl (alloc, full)) ↦
          inl ((no_inode_step s dir k devid mode name space alloc device).1, inr full)
      | inr (k, space, _, _, inr (ino, room)) ↦
          (let s₁ : Ramfs = allocated s ino mode devid in
            let size = inode.rf_size + dirent_size in
            let other : dir ≢ ino = λ e. ground (arith, e, room.none_there, place.here) in
            let (here, made) =
              made_lem s s₁ dir k ino size devid mode name inode v place room
                (allocated_valid s inode k ino mode devid v room) (λ j ne. (refl, refl))
                (links-allocated s inode k ino mode devid v room) in
            inr (
              ino,
              added s₁ dir k ino size name inode,
              mknod_step s dir k ino devid mode name inode device space (room.alloc mode devid) here
                  (stored_lem name place.short),
              made,
              ground (arith, other),
              refl,
            ))
    ]
