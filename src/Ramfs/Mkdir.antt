-- ===== src/Ramfs/Mkdir.antt =====
-- `ramfs_mkdir` and `ramfs_mount` of kernel/fs/ramfs/ramfs.c.
use weenix_assignment.Base.{
  sum_zero, ℕ, zero, suc, ◌+◌, ◌*◌, ◌≡◌, ◌≢◌, refl, ap, ◌∙◌, sym, none, some, List, [], arith,
  ◌>>=◌, inl, inr, ◌⊎◌, ℕ_discrete, ok, err, enospc,
}
use mathlib.Core.Path.{subst}
use weenix_assignment.Ramfs.State.{
  type_dir, Dirent, Inode, Ramfs, ramfs_max_dirent, dirent_size, set_inode,
}
use weenix_assignment.Ramfs.Entries.{name_match, stored, ramfs_alloc_inode, dot, dot_dot, find_name}
use weenix_assignment.Ramfs.Names.{set_entry, space_for}
use weenix_assignment.Ramfs.Dirs.{dots, set_dots, ramfs_mkdir}
use weenix_assignment.Ramfs.NameMap.{Unique, names, ino_of}
use weenix_assignment.Ramfs.Links.{
  entry_link, contents, contents_free, dir_links, links, links_same,
}
use weenix_assignment.Ramfs.Valid.{used, IsRamfs, relink}
use weenix_assignment.Ramfs.Update.{dir_update}
use weenix_assignment.Ramfs.Room.{fresh, IsFull, NoInode, room_lem, stored_lem}
use weenix_assignment.Ramfs.AddName.{added}
use weenix_assignment.Ramfs.Create.{
  allocated, allocated_valid, links-allocated, IsPlace, Made, made_lem, names_at,
}

abbrev no_entries : ℕ → Dirent
no_entries _ = record { rd_ino = 0; rd_name = [] }

-- The inode of a new directory.
abbrev pub new_dir : (ino parent : ℕ) → Inode
new_dir ino parent = record (fresh ino type_dir 0) {
  rf_entries = dots ino parent no_entries;
  rf_size = 2 * dirent_size;
}

dots_link : (self parent i j : ℕ) → entry_link (dots self parent no_entries j) i ≡ 0
unfolding name_match
dots_link self parent i zero = refl
dots_link self parent i (suc zero) = refl
dots_link self parent i (suc (suc j)) = ground arith

pub contents-dots : (self parent i : ℕ) → contents (dots self parent no_entries) i ≡ 0
unfolding contents
contents-dots self parent i =
    sum_zero ramfs_max_dirent (λ j. entry_link (dots self parent no_entries j) i)
      (λ j h. dots_link self parent i j)

pub Unique-dots : (self parent : ℕ) → Unique (dots self parent no_entries)
Unique-dots self parent i j hi hj same used = ground (arith, same, used)

mkdir_step :
    (s : Ramfs) (dir k ino : ℕ) (name : List ℕ) (inode : Inode)
    → space_for s dir name ≡ some (some k)
    → ramfs_alloc_inode s type_dir 0 ≡ some (ino, allocated s ino type_dir 0)
    → s.rfs_inodes dir ≡ some inode
    → dir ≢ ino
    → stored name ≡ name
    → ramfs_mkdir s dir name
      ≡ some (
        ok tt,
        set_inode
            (added (allocated s ino type_dir 0) dir k ino (inode.rf_size + dirent_size) name inode)
            ino
            (some (new_dir ino dir)),
      )
unfolding ramfs_mkdir set_entry set_dots
mkdir_step s dir k ino name inode space alloc here other whole =
    ground (arith, space, alloc, here, other, whole)

mkdir_full_step :
    (s : Ramfs) (dir : ℕ) (name : List ℕ)
    → space_for s dir name ≡ some none
    → ramfs_mkdir s dir name ≡ some (err enospc, s)
unfolding ramfs_mkdir
mkdir_full_step s dir name space = ground (arith, space)

mkdir_no_inode_step :
    (s : Ramfs) (dir k : ℕ) (name : List ℕ)
    → space_for s dir name ≡ some (some k)
    → ramfs_alloc_inode s type_dir 0 ≡ none
    → ramfs_mkdir s dir name ≡ some (err enospc, s)
unfolding ramfs_mkdir
mkdir_no_inode_step s dir k name space full = ground (arith, space, full)

dots_names :
    (self parent : ℕ)
    → (ino_of (dots self parent no_entries) dot ≡ some self)
      × (ino_of (dots self parent no_entries) dot_dot ≡ some parent)
unfolding ino_of find_name name_match
dots_names self parent = (refl, refl)

pub dot_at :
    (s : Ramfs) (ino parent : ℕ)
    → s.rfs_inodes ino ≡ some (new_dir ino parent)
    → names s ino dot ≡ some ino
unfolding names
dot_at s ino parent at =
    ap (λ o. o >>= λ inode. ino_of inode.rf_entries dot) at ∙ (dots_names ino parent).0

pub dot_dot_at :
    (s : Ramfs) (ino parent : ℕ)
    → s.rfs_inodes ino ≡ some (new_dir ino parent)
    → names s ino dot_dot ≡ some parent
unfolding names
dot_dot_at s ino parent at =
    ap (λ o. o >>= λ inode. ino_of inode.rf_entries dot_dot) at ∙ (dots_names ino parent).1

-- "." and ".." written in an inode of no links.
with_dots :
    (t : Ramfs) (ino parent : ℕ)
    → IsRamfs t
    → t.rfs_inodes ino ≡ some (fresh ino type_dir 0)
    → let s' = set_inode t ino (some (new_dir ino parent)) in
      IsRamfs s' × ((i : ℕ) → links s' i ≡ links t i)
with_dots t ino parent v at =
    let s' : Ramfs = set_inode t ino (some (new_dir ino parent)) in
    let now : (i : ℕ) → dir_links (s'.rfs_inodes ino) i ≡ 0 =
      λ i. ap (λ o. dir_links o i) (dots_at t ino parent) ∙ contents-dots ino parent i in
    let was : (i : ℕ) → dir_links (t.rfs_inodes ino) i ≡ 0 =
      λ i. ap (λ o. dir_links o i) at ∙ contents_free no_entries i (λ j. refl) in
    let same : (i : ℕ) → links s' i ≡ links t i = λ i. links_same s' t i (λ d.
      elim (ℕ_discrete ino d) [
        | yes e ↦
            subst (λ d. dir_links (s'.rfs_inodes d) i ≡ dir_links (t.rfs_inodes d) i) e
              (now i ∙ sym (was i))
        | no ne ↦ ap (λ o. dir_links o i) (ground (arith, ne))
      ]) in
    let valid =
      dir_update t (links t) ino (fresh ino type_dir 0) (dots ino parent no_entries)
        (2 * dirent_size) v at refl (Unique-dots ino parent) (λ h. contents-dots ino parent) in
    (relink s' valid (λ i. sym (same i)), same)
  where
    dots_at :
        (t : Ramfs) (ino parent : ℕ)
        → (set_inode t ino (some (new_dir ino parent))).rfs_inodes ino ≡ some (new_dir ino parent)
    dots_at t ino parent = ground arith

-- Making a directory under a new name of at most 27 bytes, in a directory of a well-formed file system
-- that a link leads to: without a free entry or a free inode it is -ENOSPC and nothing changes; else a
-- new directory has the name, with "." for itself and ".." for its parent, every other name stands for
-- what it did, no vnode changes, and the file system is well formed.
pub ramfs_mkdir_lem :
    (s : Ramfs) (dir : ℕ) (name : List ℕ) (inode : Inode)
    → IsRamfs s
    → IsPlace s dir name inode
    → (ramfs_mkdir s dir name ≡ some (err enospc, s)) × (IsFull inode ⊎ NoInode s)
      ⊎ (ino : ℕ) × (s' : Ramfs) × (ramfs_mkdir s dir name ≡ some (ok tt, s'))
        × Made s s' dir ino name
        × (names s' ino dot ≡ some ino)
        × (names s' ino dot_dot ≡ some dir)
        × (s'.vnode ≡ s.vnode)
        × (s'.rfs_inodes ino ≡ some (new_dir ino dir))
ramfs_mkdir_lem s dir name inode v place =
    elim (room_lem s dir name inode place.here place.named place.new) [
      | inl (space, full) ↦ inl (mkdir_full_step s dir name space, inl full)
      | inr (k, space, _, _, inl (alloc, full)) ↦
          inl (mkdir_no_inode_step s dir k name space (alloc type_dir 0), inr full)
      | inr (k, space, _, _, inr (ino, room)) ↦
          (let s₁ : Ramfs = allocated s ino type_dir 0 in
            let size = inode.rf_size + dirent_size in
            let t : Ramfs = added s₁ dir k ino size name inode in
            let s' : Ramfs = set_inode t ino (some (new_dir ino dir)) in
            let other : dir ≢ ino = λ e. ground (arith, e, room.none_there, place.here) in
            let (here, made) =
              made_lem s s₁ dir k ino size 0 type_dir name inode v place room
                (allocated_valid s inode k ino type_dir 0 v room) (λ j ne. (refl, refl))
                (links-allocated s inode k ino type_dir 0 v room) in
            let (valid, same) = with_dots t ino dir made.valid (ground (arith, other)) in
            let at : s'.rfs_inodes ino ≡ some (new_dir ino dir) = ground arith in
            inr (
              ino,
              s',
              mkdir_step s dir k ino name inode space (room.alloc type_dir 0) place.here other
                  (stored_lem name place.short),
              record {
                valid = valid;
                unused = made.unused;
                names_law = λ d n ne named.
                    names_at s' t d n (ground (arith, ne)) ∙ made.names_law d n ne named;
                links_law = λ i. same i ∙ made.links_law i;
              },
              dot_at s' ino dir at,
              dot_dot_at s' ino dir at,
              refl,
              at,
            ))
    ]
