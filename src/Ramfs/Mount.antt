-- ===== src/Ramfs/Mount.antt =====
-- `ramfs_mount` of kernel/fs/ramfs/ramfs.c gives a well-formed file system.
use weenix_assignment.Base.{
  sum_zero, ℕ, zero, suc, ◌≡◌, refl, ap, ◌∙◌, sym, none, some, List, arith, ◌>>=◌, ℕ_discrete,
}
use mathlib.Core.Path.{subst}
use weenix_assignment.Ramfs.State.{type_dir, Inode, Ramfs, ramfs_max_files, set_inode}
use weenix_assignment.Ramfs.Vnodes.{vget}
use weenix_assignment.Ramfs.Entries.{dot, dot_dot, free_inode, ramfs_alloc_inode}
use weenix_assignment.Ramfs.Dirs.{set_dots, no_files, ramfs_mount}
use weenix_assignment.Ramfs.NameMap.{ino_of, names}
use weenix_assignment.Ramfs.Links.{dir_links, links, links_same}
use weenix_assignment.Ramfs.Valid.{root, vn_refs, Slot, HasLinks, IsRamfs, Slot-subst, relink}
use weenix_assignment.Ramfs.Refs.{counted, vget_lem}
use weenix_assignment.Ramfs.GiveBack.{Taken-links}
use weenix_assignment.Ramfs.Create.{allocated}
use weenix_assignment.Ramfs.Mkdir.{new_dir, contents-dots, Unique-dots, dot_at, dot_dot_at}

-- The root alone.
abbrev root_only : Ramfs
root_only = set_inode (allocated no_files 0 type_dir 0) 0 (some (new_dir 0 0))

empty_at : (i : ℕ) → root_only.rfs_inodes (suc i) ≡ none
unfolding no_files
empty_at i = ground arith

root-Slot : (i : ℕ) → Slot i 0 (root_only.rfs_inodes i) (root_only.vnode i)
unfolding no_files
root-Slot zero = record {
  numbered = refl;
  below = ground arith;
  linked = refl;
  alive = ground arith;
  unique = Unique-dots 0 0;
  plain = λ h. absurd (ground (arith, h));
  orphan = λ h. contents-dots 0 0;
}
root-Slot (suc i) =
    Slot-subst (suc i) {l = 0} {m = 0} {x = none} {y = none} {y' = none} refl (sym (empty_at i))
      refl (refl, omega arith)

root_links : (i : ℕ) → links root_only i ≡ 0
unfolding links no_files
root_links i = sum_zero ramfs_max_files (λ d. dir_links (root_only.rfs_inodes d) i) (λ d h. row d)
  where
    row : (d : ℕ) → dir_links (root_only.rfs_inodes d) i ≡ 0
    row zero = contents-dots 0 0 i
    row (suc d) = ap (λ o. dir_links o i) (empty_at d)

named_lem :
    (s t : Ramfs) (d c : ℕ) (name : List ℕ) (inode inode' : Inode)
    → s.rfs_inodes d ≡ some inode
    → t.rfs_inodes c ≡ some inode'
    → inode.rf_entries ≡ inode'.rf_entries
    → names s d name ≡ names t c name
unfolding names
named_lem s t d c name inode inode' a b same =
    ap (λ o. o >>= λ inode. ino_of inode.rf_entries name) a
    ∙ ap (λ f. ino_of f name) same
    ∙ sym (ap (λ o. o >>= λ inode. ino_of inode.rf_entries name) b)

mount_step : ramfs_mount ≡ vget root_only 0
unfolding ramfs_mount set_dots ramfs_alloc_inode free_inode no_files
mount_step = refl

-- Mounting gives a well-formed file system whose root is its own parent, with one reference of its vnode
-- and no other vnode in use.
pub ramfs_mount_lem :
    (s : Ramfs) × (ramfs_mount ≡ some s)
    × IsRamfs s
    × (names s 0 dot ≡ some 0)
    × (names s 0 dot_dot ≡ some 0)
    × ((w : ℕ) → vn_refs s w ≡ root w)
unfolding no_files
ramfs_mount_lem =
    let v : HasLinks root_only (λ _. 0) = record { slot = root-Slot } in
    let (s, done, t) = vget_lem root_only (λ _. 0) 0 (new_dir 0 0) v refl in
    let same : (i : ℕ) → links s i ≡ 0 = λ i.
      links_same s root_only i (Taken-links root_only s (λ _. 0) 0 i (new_dir 0 0) refl t)
      ∙ root_links i in
    let (count, at) = t.kept in
    let (vn, there, refs) = t.more in
    (
      s,
      mount_step ∙ done,
      relink s t.valid (λ i. sym (same i)),
      counted_names s 0 count dot at ∙ dot_at root_only 0 0 refl,
      counted_names s 0 count dot_dot at ∙ dot_dot_at root_only 0 0 refl,
      λ w. elim (ℕ_discrete 0 w) [
        | yes e ↦ subst (λ w. vn_refs s w ≡ root w) e (ground (arith, there, refs))
        | no ne ↦ ground (arith, ne, (t.apart w ne).1)
      ],
    )
  where
    counted_names :
        (s : Ramfs) (d count : ℕ) (name : List ℕ)
        → s.rfs_inodes d ≡ some (counted (new_dir 0 0) count)
        → names s d name ≡ names root_only 0 name
    counted_names s d count name at =
        named_lem s root_only d 0 name (counted (new_dir 0 0) count) (new_dir 0 0) at refl refl
