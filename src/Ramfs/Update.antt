-- ===== src/Ramfs/Update.antt =====
-- Writes to one inode of kernel/fs/ramfs/ramfs.c: an entry of a directory, and a link count.
use weenix_assignment.Base.{
  ℕ, ◌+◌, ◌<◌, ◌≡◌, ◌≢◌, refl, ap, ◌∙◌, sym, true, none, some, arith, if◌then◌else◌, is_some, inl,
  inr, Option-cases,
}
use mathlib.Core.Path.{subst}
use weenix_assignment.Ramfs.State.{
  is_dir, Dirent, Inode, Ramfs, ramfs_max_files, ramfs_max_dirent, put, set_inode,
}
use weenix_assignment.Ramfs.NameMap.{Unique}
use weenix_assignment.Ramfs.Links.{
  entry_link, contents, contents-put, dir_links, links, links_change,
}
use weenix_assignment.Ramfs.Valid.{root, used, IsInode, HasLinks, Slot-at, Apart, update_lem}
use weenix_assignment.Ramfs.Refs.{counted}

-- What is known of an inode, whether its vnode is in use or not.
pub inode_at :
    (s : Ramfs) (l : ℕ → ℕ) (i : ℕ) (inode : Inode)
    → HasLinks s l
    → s.rfs_inodes i ≡ some inode
    → IsInode i (l i) (used s i) inode
inode_at s l i inode v here = elim (Option-cases (s.vnode i)) [
  | inl idle ↦
      subst (λ y. IsInode i (l i) (if is_some y then 1 else 0) inode) (sym idle)
        (Slot-at s l i v here idle)
  | inr (vn, e) ↦
      subst (λ y. IsInode i (l i) (if is_some y then 1 else 0) inode) (sym e)
        (Slot-at s l i v here e).0
]

-- Another inode of the same type.
pub inode_update :
    (s : Ramfs) (l m : ℕ → ℕ) (i : ℕ) (inode inode' : Inode)
    → HasLinks s l
    → s.rfs_inodes i ≡ some inode
    → ((j : ℕ) → i ≢ j → l j ≡ m j)
    → inode'.rf_mode ≡ inode.rf_mode
    → IsInode i (m i) (used s i) inode'
    → HasLinks (set_inode s i (some inode')) m
inode_update s l m i inode inode' v here same mode p =
    let s' : Ramfs = set_inode s i (some inode') in
    let apart : Apart i s s' = λ j other. (ground (arith, other), refl) in
    elim (Option-cases (s.vnode i)) [
      | inl idle ↦
          update_lem s s' l m i {x = some inode'} {y = none} v apart same (ground arith) idle
            (subst (λ y. IsInode i (m i) (if is_some y then 1 else 0) inode') idle p)
      | inr (vn, e) ↦
          (let q = (Slot-at s l i v here e).1 in
            update_lem s s' l m i {x = some inode'} {y = some vn} v apart same (ground arith) e (
              subst (λ y. IsInode i (m i) (if is_some y then 1 else 0) inode') e p,
              record { held = q.held; same_mode = q.same_mode ∙ sym mode },
            ))
    ]

-- Other entries and another size of a directory.
pub dir_update :
    (s : Ramfs) (l : ℕ → ℕ) (dir : ℕ) (inode : Inode) (entries : ℕ → Dirent) (size : ℕ)
    → HasLinks s l
    → s.rfs_inodes dir ≡ some inode
    → is_dir inode.rf_mode ≡ true
    → Unique entries
    → (l dir + root dir ≡ 0 → (j : ℕ) → contents entries j ≡ 0)
    → HasLinks (set_inode s dir (some (record inode { rf_entries = entries; rf_size = size }))) l
dir_update s l dir inode entries size v here is unique orphan =
    let p = inode_at s l dir inode v here in
    inode_update s l l dir inode (record inode { rf_entries = entries; rf_size = size }) v here
      (λ j other. refl) refl
      (record {
        numbered = p.numbered;
        below = p.below;
        linked = p.linked;
        alive = p.alive;
        unique = unique;
        plain = λ h. absurd (ground (arith, is, h));
        orphan = orphan;
      })

-- Another link count.
pub count_update :
    (s : Ramfs) (l m : ℕ → ℕ) (i : ℕ) (inode : Inode) (count : ℕ)
    → HasLinks s l
    → s.rfs_inodes i ≡ some inode
    → ((j : ℕ) → i ≢ j → l j ≡ m j)
    → count ≡ m i + used s i + root i
    → 0 < m i + used s i + root i
    → (m i + root i ≡ 0 → (j : ℕ) → contents inode.rf_entries j ≡ 0)
    → HasLinks (set_inode s i (some (counted inode count))) m
count_update s l m i inode count v here same linked alive orphan =
    let p = inode_at s l i inode v here in
    inode_update s l m i inode (counted inode count) v here same refl (record {
      numbered = p.numbered;
      below = p.below;
      linked = linked;
      alive = alive;
      unique = p.unique;
      plain = p.plain;
      orphan = orphan;
    })

-- The links of a state in which one entry of a directory is another.
pub links-put :
    (s t : Ramfs) (dir k ino : ℕ) (inode inode' : Inode) (e : Dirent)
    → dir < ramfs_max_files
    → k < ramfs_max_dirent
    → s.rfs_inodes dir ≡ some inode
    → t.rfs_inodes dir ≡ some inode'
    → inode'.rf_entries ≡ put inode.rf_entries k e
    → ((d : ℕ) → dir ≢ d → dir_links (t.rfs_inodes d) ino ≡ dir_links (s.rfs_inodes d) ino)
    → links t ino + entry_link (inode.rf_entries k) ino ≡ links s ino + entry_link e ino
links-put s t dir k ino inode inode' e h hk here here' same rest =
    let change = links_change t s dir ino h rest in
    let old : dir_links (s.rfs_inodes dir) ino ≡ contents inode.rf_entries ino =
      ap (λ o. dir_links o ino) here in
    let new : dir_links (t.rfs_inodes dir) ino ≡ contents (put inode.rf_entries k e) ino =
      ap (λ o. dir_links o ino) here' ∙ ap (λ f. contents f ino) same in
    omega (arith, change, old, new, contents-put inode.rf_entries k e ino hk)
