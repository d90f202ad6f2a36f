-- ===== src/Ramfs/Drop.antt =====
-- The end of `ramfs_unlink` and `ramfs_rmdir` of kernel/fs/ramfs/ramfs.c: the entry is cleared, the
-- link count lowered and the reference given back.
use weenix_assignment.Base.{
  sum_term, ℕ, ◌+◌, ◌-◌, ◌≤◌, ◌<◌, ◌≡◌, ◌≢◌, refl, ap, ◌∙◌, sym, true, some, List, [], arith, ◌==◌,
  if◌then◌else◌, ℕ_discrete,
}
use mathlib.Core.Path.{subst}
use weenix_assignment.Ramfs.State.{
  is_dir, Dirent, Inode, Vnode, Ramfs, ramfs_max_files, ramfs_max_dirent, put, set_inode,
}
use weenix_assignment.Ramfs.Vnodes.{vput}
use weenix_assignment.Ramfs.Entries.{find_name}
use weenix_assignment.Ramfs.Names.{set_entry, shrink, drop_name}
use weenix_assignment.Ramfs.NameMap.{Unique}
use weenix_assignment.Ramfs.Links.{entry_link, contents, contents-put, dir_links, links, links_same}
use weenix_assignment.Ramfs.Valid.{root, vn_refs, HasLinks, IsRamfs, relink}
use weenix_assignment.Ramfs.Refs.{counted, vput_lem}
use weenix_assignment.Ramfs.GiveBack.{Given-links}
use weenix_assignment.Ramfs.Update.{inode_at, dir_update, count_update, links-put}

abbrev pub clear : Dirent → Dirent
clear e = record e { rd_name = [] }

-- A directory without the entry `k`.
abbrev pub without : Inode → (k : ℕ) → Inode
without inode k = record inode {
  rf_entries = put inode.rf_entries k (clear (inode.rf_entries k));
  rf_size = shrink inode.rf_size;
}

-- The state before the reference is given back.
abbrev unlinked : Ramfs → (dir vno k : ℕ) → (inode f : Inode) → Ramfs
unlinked s dir vno k inode f =
    set_inode
      (set_inode
        (set_inode s dir (
          some (record inode { rf_entries = put inode.rf_entries k (clear (inode.rf_entries k)) })))
        dir (some (without inode k)))
      vno (some (counted f (f.rf_linkcount - 1)))

drop_step :
    (s : Ramfs) (dir vno k : ℕ) (name : List ℕ) (inode f : Inode)
    → s.rfs_inodes dir ≡ some inode
    → s.rfs_inodes vno ≡ some f
    → dir ≢ vno
    → find_name ramfs_max_dirent inode.rf_entries name 0 ≡ some k
    → drop_name s dir name vno ≡ vput (unlinked s dir vno k inode f) vno
unfolding drop_name set_entry
drop_step s dir vno k name inode f here there other found =
    ground (arith, here, there, other, found)

Unique-clear :
    (entries : ℕ → Dirent) (k : ℕ) → Unique entries → Unique (put entries k (clear (entries k)))
Unique-clear entries k unique i j hi hj same free = elim (ℕ_discrete k i) [
  | yes e ↦ absurd (free (ground (arith, e)))
  | no here ↦ elim (ℕ_discrete k j) [
    | yes e ↦ absurd (free (same ∙ ground (arith, e)))
    | no there ↦
        (let at_i : put entries k (clear (entries k)) i ≡ entries i = ground (arith, here) in
          let at_j : put entries k (clear (entries k)) j ≡ entries j = ground (arith, there) in
          unique i j hi hj (ap (λ e. e.rd_name) (sym at_i) ∙ same ∙ ap (λ e. e.rd_name) at_j)
            (λ empty. free (ap (λ e. e.rd_name) at_i ∙ empty)))
  ]
]

clear_less :
    (entries : ℕ → Dirent) (k ino : ℕ)
    → k < ramfs_max_dirent
    → contents (put entries k (clear (entries k))) ino ≤ contents entries ino
clear_less entries k ino h = ground (arith, contents-put entries k (clear (entries k)) ino h)

-- One link less of an inode.
abbrev pub minus_one : (ℕ → ℕ) → (vno i : ℕ) → ℕ
minus_one l vno i = l i - (if vno == i then 1 else 0)

module _ (s : Ramfs) (dir vno k : ℕ) (inode f : Inode) (v : IsRamfs s)
    (here : s.rfs_inodes dir ≡ some inode) (is : is_dir inode.rf_mode ≡ true)
    (there : s.rfs_inodes vno ≡ some f) (other : dir ≢ vno) (high : k < ramfs_max_dirent)
    (link : (ino : ℕ) → entry_link (inode.rf_entries k) ino ≡ (if vno == ino then 1 else 0))
    (vn : Vnode) (opened : s.vnode vno ≡ some vn)
    (empty : (j : ℕ) → contents f.rf_entries j ≡ 0) where
  some_link : 0 < links s vno
  unfolding links contents
  some_link =
      let p = inode_at s (links s) dir inode v here in
      let term = sum_term ramfs_max_dirent (λ j. entry_link (inode.rf_entries j) vno) k high in
      let row = sum_term ramfs_max_files (λ d. dir_links (s.rfs_inodes d) vno) dir p.below in
      let at : dir_links (s.rfs_inodes dir) vno ≡ contents inode.rf_entries vno =
        ap (λ o. dir_links o vno) here in
      ground (arith, term, row, at, link vno)

  unlinked_lem : HasLinks (unlinked s dir vno k inode f) (minus_one (links s) vno)
  unlinked_lem =
      let p = inode_at s (links s) dir inode v here in
      let q = inode_at s (links s) vno f v there in
      let entries = put inode.rf_entries k (clear (inode.rf_entries k)) in
      let cleared : Inode = record inode { rf_entries = entries } in
      let s₁ : Ramfs = set_inode s dir (some cleared) in
      let s₂ : Ramfs = set_inode s₁ dir (some (without inode k)) in
      let unique = Unique-clear inode.rf_entries k p.unique in
      let orphan : links s dir + root dir ≡ 0 → (j : ℕ) → contents entries j ≡ 0 =
        λ h j. omega (arith, clear_less inode.rf_entries k j high, p.orphan h j) in
      let v₁ = dir_update s (links s) dir inode entries inode.rf_size v here is unique orphan in
      let v₂ =
        dir_update s₁ (links s) dir cleared entries (shrink inode.rf_size) v₁ (ground arith) is
          unique orphan in
      count_update s₂ (links s) (minus_one (links s) vno) vno f (f.rf_linkcount - 1) v₂
        (ground (arith, there, other)) (λ j ne. ground (arith, ne))
        (ground (arith, q.linked, some_link)) (ground (arith, opened)) (λ h. empty)

  links-unlinked :
      (ino : ℕ) → links (unlinked s dir vno k inode f) ino ≡ minus_one (links s) vno ino
  links-unlinked ino =
      let p = inode_at s (links s) dir inode v here in
      let t = unlinked s dir vno k inode f in
      let change =
        links-put s t dir k ino inode (without inode k) (clear (inode.rf_entries k)) p.below high
          here (ground (arith, other)) refl
          (λ d ne. elim (ℕ_discrete vno d) [
            | yes e ↦
                subst (λ d. dir_links (t.rfs_inodes d) ino ≡ dir_links (s.rfs_inodes d) ino) e
                  (ap (λ o. dir_links o ino) (unlinked_at) ∙ sym (ap (λ o. dir_links o ino) there))
            | no ne' ↦ ap (λ o. dir_links o ino) (ground (arith, ne, ne'))
          ]) in
      ground (arith, change, link ino)
    where
      unlinked_at :
          (unlinked s dir vno k inode f).rfs_inodes vno ≡ some (counted f (f.rf_linkcount - 1))
      unlinked_at = ground arith

  -- What the end of a removal does: the vnode has a reference less.
  pub drop_name_lem :
      (name : List ℕ)
      → find_name ramfs_max_dirent inode.rf_entries name 0 ≡ some k
      → (s' : Ramfs) × (drop_name s dir name vno ≡ some s')
        × IsRamfs s'
        × (s'.rfs_inodes dir ≡ some (without inode k))
        × ((d : ℕ) → dir ≢ d → vno ≢ d → s'.rfs_inodes d ≡ s.rfs_inodes d)
        × ((w : ℕ) → vn_refs s' w + (if vno == w then 1 else 0) ≡ vn_refs s w)
        × ((ino : ℕ) → links s' ino ≡ minus_one (links s) vno ino)
  drop_name_lem name found =
      let t = unlinked s dir vno k inode f in
      let m = minus_one (links s) vno in
      let (f', s', at, done, g) = vput_lem t m vno vn unlinked_lem opened in
      let same : (ino : ℕ) → links s' ino ≡ minus_one (links s) vno ino =
        λ ino. links_same s' t ino (Given-links t s' m vno ino f' at g) ∙ links-unlinked ino in
      (
        s',
        drop_step s dir vno k name inode f here there other found ∙ done,
        relink s' g.valid (λ ino. sym (same ino)),
        sym (g.apart dir (λ e. other (sym e))).0 ∙ ground (arith, other),
        λ d ne ne'. sym (g.apart d ne').0 ∙ ground (arith, ne, ne'),
        λ w. elim (ℕ_discrete vno w) [
          | yes e ↦
              subst (λ w. vn_refs s' w + (if vno == w then 1 else 0) ≡ vn_refs s w) e
                (ground (arith, g.less))
          | no ne ↦ ground (arith, ne, (g.apart w ne).1)
        ],
        same,
      )
