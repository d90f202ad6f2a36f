-- ===== src/Ramfs/Unlink.antt =====
-- `ramfs_unlink` of kernel/fs/ramfs/ramfs.c takes one name from the map of names.
use weenix_assignment.Base.{
  ℕ, ◌-◌, ◌≡◌, ◌≢◌, ap, ◌∙◌, sym, true, false, ◌&&◌, none, some, List, arith, ◌==◌, if◌then◌else◌,
  ◌>>=◌, ℕ_discrete, ok,
}
use mathlib.Core.Path.{subst}
use weenix_assignment.Ramfs.State.{is_dir, Inode, Ramfs}
use weenix_assignment.Ramfs.Entries.{name_match}
use weenix_assignment.Ramfs.Names.{is_name, ramfs_lookup, drop_name, mode_is_dir, ramfs_unlink}
use weenix_assignment.Ramfs.NameMap.{ino_of, names, ino_of_clear}
use weenix_assignment.Ramfs.Links.{is_dots, contents, contents_free, links}
use weenix_assignment.Ramfs.Valid.{IsRamfs, vn_refs}
use weenix_assignment.Ramfs.Refs.{counted, Taken}
use weenix_assignment.Ramfs.Update.{inode_at}
use weenix_assignment.Ramfs.Found.{IsEntry, names-IsEntry, entry_link_lem, lookup_lem}
use weenix_assignment.Ramfs.Drop.{without, minus_one, drop_name_lem}

-- The map of names without a name of a directory, but for the names in the inode `vno`.
abbrev pub Unnamed : Ramfs → Ramfs → (dir vno : ℕ) → List ℕ → Type 0
Unnamed s s' dir vno name =
    (d : ℕ) (other : List ℕ)
    → vno ≢ d
    → is_name other ≡ true
    → names s' d other ≡ (if dir == d && name_match name other then none else names s d other)

-- Cleared entries leave the names of the map.
without_names :
    (s s' : Ramfs) (dir vno k : ℕ) (name : List ℕ) (inode : Inode)
    → IsRamfs s
    → s.rfs_inodes dir ≡ some inode
    → is_name name ≡ true
    → IsEntry inode.rf_entries name vno k
    → s'.rfs_inodes dir ≡ some (without inode k)
    → ((d : ℕ) → dir ≢ d → vno ≢ d → s'.rfs_inodes d ≡ s.rfs_inodes d)
    → Unnamed s s' dir vno name
unfolding names
without_names s s' dir vno k name inode v here h e cleared rest d other ne named =
    elim (ℕ_discrete dir d) [
      | yes same ↦
          (let p = inode_at s (links s) dir inode v here in
            let law = ino_of_clear inode.rf_entries k name other p.unique e.high e.named h named in
            let old : names s dir other ≡ ino_of inode.rf_entries other =
              ap (λ o. o >>= λ inode. ino_of inode.rf_entries other) here in
            let new = ap (λ o. o >>= λ inode. ino_of inode.rf_entries other) cleared in
            subst
              (λ d.
                names s' d other
                ≡ (if dir == d && name_match name other then none else names s d other))
              same (new ∙ law ∙ ground (arith, old)))
      | no differ ↦
          ap (λ o. o >>= λ inode. ino_of inode.rf_entries other) (rest d differ ne)
          ∙ ground (arith, differ)
    ]

-- From a taken reference on, the entry goes and the reference is given back.
pub take_drop :
    (s s₁ : Ramfs) (dir vno k : ℕ) (name : List ℕ) (inode f : Inode)
    → IsRamfs s
    → s.rfs_inodes dir ≡ some inode
    → is_dir inode.rf_mode ≡ true
    → is_name name ≡ true
    → is_dots name ≡ false
    → IsEntry inode.rf_entries name vno k
    → dir ≢ vno
    → IsRamfs s₁
    → Taken s s₁ (links s) vno f
    → ((ino : ℕ) → links s₁ ino ≡ links s ino)
    → ((j : ℕ) → contents f.rf_entries j ≡ 0)
    → (s' : Ramfs) × (drop_name s₁ dir name vno ≡ some s')
      × IsRamfs s'
      × Unnamed s s' dir vno name
      × ((ino : ℕ) → links s' ino ≡ minus_one (links s) vno ino)
      × ((w : ℕ) → vn_refs s' w ≡ vn_refs s w)
take_drop s s₁ dir vno k name inode f v here is h dots e other v₁ t same empty =
    let (count, there) = t.kept in
    let (vn, opened, refs) = t.more in
    let here₁ : s₁.rfs_inodes dir ≡ some inode =
      sym (t.apart dir (λ eq. other (sym eq))).0 ∙ here in
    let (s', done, v', cleared, rest, given, fewer) =
      drop_name_lem s₁ dir vno k inode (counted f count) v₁ here₁ is there other e.high
        (λ ino. entry_link_lem ino e h dots) vn opened empty name e.found in
    (
      s',
      done,
      v',
      without_names s s' dir vno k name inode v here h e cleared
          (λ d ne ne'. rest d ne ne' ∙ sym (t.apart d ne').0),
      λ ino. fewer ino ∙ ap (λ n. n - (if vno == ino then 1 else 0)) (same ino),
      λ w. elim (ℕ_discrete vno w) [
        | yes eq ↦
            subst (λ w. vn_refs s' w ≡ vn_refs s w) eq (ground (arith, given vno, opened, refs))
        | no ne ↦ ground (arith, given w, ne, (t.apart w ne).1)
      ],
    )

unlink_step :
    (s : Ramfs) (dir vno : ℕ) (name : List ℕ) {s₁ s₂ : Ramfs}
    → ramfs_lookup s dir name ≡ some (ok vno, s₁)
    → mode_is_dir s₁ vno ≡ false
    → drop_name s₁ dir name vno ≡ some s₂
    → ramfs_unlink s dir name ≡ some (ok tt, s₂)
unfolding ramfs_unlink
unlink_step s dir vno name {s₁} {s₂} looked file dropped = ground (arith, looked, file, dropped)

-- In a well-formed file system, unlinking a name of a directory that stands for a file (and is not "."
-- or "..") succeeds: the name stands for nothing, every other name outside of the file for what it did,
-- the file has a link less, no vnode has another number of references, and the file system is well
-- formed.
pub ramfs_unlink_lem :
    (s : Ramfs) (dir vno : ℕ) (name : List ℕ) (inode f : Inode)
    → IsRamfs s
    → s.rfs_inodes dir ≡ some inode
    → is_dir inode.rf_mode ≡ true
    → is_name name ≡ true
    → is_dots name ≡ false
    → names s dir name ≡ some vno
    → s.rfs_inodes vno ≡ some f
    → is_dir f.rf_mode ≡ false
    → (s' : Ramfs) × (ramfs_unlink s dir name ≡ some (ok tt, s'))
      × IsRamfs s'
      × Unnamed s s' dir vno name
      × ((ino : ℕ) → links s' ino ≡ minus_one (links s) vno ino)
      × ((w : ℕ) → vn_refs s' w ≡ vn_refs s w)
ramfs_unlink_lem s dir vno name inode f v here is h dots bound there file =
    let (k, e) = names-IsEntry s dir name vno inode here bound in
    let q = inode_at s (links s) vno f v there in
    let other : dir ≢ vno = λ eq. ground (arith, here, there, eq, is, file) in
    let (s₁, looked, v₁, t, same, mode) = lookup_lem s dir vno k name inode f v here h e there in
    let (s', done, v', gone, fewer, refs) =
      take_drop s s₁ dir vno k name inode f v here is h dots e other v₁ t same
        (λ j. contents_free f.rf_entries j (q.plain file)) in
    (s', unlink_step s dir vno name looked (mode ∙ file) done, v', gone, fewer, refs)
