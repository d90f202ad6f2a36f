-- ===== src/Ramfs/Valid.antt =====
-- The well-formed states of kernel/fs/ramfs/ramfs.c, and that `vget` and `vput` of kernel/fs/vnode.c
-- keep them.
use weenix_assignment.Base.{
  ℕ, ◌+◌, ◌<◌, ◌≡◌, ◌≢◌, refl, sym, false, Option, none, some, [], arith, ◌==◌, if◌then◌else◌,
  is_some, inl, inr, Option-cases, ℕ_discrete,
}
use mathlib.Core.Path.{subst}
use weenix_assignment.Ramfs.State.{is_dir, Inode, Vnode, Ramfs, ramfs_max_files, set_vnode}
use weenix_assignment.Ramfs.Vnodes.{vref}
use weenix_assignment.Ramfs.NameMap.{Unique}
use weenix_assignment.Ramfs.Links.{contents, links}

-- The file system holds its root.
abbrev pub root : ℕ → ℕ
root i = if i == 0 then 1 else 0

-- A vnode in use holds its inode.
abbrev pub used : Ramfs → ℕ → ℕ
used s i = if is_some (s.vnode i) then 1 else 0

abbrev pub vn_refs : Ramfs → ℕ → ℕ
vn_refs s v = elim (s.vnode v) [ none ↦ 0 | some vn ↦ vn.vn_refcount ]

-- The inode `i`, where `l` links lead to it and `u` is 1 if its vnode is in use.
pub record IsInode (i l u : ℕ) (inode : Inode) : Type 0 where
  pub numbered : inode.rf_ino ≡ i
  pub below : i < ramfs_max_files
  pub linked : inode.rf_linkcount ≡ l + u + root i
  -- Without a link and a vnode in use it would have been freed.
  pub alive : 0 < l + u + root i
  pub unique : Unique inode.rf_entries
  -- Only a directory has entries, and a directory that no link leads to has none.
  pub plain : is_dir inode.rf_mode ≡ false → (j : ℕ) → (inode.rf_entries j).rd_name ≡ []
  pub orphan : l + root i ≡ 0 → (j : ℕ) → contents inode.rf_entries j ≡ 0

-- The vnode of an inode.
pub record IsVnode (inode : Inode) (vn : Vnode) : Type 0 where
  pub held : 0 < vn.vn_refcount
  pub same_mode : vn.vn_mode ≡ inode.rf_mode

-- The inode and the vnode of the number `i`, to which `l` links lead. The root is always there.
abbrev pub Slot : (i l : ℕ) → Option Inode → Option Vnode → Type 0
Slot i l none none = (l ≡ 0) × (0 < i)
Slot i l none (some vn) = ⊥
Slot i l (some inode) none = IsInode i l 0 inode
Slot i l (some inode) (some vn) = IsInode i l 1 inode × IsVnode inode vn

-- A state with `l i` links to the inode `i`.
pub record HasLinks (s : Ramfs) (l : ℕ → ℕ) : Type 0 where
  pub slot : (i : ℕ) → Slot i (l i) (s.rfs_inodes i) (s.vnode i)

-- Every link count is the number of links, one more for a vnode in use, one more for the root.
abbrev pub IsRamfs : Ramfs → Type 0
IsRamfs s = HasLinks s (links s)

pub Slot-subst :
    (i : ℕ) {l m : ℕ} {x x' : Option Inode} {y y' : Option Vnode}
    → l ≡ m
    → x ≡ x'
    → y ≡ y'
    → Slot i l x y
    → Slot i m x' y'
Slot-subst i {l} {m} {x} {x'} {y} {y'} e ex ey a =
    subst (λ z. Slot i m x' z) ey (subst (λ z. Slot i m z y) ex (subst (λ z. Slot i z x y) e a))

pub relink : (s : Ramfs) {l m : ℕ → ℕ} → HasLinks s l → ((i : ℕ) → l i ≡ m i) → HasLinks s m
relink s v same = record { slot = λ i. Slot-subst i (same i) refl refl (v.slot i) }

-- What a state has at a number.
pub Slot-at :
    (s : Ramfs) (l : ℕ → ℕ) (i : ℕ) {x : Option Inode} {y : Option Vnode}
    → HasLinks s l
    → s.rfs_inodes i ≡ x
    → s.vnode i ≡ y
    → Slot i (l i) x y
Slot-at s l i v ex ey = Slot-subst i refl ex ey (v.slot i)

-- Two states that are the same but at the number `i`.
abbrev pub Apart : (i : ℕ) → Ramfs → Ramfs → Type 0
Apart i s t = (j : ℕ) → i ≢ j → (s.rfs_inodes j ≡ t.rfs_inodes j) × (s.vnode j ≡ t.vnode j)

pub update_lem :
    (s t : Ramfs) (l m : ℕ → ℕ) (i : ℕ) {x : Option Inode} {y : Option Vnode}
    → HasLinks s l
    → Apart i s t
    → ((j : ℕ) → i ≢ j → l j ≡ m j)
    → t.rfs_inodes i ≡ x
    → t.vnode i ≡ y
    → Slot i (m i) x y
    → HasLinks t m
update_lem s t l m i v apart same ex ey here = record {
  slot = λ j. elim (ℕ_discrete i j) [
    | yes e ↦
        subst (λ j. Slot j (m j) (t.rfs_inodes j) (t.vnode j)) e
          (Slot-subst i refl (sym ex) (sym ey) here)
    | no other ↦ Slot-subst j (same j other) (apart j other).0 (apart j other).1 (v.slot j)
  ];
}

-- The inode of a vnode in use.
pub inode_of :
    (s : Ramfs) (l : ℕ → ℕ) (i : ℕ) (vn : Vnode)
    → HasLinks s l
    → s.vnode i ≡ some vn
    → (inode : Inode) × (s.rfs_inodes i ≡ some inode)
inode_of s l i vn v e = elim (Option-cases (s.rfs_inodes i)) [
  | inl gone ↦ absurd (Slot-at s l i v gone e)
  | inr found ↦ found
]

-- One reference more of a vnode in use.
pub vref_lem :
    (s : Ramfs) (l : ℕ → ℕ) (i : ℕ) (inode : Inode) (vn : Vnode)
    → HasLinks s l
    → s.rfs_inodes i ≡ some inode
    → s.vnode i ≡ some vn
    → (s' : Ramfs) × (vref s i ≡ some s')
      × HasLinks s' l
      × Apart i s s'
      × (s'.rfs_inodes ≡ s.rfs_inodes)
      × (s'.vnode i ≡ some (record vn { vn_refcount = vn.vn_refcount + 1 }))
unfolding vref
vref_lem s l i inode vn v here e =
    let (p, q) = Slot-at s l i v here e in
    let more : Vnode = record vn { vn_refcount = vn.vn_refcount + 1 } in
    let s' : Ramfs = set_vnode s i (some more) in
    let apart : Apart i s s' = λ j other. (refl, ground (arith, other)) in
    (
      s',
      ground (arith, e, q.held),
      update_lem s s' l l i {x = some inode} {y = some more} v apart (λ j other. refl) here
          (ground arith) (p, record { held = omega arith; same_mode = q.same_mode }),
      apart,
      refl,
      ground arith,
    )
