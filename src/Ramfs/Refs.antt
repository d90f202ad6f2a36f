-- ===== src/Ramfs/Refs.antt =====
-- `vget` and `vput` of kernel/fs/vnode.c take and give one reference, and keep the link counts exact.
use weenix_assignment.Base.{
  ℕ, ◌+◌, ◌-◌, ◌<◌, ◌≡◌, refl, ap, ◌∙◌, none, some, arith, ◌==◌, if◌then◌else◌, inl, inr, ◌⊎◌,
  Option-cases, ℕ_discrete,
}
use weenix_assignment.Ramfs.State.{Inode, Vnode, Ramfs, set_inode, set_vnode}
use weenix_assignment.Ramfs.Vnodes.{ramfs_read_vnode, vget, ramfs_delete_vnode, vput}
use weenix_assignment.Ramfs.Links.{contents}
use weenix_assignment.Ramfs.Valid.{
  root, vn_refs, IsInode, HasLinks, Slot-at, Apart, update_lem, inode_of, vref_lem,
}

-- An inode but for its link count.
abbrev pub counted : Inode → ℕ → Inode
counted inode k = record inode { rf_linkcount = k }

-- One reference more of the vnode `i`, and nothing else but link counts changed.
pub record Taken (s s' : Ramfs) (l : ℕ → ℕ) (i : ℕ) (inode : Inode) : Type 0 where
  pub valid : HasLinks s' l
  pub apart : Apart i s s'
  pub kept : (k : ℕ) × (s'.rfs_inodes i ≡ some (counted inode k))
  pub more : (vn : Vnode) × (s'.vnode i ≡ some vn) × (vn.vn_refcount ≡ vn_refs s i + 1)

pub vget_lem :
    (s : Ramfs) (l : ℕ → ℕ) (i : ℕ) (inode : Inode)
    → HasLinks s l
    → s.rfs_inodes i ≡ some inode
    → (s' : Ramfs) × (vget s i ≡ some s') × Taken s s' l i inode
unfolding vget ramfs_read_vnode
vget_lem s l i inode v here = elim (Option-cases (s.vnode i)) [
  | inr (vn, e) ↦
      (let (s', done, valid, apart, inodes, vn_at) = vref_lem s l i inode vn v here e in
        (
          s',
          ground (arith, e, done),
          record {
            valid = valid;
            apart = apart;
            kept = (inode.rf_linkcount, ap (λ f. f i) inodes ∙ here);
            more = (record vn { vn_refcount = vn.vn_refcount + 1 }, vn_at, ground (arith, e));
          },
        ))
  | inl idle ↦
      (let p = Slot-at s l i v here idle in
        let inode' : Inode = counted inode (inode.rf_linkcount + 1) in
        let vn : Vnode = record {
          vn_refcount = 1;
          vn_mode = inode.rf_mode;
          vn_len = inode.rf_size;
        } in
        let s' : Ramfs = set_vnode (set_inode s i (some inode')) i (some vn) in
        let apart : Apart i s s' = λ j other. (ground (arith, other), ground (arith, other)) in
        let q : IsInode i (l i) 1 inode' = record {
          numbered = p.numbered;
          below = p.below;
          linked = omega (arith, p.linked);
          alive = omega arith;
          unique = p.unique;
          plain = p.plain;
          orphan = p.orphan;
        } in
        (
          s',
          ground (arith, idle, here, p.numbered),
          record {
            valid =
                update_lem s s' l l i {x = some inode'} {y = some vn} v apart (λ j other. refl)
                  (ground arith) (ground arith)
                  (q, record { held = omega arith; same_mode = refl });
            apart = apart;
            kept = (inode.rf_linkcount + 1, ground arith);
            more = (vn, ground arith, ground (arith, idle));
          },
        ))
]

-- One reference less of the vnode `i`. With the last one the vnode is gone, and so is the inode if no
-- link leads to it.
pub record Given (s s' : Ramfs) (l : ℕ → ℕ) (i : ℕ) (inode : Inode) : Type 0 where
  pub valid : HasLinks s' l
  pub apart : Apart i s s'
  pub less : vn_refs s' i + 1 ≡ vn_refs s i
  pub kept :
      ((k : ℕ) × (s'.rfs_inodes i ≡ some (counted inode k)))
      ⊎ (s'.rfs_inodes i ≡ none) × (l i + root i ≡ 0) × ((j : ℕ) → contents inode.rf_entries j ≡ 0)

vput_step :
    (s : Ramfs) (i : ℕ) (inode : Inode) (vn : Vnode)
    → s.rfs_inodes i ≡ some inode
    → s.vnode i ≡ some vn
    → 0 < vn.vn_refcount
    → vput s i
      ≡ some (
          if vn.vn_refcount == 1
          then set_vnode
              (set_inode s i (
                if inode.rf_linkcount == 1
                then none
                else some (counted inode (inode.rf_linkcount - 1))))
              i
              none
          else set_vnode s i (some (record vn { vn_refcount = vn.vn_refcount - 1 })))
unfolding vput ramfs_delete_vnode
vput_step s i inode vn here e h = ground (arith, here, e, h)

pub vput_lem :
    (s : Ramfs) (l : ℕ → ℕ) (i : ℕ) (vn : Vnode)
    → HasLinks s l
    → s.vnode i ≡ some vn
    → (inode : Inode) × (s' : Ramfs) × (s.rfs_inodes i ≡ some inode)
      × (vput s i ≡ some s')
      × Given s s' l i inode
vput_lem s l i vn v e =
    let (inode, here) = inode_of s l i vn v e in
    let (p, q) = Slot-at s l i v here e in
    let step = vput_step s i inode vn here e q.held in
    elim (ℕ_discrete vn.vn_refcount 1) [
      | no more ↦
          (let less : Vnode = record vn { vn_refcount = vn.vn_refcount - 1 } in
            let s' : Ramfs = set_vnode s i (some less) in
            let apart : Apart i s s' = λ j other. (refl, ground (arith, other)) in
            (
              inode,
              s',
              here,
              step ∙ ground (arith, more),
              record {
                valid =
                    update_lem s s' l l i {x = some inode} {y = some less} v apart (λ j other. refl)
                      here (ground arith)
                      (p, record { held = omega (arith, q.held, more); same_mode = q.same_mode });
                apart = apart;
                less = ground (arith, e, q.held);
                kept = inl (inode.rf_linkcount, here);
              },
            ))
      | yes last ↦ elim (ℕ_discrete inode.rf_linkcount 1) [
        | yes alone ↦
            (let s' : Ramfs = set_vnode (set_inode s i none) i none in
              let apart : Apart i s s' =
                λ j other. (ground (arith, other), ground (arith, other)) in
              let gone : l i + root i ≡ 0 = omega (arith, p.linked, alone) in
              let not_root : 0 < i = ground (arith, gone) in
              (
                inode,
                s',
                here,
                step ∙ ground (arith, last, alone),
                record {
                  valid =
                      update_lem s s' l l i {x = none} {y = none} v apart (λ j other. refl)
                        (ground arith) (ground arith) (omega (arith, gone), not_root);
                  apart = apart;
                  less = ground (arith, e, last);
                  kept = inr (ground arith, gone, p.orphan gone);
                },
              ))
        | no linked ↦
            (let inode' : Inode = counted inode (inode.rf_linkcount - 1) in
              let s' : Ramfs = set_vnode (set_inode s i (some inode')) i none in
              let apart : Apart i s s' =
                λ j other. (ground (arith, other), ground (arith, other)) in
              let q : IsInode i (l i) 0 inode' = record {
                numbered = p.numbered;
                below = p.below;
                linked = omega (arith, p.linked);
                alive = omega (arith, p.linked, linked);
                unique = p.unique;
                plain = p.plain;
                orphan = p.orphan;
              } in
              (
                inode,
                s',
                here,
                step ∙ ground (arith, last, linked),
                record {
                  valid =
                      update_lem s s' l l i {x = some inode'} {y = none} v apart (λ j other. refl)
                        (ground arith) (ground arith) q;
                  apart = apart;
                  less = ground (arith, e, last);
                  kept = inl (inode.rf_linkcount - 1, ground arith);
                },
              ))
      ]
    ]
