-- ===== src/Path/Balance.antt =====
-- References that a path resolution holds, kernel/fs/namev.c: the file system is the one it started
-- with, but for the references.
use weenix_assignment.Base.{
  ℕ, ◌+◌, ◌-◌, ◌<◌, ◌≡◌, refl, ap, ◌∙◌, sym, none, some, List, arith, ◌==◌, if◌then◌else◌, ◌>>=◌,
  inl, inr, Option-cases, ℕ_discrete,
}
use mathlib.Core.Path.{subst}
use weenix_assignment.Ramfs.State.{is_dir, Inode, Vnode, Ramfs}
use weenix_assignment.Ramfs.Vnodes.{vget, vput}
use weenix_assignment.Ramfs.Names.{mode_is_dir}
use weenix_assignment.Ramfs.NameMap.{names, ino_of}
use weenix_assignment.Ramfs.Links.{links, links_same}
use weenix_assignment.Ramfs.Valid.{
  root, vn_refs, HasLinks, IsRamfs, Apart, Slot-at, relink, inode_of,
}
use weenix_assignment.Ramfs.Refs.{counted, vget_lem, Given, vput_lem}
use weenix_assignment.Ramfs.GiveBack.{Taken-links, Given-links}

-- The state `s` is `s₀` with `r w` more references of each vnode `w`.
pub record Same (s₀ s : Ramfs) (r : ℕ → ℕ) : Type 0 where
  pub valid : IsRamfs s
  pub refs : (w : ℕ) → vn_refs s w ≡ vn_refs s₀ w + r w
  pub kept :
      (d : ℕ) (inode : Inode)
      → s₀.rfs_inodes d ≡ some inode
      → (k : ℕ) × (s.rfs_inodes d ≡ some (counted inode k))
  pub absent : (d : ℕ) → s₀.rfs_inodes d ≡ none → s.rfs_inodes d ≡ none
  pub same_links : (i : ℕ) → links s i ≡ links s₀ i

pub Same-start : (s₀ : Ramfs) → IsRamfs s₀ → Same s₀ s₀ (λ _. 0)
Same-start s₀ v = record {
  valid = v;
  refs = λ w. omega arith;
  kept = λ d inode e. (inode.rf_linkcount, e);
  absent = λ d e. e;
  same_links = λ i. refl;
}

pub Same-names :
    (s₀ s : Ramfs) (r : ℕ → ℕ)
    → Same s₀ s r
    → (d : ℕ) (name : List ℕ) → names s d name ≡ names s₀ d name
unfolding names
Same-names s₀ s r same d name = elim (Option-cases (s₀.rfs_inodes d)) [
  | inl e ↦
      ap (λ o. o >>= λ inode. ino_of inode.rf_entries name) (same.absent d e)
      ∙ sym (ap (λ o. o >>= λ inode. ino_of inode.rf_entries name) e)
  | inr (inode, e) ↦
      ap (λ o. o >>= λ inode. ino_of inode.rf_entries name) (same.kept d inode e).1
      ∙ sym (ap (λ o. o >>= λ inode. ino_of inode.rf_entries name) e)
]

-- A vnode with references is in use, with the mode of its inode.
pub in_use :
    (s : Ramfs) (l : ℕ → ℕ) (v : ℕ)
    → HasLinks s l
    → 0 < vn_refs s v
    → (vn : Vnode) × (inode : Inode) × (s.vnode v ≡ some vn)
      × (s.rfs_inodes v ≡ some inode)
      × (mode_is_dir s v ≡ is_dir inode.rf_mode)
in_use s l v valid h = elim (Option-cases (s.vnode v)) [
  | inl idle ↦ absurd (ground (arith, h, idle))
  | inr (vn, e) ↦
      (let (inode, here) = inode_of s l v vn valid e in
        let q = (Slot-at s l v valid here e).1 in
        (vn, inode, e, here, ground (arith, e, q.same_mode)))
]

-- An inode that changes its link count at `v` alone.
kept-Apart :
    (s₀ s s' : Ramfs) (v : ℕ)
    → ((d : ℕ) (inode : Inode)
        → s₀.rfs_inodes d ≡ some inode
        → (k : ℕ) × (s.rfs_inodes d ≡ some (counted inode k)))
    → Apart v s s'
    → ((inode : Inode)
        → s₀.rfs_inodes v ≡ some inode
        → (k : ℕ) × (s'.rfs_inodes v ≡ some (counted inode k)))
    → (d : ℕ) (inode : Inode) → s₀.rfs_inodes d ≡ some inode
    → (k : ℕ) × (s'.rfs_inodes d ≡ some (counted inode k))
kept-Apart s₀ s s' v kept apart at d inode here = elim (ℕ_discrete v d) [
  | yes e ↦
      subst
        (λ d. s₀.rfs_inodes d ≡ some inode → (k : ℕ) × (s'.rfs_inodes d ≡ some (counted inode k))) e
        (at inode) here
  | no ne ↦ (let (k, there) = kept d inode here in (k, sym (apart d ne).0 ∙ there))
]

pub take_lem :
    (s₀ s : Ramfs) (r : ℕ → ℕ) (v : ℕ) (f : Inode)
    → Same s₀ s r
    → s₀.rfs_inodes v ≡ some f
    → (s' : Ramfs) × (vget s v ≡ some s') × Same s₀ s' (λ w. r w + (if v == w then 1 else 0))
take_lem s₀ s r v f same there =
    let (count, here) = same.kept v f there in
    let (s', done, t) = vget_lem s (links s) v (counted f count) same.valid here in
    let still : (i : ℕ) → links s' i ≡ links s i =
      λ i. links_same s' s i (Taken-links s s' (links s) v i (counted f count) here t) in
    let (vn, opened, more) = t.more in
    (
      s',
      done,
      record {
        valid = relink s' t.valid (λ i. sym (still i));
        refs = λ w. elim (ℕ_discrete v w) [
          | yes e ↦
              subst (λ w. vn_refs s' w ≡ vn_refs s₀ w + (r w + (if v == w then 1 else 0))) e
                (ground (arith, opened, more, same.refs v))
          | no ne ↦ ground (arith, ne, (t.apart w ne).1, same.refs w)
        ];
        kept =
            kept-Apart s₀ s s' v same.kept t.apart
              (λ inode e. (t.kept.0, t.kept.1 ∙ ground (arith, e, there)));
        absent = λ d e. elim (ℕ_discrete v d) [
          | yes eq ↦ absurd (ground (arith, e, there, eq))
          | no ne ↦ sym (t.apart d ne).0 ∙ same.absent d e
        ];
        same_links = λ i. still i ∙ same.same_links i;
      },
    )

-- A reference that was taken is not the last one of an inode that no link leads to.
kept-Given :
    (s₀ s s' : Ramfs) (r : ℕ → ℕ) (v : ℕ) (f inode : Inode)
    → IsRamfs s₀
    → Same s₀ s r
    → s₀.rfs_inodes v ≡ some f
    → 0 < r v
    → s.rfs_inodes v ≡ some inode
    → Given s s' (links s) v inode
    → (k : ℕ) × (s'.rfs_inodes v ≡ some (counted f k))
kept-Given s₀ s s' r v f inode v₀ same there h here g = elim g.kept [
  | inl (k, at) ↦ (k, at ∙ ground (arith, (same.kept v f there).1, here))
  | inr (gone, loose, _) ↦
      (let idle : vn_refs s' v ≡ 0 = no_vnode s' (links s) v g.valid gone in
        let unused : vn_refs s₀ v ≡ 0 = omega (arith, g.less, idle, same.refs v, h) in
        absurd (lonely s₀ v f v₀ there (omega (arith, same.same_links v, loose)) unused))
]
  where
    no_vnode :
        (t : Ramfs) (l : ℕ → ℕ) (i : ℕ) → HasLinks t l → t.rfs_inodes i ≡ none → vn_refs t i ≡ 0
    no_vnode t l i valid gone = elim (Option-cases (t.vnode i)) [
      | inl idle ↦ ground (arith, idle)
      | inr (vn, e) ↦ absurd (Slot-at t l i valid gone e)
    ]

    lonely :
        (t : Ramfs) (i : ℕ) (f : Inode)
        → IsRamfs t
        → t.rfs_inodes i ≡ some f
        → links t i + root i ≡ 0
        → vn_refs t i ≡ 0
        → ⊥
    lonely t i f valid there loose unused = elim (Option-cases (t.vnode i)) [
      | inl idle ↦ omega (arith, (Slot-at t (links t) i valid there idle).alive, loose)
      | inr (vn, e) ↦ ground (arith, e, unused, (Slot-at t (links t) i valid there e).1.held)
    ]

pub give_lem :
    (s₀ s : Ramfs) (r : ℕ → ℕ) (v : ℕ) (f : Inode)
    → IsRamfs s₀
    → Same s₀ s r
    → s₀.rfs_inodes v ≡ some f
    → 0 < r v
    → (s' : Ramfs) × (vput s v ≡ some s') × Same s₀ s' (λ w. r w - (if v == w then 1 else 0))
give_lem s₀ s r v f v₀ same there h =
    let (vn, _, opened, _, _) = in_use s (links s) v same.valid (omega (arith, same.refs v, h)) in
    let (inode, s', here, done, g) = vput_lem s (links s) v vn same.valid opened in
    let still : (i : ℕ) → links s' i ≡ links s i =
      λ i. links_same s' s i (Given-links s s' (links s) v i inode here g) in
    let at_v = kept-Given s₀ s s' r v f inode v₀ same there h here g in
    (
      s',
      done,
      record {
        valid = relink s' g.valid (λ i. sym (still i));
        refs = λ w. elim (ℕ_discrete v w) [
          | yes e ↦
              subst (λ w. vn_refs s' w ≡ vn_refs s₀ w + (r w - (if v == w then 1 else 0))) e
                (ground (arith, g.less, same.refs v, h))
          | no ne ↦ ground (arith, ne, (g.apart w ne).1, same.refs w)
        ];
        kept =
            kept-Apart s₀ s s' v same.kept g.apart
              (λ inode e. (at_v.0, at_v.1 ∙ ground (arith, e, there)));
        absent = λ d e. elim (ℕ_discrete v d) [
          | yes eq ↦ absurd (ground (arith, e, there, eq))
          | no ne ↦ sym (g.apart d ne).0 ∙ same.absent d e
        ];
        same_links = λ i. still i ∙ same.same_links i;
      },
    )

pub Same-refs : (s₀ s : Ramfs) {r q : ℕ → ℕ} → Same s₀ s r → ((w : ℕ) → r w ≡ q w) → Same s₀ s q
Same-refs s₀ s same e = record {
  valid = same.valid;
  refs = λ w. omega (arith, same.refs w, e w);
  kept = same.kept;
  absent = same.absent;
  same_links = same.same_links;
}
