-- ===== src/Ramfs/GiveBack.antt =====
-- A vnode that is taken and given back, `vget` and `vput` of kernel/fs/vnode.c: what stays as it was.
use weenix_assignment.Base.{ℕ, ◌≡◌, ap, ◌∙◌, sym, none, some, arith, inl, inr, ℕ_discrete}
use mathlib.Core.Path.{subst}
use weenix_assignment.Ramfs.State.{Inode, Ramfs}
use weenix_assignment.Ramfs.Vnodes.{vget, vput}
use weenix_assignment.Ramfs.Links.{dir_links, links, links_same}
use weenix_assignment.Ramfs.Valid.{vn_refs, IsRamfs, relink, Apart}
use weenix_assignment.Ramfs.Refs.{Taken, vget_lem, Given, vput_lem}

-- Both leave every directory its links.
pub Taken-links :
    (s s' : Ramfs) (l : ℕ → ℕ) (i ino : ℕ) (inode : Inode)
    → s.rfs_inodes i ≡ some inode
    → Taken s s' l i inode
    → (d : ℕ) → dir_links (s'.rfs_inodes d) ino ≡ dir_links (s.rfs_inodes d) ino
Taken-links s s' l i ino inode here t d = elim (ℕ_discrete i d) [
  | yes e ↦
      subst (λ d. dir_links (s'.rfs_inodes d) ino ≡ dir_links (s.rfs_inodes d) ino) e
        (ap (λ o. dir_links o ino) t.kept.1 ∙ sym (ap (λ o. dir_links o ino) here))
  | no other ↦ ap (λ o. dir_links o ino) (sym (t.apart d other).0)
]

pub Given-links :
    (s s' : Ramfs) (l : ℕ → ℕ) (i ino : ℕ) (inode : Inode)
    → s.rfs_inodes i ≡ some inode
    → Given s s' l i inode
    → (d : ℕ) → dir_links (s'.rfs_inodes d) ino ≡ dir_links (s.rfs_inodes d) ino
Given-links s s' l i ino inode here t d = elim (ℕ_discrete i d) [
  | yes e ↦
      subst (λ d. dir_links (s'.rfs_inodes d) ino ≡ dir_links (s.rfs_inodes d) ino) e
        (elim t.kept [
          | inl (k, same) ↦ ap (λ o. dir_links o ino) same ∙ sym (ap (λ o. dir_links o ino) here)
          | inr (gone, _, empty) ↦
              ap (λ o. dir_links o ino) gone
              ∙ sym (empty ino)
              ∙ sym (ap (λ o. dir_links o ino) here)
        ])
  | no other ↦ ap (λ o. dir_links o ino) (sym (t.apart d other).0)
]

-- A reference that was taken is given back.
pub take_back :
    (s s₁ : Ramfs) (i : ℕ) (inode : Inode)
    → IsRamfs s
    → s.rfs_inodes i ≡ some inode
    → Taken s s₁ (links s) i inode
    → (s₂ : Ramfs) × (vput s₁ i ≡ some s₂)
      × IsRamfs s₂
      × Apart i s s₂
      × ((ino : ℕ) → links s₂ ino ≡ links s ino)
      × ((w : ℕ) → vn_refs s₂ w ≡ vn_refs s w)
take_back s s₁ i inode v here t =
    let (vn, there, count) = t.more in
    let (inode', s₂, here', done, g) = vput_lem s₁ (links s) i vn t.valid there in
    let same : (ino : ℕ) → links s₂ ino ≡ links s ino = λ ino.
      links_same s₂ s₁ ino (Given-links s₁ s₂ (links s) i ino inode' here' g)
      ∙ links_same s₁ s ino (Taken-links s s₁ (links s) i ino inode here t) in
    let apart : Apart i s s₂ =
      λ j ne. ((t.apart j ne).0 ∙ (g.apart j ne).0, (t.apart j ne).1 ∙ (g.apart j ne).1) in
    (
      s₂,
      done,
      relink s₂ g.valid (λ ino. sym (same ino)),
      apart,
      same,
      λ w. elim (ℕ_discrete i w) [
        | yes e ↦ subst (λ w. vn_refs s₂ w ≡ vn_refs s w) e (ground (arith, g.less, there, count))
        | no other ↦
            ap (λ o. elim o [ none ↦ 0 | some vn ↦ vn.vn_refcount ]) (sym (apart w other).1)
      ],
    )

-- A vnode that is taken and given back leaves the file system well formed, and every count of a
-- reference and of a link as it was.
pub vput-vget :
    (s : Ramfs) (i : ℕ) (inode : Inode)
    → IsRamfs s
    → s.rfs_inodes i ≡ some inode
    → (s₁ s₂ : Ramfs) × (vget s i ≡ some s₁)
      × (vput s₁ i ≡ some s₂)
      × IsRamfs s₁
      × IsRamfs s₂
      × ((ino : ℕ) → links s₂ ino ≡ links s ino)
      × ((w : ℕ) → vn_refs s₂ w ≡ vn_refs s w)
vput-vget s i inode v here =
    let (s₁, done₁, t) = vget_lem s (links s) i inode v here in
    let (s₂, done₂, v₂, apart, same, refs) = take_back s s₁ i inode v here t in
    let same₁ : (ino : ℕ) → links s ino ≡ links s₁ ino =
      λ ino. sym (links_same s₁ s ino (Taken-links s s₁ (links s) i ino inode here t)) in
    (s₁, s₂, done₁, done₂, relink s₁ t.valid same₁, v₂, same, refs)
