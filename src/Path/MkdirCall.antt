-- ===== src/Path/MkdirCall.antt =====
-- `do_mkdir` of kernel/fs/vfs_syscall.c, from the path to the new directory.
use weenix_assignment.Base.{
  ℕ, ◌+◌, ◌≤◌, ◌<◌, ◌≡◌, ◌≢◌, ap, ◌∙◌, sym, Option, some, List, arith, length, ◌==◌, if◌then◌else◌,
  ◌>>=◌, inl, inr, ℕ_discrete, Result, ok, err, Errno, eexist,
}
use mathlib.Core.Path.{subst}
use weenix_assignment.Ramfs.State.{Ramfs, name_len}
use weenix_assignment.Ramfs.Vnodes.{vput}
use weenix_assignment.Ramfs.Dirs.{ramfs_mkdir}
use weenix_assignment.Ramfs.NameMap.{names, ino_of}
use weenix_assignment.Ramfs.Links.{links, links_same}
use weenix_assignment.Ramfs.Valid.{root, vn_refs, IsRamfs, relink}
use weenix_assignment.Ramfs.Refs.{vput_lem}
use weenix_assignment.Ramfs.GiveBack.{Given-links}
use weenix_assignment.Path.Namev.{lookup, dir_namev}
use weenix_assignment.Path.Split.{IsPiece, front, path_of}
use weenix_assignment.Path.Walk.{pieces}
use weenix_assignment.Path.Balance.{Same, in_use}
use weenix_assignment.Path.Resolve.{Leads, IsDir, cur_refs, start_dir, dir_namev_lem}
use weenix_assignment.Path.Calls.{then_vput, vput_both, do_mkdir}

-- A path to a name in the directory `v`, which can be resolved.
pub record Reaches (s : Ramfs) (p_cwd v : ℕ) (before : Option (List ℕ)) (name : List ℕ) (k : ℕ)
    : Type 0 where
  pub valid : IsRamfs s
  pub clean : IsPiece name
  pub some_name : 0 < length name
  pub short : length name ≤ name_len
  pub from : IsDir s (start_dir p_cwd (path_of before name k))
  pub positive : 0 < vn_refs s (start_dir p_cwd (path_of before name k))
  pub leads : Leads s (start_dir p_cwd (path_of before name k)) (pieces (front before)) v

pub reach :
    (s : Ramfs) (p_cwd v : ℕ) (before : Option (List ℕ)) (name : List ℕ) (k : ℕ)
    → Reaches s p_cwd v before name k
    → (s' : Ramfs) × (dir_namev s p_cwd (path_of before name k) ≡ some (ok (v, name), s'))
      × IsDir s v
      × Same s s' (cur_refs (some v))
reach s p_cwd v before name k p =
    dir_namev_lem s p_cwd v before name k p.valid p.clean p.some_name p.short p.from p.positive
      p.leads

-- The reference of a directory that a link leads to is given back.
pub put_dir :
    (s : Ramfs) (v : ℕ)
    → IsRamfs s
    → 0 < vn_refs s v
    → 0 < links s v + root v
    → (s' : Ramfs) × (vput s v ≡ some s')
      × IsRamfs s'
      × ((d : ℕ) (name : List ℕ) → names s' d name ≡ names s d name)
      × ((i : ℕ) → links s' i ≡ links s i)
      × ((w : ℕ) → vn_refs s' w + (if v == w then 1 else 0) ≡ vn_refs s w)
      × ((d : ℕ) → v ≢ d → s'.rfs_inodes d ≡ s.rfs_inodes d)
unfolding names
put_dir s v valid h reachable =
    let (vn, _, opened, _, _) = in_use s (links s) v valid h in
    let (inode, s', here, done, g) = vput_lem s (links s) v vn valid opened in
    let still : (i : ℕ) → links s' i ≡ links s i =
      λ i. links_same s' s i (Given-links s s' (links s) v i inode here g) in
    (
      s',
      done,
      relink s' g.valid (λ i. sym (still i)),
      λ d name. elim (ℕ_discrete v d) [
        | yes e ↦
            subst (λ d. names s' d name ≡ names s d name) e
              (elim g.kept [
                | inl (k, at) ↦
                    ap (λ o. o >>= λ inode. ino_of inode.rf_entries name) at
                    ∙ sym (ap (λ o. o >>= λ inode. ino_of inode.rf_entries name) here)
                | inr (_, loose, _) ↦ absurd (omega (arith, loose, reachable))
              ])
        | no ne ↦ ap (λ o. o >>= λ inode. ino_of inode.rf_entries name) (sym (g.apart d ne).0)
      ],
      still,
      λ w. elim (ℕ_discrete v w) [
        | yes e ↦
            subst (λ w. vn_refs s' w + (if v == w then 1 else 0) ≡ vn_refs s w) e
              (ground (arith, g.less))
        | no ne ↦ ground (arith, ne, (g.apart w ne).1)
      ],
      λ d ne. sym (g.apart d ne).0,
    )

pub mkdir_old_step :
    (s : Ramfs) (p_cwd v vno : ℕ) (path name : List ℕ) {s₁ s₂ s₃ s₄ : Ramfs}
    → 0 < length name
    → dir_namev s p_cwd path ≡ some (ok (v, name), s₁)
    → lookup s₁ v name ≡ some (ok vno, s₂)
    → vput s₂ vno ≡ some s₃
    → vput s₃ v ≡ some s₄
    → do_mkdir s p_cwd path ≡ some (err eexist, s₄)
unfolding do_mkdir vput_both
mkdir_old_step s p_cwd v vno path name h reached looked given given' =
    ground (arith, h, reached, looked, given, given')

pub mkdir_new_step :
    (s : Ramfs) (p_cwd v : ℕ) (path name : List ℕ) {res : Result (Unit {0})} {e : Errno}
    {s₁ s₂ s₃ s₄ : Ramfs}
    → 0 < length name
    → dir_namev s p_cwd path ≡ some (ok (v, name), s₁)
    → lookup s₁ v name ≡ some (err e, s₂)
    → ramfs_mkdir s₂ v name ≡ some (res, s₃)
    → vput s₃ v ≡ some s₄
    → do_mkdir s p_cwd path ≡ some (res, s₄)
unfolding do_mkdir then_vput
mkdir_new_step s p_cwd v path name h reached looked made given =
    ground (arith, h, reached, looked, made, given)
