-- ===== src/Path/UnlinkSafe.antt =====
-- What `do_unlink` of kernel/fs/vfs_syscall.c leaves.
use weenix_assignment.Base.{
  ℕ, ◌+◌, ◌<◌, ◌≡◌, ◌≢◌, ap, ◌∙◌, sym, true, false, Option, some, List, arith, ◌==◌, if◌then◌else◌,
  ◌>>=◌, ℕ_discrete, ok,
}
use mathlib.Core.Path.{subst}
use weenix_assignment.Ramfs.State.{is_dir, Inode, Ramfs}
use weenix_assignment.Ramfs.Vnodes.{vput}
use weenix_assignment.Ramfs.Names.{is_name, mode_is_dir, ramfs_unlink}
use weenix_assignment.Ramfs.NameMap.{names, ino_of}
use weenix_assignment.Ramfs.Links.{is_dots, links, links_same}
use weenix_assignment.Ramfs.Valid.{root, vn_refs, IsRamfs, relink}
use weenix_assignment.Ramfs.Refs.{counted, vput_lem}
use weenix_assignment.Ramfs.GiveBack.{Given-links}
use weenix_assignment.Ramfs.Drop.{minus_one}
use weenix_assignment.Ramfs.Unlink.{Unnamed, ramfs_unlink_lem}
use weenix_assignment.Path.Namev.{lookup, dir_namev}
use weenix_assignment.Path.Split.{path_of}
use weenix_assignment.Path.Balance.{Same, Same-names, in_use}
use weenix_assignment.Path.Resolve.{IsDir, cur_refs, lookup_found}
use weenix_assignment.Path.Calls.{vput_both, do_unlink}
use weenix_assignment.Path.MkdirCall.{Reaches, reach, put_dir}
use weenix_assignment.Path.MkdirSafe.{piece_name}

do_unlink_step :
    (s : Ramfs) (p_cwd v vno : ℕ) (path name : List ℕ) {s₁ s₂ s₃ s₄ s₅ : Ramfs}
    → dir_namev s p_cwd path ≡ some (ok (v, name), s₁)
    → lookup s₁ v name ≡ some (ok vno, s₂)
    → mode_is_dir s₂ vno ≡ false
    → ramfs_unlink s₂ v name ≡ some (ok tt, s₃)
    → vput s₃ vno ≡ some s₄
    → vput s₄ v ≡ some s₅
    → do_unlink s p_cwd path ≡ some (ok tt, s₅)
unfolding do_unlink vput_both
do_unlink_step s p_cwd v vno path name reached looked file gone given given' =
    ground (arith, reached, looked, file, gone, given, given')

-- The reference of a file is given back, and its inode may go with it.
put_removed :
    (s : Ramfs) (i : ℕ)
    → IsRamfs s
    → 0 < vn_refs s i
    → (s' : Ramfs) × (vput s i ≡ some s')
      × IsRamfs s'
      × ((d : ℕ) (name : List ℕ) → i ≢ d → names s' d name ≡ names s d name)
      × ((ino : ℕ) → links s' ino ≡ links s ino)
      × ((w : ℕ) → vn_refs s' w + (if i == w then 1 else 0) ≡ vn_refs s w)
unfolding names
put_removed s i valid h =
    let (vn, _, opened, _, _) = in_use s (links s) i valid h in
    let (inode, s', here, done, g) = vput_lem s (links s) i vn valid opened in
    let still : (ino : ℕ) → links s' ino ≡ links s ino =
      λ ino. links_same s' s ino (Given-links s s' (links s) i ino inode here g) in
    (
      s',
      done,
      relink s' g.valid (λ ino. sym (still ino)),
      λ d name ne. ap (λ o. o >>= λ inode. ino_of inode.rf_entries name) (sym (g.apart d ne).0),
      still,
      λ w. elim (ℕ_discrete i w) [
        | yes e ↦
            subst (λ w. vn_refs s' w + (if i == w then 1 else 0) ≡ vn_refs s w) e
              (ground (arith, g.less))
        | no ne ↦ ground (arith, ne, (g.apart w ne).1)
      ],
    )

-- The calls behind the two lookups, in a state that holds a reference of the directory and one of the
-- file.
unlink_tail :
    (s s₂ : Ramfs) (v vno : ℕ) (name : List ℕ) (f : Inode)
    → Same s s₂ (λ w. cur_refs (some v) w + (if vno == w then 1 else 0))
    → IsDir s v
    → is_name name ≡ true
    → is_dots name ≡ false
    → 0 < links s v + root v
    → names s v name ≡ some vno
    → s.rfs_inodes vno ≡ some f
    → is_dir f.rf_mode ≡ false
    → (s₃ s₄ s₅ : Ramfs) × (ramfs_unlink s₂ v name ≡ some (ok tt, s₃))
      × (vput s₃ vno ≡ some s₄)
      × (vput s₄ v ≡ some s₅)
      × IsRamfs s₅
      × Unnamed s s₅ v vno name
      × ((ino : ℕ) → links s₅ ino ≡ minus_one (links s) vno ino)
      × ((w : ℕ) → vn_refs s₅ w ≡ vn_refs s w)
unlink_tail s s₂ v vno name f same d named dots reachable bound there file =
    let (i, here₂) = same.kept v d.inode d.here in
    let (j, there₂) = same.kept vno f there in
    let other : v ≢ vno = λ e. ground (arith, e, d.here, there, d.is, file) in
    let (s₃, gone, valid₃, unnamed, fewer, refs₃) =
      ramfs_unlink_lem s₂ v vno name (counted d.inode i) (counted f j) same.valid here₂ d.is named
        dots
        (Same-names s s₂ (λ w. cur_refs (some v) w + (if vno == w then 1 else 0)) same v name
          ∙ bound)
        there₂ file in
    let (s₄, given, valid₄, named₄, links₄, refs₄) =
      put_removed s₃ vno valid₃ (ground (arith, refs₃ vno, same.refs vno)) in
    let (s₅, given', valid₅, named₅, links₅, refs₅, _) =
      put_dir s₄ v valid₄ (ground (arith, refs₄ v, refs₃ v, same.refs v, other))
        (ground (arith, links₄ v, fewer v, same.same_links v, reachable, other)) in
    (
      s₃,
      s₄,
      s₅,
      gone,
      given,
      given',
      valid₅,
      λ c n ne h.
          let old =
            Same-names s s₂ (λ w. cur_refs (some v) w + (if vno == w then 1 else 0)) same c n in
          ground (arith, named₅ c n, named₄ c n ne, unnamed c n ne h, old),
      λ ino. omega (arith, links₅ ino, links₄ ino, fewer ino, same.same_links ino),
      λ w. omega (arith, refs₅ w, refs₄ w, refs₃ w, same.refs w),
    )

-- The vnode of a file is no directory.
file_mode :
    (s₀ s : Ramfs) (r : ℕ → ℕ) (v : ℕ) (f : Inode)
    → Same s₀ s r
    → s₀.rfs_inodes v ≡ some f
    → is_dir f.rf_mode ≡ false
    → 0 < vn_refs s v
    → mode_is_dir s v ≡ false
file_mode s₀ s r v f same there file h =
    let (vn, inode, opened, at, mode) = in_use s (links s) v same.valid h in
    mode ∙ ground (arith, at, (same.kept v f there).1, file)

-- For a path that leads to a directory that a link leads to, and ends in a name (not "." or "..") that
-- stands for a file, `do_unlink` succeeds: the name stands for nothing, every other name outside of the
-- file for what it did, the file has a link less, no vnode has another number of references, and the
-- file system stays well formed, in which no inode is kept without a link and a reference.
pub do_unlink_lem :
    (s : Ramfs) (p_cwd v vno : ℕ) (before : Option (List ℕ)) (name : List ℕ) (k : ℕ) (f : Inode)
    → Reaches s p_cwd v before name k
    → is_dots name ≡ false
    → 0 < links s v + root v
    → names s v name ≡ some vno
    → s.rfs_inodes vno ≡ some f
    → is_dir f.rf_mode ≡ false
    → (s' : Ramfs) × (do_unlink s p_cwd (path_of before name k) ≡ some (ok tt, s'))
      × IsRamfs s'
      × Unnamed s s' v vno name
      × ((ino : ℕ) → links s' ino ≡ minus_one (links s) vno ino)
      × ((w : ℕ) → vn_refs s' w ≡ vn_refs s w)
do_unlink_lem s p_cwd v vno before name k f p dots reachable bound there file =
    let named = piece_name name p.clean p.some_name in
    let (s₁, reached, d, same₁) = reach s p_cwd v before name k p in
    let (s₂, looked, same₂) =
      lookup_found s s₁ (cur_refs (some v)) v vno name f same₁ d (ground (arith, same₁.refs v))
        named bound there in
    let no_dir =
      file_mode s s₂ (λ w. cur_refs (some v) w + (if vno == w then 1 else 0)) vno f same₂ there file
        (ground (arith, same₂.refs vno)) in
    let (s₃, s₄, s₅, gone, given, given', valid, unnamed, fewer, refs) =
      unlink_tail s s₂ v vno name f same₂ d named dots reachable bound there file in
    (
      s₅,
      do_unlink_step s p_cwd v vno (path_of before name k) name reached looked no_dir gone given
          given',
      valid,
      unnamed,
      fewer,
      refs,
    )
