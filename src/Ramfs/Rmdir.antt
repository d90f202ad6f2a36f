-- ===== src/Ramfs/Rmdir.antt =====
-- `ramfs_rmdir` of kernel/fs/ramfs/ramfs.c takes empty directories only.
use weenix_assignment.Base.{
  ℕ, ◌≡◌, ◌≢◌, refl, ap, ◌∙◌, sym, true, false, ◌&&◌, ◌||◌, Option, none, some, List, [], ◌∷◌,
  arith, ◌==◌, if◌then◌else◌, ◌>>=◌, inl, inr, Bool-cases, Result, ok, err, enotdir, enotempty,
}
use weenix_assignment.Ramfs.State.{is_dir, Inode, Ramfs, ramfs_max_dirent}
use weenix_assignment.Ramfs.Vnodes.{vput}
use weenix_assignment.Ramfs.Entries.{name_match, dot, dot_dot, only_dots}
use weenix_assignment.Ramfs.Names.{is_name, is_ok, ramfs_lookup, drop_name, mode_is_dir}
use weenix_assignment.Ramfs.Dirs.{ramfs_rmdir}
use weenix_assignment.Ramfs.NameMap.{ino_of, names}
use weenix_assignment.Ramfs.Links.{is_dots, contents_empty, links}
use weenix_assignment.Ramfs.Valid.{IsRamfs, vn_refs}
use weenix_assignment.Ramfs.Refs.{counted}
use weenix_assignment.Ramfs.GiveBack.{take_back}
use weenix_assignment.Ramfs.Found.{names-IsEntry, lookup_lem}
use weenix_assignment.Ramfs.OnlyDots.{only_dots-NoNames}
use weenix_assignment.Ramfs.Drop.{minus_one}
use weenix_assignment.Ramfs.Unlink.{take_drop}

-- The result of removing the inode `f`.
abbrev verdict : Inode → Result (Unit {0})
verdict f =
    if is_dir f.rf_mode
    then if only_dots ramfs_max_dirent f.rf_entries 0 then ok tt else err enotempty
    else err enotdir

-- What `ramfs_rmdir` does with an inode that the lookup found.
abbrev removal : Ramfs → (dir vno : ℕ) → List ℕ → Inode → Option (Result (Unit {0}) × Ramfs)
removal s dir vno name f =
    (if is_ok (verdict f) then drop_name s dir name vno else vput s vno) >>= λ s'.
    some (verdict f, s')

name_match_dots : (name : List ℕ) → is_dots name ≡ (name_match dot name || name_match dot_dot name)
unfolding name_match
name_match_dots [] = refl
name_match_dots (a ∷ []) = ground arith
name_match_dots (a ∷ b ∷ []) = ground arith
name_match_dots (a ∷ b ∷ c ∷ name) = ground arith

rmdir_step :
    (s : Ramfs) (dir vno count : ℕ) (name : List ℕ) (f : Inode) {s₁ : Ramfs}
    → is_dots name ≡ false
    → ramfs_lookup s dir name ≡ some (ok vno, s₁)
    → mode_is_dir s₁ vno ≡ is_dir f.rf_mode
    → s₁.rfs_inodes vno ≡ some (counted f count)
    → ramfs_rmdir s dir name ≡ removal s₁ dir vno name f
unfolding ramfs_rmdir
rmdir_step s dir vno count name f {s₁} dots looked mode there =
    let no_dots : (name_match dot name || name_match dot_dot name) ≡ false =
      sym (name_match_dots name) ∙ dots in
    ground (arith, no_dots, looked, mode, there)

-- The same, with the verdict as the code computes it.
rmdir_verdict :
    (s : Ramfs) (dir vno : ℕ) (name : List ℕ) (inode f : Inode)
    → IsRamfs s
    → s.rfs_inodes dir ≡ some inode
    → is_dir inode.rf_mode ≡ true
    → is_name name ≡ true
    → is_dots name ≡ false
    → names s dir name ≡ some vno
    → s.rfs_inodes vno ≡ some f
    → dir ≢ vno
    → (s' : Ramfs) × (ramfs_rmdir s dir name ≡ some (verdict f, s'))
      × IsRamfs s'
      × ((d : ℕ) (other : List ℕ)
          → vno ≢ d
          → is_name other ≡ true
          → names s' d other ≡ (
              if is_ok (verdict f) && (dir == d && name_match name other)
              then none
              else names s d other))
      × ((ino : ℕ)
          → links s' ino ≡ (if is_ok (verdict f) then minus_one (links s) vno ino else links s ino))
      × ((w : ℕ) → vn_refs s' w ≡ vn_refs s w)
unfolding names
rmdir_verdict s dir vno name inode f v here is h dots bound there other =
    let (k, e) = names-IsEntry s dir name vno inode here bound in
    let (s₁, looked, v₁, t, same, mode) = lookup_lem s dir vno k name inode f v here h e there in
    let step = rmdir_step s dir vno t.kept.0 name f dots looked mode t.kept.1 in
    elim (Bool-cases (is_ok (verdict f))) [
      | inl empty ↦
          (let (s', done, v', gone, fewer, refs) =
              take_drop s s₁ dir vno k name inode f v here is h dots e other v₁ t same
                (contents_empty f.rf_entries (ground (arith, empty))) in
            (
              s',
              step ∙ ground (arith, empty, done),
              v',
              λ d n ne named. gone d n ne named ∙ ground (arith, empty),
              λ ino. fewer ino ∙ ground (arith, empty),
              refs,
            ))
      | inr refused ↦
          (let (s', done, v', apart, still, refs) = take_back s s₁ vno f v there t in
            (
              s',
              step ∙ ground (arith, refused, done),
              v',
              λ d n ne named.
                  ap (λ o. o >>= λ inode. ino_of inode.rf_entries n) (sym (apart d ne).0)
                  ∙ ground (arith, refused),
              λ ino. still ino ∙ ground (arith, refused),
              refs,
            ))
    ]

-- The result of removing the inode `vno`: a file is no directory, a directory with no names but "." and
-- ".." may go, and one with another name is not empty.
pub record Ruling (s : Ramfs) (vno : ℕ) (f : Inode) (r : Result (Unit {0})) : Type 0 where
  pub file : is_dir f.rf_mode ≡ false → r ≡ err enotdir
  pub empty :
      is_dir f.rf_mode ≡ true
      → ((name : List ℕ) → name ≢ [] → is_dots name ≡ false → names s vno name ≡ none)
      → r ≡ ok tt
  pub full :
      is_dir f.rf_mode ≡ true
      → (name : List ℕ) → name ≢ []
      → is_dots name ≡ false
      → names s vno name ≢ none
      → r ≡ err enotempty

verdict-Ruling :
    (s : Ramfs) (vno : ℕ) (f : Inode) → s.rfs_inodes vno ≡ some f → Ruling s vno f (verdict f)
unfolding names
verdict-Ruling s vno f there =
    let same : (name : List ℕ) → names s vno name ≡ ino_of f.rf_entries name =
      λ name. ap (λ o. o >>= λ inode. ino_of inode.rf_entries name) there in
    elim (only_dots-NoNames f.rf_entries) [
      | inl (run, all) ↦ record {
        file = λ plain. ground (arith, plain);
        empty = λ dir _. ground (arith, dir, run);
        full = λ dir name ne other bound. absurd (bound (same name ∙ all name ne other));
      }
      | inr (run, (name, ne, other, bound)) ↦ record {
        file = λ plain. ground (arith, plain);
        empty = λ dir all. absurd (bound (sym (same name) ∙ all name ne other));
        full = λ dir _ _ _ _. ground (arith, dir, run);
      }
    ]

-- In a well-formed file system, for a name of a directory (not "." or "..") that stands for another
-- inode, `ramfs_rmdir` refuses a file with -ENOTDIR, and with -ENOTEMPTY a directory in which a name other
-- than "." and ".." stands for something. A directory without such a name loses its name and a link.
-- Every other name outside of that inode stands for what it did, and every other link stays. In each
-- case the file system is well formed and no vnode has another number of references.
pub ramfs_rmdir_lem :
    (s : Ramfs) (dir vno : ℕ) (name : List ℕ) (inode f : Inode)
    → IsRamfs s
    → s.rfs_inodes dir ≡ some inode
    → is_dir inode.rf_mode ≡ true
    → is_name name ≡ true
    → is_dots name ≡ false
    → names s dir name ≡ some vno
    → s.rfs_inodes vno ≡ some f
    → dir ≢ vno
    → (r : Result (Unit {0})) × (s' : Ramfs) × (ramfs_rmdir s dir name ≡ some (r, s'))
      × Ruling s vno f r
      × IsRamfs s'
      × ((d : ℕ) (other : List ℕ)
          → vno ≢ d
          → is_name other ≡ true
          → names s' d other
            ≡ (if is_ok r && (dir == d && name_match name other) then none else names s d other))
      × ((ino : ℕ) → links s' ino ≡ (if is_ok r then minus_one (links s) vno ino else links s ino))
      × ((w : ℕ) → vn_refs s' w ≡ vn_refs s w)
ramfs_rmdir_lem s dir vno name inode f v here is h dots bound there other =
    let (s', run, v', gone, fewer, refs) =
      rmdir_verdict s dir vno name inode f v here is h dots bound there other in
    (verdict f, s', run, verdict-Ruling s vno f there, v', gone, fewer, refs)
