-- ===== src/Path/Calls.antt =====
-- The system calls of kernel/fs/vfs_syscall.c on path names. `none` is a failed KASSERT, a null
-- dereference or a use of a vnode after it is freed.
use weenix_assignment.Base.{
  ℕ, false, not, ◌&&◌, Option, none, some, List, ◌==◌, if◌then◌else◌, ◌>>=◌, ◌>>◌, kassert, length,
  Result, ok, err, enotdir, eexist, einval, enotempty, eperm,
}
use weenix_assignment.Ramfs.State.{Mode, is_dir, Ramfs}
use weenix_assignment.Ramfs.Vnodes.{vput}
use weenix_assignment.Ramfs.Entries.{name_match, dot, dot_dot}
use weenix_assignment.Ramfs.Names.{ramfs_mknod, ramfs_link, ramfs_unlink, mode_is_dir}
use weenix_assignment.Ramfs.Dirs.{ramfs_mkdir, ramfs_rmdir}
use weenix_assignment.Ramfs.Data.{Stat, ramfs_stat}
use weenix_assignment.Path.Namev.{vfs_root_vn, lookup, dir_namev, open_namev}

-- A vnode operation on a directory, and the reference of the directory dropped behind it.
unfoldable pub then_vput {ℓ} :
    {A : Type ℓ} → (dir : ℕ) → Option (Result A × Ramfs) → Option (Result A × Ramfs)
then_vput dir call = do (res, s) ← call; s' ← vput s dir; some (res, s')

-- An error with the references of two vnodes dropped.
unfoldable pub vput_both {ℓ} :
    {A : Type ℓ} → Ramfs → (v w : ℕ) → Result A → Option (Result A × Ramfs)
vput_both s v w res = do s₁ ← vput s v; s₂ ← vput s₁ w; some (res, s₂)

-- The code does not look at the error of `dir_namev`, which leaves a null directory.
unfoldable pub do_mknod :
    Ramfs → (p_cwd : ℕ) → List ℕ → Mode → (devid : ℕ) → Option (Result (Unit {0}) × Ramfs)
do_mknod s p_cwd path mode devid = do
  (found, s₁) ← dir_namev s p_cwd path
  elim found [
    | err _ ↦ none
    | ok (dir, name) ↦ (do
      (looked, s₂) ← lookup s₁ dir name
      elim looked [
        | err _ ↦ then_vput dir (ramfs_mknod s₂ dir name mode devid)
        | ok v ↦ vput_both s₂ dir v (err eexist)
      ])
  ]

unfoldable pub do_mkdir : Ramfs → (p_cwd : ℕ) → List ℕ → Option (Result (Unit {0}) × Ramfs)
do_mkdir s p_cwd path = do
  (found, s₁) ← dir_namev s p_cwd path
  elim found [
    | err e ↦ some (err e, s₁)
    | ok (dir, name) ↦
        if length name == 0 && dir == vfs_root_vn
        then (do s₂ ← vput s₁ dir; some (err eexist, s₂))
        else (do
          (looked, s₂) ← lookup s₁ dir name
          elim looked [
            | ok v ↦ vput_both s₂ v dir (err eexist)
            | err _ ↦ then_vput dir (ramfs_mkdir s₂ dir name)
          ])
  ]

unfoldable pub do_rmdir : Ramfs → (p_cwd : ℕ) → List ℕ → Option (Result (Unit {0}) × Ramfs)
do_rmdir s p_cwd path = do
  (found, s₁) ← dir_namev s p_cwd path
  elim found [
    | err e ↦ some (err e, s₁)
    | ok (dir, name) ↦
        if name_match dot name
        then (do s₂ ← vput s₁ dir; some (err einval, s₂))
        else if name_match dot_dot name
        then (do s₂ ← vput s₁ dir; some (err enotempty, s₂))
        else (kassert (mode_is_dir s₁ dir) >> then_vput dir (ramfs_rmdir s₁ dir name))
  ]

unfoldable pub do_unlink : Ramfs → (p_cwd : ℕ) → List ℕ → Option (Result (Unit {0}) × Ramfs)
do_unlink s p_cwd path = do
  (found, s₁) ← dir_namev s p_cwd path
  elim found [
    | err e ↦ some (err e, s₁)
    | ok (dir, name) ↦ (do
      (looked, s₂) ← lookup s₁ dir name
      elim looked [
        | err e ↦ (do s₃ ← vput s₂ dir; some (err e, s₃))
        | ok v ↦
            if not (mode_is_dir s₂ v)
            then (do (res, s₃) ← ramfs_unlink s₂ dir name; vput_both s₃ v dir res)
            else vput_both s₂ v dir (err eperm)
      ])
  ]

-- The code drops its reference of the file before it reads its type and links it.
unfoldable pub do_link :
    Ramfs → (p_cwd : ℕ) → (from to : List ℕ) → Option (Result (Unit {0}) × Ramfs)
do_link s p_cwd from to = do
  (opened, s₁) ← open_namev s p_cwd from false
  elim opened [
    | err e ↦ some (err e, s₁)
    | ok vfrom ↦ (do
      s₂ ← vput s₁ vfrom
      vn ← s₂.vnode vfrom
      if is_dir vn.vn_mode then some (err eperm, s₂) else link_to s₂ p_cwd vfrom to)
  ]
  where
    link_to : Ramfs → (p_cwd vfrom : ℕ) → (to : List ℕ) → Option (Result (Unit {0}) × Ramfs)
    link_to s p_cwd vfrom to = do
      (found, s₁) ← dir_namev s p_cwd to
      elim found [
        | err e ↦ some (err e, s₁)
        | ok (dir, name) ↦ (do
          (looked, s₂) ← lookup s₁ dir name
          elim looked [
            | ok v ↦ vput_both s₂ v dir (err eexist)
            | err _ ↦ then_vput dir (ramfs_link s₂ vfrom dir name)
          ])
      ]

unfoldable pub do_rename :
    Ramfs → (p_cwd : ℕ) → (oldname newname : List ℕ) → Option (Result (Unit {0}) × Ramfs)
do_rename s p_cwd oldname newname = do_link s p_cwd oldname newname

-- The result is the new working directory.
unfoldable pub do_chdir : Ramfs → (p_cwd : ℕ) → List ℕ → Option (Result ℕ × Ramfs)
do_chdir s p_cwd path = do
  (opened, s₁) ← open_namev s p_cwd path false
  elim opened [
    | err e ↦ some (err e, s₁)
    | ok v ↦
        if mode_is_dir s₁ v
        then (do s₂ ← vput s₁ p_cwd; some (ok v, s₂))
        else (do s₂ ← vput s₁ v; some (err enotdir, s₂))
  ]

unfoldable pub do_stat : Ramfs → (p_cwd : ℕ) → List ℕ → Option (Result Stat × Ramfs)
do_stat s p_cwd path = if length path == 0 then some (err einval, s) else (do
  (opened, s₁) ← open_namev s p_cwd path false
  elim opened [
    | err e ↦ some (err e, s₁)
    | ok v ↦ (do buf ← ramfs_stat s₁ v; s₂ ← vput s₁ v; some (ok buf, s₂))
  ])
