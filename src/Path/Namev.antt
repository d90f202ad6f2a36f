-- ===== src/Path/Namev.antt =====
-- `lookup`, `dir_namev` and `open_namev` of kernel/fs/namev.c. A path is its bytes before the NUL. The
-- system calls pass no base vnode. The root of the file system, `vfs_root_vn`, is the vnode 0.
use weenix_assignment.Base.{
  ℕ, zero, suc, ◌+◌, Bool, true, false, not, ◌&&◌, Option, none, some, List, [], ◌∷◌, ltb, ◌==◌,
  if◌then◌else◌, ◌>>=◌, ◌>>◌, kassert, length, Result, ok, err, enametoolong, enotdir, enoent,
}
use mathlib.Core.List.{reverse}
use weenix_assignment.Ramfs.State.{Ramfs, name_len}
use weenix_assignment.Ramfs.Vnodes.{vref, vput}
use weenix_assignment.Ramfs.Names.{ramfs_lookup, ramfs_create, mode_is_dir}

abbrev pub slash : ℕ
slash = b'/'

abbrev pub vfs_root_vn : ℕ
vfs_root_vn = 0

-- Only a directory has the operation; calling a missing one is a fault.
unfoldable pub lookup : Ramfs → (dir : ℕ) → List ℕ → Option (Result ℕ × Ramfs)
lookup s dir name = do kassert (mode_is_dir s dir); ramfs_lookup s dir name

-- The loop from the end of the path, here over the reversed path: trailing slashes are skipped, then
-- the bytes up to a slash are the name. The result is the name with the reversed bytes before that
-- slash.
unfoldable pub scan_name :
    (rev : List ℕ) → (is_last_slash : Bool) → (name : List ℕ) → Result (List ℕ × List ℕ)
scan_name [] is_last_slash name = ok (name, [])
scan_name (c ∷ rev) is_last_slash name =
    let skip = is_last_slash && c == slash in
    let rest = scan_name rev skip (if skip then name else c ∷ name) in
    if skip
    then rest
    else if c == slash
    then ok (name, rev)
    else if ltb name_len (length name + 1)
    then err enametoolong
    else rest

unfoldable pub skip_slashes : List ℕ → List ℕ
skip_slashes [] = []
skip_slashes (c ∷ p) = let rest = skip_slashes p in if c == slash then rest else c ∷ p

-- The bytes up to a slash, and what follows.
unfoldable pub each_piece : List ℕ → List ℕ × List ℕ
each_piece [] = ([], [])
each_piece (c ∷ p) =
    let (name, rest) = each_piece p in if c == slash then ([], c ∷ p) else (c ∷ name, rest)

unfoldable pub vput_node : Ramfs → Option ℕ → Option Ramfs
vput_node s none = some s
vput_node s (some v) = vput s v

-- What `dir_namev` has behind a number of pieces: the vnode `dir_vnode` to look in, and the vnode
-- `cur_node` of the last lookup, which is also `pre_node`.
abbrev pub Walked : Type 0
Walked = Option (Result (ℕ × Option ℕ) × Ramfs)

-- One round of the loop: the lookup of a piece, and the reference of the vnode before it given back.
unfoldable pub visit :
    (next : Ramfs → ℕ → Walked) → Ramfs → (dir : ℕ) → (cur : Option ℕ) → (name : List ℕ) → Walked
visit next s dir cur name = do
  (found, s₁) ← lookup s dir name
  s₂ ← vput_node s₁ cur
  elim found [ err e ↦ some (err e, s₂) | ok vno ↦ next s₂ vno ]

-- The loop over the pieces before the name, on fuel.
unfoldable pub walk : ℕ → Ramfs → (dir : ℕ) → (cur : Option ℕ) → List ℕ → Walked
walk n s dir cur [] = some (ok (dir, cur), s)
walk zero s dir cur (c ∷ p) = none
walk (suc n) s dir cur (c ∷ p) =
    let (name, rest) = each_piece (c ∷ p) in
    visit (λ s' vno. walk n s' vno (some vno) (skip_slashes rest)) s dir cur name

abbrev pub starts_slash : List ℕ → Bool
starts_slash [] = false
starts_slash (c ∷ p) = c == slash

-- The end of `dir_namev`: the vnode of the directory gets its reference.
unfoldable pub res_vnode : Ramfs → ℕ × Option ℕ → Option (Result ℕ × Ramfs)
res_vnode s (dir, none) = vref s dir >>= λ s'. some (ok dir, s')
res_vnode s (dir, some cur) =
    if mode_is_dir s dir then some (ok cur, s) else (vput s cur >>= λ s'. some (err enotdir, s'))

-- The vnode of the directory with the name.
unfoldable pub named_dir : List ℕ → Walked → Option (Result (ℕ × List ℕ) × Ramfs)
named_dir name walked = do
  (end, s) ← walked
  elim end [
    | err e ↦ some (err e, s)
    | ok found ↦ (do
      (res, s') ← res_vnode s found
      elim res [ err e ↦ some (err e, s') | ok v ↦ some (ok (v, name), s') ])
  ]

-- The name is empty for a path of slashes.
unfoldable pub dir_namev : Ramfs → (p_cwd : ℕ) → List ℕ → Option (Result (ℕ × List ℕ) × Ramfs)
dir_namev s p_cwd path = elim (scan_name (reverse path) true []) [
  | err e ↦ some (err e, s)
  | ok (name, rev) ↦
      (let front = skip_slashes (reverse rev) in
        let dir = if starts_slash path then vfs_root_vn else p_cwd in
        named_dir name (walk (length front) s dir none front))
]

abbrev pub ends_slash : List ℕ → Bool
ends_slash path = starts_slash (reverse path)

-- The branch of `open_namev` for a name that is not there.
unfoldable pub open_missing :
    Ramfs → (dir : ℕ) → List ℕ → (o_creat : Bool) → Option (Result ℕ × Ramfs)
open_missing s dir name o_creat = do
  (made, s₁) ← if o_creat then ramfs_create s dir name else some (err enoent, s)
  s₂ ← vput s₁ dir
  some (made, s₂)

-- The branch for a name that is there: a trailing slash asks for a directory.
unfoldable pub open_found : Ramfs → (dir v : ℕ) → List ℕ → Option (Result ℕ × Ramfs)
open_found s dir v path =
    if ends_slash path && not (mode_is_dir s v)
    then (do s₁ ← vput s v; s₂ ← vput s₁ dir; some (err enotdir, s₂))
    else (do s₁ ← vput s dir; some (ok v, s₁))

-- The name that `dir_namev` gives never starts with a slash. Behind an error other than -ENOENT the
-- code goes on with a vnode that was never set.
unfoldable pub open_namev :
    Ramfs → (p_cwd : ℕ) → List ℕ → (o_creat : Bool) → Option (Result ℕ × Ramfs)
open_namev s p_cwd path o_creat = do
  (found, s₁) ← dir_namev s p_cwd path
  elim found [
    | err e ↦ some (err e, s₁)
    | ok (dir, name) ↦ if length name == 0 then some (ok dir, s₁) else (do
      (looked, s₂) ← lookup s₁ dir name
      elim looked [
        | err enoent ↦ open_missing s₂ dir name o_creat
        | err _ ↦ none
        | ok v ↦ open_found s₂ dir v path
      ])
  ]
