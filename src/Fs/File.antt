-- ===== src/Fs/File.antt =====
-- Open files and their references: kernel/fs/file.c. A file and a vnode are named by their addresses;
-- of a vnode the counts are kept, and whether its file system still links to it.
use weenix_assignment.Base.{
  ℕ, ◌+◌, ◌-◌, Bool, true, not, ◌&&◌, ◌||◌, Option, none, some, ltb, leb, ◌==◌, if◌then◌else◌,
  ◌>>=◌, ◌>>◌, kassert, is_some, ℤ, pos, negsuc,
}

-- `file_t`
pub record File : Type 0 where
  pub f_pos : ℤ
  pub f_mode : ℕ
  pub f_refcount : ℕ
  pub f_vnode : Option ℕ

-- The files, the descriptor table of the current process, and of each vnode its references, how many of
-- them its resident pages hold, and what `query_vnode` says: whether its file system links to it.
pub record Open : Type 0 where
  pub file : ℕ → File
  pub p_files : ℕ → Option ℕ
  pub vn_refcount : ℕ → ℕ
  pub vn_nrespages : ℕ → ℕ
  pub query_vnode : ℕ → Bool

abbrev pub nfiles : ℕ
nfiles = 32

abbrev pub put {ℓ} : {A : Type ℓ} → (ℕ → A) → ℕ → A → ℕ → A
put f i a j = if i == j then a else f j

abbrev pub set_file : Open → ℕ → File → Open
set_file s f x = record s { file = put s.file f x }

abbrev pub set_fd : Open → ℕ → Option ℕ → Open
set_fd s fd x = record s { p_files = put s.p_files fd x }

-- f_pos >= -1
abbrev pub pos_ok : ℤ → Bool
pos_ok (pos n) = true
pos_ok (negsuc n) = n == 0

unfoldable pub fref : Open → ℕ → Option Open
fref s f = do
  let x = s.file f
  kassert (ltb x.f_mode 8)
  kassert (pos_ok x.f_pos)
  kassert (x.f_refcount == 0 || is_some x.f_vnode)
  some (set_file s f (record x { f_refcount = x.f_refcount + 1 }))

-- `fget` for a descriptor other than -1; the result inside is the file, `none` for NULL.
unfoldable pub fget : Open → ℤ → Option (Option ℕ × Open)
unfolding fref
fget s (negsuc n) = some (none, s)
fget s (pos fd) = if leb nfiles fd then some (none, s) else (elim (s.p_files fd) [
  | none ↦ some (none, s)
  | some f ↦ (do s' ← fref s f; some (some f, s'))
])

-- `vput`: behind the last reference but those of the pages, a vnode without a link loses its pages, each
-- of which holds a reference. A page that is busy, for which the code waits, is not modelled; nor is the
-- flag VN_BUSY.
unfoldable pub vput : Open → ℕ → Option Open
vput s vn = do
  kassert (ltb (s.vn_nrespages vn) (s.vn_refcount vn))
  let gone = s.vn_nrespages vn == s.vn_refcount vn - 1 && not (s.query_vnode vn)
  some (record s {
    vn_refcount = put s.vn_refcount vn (if gone then 0 else s.vn_refcount vn - 1);
    vn_nrespages = put s.vn_nrespages vn (if gone then 0 else s.vn_nrespages vn);
  })

-- The last reference gives the vnode back. The `release` operation of a vnode is left out: no file
-- system of the kernel has one.
unfoldable pub fput : Open → ℕ → Option Open
unfolding vput
fput s f = do
  let x = s.file f
  kassert (ltb x.f_mode 8)
  kassert (pos_ok x.f_pos)
  kassert (ltb 0 x.f_refcount)
  kassert (x.f_refcount == 1 || is_some x.f_vnode)
  let s' = set_file s f (record x { f_refcount = x.f_refcount - 1 })
  if x.f_refcount == 1 then (elim x.f_vnode [ none ↦ some s' | some vn ↦ vput s' vn ]) else some s'
