-- ===== src/Fs/Descriptors.antt =====
-- The system calls on descriptors: kernel/fs/vfs_syscall.c, and `get_empty_fd` of kernel/fs/open.c.
-- `none` is a failed KASSERT, a null dereference or a write outside of the descriptor table.
use weenix_assignment.Base.{
  ℕ, zero, suc, ◌+◌, ◌%◌, Bool, not, ◌&&◌, ◌||◌, Option, none, some, List, [], ltb, leb, ◌==◌,
  if◌then◌else◌, ◌>>=◌, is_some, ℤ, pos, negsuc, ◌+ℤ◌, int32, is_negative, pos_part, Result, ok,
  err, ebadf, einval, eisdir,
}
use weenix_assignment.Fs.File.{File, Open, nfiles, set_file, set_fd, fget, fput}

-- The loop of `get_empty_fd`, with `n` descriptors left from `fd` on.
unfoldable pub empty_from : ℕ → (ℕ → Option ℕ) → ℕ → Option ℕ
empty_from zero files fd = none
empty_from (suc n) files fd =
    let rest = empty_from n files (fd + 1) in if is_some (files fd) then rest else some fd

-- `none` is -EMFILE.
unfoldable pub get_empty_fd : Open → Option ℕ
get_empty_fd s = empty_from nfiles s.p_files 0

unfoldable pub do_close : Open → ℤ → Option (Result (Unit {0}) × Open)
do_close s (negsuc n) = some (err ebadf, s)
do_close s (pos fd) = if leb nfiles fd then some (err ebadf, s) else (elim (s.p_files fd) [
  | none ↦ some (err ebadf, s)
  | some f ↦ (do s' ← fput s f; some (ok tt, set_fd s' fd none))
])

-- With no descriptor free the code stores the file at index -EMFILE.
unfoldable pub do_dup : Open → ℤ → Option (Result ℕ × Open)
do_dup s fd = if is_negative fd || leb nfiles (pos_part fd) then some (err ebadf, s) else (do
  (file, s') ← fget s fd
  elim file [
    | none ↦ some (err ebadf, s')
    | some f ↦ (do newfd ← get_empty_fd s'; some (ok newfd, set_fd s' newfd (some f)))
  ])

unfoldable pub do_dup2 : Open → (ofd nfd : ℤ) → Option (Result ℕ × Open)
do_dup2 s (negsuc m) nfd = some (err ebadf, s)
do_dup2 s (pos ofd) (negsuc n) = some (err ebadf, s)
do_dup2 s (pos ofd) (pos nfd) =
    if ltb ofd nfiles && (is_some (s.p_files ofd) && ltb nfd nfiles)
    then (do
      (file, s') ← fget s (pos ofd)
      elim file [
        | none ↦ some (err ebadf, s')
        | some f ↦ (do
          let s'' = set_fd s' nfd (some f)
          s''' ← (if nfd == ofd then fput s'' f else some s'')
          some (ok nfd, s'''))
      ])
    else some (err ebadf, s)

-- SEEK_SET, SEEK_CUR, SEEK_END; `vn_len` gives the length of a vnode. Offsets are 32-bit integers, and
-- their sums wrap around.
unfoldable pub seek_to : (vn_len : ℕ → ℕ) → File → (offset : ℤ) → (whence : ℕ) → Option ℤ
seek_to vn_len x offset whence =
    if whence == 0
    then some offset
    else if whence == 1
    then some (int32 (offset +ℤ x.f_pos))
    else (do vn ← x.f_vnode; some (int32 (offset +ℤ pos (vn_len vn))))

unfoldable pub do_lseek :
    (vn_len : ℕ → ℕ) → Open → (fd offset : ℤ) → (whence : ℕ) → Option (Result ℤ × Open)
do_lseek vn_len s fd offset whence =
    if is_negative fd || leb nfiles (pos_part fd) then some (err ebadf, s) else (do
      (file, s') ← fget s fd
      elim file [
        | none ↦ some (err ebadf, s')
        | some f ↦ if ltb 2 whence then (do s'' ← fput s' f; some (err einval, s'')) else (do
          to ← seek_to vn_len (s'.file f) offset whence
          if is_negative to then (do s'' ← fput s' f; some (err einval, s'')) else (do
            s'' ← fput (set_file s' f (record (s'.file f) { f_pos = to })) f
            some (ok to, s'')))
      ])

-- What a vnode offers to `do_read`: whether it is a directory, and its `read` operation (`none` is
-- NULL), which takes a position and a count to the return value and the bytes.
pub record VnodeOps : Type 0 where
  pub is_dir : ℕ → Bool
  pub read : ℕ → Option (ℤ → ℕ → ℤ × List ℕ)

-- FMODE_READ
abbrev pub can_read : ℕ → Bool
can_read mode = mode % 2 == 1

unfoldable pub do_read :
    VnodeOps → Open → (fd : ℤ) → (nbytes : ℕ) → Option (Result ℤ × List ℕ × Open)
do_read ops s fd nbytes =
    if is_negative fd || ltb nfiles (pos_part fd) then some (err ebadf, [], s) else (do
      (file, s') ← fget s fd
      elim file [
        | none ↦ some (err ebadf, [], s')
        | some f ↦
            if not (can_read (s'.file f).f_mode)
            then (do s'' ← fput s' f; some (err ebadf, [], s''))
            else (do
              vn ← (s'.file f).f_vnode
              elim (if ops.is_dir vn then none else ops.read vn) [
                | none ↦ (do s'' ← fput s' f; some (err eisdir, [], s''))
                | some read ↦ (do
                  let bytes = read (s'.file f).f_pos nbytes
                  let moved = record (s'.file f) { f_pos = int32 ((s'.file f).f_pos +ℤ bytes.0) }
                  s'' ← fput (set_file s' f moved) f
                  some (ok bytes.0, bytes.1, s''))
              ])
      ])
