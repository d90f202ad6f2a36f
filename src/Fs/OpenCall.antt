-- ===== src/Fs/OpenCall.antt =====
-- `do_write` and `do_getdent` of kernel/fs/vfs_syscall.c. What they use of the vnodes is an interface.
use weenix_assignment.Base.{
  ℕ, ◌/◌, ◌%◌, Bool, not, ◌&&◌, ◌||◌, Option, none, some, List, ltb, leb, ◌==◌, if◌then◌else◌,
  ◌>>=◌, ◌>>◌, kassert, ℤ, pos, ◌+ℤ◌, int32, is_negative, pos_part, Result, ok, err, ebadf, enotdir,
}
use weenix_assignment.Fs.File.{Open, nfiles, set_file, fget, fput}
use weenix_assignment.Fs.Descriptors.{do_lseek}

-- A test of one bit, `bit` being a power of 2.
abbrev pub has_bit : ℕ → (bit : ℕ) → Bool
has_bit flags bit = flags / bit % 2 == 1

-- What `do_write` uses of the vnodes, over their own state: the `write` operation, the length, and
-- whether a vnode is a regular file or a device.
pub record WriteOps (W : Type 0) : Type 0 where
  pub write : W → (vn : ℕ) → ℤ → List ℕ → Option (ℤ × W)
  pub vn_len : W → ℕ → ℕ
  pub is_reg : W → ℕ → Bool
  pub is_dev : W → ℕ → Bool

-- FMODE_WRITE or FMODE_APPEND.
abbrev pub can_write : ℕ → Bool
can_write mode = has_bit mode 2 || has_bit mode 4

-- The seek of a file in append mode; its result is not looked at.
unfoldable pub seek_end : (vn_len : ℕ → ℕ) → Open → ℤ → (mode : ℕ) → Option Open
seek_end vn_len s fd mode =
    if has_bit mode 4 then (do (_, s') ← do_lseek vn_len s fd (pos 0) 2; some s') else some s

abbrev pub within : ℤ → ℕ → Bool
within n len = is_negative n || leb (pos_part n) len

unfoldable pub do_write :
    {W : Type 0} → WriteOps W → Open → W → (fd : ℤ) → List ℕ → Option (Result ℤ × Open × W)
do_write ops s w fd buf =
    if is_negative fd || ltb nfiles (pos_part fd) then some (err ebadf, s, w) else (do
      (file, s₁) ← fget s fd
      elim file [
        | none ↦ some (err ebadf, s₁, w)
        | some f ↦
            if not (can_write (s₁.file f).f_mode)
            then (do s₂ ← fput s₁ f; some (err ebadf, s₂, w))
            else (do
              s₂ ← seek_end (ops.vn_len w) s₁ fd (s₁.file f).f_mode
              vn ← (s₂.file f).f_vnode
              (bytes, w₁) ← ops.write w vn (s₂.file f).f_pos buf
              let place = int32 ((s₂.file f).f_pos +ℤ bytes)
              kassert (ops.is_dev w₁ vn || ops.is_reg w₁ vn && within place (ops.vn_len w₁ vn))
              s₃ ← fput (set_file s₂ f (record (s₂.file f) { f_pos = place })) f
              some (ok bytes, s₃, w₁))
      ])

-- sizeof(dirent_t): two words and the name with its end, in whole words.
abbrev pub sizeof_dirent : ℕ
sizeof_dirent = 40

-- `readdir` of a vnode, `none` if it is NULL: from the vnode and the position to the bytes passed over
-- and the entry. The code calls it twice, for the entry and for the position.
unfoldable pub do_getdent :
    {D : Type 0}
    → (readdir : ℕ → Option (ℤ → ℕ × D)) → Open
    → (fd : ℤ) → Option (Result ℕ × Option D × Open)
do_getdent readdir s fd =
    if is_negative fd || leb nfiles (pos_part fd) then some (err ebadf, none, s) else (do
      (file, s₁) ← fget s fd
      elim file [
        | none ↦ some (err ebadf, none, s₁)
        | some f ↦ (do
          vn ← (s₁.file f).f_vnode
          elim (readdir vn) [
            | none ↦ (do s₂ ← fput s₁ f; some (err enotdir, none, s₂))
            | some read ↦ (do
              let (n, dirp) = read (s₁.file f).f_pos
              let moved = record (s₁.file f) { f_pos = int32 ((s₁.file f).f_pos +ℤ pos n) }
              s₂ ← fput (set_file s₁ f moved) f
              some (ok (if n == 0 then 0 else sizeof_dirent), some dirp, s₂))
          ])
      ])
