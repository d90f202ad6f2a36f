-- ===== src/Base/Error.antt =====
-- The error numbers of kernel/include/errno.h that the modelled functions return, negated.

pub data Errno : Type 0 where
  eintr ebadf echild enomem eacces efault eexist enotdir eisdir einval emfile enospc : Errno
  enametoolong enotempty enoent eperm : Errno

-- A return value of at least 0, or a negated error number.
pub data Result {ℓ} (A : Type ℓ) : Type ℓ where
  ok : A → Result A
  err : Errno → Result A
