-- ===== src/Ramfs/WriteRead.antt =====
-- What a write leaves in a file: `ramfs_write` and `ramfs_read` of kernel/fs/ramfs/ramfs.c.
use weenix_assignment.Base.{
  ℕ, zero, suc, ◌+◌, ◌-◌, ◌≤◌, ◌<◌, ◌^◌, ◌≡◌, ◌≢◌, ◌⊎◌, inl, inr, refl, false, some, List, [], ◌∷◌,
  arith, min, max, length,
}
use weenix_assignment.Ramfs.State.{
  Inode, Vnode, Ramfs, page_bytes, put, is_dir, set_inode, set_vnode,
}
use weenix_assignment.Ramfs.Entries.{take}
use weenix_assignment.Ramfs.Data.{bytes_from, ramfs_read, copy_in, ramfs_write}

copy_in_before :
    (mem : ℕ → ℕ) (offset : ℕ) (l : List ℕ) (j : ℕ) → j < offset → copy_in mem offset l j ≡ mem j
unfolding copy_in
copy_in_before mem offset [] j h = refl
copy_in_before mem offset (c ∷ l) j h =
    ground (arith, h, copy_in_before (put mem offset c) (offset + 1) l j)

copy_in_after :
    (mem : ℕ → ℕ) (offset : ℕ) (l : List ℕ) (j : ℕ)
    → offset + length l ≤ j
    → copy_in mem offset l j ≡ mem j
unfolding copy_in
copy_in_after mem offset [] j h = refl
copy_in_after mem offset (c ∷ l) j h =
    ground (arith, h, copy_in_after (put mem offset c) (offset + 1) l j)

bytes_from-copy_in :
    (mem : ℕ → ℕ) (offset : ℕ) (l : List ℕ)
    → bytes_from (copy_in mem offset l) offset (length l) ≡ l
unfolding copy_in bytes_from
bytes_from-copy_in mem offset [] = refl
bytes_from-copy_in mem offset (c ∷ l) = ground (
  arith,
  copy_in_before (put mem offset c) (offset + 1) l offset,
  bytes_from-copy_in (put mem offset c) (offset + 1) l,
)

length-take : (n : ℕ) (l : List ℕ) → length (take n l) ≡ min (length l) n
length-take zero l = ground arith
length-take (suc n) [] = ground arith
length-take (suc n) (c ∷ l) = ground (arith, length-take n l)

-- A regular file that is in use, with its length in step with its inode.
pub record IsFile (s : Ramfs) (vno : ℕ) (inode : Inode) (vn : Vnode) : Type 0 where
  pub stored : s.rfs_inodes vno ≡ some inode
  pub used : s.vnode vno ≡ some vn
  pub regular : is_dir vn.vn_mode ≡ false
  pub in_step : vn.vn_len ≡ inode.rf_size
  pub fits : inode.rf_size ≤ page_bytes

-- The contents of a regular file after a write, at an offset in the page.
pub record Written (s s' : Ramfs) (vno offset ret : ℕ) (buf : List ℕ) (inode : Inode) : Type 0 where
  pub counted : ret ≡ min (length buf) (page_bytes - offset)
  pub read_back : ramfs_read s' vno offset ret ≡ some (take ret buf)
  pub file :
      (inode' : Inode) × (vn' : Vnode) × IsFile s' vno inode' vn'
      × (inode'.rf_size ≡ max inode.rf_size (offset + ret))
      × ((j : ℕ) → j < offset ⊎ offset + ret ≤ j → inode'.rf_bytes j ≡ inode.rf_bytes j)
  pub others : (i : ℕ) → i ≢ vno → (s'.rfs_inodes i ≡ s.rfs_inodes i) × (s'.vnode i ≡ s.vnode i)

-- The inode and the state that a write of `ret` bytes leaves.
abbrev inode_after : Inode → Vnode → (offset ret : ℕ) → List ℕ → Inode
inode_after inode vn offset ret buf = record inode {
  rf_bytes = copy_in inode.rf_bytes offset (take ret buf);
  rf_size = max vn.vn_len (offset + ret);
}

abbrev after : Ramfs → (vno offset ret : ℕ) → List ℕ → Inode → Vnode → Ramfs
after s vno offset ret buf inode vn =
    set_vnode (set_inode s vno (some (inode_after inode vn offset ret buf))) vno
      (some (record vn { vn_len = max vn.vn_len (offset + ret) }))

ramfs_write_lem :
    (s : Ramfs) (vno offset ret : ℕ) (buf : List ℕ) (inode : Inode) (vn : Vnode)
    → IsFile s vno inode vn
    → offset ≤ page_bytes
    → length buf < 2 ^ 31
    → ret ≡ min (length buf) (page_bytes - offset)
    → ramfs_write s vno offset buf ≡ some (ret, after s vno offset ret buf inode vn)
unfolding ramfs_write
ramfs_write_lem s vno offset ret buf inode vn file h short e =
    ground (arith, file.stored, file.used, file.regular, file.in_step, h, short, e)

read_back_lem :
    (s : Ramfs) (vno offset ret : ℕ) (buf : List ℕ) (inode : Inode) (vn : Vnode)
    → IsFile s vno inode vn
    → ret ≤ length buf
    → ret ≤ page_bytes
    → ramfs_read (after s vno offset ret buf inode vn) vno offset ret ≡ some (take ret buf)
unfolding ramfs_read
read_back_lem s vno offset ret buf inode vn file h page =
    let same : length (take ret buf) ≡ ret = omega (arith, length-take ret buf, h) in
    let back = bytes_from-copy_in inode.rf_bytes offset (take ret buf) in
    let count : min ret (max vn.vn_len (offset + ret) - offset) ≡ length (take ret buf) =
      omega (arith, same) in
    ground (arith, file.regular, count, back, page)

-- A write of less than 2 ^ 31 bytes to a regular file in use, at an offset in the page, writes what fits into the page: reading
-- at the offset gives it back, every other byte and every other inode and vnode stays, the size grows
-- to the end of what was written, never beyond a page, and stays in step with the length of the vnode.
pub ramfs_write-ramfs_read :
    (s : Ramfs) (vno offset : ℕ) (buf : List ℕ) (inode : Inode) (vn : Vnode)
    → IsFile s vno inode vn
    → offset ≤ page_bytes
    → length buf < 2 ^ 31
    → (ret : ℕ) × (s' : Ramfs) × (ramfs_write s vno offset buf ≡ some (ret, s'))
      × Written s s' vno offset ret buf inode
ramfs_write-ramfs_read s vno offset buf inode vn file h bound =
    let ret = min (length buf) (page_bytes - offset) in
    let short : ret ≤ length buf = omega arith in
    let size : length (take ret buf) ≡ ret = omega (arith, length-take ret buf, short) in
    (
      ret,
      after s vno offset ret buf inode vn,
      ramfs_write_lem s vno offset ret buf inode vn file h bound refl,
      record {
        counted = refl;
        read_back = read_back_lem s vno offset ret buf inode vn file short (omega arith);
        file = (
          inode_after inode vn offset ret buf,
          record vn { vn_len = max vn.vn_len (offset + ret) },
          record {
            stored = ground arith;
            used = ground arith;
            regular = file.regular;
            in_step = refl;
            fits = omega (arith, file.in_step, file.fits, h);
          },
          omega (arith, file.in_step),
          λ j side. elim side [
            | inl low ↦ copy_in_before inode.rf_bytes offset (take ret buf) j low
            | inr high ↦
                copy_in_after inode.rf_bytes offset (take ret buf) j (omega (arith, size, high))
          ],
        );
        others = λ i ne. (ground (arith, ne), ground (arith, ne));
      },
    )
