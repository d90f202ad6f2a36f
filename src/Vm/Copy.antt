-- ===== src/Vm/Copy.antt =====
-- What copies from user memory promise.
use weenix_assignment.Base.{
  ℕ, zero, suc, ◌+◌, ◌-◌, ◌%◌, ◌^◌, ◌≤◌, ◌<◌, ◌≡◌, ◌⊎◌, true, false, none, some, List, [], arith,
  ltb, add32, is_some, ok, err, efault, All, Bool-cases, inl, inr,
}
use weenix_assignment.Vm.Page.{page_size, addr_to_pn, page_offset}
use weenix_assignment.Vm.Area.{Area, vmmap_lookup}
use weenix_assignment.Vm.Valid.{IsMap}
use weenix_assignment.Vm.RemoveLoop.{HasObj}
use weenix_assignment.Vm.Access.{
  Frames, prot_read, addr_perm, range_perm_loop, range_perm, chunk, read_loop, vmmap_read,
  copy_from_user,
}
use weenix_assignment.Vm.Perm.{Covered, range_perm_lem}
use weenix_assignment.Vm.Read.{bytes_at, Loads, vmmap_read-bytes_at, area_found}

-- A copy from a page-aligned user range whose mapped pages can be looked up does not fault: it returns
-- -EFAULT if some address of the range is in no area, and the bytes of the range otherwise. It does not
-- look at the protection of the areas: pages that may not be read are copied too.
pub copy_from_user_aligned :
    (mem : Frames) (areas : List Area) (uaddr nbytes : ℕ)
    → IsMap areas
    → All HasObj areas
    → uaddr % 2 ^ 12 ≡ 0
    → uaddr + nbytes + 2 ^ 12 < 2 ^ 32
    → Loads mem areas uaddr (uaddr + nbytes)
    → (copy_from_user mem areas uaddr nbytes ≡ some (err efault))
        × (¬ Covered areas uaddr (uaddr + nbytes))
      ⊎ (copy_from_user mem areas uaddr nbytes ≡ some (ok (bytes_at mem areas uaddr nbytes)))
        × Covered areas uaddr (uaddr + nbytes)
unfolding copy_from_user
copy_from_user_aligned mem areas uaddr nbytes s objs aligned fits loads =
    let (b, run, iff) = range_perm_lem areas uaddr nbytes prot_read aligned fits in
    elim (Bool-cases b) [
      | inl yes' ↦
          let cov = iff.0 yes' in
          inr (
            ground (
              arith,
              run,
              yes',
              vmmap_read-bytes_at mem areas uaddr nbytes s objs (omega arith) cov loads,
            ),
            cov,
          )
      | inr no' ↦ inl (ground (arith, run, no'), λ cov. cc (no', iff.1 cov))
    ]

module _ (mem : Frames) (areas : List Area) (uaddr nbytes : ℕ) (fits : uaddr + nbytes < 2 ^ 32)
    (small : nbytes ≤ 2 ^ 12) (cross : 2 ^ 12 < page_offset uaddr + nbytes) where
  range_perm_short :
      is_some (vmmap_lookup areas (addr_to_pn uaddr)) ≡ true
      → range_perm areas uaddr nbytes prot_read ≡ some true
  unfolding range_perm range_perm_loop addr_perm
  range_perm_short first =
      let here : add32 uaddr 0 ≡ uaddr = omega arith in
      let over : ltb (add32 0 page_size) nbytes ≡ false = ground arith in
      let under : ltb 0 nbytes ≡ true = ground arith in ground (arith, here, over, under)

  read_falls :
      (f : ℕ) (vma : Area) (o : ℕ)
      → vmmap_lookup areas (addr_to_pn uaddr) ≡ some vma
      → vma.vma_obj ≡ some o
      → vmmap_lookup areas (addr_to_pn uaddr + 1) ≡ none
      → read_loop (suc (suc f)) mem areas uaddr (uaddr + nbytes) nbytes 0 [] ≡ none
  unfolding read_loop chunk
  read_falls f vma o found obj second =
      let n = 2 ^ 12 - page_offset uaddr in
      let part : chunk nbytes 0 (page_offset uaddr) ≡ n = ground arith in
      let test : ltb uaddr (uaddr + nbytes) ≡ true = ground arith in
      let test' : ltb (add32 uaddr n) (uaddr + nbytes) ≡ true = ground arith in
      let next : addr_to_pn (add32 uaddr n) ≡ addr_to_pn uaddr + 1 = omega arith in
      ground (arith, part, test, test', next)

-- A copy of at most one page that starts in a mapped page and ends in an unmapped one makes the
-- kernel dereference a null area: `range_perm` looks at the first of the two pages alone.
pub copy_from_user_unaligned :
    (mem : Frames) (areas : List Area) (uaddr nbytes : ℕ)
    → All HasObj areas
    → uaddr + nbytes < 2 ^ 32
    → nbytes ≤ 2 ^ 12
    → 2 ^ 12 < page_offset uaddr + nbytes
    → is_some (vmmap_lookup areas (addr_to_pn uaddr)) ≡ true
    → vmmap_lookup areas (addr_to_pn uaddr + 1) ≡ none
    → copy_from_user mem areas uaddr nbytes ≡ none
unfolding copy_from_user vmmap_read
copy_from_user_unaligned mem areas uaddr zero objs fits small cross first second =
    absurd (omega arith)
copy_from_user_unaligned mem areas uaddr (suc k) objs fits small cross first second =
    let (vma, o, found, obj) = area_found areas (addr_to_pn uaddr) objs first in
    let end : add32 uaddr (suc k) ≡ uaddr + suc k = omega arith in
    ground (
      arith,
      range_perm_short mem areas uaddr (suc k) fits small cross first,
      end,
      read_falls mem areas uaddr (suc k) fits small cross k vma o found obj second,
    )
