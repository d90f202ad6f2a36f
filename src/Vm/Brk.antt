-- ===== src/Vm/Brk.antt =====
-- `do_brk` of kernel/vm/brk.c.
use weenix_assignment.Base.{
  ℕ, ◌+◌, ◌≤◌, ◌<◌, ◌^◌, ◌≡◌, true, ◌&&◌, Option, none, some, List, [], ◌∷◌, arith, ltb, leb, ◌==◌,
  if◌then◌else◌, ◌>>=◌, sub32, All, Result, ok, err, enomem, inl, inr, Bool-cases,
}
use weenix_assignment.Vm.Page.{user_mem_high, user_high_pn, addr_to_pn, page_align_up}
use weenix_assignment.Vm.Area.{Area, covers, vmmap_lookup, range_free, vmmap_is_range_empty}
use weenix_assignment.Vm.Remove.{Effect, vmmap_remove}
use weenix_assignment.Vm.Valid.{SortedFrom, mapping, page_at, vmmap_lookup-IsArea}
use weenix_assignment.Vm.RemoveLoop.{HasObj}

-- The part of `proc_t` that `do_brk` works on.
pub record Break : Type 0 where
  pub p_vmmap : List Area
  pub p_brk : ℕ
  pub p_start_brk : ℕ

-- `vmarea->vma_end = end` for the area that covers a page.
unfoldable pub set_end : List Area → ℕ → ℕ → List Area
set_end [] vfn end = []
set_end (vm ∷ rest) vfn end =
    if covers vm vfn then record vm { vma_end = end } ∷ rest else vm ∷ set_end rest vfn end

-- Growing or shrinking the area from `start_addr` to `end_addr`; `none` in the result is -ENOMEM.
unfoldable pub move_end :
    List Area → (vfn start_addr end_addr : ℕ) → Option (Option (List Area × List Effect))
move_end areas vfn start_addr end_addr =
    if ltb start_addr end_addr
    then (do
      empty ← vmmap_is_range_empty areas start_addr (sub32 end_addr start_addr)
      some (if empty then some (set_end areas vfn end_addr, []) else none))
    else if ltb end_addr start_addr
    then (do
      (areas', calls) ← vmmap_remove areas end_addr (sub32 start_addr end_addr)
      some (some (areas', calls)))
    else some (some (areas, []))

-- `none` is a null dereference or a failed KASSERT.
unfoldable pub do_brk : Break → ℕ → Option (Result ℕ × Break × List Effect)
unfolding move_end
do_brk p addr =
    if addr == 0
    then some (ok p.p_brk, p, [])
    else if leb p.p_start_brk addr && leb addr user_mem_high
    then (do
      let vfn = addr_to_pn p.p_start_brk
      vmarea ← vmmap_lookup p.p_vmmap vfn
      moved ← move_end p.p_vmmap vfn vmarea.vma_end (addr_to_pn (page_align_up addr))
      some (elim moved [
        | none ↦ (err enomem, p, [])
        | some (areas', calls) ↦ (ok addr, record p { p_vmmap = areas'; p_brk = addr }, calls)
      ]))
    else some (err enomem, p, [])

SortedFrom-raise :
    (b c : ℕ) (areas : List Area)
    → SortedFrom b areas
    → b < c
    → range_free areas b c ≡ true
    → SortedFrom c areas
unfolding range_free
SortedFrom-raise b c [] s h free = tt
SortedFrom-raise b c (a ∷ rest) s h free = ground (arith, s.1)

range_free_tail :
    (a : Area) (rest : List Area) (lo hi : ℕ)
    → range_free (a ∷ rest) lo hi ≡ true
    → range_free rest lo hi ≡ true
unfolding range_free
range_free_tail a rest lo hi free = ground arith

module _ (vfn end : ℕ) (vm : Area) (room : end ≤ user_high_pn) (more : vm.vma_end < end) where
  pub set_end-SortedFrom :
      (b : ℕ) (areas : List Area)
      → SortedFrom b areas
      → vmmap_lookup areas vfn ≡ some vm
      → vm.vma_off + end < 2 ^ 32 + vm.vma_start
      → range_free areas vm.vma_end end ≡ true
      → SortedFrom b (set_end areas vfn end)
  unfolding vmmap_lookup set_end
  set_end-SortedFrom b [] s found fit free = cc
  set_end-SortedFrom b (a ∷ rest) s found fit free =
      let free' = range_free_tail a rest vm.vma_end end free in
      elim (Bool-cases (covers a vfn)) [
        | inl hit ↦
            let same : vm ≡ a = ground arith in
            ground (arith, s.1, SortedFrom-raise a.vma_end end rest s.2)
        | inr miss ↦
            rw miss (s.0, s.1, set_end-SortedFrom a.vma_end rest s.2 (rw miss at found) fit free')
      ]

  pub set_end-page_at :
      (b : ℕ) (areas : List Area) (v : ℕ)
      → SortedFrom b areas
      → vmmap_lookup areas vfn ≡ some vm
      → page_at (set_end areas vfn end) v
        ≡ (if leb vm.vma_end v && ltb v end then some (mapping vm v) else page_at areas v)
  unfolding vmmap_lookup set_end
  set_end-page_at b [] v s found = cc
  set_end-page_at b (a ∷ rest) v s found = elim (Bool-cases (covers a vfn)) [
    | inl hit ↦ ground (arith, s.1)
    | inr miss ↦
        let found' : vmmap_lookup rest vfn ≡ some vm = rw miss at found in
        ground (
          arith,
          s.1,
          miss,
          vmmap_lookup-IsArea a.vma_end rest vfn vm s.2 found',
          set_end-page_at a.vma_end rest v s.2 found',
        )
  ]

pub set_end-HasObj :
    (areas : List Area) (vfn end : ℕ) → All HasObj areas → All HasObj (set_end areas vfn end)
unfolding set_end
set_end-HasObj [] vfn end h = tt
set_end-HasObj (a ∷ rest) vfn end h = ground (arith, set_end-HasObj rest vfn end h.1)
