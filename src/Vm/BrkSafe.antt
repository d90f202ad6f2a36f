-- ===== src/Vm/BrkSafe.antt =====
-- What `do_brk` promises: the break moves, and only the heap's own pages with it.
use weenix_assignment.Base.{
  ℕ, ◌+◌, ◌≤◌, ◌<◌, ◌^◌, ◌≡◌, refl, ◌&&◌, Option, none, some, List, [], arith, ltb, leb,
  if◌then◌else◌, sub32, All, Result, ok, err, enomem, ◌⊎◌, inl, inr, Bool-cases, dec_lt,
}
use weenix_assignment.Vm.Page.{user_mem_high, user_low_pn, user_high_pn, addr_to_pn, page_align_up}
use weenix_assignment.Vm.Area.{Area, vmmap_lookup}
use weenix_assignment.Vm.Remove.{Effect}
use weenix_assignment.Vm.Valid.{IsArea, IsMap, mapping, page_at, vmmap_lookup-IsArea}
use weenix_assignment.Vm.Insert.{vmmap_is_range_empty_lem, range_free_of_none}
use weenix_assignment.Vm.RemoveLoop.{HasObj}
use weenix_assignment.Vm.Unmap.{vmmap_remove-page_at}
use weenix_assignment.Vm.Brk.{
  Break, set_end, move_end, do_brk, set_end-SortedFrom, set_end-page_at, set_end-HasObj,
}

-- The pages after the area `vm` has been made to end at `end`.
abbrev pub MovedPages : List Area → Area → ℕ → List Area → Type 0
MovedPages areas vm end areas' =
    (v : ℕ)
    → page_at areas' v ≡ (
        if leb vm.vma_end v && ltb v end
        then some (mapping vm v)
        else (if leb end v && ltb v vm.vma_end then none else page_at areas v))

-- Some page between the old end and the new one is mapped.
abbrev pub Blocked : List Area → Area → ℕ → Type 0
Blocked areas vm end = ¬ ((v : ℕ) → vm.vma_end ≤ v → v < end → vmmap_lookup areas v ≡ none)

abbrev Moved : List Area → Area → ℕ → Option (List Area × List Effect) → Type 0
Moved areas vm end none = Blocked areas vm end
Moved areas vm end (some (areas', calls)) =
    IsMap areas' × All HasObj areas' × MovedPages areas vm end areas'

module _ (areas : List Area) (vfn end : ℕ) (vm : Area) (s : IsMap areas) (objs : All HasObj areas)
    (found : vmmap_lookup areas vfn ≡ some vm) (room : end ≤ user_high_pn)
    (fit : vm.vma_off + end < 2 ^ 32 + vm.vma_start) where
  abbrev End : Type 0
  End =
      (m : Option (List Area × List Effect)) × (move_end areas vfn vm.vma_end end ≡ some m)
      × Moved areas vm end m

  area : (user_low_pn ≤ vm.vma_start) × IsArea vm × (vm.vma_start ≤ vfn) × (vfn < vm.vma_end)
  area = vmmap_lookup-IsArea user_low_pn areas vfn vm s found

  grow : vm.vma_end < end → End
  unfolding move_end
  grow more =
      let n : ℕ = sub32 end vm.vma_end in
      let (empty, e, iff) =
        vmmap_is_range_empty_lem areas vm.vma_end n s (omega (arith, area)) (omega (arith, area))
          (omega (arith, area)) in
      elim (Bool-cases empty) [
        | inl free ↦
            let unmapped : (v : ℕ) → vm.vma_end ≤ v → v < end → vmmap_lookup areas v ≡ none =
              λ v p q. iff.0 free v p (omega (arith, area)) in
            let clear = range_free_of_none user_low_pn areas vm.vma_end end s more unmapped in
            (
              some (set_end areas vfn end, []),
              ground (arith, e, free),
              (
                set_end-SortedFrom vfn end vm room more user_low_pn areas s found fit clear,
                set_end-HasObj areas vfn end objs,
                λ v.
                    ground
                      (arith, set_end-page_at vfn end vm room more user_low_pn areas v s found),
              ),
            )
        | inr full ↦ (
          none,
          ground (arith, e, full),
          λ unmapped. ground (arith, full, iff.1 (λ v p q. unmapped v p (omega (arith, area)))),
        )
      ]

  shrink : end < vm.vma_end → user_low_pn ≤ end → End
  unfolding move_end
  shrink less low =
      let n : ℕ = sub32 vm.vma_end end in
      let (areas', calls, e, s', objs', pages) =
        vmmap_remove-page_at areas end n s objs (omega (arith, area)) in
      (some (areas', calls), ground (arith, e), (s', objs', λ v. ground (arith, pages v, area)))

  same : vm.vma_end ≡ end → End
  unfolding move_end
  same e = (some (areas, []), ground arith, (s, objs, λ v. ground arith))

  pub move_end-Moved : user_low_pn ≤ end → End
  move_end-Moved low = elim (dec_lt vm.vma_end end) [
    | yes more ↦ grow more
    | no le ↦ elim (dec_lt end vm.vma_end) [
      | yes less ↦ shrink less low
      | no ge ↦ same (omega arith)
    ]
  ]

abbrev pub new_end : ℕ → ℕ
new_end addr = addr_to_pn (page_align_up addr)

-- The two outcomes of a request in bounds.
abbrev pub BrkOutcome : Break → Area → ℕ → Result ℕ → Break → Type 0
BrkOutcome p vm addr r p' =
    (r ≡ err enomem) × (p' ≡ p) × Blocked p.p_vmmap vm (new_end addr)
    ⊎ (r ≡ ok addr)
      × (p'.p_brk ≡ addr)
      × (p'.p_start_brk ≡ p.p_start_brk)
      × IsMap p'.p_vmmap
      × All HasObj p'.p_vmmap
      × MovedPages p.p_vmmap vm (new_end addr) p'.p_vmmap

-- For an address between the starting break and the end of user space, in a well-formed address
-- space whose area `vm` holds the starting break, `do_brk` does not fault. Either a page between the
-- end of `vm` and the new end is mapped, and it returns -ENOMEM and changes nothing; or it returns
-- the address as the new break, keeps the address space well-formed, and maps or unmaps exactly the
-- pages between the old end of `vm` and the new one.
pub do_brk_lem :
    (p : Break) (addr : ℕ) (vm : Area)
    → IsMap p.p_vmmap
    → All HasObj p.p_vmmap
    → vmmap_lookup p.p_vmmap (addr_to_pn p.p_start_brk) ≡ some vm
    → p.p_start_brk ≤ addr
    → addr ≤ user_mem_high
    → vm.vma_off + user_high_pn < 2 ^ 32 + vm.vma_start
    → (r : Result ℕ) × (p' : Break) × (calls : List Effect) × (do_brk p addr ≡ some (r, p', calls))
      × BrkOutcome p vm addr r p'
unfolding do_brk
do_brk_lem p addr vm s objs found low high fit =
    let area = vmmap_lookup-IsArea user_low_pn p.p_vmmap (addr_to_pn p.p_start_brk) vm s found in
    let (m, e, moved) =
      move_end-Moved p.p_vmmap (addr_to_pn p.p_start_brk) (new_end addr) vm s objs found
        (omega arith) (omega (arith, area)) (omega (arith, area)) in
    finish m e moved area
  where
    finish :
        (m : Option (List Area × List Effect))
        → move_end p.p_vmmap (addr_to_pn p.p_start_brk) vm.vma_end (new_end addr) ≡ some m
        → Moved p.p_vmmap vm (new_end addr) m
        → (user_low_pn ≤ vm.vma_start)
          × IsArea vm
          × (vm.vma_start ≤ addr_to_pn p.p_start_brk)
          × (addr_to_pn p.p_start_brk < vm.vma_end)
        → (r : Result ℕ) × (p' : Break) × (calls : List Effect) × (do_brk p addr
            ≡ some (r, p', calls))
          × BrkOutcome p vm addr r p'
    finish none e moved area =
        (err enomem, p, [], ground (arith, e, found, area), inl (refl, refl, moved))
    finish (some (areas', calls)) e moved area = (
      ok addr,
      record p { p_vmmap = areas'; p_brk = addr },
      calls,
      ground (arith, e, found, area),
      inr (refl, refl, refl, moved.0, moved.1, moved.2),
    )
