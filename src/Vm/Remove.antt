-- ===== src/Vm/Remove.antt =====
-- `vmmap_remove` of kernel/vm/vmmap.c, on the linked list that it walks and changes.
use weenix_assignment.Base.{
  ℕ, zero, suc, ◌+◌, ◌&&◌, Option, none, some, List, [], ◌∷◌, ◌++◌, ltb, leb, if◌then◌else◌, ◌>>=◌,
  get_elem?, set, erase_idx, length, add32, sub32,
}
use weenix_assignment.Vm.Page.{pn_to_addr}
use weenix_assignment.Vm.Area.{Area, insert_index, vmmap_insert}

-- The calls that leave the list of areas: on memory objects, the TLB and the page table.
pub data Effect : Type 0 where
  ref_obj put_obj : ℕ → Effect
  tlb_flush_all : Effect
  pt_unmap_range : (vlow vhigh : ℕ) → Effect

-- The four cases of the comment over `vmmap_remove`, in the order of the code's tests.
pub data Overlap : Type 0 where
  inside tail front whole apart : Overlap

unfoldable pub overlap : Area → ℕ → ℕ → Overlap
overlap vm lo hi =
    if ltb hi vm.vma_end && ltb vm.vma_start lo
    then inside
    else if leb vm.vma_end hi && (ltb vm.vma_start lo && ltb lo vm.vma_end)
    then tail
    else if ltb hi vm.vma_end && (leb lo vm.vma_start && ltb vm.vma_start hi)
    then front
    else if leb vm.vma_end hi && leb lo vm.vma_start
    then whole
    else apart

-- The area behind the hole: it starts at `hi`, and its offset moves along.
abbrev pub upper_part : Area → ℕ → Area
upper_part vm hi = record vm { vma_start = hi; vma_off = sub32 (add32 vm.vma_off hi) vm.vma_start }

abbrev pub lower_part : Area → ℕ → Area
lower_part vm lo = record vm { vma_end = lo }

-- The body of the loop at the area `vm` of index `i`: the areas, the index of the node that the
-- iteration had saved as the next one, and the calls. `none` is a failed KASSERT or a null object.
unfoldable pub remove_case :
    Overlap → ℕ → ℕ → List Area → ℕ → Area → Option (List Area × ℕ × List Effect)
remove_case c lo hi areas i vm = elim c [
  | inside ↦ (do
    areas' ← vmmap_insert areas (upper_part vm hi)
    o ← vm.vma_obj
    let k = insert_index areas (upper_part vm hi)
    some (
      set areas' (if leb k i then i + 1 else i) (lower_part vm lo),
      (if leb k (i + 1) then i + 2 else i + 1),
      ref_obj o ∷ [],
    ))
  | tail ↦ some (set areas i (lower_part vm lo), i + 1, [])
  | front ↦ some (set areas i (upper_part vm hi), i + 1, [])
  | whole ↦ (do o ← vm.vma_obj; some (erase_idx areas i, i, put_obj o ∷ []))
  | apart ↦ some (areas, i + 1, [])
]

unfoldable pub remove_step : ℕ → ℕ → List Area → ℕ → Area → Option (List Area × ℕ × List Effect)
remove_step lo hi areas i vm = remove_case (overlap vm lo hi) lo hi areas i vm

-- `list_iterate_begin` over the areas, from the index `i`, on fuel.
unfoldable pub remove_loop : ℕ → ℕ → ℕ → List Area → ℕ → Option (List Area × List Effect)
remove_loop zero lo hi areas i = none
remove_loop (suc f) lo hi areas i = elim (get_elem? areas i) [
  | none ↦ some (areas, [])
  | some vm ↦ elim (remove_step lo hi areas i vm) [
    | none ↦ none
    | some (areas', next, calls) ↦ elim (remove_loop f lo hi areas' next) [
      | none ↦ none
      | some (areas'', later) ↦ some (areas'', calls ++ later)
    ]
  ]
]

unfoldable pub vmmap_remove : List Area → ℕ → ℕ → Option (List Area × List Effect)
vmmap_remove areas lopage npages =
    let hi = add32 lopage npages in
    elim (remove_loop (suc (length areas)) lopage hi areas 0) [
      | none ↦ none
      | some (areas', calls) ↦
          some (
            areas',
            calls ++ tlb_flush_all ∷ pt_unmap_range (pn_to_addr lopage) (pn_to_addr hi) ∷ [],
          )
    ]
