-- ===== src/Vm/Unmap.antt =====
-- What `vmmap_remove` promises: the pages of the range are gone, every other page is as it was, and
-- the reference counts of the objects follow the areas that hold them.
use weenix_assignment.Base.{
  ℕ, ◌+◌, ◌≤◌, ◌<◌, ◌^◌, ◌≡◌, refl, ◌&&◌, Option, none, some, List, [], ◌∷◌, ◌++◌, arith, ltb, leb,
  ◌==◌, if◌then◌else◌, All,
}
use weenix_assignment.Vm.Page.{user_low_pn, pn_to_addr}
use weenix_assignment.Vm.Area.{Area}
use weenix_assignment.Vm.Remove.{
  Effect, ref_obj, put_obj, tlb_flush_all, pt_unmap_range, overlap, vmmap_remove,
}
use weenix_assignment.Vm.Valid.{IsArea, SortedFrom, IsMap, page_at}
use weenix_assignment.Vm.Carve.{pieces, carve, carve-SortedFrom, carve-page_at}
use weenix_assignment.Vm.RemoveLoop.{
  HasObj, remove_calls, area_calls, vmmap_remove-carve, All-append,
}

pieces-HasObj : (lo hi : ℕ) (vm : Area) → HasObj vm → All HasObj (pieces lo hi vm)
pieces-HasObj lo hi vm h = ground arith

carve-HasObj : (lo hi : ℕ) (areas : List Area) → All HasObj areas → All HasObj (carve lo hi areas)
carve-HasObj lo hi [] h = tt
carve-HasObj lo hi (vm ∷ rest) h =
    All-append HasObj (pieces lo hi vm) (carve lo hi rest) (pieces-HasObj lo hi vm h.0)
      (carve-HasObj lo hi rest h.1)

pub vmmap_remove-page_at :
    (areas : List Area) (lopage npages : ℕ)
    → IsMap areas
    → All HasObj areas
    → lopage + npages < 2 ^ 32
    → (areas' : List Area) × (calls : List Effect) × (vmmap_remove areas lopage npages
        ≡ some (areas', calls))
      × IsMap areas'
      × All HasObj areas'
      × ((vfn : ℕ)
          → page_at areas' vfn
            ≡ (if leb lopage vfn && ltb vfn (lopage + npages) then none else page_at areas vfn))
vmmap_remove-page_at areas lo n s objs top = (
  carve lo (lo + n) areas,
  _,
  vmmap_remove-carve areas lo n s objs top,
  carve-SortedFrom lo (lo + n) (omega arith) top user_low_pn areas s,
  carve-HasObj lo (lo + n) areas objs,
  λ vfn. carve-page_at lo (lo + n) (omega arith) top user_low_pn areas vfn s,
)

-- The number of areas that hold an object, and of the calls that raise or lower its count.
abbrev obj_is : ℕ → Option ℕ → ℕ
obj_is o none = 0
obj_is o (some p) = if o == p then 1 else 0

abbrev pub holders : ℕ → List Area → ℕ
holders o [] = 0
holders o (vm ∷ rest) = obj_is o vm.vma_obj + holders o rest

abbrev pub refs : ℕ → List Effect → ℕ
refs o [] = 0
refs o (ref_obj p ∷ calls) = (if o == p then 1 else 0) + refs o calls
refs o (_ ∷ calls) = refs o calls

abbrev pub puts : ℕ → List Effect → ℕ
puts o [] = 0
puts o (put_obj p ∷ calls) = (if o == p then 1 else 0) + puts o calls
puts o (_ ∷ calls) = puts o calls

holders-append : (o : ℕ) (xs ys : List Area) → holders o (xs ++ ys) ≡ holders o xs + holders o ys
holders-append o [] ys = omega arith
holders-append o (x ∷ xs) ys = omega (arith, holders-append o xs ys)

refs-append : (o : ℕ) (xs ys : List Effect) → refs o (xs ++ ys) ≡ refs o xs + refs o ys
refs-append o [] ys = omega arith
refs-append o (ref_obj p ∷ xs) ys = omega (arith, refs-append o xs ys)
refs-append o (_ ∷ xs) ys = refs-append o xs ys

puts-append : (o : ℕ) (xs ys : List Effect) → puts o (xs ++ ys) ≡ puts o xs + puts o ys
puts-append o [] ys = omega arith
puts-append o (put_obj p ∷ xs) ys = omega (arith, puts-append o xs ys)
puts-append o (_ ∷ xs) ys = puts-append o xs ys

pieces-holders :
    (lo hi o : ℕ) (vm : Area)
    → lo ≤ hi
    → IsArea vm
    → holders o (pieces lo hi vm) + puts o (area_calls (overlap vm lo hi) vm.vma_obj)
      ≡ holders o (vm ∷ []) + refs o (area_calls (overlap vm lo hi) vm.vma_obj)
unfolding overlap
pieces-holders lo hi o vm order v = ground (arith, v)

carve-holders :
    (lo hi o b : ℕ) (areas : List Area)
    → lo ≤ hi
    → SortedFrom b areas
    → holders o (carve lo hi areas) + puts o (remove_calls lo hi areas)
      ≡ holders o areas + refs o (remove_calls lo hi areas)
carve-holders lo hi o b [] order s = refl
carve-holders lo hi o b (vm ∷ rest) order s =
    let calls = area_calls (overlap vm lo hi) vm.vma_obj in
    omega (
      arith,
      holders-append o (pieces lo hi vm) (carve lo hi rest),
      puts-append o calls (remove_calls lo hi rest),
      refs-append o calls (remove_calls lo hi rest),
      pieces-holders lo hi o vm order s.1,
      carve-holders lo hi o vm.vma_end rest order s.2,
    )

-- For every object, `vmmap_remove` calls `ref` and `put` just as often as the number of areas that
-- hold it grows and shrinks.
pub vmmap_remove-holders :
    (areas : List Area) (lopage npages o : ℕ) {areas' : List Area} {calls : List Effect}
    → IsMap areas
    → All HasObj areas
    → lopage + npages < 2 ^ 32
    → vmmap_remove areas lopage npages ≡ some (areas', calls)
    → holders o areas' + puts o calls ≡ holders o areas + refs o calls
vmmap_remove-holders areas lo n o {areas'} {calls} s objs top e =
    let tlb : List Effect =
      tlb_flush_all ∷ pt_unmap_range (pn_to_addr lo) (pn_to_addr (lo + n)) ∷ [] in
    let own = remove_calls lo (lo + n) areas in
    ground (
      arith,
      vmmap_remove-carve areas lo n s objs top,
      carve-holders lo (lo + n) o user_low_pn areas (omega arith) s,
      puts-append o own tlb,
      refs-append o own tlb,
    )
