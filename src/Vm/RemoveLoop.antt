-- ===== src/Vm/RemoveLoop.antt =====
-- The loop of `vmmap_remove` does to the list what `carve` describes, although it inserts, shortens
-- and unlinks areas of the list that it walks.
use weenix_assignment.Base.{
  ℕ, zero, suc, ◌+◌, ◌≤◌, ◌<◌, ◌^◌, ◌≡◌, refl, true, Option, some, List, [], ◌∷◌, ◌++◌, arith, All,
  length, set, is_some, length-append, get_elem?-length, get_elem?-append, set-append,
  erase_idx-append, add32,
}
use mathlib.Core.List.{append_assoc, append-nil}
use weenix_assignment.Vm.Page.{user_low_pn, pn_to_addr}
use weenix_assignment.Vm.Area.{Area, insert_area, insert_index, vmmap_insert}
use weenix_assignment.Vm.Remove.{
  Effect, ref_obj, put_obj, tlb_flush_all, pt_unmap_range, Overlap, inside, tail, front, whole,
  apart, overlap, upper_part, lower_part, remove_case, remove_step, remove_loop, vmmap_remove,
}
use weenix_assignment.Vm.Valid.{IsArea, SortedFrom, IsMap}
use weenix_assignment.Vm.Carve.{pieces, carve}

abbrev pub HasObj : Area → Type 0
HasObj vm = is_some vm.vma_obj ≡ true

obj_of : (vm : Area) → HasObj vm → (o : ℕ) × (vm.vma_obj ≡ some o)
obj_of vm h = ground arith

abbrev StartsBy : ℕ → Area → Type 0
StartsBy b vm = vm.vma_start ≤ b

StartsBy-weaken : {b c : ℕ} (pre : List Area) → b ≤ c → All (StartsBy b) pre → All (StartsBy c) pre
StartsBy-weaken [] h s = tt
StartsBy-weaken (a ∷ pre) h s = (omega arith, StartsBy-weaken pre h s.1)

pub All-append {ℓ κ} :
    {A : Type ℓ} (P : A → Type κ) (xs ys : List A) → All P xs → All P ys → All P (xs ++ ys)
All-append P [] ys h k = k
All-append P (x ∷ xs) ys h k = (h.0, All-append P xs ys h.1 k)

module _ (vm new : Area) (rest : List Area) (lt : vm.vma_start < new.vma_end)
    (s : SortedFrom new.vma_end rest) where
  insert_area-behind :
      (b : ℕ) (pre : List Area)
      → All (StartsBy b) pre
      → b < new.vma_end
      → (insert_area (pre ++ vm ∷ rest) new ≡ pre ++ vm ∷ new ∷ rest)
        × (insert_index (pre ++ vm ∷ rest) new ≡ length pre + 1)
  unfolding insert_area insert_index
  insert_area-behind b [] h k = in_front rest s
    where
      in_front :
          (l : List Area)
          → SortedFrom new.vma_end l
          → (insert_area (vm ∷ l) new ≡ vm ∷ new ∷ l) × (insert_index (vm ∷ l) new ≡ 1)
      in_front [] t = ground arith
      in_front (c ∷ l) t = ground arith
  insert_area-behind b (a ∷ pre) h k = ground (arith, insert_area-behind b pre h.1 k)

-- The calls that the removal makes on the objects.
abbrev pub area_calls : Overlap → Option ℕ → List Effect
area_calls inside (some o) = ref_obj o ∷ []
area_calls whole (some o) = put_obj o ∷ []
area_calls _ _ = []

abbrev pub remove_calls : ℕ → ℕ → List Area → List Effect
remove_calls lo hi [] = []
remove_calls lo hi (vm ∷ rest) = area_calls (overlap vm lo hi) vm.vma_obj ++ remove_calls lo hi rest

abbrev pieces_of : Overlap → ℕ → ℕ → Area → List Area
pieces_of inside lo hi vm = lower_part vm lo ∷ upper_part vm hi ∷ []
pieces_of tail lo hi vm = lower_part vm lo ∷ []
pieces_of front lo hi vm = upper_part vm hi ∷ []
pieces_of whole lo hi vm = []
pieces_of apart lo hi vm = vm ∷ []

pieces_of-overlap :
    (lo hi : ℕ) (vm : Area)
    → lo ≤ hi
    → IsArea vm
    → pieces_of (overlap vm lo hi) lo hi vm ≡ pieces lo hi vm
unfolding overlap
pieces_of-overlap lo hi vm order v = ground (arith, v)

inside_bounds :
    (lo hi : ℕ) (vm : Area) → overlap vm lo hi ≡ inside → (hi < vm.vma_end) × (vm.vma_start < lo)
unfolding overlap
inside_bounds lo hi vm e = ground arith

module _ (lo hi : ℕ) (order : lo ≤ hi) (b : ℕ) (pre : List Area) (vm : Area) (rest : List Area)
    (s : SortedFrom b (vm ∷ rest)) (before : All (StartsBy b) pre) (o : ℕ)
    (obj : vm.vma_obj ≡ some o) where
  abbrev Stepped : Overlap → List Area → Type 0
  Stepped c left =
      remove_case c lo hi (pre ++ vm ∷ rest) (length pre) vm
      ≡ some (left ++ rest, length left, area_calls c (some o))

  set-pieces :
      (new : Area)
      → ◌≡◌ {A = Option (List Area × ℕ × List Effect)}
          (some (set (pre ++ vm ∷ rest) (length pre) new, length pre + 1, []))
          (some ((pre ++ new ∷ []) ++ rest, length (pre ++ new ∷ []), []))
  set-pieces new =
      rw (set-append pre rest vm new, length-append, append_assoc pre (new ∷ []) rest) refl

  behind :
      (hi < vm.vma_end) × (vm.vma_start < lo)
      → (insert_area (pre ++ vm ∷ rest) (upper_part vm hi) ≡ pre ++ vm ∷ upper_part vm hi ∷ rest)
        × (insert_index (pre ++ vm ∷ rest) (upper_part vm hi) ≡ length pre + 1)
  behind h =
      insert_area-behind vm (upper_part vm hi) rest (omega (arith, s.1)) s.2 b pre before
        (omega (arith, s.1))

  inserted :
      (hi < vm.vma_end) × (vm.vma_start < lo)
      → vmmap_insert (pre ++ vm ∷ rest) (upper_part vm hi)
        ≡ some (pre ++ vm ∷ upper_part vm hi ∷ rest)
  unfolding vmmap_insert
  inserted h = ground (arith, s.1, behind h)

  remove_inside :
      (hi < vm.vma_end) × (vm.vma_start < lo) → Stepped inside (pre ++ pieces_of inside lo hi vm)
  unfolding remove_case
  remove_inside h = ground (
    arith,
    inserted h,
    (behind h).1,
    set-append pre (upper_part vm hi ∷ rest) vm (lower_part vm lo),
    length-append pre (lower_part vm lo ∷ upper_part vm hi ∷ []),
    append_assoc pre (lower_part vm lo ∷ upper_part vm hi ∷ []) rest,
  )

  remove_case-pieces :
      (c : Overlap) → overlap vm lo hi ≡ c → Stepped c (pre ++ pieces_of c lo hi vm)
  unfolding remove_case
  remove_case-pieces inside e = remove_inside (inside_bounds lo hi vm e)
  remove_case-pieces tail e = set-pieces (lower_part vm lo)
  remove_case-pieces front e = set-pieces (upper_part vm hi)
  remove_case-pieces whole e = ground (arith, erase_idx-append pre rest vm, append-nil pre)
  remove_case-pieces apart e = rw (length-append, append_assoc pre (vm ∷ []) rest) refl

  remove_step-pieces :
      remove_step lo hi (pre ++ vm ∷ rest) (length pre) vm
      ≡ some (
        (pre ++ pieces lo hi vm) ++ rest,
        length (pre ++ pieces lo hi vm),
        area_calls (overlap vm lo hi) vm.vma_obj,
      )
  unfolding remove_step
  remove_step-pieces =
      ground
        (arith, remove_case-pieces (overlap vm lo hi) refl, pieces_of-overlap lo hi vm order s.1)

pieces-StartsBy :
    (lo hi : ℕ) (vm : Area) → lo ≤ hi → IsArea vm → All (StartsBy vm.vma_end) (pieces lo hi vm)
pieces-StartsBy lo hi vm order v = ground (arith, v)

remove_loop-carve :
    (lo hi fuel b : ℕ) (pre areas : List Area)
    → lo ≤ hi
    → SortedFrom b areas
    → All HasObj areas
    → All (StartsBy b) pre
    → length areas < fuel
    → remove_loop fuel lo hi (pre ++ areas) (length pre)
      ≡ some (pre ++ carve lo hi areas, remove_calls lo hi areas)
unfolding remove_loop
remove_loop-carve lo hi zero b pre areas order s objs before fuel = absurd (omega arith)
remove_loop-carve lo hi (suc f) b pre [] order s objs before fuel =
    ground (arith, append-nil pre, get_elem?-length pre)
remove_loop-carve lo hi (suc f) b pre (vm ∷ rest) order s objs before fuel =
    let (o, obj) = obj_of vm objs.0 in
    ground (
      arith,
      get_elem?-append pre rest vm,
      remove_step-pieces lo hi order b pre vm rest s before o obj,
      remove_loop-carve lo hi f vm.vma_end (pre ++ pieces lo hi vm) rest order s.2 objs.1
          (All-append (StartsBy vm.vma_end) pre (pieces lo hi vm)
            (StartsBy-weaken pre (omega (arith, s.0, s.1)) before)
            (pieces-StartsBy lo hi vm order s.1))
          (omega arith),
      append_assoc pre (pieces lo hi vm) (carve lo hi rest),
    )

-- The list that `vmmap_remove` leaves is the one that `carve` describes, with the calls of
-- `remove_calls` and then the flush of the TLB and of the page table.
pub vmmap_remove-carve :
    (areas : List Area) (lopage npages : ℕ)
    → IsMap areas
    → All HasObj areas
    → lopage + npages < 2 ^ 32
    → vmmap_remove areas lopage npages
      ≡ some (
        carve lopage (lopage + npages) areas,
        remove_calls lopage (lopage + npages) areas
            ++ tlb_flush_all
              ∷ pt_unmap_range (pn_to_addr lopage) (pn_to_addr (lopage + npages))
              ∷ [],
      )
unfolding vmmap_remove
vmmap_remove-carve areas lo n s objs top =
    let e : add32 lo n ≡ lo + n = omega arith in
    let done =
      remove_loop-carve lo (lo + n) (suc (length areas)) user_low_pn [] areas (omega arith) s objs
        tt (omega arith) in
    ground (arith, e, done)
