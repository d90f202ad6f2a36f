-- ===== src/Vm/Area.antt =====
-- The list of areas of an address space: kernel/vm/vmmap.c without the calls that build or destroy
-- memory objects. `vmm_list` is the list in its order; `vma_vmmap` and the list links are left out.
use weenix_assignment.Base.{
  ℕ, suc, Bool, true, false, not, ◌&&◌, Option, none, some, List, [], ◌∷◌, ltb, leb, ◌==◌,
  if◌then◌else◌, ◌>>◌, kassert, add32, sub32,
}
use weenix_assignment.Vm.Page.{user_low_pn, user_high_pn}

-- `vmarea_t`; `none` is the null object.
pub record Area : Type 0 where
  pub vma_start : ℕ
  pub vma_end : ℕ
  pub vma_off : ℕ
  pub vma_prot : ℕ
  pub vma_flags : ℕ
  pub vma_obj : Option ℕ

abbrev pub covers : Area → ℕ → Bool
covers vm vfn = leb vm.vma_start vfn && ltb vfn vm.vma_end

unfoldable pub vmmap_lookup : List Area → ℕ → Option Area
vmmap_lookup [] vfn = none
vmmap_lookup (vm ∷ rest) vfn = if covers vm vfn then some vm else vmmap_lookup rest vfn

-- The loop of `vmmap_is_range_empty` over the areas, for the pages from `lo` to `hi`.
unfoldable pub range_free : List Area → ℕ → ℕ → Bool
range_free [] lo hi = true
range_free (vm ∷ rest) lo hi =
    if not (leb vm.vma_end lo) && not (leb hi vm.vma_start) then false else range_free rest lo hi

unfoldable pub vmmap_is_range_empty : List Area → ℕ → ℕ → Option Bool
unfolding range_free
vmmap_is_range_empty areas startvfn npages = do
  let hi = add32 startvfn npages
  kassert (ltb startvfn hi && leb user_low_pn startvfn && leb hi user_high_pn)
  some (range_free areas startvfn hi)

-- The loop of `vmmap_insert`: in front of the first area that starts behind the new one.
unfoldable pub insert_area : List Area → Area → List Area
insert_area [] new = new ∷ []
insert_area (cur ∷ rest) new =
    if leb new.vma_end cur.vma_start then new ∷ cur ∷ rest else cur ∷ insert_area rest new

-- Where that loop inserts.
unfoldable pub insert_index : List Area → Area → ℕ
insert_index [] new = 0
insert_index (cur ∷ rest) new =
    if leb new.vma_end cur.vma_start then 0 else suc (insert_index rest new)

unfoldable pub vmmap_insert : List Area → Area → Option (List Area)
unfolding insert_area
vmmap_insert areas new = do
  kassert (ltb new.vma_start new.vma_end)
  kassert (leb user_low_pn new.vma_start && leb new.vma_end user_high_pn)
  some (insert_area areas new)

abbrev pub vmmap_dir_lohi : ℕ
vmmap_dir_lohi = 1

abbrev pub vmmap_dir_hilo : ℕ
vmmap_dir_hilo = 2

-- The state of the downward scan: it goes on below `high`, or it has left the loop.
pub data Scan : Type 0 where
  go_on : ℕ → Scan
  break_with : (high result : ℕ) → Scan

unfoldable pub scan_area : ℕ → Area → Scan → Scan
scan_area npages vm (break_with high result) = break_with high result
scan_area npages vm (go_on high) =
    if ltb high (add32 npages vm.vma_end)
    then go_on vm.vma_start
    else break_with high (sub32 high npages)

-- `list_iterate_reverse`: the areas behind `vm` are visited before it.
unfoldable pub scan_down : ℕ → List Area → Scan
scan_down npages [] = go_on user_high_pn
scan_down npages (vm ∷ rest) = scan_area npages vm (scan_down npages rest)

unfoldable pub scan_high : Scan → ℕ
scan_high (go_on high) = high
scan_high (break_with high result) = high

unfoldable pub scan_result : Scan → Option ℕ
scan_result (go_on high) = none
scan_result (break_with high result) = some result

-- `none` is the result -1.
unfoldable pub vmmap_find_range : List Area → ℕ → ℕ → Option ℕ
unfolding scan_down scan_area scan_high scan_result
vmmap_find_range areas npages dir =
    if dir == vmmap_dir_hilo
    then (let s = scan_down npages areas in
        if leb (add32 npages user_low_pn) (scan_high s)
        then some (sub32 (scan_high s) npages)
        else scan_result s)
    else none

-- The copies of `vmmap_clone`: the same areas in the same order, with no object yet.
unfoldable pub vmmap_clone : List Area → List Area
vmmap_clone [] = []
vmmap_clone (vm ∷ rest) = record vm { vma_obj = none } ∷ vmmap_clone rest
