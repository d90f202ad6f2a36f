-- ===== src/Vm/Insert.antt =====
-- `vmmap_insert` and `vmmap_is_range_empty` on well-formed address spaces.
use weenix_assignment.Base.{
  ℕ, ◌+◌, ◌≤◌, ◌<◌, ◌≡◌, refl, Bool, true, none, some, List, [], ◌∷◌, ◌↔◌, arith, if◌then◌else◌,
  max,
}
use weenix_assignment.Vm.Page.{user_low_pn, user_high_pn}
use weenix_assignment.Vm.Area.{
  Area, covers, vmmap_lookup, range_free, vmmap_is_range_empty, insert_area, vmmap_insert,
}
use weenix_assignment.Vm.Valid.{IsArea, SortedFrom, IsMap}

pub insert_area-SortedFrom :
    (b : ℕ) (areas : List Area) (new : Area)
    → SortedFrom b areas
    → IsArea new
    → b ≤ new.vma_start
    → range_free areas new.vma_start new.vma_end ≡ true
    → SortedFrom b (insert_area areas new)
unfolding range_free insert_area
insert_area-SortedFrom b [] new s v h free = (h, v, tt)
insert_area-SortedFrom b (vm ∷ rest) new s v h free =
    ground (arith, s.1, insert_area-SortedFrom vm.vma_end rest new s.2 v)

pub insert_area-lookup :
    (b : ℕ) (areas : List Area) (new : Area) (vfn : ℕ)
    → SortedFrom b areas
    → IsArea new
    → range_free areas new.vma_start new.vma_end ≡ true
    → vmmap_lookup (insert_area areas new) vfn
      ≡ (if covers new vfn then some new else vmmap_lookup areas vfn)
unfolding range_free insert_area vmmap_lookup
insert_area-lookup b [] new vfn s v free = refl
insert_area-lookup b (vm ∷ rest) new vfn s v free =
    ground (arith, s.1, insert_area-lookup vm.vma_end rest new vfn s.2 v)

-- Inserting an area into free space succeeds, keeps the address space well-formed, maps the pages
-- of the new area to it and leaves every other page as it was.
pub vmmap_insert_lem :
    (areas : List Area) (new : Area)
    → IsMap areas
    → IsArea new
    → range_free areas new.vma_start new.vma_end ≡ true
    → (areas' : List Area) × (vmmap_insert areas new ≡ some areas')
      × IsMap areas'
      × ((vfn : ℕ)
          → vmmap_lookup areas' vfn ≡ (if covers new vfn then some new else vmmap_lookup areas vfn))
unfolding vmmap_insert
vmmap_insert_lem areas new s v free = (
  insert_area areas new,
  ground (arith, v),
  insert_area-SortedFrom user_low_pn areas new s v v.low free,
  λ vfn. insert_area-lookup user_low_pn areas new vfn s v free,
)

none_of_tail :
    (vm : Area) (rest : List Area) (vfn : ℕ)
    → vmmap_lookup (vm ∷ rest) vfn ≡ none
    → vmmap_lookup rest vfn ≡ none
unfolding vmmap_lookup
none_of_tail vm rest vfn h = ground arith

pub range_free-none :
    (b : ℕ) (areas : List Area) (lo hi vfn : ℕ)
    → SortedFrom b areas
    → range_free areas lo hi ≡ true
    → lo ≤ vfn
    → vfn < hi
    → vmmap_lookup areas vfn ≡ none
unfolding range_free vmmap_lookup
range_free-none b [] lo hi vfn s free h k = refl
range_free-none b (vm ∷ rest) lo hi vfn s free h k =
    ground (arith, range_free-none vm.vma_end rest lo hi vfn s.2)

pub range_free_of_none :
    (b : ℕ) (areas : List Area) (lo hi : ℕ)
    → SortedFrom b areas
    → lo < hi
    → ((vfn : ℕ) → lo ≤ vfn → vfn < hi → vmmap_lookup areas vfn ≡ none)
    → range_free areas lo hi ≡ true
unfolding range_free vmmap_lookup
range_free_of_none b [] lo hi s h unmapped = refl
range_free_of_none b (vm ∷ rest) lo hi s h unmapped = ground (
  arith,
  s.1,
  unmapped (max lo vm.vma_start),
  range_free_of_none vm.vma_end rest lo hi s.2 h
      (λ vfn p q. none_of_tail vm rest vfn (unmapped vfn p q)),
)

-- On a range of user pages `vmmap_is_range_empty` panics never, and says whether every page of the
-- range is unmapped.
pub vmmap_is_range_empty_lem :
    (areas : List Area) (startvfn npages : ℕ)
    → IsMap areas
    → user_low_pn ≤ startvfn
    → 0 < npages
    → startvfn + npages ≤ user_high_pn
    → (empty : Bool) × (vmmap_is_range_empty areas startvfn npages ≡ some empty)
      × ((empty ≡ true)
          ↔ ((vfn : ℕ) → startvfn ≤ vfn → vfn < startvfn + npages → vmmap_lookup areas vfn ≡ none))
unfolding vmmap_is_range_empty
vmmap_is_range_empty_lem areas lo n s low pos high = (
  range_free areas lo (lo + n),
  ground arith,
  (
    λ free vfn p q. range_free-none user_low_pn areas lo (lo + n) vfn s free p q,
    range_free_of_none user_low_pn areas lo (lo + n) s (omega arith),
  ),
)
