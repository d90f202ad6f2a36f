-- ===== src/Vm/Clone.antt =====
-- The copy of an address space that fork starts from.
use weenix_assignment.Base.{
  ℕ, ◌≡◌, refl, Option, none, some, List, [], ◌∷◌, arith, Bool-cases, inl, inr,
}
use weenix_assignment.Vm.Page.{user_low_pn}
use weenix_assignment.Vm.Area.{Area, covers, vmmap_lookup, vmmap_clone}
use weenix_assignment.Vm.Valid.{SortedFrom, IsMap, Mapping, page_at}

-- A mapping whose object is not set yet.
abbrev pub unset : Option Mapping → Option Mapping
unset none = none
unset (some m) = some (record m { obj = none })

clone-SortedFrom :
    (b : ℕ) (areas : List Area) → SortedFrom b areas → SortedFrom b (vmmap_clone areas)
unfolding vmmap_clone
clone-SortedFrom b [] v = v
clone-SortedFrom b (vm ∷ rest) (low, area, sorted) = (
  low,
  record { low = area.low; nonempty = area.nonempty; high = area.high; offsets = area.offsets },
  clone-SortedFrom vm.vma_end rest sorted,
)

page_at-clone :
    (areas : List Area) (vfn : ℕ) → page_at (vmmap_clone areas) vfn ≡ unset (page_at areas vfn)
unfolding vmmap_clone vmmap_lookup
page_at-clone [] vfn = refl
page_at-clone (vm ∷ rest) vfn = elim (Bool-cases (covers vm vfn)) [
  | inl here ↦ ground (arith, here)
  | inr there ↦ ground (arith, there, page_at-clone rest vfn)
]

-- The clone of a valid address space is valid and maps the same pages to the same page numbers with
-- the same protection and sharing, but to no object yet.
pub vmmap_clone-page_at :
    (areas : List Area)
    → IsMap areas
    → IsMap (vmmap_clone areas)
      × ((vfn : ℕ) → page_at (vmmap_clone areas) vfn ≡ unset (page_at areas vfn))
vmmap_clone-page_at areas v = (clone-SortedFrom user_low_pn areas v, page_at-clone areas)
