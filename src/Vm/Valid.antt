-- ===== src/Vm/Valid.antt =====
-- What a well-formed address space is, and what it promises: which page of which object stands
-- behind each virtual page.
use weenix_assignment.Base.{
  ℕ, ◌+◌, ◌-◌, ◌≤◌, ◌<◌, ◌^◌, ◌≡◌, refl, Option, none, some, List, [], ◌∷◌, arith, Bool-cases, inl,
  inr,
}
use weenix_assignment.Vm.Page.{user_low_pn, user_high_pn}
use weenix_assignment.Vm.Area.{Area, covers, vmmap_lookup}

-- An area is a nonempty range of user pages, and its page offsets do not wrap.
pub record IsArea (vm : Area) : Type 0 where
  pub low : user_low_pn ≤ vm.vma_start
  pub nonempty : vm.vma_start < vm.vma_end
  pub high : vm.vma_end ≤ user_high_pn
  pub offsets : vm.vma_off + vm.vma_end < 2 ^ 32 + vm.vma_start

-- The areas stand in order from `b` on, and no two overlap.
abbrev pub SortedFrom : ℕ → List Area → Type 0
SortedFrom b [] = Unit
SortedFrom b (vm ∷ rest) = (b ≤ vm.vma_start) × IsArea vm × SortedFrom vm.vma_end rest

abbrev pub IsMap : List Area → Type 0
IsMap areas = SortedFrom user_low_pn areas

-- What a virtual page shows: a page of an object, with its protection and sharing.
pub record Mapping : Type 0 where
  pub obj : Option ℕ
  pub pagenum : ℕ
  pub prot : ℕ
  pub flags : ℕ

abbrev pub mapping : Area → ℕ → Mapping
mapping vm vfn = record {
  obj = vm.vma_obj;
  pagenum = vm.vma_off + vfn - vm.vma_start;
  prot = vm.vma_prot;
  flags = vm.vma_flags;
}

abbrev pub mapping_of : Option Area → ℕ → Option Mapping
mapping_of none vfn = none
mapping_of (some vm) vfn = some (mapping vm vfn)

-- The abstract address space.
abbrev pub page_at : List Area → ℕ → Option Mapping
page_at areas vfn = mapping_of (vmmap_lookup areas vfn) vfn

-- Nothing lies below the first area.
pub vmmap_lookup_below :
    (b : ℕ) (areas : List Area) (vfn : ℕ)
    → SortedFrom b areas
    → vfn < b
    → vmmap_lookup areas vfn ≡ none
unfolding vmmap_lookup
vmmap_lookup_below b [] vfn s h = refl
vmmap_lookup_below b (vm ∷ rest) vfn s h =
    ground (arith, s, s.1, vmmap_lookup_below vm.vma_end rest vfn s.2 (omega (arith, s.1)))

pub SortedFrom-weaken :
    {b c : ℕ} (areas : List Area) → c ≤ b → SortedFrom b areas → SortedFrom c areas
SortedFrom-weaken [] h s = tt
SortedFrom-weaken (vm ∷ rest) h s = (omega arith, s.1, s.2)

-- An area that a lookup finds is one of the map, and covers the page.
pub vmmap_lookup-IsArea :
    (b : ℕ) (areas : List Area) (vfn : ℕ) (vm : Area)
    → SortedFrom b areas
    → vmmap_lookup areas vfn ≡ some vm
    → (b ≤ vm.vma_start) × IsArea vm × (vm.vma_start ≤ vfn) × (vfn < vm.vma_end)
unfolding vmmap_lookup
vmmap_lookup-IsArea b [] vfn vm s found = cc
vmmap_lookup-IsArea b (a ∷ rest) vfn vm s found = elim (Bool-cases (covers a vfn)) [
  | inl hit ↦ ground (arith, s.1)
  | inr miss ↦ ground (arith, s.1, vmmap_lookup-IsArea a.vma_end rest vfn vm s.2 (rw miss at found))
]
