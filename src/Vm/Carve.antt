-- ===== src/Vm/Carve.antt =====
-- `vmmap_remove` against an independent description: every area loses the pages of the range, and
-- what is left of it is at most two areas.
use weenix_assignment.Base.{
  ℕ, ◌≤◌, ◌<◌, ◌^◌, ◌≡◌, refl, ap, ap₂, sym, ◌∙◌, Bool, ◌&&◌, ◌||◌, Option, none, some, List, [],
  ◌∷◌, ◌++◌, arith, ltb, leb, if◌then◌else◌,
}
use weenix_assignment.Vm.Area.{Area, vmmap_lookup}
use weenix_assignment.Vm.Remove.{upper_part, lower_part}
use weenix_assignment.Vm.Valid.{Mapping, IsArea, SortedFrom, page_at, SortedFrom-weaken}

-- What is left of an area below `lo`, and from `hi` on.
abbrev pub below : ℕ → Area → List Area
below lo vm =
    if ltb vm.vma_start lo then (if ltb lo vm.vma_end then lower_part vm lo else vm) ∷ [] else []

abbrev pub above : ℕ → Area → List Area
above hi vm =
    if ltb hi vm.vma_end then (if ltb vm.vma_start hi then upper_part vm hi else vm) ∷ [] else []

-- An area that ends below the range or starts behind it stays; any other keeps what is outside.
abbrev pub pieces : ℕ → ℕ → Area → List Area
pieces lo hi vm =
    if leb vm.vma_end lo || leb hi vm.vma_start then vm ∷ [] else below lo vm ++ above hi vm

abbrev pub carve : ℕ → ℕ → List Area → List Area
carve lo hi [] = []
carve lo hi (vm ∷ rest) = pieces lo hi vm ++ carve lo hi rest

abbrev or_else : Option Mapping → Option Mapping → Option Mapping
or_else none o = o
or_else (some m) o = some m

page_at-append :
    (xs ys : List Area) (vfn : ℕ)
    → page_at (xs ++ ys) vfn ≡ or_else (page_at xs vfn) (page_at ys vfn)
unfolding vmmap_lookup
page_at-append [] ys vfn = refl
page_at-append (vm ∷ xs) ys vfn = ground (arith, page_at-append xs ys vfn)

page_at-nil-if : (b : Bool) (vfn : ℕ) → page_at [] vfn ≡ (if b then none else page_at [] vfn)
unfolding vmmap_lookup
page_at-nil-if b vfn = ground arith

or_else-if :
    (b : Bool) (x y : Option Mapping)
    → or_else (if b then none else x) (if b then none else y) ≡ (if b then none else or_else x y)
or_else-if b x y = ground arith

module _ (lo hi : ℕ) (order : lo ≤ hi) (top : hi < 2 ^ 32) where
  pub carve-SortedFrom :
      (b : ℕ) (areas : List Area) → SortedFrom b areas → SortedFrom b (carve lo hi areas)
  carve-SortedFrom b [] s = tt
  carve-SortedFrom b (vm ∷ rest) s = ground (
    arith,
    s.1,
    carve-SortedFrom vm.vma_end rest s.2,
    SortedFrom-weaken {b = vm.vma_end} {c = lo} (carve lo hi rest),
    SortedFrom-weaken {b = vm.vma_end} {c = b} (carve lo hi rest),
  )

  pieces-page_at :
      (vm : Area) (vfn : ℕ)
      → IsArea vm
      → page_at (pieces lo hi vm) vfn
        ≡ (if leb lo vfn && ltb vfn hi then none else page_at (vm ∷ []) vfn)
  unfolding vmmap_lookup
  pieces-page_at vm vfn v = ground (arith, v)

  pub carve-page_at :
      (b : ℕ) (areas : List Area) (vfn : ℕ)
      → SortedFrom b areas
      → page_at (carve lo hi areas) vfn
        ≡ (if leb lo vfn && ltb vfn hi then none else page_at areas vfn)
  carve-page_at b [] vfn s = page_at-nil-if (leb lo vfn && ltb vfn hi) vfn
  carve-page_at b (vm ∷ rest) vfn s =
      page_at-append (pieces lo hi vm) (carve lo hi rest) vfn
      ∙ ap₂ or_else (pieces-page_at vm vfn s.1) (carve-page_at vm.vma_end rest vfn s.2)
      ∙ or_else-if (leb lo vfn && ltb vfn hi) (page_at (vm ∷ []) vfn) (page_at rest vfn)
      ∙ ap (λ o. if leb lo vfn && ltb vfn hi then none else o)
          (sym (page_at-append (vm ∷ []) rest vfn))
