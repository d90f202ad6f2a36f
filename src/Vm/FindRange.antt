-- ===== src/Vm/FindRange.antt =====
-- `vmmap_find_range`: which gap it finds.
use weenix_assignment.Base.{
  ℕ, ◌+◌, ◌-◌, ◌≤◌, ◌<◌, ◌^◌, ◌≡◌, refl, true, false, Option, none, some, List, [], ◌∷◌, arith, inl,
  inr, ◌⊎◌, ltb, leb, add32, sub32, dec_le, dec_lt, if◌then◌else◌,
}
use weenix_assignment.Vm.Page.{user_low_pn, user_high_pn}
use weenix_assignment.Vm.Area.{
  Area, range_free, vmmap_lookup, Scan, go_on, break_with, scan_area, scan_down, scan_high,
  scan_result, vmmap_find_range, vmmap_dir_hilo,
}
use weenix_assignment.Vm.Insert.{range_free-none, range_free_of_none}
use weenix_assignment.Vm.Valid.{SortedFrom, IsMap}

-- What the scan knows behind the areas that it has visited, all of which start at `b` or later:
-- below `high` down to `b` nothing is mapped yet, and any range of `n` free pages that reaches above
-- `high` would overlap; after the break the result is such a highest range.
abbrev ScanOk : ℕ → ℕ → List Area → Scan → Type 0
ScanOk n b areas (go_on high) =
    (b ≤ high)
    × (high ≤ user_high_pn)
    × (range_free areas b high ≡ true)
    × ((s : ℕ) → b ≤ s → s + n ≤ user_high_pn → range_free areas s (s + n) ≡ true → s + n ≤ high)
ScanOk n b areas (break_with high result) =
    (result + n ≡ high)
    × (b ≤ result)
    × (high ≤ user_high_pn)
    × (range_free areas result high ≡ true)
    × ((s : ℕ) → b ≤ s → s + n ≤ user_high_pn → range_free areas s (s + n) ≡ true → s ≤ result)

range_free_of_below :
    (c : ℕ) (areas : List Area) (lo hi : ℕ)
    → SortedFrom c areas
    → hi ≤ c
    → range_free areas lo hi ≡ true
unfolding range_free
range_free_of_below c [] lo hi s h = refl
range_free_of_below c (vm ∷ rest) lo hi s h =
    ground (arith, s.1, range_free_of_below vm.vma_end rest lo hi s.2 (omega (arith, s.1)))

range_free_mono :
    (areas : List Area) (lo hi lo' hi' : ℕ)
    → range_free areas lo hi ≡ true
    → lo ≤ lo'
    → hi' ≤ hi
    → range_free areas lo' hi' ≡ true
unfolding range_free
range_free_mono [] lo hi lo' hi' free p q = refl
range_free_mono (vm ∷ rest) lo hi lo' hi' free p q =
    ground (arith, range_free_mono rest lo hi lo' hi')

-- A free range lies below or behind the first area, and is free in the rest.
range_free-cons :
    (vm : Area) (rest : List Area) (lo hi : ℕ)
    → range_free (vm ∷ rest) lo hi ≡ true
    → ((vm.vma_end ≤ lo) ⊎ (hi ≤ vm.vma_start)) × (range_free rest lo hi ≡ true)
unfolding range_free
range_free-cons vm rest lo hi free = ground arith

range_free_of_cons :
    (vm : Area) (rest : List Area) (lo hi : ℕ)
    → ((vm.vma_end ≤ lo) ⊎ (hi ≤ vm.vma_start))
    → range_free rest lo hi ≡ true
    → range_free (vm ∷ rest) lo hi ≡ true
unfolding range_free
range_free_of_cons vm rest lo hi h free = ground arith

module _ (n b : ℕ) (vm : Area) (rest : List Area) (s : SortedFrom b (vm ∷ rest)) (pos : 0 < n)
    (small : n + user_high_pn < 2 ^ 32) where
  scan_area-ScanOk :
      (sc : Scan) → ScanOk n vm.vma_end rest sc → ScanOk n b (vm ∷ rest) (scan_area n vm sc)
  unfolding scan_area
  scan_area-ScanOk (break_with high result) (eq, above, room, free, best) = (
    eq,
    omega (arith, s.1),
    room,
    range_free_of_cons vm rest result high (inl above) free,
    λ t p q f. elim (dec_le vm.vma_end t) [
      | yes in_rest ↦ best t in_rest q (range_free-cons vm rest t (t + n) f).1
      | no below ↦ omega arith
    ],
  )
  scan_area-ScanOk (go_on high) (above, room, free, best) = elim (dec_lt high (n + vm.vma_end)) [
    | yes full ↦
        let narrow : ltb high (add32 n vm.vma_end) ≡ true = ground (arith, s.1) in
        rw narrow (
          omega arith,
          omega (arith, s.1),
          range_free_of_cons vm rest b vm.vma_start (inr (omega arith))
              (range_free_of_below vm.vma_end rest b vm.vma_start s.2 (omega (arith, s.1))),
          λ t p q f. elim (dec_le vm.vma_end t) [
            | yes in_rest ↦
                absurd (omega (arith, best t in_rest q (range_free-cons vm rest t (t + n) f).1))
            | no below ↦ omega (arith, (range_free-cons vm rest t (t + n) f).0)
          ],
        )
    | no fits ↦
        let wide : ltb high (add32 n vm.vma_end) ≡ false = ground (arith, s.1) in
        let res : sub32 high n ≡ high - n = omega arith in
        rw (wide, res)
          (
            omega arith,
            omega (arith, s.1),
            room,
            range_free_of_cons vm rest (high - n) high (inl (omega arith)) (
                range_free_mono rest vm.vma_end high (high - n) high free (omega arith)
                  (omega arith)),
            λ t p q f. elim (dec_le vm.vma_end t) [
              | yes in_rest ↦
                  omega (arith, best t in_rest q (range_free-cons vm rest t (t + n) f).1)
              | no below ↦ omega arith
            ],
          )
  ]

scan_down-ScanOk :
    (n b : ℕ) (areas : List Area)
    → SortedFrom b areas
    → 0 < n
    → b ≤ user_high_pn
    → n + user_high_pn < 2 ^ 32
    → ScanOk n b areas (scan_down n areas)
unfolding scan_down range_free
scan_down-ScanOk n b [] s pos room small = (room, omega arith, refl, λ t p q free. q)
scan_down-ScanOk n b (vm ∷ rest) s pos room small =
    scan_area-ScanOk n b vm rest s pos small (scan_down n rest)
      (scan_down-ScanOk n vm.vma_end rest s.2 pos s.1.high small)

-- What a search downwards for `n` pages returns, as the test of `vmmap_is_range_empty` reads it.
abbrev IsFree : List Area → ℕ → ℕ → Type 0
IsFree areas n lo =
    (user_low_pn ≤ lo) × (lo + n ≤ user_high_pn) × (range_free areas lo (lo + n) ≡ true)

abbrev HighestFree : List Area → ℕ → Option ℕ → Type 0
HighestFree areas n none = (lo : ℕ) → ¬ IsFree areas n lo
HighestFree areas n (some lo) = IsFree areas n lo × ((lo' : ℕ) → IsFree areas n lo' → lo' ≤ lo)

HighestFree-ScanOk :
    (areas : List Area) (n : ℕ) (sc : Scan)
    → 0 < n
    → n + user_high_pn < 2 ^ 32
    → ScanOk n user_low_pn areas sc
    → HighestFree areas n (
        if leb (add32 n user_low_pn) (scan_high sc)
        then some (sub32 (scan_high sc) n)
        else scan_result sc)
unfolding scan_high scan_result
HighestFree-ScanOk areas n (go_on high) pos small (above, room, free, best) =
    elim (dec_le (n + user_low_pn) high) [
      | yes fits ↦
          let wide : leb (add32 n user_low_pn) high ≡ true = ground arith in
          let res : sub32 high n ≡ high - n = omega arith in
          rw (wide, res)
            (
              (
                omega arith,
                omega arith,
                range_free_mono areas user_low_pn high (high - n) (high - n + n) free (omega arith)
                    (omega arith),
              ),
              λ lo g. omega (arith, best lo g.0 g.1 g.2),
            )
      | no full ↦
          let narrow : leb (add32 n user_low_pn) high ≡ false = ground arith in
          rw narrow (λ lo g. omega (arith, best lo g.0 g.1 g.2))
    ]
HighestFree-ScanOk areas n (break_with high result) pos small (eq, above, room, free, best) =
    let wide : leb (add32 n user_low_pn) high ≡ true = ground arith in
    let res : sub32 high n ≡ result = omega arith in
    rw (wide, res) ((above, omega arith, rw eq free), λ lo g. best lo g.0 g.1 g.2)

-- `n` user pages from `lo` on, none of which is mapped.
abbrev pub IsGap : List Area → ℕ → ℕ → Type 0
IsGap areas n lo =
    (user_low_pn ≤ lo)
    × (lo + n ≤ user_high_pn)
    × ((vfn : ℕ) → lo ≤ vfn → vfn < lo + n → vmmap_lookup areas vfn ≡ none)

-- What a search downwards for `n` pages returns: the highest gap, or -1 only where there is none.
abbrev pub HighestGap : List Area → ℕ → Option ℕ → Type 0
HighestGap areas n none = (lo : ℕ) → ¬ IsGap areas n lo
HighestGap areas n (some lo) = IsGap areas n lo × ((lo' : ℕ) → IsGap areas n lo' → lo' ≤ lo)

module _ (areas : List Area) (n : ℕ) (s : IsMap areas) (pos : 0 < n) where
  IsGap-IsFree : (lo : ℕ) → IsFree areas n lo → IsGap areas n lo
  IsGap-IsFree lo (low, high, free) =
      (low, high, λ vfn p q. range_free-none user_low_pn areas lo (lo + n) vfn s free p q)

  IsFree-IsGap : (lo : ℕ) → IsGap areas n lo → IsFree areas n lo
  IsFree-IsGap lo (low, high, unmapped) =
      (low, high, range_free_of_none user_low_pn areas lo (lo + n) s (omega arith) unmapped)

  HighestGap-HighestFree : (r : Option ℕ) → HighestFree areas n r → HighestGap areas n r
  HighestGap-HighestFree none h = λ lo g. h lo (IsFree-IsGap lo g)
  HighestGap-HighestFree (some lo) (gap, best) =
      (IsGap-IsFree lo gap, λ lo' g. best lo' (IsFree-IsGap lo' g))

-- On a well-formed address space `vmmap_find_range` with VMMAP_DIR_HILO returns the start of the
-- highest range of `npages` unmapped user pages, and -1 only if there is no such range.
pub vmmap_find_range_hilo :
    (areas : List Area) (npages : ℕ)
    → IsMap areas
    → 0 < npages
    → npages + user_high_pn < 2 ^ 32
    → HighestGap areas npages (vmmap_find_range areas npages vmmap_dir_hilo)
unfolding vmmap_find_range
vmmap_find_range_hilo areas n s pos small =
    HighestGap-HighestFree areas n s pos (vmmap_find_range areas n vmmap_dir_hilo) (
      HighestFree-ScanOk areas n (scan_down n areas) pos small
        (scan_down-ScanOk n user_low_pn areas s pos (omega arith) small))
