-- ===== src/Mm/Group/Flip.antt =====
-- One block leaves or enters a free list of kernel/mm/page.c, and the bit of its pair is flipped.
use weenix_assignment.Base.{
  ℕ, ◌+◌, ◌-◌, ◌%◌, ◌^◌, ◌≤◌, ◌<◌, ◌≡◌, not, some, List, ◌∷◌, arith, All, ◌==◌, if◌then◌else◌, put,
  sum_change, ℕ_discrete,
}
use mathlib.Core.Path.{subst}
use weenix_assignment.Mm.Group.{Pagegroup, page_nsizes, flip_pair}
use weenix_assignment.Mm.Group.Totals.{total, Removed}
use weenix_assignment.Mm.Group.Blocks.{covers, pair_of, in_pair, IsBlock, calculate_index-some}
use weenix_assignment.Mm.Group.Valid.{weigh, cover, free_pages, odd, IsGroup, flip_map, relist}

pub flip_pair-some :
    (g : Pagegroup) (order addr : ℕ)
    → g.pg_baseaddr % 2 ^ 12 ≡ 0
    → order < page_nsizes
    → IsBlock g order addr
    → flip_pair g order addr
      ≡ some (record g { pg_map = flip_map g.pg_map order (pair_of g.pg_baseaddr order addr) })
unfolding flip_pair pair_of
flip_pair-some g order addr base less b = elim (ℕ_discrete order (page_nsizes - 1)) [
  | yes top ↦ ground (arith, top)
  | no below ↦
      (let index =
          calculate_index-some g order addr (order + 1) base less b (omega (arith, less, below)) in
        ground (arith, less, below, index))
]

-- The weight of all free blocks, when the list of one order is replaced.
weigh-relist :
    (w : ℕ → ℕ → ℕ) (g : Pagegroup) (order addr : ℕ) (l : List ℕ)
    → order < page_nsizes
    → weigh w g + total (w order) l
      ≡ weigh w (relist g order addr l) + total (w order) (g.pg_freelist order)
unfolding weigh
weigh-relist w g order addr l less =
    let new = (relist g order addr l).pg_freelist in
    let here : total (w order) (new order) ≡ total (w order) l = ground arith in
    omega (
      arith,
      here,
      sum_change page_nsizes (λ k. total (w k) (g.pg_freelist k)) (λ k. total (w k) (new k)) order
          less (λ j other. ground (arith, other)),
    )

-- The bits tell the parities still, when the parity of one pair has changed.
module _ (g : Pagegroup) (order addr : ℕ) (l : List ℕ) (v : IsGroup g) where
  abbrev pub Changes : Type 0
  Changes =
      (i : ℕ)
      → odd (total (in_pair g.pg_baseaddr order i) l) ≡ (
          if pair_of g.pg_baseaddr order addr == i
          then not (odd (total (in_pair g.pg_baseaddr order i) (g.pg_freelist order)))
          else odd (total (in_pair g.pg_baseaddr order i) (g.pg_freelist order)))

  abbrev Paired : ℕ → Type 0
  Paired k =
      (i : ℕ)
      → k < page_nsizes - 1
      → (relist g order addr l).pg_map (k + 1) i
        ≡ odd (total (in_pair g.pg_baseaddr k i) ((relist g order addr l).pg_freelist k))

  Paired-here : Changes → Paired order
  Paired-here changes i less =
      let here : put g.pg_freelist order l order ≡ l = ground arith in
      rw here (ground (arith, less, changes i, v.paired order i))

  Paired-relist : Changes → (k : ℕ) → Paired k
  Paired-relist changes k = elim (ℕ_discrete order k) [
    | yes e ↦ subst Paired e (Paired-here changes)
    | no other ↦ λ i less. ground (arith, other, less, v.paired k i less)
  ]

  blocks-relist :
      All (IsBlock g order) l
      → (k : ℕ) → k < page_nsizes
      → All (IsBlock g k) ((relist g order addr l).pg_freelist k)
  blocks-relist all k less = elim (ℕ_discrete order k) [
    | yes e ↦
        (let here : put g.pg_freelist order l k ≡ l = ground (arith, e) in
          rw here (subst (λ j. All (IsBlock g j) l) e all))
    | no other ↦
        (let there : put g.pg_freelist order l k ≡ g.pg_freelist k = ground (arith, other) in
          rw there (v.blocks k less))
  ]

  pub IsGroup-relist :
      Changes
      → All (IsBlock g order) l
      → ((x : ℕ) → cover (relist g order addr l) x ≤ 1)
      → IsGroup (relist g order addr l)
  IsGroup-relist changes all once = record {
    base_aligned = v.base_aligned;
    blocks = blocks-relist all;
    once = once;
    paired = λ k i less. Paired-relist changes k i less;
  }

-- A free block leaves its list.
module _ (g : Pagegroup) (order addr : ℕ) (l : List ℕ) (v : IsGroup g) (less : order < page_nsizes)
    (h : Removed addr (g.pg_freelist order) l) where
  pub weigh-removed : (w : ℕ → ℕ → ℕ) → weigh w g ≡ w order addr + weigh w (relist g order addr l)
  weigh-removed w = omega (arith, weigh-relist w g order addr l less, h.totals (w order))

  pub pages-removed : free_pages g ≡ 2 ^ order + free_pages (relist g order addr l)
  unfolding free_pages
  pages-removed = weigh-removed (λ k _. 2 ^ k)

  pub cover-removed : (x : ℕ) → cover g x ≡ covers order x addr + cover (relist g order addr l) x
  unfolding cover
  cover-removed x = weigh-removed (λ k. covers k x)

  removed-Changes : Changes g order addr l v
  unfolding in_pair
  removed-Changes i = ground (arith, h.totals (in_pair g.pg_baseaddr order i))

  pub removed-IsGroup : IsGroup (relist g order addr l)
  removed-IsGroup =
      IsGroup-relist g order addr l v removed-Changes
        (h.keeps (IsBlock g order) (v.blocks order less)).1
        (λ x. omega (arith, cover-removed x, v.once x))

-- A block that is not free enters its list.
module _ (g : Pagegroup) (order addr : ℕ) (v : IsGroup g) (less : order < page_nsizes) where
  abbrev pub inserted : Pagegroup
  inserted = relist g order addr (addr ∷ g.pg_freelist order)

  pub weigh-inserted : (w : ℕ → ℕ → ℕ) → weigh w inserted ≡ w order addr + weigh w g
  unfolding total
  weigh-inserted w = omega (arith, weigh-relist w g order addr (addr ∷ g.pg_freelist order) less)

  pub cover-inserted : (x : ℕ) → cover inserted x ≡ covers order x addr + cover g x
  unfolding cover
  cover-inserted x = weigh-inserted (λ k. covers k x)

  inserted-Changes : Changes g order addr (addr ∷ g.pg_freelist order) v
  unfolding in_pair total
  inserted-Changes i = ground arith

  pub inserted-IsGroup :
      IsBlock g order addr → ((x : ℕ) → covers order x addr + cover g x ≤ 1) → IsGroup inserted
  inserted-IsGroup b free =
      IsGroup-relist g order addr (addr ∷ g.pg_freelist order) v inserted-Changes
        (b, v.blocks order less) (λ x. omega (arith, cover-inserted x, free x))
