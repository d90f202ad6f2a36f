-- ===== src/Mm/Slab/PageAlloc.antt =====
-- `page_alloc_n` and `page_free_n` of kernel/mm/page.c in a memory with slab allocators.
use mathlib.Core.Path.{subst}
use mathlib.Core.Option.{some-injective}
use weenix_assignment.Base.{
  ℕ, zero, suc, ◌+◌, ◌-◌, ◌^◌, ◌≤◌, ◌<◌, ◌≡◌, refl, sym, ap, ◌∙◌, false, ◌⊎◌, inl, inr, Option,
  none, some, List, arith, Option-cases, ℕ_discrete, get_elem?, All-at, not,
}
use weenix_assignment.Mm.Group.{Pagegroup, page_nsizes, list_empty}
use weenix_assignment.Mm.Group.Split.{Nonempty}
use weenix_assignment.Mm.Group.Blocks.{covers}
use weenix_assignment.Mm.Group.Valid.{All-map}
use weenix_assignment.Mm.Pages.{Pages, page_free_order, page_free_n, group_with}
use weenix_assignment.Mm.Pages.Valid.{free_at, IsPlace}
use weenix_assignment.Mm.Pages.Free.{page_free_order_lem, order_for_lem}
use weenix_assignment.Mm.Pages.Alloc.{
  NoneFree, group_with-some, group_with-none, page_split_lem, take_block_lem, Reordered, Taken,
}
use weenix_assignment.Mm.Slab.{Memory, page_alloc_order, page_alloc_n}
use weenix_assignment.Mm.Slab.Reclaim.{
  all_bytes, all_pages, AllPlaced, IsMemory, MemoryReclaimed, slab_allocators_reclaim_lem,
}

-- The memory when a block has been taken out of the free ones.
pub record Allocated (m : Memory) (order addr : ℕ) (m' : Memory) : Type 0 where
  pub valid : IsMemory m'
  pub taken : (x : ℕ) → free_at m.pages x ≡ covers order x addr + free_at m'.pages x
  pub count : m.pages.page_freecount ≡ m'.pages.page_freecount + 2 ^ order
  pub spot : IsPlace m'.pages order addr
  pub slabs : m'.slab_allocators ≡ m.slab_allocators

-- A block of the order or a larger one is free nowhere.
abbrev pub NoneFrom : ℕ → ℕ → List Pagegroup → Type 0
NoneFrom zero k groups = Unit
NoneFrom (suc n) k groups = NoneFree groups k × NoneFrom n (k + 1) groups

abbrev pub OutOfBlocks : Memory → ℕ → Type 0
OutOfBlocks m order = NoneFrom (page_nsizes - order) order m.pages.pagegroup_list

none_from :
    (n k : ℕ) (groups : List Pagegroup)
    → ((j : ℕ) → k ≤ j → j < n + k → NoneFree groups j)
    → NoneFrom n k groups
none_from zero k groups all = tt
none_from (suc n) k groups all = (
  all k (omega arith) (omega arith),
  none_from n (k + 1) groups (λ j a b. all j (omega (arith, a)) (omega (arith, b))),
)

none_at :
    (n k j : ℕ) (groups : List Pagegroup)
    → NoneFrom n k groups
    → k ≤ j
    → j < n + k
    → NoneFree groups j
none_at zero k j groups all low high = absurd (omega (arith, low, high))
none_at (suc n) k j groups all low high = elim (ℕ_discrete k j) [
  | yes e ↦ subst (NoneFree groups) e all.0
  | no other ↦ none_at n (k + 1) j groups all.1 (omega (arith, low, other)) (omega (arith, high))
]

placed_later :
    (m : Memory) (q : Pages)
    → ((k a : ℕ) → IsPlace m.pages k a → IsPlace q k a)
    → AllPlaced m.pages m.slab_allocators
    → AllPlaced q m.slab_allocators
placed_later m q places all =
    All-map m.slab_allocators
      (λ b pls. All-map b.sa_slabs (λ s pl. places b.sa_order s.s_addr pl) pls) all

Taken-memory :
    (m : Memory) (order addr : ℕ) (q : Pages)
    → IsMemory m
    → Taken m.pages order addr q
    → Allocated m order addr (record m { pages = q })
Taken-memory m order addr q v t = record {
  valid = record {
    pages = t.valid;
    placed = placed_later m q t.places v.placed;
    apart = λ x. omega (arith, v.apart x, t.taken x);
    word = omega (arith, v.word, t.count);
  };
  taken = t.taken;
  count = t.count;
  spot = t.spot;
  slabs = refl;
}

Reordered-memory :
    (m : Memory) (q : Pages) → IsMemory m → Reordered m.pages q → IsMemory (record m { pages = q })
Reordered-memory m q v r = record {
  pages = r.valid;
  placed = placed_later m q r.places v.placed;
  apart = λ x. omega (arith, v.apart x, r.covered x);
  word = omega (arith, v.word, r.count);
}

abbrev pub AllocResult : Memory → ℕ → Option (Option ℕ × Memory) → Type 0
AllocResult m order result =
    ((addr : ℕ) × (m' : Memory) × (result ≡ some (some addr, m')) × Allocated m order addr m')
    ⊎ ((npages : ℕ) × (m' : Memory) × (result ≡ some (none, m'))
        × OutOfBlocks m order
        × MemoryReclaimed m npages m')

-- Without a free block of the order itself.
alloc-split :
    (m : Memory) (order : ℕ)
    → IsMemory m
    → order < page_nsizes
    → group_with order m.pages.pagegroup_list ≡ none
    → AllocResult m order (page_alloc_order order m)
unfolding page_alloc_order
alloc-split m order v less none_here = elim (page_split_lem m.pages order v.pages less) [
  | inl (gone, larger) ↦
      (let (npages, m', run, r) = slab_allocators_reclaim_lem m v in
        inr (
          npages,
          m',
          ground (arith, none_here, gone, run),
          none_from (page_nsizes - order) order m.pages.pagegroup_list (λ k a b.
              elim (ℕ_discrete order k) [
                | yes e ↦
                    subst (NoneFree m.pages.pagegroup_list) e
                      (group_with-none order m.pages.pagegroup_list none_here)
                | no other ↦ larger k (omega (arith, a, other)) (omega (arith, b, less))
              ]),
          r,
        ))
  | inr (i, q, run, r, (g, at, full)) ↦
      (let (addr, q', take, t) = take_block_lem q order i g r.valid less at full in
        let done =
          Taken-memory (record m { pages = q }) order addr q' (Reordered-memory m q v r) t in
        inl (
          addr,
          record m { pages = q' },
          ground (arith, none_here, run, take),
          record {
            valid = done.valid;
            taken = λ x. omega (arith, r.covered x, t.taken x);
            count = omega (arith, r.count, t.count);
            spot = t.spot;
            slabs = refl;
          },
        ))
]

alloc-found :
    (m : Memory) (order i : ℕ)
    → IsMemory m
    → order < page_nsizes
    → group_with order m.pages.pagegroup_list ≡ some i
    → AllocResult m order (page_alloc_order order m)
unfolding page_alloc_order
alloc-found m order i v less found =
    let (g, at, full) = group_with-some order i m.pages.pagegroup_list found in
    let (addr, q, take, t) = take_block_lem m.pages order i g v.pages less at full in
    inl (addr, record m { pages = q }, ground (arith, found, take), Taken-memory m order addr q v t)

-- Allocation of a block of an order, on every branch.
pub page_alloc_order_lem :
    (m : Memory) (order : ℕ)
    → IsMemory m
    → order < page_nsizes
    → AllocResult m order (page_alloc_order order m)
page_alloc_order_lem m order v less =
    elim (Option-cases (group_with order m.pages.pagegroup_list)) [
      | inl none_here ↦ alloc-split m order v less none_here
      | inr (i, found) ↦ alloc-found m order i v less found
    ]

least_order :
    {npages : ℕ} (k : ℕ) → ((j : ℕ) → j < k → 2 ^ j < npages) → (k ≡ 0) ⊎ (2 ^ (k - 1) < npages)
least_order zero least = inl refl
least_order (suc k) least = inr (least (suc k - 1) (omega arith))

-- Allocating at most 128 pages, in a memory that is in order, fails no assertion. The order k is the
-- least with 2 ^ k pages enough. Either the result is a block of that order in one of the page groups:
-- before, its bytes were free, and exactly these are no longer free, the count falls by 2 ^ k and the
-- memory is in order. Or no group has a free block of that or a larger order, the result is NULL, and
-- the memory is in order after the unused slabs have been reclaimed.
pub page_alloc_n_lem :
    (m : Memory) (npages : ℕ)
    → IsMemory m
    → npages ≤ 128
    → (k : ℕ) × (npages ≤ 2 ^ k)
      × ((k ≡ 0) ⊎ (2 ^ (k - 1) < npages))
      × AllocResult m k (page_alloc_n npages m)
unfolding page_alloc_n
page_alloc_n_lem m npages v few =
    let (k, order, less, enough, least) = order_for_lem npages few in
    (k, enough, least_order k least, rw order (page_alloc_order_lem m k v less))

clash :
    (m : Memory) (k i : ℕ) (g : Pagegroup)
    → NoneFree m.pages.pagegroup_list k
    → get_elem? m.pages.pagegroup_list i ≡ some g
    → Nonempty g k
    → ⊥
clash m k i g all at (a, l, head) =
    let empty =
      All-at (λ h. not (list_empty (h.pg_freelist k)) ≡ false) m.pages.pagegroup_list i g all at in
    absurd (ground (arith, empty, head))

-- An allocation of an order succeeds whenever some page group has a free block of that order or of a
-- larger one.
pub page_alloc_order-live :
    (m : Memory) (order k i : ℕ) (g : Pagegroup)
    → IsMemory m
    → order ≤ k
    → k < page_nsizes
    → get_elem? m.pages.pagegroup_list i ≡ some g
    → Nonempty g k
    → (addr : ℕ) × (m' : Memory) × (page_alloc_order order m ≡ some (some addr, m'))
      × Allocated m order addr m'
page_alloc_order-live m order k i g v low less at full =
    elim (page_alloc_order_lem m order v (omega (arith, low, less))) [
      | inl done ↦ done
      | inr (npages, m', run, out, r) ↦ absurd (
          clash m k i g
            (none_at (page_nsizes - order) order k m.pages.pagegroup_list out low
              (omega (arith, low, less)))
            at full)
    ]

abbrev FreesAgain : Memory → ℕ → ℕ → Memory → Type 0
FreesAgain m order addr m' =
    (q : Pages) × (page_free_order addr order m'.pages ≡ some q)
    × IsMemory (record m' { pages = q })
    × ((x : ℕ) → free_at q x ≡ free_at m.pages x)
    × (q.page_freecount ≡ m.pages.page_freecount)

free-Allocated :
    (m : Memory) (order addr : ℕ) (m' : Memory)
    → IsMemory m
    → Allocated m order addr m'
    → FreesAgain m order addr m'
free-Allocated m order addr m' v a =
    let (q, run, f) =
      page_free_order_lem m'.pages order addr a.valid.pages a.spot
        (λ x. omega (arith, a.taken x, v.apart x)) (omega (arith, a.count, v.word)) in
    (
      q,
      run,
      record {
        pages = f.valid;
        placed = placed_later m' q f.places a.valid.placed;
        apart = λ x. omega (arith, v.apart x, f.gained x, a.taken x, ap (all_bytes x) a.slabs);
        word = omega (arith, v.word, f.count, a.count, ap all_pages a.slabs);
      },
      λ x. omega (arith, f.gained x, a.taken x),
      omega (arith, f.count, a.count),
    )

free_result :
    (m : Memory) (order addr : ℕ) (m' : Memory)
    → IsMemory m
    → order < page_nsizes
    → page_alloc_order order m ≡ some (some addr, m')
    → FreesAgain m order addr m'
free_result m order addr m' v less run = elim (page_alloc_order_lem m order v less) [
  | inl (a, m'', done, taken) ↦
      (let same = some-injective (some a, m'') (some addr, m') (sym done ∙ run) in
        let at = some-injective a addr (ap (λ z. z.0) same) in
        subst (λ z. FreesAgain m order addr z) (ap (λ z. z.1) same)
          (subst (λ z. FreesAgain m order z m'') at (free-Allocated m order a m'' v taken)))
  | inr (npages, m'', failed, out, r) ↦ absurd (ground (arith, failed, run))
]

-- Pages that were allocated can be freed with the same number of pages, and then the same bytes are
-- free as before the allocation, and as many pages.
pub page_free_n-page_alloc_n :
    (m : Memory) (npages addr : ℕ) (m' : Memory)
    → IsMemory m
    → npages ≤ 128
    → page_alloc_n npages m ≡ some (some addr, m')
    → (q : Pages) × (page_free_n addr npages m'.pages ≡ some q)
      × IsMemory (record m' { pages = q })
      × ((x : ℕ) → free_at q x ≡ free_at m.pages x)
      × (q.page_freecount ≡ m.pages.page_freecount)
unfolding page_alloc_n page_free_n
page_free_n-page_alloc_n m npages addr m' v few run =
    let (k, order, less, _, _) = order_for_lem npages few in
    let run' : page_alloc_order k m ≡ some (some addr, m') = ground (arith, order, run) in
    rw order (free_result m k addr m' v less run')
