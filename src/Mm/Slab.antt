-- ===== src/Mm/Slab.antt =====
-- The slab allocators of kernel/mm/slab.c, on the page allocator.
pub mod Reclaim
pub mod PageAlloc
use weenix_assignment.Base.{
  ℕ, zero, suc, ◌+◌, ◌-◌, ◌*◌, ◌/◌, ◌^◌, Bool, true, false, not, ◌&&◌, ◌||◌, Option, none, some,
  List, [], ◌∷◌, ltb, leb, ◌==◌, if◌then◌else◌, ◌>>=◌, ◌>>◌, kassert,
}
use weenix_assignment.Mm.Pages.{Pages, page_free_n, page_split, group_with, take_block, order_for}

-- `struct slab`; `s_free` is the chain of free objects, by address.
pub record Slab : Type 0 where
  pub s_inuse : ℕ
  pub s_free : List ℕ
  pub s_addr : ℕ

-- `struct slab_allocator` without its name
pub record SlabAllocator : Type 0 where
  pub sa_objsize : ℕ
  pub sa_slabs : List Slab
  pub sa_order : ℕ
  pub sa_slab_nobjs : ℕ

-- The memory: the pages, and the global list of slab allocators.
pub record Memory : Type 0 where
  pub pages : Pages
  pub slab_allocators : List SlabAllocator

abbrev pub target_met : ℕ → ℕ → Bool
target_met target freed = ltb 0 target && leb target freed

pub record Reclaimed (A : Type 0) : Type 0 where
  pub left : A
  pub npages_freed : ℕ
  pub pages : Pages
  pub done : Bool

-- The inner loop of `slab_allocators_reclaim`, over the slabs of one allocator.
unfoldable pub reclaim_slabs : ℕ → ℕ → List Slab → ℕ → Pages → Option (Reclaimed (List Slab))
reclaim_slabs target order [] freed p =
    some (record { left = []; npages_freed = freed; pages = p; done = false })
reclaim_slabs target order (s ∷ slabs) freed p =
    let free_slab : Option (ℕ × Pages) = do
      q ← page_free_n s.s_addr (2 ^ order) p
      some (freed + 2 ^ order, q)
    in let unused = s.s_inuse == 0 in
      do
        (count, q) ← if unused then free_slab else some (freed, p)
        let stopped : Reclaimed (List Slab) = record {
          left = if unused then slabs else s ∷ slabs;
          npages_freed = count;
          pages = q;
          done = true;
        }
        let go_on = do
          r ← reclaim_slabs target order slabs count q
          some (record r { left = if unused then r.left else s ∷ r.left })
        if target_met target count then some stopped else go_on

-- The outer loop, over the allocators.
unfoldable pub reclaim_allocators :
    ℕ → List SlabAllocator → ℕ → Pages → Option (Reclaimed (List SlabAllocator))
reclaim_allocators target [] freed p =
    some (record { left = []; npages_freed = freed; pages = p; done = false })
reclaim_allocators target (a ∷ others) freed p = do
  r ← reclaim_slabs target a.sa_order a.sa_slabs freed p
  let here = record a { sa_slabs = r.left }
  let stopped : Reclaimed (List SlabAllocator) = record {
    left = here ∷ others;
    npages_freed = r.npages_freed;
    pages = r.pages;
    done = true;
  }
  let go_on = do
    rest ← reclaim_allocators target others r.npages_freed r.pages
    some (record rest { left = here ∷ rest.left })
  if r.done then some stopped else go_on

-- `slab_allocators_reclaim`
unfoldable pub slab_allocators_reclaim : ℕ → Memory → Option (ℕ × Memory)
slab_allocators_reclaim target m = do
  r ← reclaim_allocators target m.slab_allocators 0 m.pages
  some (r.npages_freed, record { pages = r.pages; slab_allocators = r.left })

-- `_page_alloc_order` from the label `found` on, in the memory.
abbrev pub alloc_from : ℕ → ℕ → Memory → Option (Option ℕ × Memory)
alloc_from order i m = do
  (addr, p) ← take_block order i m.pages
  some (some addr, record m { pages = p })

-- The end of `_page_split` without a block. As configured, without `__SHADOWD__`, the memory of the
-- unused slabs is reclaimed and the result is NULL all the same.
abbrev pub alloc_fails : Memory → Option (Option ℕ × Memory)
alloc_fails m = do (freed, m') ← slab_allocators_reclaim 0 m; some (none, m')

-- `_page_alloc_order`
unfoldable pub page_alloc_order : ℕ → Memory → Option (Option ℕ × Memory)
page_alloc_order order m =
    let split = do
      (group, p) ← page_split order m.pages
      let m' = record m { pages = p }
      elim group [ none ↦ alloc_fails m' | some i ↦ alloc_from order i m' ]
    in elim (group_with order m.pages.pagegroup_list) [
      | some i ↦ alloc_from order i m
      | none ↦ split
    ]

-- `page_alloc`, `page_alloc_n`
unfoldable pub page_alloc : Memory → Option (Option ℕ × Memory)
page_alloc m = page_alloc_order 0 m

unfoldable pub page_alloc_n : ℕ → Memory → Option (Option ℕ × Memory)
page_alloc_n npages m = do order ← order_for npages; page_alloc_order order m
