-- ===== src/Mm/Tests.antt =====
-- Runs of the allocators of kernel/mm/page.c and slab.c on small memories.
use mathlib.Core.Option
use mathlib.Core.Option.{some-injective}
use mathlib.Core.Path.{subst}
use weenix_assignment.Base.{
  ℕ, zero, suc, ◌+◌, ◌-◌, ◌*◌, ◌^◌, ◌≤◌, ◌<◌, ◌≡◌, refl, ◌⊎◌, true, false, Option, none, some, [],
  ◌∷◌, sym, ◌>>=◌, find_idx?, arith, get_elem?, sum, put,
}
use weenix_assignment.Vm.Page.{page_align_down}
use weenix_assignment.Mm.Group.{
  Pagegroup, block_bytes, list_remove, calculate_index, flip_pair, group_split, buddy_of,
  group_join,
}
use weenix_assignment.Mm.Group.Totals.{total}
use weenix_assignment.Mm.Group.Blocks.{covers}
use weenix_assignment.Mm.Group.Valid.{weigh, cover, free_pages, IsGroup}
use weenix_assignment.Mm.Group.Split.{Regrouped, after_split, group_split-Regrouped}
use weenix_assignment.Mm.Group.Join.{group_join_lem, Joined}
use weenix_assignment.Mm.Pages.{
  Pages, page_init, pagegroup_from_address, group_free, page_free_order, order_from, page_free,
  page_free_n, in_range, group_with, larger_block, split_down, page_split, take_block,
}
use weenix_assignment.Mm.Pages.Valid.{free_at, IsPages, IsPlace}
use weenix_assignment.Mm.Pages.Create.{
  take_maps, take_tails, fill_largest, usable_end, fill_group, pagegroup_create, page_add_range,
  in_bytes, WholeBlocks,
}
use weenix_assignment.Mm.Pages.AddRange.{group-Whole, Whole, more_IsPages, page_add_range_lem}
use weenix_assignment.Mm.Slab.{
  Memory, slab_allocators_reclaim, page_alloc_order, page_alloc, page_alloc_n,
}
use weenix_assignment.Mm.Slab.Reclaim.{IsMemory, MemoryReclaimed, slab_allocators_reclaim_lem}
use weenix_assignment.Mm.Slab.PageAlloc.{
  AllocResult, Allocated, page_alloc_n_lem, page_alloc_order-live, page_free_n-page_alloc_n,
}

abbrev mib : ℕ
mib = 1048576

abbrev fresh : ℕ → ℕ → Option Memory
fresh start end = do
  p ← page_add_range start end page_init
  some (record { pages = p; slab_allocators = [] })

-- 129 pages: one for the description and the maps, one block of 128.
create_129 : Option.map (λ m. m.pages.page_freecount) (fresh mib (mib + 129 * 4096)) ≡ some 128
unfolding page_add_range pagegroup_create usable_end fill_group take_maps take_tails fill_largest
    block_bytes
create_129 = refl

-- A page is allocated and given back.
abbrev alloc_and_free : ℕ → Option ℕ
alloc_and_free npages = do
  m ← fresh mib (mib + npages * 4096)
  (addr, m') ← page_alloc m
  a ← addr
  p ← page_free a m'.pages
  some p.page_freecount

alloc_free_129 : alloc_and_free 129 ≡ some 128
unfolding page_add_range pagegroup_create usable_end fill_group take_maps take_tails fill_largest
    block_bytes page_alloc page_alloc_order group_with larger_block split_down page_split take_block
    page_free page_free_order pagegroup_from_address group_free list_remove calculate_index
    flip_pair group_split buddy_of group_join find_idx?
alloc_free_129 = refl

-- With 130 pages one page is left over. It is allocated, and when it is given back the loop that joins
-- buddies removes a page from behind the end of the group, which is in no list.
alloc_free_130 : alloc_and_free 130 ≡ none
unfolding page_add_range pagegroup_create usable_end fill_group take_maps take_tails fill_largest
    block_bytes page_alloc page_alloc_order group_with larger_block split_down page_split take_block
    page_free page_free_order pagegroup_from_address group_free list_remove calculate_index
    flip_pair group_split buddy_of group_join find_idx?
alloc_free_130 = refl

-- One group with one free block of 128 pages.

abbrev one_group : Pagegroup
one_group = record {
  pg_freelist = put (λ _. []) 7 (mib ∷ []);
  pg_map = λ _ _. false;
  pg_baseaddr = mib;
  pg_endaddr = mib + 524288;
}

one_filled : WholeBlocks mib mib (mib + 524288) [] (mib ∷ [])
unfolding total covers block_bytes
one_filled = record {
  covered = λ x. ground arith;
  pages = omega arith;
  blocks = ((omega arith, omega arith, omega arith), tt);
}

one-Whole : Whole mib (mib + 524288) one_group
one-Whole = group-Whole mib (mib + 524288) (λ _. []) (mib ∷ []) (omega arith) (λ k. refl) one_filled

empty_IsPages : IsPages page_init
empty_IsPages = record {
  groups = tt;
  apart = λ i g addr at _. absurd (ground (arith, at));
  counted = refl;
  word = omega arith;
}

abbrev one_page_list : Pages
one_page_list = record { pagegroup_list = one_group ∷ []; page_freecount = 128 }

one_IsPages : IsPages one_page_list
unfolding pagegroup_from_address find_idx?
one_IsPages =
    more_IsPages page_init one_group mib (mib + 524288) 1 empty_IsPages one-Whole (omega arith)
      (λ x _ _. refl) (omega arith)

abbrev one_memory : Memory
one_memory = record { pages = one_page_list; slab_allocators = [] }

one_IsMemory : IsMemory one_memory
unfolding free_at
one_IsMemory = record {
  pages = one_IsPages;
  placed = tt;
  apart = λ x. omega (arith, one-Whole.valid.once x);
  word = omega arith;
}

page_alloc_n_lem_example :
    (k : ℕ) × (3 ≤ 2 ^ k)
    × ((k ≡ 0) ⊎ (2 ^ (k - 1) < 3))
    × AllocResult one_memory k (page_alloc_n 3 one_memory)
page_alloc_n_lem_example = page_alloc_n_lem one_memory 3 one_IsMemory (omega arith)

page_alloc_order-live_example :
    (addr : ℕ) × (m' : Memory) × (page_alloc_order 0 one_memory ≡ some (some addr, m'))
    × Allocated one_memory 0 addr m'
page_alloc_order-live_example =
    page_alloc_order-live one_memory 0 7 0 one_group one_IsMemory (omega arith) (omega arith) refl
      (mib, [], refl)

-- The last of the smallest blocks.
abbrev block_of_four : ℕ
block_of_four = mib + 124 * 4096

-- The memory after three pages have been allocated, which takes four.
abbrev after_alloc : Memory
after_alloc = elim (page_alloc_n 3 one_memory) [ none ↦ one_memory | some (addr, m) ↦ m ]

alloc_3 : page_alloc_n 3 one_memory ≡ some (some block_of_four, after_alloc)
unfolding page_alloc_n order_from page_alloc_order group_with larger_block split_down page_split
    take_block calculate_index flip_pair group_split block_bytes find_idx?
alloc_3 = refl

page_free_n-page_alloc_n_example :
    (q : Pages) × (page_free_n block_of_four 3 after_alloc.pages ≡ some q)
    × IsMemory (record after_alloc { pages = q })
    × ((x : ℕ) → free_at q x ≡ free_at one_page_list x)
    × (q.page_freecount ≡ 128)
page_free_n-page_alloc_n_example =
    page_free_n-page_alloc_n one_memory 3 block_of_four after_alloc one_IsMemory (omega arith)
      alloc_3

-- The two halves of a block are joined again.
abbrev halves : Pagegroup
halves = after_split one_group 6 mib [] one-Whole.valid (omega arith) refl

halves_IsGroup : IsGroup halves
halves_IsGroup = (group_split-Regrouped one_group 6 mib [] one-Whole.valid (omega arith) refl).valid

abbrev upper : ℕ
upper = mib + block_bytes 6

group_join_lem_example :
    (h : Pagegroup) × (group_join 2 halves 6 upper ≡ some h) × Regrouped halves h × Joined h 6 upper
group_join_lem_example =
    group_join_lem 2 halves 6 upper (mib ∷ []) halves_IsGroup (omega arith) refl (omega arith)

page_add_range_lem_example :
    (r : Pages) × (page_add_range mib (mib + 129 * 4096) page_init ≡ some r)
    × IsPages r
    × ((x : ℕ)
        → free_at r x
          ≡ free_at page_init x
            + in_bytes
                (page_align_down mib)
                (usable_end (page_align_down mib) (page_align_down (mib + 129 * 4096)))
                x)
    × (r.page_freecount ≡ 0 + 1 * 128)
unfolding usable_end take_maps pagegroup_from_address find_idx?
page_add_range_lem_example =
    page_add_range_lem page_init mib (mib + 129 * 4096) 1 empty_IsPages (omega arith) refl
      (omega arith) (λ x _ _. refl) (omega arith)

-- A group that is all in a slab without objects.
abbrev used_group : Pagegroup
used_group = record {
  pg_freelist = λ _. [];
  pg_map = λ _ _. false;
  pg_baseaddr = mib;
  pg_endaddr = mib + 524288;
}

used_cover : (x : ℕ) → cover used_group x ≡ 0
unfolding cover weigh sum total
used_cover x = refl

used_IsGroup : IsGroup used_group
unfolding total
used_IsGroup = record {
  base_aligned = refl;
  blocks = λ k less. tt;
  once = λ x. omega (arith, used_cover x);
  paired = λ k i less. refl;
}

abbrev used_pages : Pages
used_pages = record { pagegroup_list = used_group ∷ []; page_freecount = 0 }

used_apart :
    (i : ℕ) (g : Pagegroup) (addr : ℕ)
    → get_elem? (used_group ∷ []) i ≡ some g
    → in_range addr g ≡ true
    → pagegroup_from_address addr (used_group ∷ []) ≡ some i
unfolding pagegroup_from_address find_idx?
used_apart zero g addr at inside =
    let same = some-injective used_group g at in
    let here = subst (λ z. in_range addr z ≡ true) (sym same) inside in ground (arith, here)
used_apart (suc i) g addr at inside = absurd (ground (arith, at))

used_IsPages : IsPages used_pages
unfolding free_pages weigh sum total
used_IsPages = record {
  groups = (used_IsGroup, tt);
  apart = used_apart;
  counted = refl;
  word = omega arith;
}

abbrev used_memory : Memory
used_memory = record {
  pages = used_pages;
  slab_allocators =
      record {
        sa_objsize = 64;
        sa_slabs = record { s_inuse = 0; s_free = []; s_addr = mib } ∷ [];
        sa_order = 7;
        sa_slab_nobjs = 1000;
      }
      ∷ [];
}

used-IsPlace : IsPlace used_pages 7 mib
unfolding pagegroup_from_address find_idx? block_bytes
used-IsPlace = record {
  index = 0;
  group = used_group;
  found = refl;
  at = refl;
  block = (omega arith, omega arith, omega arith);
  below = omega arith;
}

used_IsMemory : IsMemory used_memory
unfolding free_at covers
used_IsMemory = record {
  pages = used_IsPages;
  placed = ((used-IsPlace, tt), tt);
  apart = λ x. ground (arith, used_cover x);
  word = omega arith;
}

slab_allocators_reclaim_lem_example :
    (npages : ℕ) × (m' : Memory) × (slab_allocators_reclaim 0 used_memory ≡ some (npages, m'))
    × MemoryReclaimed used_memory npages m'
slab_allocators_reclaim_lem_example = slab_allocators_reclaim_lem used_memory used_IsMemory
