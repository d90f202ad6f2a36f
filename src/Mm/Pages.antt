-- ===== src/Mm/Pages.antt =====
-- The page allocator of kernel/mm/page.c: the list of page groups and the number of free pages.
-- `none` is a failed KASSERT, a panic, or the removal of a block that is not in its free list.
pub mod GroupFree
pub mod Valid
pub mod Free
pub mod Alloc
pub mod Create
pub mod AddRange
use weenix_assignment.Base.{
  ℕ, zero, suc, ◌+◌, ◌-◌, ◌^◌, Bool, true, false, not, ◌&&◌, ◌||◌, Option, none, some, List, [],
  ◌∷◌, ltb, leb, if◌then◌else◌, ◌>>=◌, ◌>>◌, kassert, put, get_elem?, set, find_idx?, add32, sub32,
}
use weenix_assignment.Mm.Group.{
  Pagegroup, page_nsizes, list_empty, list_head, flip_pair, group_split, group_join,
}

pub record Pages : Type 0 where
  pub pagegroup_list : List Pagegroup
  pub page_freecount : ℕ

-- `page_init`
abbrev pub page_init : Pages
page_init = record { pagegroup_list = []; page_freecount = 0 }

abbrev pub in_range : ℕ → Pagegroup → Bool
in_range addr g = leb g.pg_baseaddr addr && ltb addr g.pg_endaddr

-- `_pagegroup_from_address`; a group is named by its place in the list.
unfoldable pub pagegroup_from_address : ℕ → List Pagegroup → Option ℕ
pagegroup_from_address addr groups = find_idx? (in_range addr) groups

-- What `_page_free_order` does to the group.
unfoldable pub group_free : Pagegroup → ℕ → ℕ → Option Pagegroup
group_free g order addr =
    let listed = record g { pg_freelist = put g.pg_freelist order (addr ∷ g.pg_freelist order) } in
    let joined = do marked ← flip_pair listed order addr; group_join page_nsizes marked order addr
    in if ltb order (page_nsizes - 1) then joined else some listed

-- `_page_free_order`
unfoldable pub page_free_order : ℕ → ℕ → Pages → Option Pages
page_free_order addr order p = elim (pagegroup_from_address addr p.pagegroup_list) [
  | none ↦ some p
  | some i ↦ do
    g ← get_elem? p.pagegroup_list i
    freed ← group_free g order addr
    some (record {
      pagegroup_list = set p.pagegroup_list i freed;
      page_freecount = add32 p.page_freecount (2 ^ order);
    })
]

-- The order for a number of pages: the loop of `page_alloc_n` and `page_free_n`, which compares
-- signed numbers. The first argument counts the orders that are left.
unfoldable pub order_from : ℕ → ℕ → ℕ → Option ℕ
order_from zero order npages = none
order_from (suc n) order npages =
    let rest = order_from n (order + 1) npages in
    if leb npages (2 ^ order) || leb (2 ^ 31) npages then some order else rest

abbrev pub order_for : ℕ → Option ℕ
order_for npages = order_from page_nsizes 0 npages

-- `page_free`, `page_free_n`
unfoldable pub page_free : ℕ → Pages → Option Pages
page_free addr p = page_free_order addr 0 p

unfoldable pub page_free_n : ℕ → ℕ → Pages → Option Pages
page_free_n start npages p = do order ← order_for npages; page_free_order start order p

-- The first group with a free block of an order.
unfoldable pub group_with : ℕ → List Pagegroup → Option ℕ
group_with order groups = find_idx? (λ g. not (list_empty (g.pg_freelist order))) groups

-- The `for` loop of `_page_split`: the first order from one on with a free block, and its group.
unfoldable pub larger_block : ℕ → ℕ → List Pagegroup → Option (ℕ × ℕ)
larger_block zero norder groups = none
larger_block (suc n) norder groups =
    let rest = larger_block n (norder + 1) groups in
    elim (group_with norder groups) [ some i ↦ some (norder, i) | none ↦ rest ]

-- Its `while` loop: the splits from one order down, as many as the first argument says.
unfoldable pub split_down : ℕ → Pagegroup → ℕ → Option Pagegroup
split_down zero g norder = some g
split_down (suc n) g norder = do smaller ← group_split g norder; split_down n smaller (norder - 1)

-- `_page_split` up to the memory that the slab allocators give back: the group, if a larger block
-- was free.
unfoldable pub page_split : ℕ → Pages → Option (Option ℕ × Pages)
page_split order p = elim (larger_block (page_nsizes - (order + 1)) (order + 1) p.pagegroup_list) [
  | none ↦ some (none, p)
  | some (norder, i) ↦ do
    g ← get_elem? p.pagegroup_list i
    small ← split_down (norder - order) g norder
    kassert (not (list_empty (small.pg_freelist order)))
    some (some i, record p { pagegroup_list = set p.pagegroup_list i small })
]

-- `_page_alloc_order` from the label `found` on.
unfoldable pub take_block : ℕ → ℕ → Pages → Option (ℕ × Pages)
take_block order i p = do
  g ← get_elem? p.pagegroup_list i
  (addr, rest) ← list_head (g.pg_freelist order)
  marked ← flip_pair (record g { pg_freelist = put g.pg_freelist order rest }) order addr
  let fewer = sub32 p.page_freecount (2 ^ order)
  let groups = set p.pagegroup_list i marked
  some (addr, record { pagegroup_list = groups; page_freecount = fewer })

-- `page_free_count`
abbrev pub page_free_count : Pages → ℕ
page_free_count p = p.page_freecount
