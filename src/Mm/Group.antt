-- ===== src/Mm/Group.antt =====
-- One page group of the buddy allocator of kernel/mm/page.c. A free block of order k is 2 ^ k pages and
-- stands, by its address, in the list `pg_freelist[k]`; `pg_map[k + 1]` has one bit for each pair of
-- blocks of order k. `none` is a failed KASSERT or the removal of a block that is not in its list.
pub mod Totals
pub mod Blocks
pub mod Valid
pub mod Flip
pub mod Split
pub mod Join
use weenix_assignment.Base.{
  ℕ, zero, suc, ◌+◌, ◌-◌, ◌*◌, ◌/◌, ◌%◌, ◌^◌, min, Bool, true, false, not, ◌&&◌, Option, none, some,
  List, [], ◌∷◌, ltb, leb, ◌==◌, if◌then◌else◌, ◌>>=◌, ◌>>◌, kassert, put,
}
use weenix_assignment.Vm.Page.{page_size, page_aligned}

-- `PAGE_NSIZES`
abbrev pub page_nsizes : ℕ
page_nsizes = 8

-- `struct pagegroup`
pub record Pagegroup : Type 0 where
  pub pg_freelist : ℕ → List ℕ
  pub pg_map : ℕ → ℕ → Bool
  pub pg_baseaddr : ℕ
  pub pg_endaddr : ℕ

-- `(1 << order) << PAGE_SHIFT`
unfoldable pub block_bytes : ℕ → ℕ
block_bytes order = 2 ^ order * page_size

-- `bit_flip`
abbrev pub bit_flip : (ℕ → Bool) → ℕ → ℕ → Bool
bit_flip map bit = put map bit (not (map bit))

-- `list_empty` and the removal of the head
abbrev pub list_empty : List ℕ → Bool
list_empty [] = true
list_empty (a ∷ l) = false

abbrev pub list_head : List ℕ → Option (ℕ × List ℕ)
list_head [] = none
list_head (a ∷ l) = some (a, l)

-- `list_remove` of the link of a free page, in the list that it stands in
unfoldable pub list_remove : ℕ → List ℕ → Option (List ℕ)
list_remove a [] = none
list_remove a (b ∷ l) =
    let rest = list_remove a l in if a == b then some l else (do r ← rest; some (b ∷ r))

-- `_pagegroup_calculate_index`
unfoldable pub calculate_index : Pagegroup → ℕ → ℕ → Option ℕ
calculate_index g order addr = do
  kassert (page_aligned addr)
  kassert (ltb order page_nsizes)
  kassert (leb g.pg_baseaddr addr && ltb addr g.pg_endaddr)
  let offset = addr - g.pg_baseaddr
  kassert (offset % 2 ^ order == 0)
  some (offset / 2 ^ order / page_size)

-- The flip of the bit of a block and its buddy, for a block below the largest order.
unfoldable pub flip_pair : Pagegroup → ℕ → ℕ → Option Pagegroup
flip_pair g order addr =
    let flipped = do
      index ← calculate_index g (order + 1) addr
      some (record g { pg_map = put g.pg_map (order + 1) (bit_flip (g.pg_map (order + 1)) index) })
    in if ltb order (page_nsizes - 1) then flipped else some g

-- `__page_split`
unfoldable pub group_split : Pagegroup → ℕ → Option Pagegroup
group_split g order = do
  kassert (ltb 0 order)
  kassert (ltb order page_nsizes)
  (target, rest) ← list_head (g.pg_freelist order)
  let taken = record g { pg_freelist = put g.pg_freelist order rest }
  marked ← flip_pair taken order target
  index ← calculate_index marked order target
  kassert (not (marked.pg_map order index))
  let buddy = target + block_bytes (order - 1)
  let halves = buddy ∷ target ∷ marked.pg_freelist (order - 1)
  some (record marked { pg_freelist = put marked.pg_freelist (order - 1) halves })

-- The buddy of a block.
unfoldable pub buddy_of : Pagegroup → ℕ → ℕ → ℕ
buddy_of g order addr =
    if (addr - g.pg_baseaddr) / page_size / 2 ^ order % 2 == 1
    then addr - block_bytes order
    else addr + block_bytes order

-- `__page_join`; the number bounds the rounds of the loop.
unfoldable pub group_join : ℕ → Pagegroup → ℕ → ℕ → Option Pagegroup
group_join zero g order addr = none
group_join (suc n) g order addr =
    let buddy = buddy_of g order addr in
    let joined = do
      kassert ((addr - g.pg_baseaddr) % 2 ^ order == 0)
      mine ← list_remove addr (g.pg_freelist order)
      others ← list_remove buddy mine
      let low = min addr buddy
      let above = low ∷ g.pg_freelist (order + 1)
      let lists = put (put g.pg_freelist order others) (order + 1) above
      marked ← flip_pair (record g { pg_freelist = lists }) (order + 1) low
      group_join n marked (order + 1) low
    in let round = do
      index ← calculate_index g (order + 1) addr
      if g.pg_map (order + 1) index then some g else joined
      in if ltb order (page_nsizes - 1) then round else some g
