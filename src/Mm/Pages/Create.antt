-- ===== src/Mm/Pages/Create.antt =====
-- `_pagegroup_create` and `page_add_range` of kernel/mm/page.c: a range of addresses becomes a group,
-- whose description and bit maps take up the end of the range.
use weenix_assignment.Base.{
  ℕ, zero, suc, ◌+◌, ◌-◌, ◌*◌, ◌/◌, ◌%◌, ◌^◌, ◌≤◌, ◌<◌, ◌≡◌, refl, false, ◌&&◌, Option, none, some,
  List, [], ◌∷◌, ◌++◌, arith, All, put, add32, sub32, ltb, leb, ◌==◌, if◌then◌else◌, ◌>>=◌, ◌>>◌,
  kassert,
}
use weenix_assignment.Vm.Page.{page_size, page_align_down, addr_to_pn}
use weenix_assignment.Mm.Group.{Pagegroup, page_nsizes, block_bytes}
use weenix_assignment.Mm.Group.Totals.{total}
use weenix_assignment.Mm.Group.Blocks.{covers}
use weenix_assignment.Mm.Pages.{Pages}

-- `sizeof(struct pagegroup)`: eight lists of two pointers, eight pointers, two addresses, one link.
abbrev pub sizeof_pagegroup : ℕ
sizeof_pagegroup = 112

-- The bytes of the bit map of one order.
abbrev pub map_bytes : ℕ → ℕ → ℕ
map_bytes npages order = let count = sub32 (npages / 2 ^ order) 1 in add32 (count - count % 8) 8 / 8

-- The loop that takes the maps of the orders off the end; the first argument counts the orders left.
unfoldable pub take_maps : ℕ → ℕ → ℕ → ℕ → ℕ
take_maps zero order npages end = end
take_maps (suc n) order npages end =
    take_maps n (order + 1) npages (sub32 end (map_bytes npages order))

-- The loop that puts the pages which do not fit into the largest order into the smaller ones.
unfoldable pub take_tails : ℕ → ℕ → ℕ → ℕ → (ℕ → List ℕ) → ℕ × (ℕ → List ℕ)
take_tails zero order npages end lists = (end, lists)
take_tails (suc n) order npages end lists =
    let odd = npages / 2 ^ order % 2 == 1 in
    let below = if odd then sub32 end (block_bytes order) else end in
    take_tails n (order + 1) npages below (put lists order (if odd then below ∷ [] else []))

-- The last loop: the blocks of the largest order, each in front of those before it. The first argument
-- bounds the rounds.
unfoldable pub fill_largest : ℕ → ℕ → ℕ → List ℕ → Option (List ℕ)
fill_largest zero current end l = none
fill_largest (suc n) current end l =
    let more = fill_largest n (current + block_bytes (page_nsizes - 1)) end (current ∷ l) in
    if ltb current end then more else some l

-- The first half of `_pagegroup_create`: where the pages end, below the description and the maps.
unfoldable pub usable_end : ℕ → ℕ → ℕ
usable_end start end =
    let npages = sub32 end start / page_size in
    page_align_down (take_maps (page_nsizes - 1) 1 npages (sub32 end sizeof_pagegroup))

-- Its second half: the free lists.
unfoldable pub fill_group : ℕ → ℕ → Option Pagegroup
fill_group start limit = do
  let npages = sub32 limit start / page_size
  let (rest, lists) = take_tails (page_nsizes - 1) 0 npages limit (λ _. [])
  kassert (sub32 rest start % 2 ^ (page_nsizes - 1) == 0)
  largest ← fill_largest (npages + 1) start rest []
  some (record {
    pg_freelist = put lists (page_nsizes - 1) largest;
    pg_map = λ _ _. false;
    pg_baseaddr = start;
    pg_endaddr = limit;
  })

-- `_pagegroup_create`
unfoldable pub pagegroup_create : ℕ → ℕ → Option Pagegroup
pagegroup_create start end = fill_group start (usable_end start end)

-- `page_add_range`
unfoldable pub page_add_range : ℕ → ℕ → Pages → Option Pages
page_add_range start end p = do
  g ← pagegroup_create (page_align_down start) (page_align_down end)
  let more : Pages = record {
    pagegroup_list = p.pagegroup_list ++ g ∷ [];
    page_freecount = add32 p.page_freecount (addr_to_pn (g.pg_endaddr - g.pg_baseaddr));
  }
  some (if ltb g.pg_baseaddr g.pg_endaddr then more else p)

-- A whole number of the largest blocks has no tails.
pub take_tails_none :
    (n order npages end : ℕ) (lists : ℕ → List ℕ)
    → ((k : ℕ) → k < page_nsizes - 1 → npages / 2 ^ k % 2 ≡ 0)
    → n + order ≤ page_nsizes - 1
    → ((k : ℕ) → lists k ≡ [])
    → (lists' : ℕ → List ℕ) × (take_tails n order npages end lists ≡ (end, lists'))
      × ((k : ℕ) → lists' k ≡ [])
unfolding take_tails
take_tails_none zero order npages end lists even less empty = (lists, refl, empty)
take_tails_none (suc n) order npages end lists even less empty =
    let here = even order (omega (arith, less)) in
    let none_left : (k : ℕ) → put lists order [] k ≡ [] = λ k. ground (arith, empty k) in
    let (lists', run, all) =
      take_tails_none n (order + 1) npages end (put lists order []) even (omega (arith, less))
        none_left in
    (lists', ground (arith, here, run), all)

abbrev pub in_bytes : ℕ → ℕ → ℕ → ℕ
in_bytes start end x = if leb start x && ltb x end then 1 else 0

-- The blocks of the largest order between two addresses.
pub record WholeBlocks (start current end : ℕ) (l r : List ℕ) : Type 0 where
  pub covered : (x : ℕ) → total (covers 7 x) r ≡ total (covers 7 x) l + in_bytes current end x
  pub pages : total (λ _. 2 ^ 7) r * 2 ^ 12 ≡ total (λ _. 2 ^ 7) l * 2 ^ 12 + (end - current)
  pub blocks : All (λ a. (start ≤ a) × (a + 524288 ≤ end) × ((a - start) % 524288 ≡ 0)) r

pub fill_largest_lem :
    (q n start current end : ℕ) (l : List ℕ)
    → q < n
    → end ≡ current + q * 524288
    → start ≤ current
    → (current - start) % 524288 ≡ 0
    → All (λ a. (start ≤ a) × (a + 524288 ≤ end) × ((a - start) % 524288 ≡ 0)) l
    → (r : List ℕ) × (fill_largest n current end l ≡ some r) × WholeBlocks start current end l r
unfolding fill_largest block_bytes covers total
fill_largest_lem q zero start current end l fuel length low aligned all =
    absurd (omega (arith, fuel))
fill_largest_lem zero (suc n) start current end l fuel length low aligned all = (
  l,
  ground (arith, length),
  record { covered = λ x. ground (arith, length); pages = omega (arith, length); blocks = all },
)
fill_largest_lem (suc q) (suc n) start current end l fuel length low aligned all =
    let (r, run, ok) =
      fill_largest_lem q n start (current + 524288) end (current ∷ l) (omega (arith, fuel))
        (omega (arith, length)) (omega (arith, low)) (omega (arith, aligned, low))
        ((low, omega (arith, length), aligned), all) in
    (
      r,
      ground (arith, length, run),
      record {
        covered = λ x. ground (arith, ok.covered x, length);
        pages = omega (arith, ok.pages, length);
        blocks = ok.blocks;
      },
    )
