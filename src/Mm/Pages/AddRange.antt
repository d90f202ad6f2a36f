-- ===== src/Mm/Pages/AddRange.antt =====
-- A range of addresses that is added to the page allocator of kernel/mm/page.c, when what the
-- description and the maps leave of it is a whole number of the largest blocks.
use mathlib.Core.Path.{subst}
use weenix_assignment.Base.{
  ℕ, ◌+◌, ◌-◌, ◌*◌, ◌/◌, ◌%◌, ◌^◌, ◌≤◌, ◌<◌, ◌≡◌, refl, sym, ap, ◌∙◌, true, false, none, some, List,
  [], ◌∷◌, ◌++◌, arith, All, put, add32, sub32, sum_zero, sum, inl, inr, ℕ_discrete,
  get_elem?-append_cases, find_idx?-append_found, find_idx?-append_last, All-append,
  sum_over-append,
}
use weenix_assignment.Vm.Page.{page_size, page_align_down, addr_to_pn}
use weenix_assignment.Mm.Group.{Pagegroup, page_nsizes, block_bytes}
use weenix_assignment.Mm.Group.Totals.{total}
use weenix_assignment.Mm.Group.Blocks.{covers, IsBlock, in_pair, orders}
use weenix_assignment.Mm.Group.Valid.{weigh, cover, free_pages, odd, IsGroup}
use weenix_assignment.Mm.Pages.{Pages, in_range, pagegroup_from_address}
use weenix_assignment.Mm.Pages.Valid.{free_at, IsPages, AreApart}
use weenix_assignment.Mm.Pages.Create.{
  usable_end, fill_group, pagegroup_create, page_add_range, take_tails_none, in_bytes, WholeBlocks,
  fill_largest_lem,
}

-- A group of a whole number of the largest blocks, all free.
pub record Whole (start limit : ℕ) (g : Pagegroup) : Type 0 where
  pub valid : IsGroup g
  pub base : g.pg_baseaddr ≡ start
  pub end : g.pg_endaddr ≡ limit
  pub covered : (x : ℕ) → cover g x ≡ in_bytes start limit x
  pub pages : free_pages g * 2 ^ 12 ≡ limit - start

module _ (start limit : ℕ) (lists : ℕ → List ℕ) (l : List ℕ) (aligned : start % 2 ^ 12 ≡ 0)
    (empty : (k : ℕ) → lists k ≡ []) (filled : WholeBlocks start start limit [] l) where
  abbrev pub group : Pagegroup
  group = record {
    pg_freelist = put lists 7 l;
    pg_map = λ _ _. false;
    pg_baseaddr = start;
    pg_endaddr = limit;
  }

  below_empty : (k : ℕ) → k < 7 → put lists 7 l k ≡ []
  below_empty k less = ground (arith, less, empty k)

  at_top : put lists 7 l 7 ≡ l
  at_top = ground arith

  weigh_whole : (w : ℕ → ℕ → ℕ) → weigh w group ≡ total (w 7) l
  unfolding weigh sum total
  weigh_whole w =
      let zeros =
        sum_zero 7 (λ k. total (w k) (put lists 7 l k))
          (λ k less. ap (total (w k)) (below_empty k less)) in
      omega (arith, zeros, ap (total (w 7)) at_top)

  blocks_whole : (k : ℕ) → k < page_nsizes → All (IsBlock group k) (put lists 7 l k)
  unfolding block_bytes
  blocks_whole k less = elim (ℕ_discrete k 7) [
    | yes e ↦ rw (e, at_top) filled.blocks
    | no other ↦ rw (below_empty k (omega (arith, less, other))) tt
  ]

  paired_whole :
      (k i : ℕ) → k < page_nsizes - 1 → false ≡ odd (total (in_pair start k i) (put lists 7 l k))
  unfolding total
  paired_whole k i less = rw (below_empty k less) refl

  cover_whole : (x : ℕ) → cover group x ≡ in_bytes start limit x
  unfolding cover total
  cover_whole x = omega (arith, weigh_whole (λ k. covers k x), filled.covered x)

  pub group-Whole : Whole start limit group
  unfolding free_pages total
  group-Whole = record {
    valid = record {
      base_aligned = aligned;
      blocks = blocks_whole;
      once = λ x. rw (cover_whole x) (ground arith);
      paired = paired_whole;
    };
    base = refl;
    end = refl;
    covered = cover_whole;
    pages = omega (arith, weigh_whole (λ k _. 2 ^ k), filled.pages);
  }

even_halves : (q k : ℕ) → k < 7 → q * 128 / 2 ^ k % 2 ≡ 0
even_halves q k less =
    orders (λ k. k < 7 → q * 128 / 2 ^ k % 2 ≡ 0)
      (
        λ _. omega arith,
        λ _. omega arith,
        λ _. omega arith,
        λ _. omega arith,
        λ _. omega arith,
        λ _. omega arith,
        λ _. omega arith,
        λ h. absurd (omega (arith, h)),
      )
      k (omega (arith, less)) less

-- A range whose usable pages are a whole number of the largest blocks.
pub fill_group_lem :
    (start limit q : ℕ)
    → start % 2 ^ 12 ≡ 0
    → limit < 2 ^ 32
    → limit ≡ start + q * 524288
    → (g : Pagegroup) × (fill_group start limit ≡ some g) × Whole start limit g
unfolding fill_group
fill_group_lem start limit q aligned word blocks =
    let npages = sub32 limit start / page_size in
    let pages : npages ≡ q * 128 = omega (arith, word, blocks) in
    let even : (k : ℕ) → k < page_nsizes - 1 → npages / 2 ^ k % 2 ≡ 0 =
      λ k less. rw pages (even_halves q k less) in
    let (lists, tails, empty) =
      take_tails_none 7 0 npages limit (λ _. []) even (omega arith) (λ k. refl) in
    let (l, run, filled) =
      fill_largest_lem q (npages + 1) start start limit [] (omega (arith, pages)) blocks
        (omega arith) (omega arith) tt in
    let fine : sub32 limit start % 128 ≡ 0 = omega (arith, word, blocks) in
    (
      group start limit lists l aligned empty filled,
      ground (arith, tails, fine, run),
      group-Whole start limit lists l aligned empty filled,
    )

-- The allocator with one more group.
module _ (p : Pages) (g : Pagegroup) (start limit q : ℕ) (v : IsPages p)
    (whole : Whole start limit g) (blocks : limit ≡ start + q * 524288)
    (outside : (x : ℕ) → start ≤ x → x < limit → pagegroup_from_address x p.pagegroup_list ≡ none)
    (word : p.page_freecount + q * 128 < 2 ^ 32) where
  abbrev pub more : Pages
  more = record {
    pagegroup_list = p.pagegroup_list ++ g ∷ [];
    page_freecount = add32 p.page_freecount (addr_to_pn (g.pg_endaddr - g.pg_baseaddr));
  }

  more_apart : AreApart more.pagegroup_list
  unfolding pagegroup_from_address
  more_apart i h addr at inside = elim (get_elem?-append_cases p.pagegroup_list g i h at) [
    | inl before ↦
        find_idx?-append_found (in_range addr) p.pagegroup_list (g ∷ []) i
          (v.apart i h addr before inside)
    | inr (last, same) ↦
        (let here : in_range addr g ≡ true =
            subst (λ z. in_range addr z ≡ true) (sym same) inside in
          let low : start ≤ addr = ground (arith, here, whole.base) in
          let high : addr < limit = ground (arith, here, whole.end) in
          find_idx?-append_last (in_range addr) p.pagegroup_list g (outside addr low high) here
          ∙ ap some (sym last))
  ]

  more_count : more.page_freecount ≡ p.page_freecount + q * 128
  more_count = omega (arith, word, whole.base, whole.end, blocks)

  pub more_IsPages : IsPages more
  more_IsPages = record {
    groups = All-append IsGroup p.pagegroup_list g v.groups whole.valid;
    apart = more_apart;
    counted = omega (
      arith,
      more_count,
      v.counted,
      sum_over-append free_pages p.pagegroup_list g,
      whole.pages,
      blocks,
    );
    word = omega (arith, more_count, word);
  }

  more_free : (x : ℕ) → free_at more x ≡ free_at p x + in_bytes start limit x
  unfolding free_at
  more_free x = omega (arith, sum_over-append (λ k. cover k x) p.pagegroup_list g, whole.covered x)

-- A range whose usable pages are q of the largest blocks, with q above 0, that shares no address with
-- the groups is added: the allocator is in order, and exactly the bytes from the start of the range to
-- the end of its usable pages become free, q * 128 pages.
pub page_add_range_lem :
    (p : Pages) (start end q : ℕ)
    → IsPages p
    → 0 < q
    → usable_end (page_align_down start) (page_align_down end) ≡ page_align_down start + q * 524288
    → usable_end (page_align_down start) (page_align_down end) < 2 ^ 32
    → ((x : ℕ)
        → page_align_down start ≤ x
        → x < usable_end (page_align_down start) (page_align_down end)
        → pagegroup_from_address x p.pagegroup_list ≡ none)
    → p.page_freecount + q * 128 < 2 ^ 32
    → (r : Pages) × (page_add_range start end p ≡ some r)
      × IsPages r
      × ((x : ℕ)
          → free_at r x
            ≡ free_at p x
              + in_bytes
                  (page_align_down start)
                  (usable_end (page_align_down start) (page_align_down end))
                  x)
      × (r.page_freecount ≡ p.page_freecount + q * 128)
unfolding page_add_range pagegroup_create
page_add_range_lem p start end q v pos blocks limit outside word =
    let base = page_align_down start in
    let top = usable_end base (page_align_down end) in
    let (g, run, whole) = fill_group_lem base top q (omega arith) limit blocks in
    (
      more p g base top q v whole blocks outside word,
      ground (arith, run, whole.base, whole.end, blocks, pos),
      more_IsPages p g base top q v whole blocks outside word,
      more_free p g base top q v whole blocks outside word,
      more_count p g base top q v whole blocks outside word,
    )
