-- ===== src/Mm/Group/Split.antt =====
-- `__page_split` of kernel/mm/page.c on a group that is in order.

use weenix_assignment.Base.{
  ℕ, ◌+◌, ◌-◌, ◌*◌, ◌%◌, ◌^◌, ◌≤◌, ◌<◌, ◌≡◌, refl, sym, ◌∙◌, false, some, List, ◌∷◌, arith, put,
  ℕ_discrete,
}
use weenix_assignment.Mm.Group.{Pagegroup, page_nsizes, block_bytes, group_split}
use weenix_assignment.Mm.Group.Totals.{total, Removed, Removed-head, HasBlock, find_counted}
use weenix_assignment.Mm.Group.Blocks.{
  covers, pair_of, in_pair, IsBlock, two_pow-suc, block_bytes-suc, calculate_index-some,
  halves_aligned, halves_pair, within_pair, covers_self, covers_halves, covers_inside, in_pair_pos,
}
use weenix_assignment.Mm.Group.Valid.{
  cover, free_pages, IsGroup, SameGroup, weigh-SameGroup, IsGroup-SameGroup, flip_twice, relist,
}
use weenix_assignment.Mm.Group.Flip.{
  flip_pair-some, weigh-removed, cover-removed, removed-IsGroup, weigh-inserted, cover-inserted,
  inserted, inserted-IsGroup,
}

-- A group changed inside: the same range of addresses, the same free bytes and free pages.
pub record Regrouped (g h : Pagegroup) : Type 0 where
  pub valid : IsGroup h
  pub base : h.pg_baseaddr ≡ g.pg_baseaddr
  pub end : h.pg_endaddr ≡ g.pg_endaddr
  pub covered : (x : ℕ) → cover h x ≡ cover g x
  pub pages : free_pages h ≡ free_pages g

-- A free block takes up its first byte.
pub free_block :
    (g : Pagegroup) (order addr : ℕ) (l : List ℕ)
    → IsGroup g
    → order < page_nsizes
    → Removed addr (g.pg_freelist order) l
    → 1 ≤ cover g addr
free_block g order addr l v less h =
    omega (arith, cover-removed g order addr l v less h addr, covers_self order addr)

module _ (g : Pagegroup) (o target : ℕ) (rest : List ℕ) (v : IsGroup g) (less : o < page_nsizes - 1)
    (head : g.pg_freelist (o + 1) ≡ target ∷ rest) where
  above_less : o + 1 < page_nsizes
  above_less = omega (arith, less)

  o_less : o < page_nsizes
  o_less = omega (arith, less)

  target-Removed : Removed target (g.pg_freelist (o + 1)) rest
  target-Removed = rw head (Removed-head target rest)

  target-IsBlock : IsBlock g (o + 1) target
  target-IsBlock = (target-Removed.keeps (IsBlock g (o + 1)) (v.blocks (o + 1) above_less)).0

  target_aligned : (target - g.pg_baseaddr) % (2 * block_bytes o) ≡ 0
  target_aligned = rw (sym (block_bytes-suc o)) target-IsBlock.2

  abbrev marked : Pagegroup
  marked = relist g (o + 1) target rest

  marked_valid : IsGroup marked
  marked_valid = removed-IsGroup g (o + 1) target rest v above_less target-Removed

  cover-marked : (x : ℕ) → cover g x ≡ covers (o + 1) x target + cover marked x
  cover-marked = cover-removed g (o + 1) target rest v above_less target-Removed

  abbrev pair : ℕ
  pair = pair_of g.pg_baseaddr o target

  half_clash : HasBlock (in_pair g.pg_baseaddr o pair) (IsBlock g o) (marked.pg_freelist o) → ⊥
  unfolding pair_of
  half_clash half =
      let same = in_pair_pos g.pg_baseaddr o pair half.block half.counted in
      let (low, high) =
        within_pair o o_less (target - g.pg_baseaddr) (half.block - g.pg_baseaddr) target_aligned
          (sym same) in
      let inside =
        covers_inside (o + 1) half.block target (omega (arith, low, target-IsBlock.0, half.good.0))
          (omega (arith, high, block_bytes-suc o, target-IsBlock.0, half.good.0)) in
      omega (
        arith,
        inside,
        cover-marked half.block,
        v.once half.block,
        free_block marked o half.block half.rest marked_valid o_less half.removed,
      )

  -- The halves of a free block are not free.
  no_half : total (in_pair g.pg_baseaddr o pair) (marked.pg_freelist o) ≡ 0
  no_half = elim (ℕ_discrete (total (in_pair g.pg_baseaddr o pair) (marked.pg_freelist o)) 0) [
    | yes e ↦ e
    | no some_half ↦ absurd (
        half_clash (
          find_counted (in_pair g.pg_baseaddr o pair) (IsBlock g o) (marked.pg_freelist o)
            (marked_valid.blocks o o_less) (omega (arith, some_half))))
  ]

  no_bit : marked.pg_map (o + 1) pair ≡ false
  no_bit = ground (arith, marked_valid.paired o pair less, no_half)

  -- The two halves enter the list of the order below.
  abbrev with_target : Pagegroup
  with_target = inserted marked o target marked_valid o_less

  half_free : (x : ℕ) → covers o x target + cover marked x ≤ 1
  half_free x = omega (arith, cover-marked x, covers_halves o x target, v.once x)

  half-IsBlock : IsBlock g o target
  half-IsBlock = (
    target-IsBlock.0,
    omega (arith, target-IsBlock.1, block_bytes-suc o),
    (halves_aligned o o_less (target - g.pg_baseaddr) target_aligned).0,
  )

  with_target_valid : IsGroup with_target
  with_target_valid = inserted-IsGroup marked o target marked_valid o_less half-IsBlock half_free

  abbrev buddy : ℕ
  buddy = target + block_bytes o

  abbrev with_both : Pagegroup
  with_both = inserted with_target o buddy with_target_valid o_less

  buddy_offset : buddy - g.pg_baseaddr ≡ target - g.pg_baseaddr + block_bytes o
  buddy_offset = omega (arith, target-IsBlock.0)

  buddy-IsBlock : IsBlock g o buddy
  buddy-IsBlock = (
    omega (arith, target-IsBlock.0),
    omega (arith, target-IsBlock.1, block_bytes-suc o),
    rw buddy_offset (halves_aligned o o_less (target - g.pg_baseaddr) target_aligned).1,
  )

  cover_both : (x : ℕ) → cover with_both x ≡ cover g x
  cover_both x = omega (
    arith,
    cover-marked x,
    covers_halves o x target,
    cover-inserted marked o target marked_valid o_less x,
    cover-inserted with_target o buddy with_target_valid o_less x,
  )

  with_both_valid : IsGroup with_both
  with_both_valid =
      inserted-IsGroup with_target o buddy with_target_valid o_less buddy-IsBlock (λ x. omega (
        arith,
        cover_both x,
        v.once x,
        cover-inserted with_target o buddy with_target_valid o_less x,
      ))

  pages_both : free_pages with_both ≡ free_pages g
  unfolding free_pages
  pages_both = omega (
    arith,
    two_pow-suc o,
    weigh-removed g (o + 1) target rest v above_less target-Removed (λ k _. 2 ^ k),
    weigh-inserted marked o target marked_valid o_less (λ k _. 2 ^ k),
    weigh-inserted with_target o buddy with_target_valid o_less (λ k _. 2 ^ k),
  )

  -- The group after the split.
  abbrev pub after_split : Pagegroup
  after_split = record marked {
    pg_freelist = put marked.pg_freelist o (buddy ∷ target ∷ marked.pg_freelist o);
  }

  buddy_pair : pair_of g.pg_baseaddr o buddy ≡ pair
  unfolding pair_of
  buddy_pair = rw buddy_offset (halves_pair o o_less (target - g.pg_baseaddr) target_aligned)

  split_same : SameGroup with_both after_split
  split_same = record {
    base = refl;
    end = refl;
    lists = λ k. ground arith;
    bits = λ k i. flip_twice marked.pg_map o pair (pair_of g.pg_baseaddr o buddy) k i buddy_pair;
  }

  pub group_split-some : group_split g (o + 1) ≡ some after_split
  unfolding group_split pair_of
  group_split-some =
      let down : o + 1 - 1 ≡ o = omega arith in
      let flip =
        flip_pair-some (record g { pg_freelist = put g.pg_freelist (o + 1) rest }) (o + 1) target
          v.base_aligned above_less target-IsBlock in
      let index =
        calculate_index-some marked (o + 1) target (o + 1) v.base_aligned above_less target-IsBlock
          above_less in
      ground (arith, less, head, down, flip, index, no_bit)

  pub group_split-Regrouped : Regrouped g after_split
  unfolding cover free_pages
  group_split-Regrouped = record {
    valid = IsGroup-SameGroup split_same with_both_valid;
    base = refl;
    end = refl;
    covered = λ x. weigh-SameGroup (λ k. covers k x) split_same ∙ cover_both x;
    pages = weigh-SameGroup (λ k _. 2 ^ k) split_same ∙ pages_both;
  }

-- A free block of an order.
abbrev pub Nonempty : Pagegroup → ℕ → Type 0
Nonempty g order = (a : ℕ) × (l : List ℕ) × (g.pg_freelist order ≡ a ∷ l)

-- A split, by what it does.
pub split_step :
    (g : Pagegroup) (o : ℕ)
    → IsGroup g
    → o < page_nsizes - 1
    → Nonempty g (o + 1)
    → (h : Pagegroup) × (group_split g (o + 1) ≡ some h) × Regrouped g h × Nonempty h o
split_step g o v less (a, l, head) =
    let h = after_split g o a l v less head in
    let full : h.pg_freelist o ≡ (a + block_bytes o) ∷ a ∷ put g.pg_freelist (o + 1) l o =
      ground arith in
    (
      h,
      group_split-some g o a l v less head,
      group_split-Regrouped g o a l v less head,
      (a + block_bytes o, a ∷ put g.pg_freelist (o + 1) l o, full),
    )

pub Regrouped-refl : {g : Pagegroup} → IsGroup g → Regrouped g g
Regrouped-refl v = record { valid = v; base = refl; end = refl; covered = λ x. refl; pages = refl }

pub Regrouped-trans : {g h i : Pagegroup} → Regrouped g h → Regrouped h i → Regrouped g i
Regrouped-trans p q = record {
  valid = q.valid;
  base = q.base ∙ p.base;
  end = q.end ∙ p.end;
  covered = λ x. q.covered x ∙ p.covered x;
  pages = q.pages ∙ p.pages;
}
