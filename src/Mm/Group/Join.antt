-- ===== src/Mm/Group/Join.antt =====
-- `__page_join` of kernel/mm/page.c on a group that is in order.
use weenix_assignment.Base.{
  ℕ, zero, suc, ◌+◌, ◌-◌, ◌*◌, ◌%◌, ◌^◌, ◌≤◌, ◌<◌, min, ◌≡◌, ◌≢◌, refl, sym, ap, ◌∙◌, true, false,
  some, List, ◌∷◌, arith, All, put, ◌⊎◌, inl, inr, ℕ_discrete, Bool-cases,
}
use weenix_assignment.Mm.Group.{
  Pagegroup, page_nsizes, block_bytes, flip_pair, group_join, buddy_of,
}
use weenix_assignment.Mm.Group.Totals.{
  total, Removed, Removed-head, HasBlock, find_counted, list_remove-head,
}
use weenix_assignment.Mm.Group.Blocks.{
  covers, pair_of, in_pair, IsBlock, two_pow-suc, block_bytes-suc, calculate_index-some, same_pair,
  offset_aligned, covers_self, covers_halves, in_pair_pos,
}
use weenix_assignment.Mm.Group.Valid.{
  flip_map, flip_under, cover, free_pages, IsGroup, SameGroup, weigh-SameGroup, IsGroup-SameGroup,
  relist,
}
use weenix_assignment.Mm.Group.Flip.{
  flip_pair-some, weigh-removed, cover-removed, removed-IsGroup, weigh-inserted, cover-inserted,
  inserted, inserted-IsGroup,
}
use weenix_assignment.Mm.Group.Split.{Regrouped, Regrouped-refl, Regrouped-trans, free_block}

-- What two different blocks of one pair have to do with each other.
pub record Buddies (g : Pagegroup) (o addr b : ℕ) : Type 0 where
  pub buddy : buddy_of g o addr ≡ b
  pub halves : (addr ≡ b + block_bytes o) ⊎ (b ≡ addr + block_bytes o)
  pub aligned : (min addr b - g.pg_baseaddr) % (2 * block_bytes o) ≡ 0

buddies :
    (g : Pagegroup) (o addr b : ℕ)
    → o < page_nsizes
    → IsBlock g o addr
    → IsBlock g o b
    → pair_of g.pg_baseaddr o addr ≡ pair_of g.pg_baseaddr o b
    → addr ≢ b
    → Buddies g o addr b
unfolding pair_of buddy_of
buddies g o addr b less x y same other =
    elim (same_pair o less (addr - g.pg_baseaddr) (b - g.pg_baseaddr) x.2 y.2 same
      (λ e. other (omega (arith, e, x.0, y.0)))) [
        | inl (bit, offset, low) ↦
            (let above : addr ≡ b + block_bytes o = omega (arith, offset, x.0, y.0) in
              let least : min addr b ≡ b = omega (arith, above) in
              record {
                buddy = ground (arith, bit, above);
                halves = inl above;
                aligned = rw least low;
              })
        | inr (bit, offset, low) ↦
            (let below : b ≡ addr + block_bytes o = omega (arith, offset, x.0, y.0) in
              let least : min addr b ≡ addr = omega (arith, below) in
              record {
                buddy = ground (arith, bit, below);
                halves = inr below;
                aligned = rw least low;
              })
      ]

module _ (g : Pagegroup) (o addr : ℕ) (l : List ℕ) (v : IsGroup g) (less : o < page_nsizes - 1)
    (head : g.pg_freelist o ≡ addr ∷ l) where
  o_less : o < page_nsizes
  o_less = omega (arith, less)

  above_less : o + 1 < page_nsizes
  above_less = omega (arith, less)

  addr-Removed : Removed addr (g.pg_freelist o) l
  addr-Removed = rw head (Removed-head addr l)

  addr_kept : IsBlock g o addr × All (IsBlock g o) l
  addr_kept = addr-Removed.keeps (IsBlock g o) (v.blocks o o_less)

  abbrev pair : ℕ
  pair = pair_of g.pg_baseaddr o addr

  -- The bit of the pair is clear only if the buddy is free too.
  buddy_counted : g.pg_map (o + 1) pair ≡ false → 0 < total (in_pair g.pg_baseaddr o pair) l
  unfolding in_pair
  buddy_counted clear =
      ground
        (arith, clear, v.paired o pair less, addr-Removed.totals (in_pair g.pg_baseaddr o pair))

  pub find_buddy :
      g.pg_map (o + 1) pair ≡ false → HasBlock (in_pair g.pg_baseaddr o pair) (IsBlock g o) l
  find_buddy clear =
      find_counted (in_pair g.pg_baseaddr o pair) (IsBlock g o) l addr_kept.1 (buddy_counted clear)

  abbrev without_addr : Pagegroup
  without_addr = relist g o addr l

  without_addr_valid : IsGroup without_addr
  without_addr_valid = removed-IsGroup g o addr l v o_less addr-Removed

  module _ (half : HasBlock (in_pair g.pg_baseaddr o pair) (IsBlock g o) l) where
    half-Removed : Removed half.block (without_addr.pg_freelist o) half.rest
    half-Removed = let here : without_addr.pg_freelist o ≡ l = ground arith in rw here half.removed

    not_self : addr ≢ half.block
    not_self e = omega (
      arith,
      cover-removed g o addr l v o_less addr-Removed addr,
      covers_self o addr,
      v.once addr,
      free_block without_addr o half.block half.rest without_addr_valid o_less half-Removed,
      ap (cover without_addr) e,
    )

    pub half_pair : pair_of g.pg_baseaddr o half.block ≡ pair
    half_pair = in_pair_pos g.pg_baseaddr o pair half.block half.counted

    pub half_buddy : Buddies g o addr half.block
    half_buddy = buddies g o addr half.block o_less addr_kept.0 half.good (sym half_pair) not_self

    abbrev without_both : Pagegroup
    without_both = relist without_addr o half.block half.rest

    without_both_valid : IsGroup without_both
    without_both_valid =
        removed-IsGroup without_addr o half.block half.rest without_addr_valid o_less half-Removed

    abbrev pub low : ℕ
    low = min addr half.block

    low-IsBlock : IsBlock g (o + 1) low
    low-IsBlock = (
      ground (arith, addr_kept.0.0, half.good.0),
      ground (arith, block_bytes-suc o, half_buddy.halves, addr_kept.0.1, half.good.1),
      rw (block_bytes-suc o) half_buddy.aligned,
    )

    pub low_end : addr + block_bytes o ≤ low + block_bytes (o + 1)
    low_end = elim half_buddy.halves [
      | inl above ↦ omega (arith, block_bytes-suc o, above)
      | inr below ↦ omega (arith, block_bytes-suc o, below)
    ]

    cover_low : (x : ℕ) → covers (o + 1) x low ≡ covers o x addr + covers o x half.block
    cover_low x = elim half_buddy.halves [
      | inl above ↦
          (let least : low ≡ half.block = omega (arith, above) in
            rw (least, above) (omega (arith, covers_halves o x half.block)))
      | inr below ↦
          (let least : low ≡ addr = omega (arith, below) in
            rw (least, below) (covers_halves o x addr))
    ]

    cover_apart :
        (x : ℕ) → cover g x ≡ covers o x addr + covers o x half.block + cover without_both x
    cover_apart x = omega (
      arith,
      cover-removed g o addr l v o_less addr-Removed x,
      cover-removed without_addr o half.block half.rest without_addr_valid o_less half-Removed x,
    )

    abbrev with_low : Pagegroup
    with_low = inserted without_both (o + 1) low without_both_valid above_less

    cover-with_low : (x : ℕ) → cover with_low x ≡ cover g x
    cover-with_low x = omega (
      arith,
      cover_apart x,
      cover_low x,
      cover-inserted without_both (o + 1) low without_both_valid above_less x,
    )

    with_low_valid : IsGroup with_low
    with_low_valid =
        inserted-IsGroup without_both (o + 1) low without_both_valid above_less low-IsBlock
          (λ x. omega (arith, cover_apart x, cover_low x, v.once x))

    pages_with_low : free_pages with_low ≡ free_pages g
    unfolding free_pages
    pages_with_low = omega (
      arith,
      two_pow-suc o,
      weigh-removed g o addr l v o_less addr-Removed (λ k _. 2 ^ k),
      weigh-removed without_addr o half.block half.rest without_addr_valid o_less half-Removed
          (λ k _. 2 ^ k),
      weigh-inserted without_both (o + 1) low without_both_valid above_less (λ k _. 2 ^ k),
    )

    abbrev pub joined_lists : ℕ → List ℕ
    joined_lists = put (put g.pg_freelist o half.rest) (o + 1) (low ∷ g.pg_freelist (o + 1))

    -- The group after one round of the loop.
    abbrev pub after_round : Pagegroup
    after_round = record g {
      pg_freelist = joined_lists;
      pg_map = flip_map g.pg_map (o + 1) (pair_of g.pg_baseaddr (o + 1) low);
    }

    round_same : SameGroup with_low after_round
    round_same = record {
      base = refl;
      end = refl;
      lists = λ k. ground arith;
      bits = λ k i.
          flip_under g.pg_map o pair (pair_of g.pg_baseaddr o half.block) (o + 1)
            (pair_of g.pg_baseaddr (o + 1) low) k i half_pair;
    }

    pub round-Regrouped : Regrouped g after_round
    unfolding cover free_pages
    round-Regrouped = record {
      valid = IsGroup-SameGroup round_same with_low_valid;
      base = refl;
      end = refl;
      covered = λ x. weigh-SameGroup (λ k. covers k x) round_same ∙ cover-with_low x;
      pages = weigh-SameGroup (λ k _. 2 ^ k) round_same ∙ pages_with_low;
    }

    pub round_flip :
        flip_pair (record g { pg_freelist = joined_lists }) (o + 1) low ≡ some after_round
    round_flip =
        flip_pair-some (record g { pg_freelist = joined_lists }) (o + 1) low v.base_aligned
          above_less low-IsBlock

    -- One round of the loop, when the bit is clear.
    pub group_join-round :
        (n : ℕ)
        → g.pg_map (o + 1) pair ≡ false
        → group_join (suc n) g o addr ≡ group_join n after_round (o + 1) low
    unfolding group_join pair_of
    group_join-round n clear =
        let index =
          calculate_index-some g o addr (o + 1) v.base_aligned o_less addr_kept.0 above_less in
        let first_removal = list_remove-head addr addr l refl in
        let in_order = offset_aligned o o_less (addr - g.pg_baseaddr) addr_kept.0.2 in
        ground (
          arith, less, index, clear, in_order, head, first_removal, half.removal, half_buddy.buddy,
          round_flip,
        )

  -- The loop ends when the bit is set.
  pub group_join-stop :
      (n : ℕ) → g.pg_map (o + 1) pair ≡ true → group_join (suc n) g o addr ≡ some g
  unfolding group_join pair_of
  group_join-stop n bit =
      let index =
        calculate_index-some g o addr (o + 1) v.base_aligned o_less addr_kept.0 above_less in
      ground (arith, less, bit, index)

-- A free block of the group holds the block at `addr` and cannot be joined any more: it is of the largest
-- order, or the bit of its pair says that its buddy is not free.
pub record Joined (h : Pagegroup) (order addr : ℕ) : Type 0 where
  pub level : ℕ
  pub start : ℕ
  pub rest : List ℕ
  pub listed : h.pg_freelist level ≡ start ∷ rest
  pub larger : order ≤ level
  pub bounded : level < page_nsizes
  pub from : start ≤ addr
  pub to : addr + block_bytes order ≤ start + block_bytes level
  pub alone :
      (level ≡ page_nsizes - 1) ⊎ (h.pg_map (level + 1) (pair_of h.pg_baseaddr level start) ≡ true)

-- The block that two halves make holds each of them.
Joined-half :
    (h : Pagegroup) (order low addr : ℕ)
    → low ≤ addr
    → addr + block_bytes order ≤ low + block_bytes (order + 1)
    → Joined h (order + 1) low
    → Joined h order addr
Joined-half h order low addr before after j = record {
  level = j.level;
  start = j.start;
  rest = j.rest;
  listed = j.listed;
  larger = omega (arith, j.larger);
  bounded = j.bounded;
  from = omega (arith, j.from, before);
  to = omega (arith, j.to, after);
  alone = j.alone;
}

module _ (g : Pagegroup) (order addr : ℕ) (l : List ℕ) (v : IsGroup g) (less : order < page_nsizes)
    (head : g.pg_freelist order ≡ addr ∷ l) where
  abbrev Joins : ℕ → Type 0
  Joins n =
      (h : Pagegroup) × (group_join n g order addr ≡ some h) × Regrouped g h × Joined h order addr

  -- The block is not joined any more.
  Joined-here :
      (order ≡ page_nsizes - 1) ⊎ (g.pg_map (order + 1) (pair_of g.pg_baseaddr order addr) ≡ true)
      → Joined g order addr
  Joined-here alone = record {
    level = order;
    start = addr;
    rest = l;
    listed = head;
    larger = omega arith;
    bounded = less;
    from = omega arith;
    to = omega arith;
    alone = alone;
  }

  -- A block of the largest order has no buddy.
  join_top : (n : ℕ) → order ≡ page_nsizes - 1 → Joins (suc n)
  unfolding group_join
  join_top n top = (g, ground (arith, top), Regrouped-refl v, Joined-here (inl top))

-- The loop joins a free block with its buddies as far as it goes: afterwards the block lies in a free
-- block that is of the largest order or whose buddy is not free, as the bit of its pair says. The group
-- stays in order, and the free bytes stay. The orders that are left bound the rounds.
pub group_join_lem :
    (n : ℕ) (g : Pagegroup) (order addr : ℕ) (l : List ℕ)
    → IsGroup g
    → order < page_nsizes
    → g.pg_freelist order ≡ addr ∷ l
    → page_nsizes ≤ n + order
    → (h : Pagegroup) × (group_join n g order addr ≡ some h) × Regrouped g h × Joined h order addr
group_join_lem zero g order addr l v less head fuel = absurd (omega (arith, less, fuel))
group_join_lem (suc n) g order addr l v less head fuel = elim (ℕ_discrete order (page_nsizes - 1)) [
  | yes top ↦ join_top g order addr l v less head n top
  | no below ↦
      (let under : order < page_nsizes - 1 = omega (arith, less, below) in
        elim (Bool-cases (g.pg_map (order + 1) (pair_of g.pg_baseaddr order addr))) [
          | inl bit ↦ (
            g,
            group_join-stop g order addr l v under head n bit,
            Regrouped-refl v,
            Joined-here g order addr l v less head (inr bit),
          )
          | inr clear ↦
              (let half = find_buddy g order addr l v under head clear in
                let round = round-Regrouped g order addr l v under head half in
                let head' : (after_round g order addr l v under head half).pg_freelist (order + 1)
                    ≡ low g order addr l v under head half ∷ g.pg_freelist (order + 1) =
                  ground arith in
                let (h, run, rest, joined) =
                  group_join_lem n (after_round g order addr l v under head half) (order + 1)
                    (low g order addr l v under head half) (g.pg_freelist (order + 1)) round.valid
                    (omega (arith, under)) head' (omega (arith, fuel)) in
                (
                  h,
                  group_join-round g order addr l v under head half n clear ∙ run,
                  Regrouped-trans round rest,
                  Joined-half h order (low g order addr l v under head half) addr (omega arith)
                      (low_end g order addr l v under head half) joined,
                ))
        ])
]
