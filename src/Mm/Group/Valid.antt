-- ===== src/Mm/Group/Valid.antt =====
-- When a page group of kernel/mm/page.c is in order: its free blocks lie in the group, no two of them
-- overlap, and the bit of a pair tells whether exactly one of the two buddies is free.
use weenix_assignment.Base.{
  ℕ, ◌+◌, ◌-◌, ◌%◌, ◌^◌, ◌≤◌, ◌<◌, ◌≡◌, ap, Bool, List, [], ◌∷◌, arith, All, ltb, ◌==◌,
  if◌then◌else◌, put, sum, sum_ext,
}
use weenix_assignment.Mm.Group.{Pagegroup, page_nsizes, bit_flip}
use weenix_assignment.Mm.Group.Totals.{total}
use weenix_assignment.Mm.Group.Blocks.{covers, pair_of, in_pair, IsBlock}

-- The sum over all free blocks of a weight, which may depend on the order and the address.
unfoldable pub weigh : (ℕ → ℕ → ℕ) → Pagegroup → ℕ
weigh w g = sum page_nsizes (λ k. total (w k) (g.pg_freelist k))

-- In how many free blocks does a byte lie?
unfoldable pub cover : Pagegroup → ℕ → ℕ
cover g x = weigh (λ k. covers k x) g

-- How many pages are free?
unfoldable pub free_pages : Pagegroup → ℕ
free_pages g = weigh (λ k _. 2 ^ k) g

abbrev pub odd : ℕ → Bool
odd n = n % 2 == 1

pub record IsGroup (g : Pagegroup) : Type 0 where
  pub base_aligned : g.pg_baseaddr % 2 ^ 12 ≡ 0
  pub blocks : (k : ℕ) → k < page_nsizes → All (IsBlock g k) (g.pg_freelist k)
  pub once : (x : ℕ) → cover g x ≤ 1
  pub paired :
      (k i : ℕ)
      → k < page_nsizes - 1
      → g.pg_map (k + 1) i ≡ odd (total (in_pair g.pg_baseaddr k i) (g.pg_freelist k))

pub record SameGroup (g h : Pagegroup) : Type 0 where
  pub base : h.pg_baseaddr ≡ g.pg_baseaddr
  pub end : h.pg_endaddr ≡ g.pg_endaddr
  pub lists : (k : ℕ) → h.pg_freelist k ≡ g.pg_freelist k
  pub bits : (k i : ℕ) → h.pg_map k i ≡ g.pg_map k i

pub weigh-SameGroup : {g h : Pagegroup} (w : ℕ → ℕ → ℕ) → SameGroup g h → weigh w h ≡ weigh w g
unfolding weigh
weigh-SameGroup {g} {h} w s =
    sum_ext page_nsizes (λ k. total (w k) (h.pg_freelist k)) (λ k. total (w k) (g.pg_freelist k))
      (λ k _. ap (total (w k)) (s.lists k))

cover-SameGroup : {g h : Pagegroup} → SameGroup g h → (x : ℕ) → cover h x ≡ cover g x
unfolding cover
cover-SameGroup s x = weigh-SameGroup (λ k. covers k x) s

pub All-map {ℓ κ} :
    {A : Type ℓ} {P Q : A → Type κ} (l : List A) → ((a : A) → P a → Q a) → All P l → All Q l
All-map [] f all = all
All-map (x ∷ l) f all = (f x all.0, All-map l f all.1)

IsBlock-SameGroup : {g h : Pagegroup} → SameGroup g h → (k a : ℕ) → IsBlock g k a → IsBlock h k a
IsBlock-SameGroup {g} {h} s k a b = (rw s.base b.0, rw s.end b.1, rw s.base b.2)

pub IsGroup-SameGroup : {g h : Pagegroup} → SameGroup g h → IsGroup g → IsGroup h
IsGroup-SameGroup {g} {h} s v = record {
  base_aligned = rw s.base v.base_aligned;
  blocks = λ k less.
      rw (s.lists k) (All-map (g.pg_freelist k) (λ a. IsBlock-SameGroup s k a) (v.blocks k less));
  once = λ x. rw (cover-SameGroup s x) (v.once x);
  paired = λ k i less. rw (s.bits (k + 1) i, s.base, s.lists k) (v.paired k i less);
}

-- The maps after the flip of the bit of one pair.
abbrev pub flip_map : (ℕ → ℕ → Bool) → ℕ → ℕ → ℕ → ℕ → Bool
flip_map map order i =
    if ltb order (page_nsizes - 1) then put map (order + 1) (bit_flip (map (order + 1)) i) else map

-- A free list replaced, and the bit of one pair of its order flipped.
abbrev pub relist : Pagegroup → ℕ → ℕ → List ℕ → Pagegroup
relist g order addr l = record g {
  pg_freelist = put g.pg_freelist order l;
  pg_map = flip_map g.pg_map order (pair_of g.pg_baseaddr order addr);
}

pub flip_twice :
    (map : ℕ → ℕ → Bool) (order i i' k j : ℕ)
    → i' ≡ i
    → map k j ≡ flip_map (flip_map map order i) order i' k j
flip_twice map order i i' k j e = ground (arith, e)

pub flip_under :
    (map : ℕ → ℕ → Bool) (order i i' above a k j : ℕ)
    → i' ≡ i
    → flip_map map above a k j ≡ flip_map (flip_map (flip_map map order i) order i') above a k j
flip_under map order i i' above a k j e = ground (arith, e)
