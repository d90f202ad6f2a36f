-- ===== src/Mm/Group/Blocks.antt =====
-- The arithmetic of the blocks of kernel/mm/page.c: which bytes a block covers, how blocks of one order
-- pair up, and the buddy.
use weenix_assignment.Base.{
  ℕ, zero, suc, ◌+◌, ◌-◌, ◌*◌, ◌/◌, ◌%◌, ◌^◌, ◌≤◌, ◌<◌, ◌≡◌, ◌≢◌, ap, ◌&&◌, some, arith, ltb, leb,
  ◌==◌, if◌then◌else◌, ◌⊎◌,
}
use weenix_assignment.Vm.Page.{page_size}
use weenix_assignment.Mm.Group.{Pagegroup, page_nsizes, block_bytes, calculate_index}

-- Does the block of an order at an address cover a byte?
unfoldable pub covers : ℕ → ℕ → ℕ → ℕ
covers order x addr = if leb addr x && ltb x (addr + block_bytes order) then 1 else 0

-- The number of the pair that a block of an order and its buddy make.
unfoldable pub pair_of : ℕ → ℕ → ℕ → ℕ
pair_of base order addr = (addr - base) / 2 ^ (order + 1) / page_size

unfoldable pub in_pair : ℕ → ℕ → ℕ → ℕ → ℕ
in_pair base order pair addr = if pair_of base order addr == pair then 1 else 0

-- A block of an order: it lies in the group and starts at a multiple of its length.
abbrev pub IsBlock : Pagegroup → ℕ → ℕ → Type 0
IsBlock g order addr =
    (g.pg_baseaddr ≤ addr)
    × (addr + block_bytes order ≤ g.pg_endaddr)
    × ((addr - g.pg_baseaddr) % block_bytes order ≡ 0)

-- What holds of the orders 0 to 7 one by one.
pub orders :
    (P : ℕ → Type 0)
    → P 0 × P 1 × P 2 × P 3 × P 4 × P 5 × P 6 × P 7
    → (k : ℕ) → k < page_nsizes
    → P k
orders P h zero less = h.0
orders P h (suc zero) less = h.1
orders P h (suc (suc zero)) less = h.2
orders P h (suc (suc (suc zero))) less = h.3
orders P h (suc (suc (suc (suc zero)))) less = h.4
orders P h (suc (suc (suc (suc (suc zero))))) less = h.5
orders P h (suc (suc (suc (suc (suc (suc zero)))))) less = h.6
orders P h (suc (suc (suc (suc (suc (suc (suc zero))))))) less = h.7
orders P h (suc (suc (suc (suc (suc (suc (suc (suc k)))))))) less = absurd (omega arith)

two_pow_pos : (k : ℕ) → 0 < 2 ^ k
two_pow_pos zero = omega arith
two_pow_pos (suc k) = omega (arith, two_pow_pos k)

pub two_pow-suc : (order : ℕ) → 2 ^ (order + 1) ≡ 2 * 2 ^ order
two_pow-suc order = omega (arith, ap (λ k. 2 ^ k) (add_one order))
  where
    add_one : (n : ℕ) → n + 1 ≡ suc n
    add_one n = omega arith

pub block_bytes-suc : (order : ℕ) → block_bytes (order + 1) ≡ 2 * block_bytes order
unfolding block_bytes
block_bytes-suc order = omega (arith, two_pow-suc order)

pub block_bytes_pos : (order : ℕ) → 0 < block_bytes order
unfolding block_bytes
block_bytes_pos order = omega (arith, two_pow_pos order)

pub aligned_pages :
    (order : ℕ)
    → order < page_nsizes
    → (offset : ℕ) → offset % block_bytes order ≡ 0
    → offset % 2 ^ 12 ≡ 0
unfolding block_bytes
aligned_pages =
    orders (λ k. (offset : ℕ) → offset % (2 ^ k * page_size) ≡ 0 → offset % 2 ^ 12 ≡ 0)
      (
        λ x h. omega (arith, h),
        λ x h. omega (arith, h),
        λ x h. omega (arith, h),
        λ x h. omega (arith, h),
        λ x h. omega (arith, h),
        λ x h. omega (arith, h),
        λ x h. omega (arith, h),
        λ x h. omega (arith, h),
      )

pages_aligned :
    (order : ℕ) → order < page_nsizes → (offset : ℕ) → offset % 2 ^ 12 ≡ 0 → offset % 2 ^ order ≡ 0
pages_aligned =
    orders (λ k. (offset : ℕ) → offset % 2 ^ 12 ≡ 0 → offset % 2 ^ k ≡ 0)
      (
        λ x h. omega (arith, h),
        λ x h. omega (arith, h),
        λ x h. omega (arith, h),
        λ x h. omega (arith, h),
        λ x h. omega (arith, h),
        λ x h. omega (arith, h),
        λ x h. omega (arith, h),
        λ x h. omega (arith, h),
      )

pub offset_aligned :
    (order : ℕ)
    → order < page_nsizes
    → (offset : ℕ) → offset % block_bytes order ≡ 0
    → offset % 2 ^ order ≡ 0
offset_aligned order less offset h =
    pages_aligned order less offset (aligned_pages order less offset h)

-- Two blocks of one order in one pair are equal or buddies.
pub same_pair :
    (order : ℕ)
    → order < page_nsizes
    → (x y : ℕ) → x % block_bytes order ≡ 0
    → y % block_bytes order ≡ 0
    → x / 2 ^ (order + 1) / page_size ≡ y / 2 ^ (order + 1) / page_size
    → x ≢ y
    → ((x / page_size / 2 ^ order % 2 ≡ 1)
        × (x ≡ y + block_bytes order)
        × (y % (2 * block_bytes order) ≡ 0))
      ⊎ ((x / page_size / 2 ^ order % 2 ≡ 0)
          × (y ≡ x + block_bytes order)
          × (x % (2 * block_bytes order) ≡ 0))
unfolding block_bytes
same_pair =
    orders
      (λ k.
        (x y : ℕ)
        → x % (2 ^ k * page_size) ≡ 0
        → y % (2 ^ k * page_size) ≡ 0
        → x / 2 ^ (k + 1) / page_size ≡ y / 2 ^ (k + 1) / page_size
        → x ≢ y
        → ((x / page_size / 2 ^ k % 2 ≡ 1)
            × (x ≡ y + 2 ^ k * page_size)
            × (y % (2 * (2 ^ k * page_size)) ≡ 0))
          ⊎ ((x / page_size / 2 ^ k % 2 ≡ 0)
              × (y ≡ x + 2 ^ k * page_size)
              × (x % (2 * (2 ^ k * page_size)) ≡ 0)))
      (
        λ x y a b h ne. ground (arith, a, b, h, ne),
        λ x y a b h ne. ground (arith, a, b, h, ne),
        λ x y a b h ne. ground (arith, a, b, h, ne),
        λ x y a b h ne. ground (arith, a, b, h, ne),
        λ x y a b h ne. ground (arith, a, b, h, ne),
        λ x y a b h ne. ground (arith, a, b, h, ne),
        λ x y a b h ne. ground (arith, a, b, h, ne),
        λ x y a b h ne. ground (arith, a, b, h, ne),
      )

-- The index of a block in the map of an order, its own or another.
pub calculate_index-some :
    (g : Pagegroup) (k addr order : ℕ)
    → g.pg_baseaddr % 2 ^ 12 ≡ 0
    → k < page_nsizes
    → IsBlock g k addr
    → order < page_nsizes
    → calculate_index g order addr ≡ some ((addr - g.pg_baseaddr) / 2 ^ order / page_size)
unfolding calculate_index
calculate_index-some g k addr order base less b h =
    let pages = aligned_pages k less (addr - g.pg_baseaddr) b.2 in
    let in_order = pages_aligned order h (addr - g.pg_baseaddr) pages in
    let aligned : addr % 2 ^ 12 ≡ 0 = omega (arith, pages, base, b.0) in
    let low : addr < g.pg_endaddr = omega (arith, b.1, block_bytes_pos k) in
    ground (arith, aligned, in_order, low, b.0, h)

-- The half blocks of a block are blocks of the order below.
pub halves_aligned :
    (order : ℕ)
    → order < page_nsizes
    → (x : ℕ) → x % (2 * block_bytes order) ≡ 0
    → (x % block_bytes order ≡ 0) × ((x + block_bytes order) % block_bytes order ≡ 0)
unfolding block_bytes
halves_aligned =
    orders
      (λ k.
        (x : ℕ)
        → x % (2 * (2 ^ k * page_size)) ≡ 0
        → (x % (2 ^ k * page_size) ≡ 0) × ((x + 2 ^ k * page_size) % (2 ^ k * page_size) ≡ 0))
      (
        λ x h. omega (arith, h),
        λ x h. omega (arith, h),
        λ x h. omega (arith, h),
        λ x h. omega (arith, h),
        λ x h. omega (arith, h),
        λ x h. omega (arith, h),
        λ x h. omega (arith, h),
        λ x h. omega (arith, h),
      )

-- What has the number of a block of the order above lies in that block.
pub within_pair :
    (order : ℕ)
    → order < page_nsizes
    → (x y : ℕ) → x % (2 * block_bytes order) ≡ 0
    → x / 2 ^ (order + 1) / page_size ≡ y / 2 ^ (order + 1) / page_size
    → (x ≤ y) × (y < x + 2 * block_bytes order)
unfolding block_bytes
within_pair =
    orders
      (λ k.
        (x y : ℕ)
        → x % (2 * (2 ^ k * page_size)) ≡ 0
        → x / 2 ^ (k + 1) / page_size ≡ y / 2 ^ (k + 1) / page_size
        → (x ≤ y) × (y < x + 2 * (2 ^ k * page_size)))
      (
        λ x y a h. omega (arith, a, h),
        λ x y a h. omega (arith, a, h),
        λ x y a h. omega (arith, a, h),
        λ x y a h. omega (arith, a, h),
        λ x y a h. omega (arith, a, h),
        λ x y a h. omega (arith, a, h),
        λ x y a h. omega (arith, a, h),
        λ x y a h. omega (arith, a, h),
      )

-- A block covers its first byte, and its halves cover what it covers.
pub covers_self : (order addr : ℕ) → covers order addr addr ≡ 1
unfolding covers
covers_self order addr = ground (arith, block_bytes_pos order)

pub covers_halves :
    (order x addr : ℕ)
    → covers (order + 1) x addr ≡ covers order x addr + covers order x (addr + block_bytes order)
unfolding covers
covers_halves order x addr = ground (arith, block_bytes-suc order, block_bytes_pos order)

pub covers_inside :
    (order x addr : ℕ) → addr ≤ x → x < addr + block_bytes order → covers order x addr ≡ 1
unfolding covers
covers_inside order x addr low high = ground (arith, low, high)

pub in_pair_pos :
    (base order pair addr : ℕ) → 0 < in_pair base order pair addr → pair_of base order addr ≡ pair
unfolding in_pair
in_pair_pos base order pair addr h = ground (arith, h)

-- The halves of a block are a pair.
pub halves_pair :
    (order : ℕ)
    → order < page_nsizes
    → (x : ℕ) → x % (2 * block_bytes order) ≡ 0
    → (x + block_bytes order) / 2 ^ (order + 1) / page_size ≡ x / 2 ^ (order + 1) / page_size
unfolding block_bytes
halves_pair =
    orders
      (λ k.
        (x : ℕ)
        → x % (2 * (2 ^ k * page_size)) ≡ 0
        → (x + 2 ^ k * page_size) / 2 ^ (k + 1) / page_size ≡ x / 2 ^ (k + 1) / page_size)
      (
        λ x h. omega (arith, h),
        λ x h. omega (arith, h),
        λ x h. omega (arith, h),
        λ x h. omega (arith, h),
        λ x h. omega (arith, h),
        λ x h. omega (arith, h),
        λ x h. omega (arith, h),
        λ x h. omega (arith, h),
      )
