-- ===== src/Mm/Pages/Free.antt =====
-- `_page_free_order` of kernel/mm/page.c, and the order that `page_alloc_n` and `page_free_n` choose.
use mathlib.Core.Path.{subst}
use weenix_assignment.Base.{
  ℕ, zero, suc, ◌+◌, ◌^◌, ◌≤◌, ◌<◌, ◌≡◌, refl, ◌∙◌, inl, inr, none, some, arith, set, sum_over-set,
  sum_over-term, All-at, All-set, add32, leb, Bool-cases, ap, ◌≢◌, ℕ_discrete, dec_lt,
}
use weenix_assignment.Mm.Group.{page_nsizes}
use weenix_assignment.Mm.Group.Blocks.{covers, two_pow-suc}
use weenix_assignment.Mm.Group.Valid.{cover, free_pages, IsGroup}
use weenix_assignment.Mm.Pages.{
  Pages, page_free_order, order_from, order_for, pagegroup_from_address,
}
use weenix_assignment.Mm.Pages.GroupFree.{group_free_lem}
use weenix_assignment.Mm.Pages.Valid.{free_at, IsPages, IsPlace, AreApart-set, IsPlace-set}

-- The pages with one more free block.
pub record Freed (p : Pages) (order addr : ℕ) (q : Pages) : Type 0 where
  pub valid : IsPages q
  pub gained : (x : ℕ) → free_at q x ≡ covers order x addr + free_at p x
  pub count : q.page_freecount ≡ p.page_freecount + 2 ^ order
  pub places : (k a : ℕ) → IsPlace p k a → IsPlace q k a

-- A block of the allocator that overlaps no free block is given back: no assertion fails, exactly its
-- bytes become free, the count grows by its pages, and the allocator is in order again.
pub page_free_order_lem :
    (p : Pages) (order addr : ℕ)
    → IsPages p
    → IsPlace p order addr
    → ((x : ℕ) → covers order x addr + free_at p x ≤ 1)
    → p.page_freecount + 2 ^ order < 2 ^ 32
    → (q : Pages) × (page_free_order addr order p ≡ some q) × Freed p order addr q
unfolding page_free_order free_at
page_free_order_lem p order addr v place free word =
    let groups = p.pagegroup_list in
    let i = place.index in
    let g = place.group in
    let (h, run, gain) =
      group_free_lem g order addr (All-at IsGroup groups i g v.groups place.at) place.below
        place.block
        (λ x. omega (arith, free x, sum_over-term (λ k. cover k x) groups i g place.at)) in
    let q : Pages = record {
      pagegroup_list = set groups i h;
      page_freecount = add32 p.page_freecount (2 ^ order);
    } in
    let count : q.page_freecount ≡ p.page_freecount + 2 ^ order = omega (arith, word) in
    let pages = sum_over-set free_pages groups i g h place.at in
    (
      q,
      ground (arith, place.found, place.at, run),
      record {
        valid = record {
          groups = All-set IsGroup groups i h v.groups gain.valid;
          apart = AreApart-set groups i g h place.at gain.base gain.end v.apart;
          counted = omega (arith, count, pages, gain.pages, v.counted);
          word = omega (arith, count, word);
        };
        gained =
            λ x. omega (arith, sum_over-set (λ k. cover k x) groups i g h place.at, gain.covered x);
        count = count;
        places =
            λ k a pl. IsPlace-set groups i g h place.at gain.base gain.end p q refl refl k a pl;
      },
    )

-- An address outside of all groups is left alone.
pub page_free_order-outside :
    (p : Pages) (order addr : ℕ)
    → pagegroup_from_address addr p.pagegroup_list ≡ none
    → page_free_order addr order p ≡ some p
unfolding page_free_order
page_free_order-outside p order addr h = ground (arith, h)

-- The loop finds the least order that is large enough.
order_from_lem :
    (n order npages last : ℕ)
    → npages < 2 ^ 31
    → npages ≤ 2 ^ last
    → order ≤ last
    → last < n + order
    → (k : ℕ) × (order_from n order npages ≡ some k)
      × (order ≤ k)
      × (k ≤ last)
      × (npages ≤ 2 ^ k)
      × ((j : ℕ) → order ≤ j → j < k → 2 ^ j < npages)
unfolding order_from
order_from_lem zero order npages last small fits low high = absurd (omega (arith, low, high))
order_from_lem (suc n) order npages last small fits low high =
    elim (Bool-cases (leb npages (2 ^ order))) [
      | inl enough ↦ (
        order,
        ground (arith, enough),
        omega arith,
        low,
        ground (arith, enough),
        λ j a b. absurd (omega (arith, a, b)),
      )
      | inr too_small ↦
          (let above : 2 ^ order < npages = ground (arith, too_small) in
            let not_last : order ≢ last =
              λ e. absurd (omega (arith, above, fits, ap (λ z. 2 ^ z) e)) in
            let (k, run, from, to, enough, least) =
              order_from_lem n (order + 1) npages last small fits (omega (arith, low, not_last))
                (omega (arith, high)) in
            (
              k,
              ground (arith, too_small, small, run),
              omega (arith, from),
              to,
              enough,
              λ j a b. elim (ℕ_discrete order j) [
                | yes e ↦ subst (λ z. 2 ^ z < npages) e above
                | no other ↦ least j (omega (arith, a, other)) b
              ],
            ))
    ]

-- For at most 128 pages, a block of the least order that holds them; its blocks are less than twice
-- as large as needed.
pub order_for_lem :
    (npages : ℕ)
    → npages ≤ 128
    → (k : ℕ) × (order_for npages ≡ some k)
      × (k < page_nsizes)
      × (npages ≤ 2 ^ k)
      × ((j : ℕ) → j < k → 2 ^ j < npages)
order_for_lem npages h =
    let (k, run, _, high, enough, least) =
      order_from_lem page_nsizes 0 npages 7 (omega arith) (omega arith) (omega arith)
        (omega arith) in
    (k, run, omega (arith, high), enough, λ j b. least j (omega arith) b)

-- The order of a power of two.
two_pow_mono : (j k : ℕ) → k ≤ j → 2 ^ k ≤ 2 ^ j
two_pow_mono zero zero h = omega arith
two_pow_mono zero (suc k) h = absurd (omega (arith, h))
two_pow_mono (suc j) zero h = omega (arith, two_pow_mono j 0 (omega arith))
two_pow_mono (suc j) (suc k) h = omega (arith, two_pow_mono j k (omega (arith, h)))

pub order_for-two_pow : (k : ℕ) → k < page_nsizes → order_for (2 ^ k) ≡ some k
order_for-two_pow k h =
    let most : 2 ^ k ≤ 128 = two_pow_mono 7 k (omega (arith, h)) in
    let (j, run, _, enough, least) = order_for_lem (2 ^ k) most in
    let up : k ≤ j = elim (dec_lt j k) [
      | yes less ↦ absurd (
          omega (
            arith,
            enough,
            two_pow_mono k (j + 1) (omega (arith, less)),
            two_pow-suc j,
            least_pos j,
          ))
      | no more ↦ omega (arith, more)
    ] in
    let down : j ≤ k = elim (dec_lt k j) [
      | yes less ↦ absurd (omega (arith, least k less))
      | no more ↦ omega (arith, more)
    ] in
    run ∙ ap some (omega (arith, up, down))
  where
    least_pos : (j : ℕ) → 0 < 2 ^ j
    least_pos j = omega (arith, two_pow_mono j 0 (omega arith))

-- More than 128 pages are a panic.
pub order_for-panic : (npages : ℕ) → 128 < npages → npages < 2 ^ 31 → order_for npages ≡ none
unfolding order_from
order_for-panic npages low high = ground (arith, low, high)

-- A number of pages of 2 ^ 31 or more is negative as an `int`, and gives the order of one page.
pub order_for-huge : (npages : ℕ) → 2 ^ 31 ≤ npages → order_for npages ≡ some 0
unfolding order_from
order_for-huge npages h = ground (arith, h)
