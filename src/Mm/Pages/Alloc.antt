-- ===== src/Mm/Pages/Alloc.antt =====
-- The search for a block, the splits, and the block that is taken: `_page_alloc_order` and
-- `_page_split` of kernel/mm/page.c.
use mathlib.Core.Path.{subst}
use weenix_assignment.Base.{
  ℕ, zero, suc, ◌+◌, ◌-◌, ◌^◌, ◌≤◌, ◌<◌, ◌≡◌, refl, ◌∙◌, true, false, not, ◌⊎◌, inl, inr, none,
  some, List, [], ◌∷◌, arith, All, set, get_elem?, put, sum_over-set, sum_over-term, All-at,
  All-set, find_idx?-some, find_idx?-none, sub32, get_elem?-set_self, get_elem?-below, Option-cases,
  ℕ_discrete,
}
use weenix_assignment.Mm.Group.{Pagegroup, page_nsizes, list_empty, group_split}
use weenix_assignment.Mm.Group.Totals.{Removed, Removed-head}
use weenix_assignment.Mm.Group.Blocks.{covers, IsBlock, block_bytes_pos}
use weenix_assignment.Mm.Group.Valid.{cover, free_pages, IsGroup, relist}
use weenix_assignment.Mm.Group.Flip.{flip_pair-some, pages-removed, cover-removed, removed-IsGroup}
use weenix_assignment.Mm.Group.Split.{
  Regrouped, Regrouped-refl, Regrouped-trans, Nonempty, split_step,
}
use weenix_assignment.Mm.Pages.{
  Pages, in_range, group_with, larger_block, split_down, page_split, take_block,
}
use weenix_assignment.Mm.Pages.Valid.{
  free_at, IsPages, IsPlace, from_address-set, AreApart-set, IsPlace-set,
}

nonempty : (l : List ℕ) → not (list_empty l) ≡ true → (a : ℕ) × (r : List ℕ) × (l ≡ a ∷ r)
nonempty [] h = absurd (ground (arith, h))
nonempty (a ∷ r) h = (a, r, refl)

-- A group with a free block, at its place.
pub group_with-some :
    (order i : ℕ) (groups : List Pagegroup)
    → group_with order groups ≡ some i
    → (g : Pagegroup) × (get_elem? groups i ≡ some g) × Nonempty g order
unfolding group_with
group_with-some order i groups h =
    let (g, at, full) = find_idx?-some (λ g. not (list_empty (g.pg_freelist order))) groups i h in
    (g, at, nonempty (g.pg_freelist order) full)

-- No group has a free block of an order.
abbrev pub NoneFree : List Pagegroup → ℕ → Type 0
NoneFree groups order = All (λ g. not (list_empty (g.pg_freelist order)) ≡ false) groups

pub group_with-none :
    (order : ℕ) (groups : List Pagegroup) → group_with order groups ≡ none → NoneFree groups order
unfolding group_with
group_with-none order groups h =
    find_idx?-none (λ g. not (list_empty (g.pg_freelist order))) groups h

-- Splits from a larger order down to a smaller one.
pub split_down_lem :
    (n : ℕ) (g : Pagegroup) (order norder : ℕ)
    → IsGroup g
    → norder ≡ n + order
    → norder < page_nsizes
    → Nonempty g norder
    → (h : Pagegroup) × (split_down n g norder ≡ some h) × Regrouped g h × Nonempty h order
unfolding split_down
split_down_lem zero g order norder v e less full =
    let here : norder ≡ order = omega (arith, e) in
    (g, refl, Regrouped-refl v, subst (Nonempty g) here full)
split_down_lem (suc n) g order norder v e less full =
    let above : norder ≡ n + order + 1 = omega (arith, e) in
    let (smaller, split, r, half) =
      split_step g (n + order) v (omega (arith, e, less)) (subst (Nonempty g) above full) in
    let (h, run, rest, last) =
      split_down_lem n smaller order (n + order) r.valid refl (omega (arith, e, less)) half in
    let down : norder - 1 ≡ n + order = omega (arith, e) in
    let split' : group_split g norder ≡ some smaller = rw above split in
    (h, ground (arith, split', down, run), Regrouped-trans r rest, last)

-- The search for a larger block.
pub larger_block_lem :
    (n norder : ℕ) (groups : List Pagegroup)
    → (larger_block n norder groups ≡ none)
        × ((k : ℕ) → norder ≤ k → k < n + norder → NoneFree groups k)
      ⊎ (k i : ℕ) × (larger_block n norder groups ≡ some (k, i))
        × (norder ≤ k)
        × (k < n + norder)
        × (group_with k groups ≡ some i)
unfolding larger_block
larger_block_lem zero norder groups = inl (refl, λ k a b. absurd (omega (arith, a, b)))
larger_block_lem (suc n) norder groups = elim (Option-cases (group_with norder groups)) [
  | inr (i, here) ↦ inr (norder, i, ground (arith, here), omega arith, omega arith, here)
  | inl none_here ↦ elim (larger_block_lem n (norder + 1) groups) [
    | inl (gone, all) ↦ inl (
      ground (arith, none_here, gone),
      λ k a b. elim (ℕ_discrete norder k) [
        | yes e ↦ subst (NoneFree groups) e (group_with-none norder groups none_here)
        | no other ↦ all k (omega (arith, a, other)) (omega (arith, b))
      ],
    )
    | inr (k, i, found, low, high, at) ↦
        inr (k, i, ground (arith, none_here, found), omega (arith, low), omega (arith, high), at)
  ]
]

-- The pages after splits: the same bytes are free.
pub record Reordered (p q : Pages) : Type 0 where
  pub valid : IsPages q
  pub covered : (x : ℕ) → free_at q x ≡ free_at p x
  pub count : q.page_freecount ≡ p.page_freecount
  pub places : (k a : ℕ) → IsPlace p k a → IsPlace q k a

reorder :
    (p : Pages) (i : ℕ) (g h : Pagegroup)
    → IsPages p
    → get_elem? p.pagegroup_list i ≡ some g
    → Regrouped g h
    → Reordered p (record p { pagegroup_list = set p.pagegroup_list i h })
unfolding free_at
reorder p i g h v at r =
    let groups = p.pagegroup_list in
    record {
      valid = record {
        groups = All-set IsGroup groups i h v.groups r.valid;
        apart = AreApart-set groups i g h at r.base r.end v.apart;
        counted = omega (arith, sum_over-set free_pages groups i g h at, r.pages, v.counted);
        word = v.word;
      };
      covered = λ x. omega (arith, sum_over-set (λ k. cover k x) groups i g h at, r.covered x);
      count = refl;
      places = λ k a pl.
          IsPlace-set groups i g h at r.base r.end p
            (record p { pagegroup_list = set p.pagegroup_list i h }) refl refl k a pl;
    }

-- `_page_split` finds no larger block, or splits one down to a block of the order.
pub page_split_lem :
    (p : Pages) (order : ℕ)
    → IsPages p
    → order < page_nsizes
    → (page_split order p ≡ some (none, p))
        × ((k : ℕ) → order < k → k < page_nsizes → NoneFree p.pagegroup_list k)
      ⊎ (i : ℕ) × (q : Pages) × (page_split order p ≡ some (some i, q))
        × Reordered p q
        × ((g : Pagegroup) × (get_elem? q.pagegroup_list i ≡ some g) × Nonempty g order)
unfolding page_split
page_split_lem p order v less =
    let groups = p.pagegroup_list in
    elim (larger_block_lem (page_nsizes - (order + 1)) (order + 1) groups) [
      | inl (gone, all) ↦
          inl (ground (arith, gone), λ k a b. all k (omega (arith, a)) (omega (arith, a, b)))
      | inr (k, i, found, low, high, here) ↦
          (let (g, at, full) = group_with-some k i groups here in
            let (h, run, r, (a, l, last)) =
              split_down_lem (k - order) g order k (All-at IsGroup groups i g v.groups at)
                (omega (arith, low)) (omega (arith, high, less)) full in
            inr (
              i,
              record p { pagegroup_list = set groups i h },
              ground (arith, found, at, run, last),
              reorder p i g h v at r,
              (h, get_elem?-set_self groups i h (get_elem?-below groups i g at), (a, l, last)),
            ))
    ]

-- The pages without a block that was free.
pub record Taken (p : Pages) (order addr : ℕ) (q : Pages) : Type 0 where
  pub valid : IsPages q
  pub taken : (x : ℕ) → free_at p x ≡ covers order x addr + free_at q x
  pub count : p.page_freecount ≡ q.page_freecount + 2 ^ order
  pub spot : IsPlace q order addr
  pub places : (k a : ℕ) → IsPlace p k a → IsPlace q k a

-- The first free block of the order is taken from a group that has one.
pub take_block_lem :
    (p : Pages) (order i : ℕ) (g : Pagegroup)
    → IsPages p
    → order < page_nsizes
    → get_elem? p.pagegroup_list i ≡ some g
    → Nonempty g order
    → (addr : ℕ) × (q : Pages) × (take_block order i p ≡ some (addr, q)) × Taken p order addr q
unfolding take_block free_at
take_block_lem p order i g v less at (addr, l, head) =
    let groups = p.pagegroup_list in
    let vg = All-at IsGroup groups i g v.groups at in
    let removed : Removed addr (g.pg_freelist order) l = rw head (Removed-head addr l) in
    let b = (removed.keeps (IsBlock g order) (vg.blocks order less)).0 in
    let h = relist g order addr l in
    let flip =
      flip_pair-some (record g { pg_freelist = put g.pg_freelist order l }) order addr
        vg.base_aligned less b in
    let pages = pages-removed g order addr l vg less removed in
    let counted = sum_over-set free_pages groups i g h at in
    let q : Pages = record {
      pagegroup_list = set groups i h;
      page_freecount = sub32 p.page_freecount (2 ^ order);
    } in
    let count : p.page_freecount ≡ q.page_freecount + 2 ^ order =
      omega (arith, pages, v.counted, v.word, sum_over-term free_pages groups i g at) in
    let inside : in_range addr g ≡ true = ground (arith, b.0, b.1, block_bytes_pos order) in
    (
      addr,
      q,
      ground (arith, at, head, flip),
      record {
        valid = record {
          groups =
              All-set IsGroup groups i h v.groups (removed-IsGroup g order addr l vg less removed);
          apart = AreApart-set groups i g h at refl refl v.apart;
          counted = omega (arith, count, counted, pages, v.counted);
          word = omega (arith, v.word, count);
        };
        taken = λ x. omega (
          arith,
          sum_over-set (λ k. cover k x) groups i g h at,
          cover-removed g order addr l vg less removed x,
        );
        count = count;
        spot = record {
          index = i;
          group = h;
          found = from_address-set groups i g h at refl refl addr ∙ v.apart i g addr at inside;
          at = get_elem?-set_self groups i h (get_elem?-below groups i g at);
          block = b;
          below = less;
        };
        places = λ k a pl. IsPlace-set groups i g h at refl refl p q refl refl k a pl;
      },
    )
