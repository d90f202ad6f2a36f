-- ===== src/Mm/Pages/Valid.antt =====
-- When the page allocator of kernel/mm/page.c is in order, and which blocks may be given back to it.
use weenix_assignment.Base.{
  ℕ, ◌^◌, ◌<◌, ◌≡◌, refl, sym, ap, ◌∙◌, true, some, List, arith, All, get_elem?, set,
  get_elem?-set_self, get_elem?-set_ne, sum_over, find_idx?-set, get_elem?-below, ℕ_discrete,
}
use weenix_assignment.Mm.Group.{Pagegroup, page_nsizes}
use weenix_assignment.Mm.Group.Blocks.{IsBlock}
use weenix_assignment.Mm.Group.Valid.{cover, free_pages, IsGroup}
use weenix_assignment.Mm.Pages.{Pages, in_range, pagegroup_from_address}

-- In how many free blocks does a byte lie?
unfoldable pub free_at : Pages → ℕ → ℕ
free_at p x = sum_over (λ g. cover g x) p.pagegroup_list

-- Every address of a group belongs to that group.
abbrev pub AreApart : List Pagegroup → Type 0
AreApart groups =
    (i : ℕ) (g : Pagegroup) (addr : ℕ)
    → get_elem? groups i ≡ some g
    → in_range addr g ≡ true
    → pagegroup_from_address addr groups ≡ some i

pub record IsPages (p : Pages) : Type 0 where
  pub groups : All IsGroup p.pagegroup_list
  pub apart : AreApart p.pagegroup_list
  pub counted : p.page_freecount ≡ sum_over free_pages p.pagegroup_list
  pub word : p.page_freecount < 2 ^ 32

-- A block of an order in a group of the allocator.
pub record IsPlace (p : Pages) (order addr : ℕ) : Type 0 where
  pub index : ℕ
  pub group : Pagegroup
  pub found : pagegroup_from_address addr p.pagegroup_list ≡ some index
  pub at : get_elem? p.pagegroup_list index ≡ some group
  pub block : IsBlock group order addr
  pub below : order < page_nsizes

-- One group is replaced by one with the same range.
module _ (groups : List Pagegroup) (i : ℕ) (g h : Pagegroup) (at : get_elem? groups i ≡ some g)
    (base : h.pg_baseaddr ≡ g.pg_baseaddr) (end : h.pg_endaddr ≡ g.pg_endaddr) where
  same_range : (addr : ℕ) → in_range addr h ≡ in_range addr g
  same_range addr = rw (base, end)

  pub from_address-set :
      (addr : ℕ) → pagegroup_from_address addr (set groups i h) ≡ pagegroup_from_address addr groups
  unfolding pagegroup_from_address
  from_address-set addr = find_idx?-set (in_range addr) groups i g h at (same_range addr)

  there : get_elem? (set groups i h) i ≡ some h
  there = get_elem?-set_self groups i h (get_elem?-below groups i g at)

  -- What is in the new list has the range of what was in the old one.
  pub set_cases :
      (j : ℕ) (k : Pagegroup)
      → get_elem? (set groups i h) j ≡ some k
      → (old : Pagegroup) × (get_elem? groups j ≡ some old)
        × (k.pg_baseaddr ≡ old.pg_baseaddr)
        × (k.pg_endaddr ≡ old.pg_endaddr)
  set_cases j k found = elim (ℕ_discrete i j) [
    | yes e ↦
        (let new : h ≡ k = ground (arith, e, there, found) in
          (
            g,
            ground (arith, e, at),
            ap (λ z. z.pg_baseaddr) (sym new) ∙ base,
            ap (λ z. z.pg_endaddr) (sym new) ∙ end,
          ))
    | no other ↦ (k, sym (get_elem?-set_ne groups h other) ∙ found, refl, refl)
  ]

  pub new_cases :
      (j : ℕ) (old : Pagegroup)
      → get_elem? groups j ≡ some old
      → (k : Pagegroup) × (get_elem? (set groups i h) j ≡ some k)
        × (k.pg_baseaddr ≡ old.pg_baseaddr)
        × (k.pg_endaddr ≡ old.pg_endaddr)
  new_cases j old found = elim (ℕ_discrete i j) [
    | yes e ↦
        (let new : g ≡ old = ground (arith, e, at, found) in
          (
            h,
            ground (arith, e, there),
            base ∙ ap (λ z. z.pg_baseaddr) new,
            end ∙ ap (λ z. z.pg_endaddr) new,
          ))
    | no other ↦ (old, get_elem?-set_ne groups h other ∙ found, refl, refl)
  ]

  pub AreApart-set : AreApart groups → AreApart (set groups i h)
  AreApart-set apart j k addr found inside =
      let (old, was, low, high) = set_cases j k found in
      from_address-set addr ∙ apart j old addr was (rw (sym low, sym high) inside)

  pub IsPlace-set :
      (p q : Pages)
      → p.pagegroup_list ≡ groups
      → q.pagegroup_list ≡ set groups i h
      → (order addr : ℕ) → IsPlace p order addr
      → IsPlace q order addr
  IsPlace-set p q was is order addr place =
      let old : get_elem? groups place.index ≡ some place.group = rw (sym was) place.at in
      let (k, new, low, high) = new_cases place.index place.group old in
      record {
        index = place.index;
        group = k;
        found = rw is (from_address-set addr ∙ rw (sym was) place.found);
        at = rw is new;
        block = (rw low place.block.0, rw high place.block.1, rw low place.block.2);
        below = place.below;
      }
