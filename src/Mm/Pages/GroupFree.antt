-- ===== src/Mm/Pages/GroupFree.antt =====
-- What `_page_free_order` of kernel/mm/page.c does to the group of the block.
use weenix_assignment.Base.{
  ℕ, ◌+◌, ◌-◌, ◌^◌, ◌≤◌, ◌<◌, ◌≡◌, refl, ◌∙◌, some, ◌∷◌, arith, put, ℕ_discrete,
}
use weenix_assignment.Mm.Group.{Pagegroup, page_nsizes}
use weenix_assignment.Mm.Group.Blocks.{covers, IsBlock}
use weenix_assignment.Mm.Group.Valid.{
  cover, free_pages, IsGroup, SameGroup, weigh-SameGroup, IsGroup-SameGroup,
}
use weenix_assignment.Mm.Group.Flip.{
  flip_pair-some, inserted, weigh-inserted, cover-inserted, inserted-IsGroup,
}
use weenix_assignment.Mm.Group.Join.{group_join_lem}
use weenix_assignment.Mm.Pages.{group_free}

-- A group that has gained a free block.
pub record Gains (g : Pagegroup) (order addr : ℕ) (h : Pagegroup) : Type 0 where
  pub valid : IsGroup h
  pub base : h.pg_baseaddr ≡ g.pg_baseaddr
  pub end : h.pg_endaddr ≡ g.pg_endaddr
  pub covered : (x : ℕ) → cover h x ≡ covers order x addr + cover g x
  pub pages : free_pages h ≡ 2 ^ order + free_pages g

module _ (g : Pagegroup) (order addr : ℕ) (v : IsGroup g) (less : order < page_nsizes)
    (b : IsBlock g order addr) (free : (x : ℕ) → covers order x addr + cover g x ≤ 1) where
  abbrev more : Pagegroup
  more = inserted g order addr v less

  more_valid : IsGroup more
  more_valid = inserted-IsGroup g order addr v less b free

  more_pages : free_pages more ≡ 2 ^ order + free_pages g
  unfolding free_pages
  more_pages = weigh-inserted g order addr v less (λ k _. 2 ^ k)

  -- The largest blocks have no bits.
  abbrev listed : Pagegroup
  listed = record g { pg_freelist = put g.pg_freelist order (addr ∷ g.pg_freelist order) }

  listed_same : order ≡ page_nsizes - 1 → SameGroup more listed
  listed_same top = record {
    base = refl;
    end = refl;
    lists = λ k. refl;
    bits = λ k i. ground (arith, top);
  }

  free_top :
      order ≡ page_nsizes - 1
      → (h : Pagegroup) × (group_free g order addr ≡ some h) × Gains g order addr h
  unfolding group_free cover free_pages
  free_top top = (
    listed,
    ground (arith, top),
    record {
      valid = IsGroup-SameGroup (listed_same top) more_valid;
      base = refl;
      end = refl;
      covered = λ x.
          weigh-SameGroup (λ k. covers k x) (listed_same top)
          ∙ cover-inserted g order addr v less x;
      pages = weigh-SameGroup (λ k _. 2 ^ k) (listed_same top) ∙ more_pages;
    },
  )

  -- The block is marked, and joined with its buddies.
  pub group_free_lem : (h : Pagegroup) × (group_free g order addr ≡ some h) × Gains g order addr h
  unfolding group_free
  group_free_lem = elim (ℕ_discrete order (page_nsizes - 1)) [
    | yes top ↦ free_top top
    | no below ↦
        (let flip = flip_pair-some listed order addr v.base_aligned less b in
          let head : more.pg_freelist order ≡ addr ∷ g.pg_freelist order = ground arith in
          let (h, run, r, _) =
            group_join_lem page_nsizes more order addr (g.pg_freelist order) more_valid less head
              (omega arith) in
          (
            h,
            ground (arith, below, less, flip, run),
            record {
              valid = r.valid;
              base = r.base;
              end = r.end;
              covered = λ x. r.covered x ∙ cover-inserted g order addr v less x;
              pages = r.pages ∙ more_pages;
            },
          ))
  ]
