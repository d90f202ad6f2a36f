-- ===== src/Mm/Slab/Reclaim.antt =====
-- `slab_allocators_reclaim` of kernel/mm/slab.c gives the pages of the slabs without objects back to
-- kernel/mm/page.c.
use weenix_assignment.Base.{
  ℕ, ◌+◌, ◌^◌, ◌≤◌, ◌<◌, ◌≡◌, ◌≢◌, refl, false, inl, inr, some, List, [], ◌∷◌, arith, All, sum_over,
  ◌==◌, Bool-cases,
}
use weenix_assignment.Mm.Group.Blocks.{covers}
use weenix_assignment.Mm.Group.Valid.{All-map}
use weenix_assignment.Mm.Pages.{Pages, page_free_n}
use weenix_assignment.Mm.Pages.Valid.{free_at, IsPages, IsPlace}
use weenix_assignment.Mm.Pages.Free.{Freed, page_free_order_lem, order_for-two_pow}
use weenix_assignment.Mm.Slab.{
  Slab, SlabAllocator, Memory, Reclaimed, reclaim_slabs, reclaim_allocators,
  slab_allocators_reclaim,
}

-- The bytes and pages of slabs.
abbrev pub slab_bytes : ℕ → ℕ → List Slab → ℕ
slab_bytes order x slabs = sum_over (λ s. covers order x s.s_addr) slabs

abbrev pub slab_pages : ℕ → List Slab → ℕ
slab_pages order slabs = sum_over (λ s. 2 ^ order) slabs

abbrev pub SlabsPlaced : Pages → ℕ → List Slab → Type 0
SlabsPlaced p order slabs = All (λ s. IsPlace p order s.s_addr) slabs

abbrev pub InUse : List Slab → Type 0
InUse slabs = All (λ s. s.s_inuse ≢ 0) slabs

-- The pages behind a step of the reclaim: in order, and with every place that they had.
pub record Follows (p : Pages) (freed : ℕ) (q : Pages) (npages_freed : ℕ) : Type 0 where
  pub valid : IsPages q
  pub places : (k a : ℕ) → IsPlace p k a → IsPlace q k a
  pub count : npages_freed + p.page_freecount ≡ freed + q.page_freecount

pub record SlabsReclaimed (order : ℕ) (slabs : List Slab) (freed : ℕ) (p : Pages)
    (r : Reclaimed (List Slab)) : Type 0 where
  pub follows : Follows p freed r.pages r.npages_freed
  pub bytes :
      (x : ℕ)
      → slab_bytes order x r.left + free_at r.pages x ≡ slab_bytes order x slabs + free_at p x
  pub pages : slab_pages order r.left + r.npages_freed ≡ slab_pages order slabs + freed
  pub placed : SlabsPlaced r.pages order r.left
  pub in_use : InUse r.left
  pub not_done : r.done ≡ false

-- One unused slab is freed.
free_unused :
    (order : ℕ) (s : Slab) (p : Pages)
    → IsPages p
    → IsPlace p order s.s_addr
    → ((x : ℕ) → covers order x s.s_addr + free_at p x ≤ 1)
    → p.page_freecount + 2 ^ order < 2 ^ 32
    → (q : Pages) × (page_free_n s.s_addr (2 ^ order) p ≡ some q) × Freed p order s.s_addr q
unfolding page_free_n
free_unused order s p v place apart word =
    let (q, run, freed) = page_free_order_lem p order s.s_addr v place apart word in
    (q, ground (arith, order_for-two_pow order place.below, run), freed)

-- Reclaiming from the slabs of an allocator, without a target: the unused ones are freed.
pub reclaim_slabs_lem :
    (order : ℕ) (slabs : List Slab) (freed : ℕ) (p : Pages)
    → IsPages p
    → SlabsPlaced p order slabs
    → ((x : ℕ) → slab_bytes order x slabs + free_at p x ≤ 1)
    → p.page_freecount + slab_pages order slabs < 2 ^ 32
    → (r : Reclaimed (List Slab)) × (reclaim_slabs 0 order slabs freed p ≡ some r)
      × SlabsReclaimed order slabs freed p r
unfolding reclaim_slabs
reclaim_slabs_lem order [] freed p v placed apart word = (
  record { left = []; npages_freed = freed; pages = p; done = false },
  refl,
  record {
    follows = record { valid = v; places = λ k a pl. pl; count = refl };
    bytes = λ x. refl;
    pages = omega arith;
    placed = tt;
    in_use = tt;
    not_done = refl;
  },
)
reclaim_slabs_lem order (s ∷ slabs) freed p v placed apart word =
    elim (Bool-cases (s.s_inuse == 0)) [
      | inl unused ↦
          (let (q, run, f) =
              free_unused order s p v placed.0 (λ x. omega (arith, apart x))
                (omega (arith, word)) in
            let (r, rest, ok) =
              reclaim_slabs_lem order slabs (freed + 2 ^ order) q f.valid
                (All-map slabs (λ t pl. f.places order t.s_addr pl) placed.1)
                (λ x. omega (arith, f.gained x, apart x)) (omega (arith, f.count, word)) in
            (
              r,
              ground (arith, unused, run, rest),
              record {
                follows = record {
                  valid = ok.follows.valid;
                  places = λ k a pl. ok.follows.places k a (f.places k a pl);
                  count = omega (arith, ok.follows.count, f.count);
                };
                bytes = λ x. omega (arith, ok.bytes x, f.gained x);
                pages = omega (arith, ok.pages);
                placed = ok.placed;
                in_use = ok.in_use;
                not_done = ok.not_done;
              },
            ))
      | inr used ↦
          (let (r, rest, ok) =
              reclaim_slabs_lem order slabs freed p v placed.1 (λ x. omega (arith, apart x))
                (omega (arith, word)) in
            (
              record r { left = s ∷ r.left },
              ground (arith, used, rest),
              record {
                follows = ok.follows;
                bytes = λ x. omega (arith, ok.bytes x);
                pages = omega (arith, ok.pages);
                placed = (ok.follows.places order s.s_addr placed.0, ok.placed);
                in_use = (ground (arith, used), ok.in_use);
                not_done = ok.not_done;
              },
            ))
    ]

-- The bytes and pages of all slabs, and where they lie.
abbrev pub all_bytes : ℕ → List SlabAllocator → ℕ
all_bytes x allocators = sum_over (λ a. slab_bytes a.sa_order x a.sa_slabs) allocators

abbrev pub all_pages : List SlabAllocator → ℕ
all_pages allocators = sum_over (λ a. slab_pages a.sa_order a.sa_slabs) allocators

abbrev pub AllPlaced : Pages → List SlabAllocator → Type 0
AllPlaced p allocators = All (λ a. SlabsPlaced p a.sa_order a.sa_slabs) allocators

-- The memory is in order: the page allocator is, every slab is a block of it, and no byte lies in two
-- slabs, in two free blocks or in both.
pub record IsMemory (m : Memory) : Type 0 where
  pub pages : IsPages m.pages
  pub placed : AllPlaced m.pages m.slab_allocators
  pub apart : (x : ℕ) → all_bytes x m.slab_allocators + free_at m.pages x ≤ 1
  pub word : m.pages.page_freecount + all_pages m.slab_allocators < 2 ^ 32

pub record AllReclaimed (allocators : List SlabAllocator) (freed : ℕ) (p : Pages)
    (r : Reclaimed (List SlabAllocator)) : Type 0 where
  pub follows : Follows p freed r.pages r.npages_freed
  pub bytes :
      (x : ℕ) → all_bytes x r.left + free_at r.pages x ≡ all_bytes x allocators + free_at p x
  pub pages : all_pages r.left + r.npages_freed ≡ all_pages allocators + freed
  pub placed : AllPlaced r.pages r.left
  pub in_use : All (λ a. InUse a.sa_slabs) r.left

reclaim_allocators_lem :
    (allocators : List SlabAllocator) (freed : ℕ) (p : Pages)
    → IsPages p
    → AllPlaced p allocators
    → ((x : ℕ) → all_bytes x allocators + free_at p x ≤ 1)
    → p.page_freecount + all_pages allocators < 2 ^ 32
    → (r : Reclaimed (List SlabAllocator)) × (reclaim_allocators 0 allocators freed p ≡ some r)
      × AllReclaimed allocators freed p r
unfolding reclaim_allocators
reclaim_allocators_lem [] freed p v placed apart word = (
  record { left = []; npages_freed = freed; pages = p; done = false },
  refl,
  record {
    follows = record { valid = v; places = λ k a pl. pl; count = refl };
    bytes = λ x. refl;
    pages = omega arith;
    placed = tt;
    in_use = tt;
  },
)
reclaim_allocators_lem (a ∷ others) freed p v placed apart word =
    let (r, run, ok) =
      reclaim_slabs_lem a.sa_order a.sa_slabs freed p v placed.0 (λ x. omega (arith, apart x))
        (omega (arith, word)) in
    let (rest, run', all) =
      reclaim_allocators_lem others r.npages_freed r.pages ok.follows.valid
        (All-map others
          (λ b pls. All-map b.sa_slabs (λ s pl. ok.follows.places b.sa_order s.s_addr pl) pls)
          placed.1)
        (λ x. omega (arith, ok.bytes x, apart x))
        (omega (arith, ok.follows.count, ok.pages, word)) in
    (
      record rest { left = record a { sa_slabs = r.left } ∷ rest.left },
      ground (arith, run, ok.not_done, run'),
      record {
        follows = record {
          valid = all.follows.valid;
          places = λ k b pl. all.follows.places k b (ok.follows.places k b pl);
          count = omega (arith, all.follows.count, ok.follows.count);
        };
        bytes = λ x. omega (arith, all.bytes x, ok.bytes x);
        pages = omega (arith, all.pages, ok.pages);
        placed = (
          All-map r.left (λ s pl. all.follows.places a.sa_order s.s_addr pl) ok.placed,
          all.placed,
        );
        in_use = (ok.in_use, all.in_use);
      },
    )

-- The memory after a reclaim.
pub record MemoryReclaimed (m : Memory) (npages : ℕ) (m' : Memory) : Type 0 where
  pub valid : IsMemory m'
  pub bytes :
      (x : ℕ)
      → all_bytes x m'.slab_allocators + free_at m'.pages x
        ≡ all_bytes x m.slab_allocators + free_at m.pages x
  pub count : m'.pages.page_freecount ≡ m.pages.page_freecount + npages
  pub in_use : All (λ a. InUse a.sa_slabs) m'.slab_allocators

-- Reclaiming without a target, in a memory that is in order: no assertion fails, no slab without
-- objects is left, every byte that was in a slab or free still is in one or free, and the number that
-- is returned is that of the pages that the free count gains.
pub slab_allocators_reclaim_lem :
    (m : Memory)
    → IsMemory m
    → (npages : ℕ) × (m' : Memory) × (slab_allocators_reclaim 0 m ≡ some (npages, m'))
      × MemoryReclaimed m npages m'
unfolding slab_allocators_reclaim
slab_allocators_reclaim_lem m v =
    let (r, run, ok) =
      reclaim_allocators_lem m.slab_allocators 0 m.pages v.pages v.placed v.apart v.word in
    (
      r.npages_freed,
      record { pages = r.pages; slab_allocators = r.left },
      ground (arith, run),
      record {
        valid = record {
          pages = ok.follows.valid;
          placed = ok.placed;
          apart = λ x. omega (arith, ok.bytes x, v.apart x);
          word = omega (arith, ok.pages, ok.follows.count, v.word);
        };
        bytes = ok.bytes;
        count = omega (arith, ok.follows.count);
        in_use = ok.in_use;
      },
    )
