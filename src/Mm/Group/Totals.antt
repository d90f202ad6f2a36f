-- ===== src/Mm/Group/Totals.antt =====
-- Totals over the free lists of kernel/mm/page.c.
use weenix_assignment.Base.{
  ℕ, ◌+◌, ◌<◌, ◌≡◌, ◌≢◌, refl, ap, some, List, [], ◌∷◌, arith, All, ℕ_discrete,
}
use weenix_assignment.Mm.Group.{list_remove}

unfoldable pub total : (ℕ → ℕ) → List ℕ → ℕ
total f [] = 0
total f (a ∷ l) = f a + total f l

-- What the removal of a block does to totals, and to what holds of all blocks.
pub record Removed (a : ℕ) (l r : List ℕ) : Type 1 where
  pub totals : (f : ℕ → ℕ) → total f l ≡ f a + total f r
  pub keeps : (P : ℕ → Type 0) → All P l → P a × All P r

pub record HasBlock (f : ℕ → ℕ) (P : ℕ → Type 0) (l : List ℕ) : Type 1 where
  pub block : ℕ
  pub counted : 0 < f block
  pub good : P block
  pub rest : List ℕ
  pub removal : list_remove block l ≡ some rest
  pub removed : Removed block l rest

pub Removed-head : (a : ℕ) (l : List ℕ) → Removed a (a ∷ l) l
unfolding total
Removed-head a l = record { totals = λ f. refl; keeps = λ P all. all }

pub Removed-skip : {a b : ℕ} {l r : List ℕ} → Removed a l r → Removed a (b ∷ l) (b ∷ r)
unfolding total
Removed-skip {a} {b} {l} {r} h = record {
  totals = λ f. omega (arith, h.totals f);
  keeps = λ P all. ((h.keeps P all.1).0, (all.0, (h.keeps P all.1).1));
}

pub list_remove-head : (a b : ℕ) (l : List ℕ) → a ≡ b → list_remove a (b ∷ l) ≡ some l
unfolding list_remove
list_remove-head a b l e = ground (arith, e)

list_remove-skip :
    (a b : ℕ) (l r : List ℕ)
    → a ≢ b
    → list_remove a l ≡ some r
    → list_remove a (b ∷ l) ≡ some (b ∷ r)
unfolding list_remove
list_remove-skip a b l r ne h = ground (arith, ne, h)

-- A total above 0 has a block that counts in it, and that block can be removed.
pub find_counted :
    (f : ℕ → ℕ) (P : ℕ → Type 0) (l : List ℕ) → All P l → 0 < total f l → HasBlock f P l
unfolding total
find_counted f P [] all h = absurd (omega (arith, h))
find_counted f P (b ∷ l) all h = elim (ℕ_discrete (f b) 0) [
  | no here ↦ record {
    block = b;
    counted = omega (arith, here);
    good = all.0;
    rest = l;
    removal = list_remove-head b b l refl;
    removed = Removed-head b l;
  }
  | yes none_here ↦
      (let later = find_counted f P l all.1 (omega (arith, h, none_here)) in
        record {
          block = later.block;
          counted = later.counted;
          good = later.good;
          rest = b ∷ later.rest;
          removal =
              list_remove-skip later.block b l later.rest
                (λ e. absurd (omega (arith, later.counted, none_here, ap f e))) later.removal;
          removed = Removed-skip later.removed;
        })
]
