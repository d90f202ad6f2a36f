-- ===== src/Base/Find.antt =====
-- The first element of a list with a property, and sums over a list.
use Prim.Native.Nat.{ℕ, zero, suc, ◌+◌, ◌≤◌, ◌<◌}
use mathlib.Core.Path.{◌≡◌, refl, ap, subst}
use mathlib.Core.Logic.{◌⊎◌, inl, inr}
use mathlib.Core.Bool.{Bool, true, false}
use mathlib.Core.List.{List, [], ◌∷◌, ◌++◌}
use mathlib.Core.Option
use mathlib.Core.Option.{Option, none, some, some-injective}
use native.Mathlib.Omega.{arith}
use weenix_assignment.Base.Tests.{if◌then◌else◌}
use weenix_assignment.Base.Lists.{length, get_elem?, set, All}

module _ {ℓ} {A : Type ℓ} where
  -- The place of the first element with a property.
  unfoldable pub find_idx? : (A → Bool) → List A → Option ℕ
  find_idx? p [] = none
  find_idx? p (x ∷ xs) = if p x then some 0 else Option.map suc (find_idx? p xs)

  pub find_idx?-some :
      (p : A → Bool) (xs : List A) (i : ℕ)
      → find_idx? p xs ≡ some i
      → (x : A) × (get_elem? xs i ≡ some x) × (p x ≡ true)
  unfolding find_idx?
  find_idx?-some p [] i h = absurd (ground (arith, h))
  find_idx?-some p (x ∷ xs) zero h = (x, refl, ground (arith, h))
  find_idx?-some p (x ∷ xs) (suc i) h =
      let (y, at, good) = find_idx?-some p xs i (ground (arith, h)) in (y, at, good)

  pub find_idx?-none :
      (p : A → Bool) (xs : List A) → find_idx? p xs ≡ none → All (λ x. p x ≡ false) xs
  unfolding find_idx?
  find_idx?-none p [] h = tt
  find_idx?-none p (x ∷ xs) h = (ground (arith, h), find_idx?-none p xs (ground (arith, h)))

  -- The list with an element replaced that has the property as the one before.
  pub find_idx?-set :
      (p : A → Bool) (xs : List A) (i : ℕ) (a b : A)
      → get_elem? xs i ≡ some a
      → p b ≡ p a
      → find_idx? p (set xs i b) ≡ find_idx? p xs
  unfolding find_idx?
  find_idx?-set p [] i a b h e = refl
  find_idx?-set p (x ∷ xs) zero a b h e = ground (arith, h, e)
  find_idx?-set p (x ∷ xs) (suc i) a b h e = ground (arith, find_idx?-set p xs i a b h e)

  -- A sum over a list, when one element is replaced.
  abbrev pub sum_over : (A → ℕ) → List A → ℕ
  sum_over f [] = 0
  sum_over f (x ∷ xs) = f x + sum_over f xs

  pub sum_over-set :
      (f : A → ℕ) (xs : List A) (i : ℕ) (a b : A)
      → get_elem? xs i ≡ some a
      → sum_over f (set xs i b) + f a ≡ sum_over f xs + f b
  sum_over-set f [] i a b h = absurd (ground (arith, h))
  sum_over-set f (x ∷ xs) zero a b h = ground (arith, h)
  sum_over-set f (x ∷ xs) (suc i) a b h = omega (arith, sum_over-set f xs i a b h)

  pub sum_over-term :
      (f : A → ℕ) (xs : List A) (i : ℕ) (a : A) → get_elem? xs i ≡ some a → f a ≤ sum_over f xs
  sum_over-term f [] i a h = absurd (ground (arith, h))
  sum_over-term f (x ∷ xs) zero a h = ground (arith, h)
  sum_over-term f (x ∷ xs) (suc i) a h = omega (arith, sum_over-term f xs i a h)

  pub All-at {κ} :
      (P : A → Type κ) (xs : List A) (i : ℕ) (a : A) → All P xs → get_elem? xs i ≡ some a → P a
  All-at P [] i a all h = absurd (ground (arith, h))
  All-at P (x ∷ xs) zero a all h = subst P (some-injective x a h) all.0
  All-at P (x ∷ xs) (suc i) a all h = All-at P xs i a all.1 h

  pub All-set {κ} :
      (P : A → Type κ) (xs : List A) (i : ℕ) (b : A) → All P xs → P b → All P (set xs i b)
  All-set P [] i b all h = tt
  All-set P (x ∷ xs) zero b all h = (h, all.1)
  All-set P (x ∷ xs) (suc i) b all h = (all.0, All-set P xs i b all.1 h)

  pub get_elem?-below : (xs : List A) (i : ℕ) (a : A) → get_elem? xs i ≡ some a → i < length xs
  get_elem?-below [] i a h = absurd (ground (arith, h))
  get_elem?-below (x ∷ xs) zero a h = omega arith
  get_elem?-below (x ∷ xs) (suc i) a h = omega (arith, get_elem?-below xs i a h)

  -- A list with one more element at its end.
  pub find_idx?-append_found :
      (p : A → Bool) (xs ys : List A) (i : ℕ)
      → find_idx? p xs ≡ some i
      → find_idx? p (xs ++ ys) ≡ some i
  unfolding find_idx?
  find_idx?-append_found p [] ys i h = absurd (ground (arith, h))
  find_idx?-append_found p (x ∷ xs) ys zero h = ground (arith, h)
  find_idx?-append_found p (x ∷ xs) ys (suc i) h =
      ground (arith, h, find_idx?-append_found p xs ys i)

  pub find_idx?-append_last :
      (p : A → Bool) (xs : List A) (y : A)
      → find_idx? p xs ≡ none
      → p y ≡ true
      → find_idx? p (xs ++ y ∷ []) ≡ some (length xs)
  unfolding find_idx?
  find_idx?-append_last p [] y h good = ground (arith, good)
  find_idx?-append_last p (x ∷ xs) y h good = ground (arith, h, good, find_idx?-append_last p xs y)

  pub get_elem?-append_cases :
      (xs : List A) (y : A) (i : ℕ) (a : A)
      → get_elem? (xs ++ y ∷ []) i ≡ some a
      → (get_elem? xs i ≡ some a) ⊎ ((i ≡ length xs) × (y ≡ a))
  get_elem?-append_cases [] y zero a h = inr (refl, some-injective y a h)
  get_elem?-append_cases [] y (suc i) a h = absurd (ground (arith, h))
  get_elem?-append_cases (x ∷ xs) y zero a h = inl h
  get_elem?-append_cases (x ∷ xs) y (suc i) a h = elim (get_elem?-append_cases xs y i a h) [
    | inl before ↦ inl before
    | inr (e, last) ↦ inr (ap suc e, last)
  ]

  pub sum_over-append :
      (f : A → ℕ) (xs : List A) (y : A) → sum_over f (xs ++ y ∷ []) ≡ sum_over f xs + f y
  sum_over-append f [] y = omega arith
  sum_over-append f (x ∷ xs) y = omega (arith, sum_over-append f xs y)

  pub All-append {κ} :
      (P : A → Type κ) (xs : List A) (y : A) → All P xs → P y → All P (xs ++ y ∷ [])
  All-append P [] y all h = (h, tt)
  All-append P (x ∷ xs) y all h = (all.0, All-append P xs y all.1 h)
