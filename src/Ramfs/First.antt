-- ===== src/Ramfs/First.antt =====
-- The loops of kernel/fs/ramfs/ramfs.c that look for a name, a free entry or a free inode stop at the
-- first index with a property.
use weenix_assignment.Base.{
  ℕ, zero, suc, ◌+◌, ◌≤◌, ◌<◌, ◌≡◌, refl, ap, ◌∙◌, Bool, true, false, not, Option, none, some, List,
  [], ◌∷◌, arith, if◌then◌else◌, is_some, inl, inr, ◌⊎◌, Bool-cases,
}
use weenix_assignment.Ramfs.State.{Dirent, Inode}
use weenix_assignment.Ramfs.Entries.{name_match, is_free, find_name, find_space, free_inode}

unfoldable pub first : ℕ → (ℕ → Bool) → (i : ℕ) → Option ℕ
first zero p i = none
first (suc n) p i = let rest = first n p (i + 1) in if p i then some i else rest

abbrev pub AllFalse : (ℕ → Bool) → (i k : ℕ) → Type 0
AllFalse p i k = (j : ℕ) → i ≤ j → j < k → p j ≡ false

pub first_lem :
    (n : ℕ) (p : ℕ → Bool) (i : ℕ)
    → (first n p i ≡ none) × AllFalse p i (i + n)
      ⊎ (k : ℕ) × (first n p i ≡ some k) × (i ≤ k) × (k < i + n) × (p k ≡ true) × AllFalse p i k
unfolding first
first_lem zero p i = inl (refl, λ j a b. absurd (omega (arith, a, b)))
first_lem (suc n) p i = elim (Bool-cases (p i)) [
  | inl here ↦ inr (
    i,
    ground (arith, here),
    omega arith,
    omega arith,
    here,
    λ j a b. absurd (omega (arith, a, b)),
  )
  | inr no_match ↦ elim (first_lem n p (i + 1)) [
    | inl (gone, all) ↦
        inl (ground (arith, no_match, gone), λ j a b. ground (arith, no_match, all j, a, b))
    | inr (k, found, low, high, here, before) ↦ inr (
      k,
      ground (arith, no_match, found),
      omega (arith, low),
      omega (arith, high),
      here,
      λ j a b. ground (arith, no_match, before j, a, b),
    )
  ]
]

pub first_ext : (n : ℕ) (p q : ℕ → Bool) (i : ℕ) → ((j : ℕ) → p j ≡ q j) → first n p i ≡ first n q i
unfolding first
first_ext zero p q i same = refl
first_ext (suc n) p q i same = ground (arith, same i, first_ext n p q (i + 1) same)

-- The first index, by what is there and before it.
pub first-some :
    (n : ℕ) (p : ℕ → Bool) (i k : ℕ)
    → i ≤ k
    → k < i + n
    → p k ≡ true
    → AllFalse p i k
    → first n p i ≡ some k
first-some n p i k low high here before = elim (first_lem n p i) [
  | inl (gone, all) ↦ absurd (ground (arith, all k low high, here))
  | inr (j, found, jlow, jhigh, jhere, jbefore) ↦
      (let le : j ≤ k = ground (arith, jbefore k, low, here) in
        let ge : k ≤ j = ground (arith, before j, jlow, jhere) in
        found ∙ ap some (omega (arith, le, ge)))
]

pub first-none : (n : ℕ) (p : ℕ → Bool) (i : ℕ) → AllFalse p i (i + n) → first n p i ≡ none
first-none n p i all = elim (first_lem n p i) [
  | inl (gone, _) ↦ gone
  | inr (k, found, low, high, here, before) ↦ absurd (ground (arith, all k low high, here))
]

abbrev pub matches : (ℕ → Dirent) → List ℕ → ℕ → Bool
matches entries name j = name_match (entries j).rd_name name

pub find_name-first :
    (n : ℕ) (entries : ℕ → Dirent) (name : List ℕ) (i : ℕ)
    → find_name n entries name i ≡ first n (matches entries name) i
unfolding find_name first
find_name-first zero entries name i = refl
find_name-first (suc n) entries name i = ground (arith, find_name-first n entries name (i + 1))

pub find_space-first :
    (n : ℕ) (entries : ℕ → Dirent) (i : ℕ)
    → find_space n entries i ≡ first n (λ j. is_free (entries j)) i
unfolding find_space first
find_space-first zero entries i = refl
find_space-first (suc n) entries i = ground (arith, find_space-first n entries (i + 1))

pub free_inode-first :
    (n : ℕ) (inodes : ℕ → Option Inode) (i : ℕ)
    → free_inode n inodes i ≡ first n (λ j. not (is_some (inodes j))) i
unfolding free_inode first
free_inode-first zero inodes i = refl
free_inode-first (suc n) inodes i = ground (arith, free_inode-first n inodes (i + 1))

pub name_match_self : (name : List ℕ) → name_match name name ≡ true
unfolding name_match
name_match_self [] = refl
name_match_self (c ∷ name) = ground (arith, name_match_self name)

pub name_match-eq : (a b : List ℕ) → name_match a b ≡ true → a ≡ b
unfolding name_match
name_match-eq [] [] h = refl
name_match-eq [] (y ∷ b) h = absurd (ground (arith, h))
name_match-eq (x ∷ a) [] h = absurd (ground (arith, h))
name_match-eq (x ∷ a) (y ∷ b) h = ground (arith, h, name_match-eq a b)
