-- ===== src/Ramfs/OnlyDots.antt =====
-- The loop of `ramfs_rmdir` in kernel/fs/ramfs/ramfs.c that looks for other names than "." and "..".
use mathlib.Core.Path.{subst}
use weenix_assignment.Base.{
  ℕ, zero, suc, ◌+◌, ◌≤◌, ◌<◌, ◌≡◌, ◌≢◌, refl, ap, ◌∙◌, sym, true, false, none, List, [], ◌∷◌,
  arith, inl, inr, ◌⊎◌, Bool-cases, ℕ_discrete,
}
use weenix_assignment.Ramfs.State.{Dirent, ramfs_max_dirent}
use weenix_assignment.Ramfs.Entries.{name_match, is_free, only_dots}
use weenix_assignment.Ramfs.First.{name_match-eq}
use weenix_assignment.Ramfs.NameMap.{ino_of, ino_at, find_name_lem}
use weenix_assignment.Ramfs.Links.{is_dots}

abbrev IsOther : Dirent → Type 0
IsOther e = (is_free e ≡ false) × (is_dots e.rd_name ≡ false)

-- The loop passes all entries that are free or dots, and stops at another one.
abbrev Passes : (n : ℕ) → (ℕ → Dirent) → (i : ℕ) → Type 0
Passes n entries i =
    (only_dots n entries i ≡ true) × ((j : ℕ) → i ≤ j → j < i + n → ¬ (IsOther (entries j)))
    ⊎ (only_dots n entries i ≡ false) × (j : ℕ) × (j < i + n) × IsOther (entries j)

pass_on :
    (n : ℕ) (entries : ℕ → Dirent) (i : ℕ)
    → only_dots (suc n) entries i ≡ only_dots n entries (i + 1)
    → ¬ (IsOther (entries i))
    → Passes n entries (i + 1)
    → Passes (suc n) entries i
pass_on n entries i step here (inl (run, all)) = inl (
  step ∙ run,
  λ j a b. elim (ℕ_discrete i j) [
    | yes e ↦ λ o. here (subst (λ j. IsOther (entries j)) (sym e) o)
    | no ne ↦ all j (omega (arith, a, ne)) (omega (arith, b))
  ],
)
pass_on n entries i step here (inr (run, j, less, o)) = inr (step ∙ run, j, omega (arith, less), o)

only_dots_cases : (n : ℕ) (entries : ℕ → Dirent) (i : ℕ) → Passes n entries i
unfolding only_dots
only_dots_cases zero entries i = inl (refl, λ j a b. absurd (omega (arith, a, b)))
only_dots_cases (suc n) entries i = elim (Bool-cases (is_dots (entries i).rd_name)) [
  | inl dots ↦
      pass_on n entries i (ground (arith, dots)) (λ o. ground (arith, dots, o.1))
        (only_dots_cases n entries (i + 1))
  | inr other ↦ elim (Bool-cases (is_free (entries i))) [
    | inl free ↦
        pass_on n entries i (ground (arith, free)) (λ o. ground (arith, free, o.0))
          (only_dots_cases n entries (i + 1))
    | inr used ↦ inr (ground (arith, other, used), i, omega arith, (used, other))
  ]
]

name_match_self : (name : List ℕ) → name_match name name ≡ true
unfolding name_match
name_match_self [] = refl
name_match_self (c ∷ name) = ground (arith, name_match_self name)

used_name : (name : List ℕ) (e : Dirent) → e.rd_name ≡ name → name ≢ [] → is_free e ≡ false
used_name [] e h ne = absurd (ne refl)
used_name (c ∷ name) e h ne = ground (arith, h)

named_entry : (e : Dirent) → is_free e ≡ false → e.rd_name ≢ []
named_entry e used h = ground (arith, h, used)

-- A directory without names but "." and "..", and one with another name.
abbrev pub NoNames : (ℕ → Dirent) → Type 0
NoNames entries = (name : List ℕ) → name ≢ [] → is_dots name ≡ false → ino_of entries name ≡ none

abbrev pub SomeName : (ℕ → Dirent) → Type 0
SomeName entries =
    (name : List ℕ) × (name ≢ []) × (is_dots name ≡ false) × (ino_of entries name ≢ none)

pub only_dots-NoNames :
    (entries : ℕ → Dirent)
    → (only_dots ramfs_max_dirent entries 0 ≡ true) × NoNames entries
      ⊎ (only_dots ramfs_max_dirent entries 0 ≡ false) × SomeName entries
unfolding ino_of
only_dots-NoNames entries = elim (only_dots_cases ramfs_max_dirent entries 0) [
  | inl (run, all) ↦ inl (
    run,
    λ name some_name other. elim (find_name_lem entries name) [
      | inl (gone, _) ↦ ap (ino_at entries) gone
      | inr (k, _, less, here, _) ↦
          (let e = name_match-eq (entries k).rd_name name here in
            absurd (
              all k (omega arith) less
                (used_name name (entries k) e some_name, ap is_dots e ∙ other)))
    ],
  )
  | inr (run, j, less, (used, other)) ↦ inr (
    run,
    (
      (entries j).rd_name,
      named_entry (entries j) used,
      other,
      λ gone. elim (find_name_lem entries (entries j).rd_name) [
        | inl (_, all) ↦
            absurd (ground (arith, all j (omega arith) less, name_match_self (entries j).rd_name))
        | inr (k, found, _, _, _) ↦ absurd (ground (arith, sym gone ∙ ap (ino_at entries) found))
      ],
    ),
  )
]
