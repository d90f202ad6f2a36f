-- ===== src/Ramfs/NameMap.antt =====
-- The entries of a directory as a map from names to numbers: what the loops of kernel/fs/ramfs/ramfs.c
-- do to the map when they write an entry.
use weenix_assignment.Base.{
  ℕ, ◌<◌, ◌≡◌, ◌≢◌, refl, ap, ◌∙◌, sym, true, false, Option, none, some, List, [], ◌∷◌, arith,
  if◌then◌else◌, ◌>>=◌, inl, inr, ◌⊎◌, Bool-cases, ℕ_discrete,
}
use weenix_assignment.Ramfs.State.{Dirent, Ramfs, ramfs_max_dirent, put}
use weenix_assignment.Ramfs.Entries.{name_match, find_name}
use weenix_assignment.Ramfs.Names.{is_name}
use weenix_assignment.Ramfs.First.{
  AllFalse, first_lem, first_ext, first-some, first-none, matches, find_name-first, name_match-eq,
}

abbrev pub ino_at : (ℕ → Dirent) → Option ℕ → Option ℕ
ino_at entries none = none
ino_at entries (some i) = some (entries i).rd_ino

-- The number that a name stands for.
unfoldable pub ino_of : (ℕ → Dirent) → List ℕ → Option ℕ
ino_of entries name = ino_at entries (find_name ramfs_max_dirent entries name 0)

unfoldable pub names : Ramfs → (dir : ℕ) → List ℕ → Option ℕ
names s dir name = s.rfs_inodes dir >>= λ inode. ino_of inode.rf_entries name

-- No name stands in two entries.
abbrev pub Unique : (ℕ → Dirent) → Type 0
Unique entries =
    (i j : ℕ)
    → i < ramfs_max_dirent
    → j < ramfs_max_dirent
    → (entries i).rd_name ≡ (entries j).rd_name
    → (entries i).rd_name ≢ []
    → i ≡ j

pub find_name_lem :
    (entries : ℕ → Dirent) (name : List ℕ)
    → (find_name ramfs_max_dirent entries name 0 ≡ none)
        × AllFalse (matches entries name) 0 ramfs_max_dirent
      ⊎ (k : ℕ) × (find_name ramfs_max_dirent entries name 0 ≡ some k)
        × (k < ramfs_max_dirent)
        × (matches entries name k ≡ true)
        × AllFalse (matches entries name) 0 k
find_name_lem entries name = elim (first_lem ramfs_max_dirent (matches entries name) 0) [
  | inl (gone, all) ↦ inl (find_name-first ramfs_max_dirent entries name 0 ∙ gone, all)
  | inr (k, found, low, high, here, before) ↦
      inr (k, find_name-first ramfs_max_dirent entries name 0 ∙ found, high, here, before)
]

ino_of_ext :
    (f g : ℕ → Dirent) (name : List ℕ)
    → ((j : ℕ) → matches f name j ≡ matches g name j)
    → ((j : ℕ) → matches f name j ≡ true → (f j).rd_ino ≡ (g j).rd_ino)
    → ino_of f name ≡ ino_of g name
unfolding ino_of
ino_of_ext f g name same inos =
    let found : find_name ramfs_max_dirent f name 0 ≡ find_name ramfs_max_dirent g name 0 =
      find_name-first ramfs_max_dirent f name 0
      ∙ first_ext ramfs_max_dirent (matches f name) (matches g name) 0 same
      ∙ sym (find_name-first ramfs_max_dirent g name 0) in
    elim (find_name_lem f name) [
      | inl (gone, _) ↦ ap (ino_at f) gone ∙ sym (ap (ino_at g) (sym found ∙ gone))
      | inr (k, here, _, match_k, _) ↦
          ap (ino_at f) here ∙ ap some (inos k match_k) ∙ sym (ap (ino_at g) (sym found ∙ here))
    ]

-- The empty name of a free entry is no name to look up.
pub free_no_match : (name : List ℕ) → is_name name ≡ true → name_match [] name ≡ false
unfolding name_match
free_no_match [] h = absurd (ground (arith, h))
free_no_match (c ∷ name) h = refl

pub name_not_empty : (name : List ℕ) → is_name name ≡ true → name ≢ []
name_not_empty [] h = absurd (ground (arith, h))
name_not_empty (c ∷ name) h = λ e. ground (arith, e)

ino_of_at :
    (entries : ℕ → Dirent) (name : List ℕ) (k : ℕ)
    → k < ramfs_max_dirent
    → matches entries name k ≡ true
    → AllFalse (matches entries name) 0 k
    → ino_of entries name ≡ some (entries k).rd_ino
unfolding ino_of
ino_of_at entries name k high here before = ap (ino_at entries) (
    find_name-first ramfs_max_dirent entries name 0
    ∙ first-some ramfs_max_dirent (matches entries name) 0 k (omega arith) high here before)

ino_of_absent :
    (entries : ℕ → Dirent) (name : List ℕ)
    → AllFalse (matches entries name) 0 ramfs_max_dirent
    → ino_of entries name ≡ none
unfolding ino_of
ino_of_absent entries name all = ap (ino_at entries) (
    find_name-first ramfs_max_dirent entries name 0
    ∙ first-none ramfs_max_dirent (matches entries name) 0 all)

pub ino_of-none :
    (entries : ℕ → Dirent) (name : List ℕ)
    → ino_of entries name ≡ none
    → AllFalse (matches entries name) 0 ramfs_max_dirent
unfolding ino_of
ino_of-none entries name e = elim (find_name_lem entries name) [
  | inl (_, all) ↦ all
  | inr (k, found, _, _, _) ↦ absurd (ground (arith, sym e ∙ ap (ino_at entries) found))
]

-- An entry is changed between two names that do not match.
ino_of_other :
    (entries : ℕ → Dirent) (k : ℕ) (e : Dirent) (other : List ℕ)
    → matches entries other k ≡ false
    → name_match e.rd_name other ≡ false
    → ino_of (put entries k e) other ≡ ino_of entries other
ino_of_other entries k e other old new =
    ino_of_ext (put entries k e) entries other (λ j. ground (arith, old, new))
      (λ j h. ground (arith, old, new, h))

-- A new name in a free entry.
pub ino_of-put :
    (entries : ℕ → Dirent) (k ino : ℕ) (name other : List ℕ)
    → k < ramfs_max_dirent
    → (entries k).rd_name ≡ []
    → ino_of entries name ≡ none
    → is_name other ≡ true
    → ino_of (put entries k (record { rd_ino = ino; rd_name = name })) other
      ≡ (if name_match name other then some ino else ino_of entries other)
ino_of-put entries k ino name other high free new h =
    let e : Dirent = record { rd_ino = ino; rd_name = name } in
    let all = ino_of-none entries name new in
    elim (Bool-cases (name_match name other)) [
      | inl same ↦
          (let equal = name_match-eq name other same in
            ino_of_at (put entries k e) other k high (ground (arith, same)) (λ j low less.
              ap (λ n. matches (put entries k e) n j) (sym equal)
              ∙ ground (arith, less, high, all j low))
            ∙ ground (arith, same))
      | inr differ ↦
          (let old : matches entries other k ≡ false =
              ap (λ n. name_match n other) free ∙ free_no_match other h in
            ino_of_other entries k e other old differ ∙ ground (arith, differ))
    ]

cleared :
    (entries : ℕ → Dirent) (k j : ℕ) (name : List ℕ)
    → Unique entries
    → k < ramfs_max_dirent
    → j < ramfs_max_dirent
    → (entries k).rd_name ≡ name
    → is_name name ≡ true
    → matches (put entries k (record (entries k) { rd_name = [] })) name j ≡ false
cleared entries k j name unique high less here h = elim (ℕ_discrete k j) [
  | yes same ↦ ground (arith, same, free_no_match name h)
  | no other ↦ elim (Bool-cases (matches entries name j)) [
    | inr differ ↦ ground (arith, other, differ)
    | inl match_j ↦
        (let equal = name_match-eq (entries j).rd_name name match_j in
          absurd (
            other (
              unique k j high less (here ∙ sym equal)
                (λ free. name_not_empty name h (sym here ∙ free)))))
  ]
]

-- A cleared entry.
pub ino_of_clear :
    (entries : ℕ → Dirent) (k : ℕ) (name other : List ℕ)
    → Unique entries
    → k < ramfs_max_dirent
    → (entries k).rd_name ≡ name
    → is_name name ≡ true
    → is_name other ≡ true
    → ino_of (put entries k (record (entries k) { rd_name = [] })) other
      ≡ (if name_match name other then none else ino_of entries other)
ino_of_clear entries k name other unique high here named h =
    let e : Dirent = record (entries k) { rd_name = [] } in
    let gone = free_no_match other h in
    elim (Bool-cases (name_match name other)) [
      | inl same ↦
          (ino_of_absent (put entries k e) other (λ j low less.
              cleared entries k j other unique high less (here ∙ name_match-eq name other same) h)
            ∙ ground (arith, same))
      | inr differ ↦
          (ino_of_other entries k e other (ap (λ n. name_match n other) here ∙ differ) gone
            ∙ ground (arith, differ))
    ]
