-- ===== src/Path/Walk.antt =====
-- `dir_namev` of kernel/fs/namev.c looks up the pieces of a path one after the other.
use weenix_assignment.Base.{
  ℕ, zero, suc, ◌≤◌, ◌<◌, ◌≡◌, refl, ap, ◌∙◌, sym, true, false, Option, none, some, List, [], ◌∷◌,
  arith, length, ◌==◌, if◌then◌else◌, inl, inr, ok, err, enametoolong, Bool-cases, leb, dec_le,
}
use mathlib.Core.Path.{fun_ext}
use mathlib.Core.List.{reverse, reverse-reverse}
use weenix_assignment.Ramfs.State.{Ramfs, name_len}
use weenix_assignment.Path.Namev.{
  slash, vfs_root_vn, scan_name, skip_slashes, each_piece, Walked, visit, walk, starts_slash,
  named_dir, dir_namev,
}
use weenix_assignment.Path.Split.{IsPiece, front, path_of, scan_short, scan_too_long}

-- The pieces of a path: what stands between its slashes, without the empty pieces.
abbrev pub glue : ℕ → List (List ℕ) → List (List ℕ)
glue c [] = (c ∷ []) ∷ []
glue c (w ∷ ws) = (c ∷ w) ∷ ws

unfoldable pub split : List ℕ → List (List ℕ)
split [] = [] ∷ []
split (c ∷ p) = let rest = split p in if c == slash then [] ∷ rest else glue c rest

abbrev pub nonempties : List (List ℕ) → List (List ℕ)
nonempties [] = []
nonempties ([] ∷ ws) = nonempties ws
nonempties ((c ∷ w) ∷ ws) = (c ∷ w) ∷ nonempties ws

unfoldable pub pieces : List ℕ → List (List ℕ)
pieces p = nonempties (split p)

-- The lookup of one piece after the other, from a directory.
unfoldable pub resolve : Ramfs → (dir : ℕ) → (cur : Option ℕ) → List (List ℕ) → Walked
resolve s dir cur [] = some (ok (dir, cur), s)
resolve s dir cur (name ∷ names) = visit (λ s' vno. resolve s' vno (some vno) names) s dir cur name

abbrev after : List ℕ → List (List ℕ)
after [] = []
after (c ∷ q) = split q

split-each_piece : (p : List ℕ) → split p ≡ (each_piece p).0 ∷ after (each_piece p).1
unfolding split each_piece
split-each_piece [] = refl
split-each_piece (c ∷ p) = elim (Bool-cases (c == slash)) [
  | inl e ↦ ground (arith, e)
  | inr ne ↦ ground (arith, ne, split-each_piece p)
]

-- What follows a piece is nothing or starts with a slash.
pieces-after : (p : List ℕ) → nonempties (after (each_piece p).1) ≡ pieces (each_piece p).1
unfolding each_piece pieces split
pieces-after [] = refl
pieces-after (c ∷ p) = elim (Bool-cases (c == slash)) [
  | inl e ↦ ground (arith, e)
  | inr ne ↦ ground (arith, ne, pieces-after p)
]

pieces-skip_slashes : (p : List ℕ) → pieces (skip_slashes p) ≡ pieces p
unfolding pieces split skip_slashes
pieces-skip_slashes [] = refl
pieces-skip_slashes (c ∷ p) = elim (Bool-cases (c == slash)) [
  | inl e ↦ ground (arith, e, pieces-skip_slashes p)
  | inr ne ↦ ground (arith, ne)
]

pieces-cons :
    (c : ℕ) (p : List ℕ)
    → (c == slash) ≡ false
    → pieces (c ∷ p) ≡ (each_piece (c ∷ p)).0 ∷ pieces (each_piece (c ∷ p)).1
unfolding pieces each_piece
pieces-cons c p ne = ap nonempties (split-each_piece (c ∷ p)) ∙ ground (arith, ne, pieces-after p)

length-each_piece : (p : List ℕ) → length (each_piece p).1 ≤ length p
unfolding each_piece
length-each_piece [] = omega arith
length-each_piece (c ∷ p) = ground (arith, length-each_piece p)

length-skip_slashes : (p : List ℕ) → length (skip_slashes p) ≤ length p
unfolding skip_slashes
length-skip_slashes [] = omega arith
length-skip_slashes (c ∷ p) = ground (arith, length-skip_slashes p)

starts_slash-skip_slashes : (p : List ℕ) → starts_slash (skip_slashes p) ≡ false
unfolding skip_slashes
starts_slash-skip_slashes [] = refl
starts_slash-skip_slashes (c ∷ p) = elim (Bool-cases (c == slash)) [
  | inl e ↦ ground (arith, e, starts_slash-skip_slashes p)
  | inr ne ↦ ground (arith, ne)
]

rest_short :
    (c : ℕ) (p : List ℕ)
    → (c == slash) ≡ false
    → length (skip_slashes (each_piece (c ∷ p)).1) ≤ length p
unfolding each_piece
rest_short c p ne = ground (arith, ne, length-each_piece p, length-skip_slashes (each_piece p).1)

-- Enough fuel for the loop is the length of the path.
walk_lem :
    (n : ℕ) (s : Ramfs) (dir : ℕ) (cur : Option ℕ) (p : List ℕ)
    → length p ≤ n
    → starts_slash p ≡ false
    → walk n s dir cur p ≡ resolve s dir cur (pieces p)
unfolding walk resolve pieces split
walk_lem zero s dir cur [] h e = refl
walk_lem (suc n) s dir cur [] h e = refl
walk_lem zero s dir cur (c ∷ p) h e = absurd (omega (arith, h))
walk_lem (suc n) s dir cur (c ∷ p) h e =
    let (name, rest) = each_piece (c ∷ p) in
    let less : length (skip_slashes rest) ≤ n = omega (arith, rest_short c p e, h) in
    let later : (s' : Ramfs) (vno : ℕ)
        → walk n s' vno (some vno) (skip_slashes rest) ≡ resolve s' vno (some vno) (pieces rest) =
      λ s' vno.
        walk_lem n s' vno (some vno) (skip_slashes rest) less (starts_slash-skip_slashes rest)
        ∙ ap (resolve s' vno (some vno)) (pieces-skip_slashes rest) in
    ap (λ next. visit next s dir cur name) (fun_ext (λ s'. fun_ext (λ vno. later s' vno)))
    ∙ ap (resolve s dir cur) (sym (pieces-cons c p e))

-- From the cut of a path to the lookups.
dir_namev_step :
    (s : Ramfs) (p_cwd : ℕ) (path name p : List ℕ)
    → scan_name (reverse path) true [] ≡ ok (name, reverse p)
    → dir_namev s p_cwd path
      ≡ named_dir name
          (resolve s (if starts_slash path then vfs_root_vn else p_cwd) none (pieces p))
unfolding dir_namev
dir_namev_step s p_cwd path name p cut =
    let dir = if starts_slash path then vfs_root_vn else p_cwd in
    let p' = skip_slashes p in
    ap
      (λ r. elim r [
        | err e ↦ some (err e, s)
        | ok (name, rev) ↦
            (let front = skip_slashes (reverse rev) in
              named_dir name (walk (length front) s dir none front))
      ])
      cut
    ∙ ap (λ q. named_dir name (walk (length (skip_slashes q)) s dir none (skip_slashes q)))
        (reverse-reverse p)
    ∙ ap (named_dir name) (
        walk_lem (length p') s dir none p' (omega arith) (starts_slash-skip_slashes p)
        ∙ ap (resolve s dir none) (pieces-skip_slashes p))

dir_namev_long :
    (s : Ramfs) (p_cwd : ℕ) (path : List ℕ)
    → scan_name (reverse path) true [] ≡ err enametoolong
    → dir_namev s p_cwd path ≡ some (err enametoolong, s)
unfolding dir_namev
dir_namev_long s p_cwd path cut = ground (arith, cut)

-- For a path of a name without slashes, not empty, with any slashes behind it and possibly a front and
-- a slash before it: `dir_namev` looks up the pieces of the front in order, from the root if the path
-- starts with a slash and from the working directory otherwise, and gives the vnode that it ends at
-- with the name; if the name is longer than NAME_LEN, it is -ENAMETOOLONG and nothing is looked up.
pub dir_namev-path_of :
    (s : Ramfs) (p_cwd : ℕ) (before : Option (List ℕ)) (name : List ℕ) (k : ℕ)
    → IsPiece name
    → 0 < length name
    → dir_namev s p_cwd (path_of before name k) ≡ (
        if leb (length name) name_len
        then named_dir name (
            resolve s
              (if starts_slash (path_of before name k) then vfs_root_vn else p_cwd)
              none
              (pieces (front before)))
        else some (err enametoolong, s))
dir_namev-path_of s p_cwd before name k clean some_name = elim (dec_le (length name) name_len) [
  | yes h ↦
      dir_namev_step s p_cwd (path_of before name k) name (front before)
        (scan_short name clean some_name before k h)
      ∙ ground (arith, h)
  | no h ↦
      dir_namev_long s p_cwd (path_of before name k)
        (scan_too_long name clean some_name before k (omega (arith, h)))
      ∙ ground (arith, h)
]
