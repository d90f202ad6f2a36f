-- ===== src/Path/Split.antt =====
-- Where `dir_namev` of kernel/fs/namev.c cuts a path: the name at the end.
use weenix_assignment.Base.{
  ℕ, zero, suc, ◌+◌, ◌≤◌, ◌<◌, ◌≡◌, ◌≢◌, refl, ap, ◌∙◌, true, false, Option, none, some, List, [],
  ◌∷◌, ◌++◌, arith, length, replicate, All, ok, err, enametoolong,
}
use mathlib.Core.List.{
  reverse, reverse_aux, reverse-append, reverse-reverse, append-nil, append_assoc,
}
use weenix_assignment.Ramfs.State.{name_len}
use weenix_assignment.Path.Namev.{slash, scan_name}

-- A piece of a path has no slash.
abbrev pub IsPiece : List ℕ → Type 0
IsPiece name = All (λ c. c ≢ slash) name

pub slashes : ℕ → List ℕ
slashes k = replicate k slash

scan_clean :
    (w acc rev : List ℕ)
    → IsPiece w
    → length w + length acc ≤ name_len
    → scan_name (w ++ slash ∷ rev) false acc ≡ ok (reverse_aux w acc, rev)
unfolding scan_name
scan_clean [] acc rev clean h = refl
scan_clean (c ∷ w) acc rev (ne, clean) h =
    ground (arith, ne, h, scan_clean w (c ∷ acc) rev clean (omega (arith, h)))

scan_clean_end :
    (w acc : List ℕ)
    → IsPiece w
    → length w + length acc ≤ name_len
    → scan_name w false acc ≡ ok (reverse_aux w acc, [])
unfolding scan_name
scan_clean_end [] acc clean h = refl
scan_clean_end (c ∷ w) acc (ne, clean) h =
    ground (arith, ne, h, scan_clean_end w (c ∷ acc) clean (omega (arith, h)))

scan_long :
    (w acc rest : List ℕ)
    → IsPiece w
    → length acc ≤ name_len
    → name_len < length w + length acc
    → scan_name (w ++ rest) false acc ≡ err enametoolong
unfolding scan_name
scan_long [] acc rest clean short h = absurd (omega (arith, short, h))
scan_long (c ∷ w) acc rest (ne, clean) short h =
    ground (arith, ne, h, short, scan_long w (c ∷ acc) rest clean)

-- Slashes at the end are skipped.
scan_slashes :
    (k : ℕ) (rest : List ℕ) → scan_name (replicate k slash ++ rest) true [] ≡ scan_name rest true []
unfolding scan_name
scan_slashes zero rest = refl
scan_slashes (suc k) rest = ground (arith, scan_slashes k rest)

scan_start :
    (w rest acc : List ℕ)
    → IsPiece w
    → 0 < length w
    → scan_name (w ++ rest) true acc ≡ scan_name (w ++ rest) false acc
unfolding scan_name
scan_start [] rest acc clean h = absurd (omega (arith, h))
scan_start (c ∷ w) rest acc (ne, clean) h = ground (arith, ne)

-- What stands before the last name: nothing, or a front and a slash.
abbrev pub lead : Option (List ℕ) → List ℕ
lead none = []
lead (some p) = p ++ slash ∷ []

abbrev pub front : Option (List ℕ) → List ℕ
front none = []
front (some p) = p

-- A path, with `k` slashes behind the last name.
abbrev pub path_of : Option (List ℕ) → (name : List ℕ) → (k : ℕ) → List ℕ
path_of before name k = lead before ++ (name ++ replicate k slash)

replicate_snoc :
    (k : ℕ) (rest : List ℕ)
    → replicate k slash ++ slash ∷ rest ≡ slash ∷ (replicate k slash ++ rest)
replicate_snoc zero rest = refl
replicate_snoc (suc k) rest = ap (λ l. slash ∷ l) (replicate_snoc k rest)

reverse_aux-replicate :
    (k : ℕ) (acc : List ℕ) → reverse_aux (replicate k slash) acc ≡ replicate k slash ++ acc
reverse_aux-replicate zero acc = refl
reverse_aux-replicate (suc k) acc = reverse_aux-replicate k (slash ∷ acc) ∙ replicate_snoc k acc

length-reverse_aux : (w acc : List ℕ) → length (reverse_aux w acc) ≡ length w + length acc
length-reverse_aux [] acc = omega arith
length-reverse_aux (c ∷ w) acc = omega (arith, length-reverse_aux w (c ∷ acc))

IsPiece-reverse_aux : (w acc : List ℕ) → IsPiece w → IsPiece acc → IsPiece (reverse_aux w acc)
IsPiece-reverse_aux [] acc clean clean' = clean'
IsPiece-reverse_aux (c ∷ w) acc (ne, clean) clean' =
    IsPiece-reverse_aux w (c ∷ acc) clean (ne, clean')

reverse_name : (name : List ℕ) → reverse_aux (reverse name) [] ≡ name
reverse_name name = reverse-reverse name

reverse-path_of :
    (before : Option (List ℕ)) (name : List ℕ) (k : ℕ)
    → reverse (path_of before name k) ≡ replicate k slash ++ (reverse name ++ reverse (lead before))
reverse-path_of before name k =
    reverse-append (lead before) (name ++ replicate k slash)
    ∙ ap (λ l. l ++ reverse (lead before))
        (reverse-append name (replicate k slash)
          ∙ ap (λ l. l ++ reverse name)
              (reverse_aux-replicate k [] ∙ append-nil (replicate k slash)))
    ∙ append_assoc (replicate k slash) (reverse name) (reverse (lead before))

module _ (name : List ℕ) (clean : IsPiece name) (some_name : 0 < length name) where
  clean_rev : IsPiece (reverse name)
  clean_rev = IsPiece-reverse_aux name [] clean tt

  length_rev : length (reverse name) ≡ length name
  length_rev = omega (arith, length-reverse_aux name [])

  -- Past the slashes at the end, the loop stands at the last byte of the name.
  scan_tail :
      (before : Option (List ℕ)) (k : ℕ)
      → scan_name (reverse (path_of before name k)) true []
        ≡ scan_name (reverse name ++ reverse (lead before)) false []
  scan_tail before k =
      ap (λ l. scan_name l true []) (reverse-path_of before name k)
      ∙ scan_slashes k (reverse name ++ reverse (lead before))
      ∙ scan_start (reverse name) (reverse (lead before)) [] clean_rev
          (omega (arith, length_rev, some_name))

  pub scan_short :
      (before : Option (List ℕ)) (k : ℕ)
      → length name ≤ name_len
      → scan_name (reverse (path_of before name k)) true [] ≡ ok (name, reverse (front before))
  scan_short none k h =
      scan_tail none k
      ∙ ap (λ l. scan_name l false []) (append-nil (reverse name))
      ∙ scan_clean_end (reverse name) [] clean_rev (omega (arith, length_rev, h))
      ∙ ap (λ w. ok (w, [])) (reverse_name name)
  scan_short (some p) k h =
      scan_tail (some p) k
      ∙ ap (λ l. scan_name (reverse name ++ l) false []) (reverse-append p (slash ∷ []))
      ∙ scan_clean (reverse name) [] (reverse p) clean_rev (omega (arith, length_rev, h))
      ∙ ap (λ w. ok (w, reverse p)) (reverse_name name)

  pub scan_too_long :
      (before : Option (List ℕ)) (k : ℕ)
      → name_len < length name
      → scan_name (reverse (path_of before name k)) true [] ≡ err enametoolong
  scan_too_long before k h =
      scan_tail before k
      ∙ scan_long (reverse name) [] (reverse (lead before)) clean_rev (omega arith)
          (omega (arith, length_rev, h))

-- A path of slashes has no name and no front.
pub scan_root : (k : ℕ) → scan_name (reverse (replicate k slash)) true [] ≡ ok ([], [])
unfolding scan_name
scan_root k = ap (λ l. scan_name l true []) (reverse_aux-replicate k []) ∙ scan_slashes k []
