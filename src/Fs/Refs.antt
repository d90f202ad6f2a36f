-- ===== src/Fs/Refs.antt =====
-- The reference count of an open file is the number of descriptors that point to it.
use weenix_assignment.Base.{
  ℕ, zero, suc, ◌+◌, ◌-◌, ◌≤◌, ◌<◌, ◌≡◌, refl, true, not, ◌&&◌, Option, none, some, arith, ltb,
  ◌==◌, if◌then◌else◌, is_some, pos, inl, inr, ◌⊎◌, Option-cases, ℕ_discrete,
}
use weenix_assignment.Fs.File.{File, Open, nfiles, put, set_file, pos_ok, fref, fget, fput, vput}
use weenix_assignment.Fs.Descriptors.{empty_from, get_empty_fd}

abbrev pub points : Option ℕ → ℕ → ℕ
points none f = 0
points (some g) f = if g == f then 1 else 0

-- How many of the first `n` descriptors point to the file.
unfoldable pub refs : ℕ → (ℕ → Option ℕ) → ℕ → ℕ
refs zero files f = 0
refs (suc n) files f = refs n files f + points (files n) f

abbrev pub Formed : File → Type 0
Formed x = (x.f_mode < 8) × (pos_ok x.f_pos ≡ true) × (is_some x.f_vnode ≡ true)

-- A file that a descriptor points to is well formed and has a vnode, and its reference count is the
-- number of those descriptors.
pub record IsOpen (s : Open) : Type 0 where
  pub counted : (f : ℕ) → (s.file f).f_refcount ≡ refs nfiles s.p_files f
  pub formed : (f : ℕ) → 0 < refs nfiles s.p_files f → Formed (s.file f)

pub refs-put :
    (n : ℕ) (files : ℕ → Option ℕ) (i f : ℕ) (v : Option ℕ)
    → refs n (put files i v) f + (if ltb i n then points (files i) f else 0)
      ≡ refs n files f + (if ltb i n then points v f else 0)
unfolding refs
refs-put zero files i f v = ground arith
refs-put (suc n) files i f v = ground (arith, refs-put n files i f v)

-- A descriptor that points to a file counts.
pub refs-some :
    (n : ℕ) (files : ℕ → Option ℕ) (i f : ℕ) → i < n → files i ≡ some f → 0 < refs n files f
unfolding refs
refs-some zero files i f h e = absurd (omega (arith, h))
refs-some (suc n) files i f h e = ground (arith, refs-some n files i f)

pub fref_lem :
    (s : Open) (f : ℕ)
    → Formed (s.file f)
    → fref s f ≡ some (set_file s f (record (s.file f) { f_refcount = (s.file f).f_refcount + 1 }))
unfolding fref
fref_lem s f v = ground (arith, v)

-- One more reference of a file.
abbrev pub held : Open → ℕ → Open
held s f = set_file s f (record (s.file f) { f_refcount = (s.file f).f_refcount + 1 })

pub fget_lem :
    (s : Open) (fd f : ℕ)
    → fd < nfiles
    → s.p_files fd ≡ some f
    → Formed (s.file f)
    → fget s (pos fd) ≡ some (some f, held s f)
unfolding fget
fget_lem s fd f h e v = ground (arith, h, e, fref_lem s f v)

-- With the last reference of the file, its vnode has one that no page holds.
abbrev pub Spare : Open → ℕ → Type 0
Spare s f =
    (s.file f).f_refcount ≡ 1
    → (vn : ℕ) → (s.file f).f_vnode ≡ some vn
    → s.vn_nrespages vn < s.vn_refcount vn

-- The references of a vnode without one that no page holds: none at all, if nothing links to the vnode
-- and only its pages would hold it.
abbrev pub refs_left : Open → ℕ → ℕ
refs_left s vn =
    if not (s.query_vnode vn) && s.vn_refcount vn == s.vn_nrespages vn + 1
    then 0
    else s.vn_refcount vn - 1

-- A reference of a well formed file is dropped; the last one drops one of the vnode.
pub fput_lem :
    (s : Open) (f : ℕ)
    → Formed (s.file f)
    → 0 < (s.file f).f_refcount
    → Spare s f
    → (s' : Open) × (fput s f ≡ some s')
      × (s'.p_files ≡ s.p_files)
      × ((g : ℕ)
          → s'.file g ≡ (
              if f == g
              then record (s.file g) { f_refcount = (s.file g).f_refcount - 1 }
              else s.file g))
      × ((vn : ℕ)
          → s'.vn_refcount vn ≡ (
              if (s.file f).f_refcount == 1 && (points (s.file f).f_vnode vn == 1)
              then refs_left s vn
              else s.vn_refcount vn))
unfolding fput vput
fput_lem s f (mode, place, vnode) h spare = elim (Option-cases (s.file f).f_vnode) [
  | inl e ↦ absurd (ground (arith, e))
  | inr (vn, e) ↦
      (let low = record (s.file f) { f_refcount = (s.file f).f_refcount - 1 } in
        elim (ℕ_discrete (s.file f).f_refcount 1) [
          | yes last ↦ (
            record (set_file s f low) {
              vn_refcount = put s.vn_refcount vn (refs_left s vn);
              vn_nrespages = put s.vn_nrespages vn (
                  if not (s.query_vnode vn) && s.vn_refcount vn == s.vn_nrespages vn + 1
                  then 0
                  else s.vn_nrespages vn);
            },
            ground (arith, mode, place, e, last, spare last vn e),
            refl,
            λ g. ground arith,
            λ w. ground (arith, e, last),
          )
          | no more ↦ (
            set_file s f low,
            ground (arith, mode, place, e, more, h),
            refl,
            λ g. ground arith,
            λ w. ground (arith, more),
          )
        ])
]

-- The loop finds the first free descriptor of its range, or there is none.
pub empty_from_lem :
    (n : ℕ) (files : ℕ → Option ℕ) (fd : ℕ)
    → (empty_from n files fd ≡ none) × ((i : ℕ) → fd ≤ i → i < fd + n → is_some (files i) ≡ true)
      ⊎ (new : ℕ) × (empty_from n files fd ≡ some new)
        × (fd ≤ new)
        × (new < fd + n)
        × (files new ≡ none)
        × ((i : ℕ) → fd ≤ i → i < new → is_some (files i) ≡ true)
unfolding empty_from
empty_from_lem zero files fd = inl (refl, λ i a b. absurd (omega (arith, a, b)))
empty_from_lem (suc n) files fd = elim (Option-cases (files fd)) [
  | inl free ↦ inr (
    fd,
    ground (arith, free),
    omega arith,
    omega arith,
    free,
    λ i a b. absurd (omega (arith, a, b)),
  )
  | inr (f, used) ↦ elim (empty_from_lem n files (fd + 1)) [
    | inl (full, all) ↦ inl (ground (arith, used, full), λ i a b. ground (arith, used, all i, a, b))
    | inr (new, found, low, high, free, all) ↦ inr (
      new,
      ground (arith, used, found),
      omega (arith, low),
      omega (arith, high),
      free,
      λ i a b. ground (arith, used, all i, a, b),
    )
  ]
]

pub get_empty_fd_lem :
    (s : Open)
    → (get_empty_fd s ≡ none) × ((i : ℕ) → i < nfiles → is_some (s.p_files i) ≡ true)
      ⊎ (new : ℕ) × (get_empty_fd s ≡ some new)
        × (new < nfiles)
        × (s.p_files new ≡ none)
        × ((i : ℕ) → i < new → is_some (s.p_files i) ≡ true)
unfolding get_empty_fd
get_empty_fd_lem s = elim (empty_from_lem nfiles s.p_files 0) [
  | inl (full, used) ↦ inl (full, λ i k. used i (omega arith) k)
  | inr (new, found, low, high, free, used) ↦
      inr (new, found, high, free, λ i k. used i (omega arith) k)
]
