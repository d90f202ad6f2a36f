-- ===== src/Fs/Close.antt =====
-- Closing and duplicating descriptors keeps the reference counts exact.
use weenix_assignment.Base.{
  ℕ, ◌+◌, ◌<◌, ◌≡◌, ◌≢◌, refl, ap, ◌∙◌, true, ◌&&◌, Option, none, some, arith, ◌==◌, if◌then◌else◌,
  ◌>>=◌, is_some, pos, inl, inr, ◌⊎◌, Result, ok,
}
use weenix_assignment.Fs.File.{Open, nfiles, put, set_file, set_fd, fref, fget}
use weenix_assignment.Fs.Descriptors.{get_empty_fd, do_close, do_dup}
use weenix_assignment.Fs.Refs.{
  points, refs, Spare, refs_left, IsOpen, refs-put, refs-some, fput_lem, fref_lem, get_empty_fd_lem,
}

-- What a descriptor that is cleared counted for.
left :
    (old new : ℕ → Option ℕ) (fd f g : ℕ)
    → fd < nfiles
    → old fd ≡ some f
    → new ≡ put old fd none
    → refs nfiles new g + points (some f) g ≡ refs nfiles old g
left old new fd f g h e same =
    ap (λ files. refs nfiles files g + points (some f) g) same
    ∙ ground (arith, h, e, refs-put nfiles old fd g none)

-- Closing a descriptor of the table frees it and takes one reference of its file. With the last one, when
-- the vnode has a reference that no page holds, the vnode loses a reference too, or all of them if
-- nothing links to it and only its pages would hold it. No other file, descriptor and count of
-- references changes, and the counts stay exact.
pub do_close_lem :
    (s : Open) (fd f : ℕ)
    → IsOpen s
    → fd < nfiles
    → s.p_files fd ≡ some f
    → Spare s f
    → (s' : Open) × (do_close s (pos fd) ≡ some (ok tt, s'))
      × IsOpen s'
      × ((i : ℕ) → s'.p_files i ≡ (if fd == i then none else s.p_files i))
      × ((s'.file f).f_refcount + 1 ≡ (s.file f).f_refcount)
      × ((g : ℕ) → f ≢ g → s'.file g ≡ s.file g)
      × ((v : ℕ)
          → s'.vn_refcount v ≡ (
              if (s.file f).f_refcount == 1 && (points (s.file f).f_vnode v == 1)
              then refs_left s v
              else s.vn_refcount v))
unfolding do_close
do_close_lem s fd f v h e spare =
    let many = refs-some nfiles s.p_files fd f h e in
    let one : 0 < (s.file f).f_refcount = omega (arith, many, v.counted f) in
    let (s', e', fds, files, vnodes) = fput_lem s f (v.formed f many) one spare in
    let less : (g : ℕ)
        → refs nfiles (put s'.p_files fd none) g + points (some f) g ≡ refs nfiles s.p_files g =
      λ g.
        left s.p_files (put s'.p_files fd none) fd f g h e (ap (λ files. put files fd none) fds) in
    (
      set_fd s' fd none,
      ground (arith, e, h, e'),
      record {
        counted = λ g. ground (arith, files g, less g, v.counted g);
        formed = λ g some_ref. ground (arith, files g, less g, v.formed g);
      },
      λ i. ap (λ files. put files fd none i) fds,
      ground (arith, files f, one),
      λ g other. ground (arith, files g),
      vnodes,
    )

abbrev store : Open → ℕ → Option ℕ → Option (Result ℕ × Open)
store s f newfd = newfd >>= λ new. some (ok new, set_fd s new (some f))

dup_step :
    (s : Open) (fd f : ℕ) {s₁ : Open}
    → fd < nfiles
    → s.p_files fd ≡ some f
    → fref s f ≡ some s₁
    → do_dup s (pos fd) ≡ store s₁ f (get_empty_fd s₁)
unfolding do_dup fget
dup_step s fd f h e up = ground (arith, h, e, up)

pub dup-IsOpen :
    (s : Open) (new f : ℕ)
    → IsOpen s
    → 0 < refs nfiles s.p_files f
    → new < nfiles
    → s.p_files new ≡ none
    → IsOpen (
        set_fd
          (set_file s f (record (s.file f) { f_refcount = (s.file f).f_refcount + 1 }))
          new
          (some f))
dup-IsOpen s new f v many high free =
    let more : (g : ℕ)
        → refs nfiles (put s.p_files new (some f)) g ≡ refs nfiles s.p_files g + points (some f) g =
      λ g. ground (arith, refs-put nfiles s.p_files new g (some f), free, high) in
    record {
      counted = λ g. ground (arith, more g, v.counted g);
      formed = λ g some_ref. ground (arith, more g, v.formed g, v.formed f many);
    }

-- Duplicating an open descriptor points the lowest free one to the same file, which gains a
-- reference; the counts stay exact. With no descriptor free the code stores out of bounds (`none`).
pub do_dup_lem :
    (s : Open) (fd f : ℕ)
    → IsOpen s
    → fd < nfiles
    → s.p_files fd ≡ some f
    → ((i : ℕ) → i < nfiles → is_some (s.p_files i) ≡ true) × (do_dup s (pos fd) ≡ none)
      ⊎ (new : ℕ) × (s' : Open) × (do_dup s (pos fd) ≡ some (ok new, s'))
        × (new < nfiles)
        × (s.p_files new ≡ none)
        × ((i : ℕ) → i < new → is_some (s.p_files i) ≡ true)
        × IsOpen s'
        × ((i : ℕ) → s'.p_files i ≡ (if new == i then some f else s.p_files i))
        × ((g : ℕ)
            → s'.file g ≡ (
                if f == g
                then record (s.file g) { f_refcount = (s.file g).f_refcount + 1 }
                else s.file g))
        × (s'.vn_refcount ≡ s.vn_refcount)
do_dup_lem s fd f v h e =
    let many = refs-some nfiles s.p_files fd f h e in
    let s₁ = set_file s f (record (s.file f) { f_refcount = (s.file f).f_refcount + 1 }) in
    let up = fref_lem s f (v.formed f many) in
    elim (get_empty_fd_lem s₁) [
      | inl (full, used) ↦ inl (used, dup_step s fd f h e up ∙ ap (store s₁ f) full)
      | inr (new, found, high, free, used) ↦ inr (
        new,
        set_fd s₁ new (some f),
        dup_step s fd f h e up ∙ ap (store s₁ f) found,
        high,
        free,
        used,
        dup-IsOpen s new f v many high free,
        λ i. refl,
        λ g. ground arith,
        refl,
      )
    ]
