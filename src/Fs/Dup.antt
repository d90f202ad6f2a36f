-- ===== src/Fs/Dup.antt =====
-- A duplicate that is closed again, and the reference that `do_dup2` loses.
use weenix_assignment.Base.{
  ℕ, ◌+◌, ◌<◌, ◌≡◌, refl, ap, ◌∙◌, some, arith, ◌==◌, if◌then◌else◌, pos, ℕ_discrete, ok,
}
use weenix_assignment.Fs.File.{Open, nfiles, set_file, set_fd, fget}
use weenix_assignment.Fs.Descriptors.{do_dup2}
use weenix_assignment.Fs.Refs.{points, refs, IsOpen, refs-put, refs-some, fput_lem, fref_lem}

-- `do_dup2` points `nfd` to the file of `ofd`. Every count stays exact but that of the file that `nfd`
-- pointed to before, if `nfd` is another descriptor: it keeps a reference that no descriptor has, for
-- the code never closes `nfd`.
pub do_dup2_lem :
    (s : Open) (ofd nfd f : ℕ)
    → IsOpen s
    → ofd < nfiles
    → nfd < nfiles
    → s.p_files ofd ≡ some f
    → (s' : Open) × (do_dup2 s (pos ofd) (pos nfd) ≡ some (ok nfd, s'))
      × ((i : ℕ) → s'.p_files i ≡ (if nfd == i then some f else s.p_files i))
      × ((g : ℕ)
          → (s'.file g).f_refcount
            ≡ refs nfiles s'.p_files g + (if nfd == ofd then 0 else points (s.p_files nfd) g))
      × ((vn : ℕ) → s'.vn_refcount vn ≡ s.vn_refcount vn)
unfolding do_dup2 fget
do_dup2_lem s ofd nfd f v h k e =
    let many = refs-some nfiles s.p_files ofd f h e in
    let up = fref_lem s f (v.formed f many) in
    let s₁ =
      set_fd (set_file s f (record (s.file f) { f_refcount = (s.file f).f_refcount + 1 })) nfd
        (some f) in
    let more : (g : ℕ)
        → refs nfiles s₁.p_files g + points (s.p_files nfd) g
          ≡ refs nfiles s.p_files g + points (some f) g =
      λ g. ground (arith, refs-put nfiles s.p_files nfd g (some f), k) in
    elim (ℕ_discrete nfd ofd) [
      | yes same ↦
          (let (s', e', fds, files, vnodes) =
              fput_lem s₁ f (ground (arith, v.formed f many)) (ground arith)
                (λ last vn _. absurd (ground (arith, last, v.counted f, many))) in
            let kept : (g : ℕ) → refs nfiles s'.p_files g ≡ refs nfiles s.p_files g =
              λ g. ap (λ table. refs nfiles table g) fds ∙ ground (arith, more g, e, same) in
            (
              s',
              ground (arith, h, k, e, up, same, e'),
              λ i. ap (λ fds. fds i) fds,
              λ g. ground (arith, files g, v.counted g, same, kept g),
              λ vn. ground (arith, vnodes vn, v.counted f, many),
            ))
      | no other ↦ (
        s₁,
        ground (arith, h, k, e, up, other),
        λ i. refl,
        λ g. ground (arith, more g, v.counted g, other),
        λ vn. refl,
      )
    ]
