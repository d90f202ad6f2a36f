-- ===== src/Fs/Tests.antt =====
-- A descriptor table with two open files on which the theorems are applied.
use weenix_assignment.Base.{
  ℕ, ◌+◌, ◌≡◌, ◌≢◌, refl, true, false, ◌&&◌, none, some, arith, ◌==◌, if◌then◌else◌, pos, ok,
}
use weenix_assignment.Fs.File.{Open, nfiles}
use weenix_assignment.Fs.Descriptors.{do_close, do_dup2}
use weenix_assignment.Fs.Refs.{points, refs, IsOpen}
use weenix_assignment.Fs.Close.{do_close_lem}
use weenix_assignment.Fs.Dup.{do_dup2_lem}

-- File 100 on descriptors 0 and 2, file 200 on descriptor 1.
abbrev two_files : Open
two_files = record {
  file = λ f.
      if f == 100
      then record { f_pos = pos 7; f_mode = 3; f_refcount = 2; f_vnode = some 5 }
      else (if f == 200
          then record { f_pos = pos 0; f_mode = 1; f_refcount = 1; f_vnode = some 6 }
          else record { f_pos = pos 0; f_mode = 0; f_refcount = 0; f_vnode = none });
  p_files = λ fd.
      if fd == 0
      then some 100
      else (if fd == 1 then some 200 else (if fd == 2 then some 100 else none));
  vn_refcount = λ vn. 3;
  vn_nrespages = λ vn. 2;
  query_vnode = λ vn. false;
}

two_files-IsOpen : IsOpen two_files
unfolding refs
two_files-IsOpen = record {
  counted = λ f. ground arith;
  formed = λ f h. (ground (arith, h), ground (arith, h), ground (arith, h));
}

do_close_lem_example :
    (s' : Open) × (do_close two_files (pos 1) ≡ some (ok tt, s'))
    × IsOpen s'
    × ((i : ℕ) → s'.p_files i ≡ (if 1 == i then none else two_files.p_files i))
    × ((s'.file 200).f_refcount + 1 ≡ (two_files.file 200).f_refcount)
    × ((g : ℕ) → 200 ≢ g → s'.file g ≡ two_files.file g)
    × ((v : ℕ) → s'.vn_refcount v ≡ (if true && (points (some 6) v == 1) then 0 else 3))
do_close_lem_example =
    do_close_lem two_files 1 200 two_files-IsOpen (ground arith) refl (λ last vn e. omega arith)

do_dup2_lem_example :
    (s' : Open) × (do_dup2 two_files (pos 0) (pos 1) ≡ some (ok 1, s'))
    × ((i : ℕ) → s'.p_files i ≡ (if 1 == i then some 100 else two_files.p_files i))
    × ((g : ℕ) → (s'.file g).f_refcount ≡ refs nfiles s'.p_files g + points (some 200) g)
    × ((vn : ℕ) → s'.vn_refcount vn ≡ two_files.vn_refcount vn)
do_dup2_lem_example =
    do_dup2_lem two_files 0 1 100 two_files-IsOpen (ground arith) (ground arith) refl
