-- ===== src/Path/MkdirSafe.antt =====
-- What `do_mkdir` of kernel/fs/vfs_syscall.c leaves.
use weenix_assignment.Base.{
  ℕ, ◌+◌, ◌<◌, ◌≡◌, ◌≢◌, ap, ◌∙◌, true, ◌&&◌, Option, none, some, List, [], ◌∷◌, arith, length,
  ◌==◌, if◌then◌else◌, inl, inr, ◌⊎◌, Option-cases, ok, err, enoent, enospc, eexist,
}
use weenix_assignment.Ramfs.State.{Inode, Ramfs}
use weenix_assignment.Ramfs.Vnodes.{vput}
use weenix_assignment.Ramfs.Entries.{name_match}
use weenix_assignment.Ramfs.Names.{is_name}
use weenix_assignment.Ramfs.NameMap.{names}
use weenix_assignment.Ramfs.Links.{links}
use weenix_assignment.Ramfs.Valid.{root, vn_refs}
use weenix_assignment.Ramfs.Refs.{counted}
use weenix_assignment.Ramfs.Found.{lookup_missing}
use weenix_assignment.Ramfs.Create.{IsPlace, Made}
use weenix_assignment.Ramfs.Mkdir.{new_dir, ramfs_mkdir_lem}
use weenix_assignment.Ramfs.Room.{IsFull, NoInode}
use weenix_assignment.Path.Namev.{lookup}
use weenix_assignment.Path.Split.{IsPiece, path_of}
use weenix_assignment.Path.Balance.{Same, Same-names, give_lem, Same-refs}
use weenix_assignment.Path.Resolve.{IsDir, cur_refs, dir_mode, lookup_found}
use weenix_assignment.Path.Calls.{do_mkdir}
use weenix_assignment.Path.MkdirCall.{Reaches, reach, put_dir, mkdir_old_step, mkdir_new_step}

pub piece_name : (name : List ℕ) → IsPiece name → 0 < length name → is_name name ≡ true
piece_name [] clean h = absurd (omega (arith, h))
piece_name (c ∷ name) (ne, clean) h = ground (arith, ne)

-- The lookup of a name that is not there.
pub lookup-none :
    (s₀ s : Ramfs) (v : ℕ) (name : List ℕ)
    → Same s₀ s (cur_refs (some v))
    → IsDir s₀ v
    → is_name name ≡ true
    → names s₀ v name ≡ none
    → lookup s v name ≡ some (err enoent, s)
unfolding lookup
lookup-none s₀ s v name same d named new =
    let (k, at) = same.kept v d.inode d.here in
    let missing =
      lookup_missing s v name (counted d.inode k) at named
        (Same-names s₀ s (cur_refs (some v)) same v name ∙ new) in
    ground
      (arith, dir_mode s₀ s (cur_refs (some v)) v same d (ground (arith, same.refs v)), missing.0)

-- The same place, with references held.
pub IsPlace-Same :
    (s₀ s : Ramfs) (r : ℕ → ℕ) (v : ℕ) (name : List ℕ) (inode : Inode)
    → Same s₀ s r
    → IsPlace s₀ v name inode
    → (k : ℕ) × IsPlace s v name (counted inode k)
IsPlace-Same s₀ s r v name inode same place =
    let (k, at) = same.kept v inode place.here in
    (
      k,
      record {
        here = at;
        is = place.is;
        reachable = omega (arith, place.reachable, same.same_links v);
        named = place.named;
        no_dots = place.no_dots;
        short = place.short;
        new = Same-names s₀ s r same v name ∙ place.new;
      },
    )

-- What is made in the state of a resolved path is made in the state before it, when the reference is
-- given back.
pub Made-Same :
    (s₀ s₁ s₂ : Ramfs) (v ino : ℕ) (name : List ℕ)
    → Same s₀ s₁ (cur_refs (some v))
    → 0 < links s₀ v + root v
    → Made s₁ s₂ v ino name
    → ((w : ℕ) → vn_refs s₂ w ≡ vn_refs s₁ w)
    → (s₃ : Ramfs) × (vput s₂ v ≡ some s₃)
      × Made s₀ s₃ v ino name
      × ((w : ℕ) → vn_refs s₃ w ≡ vn_refs s₀ w)
      × ((d : ℕ) → v ≢ d → s₃.rfs_inodes d ≡ s₂.rfs_inodes d)
Made-Same s₀ s₁ s₂ v ino name same reachable made refs =
    let positive : 0 < vn_refs s₂ v = ground (arith, refs v, same.refs v) in
    let more : 0 < links s₂ v + root v =
      omega (arith, made.links_law v, same.same_links v, reachable) in
    let (s₃, done, valid, still_named, still_linked, fewer, apart) =
      put_dir s₂ v made.valid positive more in
    (
      s₃,
      done,
      record {
        valid = valid;
        unused = elim (Option-cases (s₀.rfs_inodes ino)) [
          | inl gone ↦ gone
          | inr (inode, e) ↦ absurd (ground (arith, (same.kept ino inode e).1, made.unused))
        ];
        names_law = λ d n ne named.
            still_named d n
            ∙ made.names_law d n ne named
            ∙ ap (λ o. if v == d && name_match name n then some ino else o)
                (Same-names s₀ s₁ (cur_refs (some v)) same d n);
        links_law = λ i. omega (arith, still_linked i, made.links_law i, same.same_links i);
      },
      λ w. omega (arith, fewer w, refs w, same.refs w),
      apart,
    )

module _ (s : Ramfs) (p_cwd v : ℕ) (before : Option (List ℕ)) (name : List ℕ) (k : ℕ)
    (p : Reaches s p_cwd v before name k) where
  abbrev path : List ℕ
  path = path_of before name k

  -- A name that stands for an inode: `do_mkdir` returns -EEXIST, and the file system stays as it was.
  pub do_mkdir_exists :
      (vno : ℕ) (f : Inode)
      → names s v name ≡ some vno
      → s.rfs_inodes vno ≡ some f
      → (s' : Ramfs) × (do_mkdir s p_cwd path ≡ some (err eexist, s')) × Same s s' (λ _. 0)
  do_mkdir_exists vno f bound there =
      let (s₁, reached, d, same₁) = reach s p_cwd v before name k p in
      let (s₂, looked, same₂) =
        lookup_found s s₁ (cur_refs (some v)) v vno name f same₁ d (ground (arith, same₁.refs v))
          (piece_name name p.clean p.some_name) bound there in
      let (s₃, given, same₃) =
        give_lem s s₂ (λ w. cur_refs (some v) w + (if vno == w then 1 else 0)) vno f p.valid same₂
          there (ground arith) in
      let same₃' : Same s s₃ (cur_refs (some v)) = Same-refs s s₃ same₃ (λ w. omega arith) in
      let (s₄, given', same₄) =
        give_lem s s₃ (cur_refs (some v)) v d.inode p.valid same₃' d.here (ground arith) in
      (
        s₄,
        mkdir_old_step s p_cwd v vno path name p.some_name reached looked given given',
        Same-refs s s₄ same₄ (λ w. omega arith),
      )

  -- For a path that leads to a directory and ends in a new name, of at most 27 bytes, in a directory
  -- that a link leads to: without a free entry in that directory or a free inode, `do_mkdir` returns
  -- -ENOSPC and leaves the file system as it was; else it makes a new inode of that name, a directory with
  -- "." for itself, ".." for the directory above and no other entry. In each case the file system stays well
  -- formed, no vnode has another number of references, and no other name outside of the new directory
  -- changes.
  pub do_mkdir_new :
      (inode : Inode)
      → IsPlace s v name inode
      → ((s' : Ramfs) × (do_mkdir s p_cwd path ≡ some (err enospc, s'))
          × Same s s' (λ _. 0)
          × (IsFull inode ⊎ NoInode s))
        ⊎ (ino : ℕ) × (s' : Ramfs) × (do_mkdir s p_cwd path ≡ some (ok tt, s'))
          × Made s s' v ino name
          × (s'.rfs_inodes ino ≡ some (new_dir ino v))
          × ((w : ℕ) → vn_refs s' w ≡ vn_refs s w)
  do_mkdir_new inode place =
      let (s₁, reached, d, same) = reach s p_cwd v before name k p in
      let (count, place₁) = IsPlace-Same s s₁ (cur_refs (some v)) v name inode same place in
      let looked = lookup-none s s₁ v name same d place.named place.new in
      elim (ramfs_mkdir_lem s₁ v name (counted inode count) same.valid place₁) [
        | inl (full, cause) ↦
            (let (s₂, given, same₂) =
                give_lem s s₁ (cur_refs (some v)) v d.inode p.valid same d.here (ground arith) in
              inl (
                s₂,
                mkdir_new_step s p_cwd v path name p.some_name reached looked full given,
                Same-refs s s₂ same₂ (λ w. omega arith),
                elim cause [
                  | inl no_entry ↦ inl no_entry
                  | inr no_inode ↦ inr (λ i less. elim (Option-cases (s.rfs_inodes i)) [
                    | inl gone ↦ absurd (ground (arith, same.absent i gone, no_inode i less))
                    | inr (f, e) ↦ ground (arith, e)
                  ])
                ],
              ))
        | inr (ino, s₂, done, made, _, _, vnodes, at) ↦
            (let (s₃, given, made', refs, apart) =
                Made-Same s s₁ s₂ v ino name same place.reachable made
                  (λ w. ap (λ f. elim (f w) [ none ↦ 0 | some vn ↦ vn.vn_refcount ]) vnodes) in
              inr (
                ino,
                s₃,
                mkdir_new_step s p_cwd v path name p.some_name reached looked done given,
                made',
                apart ino (λ e. ground (arith, e, made.unused, place₁.here)) ∙ at,
                refs,
              ))
      ]
