-- ===== src/Path/Resolve.antt =====
-- `dir_namev` of kernel/fs/namev.c on a path that leads to a directory.
use weenix_assignment.Base.{
  ℕ, ◌+◌, ◌≤◌, ◌<◌, ◌≡◌, refl, ap, ◌∙◌, true, Option, none, some, List, [], ◌∷◌, arith, length,
  ◌==◌, if◌then◌else◌, ◌>>=◌, ok,
}
use weenix_assignment.Ramfs.State.{is_dir, Inode, Vnode, Ramfs, name_len}
use weenix_assignment.Ramfs.Vnodes.{vref, vget}
use weenix_assignment.Ramfs.Names.{is_name, mode_is_dir}
use weenix_assignment.Ramfs.NameMap.{names}
use weenix_assignment.Ramfs.Links.{links}
use weenix_assignment.Ramfs.Valid.{vn_refs, IsRamfs}
use weenix_assignment.Ramfs.Refs.{counted}
use weenix_assignment.Ramfs.Found.{names-IsEntry, lookup_step}
use weenix_assignment.Path.Namev.{
  vfs_root_vn, lookup, vput_node, Walked, visit, starts_slash, res_vnode, named_dir, dir_namev,
}
use weenix_assignment.Path.Split.{IsPiece, front, path_of}
use weenix_assignment.Path.Walk.{pieces, resolve, dir_namev-path_of}
use weenix_assignment.Path.Balance.{
  Same, Same-start, Same-names, in_use, take_lem, give_lem, Same-refs,
}

-- From a directory, the names lead to the directory `v`.
pub data Leads (s : Ramfs) : (dir : ℕ) → List (List ℕ) → (v : ℕ) → Type 0 where
  arrived : {dir : ℕ} → Leads s dir [] dir
  into :
      {dir vno v : ℕ} {name : List ℕ} {rest : List (List ℕ)} (f : Inode)
      → s.rfs_inodes vno ≡ some f
      → is_dir f.rf_mode ≡ true
      → is_name name ≡ true
      → names s dir name ≡ some vno
      → Leads s vno rest v
      → Leads s dir (name ∷ rest) v

-- A directory that can be looked in: its vnode is in use.
pub record IsDir (s : Ramfs) (dir : ℕ) : Type 0 where
  pub inode : Inode
  pub here : s.rfs_inodes dir ≡ some inode
  pub is : is_dir inode.rf_mode ≡ true

abbrev pub cur_refs : Option ℕ → ℕ → ℕ
cur_refs none w = 0
cur_refs (some v) w = if v == w then 1 else 0

pub dir_mode :
    (s₀ s : Ramfs) (r : ℕ → ℕ) (dir : ℕ)
    → Same s₀ s r
    → IsDir s₀ dir
    → 0 < vn_refs s dir
    → mode_is_dir s dir ≡ true
dir_mode s₀ s r dir same d h =
    let (vn, inode, opened, at, mode) = in_use s (links s) dir same.valid h in
    let (k, there) = same.kept dir d.inode d.here in mode ∙ ground (arith, at, there, d.is)

pub lookup_found :
    (s₀ s : Ramfs) (r : ℕ → ℕ) (dir vno : ℕ) (name : List ℕ) (f : Inode)
    → Same s₀ s r
    → IsDir s₀ dir
    → 0 < vn_refs s dir
    → is_name name ≡ true
    → names s₀ dir name ≡ some vno
    → s₀.rfs_inodes vno ≡ some f
    → (s' : Ramfs) × (lookup s dir name ≡ some (ok vno, s'))
      × Same s₀ s' (λ w. r w + (if vno == w then 1 else 0))
unfolding lookup
lookup_found s₀ s r dir vno name f same d h named bound there =
    let (k, at) = same.kept dir d.inode d.here in
    let (i, e) =
      names-IsEntry s dir name vno (counted d.inode k) at
        (Same-names s₀ s r same dir name ∙ bound) in
    let (s', got, same') = take_lem s₀ s r vno f same there in
    let looked = lookup_step s dir i vno name (counted d.inode k) at named e got in
    (s', ground (arith, dir_mode s₀ s r dir same d h, looked), same')

visit_step :
    (next : Ramfs → ℕ → Walked) (s : Ramfs) (dir vno : ℕ) (cur : Option ℕ) (name : List ℕ)
    {s₁ s₂ : Ramfs}
    → lookup s dir name ≡ some (ok vno, s₁)
    → vput_node s₁ cur ≡ some s₂
    → visit next s dir cur name ≡ next s₂ vno
unfolding visit
visit_step next s dir vno cur name looked given = ground (arith, looked, given)

-- The vnode that the loop stands at: it holds the one reference that the loop took, or none.
pub data At (s₀ : Ramfs) (dir : ℕ) : Option ℕ → Type 0 where
  start : 0 < vn_refs s₀ dir → At s₀ dir none
  later : At s₀ dir (some dir)

give_node :
    (s₀ s : Ramfs) (dir vno : ℕ) (cur : Option ℕ)
    → IsRamfs s₀
    → At s₀ dir cur
    → IsDir s₀ dir
    → Same s₀ s (λ w. cur_refs cur w + (if vno == w then 1 else 0))
    → (s' : Ramfs) × (vput_node s cur ≡ some s') × Same s₀ s' (cur_refs (some vno))
unfolding vput_node
give_node s₀ s dir vno none v₀ (start h) d same = (s, refl, Same-refs s₀ s same (λ w. omega arith))
give_node s₀ s dir vno (some _) v₀ later d same =
    let (s', done, same') =
      give_lem s₀ s (λ w. cur_refs (some dir) w + (if vno == w then 1 else 0)) dir d.inode v₀ same
        d.here (ground arith) in
    (s', done, Same-refs s₀ s' same' (λ w. omega arith))

held :
    (s₀ s : Ramfs) (dir : ℕ) (cur : Option ℕ)
    → At s₀ dir cur
    → Same s₀ s (cur_refs cur)
    → 0 < vn_refs s dir
held s₀ s dir none (start h) same = omega (arith, same.refs dir, h)
held s₀ s dir (some _) later same = ground (arith, same.refs dir)

-- The lookups of names that lead to a directory succeed and leave one reference of the last vnode.
resolve_lem :
    (s₀ s : Ramfs) (dir v : ℕ) (cur : Option ℕ) (rest : List (List ℕ))
    → IsRamfs s₀
    → Leads s₀ dir rest v
    → At s₀ dir cur
    → IsDir s₀ dir
    → Same s₀ s (cur_refs cur)
    → (end : Option ℕ) × (s' : Ramfs) × (resolve s dir cur rest ≡ some (ok (v, end), s'))
      × At s₀ v end
      × IsDir s₀ v
      × Same s₀ s' (cur_refs end)
unfolding resolve
resolve_lem s₀ s dir _ cur _ v₀ arrived at d same = (cur, s, refl, at, d, same)
resolve_lem s₀ s dir v cur _ v₀ (into {vno} {name} {rest} f there is named bound leads) at d same =
    let (s₁, looked, same₁) =
      lookup_found s₀ s (cur_refs cur) dir vno name f same d (held s₀ s dir cur at same) named bound
        there in
    let (s₂, given, same₂) = give_node s₀ s₁ dir vno cur v₀ at d same₁ in
    let (end, s', done, at', d', same') =
      resolve_lem s₀ s₂ vno v (some vno) rest v₀ leads later
        (record { inode = f; here = there; is = is }) same₂ in
    (
      end,
      s',
      visit_step (λ s' vno. resolve s' vno (some vno) rest) s dir vno cur name looked given ∙ done,
      at',
      d',
      same',
    )

vref-vget : (s : Ramfs) (v : ℕ) (vn : Vnode) → s.vnode v ≡ some vn → vref s v ≡ vget s v
unfolding vget
vref-vget s v vn e = ground (arith, e)

res_vnode_lem :
    (s₀ s : Ramfs) (v : ℕ) (end : Option ℕ)
    → At s₀ v end
    → IsDir s₀ v
    → Same s₀ s (cur_refs end)
    → (s' : Ramfs) × (res_vnode s (v, end) ≡ some (ok v, s')) × Same s₀ s' (cur_refs (some v))
unfolding res_vnode
res_vnode_lem s₀ s v none (start h) d same =
    let (vn, _, opened, _, _) = in_use s (links s) v same.valid (omega (arith, same.refs v, h)) in
    let (s', done, same') =
      take_lem s₀ s (λ _. 0) v d.inode (Same-refs s₀ s same (λ w. refl)) d.here in
    (
      s',
      ap (λ o. o >>= λ s'. some (ok v, s')) (vref-vget s v vn opened ∙ done),
      Same-refs s₀ s' same' (λ w. omega arith),
    )
res_vnode_lem s₀ s v (some _) later d same =
    let positive : 0 < vn_refs s v = ground (arith, same.refs v) in
    (s, ground (arith, dir_mode s₀ s (cur_refs (some v)) v same d positive), same)

named_dir_step :
    (name : List ℕ) (dir v : ℕ) (end : Option ℕ) (walked : Walked) {s s' : Ramfs}
    → walked ≡ some (ok (v, end), s)
    → res_vnode s (v, end) ≡ some (ok v, s')
    → named_dir name walked ≡ some (ok (v, name), s')
unfolding named_dir
named_dir_step name dir v end walked e done = ground (arith, e, done)

-- Where a path starts: its directory is in use.
abbrev pub start_dir : (p_cwd : ℕ) → List ℕ → ℕ
start_dir p_cwd path = if starts_slash path then vfs_root_vn else p_cwd

-- A path whose front leads to a directory, in a well-formed file system, with the directory that it
-- starts from in use: `dir_namev` gives that directory and the last name, and leaves the file system as
-- it was but for one more reference of the directory.
pub dir_namev_lem :
    (s : Ramfs) (p_cwd v : ℕ) (before : Option (List ℕ)) (name : List ℕ) (k : ℕ)
    → IsRamfs s
    → IsPiece name
    → 0 < length name
    → length name ≤ name_len
    → IsDir s (start_dir p_cwd (path_of before name k))
    → 0 < vn_refs s (start_dir p_cwd (path_of before name k))
    → Leads s (start_dir p_cwd (path_of before name k)) (pieces (front before)) v
    → (s' : Ramfs) × (dir_namev s p_cwd (path_of before name k) ≡ some (ok (v, name), s'))
      × IsDir s v
      × Same s s' (cur_refs (some v))
dir_namev_lem s p_cwd v before name k valid clean some_name short d positive leads =
    let dir = start_dir p_cwd (path_of before name k) in
    let cut = dir_namev-path_of s p_cwd before name k clean some_name ∙ ground (arith, short) in
    let same = Same-refs s s (Same-start s valid) (λ w. refl) in
    let (end, s₁, walked, at, d', same₁) =
      resolve_lem s s dir v none (pieces (front before)) valid leads (start positive) d same in
    let (s₂, done, same₂) = res_vnode_lem s s₁ v end at d' same₁ in
    (
      s₂,
      cut ∙ named_dir_step name dir v end (resolve s dir none (pieces (front before))) walked done,
      d',
      same₂,
    )
