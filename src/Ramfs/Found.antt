-- ===== src/Ramfs/Found.antt =====
-- What `ramfs_lookup` of kernel/fs/ramfs/ramfs.c finds in a well-formed file system.
use weenix_assignment.Base.{
  sum_term, ℕ, ◌≤◌, ◌<◌, ◌≡◌, ap, ◌∙◌, sym, true, false, none, some, List, [], ◌∷◌, arith, ◌==◌,
  if◌then◌else◌, inl, inr, Option-cases, ok, err, enoent,
}
use weenix_assignment.Ramfs.State.{is_dir, Dirent, Inode, Ramfs, ramfs_max_files, ramfs_max_dirent}
use weenix_assignment.Ramfs.Vnodes.{vget}
use weenix_assignment.Ramfs.Entries.{find_name}
use weenix_assignment.Ramfs.Names.{is_name, ramfs_lookup, mode_is_dir}
use weenix_assignment.Ramfs.First.{name_match-eq}
use weenix_assignment.Ramfs.NameMap.{ino_of, names, find_name_lem, ino_at}
use weenix_assignment.Ramfs.Links.{is_dots, entry_link, contents, dir_links, links, links_same}
use weenix_assignment.Ramfs.Valid.{HasLinks, IsRamfs, Slot-at, relink}
use weenix_assignment.Ramfs.Refs.{Taken, vget_lem}
use weenix_assignment.Ramfs.GiveBack.{Taken-links}

-- The entry `k` of a directory, which has the name and the number.
pub record IsEntry (entries : ℕ → Dirent) (name : List ℕ) (vno k : ℕ) : Type 0 where
  pub high : k < ramfs_max_dirent
  pub found : find_name ramfs_max_dirent entries name 0 ≡ some k
  pub named : (entries k).rd_name ≡ name
  pub number : (entries k).rd_ino ≡ vno

pub names-IsEntry :
    (s : Ramfs) (dir : ℕ) (name : List ℕ) (vno : ℕ) (inode : Inode)
    → s.rfs_inodes dir ≡ some inode
    → names s dir name ≡ some vno
    → (k : ℕ) × IsEntry inode.rf_entries name vno k
unfolding names ino_of
names-IsEntry s dir name vno inode here e =
    let at : ino_at inode.rf_entries (find_name ramfs_max_dirent inode.rf_entries name 0)
        ≡ some vno =
      ground (arith, here, e) in
    elim (find_name_lem inode.rf_entries name) [
      | inl (gone, _) ↦ absurd (ground (arith, sym (ap (ino_at inode.rf_entries) gone) ∙ at))
      | inr (k, found, high, same, _) ↦ (
        k,
        record {
          high = high;
          found = found;
          named = name_match-eq (inode.rf_entries k).rd_name name same;
          number = ground (arith, sym (ap (ino_at inode.rf_entries) found) ∙ at);
        },
      )
    ]

entry_link_name :
    (e : Dirent) (name : List ℕ) (vno ino : ℕ)
    → e.rd_name ≡ name
    → e.rd_ino ≡ vno
    → is_name name ≡ true
    → is_dots name ≡ false
    → entry_link e ino ≡ (if vno == ino then 1 else 0)
entry_link_name e [] vno ino same num h dots = absurd (ground (arith, h))
entry_link_name e (c ∷ name) vno ino same num h dots = ground (arith, same, num, dots)

pub entry_link_lem :
    {entries : ℕ → Dirent} {name : List ℕ} {vno k : ℕ} (ino : ℕ)
    → IsEntry entries name vno k
    → is_name name ≡ true
    → is_dots name ≡ false
    → entry_link (entries k) ino ≡ (if vno == ino then 1 else 0)
entry_link_lem {entries} {name} {vno} {k} ino e h dots =
    entry_link_name (entries k) name vno ino e.named e.number h dots

-- An entry counts among the links.
pub entry-links :
    (s : Ramfs) (dir k ino : ℕ) (inode : Inode)
    → dir < ramfs_max_files
    → k < ramfs_max_dirent
    → s.rfs_inodes dir ≡ some inode
    → entry_link (inode.rf_entries k) ino ≤ links s ino
unfolding links contents
entry-links s dir k ino inode h hk here =
    let term = sum_term ramfs_max_dirent (λ j. entry_link (inode.rf_entries j) ino) k hk in
    let row = sum_term ramfs_max_files (λ d. dir_links (s.rfs_inodes d) ino) dir h in
    let at : dir_links (s.rfs_inodes dir) ino ≡ contents inode.rf_entries ino =
      ap (λ o. dir_links o ino) here in
    omega (arith, term, row, at)

-- A number to which links lead has an inode.
pub linked_inode :
    (s : Ramfs) (l : ℕ → ℕ) (i : ℕ)
    → HasLinks s l
    → 0 < l i
    → (f : Inode) × (s.rfs_inodes i ≡ some f)
linked_inode s l i v h = elim (Option-cases (s.rfs_inodes i)) [
  | inr found ↦ found
  | inl gone ↦ elim (Option-cases (s.vnode i)) [
    | inl idle ↦ absurd (omega (arith, (Slot-at s l i v gone idle).0, h))
    | inr (vn, e) ↦ absurd (Slot-at s l i v gone e)
  ]
]

pub lookup_step :
    (s : Ramfs) (dir k vno : ℕ) (name : List ℕ) (inode : Inode) {s' : Ramfs}
    → s.rfs_inodes dir ≡ some inode
    → is_name name ≡ true
    → IsEntry inode.rf_entries name vno k
    → vget s vno ≡ some s'
    → ramfs_lookup s dir name ≡ some (ok vno, s')
unfolding ramfs_lookup
lookup_step s dir k vno name inode here h e done = ground (arith, here, h, e.found, e.number, done)

-- A name that stands for nothing.
pub lookup_missing :
    (s : Ramfs) (dir : ℕ) (name : List ℕ) (inode : Inode)
    → s.rfs_inodes dir ≡ some inode
    → is_name name ≡ true
    → names s dir name ≡ none
    → (ramfs_lookup s dir name ≡ some (err enoent, s))
      × (find_name ramfs_max_dirent inode.rf_entries name 0 ≡ none)
unfolding ramfs_lookup names ino_of
lookup_missing s dir name inode here h e =
    let at : ino_at inode.rf_entries (find_name ramfs_max_dirent inode.rf_entries name 0) ≡ none =
      ground (arith, here, e) in
    let gone : find_name ramfs_max_dirent inode.rf_entries name 0 ≡ none =
      elim (Option-cases (find_name ramfs_max_dirent inode.rf_entries name 0)) [
        | inl gone ↦ gone
        | inr (k, found) ↦ absurd (ground (arith, sym (ap (ino_at inode.rf_entries) found) ∙ at))
      ] in
    (ground (arith, here, h, gone), gone)

-- A name that stands for an inode: its vnode gets a reference.
pub lookup_lem :
    (s : Ramfs) (dir vno k : ℕ) (name : List ℕ) (inode f : Inode)
    → IsRamfs s
    → s.rfs_inodes dir ≡ some inode
    → is_name name ≡ true
    → IsEntry inode.rf_entries name vno k
    → s.rfs_inodes vno ≡ some f
    → (s' : Ramfs) × (ramfs_lookup s dir name ≡ some (ok vno, s'))
      × IsRamfs s'
      × Taken s s' (links s) vno f
      × ((ino : ℕ) → links s' ino ≡ links s ino)
      × (mode_is_dir s' vno ≡ is_dir f.rf_mode)
lookup_lem s dir vno k name inode f v here h e there =
    let (s', done, t) = vget_lem s (links s) vno f v there in
    let same : (ino : ℕ) → links s' ino ≡ links s ino =
      λ ino. links_same s' s ino (Taken-links s s' (links s) vno ino f there t) in
    let (vn, opened, count) = t.more in
    let q = (Slot-at s' (links s) vno t.valid t.kept.1 opened).1 in
    (
      s',
      lookup_step s dir k vno name inode here h e done,
      relink s' t.valid (λ ino. sym (same ino)),
      t,
      same,
      ground (arith, opened, q.same_mode),
    )
