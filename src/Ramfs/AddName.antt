-- ===== src/Ramfs/AddName.antt =====
-- A new name in a free entry of a directory of kernel/fs/ramfs/ramfs.c, and a new inode.
use weenix_assignment.Base.{
  ℕ, ◌+◌, ◌<◌, ◌≡◌, ◌≢◌, refl, ap, ◌∙◌, sym, true, false, ◌&&◌, none, some, List, [], ◌∷◌, arith,
  ◌==◌, if◌then◌else◌, ◌>>=◌, ℕ_discrete,
}
use mathlib.Core.Path.{subst}
use weenix_assignment.Ramfs.State.{is_dir, Dirent, Inode, Ramfs, ramfs_max_dirent, put, set_inode}
use weenix_assignment.Ramfs.Entries.{name_match}
use weenix_assignment.Ramfs.Names.{is_name}
use weenix_assignment.Ramfs.First.{AllFalse, matches, name_match_self}
use weenix_assignment.Ramfs.NameMap.{Unique, names, ino_of, ino_of-put, ino_of-none}
use weenix_assignment.Ramfs.Links.{is_dots, entry_link, dir_links, links}
use weenix_assignment.Ramfs.Valid.{root, used, HasLinks}
use weenix_assignment.Ramfs.Update.{inode_at, dir_update, links-put}

-- One link more of an inode.
abbrev pub plus_one : (ℕ → ℕ) → (ino i : ℕ) → ℕ
plus_one l ino i = l i + (if ino == i then 1 else 0)

-- The map of names with one more name, but for the names in the inode `ino` itself.
abbrev pub Named : Ramfs → Ramfs → (dir ino : ℕ) → List ℕ → Type 0
Named s s' dir ino name =
    (d : ℕ) (other : List ℕ)
    → ino ≢ d
    → is_name other ≡ true
    → names s' d other ≡ (if dir == d && name_match name other then some ino else names s d other)

pub Unique-put :
    (entries : ℕ → Dirent) (k ino : ℕ) (name : List ℕ)
    → Unique entries
    → AllFalse (matches entries name) 0 ramfs_max_dirent
    → Unique (put entries k (record { rd_ino = ino; rd_name = name }))
Unique-put entries k ino name unique new i j hi hj same used = elim (ℕ_discrete k i) [
  | yes e ↦ elim (ℕ_discrete k j) [
    | yes e' ↦ sym e ∙ e'
    | no there ↦
        (let named : name ≡ (entries j).rd_name = ground (arith, e, there, same) in
          absurd (clash (entries j).rd_name named (new j (omega arith) hj)))
  ]
  | no here ↦ elim (ℕ_discrete k j) [
    | yes e ↦
        (let named : name ≡ (entries i).rd_name = ground (arith, e, here, same) in
          absurd (clash (entries i).rd_name named (new i (omega arith) hi)))
    | no there ↦
        unique i j hi hj (ground (arith, here, there, same))
          (λ empty. used (ground (arith, here, empty)))
  ]
]
  where
    clash : (other : List ℕ) → name ≡ other → name_match other name ≡ false → ⊥
    clash other e differ =
        ground (arith, sym (name_match_self name) ∙ ap (λ n. name_match n name) e ∙ differ)

-- A directory with another entry at `k`.
abbrev pub with_entry : Inode → (k : ℕ) → Dirent → (size : ℕ) → Inode
with_entry inode k e size = record inode { rf_entries = put inode.rf_entries k e; rf_size = size }

abbrev pub added : Ramfs → (dir k ino size : ℕ) → List ℕ → Inode → Ramfs
added s dir k ino size name inode =
    set_inode s dir (some (with_entry inode k (record { rd_ino = ino; rd_name = name }) size))

new_link :
    (ino i : ℕ) (name : List ℕ)
    → is_name name ≡ true
    → is_dots name ≡ false
    → entry_link (record { rd_ino = ino; rd_name = name }) i ≡ (if ino == i then 1 else 0)
new_link ino i [] h dots = absurd (ground (arith, h))
new_link ino i (c ∷ name) h dots = ground (arith, dots)

module _ (s : Ramfs) (m : ℕ → ℕ) (dir k ino size : ℕ) (name : List ℕ) (inode : Inode)
    (v : HasLinks s m) (here : s.rfs_inodes dir ≡ some inode) (is : is_dir inode.rf_mode ≡ true)
    (reachable : 0 < m dir + root dir) (high : k < ramfs_max_dirent)
    (free : (inode.rf_entries k).rd_name ≡ []) (new : names s dir name ≡ none)
    (h : is_name name ≡ true) where
  new_entry : ino_of inode.rf_entries name ≡ none
  unfolding names
  new_entry = ap (λ o. o >>= λ inode. ino_of inode.rf_entries name) (sym here) ∙ new

  pub added_valid : HasLinks (added s dir k ino size name inode) m
  added_valid =
      let p = inode_at s m dir inode v here in
      dir_update s m dir inode (put inode.rf_entries k (record { rd_ino = ino; rd_name = name }))
        size v here is
        (Unique-put inode.rf_entries k ino name p.unique
          (ino_of-none inode.rf_entries name new_entry))
        (λ gone. absurd (omega (arith, gone, reachable)))

  pub links-added :
      is_dots name ≡ false
      → (i : ℕ) → links (added s dir k ino size name inode) i ≡ plus_one (links s) ino i
  links-added dots i =
      let p = inode_at s m dir inode v here in
      let e : Dirent = record { rd_ino = ino; rd_name = name } in
      let old : entry_link (inode.rf_entries k) i ≡ 0 = ground (arith, free) in
      let change =
        links-put s (added s dir k ino size name inode) dir k i inode (with_entry inode k e size) e
          p.below high here (ground arith) refl
          (λ d ne. ap (λ o. dir_links o i) (ground (arith, ne))) in
      omega (arith, change, old, new_link ino i name h dots)

  pub names-added :
      (d : ℕ) (other : List ℕ)
      → is_name other ≡ true
      → names (added s dir k ino size name inode) d other
        ≡ (if dir == d && name_match name other then some ino else names s d other)
  unfolding names
  names-added d other named = elim (ℕ_discrete dir d) [
    | no ne ↦ ground (arith, ne)
    | yes e ↦
        (let law = ino_of-put inode.rf_entries k ino name other high free new_entry named in
          let old : names s dir other ≡ ino_of inode.rf_entries other =
            ap (λ o. o >>= λ inode. ino_of inode.rf_entries other) here in
          subst
            (λ d.
              names (added s dir k ino size name inode) d other
              ≡ (if dir == d && name_match name other then some ino else names s d other))
            e (ground (arith, law, old)))
  ]
