-- ===== src/Ramfs/Create.antt =====
-- `ramfs_create` and `ramfs_mknod` of kernel/fs/ramfs/ramfs.c add one name to the map of names, for a
-- new inode.
use weenix_assignment.Base.{
  ℕ, ◌+◌, ◌<◌, ◌≡◌, ◌≢◌, refl, ap, ◌∙◌, sym, true, false, ◌&&◌, none, some, List, arith, length,
  ◌==◌, if◌then◌else◌, ◌>>=◌, inl, inr, Option-cases, ℕ_discrete,
}
use mathlib.Core.Path.{subst}
use weenix_assignment.Ramfs.State.{Mode, is_dir, Inode, Ramfs, name_len, set_inode}
use weenix_assignment.Ramfs.Entries.{name_match}
use weenix_assignment.Ramfs.Names.{is_name}
use weenix_assignment.Ramfs.NameMap.{names, ino_of}
use weenix_assignment.Ramfs.Links.{is_dots, contents_free, dir_links, links, links_same}
use weenix_assignment.Ramfs.Valid.{
  root, IsInode, HasLinks, IsRamfs, Slot-at, Apart, update_lem, relink,
}
use weenix_assignment.Ramfs.Room.{fresh, IsRoom}
use weenix_assignment.Ramfs.AddName.{plus_one, Named, added, added_valid, links-added, names-added}

abbrev pub allocated : Ramfs → (ino : ℕ) → Mode → (devid : ℕ) → Ramfs
allocated s ino mode devid = set_inode s ino (some (fresh ino mode devid))

module _ (s : Ramfs) (inode : Inode) (k ino : ℕ) (mode : Mode) (devid : ℕ) (v : IsRamfs s)
    (room : IsRoom s inode k ino) where
  idle : (s.vnode ino ≡ none) × (links s ino ≡ 0) × (0 < ino)
  idle = elim (Option-cases (s.vnode ino)) [
    | inl e ↦
        (let (unlinked, positive) = Slot-at s (links s) ino v room.none_there e in
          (e, unlinked, positive))
    | inr (vn, e) ↦ absurd (Slot-at s (links s) ino v room.none_there e)
  ]

  -- The new inode has its link before the entry is written.
  pub allocated_valid : HasLinks (allocated s ino mode devid) (plus_one (links s) ino)
  allocated_valid =
      let (e, unlinked, positive) = idle in
      let s₁ : Ramfs = allocated s ino mode devid in
      let apart : Apart ino s s₁ = λ j ne. (ground (arith, ne), refl) in
      let p : IsInode ino (plus_one (links s) ino ino) 0 (fresh ino mode devid) = record {
        numbered = refl;
        below = room.below;
        linked = ground (arith, unlinked, positive);
        alive = ground arith;
        unique = λ i j hi hj same used. absurd (used refl);
        plain = λ h j. refl;
        orphan = λ h j. contents_free (fresh ino mode devid).rf_entries j (λ i. refl);
      } in
      update_lem s s₁ (links s) (plus_one (links s) ino) ino {x = some (fresh ino mode devid)}
        {y = none} v apart (λ j ne. ground (arith, ne)) (ground arith) e p

  pub links-allocated : (i : ℕ) → links (allocated s ino mode devid) i ≡ links s i
  links-allocated i =
      let s₁ : Ramfs = allocated s ino mode devid in
      let made : dir_links (s₁.rfs_inodes ino) i ≡ 0 =
        ap (λ o. dir_links o i) new_at
        ∙ contents_free (fresh ino mode devid).rf_entries i (λ j. refl) in
      let was : dir_links (s.rfs_inodes ino) i ≡ 0 = ap (λ o. dir_links o i) room.none_there in
      links_same s₁ s i (λ d. elim (ℕ_discrete ino d) [
        | yes e ↦
            subst (λ d. dir_links (s₁.rfs_inodes d) i ≡ dir_links (s.rfs_inodes d) i) e
              (made ∙ sym was)
        | no ne ↦ ap (λ o. dir_links o i) (ground (arith, ne))
      ])
    where
      new_at : (allocated s ino mode devid).rfs_inodes ino ≡ some (fresh ino mode devid)
      new_at = ground arith

-- A name depends on the inode of its directory alone.
pub names_at :
    (s t : Ramfs) (d : ℕ) (name : List ℕ)
    → s.rfs_inodes d ≡ t.rfs_inodes d
    → names s d name ≡ names t d name
unfolding names
names_at s t d name e = ap (λ o. o >>= λ inode. ino_of inode.rf_entries name) e

-- Where a new name goes: a directory of the tree, which does not have the name.
pub record IsPlace (s : Ramfs) (dir : ℕ) (name : List ℕ) (inode : Inode) : Type 0 where
  pub here : s.rfs_inodes dir ≡ some inode
  pub is : is_dir inode.rf_mode ≡ true
  pub reachable : 0 < links s dir + root dir
  pub named : is_name name ≡ true
  pub no_dots : is_dots name ≡ false
  pub short : length name < name_len
  pub new : names s dir name ≡ none

-- What a new inode with its name leaves.
pub record Made (s s' : Ramfs) (dir ino : ℕ) (name : List ℕ) : Type 0 where
  pub valid : IsRamfs s'
  pub unused : s.rfs_inodes ino ≡ none
  pub names_law : Named s s' dir ino name
  pub links_law : (i : ℕ) → links s' i ≡ plus_one (links s) ino i

-- The entry of an allocated inode, written in a state that differs from the allocation in the inode's
-- references alone.
pub made_lem :
    (s t : Ramfs) (dir k ino size devid : ℕ) (mode : Mode) (name : List ℕ) (inode : Inode)
    → IsRamfs s
    → IsPlace s dir name inode
    → IsRoom s inode k ino
    → HasLinks t (plus_one (links s) ino)
    → Apart ino (allocated s ino mode devid) t
    → ((i : ℕ) → links t i ≡ links s i)
    → (t.rfs_inodes dir ≡ some inode) × Made s (added t dir k ino size name inode) dir ino name
made_lem s t dir k ino size devid mode name inode v place room vt apart same =
    let other : ino ≢ dir = λ e. ground (arith, e, room.none_there, place.here) in
    let at : (d : ℕ) → ino ≢ d → t.rfs_inodes d ≡ s.rfs_inodes d =
      λ d ne. sym (apart d ne).0 ∙ ground (arith, ne) in
    let here : t.rfs_inodes dir ≡ some inode = at dir other ∙ place.here in
    let reach : 0 < plus_one (links s) ino dir + root dir = ground (arith, place.reachable) in
    let new = names_at t s dir name (at dir other) ∙ place.new in
    let valid =
      added_valid t (plus_one (links s) ino) dir k ino size name inode vt here place.is reach
        room.high room.free new place.named in
    let links_law : (i : ℕ)
        → links (added t dir k ino size name inode) i ≡ plus_one (links s) ino i =
      λ i.
        links-added t (plus_one (links s) ino) dir k ino size name inode vt here place.is reach
          room.high room.free new place.named place.no_dots i
        ∙ ap (λ n. n + (if ino == i then 1 else 0)) (same i) in
    (
      here,
      record {
        valid = relink (added t dir k ino size name inode) valid (λ i. sym (links_law i));
        unused = room.none_there;
        names_law = λ d n ne named.
            names-added t (plus_one (links s) ino) dir k ino size name inode vt here place.is reach
              room.high room.free new place.named d n named
            ∙ ap (λ o. if dir == d && name_match name n then some ino else o)
                (names_at t s d n (at d ne));
        links_law = links_law;
      },
    )
