-- ===== src/Ramfs/Link.antt =====
-- `ramfs_link` of kernel/fs/ramfs/ramfs.c adds one name to the map of names, for a file that is there.
use weenix_assignment.Base.{
  ℕ, ◌+◌, ◌<◌, ◌≡◌, ◌≢◌, refl, ap, ◌∙◌, sym, false, none, some, List, [], arith, inl, inr, ◌⊎◌,
  ℕ_discrete, ok, err, enospc,
}
use mathlib.Core.Path.{subst}
use weenix_assignment.Ramfs.State.{is_dir, Inode, Ramfs, ramfs_max_dirent, dirent_size, set_inode}
use weenix_assignment.Ramfs.Entries.{stored}
use weenix_assignment.Ramfs.Names.{set_entry, space_for, ramfs_link}
use weenix_assignment.Ramfs.Links.{contents_free, dir_links, links, links_same}
use weenix_assignment.Ramfs.Valid.{IsRamfs, relink}
use weenix_assignment.Ramfs.Refs.{counted}
use weenix_assignment.Ramfs.Update.{inode_at, count_update}
use weenix_assignment.Ramfs.Room.{IsFull, room_lem, stored_lem}
use weenix_assignment.Ramfs.AddName.{plus_one, Named, added, added_valid, links-added, names-added}
use weenix_assignment.Ramfs.Create.{IsPlace, names_at}

link_step :
    (s : Ramfs) (old dir k : ℕ) (name : List ℕ) (inode f : Inode)
    → space_for s dir name ≡ some (some k)
    → s.rfs_inodes dir ≡ some inode
    → s.rfs_inodes old ≡ some f
    → dir ≢ old
    → stored name ≡ name
    → ramfs_link s old dir name
      ≡ some (
        ok tt,
        set_inode
            (added s dir k old (inode.rf_size + dirent_size) name inode)
            old
            (some (counted f (f.rf_linkcount + 1))),
      )
unfolding ramfs_link set_entry
link_step s old dir k name inode f space here there other whole =
    ground (arith, space, here, there, other, whole)

link_full_step :
    (s : Ramfs) (old dir : ℕ) (name : List ℕ)
    → space_for s dir name ≡ some none
    → ramfs_link s old dir name ≡ some (err enospc, s)
unfolding ramfs_link
link_full_step s old dir name space = ground (arith, space)

module _ (s : Ramfs) (old dir k : ℕ) (name : List ℕ) (inode f : Inode) (v : IsRamfs s)
    (place : IsPlace s dir name inode) (there : s.rfs_inodes old ≡ some f)
    (file : is_dir f.rf_mode ≡ false) (high : k < ramfs_max_dirent)
    (free : (inode.rf_entries k).rd_name ≡ []) where
  abbrev entered : Ramfs
  entered = added s dir k old (inode.rf_size + dirent_size) name inode

  abbrev linked : Ramfs
  linked = set_inode entered old (some (counted f (f.rf_linkcount + 1)))

  other : dir ≢ old
  other = λ e. ground (arith, e, place.here, there, place.is, file)

  old_at : entered.rfs_inodes old ≡ some f
  old_at = ground (arith, other, there)

  linked_links : (i : ℕ) → links linked i ≡ plus_one (links s) old i
  linked_links i =
      let entry =
        links-added s (links s) dir k old (inode.rf_size + dirent_size) name inode v place.here
          place.is place.reachable high free place.new place.named place.no_dots i in
      links_same linked entered i (λ d. elim (ℕ_discrete old d) [
        | yes e ↦
            subst (λ d. dir_links (linked.rfs_inodes d) i ≡ dir_links (entered.rfs_inodes d) i) e
              (ap (λ o. dir_links o i) linked_at ∙ sym (ap (λ o. dir_links o i) old_at))
        | no ne ↦ ap (λ o. dir_links o i) (ground (arith, ne))
      ])
      ∙ entry
    where
      linked_at : linked.rfs_inodes old ≡ some (counted f (f.rf_linkcount + 1))
      linked_at = ground arith

  linked_valid : IsRamfs linked
  linked_valid =
      let q = inode_at s (links s) old f v there in
      let entered_valid =
        added_valid s (links s) dir k old (inode.rf_size + dirent_size) name inode v place.here
          place.is place.reachable high free place.new place.named in
      let valid =
        count_update entered (links s) (plus_one (links s) old) old f (f.rf_linkcount + 1)
          entered_valid old_at (λ j ne. ground (arith, ne)) (ground (arith, q.linked))
          (ground arith) (λ h j. contents_free f.rf_entries j (q.plain file)) in
      relink linked valid (λ i. sym (linked_links i))

  linked_names : Named s linked dir old name
  linked_names d n ne named =
      names_at linked entered d n (ground (arith, ne))
      ∙ names-added s (links s) dir k old (inode.rf_size + dirent_size) name inode v place.here
          place.is place.reachable high free place.new place.named d n named

-- Linking a file under a new name of at most 27 bytes, in a directory of a well-formed file system that
-- a link leads to: without a free entry it is -ENOSPC and nothing changes; else the file has the name
-- and a link more, every other name of a directory stands for what it did, no vnode changes, and the
-- file system is well formed.
pub ramfs_link_lem :
    (s : Ramfs) (old dir : ℕ) (name : List ℕ) (inode f : Inode)
    → IsRamfs s
    → IsPlace s dir name inode
    → s.rfs_inodes old ≡ some f
    → is_dir f.rf_mode ≡ false
    → (ramfs_link s old dir name ≡ some (err enospc, s)) × IsFull inode
      ⊎ (s' : Ramfs) × (ramfs_link s old dir name ≡ some (ok tt, s'))
        × IsRamfs s'
        × Named s s' dir old name
        × ((i : ℕ) → links s' i ≡ plus_one (links s) old i)
        × (s'.vnode ≡ s.vnode)
ramfs_link_lem s old dir name inode f v place there file =
    elim (room_lem s dir name inode place.here place.named place.new) [
      | inl (space, full) ↦ inl (link_full_step s old dir name space, full)
      | inr (k, space, high, free, _) ↦ inr (
        linked s old dir k name inode f v place there file high free,
        link_step s old dir k name inode f space place.here there
            (other s old dir k name inode f v place there file high free)
            (stored_lem name place.short),
        linked_valid s old dir k name inode f v place there file high free,
        linked_names s old dir k name inode f v place there file high free,
        linked_links s old dir k name inode f v place there file high free,
        refl,
      )
    ]
