-- ===== src/Ramfs/Links.antt =====
-- The links of an inode: the entries of kernel/fs/ramfs/ramfs.c that hold its number under a name other
-- than "." and "..".
use weenix_assignment.Base.{
  sum, sum_ext, sum_change, sum_zero, ℕ, zero, suc, ◌+◌, ◌≤◌, ◌<◌, ◌≡◌, ◌≢◌, ap, ◌∙◌, sym, Bool,
  true, ◌||◌, Option, none, some, List, [], arith, ◌==◌, if◌then◌else◌, ℕ_discrete,
}
use weenix_assignment.Ramfs.State.{Dirent, Inode, Ramfs, ramfs_max_files, ramfs_max_dirent, put}
use weenix_assignment.Ramfs.Entries.{name_match, is_free, dot, dot_dot, only_dots}

-- "." and "..".
abbrev pub is_dots : List ℕ → Bool
is_dots name = name_match name dot || name_match name dot_dot

abbrev pub entry_link : Dirent → ℕ → ℕ
entry_link e ino = if is_free e || is_dots e.rd_name then 0 else if e.rd_ino == ino then 1 else 0

unfoldable pub contents : (ℕ → Dirent) → ℕ → ℕ
contents entries ino = sum ramfs_max_dirent (λ j. entry_link (entries j) ino)

abbrev pub dir_links : Option Inode → ℕ → ℕ
dir_links none ino = 0
dir_links (some inode) ino = contents inode.rf_entries ino

unfoldable pub links : Ramfs → ℕ → ℕ
links s ino = sum ramfs_max_files (λ d. dir_links (s.rfs_inodes d) ino)

pub contents-put :
    (entries : ℕ → Dirent) (k : ℕ) (e : Dirent) (ino : ℕ)
    → k < ramfs_max_dirent
    → contents (put entries k e) ino + entry_link (entries k) ino
      ≡ contents entries ino + entry_link e ino
unfolding contents
contents-put entries k e ino h =
    sum_change ramfs_max_dirent (λ j. entry_link (put entries k e j) ino)
      (λ j. entry_link (entries j) ino) k h (λ j other. ground (arith, other))
    ∙ ground arith

-- Two states whose directories hold the same links.
pub links_same :
    (s t : Ramfs) (ino : ℕ)
    → ((d : ℕ) → dir_links (s.rfs_inodes d) ino ≡ dir_links (t.rfs_inodes d) ino)
    → links s ino ≡ links t ino
unfolding links
links_same s t ino same =
    sum_ext ramfs_max_files (λ d. dir_links (s.rfs_inodes d) ino)
      (λ d. dir_links (t.rfs_inodes d) ino) (λ d h. same d)

-- Two states that differ in one directory.
pub links_change :
    (s t : Ramfs) (dir ino : ℕ)
    → dir < ramfs_max_files
    → ((d : ℕ) → dir ≢ d → dir_links (s.rfs_inodes d) ino ≡ dir_links (t.rfs_inodes d) ino)
    → links s ino + dir_links (t.rfs_inodes dir) ino
      ≡ links t ino + dir_links (s.rfs_inodes dir) ino
unfolding links
links_change s t dir ino h same =
    sum_change ramfs_max_files (λ d. dir_links (s.rfs_inodes d) ino)
      (λ d. dir_links (t.rfs_inodes d) ino) dir h same

-- The loop of `ramfs_rmdir` finds the directories without links.
only_dots_lem :
    (n : ℕ) (entries : ℕ → Dirent) (i : ℕ)
    → only_dots n entries i ≡ true
    → (j ino : ℕ) → i ≤ j
    → j < i + n
    → entry_link (entries j) ino ≡ 0
unfolding only_dots
only_dots_lem zero entries i h j ino a b = absurd (omega (arith, a, b))
only_dots_lem (suc n) entries i h j ino a b = elim (ℕ_discrete i j) [
  | yes e ↦ ap (λ k. entry_link (entries k) ino) (sym e) ∙ ground (arith, h)
  | no other ↦
      only_dots_lem n entries (i + 1) (ground (arith, h)) j ino (omega (arith, a, other))
        (omega (arith, b))
]

pub contents_empty :
    (entries : ℕ → Dirent)
    → only_dots ramfs_max_dirent entries 0 ≡ true
    → (ino : ℕ) → contents entries ino ≡ 0
unfolding contents
contents_empty entries h ino =
    sum_zero ramfs_max_dirent (λ j. entry_link (entries j) ino)
      (λ j less. only_dots_lem ramfs_max_dirent entries 0 h j ino (omega arith) less)

free_link : (e : Dirent) (ino : ℕ) → e.rd_name ≡ [] → entry_link e ino ≡ 0
free_link e ino h = ground (arith, h)

pub contents_free :
    (entries : ℕ → Dirent) (ino : ℕ)
    → ((j : ℕ) → (entries j).rd_name ≡ [])
    → contents entries ino ≡ 0
unfolding contents
contents_free entries ino h =
    sum_zero ramfs_max_dirent (λ j. entry_link (entries j) ino)
      (λ j less. free_link (entries j) ino (h j))
