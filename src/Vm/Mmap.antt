-- ===== src/Vm/Mmap.antt =====
-- `do_mmap` of kernel/vm/mmap.c, over the open files, the memory objects and the areas of a process.
use weenix_assignment.Base.{
  ℕ, Bool, not, ◌&&◌, ◌||◌, Option, none, some, List, [], ◌∷◌, ◌++◌, ltb, ◌==◌, if◌then◌else◌,
  ◌>>=◌, add32, ℤ, pos, negsuc, Result, ok, err, einval, ebadf, eacces, eperm,
}
use weenix_assignment.Vm.Page.{user_mem_high, addr_to_pn, pn_to_addr, page_aligned}
use weenix_assignment.Vm.Area.{Area, vmmap_dir_hilo}
use weenix_assignment.Vm.Remove.{Effect}
use weenix_assignment.Vm.Map.{
  has_bit, map_shared, map_private, Objects, MmapOp, vmmap_map, pages_of,
}
use weenix_assignment.Fs.File.{Open, fget, fput}

pub record Space : Type 0 where
  pub p_vmmap : List Area
  pub objs : Objects
  pub files : Open

-- FMODE_WRITE
abbrev pub can_write : ℕ → Bool
can_write mode = has_bit mode 1

-- The file to map, with a reference: `ok none` for an anonymous mapping. The code tests for -1 first;
-- for the other negative descriptors `fget` gives NULL, with the same result.
unfoldable pub mmap_file : Open → (prot flags : ℕ) → (fd : ℤ) → Option (Result (Option ℕ) × Open)
mmap_file s prot flags fd = if has_bit flags 3 then some (ok none, s) else (elim fd [
  | negsuc _ ↦ some (err ebadf, s)
  | pos n ↦ (do
    (file, s') ← fget s (pos n)
    elim file [
      | none ↦ some (err ebadf, s')
      | some f ↦
          if not (map_private flags) && (has_bit prot 1 && not (can_write (s'.file f).f_mode))
          then (do s'' ← fput s' f; some (err eacces, s''))
          else some (ok (some f), s')
    ])
])

-- The refusals at the head of the function.
unfoldable pub mmap_invalid : (addr len flags off : ℕ) → Bool
mmap_invalid addr len flags off =
    not (page_aligned off)
    || (not (addr == 0) && not (page_aligned addr))
    || len == 0
    || not (map_shared flags || map_private flags)
    || ltb user_mem_high (add32 addr len)
    || (addr == 0 && has_bit flags 2)

-- The vnode of a file, with the `mmap` operation that it has.
unfoldable pub mmap_op : (ℕ → MmapOp) → Open → Option ℕ → Option MmapOp
mmap_op ops s none = none
mmap_op ops s (some f) = elim (s.file f).f_vnode [ none ↦ none | some vn ↦ some (ops vn) ]

unfoldable pub put_file : Open → Option ℕ → Option Open
put_file s none = some s
put_file s (some f) = fput s f

-- A result of -1 of `vmmap_map` is returned as it is (it reads as -EPERM), without the `fput`.
unfoldable pub do_mmap :
    (ops : ℕ → MmapOp)
    → Space
    → (addr len prot flags : ℕ) → (fd : ℤ) → (off : ℕ) → Option (Result ℕ × Space × List Effect)
do_mmap ops s addr len prot flags fd off =
    if mmap_invalid addr len flags off then some (err einval, s, []) else (do
      (src, files) ← mmap_file s.files prot flags fd
      elim src [
        | err e ↦ some (err e, record s { files = files }, [])
        | ok file ↦ (do
          mapped ←
              vmmap_map s.p_vmmap s.objs (mmap_op ops files file)
                (if addr == 0 then 0 else addr_to_pn addr) (pages_of len) prot flags off
                vmmap_dir_hilo
          elim mapped [
            | none ↦ some (err eperm, record s { files = files }, [])
            | some m ↦ (do
              files' ← put_file files file
              some (
                ok (pn_to_addr m.start),
                record { p_vmmap = m.areas; objs = m.objs; files = files' },
                m.calls ++ Effect.tlb_flush_all ∷ [],
              ))
          ])
      ])
