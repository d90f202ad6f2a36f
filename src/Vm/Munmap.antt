-- ===== src/Vm/Munmap.antt =====
-- `do_munmap`, and the objects that an anonymous mapping creates.
use weenix_assignment.Base.{
  ℕ, ◌+◌, ◌*◌, ◌%◌, ◌^◌, ◌≤◌, ◌<◌, ◌≡◌, Bool, ◌&&◌, none, some, List, [], ◌∷◌, ◌++◌, arith, ltb,
  if◌then◌else◌, ok, length, All, length-append, get_elem?-append, set-append,
}
use weenix_assignment.Vm.Page.{user_mem_low, user_mem_high, addr_to_pn}
use mathlib.Core.List.{append_assoc}
use weenix_assignment.Vm.Area.{Area}
use weenix_assignment.Vm.Remove.{Effect, tlb_flush_all}
use weenix_assignment.Vm.Valid.{IsMap, page_at}
use weenix_assignment.Vm.RemoveLoop.{HasObj}
use weenix_assignment.Vm.Unmap.{vmmap_remove-page_at}
use weenix_assignment.Vm.Map.{Mmobj, Objects, map_private, choose_obj, pages_of, do_munmap}

-- The page `v` holds a byte of the `len` bytes from `addr` on.
abbrev pub touches : (addr len v : ℕ) → Bool
touches addr len v = ltb addr ((v + 1) * 2 ^ 12) && ltb (v * 2 ^ 12) (addr + len)

-- For a page-aligned address and a length that stay within user space, `do_munmap` succeeds, keeps
-- the address space well-formed, and unmaps exactly the pages that hold a byte of the range.
pub do_munmap_aligned :
    (areas : List Area) (addr len : ℕ)
    → IsMap areas
    → All HasObj areas
    → addr % 2 ^ 12 ≡ 0
    → 0 < len
    → user_mem_low ≤ addr
    → addr + len ≤ user_mem_high
    → (areas' : List Area) × (calls : List Effect) × (do_munmap areas addr len
        ≡ some (ok (areas', calls)))
      × IsMap areas'
      × All HasObj areas'
      × ((v : ℕ) → page_at areas' v ≡ (if touches addr len v then none else page_at areas v))
unfolding do_munmap
do_munmap_aligned areas addr len s hold aligned pos low high =
    let (areas', calls, e, s', hold', pages) =
      vmmap_remove-page_at areas (addr_to_pn addr) (pages_of len) s hold (ground arith) in
    (
      areas',
      calls ++ tlb_flush_all ∷ [],
      ground (arith, e),
      s',
      hold',
      λ v. ground (arith, pages v),
    )

-- The objects of an anonymous mapping. A shared one gets a new object of its own. A private one gets
-- a shadow object over a new object at the bottom, which the two pointers of the shadow object hold.
pub choose_obj-anon :
    (vmarea : Area) (flags : ℕ) (objs : Objects)
    → choose_obj none vmarea flags objs ≡ (
        if map_private flags
        then some (
          objs
              ++ record { mmo_refcount = 2; mmo_shadowed = none; mmo_bottom_obj = 0 }
                ∷ record {
                  mmo_refcount = 1;
                  mmo_shadowed = some (length objs);
                  mmo_bottom_obj = length objs;
                }
                ∷ [],
          length objs + 1,
        )
        else some (
          objs ++ record { mmo_refcount = 1; mmo_shadowed = none; mmo_bottom_obj = 0 } ∷ [],
          length objs,
        ))
unfolding choose_obj
choose_obj-anon vmarea flags objs =
    let anon : Mmobj = record { mmo_refcount = 1; mmo_shadowed = none; mmo_bottom_obj = 0 } in
    let anon' : Mmobj = record { mmo_refcount = 2; mmo_shadowed = none; mmo_bottom_obj = 0 } in
    let over : Mmobj = record {
      mmo_refcount = 1;
      mmo_shadowed = some (length objs);
      mmo_bottom_obj = length objs;
    } in
    ground (
      arith,
      get_elem?-append objs [] anon,
      append_assoc objs (anon ∷ []) (over ∷ []),
      get_elem?-append objs (over ∷ []) anon,
      set-append objs (over ∷ []) anon anon',
      length-append objs (anon ∷ []),
    )
