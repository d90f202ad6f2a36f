-- ===== src/Vm/Map.antt =====
-- `vmmap_map` of kernel/vm/vmmap.c with `anon_create` and `shadow_create`, and `do_munmap` of
-- kernel/vm/mmap.c. Memory objects stand in a store, and their address is their index; the slab
-- allocator is taken to succeed.
use weenix_assignment.Base.{
  ℕ, ◌+◌, ◌/◌, ◌%◌, ◌^◌, Bool, ◌||◌, Option, none, some, List, [], ◌∷◌, ◌++◌, ltb, leb, ◌==◌,
  if◌then◌else◌, ◌>>=◌, ◌>>◌, kassert, add32, Result, ok, err, einval, set, get_elem?, length,
}
use weenix_assignment.Vm.Page.{
  user_mem_low, user_mem_high, user_low_pn, user_high_pn, addr_to_pn, page_aligned,
}
use weenix_assignment.Vm.Area.{
  Area, insert_index, vmmap_insert, vmmap_find_range, vmmap_is_range_empty,
}
use weenix_assignment.Vm.Remove.{Effect, vmmap_remove}

-- MAP_SHARED, MAP_PRIVATE: the bit `k` of a word of flags.
abbrev pub has_bit : ℕ → ℕ → Bool
has_bit flags k = flags / 2 ^ k % 2 == 1

abbrev pub map_shared : ℕ → Bool
map_shared flags = has_bit flags 0

abbrev pub map_private : ℕ → Bool
map_private flags = has_bit flags 1

-- The members of `mmobj_t` that areas and shadow chains use. `mmo_bottom_obj` is meant only where
-- `mmo_shadowed` is not null.
pub record Mmobj : Type 0 where
  pub mmo_refcount : ℕ
  pub mmo_shadowed : Option ℕ
  pub mmo_bottom_obj : ℕ

abbrev pub Objects : Type 0
Objects = List Mmobj

-- A fresh object with one reference; the result is its address.
unfoldable pub anon_create : Objects → Objects × ℕ
anon_create objs =
    (objs ++ record { mmo_refcount = 1; mmo_shadowed = none; mmo_bottom_obj = 0 } ∷ [], length objs)

-- `shadow_create`, and the two assignments that follow it in `vmmap_map`.
unfoldable pub shadow_over : Objects → (shadowed bottom : ℕ) → Objects × ℕ
shadow_over objs shadowed bottom = (
  objs ++ record { mmo_refcount = 1; mmo_shadowed = some shadowed; mmo_bottom_obj = bottom } ∷ [],
  length objs,
)

-- The macro `mmobj_bottom_obj`; `none` is a dangling pointer.
unfoldable pub mmobj_bottom_obj : Objects → ℕ → Option ℕ
mmobj_bottom_obj objs o = do
  m ← get_elem? objs o
  some (elim m.mmo_shadowed [ none ↦ o | some _ ↦ m.mmo_bottom_obj ])

-- `anon_ref` and `shadow_ref`: one more reference of an object that has one.
unfoldable pub ref : Objects → ℕ → Option Objects
ref objs o = do
  m ← get_elem? objs o
  kassert (ltb 0 m.mmo_refcount)
  some (set objs o (record m { mmo_refcount = m.mmo_refcount + 1 }))

-- What the `mmap` operation of a vnode does: the store and the object, or an error; `vmmap_map`
-- does not look at the error and goes on with an object that was never set.
abbrev pub MmapOp : Type 0
MmapOp = Area → Objects → Option (Objects × ℕ)

-- The object of the new area, under a shadow object if the mapping is private.
unfoldable pub choose_obj : Option MmapOp → Area → (flags : ℕ) → Objects → Option (Objects × ℕ)
unfolding anon_create shadow_over mmobj_bottom_obj ref
choose_obj file vmarea flags objs = do
  (objs', mmobj) ← elim file [ none ↦ some (anon_create objs) | some mmap ↦ mmap vmarea objs ]
  if map_private flags
      then (do
        bottom ← mmobj_bottom_obj objs' mmobj
        let over = shadow_over objs' mmobj bottom
        objs'' ← ref over.0 bottom
        some (objs'', over.1))
      else some (objs', mmobj)

abbrev pub new_area : (lopage npages prot flags off : ℕ) → Area
new_area lopage npages prot flags off = record {
  vma_start = lopage;
  vma_end = add32 lopage npages;
  vma_off = addr_to_pn off;
  vma_prot = prot;
  vma_flags = flags;
  vma_obj = none;
}

-- What `vmmap_map` leaves behind: the areas, the objects, the calls of the removal and the first
-- page of the new area.
pub record Mapped : Type 0 where
  pub areas : List Area
  pub objs : Objects
  pub calls : List Effect
  pub start : ℕ

-- The part behind the choice of the place: the area goes into the list and gets its object.
unfoldable pub place : List Area → Objects → Option MmapOp → Area → List Effect → Option Mapped
unfolding choose_obj
place areas objs file vmarea calls = do
  areas' ← vmmap_insert areas vmarea
  (objs', o) ← choose_obj file vmarea vmarea.vma_flags objs
  some (record {
    areas = set areas' (insert_index areas vmarea) (record vmarea { vma_obj = some o });
    objs = objs';
    calls = calls;
    start = vmarea.vma_start;
  })

-- A fixed place is unmapped first, unless it is free.
unfoldable pub make_room : List Area → (lopage npages : ℕ) → Option (List Area × List Effect)
make_room areas lopage npages = do
  empty ← vmmap_is_range_empty areas lopage npages
  if empty then some (areas, []) else vmmap_remove areas lopage npages

-- The result `some none` is -1; `none` is a failed KASSERT or a fault.
unfoldable pub vmmap_map :
    List Area
    → Objects
    → Option MmapOp
    → (lopage npages prot flags off dir : ℕ) → Option (Option Mapped)
unfolding place
vmmap_map areas objs file lopage npages prot flags off dir = do
  kassert (ltb 0 npages)
  kassert (map_shared flags || map_private flags)
  kassert (lopage == 0 || leb user_low_pn lopage)
  kassert (lopage == 0 || leb (add32 lopage npages) user_high_pn)
  kassert (page_aligned off)
  if lopage == 0
      then (elim (vmmap_find_range areas npages dir) [
        | none ↦ some none
        | some start ↦ (do
          m ← place areas objs file (new_area start npages prot flags off) []
          some (some m))
      ])
      else (do
        (areas', calls) ← make_room areas lopage npages
        m ← place areas' objs file (new_area lopage npages prot flags off) calls
        some (some m))

abbrev pub pages_of : ℕ → ℕ
pages_of len = len / 2 ^ 12 + (if len % 2 ^ 12 == 0 then 0 else 1)

unfoldable pub do_munmap : List Area → (addr len : ℕ) → Option (Result (List Area × List Effect))
do_munmap areas addr len =
    if leb len 0 || ltb user_mem_high len
    then some (err einval)
    else if ltb user_mem_high (add32 len addr) || ltb addr user_mem_low
    then some (err einval)
    else (do
      (areas', calls) ← vmmap_remove areas (addr_to_pn addr) (pages_of len)
      some (ok (areas', calls ++ Effect.tlb_flush_all ∷ [])))
