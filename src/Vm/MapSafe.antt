-- ===== src/Vm/MapSafe.antt =====
-- What `vmmap_map` and `do_munmap` promise.
use weenix_assignment.Base.{
  ℕ, ◌+◌, ◌%◌, ◌^◌, ◌≤◌, ◌<◌, ◌≡◌, ◌⊎◌, inl, inr, refl, true, ◌&&◌, ◌||◌, Option, none, some, List,
  [], ◌∷◌, arith, ltb, leb, if◌then◌else◌, add32, set, All, Bool-cases, Option-cases,
}
use weenix_assignment.Vm.Page.{user_low_pn, user_high_pn, addr_to_pn}
use weenix_assignment.Vm.Area.{
  Area, vmmap_lookup, range_free, insert_area, insert_index, vmmap_insert, vmmap_dir_hilo,
}
use weenix_assignment.Vm.Remove.{Effect}
use weenix_assignment.Vm.Valid.{IsArea, IsMap, mapping, page_at}
use weenix_assignment.Vm.Insert.{
  insert_area-SortedFrom, insert_area-lookup, vmmap_is_range_empty_lem, range_free_of_none,
}
use weenix_assignment.Vm.FindRange.{IsGap}
use weenix_assignment.Vm.RemoveLoop.{HasObj}
use weenix_assignment.Vm.Unmap.{vmmap_remove-page_at}
use weenix_assignment.Vm.Map.{
  Objects, MmapOp, map_shared, map_private, choose_obj, new_area, Mapped, place, make_room,
  vmmap_map,
}

-- Giving the inserted area its object afterwards is inserting it with the object.
set-insert_index :
    (areas : List Area) (new : Area) (o : Option ℕ)
    → set (insert_area areas new) (insert_index areas new) (record new { vma_obj = o })
      ≡ insert_area areas (record new { vma_obj = o })
unfolding insert_area insert_index
set-insert_index [] new o = refl
set-insert_index (a ∷ rest) new o = ground (arith, set-insert_index rest new o)

insert_area-HasObj :
    (areas : List Area) (new : Area)
    → All HasObj areas
    → HasObj new
    → All HasObj (insert_area areas new)
unfolding insert_area
insert_area-HasObj [] new objs h = (h, tt)
insert_area-HasObj (a ∷ rest) new objs h =
    ground (arith, objs.0, insert_area-HasObj rest new objs.1 h)

-- The pages of a new area over the rest of the address space.
abbrev pub MappedOver : List Area → Area → List Area → Type 0
MappedOver areas new areas' =
    (v : ℕ)
    → page_at areas' v
      ≡ (if leb new.vma_start v && ltb v new.vma_end then some (mapping new v) else page_at areas v)

-- A call that has chosen the object `o`: the new area carries it, and nothing else is changed.
abbrev pub PlacedWith : List Area → Area → ℕ → Mapped → Type 0
PlacedWith areas new o m =
    IsMap m.areas
    × All HasObj m.areas
    × (m.start ≡ new.vma_start)
    × MappedOver areas (record new { vma_obj = some o }) m.areas

place-PlacedWith :
    (areas : List Area) (objs : Objects) (file : Option MmapOp) (new : Area) (calls : List Effect)
    (objs' : Objects) (o : ℕ)
    → IsMap areas
    → All HasObj areas
    → IsArea new
    → range_free areas new.vma_start new.vma_end ≡ true
    → choose_obj file new new.vma_flags objs ≡ some (objs', o)
    → (m : Mapped) × (place areas objs file new calls ≡ some m)
      × (m.objs ≡ objs')
      × (m.calls ≡ calls)
      × PlacedWith areas new o m
unfolding place vmmap_insert
place-PlacedWith areas objs file new calls objs' o s hold v free chosen =
    let with_obj : Area = record new { vma_obj = some o } in
    let v' : IsArea with_obj = record {
      low = v.low;
      nonempty = v.nonempty;
      high = v.high;
      offsets = v.offsets;
    } in
    (
      record {
        areas = set (insert_area areas new) (insert_index areas new) with_obj;
        objs = objs';
        calls = calls;
        start = new.vma_start;
      },
      ground (arith, v, chosen),
      refl,
      refl,
      (
        rw (set-insert_index areas new (some o))
            (insert_area-SortedFrom user_low_pn areas with_obj s v' v.low free),
        rw (set-insert_index areas new (some o)) (insert_area-HasObj areas with_obj hold refl),
        refl,
        λ x.
            rw (set-insert_index areas new (some o))
              (ground (arith, insert_area-lookup user_low_pn areas with_obj x s v' free)),
      ),
    )

lookup_none : (areas : List Area) (v : ℕ) → page_at areas v ≡ none → vmmap_lookup areas v ≡ none
lookup_none areas v h = elim (Option-cases (vmmap_lookup areas v)) [
  | inl e ↦ e
  | inr (vm, e) ↦ absurd (ground arith)
]

-- What a successful mapping of `npages` pages at `lopage` with the object `o` leaves.
abbrev pub Placed : List Area → (npages prot flags off lopage : ℕ) → Objects → ℕ → Mapped → Type 0
Placed areas npages prot flags off lopage objs' o m =
    (m.objs ≡ objs') × PlacedWith areas (new_area lopage npages prot flags off) o m

-- The outcomes of a mapping at a place that the kernel chooses: -1 if no gap is large enough, and
-- otherwise a mapping at the highest gap.
abbrev pub PlacedAnywhere :
    List Area → Objects → Option MmapOp → (npages prot flags off o : ℕ) → Objects → Type 0
PlacedAnywhere areas objs file npages prot flags off o objs' =
    (vmmap_map areas objs file 0 npages prot flags off vmmap_dir_hilo ≡ some none)
      × ((lo : ℕ) → ¬ IsGap areas npages lo)
    ⊎ ((lo : ℕ) × (m : Mapped) × (vmmap_map areas objs file 0 npages prot flags off vmmap_dir_hilo
          ≡ some (some m))
        × IsGap areas npages lo
        × ((lo' : ℕ) → IsGap areas npages lo' → lo' ≤ lo)
        × Placed areas npages prot flags off lo objs' o m)

module _ (areas : List Area) (objs : Objects) (file : Option MmapOp) (npages prot flags off : ℕ)
    (s : IsMap areas) (hold : All HasObj areas) (pos : 0 < npages)
    (kind : (map_shared flags || map_private flags) ≡ true) (aligned : off % 2 ^ 12 ≡ 0)
    (small : addr_to_pn off + npages < 2 ^ 32) where
  IsArea-at :
      (lopage : ℕ)
      → user_low_pn ≤ lopage
      → lopage + npages ≤ user_high_pn
      → IsArea (new_area lopage npages prot flags off)
  IsArea-at lopage low high = omega arith

  emptied :
      (lopage : ℕ)
      → user_low_pn ≤ lopage
      → lopage + npages ≤ user_high_pn
      → (areas' : List Area) × (calls : List Effect) × (make_room areas lopage npages
          ≡ some (areas', calls))
        × IsMap areas'
        × All HasObj areas'
        × ((v : ℕ)
            → page_at areas' v
              ≡ (if leb lopage v && ltb v (lopage + npages) then none else page_at areas v))
  unfolding make_room
  emptied lopage low high =
      let (empty, e, iff) = vmmap_is_range_empty_lem areas lopage npages s low pos high in
      elim (Bool-cases empty) [
        | inl free ↦
            (areas, [], ground (arith, e, free), s, hold, λ v. ground (arith, iff.0 free v))
        | inr full ↦
            let (areas', calls, e', s', hold', pages) =
              vmmap_remove-page_at areas lopage npages s hold (omega arith) in
            (areas', calls, ground (arith, e, full, e'), s', hold', pages)
      ]

  -- A mapping at a fixed place of user space succeeds. It unmaps what was there, maps the pages of
  -- the range to the chosen object, leaves every other page as it was, and keeps the address space
  -- well-formed.
  pub vmmap_map-fixed :
      (lopage dir o : ℕ) (objs' : Objects)
      → user_low_pn ≤ lopage
      → lopage + npages ≤ user_high_pn
      → choose_obj file (new_area lopage npages prot flags off) flags objs ≡ some (objs', o)
      → (m : Mapped) × (vmmap_map areas objs file lopage npages prot flags off dir ≡ some (some m))
        × Placed areas npages prot flags off lopage objs' o m
  unfolding vmmap_map
  vmmap_map-fixed lopage dir o objs' low high chosen =
      let new = new_area lopage npages prot flags off in
      let v = IsArea-at lopage low high in
      let (areas', calls, e, s', hold', pages) = emptied lopage low high in
      let exact : add32 lopage npages ≡ lopage + npages = omega arith in
      let free : range_free areas' new.vma_start new.vma_end ≡ true =
        range_free_of_none user_low_pn areas' new.vma_start new.vma_end s' v.nonempty
          (λ x p q. lookup_none areas' x (ground (arith, pages x))) in
      let (m, e', eo, ec, placed) =
        place-PlacedWith areas' objs file new calls objs' o s' hold' v free chosen in
      (
        m,
        ground (arith, e, e', exact, kind, pos, aligned),
        (eo, (placed.0, placed.1, placed.2, λ x. ground (arith, placed.3 x, pages x, exact))),
      )
