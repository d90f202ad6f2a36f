-- ===== src/Vm/Tests.antt =====
-- Address spaces at concrete inputs, and the theorems applied to them.
use weenix_assignment.Base.{
  ℕ, ◌+◌, ◌≡◌, refl, none, some, List, [], ◌∷◌, ◌++◌, arith, All, ◌⊎◌, if◌then◌else◌, Result, ok,
  err, efault,
}
use weenix_assignment.Vm.Page.{pn_to_addr}
use weenix_assignment.Vm.Area.{
  vmmap_clone, Area, covers, vmmap_lookup, range_free, insert_index, vmmap_insert, vmmap_find_range,
  vmmap_dir_hilo, vmmap_dir_lohi,
}
use weenix_assignment.Vm.Remove.{
  Effect, ref_obj, put_obj, tlb_flush_all, pt_unmap_range, remove_loop, remove_step, remove_case,
  overlap, vmmap_remove,
}
use weenix_assignment.Vm.Clone.{unset, vmmap_clone-page_at}
use weenix_assignment.Vm.Valid.{IsMap, page_at}
use weenix_assignment.Vm.Insert.{vmmap_insert_lem}
use weenix_assignment.Vm.FindRange.{HighestGap, vmmap_find_range_hilo}
use weenix_assignment.Vm.RemoveLoop.{HasObj, vmmap_remove-carve}
use weenix_assignment.Vm.Carve.{carve}
use weenix_assignment.Vm.RemoveLoop.{remove_calls}
use weenix_assignment.Vm.Brk.{Break, do_brk}
use weenix_assignment.Vm.BrkSafe.{BrkOutcome, do_brk_lem}
use weenix_assignment.Vm.Access.{Frames, copy_from_user, vmmap_read}
use weenix_assignment.Vm.Perm.{Covered}
use weenix_assignment.Vm.Read.{Loads, Loads-HasObj, bytes_at, vmmap_read-bytes_at}
use weenix_assignment.Vm.Copy.{copy_from_user_aligned, copy_from_user_unaligned}
use weenix_assignment.Vm.Map.{Mapped, vmmap_map, do_munmap, choose_obj, new_area, Objects}
use weenix_assignment.Vm.MapSafe.{Placed, vmmap_map-fixed}
use weenix_assignment.Vm.Munmap.{choose_obj-anon, touches, do_munmap_aligned}

abbrev text_area : Area
text_area = record {
  vma_start = 0x8048;
  vma_end = 0x8050;
  vma_off = 0;
  vma_prot = 5;
  vma_flags = 2;
  vma_obj = some 3;
}

abbrev stack_area : Area
stack_area = record {
  vma_start = 0x9000;
  vma_end = 0x9010;
  vma_off = 0;
  vma_prot = 3;
  vma_flags = 2;
  vma_obj = some 4;
}

abbrev heap_area : Area
heap_area = record {
  vma_start = 0x8050;
  vma_end = 0x8052;
  vma_off = 7;
  vma_prot = 3;
  vma_flags = 2;
  vma_obj = some 5;
}

abbrev two_areas : List Area
two_areas = text_area ∷ stack_area ∷ []

two_areas-IsMap : IsMap two_areas
two_areas-IsMap = omega arith

two_areas-HasObj : All HasObj two_areas
two_areas-HasObj = (refl, (refl, tt))

-- Unmapping the middle of the text splits it, and takes a second reference on its object.
split_text :
    vmmap_remove two_areas 0x804a 2
    ≡ some (
      record text_area { vma_end = 0x804a }
          ∷ record text_area { vma_start = 0x804c; vma_off = 4 }
          ∷ stack_area
          ∷ [],
      ref_obj 3 ∷ tlb_flush_all ∷ pt_unmap_range 0x804a000 0x804c000 ∷ [],
    )
unfolding vmmap_remove remove_loop remove_step remove_case overlap vmmap_insert insert_index
split_text = refl

-- Unmapping both areas drops both references.
unmap_both :
    vmmap_remove two_areas 0x8000 0x2000
    ≡ some ([], put_obj 3 ∷ put_obj 4 ∷ tlb_flush_all ∷ pt_unmap_range 0x8000000 0xa000000 ∷ [])
unfolding split_text
unmap_both = refl

-- The search upwards is not there: it returns -1 in an empty address space.
find_range_lohi : vmmap_find_range [] 1 vmmap_dir_lohi ≡ none
unfolding vmmap_find_range
find_range_lohi = refl

vmmap_insert_lem_example :
    (areas' : List Area) × (vmmap_insert two_areas heap_area ≡ some areas')
    × IsMap areas'
    × ((vfn : ℕ)
        → vmmap_lookup areas' vfn
          ≡ (if covers heap_area vfn then some heap_area else vmmap_lookup two_areas vfn))
unfolding range_free
vmmap_insert_lem_example = vmmap_insert_lem two_areas heap_area two_areas-IsMap (omega arith) refl

vmmap_find_range_hilo_example :
    HighestGap two_areas 16 (vmmap_find_range two_areas 16 vmmap_dir_hilo)
vmmap_find_range_hilo_example =
    vmmap_find_range_hilo two_areas 16 two_areas-IsMap (omega arith) (omega arith)

vmmap_remove-carve_example :
    vmmap_remove two_areas 0x804a 2
    ≡ some (
      carve 0x804a (0x804a + 2) two_areas,
      remove_calls 0x804a (0x804a + 2) two_areas
          ++ tlb_flush_all ∷ pt_unmap_range (pn_to_addr 0x804a) (pn_to_addr (0x804a + 2)) ∷ [],
    )
vmmap_remove-carve_example =
    vmmap_remove-carve two_areas 0x804a 2 two_areas-IsMap two_areas-HasObj (omega arith)

abbrev break : Break
break = record { p_vmmap = heap_area ∷ stack_area ∷ []; p_brk = 0x8052000; p_start_brk = 0x8050010 }

do_brk_lem_example :
    (r : Result ℕ) × (p' : Break) × (calls : List Effect) × (do_brk break 0x8060004
      ≡ some (r, p', calls))
    × BrkOutcome break heap_area 0x8060004 r p'
unfolding vmmap_lookup
do_brk_lem_example =
    do_brk_lem break 0x8060004 heap_area (omega arith) (refl, (refl, tt)) refl (omega arith)
      (omega arith) (omega arith)

abbrev frames : Frames
frames o n = some (λ i. o + n + i)

frames_load : (from to : ℕ) → Loads frames two_areas from to
frames_load = Loads-HasObj frames two_areas two_areas-HasObj (λ o n. refl)

vmmap_read-bytes_at_example :
    vmmap_read frames two_areas 0x8048fff 2 ≡ some (bytes_at frames two_areas 0x8048fff 2)
unfolding vmmap_lookup
vmmap_read-bytes_at_example =
    vmmap_read-bytes_at frames two_areas 0x8048fff 2 two_areas-IsMap two_areas-HasObj (omega arith)
      (λ a p q. ground arith) (frames_load 0x8048fff 0x8049001)

copy_from_user_aligned_example :
    (copy_from_user frames two_areas 0x8048000 2 ≡ some (err efault))
      × (¬ Covered two_areas 0x8048000 (0x8048000 + 2))
    ⊎ (copy_from_user frames two_areas 0x8048000 2
        ≡ some (ok (bytes_at frames two_areas 0x8048000 2)))
      × Covered two_areas 0x8048000 (0x8048000 + 2)
copy_from_user_aligned_example =
    copy_from_user_aligned frames two_areas 0x8048000 2 two_areas-IsMap two_areas-HasObj refl
      (omega arith) (frames_load 0x8048000 0x8048002)

copy_from_user_unaligned_example : copy_from_user frames two_areas 0x804fffe 4 ≡ none
unfolding vmmap_lookup
copy_from_user_unaligned_example =
    copy_from_user_unaligned frames two_areas 0x804fffe 4 two_areas-HasObj (omega arith)
      (omega arith) (omega arith) refl refl

abbrev anon_objs : Objects
anon_objs =
    record { mmo_refcount = 2; mmo_shadowed = none; mmo_bottom_obj = 0 }
    ∷ record { mmo_refcount = 1; mmo_shadowed = some 0; mmo_bottom_obj = 0 }
    ∷ []

anon_chosen : (lopage : ℕ) → choose_obj none (new_area lopage 4 3 10 0) 10 [] ≡ some (anon_objs, 1)
anon_chosen lopage = choose_obj-anon (new_area lopage 4 3 10 0) 10 []

vmmap_map-fixed_example :
    (m : Mapped) × (vmmap_map two_areas [] none 0x804e 4 3 10 0 vmmap_dir_hilo ≡ some (some m))
    × Placed two_areas 4 3 10 0 0x804e anon_objs 1 m
vmmap_map-fixed_example =
    vmmap_map-fixed two_areas [] none 4 3 10 0 two_areas-IsMap two_areas-HasObj (omega arith) refl
      refl (omega arith) 0x804e vmmap_dir_hilo 1 anon_objs (omega arith) (omega arith)
      (anon_chosen 0x804e)

vmmap_clone-page_at_example :
    IsMap (vmmap_clone two_areas)
    × ((vfn : ℕ) → page_at (vmmap_clone two_areas) vfn ≡ unset (page_at two_areas vfn))
vmmap_clone-page_at_example = vmmap_clone-page_at two_areas two_areas-IsMap

do_munmap_aligned_example :
    (areas' : List Area) × (calls : List Effect) × (do_munmap two_areas 0x804a000 0x1001
      ≡ some (ok (areas', calls)))
    × IsMap areas'
    × All HasObj areas'
    × ((v : ℕ)
        → page_at areas' v ≡ (if touches 0x804a000 0x1001 v then none else page_at two_areas v))
do_munmap_aligned_example =
    do_munmap_aligned two_areas 0x804a000 0x1001 two_areas-IsMap two_areas-HasObj refl (omega arith)
      (omega arith) (omega arith)
