-- ===== src/Mm/FrameTests.antt =====
-- Lookups of pages in a shadow object over an anonymous object.
use weenix_assignment.Base.{
  ℕ, suc, ◌<◌, ◌≡◌, refl, Bool, true, false, Option, none, some, List, [], ◌∷◌, arith, sum,
  sum_term, sum_over, ◌==◌, if◌then◌else◌,
}
use weenix_assignment.Mm.Frames.{
  Frames, Mmobj, anon_object, shadow_object, vnode_object, Supply, Got, found, resident, find_frame,
  zeros, shadow_read, shadow_write, hash_page, pframe_get, pframe_fill, fill_again, get_filled,
  vreadpage, pframe_get_resident, pframe_alloc, enter_frame, object_ref, touch, vlookuppage,
  list_remove,
}
use weenix_assignment.Mm.Frames.Lookup.{NotIn, IsNew}
use weenix_assignment.Mm.Frames.Seen.{IsChain, seen}
use weenix_assignment.Mm.Frames.Read.{shadow_read_lem}
use weenix_assignment.Mm.Frames.Write.{shadow_write_lem}

-- A number above all those in the hash chains.
abbrev total_of : List ℕ → ℕ
total_of l = sum_over (λ x. x) l

unused : Frames → ℕ
unused s = suc (sum 17 (λ k. total_of (s.pframe_hash k)))

above_all : (i : ℕ) (l : List ℕ) → total_of l < i → NotIn i l
above_all i [] h = tt
above_all i (x ∷ l) h = (λ e. absurd (omega (arith, e, h)), above_all i l (omega (arith, h)))

unused_IsNew : (s : Frames) → IsNew s (unused s)
unfolding unused
unused_IsNew s o pagenum =
    above_all (suc (sum 17 (λ k. total_of (s.pframe_hash k)))) (s.pframe_hash (hash_page o pagenum))
      (omega
        (arith, sum_term 17 (λ k. total_of (s.pframe_hash k)) (hash_page o pagenum) (omega arith)))

abbrev supply : Supply
supply = record {
  new_frame = λ s. some (unused s);
  vn_len = λ o. 8192;
  vnode_fillpage = λ o n. none;
}

-- Object 1 is anonymous, object 2 shadows it, object 3 is that of a vnode.
abbrev objects : ℕ → Mmobj
objects o = record {
  mmo_ops = if o == 2 then shadow_object else if o == 3 then vnode_object else anon_object;
  mmo_refcount = 1;
  mmo_nrespages = 0;
  mmo_respages = [];
  mmo_bottom_obj = 1;
  mmo_shadowed = if o == 2 then some 1 else none;
}

abbrev empty : Frames
empty = record {
  pframe = λ i. record {
    pf_obj = none;
    pf_pagenum = 0;
    pf_busy = false;
    pf_dirty = false;
    pf_pincount = 0;
    pf_bytes = λ k. 165;
  };
  mmobj = objects;
  pframe_hash = λ k. [];
  alloc_list = [];
  nallocated = 0;
  pinned_list = [];
  npinned = 0;
}

empty-IsChain : IsChain 1 empty 2 1
unfolding IsChain
empty-IsChain = (1, refl, refl, refl, (refl, refl, refl))

empty-resident : resident empty 2 5 ≡ none
unfolding resident find_frame
empty-resident = refl

shadow_write_lem_example :
    (k : ℕ) × (t : Frames) × (sight : ℕ → ℕ) × (shadow_write 2 supply 2 5 empty ≡ some (found k, t))
    × (resident t 2 5 ≡ some k)
    × ((t.pframe k).pf_bytes ≡ sight)
    × ((t.pframe k).pf_dirty ≡ true)
    × (seen 1 supply empty 2 5 ≡ some sight)
    × (seen 1 supply t 2 6 ≡ seen 1 supply empty 2 6)
shadow_write_lem_example =
    shadow_write_lem supply empty 0 2 2 1 5 1 2 1 6 zeros empty-IsChain empty-IsChain (omega arith)
      empty-resident (λ i. refl) refl (omega arith) (omega arith)
      (λ v. (unused v, refl, unused_IsNew v))

shadow_read_lem_example :
    (k : ℕ) × (t : Frames) × (sight : ℕ → ℕ) × (shadow_read 2 supply 2 5 empty ≡ some (found k, t))
    × ((t.pframe k).pf_bytes ≡ sight)
    × ((t.pframe k).pf_busy ≡ false)
    × (seen 1 supply empty 2 5 ≡ some sight)
    × (seen 1 supply t 2 6 ≡ seen 1 supply empty 2 6)
shadow_read_lem_example =
    shadow_read_lem supply empty 0 2 2 1 5 (unused empty) 1 2 6 zeros empty-IsChain (omega arith)
      (λ i. refl) refl (omega arith) refl (unused_IsNew empty)

-- The file system cannot read page 1 of object 3. The first call reports the error, and leaves a frame
-- with what was in it before. The second call finds that frame.
abbrev kind_of : Option (Got × Frames) → Option Bool
kind_of none = none
kind_of (some (found i, s)) = some true
kind_of (some (_, s)) = some false

abbrev state_of : Option (Got × Frames) → Frames
state_of none = empty
state_of (some (_, s)) = s

fails_first : kind_of (vlookuppage supply 3 1 empty) ≡ some false
unfolding vlookuppage pframe_get pframe_get_resident resident find_frame pframe_alloc enter_frame
    object_ref get_filled pframe_fill fill_again vreadpage unused sum
fails_first = refl

found_then : kind_of (vlookuppage supply 3 1 (state_of (vlookuppage supply 3 1 empty))) ≡ some true
unfolding vlookuppage pframe_get pframe_get_resident resident find_frame pframe_alloc enter_frame
    object_ref get_filled pframe_fill fill_again vreadpage unused sum touch list_remove
found_then = refl
