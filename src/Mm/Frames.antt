-- ===== src/Mm/Frames.antt =====
-- The page frames of kernel/mm/pframe.c, with the memory objects that own them. A frame and an object
-- are named by their addresses. `none` is a failed KASSERT.
pub mod Lookup
pub mod Enter
pub mod Seen
pub mod Read
pub mod Copy
pub mod Write
use weenix_assignment.Base.{
  ℕ, zero, suc, ◌+◌, ◌-◌, ◌*◌, ◌%◌, ◌^◌, Bool, true, false, not, ◌&&◌, Option, none, some, List, [],
  ◌∷◌, ◌++◌, ◌==◌, leb, if◌then◌else◌, ◌>>=◌, ◌>>◌, kassert, put, is_some,
}

-- The types of objects, one for each table of operations.
pub data ObjectKind : Type 0 where
  anon_object shadow_object vnode_object : ObjectKind

-- `mmobj_t`
pub record Mmobj : Type 0 where
  pub mmo_ops : ObjectKind
  pub mmo_refcount : ℕ
  pub mmo_nrespages : ℕ
  pub mmo_respages : List ℕ
  pub mmo_bottom_obj : ℕ
  pub mmo_shadowed : Option ℕ

-- `pframe_t`, with the two flags and the bytes of the page. A free frame has no object.
pub record Pframe : Type 0 where
  pub pf_obj : Option ℕ
  pub pf_pagenum : ℕ
  pub pf_busy : Bool
  pub pf_dirty : Bool
  pub pf_pincount : ℕ
  pub pf_bytes : ℕ → ℕ

pub record Frames : Type 0 where
  pub pframe : ℕ → Pframe
  pub mmobj : ℕ → Mmobj
  pub pframe_hash : ℕ → List ℕ
  pub alloc_list : List ℕ
  pub nallocated : ℕ
  pub pinned_list : List ℕ
  pub npinned : ℕ

abbrev pub set_frame : Frames → ℕ → Pframe → Frames
set_frame s i f = record s { pframe = put s.pframe i f }

abbrev pub set_object : Frames → ℕ → Mmobj → Frames
set_object s o x = record s { mmobj = put s.mmobj o x }

-- `list_remove`
unfoldable pub list_remove : ℕ → List ℕ → List ℕ
list_remove i [] = []
list_remove i (j ∷ l) = let rest = list_remove i l in if i == j then rest else j ∷ rest

-- What the allocators give for a new frame, if they do; the length of the file behind the object of a
-- vnode, and what its file system reads for a page of it, unless that fails.
pub record Supply : Type 0 where
  pub new_frame : Frames → Option ℕ
  pub vn_len : ℕ → ℕ
  pub vnode_fillpage : ℕ → ℕ → Option (ℕ → ℕ)

abbrev pub is_pinned : Pframe → Bool
is_pinned f = not (f.pf_pincount == 0)

-- `hash_page`
abbrev pub hash_page : ℕ → ℕ → ℕ
hash_page o pagenum = (o + pagenum) % 2 ^ 32 % 17

-- Is this the frame of a page?
abbrev pub owned_by : Option ℕ → ℕ → Bool
owned_by none o = false
owned_by (some p) o = o == p

abbrev pub identifies : Pframe → ℕ → ℕ → Bool
identifies f o pagenum = owned_by f.pf_obj o && pagenum == f.pf_pagenum

-- The loop of `pframe_get_resident` along a hash chain.
unfoldable pub find_frame : Frames → ℕ → ℕ → List ℕ → Option ℕ
find_frame s o pagenum [] = none
find_frame s o pagenum (i ∷ chain) =
    let rest = find_frame s o pagenum chain in
    if identifies (s.pframe i) o pagenum then some i else rest

unfoldable pub resident : Frames → ℕ → ℕ → Option ℕ
resident s o pagenum = find_frame s o pagenum (s.pframe_hash (hash_page o pagenum))

-- A frame that is not pinned goes to the back of the list of allocated frames.
unfoldable pub touch : Frames → ℕ → Frames
touch s i =
    if is_pinned (s.pframe i)
    then s
    else record s { alloc_list = list_remove i s.alloc_list ++ i ∷ [] }

-- `pframe_get_resident`
unfoldable pub pframe_get_resident : ℕ → ℕ → Frames → Option ℕ × Frames
pframe_get_resident o pagenum s = elim (resident s o pagenum) [
  | none ↦ (none, s)
  | some i ↦ (some i, touch s i)
]

-- `ref` of the memory objects, which must have a reference. The count of a vnode's object is that of the
-- vnode.
unfoldable pub object_ref : ℕ → Frames → Option Frames
object_ref o s = do
  let x = s.mmobj o
  kassert (not (x.mmo_refcount == 0))
  some (set_object s o (record x { mmo_refcount = x.mmo_refcount + 1 }))

-- The new frame `i` of `pframe_alloc`, entered for a page.
unfoldable pub enter_frame : ℕ → ℕ → ℕ → Frames → Option Frames
enter_frame i o pagenum s = do
  let f : Pframe = record {
    pf_obj = some o;
    pf_pagenum = pagenum;
    pf_busy = false;
    pf_dirty = false;
    pf_pincount = 0;
    pf_bytes = (s.pframe i).pf_bytes;
  }
  let key = hash_page o pagenum
  let listed = record s {
    pframe = put s.pframe i f;
    nallocated = s.nallocated + 1;
    alloc_list = s.alloc_list ++ i ∷ [];
    pframe_hash = put s.pframe_hash key (i ∷ s.pframe_hash key);
  }
  counted ← object_ref o listed
  let x = counted.mmobj o
  let more = record x { mmo_nrespages = x.mmo_nrespages + 1; mmo_respages = i ∷ x.mmo_respages }
  some (set_object counted o more)

-- `pframe_alloc`; the frame is `none` for NULL.
unfoldable pub pframe_alloc : Supply → ℕ → ℕ → Frames → Option (Option ℕ × Frames)
pframe_alloc supply o pagenum s = elim (supply.new_frame s) [
  | none ↦ some (none, s)
  | some i ↦ (do t ← enter_frame i o pagenum s; some (some i, t))
]

-- `pframe_pin`: a frame that is not pinned moves to the list of pinned frames.
abbrev pub to_pinned : ℕ → Frames → Frames
to_pinned i s = record s {
  alloc_list = list_remove i s.alloc_list;
  pinned_list = s.pinned_list ++ i ∷ [];
  nallocated = s.nallocated - 1;
  npinned = s.npinned + 1;
}

unfoldable pub pframe_pin : ℕ → Frames → Option Frames
pframe_pin i s = do
  let f = s.pframe i
  kassert (is_some f.pf_obj)
  let listed = if is_pinned f then s else to_pinned i s
  some (set_frame listed i (record f { pf_pincount = f.pf_pincount + 1 }))

-- `pframe_unpin`; `list_insert_before` of the list itself puts at its back.
unfoldable pub pframe_unpin : ℕ → Frames → Option Frames
pframe_unpin i s = do
  let f = s.pframe i
  kassert (is_some f.pf_obj)
  kassert (is_pinned f)
  let lowered = set_frame s i (record f { pf_pincount = f.pf_pincount - 1 })
  let moved = record lowered {
    alloc_list = s.alloc_list ++ i ∷ [];
    pinned_list = list_remove i s.pinned_list;
    nallocated = s.nallocated + 1;
    npinned = s.npinned - 1;
  }
  some (if f.pf_pincount - 1 == 0 then moved else lowered)

abbrev pub set_busy : ℕ → Bool → Frames → Frames
set_busy i b s = let f = s.pframe i in set_frame s i (record f { pf_busy = b })

abbrev pub set_dirty : ℕ → Bool → Frames → Frames
set_dirty i b s = let f = s.pframe i in set_frame s i (record f { pf_dirty = b })

abbrev pub set_bytes : ℕ → (ℕ → ℕ) → Frames → Frames
set_bytes i bytes s = let f = s.pframe i in set_frame s i (record f { pf_bytes = bytes })

-- What `pframe_get` returns: a frame; nothing yet, for it sleeps until a busy frame is not busy any
-- more and starts again; an error; or 0, with no frame stored.
pub data Got : Type 0 where
  found : ℕ → Got
  sleeps : ℕ → Got
  failed : Got
  unset : Got

-- `fillpage` of an object, with the same four ends.
pub data Filled : Type 0 where
  filled : Filled
  fill_failed : Filled
  fill_sleeps : ℕ → Filled

abbrev pub Fill : Type 0
Fill = ℕ → ℕ → Frames → Option (Filled × Frames)

-- `pframe_fill`
unfoldable pub pframe_fill : Fill → ℕ → ℕ → Frames → Option (Filled × Frames)
pframe_fill fill o i s = do
  (result, t) ← fill o i (set_busy i true s)
  elim result [
    | fill_sleeps j ↦ some (fill_sleeps j, t)
    | filled ↦ some (filled, set_busy i false t)
    | fill_failed ↦ some (fill_failed, set_busy i false t)
  ]

-- `pframe_get`, up to the point where it sleeps. A fill that fails is tried again, and the second
-- result is returned without storing the frame.
unfoldable pub fill_again : Fill → ℕ → ℕ → Frames → Option (Got × Frames)
fill_again fill o i s = do
  (result, t) ← pframe_fill fill o i s
  elim result [
    | fill_sleeps j ↦ some (sleeps j, t)
    | filled ↦ some (unset, t)
    | fill_failed ↦ some (failed, t)
  ]

unfoldable pub get_filled : Fill → ℕ → ℕ → Frames → Option (Got × Frames)
get_filled fill o i s = do
  (result, t) ← pframe_fill fill o i s
  elim result [
    | fill_sleeps j ↦ some (sleeps j, t)
    | filled ↦ (do kassert (not (t.pframe i).pf_busy); some (found i, t))
    | fill_failed ↦ fill_again fill o i t
  ]

unfoldable pub pframe_get : Supply → Fill → ℕ → ℕ → Frames → Option (Got × Frames)
pframe_get supply fill o pagenum s =
    let (hit, t) = pframe_get_resident o pagenum s in
    let missing = do
      (got, u) ← pframe_alloc supply o pagenum t
      elim got [ none ↦ some (failed, u) | some i ↦ get_filled fill o i u ]
    in elim hit [
      | some i ↦ some (if (t.pframe i).pf_busy then sleeps i else found i, t)
      | none ↦ missing
    ]

abbrev pub zeros : ℕ → ℕ
zeros k = 0

-- `anon_fillpage`
unfoldable pub anon_fillpage : Fill
anon_fillpage o i s = do
  kassert (s.pframe i).pf_busy
  kassert (not (is_pinned (s.pframe i)))
  t ← pframe_pin i s
  some (filled, set_bytes i zeros t)

-- `vreadpage`
unfoldable pub vreadpage : Supply → Fill
vreadpage supply o i s = elim (supply.vnode_fillpage o (s.pframe i).pf_pagenum) [
  | none ↦ some (fill_failed, s)
  | some bytes ↦ some (filled, set_bytes i bytes s)
]

-- `vlookuppage`
unfoldable pub vlookuppage : Supply → ℕ → ℕ → Frames → Option (Got × Frames)
vlookuppage supply o pagenum s =
    if leb (supply.vn_len o) (pagenum * 2 ^ 12 % 2 ^ 32)
    then some (failed, s)
    else pframe_get supply (vreadpage supply) o pagenum s

-- `pframe_lookup` on an object that is not a shadow object.
unfoldable pub bottom_lookup : Supply → ℕ → ℕ → Frames → Option (Got × Frames)
bottom_lookup supply o pagenum s = elim (s.mmobj o).mmo_ops [
  | anon_object ↦ pframe_get supply anon_fillpage o pagenum s
  | vnode_object ↦ vlookuppage supply o pagenum s
  | shadow_object ↦ none
]

-- The loop of `shadow_lookuppage` and `shadow_fillpage` down the chain: the first object above the
-- bottom with the page. The number bounds the objects that are visited.
unfoldable pub shadow_walk : ℕ → ℕ → ℕ → Frames → Option (Option ℕ × Frames)
shadow_walk zero o pagenum s = none
shadow_walk (suc n) o pagenum s = elim (s.mmobj o).mmo_shadowed [
  | none ↦ some (none, s)
  | some under ↦ elim (resident s o pagenum) [
    | some i ↦ some (some i, touch s i)
    | none ↦ shadow_walk n under pagenum s
  ]
]

-- The copy of a page into the frame that is filled, which is then pinned.
unfoldable pub copy_page : ℕ → ℕ → Frames → Option (Filled × Frames)
copy_page i source s = do
  t ← pframe_pin i (set_bytes i (s.pframe source).pf_bytes s)
  some (filled, t)

-- `shadow_fillpage`
unfoldable pub shadow_fillpage : ℕ → Supply → Fill
shadow_fillpage n supply o i s = do
  kassert (s.pframe i).pf_busy
  kassert (not (is_pinned (s.pframe i)))
  under ← (s.mmobj o).mmo_shadowed
  (hit, t) ← shadow_walk n under (s.pframe i).pf_pagenum s
  let from_bottom = do
    (got, u) ← bottom_lookup supply (t.mmobj o).mmo_bottom_obj (t.pframe i).pf_pagenum t
    elim got [
      | found j ↦ copy_page i j u
      | sleeps j ↦ some (fill_sleeps j, u)
      | failed ↦ some (fill_failed, u)
      | unset ↦ none
    ]
  elim hit [ some j ↦ copy_page i j t | none ↦ from_bottom ]

-- `shadow_lookuppage` for reading
unfoldable pub shadow_read : ℕ → Supply → ℕ → ℕ → Frames → Option (Got × Frames)
shadow_read n supply o pagenum s = do
  kassert (is_some (s.mmobj o).mmo_shadowed)
  (hit, t) ← shadow_walk n o pagenum s
  elim hit [
    | some i ↦ (do kassert (not (t.pframe i).pf_busy); some (found i, t))
    | none ↦ bottom_lookup supply (t.mmobj o).mmo_bottom_obj pagenum t
  ]

-- `shadow_lookuppage` for writing
unfoldable pub shadow_write : ℕ → Supply → ℕ → ℕ → Frames → Option (Got × Frames)
shadow_write n supply o pagenum s =
    let (hit, t) = pframe_get_resident o pagenum s in
    let missing = do
      (got, u) ← pframe_get supply (shadow_fillpage n supply) o pagenum t
      elim got [
        | found i ↦ some (found i, set_dirty i true u)
        | sleeps i ↦ some (sleeps i, u)
        | failed ↦ some (failed, u)
        | unset ↦ none
      ]
    in elim hit [ some i ↦ some (found i, t) | none ↦ missing ]

-- `pframe_lookup`
unfoldable pub pframe_lookup : ℕ → Supply → ℕ → ℕ → Bool → Frames → Option (Got × Frames)
pframe_lookup n supply o pagenum forwrite s = elim (s.mmobj o).mmo_ops [
  | shadow_object ↦
      if forwrite then shadow_write n supply o pagenum s else shadow_read n supply o pagenum s
  | _ ↦ bottom_lookup supply o pagenum s
]
