-- ===== src/Mm/Frames/Enter.antt =====
-- `pframe_get` of kernel/mm/pframe.c on a page that is not resident, with the fills of anonymous objects
-- and of vnodes.
use weenix_assignment.Base.{
  ℕ, ◌+◌, ◌<◌, ◌≤◌, not, ◌==◌, ◌≡◌, ◌≢◌, refl, ap, ◌∙◌, true, false, none, some, [], ◌∷◌, ◌++◌,
  arith, put, is_some,
}
use weenix_assignment.Mm.Frames.{
  Frames, Pframe, Supply, hash_page, resident, pframe_get_resident, pframe_alloc, enter_frame,
  object_ref, pframe_pin, set_busy, set_bytes, set_frame, set_object, to_pinned, found, filled,
  Fill, pframe_fill, get_filled, pframe_get, zeros, anon_fillpage, vreadpage,
}
use weenix_assignment.Mm.Frames.Lookup.{Entered}

-- The objects have the same operations and the same places in their chains.
abbrev pub SameObjects : Frames → Frames → Type 0
SameObjects s t =
    (x : ℕ)
    → ((t.mmobj x).mmo_ops ≡ (s.mmobj x).mmo_ops)
      × ((t.mmobj x).mmo_shadowed ≡ (s.mmobj x).mmo_shadowed)
      × ((t.mmobj x).mmo_bottom_obj ≡ (s.mmobj x).mmo_bottom_obj)

-- One frame has new bytes, and is idle.
pub record Refilled (s : Frames) (i : ℕ) (bytes : ℕ → ℕ) (t : Frames) : Type 0 where
  pub others : (j : ℕ) → i ≢ j → t.pframe j ≡ s.pframe j
  pub owner : (t.pframe i).pf_obj ≡ (s.pframe i).pf_obj
  pub number : (t.pframe i).pf_pagenum ≡ (s.pframe i).pf_pagenum
  pub holds : (t.pframe i).pf_bytes ≡ bytes
  pub chains : (k : ℕ) → t.pframe_hash k ≡ s.pframe_hash k
  pub objects : SameObjects s t

-- What a fill does on a frame of its object that is idle and not pinned.
abbrev pub FillsWith : Fill → ℕ → ℕ → Frames → (ℕ → ℕ) → Type 0
FillsWith fill o i u bytes =
    (t : Frames) × (pframe_fill fill o i u ≡ some (filled, t))
    × Refilled u i bytes t
    × ((t.pframe i).pf_busy ≡ false)

pin_run :
    (i : ℕ) (s : Frames)
    → is_some (s.pframe i).pf_obj ≡ true
    → (s.pframe i).pf_pincount ≡ 0
    → pframe_pin i s
      ≡ some (
          set_frame
            (to_pinned i s)
            i
            (let f = s.pframe i in record f { pf_pincount = f.pf_pincount + 1 }))
unfolding pframe_pin
pin_run i s owned free = ground (arith, owned, free)

-- `pframe_pin` changes neither pages nor chains.
pub pin_Refilled :
    (i : ℕ) (s : Frames)
    → is_some (s.pframe i).pf_obj ≡ true
    → (s.pframe i).pf_pincount ≡ 0
    → (t : Frames) × (pframe_pin i s ≡ some t)
      × Refilled s i (s.pframe i).pf_bytes t
      × ((t.pframe i).pf_busy ≡ (s.pframe i).pf_busy)
pin_Refilled i s owned free = (
  set_frame (to_pinned i s) i (let f = s.pframe i in record f { pf_pincount = f.pf_pincount + 1 }),
  pin_run i s owned free,
  record {
    others = λ j other. ground (arith, other);
    owner = ground arith;
    number = ground arith;
    holds = ground arith;
    chains = λ k. refl;
    objects = λ x. (refl, refl, refl);
  },
  ground arith,
)

anon_fill :
    (o i : ℕ) (u : Frames)
    → is_some (u.pframe i).pf_obj ≡ true
    → (u.pframe i).pf_pincount ≡ 0
    → FillsWith anon_fillpage o i u zeros
unfolding pframe_fill anon_fillpage
anon_fill o i u owned free =
    let busy = set_busy i true u in
    let owned' : is_some (busy.pframe i).pf_obj ≡ true = ground (arith, owned) in
    let free' : (busy.pframe i).pf_pincount ≡ 0 = ground (arith, free) in
    let (t, run, r, _) = pin_Refilled i busy owned' free' in
    let idle : (busy.pframe i).pf_busy ≡ true = ground arith in
    (
      set_busy i false (set_bytes i zeros t),
      ground (arith, idle, free', run),
      record {
        others = λ j other. ground (arith, other, r.others j other);
        owner = ground (arith, r.owner);
        number = ground (arith, r.number);
        holds = ground arith;
        chains = λ k. r.chains k;
        objects = λ x. r.objects x;
      },
      ground arith,
    )

vnode_fill :
    (supply : Supply) (o i : ℕ) (u : Frames) (bytes : ℕ → ℕ)
    → supply.vnode_fillpage o (u.pframe i).pf_pagenum ≡ some bytes
    → FillsWith (vreadpage supply) o i u bytes
unfolding pframe_fill vreadpage
vnode_fill supply o i u bytes reads =
    let busy = set_busy i true u in
    let same : (busy.pframe i).pf_pagenum ≡ (u.pframe i).pf_pagenum = ground arith in
    let reads' : supply.vnode_fillpage o (busy.pframe i).pf_pagenum ≡ some bytes =
      ap (supply.vnode_fillpage o) same ∙ reads in
    (
      set_busy i false (set_bytes i bytes busy),
      ground (arith, reads'),
      record {
        others = λ j other. ground (arith, other);
        owner = ground arith;
        number = ground arith;
        holds = ground arith;
        chains = λ k. refl;
        objects = λ x. (refl, refl, refl);
      },
      ground arith,
    )

-- A frame as `pframe_alloc` leaves it.
pub record Fresh (s : Frames) (o pagenum i : ℕ) (u : Frames) : Type 0 where
  pub entered : Entered s o pagenum i (s.pframe i).pf_bytes u
  pub objects : SameObjects s u
  pub more_refs : (x : ℕ) → (s.mmobj x).mmo_refcount ≤ (u.mmobj x).mmo_refcount
  pub unpinned : (u.pframe i).pf_pincount ≡ 0
  pub owned : is_some (u.pframe i).pf_obj ≡ true

pub pframe_alloc_lem :
    (supply : Supply) (s : Frames) (o pagenum i : ℕ)
    → supply.new_frame s ≡ some i
    → 0 < (s.mmobj o).mmo_refcount
    → (u : Frames) × (pframe_alloc supply o pagenum s ≡ some (some i, u)) × Fresh s o pagenum i u
unfolding pframe_alloc enter_frame object_ref
pframe_alloc_lem supply s o pagenum i new alive =
    let key = hash_page o pagenum in
    let f : Pframe = record {
      pf_obj = some o;
      pf_pagenum = pagenum;
      pf_busy = false;
      pf_dirty = false;
      pf_pincount = 0;
      pf_bytes = (s.pframe i).pf_bytes;
    } in
    let listed = record s {
      pframe = put s.pframe i f;
      nallocated = s.nallocated + 1;
      alloc_list = s.alloc_list ++ i ∷ [];
      pframe_hash = put s.pframe_hash key (i ∷ s.pframe_hash key);
    } in
    let y = s.mmobj o in
    let counted = set_object listed o (record y { mmo_refcount = y.mmo_refcount + 1 }) in
    let x = counted.mmobj o in
    let more = record x {
      mmo_nrespages = x.mmo_nrespages + 1;
      mmo_respages = i ∷ x.mmo_respages;
    } in
    let some_refs : not (y.mmo_refcount == 0) ≡ true = ground (arith, alive) in
    (
      set_object counted o more,
      ground (arith, new, some_refs),
      record {
        entered = record {
          others = λ j other. ground (arith, other);
          owner = ground arith;
          number = ground arith;
          holds = ground arith;
          chain = λ k. refl;
        };
        objects = λ z. (ground arith, ground arith, ground arith);
        more_refs = λ z. ground arith;
        unpinned = ground arith;
        owned = ground arith;
      },
    )

-- A page that is entered with bytes, by a call that finds it.
pub record Enters (s : Frames) (o pagenum i : ℕ) (bytes : ℕ → ℕ) (t : Frames) : Type 0 where
  pub entered : Entered s o pagenum i bytes t
  pub objects : SameObjects s t
  pub idle : (t.pframe i).pf_busy ≡ false

Entered-Refilled :
    (s u t : Frames) (o pagenum i : ℕ) (old bytes : ℕ → ℕ)
    → Entered s o pagenum i old u
    → Refilled u i bytes t
    → Entered s o pagenum i bytes t
Entered-Refilled s u t o pagenum i old bytes e r = record {
  others = λ j other. r.others j other ∙ e.others j other;
  owner = r.owner ∙ e.owner;
  number = r.number ∙ e.number;
  holds = r.holds;
  chain = λ k. r.chains k ∙ e.chain k;
}

pub SameObjects-trans : (s t u : Frames) → SameObjects s t → SameObjects t u → SameObjects s u
SameObjects-trans s t u p q x = ((q x).0 ∙ (p x).0, (q x).1 ∙ (p x).1, (q x).2 ∙ (p x).2)

-- `pframe_get` of a page that is not resident enters it with what its fill gives.
pub pframe_get-missing :
    (supply : Supply) (fill : Fill) (s : Frames) (o pagenum i : ℕ) (bytes : ℕ → ℕ)
    → resident s o pagenum ≡ none
    → supply.new_frame s ≡ some i
    → 0 < (s.mmobj o).mmo_refcount
    → ((u : Frames) → Fresh s o pagenum i u → FillsWith fill o i u bytes)
    → (t : Frames) × (pframe_get supply fill o pagenum s ≡ some (found i, t))
      × Enters s o pagenum i bytes t
unfolding pframe_get get_filled pframe_get_resident
pframe_get-missing supply fill s o pagenum i bytes missing new alive fills =
    let (u, alloc, fresh) = pframe_alloc_lem supply s o pagenum i new alive in
    let (t, run, r, idle) = fills u fresh in
    (
      t,
      ground (arith, missing, alloc, run, idle),
      record {
        entered = Entered-Refilled s u t o pagenum i (s.pframe i).pf_bytes bytes fresh.entered r;
        objects = SameObjects-trans s u t fresh.objects r.objects;
        idle = idle;
      },
    )

pub anon_get-missing :
    (supply : Supply) (s : Frames) (o pagenum i : ℕ)
    → resident s o pagenum ≡ none
    → supply.new_frame s ≡ some i
    → 0 < (s.mmobj o).mmo_refcount
    → (t : Frames) × (pframe_get supply anon_fillpage o pagenum s ≡ some (found i, t))
      × Enters s o pagenum i zeros t
anon_get-missing supply s o pagenum i missing new alive =
    pframe_get-missing supply anon_fillpage s o pagenum i zeros missing new alive
      (λ u f. anon_fill o i u f.owned f.unpinned)

pub vnode_get-missing :
    (supply : Supply) (s : Frames) (o pagenum i : ℕ) (bytes : ℕ → ℕ)
    → resident s o pagenum ≡ none
    → supply.new_frame s ≡ some i
    → 0 < (s.mmobj o).mmo_refcount
    → supply.vnode_fillpage o pagenum ≡ some bytes
    → (t : Frames) × (pframe_get supply (vreadpage supply) o pagenum s ≡ some (found i, t))
      × Enters s o pagenum i bytes t
vnode_get-missing supply s o pagenum i bytes missing new alive reads =
    pframe_get-missing supply (vreadpage supply) s o pagenum i bytes missing new alive
      (λ u f. vnode_fill supply o i u bytes (ap (supply.vnode_fillpage o) f.entered.number ∙ reads))
