-- ===== src/Mm/Frames/Copy.antt =====
-- `shadow_fillpage` of kernel/vm/shadow.c: the new frame of the object gets the page that is seen in the
-- chain below it.
use weenix_assignment.Base.{
  ℕ, zero, suc, ◌≡◌, ◌≢◌, refl, ap, ◌∙◌, inl, inr, true, false, some, arith, ◌<◌, is_some, ◌>>=◌,
}
use weenix_assignment.Mm.Frames.{
  Frames, Supply, resident, touch, filled, copy_page, shadow_fillpage, set_bytes,
}
use weenix_assignment.Mm.Frames.Lookup.{page, Entered, IsNew, page-Entered_other}
use weenix_assignment.Mm.Frames.Enter.{SameObjects, Refilled, pin_Refilled}
use weenix_assignment.Mm.Frames.Seen.{origin, or_else, seen, IsChain}
use weenix_assignment.Mm.Frames.Read.{
  Finds, touch-Finds, shadow_walk_lem, bottom_lookup_lem, bottom_facts,
}

pub IsChain-SameObjects :
    (d : ℕ) (s t : Frames) (o b : ℕ) → SameObjects s t → IsChain d s o b → IsChain d t o b
unfolding IsChain
IsChain-SameObjects zero s t o b same (last, above, kind) =
    (last, (same o).1 ∙ above, rw (same o).0 kind)
IsChain-SameObjects (suc d) s t o b same (under, above, kind, bottom, chain) = (
  under,
  (same o).1 ∙ above,
  rw (same o).0 kind,
  (same o).2 ∙ bottom,
  IsChain-SameObjects d s t under b same chain,
)

-- An object is at one depth only.
pub IsChain-unique : (d e : ℕ) (s : Frames) (o b c : ℕ) → IsChain d s o b → IsChain e s o c → d ≡ e
unfolding IsChain
IsChain-unique zero zero s o b c p q = refl
IsChain-unique zero (suc e) s o b c (_, gone, _) (under, above, _, _, _) =
    absurd (ground (arith, gone, above))
IsChain-unique (suc d) zero s o b c (under, above, _, _, _) (_, gone, _) =
    absurd (ground (arith, gone, above))
IsChain-unique (suc d) (suc e) s o b c (u, p, _, _, chain) (w, q, _, _, chain') =
    let same : u ≡ w = ground (arith, p, q) in
    ap suc (IsChain-unique d e s u b c chain (rw same chain'))

-- Below an object, the entry of a page of that object is not seen.
pub seen_below :
    (supply : Supply) (s v : Frames) (o pagenum i : ℕ) (bytes : ℕ → ℕ)
    → Entered s o pagenum i bytes v
    → IsNew s i
    → SameObjects s v
    → (e d x b c : ℕ) → IsChain e s x b
    → IsChain d s o c
    → e < d
    → seen e supply v x pagenum ≡ seen e supply s x pagenum
unfolding seen IsChain
seen_below supply s v o pagenum i bytes entered new objects zero d x b c chain top less =
    let other : o ≢ x =
      λ same. absurd (omega (arith, less, IsChain-unique 0 d s x b c chain (rw (← same) top))) in
    rw (page-Entered_other s o pagenum i bytes v entered new x pagenum (inl other), (objects x).0)
      refl
seen_below supply s v o pagenum i bytes entered new objects (suc e) d x b c chain top less =
    let other : o ≢ x = λ same.
      absurd (omega (arith, less, IsChain-unique (suc e) d s x b c chain (rw (← same) top))) in
    let (under, above, _, _, below) = chain in
    rw
      (
        page-Entered_other s o pagenum i bytes v entered new x pagenum (inl other),
        (objects x).1,
        above,
      )
      (ap (or_else (page s x pagenum)) (
        seen_below supply s v o pagenum i bytes entered new objects e d under b c below top
          (omega (arith, less))))

-- A page is copied into a frame that is not pinned.
copy_run :
    (i k : ℕ) (w : Frames)
    → is_some (w.pframe i).pf_obj ≡ true
    → (w.pframe i).pf_pincount ≡ 0
    → (t : Frames) × (copy_page i k w ≡ some (filled, t)) × Refilled w i (w.pframe k).pf_bytes t
unfolding copy_page
copy_run i k w owned free =
    let copied = set_bytes i (w.pframe k).pf_bytes w in
    let owned' : is_some (copied.pframe i).pf_obj ≡ true = ground (arith, owned) in
    let free' : (copied.pframe i).pf_pincount ≡ 0 = ground (arith, free) in
    let (t, run, r, _) = pin_Refilled i copied owned' free' in
    (
      t,
      rw (run, ◌>>=◌) refl,
      record {
        others = λ j other. r.others j other ∙ ground (arith, other);
        owner = r.owner ∙ ground arith;
        number = r.number ∙ ground arith;
        holds = r.holds ∙ ground arith;
        chains = λ x. r.chains x;
        objects = λ x. r.objects x;
      },
    )

-- What the fill has done: the frame holds what is seen below, in a state that differs from that after a
-- lookup by this frame only.
pub record Copied (supply : Supply) (v : Frames) (b pagenum new i : ℕ) (sight : ℕ → ℕ) (t : Frames)
    : Type 0 where
  pub between : Frames
  pub source : ℕ
  pub looked : Finds supply v b pagenum new sight source between
  pub refilled : Refilled between i sight t

module _ (supply : Supply) (v : Frames) (d n o under b pagenum i new : ℕ) (bytes : ℕ → ℕ)
    (above : (v.mmobj o).mmo_shadowed ≡ some under) (bottom : (v.mmobj o).mmo_bottom_obj ≡ b)
    (chain : IsChain d v under b) (less : d < n) (number : (v.pframe i).pf_pagenum ≡ pagenum)
    (busy : (v.pframe i).pf_busy ≡ true) (owned : is_some (v.pframe i).pf_obj ≡ true)
    (free : (v.pframe i).pf_pincount ≡ 0) (gives : origin supply v b pagenum ≡ some bytes)
    (alive : 0 < (v.mmobj b).mmo_refcount) (room : supply.new_frame v ≡ some new)
    (fresh : IsNew v new) (apart : new ≢ i)
    (quiet : (k : ℕ) → resident v b pagenum ≡ some k → (v.pframe k).pf_busy ≡ false) where
  abbrev Fills : Type 0
  Fills =
      (sight : ℕ → ℕ) × (t : Frames) × (shadow_fillpage n supply o i v ≡ some (filled, t))
      × (seen d supply v under pagenum ≡ some sight)
      × Copied supply v b pagenum new i sight t

  copy_from :
      (k : ℕ) (w : Frames) (sight : ℕ → ℕ)
      → Finds supply v b pagenum new sight k w
      → (t : Frames) × (copy_page i k w ≡ some (filled, t))
        × Copied supply v b pagenum new i sight t
  copy_from k w sight f =
      let kept = f.kept i apart in
      let (t, run, r) = copy_run i k w (ground (arith, kept, owned)) (ground (arith, kept, free)) in
      (
        t,
        run,
        record {
          between = w;
          source = k;
          looked = f;
          refilled = record {
            others = r.others;
            owner = r.owner;
            number = r.number;
            holds = r.holds ∙ f.holds;
            chains = r.chains;
            objects = r.objects;
          };
        },
      )

  pub shadow_fillpage_lem : Fills
  unfolding shadow_fillpage
  shadow_fillpage_lem =
      let (alone, kind) = bottom_facts d v under b chain in
      elim (shadow_walk_lem supply v d n under b pagenum chain less) [
        | inl (k, walk, sees) ↦
            (let (t, run, c) =
                copy_from k (touch v k) (v.pframe k).pf_bytes
                  (touch-Finds supply v b pagenum new k) in
              (
                (v.pframe k).pf_bytes,
                t,
                ground (arith, busy, free, above, number, walk, run),
                sees,
                c,
              ))
        | inr (walk, sees) ↦
            (let (k, w, sight, look, here, f, _) =
                bottom_lookup_lem supply v b pagenum new bytes quiet kind alone gives alive room
                  fresh in
              let (t, run, c) = copy_from k w sight f in
              (
                sight,
                t,
                ground (arith, busy, free, above, number, walk, bottom, look, run),
                sees ∙ here,
                c,
              ))
      ]
