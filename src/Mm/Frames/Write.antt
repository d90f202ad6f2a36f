-- ===== src/Mm/Frames/Write.antt =====
-- `shadow_lookuppage` of kernel/vm/shadow.c for writing a page that the object does not have: copy on
-- write.
use mathlib.Core.Path.{subst}
use weenix_assignment.Base.{
  ℕ, zero, suc, ◌≡◌, ◌≢◌, refl, ap, sym, ◌∙◌, ◌⊎◌, inl, inr, true, false, Option, none, some, arith,
  ◌<◌, Option-cases, ℕ_discrete, All,
}
use weenix_assignment.Mm.Frames.{
  Frames, Supply, resident, found, filled, pframe_fill, shadow_fillpage, pframe_get,
  pframe_get_resident, get_filled, shadow_write, set_busy, set_dirty,
}
use weenix_assignment.Mm.Frames.Lookup.{
  page, Entered, IsNew, page-Entered_other, resident-Entered, chain-Entered, resident-ids,
  resident-owner,
}
use weenix_assignment.Mm.Frames.Enter.{SameObjects, Refilled, Fresh, pframe_alloc_lem}
use weenix_assignment.Mm.Frames.Seen.{origin, origin_of, or_else, seen, IsChain}
use weenix_assignment.Mm.Frames.Read.{Quiet, page_at, page_gone, bottom_facts}
use weenix_assignment.Mm.Frames.Copy.{
  IsChain-SameObjects, IsChain-unique, seen_below, Copied, shadow_fillpage_lem,
}

-- One frame, which holds a page, gets other bytes.
module _ (w t : Frames) (o pagenum i : ℕ) (sight : ℕ → ℕ) (r : Refilled w i sight t)
    (at : resident w o pagenum ≡ some i) (owner : (w.pframe i).pf_obj ≡ some o)
    (number : (w.pframe i).pf_pagenum ≡ pagenum) where
  ids :
      (j : ℕ)
      → ((t.pframe j).pf_obj ≡ (w.pframe j).pf_obj)
        × ((t.pframe j).pf_pagenum ≡ (w.pframe j).pf_pagenum)
  ids j = elim (ℕ_discrete i j) [
    | yes e ↦
        subst
          (λ k.
            ((t.pframe k).pf_obj ≡ (w.pframe k).pf_obj)
            × ((t.pframe k).pf_pagenum ≡ (w.pframe k).pf_pagenum))
          e (r.owner, r.number)
    | no other ↦ (ap (λ f. f.pf_obj) (r.others j other), ap (λ f. f.pf_pagenum) (r.others j other))
  ]

  pub resident-Refilled : (x m : ℕ) → resident t x m ≡ resident w x m
  resident-Refilled = resident-ids w t ids r.chains

  pub page-Refilled : page t o pagenum ≡ some sight
  page-Refilled = page_at t o pagenum i (resident-Refilled o pagenum ∙ at) ∙ ap some r.holds

  pub page-Refilled_other : (x m : ℕ) → (o ≢ x) ⊎ (pagenum ≢ m) → page t x m ≡ page w x m
  page-Refilled_other x m other = elim (Option-cases (resident w x m)) [
    | inl gone ↦ page_gone t x m (resident-Refilled x m ∙ gone) ∙ sym (page_gone w x m gone)
    | inr (j, hit) ↦
        (let apart : i ≢ j = λ e.
            (let (a, c) = resident-owner w o pagenum i x m owner number (rw e hit) in
              absurd (ground (arith, a, c, other))) in
          page_at t x m j (resident-Refilled x m ∙ hit)
          ∙ ap (λ f. some f.pf_bytes) (r.others j apart)
          ∙ sym (page_at w x m j hit))
  ]

-- The pages before and after: the page that is written is new, and so may be that of the bottom object.
abbrev PagesAfter : Supply → Frames → Frames → (o b pagenum : ℕ) → (ℕ → ℕ) → Type 0
PagesAfter supply s t o b pagenum sight =
    (page t o pagenum ≡ some sight)
    × ((x m : ℕ)
        → (o ≢ x) ⊎ (pagenum ≢ m)
        → (page t x m ≡ page s x m)
          ⊎ ((b ≡ x)
              × (pagenum ≡ m)
              × (page s b pagenum ≡ none)
              × (page t b pagenum ≡ origin supply s b pagenum)))

or_else_self : (a : Option (ℕ → ℕ)) → or_else a a ≡ a
or_else_self none = refl
or_else_self (some x) = refl

-- Then the same is seen in every chain.
module _ (supply : Supply) (s t : Frames) (d o b pagenum : ℕ) (sight : ℕ → ℕ)
    (same : SameObjects s t) (top : IsChain d s o b) (sees : seen d supply s o pagenum ≡ some sight)
    (pages : PagesAfter supply s t o b pagenum sight) where
  written_cases : (x m : ℕ) → ((o ≡ x) × (pagenum ≡ m)) ⊎ ((o ≢ x) ⊎ (pagenum ≢ m))
  written_cases x m = elim (ℕ_discrete o x) [
    | no other ↦ inr (inl other)
    | yes e ↦ elim (ℕ_discrete pagenum m) [ no other ↦ inr (inr other) | yes e' ↦ inl (e, e') ]
  ]

  seen_here : (e : ℕ) → seen e supply t o pagenum ≡ some sight
  unfolding seen
  seen_here zero = rw pages.0 refl
  seen_here (suc e) = rw pages.0 refl

  seen_written : (e c : ℕ) → IsChain e s o c → seen e supply t o pagenum ≡ seen e supply s o pagenum
  seen_written e c chain =
      seen_here e
      ∙ sym (
          subst (λ k. seen k supply s o pagenum ≡ some sight) (IsChain-unique d e s o b c top chain)
            sees)

  here_written :
      (e x c m : ℕ)
      → o ≡ x
      → pagenum ≡ m
      → IsChain e s x c
      → seen e supply t x m ≡ seen e supply s x m
  here_written e x c m ox nm chain =
      subst (λ z. seen e supply t x z ≡ seen e supply s x z) nm
        (subst (λ z. IsChain e s z c → seen e supply t z pagenum ≡ seen e supply s z pagenum) ox
          (seen_written e c) chain)

  bottom_entered :
      page s b pagenum ≡ none
      → page t b pagenum ≡ origin supply s b pagenum
      → seen 0 supply t b pagenum ≡ seen 0 supply s b pagenum
  unfolding seen
  bottom_entered gone new = rw (gone, new, (same b).0) (or_else_self (origin supply s b pagenum))

  pub seen_kept : (e x c m : ℕ) → IsChain e s x c → seen e supply t x m ≡ seen e supply s x m
  unfolding seen IsChain
  seen_kept zero x c m chain = elim (written_cases x m) [
    | inl (ox, nm) ↦ here_written 0 x c m ox nm chain
    | inr other ↦ elim (pages.1 x m other) [
      | inl as_before ↦ rw (as_before, (same x).0) refl
      | inr (bx, nm, gone, new) ↦
          subst (λ z. seen 0 supply t x z ≡ seen 0 supply s x z) nm
            (subst (λ z. seen 0 supply t z pagenum ≡ seen 0 supply s z pagenum) bx
              (bottom_entered gone new))
    ]
  ]
  seen_kept (suc e) x c m (under, above, kind, bottom, chain) = elim (written_cases x m) [
    | inl (ox, nm) ↦ here_written (suc e) x c m ox nm (under, above, kind, bottom, chain)
    | inr other ↦ elim (pages.1 x m other) [
      | inl as_before ↦
          rw (as_before, (same x).1, above)
            (ap (or_else (page s x m)) (seen_kept e under c m chain))
      | inr (bx, nm, gone, new) ↦
          (let alone =
              subst (λ z. (s.mmobj z).mmo_shadowed ≡ none) bx (bottom_facts d s o b top).0 in
            absurd (ground (arith, alone, above)))
    ]
  ]

-- The state in which the fill runs.
module _ (supply : Supply) (s : Frames) (d n o b pagenum i : ℕ) (bytes : ℕ → ℕ)
    (chain : IsChain (suc d) s o b) (less : d < n) (missing : resident s o pagenum ≡ none)
    (quiet : Quiet s) (gives : origin supply s b pagenum ≡ some bytes)
    (alive : 0 < (s.mmobj b).mmo_refcount) (first : supply.new_frame s ≡ some i) (fresh : IsNew s i)
    (u : Frames) (f : Fresh s o pagenum i u) where
  abbrev v : Frames
  v = set_busy i true u

  entered : Entered s o pagenum i (s.pframe i).pf_bytes v
  entered = record {
    others = λ j other. ground (arith, other, f.entered.others j other);
    owner = ground (arith, f.entered.owner);
    number = ground (arith, f.entered.number);
    holds = ground (arith, f.entered.holds);
    chain = λ k. f.entered.chain k;
  }

  objects : SameObjects s v
  objects x = f.objects x

  bottom_apart : o ≢ b
  unfolding IsChain
  bottom_apart e =
      let (under, above, _, _, _) = chain in
      let alone = (bottom_facts (suc d) s o b chain).0 in
      let alone' = subst (λ z. (s.mmobj z).mmo_shadowed ≡ none) (sym e) alone in
      absurd (ground (arith, alone', above))

  quiet_bottom : (k : ℕ) → resident v b pagenum ≡ some k → (v.pframe k).pf_busy ≡ false
  quiet_bottom k hit = elim (ℕ_discrete i k) [
    | yes e ↦
        (let (same, _) =
            resident-owner v o pagenum i b pagenum entered.owner entered.number
              (hit ∙ ap some (sym e)) in
          absurd (bottom_apart same))
    | no other ↦ ap (λ x. x.pf_busy) (entered.others k other) ∙ quiet k
  ]

  module _ (new : ℕ) (second : supply.new_frame v ≡ some new) (fresh' : IsNew v new) where
    not_first : new ≢ i
    not_first =
        let out =
          subst (λ l. All (λ j. new ≢ j) l)
            (chain-Entered s o pagenum i (s.pframe i).pf_bytes v entered fresh)
            (fresh' o pagenum) in
        out.0

    abbrev Wrote : Type 0
    Wrote =
        (sight : ℕ → ℕ) × (t : Frames) × (shadow_fillpage n supply o i v ≡ some (filled, t))
        × (seen (suc d) supply s o pagenum ≡ some sight)
        × Copied supply v b pagenum new i sight t

    pub wrote : Wrote
    unfolding IsChain seen
    wrote =
        let (under, above, kind, bottom, below) = chain in
        let below' = IsChain-SameObjects d s v under b objects below in
        let (sight, t, run, sees, c) =
          shadow_fillpage_lem supply v d n o under b pagenum i new bytes ((objects o).1 ∙ above)
            ((objects o).2 ∙ bottom) below' less entered.number (ground arith)
            (ground (arith, f.owned)) (ground (arith, f.unpinned)) (rw (objects b).0 gives)
            (omega (arith, f.more_refs b, alive)) second fresh' not_first quiet_bottom in
        let under_seen =
          seen_below supply s v o pagenum i (s.pframe i).pf_bytes entered fresh objects d (suc d)
            under b b below chain (omega arith) in
        (sight, t, run, rw (page_gone s o pagenum missing, above) (sym under_seen ∙ sees), c)

    -- The frame is idle again, and dirty.
    abbrev settled : Frames → Frames
    settled t = set_dirty i true (set_busy i false t)

    settled-Refilled :
        (sight : ℕ → ℕ) (t : Frames) (c : Copied supply v b pagenum new i sight t)
        → Refilled c.between i sight (settled t)
    settled-Refilled sight t c =
        let r = c.refilled in
        record {
          others = λ j other. ground (arith, other, r.others j other);
          owner = ground (arith, r.owner);
          number = ground (arith, r.number);
          holds = ground arith ∙ r.holds;
          chains = λ k. r.chains k;
          objects = λ x. r.objects x;
        }

    module _ (sight : ℕ → ℕ) (t : Frames) (c : Copied supply v b pagenum new i sight t)
        (sees : seen (suc d) supply s o pagenum ≡ some sight) where
      abbrev w : Frames
      w = c.between

      held : resident w o pagenum ≡ some i
      held =
          c.looked.places o pagenum i
            (resident-Entered s o pagenum i (s.pframe i).pf_bytes v entered fresh)

      kept : w.pframe i ≡ v.pframe i
      kept = c.looked.kept i not_first

      owner : (w.pframe i).pf_obj ≡ some o
      owner = ap (λ x. x.pf_obj) kept ∙ entered.owner

      number : (w.pframe i).pf_pagenum ≡ pagenum
      number = ap (λ x. x.pf_pagenum) kept ∙ entered.number

      pages_before : (x m : ℕ) → (o ≢ x) ⊎ (pagenum ≢ m) → page v x m ≡ page s x m
      pages_before = page-Entered_other s o pagenum i (s.pframe i).pf_bytes v entered fresh

      settled_pages : PagesAfter supply s (settled t) o b pagenum sight
      settled_pages = (
        page-Refilled w (settled t) o pagenum i sight (settled-Refilled sight t c) held owner
            number,
        λ x m other. elim (c.looked.pages x m) [
          | inl same ↦ inl (
              page-Refilled_other w (settled t) o pagenum i sight (settled-Refilled sight t c) held
                owner number x m other
              ∙ same
              ∙ pages_before x m other)
          | inr (bx, nm, gone, new_page) ↦ inr (
            bx,
            nm,
            sym (pages_before b pagenum (inl bottom_apart)) ∙ gone,
            page-Refilled_other w (settled t) o pagenum i sight (settled-Refilled sight t c) held
                  owner number b pagenum (inl bottom_apart)
                ∙ new_page
                ∙ ap (λ k. origin_of supply k b pagenum) (objects b).0,
          )
        ],
      )

      same_objects : SameObjects s (settled t)
      same_objects x =
          let r = settled-Refilled sight t c in
          (
            (r.objects x).0 ∙ (c.looked.objects x).0 ∙ (objects x).0,
            (r.objects x).1 ∙ (c.looked.objects x).1 ∙ (objects x).1,
            (r.objects x).2 ∙ (c.looked.objects x).2 ∙ (objects x).2,
          )

      pub still_seen :
          (e x k m : ℕ) → IsChain e s x k → seen e supply (settled t) x m ≡ seen e supply s x m
      still_seen =
          seen_kept supply s (settled t) (suc d) o b pagenum sight same_objects chain sees
            settled_pages

      pub resident-settled : resident (settled t) o pagenum ≡ some i
      resident-settled =
          resident-Refilled w (settled t) o pagenum i sight (settled-Refilled sight t c) held owner
            number o pagenum
          ∙ held

-- Looking up a page of a shadow object for writing that the object does not have: at the top of a chain
-- of objects over a bottom object that has the page or can fill it, when both have a reference, no frame
-- is busy and the allocators always give an unused frame, the result is a dirty frame, which now is the page of this
-- object itself, with the bytes that are seen of the page through the object. Of any page m, the same
-- is seen after as before at any object x at the top of a chain.
pub shadow_write_lem :
    (supply : Supply) (s : Frames) (d n o b pagenum e x c m : ℕ) (bytes : ℕ → ℕ)
    → IsChain (suc d) s o b
    → IsChain e s x c
    → d < n
    → resident s o pagenum ≡ none
    → Quiet s
    → origin supply s b pagenum ≡ some bytes
    → 0 < (s.mmobj b).mmo_refcount
    → 0 < (s.mmobj o).mmo_refcount
    → ((v : Frames) → (j : ℕ) × (supply.new_frame v ≡ some j) × IsNew v j)
    → (k : ℕ) × (t : Frames) × (sight : ℕ → ℕ) × (shadow_write n supply o pagenum s
        ≡ some (found k, t))
      × (resident t o pagenum ≡ some k)
      × ((t.pframe k).pf_bytes ≡ sight)
      × ((t.pframe k).pf_dirty ≡ true)
      × (seen (suc d) supply s o pagenum ≡ some sight)
      × (seen e supply t x m ≡ seen e supply s x m)
unfolding shadow_write pframe_get pframe_get_resident get_filled pframe_fill
shadow_write_lem supply s d n o b pagenum e x c m bytes chain other less missing quiet gives alive
      alive' room =
    let (i, first, fresh) = room s in
    let (u, alloc, f) = pframe_alloc_lem supply s o pagenum i first alive' in
    let (new, second, fresh') = room (set_busy i true u) in
    let (sight, t, run, sees, copied) =
      wrote supply s d n o b pagenum i bytes chain less missing quiet gives alive first fresh u f
        new second fresh' in
    let idle : ((set_busy i false t).pframe i).pf_busy ≡ false = ground arith in
    (
      i,
      set_dirty i true (set_busy i false t),
      sight,
      ground (arith, missing, alloc, run, idle),
      resident-settled supply s d n o b pagenum i bytes chain less missing quiet gives alive first
          fresh u f new second fresh' sight t copied sees,
      ground arith ∙ copied.refilled.holds,
      ground arith,
      sees,
      still_seen supply s d n o b pagenum i bytes chain less missing quiet gives alive first fresh u
          f new second fresh' sight t copied sees e x c m other,
    )
