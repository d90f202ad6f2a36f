-- ===== src/Mm/Frames/Read.antt =====
-- `shadow_lookuppage` of kernel/vm/shadow.c for reading.
use mathlib.Core.Path.{subst}
use mathlib.Core.Option.{some-injective}
use weenix_assignment.Base.{
  ℕ, zero, suc, ◌*◌, ◌%◌, ◌^◌, ◌≡◌, ◌≢◌, refl, ap, sym, ◌∙◌, ◌⊎◌, inl, inr, true, false, Option,
  none, some, arith, leb, ◌<◌, Option-cases, Bool-cases, is_some, ℕ_discrete,
}
use weenix_assignment.Mm.Frames.{
  Frames, ObjectKind, anon_object, shadow_object, vnode_object, Supply, zeros, resident, touch,
  shadow_walk, bottom_lookup, vlookuppage, pframe_get, pframe_get_resident, Fill, Got, found,
  vreadpage, anon_fillpage, shadow_read,
}
use weenix_assignment.Mm.Frames.Lookup.{
  page, IsNew, lookup-same, touch_lem, lookup-Entered_other, page-Entered,
}
use weenix_assignment.Mm.Frames.Enter.{SameObjects, Enters, anon_get-missing, vnode_get-missing}
use weenix_assignment.Mm.Frames.Seen.{
  origin, origin_of, seen, seen_same, seen_entered, pages_cases, is_shadow, IsChain,
}

-- A resident page is the page of its frame.
pub page_at :
    (s : Frames) (o n i : ℕ) → resident s o n ≡ some i → page s o n ≡ some (s.pframe i).pf_bytes
unfolding page
page_at s o n i h = rw h refl

pub page_gone : (s : Frames) (o n : ℕ) → resident s o n ≡ none → page s o n ≡ none
unfolding page
page_gone s o n h = rw h refl

-- No frame is busy.
abbrev pub Quiet : Frames → Type 0
Quiet s = (i : ℕ) → (s.pframe i).pf_busy ≡ false

-- What a lookup gives: a frame with certain bytes, in a state in which the same is seen. At most
-- one page has become resident, in the new frame: a page of the bottom object, with what it is filled
-- with.
pub record Finds (supply : Supply) (s : Frames) (b pagenum new : ℕ) (bytes : ℕ → ℕ) (k : ℕ)
    (t : Frames) : Type 0 where
  pub holds : (t.pframe k).pf_bytes ≡ bytes
  pub same : (d o n : ℕ) → seen d supply t o n ≡ seen d supply s o n
  pub objects : SameObjects s t
  pub kept : (j : ℕ) → new ≢ j → t.pframe j ≡ s.pframe j
  pub places : (x m j : ℕ) → resident s x m ≡ some j → resident t x m ≡ some j
  pub pages :
      (x m : ℕ)
      → (page t x m ≡ page s x m)
        ⊎ ((b ≡ x)
            × (pagenum ≡ m)
            × (page s b pagenum ≡ none)
            × (page t b pagenum ≡ origin supply s b pagenum))

-- A frame that is resident is found.
pub touch-Finds :
    (supply : Supply) (s : Frames) (b pagenum new i : ℕ)
    → Finds supply s b pagenum new (s.pframe i).pf_bytes i (touch s i)
touch-Finds supply s b pagenum new i =
    let (frames, chains, objects) = touch_lem s i in
    let same : SameObjects s (touch s i) = λ x. (
      ap (λ y. y.mmo_ops) (objects x),
      ap (λ y. y.mmo_shadowed) (objects x),
      ap (λ y. y.mmo_bottom_obj) (objects x),
    ) in
    let looks = lookup-same s (touch s i) frames chains in
    record {
      holds = ap (λ f. f.pf_bytes) (frames i);
      same = seen_same supply s (touch s i) same (λ o n. (looks o n).1);
      objects = same;
      kept = λ j _. frames j;
      places = λ x m j h. (looks x m).0 ∙ h;
      pages = λ x m. inl (looks x m).1;
    }

touch-idle :
    (s : Frames) (i : ℕ) → (s.pframe i).pf_busy ≡ false → ((touch s i).pframe i).pf_busy ≡ false
touch-idle s i quiet = ap (λ f. f.pf_busy) ((touch_lem s i).0 i) ∙ quiet

-- The walk stops at the first object that has the page, or above the bottom.
pub shadow_walk_lem :
    (supply : Supply) (s : Frames) (d n o b pagenum : ℕ)
    → IsChain d s o b
    → d < n
    → ((i : ℕ) × (shadow_walk n o pagenum s ≡ some (some i, touch s i))
        × (seen d supply s o pagenum ≡ some (s.pframe i).pf_bytes))
      ⊎ ((shadow_walk n o pagenum s ≡ some (none, s))
          × (seen d supply s o pagenum ≡ seen 0 supply s b pagenum))
unfolding shadow_walk seen IsChain
shadow_walk_lem supply s d zero o b pagenum chain less = absurd (omega (arith, less))
shadow_walk_lem supply s zero (suc n) o b pagenum (last, above, kind) less =
    inr (ground (arith, above), rw last refl)
shadow_walk_lem supply s (suc d) (suc n) o b pagenum (under, above, kind, bottom, chain) less =
    elim (Option-cases (resident s o pagenum)) [
      | inr (i, hit) ↦ inl (i, ground (arith, above, hit), rw (page_at s o pagenum i hit) refl)
      | inl miss ↦ elim (shadow_walk_lem supply s d n under b pagenum chain (omega (arith, less))) [
        | inl (i, run, sees) ↦
            inl (i, ground (arith, above, miss, run), rw (page_gone s o pagenum miss, above) sees)
        | inr (run, sees) ↦
            inr (ground (arith, above, miss, run), rw (page_gone s o pagenum miss, above) sees)
      ]
    ]

kinds : (k : ObjectKind) → is_shadow k ≡ false → (k ≡ anon_object) ⊎ (k ≡ vnode_object)
kinds anon_object h = inl refl
kinds vnode_object h = inr refl
kinds shadow_object h = absurd (ground (arith, h))

-- The bottom object gives its page, with at most one new frame.
module _ (supply : Supply) (s : Frames) (b pagenum i : ℕ) (bytes : ℕ → ℕ)
    (quiet : (k : ℕ) → resident s b pagenum ≡ some k → (s.pframe k).pf_busy ≡ false)
    (kind : is_shadow (s.mmobj b).mmo_ops ≡ false) (alone : (s.mmobj b).mmo_shadowed ≡ none)
    (gives : origin supply s b pagenum ≡ some bytes) (alive : 0 < (s.mmobj b).mmo_refcount)
    (room : supply.new_frame s ≡ some i) (new : IsNew s i) where
  abbrev Gives : Option (Got × Frames) → Type 0
  Gives run =
      (k : ℕ) × (t : Frames) × (sight : ℕ → ℕ) × (run ≡ some (found k, t))
      × (seen 0 supply s b pagenum ≡ some sight)
      × Finds supply s b pagenum i sight k t
      × ((t.pframe k).pf_busy ≡ false)

  from_frame :
      (fill : Fill) (k : ℕ)
      → resident s b pagenum ≡ some k
      → Gives (pframe_get supply fill b pagenum s)
  unfolding pframe_get pframe_get_resident seen
  from_frame fill k hit =
      let idle = touch-idle s k (quiet k hit) in
      (
        k,
        touch s k,
        (s.pframe k).pf_bytes,
        ground (arith, hit, idle),
        rw (page_at s b pagenum k hit) refl,
        touch-Finds supply s b pagenum i k,
        idle,
      )

  module _ (t : Frames) (e : Enters s b pagenum i bytes t)
      (miss : resident s b pagenum ≡ none) where
    gone : page s b pagenum ≡ none
    gone = page_gone s b pagenum miss

    pages_kept :
        (x m : ℕ)
        → (page t x m ≡ page s x m)
          ⊎ ((b ≡ x)
              × (pagenum ≡ m)
              × (page s b pagenum ≡ none)
              × (page t b pagenum ≡ origin supply s b pagenum))
    pages_kept x m = elim (pages_cases supply s t b pagenum i bytes e new gone alone gives x m) [
      | inr same ↦ inl same
      | inl (here, there) ↦
          inr (here, there, gone, page-Entered s b pagenum i bytes t e.entered new ∙ sym gives)
    ]

    places_kept : (x m j : ℕ) → resident s x m ≡ some j → resident t x m ≡ some j
    places_kept x m j h = elim (ℕ_discrete b x) [
      | no other ↦ (lookup-Entered_other s b pagenum i bytes t e.entered new x m (inl other)).0 ∙ h
      | yes here ↦ elim (ℕ_discrete pagenum m) [
        | no other ↦
            (lookup-Entered_other s b pagenum i bytes t e.entered new x m (inr other)).0 ∙ h
        | yes there ↦ absurd (
            ground (
              arith,
              subst (λ z. resident s z m ≡ none) here
                  (subst (λ z. resident s b z ≡ none) there miss),
              h,
            ))
      ]
    ]

  from_fill :
      (fill : Fill)
      → resident s b pagenum ≡ none
      → ((t : Frames) × (pframe_get supply fill b pagenum s ≡ some (found i, t))
          × Enters s b pagenum i bytes t)
      → Gives (pframe_get supply fill b pagenum s)
  unfolding seen
  from_fill fill miss (t, run, e) = (
    i,
    t,
    bytes,
    run,
    rw (page_gone s b pagenum miss, gives) refl,
    record {
      holds = e.entered.holds;
      same =
          seen_entered supply s t b pagenum i bytes e new (page_gone s b pagenum miss) alone gives;
      objects = e.objects;
      kept = e.entered.others;
      places = λ x m j h. places_kept t e miss x m j h;
      pages = λ x m. pages_kept t e miss x m;
    },
    e.idle,
  )

  bottom_anon :
      (s.mmobj b).mmo_ops ≡ anon_object → Gives (pframe_get supply anon_fillpage b pagenum s)
  bottom_anon is_anon = elim (Option-cases (resident s b pagenum)) [
    | inr (k, hit) ↦ from_frame anon_fillpage k hit
    | inl miss ↦
        (let zero_bytes : zeros ≡ bytes =
            some-injective zeros bytes
              (subst (λ k. origin_of supply k b pagenum ≡ some bytes) is_anon gives) in
          from_fill anon_fillpage miss (
            subst
              (λ z.
                (t : Frames) × (pframe_get supply anon_fillpage b pagenum s ≡ some (found i, t))
                × Enters s b pagenum i z t)
              zero_bytes (anon_get-missing supply s b pagenum i miss room alive)))
  ]

  bottom_vnode : (s.mmobj b).mmo_ops ≡ vnode_object → Gives (vlookuppage supply b pagenum s)
  unfolding vlookuppage
  bottom_vnode is_vnode =
      let fills = subst (λ k. origin_of supply k b pagenum ≡ some bytes) is_vnode gives in
      elim (Bool-cases (leb (supply.vn_len b) (pagenum * 2 ^ 12 % 2 ^ 32))) [
        | inl outside ↦ absurd (ground (arith, outside, fills))
        | inr inside ↦
            (let reads : supply.vnode_fillpage b pagenum ≡ some bytes =
                ground (arith, inside, fills) in
              rw inside (elim (Option-cases (resident s b pagenum)) [
                | inr (k, hit) ↦ from_frame (vreadpage supply) k hit
                | inl miss ↦
                    from_fill (vreadpage supply) miss
                      (vnode_get-missing supply s b pagenum i bytes miss room alive reads)
              ]))
      ]

  pub bottom_lookup_lem : Gives (bottom_lookup supply b pagenum s)
  unfolding bottom_lookup
  bottom_lookup_lem = elim (kinds (s.mmobj b).mmo_ops kind) [
    | inl is_anon ↦
        (let (k, t, sight, run, here, f, idle) = bottom_anon is_anon in
          (k, t, sight, ground (arith, is_anon, run), here, f, idle))
    | inr is_vnode ↦
        (let (k, t, sight, run, here, f, idle) = bottom_vnode is_vnode in
          (k, t, sight, ground (arith, is_vnode, run), here, f, idle))
  ]

pub bottom_facts :
    (d : ℕ) (s : Frames) (o b : ℕ)
    → IsChain d s o b
    → ((s.mmobj b).mmo_shadowed ≡ none) × (is_shadow (s.mmobj b).mmo_ops ≡ false)
unfolding IsChain
bottom_facts zero s o b (same, above, kind) = rw (← same) (above, kind)
bottom_facts (suc d) s o b (under, above, kind, bottom, chain) = bottom_facts d s under b chain

pub bottom_obj :
    (d : ℕ) (s : Frames) (o b : ℕ)
    → IsChain (suc d) s o b
    → ((s.mmobj o).mmo_bottom_obj ≡ b) × (is_some (s.mmobj o).mmo_shadowed ≡ true)
unfolding IsChain
bottom_obj d s o b (under, above, kind, bottom, chain) = (bottom, rw above refl)

-- Looking up a page of a shadow object for reading: at the top of a chain of objects over a bottom object
-- that has the page or can fill it, and that has a reference, when no frame is busy and the allocators
-- give an unused frame, the result is a frame that is not busy and holds the bytes of the page in the first object of the chain
-- that has it, or else what the bottom object is filled with. Of any page m, the same is seen after as
-- before at any object x.
pub shadow_read_lem :
    (supply : Supply) (s : Frames) (d n o b pagenum i e x m : ℕ) (bytes : ℕ → ℕ)
    → IsChain (suc d) s o b
    → suc d < n
    → Quiet s
    → origin supply s b pagenum ≡ some bytes
    → 0 < (s.mmobj b).mmo_refcount
    → supply.new_frame s ≡ some i
    → IsNew s i
    → (k : ℕ) × (t : Frames) × (sight : ℕ → ℕ) × (shadow_read n supply o pagenum s
        ≡ some (found k, t))
      × ((t.pframe k).pf_bytes ≡ sight)
      × ((t.pframe k).pf_busy ≡ false)
      × (seen (suc d) supply s o pagenum ≡ some sight)
      × (seen e supply t x m ≡ seen e supply s x m)
unfolding shadow_read
shadow_read_lem supply s d n o b pagenum i e x m bytes chain less quiet gives alive room new =
    let (bottom, above) = bottom_obj d s o b chain in
    let (alone, kind) = bottom_facts (suc d) s o b chain in
    elim (shadow_walk_lem supply s (suc d) n o b pagenum chain less) [
      | inl (k, run, sees) ↦
          (let idle = touch-idle s k (quiet k) in
            let f = touch-Finds supply s b pagenum i k in
            (
              k,
              touch s k,
              (s.pframe k).pf_bytes,
              ground (arith, above, run, idle),
              f.holds,
              idle,
              sees,
              f.same e x m,
            ))
      | inr (run, sees) ↦
          (let (k, t, sight, look, here, f, idle) =
              bottom_lookup_lem supply s b pagenum i bytes (λ j _. quiet j) kind alone gives alive
                room new in
            (
              k,
              t,
              sight,
              ground (arith, above, run, bottom, look),
              f.holds,
              idle,
              sees ∙ here,
              f.same e x m,
            ))
    ]
