-- ===== src/Mm/Frames/Seen.antt =====
-- What a process sees of a page of a memory object: the page of the first object of its chain that has
-- it, or what the bottom object would be filled with.
use mathlib.Core.Path.{subst}
use weenix_assignment.Base.{
  ℕ, zero, suc, ◌*◌, ◌%◌, ◌^◌, ◌≡◌, refl, ap, ◌⊎◌, inl, inr, Bool, true, false, Option, none, some,
  leb, if◌then◌else◌, ℕ_discrete, Option-cases,
}
use weenix_assignment.Mm.Frames.{
  Frames, ObjectKind, anon_object, shadow_object, vnode_object, Supply, zeros,
}
use weenix_assignment.Mm.Frames.Lookup.{page, IsNew, page-Entered, page-Entered_other}
use weenix_assignment.Mm.Frames.Enter.{SameObjects, Enters}

-- What a page of an object is filled with, if it lies in the object and can be read.
abbrev pub origin_of : Supply → ObjectKind → ℕ → ℕ → Option (ℕ → ℕ)
origin_of supply anon_object o pagenum = some zeros
origin_of supply vnode_object o pagenum =
    if leb (supply.vn_len o) (pagenum * 2 ^ 12 % 2 ^ 32)
    then none
    else supply.vnode_fillpage o pagenum
origin_of supply shadow_object o pagenum = none

abbrev pub origin : Supply → Frames → ℕ → ℕ → Option (ℕ → ℕ)
origin supply s o pagenum = origin_of supply (s.mmobj o).mmo_ops o pagenum

abbrev pub or_else {ℓ} : {A : Type ℓ} → Option A → Option A → Option A
or_else (some a) b = some a
or_else none b = b

unfoldable pub seen : ℕ → Supply → Frames → ℕ → ℕ → Option (ℕ → ℕ)
seen zero supply s o pagenum = or_else (page s o pagenum) (origin supply s o pagenum)
seen (suc d) supply s o pagenum = or_else (page s o pagenum) (elim (s.mmobj o).mmo_shadowed [
  | none ↦ origin supply s o pagenum
  | some under ↦ seen d supply s under pagenum
])

-- A chain of shadow objects above a bottom object that is none.
abbrev pub is_shadow : ObjectKind → Bool
is_shadow shadow_object = true
is_shadow _ = false

unfoldable pub IsChain : ℕ → Frames → ℕ → ℕ → Type 0
IsChain zero s o b =
    (o ≡ b) × ((s.mmobj o).mmo_shadowed ≡ none) × (is_shadow (s.mmobj o).mmo_ops ≡ false)
IsChain (suc d) s o b =
    (under : ℕ) × ((s.mmobj o).mmo_shadowed ≡ some under)
    × (is_shadow (s.mmobj o).mmo_ops ≡ true)
    × ((s.mmobj o).mmo_bottom_obj ≡ b)
    × IsChain d s under b

-- Two states in which the same is seen.
pub seen_same :
    (supply : Supply) (s t : Frames)
    → SameObjects s t
    → ((o pagenum : ℕ) → page t o pagenum ≡ page s o pagenum)
    → (d o pagenum : ℕ) → seen d supply t o pagenum ≡ seen d supply s o pagenum
unfolding seen
seen_same supply s t objects pages zero o pagenum = rw (pages o pagenum, (objects o).0) refl
seen_same supply s t objects pages (suc d) o pagenum =
    elim (Option-cases (s.mmobj o).mmo_shadowed) [
      | inl bottom ↦ rw (pages o pagenum, (objects o).1, bottom, (objects o).0) refl
      | inr (under, above) ↦
          rw (pages o pagenum, (objects o).1, above)
            (ap (or_else (page s o pagenum)) (seen_same supply s t objects pages d under pagenum))
    ]

-- A page of a bottom object that enters with what the object is filled with was seen before.
module _ (supply : Supply) (s t : Frames) (b pagenum i : ℕ) (bytes : ℕ → ℕ)
    (e : Enters s b pagenum i bytes t) (new : IsNew s i) (missing : page s b pagenum ≡ none)
    (bottom : (s.mmobj b).mmo_shadowed ≡ none)
    (gives : origin supply s b pagenum ≡ some bytes) where
  pub pages_cases : (o n : ℕ) → ((b ≡ o) × (pagenum ≡ n)) ⊎ (page t o n ≡ page s o n)
  pages_cases o n = elim (ℕ_discrete b o) [
    | no other ↦ inr (page-Entered_other s b pagenum i bytes t e.entered new o n (inl other))
    | yes same ↦ elim (ℕ_discrete pagenum n) [
      | no other ↦ inr (page-Entered_other s b pagenum i bytes t e.entered new o n (inr other))
      | yes same' ↦ inl (same, same')
    ]
  ]

  seen_here : (d : ℕ) → seen d supply t b pagenum ≡ seen d supply s b pagenum
  unfolding seen
  seen_here zero = rw (page-Entered s b pagenum i bytes t e.entered new, missing, gives) refl
  seen_here (suc d) =
      rw (page-Entered s b pagenum i bytes t e.entered new, missing, bottom, gives) refl

  pub seen_entered : (d o n : ℕ) → seen d supply t o n ≡ seen d supply s o n
  unfolding seen
  seen_entered zero o n = elim (pages_cases o n) [
    | inr same ↦ rw (same, (e.objects o).0) refl
    | inl (ob, nb) ↦
        subst (λ x. seen 0 supply t x n ≡ seen 0 supply s x n) ob
          (subst (λ m. seen 0 supply t b m ≡ seen 0 supply s b m) nb (seen_here 0))
  ]
  seen_entered (suc d) o n = elim (pages_cases o n) [
    | inl (ob, nb) ↦
        subst (λ x. seen (suc d) supply t x n ≡ seen (suc d) supply s x n) ob
          (subst (λ m. seen (suc d) supply t b m ≡ seen (suc d) supply s b m) nb
            (seen_here (suc d)))
    | inr same ↦ elim (Option-cases (s.mmobj o).mmo_shadowed) [
      | inl last ↦ rw (same, (e.objects o).1, last, (e.objects o).0) refl
      | inr (under, above) ↦
          rw (same, (e.objects o).1, above) (ap (or_else (page s o n)) (seen_entered d under n))
    ]
  ]
