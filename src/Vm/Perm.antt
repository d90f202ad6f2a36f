-- ===== src/Vm/Perm.antt =====
-- What `range_perm` tests.
use weenix_assignment.Base.{
  ℕ, zero, suc, ◌+◌, ◌*◌, ◌/◌, ◌%◌, ◌^◌, ◌≤◌, ◌<◌, ◌≡◌, ◌↔◌, refl, Bool, true, false, some, List,
  arith, add32, is_some, Bool-cases, inl, inr, dec_lt,
}
use weenix_assignment.Vm.Page.{page_size, addr_to_pn}
use weenix_assignment.Vm.Area.{Area, vmmap_lookup}
use weenix_assignment.Vm.Access.{addr_perm, range_perm_loop, range_perm}

-- Every address from `lo` up to `hi` lies in an area.
abbrev pub Covered : List Area → ℕ → ℕ → Type 0
Covered areas lo hi = (a : ℕ) → lo ≤ a → a < hi → is_some (vmmap_lookup areas (addr_to_pn a)) ≡ true

module _ (areas : List Area) (avaddr len perm : ℕ) (aligned : avaddr % 2 ^ 12 ≡ 0)
    (fits : avaddr + len + 2 ^ 12 < 2 ^ 32) where
  same_page :
      (i a : ℕ)
      → i % 2 ^ 12 ≡ 0
      → avaddr + i ≤ a
      → a < avaddr + i + 2 ^ 12
      → addr_to_pn a ≡ addr_to_pn (avaddr + i)
  same_page i a e p q = omega arith

  loop-Covered :
      (fuel i : ℕ)
      → i % 2 ^ 12 ≡ 0
      → len + 2 ^ 12 < i + fuel * 2 ^ 12
      → i ≤ len + 2 ^ 12
      → (b : Bool) × (range_perm_loop fuel areas avaddr len perm i ≡ some b)
        × ((b ≡ true) ↔ Covered areas (avaddr + i) (avaddr + len))
  unfolding range_perm_loop addr_perm
  loop-Covered zero i e more small = absurd (omega arith)
  loop-Covered (suc f) i e more small = elim (dec_lt i len) [
    | no done ↦ (true, ground arith, (λ t a p q. absurd (omega arith), λ cov. refl))
    | yes lt ↦
        let here = avaddr + i in
        let there : add32 avaddr i ≡ avaddr + i = omega arith in
        let step : add32 i page_size ≡ i + 2 ^ 12 = omega arith in
        let (b, run, iff) = loop-Covered f (i + 2 ^ 12) (omega arith) (omega arith) (omega arith) in
        elim (Bool-cases (is_some (vmmap_lookup areas (addr_to_pn here)))) [
          | inl mapped ↦ (
            b,
            ground (arith, there, step, run, mapped),
            (
              λ t a p q. elim (dec_lt a (here + 2 ^ 12)) [
                | yes near ↦ rw (same_page i a e p near) mapped
                | no far ↦ iff.0 t a (omega arith) q
              ],
              λ cov. iff.1 (λ a p q. cov a (omega arith) q),
            ),
          )
          | inr unmapped ↦ (
            false,
            ground (arith, there, unmapped),
            (λ t. cc, λ cov. cc (unmapped, cov here (omega arith) (omega arith))),
          )
        ]
  ]

-- For a page-aligned range, `range_perm` returns, whatever the permissions asked for, whether every
-- address of the range lies in an area.
pub range_perm_lem :
    (areas : List Area) (avaddr len perm : ℕ)
    → avaddr % 2 ^ 12 ≡ 0
    → avaddr + len + 2 ^ 12 < 2 ^ 32
    → (b : Bool) × (range_perm areas avaddr len perm ≡ some b)
      × ((b ≡ true) ↔ Covered areas avaddr (avaddr + len))
unfolding range_perm
range_perm_lem areas avaddr len perm aligned fits =
    let (b, run, iff) =
      loop-Covered areas avaddr len perm aligned fits (suc (suc (len / 2 ^ 12))) 0 refl
        (omega arith) (omega arith) in
    (b, run, (λ t a p q. iff.0 t a (omega arith) q, λ cov. iff.1 (λ a p q. cov a (omega arith) q)))
