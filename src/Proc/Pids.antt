-- ===== src/Proc/Pids.antt =====
-- Fresh process identifiers.
use weenix_assignment.Base.{
  ℕ, zero, suc, ◌+◌, ◌-◌, ◌%◌, ◌<◌, ◌≡◌, ◌≢◌, ap, ◌∙◌, sym, refl, Bool, true, false, Option, none,
  some, arith, inl, inr, ◌⊎◌, Bool-cases, ◌>>=◌, is_some, ℕ_discrete,
}
use weenix_assignment.Proc.Process.{System, proc_max_count, proc_lookup, getid_loop, _proc_getid}

-- The identifier `d` steps after `next_pid`.
abbrev pub step : ℕ → ℕ → ℕ
step next d = (next + d) % proc_max_count

-- Whether a process of the list has the identifier.
abbrev pub pid_used : System → ℕ → Bool
pid_used s p = is_some (proc_lookup s.proc s.proc_list (some p))

getid-around :
    (n : ℕ) (used : ℕ → Bool) (next pid : ℕ)
    → used pid ≡ true
    → (pid + 1) % proc_max_count ≡ next
    → getid_loop (suc n) used next pid ≡ some none
unfolding getid_loop
getid-around n used next pid taken around = ground (arith, taken, around)

getid-free :
    (n : ℕ) (used : ℕ → Bool) (next pid : ℕ)
    → used pid ≡ false
    → getid_loop (suc n) used next pid ≡ some (some pid)
unfolding getid_loop
getid-free n used next pid free = ground (arith, free)

getid-next :
    (n : ℕ) (used : ℕ → Bool) (next pid : ℕ)
    → used pid ≡ true
    → (pid + 1) % proc_max_count ≢ next
    → getid_loop (suc n) used next pid ≡ getid_loop n used next ((pid + 1) % proc_max_count)
unfolding getid_loop
getid-next n used next pid taken more = ground (arith, taken, more)

getid_loop_lem :
    (n : ℕ) (used : ℕ → Bool) (next d : ℕ)
    → next < proc_max_count
    → n + d ≡ proc_max_count
    → 0 < n
    → ((i : ℕ) → i < d → used (step next i) ≡ true)
    → (getid_loop n used next (step next d) ≡ some none)
        × ((i : ℕ) → i < proc_max_count → used (step next i) ≡ true)
      ⊎ (e : ℕ) × (getid_loop n used next (step next d) ≡ some (some (step next e)))
        × (e < proc_max_count)
        × (used (step next e) ≡ false)
        × ((i : ℕ) → i < e → used (step next i) ≡ true)
getid_loop_lem zero used next d h k m all = absurd (omega (arith, m))
getid_loop_lem (suc n) used next d h k m all = elim (Bool-cases (used (step next d))) [
  | inr free ↦ inr (d, getid-free n used next (step next d) free, omega (arith, k), free, all)
  | inl taken ↦
      (let all' : (i : ℕ) → i < suc d → used (step next i) ≡ true = λ i b. elim (ℕ_discrete i d) [
        | yes same ↦ ap (λ j. used (step next j)) same ∙ taken
        | no other ↦ all i (omega (arith, b, other))
      ] in
        elim (ℕ_discrete (suc d) proc_max_count) [
          | yes around ↦ inl (
            getid-around n used next (step next d) taken (omega (arith, around, h)),
            λ i b. all' i (omega (arith, b, around)),
          )
          | no more ↦
              (let e : (step next d + 1) % proc_max_count ≡ step next (suc d) = omega arith in
                let ne : (step next d + 1) % proc_max_count ≢ next =
                  λ same. absurd (omega (arith, same, more, h, k)) in
                let go =
                  getid-next n used next (step next d) taken ne ∙ ap (getid_loop n used next) e in
                elim (getid_loop_lem n used next (suc d) h (omega (arith, k))
                  (omega (arith, k, more)) all') [
                    | inl (full, every) ↦ inl (go ∙ full, every)
                    | inr (e, found, low, free, before) ↦ inr (e, go ∙ found, low, free, before)
                  ])
        ])
]

abbrev pack : ℕ → Option (Option ℕ) → Option (Option ℕ × ℕ)
pack next pid = pid >>= λ p. some (p, elim p [ none ↦ next | some q ↦ (q + 1) % proc_max_count ])

reached :
    (s : System) (p : ℕ)
    → s.next_pid < proc_max_count
    → p < proc_max_count
    → ((i : ℕ) → i < proc_max_count → pid_used s (step s.next_pid i) ≡ true)
    → pid_used s p ≡ true
reached s p h b every =
    let i = (p + proc_max_count - s.next_pid) % proc_max_count in
    let there : step s.next_pid i ≡ p = omega (arith, h, b) in
    ap (pid_used s) (sym there) ∙ every i (omega arith)

-- A process identifier is given out unless all 65536 are in use. It is the first unused one from
-- `next_pid` on, around the end, and no process of the list has it.
pub _proc_getid_lem :
    (s : System)
    → s.next_pid < proc_max_count
    → (_proc_getid s ≡ some (none, s.next_pid))
        × ((p : ℕ) → p < proc_max_count → pid_used s p ≡ true)
      ⊎ (e : ℕ) × (e < proc_max_count)
        × (_proc_getid s ≡ some (some (step s.next_pid e), step s.next_pid (suc e)))
        × (pid_used s (step s.next_pid e) ≡ false)
        × ((i : ℕ) → i < e → pid_used s (step s.next_pid i) ≡ true)
unfolding _proc_getid
_proc_getid_lem s h =
    let start : step s.next_pid 0 ≡ s.next_pid = omega (arith, h) in
    let from = ap (getid_loop proc_max_count (pid_used s) s.next_pid) (sym start) in
    elim (getid_loop_lem proc_max_count (pid_used s) s.next_pid 0 h refl (omega arith)
      (λ i b. absurd (omega (arith, b)))) [
        | inl (full, every) ↦ inl (ap (pack s.next_pid) (from ∙ full), λ p b. reached s p h b every)
        | inr (e, found, low, free, before) ↦ inr (
          e,
          low,
          ap (pack s.next_pid) (from ∙ found)
              ∙ ap (λ q. some (some (step s.next_pid e), q)) (omega arith),
          free,
          before,
        )
      ]
