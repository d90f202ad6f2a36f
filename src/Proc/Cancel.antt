-- ===== src/Proc/Cancel.antt =====
-- Cancelling keeps the bookkeeping.
use weenix_assignment.Base.{ℕ, ◌≡◌, ◌≢◌, refl, true, some, arith, inl, inr, Option-cases, ◌⊎◌}
use weenix_assignment.Proc.Queue.{
  ThreadState, kt_no_state, kt_run, kt_sleep, kt_sleep_cancellable, kt_exited, Kthread, Kernel,
  kt_runq,
}
use weenix_assignment.Proc.Sched.{set_cancelled, sched_cancel}
use weenix_assignment.Proc.Valid.{state_ok, Counted, IsKernel, remove-Counted}
use weenix_assignment.Proc.Wake.{make_runnable-IsKernel}

set_cancelled-Counted : {k : Kernel} (thr : ℕ) → Counted k → Counted (set_cancelled k thr)
set_cancelled-Counted thr v = record {
  counted = λ q t. ground (arith, v.counted q t);
  sized = v.sized;
}

-- Cancelling a thread sets its flag. One in a cancellable sleep also leaves its queue for the run
-- queue; any other keeps its state and its queue.
pub sched_cancel-IsKernel :
    (k : Kernel) (thr : ℕ)
    → IsKernel k
    → (k' : Kernel) × (sched_cancel k thr ≡ some k')
      × IsKernel k'
      × ((k'.thread thr).kt_cancelled ≡ true)
      × (((k.thread thr).kt_state ≡ kt_sleep_cancellable)
            × ((k'.thread thr).kt_wchan ≡ some kt_runq)
            × ((k'.thread thr).kt_state ≡ kt_run)
          ⊎ ((k.thread thr).kt_state ≢ kt_sleep_cancellable)
            × ((k'.thread thr).kt_wchan ≡ (k.thread thr).kt_wchan)
            × ((k'.thread thr).kt_state ≡ (k.thread thr).kt_state))
      × ((t : ℕ) → thr ≢ t → k'.thread t ≡ k.thread t)
unfolding sched_cancel
sched_cancel-IsKernel k thr v =
    let c = set_cancelled-Counted thr v.queues in
    elim (asleep (k.thread thr).kt_state) [
      | inl cancellable ↦
          (let (q, on) = waiting (k.thread thr) cancellable (v.states thr) in
            let (k₁, e₁, v₁, cur₁, threads₁, queues₁) =
              remove-Counted c q thr (ground (arith, on)) in
            let (k₂, e₂, v₂, cur₂, threads₂, queues₂) =
              make_runnable-IsKernel k₁ thr v₁ (ground (arith, threads₁ thr))
                (λ t other. ground (arith, threads₁ t, v.states t)) in
            (
              k₂,
              ground (arith, cancellable, on, e₁, e₂),
              v₂,
              ground (arith, threads₁ thr, threads₂ thr),
              inl (cancellable, ground (arith, threads₂ thr), ground (arith, threads₂ thr)),
              λ t other. ground (arith, threads₁ t, threads₂ t),
            ))
      | inr other ↦ (
        set_cancelled k thr,
        ground (arith, other),
        record { queues = c; states = λ t. ground (arith, v.states t, v.states thr) },
        ground arith,
        inr (other, ground arith, ground arith),
        λ t ne. ground arith,
      )
    ]
  where
    asleep : (s : ThreadState) → (s ≡ kt_sleep_cancellable) ⊎ (s ≢ kt_sleep_cancellable)
    asleep kt_sleep_cancellable = inl refl
    asleep kt_no_state = inr (λ h. ground arith)
    asleep kt_run = inr (λ h. ground arith)
    asleep kt_sleep = inr (λ h. ground arith)
    asleep kt_exited = inr (λ h. ground arith)

    waiting :
        (th : Kthread)
        → th.kt_state ≡ kt_sleep_cancellable
        → state_ok th ≡ true
        → (q : ℕ) × (th.kt_wchan ≡ some q)
    waiting th h ok = elim (Option-cases th.kt_wchan) [
      | inl free ↦ absurd (ground (arith, free))
      | inr (q, on) ↦ (q, on)
    ]
