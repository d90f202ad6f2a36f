-- ===== src/Proc/Mutex.antt =====
-- The mutex of kernel/proc/kmutex.c, on the scheduler's state. A mutex is its holder and the address of
-- its wait queue. Of a call that sleeps the model gives the state when another thread has been
-- switched to; the rest of it is only the return value, `Sched.wake_result`.
use weenix_assignment.Base.{
  ℕ, Bool, false, not, Option, none, some, ◌==◌, if◌then◌else◌, ◌>>=◌, ◌>>◌, kassert, ok,
}
use weenix_assignment.Proc.Queue.{Kernel, sched_queue_init, sched_queue_empty}
use weenix_assignment.Proc.Sched.{
  Sleep, returns, sched_sleep_on, sched_cancellable_sleep_on, sched_wakeup_on,
}

-- `kmutex_t`, the queue by its address.
pub record Kmutex : Type 0 where
  pub km_holder : Option ℕ
  pub km_waitq : ℕ

abbrev pub holds : Kmutex → ℕ → Bool
holds mtx thr = elim mtx.km_holder [ none ↦ false | some h ↦ h == thr ]

unfoldable pub kmutex_init : Kernel → Kmutex → Kernel × Kmutex
unfolding sched_queue_init
kmutex_init k mtx = (sched_queue_init k mtx.km_waitq, record mtx { km_holder = none })

unfoldable pub kmutex_lock : Kernel → Kmutex → Option (Kernel × Kmutex)
unfolding sched_sleep_on
kmutex_lock k mtx = do
  kassert (not (holds mtx k.curthr))
  elim mtx.km_holder [
    | none ↦ some (k, record mtx { km_holder = some k.curthr })
    | some _ ↦ (do k' ← sched_sleep_on k mtx.km_waitq; some (k', mtx))
  ]

unfoldable pub kmutex_lock_cancellable : Kernel → Kmutex → Option (Sleep × Kmutex)
unfolding sched_cancellable_sleep_on
kmutex_lock_cancellable k mtx = do
  kassert (not (holds mtx k.curthr))
  elim mtx.km_holder [
    | none ↦ some (returns (ok tt), record mtx { km_holder = some k.curthr })
    | some _ ↦ (do s ← sched_cancellable_sleep_on k mtx.km_waitq; some (s, mtx))
  ]

unfoldable pub kmutex_unlock : Kernel → Kmutex → Option (Kernel × Kmutex)
unfolding sched_wakeup_on sched_queue_empty
kmutex_unlock k mtx = do
  kassert (holds mtx k.curthr)
  (k', mtx') ←
      (if sched_queue_empty k mtx.km_waitq
        then some (k, record mtx { km_holder = none })
        else (sched_wakeup_on k mtx.km_waitq >>= λ woken.
            let (k'', thr) = woken in some (k'', record mtx { km_holder = thr })))
  kassert (not (holds mtx' k.curthr))
  some (k', mtx')
