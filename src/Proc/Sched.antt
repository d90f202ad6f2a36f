-- ===== src/Proc/Sched.antt =====
-- The scheduler of kernel/proc/sched.c and sched_helper.c. Interrupt
-- levels are left out: no operation is interrupted. A call that gives the processor away is cut at
-- `context_switch`, and what the thread does when it is switched to again is a function of its own.
use weenix_assignment.Base.{
  ℕ, zero, suc, Bool, true, false, not, Option, none, some, ltb, ◌==◌, if◌then◌else◌, ◌>>=◌, ◌>>◌,
  kassert, eintr, Result, ok, err,
}
use weenix_assignment.Proc.Queue.{
  ThreadState, kt_run, kt_sleep, kt_sleep_cancellable, Kernel, kt_runq, update, set_state,
  ktqueue_enqueue, ktqueue_dequeue, ktqueue_remove,
}

abbrev pub is_runq : Option ℕ → Bool
is_runq none = false
is_runq (some q) = q == kt_runq

unfoldable pub sched_make_runnable : Kernel → ℕ → Option Kernel
sched_make_runnable k thr = do
  kassert (not (is_runq (k.thread thr).kt_wchan))
  ktqueue_enqueue (set_state k thr kt_run) kt_runq thr

-- `none` is an empty run queue: the loop of `sched_switch` waits for an interrupt that fills it.
unfoldable pub sched_switch : Kernel → Option Kernel
sched_switch k =
    let (k', next) = ktqueue_dequeue k kt_runq in
    elim next [ none ↦ none | some thr ↦ some (record k' { curthr = thr }) ]

-- Up to the call of `sched_switch`.
unfoldable pub sleep_on : ThreadState → Kernel → (q : ℕ) → Option Kernel
sleep_on s k q = ktqueue_enqueue (set_state k k.curthr s) q k.curthr

unfoldable pub sched_sleep_on : Kernel → (q : ℕ) → Option Kernel
unfolding sleep_on
sched_sleep_on k q = do k' ← sleep_on kt_sleep k q; sched_switch k'

-- What a cancellable sleep does before it returns: it returns at once, or it sleeps.
pub data Sleep : Type 0 where
  returns : Result (Unit {0}) → Sleep
  sleeps : Kernel → Sleep

unfoldable pub sched_cancellable_sleep_on : Kernel → (q : ℕ) → Option Sleep
unfolding sleep_on
sched_cancellable_sleep_on k q =
    if (k.thread k.curthr).kt_cancelled
    then some (returns (err eintr))
    else (do k' ← sleep_on kt_sleep_cancellable k q; k'' ← sched_switch k'; some (sleeps k''))

-- What it returns when the thread runs again.
unfoldable pub wake_result : Kernel → Result (Unit {0})
wake_result k = if (k.thread k.curthr).kt_cancelled then err eintr else ok tt

abbrev pub is_sleeping : ThreadState → Bool
is_sleeping kt_sleep = true
is_sleeping kt_sleep_cancellable = true
is_sleeping _ = false

-- The result is the thread that was woken up; `none` inside is NULL.
unfoldable pub sched_wakeup_on : Kernel → (q : ℕ) → Option (Kernel × Option ℕ)
sched_wakeup_on k q =
    if ltb 0 (k.queue q).tq_size
    then (let (k', woken) = ktqueue_dequeue k q in
        elim woken [
          | none ↦ none
          | some thr ↦ (do
            kassert (is_sleeping (k'.thread thr).kt_state)
            k'' ← sched_make_runnable k' thr
            some (k'', some thr))
        ])
    else some (k, none)

-- The loop of `sched_broadcast_on`, one round for each thread of the queue.
unfoldable pub broadcast_loop : ℕ → Kernel → (q : ℕ) → Option Kernel
broadcast_loop zero k q = some k
broadcast_loop (suc n) k q =
    let (k', woken) = ktqueue_dequeue k q in
    elim woken [
      | none ↦ none
      | some thr ↦ elim (sched_make_runnable k' thr) [
        | none ↦ none
        | some k'' ↦ broadcast_loop n k'' q
      ]
    ]

unfoldable pub sched_broadcast_on : Kernel → (q : ℕ) → Option Kernel
unfolding broadcast_loop
sched_broadcast_on k q = broadcast_loop (k.queue q).tq_size k q

abbrev pub set_cancelled : Kernel → ℕ → Kernel
set_cancelled k thr = record k {
  thread = update k.thread thr (record (k.thread thr) { kt_cancelled = true });
}

unfoldable pub sched_cancel : Kernel → (kthr : ℕ) → Option Kernel
sched_cancel k kthr =
    let k' = set_cancelled k kthr in
    elim (k.thread kthr).kt_state [
      | kt_sleep_cancellable ↦ elim (k.thread kthr).kt_wchan [
        | none ↦ none
        | some q ↦ (do k'' ← ktqueue_remove k' q kthr; sched_make_runnable k'' kthr)
      ]
      | _ ↦ some k'
    ]
