-- ===== src/Proc/MutexSafe.antt =====
-- Sleeping keeps the bookkeeping, and a mutex is handed to the thread that has waited longest.
use weenix_assignment.Base.{
  ℕ, ◌≡◌, ◌≢◌, refl, false, none, some, List, [], ◌∷◌, ◌++◌, arith, last_cases, inl, inr,
  Option-cases, ◌⊎◌,
}
use weenix_assignment.Proc.Queue.{kt_sleep, Kernel, kt_runq, sched_queue_empty}
use weenix_assignment.Proc.Sched.{sched_switch, sleep_on, sched_sleep_on}
use weenix_assignment.Proc.Valid.{IsKernel, enqueue-Counted, dequeue-Counted}
use weenix_assignment.Proc.Wake.{set_state-Counted, sched_wakeup_on-tail}
use weenix_assignment.Proc.Mutex.{Kmutex, holds, kmutex_lock, kmutex_unlock}

-- The current thread, on no queue, goes to the head of `q`; the thread at the tail of the run queue is
-- taken off it and becomes the current one. No other thread is touched.
abbrev pub Slept : Kernel → (q : ℕ) → (rest : List ℕ) → (next : ℕ) → Kernel → Type 0
Slept k q rest next k' =
    (k'.curthr ≡ next)
    × ((k'.queue q).tq_list ≡ k.curthr ∷ (k.queue q).tq_list)
    × ((k'.queue kt_runq).tq_list ≡ rest)
    × ((k'.thread k.curthr).kt_wchan ≡ some q)
    × ((k'.thread next).kt_wchan ≡ none)
    × ((t : ℕ) → k.curthr ≢ t → next ≢ t → k'.thread t ≡ k.thread t)

-- A thread that sleeps on a queue other than the run queue stands at its head, in the sleeping state;
-- the thread that has been runnable longest runs.
pub sched_sleep_on-IsKernel :
    (k : Kernel) (q next : ℕ) (rest : List ℕ)
    → IsKernel k
    → (k.thread k.curthr).kt_wchan ≡ none
    → q ≢ kt_runq
    → (k.queue kt_runq).tq_list ≡ rest ++ next ∷ []
    → (k' : Kernel) × (sched_sleep_on k q ≡ some k')
      × IsKernel k'
      × ((k'.thread k.curthr).kt_state ≡ kt_sleep)
      × Slept k q rest next k'
unfolding sched_sleep_on sleep_on sched_switch
sched_sleep_on-IsKernel k q next rest v free ne e =
    let (k₁, e₁, v₁, cur₁, threads₁, queues₁) =
      enqueue-Counted (set_state-Counted k.curthr kt_sleep v.queues) q k.curthr (ground arith) in
    let (k₂, e₂, v₂, cur₂, on, threads₂, queues₂) =
      dequeue-Counted v₁ kt_runq rest next (ground (arith, queues₁ kt_runq)) in
    let other : k.curthr ≢ next = λ same. ground (arith, on, threads₁ next) in
    (
      record k₂ { curthr = next },
      ground (arith, e₁, e₂),
      record {
        queues = record { counted = v₂.counted; sized = v₂.sized };
        states = λ t. ground (arith, v.states t, threads₁ t, threads₂ t, on);
      },
      ground (arith, threads₁ k.curthr, threads₂ k.curthr),
      (
        refl,
        ground (arith, queues₁ q, queues₂ q),
        ground (arith, queues₂ kt_runq),
        ground (arith, threads₁ k.curthr, threads₂ k.curthr),
        ground (arith, threads₂ next),
        λ t a b. ground (arith, threads₁ t, threads₂ t),
      ),
    )

-- A mutex waits on a queue of its own; while it is free nobody waits, and its holder does not wait.
pub record IsMutex (k : Kernel) (mtx : Kmutex) : Type 0 where
  pub own : mtx.km_waitq ≢ kt_runq
  pub free : mtx.km_holder ≡ none → (k.queue mtx.km_waitq).tq_list ≡ []
  pub busy : (h : ℕ) → mtx.km_holder ≡ some h → (k.thread h).kt_wchan ≢ some mtx.km_waitq

-- Locking a free mutex takes it and changes no thread. On a mutex that another thread holds the
-- current thread joins the head of the wait queue, and the thread at the tail of the run queue runs.
-- Either way the mutex keeps its invariant.
pub kmutex_lock_lem :
    (k : Kernel) (mtx : Kmutex) (next : ℕ) (rest : List ℕ)
    → IsKernel k
    → IsMutex k mtx
    → holds mtx k.curthr ≡ false
    → (k.thread k.curthr).kt_wchan ≡ none
    → (k.queue kt_runq).tq_list ≡ rest ++ next ∷ []
    → (k' : Kernel) × (mtx' : Kmutex) × (kmutex_lock k mtx ≡ some (k', mtx'))
      × IsKernel k'
      × IsMutex k' mtx'
      × ((mtx.km_holder ≡ none) × (mtx'.km_holder ≡ some k.curthr) × (k' ≡ k)
          ⊎ (h : ℕ) × (mtx.km_holder ≡ some h) × (mtx' ≡ mtx) × Slept k mtx.km_waitq rest next k')
unfolding kmutex_lock
kmutex_lock_lem k mtx next rest v m other free e = elim (Option-cases mtx.km_holder) [
  | inl unlocked ↦ (
    k,
    record mtx { km_holder = some k.curthr },
    ground (arith, unlocked, other),
    v,
    record {
      own = m.own;
      free = λ h. absurd (ground arith);
      busy = λ t h. ground (arith, free, h, m.own);
    },
    inl (unlocked, refl, refl),
  )
  | inr (h, locked) ↦
      (let (k', e', v', asleep, slept) =
          sched_sleep_on-IsKernel k mtx.km_waitq next rest v free m.own e in
        (
          k',
          mtx,
          ground (arith, locked, e', other),
          v',
          record {
            own = m.own;
            free = λ no. absurd (ground (arith, locked));
            busy =
                λ t holder. still k k' next rest slept t (m.busy t holder) (ground (arith, holder));
          },
          inr (h, locked, refl, slept),
        ))
]
  where
    still :
        (k k' : Kernel) {q : ℕ} (next : ℕ) (rest : List ℕ)
        → Slept k q rest next k'
        → (t : ℕ) → (k.thread t).kt_wchan ≢ some q
        → k.curthr ≢ t
        → (k'.thread t).kt_wchan ≢ some q
    still k k' next rest (run, joined, left, on, off, same) t ne other =
        ground (arith, off, same t other)

append_nonempty : (l : List ℕ) (x : ℕ) → l ++ x ∷ [] ≢ []
append_nonempty [] x = λ h. ground (arith, h)
append_nonempty (a ∷ l) x = λ h. ground (arith, h)

queued :
    (k : Kernel) (q thr : ℕ) (rest : List ℕ)
    → IsKernel k
    → (k.queue q).tq_list ≡ rest ++ thr ∷ []
    → (k.thread thr).kt_wchan ≡ some q
queued k q thr rest v e =
    let (k₁, e₁, v₁, cur₁, on, threads₁, queues₁) = dequeue-Counted v.queues q rest thr e in on

-- The holder's unlock leaves a mutex that nobody waits for free. Otherwise the thread that has waited
-- longest becomes the holder and goes to the head of the run queue, so that no third thread gets
-- in between.
pub kmutex_unlock_lem :
    (k : Kernel) (mtx : Kmutex)
    → IsKernel k
    → IsMutex k mtx
    → mtx.km_holder ≡ some k.curthr
    → (k' : Kernel) × (mtx' : Kmutex) × (kmutex_unlock k mtx ≡ some (k', mtx'))
      × IsKernel k'
      × IsMutex k' mtx'
      × (((k.queue mtx.km_waitq).tq_list ≡ []) × (mtx'.km_holder ≡ none) × (k' ≡ k)
          ⊎ (thr : ℕ) × (rest : List ℕ) × ((k.queue mtx.km_waitq).tq_list ≡ rest ++ thr ∷ [])
            × (mtx'.km_holder ≡ some thr)
            × ((k'.queue mtx.km_waitq).tq_list ≡ rest)
            × ((k'.queue kt_runq).tq_list ≡ thr ∷ (k.queue kt_runq).tq_list))
unfolding kmutex_unlock sched_queue_empty
kmutex_unlock_lem k mtx v m held = elim (last_cases (k.queue mtx.km_waitq).tq_list) [
  | inl empty ↦ (
    k,
    record mtx { km_holder = none },
    ground (arith, held, empty),
    v,
    record { own = m.own; free = λ h. empty; busy = λ t h. absurd (ground arith) },
    inl (empty, refl, refl),
  )
  | inr (rest, thr, last) ↦
      (let (k', e', v', (cur, threads), waiting, running, others) =
          sched_wakeup_on-tail k mtx.km_waitq thr rest v m.own last in
        let on = queued k mtx.km_waitq thr rest v last in
        let other : thr ≢ k.curthr = λ same. m.busy thr (ground (arith, same)) on in
        (
          k',
          record mtx { km_holder = some thr },
          ground (arith, held, last, append_nonempty rest thr, e', other),
          v',
          record {
            own = m.own;
            free = λ h. absurd (ground arith);
            busy = λ t h. ground (arith, threads t, h, m.own);
          },
          inr (thr, rest, last, refl, waiting, running),
        ))
]
