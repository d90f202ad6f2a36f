-- ===== src/Proc/Wake.antt =====
-- Waking keeps the bookkeeping; wake-ups are first in, first out.
use weenix_assignment.Base.{
  ℕ, zero, suc, ◌≡◌, ◌≢◌, refl, sym, ap, ap₂, ◌∙◌, true, none, some, List, [], ◌∷◌, ◌++◌, arith,
  ltb, ◌==◌, if◌then◌else◌, length, length-append, length-zero, split_last, inl, inr, Bool-cases,
}
use mathlib.Core.List.{append_assoc}
use weenix_assignment.Proc.Queue.{ThreadState, kt_run, Kernel, kt_runq, set_state}
use weenix_assignment.Proc.Sched.{
  is_sleeping, sched_make_runnable, sched_wakeup_on, broadcast_loop, sched_broadcast_on,
}
use weenix_assignment.Proc.Valid.{state_ok, Counted, IsKernel, enqueue-Counted, dequeue-Counted}

pub set_state-Counted :
    {k : Kernel} (thr : ℕ) (s : ThreadState) → Counted k → Counted (set_state k thr s)
set_state-Counted thr s v = record {
  counted = λ q t. ground (arith, v.counted q t);
  sized = v.sized;
}

-- A thread on no queue, all others in order, becomes runnable: it goes to the head of the run queue.
pub make_runnable-IsKernel :
    (k : Kernel) (thr : ℕ)
    → Counted k
    → (k.thread thr).kt_wchan ≡ none
    → ((t : ℕ) → thr ≢ t → state_ok (k.thread t) ≡ true)
    → (k' : Kernel) × (sched_make_runnable k thr ≡ some k')
      × IsKernel k'
      × (k'.curthr ≡ k.curthr)
      × ((t : ℕ)
          → k'.thread t ≡ (
              if thr == t
              then record (k.thread t) { kt_wchan = some kt_runq; kt_state = kt_run }
              else k.thread t))
      × ((p : ℕ)
          → (k'.queue p).tq_list
            ≡ (if kt_runq == p then thr ∷ (k.queue p).tq_list else (k.queue p).tq_list))
unfolding sched_make_runnable
make_runnable-IsKernel k thr v free others =
    let (k', e, v', cur, threads, queues) =
      enqueue-Counted (set_state-Counted thr kt_run v) kt_runq thr (ground arith) in
    (
      k',
      ground (arith, e),
      record {
        queues = v';
        states = λ t. elim (Bool-cases (thr == t)) [
          | inl same ↦ ground (arith, threads t)
          | inr other ↦ ground (arith, threads t, others t (ground arith))
        ];
      },
      cur,
      λ t. ground (arith, threads t),
      queues,
    )

-- What a thread that is woken up from the queue `q` leaves behind.
abbrev pub Woken : Kernel → (thr : ℕ) → Kernel → Type 0
Woken k thr k' =
    (k'.curthr ≡ k.curthr)
    × ((t : ℕ)
        → k'.thread t ≡ (
            if thr == t
            then record (k.thread t) { kt_wchan = some kt_runq; kt_state = kt_run }
            else k.thread t))

-- Waking a sleeper on a queue other than the run queue takes the thread that has waited longest, the
-- one at the tail, to the head of the run queue; no other thread and no other queue is touched.
pub sched_wakeup_on-tail :
    (k : Kernel) (q thr : ℕ) (rest : List ℕ)
    → IsKernel k
    → q ≢ kt_runq
    → (k.queue q).tq_list ≡ rest ++ thr ∷ []
    → (k' : Kernel) × (sched_wakeup_on k q ≡ some (k', some thr))
      × IsKernel k'
      × Woken k thr k'
      × ((k'.queue q).tq_list ≡ rest)
      × ((k'.queue kt_runq).tq_list ≡ thr ∷ (k.queue kt_runq).tq_list)
      × ((p : ℕ) → p ≢ q → p ≢ kt_runq → (k'.queue p).tq_list ≡ (k.queue p).tq_list)
unfolding sched_wakeup_on
sched_wakeup_on-tail k q thr rest v ne e =
    let (k₁, e₁, v₁, cur₁, on, threads₁, queues₁) = dequeue-Counted v.queues q rest thr e in
    let (k₂, e₂, v₂, cur₂, threads₂, queues₂) =
      make_runnable-IsKernel k₁ thr v₁ (ground (arith, threads₁ thr))
        (λ t other. ground (arith, threads₁ t, v.states t)) in
    let some_wait : ltb 0 (k.queue q).tq_size ≡ true =
      ground (arith, v.queues.sized q, e, length-append rest (thr ∷ [])) in
    let asleep : is_sleeping (k₁.thread thr).kt_state ≡ true =
      ground (arith, threads₁ thr, v.states thr, on) in
    (
      k₂,
      ground (arith, e₁, e₂, some_wait, asleep),
      v₂,
      (ground arith, λ t. ground (arith, threads₁ t, threads₂ t)),
      ground (arith, queues₁ q, queues₂ q),
      ground (arith, queues₁ kt_runq, queues₂ kt_runq),
      λ p n m. ground (arith, queues₁ p, queues₂ p),
    )

-- With nobody on the queue a wake-up returns NULL and changes nothing.
pub sched_wakeup_on-nil :
    (k : Kernel) (q : ℕ)
    → IsKernel k
    → (k.queue q).tq_list ≡ []
    → sched_wakeup_on k q ≡ some (k, none)
unfolding sched_wakeup_on
sched_wakeup_on-nil k q v e = ground (arith, v.queues.sized q, e)

broadcast_loop-suc :
    (k : Kernel) (q thr : ℕ) (rest : List ℕ)
    → IsKernel k
    → q ≢ kt_runq
    → (k.queue q).tq_list ≡ rest ++ thr ∷ []
    → (k' : Kernel) × ((n : ℕ) → broadcast_loop (suc n) k q ≡ broadcast_loop n k' q)
      × IsKernel k'
      × ((k'.queue q).tq_list ≡ rest)
      × ((k'.queue kt_runq).tq_list ≡ thr ∷ (k.queue kt_runq).tq_list)
      × ((p : ℕ) → p ≢ q → p ≢ kt_runq → (k'.queue p).tq_list ≡ (k.queue p).tq_list)
unfolding broadcast_loop
broadcast_loop-suc k q thr rest v ne e =
    let (k₁, e₁, v₁, cur₁, on, threads₁, queues₁) = dequeue-Counted v.queues q rest thr e in
    let (k₂, e₂, v₂, cur₂, threads₂, queues₂) =
      make_runnable-IsKernel k₁ thr v₁ (ground (arith, threads₁ thr))
        (λ t other. ground (arith, threads₁ t, v.states t)) in
    (
      k₂,
      λ n. ground (arith, e₁, e₂),
      v₂,
      ground (arith, queues₁ q, queues₂ q),
      ground (arith, queues₁ kt_runq, queues₂ kt_runq),
      λ p n m. ground (arith, queues₁ p, queues₂ p),
    )

length-last :
    (l rest : List ℕ) (thr n : ℕ) → l ≡ rest ++ thr ∷ [] → suc n ≡ length l → length rest ≡ n
length-last l rest thr n e h = ground (arith, length-append rest (thr ∷ []))

broadcast_loop-append :
    (k : Kernel) (q n : ℕ)
    → IsKernel k
    → q ≢ kt_runq
    → n ≡ length (k.queue q).tq_list
    → (k' : Kernel) × (broadcast_loop n k q ≡ some k')
      × IsKernel k'
      × ((k'.queue q).tq_list ≡ [])
      × ((k'.queue kt_runq).tq_list ≡ (k.queue q).tq_list ++ (k.queue kt_runq).tq_list)
      × ((p : ℕ) → p ≢ q → p ≢ kt_runq → (k'.queue p).tq_list ≡ (k.queue p).tq_list)
unfolding broadcast_loop
broadcast_loop-append k q zero v ne e =
    let empty : (k.queue q).tq_list ≡ [] = length-zero (k.queue q).tq_list (sym e) in
    (k, refl, v, empty, ground (arith, empty), λ p n m. refl)
broadcast_loop-append k q (suc n) v ne e =
    let (rest, thr, last) = split_last (k.queue q).tq_list (omega (arith, e)) in
    let (k₁, step, v₁, tail, head, same) = broadcast_loop-suc k q thr rest v ne last in
    let left : n ≡ length (k₁.queue q).tq_list =
      sym (ap length tail ∙ length-last (k.queue q).tq_list rest thr n last e) in
    let (k₂, e₂, v₂, empty, moved, others) = broadcast_loop-append k₁ q n v₁ ne left in
    (
      k₂,
      step n ∙ e₂,
      v₂,
      empty,
      moved
          ∙ ap₂ (λ a b. a ++ b) tail head
          ∙ sym (append_assoc rest (thr ∷ []) (k.queue kt_runq).tq_list)
          ∙ ap (λ a. a ++ (k.queue kt_runq).tq_list) (sym last),
      λ p d m. others p d m ∙ same p d m,
    )

-- A broadcast empties the queue: its threads go to the run queue in their order, so that the one
-- that has waited longest runs first.
pub sched_broadcast_on-append :
    (k : Kernel) (q : ℕ)
    → IsKernel k
    → q ≢ kt_runq
    → (k' : Kernel) × (sched_broadcast_on k q ≡ some k')
      × IsKernel k'
      × ((k'.queue q).tq_list ≡ [])
      × ((k'.queue kt_runq).tq_list ≡ (k.queue q).tq_list ++ (k.queue kt_runq).tq_list)
      × ((p : ℕ) → p ≢ q → p ≢ kt_runq → (k'.queue p).tq_list ≡ (k.queue p).tq_list)
unfolding sched_broadcast_on
sched_broadcast_on-append k q v ne =
    broadcast_loop-append k q (k.queue q).tq_size v ne (v.queues.sized q)
