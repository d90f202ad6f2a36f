-- ===== src/Proc/Queue.antt =====
-- The state of the scheduler and the private queue operations of kernel/proc/sched.c. A thread and
-- a queue are named by their addresses; a queue holds its threads from the head of the list on.
use weenix_assignment.Base.{
  ℕ, ◌+◌, ◌-◌, Bool, true, false, Option, none, some, List, [], ◌∷◌, ◌==◌, if◌then◌else◌, ◌>>◌,
  kassert, is_some, not,
}

-- `kthread_state_t`
pub data ThreadState : Type 0 where
  kt_no_state kt_run kt_sleep kt_sleep_cancellable kt_exited : ThreadState

pub record Kthread : Type 0 where
  pub kt_state : ThreadState
  pub kt_cancelled : Bool
  pub kt_wchan : Option ℕ
  pub kt_retval : ℕ
  pub kt_proc : ℕ

-- `ktqueue_t`
pub record Ktqueue : Type 0 where
  pub tq_list : List ℕ
  pub tq_size : ℕ

pub record Kernel : Type 0 where
  pub thread : ℕ → Kthread
  pub queue : ℕ → Ktqueue
  pub curthr : ℕ

-- The run queue's address.
abbrev pub kt_runq : ℕ
kt_runq = 0

abbrev pub update {ℓ} : {A : Type ℓ} → (ℕ → A) → ℕ → A → ℕ → A
update f i a j = if i == j then a else f j

abbrev pub set_wchan : Kernel → ℕ → Option ℕ → Kernel
set_wchan k thr w = record k {
  thread = update k.thread thr (record (k.thread thr) { kt_wchan = w });
}

abbrev pub set_state : Kernel → ℕ → ThreadState → Kernel
set_state k thr s = record k {
  thread = update k.thread thr (record (k.thread thr) { kt_state = s });
}

abbrev pub set_queue : Kernel → ℕ → List ℕ → ℕ → Kernel
set_queue k q l n = record k { queue = update k.queue q (record { tq_list = l; tq_size = n }) }

unfoldable pub sched_queue_init : Kernel → ℕ → Kernel
sched_queue_init k q = set_queue k q [] 0

unfoldable pub sched_queue_empty : Kernel → ℕ → Bool
sched_queue_empty k q = elim (k.queue q).tq_list [ [] ↦ true | _ ∷ _ ↦ false ]

-- `list_insert_head`, under the assertion that the thread waits on no queue.
unfoldable pub ktqueue_enqueue : Kernel → (q thr : ℕ) → Option Kernel
ktqueue_enqueue k q thr = do
  kassert (not (is_some (k.thread thr).kt_wchan))
  let k' = set_queue k q (thr ∷ (k.queue q).tq_list) ((k.queue q).tq_size + 1)
  some (set_wchan k' thr (some q))

-- The last element of a list, and what stands before it.
abbrev pub unsnoc : List ℕ → Option (List ℕ × ℕ)
unsnoc [] = none
unsnoc (x ∷ xs) = elim (unsnoc xs) [ none ↦ some ([], x) | some (ys, y) ↦ some (x ∷ ys, y) ]

-- The thread at the tail, or none if the queue is empty.
unfoldable pub ktqueue_dequeue : Kernel → (q : ℕ) → Kernel × Option ℕ
ktqueue_dequeue k q = elim (unsnoc (k.queue q).tq_list) [
  | none ↦ (k, none)
  | some (rest, thr) ↦ (set_wchan (set_queue k q rest ((k.queue q).tq_size - 1)) thr none, some thr)
]

abbrev pub remove_thread : List ℕ → ℕ → List ℕ
remove_thread [] thr = []
remove_thread (x ∷ xs) thr = if x == thr then xs else x ∷ remove_thread xs thr

-- Taking a thread out of the queue that holds it; the assertion is that it is linked.
unfoldable pub ktqueue_remove : Kernel → (q thr : ℕ) → Option Kernel
ktqueue_remove k q thr = do
  kassert (is_some (k.thread thr).kt_wchan)
  let k' = set_queue k q (remove_thread (k.queue q).tq_list thr) ((k.queue q).tq_size - 1)
  some (set_wchan k' thr none)
