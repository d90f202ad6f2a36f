-- ===== src/Proc/Tests.antt =====
-- A kernel of four threads on which the theorems of the scheduler and the mutex are applied.
use weenix_assignment.Base.{
  ℕ, suc, ◌<◌, ◌≡◌, ◌≢◌, refl, true, false, Option, none, some, List, [], ◌∷◌, ◌++◌, arith, ◌==◌,
  if◌then◌else◌, inl, inr, ◌⊎◌,
}
use weenix_assignment.Proc.Queue.{
  ThreadState, kt_run, kt_sleep, kt_sleep_cancellable, Kthread, Kernel, kt_runq,
}
use weenix_assignment.Proc.Sched.{sched_cancel, sched_broadcast_on}
use weenix_assignment.Proc.Wake.{sched_broadcast_on-append}
use weenix_assignment.Proc.Valid.{IsKernel}
use weenix_assignment.Proc.Cancel.{sched_cancel-IsKernel}
use weenix_assignment.Proc.Mutex.{Kmutex, kmutex_lock, kmutex_unlock}
use weenix_assignment.Proc.MutexSafe.{IsMutex, Slept, kmutex_lock_lem, kmutex_unlock_lem}
use weenix_assignment.Proc.Process.{proc_running, System, proc_max_count, _proc_getid}
use weenix_assignment.Proc.Pids.{step, pid_used, _proc_getid_lem}

abbrev idle_thread : ThreadState → Option ℕ → Kthread
idle_thread s w = record {
  kt_state = s;
  kt_cancelled = false;
  kt_wchan = w;
  kt_retval = 0;
  kt_proc = 0;
}

-- Thread 1 runs, thread 4 is runnable, and on queue 5 thread 2 has waited longer than thread 3.
abbrev four_threads : Kernel
four_threads = record {
  thread = λ t.
      if t == 2
      then idle_thread kt_sleep_cancellable (some 5)
      else (if t == 3
          then idle_thread kt_sleep (some 5)
          else (if t == 4 then idle_thread kt_run (some kt_runq) else idle_thread kt_run none));
  queue = λ q.
      if q == 5
      then record { tq_list = 3 ∷ 2 ∷ []; tq_size = 2 }
      else (if q == kt_runq
          then record { tq_list = 4 ∷ []; tq_size = 1 }
          else record { tq_list = []; tq_size = 0 });
  curthr = 1;
}

four_threads-IsKernel : IsKernel four_threads
four_threads-IsKernel = record {
  queues = record { counted = λ q t. ground arith; sized = λ q. ground arith };
  states = λ t. ground arith;
}

sched_cancel-IsKernel_example :
    (k' : Kernel) × (sched_cancel four_threads 2 ≡ some k')
    × IsKernel k'
    × ((k'.thread 2).kt_cancelled ≡ true)
    × ((kt_sleep_cancellable ≡ kt_sleep_cancellable)
          × ((k'.thread 2).kt_wchan ≡ some kt_runq)
          × ((k'.thread 2).kt_state ≡ kt_run)
        ⊎ (kt_sleep_cancellable ≢ kt_sleep_cancellable)
          × ((k'.thread 2).kt_wchan ≡ some 5)
          × ((k'.thread 2).kt_state ≡ kt_sleep_cancellable))
    × ((t : ℕ) → 2 ≢ t → k'.thread t ≡ four_threads.thread t)
sched_cancel-IsKernel_example = sched_cancel-IsKernel four_threads 2 four_threads-IsKernel

abbrev held_by : Option ℕ → Kmutex
held_by h = record { km_holder = h; km_waitq = 5 }

held_by-IsMutex :
    (h : ℕ) → (h == 1) ≡ true ⊎ (h == 9) ≡ true → IsMutex four_threads (held_by (some h))
held_by-IsMutex h e = record {
  own = ground arith;
  free = λ none. absurd (ground arith);
  busy = λ t same. ground (arith, same, e);
}

kmutex_lock_lem_example :
    (k' : Kernel) × (mtx' : Kmutex) × (kmutex_lock four_threads (held_by (some 9))
      ≡ some (k', mtx'))
    × IsKernel k'
    × IsMutex k' mtx'
    × (((held_by (some 9)).km_holder ≡ none) × (mtx'.km_holder ≡ some 1) × (k' ≡ four_threads)
        ⊎ (h : ℕ) × ((held_by (some 9)).km_holder ≡ some h)
          × (mtx' ≡ held_by (some 9))
          × Slept four_threads 5 [] 4 k')
kmutex_lock_lem_example =
    kmutex_lock_lem four_threads (held_by (some 9)) 4 [] four_threads-IsKernel
      (held_by-IsMutex 9 (inr refl)) refl refl refl

kmutex_unlock_lem_example :
    (k' : Kernel) × (mtx' : Kmutex) × (kmutex_unlock four_threads (held_by (some 1))
      ≡ some (k', mtx'))
    × IsKernel k'
    × IsMutex k' mtx'
    × (((four_threads.queue 5).tq_list ≡ []) × (mtx'.km_holder ≡ none) × (k' ≡ four_threads)
        ⊎ (thr : ℕ) × (rest : List ℕ) × ((four_threads.queue 5).tq_list ≡ rest ++ thr ∷ [])
          × (mtx'.km_holder ≡ some thr)
          × ((k'.queue 5).tq_list ≡ rest)
          × ((k'.queue kt_runq).tq_list ≡ thr ∷ 4 ∷ []))
kmutex_unlock_lem_example =
    kmutex_unlock_lem four_threads (held_by (some 1)) four_threads-IsKernel
      (held_by-IsMutex 1 (inl refl)) refl

-- The idle process and one more, with the next identifier in use.
abbrev two_processes : System
two_processes = record {
  kernel = four_threads;
  proc = λ p. record {
    p_pid = some p;
    p_threads = [];
    p_children = [];
    p_pproc = none;
    p_status = 0;
    p_state = proc_running;
    p_wait = 8;
  };
  proc_list = 0 ∷ 1 ∷ [];
  proc_initproc = none;
  curproc = some 0;
  next_pid = 1;
}

_proc_getid_lem_example :
    (_proc_getid two_processes ≡ some (none, 1))
      × ((p : ℕ) → p < proc_max_count → pid_used two_processes p ≡ true)
    ⊎ (e : ℕ) × (e < proc_max_count)
      × (_proc_getid two_processes ≡ some (some (step 1 e), step 1 (suc e)))
      × (pid_used two_processes (step 1 e) ≡ false)
      × ((i : ℕ) → i < e → pid_used two_processes (step 1 i) ≡ true)
_proc_getid_lem_example = _proc_getid_lem two_processes (ground arith)

sched_broadcast_on-append_example :
    (k' : Kernel) × (sched_broadcast_on four_threads 5 ≡ some k')
    × IsKernel k'
    × ((k'.queue 5).tq_list ≡ [])
    × ((k'.queue kt_runq).tq_list ≡ 3 ∷ 2 ∷ 4 ∷ [])
    × ((p : ℕ) → p ≢ 5 → p ≢ kt_runq → (k'.queue p).tq_list ≡ (four_threads.queue p).tq_list)
sched_broadcast_on-append_example =
    sched_broadcast_on-append four_threads 5 four_threads-IsKernel (ground arith)
