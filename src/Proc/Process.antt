-- ===== src/Proc/Process.antt =====
-- The process table of kernel/proc/proc.c and the threads of kernel/proc/kthread.c. A process is named
-- by its address; identifiers are `none` for -1. The allocators are taken to succeed, and the address
-- of a new object is an argument. Address spaces and open files of a process are left out here.
use weenix_assignment.Base.{
  ℕ, zero, suc, ◌+◌, ◌%◌, Bool, true, false, not, ◌&&◌, ◌||◌, Option, none, some, List, [], ◌∷◌,
  ◌++◌, leb, ◌==◌, if◌then◌else◌, ◌>>=◌, ◌>>◌, kassert, is_some,
}
use weenix_assignment.Proc.Queue.{
  kt_no_state, kt_exited, Kthread, Kernel, update, set_state, sched_queue_init,
}
use weenix_assignment.Proc.Sched.{sched_switch, sched_wakeup_on, sched_broadcast_on, sched_cancel}

pub data ProcState : Type 0 where
  proc_running proc_dead : ProcState

-- `proc_t`; `p_wait` is the address of its wait queue.
pub record Process : Type 0 where
  pub p_pid : Option ℕ
  pub p_threads : List ℕ
  pub p_children : List ℕ
  pub p_pproc : Option ℕ
  pub p_status : ℕ
  pub p_state : ProcState
  pub p_wait : ℕ

pub record System : Type 0 where
  pub kernel : Kernel
  pub proc : ℕ → Process
  pub proc_list : List ℕ
  pub proc_initproc : Option ℕ
  pub curproc : Option ℕ
  pub next_pid : ℕ

abbrev pub proc_max_count : ℕ
proc_max_count = 65536

abbrev pub same_pid : Option ℕ → Option ℕ → Bool
same_pid none none = true
same_pid (some a) (some b) = a == b
same_pid _ _ = false

unfoldable pub proc_lookup : (ℕ → Process) → List ℕ → (pid : Option ℕ) → Option ℕ
proc_lookup proc [] pid = none
proc_lookup proc (p ∷ rest) pid =
    if same_pid (proc p).p_pid pid then some p else proc_lookup proc rest pid

-- The loop of `_proc_getid` from one `goto failed` to the next, on fuel. The outer `none` means that
-- the fuel ran out, the inner one is the result -1.
unfoldable pub getid_loop : ℕ → (used : ℕ → Bool) → (next_pid pid : ℕ) → Option (Option ℕ)
getid_loop zero used next_pid pid = none
getid_loop (suc n) used next_pid pid =
    let pid' = (pid + 1) % proc_max_count in
    let rest = getid_loop n used next_pid pid' in
    if used pid then (if pid' == next_pid then some none else rest) else some (some pid)

-- The identifier, and `next_pid` afterwards.
unfoldable pub _proc_getid : System → Option (Option ℕ × ℕ)
_proc_getid s = do
  pid ←
      getid_loop proc_max_count (λ p. is_some (proc_lookup s.proc s.proc_list (some p))) s.next_pid
        s.next_pid
  some (pid, elim pid [ none ↦ s.next_pid | some p ↦ (p + 1) % proc_max_count ])

abbrev pub set_proc : System → ℕ → Process → System
set_proc s p x = record s { proc = update s.proc p x }

abbrev pub pid_is : System → Option ℕ → ℕ → Bool
pid_is s p pid = elim p [ none ↦ false | some q ↦ same_pid (s.proc q).p_pid (some pid) ]

abbrev pub is_empty : List ℕ → Bool
is_empty [] = true
is_empty (_ ∷ _) = false

-- `pr` is the address of the new process, `wait` that of its queue.
unfoldable pub proc_create : System → (pr wait : ℕ) → Option System
proc_create s pr wait = do
  (pid, next) ← _proc_getid s
  kassert (not (same_pid pid (some 0)) || is_empty s.proc_list)
  kassert (not (same_pid pid (some 1)) || pid_is s s.curproc 0)
  let new : Process = record {
    p_pid = pid;
    p_threads = [];
    p_children = [];
    p_pproc = s.curproc;
    p_status = 0;
    p_state = proc_running;
    p_wait = wait;
  }
  let s' = record (set_proc s pr new) { next_pid = next; kernel = sched_queue_init s.kernel wait }
  let s'' : System = elim s.curproc [
    | none ↦ s'
    | some c ↦ set_proc s' c (record (s'.proc c) { p_children = (s'.proc c).p_children ++ pr ∷ [] })
  ]
  some (record s'' {
    proc_list = s.proc_list ++ pr ∷ [];
    proc_initproc = if same_pid pid (some 1) then some pr else s.proc_initproc;
  })

-- The loop over the children of the exiting process.
unfoldable pub reparent : System → (init : ℕ) → List ℕ → System
reparent s init [] = s
reparent s init (c ∷ rest) =
    let s' =
      set_proc s init (record (s.proc init) { p_children = (s.proc init).p_children ++ c ∷ [] }) in
    reparent (set_proc s' c (record (s'.proc c) { p_pproc = some init })) init rest

-- The end of `proc_cleanup`: the process is dead, whoever waits for it wakes up, and its thread exits.
unfoldable pub become_dead : System → (cur status : ℕ) → Option System
become_dead s cur status = do
  let s' = set_proc s cur (record (s.proc cur) { p_status = status; p_state = proc_dead })
  parent ← (s'.proc cur).p_pproc
  k ← sched_broadcast_on s'.kernel (s'.proc parent).p_wait
  some (record s' { kernel = set_state k k.curthr kt_exited })

-- The list head of the dying process still points to its first child afterwards; it is never read
-- again. If the init process itself exits with children, the code moves them within their own list,
-- which is not modelled (`none`). The release of the working directory, of the open files and of the
-- address space, between the two halves, is left out.
unfoldable pub proc_cleanup : System → (status : ℕ) → Option System
proc_cleanup s status = do
  init ← s.proc_initproc
  cur ← s.curproc
  kassert (elim (s.proc cur).p_pid [ none ↦ false | some pid ↦ leb 1 pid ])
  parent ← (s.proc cur).p_pproc
  kassert (not (cur == init) || is_empty (s.proc cur).p_children)
  (k, woken) ← sched_wakeup_on s.kernel (s.proc parent).p_wait
  become_dead (reparent (record s { kernel = k }) init (s.proc cur).p_children) cur status

-- The switch sets `curproc` to the process of the thread it takes.
unfoldable pub switch : System → Option System
switch s = do
  k ← sched_switch s.kernel
  some (record s { kernel = k; curproc = some (k.thread k.curthr).kt_proc })

unfoldable pub proc_thread_exited : System → (retval : ℕ) → Option System
proc_thread_exited s retval = do s' ← proc_cleanup s retval; switch s'

abbrev pub set_retval : Kernel → ℕ → ℕ → Kernel
set_retval k thr retval = record k {
  thread = update k.thread thr (record (k.thread thr) { kt_retval = retval });
}

unfoldable pub kthread_exit : System → (retval : ℕ) → Option System
kthread_exit s retval = do
  let thr = s.kernel.curthr
  kassert (not (is_some (s.kernel.thread thr).kt_wchan))
  kassert (elim s.curproc [ none ↦ false | some c ↦ (s.kernel.thread thr).kt_proc == c ])
  proc_thread_exited
      (record s { kernel = set_state (set_retval s.kernel thr retval) thr kt_exited }) retval

unfoldable pub do_exit : System → (status : ℕ) → Option System
do_exit s status = kthread_exit s status

-- `thr` is the address of the new thread, `p` its process.
unfoldable pub kthread_create : System → (p thr : ℕ) → System
kthread_create s p thr =
    let new : Kthread = record {
      kt_state = kt_no_state;
      kt_cancelled = false;
      kt_wchan = none;
      kt_retval = 0;
      kt_proc = p;
    } in
    record (set_proc s p (record (s.proc p) { p_threads = (s.proc p).p_threads ++ thr ∷ [] })) {
      kernel = record s.kernel { thread = update s.kernel.thread thr new };
    }

unfoldable pub kthread_cancel : System → (kthr retval : ℕ) → Option System
kthread_cancel s kthr retval = if s.kernel.curthr == kthr then kthread_exit s retval else (do
  k ← sched_cancel (set_retval s.kernel kthr retval) kthr
  some (record s { kernel = k }))

abbrev pub last : List ℕ → Option ℕ
last [] = none
last (x ∷ xs) = elim (last xs) [ none ↦ some x | some y ↦ some y ]

-- Killing the current process exits, and the call does not come back.
unfoldable pub proc_kill : System → (p status : ℕ) → Option System
proc_kill s p status =
    if elim s.curproc [ none ↦ false | some c ↦ c == p ]
    then do_exit s status
    else (do thr ← last (s.proc p).p_threads; kthread_cancel s thr status)

-- Whether a process is killed by `proc_kill_all`: it has a parent, and that is not the idle process.
unfoldable pub to_kill : System → (p : ℕ) → Bool
to_kill s p = elim (s.proc p).p_pproc [
  | none ↦ false
  | some q ↦ not (same_pid (s.proc q).p_pid (some 0))
]

-- The loop over the list of processes passes over the current one.
unfoldable pub kill_loop : System → (cur : ℕ) → List ℕ → Option System
kill_loop s cur [] = some s
kill_loop s cur (p ∷ rest) =
    if not (cur == p) && to_kill s p
    then (elim (proc_kill s p 0) [ none ↦ none | some s' ↦ kill_loop s' cur rest ])
    else kill_loop s cur rest

unfoldable pub proc_kill_all : System → Option System
proc_kill_all s = do
  cur ← s.curproc
  s' ← kill_loop s cur s.proc_list
  if to_kill s' cur then proc_kill s' cur 0 else some s'
