-- ===== src/Proc/Wait.antt =====
-- `do_waitpid` of kernel/proc/proc.c. The call is cut where it sleeps: `wait_for` is the loop on the
-- child that was found, and runs again each time the waiting thread is woken up.
use weenix_assignment.Base.{
  ℕ, ◌||◌, not, Option, none, some, List, [], ◌∷◌, ◌==◌, if◌then◌else◌, ◌>>=◌, is_some,
}
use weenix_assignment.Proc.Sched.{sched_sleep_on}
use weenix_assignment.Proc.Process.{proc_running, proc_dead, System, same_pid, set_proc, last}

pub data Wait : Type 0 where
  no_child : Wait
  sleeps_on : (child : ℕ) → System → Wait
  reaped : (pid : Option ℕ) → (status : ℕ) → System → Wait

-- `pid` is `none` for -1.
unfoldable pub find_child : System → (pid : Option ℕ) → List ℕ → Option ℕ
find_child s pid [] = none
find_child s pid (c ∷ rest) =
    if same_pid (s.proc c).p_pid pid || not (is_some pid) then some c else find_child s pid rest

abbrev pub unlink : List ℕ → ℕ → List ℕ
unlink [] c = []
unlink (x ∷ xs) c = if x == c then xs else x ∷ unlink xs c

-- The dead child leaves both lists and loses its thread. The code reads its identifier after it has
-- freed it; the value read is taken to be the old one.
unfoldable pub reap : System → (cur child : ℕ) → Option Wait
reap s cur child = do
  let c = s.proc child
  thr ← last c.p_threads
  let s' = set_proc s child (record c { p_pproc = none; p_threads = unlink c.p_threads thr })
  let s'' =
      set_proc s' cur (record (s'.proc cur) { p_children = unlink (s'.proc cur).p_children child })
  some (reaped c.p_pid c.p_status (record s'' { proc_list = unlink s.proc_list child }))

unfoldable pub wait_for : System → (cur child : ℕ) → Option Wait
wait_for s cur child = elim (s.proc child).p_state [
  | proc_dead ↦ reap s cur child
  | proc_running ↦ (do
    k ← sched_sleep_on s.kernel (s.proc cur).p_wait
    some (sleeps_on child (record s { kernel = k; curproc = some (k.thread k.curthr).kt_proc })))
]

unfoldable pub do_waitpid : System → (pid : Option ℕ) → Option Wait
do_waitpid s pid = do
  cur ← s.curproc
  elim (find_child s pid (s.proc cur).p_children) [
    | none ↦ some no_child
    | some child ↦ wait_for s cur child
  ]
