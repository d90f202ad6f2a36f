-- ===== src/Proc/Valid.antt =====
-- The bookkeeping of threads and queues, and that every scheduler operation keeps it.
use weenix_assignment.Base.{
  ℕ, ◌+◌, ◌-◌, ◌≡◌, refl, Bool, true, false, not, Option, none, some, List, [], ◌∷◌, ◌++◌, arith,
  ◌==◌, if◌then◌else◌, length, length-append, inl, inr, Option-cases,
}
use weenix_assignment.Proc.Queue.{
  kt_run, Kthread, Kernel, kt_runq, set_wchan, set_queue, unsnoc, remove_thread, ktqueue_enqueue,
  ktqueue_dequeue, ktqueue_remove,
}
use weenix_assignment.Proc.Sched.{is_sleeping}

abbrev pub count : ℕ → List ℕ → ℕ
count t [] = 0
count t (x ∷ xs) = (if x == t then 1 else 0) + count t xs

abbrev pub waits : Option ℕ → ℕ → ℕ
waits none q = 0
waits (some p) q = if p == q then 1 else 0

-- A thread on the run queue runs, a thread on another queue sleeps, and one on no queue does not.
abbrev pub state_ok : Kthread → Bool
state_ok th = elim th.kt_wchan [
  | none ↦ not (is_sleeping th.kt_state)
  | some q ↦
      if q == kt_runq
      then elim th.kt_state [ kt_run ↦ true | _ ↦ false ]
      else is_sleeping th.kt_state
]

-- A thread stands once on the queue that it waits on and on no other, and sizes are lengths.
pub record Counted (k : Kernel) : Type 0 where
  pub counted : (q t : ℕ) → count t (k.queue q).tq_list ≡ waits (k.thread t).kt_wchan q
  pub sized : (q : ℕ) → (k.queue q).tq_size ≡ length (k.queue q).tq_list

pub record IsKernel (k : Kernel) : Type 0 where
  pub queues : Counted k
  pub states : (t : ℕ) → state_ok (k.thread t) ≡ true

count-append : (t : ℕ) (xs ys : List ℕ) → count t (xs ++ ys) ≡ count t xs + count t ys
count-append t [] ys = omega arith
count-append t (x ∷ xs) ys = omega (arith, count-append t xs ys)

pub unsnoc-append :
    (xs : List ℕ) {ys : List ℕ} {y : ℕ} → unsnoc xs ≡ some (ys, y) → xs ≡ ys ++ y ∷ []
unsnoc-append [] h = cc
unsnoc-append (x ∷ xs) {ys} {y} h = elim (Option-cases (unsnoc xs)) [
  | inl e ↦ ground (arith, unsnoc-none xs)
  | inr ((zs, z), e) ↦ ground (arith, unsnoc-append xs e)
]
  where
    unsnoc-none : (l : List ℕ) → unsnoc l ≡ none → l ≡ []
    unsnoc-none [] e = refl
    unsnoc-none (a ∷ l) e = ground arith

module _ {k : Kernel} (v : Counted k) where
  pub enqueue-Counted :
      (q thr : ℕ)
      → (k.thread thr).kt_wchan ≡ none
      → (k' : Kernel) × (ktqueue_enqueue k q thr ≡ some k')
        × Counted k'
        × (k'.curthr ≡ k.curthr)
        × ((t : ℕ)
            → k'.thread t
              ≡ (if thr == t then record (k.thread t) { kt_wchan = some q } else k.thread t))
        × ((p : ℕ)
            → (k'.queue p).tq_list
              ≡ (if q == p then thr ∷ (k.queue p).tq_list else (k.queue p).tq_list))
  unfolding ktqueue_enqueue
  enqueue-Counted q thr free = (
    set_wchan (set_queue k q (thr ∷ (k.queue q).tq_list) ((k.queue q).tq_size + 1)) thr (some q),
    ground arith,
    record {
      counted = λ p t. ground (arith, v.counted p t, v.counted q t);
      sized = λ p. ground (arith, v.sized p, v.sized q);
    },
    refl,
    λ t. ground arith,
    λ p. ground arith,
  )

  pub dequeue-Counted :
      (q : ℕ) (rest : List ℕ) (thr : ℕ)
      → (k.queue q).tq_list ≡ rest ++ thr ∷ []
      → (k' : Kernel) × (ktqueue_dequeue k q ≡ (k', some thr))
        × Counted k'
        × (k'.curthr ≡ k.curthr)
        × ((k.thread thr).kt_wchan ≡ some q)
        × ((t : ℕ)
            → k'.thread t
              ≡ (if thr == t then record (k.thread t) { kt_wchan = none } else k.thread t))
        × ((p : ℕ) → (k'.queue p).tq_list ≡ (if q == p then rest else (k.queue p).tq_list))
  unfolding ktqueue_dequeue
  dequeue-Counted q rest thr e =
      let out = unsnoc-last rest thr in
      let one : count thr (k.queue q).tq_list ≡ count thr rest + 1 =
        ground (arith, e, count-append thr rest (thr ∷ [])) in
      let on : (k.thread thr).kt_wchan ≡ some q = ground (arith, v.counted q thr, one) in
      (
        set_wchan (set_queue k q rest ((k.queue q).tq_size - 1)) thr none,
        ground (arith, e, out),
        record {
          counted = λ p t.
              ground (arith, e, on, v.counted p t, v.counted q t, count-append t rest (thr ∷ []));
          sized = λ p. ground (arith, e, v.sized p, v.sized q, length-append rest (thr ∷ []));
        },
        refl,
        on,
        λ t. ground arith,
        λ p. ground arith,
      )
    where
      unsnoc-last : (l : List ℕ) (x : ℕ) → unsnoc (l ++ x ∷ []) ≡ some (l, x)
      unsnoc-last [] x = refl
      unsnoc-last (a ∷ l) x = ground (arith, unsnoc-last l x)

  pub remove-Counted :
      (q thr : ℕ)
      → (k.thread thr).kt_wchan ≡ some q
      → (k' : Kernel) × (ktqueue_remove k q thr ≡ some k')
        × Counted k'
        × (k'.curthr ≡ k.curthr)
        × ((t : ℕ)
            → k'.thread t
              ≡ (if thr == t then record (k.thread t) { kt_wchan = none } else k.thread t))
        × ((p : ℕ)
            → (k'.queue p).tq_list
              ≡ (if q == p then remove_thread (k.queue p).tq_list thr else (k.queue p).tq_list))
  unfolding ktqueue_remove
  remove-Counted q thr on =
      let l = (k.queue q).tq_list in
      let held : count thr l ≡ 1 = ground (arith, v.counted q thr) in
      (
        set_wchan (set_queue k q (remove_thread l thr) ((k.queue q).tq_size - 1)) thr none,
        ground arith,
        record {
          counted = λ p t. ground (arith, v.counted p t, v.counted q t, count-remove l t);
          sized = λ p. ground (arith, v.sized p, v.sized q, length-remove l held);
        },
        refl,
        λ t. ground arith,
        λ p. ground arith,
      )
    where
      count-remove :
          (l : List ℕ) (t : ℕ)
          → count t (remove_thread l thr) ≡ count t l - (if thr == t then 1 else 0)
      count-remove [] t = ground arith
      count-remove (x ∷ l) t = ground (arith, count-remove l t)

      length-remove : (l : List ℕ) → count thr l ≡ 1 → length (remove_thread l thr) + 1 ≡ length l
      length-remove [] h = absurd (omega arith)
      length-remove (x ∷ l) h = ground (arith, length-remove l)
