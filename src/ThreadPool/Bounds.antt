-- ===== src/ThreadPool/Bounds.antt =====
-- 7_thread_pool/ThreadPool.cpp: the pool never has more threads than its maximum, and m_busy_thd_num is
-- the number of threads that run a task, after any history of calls and wake-ups.
use personal_c_cpp_back_end.Base.{
  ℕ, suc, ◌+◌, ◌-◌, ◌*◌, ◌≤◌, ◌≡◌, refl, sym, ap, ◌∙◌, ◌/◌, ◌&&◌, ◌==◌, subst, inl, inr, some, List,
  [], ◌∷◌, ◌++◌, length, arith, Bool-cases, map,
}
use personal_c_cpp_back_end.ThreadPool.{
  Phase, ready, waiting, running, Thread, Pool, IsIn, find, new_pool, init, max, min, is_empty,
  notify_callers, terminate_some_thread, active_some_thread, enter, enter_id, finish, wake, woken,
  stop_thread, accept_a_task, wait_for_all, stop, Works, enters, finishes, Step, works, accepts,
  accepts_unheard, waits_for_all, wakes, stops, Reaches, here, next,
}
use personal_c_cpp_back_end.ThreadPool.Enter.{enter_cases, taken}
use personal_c_cpp_back_end.ThreadPool.Counts.{
  is_running, count_running, count_running-set_phase, count_running-remove, count_running-mark,
  length-set_phase, length-remove, length-mark, length-create_threads, count_running-create_threads,
  create_threads-kept, find-mark, id-find,
}

pub record IsValid (p : Pool) : Type 0 where
  pub counted : p.busy_thd_num ≡ count_running p.thd_list
  pub within : length p.thd_list ≤ p.max_thd_num

active_some_thread-IsValid : (p : Pool) → IsValid p → IsValid (active_some_thread p)
unfolding active_some_thread
active_some_thread-IsValid p v =
    let n = min (length p.thd_list * 2) p.max_thd_num - length p.thd_list in
    ground
      (arith, create_threads-kept n p, length-create_threads n p, count_running-create_threads n p)

-- The way on from the wait of a thread that may still be counted as running.
enter-IsValid :
    (p : Pool) (t : Thread)
    → find t.id p.thd_list ≡ some t
    → p.busy_thd_num + is_running t.phase ≡ count_running p.thd_list
    → length p.thd_list ≤ p.max_thd_num
    → IsValid (enter p t)
enter-IsValid p t e counted within =
    let left = count_running-remove t.id p.thd_list t e in
    let shorter = length-remove t.id p.thd_list t e in
    let idle = count_running-set_phase t.id waiting p.thd_list t e in
    let same = length-set_phase t.id waiting p.thd_list in
    enter_cases IsValid p t
      (λ marked. record { counted = omega (arith, left, counted); within = omega (arith, shorter) })
      (λ free nothing. record {
        counted = omega (arith, idle, counted);
        within = omega (arith, same);
      })
      λ free task rest some_task.
        let busy = count_running-set_phase t.id (running task) p.thd_list t e in
        let same_length = length-set_phase t.id (running task) p.thd_list in
        active_some_thread-IsValid (taken p t.id task rest)
          (record { counted = omega (arith, busy, counted); within = omega (arith, same_length) })

-- Marks change neither where a thread is nor how many there are.
abbrev pub SameThreads : Pool → Pool → Type 0
SameThreads p q =
    (length q.thd_list ≡ length p.thd_list)
    × (count_running q.thd_list ≡ count_running p.thd_list)
    × (q.max_thd_num ≡ p.max_thd_num)
    × (q.busy_thd_num ≡ p.busy_thd_num)
    × ((i : ℕ) (t : Thread)
        → find i p.thd_list ≡ some t
        → (u : Thread) × (find i q.thd_list ≡ some u) × (u.id ≡ t.id) × (u.phase ≡ t.phase))

pub terminate_some_thread-SameThreads : (p : Pool) → SameThreads p (terminate_some_thread p)
unfolding terminate_some_thread
terminate_some_thread-SameThreads p =
    let n = length p.thd_list - max (length p.thd_list / 2) p.min_thd_num in
    elim (Bool-cases (is_empty p.task_list && p.busy_thd_num == 0)) [
      | inl few ↦ rw few (
        length-mark n p.thd_list,
        count_running-mark n p.thd_list,
        refl,
        refl,
        λ i t e. find-mark n i p.thd_list t e,
      )
      | inr many ↦ rw many (refl, refl, refl, refl, λ i t e. (t, e, refl, refl))
    ]

-- The thread `i`, which is not counted as busy any more, goes on.
enter_id-IsValid :
    (p : Pool) (i : ℕ) (t : Thread)
    → find i p.thd_list ≡ some t
    → p.busy_thd_num + is_running t.phase ≡ count_running p.thd_list
    → length p.thd_list ≤ p.max_thd_num
    → IsValid (enter_id p i)
unfolding enter_id
enter_id-IsValid p i t e counted within =
    let at_id = subst (λ j. find j p.thd_list ≡ some t) (sym (id-find i p.thd_list t e)) e in
    rw (e, enter_id) (enter-IsValid p t at_id counted within)

pub notify_callers-SameThreads : (p : Pool) → SameThreads p (notify_callers p)
unfolding notify_callers
notify_callers-SameThreads p = elim (Bool-cases (is_empty p.task_list)) [
  | inl e ↦ rw e (refl, refl, refl, refl, λ i t h. (t, h, refl, refl))
  | inr e ↦ rw e (refl, refl, refl, refl, λ i t h. (t, h, refl, refl))
]

finish-IsValid :
    (p : Pool) (i task : ℕ) (t : Thread)
    → find i p.thd_list ≡ some t
    → t.phase ≡ running task
    → IsValid p
    → IsValid (finish p i)
finish-IsValid p i task t e phase v =
    let less = record p { busy_thd_num = p.busy_thd_num - 1 } in
    let fewer = terminate_some_thread less in
    let same = terminate_some_thread-SameThreads less in
    let same' = notify_callers-SameThreads fewer in
    let (u, found, named, at) = same.4 i t e in
    let (w, found', named', at') = same'.4 i u found in
    let one = ap is_running (at' ∙ at ∙ phase) in
    let old = ap is_running phase in
    let left = count_running-remove i p.thd_list t e in
    unfold finish in
    enter_id-IsValid (notify_callers fewer) i w found'
      (omega (arith, same.1, same.3, same'.1, same'.3, one, old, left, v.counted))
      (omega (arith, same.0, same.2, same'.0, same'.2, v.within))

is_running-woken : (ph : Phase) → is_running (woken ph) ≡ is_running ph
is_running-woken ready = refl
is_running-woken waiting = refl
is_running-woken (running task) = refl

pub length-stop : (ts : List Thread) → length (map stop_thread ts) ≡ length ts
length-stop [] = refl
length-stop (t ∷ ts) = ap suc (length-stop ts)

count_running-stop : (ts : List Thread) → count_running (map stop_thread ts) ≡ count_running ts
count_running-stop [] = refl
count_running-stop (t ∷ ts) = omega (arith, is_running-woken t.phase, count_running-stop ts)

wake-IsValid : (p : Pool) (i : ℕ) → IsIn waiting i p → IsValid p → IsValid (wake p i)
unfolding wake
wake-IsValid p i (t, e, phase) v =
    let same = count_running-set_phase i ready p.thd_list t e in
    let old = ap is_running phase in
    record {
      counted = omega (arith, same, old, v.counted);
      within = omega (arith, length-set_phase i ready p.thd_list, v.within);
    }

Works-IsValid : {p q : Pool} → Works p q → IsValid p → IsValid q
Works-IsValid {p} (enters i (t, e, phase) to) v =
    let old = ap is_running phase in
    rw to (enter_id-IsValid p i t e (omega (arith, old, v.counted)) v.within)
Works-IsValid {p} (finishes i task (t, e, phase) to) v = rw to (finish-IsValid p i task t e phase v)

stop-IsValid : (p : Pool) → IsValid p → IsValid (stop p)
unfolding stop
stop-IsValid p v = record {
  counted = omega (arith, count_running-stop p.thd_list, v.counted);
  within = omega (arith, length-stop p.thd_list, v.within);
}

Step-IsValid : {p q : Pool} → Step p q → IsValid p → IsValid q
unfolding accept_a_task wait_for_all
Step-IsValid (works w) v = Works-IsValid w v
Step-IsValid {p} (accepts task i at to) v = rw to (
    wake-IsValid (record p { task_list = p.task_list ++ task ∷ [] }) i at
      (record { counted = v.counted; within = v.within }))
Step-IsValid (accepts_unheard task nobody to) v =
    rw to (record { counted = v.counted; within = v.within })
Step-IsValid (waits_for_all to) v = rw to (record { counted = v.counted; within = v.within })
Step-IsValid {p} (wakes i at to) v = rw to (wake-IsValid p i at v)
Step-IsValid {p} (stops to) v = rw to (stop-IsValid p v)

-- The pool that the constructor and init make, with its four threads.
init-IsValid : (max_thread_num : ℕ) → 4 ≤ max_thread_num → IsValid (init (new_pool max_thread_num))
unfolding init new_pool
init-IsValid max_thread_num le =
    let start = new_pool max_thread_num in
    let kept = create_threads-kept 4 start in
    record {
      counted = omega (arith, kept.1, count_running-create_threads 4 start);
      within = omega (arith, kept.0, length-create_threads 4 start);
    }

-- If the maximum is not below the minimum of four, then after any history the pool has at most the
-- maximum of threads, and m_busy_thd_num is the number of threads that run a task.
pub Reaches-IsValid :
    (max_thread_num : ℕ) (p : Pool)
    → 4 ≤ max_thread_num
    → Reaches (init (new_pool max_thread_num)) p
    → IsValid p
Reaches-IsValid max_thread_num p le here = init-IsValid max_thread_num le
Reaches-IsValid max_thread_num p le (next {q} r s) =
    Step-IsValid s (Reaches-IsValid max_thread_num q le r)
