-- ===== src/ThreadPool/Stop.antt =====
-- 7_thread_pool/ThreadPool.cpp: what the destructor waits for comes about.
use personal_c_cpp_back_end.Base.{
  ℕ, zero, suc, ◌+◌, ◌-◌, ◌/◌, ◌≡◌, ◌≢◌, refl, sym, subst, ◌⊎◌, true, inl, inr, some, List, [], ◌∷◌,
  length, arith, Bool-cases, ◌==◌, ◌&&◌, map,
}
use personal_c_cpp_back_end.ThreadPool.{
  Phase, ready, waiting, running, Thread, Pool, find, remove, mark, max, is_empty, enter_id, enter,
  finish, stop, woken, stop_thread, terminate_some_thread, notify_callers, Works, enters, finishes,
}
use personal_c_cpp_back_end.ThreadPool.Counts.{length-remove, id-find}
use personal_c_cpp_back_end.ThreadPool.Bounds.{
  terminate_some_thread-SameThreads, notify_callers-SameThreads, length-stop,
}

-- Every thread is told to end, and none is blocked.
abbrev pub AreEnding : List Thread → Type 0
AreEnding [] = Unit
AreEnding (t ∷ ts) = (t.need_to_terminate ≡ true) × (t.phase ≢ waiting) × AreEnding ts

woken-ne-waiting : (ph : Phase) → woken ph ≢ waiting
woken-ne-waiting ready = λ e. cc
woken-ne-waiting waiting = λ e. cc
woken-ne-waiting (running task) = λ e. cc

stop-AreEnding : (ts : List Thread) → AreEnding (map stop_thread ts)
stop-AreEnding [] = tt
stop-AreEnding (t ∷ ts) = (refl, woken-ne-waiting t.phase, stop-AreEnding ts)

find-AreEnding :
    (i : ℕ) (ts : List Thread) (t : Thread)
    → AreEnding ts
    → find i ts ≡ some t
    → t.need_to_terminate ≡ true
unfolding find
find-AreEnding i [] t h e = cc
find-AreEnding i (u ∷ ts) t h e = ground (arith, find-AreEnding i ts t h.2)

remove-AreEnding : (i : ℕ) (ts : List Thread) → AreEnding ts → AreEnding (remove i ts)
unfolding remove
remove-AreEnding i [] h = tt
remove-AreEnding i (u ∷ ts) h = elim (Bool-cases (u.id == i)) [
  | inl hit ↦ rw hit h.2
  | inr miss ↦ rw miss (h.0, h.1, remove-AreEnding i ts h.2)
]

mark-AreEnding : (n : ℕ) (ts : List Thread) → AreEnding ts → AreEnding (mark n ts)
unfolding mark
mark-AreEnding zero ts h = h
mark-AreEnding (suc n) [] h = tt
mark-AreEnding (suc n) (t ∷ ts) h = (refl, h.1, mark-AreEnding n ts h.2)

terminate_some_thread-AreEnding :
    (p : Pool) → AreEnding p.thd_list → AreEnding (terminate_some_thread p).thd_list
unfolding terminate_some_thread
terminate_some_thread-AreEnding p h =
    elim (Bool-cases (is_empty p.task_list && p.busy_thd_num == 0)) [
      | inl few ↦ rw few (
          mark-AreEnding (length p.thd_list - max (length p.thd_list / 2) p.min_thd_num) p.thd_list
            h)
      | inr many ↦ rw many h
    ]

notify_callers-AreEnding : (p : Pool) → AreEnding p.thd_list → AreEnding (notify_callers p).thd_list
unfolding notify_callers
notify_callers-AreEnding p h = elim (Bool-cases (is_empty p.task_list)) [
  | inl e ↦ rw e h
  | inr e ↦ rw e h
]

-- One thread less, the others ending as before.
abbrev OneLess : Pool → Pool → Type 0
OneLess p q = AreEnding q.thd_list × (length q.thd_list + 1 ≡ length p.thd_list)

enter_id-OneLess :
    (p : Pool) (i : ℕ) (t : Thread)
    → AreEnding p.thd_list
    → find i p.thd_list ≡ some t
    → OneLess p (enter_id p i)
unfolding enter_id enter
enter_id-OneLess p i t h e =
    let marked = find-AreEnding i p.thd_list t h e in
    let at_id = subst (λ j. find j p.thd_list ≡ some t) (sym (id-find i p.thd_list t e)) e in
    rw (e, enter_id, marked)
      (remove-AreEnding t.id p.thd_list h, length-remove t.id p.thd_list t at_id)

Works-OneLess : {p q : Pool} → Works p q → AreEnding p.thd_list → OneLess p q
unfolding finish
Works-OneLess {p} (enters i (t, e, phase) to) h = rw to (enter_id-OneLess p i t h e)
Works-OneLess {p} (finishes i task (t, e, phase) to) h =
    let less = record p { busy_thd_num = p.busy_thd_num - 1 } in
    let fewer = terminate_some_thread less in
    let same = terminate_some_thread-SameThreads less in
    let same' = notify_callers-SameThreads fewer in
    let (u, found, named, at) = same.4 i t e in
    let (w, found', named', at') = same'.4 i u found in
    let ending = notify_callers-AreEnding fewer (terminate_some_thread-AreEnding less h) in
    let (left, shorter) = enter_id-OneLess (notify_callers fewer) i w ending found' in
    rw to (left, omega (arith, shorter, same.0, same'.0))

pub Phase-cases :
    (ph : Phase) → (ph ≡ ready) ⊎ ((ph ≡ waiting) ⊎ ((task : ℕ) × (ph ≡ running task)))
Phase-cases ready = inl refl
Phase-cases waiting = inr (inl refl)
Phase-cases (running task) = inr (inr (task, refl))

-- Some worker can take a step.
first-Works :
    (p : Pool) (t : Thread) (ts : List Thread)
    → p.thd_list ≡ t ∷ ts
    → t.phase ≢ waiting
    → (q : Pool) × Works p q
unfolding find
first-Works p t ts e free =
    let here : (t.id == t.id) ≡ true = ground arith in
    let found : find t.id p.thd_list ≡ some t = rw (e, here) refl in
    elim (Phase-cases t.phase) [
      | inl go ↦ (enter_id p t.id, enters t.id (t, found, go) refl)
      | inr (inl blocked) ↦ absurd (free blocked)
      | inr (inr (task, busy)) ↦ (finish p t.id, finishes t.id task (t, found, busy) refl)
    ]

ending-Works :
    (q : Pool) (ts : List Thread)
    → q.thd_list ≡ ts
    → AreEnding ts
    → (ts ≡ []) ⊎ ((r : Pool) × Works q r)
ending-Works q [] e h = inl refl
ending-Works q (t ∷ ts) e h = inr (first-Works q t ts e h.1)

-- `n` steps of workers.
pub data WorksFor : ℕ → Pool → Pool → Type 0 where
  done : {p : Pool} → WorksFor 0 p p
  more : {n : ℕ} {p q r : Pool} → WorksFor n p q → Works q r → WorksFor (suc n) p r

WorksFor-AreEnding :
    {n : ℕ} {p q : Pool}
    → WorksFor n p q
    → AreEnding p.thd_list
    → AreEnding q.thd_list × (n + length q.thd_list ≡ length p.thd_list)
WorksFor-AreEnding done h = (h, omega arith)
WorksFor-AreEnding (more ws w) h =
    let (h', count) = WorksFor-AreEnding ws h in
    let (h'', less) = Works-OneLess w h' in (h'', omega (arith, count, less))

-- After the destructor told every thread to end, each step of a worker takes one thread from the list,
-- and some worker can take a step until the list is empty, which is what the destructor waits for.
pub stop_ends :
    (p q : Pool) (n : ℕ)
    → WorksFor n (stop p) q
    → (n + length q.thd_list ≡ length p.thd_list) × ((q.thd_list ≡ []) ⊎ ((r : Pool) × Works q r))
unfolding stop
stop_ends p q n ws =
    let (ending, count) = WorksFor-AreEnding ws (stop-AreEnding p.thd_list) in
    (omega (arith, count, length-stop p.thd_list), ending-Works q q.thd_list refl ending)
