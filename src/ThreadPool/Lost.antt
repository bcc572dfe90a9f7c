-- ===== src/ThreadPool/Lost.antt =====
-- 7_thread_pool/ThreadPool.cpp: a task that no worker takes, though workers wait for one. The worker that
-- notify_one wakes ends, since it was told to, and passes the notification on to nobody.
use personal_c_cpp_back_end.Base.{
  ℕ, ◌≡◌, refl, ap, ◌∙◌, true, some, List, [], ◌∷◌, ◌++◌, arith, ◌==◌,
}
use personal_c_cpp_back_end.ThreadPool.{
  ready, waiting, Thread, Pool, IsIn, find, set_phase, remove, enter, enter_id, wake, accept_a_task,
  Works, enters, finishes, works, accepts, Reaches, here, next,
}

-- Every thread is blocked in m_cond.wait.
abbrev pub AreWaiting : List Thread → Type 0
AreWaiting [] = Unit
AreWaiting (t ∷ ts) = (t.phase ≡ waiting) × AreWaiting ts

find-AreWaiting :
    (i : ℕ) (ts : List Thread) (t : Thread) → AreWaiting ts → find i ts ≡ some t → t.phase ≡ waiting
unfolding find
find-AreWaiting i [] t h e = cc
find-AreWaiting i (u ∷ ts) t h e = ground (arith, find-AreWaiting i ts t h.1)

-- While all wait, no worker takes a step.
pub AreWaiting-Works : {p q : Pool} → AreWaiting p.thd_list → ¬ Works p q
AreWaiting-Works {p} h (enters i (t, e, phase) to) = cc (find-AreWaiting i p.thd_list t h e)
AreWaiting-Works {p} h (finishes i task (t, e, phase) to) = cc (find-AreWaiting i p.thd_list t h e)

enter_id-marked :
    (p : Pool) (i : ℕ) (t : Thread)
    → find i p.thd_list ≡ some t
    → t.need_to_terminate ≡ true
    → enter_id p i ≡ record p { thd_list = remove t.id p.thd_list }
unfolding enter_id enter
enter_id-marked p i t e marked = rw (e, enter_id, marked) refl

-- On a pool where all workers wait for a task and the first was told to end, a new task may wake just
-- that one. It ends, and then the task is queued, the other workers wait, and no worker can take a step.
pub lost_task :
    (p : Pool) (t : Thread) (ts : List Thread) (task : ℕ)
    → p.task_list ≡ []
    → p.thd_list ≡ t ∷ ts
    → AreWaiting (t ∷ ts)
    → t.need_to_terminate ≡ true
    → (r : Pool) × Reaches p r
      × (r.task_list ≡ task ∷ [])
      × (r.thd_list ≡ ts)
      × ((q : Pool) → ¬ Works r q)
unfolding accept_a_task wake set_phase find remove
lost_task p t ts task no_task threads waits marked =
    let first : (t.id == t.id) ≡ true = ground arith in
    let start : IsIn waiting t.id p = (t, rw (threads, first) refl, waits.0) in
    let heard = accept_a_task p task (some t.id) in
    let awake = record t { phase = ready } in
    let list : heard.thd_list ≡ awake ∷ ts = rw (threads, first) refl in
    let in_list : IsIn ready t.id heard = (awake, rw (list, first) refl, refl) in
    let last = enter_id heard t.id in
    let ends = enter_id-marked heard t.id awake in_list.1 marked in
    let gone : remove t.id heard.thd_list ≡ ts = rw (list, first) refl in
    let ended = ap (λ r. r.thd_list) ends ∙ gone in
    (
      last,
      next (next here (accepts task t.id start refl)) (works (enters t.id in_list refl)),
      ap (λ r. r.task_list) ends ∙ ap (λ ks. ks ++ task ∷ []) no_task,
      ended,
      λ q. AreWaiting-Works {p = last} (rw ended waits.1),
    )
