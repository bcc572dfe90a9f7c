-- ===== src/ThreadPool/Enter.antt =====
-- 7_thread_pool/ThreadPool.cpp: the three ways on from the wait of thread_function.
use personal_c_cpp_back_end.Base.{
  ℕ, ◌+◌, ◌≡◌, refl, ap, ◌⊎◌, true, false, inl, inr, List, [], ◌∷◌, Bool-cases,
}
use personal_c_cpp_back_end.ThreadPool.{
  waiting, running, Thread, Pool, is_empty, set_phase, remove, active_some_thread, take_task, enter,
}

List-cases : (xs : List ℕ) → (xs ≡ []) ⊎ ((x : ℕ) × (rest : List ℕ) × (xs ≡ x ∷ rest))
List-cases [] = inl refl
List-cases (x ∷ xs) = inr (x, xs, refl)

-- The pool after `task` was taken, before it may grow.
abbrev pub taken : Pool → ℕ → ℕ → List ℕ → Pool
taken p i task rest = record p {
  task_list = rest;
  thd_list = set_phase i (running task) p.thd_list;
  busy_thd_num = p.busy_thd_num + 1;
}

take_task_lem :
    (p : Pool) (i task : ℕ) (rest : List ℕ)
    → p.task_list ≡ task ∷ rest
    → take_task p i ≡ active_some_thread (taken p i task rest)
unfolding take_task
take_task_lem p i task rest e = rw (e, take_task) refl

-- To end, to wait, or to take a task.
pub enter_cases {ℓ} :
    (P : Pool → Type ℓ) (p : Pool) (t : Thread)
    → (t.need_to_terminate ≡ true → P (record p { thd_list = remove t.id p.thd_list }))
    → (t.need_to_terminate ≡ false
        → p.task_list ≡ []
        → P (record p { thd_list = set_phase t.id waiting p.thd_list }))
    → (t.need_to_terminate ≡ false
        → (task : ℕ) (rest : List ℕ) → p.task_list ≡ task ∷ rest
        → P (active_some_thread (taken p t.id task rest)))
    → P (enter p t)
unfolding enter
enter_cases P p t ends waits takes = elim (Bool-cases t.need_to_terminate) [
  | inl marked ↦ rw marked (ends marked)
  | inr free ↦ elim (List-cases p.task_list) [
    | inl nothing ↦ rw (free, ap is_empty nothing) (waits free nothing)
    | inr (task, rest, e) ↦
        rw (free, ap is_empty e, take_task_lem p t.id task rest e) (takes free task rest e)
  ]
]
