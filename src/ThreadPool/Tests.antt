-- ===== src/ThreadPool/Tests.antt =====
-- 7_thread_pool/ThreadPool.cpp: histories of a pool, and the theorems at the states that they reach.
use personal_c_cpp_back_end.Base.{
  not, ℕ, ◌+◌, ◌≡◌, ◌≢◌, refl, ◌⊎◌, inl, inr, Bool, true, false, ◌&&◌, Option, none, some, List, [],
  ◌∷◌, arith, length, Bool-cases,
}
use personal_c_cpp_back_end.ThreadPool.{
  ready, waiting, running, Thread, Pool, IsIn, find, new_pool, init, enter_id, finish,
  accept_a_task, stop, accepts_unheard, Works, enters, finishes, Step, works, accepts, Reaches,
  here, next,
}
use personal_c_cpp_back_end.ThreadPool.Bounds.{IsValid, Reaches-IsValid}
use personal_c_cpp_back_end.ThreadPool.Stop.{Phase-cases, done, more, stop_ends}
use personal_c_cpp_back_end.ThreadPool.Lost.{lost_task}

-- A step as it is written in a history; the task of `runs` is the one that the thread runs.
data Action : Type 0 where
  goes : ℕ → Action
  ends : ℕ → Action
  gets : ℕ → ℕ → Action
  queues : ℕ → Action

abbrev act : Pool → Action → Pool
act p (goes i) = enter_id p i
act p (ends i) = finish p i
act p (gets task i) = accept_a_task p task (some i)
act p (queues task) = accept_a_task p task none

abbrev is_ready : Option Thread → Bool
is_ready none = false
is_ready (some t) = elim t.phase [ ready ↦ true | _ ↦ false ]

abbrev is_waiting : Option Thread → Bool
is_waiting none = false
is_waiting (some t) = elim t.phase [ waiting ↦ true | _ ↦ false ]

abbrev is_busy : Option Thread → Bool
is_busy none = false
is_busy (some t) = elim t.phase [ running task ↦ true | _ ↦ false ]

abbrev none_waiting : List Thread → Bool
none_waiting [] = true
none_waiting (t ∷ ts) = not (is_waiting (some t)) && none_waiting ts

abbrev allowed : Pool → Action → Bool
allowed p (goes i) = is_ready (find i p.thd_list)
allowed p (ends i) = is_busy (find i p.thd_list)
allowed p (gets task i) = is_waiting (find i p.thd_list)
allowed p (queues task) = none_waiting p.thd_list

ready_lem :
    (i : ℕ) (p : Pool) (o : Option Thread)
    → find i p.thd_list ≡ o
    → is_ready o ≡ true
    → IsIn ready i p
ready_lem i p none e h = cc
ready_lem i p (some t) e h = (t, e, ground arith)

waiting_lem :
    (i : ℕ) (p : Pool) (o : Option Thread)
    → find i p.thd_list ≡ o
    → is_waiting o ≡ true
    → IsIn waiting i p
waiting_lem i p none e h = cc
waiting_lem i p (some t) e h = (t, e, ground arith)

busy_lem :
    (i : ℕ) (p : Pool) (o : Option Thread)
    → find i p.thd_list ≡ o
    → is_busy o ≡ true
    → (task : ℕ) × IsIn (running task) i p
busy_lem i p none e h = cc
busy_lem i p (some t) e h = elim (Phase-cases t.phase) [
  | inl go ↦ cc
  | inr (inl blocked) ↦ cc
  | inr (inr (task, at)) ↦ (task, (t, e, at))
]

unheard_lem :
    (i : ℕ) (ts : List Thread) (t : Thread)
    → none_waiting ts ≡ true
    → find i ts ≡ some t
    → t.phase ≢ waiting
unfolding find
unheard_lem i [] t h e = cc
unheard_lem i (u ∷ ts) t h e = ground (arith, unheard_lem i ts t)

allowed-Step : (p : Pool) (a : Action) → allowed p a ≡ true → Step p (act p a)
allowed-Step p (goes i) h = works (enters i (ready_lem i p _ refl h) refl)
allowed-Step p (ends i) h =
    let (task, at) = busy_lem i p _ refl h in works (finishes i task at refl)
allowed-Step p (gets task i) h = accepts task i (waiting_lem i p _ refl h) refl
allowed-Step p (queues task) h =
    accepts_unheard task (λ i at. unheard_lem i p.thd_list at.0 h at.1 at.2) refl

abbrev run : Pool → List Action → Pool
run p [] = p
run p (a ∷ rest) = run (act p a) rest

abbrev all_allowed : Pool → List Action → Bool
all_allowed p [] = true
all_allowed p (a ∷ rest) = allowed p a && all_allowed (act p a) rest

-- A history of allowed steps, from a pool that is reached, reaches its end.
run-Reaches :
    (p q : Pool) (acts : List Action)
    → Reaches p q
    → all_allowed q acts ≡ true
    → Reaches p (run q acts)
run-Reaches p q [] r h = r
run-Reaches p q (a ∷ rest) r h = elim (Bool-cases (allowed q a)) [
  | inl yes_it_is ↦
      run-Reaches p (act q a) rest (next r (allowed-Step q a yes_it_is)) (rw yes_it_is at h)
  | inr never ↦ cc (rw never at h)
]

-- Four workers get six tasks; the pool grows to eight threads, and the last to finish tells the first
-- four to end.
abbrev busy_day : List Action
busy_day =
    goes 0
    ∷ goes 1
    ∷ goes 2
    ∷ goes 3
    ∷ gets 90 0
    ∷ gets 91 1
    ∷ gets 92 2
    ∷ gets 93 3
    ∷ queues 94
    ∷ queues 95
    ∷ goes 0
    ∷ goes 1
    ∷ goes 2
    ∷ goes 3
    ∷ goes 4
    ∷ goes 5
    ∷ goes 6
    ∷ goes 7
    ∷ ends 0
    ∷ ends 1
    ∷ ends 2
    ∷ ends 3
    ∷ ends 4
    ∷ ends 5
    ∷ []

abbrev started : Pool
started = init (new_pool 10)

abbrev evening : Pool
evening = run started busy_day

abbrev blocked : Bool → ℕ → Thread
blocked told i = record { id = i; need_to_terminate = told; phase = waiting }

evening-Reaches : Reaches started evening
unfolding init new_pool enter_id find finish accept_a_task
evening-Reaches = run-Reaches started started busy_day here refl

evening_threads :
    evening.thd_list
    ≡ blocked true 0
      ∷ blocked true 1
      ∷ blocked true 2
      ∷ blocked true 3
      ∷ blocked false 4
      ∷ blocked false 5
      ∷ blocked false 6
      ∷ blocked false 7
      ∷ []
unfolding init new_pool enter_id find finish accept_a_task
evening_threads = refl

no_tasks : evening.task_list ≡ []
unfolding init new_pool enter_id find finish accept_a_task
no_tasks = refl

third : Works (stop evening) (enter_id (stop evening) 3)
unfolding init new_pool enter_id find finish accept_a_task stop
third = enters 3 (ready_lem 3 (stop evening) _ refl refl) refl

Reaches-IsValid_example : IsValid evening
Reaches-IsValid_example = Reaches-IsValid 10 evening (omega arith) evening-Reaches

abbrev others : List Thread
others =
    blocked true 1
    ∷ blocked true 2
    ∷ blocked true 3
    ∷ blocked false 4
    ∷ blocked false 5
    ∷ blocked false 6
    ∷ blocked false 7
    ∷ []

lost_task_example :
    (r : Pool) × Reaches evening r
    × (r.task_list ≡ 99 ∷ [])
    × (r.thd_list ≡ others)
    × ((q : Pool) → ¬ Works r q)
lost_task_example =
    lost_task evening (blocked true 0) others 99 no_tasks evening_threads
      (refl, (refl, (refl, (refl, (refl, (refl, (refl, (refl, tt)))))))) refl

stop_ends_example :
    (1 + length (enter_id (stop evening) 3).thd_list ≡ length evening.thd_list)
    × (((enter_id (stop evening) 3).thd_list ≡ [])
        ⊎ ((r : Pool) × Works (enter_id (stop evening) 3) r))
stop_ends_example = stop_ends evening (enter_id (stop evening) 3) 1 (more done third)
