-- ===== src/ThreadPool.antt =====
-- 7_thread_pool/ThreadPool.cpp and ThreadPool.h: workers that take tasks from a queue, and the rules by
-- which the pool grows and shrinks. What a worker does while it holds m_mutex is one step, from the
-- moment that it gets the mutex to the moment that it waits, runs a task or ends. Threads and tasks
-- are numbers. The constructor call `new` does not fail, and counts stay in the range of an int.
pub mod Counts
pub mod Enter
pub mod Bounds
pub mod Stop
pub mod Lost
pub mod Tests
use personal_c_cpp_back_end.Base.{
  ℕ, zero, suc, ◌+◌, ◌-◌, ◌*◌, ◌/◌, ◌≡◌, Bool, true, false, not, ◌&&◌, ◌||◌, Option, none, some,
  List, [], ◌∷◌, ◌++◌, map, ltb, leb, ◌==◌, if◌then◌else◌, length,
}

-- Where a worker is: about to take the mutex and test the condition of its wait, blocked in m_cond.wait,
-- or running a task.
pub data Phase : Type 0 where
  ready : Phase
  waiting : Phase
  running : ℕ → Phase

-- class Thread. `id` is the number of its creation.
pub record Thread : Type 0 where
  pub id : ℕ
  pub need_to_terminate : Bool
  pub phase : Phase

-- class ThreadPool. `made` counts the threads ever created, and `callers` those blocked in
-- waitForAllRuningTaskDone.
pub record Pool : Type 0 where
  pub task_list : List ℕ
  pub thd_list : List Thread
  pub max_thd_num : ℕ
  pub min_thd_num : ℕ
  pub busy_thd_num : ℕ
  pub made : ℕ
  pub callers : ℕ

abbrev pub is_empty {ℓ} : {A : Type ℓ} → List A → Bool
is_empty [] = true
is_empty (x ∷ xs) = false

abbrev pub max : ℕ → ℕ → ℕ
max a b = if ltb a b then b else a

abbrev pub min : ℕ → ℕ → ℕ
min a b = if ltb b a then b else a

-- The thread `i` of the list.
unfoldable pub find : ℕ → List Thread → Option Thread
find i [] = none
find i (t ∷ ts) = if t.id == i then some t else find i ts

unfoldable pub set_phase : ℕ → Phase → List Thread → List Thread
set_phase i ph [] = []
set_phase i ph (t ∷ ts) = if t.id == i then record t { phase = ph } ∷ ts else t ∷ set_phase i ph ts

unfoldable pub remove : ℕ → List Thread → List Thread
remove i [] = []
remove i (t ∷ ts) = if t.id == i then ts else t ∷ remove i ts

-- setToTerminate of the first `n` threads.
unfoldable pub mark : ℕ → List Thread → List Thread
mark zero ts = ts
mark (suc n) [] = []
mark (suc n) (t ∷ ts) = record t { need_to_terminate = true } ∷ mark n ts

-- createAThread: the new thread starts at the top of thread_function, where it wants the mutex.
unfoldable pub create_a_thread : Pool → Pool
create_a_thread p = record p {
  thd_list = p.thd_list ++ record { id = p.made; need_to_terminate = false; phase = ready } ∷ [];
  made = p.made + 1;
}

unfoldable pub create_threads : ℕ → Pool → Pool
unfolding create_a_thread
create_threads zero p = p
create_threads (suc n) p = create_threads n (create_a_thread p)

-- The constructor, and init.
unfoldable pub new_pool : (max_thread_num : ℕ) → Pool
new_pool max_thread_num = record {
  task_list = [];
  thd_list = [];
  max_thd_num = max_thread_num;
  min_thd_num = 4;
  busy_thd_num = 0;
  made = 0;
  callers = 0;
}

unfoldable pub init : Pool → Pool
unfolding create_threads
init p = create_threads p.min_thd_num p

-- A negative terminateNum means no round of the loop.
unfoldable pub terminate_some_thread : Pool → Pool
unfolding mark
terminate_some_thread p =
    let need = max (length p.thd_list / 2) p.min_thd_num in
    if is_empty p.task_list && p.busy_thd_num == 0
    then record p { thd_list = mark (length p.thd_list - need) p.thd_list }
    else p

-- A negative needThreadNum means no round of the loop.
unfoldable pub active_some_thread : Pool → Pool
unfolding create_threads
active_some_thread p =
    let size = length p.thd_list in
    let need = min (size * 2) p.max_thd_num - size in
    if leb size p.busy_thd_num && leb (size / 2) (length p.task_list)
    then create_threads need p
    else p

-- pool->m_task_list.front() and pop_front(); m_busy_thd_num++; activeSomeThread()
unfoldable pub take_task : Pool → ℕ → Pool
unfolding set_phase active_some_thread
take_task p i = elim p.task_list [
  | [] ↦ p
  | task ∷ rest ↦ active_some_thread (record p {
    task_list = rest;
    thd_list = set_phase i (running task) p.thd_list;
    busy_thd_num = p.busy_thd_num + 1;
  })
]

-- The loop of thread_function from m_cond.wait on, with the mutex held. The notify_all of the last
-- thread reaches the destructor only.
unfoldable pub enter : Pool → Thread → Pool
unfolding take_task remove
enter p t =
    if t.need_to_terminate
    then record p { thd_list = remove t.id p.thd_list }
    else if is_empty p.task_list
    then record p { thd_list = set_phase t.id waiting p.thd_list }
    else take_task p t.id

-- The same for the thread `i` as it stands in the list.
unfoldable pub enter_id : Pool → ℕ → Pool
unfolding enter find
enter_id p i = elim (find i p.thd_list) [ none ↦ p | some t ↦ enter p t ]

-- if(pool->m_task_list.empty()) pool->m_notask_cond.notify_all();
unfoldable pub notify_callers : Pool → Pool
notify_callers p = if is_empty p.task_list then record p { callers = 0 } else p

-- The loop from lock.lock() on, into the next wait.
unfoldable pub finish : Pool → ℕ → Pool
unfolding terminate_some_thread notify_callers enter_id
finish p i =
    enter_id
      (notify_callers (terminate_some_thread (record p { busy_thd_num = p.busy_thd_num - 1 }))) i

-- A blocked worker is woken.
unfoldable pub wake : Pool → ℕ → Pool
unfolding set_phase
wake p i = record p { thd_list = set_phase i ready p.thd_list }

-- acceptATask; notify_one wakes the worker `heard`, or nobody.
unfoldable pub accept_a_task : Pool → (task : ℕ) → (heard : Option ℕ) → Pool
unfolding wake
accept_a_task p task heard =
    let queued = record p { task_list = p.task_list ++ task ∷ [] } in
    elim heard [ none ↦ queued | some i ↦ wake queued i ]

unfoldable pub wait_for_all : Pool → Pool
wait_for_all p = record p { callers = p.callers + 1 }

abbrev pub woken : Phase → Phase
woken ready = ready
woken waiting = ready
woken (running task) = running task

-- The destructor up to its wait: setToTerminate of every thread, and notify_all.
abbrev pub stop_thread : Thread → Thread
stop_thread t = record t { need_to_terminate = true; phase = woken t.phase }

unfoldable pub stop : Pool → Pool
stop p = record p { thd_list = map stop_thread p.thd_list }

abbrev pub IsIn : Phase → ℕ → Pool → Type 0
IsIn ph i p = (t : Thread) × (find i p.thd_list ≡ some t) × (t.phase ≡ ph)

-- A step of a worker.
pub data Works (p q : Pool) : Type 0 where
  enters : (i : ℕ) → IsIn ready i p → q ≡ enter_id p i → Works p q
  finishes : (i task : ℕ) → IsIn (running task) i p → q ≡ finish p i → Works p q

-- Any step: of a worker, a call from outside, or a wake-up without a reason. notify_one wakes some
-- blocked worker if there is one.
pub data Step (p q : Pool) : Type 0 where
  works : Works p q → Step p q
  accepts : (task i : ℕ) → IsIn waiting i p → q ≡ accept_a_task p task (some i) → Step p q
  accepts_unheard :
      (task : ℕ) → ((i : ℕ) → ¬ IsIn waiting i p) → q ≡ accept_a_task p task none → Step p q
  waits_for_all : q ≡ wait_for_all p → Step p q
  wakes : (i : ℕ) → IsIn waiting i p → q ≡ wake p i → Step p q
  stops : q ≡ stop p → Step p q

pub data Reaches (p : Pool) : Pool → Type 0 where
  here : Reaches p p
  next : {q r : Pool} → Reaches p q → Step q r → Reaches p r
