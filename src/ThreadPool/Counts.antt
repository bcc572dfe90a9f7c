-- ===== src/ThreadPool/Counts.antt =====
-- 7_thread_pool/ThreadPool.cpp: how many threads there are and how many run a task, after each change
-- of the list of threads.
use mathlib.Core.Option.{some-injective}
use personal_c_cpp_back_end.Base.{
  ℕ, zero, suc, ◌+◌, ◌≡◌, refl, ap, true, inl, inr, some, List, [], ◌∷◌, ◌++◌, length,
  length-append, arith, ◌==◌, Bool-cases,
}
use personal_c_cpp_back_end.ThreadPool.{
  Phase, ready, waiting, running, Thread, Pool, find, set_phase, remove, mark, create_a_thread,
  create_threads,
}

abbrev pub is_running : Phase → ℕ
is_running ready = 0
is_running waiting = 0
is_running (running task) = 1

abbrev pub count_running : List Thread → ℕ
count_running [] = 0
count_running (t ∷ ts) = is_running t.phase + count_running ts

pub count_running-set_phase :
    (i : ℕ) (ph : Phase) (ts : List Thread) (t : Thread)
    → find i ts ≡ some t
    → count_running (set_phase i ph ts) + is_running t.phase ≡ count_running ts + is_running ph
unfolding find set_phase
count_running-set_phase i ph [] t e = cc
count_running-set_phase i ph (u ∷ ts) t e = ground (arith, count_running-set_phase i ph ts t)

pub count_running-remove :
    (i : ℕ) (ts : List Thread) (t : Thread)
    → find i ts ≡ some t
    → count_running (remove i ts) + is_running t.phase ≡ count_running ts
unfolding find remove
count_running-remove i [] t e = cc
count_running-remove i (u ∷ ts) t e = ground (arith, count_running-remove i ts t)

pub count_running-mark : (n : ℕ) (ts : List Thread) → count_running (mark n ts) ≡ count_running ts
unfolding mark
count_running-mark zero ts = refl
count_running-mark (suc n) [] = refl
count_running-mark (suc n) (t ∷ ts) = omega (arith, count_running-mark n ts)

pub count_running-append :
    (ts us : List Thread) → count_running (ts ++ us) ≡ count_running ts + count_running us
count_running-append [] us = omega arith
count_running-append (t ∷ ts) us = omega (arith, count_running-append ts us)

pub length-set_phase :
    (i : ℕ) (ph : Phase) (ts : List Thread) → length (set_phase i ph ts) ≡ length ts
unfolding set_phase
length-set_phase i ph [] = refl
length-set_phase i ph (t ∷ ts) = ground (arith, length-set_phase i ph ts)

pub length-remove :
    (i : ℕ) (ts : List Thread) (t : Thread)
    → find i ts ≡ some t
    → length (remove i ts) + 1 ≡ length ts
unfolding find remove
length-remove i [] t e = cc
length-remove i (u ∷ ts) t e = ground (arith, length-remove i ts t)

pub length-mark : (n : ℕ) (ts : List Thread) → length (mark n ts) ≡ length ts
unfolding mark
length-mark zero ts = refl
length-mark (suc n) [] = refl
length-mark (suc n) (t ∷ ts) = omega (arith, length-mark n ts)

pub length-create_threads :
    (n : ℕ) (p : Pool) → length (create_threads n p).thd_list ≡ length p.thd_list + n
unfolding create_threads create_a_thread
length-create_threads zero p = omega arith
length-create_threads (suc n) p =
    omega (arith, length-create_threads n (create_a_thread p), length-append p.thd_list _)

pub count_running-create_threads :
    (n : ℕ) (p : Pool) → count_running (create_threads n p).thd_list ≡ count_running p.thd_list
unfolding create_threads create_a_thread
count_running-create_threads zero p = refl
count_running-create_threads (suc n) p =
    omega
      (arith, count_running-create_threads n (create_a_thread p), count_running-append p.thd_list _)

-- Creation changes the list and the count of creations only.
pub create_threads-kept :
    (n : ℕ) (p : Pool)
    → ((create_threads n p).max_thd_num ≡ p.max_thd_num)
      × ((create_threads n p).busy_thd_num ≡ p.busy_thd_num)
      × ((create_threads n p).task_list ≡ p.task_list)
      × ((create_threads n p).min_thd_num ≡ p.min_thd_num)
unfolding create_threads create_a_thread
create_threads-kept zero p = (refl, refl, refl, refl)
create_threads-kept (suc n) p = create_threads-kept n (create_a_thread p)

-- A marked thread in place of each.
pub find-mark :
    (n i : ℕ) (ts : List Thread) (t : Thread)
    → find i ts ≡ some t
    → (u : Thread) × (find i (mark n ts) ≡ some u) × (u.id ≡ t.id) × (u.phase ≡ t.phase)
unfolding find mark
find-mark zero i ts t e = (t, e, refl, refl)
find-mark (suc n) i [] t e = cc
find-mark (suc n) i (u ∷ ts) t e = elim (Bool-cases (u.id == i)) [
  | inl hit ↦
      let same : u ≡ t = some-injective u t (rw hit at e) in
      rw hit
        (record u { need_to_terminate = true }, refl, ap (λ v. v.id) same, ap (λ v. v.phase) same)
  | inr miss ↦ rw miss (find-mark n i ts t (rw miss at e))
]

pub id-find : (i : ℕ) (ts : List Thread) (t : Thread) → find i ts ≡ some t → t.id ≡ i
unfolding find
id-find i [] t e = cc
id-find i (u ∷ ts) t e = ground (arith, id-find i ts t)
