-- ===== src/ThreadPool/Tests.antt =====
-- thread_pool.cc on one thread and two levels, and its theorems at concrete inputs.
use multithread_libevent_exa.Prelude.{
  ℕ, ◌+◌, ◌<◌, ◌≡◌, ◌≢◌, refl, arith, true, false, [], ◌∷◌, ◌⊎◌, zero, suc, update,
}
use multithread_libevent_exa.ThreadPool.{
  Pool, running, waiting, exited, client_posts, wakes, finishes, stops, Reach, here, later,
  new_pool, post_priority, may_wake, locked, request_stop,
}
use multithread_libevent_exa.ThreadPool.Tasks.{queue, all_empty, take_task, push_task}
use multithread_libevent_exa.ThreadPool.Ledger.{of_level, Kept, Reach-Kept, wake_takes_first}
use multithread_libevent_exa.ThreadPool.Shutdown.{AllExited, all_run}
use multithread_libevent_exa.ThreadPool.Drain.{
  Work, Works, none_yet, one_more, goes_on, steps_left, drains,
}

abbrev fresh_pool : Pool
fresh_pool = record {
  tasks = [] ∷ [] ∷ [];
  stop = false;
  worker = λ i. waiting;
  posts = [];
  starts = [];
}

-- Task 7 at level 1, then task 8 at level 0.
abbrev posted : Pool
posted = record fresh_pool { tasks = (8 ∷ []) ∷ (7 ∷ []) ∷ []; posts = (1, 7) ∷ (0, 8) ∷ [] }

Reach-posted : Reach 1 fresh_pool posted
unfolding post_priority push_task
Reach-posted = later (later here (client_posts 1 7 refl refl)) (client_posts 0 8 refl refl)

-- The end of thread 0's task.
abbrev rest : Pool → Pool
rest s = record s { worker = update s.worker 0 waiting }

-- Thread 0 takes both tasks, the more urgent one first, and returns.
abbrev ended : Pool
ended = locked (rest (locked (rest (locked (request_stop posted) 0)) 0)) 0

Reach-ended : Reach 1 fresh_pool ended
unfolding request_stop locked take_task all_empty may_wake
Reach-ended =
    later
      (later
        (later
          (later (later (later Reach-posted (stops refl)) (wakes 0 (omega arith) refl refl refl))
            (finishes 0 8 (omega arith) refl refl))
          (wakes 0 (omega arith) refl refl refl))
        (finishes 0 7 (omega arith) refl refl))
      (wakes 0 (omega arith) refl refl refl)

ended_exited : AllExited 1 ended
unfolding request_stop locked take_task all_empty
ended_exited zero lt = refl
ended_exited (suc i) lt = absurd (omega arith)

Reach-Kept_example : Kept ended
unfolding new_pool
Reach-Kept_example = Reach-Kept 2 fresh_pool ended refl Reach-ended

wake_takes_first_example :
    ((level : ℕ) × (task : ℕ) × ((locked posted 0).worker 0 ≡ running task)
      × (queue posted.tasks level ≡ task ∷ queue (locked posted 0).tasks level)
      × ((k : ℕ) → k < level → queue posted.tasks k ≡ [])
      × ((k : ℕ) → k ≢ level → queue posted.tasks k ≡ queue (locked posted 0).tasks k))
    ⊎ (((locked posted 0).worker 0 ≡ exited)
        × (posted.stop ≡ true)
        × ((k : ℕ) → queue posted.tasks k ≡ []))
unfolding may_wake all_empty
wake_takes_first_example = wake_takes_first posted 0 refl

all_run_example : (ended.stop ≡ true) × ((k : ℕ) → of_level k ended.starts ≡ of_level k ended.posts)
unfolding new_pool
all_run_example = all_run 1 2 fresh_pool ended (omega arith) refl Reach-ended ended_exited

-- The pool is stopped while two tasks wait, and its thread takes the first.
abbrev stopping : Pool
stopping = request_stop posted

one_taken : Works 1 stopping 1 (locked stopping 0)
unfolding request_stop may_wake
one_taken = one_more none_yet (goes_on 0 (omega arith) refl refl refl)

stopping-stop : stopping.stop ≡ true
unfolding request_stop
stopping-stop = refl

drains_example :
    (1 + steps_left 1 (locked stopping 0) ≡ steps_left 1 stopping)
    × (((v : Pool) × Work 1 (locked stopping 0) v)
        ⊎ (AllExited 1 (locked stopping 0)
            × ((level : ℕ)
                → of_level level (locked stopping 0).starts ≡ of_level level stopping.posts)))
unfolding new_pool
drains_example =
    drains 1 2 1 fresh_pool stopping (locked stopping 0) (omega arith) refl
      (later Reach-posted (stops refl)) stopping-stop one_taken
