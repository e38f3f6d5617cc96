-- ===== src/ThreadPool.antt =====
-- thread_pool.h and thread_pool.cc: a pool of threads that take tasks from queues by priority.
-- A task is known by a number. Each part that runs under `tasks_mutex_` is one step, and the threads'
-- steps come in any order (`Step`). That `condition_` wakes a thread is modelled by this: a thread whose
-- predicate holds may go on. `posts` and `starts` record what was posted and what was begun, with the
-- level of its queue; the program has no such variables.
pub mod Tasks
pub mod Ledger
pub mod Shutdown
pub mod Drain
mod Tests
use multithread_libevent_exa.Prelude.{
  ℕ, zero, suc, ◌<◌, ◌≡◌, Bool, true, false, not, ◌&&◌, ◌||◌, List, [], ◌∷◌, ◌++◌, Option, none,
  some, length, replicate, ltb, if◌then◌else◌, update,
}
use Tasks.{Queues, all_empty, take_task, push_task}

-- Where a thread of `loop` stands: at `condition_.wait`, in `task()`, or returned.
pub data Worker : Type 0 where
  waiting : Worker
  running : ℕ → Worker
  exited : Worker

pub record Pool : Type 0 where
  pub tasks : Queues
  pub stop : Bool
  pub worker : ℕ → Worker
  pub posts : List (ℕ × ℕ)
  pub starts : List (ℕ × ℕ)

-- The constructor, which asserts that there is a queue.
unfoldable pub new_pool : ℕ → Option Pool
new_pool priority_count =
    if ltb 0 priority_count
    then some (record {
      tasks = replicate priority_count [];
      stop = false;
      worker = λ i. waiting;
      posts = [];
      starts = [];
    })
    else none

-- `postPriority`; `none` is the failed assertion. A negative level fails it as well.
unfoldable pub post_priority : Pool → ℕ → ℕ → Option Pool
post_priority s level task =
    if ltb level (length s.tasks)
    then some
        (record s { tasks = push_task s.tasks level task; posts = s.posts ++ ((level, task) ∷ []) })
    else none

-- `post`.
unfoldable pub post : Pool → ℕ → Option Pool
post s task = post_priority s 0 task

-- The predicate of `condition_.wait`.
unfoldable pub may_wake : Pool → Bool
may_wake s = s.stop || not (all_empty s.tasks)

-- The rest of the critical section of `loop`, for thread `i`.
unfoldable pub locked : Pool → ℕ → Pool
locked s i =
    if s.stop && all_empty s.tasks
    then record s { worker = update s.worker i exited }
    else elim (take_task 0 s.tasks) [
      | none ↦ s
      | some (level, task, rest) ↦ record s {
        tasks = rest;
        worker = update s.worker i (running task);
        starts = s.starts ++ ((level, task) ∷ []);
      }
    ]

-- The destructor, up to its joins.
unfoldable pub request_stop : Pool → Pool
request_stop s = record s { stop = true }

-- A step of a pool with `n` threads. Nobody but a running task may post once the destructor has begun.
pub data Step (n : ℕ) (s u : Pool) : Type 0 where
  client_posts :
      (level task : ℕ) → s.stop ≡ false → post_priority s level task ≡ some u → Step n s u
  task_posts :
      (i x level task : ℕ)
      → i < n
      → s.worker i ≡ running x
      → post_priority s level task ≡ some u
      → Step n s u
  wakes : (i : ℕ) → i < n → s.worker i ≡ waiting → may_wake s ≡ true → u ≡ locked s i → Step n s u
  finishes :
      (i task : ℕ)
      → i < n
      → s.worker i ≡ running task
      → u ≡ record s { worker = update s.worker i waiting }
      → Step n s u
  stops : u ≡ request_stop s → Step n s u

pub data Reach (n : ℕ) (s : Pool) : Pool → Type 0 where
  here : Reach n s s
  later : {t u : Pool} → Reach n s t → Step n t u → Reach n s u
