-- ===== src/ThreadPool/Ledger.antt =====
-- thread_pool.cc: what is begun is what was posted, in the order of posting within each level, and a
-- thread that takes a task takes the oldest one of the most urgent level that has any.
use multithread_libevent_exa.Prelude.{
  ℕ, ◌<◌, ◌≡◌, ◌≢◌, refl, sym, ap, ◌∙◌, arith, true, false, List, [], ◌∷◌, ◌++◌, some, length, ◌==◌,
  if◌then◌else◌, update, update_self, subst, ◌⊎◌, Bool-cases, inl, inr, append_assoc, append-nil,
  ==→≡, replicate,
}
use multithread_libevent_exa.ThreadPool.{
  Pool, running, waiting, exited, Step, client_posts, task_posts, wakes, finishes, stops, Reach,
  here, later, new_pool, post_priority, may_wake, locked, request_stop,
}
use multithread_libevent_exa.ThreadPool.Tasks.{
  Queues, queue, all_empty, push_task, queue-push_task, all_empty-queue, all_empty-replicate, Takes,
  take_task_lem,
}

-- The tasks of one level, in order.
pub of_level : ℕ → List (ℕ × ℕ) → List ℕ
of_level k [] = []
of_level k ((level, t) ∷ l) = if level == k then t ∷ of_level k l else of_level k l

of_level-append : (k : ℕ) (l m : List (ℕ × ℕ)) → of_level k (l ++ m) ≡ of_level k l ++ of_level k m
unfolding of_level
of_level-append k [] m = refl
of_level-append k ((level, t) ∷ l) m = ground (arith, of_level-append k l m)

-- What was begun, then what waits in the queue, is what was posted.
abbrev pub Kept : Pool → Type 0
Kept s = (k : ℕ) → of_level k s.starts ++ queue s.tasks k ≡ of_level k s.posts

pub post_priority_inv :
    (s u : Pool) (level task : ℕ)
    → post_priority s level task ≡ some u
    → (level < length s.tasks)
      × (u ≡ record s {
        tasks = push_task s.tasks level task;
        posts = s.posts ++ ((level, task) ∷ []);
      })
unfolding post_priority
post_priority_inv s u level task e = ground arith

-- The three ways through the critical section of `loop`.
pub data Outcome (s : Pool) (i : ℕ) (u : Pool) : Type 0 where
  exits :
      s.stop ≡ true
      → all_empty s.tasks ≡ true
      → u ≡ record s { worker = update s.worker i exited }
      → Outcome s i u
  idles : s.stop ≡ false → all_empty s.tasks ≡ true → u ≡ s → Outcome s i u
  takes :
      (level task : ℕ) (rest : Queues)
      → all_empty s.tasks ≡ false
      → Takes 0 s.tasks level task rest
      → u ≡ record s {
        tasks = rest;
        worker = update s.worker i (running task);
        starts = s.starts ++ ((level, task) ∷ []);
      }
      → Outcome s i u

pub locked_lem : (s : Pool) (i : ℕ) → Outcome s i (locked s i)
unfolding locked
locked_lem s i = elim (take_task_lem 0 s.tasks) [
  | inr (level, task, rest, e, a, t) ↦ takes level task rest a t (ground arith)
  | inl (e, a) ↦ elim (Bool-cases s.stop) [
    | inl on ↦ exits on a (ground arith)
    | inr off ↦ idles off a (ground arith)
  ]
]

post-Kept : (s u : Pool) (level task : ℕ) → post_priority s level task ≡ some u → Kept s → Kept u
post-Kept s u level task e h = subst Kept (sym inv.1) kept
  where
    inv :
        (level < length s.tasks)
        × (u ≡ record s {
          tasks = push_task s.tasks level task;
          posts = s.posts ++ ((level, task) ∷ []);
        })
    inv = post_priority_inv s u level task e

    kept :
        (k : ℕ)
        → of_level k s.starts ++ queue (push_task s.tasks level task) k
          ≡ of_level k (s.posts ++ ((level, task) ∷ []))
    kept k =
        rw
          (
            queue-push_task s.tasks level task k inv.0,
            of_level-append k s.posts ((level, task) ∷ []),
          )
          (elim (Bool-cases (level == k)) [
            | inl same ↦
                unfold of_level in
                rw same (
                  sym (append_assoc (of_level k s.starts) (queue s.tasks k) (task ∷ []))
                  ∙ ap (λ l. l ++ (task ∷ [])) (h k))
            | inr other ↦ unfold of_level in rw other (h k ∙ sym (append-nil (of_level k s.posts)))
          ])

-- A task that is taken goes from the front of its queue to the end of what was begun.
Takes-Kept :
    (s : Pool) (level task : ℕ) (rest : Queues)
    → Takes 0 s.tasks level task rest
    → Kept s
    → (k : ℕ) → of_level k (s.starts ++ ((level, task) ∷ [])) ++ queue rest k ≡ of_level k s.posts
Takes-Kept s level task rest t h k =
    rw (of_level-append k s.starts ((level, task) ∷ [])) (elim (Bool-cases (level == k)) [
      | inl same ↦
          unfold of_level in
          rw same (
            append_assoc (of_level k s.starts) (task ∷ []) (queue rest k)
            ∙ ap (◌++◌ (of_level k s.starts)) (sym (t.oldest k (omega (arith, ==→≡ level k same))))
            ∙ h k)
      | inr other ↦
          unfold of_level in
          rw other (
            ap (λ l. l ++ queue rest k) (append-nil (of_level k s.starts))
            ∙ ap (◌++◌ (of_level k s.starts)) (sym (t.others k (λ e. ground (arith, e))))
            ∙ h k)
    ])

Outcome-Kept : (s : Pool) (i : ℕ) (u : Pool) → Outcome s i u → Kept s → Kept u
Outcome-Kept s i u (exits on a e) h = subst Kept (sym e) h
Outcome-Kept s i u (idles off a e) h = subst Kept (sym e) h
Outcome-Kept s i u (takes level task rest a t e) h =
    subst Kept (sym e) (Takes-Kept s level task rest t h)

Step-Kept : {n : ℕ} (s u : Pool) → Step n s u → Kept s → Kept u
Step-Kept s u (client_posts level task q e) h = post-Kept s u level task e h
Step-Kept s u (task_posts i x level task lt r e) h = post-Kept s u level task e h
Step-Kept s u (wakes i lt w m e) h =
    subst Kept (sym e) (Outcome-Kept s i (locked s i) (locked_lem s i) h)
Step-Kept s u (finishes i task lt w e) h = subst Kept (sym e) h
Step-Kept s u (stops e) h = subst Kept (sym e) (unfold request_stop in h)

pub new_pool_inv :
    (count : ℕ) (s : Pool)
    → new_pool count ≡ some s
    → (s.tasks ≡ replicate count [])
      × (s.stop ≡ false)
      × (s.worker ≡ (λ i. waiting))
      × (s.posts ≡ [])
      × (s.starts ≡ [])
unfolding new_pool
new_pool_inv count s e = ground arith

new_pool-Kept : (count : ℕ) (s : Pool) → new_pool count ≡ some s → Kept s
unfolding of_level
new_pool-Kept count s e k =
    ap (λ l. of_level k l ++ queue s.tasks k) inv.4
    ∙ ap (λ q. queue q k) inv.0
    ∙ all_empty-queue (replicate count []) k (all_empty-replicate count)
    ∙ ap (of_level k) (sym inv.3)
  where
    inv :
        (s.tasks ≡ replicate count [])
        × (s.stop ≡ false)
        × (s.worker ≡ (λ i. waiting))
        × (s.posts ≡ [])
        × (s.starts ≡ [])
    inv = new_pool_inv count s e

-- In every state that a new pool reaches, and at every level, the tasks that were begun and then those
-- that wait are the tasks that were posted there, in the order of posting: none is lost, begun twice
-- or overtaken by a later one of its level.
pub Reach-Kept : {n : ℕ} (count : ℕ) (s u : Pool) → new_pool count ≡ some s → Reach n s u → Kept u
Reach-Kept count s u e here = new_pool-Kept count s e
Reach-Kept count s u e (later {t = t} r st) = Step-Kept t u st (Reach-Kept count s t e r)

-- A thread that may go on from wait either takes the oldest task of a level, with no task waiting at a
-- level before it and the queues of all other levels unchanged, or returns, and then the pool is
-- stopping and no task waits at any level.
pub wake_takes_first :
    (s : Pool) (i : ℕ)
    → may_wake s ≡ true
    → ((level : ℕ) × (task : ℕ) × ((locked s i).worker i ≡ running task)
        × (queue s.tasks level ≡ task ∷ queue (locked s i).tasks level)
        × ((k : ℕ) → k < level → queue s.tasks k ≡ [])
        × ((k : ℕ) → k ≢ level → queue s.tasks k ≡ queue (locked s i).tasks k))
      ⊎ (((locked s i).worker i ≡ exited) × (s.stop ≡ true) × ((k : ℕ) → queue s.tasks k ≡ []))
unfolding may_wake
wake_takes_first s i m = go (locked s i) (locked_lem s i)
  where
    go :
        (u : Pool)
        → Outcome s i u
        → ((level : ℕ) × (task : ℕ) × (u.worker i ≡ running task)
            × (queue s.tasks level ≡ task ∷ queue u.tasks level)
            × ((k : ℕ) → k < level → queue s.tasks k ≡ [])
            × ((k : ℕ) → k ≢ level → queue s.tasks k ≡ queue u.tasks k))
          ⊎ ((u.worker i ≡ exited) × (s.stop ≡ true) × ((k : ℕ) → queue s.tasks k ≡ []))
    go u (exits on a e) =
        inr (rw e (update_self s.worker i exited), on, λ k. all_empty-queue s.tasks k a)
    go u (idles off a e) = absurd (ground arith)
    go u (takes level task rest a t e) = inl (
      level,
      task,
      rw e (update_self s.worker i (running task)),
      rw e (t.oldest level (omega arith)),
      (λ k lt. t.first k (omega arith)),
      rw e (λ k ne. t.others k (λ q. ne (omega arith))),
    )
