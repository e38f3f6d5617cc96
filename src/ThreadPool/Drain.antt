-- ===== src/ThreadPool/Drain.antt =====
-- thread_pool.cc: the threads of a stopping pool return, and none of them waits for ever.
use multithread_libevent_exa.Prelude.{
  ℕ, zero, suc, ◌+◌, ◌*◌, ◌≤◌, ◌<◌, ◌≡◌, ◌≢◌, ◌⊎◌, inl, inr, refl, sym, ap, subst, ◌∙◌, arith, true,
  false, [], ◌∷◌, ◌++◌, some, length, update, update_self, update_ne, Bool-cases, ◌==◌, ==→≡, ==→lt,
}
use multithread_libevent_exa.ThreadPool.{
  Pool, Worker, running, waiting, exited, Step, wakes, finishes, Reach, later, new_pool, may_wake,
  locked,
}
use multithread_libevent_exa.ThreadPool.Tasks.{Queues, all_empty, take_task, take_task_lem}
use multithread_libevent_exa.ThreadPool.Ledger.{of_level}
use multithread_libevent_exa.ThreadPool.Shutdown.{AllExited, all_run}

-- A step of the threads alone: one goes on from its wait, or comes back from its task.
pub data Work (n : ℕ) (s u : Pool) : Type 0 where
  goes_on : (i : ℕ) → i < n → s.worker i ≡ waiting → may_wake s ≡ true → u ≡ locked s i → Work n s u
  comes_back :
      (i task : ℕ)
      → i < n
      → s.worker i ≡ running task
      → u ≡ record s { worker = update s.worker i waiting }
      → Work n s u

-- Sequences of such steps, by their number.
pub data Works (n : ℕ) (s : Pool) : ℕ → Pool → Type 0 where
  none_yet : Works n s zero s
  one_more : {k : ℕ} {t u : Pool} → Works n s k t → Work n t u → Works n s (suc k) u

-- How many steps a thread has before it, but for the tasks it will take.
pub weight : Worker → ℕ
weight waiting = 1
weight (running t) = 2
weight exited = 0

pub weights : ℕ → (ℕ → Worker) → ℕ
weights zero w = 0
weights (suc n) w = weights n w + weight (w n)

pub total : Queues → ℕ
total [] = 0
total (q ∷ qs) = length q + total qs

-- All the steps that the threads of a stopping pool will make.
pub steps_left : ℕ → Pool → ℕ
steps_left n s = weights n s.worker + 2 * total s.tasks

weights-same :
    (n i : ℕ) (f : ℕ → Worker) (a : Worker) → n ≤ i → weights n (update f i a) ≡ weights n f
unfolding weights
weights-same zero i f a h = refl
weights-same (suc n) i f a h =
    omega (arith, weights-same n i f a, ap weight (update_ne f i n a (omega arith)))

weights-update :
    (n i : ℕ) (f : ℕ → Worker) (a : Worker)
    → i < n
    → weights n (update f i a) + weight (f i) ≡ weights n f + weight a
unfolding weights
weights-update zero i f a h = absurd (omega arith)
weights-update (suc n) i f a h = elim (Bool-cases (i == n)) [
  | inl same ↦
      let e : i ≡ n = ==→≡ i n same in
      omega (
        arith,
        weights-same n i f a,
        ap weight (subst (λ j. update f i a j ≡ a) e (update_self f i a)),
        ap (λ j. weight (f j)) e,
      )
  | inr other ↦
      let ne : i ≢ n = (λ e. ground (arith, e)) in
      omega (
        arith,
        weights-update n i f a (==→lt i n other (omega arith)),
        ap weight (update_ne f i n a ne),
      )
]

-- What a thread takes was in a queue.
total-take_task :
    (i : ℕ) (qs : Queues) (level t : ℕ) (rest : Queues)
    → take_task i qs ≡ some (level, t, rest)
    → total qs ≡ suc (total rest)
unfolding take_task total
total-take_task i [] level t rest e = cc
total-take_task i ((x ∷ q) ∷ qs) level t rest e = ground arith
total-take_task i ([] ∷ qs) level t rest e = elim (take_task_lem (suc i) qs) [
  | inl (n, a) ↦ absurd (let e' = rw (n, take_task) at e in cc)
  | inr (l, t', r, q, a, k) ↦
      let e' = rw (q, take_task) at e in ground (arith, total-take_task (suc i) qs l t' r q, e')
]

-- What a step of the threads of a stopping pool does.
record Drains (n : ℕ) (s u : Pool) : Type 0 where
  one_less : suc (steps_left n u) ≡ steps_left n s
  stopping : u.stop ≡ true
  posted : u.posts ≡ s.posts

exit-Drains :
    (n i : ℕ) (s : Pool)
    → i < n
    → s.worker i ≡ waiting
    → s.stop ≡ true
    → Drains n s (record s { worker = update s.worker i exited })
unfolding steps_left weight
exit-Drains n i s lt w on = record {
  one_less = omega (arith, weights-update n i s.worker exited lt, ap weight w);
  stopping = on;
  posted = refl;
}

take-Drains :
    (n i level t : ℕ) (rest : Queues) (s : Pool)
    → i < n
    → s.worker i ≡ waiting
    → s.stop ≡ true
    → take_task 0 s.tasks ≡ some (level, t, rest)
    → Drains n s (record s {
      tasks = rest;
      worker = update s.worker i (running t);
      starts = s.starts ++ ((level, t) ∷ []);
    })
unfolding steps_left weight
take-Drains n i level t rest s lt w on e = record {
  one_less = omega (
    arith,
    weights-update n i s.worker (running t) lt,
    ap weight w,
    total-take_task 0 s.tasks level t rest e,
  );
  stopping = on;
  posted = refl;
}

locked-Drains :
    (n i : ℕ) (s : Pool) → i < n → s.worker i ≡ waiting → s.stop ≡ true → Drains n s (locked s i)
unfolding locked
locked-Drains n i s lt w on = elim (take_task_lem 0 s.tasks) [
  | inl (e, a) ↦ subst (Drains n s) (sym (exits_as a)) (exit-Drains n i s lt w on)
  | inr (level, t, rest, e, a, k) ↦
      subst (Drains n s) (sym (takes_as level t rest e a))
        (take-Drains n i level t rest s lt w on e)
]
  where
    exits_as :
        all_empty s.tasks ≡ true → locked s i ≡ record s { worker = update s.worker i exited }
    exits_as a = ground arith

    takes_as :
        (level t : ℕ) (rest : Queues)
        → take_task 0 s.tasks ≡ some (level, t, rest)
        → all_empty s.tasks ≡ false
        → locked s i ≡ record s {
          tasks = rest;
          worker = update s.worker i (running t);
          starts = s.starts ++ ((level, t) ∷ []);
        }
    takes_as level t rest e a = ground arith

Work-Drains : (n : ℕ) (s u : Pool) → s.stop ≡ true → Work n s u → Drains n s u
unfolding steps_left weight
Work-Drains n s u on (goes_on i lt w m e) = subst (Drains n s) (sym e) (locked-Drains n i s lt w on)
Work-Drains n s u on (comes_back i t lt w e) = subst (Drains n s) (sym e) (record {
  one_less = omega (arith, weights-update n i s.worker waiting lt, ap weight w);
  stopping = on;
  posted = refl;
})

Work-Step : {n : ℕ} {s u : Pool} → Work n s u → Step n s u
Work-Step (goes_on i lt w m e) = wakes i lt w m e
Work-Step (comes_back i t lt w e) = finishes i t lt w e

-- What a sequence of such steps does.
record Drained (n k : ℕ) (s u : Pool) : Type 0 where
  less : k + steps_left n u ≡ steps_left n s
  still : u.stop ≡ true
  same_posts : u.posts ≡ s.posts

Works-Drained :
    (n : ℕ) (s : Pool) (k : ℕ) (u : Pool) → s.stop ≡ true → Works n s k u → Drained n k s u
Works-Drained n s zero u on none_yet = record { less = omega arith; still = on; same_posts = refl }
Works-Drained n s (suc k) u on (one_more {t = t} w st) =
    let d = Works-Drained n s k t on w in
    let o = Work-Drains n t u d.still st in
    record {
      less = omega (arith, d.less, o.one_less);
      still = o.stopping;
      same_posts = o.posted ∙ d.same_posts;
    }

Works-Reach : {n : ℕ} {s t : Pool} {k : ℕ} {u : Pool} → Reach n s t → Works n t k u → Reach n s u
Works-Reach r none_yet = r
Works-Reach r (one_more w st) = later (Works-Reach r w) (Work-Step st)

-- A thread that has not returned can go on.
Worker-Work :
    (n i : ℕ) (s : Pool) (w : Worker)
    → i < n
    → s.stop ≡ true
    → s.worker i ≡ w
    → (w ≡ exited) ⊎ ((v : Pool) × Work n s v)
unfolding may_wake
Worker-Work n i s waiting lt on e = inr (locked s i, goes_on i lt e (rw on refl) refl)
Worker-Work n i s (running t) lt on e =
    inr (record s { worker = update s.worker i waiting }, comes_back i t lt e refl)
Worker-Work n i s exited lt on e = inl refl

-- Of the first threads, all have returned, or one can go on.
some-Work : (n m : ℕ) (s : Pool) → m ≤ n → s.stop ≡ true → AllExited m s ⊎ ((v : Pool) × Work n s v)
some-Work n zero s le on = inl (λ i lt. absurd (omega arith))
some-Work n (suc m) s le on = elim (some-Work n m s (omega arith) on) [
  | inr w ↦ inr w
  | inl all ↦ elim (Worker-Work n m s (s.worker m) (omega arith) on refl) [
    | inr w ↦ inr w
    | inl e ↦ inl (λ i lt. elim (Bool-cases (i == m)) [
      | inl same ↦ ap s.worker (==→≡ i m same) ∙ e
      | inr other ↦ all i (==→lt i m other (omega arith))
    ])
  ]
]

-- Take a pool with at least one thread, a state that it reaches in which its destructor has begun, and
-- k steps of the threads alone, each of which goes on from its wait or comes back from its task. The
-- number steps_left, a sum of two for each waiting task, two for each running and one for each waiting
-- thread, has gone down by exactly k. And either one more such step can be made, or all threads have
-- returned and at every level the tasks that were begun are all those that were posted, in that order.
-- So a pool that stops drains its queues in a number of steps that is known beforehand, and no thread
-- is left behind.
pub drains :
    (n count k : ℕ) (s t u : Pool)
    → 0 < n
    → new_pool count ≡ some s
    → Reach n s t
    → t.stop ≡ true
    → Works n t k u
    → (k + steps_left n u ≡ steps_left n t)
      × (((v : Pool) × Work n u v)
          ⊎ (AllExited n u × ((level : ℕ) → of_level level u.starts ≡ of_level level t.posts)))
drains n count k s t u pos e r on w =
    let d = Works-Drained n t k u on w in
    (
      d.less,
      elim (some-Work n n u (omega arith) d.still) [
        | inr v ↦ inl v
        | inl all ↦ inr (
          all,
          λ level.
              (all_run n count s u pos e (Works-Reach r w) all).1 level
              ∙ ap (of_level level) d.same_posts,
        )
      ],
    )
