-- ===== src/ThreadPool/Shutdown.antt =====
-- thread_pool.cc: when all threads have returned, every task that was posted has been run.
use multithread_libevent_exa.Prelude.{
  ℕ, ◌<◌, ◌≡◌, ◌≢◌, refl, sym, ap, ◌∙◌, arith, true, ◌++◌, some, append-nil, update, update_self,
  update_ne, Bool-cases, inl, inr, ◌==◌, ==→≡, subst,
}
use mathlib.Core.Bool.{false≢true}
use multithread_libevent_exa.ThreadPool.{
  Pool, Worker, running, waiting, exited, Step, client_posts, task_posts, wakes, finishes, stops,
  Reach, here, later, new_pool, post_priority, locked, request_stop,
}
use multithread_libevent_exa.ThreadPool.Tasks.{all_empty, all_empty-queue}
use multithread_libevent_exa.ThreadPool.Ledger.{
  Outcome, exits, idles, takes, locked_lem, post_priority_inv, new_pool_inv, of_level, Reach-Kept,
}

abbrev pub AllExited : ℕ → Pool → Type 0
AllExited n s = (i : ℕ) → i < n → s.worker i ≡ exited

-- A thread returns only in a stopping pool, and the last one only from a pool with no task waiting.
pub record IsDraining (n : ℕ) (s : Pool) : Type 0 where
  pub stopping : (i : ℕ) → i < n → s.worker i ≡ exited → s.stop ≡ true
  pub drained : AllExited n s → all_empty s.tasks ≡ true

post-IsDraining :
    (n : ℕ) (s u : Pool) (level task : ℕ)
    → post_priority s level task ≡ some u
    → (AllExited n s → ⊥)
    → IsDraining n s
    → IsDraining n u
post-IsDraining n s u level task e alive d =
    subst (IsDraining n) (sym (post_priority_inv s u level task e).1)
      (record { stopping = d.stopping; drained = λ all. absurd (alive all) })

-- A thread that has not returned keeps the pool draining.
busy-IsDraining :
    (n : ℕ) (s u : Pool) (i : ℕ) (w : Worker)
    → i < n
    → u.worker ≡ update s.worker i w
    → u.stop ≡ s.stop
    → w ≢ exited
    → IsDraining n s
    → IsDraining n u
busy-IsDraining n s u i w lt e st busy d = record {
  stopping = λ j jn x. elim (Bool-cases (i == j)) [
    | inl same ↦ absurd (busy (at_self ∙ ap u.worker (==→≡ i j same) ∙ x))
    | inr other ↦ st ∙ d.stopping j jn (sym (elsewhere j (λ q. ground (arith, q))) ∙ x)
  ];
  drained = λ all. absurd (busy (at_self ∙ all i lt));
}
  where
    at_self : w ≡ u.worker i
    at_self = sym (ap (λ f. f i) e ∙ update_self s.worker i w)

    elsewhere : (j : ℕ) → i ≢ j → u.worker j ≡ s.worker j
    elsewhere j ne = ap (λ f. f j) e ∙ update_ne s.worker i j w ne

Outcome-IsDraining :
    (n : ℕ) (s : Pool) (i : ℕ) (u : Pool) → i < n → Outcome s i u → IsDraining n s → IsDraining n u
Outcome-IsDraining n s i u lt (exits on a e) d =
    subst (IsDraining n) (sym e) (record { stopping = λ j jn x. on; drained = λ all. a })
Outcome-IsDraining n s i u lt (idles off a e) d = subst (IsDraining n) (sym e) d
Outcome-IsDraining n s i u lt (takes level task rest a t e) d =
    busy-IsDraining n s u i (running task) lt (ap (λ v. v.worker) e) (ap (λ v. v.stop) e) (λ q. cc)
      d

Step-IsDraining : {n : ℕ} (s u : Pool) → 0 < n → Step n s u → IsDraining n s → IsDraining n u
Step-IsDraining {n} s u pos (client_posts level task off e) d =
    post-IsDraining n s u level task e (λ all. false≢true (sym off ∙ d.stopping 0 pos (all 0 pos)))
      d
Step-IsDraining {n} s u pos (task_posts i x level task lt r e) d =
    post-IsDraining n s u level task e (λ all. cc (r, all i lt)) d
Step-IsDraining {n} s u pos (wakes i lt w m e) d =
    subst (IsDraining n) (sym e) (Outcome-IsDraining n s i (locked s i) lt (locked_lem s i) d)
Step-IsDraining {n} s u pos (finishes i task lt w e) d =
    busy-IsDraining n s u i waiting lt (ap (λ v. v.worker) e) (ap (λ v. v.stop) e) (λ q. cc) d
Step-IsDraining {n} s u pos (stops e) d =
    subst (IsDraining n) (sym e)
      (unfold request_stop in record { stopping = λ j jn x. refl; drained = d.drained })

Reach-IsDraining : {n : ℕ} (s u : Pool) → 0 < n → IsDraining n s → Reach n s u → IsDraining n u
Reach-IsDraining s u pos d here = d
Reach-IsDraining s u pos d (later {t = t} r st) =
    Step-IsDraining t u pos st (Reach-IsDraining s t pos d r)

-- Take a pool with at least one thread, any steps of its threads and of those that post and stop it,
-- and a state in which all its threads have returned. Then the destructor has begun, and at every
-- level the tasks that were begun are all the tasks that were posted, in that order, so that no posted
-- task is dropped.
pub all_run :
    (n count : ℕ) (s u : Pool)
    → 0 < n
    → new_pool count ≡ some s
    → Reach n s u
    → AllExited n u
    → (u.stop ≡ true) × ((k : ℕ) → of_level k u.starts ≡ of_level k u.posts)
all_run n count s u pos e r all = (
  d.stopping 0 pos (all 0 pos),
  λ k.
      sym (append-nil (of_level k u.starts))
      ∙ ap (◌++◌ (of_level k u.starts)) (sym (all_empty-queue u.tasks k (d.drained all)))
      ∙ Reach-Kept count s u e r k,
)
  where
    nobody : (i : ℕ) → s.worker i ≡ waiting
    nobody i = ap (λ f. f i) (new_pool_inv count s e).2

    d : IsDraining n u
    d =
        Reach-IsDraining s u pos
          (record { stopping = λ i lt x. cc (x, nobody i); drained = λ x. cc (x 0 pos, nobody 0) })
          r
