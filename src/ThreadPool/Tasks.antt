-- ===== src/ThreadPool/Tasks.antt =====
-- thread_pool.cc, `tasks_`: the queues of the pool, one for each priority, with 0 first.
use multithread_libevent_exa.Prelude.{
  ℕ, zero, suc, ◌+◌, ◌≤◌, ◌<◌, ◌≡◌, ◌≢◌, ◌⊎◌, inl, inr, refl, arith, Bool, true, false, List, [],
  ◌∷◌, ◌++◌, Option, none, some, length, get_or, ◌==◌, if◌then◌else◌, replicate,
}

abbrev pub Queues : Type 0
Queues = List (List ℕ)

-- The queue of a level; there is none past the last.
abbrev pub queue : Queues → ℕ → List ℕ
queue qs level = get_or qs level []

-- The loop that computes `allempty`.
unfoldable pub all_empty : Queues → Bool
all_empty [] = true
all_empty ([] ∷ qs) = all_empty qs
all_empty ((t ∷ q) ∷ qs) = false

-- The loop that takes a task: its level, counted from `i`, the task, and the queues without it.
unfoldable pub take_task : ℕ → Queues → Option (ℕ × ℕ × Queues)
take_task i [] = none
take_task i ([] ∷ qs) = elim (take_task (suc i) qs) [
  | none ↦ none
  | some (level, t, rest) ↦ some (level, t, [] ∷ rest)
]
take_task i ((t ∷ q) ∷ qs) = some (i, t, q ∷ qs)

-- `tasks_[level].push(task)`.
unfoldable pub push_task : Queues → ℕ → ℕ → Queues
push_task [] level task = []
push_task (q ∷ qs) zero task = (q ++ (task ∷ [])) ∷ qs
push_task (q ∷ qs) (suc level) task = q ∷ push_task qs level task

pub all_empty-queue : (qs : Queues) (level : ℕ) → all_empty qs ≡ true → queue qs level ≡ []
unfolding all_empty
all_empty-queue [] level e = refl
all_empty-queue ([] ∷ qs) zero e = refl
all_empty-queue ([] ∷ qs) (suc level) e = all_empty-queue qs level e
all_empty-queue ((t ∷ q) ∷ qs) level e = cc

pub all_empty-replicate : (n : ℕ) → all_empty (replicate n []) ≡ true
unfolding all_empty
all_empty-replicate zero = refl
all_empty-replicate (suc n) = all_empty-replicate n

-- A task is pushed behind its queue, and no other queue changes.
pub queue-push_task :
    (qs : Queues) (level task k : ℕ)
    → level < length qs
    → queue (push_task qs level task) k
      ≡ (if level == k then queue qs k ++ (task ∷ []) else queue qs k)
unfolding push_task
queue-push_task [] level task k h = absurd (omega arith)
queue-push_task (q ∷ qs) zero task zero h = refl
queue-push_task (q ∷ qs) zero task (suc k) h = ground arith
queue-push_task (q ∷ qs) (suc level) task zero h = ground arith
queue-push_task (q ∷ qs) (suc level) task (suc k) h =
    ground (arith, queue-push_task qs level task k)

-- What `take_task` found: the oldest task of the first queue that has one.
pub record Takes (i : ℕ) (qs : Queues) (level task : ℕ) (rest : Queues) : Type 0 where
  pub above : i ≤ level
  pub first : (k : ℕ) → i + k < level → queue qs k ≡ []
  pub oldest : (k : ℕ) → i + k ≡ level → queue qs k ≡ task ∷ queue rest k
  pub others : (k : ℕ) → i + k ≢ level → queue qs k ≡ queue rest k

-- The first queue has a task.
Takes-here : (i t : ℕ) (q : List ℕ) (qs : Queues) → Takes i ((t ∷ q) ∷ qs) i t (q ∷ qs)
Takes-here i t q qs = record {
  above = omega arith;
  first = λ k h. absurd (omega arith);
  oldest = oldest;
  others = others;
}
  where
    oldest : (k : ℕ) → i + k ≡ i → queue ((t ∷ q) ∷ qs) k ≡ t ∷ queue (q ∷ qs) k
    oldest zero e = refl
    oldest (suc k) e = absurd (omega arith)

    others : (k : ℕ) → i + k ≢ i → queue ((t ∷ q) ∷ qs) k ≡ queue (q ∷ qs) k
    others zero e = absurd (e (omega arith))
    others (suc k) e = refl

-- It has none, and the task comes from a later one.
Takes-later :
    (i level t : ℕ) (qs rest : Queues)
    → Takes (suc i) qs level t rest
    → Takes i ([] ∷ qs) level t ([] ∷ rest)
Takes-later i level t qs rest g = record {
  above = omega (arith, g.above);
  first = first;
  oldest = oldest;
  others = others;
}
  where
    first : (k : ℕ) → i + k < level → queue ([] ∷ qs) k ≡ []
    first zero h = refl
    first (suc k) h = g.first k (omega arith)

    oldest : (k : ℕ) → i + k ≡ level → queue ([] ∷ qs) k ≡ t ∷ queue ([] ∷ rest) k
    oldest zero e = absurd (omega (arith, g.above))
    oldest (suc k) e = g.oldest k (omega arith)

    others : (k : ℕ) → i + k ≢ level → queue ([] ∷ qs) k ≡ queue ([] ∷ rest) k
    others zero e = refl
    others (suc k) e = g.others k (λ h. e (omega arith))

-- `take_task` fails exactly when all queues are empty.
pub take_task_lem :
    (i : ℕ) (qs : Queues)
    → ((take_task i qs ≡ none) × (all_empty qs ≡ true))
      ⊎ ((level : ℕ) × (task : ℕ) × (rest : Queues) × (take_task i qs ≡ some (level, task, rest))
          × (all_empty qs ≡ false)
          × Takes i qs level task rest)
unfolding take_task all_empty
take_task_lem i [] = inl (refl, refl)
take_task_lem i ((t ∷ q) ∷ qs) = inr (i, t, q ∷ qs, refl, refl, Takes-here i t q qs)
take_task_lem i ([] ∷ qs) = elim (take_task_lem (suc i) qs) [
  | inl (e, a) ↦ inl (rw (e, take_task) refl, a)
  | inr (level, task, rest, e, a, t) ↦
      inr (level, task, [] ∷ rest, rw (e, take_task) refl, a, Takes-later i level task qs rest t)
]
