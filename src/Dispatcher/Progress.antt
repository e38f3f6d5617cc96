-- ===== src/Dispatcher/Progress.antt =====
-- dispatcher.cc: while the loop runs, every callback that was posted is run after finitely many steps.
use multithread_libevent_exa.Prelude.{
  ℕ, zero, suc, ◌+◌, ◌*◌, ◌<◌, ◌≤◌, ◌≡◌, inl, inr, refl, sym, ap, subst, ◌∙◌, arith, Bool, true,
  false, Bool-cases, List, [], ◌∷◌, ◌++◌, length, append-nil,
}
use multithread_libevent_exa.Dispatcher.{
  Dispatcher, Callback, call, break_loop, inside, new_dispatcher, activate, timer_cb, run_callback,
  Step, activates, fires, runs, Reach, later,
}
use multithread_libevent_exa.Dispatcher.Order.{IsOrdered, Reach-IsOrdered}

-- The steps that work off what was posted: a thread in post activates the event, timerCB takes the queue,
-- or runs a callback.
pub data Work (d u : Dispatcher) : Type 0 where
  wakes_loop : 0 < d.posting → u ≡ activate d → Work d u
  takes_queue :
      d.loop ≡ inside
      → d.breaking ≡ false
      → d.active ≡ true
      → d.cbs ≡ []
      → u ≡ timer_cb d
      → Work d u
  runs_first :
      (c : Callback) (rest : List Callback)
      → d.loop ≡ inside
      → d.cbs ≡ c ∷ rest
      → u ≡ run_callback d c rest
      → Work d u

pub data Works (d : Dispatcher) : ℕ → Dispatcher → Type 0 where
  none_yet : Works d zero d
  one_more : {k : ℕ} {t u : Dispatcher} → Works d k t → Work t u → Works d (suc k) u

pub one_if : Bool → ℕ
one_if true = 1
one_if false = 0

-- A bound on the number of such steps.
pub work_left : Dispatcher → ℕ
work_left d = 2 * d.posting + one_if d.active + length d.cbs + length d.post_callbacks

-- What such a step does.
record Worked (k : ℕ) (d u : Dispatcher) : Type 0 where
  less : k + work_left u ≤ work_left d
  posted : u.posted ≡ d.posted
  loop : u.loop ≡ d.loop

run_callback-Worked :
    (d : Dispatcher) (c : Callback) (rest : List Callback)
    → d.cbs ≡ c ∷ rest
    → Worked 1 d (run_callback d c rest)
unfolding run_callback work_left
run_callback-Worked d (call k) rest e = record {
  less = omega (arith, ap length e);
  posted = refl;
  loop = refl;
}
run_callback-Worked d break_loop rest e = record {
  less = omega (arith, ap length e);
  posted = refl;
  loop = refl;
}

one_if-le : (b : Bool) → one_if b ≤ 1
unfolding one_if
one_if-le true = omega arith
one_if-le false = omega arith

Work-Worked : {d u : Dispatcher} → Work d u → Worked 1 d u
unfolding activate timer_cb work_left
Work-Worked {d} (wakes_loop pos e) = subst (Worked 1 d) (sym e) (record {
  less = omega (arith, one_if-le d.active, one_if-le true);
  posted = refl;
  loop = refl;
})
Work-Worked {d} (takes_queue l b a c e) = subst (Worked 1 d) (sym e) (record {
  less = unfold one_if in omega (arith, ap length c, ap one_if a);
  posted = refl;
  loop = refl;
})
Work-Worked {d} (runs_first c rest l q e) =
    subst (Worked 1 d) (sym e) (run_callback-Worked d c rest q)

Works-Worked : (d : Dispatcher) (k : ℕ) (u : Dispatcher) → Works d k u → Worked k d u
Works-Worked d zero u none_yet = record { less = omega arith; posted = refl; loop = refl }
Works-Worked d (suc k) u (one_more {t = t} w st) =
    let i = Works-Worked d k t w in
    let o = Work-Worked st in
    record {
      less = omega (arith, i.less, o.less);
      posted = o.posted ∙ i.posted;
      loop = o.loop ∙ i.loop;
    }

Work-Step : {d u : Dispatcher} → Work d u → Step d u
Work-Step (wakes_loop pos e) = activates pos e
Work-Step (takes_queue l b a c e) = fires l b a c e
Work-Step (runs_first c rest l q e) = runs c rest l q e

Works-Reach : {d t : Dispatcher} {k : ℕ} {u : Dispatcher} → Reach d t → Works t k u → Reach d u
Works-Reach r none_yet = r
Works-Reach r (one_more w st) = later (Works-Reach r w) (Work-Step st)

-- Every callback posted has run, or the loop is to break, or there is a step to make.
pub data Progress (d : Dispatcher) : Type 0 where
  all_ran : d.ran ≡ d.posted → Progress d
  breaks : d.breaking ≡ true → Progress d
  goes_on : (v : Dispatcher) → Work d v → Progress d

by_queues :
    (d : Dispatcher) (cbs waiting : List Callback)
    → IsOrdered d
    → d.loop ≡ inside
    → d.cbs ≡ cbs
    → d.post_callbacks ≡ waiting
    → Progress d
by_queues d (c ∷ rest) waiting i l e f =
    goes_on (run_callback d c rest) (runs_first c rest l e refl)
by_queues d [] [] i l e f =
    let empty : d.cbs ++ d.post_callbacks ≡ [] = rw (e, f) refl in
    all_ran (sym (append-nil d.ran) ∙ ap (λ q. d.ran ++ q) (sym empty) ∙ i.ordered)
by_queues d [] (c ∷ rest) i l e f = elim (Bool-cases d.breaking) [
  | inl b ↦ breaks b
  | inr b ↦ elim i.awake [
    | inl empty ↦ absurd (cc)
    | inr (inl a) ↦ goes_on (timer_cb d) (takes_queue l b a e refl)
    | inr (inr p) ↦ goes_on (activate d) (wakes_loop p refl)
  ]
]

-- Take a state that a new dispatcher reaches, with its thread inside the loop, and k steps that work
-- off what was posted: a thread in post activates the event, timerCB takes the queue, or a callback
-- runs. The bound work_left has gone down by at least k, and nothing was posted meanwhile. And all
-- callbacks that were posted have run in their order, or the loop is told to break, or one more such
-- step can be made. So while the loop runs, every callback runs after a number of steps that has a
-- known bound.
pub runs_all :
    (t u : Dispatcher) (k : ℕ)
    → Reach new_dispatcher t
    → t.loop ≡ inside
    → Works t k u
    → (k + work_left u ≤ work_left t) × (u.posted ≡ t.posted) × Progress u
runs_all t u k r l w =
    let o = Works-Worked t k u w in
    (
      o.less,
      o.posted,
      by_queues u u.cbs u.post_callbacks (Reach-IsOrdered (Works-Reach r w)) (o.loop ∙ l) refl refl,
    )
