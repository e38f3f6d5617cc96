-- ===== src/Dispatcher/Join.antt =====
-- dispatcher.cc: a `join` that starts when `dispatch` has ended waits for a notification that is past.
use multithread_libevent_exa.Prelude.{
  ◌≡◌, ◌≤◌, ◌<◌, ◌⊎◌, inl, inr, refl, sym, subst, ◌∙◌, arith, List,
}
use multithread_libevent_exa.Dispatcher.{
  Dispatcher, Callback, call, break_loop, before, inside, behind, away, asleep, post, activate,
  timer_cb, run_callback, dispatch, leave, join, wakes_up, Step, posts, activates, fires, runs,
  dispatches, dispatches_again, leaves, joins, wakes, Reach, here, later,
}

-- The loop has ended, and the joining thread waits.
record IsStuck (d : Dispatcher) : Type 0 where
  ended : d.loop ≡ behind
  waits : d.joiner ≡ asleep

-- The two counts only grow.
record Grows (d u : Dispatcher) : Type 0 where
  spurious : d.spurious ≤ u.spurious
  dispatched : d.dispatched ≤ u.dispatched

-- A wakeup that nobody asked for has come, or a call of dispatch.
abbrev Disturbed : Dispatcher → Dispatcher → Type 0
Disturbed d u = (d.spurious < u.spurious) ⊎ (d.dispatched < u.dispatched)

run_callback-Grows :
    (d : Dispatcher) (c : Callback) (rest : List Callback) → Grows d (run_callback d c rest)
unfolding run_callback
run_callback-Grows d (call k) rest = record { spurious = omega arith; dispatched = omega arith }
run_callback-Grows d break_loop rest = record { spurious = omega arith; dispatched = omega arith }

Step-Grows : {d u : Dispatcher} → Step d u → Grows d u
unfolding post activate timer_cb dispatch leave join wakes_up
Step-Grows {d} (posts c e) =
    subst (Grows d) (sym e) (record { spurious = omega arith; dispatched = omega arith })
Step-Grows {d} (activates p e) =
    subst (Grows d) (sym e) (record { spurious = omega arith; dispatched = omega arith })
Step-Grows {d} (fires l b a c e) =
    subst (Grows d) (sym e) (record { spurious = omega arith; dispatched = omega arith })
Step-Grows {d} (runs c rest l q e) = subst (Grows d) (sym e) (run_callback-Grows d c rest)
Step-Grows {d} (dispatches l e) =
    subst (Grows d) (sym e) (record { spurious = omega arith; dispatched = omega arith })
Step-Grows {d} (dispatches_again l e) =
    subst (Grows d) (sym e) (record { spurious = omega arith; dispatched = omega arith })
Step-Grows {d} (leaves l b c e) =
    subst (Grows d) (sym e) (record { spurious = omega arith; dispatched = omega arith })
Step-Grows {d} (joins a e) =
    subst (Grows d) (sym e) (record { spurious = omega arith; dispatched = omega arith })
Step-Grows {d} (wakes a e) =
    subst (Grows d) (sym e) (record { spurious = omega arith; dispatched = omega arith })

Reach-Grows : {d u : Dispatcher} → Reach d u → Grows d u
Reach-Grows here = record { spurious = omega arith; dispatched = omega arith }
Reach-Grows (later r st) =
    let i = Reach-Grows r in
    let o = Step-Grows st in
    record {
      spurious = omega (arith, i.spurious, o.spurious);
      dispatched = omega (arith, i.dispatched, o.dispatched);
    }

run_callback-IsStuck :
    (d : Dispatcher) (c : Callback) (rest : List Callback)
    → IsStuck d
    → IsStuck (run_callback d c rest)
unfolding run_callback
run_callback-IsStuck d (call k) rest s = record { ended = s.ended; waits = s.waits }
run_callback-IsStuck d break_loop rest s = record { ended = s.ended; waits = s.waits }

Step-IsStuck : {d u : Dispatcher} → Step d u → IsStuck d → IsStuck u ⊎ Disturbed d u
Step-IsStuck {d} (posts c e) s =
    inl (subst IsStuck (sym e) (unfold post in record { ended = s.ended; waits = s.waits }))
Step-IsStuck {d} (activates p e) s =
    inl (subst IsStuck (sym e) (unfold activate in record { ended = s.ended; waits = s.waits }))
Step-IsStuck {d} (fires l b a c e) s =
    inl (subst IsStuck (sym e) (unfold timer_cb in record { ended = s.ended; waits = s.waits }))
Step-IsStuck {d} (runs c rest l q e) s =
    inl (subst IsStuck (sym e) (run_callback-IsStuck d c rest s))
Step-IsStuck {d} (dispatches l e) s = absurd (before_not (sym l ∙ s.ended))
  where
    before_not : ¬ (before ≡ behind)
    before_not q = cc
Step-IsStuck {d} (dispatches_again l e) s =
    inr (inr (subst (λ x. d.dispatched < x.dispatched) (sym e) (unfold dispatch in omega arith)))
Step-IsStuck {d} (leaves l b c e) s = absurd (inside_not (sym l ∙ s.ended))
  where
    inside_not : ¬ (inside ≡ behind)
    inside_not q = cc
Step-IsStuck {d} (joins a e) s = absurd (away_not (sym a ∙ s.waits))
  where
    away_not : ¬ (away ≡ asleep)
    away_not q = cc
Step-IsStuck {d} (wakes a e) s =
    inr (inl (subst (λ x. d.spurious < x.spurious) (sym e) (unfold wakes_up in omega arith)))

Reach-IsStuck :
    {d u : Dispatcher}
    → IsStuck d
    → Reach d u
    → u.spurious ≡ d.spurious
    → u.dispatched ≡ d.dispatched
    → IsStuck u
Reach-IsStuck s here e f = s
Reach-IsStuck s (later r st) e f =
    let i = Reach-Grows r in
    let o = Step-Grows st in
    let stuck =
      Reach-IsStuck s r (omega (arith, e, i.spurious, o.spurious))
        (omega (arith, f, i.dispatched, o.dispatched)) in
    elim (Step-IsStuck st stuck) [
      | inl still ↦ still
      | inr (inl more) ↦ absurd (omega (arith, e, i.spurious, more))
      | inr (inr more) ↦ absurd (omega (arith, f, i.dispatched, more))
    ]

-- When the thread in dispatch is behind notify_all, and a thread then calls join: in every state that
-- any steps of the threads lead to, and in between which cond_.wait has not woken up without a
-- notification and dispatch has not been called again, the thread is still in its wait, and the loop
-- has ended.
pub join_misses :
    (d u : Dispatcher)
    → d.loop ≡ behind
    → Reach (join d) u
    → u.spurious ≡ d.spurious
    → u.dispatched ≡ d.dispatched
    → (u.joiner ≡ asleep) × (u.loop ≡ behind)
unfolding join
join_misses d u e r f g =
    let s = Reach-IsStuck (record { ended = e; waits = refl }) r f g in (s.waits, s.ended)
