-- ===== src/Dispatcher/Order.antt =====
-- dispatcher.cc: callbacks run in the order of posting, and no wakeup of the loop is lost.
use multithread_libevent_exa.Prelude.{
  ◌<◌, ◌≡◌, ◌⊎◌, inl, inr, refl, sym, ap, subst, ◌∙◌, arith, true, List, [], ◌∷◌, ◌++◌,
  append_assoc, append-nil,
}
use multithread_libevent_exa.Dispatcher.{
  Dispatcher, Callback, call, break_loop, new_dispatcher, is_empty, post, activate, timer_cb,
  run_callback, dispatch, leave, join, wakes_up, Step, posts, activates, fires, runs, dispatches,
  dispatches_again, leaves, joins, wakes, Reach, here, later,
}

-- What ran, what was taken to be run, and what waits: in this order they are what was posted. And while
-- a callback waits, the timer event is active, or a thread is about to activate it.
pub record IsOrdered (d : Dispatcher) : Type 0 where
  pub ordered : d.ran ++ (d.cbs ++ d.post_callbacks) ≡ d.posted
  pub awake : (d.post_callbacks ≡ []) ⊎ ((d.active ≡ true) ⊎ (0 < d.posting))

new_dispatcher-IsOrdered : IsOrdered new_dispatcher
unfolding new_dispatcher
new_dispatcher-IsOrdered = record { ordered = refl; awake = inl refl }

-- Appending to the last of three lists.
snoc_third :
    {A : Type 0} (xs ys zs ws : List A) → xs ++ (ys ++ (zs ++ ws)) ≡ (xs ++ (ys ++ zs)) ++ ws
snoc_third xs ys zs ws =
    ap (λ l. xs ++ l) (sym (append_assoc ys zs ws)) ∙ sym (append_assoc xs (ys ++ zs) ws)

-- The first of the waiting callbacks is counted for its activation; before a later one the event is
-- active, or the activation is still counted.
post-awake :
    (d : Dispatcher) (c : Callback)
    → (d.post_callbacks ≡ []) ⊎ ((d.active ≡ true) ⊎ (0 < d.posting))
    → (d.active ≡ true) ⊎ (0 < (post d c).posting)
unfolding post is_empty
post-awake d c (inl e) =
    inr (subst (λ q. 0 < (post (record d { post_callbacks = q }) c).posting) (sym e) (omega arith))
post-awake d c (inr (inl a)) = inl a
post-awake d c (inr (inr p)) = inr (by_queue d.post_callbacks)
  where
    by_queue : (q : List Callback) → 0 < (post (record d { post_callbacks = q }) c).posting
    by_queue [] = omega arith
    by_queue (x ∷ xs) = p

post-IsOrdered : (d : Dispatcher) (c : Callback) → IsOrdered d → IsOrdered (post d c)
unfolding post
post-IsOrdered d c i = record {
  ordered = snoc_third d.ran d.cbs d.post_callbacks (c ∷ []) ∙ ap (λ l. l ++ (c ∷ [])) i.ordered;
  awake = inr (post-awake d c i.awake);
}

run_callback-IsOrdered :
    (d : Dispatcher) (c : Callback) (rest : List Callback)
    → d.cbs ≡ c ∷ rest
    → IsOrdered d
    → IsOrdered (run_callback d c rest)
unfolding run_callback
run_callback-IsOrdered d (call k) rest e i = record {
  ordered = moved (call k) d.ran d.post_callbacks ∙ again;
  awake = i.awake;
}
  where
    moved :
        (c : Callback) (xs zs : List Callback)
        → (xs ++ (c ∷ [])) ++ (rest ++ zs) ≡ xs ++ (c ∷ (rest ++ zs))
    moved c xs zs = append_assoc xs (c ∷ []) (rest ++ zs)

    again : d.ran ++ (call k ∷ (rest ++ d.post_callbacks)) ≡ d.posted
    again = subst (λ q. d.ran ++ (q ++ d.post_callbacks) ≡ d.posted) e i.ordered
run_callback-IsOrdered d break_loop rest e i = record {
  ordered = append_assoc d.ran (break_loop ∷ []) (rest ++ d.post_callbacks) ∙ again;
  awake = i.awake;
}
  where
    again : d.ran ++ (break_loop ∷ (rest ++ d.post_callbacks)) ≡ d.posted
    again = subst (λ q. d.ran ++ (q ++ d.post_callbacks) ≡ d.posted) e i.ordered

timer_cb-IsOrdered : (d : Dispatcher) → d.cbs ≡ [] → IsOrdered d → IsOrdered (timer_cb d)
unfolding timer_cb
timer_cb-IsOrdered d c i = record {
  ordered =
      ap (λ q. d.ran ++ q) (append-nil d.post_callbacks)
      ∙ subst (λ q. d.ran ++ (q ++ d.post_callbacks) ≡ d.posted) c i.ordered;
  awake = inl refl;
}

Step-IsOrdered : {d u : Dispatcher} → Step d u → IsOrdered d → IsOrdered u
Step-IsOrdered {d} (posts c e) i = subst IsOrdered (sym e) (post-IsOrdered d c i)
Step-IsOrdered {d} (activates pos e) i =
    subst IsOrdered (sym e)
      (unfold activate in record { ordered = i.ordered; awake = inr (inl refl) })
Step-IsOrdered {d} (fires l b a c e) i = subst IsOrdered (sym e) (timer_cb-IsOrdered d c i)
Step-IsOrdered {d} (runs c rest l q e) i =
    subst IsOrdered (sym e) (run_callback-IsOrdered d c rest q i)
Step-IsOrdered {d} (dispatches l e) i =
    subst IsOrdered (sym e) (unfold dispatch in record { ordered = i.ordered; awake = i.awake })
Step-IsOrdered {d} (dispatches_again l e) i =
    subst IsOrdered (sym e) (unfold dispatch in record { ordered = i.ordered; awake = i.awake })
Step-IsOrdered {d} (leaves l b c e) i =
    subst IsOrdered (sym e) (unfold leave in record { ordered = i.ordered; awake = i.awake })
Step-IsOrdered {d} (joins a e) i =
    subst IsOrdered (sym e) (unfold join in record { ordered = i.ordered; awake = i.awake })
Step-IsOrdered {d} (wakes a e) i =
    subst IsOrdered (sym e) (unfold wakes_up in record { ordered = i.ordered; awake = i.awake })

-- In every state that a new dispatcher reaches, whatever the order of the steps of the threads: the
-- callbacks that have run, then those that timerCB has taken, then those that wait are the callbacks
-- posted, in the order of posting; and while one waits, the timer event is active or a thread in post
-- is about to activate it.
pub Reach-IsOrdered : {u : Dispatcher} → Reach new_dispatcher u → IsOrdered u
Reach-IsOrdered here = new_dispatcher-IsOrdered
Reach-IsOrdered (later r st) = Step-IsOrdered st (Reach-IsOrdered r)
