-- ===== src/Dispatcher/Tests.antt =====
-- dispatcher.cc on concrete runs.
use multithread_libevent_exa.Prelude.{◌+◌, ◌≤◌, ◌≡◌, refl, arith, [], ◌∷◌}
use multithread_libevent_exa.Dispatcher.{
  Dispatcher, call, break_loop, inside, behind, asleep, new_dispatcher, is_empty, post, activate,
  timer_cb, run_callback, dispatch, leave, join, posts, activates, fires, runs, dispatches, Reach,
  here, later,
}
use multithread_libevent_exa.Dispatcher.Order.{IsOrdered, Reach-IsOrdered}
use multithread_libevent_exa.Dispatcher.Progress.{
  Works, none_yet, one_more, takes_queue, work_left, Progress, runs_all,
}
use multithread_libevent_exa.Dispatcher.Join.{join_misses}

-- A callback and a `stop` are posted, and both have run.
abbrev posted_two : Dispatcher
posted_two = activate (post (post (dispatch new_dispatcher) (call 7)) break_loop)

abbrev ran_two : Dispatcher
ran_two = run_callback (run_callback (timer_cb posted_two) (call 7) (break_loop ∷ [])) break_loop []

two_run : Reach new_dispatcher ran_two
unfolding new_dispatcher post is_empty activate timer_cb run_callback dispatch
two_run =
    later
      (later
        (later
          (later
            (later (later (later here (dispatches refl refl)) (posts (call 7) refl))
              (posts break_loop refl))
            (activates (omega arith) refl))
          (fires refl refl refl refl refl))
        (runs (call 7) (break_loop ∷ []) refl refl refl))
      (runs break_loop [] refl refl refl)

Reach-IsOrdered_example : IsOrdered ran_two
Reach-IsOrdered_example = Reach-IsOrdered two_run

abbrev ended : Dispatcher
ended = leave ran_two

-- After the end a callback is posted to no effect.
posted_late : Reach (join ended) (post (join ended) (call 8))
posted_late = later here (posts (call 8) refl)

ended-behind : ended.loop ≡ behind
unfolding leave
ended-behind = refl

join_misses_example : let u = post (join ended) (call 8) in (u.joiner ≡ asleep) × (u.loop ≡ behind)
unfolding post join
join_misses_example =
    join_misses ended (post (join ended) (call 8)) ended-behind posted_late refl refl

-- The loop has two callbacks to run, and timerCB takes them.
posted_two-Reach : Reach new_dispatcher posted_two
unfolding new_dispatcher dispatch post is_empty
posted_two-Reach =
    later
      (later (later (later here (dispatches refl refl)) (posts (call 7) refl))
        (posts break_loop refl))
      (activates (omega arith) refl)

posted_two-inside : posted_two.loop ≡ inside
unfolding activate post dispatch
posted_two-inside = refl

taken : Works posted_two 1 (timer_cb posted_two)
unfolding new_dispatcher activate post dispatch
taken = one_more none_yet (takes_queue refl refl refl refl refl)

runs_all_example :
    (1 + work_left (timer_cb posted_two) ≤ work_left posted_two)
    × ((timer_cb posted_two).posted ≡ posted_two.posted)
    × Progress (timer_cb posted_two)
runs_all_example =
    runs_all posted_two (timer_cb posted_two) 1 posted_two-Reach posted_two-inside taken
