-- ===== src/Dispatcher.antt =====
-- dispatcher.h and dispatcher.cc: callbacks that any thread hands to the thread of an event loop.
-- A callback is a number, and `break_loop` is the one that `stop` posts. Each part that runs under `mu_`
-- is one step, and the steps of the posting threads, of the loop and of the thread in `join` come in any
-- order (`Step`), with the wakeups of `cond_.wait` that nobody asked for. `posted` and `ran` record the
-- history of the callbacks, and `spurious` and `dispatched` count those wakeups and the calls of
-- `dispatch`; the program has no such variables.
pub mod Order
pub mod Join
pub mod Progress
mod Tests
use multithread_libevent_exa.Prelude.{
  ℕ, suc, ◌+◌, ◌-◌, ◌<◌, ◌≡◌, Bool, true, false, List, [], ◌∷◌, ◌++◌,
}

pub data Callback : Type 0 where
  call : ℕ → Callback
  break_loop : Callback

-- The thread in `dispatch`: before `event_base_loop`, in it, and behind `notify_all`.
pub data Loop : Type 0 where
  before inside behind : Loop

-- The thread that calls `join`: before the call, in `cond_.wait`, and returned.
pub data Joiner : Type 0 where
  away asleep joined : Joiner

-- `active` says that the event `ev_timer_` is active, `posting` counts the threads in `post` between
-- the unlock and `event_active`, `cbs` are the callbacks that `timerCB` has taken, and `breaking` is the
-- mark of `event_base_loopbreak`.
pub record Dispatcher : Type 0 where
  pub post_callbacks : List Callback
  pub active : Bool
  pub posting : ℕ
  pub cbs : List Callback
  pub loop : Loop
  pub breaking : Bool
  pub stop : Bool
  pub joiner : Joiner
  pub posted : List Callback
  pub ran : List Callback
  pub spurious : ℕ
  pub dispatched : ℕ

-- The constructor.
unfoldable pub new_dispatcher : Dispatcher
new_dispatcher = record {
  post_callbacks = [];
  active = false;
  posting = 0;
  cbs = [];
  loop = before;
  breaking = false;
  stop = true;
  joiner = away;
  posted = [];
  ran = [];
  spurious = 0;
  dispatched = 0;
}

-- `do_post`.
unfoldable pub is_empty : List Callback → Bool
is_empty [] = true
is_empty (c ∷ cs) = false

-- `post`, under the lock.
unfoldable pub post : Dispatcher → Callback → Dispatcher
post d c = record d {
  post_callbacks = d.post_callbacks ++ (c ∷ []);
  posting = count (is_empty d.post_callbacks);
  posted = d.posted ++ (c ∷ []);
}
  where
    count : Bool → ℕ
    count true = suc d.posting
    count false = d.posting

-- `stop`.
unfoldable pub stop_dispatch : Dispatcher → Dispatcher
stop_dispatch d = post d break_loop

-- `event_active` in `post`.
unfoldable pub activate : Dispatcher → Dispatcher
activate d = record d { active = true; posting = d.posting - 1 }

-- `timerCB` up to its loop: the queue is taken whole.
unfoldable pub timer_cb : Dispatcher → Dispatcher
timer_cb d = record d { active = false; cbs = d.post_callbacks; post_callbacks = [] }

-- A round of `timerCB`'s loop, with `c` at the front.
unfoldable pub run_callback : Dispatcher → Callback → List Callback → Dispatcher
run_callback d (call k) rest = record d { cbs = rest; ran = d.ran ++ (call k ∷ []) }
run_callback d break_loop rest = record d {
  cbs = rest;
  ran = d.ran ++ (break_loop ∷ []);
  breaking = true;
}

-- `dispatch` up to the loop of `event_base_loop`, which first takes the mark back. The thread may call
-- it again when it has returned.
unfoldable pub dispatch : Dispatcher → Dispatcher
dispatch d = record d {
  loop = inside;
  stop = false;
  breaking = false;
  dispatched = suc d.dispatched;
}

-- `notify_all` wakes a thread that waits then.
abbrev pub wake : Joiner → Joiner
wake away = away
wake asleep = joined
wake joined = joined

-- The end of `event_base_loop` at the mark, and `notify_all`.
unfoldable pub leave : Dispatcher → Dispatcher
leave d = record d { loop = behind; joiner = wake d.joiner }

-- `join` up to its wait.
unfoldable pub join : Dispatcher → Dispatcher
join d = record d { joiner = asleep }

-- `cond_.wait` returns although nobody has notified, and `join` with it, which does not wait again.
unfoldable pub wakes_up : Dispatcher → Dispatcher
wakes_up d = record d { joiner = joined; spurious = suc d.spurious }

pub data Step (d u : Dispatcher) : Type 0 where
  posts : (c : Callback) → u ≡ post d c → Step d u
  activates : 0 < d.posting → u ≡ activate d → Step d u
  fires :
      d.loop ≡ inside
      → d.breaking ≡ false
      → d.active ≡ true
      → d.cbs ≡ []
      → u ≡ timer_cb d
      → Step d u
  runs :
      (c : Callback) (rest : List Callback)
      → d.loop ≡ inside
      → d.cbs ≡ c ∷ rest
      → u ≡ run_callback d c rest
      → Step d u
  dispatches : d.loop ≡ before → u ≡ dispatch d → Step d u
  dispatches_again : d.loop ≡ behind → u ≡ dispatch d → Step d u
  leaves : d.loop ≡ inside → d.breaking ≡ true → d.cbs ≡ [] → u ≡ leave d → Step d u
  joins : d.joiner ≡ away → u ≡ join d → Step d u
  wakes : d.joiner ≡ asleep → u ≡ wakes_up d → Step d u

pub data Reach (d : Dispatcher) : Dispatcher → Type 0 where
  here : Reach d d
  later : {t u : Dispatcher} → Reach d t → Step t u → Reach d u
