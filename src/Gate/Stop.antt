-- ===== src/Gate/Stop.antt =====
-- GateServer.cpp, `OnStopServer` and `MainThread`.
use multithread_libevent_exa.Prelude.{◌≡◌, ◌≢◌, refl, true, inl, inr, ◌⊎◌}
use multithread_libevent_exa.Gate.{
  Gate, created, looping, ended, joining, Step, begins, goes_round, returns, stops, joins, Reach,
  here, later,
}

-- The caller waits, and the thread has not begun, or goes round with IsRun set.
pub record IsStuck (g : Gate) : Type 0 where
  pub waiting : g.caller ≡ joining
  pub at : (g.worker ≡ created) ⊎ ((g.worker ≡ looping) × (g.is_run ≡ true))

Step-IsStuck : {g u : Gate} → Step g u → IsStuck g → IsStuck u
Step-IsStuck (begins e) i = record { waiting = i.waiting; at = inr (refl, refl) }
Step-IsStuck (goes_round e r) i = i
Step-IsStuck (returns e r) i = absurd (elim i.at [ inl c ↦ cc | inr p ↦ cc ])
Step-IsStuck (stops e) i = absurd (let w = i.waiting in cc)
Step-IsStuck (joins e f) i = absurd (elim i.at [ inl c ↦ cc | inr p ↦ cc ])

Reach-IsStuck : {g u : Gate} → Reach g u → IsStuck g → IsStuck u
Reach-IsStuck here i = i
Reach-IsStuck (later r st) i = Step-IsStuck st (Reach-IsStuck r i)

-- If OnStopServer has cleared IsRun before the thread of MainThread has begun, then in every state
-- that any steps of the two lead to, OnStopServer still waits for the thread, and the thread has not
-- ended.
pub stop_misses :
    (g u : Gate)
    → g.caller ≡ joining
    → g.worker ≡ created
    → Reach g u
    → (u.caller ≡ joining) × (u.worker ≢ ended)
stop_misses g u w c r =
    let i = Reach-IsStuck r (record { waiting = w; at = inl c }) in
    (i.waiting, λ e. elim i.at [ inl c' ↦ cc | inr p ↦ cc ])
