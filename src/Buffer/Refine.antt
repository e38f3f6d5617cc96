-- ===== src/Buffer/Refine.antt =====
-- The class `buffer` against its specification, a list of bytes with the oldest first.
use multithread_libevent_exa.Prelude.{
  ℕ, ◌+◌, ◌<◌, ◌≡◌, refl, ap, ◌∙◌, false, arith, List, [], ◌∷◌, ◌++◌, length, size_mod, take, drop,
  get_or, Option, some, none, min, ltb, if◌then◌else◌, Bool-cases, inl, inr, ltb→lt, ltb→le,
}
use multithread_libevent_exa.Buffer.{
  Buffer, init, push, drain, data_of, space, store_space, space_have_seted, at,
}
use multithread_libevent_exa.Buffer.Valid.{Holds, init-Holds}
use multithread_libevent_exa.Buffer.Push.{push_lem}
use multithread_libevent_exa.Buffer.Drain.{drain_lem}
use multithread_libevent_exa.Buffer.Read.{at_lem}
use multithread_libevent_exa.Buffer.Join.{Joined, data_of_lem, data_of_short}
use multithread_libevent_exa.Buffer.Space.{space_lem, space_have_seted_lem}

-- A client's call. `fills src` asks for space, stores `src` there and announces it.
pub data Call : Type 0 where
  pushes fills : List ℕ → Call
  drains joins reads : ℕ → Call
  sizes : Call

-- What the client sees: a count, a byte, or the bytes that it asked for behind a pointer.
pub data Reply : Type 0 where
  count byte : ℕ → Reply
  pointer : Option (List ℕ) → Reply
  done : Reply

-- The specification.
unfoldable pub spec_step : List ℕ → Call → List ℕ × Reply
spec_step q (pushes src) = (q ++ src, count (length src))
spec_step q (fills src) = (q ++ src, done)
spec_step q (drains n) = (drop n q, count (min n (length q)))
spec_step q (joins n) = (q, pointer (if ltb (length q) n then none else some (take n q)))
spec_step q (reads i) = (q, byte (get_or q i 0))
spec_step q sizes = (q, count (length q))

unfoldable pub spec_run : List ℕ → List Call → List Reply
spec_run q [] = []
spec_run q (c ∷ cs) = (spec_step q c).1 ∷ spec_run (spec_step q c).0 cs

-- The calls that the class allows: sizes fit `size_t`, and `data` is asked for a byte at least.
abbrev pub Allowed : List ℕ → Call → Type 0
Allowed q (pushes src) = length q + length src < size_mod
Allowed q (fills src) = length q + length src < size_mod
Allowed q (drains n) = n < size_mod
Allowed q (joins n) = (0 < n) × (n < size_mod)
Allowed q (reads i) = Unit {0}
Allowed q sizes = Unit {0}

abbrev pub AllAllowed : List ℕ → List Call → Type 0
AllAllowed q [] = Unit {0}
AllAllowed q (c ∷ cs) = Allowed q c × AllAllowed (spec_step q c).0 cs

abbrev seen : ℕ → Option (List ℕ) → Option (List ℕ)
seen n none = none
seen n (some m) = some (take n m)

module _ (fresh : ℕ → List ℕ) where
  -- The class. `none` is a call that does not return, or that has no defined behaviour.
  unfoldable pub step : Buffer → Call → Option (Buffer × Reply)
  step b (pushes src) = let (b', n) = push fresh b src in some (b', count n)
  step b (fills src) =
      elim (space_have_seted (store_space (space fresh b (length src)).0 src) (length src)) [
        | none ↦ none
        | some b' ↦ some (b', done)
      ]
  step b (drains n) = let (b', drained) = drain b n in some (b', count drained)
  step b (joins n) = elim (data_of fresh b n) [
    | none ↦ none
    | some (b', m) ↦ some (b', pointer (seen n m))
  ]
  step b (reads i) = some (b, byte (at b i))
  step b sizes = some (b, count b.size)

  pub run : Buffer → List Call → Option (List Reply)
  run b [] = some []
  run b (c ∷ cs) = elim (step b c) [
    | none ↦ none
    | some (b', r) ↦ elim (run b' cs) [ none ↦ none | some rs ↦ some (r ∷ rs) ]
  ]

  module _ (length-fresh : (n : ℕ) → length (fresh n) ≡ n) where
    -- One call: it returns, its reply is the specification's, and so is the queue afterwards.
    abbrev pub Agrees : List ℕ → Call → Option (Buffer × Reply) → Type 0
    Agrees q c r = (b' : Buffer) × (r ≡ some (b', (spec_step q c).1)) × Holds b' (spec_step q c).0

    joins-Agrees :
        (b : Buffer) (q : List ℕ) (n : ℕ)
        → Holds b q
        → 0 < n
        → n < size_mod
        → Agrees q (joins n) (step b (joins n))
    unfolding step spec_step
    joins-Agrees b q n h pos small = elim (Bool-cases (ltb (length q) n)) [
      | inl few ↦
          (b, rw few (rw (data_of_short fresh length-fresh b q n h (ltb→lt _ _ few), step) refl), h)
      | inr enough ↦
          found enough (data_of_lem fresh length-fresh b q n h small pos (ltb→le _ _ enough))
    ]
      where
        found :
            ltb (length q) n ≡ false
            → Joined q n (data_of fresh b n)
            → Agrees q (joins n) (step b (joins n))
        found enough (b', m, e, t, h') = (b', rw enough (rw (e, step) (rw t refl)), h')

    step_lem :
        (b : Buffer) (q : List ℕ) (c : Call) → Holds b q → Allowed q c → Agrees q c (step b c)
    unfolding step spec_step
    step_lem b q (pushes src) h ok =
        let r = push_lem fresh length-fresh b q src h ok in
        ((push fresh b src).0, ap (λ n. some ((push fresh b src).0, count n)) r.1, r.0)
    step_lem b q (fills src) h ok =
        let r = space_lem fresh length-fresh h (length src) (omega arith) in
        let (b', e, h') =
          space_have_seted_lem (space fresh b (length src)).0 q (length src) _ src r.0 r.1
            (omega arith) ok in
        (b', rw (e, step) refl, h')
    step_lem b q (drains n) h ok =
        let r = drain_lem b q n h ok in
        ((drain b n).0, ap (λ k. some ((drain b n).0, count k)) r.1, r.0)
    step_lem b q (joins n) h ok = joins-Agrees b q n h ok.0 ok.1
    step_lem b q (reads i) h ok = (b, ap (λ k. some (b, byte k)) (at_lem b q i h), h)
    step_lem b q sizes h ok = (b, ap (λ k. some (b, count k)) (h.valid.sized ∙ ap length h.held), h)

    run_lem :
        (b : Buffer) (q : List ℕ) (cs : List Call)
        → Holds b q
        → AllAllowed q cs
        → run b cs ≡ some (spec_run q cs)
    unfolding run spec_run
    run_lem b q [] h ok = refl
    run_lem b q (c ∷ cs) h ok =
        let (b', e, h') = step_lem b q c h ok.0 in
        rw (e, run) (rw (run_lem b' (spec_step q c).0 cs h' ok.1, run) refl)

    -- The buffer is a queue of bytes. For every sequence of calls on a new buffer (push; space, with
    -- the bytes stored there and announced by spaceHaveSeted; drain; data; operator[]; size) in which
    -- the queue stays below 2^64 bytes and the lengths passed to drain and data are below 2^64, with
    -- at least one byte asked of data: every call returns, and with the reply that a list of bytes
    -- gives, whose front is the oldest byte.
    pub run_refines : (cs : List Call) → AllAllowed [] cs → run init cs ≡ some (spec_run [] cs)
    run_refines cs ok = run_lem init [] cs init-Holds ok
