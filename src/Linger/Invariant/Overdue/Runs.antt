-- ===== src/Linger/Invariant/Overdue/Runs.antt =====
-- src/linger.rs: a timed function whose budget is over is back at its call site an instruction after the
-- next preemption signal, whatever it is doing.
use libinger.Base.{
  ℕ, ◌+◌, ◌*◌, ◌≤◌, ◌≡◌, refl, subst, sym, Bool, true, false, Option, List, [], ◌∷◌, ◌++◌, inl, inr,
  ◌⊎◌, Allows, Ensures, Ensures->>=, arith, Ensures-Allows, length, length-append, Meets-imp, ◌>>=◌,
}
use libinger.Gotcha.{Gotcha}
use libinger.Signal.{Signal}
use libinger.Machine.{
  Action, PreemptionSignal, Point, before_fun, client, in_library, in_hook, after_fun, Control,
  call_site, entry, running, Thread, Machine, Event, instruct, arrive, elapse,
}
use libinger.Linger.Run.{deliver_found, deliver_pending, effect, step, run}
use libinger.Linger.Run.Pending.{Quiet, find_unblocked-Quiet}
use libinger.Linger.Invariant.{Where, Inv, Open, Sits, is_inside}
use libinger.Linger.Invariant.Steps.{step-Inv}
use libinger.Linger.Invariant.Due.{instructions}
use libinger.Linger.Invariant.Spends.{elapsed}
use libinger.Linger.Invariant.Prompt.{Timely}
use libinger.Linger.Invariant.Prompt.Runs.{Kept, after_event, step-Kept}
use libinger.Linger.Invariant.Overdue.{Back, Over, PutOff, arrive-Back, arrive-PutOff, leave-Back}

-- Time passes, a preemption signal arrives, and the processor makes a step.
abbrev pub slice : PreemptionSignal → ℕ → List Event → List Event
slice p n after = elapse n ∷ arrive p.signal ∷ instruct ∷ after

module _ {Group : Type 0} (G : Gotcha Group) {S T : Type 0} (next : S → Action S T) (g : Group)
    (p : PreemptionSignal) (start : S) (private : G.is_shared g ≡ false) where
  abbrev Returned : Machine Group S T → Type 0
  Returned = Back G next g p start private

  abbrev Late : Thread Group S → Type 0
  Late = Over G next g p start private

  abbrev Deferring : Group → S → Option Signal → Machine Group S T → Type 0
  Deferring = PutOff G next g p start private

  -- Where `run` goes on with the events `es`.
  abbrev pub Arrives : List Event → Machine Group S T × List Event → Type 0
  Arrives es r = Where G next g p start call_site r.0.thread r.0.fun × (length es ≤ length r.1)

  run-Back :
      (es : List Event) (m : Machine Group S T) (c : Control Group S)
      → m.control ≡ c
      → c ≡ call_site
      → Inv G next g p start m
      → Ensures (Arrives es) (run G next es m c)
  unfolding run
  run-Back es m call_site e k w = (rw e at w, ground arith)
  run-Back es m entry e k w = cc
  run-Back es m (running u q) e k w = cc

  -- What holds of a run with the budget `us`, `fresh` or not, and with `left` nanoseconds to come.
  abbrev Timed : ℕ → Bool → ℕ → Machine Group S T → Type 0
  Timed us = Kept G next g p start private us

  -- After the signal, in a library call.
  put_off-Arrives :
      (us : ℕ) (after : List Event) (m : Machine Group S T) (v : Option Signal) (h : Group) (x : S)
      (c : Control Group S)
      → m.control ≡ c
      → Deferring h x v m
      → Timed us false (elapsed (instruct ∷ after)) m
      → Ensures (Arrives after) (run G next (instruct ∷ after) m c)
  unfolding run
  put_off-Arrives us after m v h x call_site e d k = let i = d.in_call in cc
  put_off-Arrives us after m v h x entry e d k = let i = d.in_call in cc
  put_off-Arrives us after m v h x (running w q) e d k =
      Ensures->>= _ (λ n. Inv G next g p start n × Returned n) (Arrives after)
        (step G next instruct m) (λ n. run G next after n n.control)
        (Ensures-Allows (Inv G next g p start) Returned (step G next instruct m)
          (step-Inv G next g p start private instruct m k.0) (in_call (rw d.in_call at k)))
        (λ n (w, b). run-Back after n n.control refl b w)
    where
      in_call :
          Where G next g p start (running v (in_library h x)) m.thread m.fun
            × Timely us false Quiet
                (elapsed (instruct ∷ after))
                (running v (in_library h x))
                m.thread
          → Allows Returned (step G next instruct m)
      in_call (y, t) = leave-Back G next g p start private m v h x d y t.0 t.1

  Sits-Open :
      (u : Option Signal) (q : Point Group S) (t : Thread Group S)
      → is_inside G next g p start q ≡ true
      → Sits G next g p start u q t
      → Open G next g p start u t
  Sits-Open u before_fun t i o = o
  Sits-Open u (client x) t i o = o
  Sits-Open u (in_library h x) t i o = cc
  Sits-Open u (in_hook e x) t i o = o
  Sits-Open u after_fun t i o = o

  -- At the signal, in the function's group.
  paused_there :
      (us : ℕ) (after : List Event) (m : Machine Group S T) (v : Option Signal) (q : Point Group S)
      → m.control ≡ running v q
      → is_inside G next g p start q ≡ true
      → Late m.thread
      → Timed us false (elapsed (arrive p.signal ∷ instruct ∷ after)) m
      → Ensures
          (Arrives after)
          (step G next (arrive p.signal) m >>= λ n. run G next (instruct ∷ after) n n.control)
  paused_there us after m v q e i l k =
      Ensures->>= _ (λ n. Inv G next g p start n × Returned n) (Arrives after)
        (step G next (arrive p.signal) m) (λ n. run G next (instruct ∷ after) n n.control)
        (Ensures-Allows (Inv G next g p start) Returned (step G next (arrive p.signal) m)
          (step-Inv G next g p start private (arrive p.signal) m k.0) (in_group (rw e at k)))
        (λ n (w, b).
          Meets-imp ⊥ (Arrives (instruct ∷ after)) (Arrives after) _
            (run-Back (instruct ∷ after) n n.control refl b w) (λ r (x, j). (x, omega arith)))
    where
      in_group :
          Where G next g p start (running v q) m.thread m.fun
            × Timely us false Quiet
                (elapsed (arrive p.signal ∷ instruct ∷ after))
                (running v q)
                m.thread
          → Allows Returned (step G next (arrive p.signal) m)
      in_group ((r, o, y), t) =
          arrive-Back G next g p start private m v r (Sits-Open v q m.thread i o) l t.0 t.1

  -- From the signal on, at any point of the run.
  signalled-Arrives :
      (us : ℕ) (after : List Event) (m : Machine Group S T) (v : Option Signal) (q : Point Group S)
      → m.control ≡ running v q
      → Late m.thread
      → Timed us false (elapsed (arrive p.signal ∷ instruct ∷ after)) m
      → Ensures (Arrives after) (run G next (arrive p.signal ∷ instruct ∷ after) m (running v q))
  unfolding run
  signalled-Arrives us after m v (in_library h x) e l k =
      Ensures->>= _ (λ n. Timed us false (elapsed (instruct ∷ after)) n × Deferring h x v n)
        (Arrives after) (step G next (arrive p.signal) m)
        (λ n. run G next (instruct ∷ after) n n.control)
        (Ensures-Allows (Timed us false (elapsed (instruct ∷ after))) (Deferring h x v)
          (step G next (arrive p.signal) m)
          (step-Kept G next g p start private us false (elapsed (instruct ∷ after))
            (arrive p.signal) m k)
          (in_call (rw e at k)))
        (λ n (t, d). put_off-Arrives us after n v h x n.control refl d t)
    where
      in_call :
          Where G next g p start (running v (in_library h x)) m.thread m.fun
            × Timely us false Quiet
                (elapsed (arrive p.signal ∷ instruct ∷ after))
                (running v (in_library h x))
                m.thread
          → Allows (Deferring h x v) (step G next (arrive p.signal) m)
      in_call ((r, (i, o), y), t) = arrive-PutOff G next g p start private m v h x e r o l t.0 t.1
  signalled-Arrives us after m v before_fun e l k = paused_there us after m v before_fun e refl l k
  signalled-Arrives us after m v (client s) e l k = paused_there us after m v (client s) e refl l k
  signalled-Arrives us after m v (in_hook n s) e l k =
      paused_there us after m v (in_hook n s) e refl l k
  signalled-Arrives us after m v after_fun e l k = paused_there us after m v after_fun e refl l k

  -- Enough time passes for the budget to be over.
  elapse-Over :
      (us n left : ℕ) (m : Machine Group S T) (v : Option Signal) (q : Point Group S)
      → m.control ≡ running v q
      → us * 1000 ≤ n
      → Timely us false Quiet (n + left) (running v q) m.thread
      → Allows (λ k. (k.control ≡ running v q) × Late k.thread) (step G next (elapse n) m)
  unfolding step effect deliver_pending deliver_found
  elapse-Over us n left m v q e l t =
      rw (find_unblocked-Quiet m.thread.mask m.thread.pending t.0)
        (e, (ground (arith, t.2, t.3), ground (arith, t.3)))

  slice-Arrives :
      (us n : ℕ) (after : List Event) (m : Machine Group S T) (c : Control Group S)
      → us * 1000 ≤ n
      → m.control ≡ c
      → Timed us false (elapsed (slice p n after)) m
      → Ensures (Arrives after) (run G next (slice p n after) m c)
  unfolding run
  slice-Arrives us n after m call_site l e k =
      Meets-imp ⊥ (Arrives (slice p n after)) (Arrives after)
        (run G next (slice p n after) m call_site)
        (run-Back (slice p n after) m call_site e refl k.0) (λ r (x, j). (x, omega arith))
  slice-Arrives us n after m entry l e k = fresh_start (rw e at k)
    where
      fresh_start :
          Where G next g p start entry m.thread m.fun
            × Timely us false Quiet (elapsed (slice p n after)) entry m.thread
          → Ensures (Arrives after) (
              step G next (elapse n) m >>= λ k.
              run G next (arrive p.signal ∷ instruct ∷ after) k k.control)
      fresh_start (w, t) = let x = t.4 in cc
  slice-Arrives us n after m (running v q) l e k =
      Ensures->>= _ (λ x. Timed us false rest x × ((x.control ≡ running v q) × Late x.thread))
        (Arrives after) (step G next (elapse n) m)
        (λ x. run G next (arrive p.signal ∷ instruct ∷ after) x x.control)
        (Ensures-Allows (Timed us false rest) (λ x. (x.control ≡ running v q) × Late x.thread)
          (step G next (elapse n) m)
          (step-Kept G next g p start private us false rest (elapse n) m k) (at_point (rw e at k)))
        (λ x (t, (i, o)).
          subst (λ y. Ensures (Arrives after) (run G next (arrive p.signal ∷ instruct ∷ after) x y))
            (sym i) (signalled-Arrives us after x v q i o t))
    where
      rest : ℕ
      rest = elapsed (arrive p.signal ∷ instruct ∷ after)

      at_point :
          Where G next g p start (running v q) m.thread m.fun
            × Timely us false Quiet (n + rest) (running v q) m.thread
          → Allows (λ x. (x.control ≡ running v q) × Late x.thread) (step G next (elapse n) m)
      at_point (w, t) = elapse-Over us n rest m v q e l t

  still :
      (fresh : Bool) (x : Event) (before : List Event)
      → (fresh ≡ false) ⊎ (1 ≤ instructions (x ∷ before))
      → (after_event fresh x ≡ false) ⊎ (1 ≤ instructions before)
  still fresh instruct before f = inl refl
  still fresh (arrive s) before f = f
  still fresh (elapse n) before f = f

  onward :
      (us n : ℕ) (x : Event) (before after : List Event) (fresh : Bool) (m : Machine Group S T)
      → Timed us fresh (elapsed (x ∷ before ++ slice p n after)) m
      → ((y : Machine Group S T)
          → Timed us (after_event fresh x) (elapsed (before ++ slice p n after)) y
          → Ensures (Arrives after) (run G next (before ++ slice p n after) y y.control))
      → Ensures
          (Arrives after)
          (step G next x m >>= λ k. run G next (before ++ slice p n after) k k.control)
  onward us n x before after fresh m k next_run =
      Ensures->>= _ (Timed us (after_event fresh x) (elapsed (before ++ slice p n after)))
        (Arrives after) (step G next x m) (λ y. run G next (before ++ slice p n after) y y.control)
        (step-Kept G next g p start private us fresh (elapsed (before ++ slice p n after)) x m k)
        next_run

  -- Through any events before, with an instruction among them if the run is fresh.
  pub run-Overdue :
      (us n : ℕ) (before after : List Event) (fresh : Bool) (m : Machine Group S T)
      (c : Control Group S)
      → us * 1000 ≤ n
      → m.control ≡ c
      → (fresh ≡ false) ⊎ (1 ≤ instructions before)
      → Timed us fresh (elapsed (before ++ slice p n after)) m
      → Ensures (Arrives after) (run G next (before ++ slice p n after) m c)
  unfolding run
  run-Overdue us n [] after fresh m c l e f k = elim f [
    | inl x ↦
        slice-Arrives us n after m c l e (subst (λ b. Timed us b (elapsed (slice p n after)) m) x k)
    | inr x ↦ absurd (omega arith)
  ]
  run-Overdue us n (x ∷ before) after fresh m call_site l e f k =
      Meets-imp ⊥ (Arrives (x ∷ before ++ slice p n after)) (Arrives after)
        (run G next (x ∷ before ++ slice p n after) m call_site)
        (run-Back (x ∷ before ++ slice p n after) m call_site e refl k.0)
        (λ r (w, j). (w, omega (arith, length-append before (slice p n after))))
  run-Overdue us n (x ∷ before) after fresh m entry l e f k =
      onward us n x before after fresh m k λ y t.
        run-Overdue us n before after (after_event fresh x) y y.control l refl
          (still fresh x before f) t
  run-Overdue us n (x ∷ before) after fresh m (running v q) l e f k =
      onward us n x before after fresh m k λ y t.
        run-Overdue us n before after (after_event fresh x) y y.control l refl
          (still fresh x before f) t
