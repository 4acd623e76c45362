-- ===== src/Linger/Invariant/Unstopped.antt =====
-- src/linger.rs: nothing but a signal or a yield pauses a timed function.
use libinger.Base.{
  ℕ, ◌+◌, ◌*◌, ◌≤◌, ◌≡◌, refl, Bool, true, false, Option, none, some, is_some, List, [], ◌∷◌, All,
  Allows, Ensures, Safe, Ensures->>=, Ensures-Allows, Bool-cases, inl, inr, ◌==◌, arith,
  Meets-Allows,
}
use libinger.Gotcha.{Gotcha}
use libinger.Signal.{Signal}
use libinger.Signal.Set.{Sigset}
use libinger.Machine.{
  Action, compute, library, yield_now, finish, PreemptionSignal, Point, before_fun, client,
  in_library, in_hook, after_fun, Control, call_site, entry, running, Thread, Machine, Event,
  instruct, arrive, elapse,
}
use libinger.Preemption.{disable_preemption, mask, set_tls, propagate_errno}
use libinger.Preemption.Cases.{enable_preemption-some, enable_preemption_quiet}
use libinger.Linger.Clock.{stamp}
use libinger.Linger.Run.{
  deliver_found, deliver_pending, act, go, leave, hooked, bootstrapped, enabled, call_fun,
  arrive_at, at_point, effect, instructed, step, run, find_unblocked,
}
use libinger.Linger.Invariant.{Where, Inv, Ready, site_of}
use libinger.Linger.Invariant.Steps.{named, effect-Inv}
use libinger.Linger.Invariant.Due.{instructions, ends_within}
use libinger.Linger.Invariant.Ends.{run_ends}

abbrev pub yields : {S T : Type 0} → Action S T → Bool
yields (compute e s) = false
yields (library e s) = false
yields (yield_now s) = true
yields (finish v) = false

abbrev pub is_silent : Event → Bool
is_silent instruct = true
is_silent (arrive s) = false
is_silent (elapse n) = true

-- No signal arrives.
abbrev pub Silent : List Event → Type 0
Silent es = All (λ e. is_silent e ≡ true) es

module _ {Group : Type 0} (G : Gotcha Group) {S T : Type 0} (next : S → Action S T) (g : Group)
    (p : PreemptionSignal) (start : S) (private : G.is_shared g ≡ false)
    (steady : (s : S) → yields (next s) ≡ false) where
  -- No preemption has been put off, or at the call site, the function is not paused.
  abbrev pub Unpaused : Control Group S → Thread Group S → Type 0
  Unpaused call_site t = is_some t.tls.task.errno ≡ false
  Unpaused entry t = Unit {0}
  Unpaused (running u q) t = t.tls.deferred ≡ false

  abbrev pub Calm : Machine Group S T → Type 0
  Calm m = (m.thread.pending ≡ []) × Unpaused m.control m.thread

  abbrev pub Kept : Machine Group S T → Type 0
  Kept m = Inv G next g p start m × Calm m

  act-Calm :
      (m : Machine Group S T) (u : Option Signal) (a : Action S T)
      → yields a ≡ false
      → m.thread.pending ≡ []
      → m.thread.tls.deferred ≡ false
      → Allows Calm (act G next m u m.thread a)
  unfolding act go
  act-Calm m u (compute e s) y q d = (q, d)
  act-Calm m u (library e s) y q d = (q, d)
  act-Calm m u (yield_now s) y q d = cc
  act-Calm m u (finish v) y q d = (q, d)

  leave-Calm :
      (m : Machine Group S T) (u : Option Signal) (s : S) (t : Thread Group S)
      → Ready G next g p start t
      → is_some t.tls.errno_location ≡ true
      → t.pending ≡ []
      → t.tls.deferred ≡ false
      → Allows Calm (leave G next m u s t)
  unfolding leave hooked go
  leave-Calm m u s t r l q d = rw (enable_preemption_quiet G p.signal t l d) (rw r.hook (q, d))

  bootstrapped-Calm :
      (m : Machine Group S T)
      → Where G next g p start entry m.thread m.fun
      → m.thread.pending ≡ []
      → Allows Calm (bootstrapped G next m (some g))
  unfolding bootstrapped enabled go mask stamp
  bootstrapped-Calm m (r, e, f) q =
      let t = stamp G (set_tls G (record m.thread.tls { bootstrap = none }) m.thread) in
      rw
        (enable_preemption-some G p.signal t g (named G next g p start private t r.own r.named)
          e.prompt)
        (q, e.prompt)

  at_point-Calm :
      (m : Machine Group S T) (u : Option Signal) (q : Point Group S)
      → Where G next g p start (running u q) m.thread m.fun
      → m.thread.pending ≡ []
      → m.thread.tls.deferred ≡ false
      → Allows Calm (at_point G next m u q)
  unfolding at_point call_fun go propagate_errno arrive_at disable_preemption
  at_point-Calm m u before_fun (r, o, pr) k d = rw (pr, call_fun) (k, d)
  at_point-Calm m u (client s) (r, o, pr) k d = act-Calm m u (next s) (steady s) k d
  at_point-Calm m u (in_library h s) (r, (e, o), pr) k d =
      leave-Calm m u s (record m.thread { group = h }) (ground (arith, r)) o.located k d
  at_point-Calm m u (in_hook e s) w k d = elim (Bool-cases (e == 0)) [
    | inl z ↦ rw z (k, d)
    | inr z ↦ rw z (k, d)
  ]
  at_point-Calm m none after_fun (r, o, pr) k d =
      let (c, e, a, b) = site_of G next g p start m.thread.tls.task.checkpoint r.returns_to in
      rw (e, arrive_at) (rw a (k, rw r.unpaused refl))
  at_point-Calm m (some v) after_fun (r, o, pr) k d =
      let (c, e, a, b) = site_of G next g p start m.thread.tls.task.checkpoint r.returns_to in
      rw (e, arrive_at) (rw a (k, rw r.unpaused refl))

  instructed-Calm :
      (m : Machine Group S T) (c : Control Group S)
      → m.control ≡ c
      → Where G next g p start c m.thread m.fun
      → m.thread.pending ≡ []
      → Unpaused c m.thread
      → Allows Calm (instructed G next m c)
  unfolding instructed
  instructed-Calm m call_site e w k d = (k, rw e d)
  instructed-Calm m entry e w k d = rw w.1.boot (bootstrapped-Calm m w k)
  instructed-Calm m (running u q) e w k d = at_point-Calm m u q w k d

  -- The clock is no matter.
  Unpaused-elapse :
      (n : ℕ) (c : Control Group S) (t : Thread Group S)
      → Unpaused c t
      → Unpaused c (record t { clock = t.clock + n })
  Unpaused-elapse n call_site t d = d
  Unpaused-elapse n entry t d = d
  Unpaused-elapse n (running u q) t d = d

  effect-Calm :
      (e : Event) (m : Machine Group S T)
      → is_silent e ≡ true
      → Kept m
      → Allows Calm (effect G next e m)
  unfolding effect
  effect-Calm instruct m s (w, (k, d)) = instructed-Calm m m.control refl w k d
  effect-Calm (arrive x) m s k = cc
  effect-Calm (elapse n) m s (w, (k, d)) = (k, Unpaused-elapse n m.control m.thread d)

  -- With nothing to deliver.
  pub deliver_pending-Kept :
      (m : Machine Group S T) → Kept m → Ensures Kept (deliver_pending G next m)
  unfolding deliver_pending deliver_found find_unblocked
  deliver_pending-Kept m (w, (k, d)) = rw (none_found m.thread.mask m.thread.pending k) (w, (k, d))
    where
      none_found :
          (sigmask : Sigset) (ps : List Signal) → ps ≡ [] → find_unblocked sigmask ps ≡ none
      none_found sigmask [] e = refl
      none_found sigmask (q ∷ ps) e = cc

  step-Calm :
      (e : Event) (m : Machine Group S T)
      → is_silent e ≡ true
      → Kept m
      → Ensures Kept (step G next e m)
  unfolding step
  step-Calm e m s k =
      Ensures->>= _ Kept Kept (effect G next e m) (deliver_pending G next)
        (Ensures-Allows (Inv G next g p start) Calm (effect G next e m)
          (effect-Inv G next g p start private e m k.0) (effect-Calm e m s k))
        deliver_pending-Kept

  abbrev Whole : Machine Group S T × List Event → Type 0
  Whole r = is_some r.0.thread.tls.task.errno ≡ false

  run-Whole :
      (es : List Event) (m : Machine Group S T) (c : Control Group S)
      → m.control ≡ c
      → Silent es
      → Kept m
      → Safe Whole (run G next es m c)
  unfolding run
  run-Whole es m call_site e s (w, (k, d)) = rw e at d
  run-Whole [] m entry e s k = tt
  run-Whole [] m (running u q) e s k = tt
  run-Whole (x ∷ es) m entry e s k =
      Ensures->>= _ Kept Whole (step G next x m) (λ n. run G next es n n.control)
        (step-Calm x m s.0 k) (λ n h. run-Whole es n n.control refl s.1 h)
  run-Whole (x ∷ es) m (running u q) e s k =
      Ensures->>= _ Kept Whole (step G next x m) (λ n. run G next es n n.control)
        (step-Calm x m s.0 k) (λ n h. run-Whole es n n.control refl s.1 h)

  -- Back at the call site with the function finished.
  abbrev pub Over : Machine Group S T × List Event → Type 0
  Over r = Where G next g p start call_site r.0.thread r.0.fun × Whole r

  -- With instructions enough, and no signal, the run comes back with the function finished.
  pub run-Over :
      (n : ℕ) (es : List Event) (m : Machine Group S T)
      → Kept m
      → Silent es
      → ends_within next n start ≡ true
      → n * 3 + 2 ≤ instructions es
      → Ensures Over (run G next es m m.control)
  run-Over n es m k s e l =
      Ensures-Allows (λ r. Where G next g p start call_site r.0.thread r.0.fun) Whole
        (run G next es m m.control) (run_ends G next g p start private n es m k.0 e l)
        (Meets-Allows (Unit {0}) Whole (run G next es m m.control)
          (run-Whole es m m.control refl s k))
