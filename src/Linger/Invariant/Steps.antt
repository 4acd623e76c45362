-- ===== src/Linger/Invariant/Steps.antt =====
-- src/linger.rs: every event keeps the invariant, up to and with the return to the call site.
use libinger.Base.{
  true, false, ◌≡◌, refl, subst, Bool-cases, ==_refl, Option, none, some, Option-cases, is_some,
  List, [], ◌∷◌, inl, inr, ok, returns, Ensures, Safe, Ensures->>=, arith,
}
use libinger.Gotcha.{Gotcha}
use libinger.Signal.{Signal, number}
use libinger.Signal.Set.{Sigset, add}
use libinger.Machine.{
  Action, compute, library, yield_now, finish, Completion, PreemptionSignal, Point, before_fun,
  client, in_library, in_hook, after_fun, Control, call_site, entry, running, Thread, Machine,
  Event, instruct, arrive, elapse, real_thread,
}
use libinger.Linger.Clock.{stamp}
use libinger.Preemption.{set_tls, thread_signal, disable_preemption, mask, propagate_errno, raise}
use libinger.Preemption.Cases.{
  enable_preemption-some, enable_preemption_quiet, enable_preemption_due,
}
use libinger.Linger.Preempt.{Handled, preempt}
use libinger.Linger.Preempt.Cases.{pause_lem}
use libinger.Linger.Run.{
  find_unblocked, deliver, deliver_found, deliver_pending, resumed, act, go, leave, hooked,
  bootstrapped, enabled, call_fun, arrive_at, at_point, effect, instructed, step, run,
}
use libinger.Linger.Invariant.{
  Where, Inv, Ready, Progress, site_of, here, then, computes, calls, yields, finishes,
}
use libinger.Linger.Invariant.Handler.{preempt-Where}

pub find_unblocked-unmasked :
    (mask : Sigset) (ps : List Signal) (s : Signal) (rest : List Signal)
    → find_unblocked mask ps ≡ some (s, rest)
    → mask s ≡ false
unfolding find_unblocked
find_unblocked-unmasked mask [] s rest e = cc
find_unblocked-unmasked mask (q ∷ ps) s rest e = elim (Option-cases (find_unblocked mask ps)) [
  | inl n ↦ ground (arith, n)
  | inr ((x, ys), k) ↦ ground (arith, k, find_unblocked-unmasked mask ps x ys k)
]

module _ {Group : Type 0} (G : Gotcha Group) {S T : Type 0} (next : S → Action S T) (g : Group)
    (p : PreemptionSignal) (start : S) (private : G.is_shared g ≡ false) where
  abbrev Good : Machine Group S T → Type 0
  Good = Inv G next g p start

  found-Inv :
      (m : Machine Group S T) (o : Option (Signal × List Signal))
      → find_unblocked m.thread.mask m.thread.pending ≡ o
      → Good m
      → Ensures Good (deliver_found G next m o)
  unfolding deliver_found deliver resumed
  found-Inv m none e i = i
  found-Inv m (some (s, rest)) e i =
      Ensures->>= _ {A = Handled Group S} _ Good
        (preempt G s (record { control = m.control; sigmask = m.thread.mask })
          (record m.thread { mask = add m.thread.mask s; pending = rest }))
        (λ h. returns (resumed G next m h))
        (preempt-Where G next g p start private m.control s rest m.thread m.fun
          (find_unblocked-unmasked _ _ s rest e) i)
        (λ h k. k)

  pub deliver_pending-Inv :
      (m : Machine Group S T) → Good m → Ensures Good (deliver_pending G next m)
  unfolding deliver_pending
  deliver_pending-Inv m i = found-Inv m (find_unblocked m.thread.mask m.thread.pending) refl i

  pub named :
      (t : Thread Group S)
      → t.signaler ≡ some p
      → t.tls.signal ≡ some real_thread
      → thread_signal G t ≡ ok p.signal
  unfolding thread_signal
  named t o n = rw (o, n)

  act-Inv :
      (m : Machine Group S T) (u : Option Signal) (x : S) (a : Action S T)
      → next x ≡ a
      → Where G next g p start (running u (client x)) m.thread m.fun
      → Ensures Good (act G next m u m.thread a)
  unfolding act go mask
  act-Inv m u x (compute e s) n w = ground (arith, then w.2.0 (computes n))
  act-Inv m u x (library e s) n w = ground (arith, then w.2.0 (calls n))
  act-Inv m u x (yield_now s) n w =
      let t = record m.thread { group = G.shared } in
      rw (pause_lem G p.signal t (named t w.0.own w.0.named))
        (ground arith, (w.1.inside, ground arith), (then w.2.0 (yields n), w.2.1))
  act-Inv m u x (finish v) n w = (ground arith, ground arith, (v, refl, finishes x w.2.0 n))

  leave-Inv :
      (m : Machine Group S T) (v : Option Signal) (x : S) (t : Thread Group S)
      → v ≡ some p.signal
      → t.group ≡ g
      → t.mask p.signal ≡ t.tls.deferred
      → is_some t.tls.errno_location ≡ true
      → t.tls.bootstrap ≡ none
      → Ready G next g p start t
      → Progress G next g p start (client x) m.fun
      → Ensures Good (leave G next m v x t)
  unfolding leave hooked go raise mask
  leave-Inv m v x t w i k l b r pr = elim (Bool-cases t.tls.deferred) [
    | inl due ↦
        rw (enable_preemption_due G p.signal t l due (named t r.own r.named))
          (ground (arith, ==_refl (number p.signal)))
    | inr quiet ↦
        rw (enable_preemption_quiet G p.signal t l quiet)
          (let u : t.mask p.signal ≡ false = ground arith in ground arith)
  ]

  -- `schedule` up to its call of the closure.
  bootstrapped-Inv :
      (m : Machine Group S T)
      → Where G next g p start entry m.thread m.fun
      → Ensures Good (bootstrapped G next m (some g))
  unfolding bootstrapped enabled go mask stamp
  bootstrapped-Inv m (r, e, f) =
      let t = stamp G (set_tls G (record m.thread.tls { bootstrap = none }) m.thread) in
      rw (enable_preemption-some G p.signal t g (named t r.own r.named) e.prompt)
        (ground arith, ground (arith, ==_refl (number p.signal)), f)

  -- `schedule` after the closure has returned.
  returned-Inv :
      (m : Machine Group S T) (u : Option Signal)
      → Where G next g p start (running u after_fun) m.thread m.fun
      → Ensures Good (at_point G next m u after_fun)
  unfolding at_point arrive_at disable_preemption
  returned-Inv m none (r, o, pr) =
      let (site, e, c, k) = site_of G next g p start m.thread.tls.task.checkpoint r.returns_to in
      rw (e, arrive_at)
        (rw c (
          record {
            own = r.own;
            shared = refl;
            masked = k;
            prompt = refl;
            unnamed = refl;
            hook = r.hook;
            booted = o.booted;
          },
          inr (record { value = pr.0; unpaused = r.unpaused; result = pr.1; finishes = pr.2 }),
        ))
  returned-Inv m (some v) (r, o, pr) =
      let (site, e, c, k) = site_of G next g p start m.thread.tls.task.checkpoint r.returns_to in
      rw (e, arrive_at)
        (rw c (
          record {
            own = r.own;
            shared = refl;
            masked = k;
            prompt = refl;
            unnamed = refl;
            hook = r.hook;
            booted = o.booted;
          },
          inr (record { value = pr.0; unpaused = r.unpaused; result = pr.1; finishes = pr.2 }),
        ))

  at_point-Inv :
      (m : Machine Group S T) (u : Option Signal) (q : Point Group S)
      → Where G next g p start (running u q) m.thread m.fun
      → Ensures Good (at_point G next m u q)
  unfolding at_point call_fun go propagate_errno
  at_point-Inv m u before_fun (r, o, pr) =
      rw (pr, call_fun) (ground arith, ground arith, (here, refl))
  at_point-Inv m u (client x) w = act-Inv m u x (next x) refl w
  at_point-Inv m u (in_library h x) (r, (e, o), pr) =
      leave-Inv m u x (record m.thread { group = h }) o.told e o.put_off o.located o.booted
        (ground arith) pr
  at_point-Inv m u (in_hook e x) w = ground arith
  at_point-Inv m u after_fun w = returned-Inv m u w

  instructed-Inv :
      (m : Machine Group S T) (c : Control Group S)
      → m.control ≡ c
      → Where G next g p start c m.thread m.fun
      → Ensures Good (instructed G next m c)
  unfolding instructed
  instructed-Inv m call_site e w = rw e w
  instructed-Inv m entry e w = rw w.1.boot (bootstrapped-Inv m w)
  instructed-Inv m (running u q) e w = at_point-Inv m u q w

  -- A change of the clock or of the signals that wait is no matter.
  Where-outer :
      (c : Control Group S) (t u : Thread Group S) (f : Completion S T)
      → (record t { clock = u.clock; pending = u.pending }) ≡ u
      → Where G next g p start c t f
      → Where G next g p start c u f
  Where-outer c t u f e w = subst (λ v. Where G next g p start c v f) e (same c w)
    where
      same :
          (c : Control Group S)
          → Where G next g p start c t f
          → Where G next g p start c (record t { clock = u.clock; pending = u.pending }) f
      same call_site (l, x) = (ground arith, x)
      same entry w = ground arith
      same (running n before_fun) w = ground arith
      same (running n (client x)) w = ground arith
      same (running n (in_library h x)) w = ground arith
      same (running n (in_hook k x)) w = ground arith
      same (running n after_fun) w = ground arith

  pub effect-Inv : (e : Event) (m : Machine Group S T) → Good m → Ensures Good (effect G next e m)
  unfolding effect raise
  effect-Inv instruct m w = instructed-Inv m m.control refl w
  effect-Inv (arrive s) m w = Where-outer m.control m.thread _ m.fun refl w
  effect-Inv (elapse n) m w = Where-outer m.control m.thread _ m.fun refl w

  -- Every event is handled without a panic, an abort or undefined behaviour, and keeps the
  -- invariant: the point where the machine is says whether preemption is on, which signals are
  -- masked, and how far the function has come.
  pub step-Inv : (e : Event) (m : Machine Group S T) → Good m → Ensures Good (step G next e m)
  unfolding step
  step-Inv e m w =
      Ensures->>= _ Good Good (effect G next e m) (deliver_pending G next) (effect-Inv e m w)
        deliver_pending-Inv

  abbrev Back : Machine Group S T × List Event → Type 0
  Back r = Where G next g p start call_site r.0.thread r.0.fun

  -- Through any events: the run is either still on its way at their end, or is back at its call site
  -- with preemption off, the function paused where it will go on or finished as it would have alone.
  pub run-Inv :
      (es : List Event) (m : Machine Group S T) (c : Control Group S)
      → m.control ≡ c
      → Good m
      → Safe Back (run G next es m c)
  unfolding run
  run-Inv es m call_site e w = rw e at w
  run-Inv [] m entry e w = tt
  run-Inv [] m (running u q) e w = tt
  run-Inv (x ∷ es) m entry e w =
      Ensures->>= _ Good Back (step G next x m) (λ n. run G next es n n.control) (step-Inv x m w)
        (λ n k. run-Inv es n n.control refl k)
  run-Inv (x ∷ es) m (running u q) e w =
      Ensures->>= _ Good Back (step G next x m) (λ n. run G next es n n.control) (step-Inv x m w)
        (λ n k. run-Inv es n n.control refl k)
