-- ===== src/Linger/Invariant/Spends/Runs.antt =====
-- src/linger.rs: every event keeps the account of the clock and the deadline, up to the return to the
-- call site.
use libinger.Base.{
  ℕ, ◌+◌, ◌*◌, ◌≤◌, ◌≡◌, refl, true, false, Option, none, some, is_some, List, [], ◌∷◌, ok, inl,
  inr, Allows, Ensures, Ensures->>=, Ensures-Allows, Bool-cases, arith, ◌==◌, Safe,
}
use libinger.Gotcha.{Gotcha}
use libinger.Signal.{Signal}
use libinger.Machine.{
  Action, compute, library, yield_now, finish, PreemptionSignal, Point, before_fun, client,
  in_library, in_hook, after_fun, Control, call_site, entry, running, Thread, Machine, Event,
  instruct, arrive, elapse, real_thread,
}
use libinger.Preemption.{disable_preemption, mask, raise, set_tls, propagate_errno, thread_signal}
use libinger.Preemption.Cases.{
  enable_preemption-some, enable_preemption_quiet, enable_preemption_due,
}
use libinger.Linger.Clock.{stamp}
use libinger.Linger.Clock.Deadline.{stamp-deadline}
use libinger.Linger.Preempt.Cases.{pause_lem}
use libinger.Linger.Run.{
  deliver_pending, act, go, leave, hooked, bootstrapped, enabled, call_fun, arrive_at, at_point,
  effect, instructed, step, run,
}
use libinger.Linger.Invariant.{Where, Inv, Ready, site_of}
use libinger.Linger.Invariant.Steps.{named, effect-Inv, deliver_pending-Inv}
use libinger.Linger.Invariant.Spends.{passing, elapsed, ran_out, Spends, SpendsAll, found-Fine}

module _ {Group : Type 0} (G : Gotcha Group) {S T : Type 0} (next : S → Action S T) (g : Group)
    (p : PreemptionSignal) (start : S) (private : G.is_shared g ≡ false) (from us left : ℕ) where
  abbrev Good : Machine Group S T → Type 0
  Good = Inv G next g p start

  abbrev Here : Control Group S → Thread Group S → Type 0
  Here = Spends G from us left

  abbrev Fine : Machine Group S T → Type 0
  Fine = SpendsAll G from us left

  stamped_named :
      (t : Thread Group S)
      → t.signaler ≡ some p
      → t.tls.signal ≡ some real_thread
      → thread_signal G (stamp G t) ≡ ok p.signal
  unfolding stamp
  stamped_named t o n = named G next g p start private _ o n

  act-Fine :
      (m : Machine Group S T) (u : Option Signal) (a : Action S T)
      → Ready G next g p start m.thread
      → Here (running u before_fun) m.thread
      → Allows Fine (act G next m u m.thread a)
  unfolding act go mask
  act-Fine m u (compute e s) r h = h
  act-Fine m u (library e s) r h = h
  act-Fine m u (yield_now s) r h =
      let t = record m.thread { group = G.shared } in
      rw (pause_lem G p.signal t (named G next g p start private t r.own r.named)) (inl refl)
  act-Fine m u (finish v) r h = h

  leave-Fine :
      (m : Machine Group S T) (u : Option Signal) (s : S) (t : Thread Group S)
      → Ready G next g p start t
      → is_some t.tls.errno_location ≡ true
      → Here (running u before_fun) t
      → Allows Fine (leave G next m u s t)
  unfolding leave hooked go raise mask
  leave-Fine m u s t r l h = elim (Bool-cases t.tls.deferred) [
    | inl due ↦
        rw
          (enable_preemption_due G p.signal t l due
            (named G next g p start private t r.own r.named))
          (rw r.hook h)
    | inr quiet ↦ rw (enable_preemption_quiet G p.signal t l quiet) (rw r.hook h)
  ]

  -- `schedule` stamps the deadline: with the end of the budget, counted from now.
  bootstrapped-Fine :
      (m : Machine Group S T)
      → Where G next g p start entry m.thread m.fun
      → Here entry m.thread
      → Allows Fine (bootstrapped G next m (some g))
  unfolding bootstrapped enabled go mask
  bootstrapped-Fine m (r, e, f) (d, b, l) =
      let booted = set_tls G (record m.thread.tls { bootstrap = none }) m.thread in
      let t = stamp G booted in
      let k : t.tls.deadline ≡ m.thread.clock + m.thread.tls.deadline * 1000 =
        stamp-deadline G booted (ground arith) in
      rw
        (enable_preemption-some G p.signal t g (stamped_named booted r.own r.named)
          (unfold stamp in e.prompt))
        (inr (ground arith))

  at_point-Fine :
      (m : Machine Group S T) (u : Option Signal) (q : Point Group S)
      → Where G next g p start (running u q) m.thread m.fun
      → Here (running u q) m.thread
      → Allows Fine (at_point G next m u q)
  unfolding at_point call_fun go propagate_errno arrive_at disable_preemption
  at_point-Fine m u before_fun (r, o, pr) h = rw (pr, call_fun) h
  at_point-Fine m u (client s) (r, o, pr) h = act-Fine m u (next s) r h
  at_point-Fine m u (in_library k s) (r, (e, o), pr) h =
      leave-Fine m u s (record m.thread { group = k }) (ground arith) o.located h
  at_point-Fine m u (in_hook e s) w h = elim (Bool-cases (e == 0)) [
    | inl z ↦ rw z h
    | inr z ↦ rw z h
  ]
  at_point-Fine m none after_fun (r, o, pr) h =
      let (c, e, a, b) = site_of G next g p start m.thread.tls.task.checkpoint r.returns_to in
      rw (e, arrive_at) (rw a (ground (arith, r.unpaused)))
  at_point-Fine m (some v) after_fun (r, o, pr) h =
      let (c, e, a, b) = site_of G next g p start m.thread.tls.task.checkpoint r.returns_to in
      rw (e, arrive_at) (rw a (ground (arith, r.unpaused)))

  instructed-Fine :
      (m : Machine Group S T) (c : Control Group S)
      → m.control ≡ c
      → Where G next g p start c m.thread m.fun
      → Here c m.thread
      → Allows Fine (instructed G next m c)
  unfolding instructed
  instructed-Fine m call_site e w h = rw e h
  instructed-Fine m entry e w h = rw w.1.boot (bootstrapped-Fine m w h)
  instructed-Fine m (running u q) e w h = at_point-Fine m u q w h

module _ {Group : Type 0} (G : Gotcha Group) {S T : Type 0} (next : S → Action S T) (g : Group)
    (p : PreemptionSignal) (start : S) (private : G.is_shared g ≡ false) (from us : ℕ) where
  abbrev Kept : ℕ → Machine Group S T → Type 0
  Kept left m = Inv G next g p start m × SpendsAll G from us left m

  Spends-elapse :
      (left n : ℕ) (c : Control Group S) (t : Thread Group S)
      → Spends G from us (n + left) c t
      → Spends G from us left c (record t { clock = t.clock + n })
  Spends-elapse left n call_site t h = λ r. let k = h r in omega arith
  Spends-elapse left n entry t (d, b, l) = (d, omega arith, omega arith)
  Spends-elapse left n (running u q) t h = h

  Spends-pending :
      (left : ℕ) (c : Control Group S) (t : Thread Group S) (ps : List Signal)
      → Spends G from us (0 + left) c t
      → Spends G from us left c (record t { pending = ps })
  Spends-pending left call_site t ps h = h
  Spends-pending left entry t ps (d, b, l) = (d, b, omega arith)
  Spends-pending left (running u q) t ps h = h

  effect-Spends :
      (left : ℕ) (e : Event) (m : Machine Group S T)
      → Kept (passing e + left) m
      → Allows (SpendsAll G from us left) (effect G next e m)
  unfolding effect raise
  effect-Spends left instruct m (w, h) =
      instructed-Fine G next g p start private from us left m m.control refl w
        (Spends-pending left m.control m.thread m.thread.pending h)
  effect-Spends left (arrive s) m (w, h) = Spends-pending left m.control m.thread _ h
  effect-Spends left (elapse n) m (w, h) = Spends-elapse left n m.control m.thread h

  pub deliver_pending-Spends :
      (left : ℕ) (m : Machine Group S T)
      → Kept left m
      → Ensures (Kept left) (deliver_pending G next m)
  deliver_pending-Spends left m (w, h) =
      Ensures-Allows (Inv G next g p start) (SpendsAll G from us left) (deliver_pending G next m)
        (deliver_pending-Inv G next g p start private m w)
        (unfold deliver_pending in found-Fine G next g p start private from us left m _ w h)

  step-Spends :
      (left : ℕ) (e : Event) (m : Machine Group S T)
      → Kept (passing e + left) m
      → Ensures (Kept left) (step G next e m)
  unfolding step
  step-Spends left e m k =
      Ensures->>= _ (Kept left) (Kept left) (effect G next e m) (deliver_pending G next)
        (Ensures-Allows (Inv G next g p start) (SpendsAll G from us left) (effect G next e m)
          (effect-Inv G next g p start private e m k.0) (effect-Spends left e m k))
        (deliver_pending-Spends left)

  -- Back at the call site, after all the budget if the function is paused and did not yield.
  abbrev pub Spent : Machine Group S T × List Event → Type 0
  Spent r =
      Where G next g p start call_site r.0.thread r.0.fun
      × (ran_out G r.0.thread ≡ true → from + us * 1000 ≤ r.0.thread.clock)

  pub run-Spends :
      (es : List Event) (m : Machine Group S T) (c : Control Group S)
      → m.control ≡ c
      → Kept (elapsed es) m
      → Safe Spent (run G next es m c)
  unfolding run
  run-Spends es m call_site e (w, h) = (rw e at w, rw e at h)
  run-Spends [] m entry e k = tt
  run-Spends [] m (running u q) e k = tt
  run-Spends (x ∷ es) m entry e k =
      Ensures->>= _ (Kept (elapsed es)) Spent (step G next x m) (λ n. run G next es n n.control)
        (step-Spends (elapsed es) x m k) (λ n h. run-Spends es n n.control refl h)
  run-Spends (x ∷ es) m (running u q) e k =
      Ensures->>= _ (Kept (elapsed es)) Spent (step G next x m) (λ n. run G next es n n.control)
        (step-Spends (elapsed es) x m k) (λ n h. run-Spends es n n.control refl h)
