-- ===== src/Linger/Switch/Safe.antt =====
-- src/linger.rs: `switch_stack` establishes the invariant at its jump, and comes back with the function
-- paused or finished.
use libinger.Base.{
  ℕ, true, false, ◌≡◌, refl, subst, ==_refl, Option, none, some, is_some, List, inl, inr, ◌⊎◌,
  Result, sym, Ensures, Meets, arith,
}
use libinger.Gotcha.{Gotcha}
use libinger.Signal.{Signal, number}
use libinger.Machine.{
  Action, function, PreemptionSignal, real_thread, Point, before_fun, client, in_library, in_hook,
  after_fun, call_site, entry, Thread, Task, default_task, Machine, Context, Event,
}
use libinger.Preemption.{mask}
use libinger.Linger.Clock.{stamp}
use libinger.Linger.Invariant.{Where, Open, Sits, is_inside, Paused, Finished, Left}
use libinger.Linger.Invariant.Steps.{deliver_pending-Inv, named}
use libinger.Linger.Invariant.Due.{Enough}
use libinger.Linger.Invariant.Ends.{run-Meets}
use libinger.Linger.Switch.Through.{put_in, Comes, switch_stack-Comes}
use libinger.Linger.Switch.{
  set_task, reenter, scope, jump, Switched, settled, descheduled, switch_stack,
}

module _ {Group : Type 0} (G : Gotcha Group) {S T : Type 0} (next : S → Action S T) (g : Group)
    (p : PreemptionSignal) (start : S) (private : G.is_shared g ≡ false) where
  -- The thread before the jump.
  pub record Before (t : Thread Group S) : Type 0 where
    pub own : t.signaler ≡ some p
    pub named : t.tls.signal ≡ some real_thread
    pub hook : t.hooked ≡ true
    pub shared : t.group ≡ G.shared
    pub masked : t.mask p.signal ≡ true
    pub prompt : t.tls.deferred ≡ false
    pub idle : t.tls.task ≡ default_task

  -- A task that has not begun, with the machine set up for it.
  pub record Fresh (task : Task Group S) (m : Machine Group S T) : Type 0 where
    pub context : Context Group S
    pub unpaused : task.errno ≡ none
    pub made : task.checkpoint ≡ some context
    pub at_entry : context.control ≡ entry
    pub masked : context.sigmask p.signal ≡ true
    pub boot : m.thread.tls.bootstrap ≡ some g
    pub same : context.sigmask ≡ m.thread.mask
    pub fun : m.fun ≡ function start

  -- A task that was paused, on the machine that it will go on with.
  abbrev pub Stopped : Task Group S → Machine Group S T → Type 0
  Stopped task m =
      Paused G next g p start (record m.thread.tls { task = task }) m.fun
      × (m.thread.tls.bootstrap ≡ none)

  abbrev Good : Machine Group S T → Type 0
  Good m = Where G next g p start m.control m.thread m.fun

  -- What `switch_stack` comes back with.
  pub record Done (s : Switched G next) : Type 0 where
    pub left : Left G next g p start s.machine.thread
    pub idle : s.machine.thread.tls.task ≡ default_task
    pub outcome :
        ((s.finished ≡ false)
          × Paused G next g p start (record s.machine.thread.tls { task = s.task }) s.machine.fun)
        ⊎ ((s.finished ≡ true)
            × Finished G next g p start
                (record s.machine.thread.tls { task = s.task })
                s.machine.fun)

  descheduled-Done :
      (task : Task Group S) (m : Machine Group S T) (rest : List Event)
      → Where G next g p start call_site m.thread m.fun
      → Done (descheduled G next task (m, rest))
  unfolding descheduled
  descheduled-Done task m rest (l, inl x) =
      let paused : true ≡ is_some m.thread.tls.task.errno = ground arith in
      subst (λ b. Done (settled G next b task m rest)) paused
        (record { left = ground arith; idle = refl; outcome = inl (refl, x) })
  descheduled-Done task m rest (l, inr x) =
      let over : false ≡ is_some m.thread.tls.task.errno = ground arith in
      subst (λ b. Done (settled G next b task m rest)) over
        (record {
          left = ground arith;
          idle = refl;
          outcome = inr (
            refl,
            record { value = x.value; unpaused = refl; result = x.result; finishes = x.finishes },
          );
        })

  -- Where the jump leads: into a function that has not begun.
  pub jump-entry :
      (m : Machine Group S T) (task : Task Group S)
      → Before m.thread
      → (f : Fresh task m)
      → Good (
          jump G next m.thread.mask m (
            f.context,
            set_task G (record m.thread.tls.task { checkpoint = some f.context }) m.thread,
          ))
  unfolding jump
  jump-entry m task b f = rw f.at_entry (ground arith, ground arith, f.fun)

  Sits-inside :
      (u : Option Signal) (q : Point Group S) (t : Thread Group S)
      → is_inside G next g p start q ≡ true
      → Open G next g p start u t
      → Sits G next g p start u q t
  Sits-inside u before_fun t i o = o
  Sits-inside u (client x) t i o = o
  Sits-inside u (in_library h x) t i o = cc
  Sits-inside u (in_hook e x) t i o = o
  Sits-inside u after_fun t i o = o

  -- And back into a function that was paused.
  pub jump-paused :
      (m : Machine Group S T) (task : Task Group S)
      → Before m.thread
      → (x : Stopped task m)
      → let e = x.0.errno in
        let t = set_task G (record m.thread.tls.task { checkpoint = some x.0.context }) m.thread in
        Ensures (λ r. Good (jump G next m.thread.mask m r)) (scope G (some e) g x.0.context t)
  unfolding scope reenter jump stamp mask
  jump-paused m task b (x, boot) =
      let t = set_task G (record m.thread.tls.task { checkpoint = some x.context }) m.thread in
      rw (named G next g p start private t b.own b.named) (
        rw private (
          rw x.stopped (
            ground arith,
            Sits-inside x.signal x.point _ x.inside
                (let told = x.told in ground (arith, ==_refl (number p.signal))),
            x.progress,
          )))

  -- The scope of `restorecontext` leads to a good jump, with the context that it is handed.
  abbrev pub Leads : Machine Group S T → Option ℕ → Context Group S → Type 0
  Leads m e c =
      Ensures (λ r. Good (jump G next m.thread.mask m r)) (scope G e g c (put_in G m.thread c))

  abbrev pub Okay : Result (Switched G next) ℕ → Type 0
  Okay = Comes G next Done

  -- The events `es` have instructions enough, or else a run that they end is one that `R` holds of.
  module _ (R : Type 0) (es : List Event) (enough : R ⊎ Enough G next g p start private es) where
    switched-Okay :
        (m : Machine Group S T) (task : Task Group S) (pause : Context Group S)
        → task.checkpoint ≡ some pause
        → Before m.thread
        → Leads m task.errno pause
        → Meets R Okay (switch_stack G next none task g m es)
    switched-Okay m task pause made b h =
        switch_stack-Comes G next R es Good Good
          (λ r. Where G next g p start call_site r.0.thread r.0.fun) Done
          (deliver_pending-Inv G next g p start private)
          (λ n w. run-Meets G next g p start private R es n w enough)
          (λ k r u. descheduled-Done k r.0 r.1 u) g m task pause made b.idle h

    -- On a task that has not begun: `switch_stack` is still running when the events end, or it comes
    -- back with the function paused or finished.
    pub switch_stack-Fresh :
        (m : Machine Group S T) (task : Task Group S)
        → Before m.thread
        → Fresh task m
        → Meets R Okay (switch_stack G next none task g m es)
    unfolding scope
    switch_stack-Fresh m task b f =
        switched-Okay m task f.context f.made b
          (subst (λ e. Leads m e f.context) (sym f.unpaused) (jump-entry m task b f))

    -- The same on a task that was paused.
    pub switch_stack-paused :
        (m : Machine Group S T) (task : Task Group S)
        → Before m.thread
        → Stopped task m
        → Meets R Okay (switch_stack G next none task g m es)
    switch_stack-paused m task b x =
        switched-Okay m task x.0.context x.0.saved b
          (subst (λ e. Leads m e x.0.context) (sym x.0.kept) (jump-paused m task b x))
