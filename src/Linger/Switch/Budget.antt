-- ===== src/Linger/Switch/Budget.antt =====
-- src/linger.rs: `switch_stack` comes back from a function that is paused, and did not yield, when the
-- budget is over.
use libinger.Base.{
  ℕ, ◌+◌, ◌*◌, ◌≤◌, ◌<◌, false, ◌≡◌, refl, subst, Bool-cases, is_some, none, some, List, Result,
  inl, inr, sym, Ensures, Safe, Ensures-Allows, Allows, arith, Option,
}
use libinger.Gotcha.{Gotcha}
use libinger.Signal.Set.{block}
use libinger.Machine.{Action, PreemptionSignal, Thread, Task, Machine, Context, Event}
use libinger.Preemption.{mask}
use libinger.Linger.Clock.{u64_mod, stamp}
use libinger.Linger.Clock.Deadline.{stamp-deadline}
use libinger.Linger.Invariant.{Inv}
use libinger.Linger.Invariant.Steps.{named}
use libinger.Linger.Invariant.Spends.{elapsed, SpendsAll}
use libinger.Linger.Invariant.Spends.Runs.{deliver_pending-Spends, run-Spends, Spent}
use libinger.Linger.Switch.Through.{put_in, Comes, switch_stack-Comes}
use libinger.Linger.Switch.{scope, reenter, jump, Switched, settled, descheduled, switch_stack}
use libinger.Linger.Switch.Safe.{Before, Fresh, Stopped, jump-entry, jump-paused}

module _ {Group : Type 0} (G : Gotcha Group) {S T : Type 0} (next : S → Action S T) (g : Group)
    (p : PreemptionSignal) (start : S) (private : G.is_shared g ≡ false) (from us : ℕ)
    (es : List Event) (short : from + elapsed es + us * 1000 < u64_mod) where
  -- The thread as the budget begins.
  pub record Begins (t : Thread Group S) : Type 0 where
    pub budget : t.tls.deadline ≡ us
    pub now : t.clock ≡ from

  -- Only a function that yielded is paused before its budget is over.
  abbrev pub SpentBy : Switched G next → Type 0
  SpentBy s =
      s.finished ≡ false → s.task.yielded ≡ false → from + us * 1000 ≤ s.machine.thread.clock

  descheduled-SpentBy :
      (task : Task Group S) (r : Machine Group S T × List Event)
      → Spent G next g p start private from us r
      → SpentBy (descheduled G next task r)
  unfolding descheduled settled
  descheduled-SpentBy task r (w, h) = elim (Bool-cases (is_some r.0.thread.tls.task.errno)) [
    | inl e ↦ rw e (λ x y. h (ground arith))
    | inr e ↦ rw e (λ x y. cc)
  ]

  abbrev Kept : Machine Group S T → Type 0
  Kept m = Inv G next g p start m × SpendsAll G from us (elapsed es) m

  -- Where the jump of the scope leads.
  abbrev Jumps : Machine Group S T → Context Group S × Thread Group S → Type 0
  Jumps m r = Kept (jump G next m.thread.mask m r)

  abbrev LeadsOn : Machine Group S T → Option ℕ → Context Group S → Type 0
  LeadsOn m e c = Ensures (Jumps m) (scope G e g c (put_in G m.thread c))

  entry-LeadsOn :
      (m : Machine Group S T) (task : Task Group S)
      → Before G next g p start private m.thread
      → (f : Fresh G next g p start private task m) → Begins m.thread
      → LeadsOn m none f.context
  unfolding scope jump
  entry-LeadsOn m task b f s =
      (jump-entry G next g p start private m task b f, rw f.at_entry (ground arith))

  -- The scope stamps the deadline of a function that was paused.
  paused-Spends :
      (m : Machine Group S T) (task : Task Group S)
      → Before G next g p start private m.thread
      → (x : Stopped G next g p start private task m) → Begins m.thread
      → Allows
          (λ r. SpendsAll G from us (elapsed es) (jump G next m.thread.mask m r))
          (scope G (some x.0.errno) g x.0.context (put_in G m.thread x.0.context))
  unfolding scope reenter jump mask
  paused-Spends m task b (x, boot) s =
      let t = put_in G m.thread x.context in
      let masked = mask G block p.signal t in
      let k : (stamp G masked).tls.deadline ≡ m.thread.clock + m.thread.tls.deadline * 1000 =
        stamp-deadline G masked (ground arith) in
      rw (named G next g p start private t b.own b.named)
        (rw private (rw x.stopped (inr (ground arith))))

  paused-LeadsOn :
      (m : Machine Group S T) (task : Task Group S)
      → Before G next g p start private m.thread
      → (x : Stopped G next g p start private task m) → Begins m.thread
      → LeadsOn m (some x.0.errno) x.0.context
  paused-LeadsOn m task b x s =
      Ensures-Allows _ (λ r. SpendsAll G from us (elapsed es) (jump G next m.thread.mask m r)) _
        (jump-paused G next g p start private m task b x) (paused-Spends m task b x s)

  -- The code comes back, when it does, without an error and so.
  abbrev pub OkaySpent : Result (Switched G next) ℕ → Type 0
  OkaySpent = Comes G next SpentBy

  switched-OkaySpent :
      (m : Machine Group S T) (task : Task Group S) (pause : Context Group S)
      → task.checkpoint ≡ some pause
      → Before G next g p start private m.thread
      → LeadsOn m task.errno pause
      → Safe OkaySpent (switch_stack G next none task g m es)
  switched-OkaySpent m task pause made b h =
      switch_stack-Comes G next (Unit {0}) es Kept Kept (Spent G next g p start private from us)
        SpentBy (deliver_pending-Spends G next g p start private from us (elapsed es))
        (λ n w. run-Spends G next g p start private from us es n n.control refl w)
        descheduled-SpentBy g m task pause made b.idle h

  -- On a task that has not begun.
  pub switch_stack-Fresh-SpentBy :
      (m : Machine Group S T) (task : Task Group S)
      → Before G next g p start private m.thread
      → Fresh G next g p start private task m
      → Begins m.thread
      → Safe OkaySpent (switch_stack G next none task g m es)
  switch_stack-Fresh-SpentBy m task b f s =
      switched-OkaySpent m task f.context f.made b
        (subst (λ e. LeadsOn m e f.context) (sym f.unpaused) (entry-LeadsOn m task b f s))

  -- On a task that was paused.
  pub switch_stack-paused-SpentBy :
      (m : Machine Group S T) (task : Task Group S)
      → Before G next g p start private m.thread
      → Stopped G next g p start private task m
      → Begins m.thread
      → Safe OkaySpent (switch_stack G next none task g m es)
  switch_stack-paused-SpentBy m task b x s =
      switched-OkaySpent m task x.0.context x.0.saved b
        (subst (λ e. LeadsOn m e x.0.context) (sym x.0.kept) (paused-LeadsOn m task b x s))
