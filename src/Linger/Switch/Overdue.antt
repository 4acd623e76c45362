-- ===== src/Linger/Switch/Overdue.antt =====
-- src/linger.rs: `switch_stack` comes back by the first preemption signal after the budget.
use libinger.Base.{
  ℕ, ◌+◌, ◌*◌, ◌≤◌, ◌<◌, true, false, ◌≡◌, refl, subst, sym, Bool-cases, is_some, none, some, List,
  ◌++◌, length, inl, inr, Ensures, Ensures-Allows, Allows, arith, Option,
}
use libinger.Gotcha.{Gotcha}
use libinger.Signal.{Signal}
use libinger.Signal.Set.{Sigset, block}
use libinger.Machine.{Action, PreemptionSignal, Thread, Task, Machine, Context, Event}
use libinger.Preemption.{mask}
use libinger.Linger.Clock.{u64_mod, stamp}
use libinger.Linger.Clock.Deadline.{stamp-deadline}
use libinger.Linger.Run.Pending.{Quiet, Unique, Lone-of_Quiet, Lone-del}
use libinger.Linger.Invariant.{Inv}
use libinger.Linger.Invariant.Steps.{named}
use libinger.Linger.Invariant.Due.{instructions}
use libinger.Linger.Invariant.Spends.{elapsed}
use libinger.Linger.Invariant.Prompt.{Loose}
use libinger.Linger.Invariant.Prompt.Runs.{Kept, deliver_pending-Kept}
use libinger.Linger.Invariant.Overdue.Runs.{slice, Arrives, run-Overdue}
use libinger.Linger.Switch.Through.{put_in, Comes, switch_stack-Comes}
use libinger.Linger.Switch.{scope, reenter, jump, Switched, settled, descheduled, switch_stack}
use libinger.Linger.Switch.Safe.{Before, Fresh, Stopped, jump-entry, jump-paused}

module _ {Group : Type 0} (G : Gotcha Group) {S T : Type 0} (next : S → Action S T) (g : Group)
    (p : PreemptionSignal) (start : S) (private : G.is_shared g ≡ false) (us n : ℕ)
    (before after : List Event) (long : us * 1000 ≤ n) (begun : 1 ≤ instructions before) where
  abbrev es : List Event
  es = before ++ slice p n after

  -- No signal waits that could be delivered, and the clock stays within 64 bits.
  abbrev pub Still : ℕ → Sigset → List Signal → Type 0
  Still now sigmask ps =
      Quiet sigmask ps
      × Unique ps
      × (now + elapsed (before ++ slice p n after) + us * 1000 < u64_mod)

  abbrev StillOf : Thread Group S → Type 0
  StillOf t = Still t.clock t.mask t.pending

  -- The events after the slice are left.
  abbrev pub LeavesAfter : Switched G next → Type 0
  LeavesAfter s = length after ≤ length s.rest

  descheduled-LeavesAfter :
      (task : Task Group S) (r : Machine Group S T × List Event)
      → Arrives G next g p start private after r
      → LeavesAfter (descheduled G next task r)
  unfolding descheduled settled
  descheduled-LeavesAfter task r (w, l) = elim (Bool-cases (is_some r.0.thread.tls.task.errno)) [
    | inl e ↦ rw e l
    | inr e ↦ rw e l
  ]

  abbrev Begun : Machine Group S T → Type 0
  Begun m = Inv G next g p start m × Loose G next g p start private us true (elapsed es) m

  abbrev Runs : Machine Group S T → Type 0
  Runs = Kept G next g p start private us true (elapsed es)

  abbrev Leads : Machine Group S T → Option ℕ → Context Group S → Type 0
  Leads m e c =
      Ensures (λ r. Begun (jump G next m.thread.mask m r)) (scope G e g c (put_in G m.thread c))

  switched-LeavesAfter :
      (m : Machine Group S T) (task : Task Group S) (pause : Context Group S)
      → task.checkpoint ≡ some pause
      → Before G next g p start private m.thread
      → Leads m task.errno pause
      → Ensures (Comes G next LeavesAfter) (switch_stack G next none task g m es)
  switched-LeavesAfter m task pause made b h =
      switch_stack-Comes G next ⊥ es Begun Runs (Arrives G next g p start private after) LeavesAfter
        (deliver_pending-Kept G next g p start private us true (elapsed es))
        (λ x k.
          run-Overdue G next g p start private us n before after true x x.control long refl
            (inr begun) k)
        descheduled-LeavesAfter g m task pause made b.idle h

  entry-Leads :
      (m : Machine Group S T) (task : Task Group S)
      → Before G next g p start private m.thread
      → (f : Fresh G next g p start private task m) → m.thread.tls.deadline ≡ us
      → StillOf m.thread
      → Leads m none f.context
  unfolding scope jump
  entry-Leads m task b f d (q, u, l) = (
    jump-entry G next g p start private m task b f,
    (p.signal, rw f.at_entry (rw f.same (Lone-of_Quiet p.signal _ _ q, u, d, l, refl))),
  )

  -- The scope opens the mask for the thread's signal alone, and stamps the deadline.
  paused-Loose :
      (m : Machine Group S T) (task : Task Group S)
      → Before G next g p start private m.thread
      → (x : Stopped G next g p start private task m) → m.thread.tls.deadline ≡ us
      → StillOf m.thread
      → Allows
          (λ r. Loose G next g p start private us true (elapsed es) (jump G next m.thread.mask m r))
          (scope G (some x.0.errno) g x.0.context (put_in G m.thread x.0.context))
  unfolding scope reenter jump mask stamp
  paused-Loose m task b (x, boot) d (q, u, l) =
      let t = put_in G m.thread x.context in
      let masked = mask G block p.signal t in
      let k : (stamp G masked).tls.deadline ≡ m.thread.clock + m.thread.tls.deadline * 1000 =
        stamp-deadline G masked (ground arith) in
      let soon : (stamp G masked).tls.deadline ≤ m.thread.clock + us * 1000 = ground arith in
      rw (named G next g p start private t b.own b.named)
        (rw private (rw x.stopped (p.signal, (Lone-del p.signal _ _ q, u, soon, omega arith))))

  -- On a task that has not begun.
  pub switch_stack-Fresh-LeavesAfter :
      (m : Machine Group S T) (task : Task Group S)
      → Before G next g p start private m.thread
      → Fresh G next g p start private task m
      → m.thread.tls.deadline ≡ us
      → StillOf m.thread
      → Ensures (Comes G next LeavesAfter) (switch_stack G next none task g m es)
  switch_stack-Fresh-LeavesAfter m task b f d s =
      switched-LeavesAfter m task f.context f.made b
        (subst (λ e. Leads m e f.context) (sym f.unpaused) (entry-Leads m task b f d s))

  -- On a task that was paused.
  pub switch_stack-paused-LeavesAfter :
      (m : Machine Group S T) (task : Task Group S)
      → Before G next g p start private m.thread
      → Stopped G next g p start private task m
      → m.thread.tls.deadline ≡ us
      → StillOf m.thread
      → Ensures (Comes G next LeavesAfter) (switch_stack G next none task g m es)
  switch_stack-paused-LeavesAfter m task b x d s =
      switched-LeavesAfter m task x.0.context x.0.saved b (
        subst (λ e. Leads m e x.0.context) (sym x.0.kept)
          (Ensures-Allows _
            (λ r.
              Loose G next g p start private us true (elapsed es) (jump G next m.thread.mask m r))
            _ (jump-paused G next g p start private m task b x) (paused-Loose m task b x d s)))
