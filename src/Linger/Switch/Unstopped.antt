-- ===== src/Linger/Switch/Unstopped.antt =====
-- src/linger.rs: `switch_stack` comes back with the function finished where no signal arrives.
use libinger.Base.{
  ℕ, ◌+◌, ◌*◌, ◌≤◌, true, false, ◌≡◌, refl, subst, sym, none, some, List, [], Ensures,
  Ensures-Allows, Allows, Option,
}
use libinger.Gotcha.{Gotcha}
use libinger.Machine.{Action, PreemptionSignal, Task, Machine, Context, Event}
use libinger.Preemption.{mask}
use libinger.Linger.Clock.{stamp}
use libinger.Linger.Invariant.Steps.{named}
use libinger.Linger.Invariant.Due.{instructions, ends_within}
use libinger.Linger.Invariant.Unstopped.{
  yields, Silent, Kept, Calm, Over, deliver_pending-Kept, run-Over,
}
use libinger.Linger.Switch.Through.{put_in, Comes, switch_stack-Comes}
use libinger.Linger.Switch.{scope, reenter, jump, Switched, settled, descheduled, switch_stack}
use libinger.Linger.Switch.Safe.{Before, Fresh, Stopped, jump-entry, jump-paused}

module _ {Group : Type 0} (G : Gotcha Group) {S T : Type 0} (next : S → Action S T) (g : Group)
    (p : PreemptionSignal) (start : S) (private : G.is_shared g ≡ false)
    (steady : (s : S) → yields (next s) ≡ false) (n : ℕ) (es : List Event) (silent : Silent es)
    (ends : ends_within next n start ≡ true) (enough : n * 3 + 2 ≤ instructions es) where
  abbrev pub IsFinished : Switched G next → Type 0
  IsFinished s = s.finished ≡ true

  descheduled-IsFinished :
      (task : Task Group S) (r : Machine Group S T × List Event)
      → Over G next g p start private steady r
      → IsFinished (descheduled G next task r)
  unfolding descheduled settled
  descheduled-IsFinished task r (w, e) = rw e refl

  abbrev Runs : Machine Group S T → Type 0
  Runs = Kept G next g p start private steady

  abbrev Leads : Machine Group S T → Option ℕ → Context Group S → Type 0
  Leads m e c =
      Ensures (λ r. Runs (jump G next m.thread.mask m r)) (scope G e g c (put_in G m.thread c))

  switched-IsFinished :
      (m : Machine Group S T) (task : Task Group S) (pause : Context Group S)
      → task.checkpoint ≡ some pause
      → Before G next g p start private m.thread
      → Leads m task.errno pause
      → Ensures (Comes G next IsFinished) (switch_stack G next none task g m es)
  switched-IsFinished m task pause made b h =
      switch_stack-Comes G next ⊥ es Runs Runs (Over G next g p start private steady) IsFinished
        (deliver_pending-Kept G next g p start private steady)
        (λ x k. run-Over G next g p start private steady n es x k silent ends enough)
        descheduled-IsFinished g m task pause made b.idle h

  entry-Leads :
      (m : Machine Group S T) (task : Task Group S)
      → Before G next g p start private m.thread
      → (f : Fresh G next g p start private task m) → m.thread.pending ≡ []
      → Leads m none f.context
  unfolding scope jump
  entry-Leads m task b f q = (jump-entry G next g p start private m task b f, (q, rw f.at_entry tt))

  paused-Calm :
      (m : Machine Group S T) (task : Task Group S)
      → Before G next g p start private m.thread
      → (x : Stopped G next g p start private task m) → m.thread.pending ≡ []
      → Allows
          (λ r. Calm G next g p start private steady (jump G next m.thread.mask m r))
          (scope G (some x.0.errno) g x.0.context (put_in G m.thread x.0.context))
  unfolding scope reenter jump mask stamp
  paused-Calm m task b (x, boot) q =
      rw (named G next g p start private (put_in G m.thread x.context) b.own b.named)
        (rw private (rw x.stopped (q, b.prompt)))

  -- On a task that has not begun.
  pub switch_stack-Fresh-IsFinished :
      (m : Machine Group S T) (task : Task Group S)
      → Before G next g p start private m.thread
      → Fresh G next g p start private task m
      → m.thread.pending ≡ []
      → Ensures (Comes G next IsFinished) (switch_stack G next none task g m es)
  switch_stack-Fresh-IsFinished m task b f q =
      switched-IsFinished m task f.context f.made b
        (subst (λ e. Leads m e f.context) (sym f.unpaused) (entry-Leads m task b f q))

  -- On a task that was paused.
  pub switch_stack-paused-IsFinished :
      (m : Machine Group S T) (task : Task Group S)
      → Before G next g p start private m.thread
      → Stopped G next g p start private task m
      → m.thread.pending ≡ []
      → Ensures (Comes G next IsFinished) (switch_stack G next none task g m es)
  switch_stack-paused-IsFinished m task b x q = switched-IsFinished m task x.0.context x.0.saved b (
      subst (λ e. Leads m e x.0.context) (sym x.0.kept)
        (Ensures-Allows _
          (λ r. Calm G next g p start private steady (jump G next m.thread.mask m r)) _
          (jump-paused G next g p start private m task b x) (paused-Calm m task b x q)))
