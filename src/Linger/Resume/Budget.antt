-- ===== src/Linger/Resume/Budget.antt =====
-- src/linger.rs: `resume` gives a function that does not yield all of its budget.
use libinger.Base.{ℕ, ◌+◌, ◌*◌, ◌≤◌, ◌<◌, true, false, not, Bool, ◌≡◌, List, Result, Safe}
use libinger.Gotcha.{Gotcha}
use libinger.Machine.{Action, PreemptionSignal, Event}
use libinger.Linger.Clock.{u64_mod}
use libinger.Linger.Invariant.Spends.{elapsed}
use libinger.Linger.Switch.{Switched}
use libinger.Linger.Switch.Safe.{Okay}
use libinger.Linger.Switch.Budget.{OkaySpent}
use libinger.Linger.Resume.{Linger, completion, continuation, poison, Resumed}
use libinger.Linger.Resume.Valid.{Valid}

-- A function that was paused, and not because it yielded.
abbrev pub out_of_time : {Group S T : Type 0} → Linger Group S T → Bool
out_of_time (completion v) = false
out_of_time (continuation c) = not c.stateful.yielded
out_of_time poison = false

module _ {Group : Type 0} (G : Gotcha Group) {S T : Type 0} (next : S → Action S T) (g : Group)
    (p : PreemptionSignal) (start : S) (private : G.is_shared g ≡ false) (from us : ℕ)
    (es : List Event) (short : from + elapsed es + us * 1000 < u64_mod) where
  abbrev Served : Resumed Group S T → Type 0
  Served r = out_of_time r.linger ≡ true → from + us * 1000 ≤ r.thread.clock

  abbrev InTime : Result (Switched G next) ℕ → Type 0
  InTime = OkaySpent G next g p start private from us es short

  abbrev Good : Result (Switched G next) ℕ → Type 0
  Good = Okay G next g p start private
