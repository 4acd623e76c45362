-- ===== src/Linger/Switch/Restore.antt =====
-- src/linger.rs: `switch_stack` takes a paused function up where `preempt` left it.
use libinger.Base.{ℕ, false, ◌≡◌, none, some, Exec, panics}
use libinger.Gotcha.{Gotcha}
use libinger.Signal.{Signal}
use libinger.Machine.{Context, Task, Thread}
use libinger.Preemption.{get_errno}
use libinger.Linger.Switch.{scope}

module _ {Group : Type 0} (G : Gotcha Group) {S : Type 0} (g : Group)
    (private : G.is_shared g ≡ false) (own : Signal) (uc : Context Group S) (e : ℕ) where
  -- The function in its group, at the point and with the errno of its interruption, and preemption on.
  pub record Restores (r : Context Group S × Thread Group S) : Type 0 where
    pub point : r.0.control ≡ uc.control
    pub errno : get_errno G r.1 ≡ e
    pub group : r.1.group ≡ g
    pub unmasked : r.0.sigmask own ≡ false

-- `switch_stack` from the task that it is given to the jump: the checkpoint is handed to the scope.
abbrev pub take_up :
    {Group : Type 0} (G : Gotcha Group) {S : Type 0}
    → Task Group S
    → Group
    → Thread Group S
    → Exec (Context Group S × Thread Group S)
take_up G k g u = elim k.checkpoint [ none ↦ panics | some saved ↦ scope G k.errno g saved u ]
