-- ===== src/Linger/Switch.antt =====
-- src/linger.rs: `switch_stack`, with `restorecontext` and `sigsetcontext` of timetravel as jumps of the
-- machine: the first hands the scope the context that it is given, and the second leaves the call
-- site in its place.
pub mod Safe
pub mod Restore
pub mod Budget
pub mod Through
pub mod Overdue
pub mod Unstopped
use libinger.Base.{
  ℕ, Bool, true, false, Option, none, some, List, Result, ok, err, Exec, returns, panics, aborts,
  ◌>>=◌, is_some, if◌then◌else◌,
}
use libinger.Gotcha.{Gotcha}
use libinger.Signal.{Signal}
use libinger.Signal.Set.{Sigset, del, block}
use libinger.Machine.{
  Action, Control, call_site, Context, Task, default_task, Thread, Machine, Event,
}
use libinger.Preemption.{set_tls, set_errno, mask, thread_signal}
use libinger.Linger.Clock.{stamp}
use libinger.Linger.Run.{deliver_pending, run}

module _ {Group : Type 0} (G : Gotcha Group) {S : Type 0} where
  -- `task.checkpoint.get_or_insert(pause)`
  abbrev pub get_or_insert : Option (Context Group S) → Context Group S → Context Group S
  get_or_insert none pause = pause
  get_or_insert (some c) pause = c

  abbrev pub set_task : Task Group S → Thread Group S → Thread Group S
  set_task k t = set_tls G (record t.tls { task = k }) t

  -- Everything to enable preemption short of unblocking the signal, which the jump does.
  unfoldable pub reenter :
      ℕ
      → Group
      → Context Group S
      → Thread Group S
      → Result Signal (Unit {0})
      → Exec (Context Group S × Thread Group S)
  reenter erryes group resume t (err _) = aborts
  reenter erryes group resume t (ok signal) =
      let stamped = stamp G (mask G block signal t) in
      returns (
        record resume { sigmask = del t.mask signal },
        set_errno G erryes (record stamped { group = group }),
      )

  unfoldable pub scope :
      Option ℕ → Group → Context Group S → Thread Group S → Exec (Context Group S × Thread Group S)
  scope none group resume t = returns (resume, t)
  scope (some erryes) group resume t = reenter erryes group resume t (thread_signal G t)

module _ {Group : Type 0} (G : Gotcha Group) {S T : Type 0} (next : S → Action S T) where
  -- `sigsetcontext(resume)`, from a call site with the mask `site`.
  unfoldable pub jump :
      Sigset → Machine Group S T → Context Group S × Thread Group S → Machine Group S T
  jump site m (resume, t) =
      let left : Context Group S = record { control = call_site; sigmask = site } in
      let entered = set_task G (record t.tls.task { checkpoint = some left }) t in
      record m { thread = record entered { mask = resume.sigmask }; control = resume.control }

  -- What `switch_stack` returns: whether the function finished, with the task.
  pub record Switched : Type 0 where
    pub finished : Bool
    pub task : Task Group S
    pub machine : Machine Group S T
    pub rest : List Event

  -- With whether the function was preempted.
  unfoldable pub settled : Bool → Task Group S → Machine Group S T → List Event → Switched
  settled true task m rest = record {
    finished = false;
    task = m.thread.tls.task;
    machine = record m { thread = set_task G default_task m.thread };
    rest = rest;
  }
  settled false task m rest = record {
    finished = true;
    task = record task { checkpoint = none; errno = none };
    machine = record m { thread = set_task G default_task m.thread };
    rest = rest;
  }

  unfoldable pub descheduled : Task Group S → Machine Group S T × List Event → Switched
  unfolding settled
  descheduled task (m, rest) = settled (is_some m.thread.tls.task.errno) task m rest

  unfoldable pub restored :
      Task Group S → Group → Machine Group S T → List Event → Context Group S → Exec Switched
  restored task group m es pause =
      let resume = get_or_insert G m.thread.tls.task.checkpoint pause in
      let t = set_task G (record m.thread.tls.task { checkpoint = some resume }) m.thread in
      scope G task.errno group resume t >>= λ r.
      deliver_pending G next (jump m.thread.mask m r) >>= λ n.
      run G next es n n.control >>= λ back. returns (descheduled task back)

  -- `broken` is the error of `restorecontext`, if it fails.
  unfoldable pub switch_stack :
      Option ℕ → Task Group S → Group → Machine Group S T → List Event → Exec (Result Switched ℕ)
  unfolding restored
  switch_stack broken task group m es = elim task.checkpoint [
    | none ↦ panics
    | some pause ↦ elim broken [
      | some e ↦ returns (err e)
      | none ↦ restored task group m es pause >>= λ s. returns (ok s)
    ]
  ]
