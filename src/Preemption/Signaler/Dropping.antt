-- ===== src/Preemption/Signaler/Dropping.antt =====
-- src/preemption.rs: what is left of a preemption signal that is dropped.
use libinger.Base.{◌≡◌, refl, ap, ◌∙◌, List, Result, ok, Ensures}
use libinger.Reusable.{mutex, Opens}
use libinger.Reusable.History.{try_from-drop}
use libinger.Signal.{Signal}
use libinger.Signals.{next_signal, initialized, assign_signal}
use libinger.Gotcha.{Gotcha}
use libinger.Machine.{PreemptionSignal}
use libinger.Kernel.{Kernel, sigaction}
use libinger.Kernel.Timer.{timer_delete}
use libinger.Preemption.Signaler.{World, drop_signaler}

module _ {K : Type 0} (os : Kernel K) {Group : Type 0} (G : Gotcha Group) {S : Type 0} where
  -- The drop of a preemption signal, with a pool of signals that its lock opens: whatever the operating
  -- system answers, it returns, and the next thread is assigned the same signal, whose handler
  -- is still what it was, like those of all other signals.
  pub drop_signaler_lem :
      (p : PreemptionSignal) (w : World K Group S) (free : List Signal)
      → Opens mutex next_signal (initialized w.signals) free
      → Ensures
          (λ v.
            ((assign_signal v.signals).0 ≡ ok p.signal)
            × (os.handler v.kernel ≡ os.handler w.kernel)
            × (v.thread ≡ w.thread))
          (drop_signaler os G p w)
  unfolding drop_signaler sigaction timer_delete assign_signal
  drop_signaler_lem p w free o =
      let (q, s, d, t, x, y) =
        try_from-drop mutex next_signal p.signal (initialized w.signals) free o in
      rw d (
        ap (λ (r : Result Signal _ × _). r.0) t,
        os.query_lem _ _ ∙ os.delete_lem p.timer w.kernel,
        refl,
      )
