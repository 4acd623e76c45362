-- ===== src/Preemption/Signaler/Leak.antt =====
-- src/preemption.rs: the timer that `PreemptionSignal::new` leaves when it cannot be set.
use libinger.Base.{
  ℕ, false, some, ◌≡◌, refl, ap, ◌∙◌, List, ◌∷◌, ok, err, Ensures->>=, Ensures, ◌==◌,
}
use libinger.Reusable.{mutex, Opens, drop, try_from}
use libinger.Signal.{Signal, number}
use libinger.Signal.Set.{empty, add, block}
use libinger.Signals.{next_signal, initialized, assign_signal}
use libinger.Gotcha.{Gotcha}
use libinger.Preemption.{mask}
use libinger.Kernel.{Kernel, new, sigaction, pthread_sigmask}
use libinger.Kernel.Timer.{by_signal, timer_create, timer_settime}
use libinger.Preemption.Signaler.{
  World, Made, every, give_back, started, timed, blocked, registered, assigned, new_signaler,
}
use libinger.Preemption.Signaler.Setting.{preempting, Returned, drop-Ensures, try_from-Opens}

module _ {K : Type 0} (os : Kernel K) where
  -- The calls of the operating system that `new` makes, each after the one before.
  module _ (handler quantum : ℕ) (s : Signal) (k : K) where
    abbrev registering : ℕ × K
    registering = os.sigaction (number s) (some (preempting handler)) k

    abbrev masking : ℕ × K
    masking = os.pthread_sigmask block (add empty s) registering.1

    abbrev creating : (ℕ × ℕ) × K
    creating = os.timer_create 0 (by_signal s) masking.1

    abbrev setting : ℕ × K
    setting = os.timer_settime creating.0.1 0 (every quantum) creating.1

    -- All succeed but the last, which does not set the timer.
    pub record Unset : Type 0 where
      pub registers : registering.0 ≡ 0
      pub masks : masking.0 ≡ 0
      pub creates : creating.0.0 ≡ 0
      pub unset : (setting.0 == 0) ≡ false

    pub unset-timers : Unset → os.timers setting.1 ≡ creating.0.1 ∷ os.timers k
    unset-timers u =
        (os.settime_lem creating.0.1 0 (every quantum) creating.1).0
        ∙ os.create_lem 0 (by_signal s) masking.1 u.creates
        ∙ ap (λ ts. creating.0.1 ∷ ts)
            ((os.mask_keeps_lem block (add empty s) registering.1).1
              ∙ os.action_keeps_lem (number s) (some (preempting handler)) k)

module _ {K : Type 0} (os : Kernel K) {Group : Type 0} (G : Gotcha Group) {S : Type 0} where
  -- An error, with the timer that was made, which neither the result nor the thread names.
  abbrev pub Leaks : ℕ → ℕ → Signal → World K Group S → Made K Group S → Type 0
  Leaks handler quantum s w (r, v) =
      (r ≡ err (os.last_os_error (setting os handler quantum s w.kernel).1))
      × Returned os G s v
      × (os.timers v.kernel ≡ (creating os handler quantum s w.kernel).0.1 ∷ os.timers w.kernel)
      × (v.thread ≡ mask G block s w.thread)

  -- Where the handler is registered, the signal masked and a timer made, but the timer cannot be set:
  -- `new` returns the error, the signal is back in its pool, the thread is as it was but that the
  -- signal is masked, and the timer that was made is one more of the process's: no call has
  -- deleted it.
  pub new_signaler-Leaks :
      (handler quantum : ℕ) (w : World K Group S) (vs : List Signal) (s : Signal)
      → Opens mutex next_signal (initialized w.signals) vs
      → (assign_signal w.signals).0 ≡ ok s
      → Unset os handler quantum s w.kernel
      → Ensures (Leaks handler quantum s w) (new_signaler os G handler quantum w)
  unfolding new_signaler assigned assign_signal registered sigaction new blocked pthread_sigmask
      timed timer_create timer_settime started give_back
  new_signaler-Leaks handler quantum w vs s o a u =
      let (ws, p) = try_from-Opens (initialized w.signals) vs o in
      rw (a, u.registers)
        (rw u.masks (
          rw u.creates (
            rw u.unset (
              Ensures->>= ⊥ (λ q. Opens mutex next_signal q (s ∷ ws)) (Leaks handler quantum s w)
                (drop mutex next_signal s (try_from mutex next_signal (initialized w.signals)).1) _
                (drop-Ensures s _ ws p)
                (λ q r. (refl, (ws, r), unset-timers os handler quantum s w.kernel u, refl))))))
