-- ===== src/Preemption/Signaler/Refines.antt =====
-- src/preemption.rs: `PreemptionSignal::new` over the calls of the operating system does to the thread
-- what the set-up of a thread takes from it.
use libinger.Base.{
  ℕ, ◌≡◌, refl, ap, ◌∙◌, false, none, some, Option, List, Result, ok, err, Exec, returns, ◌>>=◌,
}
use libinger.Reusable.{mutex, Opens, drop, try_from}
use libinger.Signal.{Signal}
use libinger.Signal.Set.{Sigset, Operation, empty, add, block}
use libinger.Signals.{next_signal, initialized, assign_signal}
use libinger.Gotcha.{Gotcha}
use libinger.Machine.{PreemptionSignal, Thread}
use libinger.Preemption.{mask}
use libinger.Preemption.Setup.{Answers, new_signal}
use libinger.Kernel.{Kernel, action, new, sigaction, pthread_sigmask}
use libinger.Kernel.Timer.{real, by_signal, timer_create, timer_settime}
use libinger.Preemption.Signaler.{
  World, Made, every, handler_flags, give_back, started, timed, blocked, registered, assigned,
  new_signaler,
}
use libinger.Preemption.Signaler.Setting.{try_from-Opens}

abbrev error_of : Result (Unit {0}) ℕ → Option ℕ
error_of (err e) = some e
error_of (ok u) = none

abbrev timer_of : Result ℕ ℕ → ℕ
timer_of (ok t) = t
timer_of (err e) = 0

module _ {K : Type 0} (os : Kernel K) where
  -- What the operating system answers to the calls of `new` after the first, whose answer is `a`.
  abbrev pub answers_after : ℕ → Signal → Result (Unit {0}) ℕ × K → Answers
  answers_after quantum s a =
      let b = pthread_sigmask os block (add empty s) a.1 in
      let c = timer_create os real (by_signal s) b.1 in
      let d = timer_settime os (timer_of c.0) false (every quantum) c.1 in
      record {
        assigned = some s;
        sigaction = error_of a.0;
        timer_create = c.0;
        timer_settime = error_of d.0;
      }

  abbrev pub answers_from : ℕ → ℕ → Signal → K → Answers
  answers_from handler quantum s k =
      answers_after quantum s (sigaction os s (action (new handler empty handler_flags)) k)

  module _ {Group : Type 0} (G : Gotcha Group) {S : Type 0} where
    -- The thread's view of a result.
    abbrev pub view : Made K Group S → Exec (Result PreemptionSignal ℕ × Thread Group S)
    view (r, w) = returns (r, w.thread)

    module _ (quantum : ℕ) (s : Signal) (t : Thread Group S) where
      -- The set-up's result for a signal that was assigned and registered.
      abbrev set_up : Result ℕ ℕ → Option ℕ → Exec (Result PreemptionSignal ℕ × Thread Group S)
      set_up c d =
          new_signal G
            (record { assigned = some s; sigaction = none; timer_create = c; timer_settime = d })
            (some s) t

      abbrev Openable : World K Group S → Type 0
      Openable w = (vs : List Signal) × Opens mutex next_signal (initialized w.signals) vs

      give_back-view :
          (e : ℕ) (w : World K Group S)
          → Openable w
          → (give_back os G s e w >>= view) ≡ returns (err e, w.thread)
      unfolding give_back drop
      give_back-view e w (vs, o) = rw (o, ◌>>=◌) refl

      started-view :
          (timer : ℕ) (r : Result (Unit {0}) ℕ × K) (w : World K Group S)
          → Openable w
          → w.thread ≡ mask G block s t
          → (started os G s timer r w >>= view) ≡ set_up (ok timer) (error_of r.0)
      unfolding started new_signal
      started-view timer (err e, k) w o m =
          give_back-view e (record w { kernel = k }) o ∙ ap (λ u. returns (err e, u)) m
      started-view timer (ok u, k) w o m =
          ap (λ u. returns (ok (record { signal = s; timer = timer }), u)) m

      timed-view :
          (c : Result ℕ ℕ × K) (w : World K Group S)
          → Openable w
          → w.thread ≡ mask G block s t
          → (timed os G quantum s c w >>= view)
            ≡ set_up c.0 (error_of (timer_settime os (timer_of c.0) false (every quantum) c.1).0)
      unfolding timed new_signal
      timed-view (err e, k) w o m =
          give_back-view e (record w { kernel = k }) o ∙ ap (λ u. returns (err e, u)) m
      timed-view (ok timer, k) w o m =
          started-view timer (timer_settime os timer false (every quantum) k) w o m

      blocked-view :
          (b : Result (Unit {0}) ℕ × K) (w : World K Group S)
          → Openable w
          → w.thread ≡ t
          → b.0 ≡ ok tt
          → let c = timer_create os real (by_signal s) b.1 in
            (blocked os G quantum s b w >>= view)
            ≡ set_up c.0 (error_of (timer_settime os (timer_of c.0) false (every quantum) c.1).0)
      unfolding blocked
      blocked-view (err e, k) w o m h = cc
      blocked-view (ok u, k) w o m h =
          timed-view (timer_create os real (by_signal s) k)
            (record w { thread = mask G block s w.thread }) o (ap (mask G block s) m)

      pthread_sigmask-ok :
          ((how : Operation) (set : Sigset) (k : K) → (os.pthread_sigmask how set k).0 ≡ 0)
          → (k : K) → (pthread_sigmask os block (add empty s) k).0 ≡ ok tt
      unfolding pthread_sigmask
      pthread_sigmask-ok h k = rw (h block (add empty s) k) refl

      registered-view :
          (a : Result (Unit {0}) ℕ × K) (w : World K Group S)
          → Openable w
          → w.thread ≡ t
          → ((how : Operation) (set : Sigset) (k : K) → (os.pthread_sigmask how set k).0 ≡ 0)
          → (registered os G quantum s a w >>= view)
            ≡ new_signal G (answers_after quantum s a) (some s) t
      unfolding registered new_signal
      registered-view (err e, k) w o m h =
          give_back-view e (record w { kernel = k }) o ∙ ap (λ u. returns (err e, u)) m
      registered-view (ok u, k) w o m h =
          blocked-view (pthread_sigmask os block (add empty s) k) w o m (pthread_sigmask-ok h k)

    -- With a pool of signals that its lock opens and that has a signal to assign, where a change of the
    -- mask does not fail: `new` over the calls of the operating system has the result, and leaves the
    -- thread, that the set-up of a thread gets from their answers.
    pub new_signaler-new_signal :
        (handler quantum : ℕ) (w : World K Group S) (vs : List Signal) (s : Signal)
        → Opens mutex next_signal (initialized w.signals) vs
        → (assign_signal w.signals).0 ≡ ok s
        → ((how : Operation) (set : Sigset) (k : K) → (os.pthread_sigmask how set k).0 ≡ 0)
        → (new_signaler os G handler quantum w >>= view)
          ≡ new_signal G (answers_from handler quantum s w.kernel) (some s) w.thread
    unfolding new_signaler assigned assign_signal
    new_signaler-new_signal handler quantum w vs s o a m = rw a (
        registered-view quantum s w.thread _
          (record w { signals = some (try_from mutex next_signal (initialized w.signals)).1 })
          (try_from-Opens (initialized w.signals) vs o) refl m)
