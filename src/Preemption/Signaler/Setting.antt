-- ===== src/Preemption/Signaler/Setting.antt =====
-- src/preemption.rs: what `PreemptionSignal::new` leaves behind, and that it is what the set-up of a
-- thread takes it for.
use libinger.Base.{
  ℕ, ◌≡◌, refl, ap, ◌∙◌, none, some, Option, List, [], ◌∷◌, Result, ok, err, inl, inr, ◌⊎◌, Exec,
  Bool-cases, Ensures->>=, Ensures, ◌==◌, arith,
}
use libinger.Reusable.{Mutex, mutex, Opens, Pool, drop, try_from}
use libinger.Signal.{Signal, number}
use libinger.Signal.Set.{empty, add, block}
use libinger.Signals.{next_signal, initialized, assign_signal}
use libinger.Gotcha.{Gotcha}
use libinger.Machine.{Thread}
use libinger.Preemption.{mask}
use libinger.Kernel.{Kernel, Sigaction, action, new, sigaction, pthread_sigmask}
use libinger.Kernel.Timer.{real, by_signal, timer_create, timer_settime}
use libinger.Preemption.Signaler.{
  World, Made, every, handler_flags, give_back, started, timed, blocked, registered, assigned,
  new_signaler,
}

abbrev error_of : Result (Unit {0}) ℕ → Option ℕ
error_of (err e) = some e
error_of (ok u) = none

-- The action that `new` registers.
abbrev pub preempting : ℕ → Sigaction
preempting handler = record { sa_sigaction = handler; sa_mask = empty; sa_flags = handler_flags }

pub drop-Ensures :
    (s : Signal) (p : Pool (Mutex Signal) ℕ) (vs : List Signal)
    → Opens mutex next_signal p vs
    → Ensures (λ q. Opens mutex next_signal q (s ∷ vs)) (drop mutex next_signal s p)
unfolding drop
drop-Ensures s p vs o = rw (o, drop) (mutex.write_opens p.allocated vs (s ∷ vs) o)

pub try_from-Opens :
    (p : Pool (Mutex Signal) ℕ) (vs : List Signal)
    → Opens mutex next_signal p vs
    → (ws : List Signal) × Opens mutex next_signal (try_from mutex next_signal p).1 ws
unfolding try_from next_signal
try_from-Opens p [] o = rw (o, try_from) ([], o)
try_from-Opens p (v ∷ vs) o = rw (o, try_from) (vs, mutex.write_opens p.allocated (v ∷ vs) vs o)

module _ {K : Type 0} (os : Kernel K) {Group : Type 0} (G : Gotcha Group) {S : Type 0} where
  -- The thread as it was, or with the signal masked.
  abbrev Kept : Signal → Thread Group S → Thread Group S → Type 0
  Kept s t u = (u ≡ t) ⊎ (u ≡ mask G block s t)

  -- The signal is back in its pool.
  abbrev pub Returned : Signal → World K Group S → Type 0
  Returned s w = (vs : List Signal) × Opens mutex next_signal (initialized w.signals) (s ∷ vs)

  -- What `new` leaves of the process and the thread by an error: no timer more, or one, and the thread
  -- changed in its mask alone.
  abbrev pub Spoils : K → Thread Group S → Signal → World K Group S → Type 0
  Spoils k t s w =
      ((os.timers w.kernel ≡ os.timers k) × Kept s t w.thread)
      ⊎ ((timer : ℕ) × (os.timers w.kernel ≡ timer ∷ os.timers k) × (w.thread ≡ mask G block s t))

  -- What `new` leaves, from the process `k` and the thread `t`, with the signal `s`.
  abbrev pub Leaves : ℕ → K → Thread Group S → Signal → Made K Group S → Type 0
  Leaves handler k t s (ok p, w) =
      (p.signal ≡ s)
      × (os.handler w.kernel (number s) ≡ some (preempting handler))
      × (os.timers w.kernel ≡ p.timer ∷ os.timers k)
      × (w.thread ≡ mask G block s t)
  Leaves handler k t s (err e, w) = Returned s w × Spoils k t s w

  -- The pool that the handle goes back to opens.
  abbrev Openable : World K Group S → Type 0
  Openable w = (vs : List Signal) × Opens mutex next_signal (initialized w.signals) vs

  module _ (handler quantum : ℕ) (k : K) (t : Thread Group S) (s : Signal) where
    abbrev Fine : Exec (Made K Group S) → Type 0
    Fine = Ensures (Leaves handler k t s)

    give_back-Leaves :
        (e : ℕ) (w : World K Group S) → Openable w → Spoils k t s w → Fine (give_back os G s e w)
    unfolding give_back
    give_back-Leaves e w (vs, o) l =
        Ensures->>= ⊥ (λ q. Opens mutex next_signal q (s ∷ vs)) (Leaves handler k t s)
          (drop mutex next_signal s (initialized w.signals)) _ (drop-Ensures s _ vs o)
          (λ q p. ((vs, p), l))

    -- Once there is a timer.
    started-Leaves :
        (timer : ℕ) (r : Result (Unit {0}) ℕ × K) (w : World K Group S)
        → Openable w
        → w.thread ≡ mask G block s t
        → os.handler r.1 (number s) ≡ some (preempting handler)
        → os.timers r.1 ≡ timer ∷ os.timers k
        → Fine (started os G s timer r w)
    unfolding started
    started-Leaves timer (err e, n) w o m h l =
        give_back-Leaves e (record w { kernel = n }) o (inr (timer, l, m))
    started-Leaves timer (ok u, n) w o m h l = (refl, h, l, m)

    timed-Leaves :
        (n : K) (w : World K Group S)
        → Openable w
        → w.thread ≡ mask G block s t
        → os.handler n (number s) ≡ some (preempting handler)
        → os.timers n ≡ os.timers k
        → Fine (timed os G quantum s (timer_create os real (by_signal s) n) w)
    unfolding timed timer_create timer_settime
    timed-Leaves n w o m h l = elim (Bool-cases ((os.timer_create 0 (by_signal s) n).0.0 == 0)) [
      | inl e ↦
          let c = os.timer_create 0 (by_signal s) n in
          let x = os.settime_lem c.0.1 0 (every quantum) c.1 in
          rw e (
            started-Leaves c.0.1 _ w o m
              (ap (λ (f : ℕ → Option Sigaction). f (number s))
                  (x.1 ∙ os.create_keeps_lem 0 (by_signal s) n)
                ∙ h)
              (x.0 ∙ os.create_lem 0 (by_signal s) n (ground arith) ∙ ap (λ ts. c.0.1 ∷ ts) l))
      | inr e ↦
          let c = os.timer_create 0 (by_signal s) n in
          rw e (
            give_back-Leaves (os.last_os_error c.1) (record w { kernel = c.1 }) o
              (inl (os.create_fails_lem 0 (by_signal s) n (λ z. ground arith) ∙ l, inr m)))
    ]

    blocked-Leaves :
        (n : K) (w : World K Group S)
        → Openable w
        → w.thread ≡ t
        → os.handler n (number s) ≡ some (preempting handler)
        → os.timers n ≡ os.timers k
        → Fine (blocked os G quantum s (pthread_sigmask os block (add empty s) n) w)
    unfolding blocked pthread_sigmask
    blocked-Leaves n w o m h l =
        elim (Bool-cases ((os.pthread_sigmask block (add empty s) n).0 == 0)) [
          | inl e ↦
              let c = os.pthread_sigmask block (add empty s) n in
              let x = os.mask_keeps_lem block (add empty s) n in
              rw e (
                timed-Leaves c.1 (record w { thread = mask G block s w.thread }) o
                  (ap (mask G block s) m) (ap (λ (f : ℕ → Option Sigaction). f (number s)) x.0 ∙ h)
                  (x.1 ∙ l))
          | inr e ↦
              let c = os.pthread_sigmask block (add empty s) n in
              let x = os.mask_keeps_lem block (add empty s) n in
              rw e (give_back-Leaves c.0 (record w { kernel = c.1 }) o (inl (x.1 ∙ l, inl m)))
        ]

    registered-Leaves :
        (w : World K Group S)
        → Openable w
        → w.kernel ≡ k
        → w.thread ≡ t
        → Fine (
            registered os G quantum s
              (sigaction os s (action (new handler empty handler_flags)) k)
              w)
    unfolding registered sigaction new
    registered-Leaves w o i m =
        elim (Bool-cases ((os.sigaction (number s) (some (preempting handler)) k).0 == 0)) [
          | inl e ↦
              let c = os.sigaction (number s) (some (preempting handler)) k in
              rw e (
                blocked-Leaves c.1 w o m
                  (os.register_lem (number s) (preempting handler) k (ground arith))
                  (os.action_keeps_lem (number s) (some (preempting handler)) k))
          | inr e ↦
              let c = os.sigaction (number s) (some (preempting handler)) k in
              rw e (
                give_back-Leaves (os.last_os_error c.1) (record w { kernel = c.1 }) o
                  (inl (os.action_keeps_lem (number s) (some (preempting handler)) k, inl m)))
        ]

  -- `PreemptionSignal::new`, with a pool of signals that its lock opens and that has a signal to assign:
  -- it returns. By `Ok`, it has that signal, the handler is registered for it with the flags that it
  -- asks for, the timer is one more of the process's, and the signal is masked in the thread. By
  -- an error, the signal is back in its pool, the thread is as it was but for the signal's
  -- place in its mask, and the process has the timers that it had, or one more, with the signal masked.
  pub new_signaler-Leaves :
      (handler quantum : ℕ) (w : World K Group S) (vs : List Signal) (s : Signal)
      → Opens mutex next_signal (initialized w.signals) vs
      → (assign_signal w.signals).0 ≡ ok s
      → Ensures (Leaves handler w.kernel w.thread s) (new_signaler os G handler quantum w)
  unfolding new_signaler assigned assign_signal
  new_signaler-Leaves handler quantum w vs s o a = rw a (
      registered-Leaves handler quantum w.kernel w.thread s
        (record w { signals = some (try_from mutex next_signal (initialized w.signals)).1 })
        (try_from-Opens (initialized w.signals) vs o) refl refl)
