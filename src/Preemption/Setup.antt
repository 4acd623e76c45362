-- ===== src/Preemption/Setup.antt =====
-- src/preemption.rs: the set-up of a kernel thread for preemption. What the operating system and the
-- pool of signals answer is given.
use libinger.Base.{ℕ, true, Option, none, some, Result, ok, err, Exec, returns, panics, ◌>>=◌}
use libinger.Gotcha.{Gotcha}
use libinger.Signal.{Signal}
use libinger.Signal.Set.{block}
use libinger.Machine.{Thread, PreemptionSignal, RealThreadId}
use libinger.Preemption.{mask, set_tls}

-- What the calls in `PreemptionSignal::new` come to: the signal that is assigned, the errors of
-- `sigaction`, of `timer_create` or else its timer, and of `timer_settime`.
pub record Answers : Type 0 where
  pub assigned : Option Signal
  pub sigaction : Option ℕ
  pub timer_create : Result ℕ ℕ
  pub timer_settime : Option ℕ

module _ {Group : Type 0} (G : Gotcha Group) {S : Type 0} where
  -- The last two calls, made when the signal is masked. An early return drops the handle of the
  -- signal, which goes back to its pool, and leaves the mask.
  start_timer :
      Answers
      → Signal
      → Thread Group S
      → Result ℕ ℕ
      → Option ℕ
      → Result PreemptionSignal ℕ × Thread Group S
  start_timer a s t (err e) set = (err e, t)
  start_timer a s t (ok timer) (some e) = (err e, t)
  start_timer a s t (ok timer) none = (ok (record { signal = s; timer = timer }), t)

  handle_signal :
      Answers → Signal → Option ℕ → Thread Group S → Result PreemptionSignal ℕ × Thread Group S
  unfolding start_timer mask
  handle_signal a s (some e) t = (err e, t)
  handle_signal a s none t = start_timer a s (mask G block s t) a.timer_create a.timer_settime

  -- `PreemptionSignal::new`
  unfoldable pub new_signal :
      Answers → Option Signal → Thread Group S → Exec (Result PreemptionSignal ℕ × Thread Group S)
  unfolding handle_signal
  new_signal a none t = panics
  new_signal a (some s) t = returns (handle_signal a s a.sigaction t)

  -- From `SIGNAL.with` on: the thread is the one that has the signal, and libgotcha has the hook.
  install_signal : RealThreadId → Thread Group S → Thread Group S
  install_signal id t = set_tls G (record t.tls { signal = some id }) (record t { hooked = true })

  finish_setup :
      RealThreadId
      → Result PreemptionSignal ℕ × Thread Group S
      → Result (Unit {0}) ℕ × Thread Group S
  unfolding install_signal
  finish_setup id (err e, t) = (err e, t)
  finish_setup id (ok p, t) = (ok tt, install_signal id (record t { signaler = some p }))

  setup_signaler :
      RealThreadId
      → Answers
      → Option PreemptionSignal
      → Thread Group S
      → Exec (Result (Unit {0}) ℕ × Thread Group S)
  unfolding new_signal install_signal finish_setup
  setup_signaler id a (some p) t = returns (ok tt, install_signal id t)
  setup_signaler id a none t = new_signal a a.assigned t >>= λ r. returns (finish_setup id r)

  unfoldable pub thread_setup :
      RealThreadId → Answers → Thread Group S → Exec (Result (Unit {0}) ℕ × Thread Group S)
  unfolding setup_signaler
  thread_setup id a t = setup_signaler id a t.signaler t
