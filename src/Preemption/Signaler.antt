-- ===== src/Preemption/Signaler.antt =====
-- src/preemption.rs: `PreemptionSignal::new` and its drop, with the calls of the operating system and
-- the pool of signals.
pub mod Setting
pub mod Leak
pub mod Dropping
pub mod Refines
use libinger.Base.{
  ℕ, ◌+◌, ◌*◌, true, false, none, some, Option, Result, ok, err, Exec, returns, panics, ◌>>=◌,
}
use libinger.Reusable.{Mutex, PoisonError, mutex, Pool, drop}
use libinger.Signal.{Signal}
use libinger.Signal.Set.{empty, add, block}
use libinger.Signals.{Signals, next_signal, initialized, assign_signal}
use libinger.Gotcha.{Gotcha}
use libinger.Machine.{Thread, PreemptionSignal}
use libinger.Preemption.{mask}
use libinger.Kernel.{
  Kernel, Sigaction, Itimerspec, action, nothing, new, sigaction, pthread_sigmask,
}
use libinger.Kernel.Timer.{real, by_signal, timer_create, timer_settime, timer_delete}

-- `SA_SIGINFO | SA_RESTART`
abbrev pub handler_flags : ℕ
handler_flags = 268435460

-- The first expiry and the interval are the same number of microseconds.
abbrev pub every : ℕ → Itimerspec
every quantum = record {
  it_interval = record { tv_sec = 0; tv_nsec = quantum * 1000 };
  it_value = record { tv_sec = 0; tv_nsec = quantum * 1000 };
}

-- The process and one of its threads.
pub record World (K Group S : Type 0) : Type 0 where
  pub kernel : K
  pub signals : Signals
  pub thread : Thread Group S

-- What a step of `new` returns: an error by `?`, or a value.
abbrev pub Made : Type 0 → Type 0 → Type 0 → Type 0
Made K Group S = Result PreemptionSignal ℕ × World K Group S

module _ {K : Type 0} (os : Kernel K) {Group : Type 0} (G : Gotcha Group) {S : Type 0} where
  -- An early return drops the handle of the signal, which goes back to its pool.
  unfoldable pub give_back : Signal → ℕ → World K Group S → Exec (Made K Group S)
  give_back s e w = drop mutex next_signal s (initialized w.signals) >>= λ p.
      returns (err e, record w { signals = some p })

  unfoldable pub started :
      Signal → ℕ → Result (Unit {0}) ℕ × K → World K Group S → Exec (Made K Group S)
  unfolding give_back
  started s timer (err e, k) w = give_back s e (record w { kernel = k })
  started s timer (ok u, k) w =
      returns (ok (record { signal = s; timer = timer }), record w { kernel = k })

  unfoldable pub timed : ℕ → Signal → Result ℕ ℕ × K → World K Group S → Exec (Made K Group S)
  unfolding started give_back
  timed quantum s (err e, k) w = give_back s e (record w { kernel = k })
  timed quantum s (ok timer, k) w =
      started s timer (timer_settime os timer false (every quantum) k) w

  -- The mask of the thread is the kernel's to change.
  unfoldable pub blocked :
      ℕ → Signal → Result (Unit {0}) ℕ × K → World K Group S → Exec (Made K Group S)
  unfolding timed give_back
  blocked quantum s (err e, k) w = give_back s e (record w { kernel = k })
  blocked quantum s (ok u, k) w =
      timed quantum s (timer_create os real (by_signal s) k)
        (record w { thread = mask G block s w.thread })

  unfoldable pub registered :
      ℕ → Signal → Result (Unit {0}) ℕ × K → World K Group S → Exec (Made K Group S)
  unfolding blocked give_back
  registered quantum s (err e, k) w = give_back s e (record w { kernel = k })
  registered quantum s (ok u, k) w = blocked quantum s (pthread_sigmask os block (add empty s) k) w

  unfoldable pub assigned :
      ℕ → ℕ → Result Signal (Option PoisonError) × Signals → World K Group S → Exec (Made K Group S)
  unfolding registered
  assigned handler quantum (err e, signals) w = panics
  assigned handler quantum (ok s, signals) w =
      registered quantum s (sigaction os s (action (new handler empty handler_flags)) w.kernel)
        (record w { signals = signals })

  -- `PreemptionSignal::new`
  unfoldable pub new_signaler : ℕ → ℕ → World K Group S → Exec (Made K Group S)
  unfolding assigned
  new_signaler handler quantum w = assigned handler quantum (assign_signal w.signals) w

  -- The drop of a `PreemptionSignal`, whose errors are only printed; then its fields are dropped.
  unfoldable pub drop_signaler : PreemptionSignal → World K Group S → Exec (World K Group S)
  drop_signaler p w =
      let (_, deleted) = timer_delete os p.timer w.kernel in
      let (_, k) = sigaction os p.signal nothing deleted in
      drop mutex next_signal p.signal (initialized w.signals) >>= λ signals.
      returns (record w { kernel = k; signals = some signals })
