-- ===== src/Tests/System.antt =====
-- An operating system that keeps the handlers, the timers and the mask, and the calls on it.
use libinger.Base.{
  ℕ, ◌<◌, ◌≡◌, refl, none, some, Option, List, [], ◌∷◌, length, ok, Ensures, ◌>>=◌, ◌==◌,
  if◌then◌else◌, arith, ==_refl,
}
use libinger.Signal.{alarm}
use libinger.Signal.Set.{Sigset, empty, changed}
use libinger.Reusable.{new, try_from}
use libinger.Signals.{next_signal, assign_signal}
use libinger.Kernel.{Kernel, Sigaction}
use libinger.Preemption.Setup.{new_signal}
use libinger.Preemption.Signaler.{World, new_signaler, drop_signaler}
use libinger.Preemption.Signaler.Setting.{Leaves, new_signaler-Leaves}
use libinger.Preemption.Signaler.Leak.{Leaks, new_signaler-Leaks}
use libinger.Preemption.Signaler.Dropping.{drop_signaler_lem}
use libinger.Preemption.Signaler.Refines.{view, answers_from, new_signaler-new_signal}
use libinger.Profiler.Spans.{Call, beginning, ending, run, spans, run-spans, end_back}
use libinger.Profiler.{end}
use libinger.Tests.Sample.{gotcha, alarm_timer, main_thread}

pub record System : Type 0 where
  handlers : ℕ → Option Sigaction
  live : List ℕ
  blocked : Sigset

abbrev set_handler : ℕ → Option Sigaction → System → System
set_handler s none k = k
set_handler s (some a) k = record k { handlers = λ x. if x == s then some a else k.handlers x }

-- Timers are numbered; each call succeeds but the setting of a timer, which fails with 22.
abbrev system : Kernel System
system = record {
  sigaction = λ s a k. (0, set_handler s a k);
  pthread_sigmask = λ how set k. (0, record k { blocked = changed how set k.blocked });
  pthread_kill = λ s k. (0, k);
  timer_create = λ c e k. ((0, length k.live), record k { live = length k.live ∷ k.live });
  timer_settime = λ t f s k. (1, k);
  timer_delete = λ t k. (0, k);
  last_os_error = λ k. 22;
  handler = λ k. k.handlers;
  timers = λ k. k.live;
  sigmask = λ k. k.blocked;
  query_lem = λ s k. refl;
  register_lem = λ s a k e. rw (==_refl s) refl;
  action_keeps_lem = action_keeps;
  delete_lem = λ t k. refl;
  create_lem = λ c e k z. refl;
  create_fails_lem = λ c e k z. absurd (z refl);
  create_keeps_lem = λ c e k. refl;
  settime_lem = λ t f s k. (refl, refl);
  sigmask_lem = λ how set k z. refl;
  mask_keeps_lem = λ how set k. (refl, refl);
}
  where
    action_keeps : (s : ℕ) (a : Option Sigaction) (k : System) → (set_handler s a k).live ≡ k.live
    action_keeps s none k = refl
    action_keeps s (some a) k = refl

abbrev world : World System ℕ ℕ
world = record {
  kernel = record { handlers = λ s. none; live = []; blocked = empty };
  signals = none;
  thread = main_thread;
}

new_signaler-Leaves_example :
    Ensures
      (Leaves system gotcha 77 world.kernel main_thread alarm)
      (new_signaler system gotcha 77 100 world)
unfolding assign_signal new try_from next_signal
new_signaler-Leaves_example = new_signaler-Leaves system gotcha 77 100 world [] alarm refl refl

new_signaler-Leaks_example :
    Ensures (Leaks system gotcha 77 100 alarm world) (new_signaler system gotcha 77 100 world)
unfolding assign_signal new try_from next_signal
new_signaler-Leaks_example =
    new_signaler-Leaks system gotcha 77 100 world [] alarm refl refl
      (record { registers = refl; masks = refl; creates = refl; unset = refl })

new_signaler-new_signal_example :
    (new_signaler system gotcha 77 100 world >>= view system gotcha)
    ≡ new_signal gotcha (answers_from system 77 100 alarm world.kernel) (some alarm) main_thread
unfolding assign_signal new try_from next_signal
new_signaler-new_signal_example =
    new_signaler-new_signal system gotcha 77 100 world [] alarm refl refl (λ how set k. refl)

drop_signaler_lem_example :
    Ensures
      (λ v.
        ((assign_signal v.signals).0 ≡ ok alarm)
        × (v.kernel.handlers ≡ world.kernel.handlers)
        × (v.thread ≡ main_thread))
      (drop_signaler system gotcha alarm_timer world)
unfolding new
drop_signaler_lem_example = drop_signaler_lem system gotcha alarm_timer world [] refl

abbrev timings : List Call
timings = ending 3 ∷ beginning 5 ∷ beginning 8 ∷ ending 20 ∷ ending 21 ∷ beginning 30 ∷ []

run-spans_example : (run timings (record { past = []; present = 0 })).past ≡ spans none timings
run-spans_example = run-spans timings (omega arith)

end_back_example :
    (x : ℕ) × ((end 5 (record { past = []; present = 9 })).1.past ≡ x ∷ [])
    × (9223372036854775808 < x)
end_back_example = end_back 5 9 [] (omega arith) (omega arith) (omega arith)
