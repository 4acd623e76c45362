-- ===== src/Tests/Yielding.antt =====
-- The sample function, about to yield.
use libinger.Base.{ℕ, true, refl, false, none, some, ◌∷◌, Ensures}
use libinger.Signal.{alarm}
use libinger.Signal.Set.{full}
use libinger.Machine.{
  Machine, default_tls, real_thread, call_site, running, client, empty, instruct,
}
use libinger.Linger.Run.{run}
use libinger.Linger.Invariant.{Where, here, then, computes, calls}
use libinger.Linger.Invariant.Yield.{Yielded, run_yields}
use libinger.Tests.Sample.{gotcha, body, alarm_timer, main_thread, ticks}

abbrev yielding : Machine ℕ ℕ ℕ
yielding = record {
  thread = record main_thread {
    signaler = some alarm_timer;
    hooked = true;
    group = 3;
    tls = record default_tls {
      signal = some real_thread;
      errno_location = some 3;
      deadline = 18446744073709551615;
      task = record {
        errno = none;
        checkpoint = some (record { control = call_site; sigmask = full });
        yielded = false;
      };
    };
  };
  control = running (some alarm) (client 2);
  fun = empty;
}

yielding-Where :
    Where gotcha body 3 alarm_timer 0 (running (some alarm) (client 2)) yielding.thread yielding.fun
yielding-Where = (
  record { own = refl; named = refl; hook = refl; unpaused = refl; returns_to = refl },
  record {
    told = refl;
    inside = refl;
    unmasked = refl;
    prompt = refl;
    located = refl;
    booted = refl;
  },
  (then (then here (computes refl)) (calls refl), refl),
)

run_yields_example :
    Ensures
      (Yielded gotcha body 3 alarm_timer 0 refl 3 (ticks 3))
      (run gotcha body (instruct ∷ instruct ∷ ticks 3) yielding yielding.control)
run_yields_example =
    run_yields gotcha body 3 alarm_timer 0 refl yielding 2 3 (ticks 3) yielding-Where refl refl refl
