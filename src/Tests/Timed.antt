-- ===== src/Tests/Timed.antt =====
-- Runs of the sample function.
use libinger.Base.{
  List, ℕ, ◌≡◌, refl, inl, inr, Safe, Ensures, true, false, ◌-◌, leb, arith, none, some, [], ◌∷◌,
}
use libinger.Signal.{alarm, hangup}
use libinger.Signal.Set.{full}
use libinger.Linger.Invariant.Due.{ends_within}
use libinger.Machine.{
  Event, default_tls, instruct, elapse, arrive, Machine, Thread, real_thread, call_site, entry,
  function,
}
use libinger.Linger.Clock.{u64_mod, nsnow, stamp}
use libinger.Linger.Clock.Deadline.{stamp_unlimited, stamp_expired}
use libinger.Linger.Run.{run}
use libinger.Linger.Invariant.{Where, Inv}
use libinger.Linger.Invariant.Steps.{run-Inv}
use libinger.Linger.Resume.{continuation, resume}
use libinger.Linger.Resume.Valid.{no_faults, answers, Valid, Post}
use libinger.Linger.Resume.Value.{resume-Post, resume_returns}
use libinger.Tests.Sample.{gotcha, body, alarm_timer, main_thread, new_continuation, ticks}

pub fresh-Valid : Valid gotcha body 3 alarm_timer 0 refl new_continuation
fresh-Valid = record {
  block = default_tls;
  tls = refl;
  group = refl;
  prompt = refl;
  booted = refl;
  idle = refl;
  state = inl (refl, refl, refl);
}

resume-Post_example : Safe (Post gotcha body 3 alarm_timer 0 refl default_tls) (
    resume gotcha body
      (no_faults (answers alarm_timer))
      (continuation new_continuation)
      10
      main_thread
      (ticks 20))
resume-Post_example =
    resume-Post gotcha body 3 alarm_timer 0 refl (answers alarm_timer) 10 new_continuation
      main_thread (ticks 20) fresh-Valid (inr (refl, refl, refl))

abbrev signals : List Event
signals = arrive alarm ∷ elapse 20000 ∷ arrive hangup ∷ ticks 14

resume_returns_example : Ensures (Post gotcha body 3 alarm_timer 0 refl default_tls) (
    resume gotcha body
      (no_faults (answers alarm_timer))
      (continuation new_continuation)
      10
      main_thread
      signals)
resume_returns_example =
    resume_returns gotcha body 3 alarm_timer 0 refl (answers alarm_timer) 10 4 new_continuation
      main_thread signals fresh-Valid (inr (refl, refl, refl)) (unfold ends_within in refl)
      (omega arith)

-- The machine at its jump into the sample function.
abbrev entering : Machine ℕ ℕ ℕ
entering = record {
  thread = record main_thread {
    signaler = some alarm_timer;
    hooked = true;
    mask = full;
    tls = record {
      signal = some real_thread;
      deferred = false;
      errno_location = none;
      bootstrap = some 3;
      task = record {
        errno = none;
        checkpoint = some (record { control = call_site; sigmask = full });
        yielded = false;
      };
      deadline = 10;
    };
  };
  control = entry;
  fun = function 0;
}

entering-Inv : Inv gotcha body 3 alarm_timer 0 entering
entering-Inv = (
  record { own = refl; named = refl; hook = refl; unpaused = refl; returns_to = refl },
  record { shared = refl; masked = refl; prompt = refl; boot = refl },
  refl,
)

run-Inv_example :
    Safe
      (λ r. Where gotcha body 3 alarm_timer 0 call_site r.0.thread r.0.fun)
      (run gotcha body (instruct ∷ elapse 20000 ∷ arrive alarm ∷ []) entering entry)
run-Inv_example =
    run-Inv gotcha body 3 alarm_timer 0 refl (instruct ∷ elapse 20000 ∷ arrive alarm ∷ []) entering
      entry refl entering-Inv

-- A thread whose deadline still holds the budget `us`.
abbrev budgeted : ℕ → Thread ℕ ℕ
budgeted us = record main_thread { tls = record default_tls { deadline = us } }

stamp_unlimited_example :
    leb (stamp gotcha (budgeted (u64_mod - 1))).tls.deadline (nsnow gotcha main_thread) ≡ false
stamp_unlimited_example =
    stamp_unlimited gotcha (budgeted (u64_mod - 1)) main_thread refl (unfold nsnow in omega arith)

-- In the year 2020, a budget of 634 years.
abbrev long_budgeted : Thread ℕ ℕ
long_budgeted = record (budgeted 20000000000000000) { clock = 1600000000000000000 }

stamp_expired_example :
    leb (stamp gotcha long_budgeted).tls.deadline (nsnow gotcha long_budgeted) ≡ true
stamp_expired_example = stamp_expired gotcha long_budgeted (omega arith) (inl (omega arith))
