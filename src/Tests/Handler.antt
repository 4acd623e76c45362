-- ===== src/Tests/Handler.antt =====
-- The handler, and what becomes of the function that it pauses.
use libinger.Base.{ℕ, ◌≡◌, refl, ◌⊎◌, true, false, some, none, ok, returns, Ensures}
use libinger.Signal.{number, alarm}
use libinger.Signal.Set.{empty, full}
use libinger.Machine.{Context, Thread, call_site, running, client, default_tls, real_thread}
use libinger.Linger.Clock.{nsnow}
use libinger.Linger.Preempt.{Handled, preempt}
use libinger.Linger.Preempt.Pause.{is_due, Pauses, Continues, preempt_lem}
use libinger.Preemption.{thread_signal, disable_preemption}
use libinger.Tests.Sample.{gotcha, alarm_timer, main_thread, returned}

abbrev site : Context ℕ ℕ
site = record { control = call_site; sigmask = full }

abbrev interrupted : Context ℕ ℕ
interrupted = record { control = running (some alarm) (client 2); sigmask = empty }

-- In its third step, past its deadline, with errno 4.
abbrev running_thread : Thread ℕ ℕ
running_thread = record main_thread {
  signaler = some alarm_timer;
  group = 3;
  errno_group = 4;
  tls = record default_tls {
    signal = some real_thread;
    deadline = 10;
    task = record { errno = none; checkpoint = some site; yielded = false };
  };
}

own_signal : thread_signal gotcha running_thread ≡ ok alarm
unfolding thread_signal
own_signal = refl

preempt_lem_example :
    Ensures
      (λ h.
        ((is_due gotcha alarm alarm interrupted running_thread ≡ true)
          × Pauses gotcha alarm alarm interrupted running_thread site h)
        ⊎ ((is_due gotcha alarm alarm interrupted running_thread ≡ false)
            × Continues gotcha alarm alarm interrupted running_thread h))
      (preempt gotcha alarm interrupted running_thread)
preempt_lem_example = preempt_lem gotcha alarm alarm interrupted running_thread site own_signal refl

abbrev paused : Handled ℕ ℕ
paused = returned (interrupted, running_thread) (preempt gotcha alarm interrupted running_thread)

pauses : preempt gotcha alarm interrupted running_thread ≡ returns paused
unfolding preempt number nsnow disable_preemption
pauses = refl
