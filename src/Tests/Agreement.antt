-- ===== src/Tests/Agreement.antt =====
-- Two clients of the sample function.
use libinger.Base.{none, ℕ, List, [], ◌∷◌, ◌++◌, ◌≡◌, refl, inl, inr, ok, some, returns}
use libinger.Signal.{number, alarm, user1}
use libinger.Machine.{ThdResult, PreemptionSignal, Event, arrive, elapse, default_tls}
use libinger.Linger.Resume.{begun, Resumed, continuation, fresh, resume, Continuation, done}
use libinger.Linger.Resume.Valid.{no_faults, answers, Valid}
use libinger.Linger.Resume.Sessions.{session, sessions_agree}
use libinger.Linger.Resume.Sessions.{result_of}
use libinger.Linger.Run.{run, step, deliver_pending, find_unblocked}
use libinger.Linger.Switch.{switch_stack, scope, reenter, jump, settled, descheduled, restored}
use libinger.Linger.Preempt.{preempt, pause}
use libinger.Linger.Clock.{stamp, nsnow, stamped}
use libinger.Preemption.{
  enable_preemption, disable_preemption, propagate_errno, thread_signal, mask, raise, enqueue,
}
use libinger.Preemption.Setup.{thread_setup}
use libinger.Tests.Sample.{
  returned, gotcha, body, alarm_timer, main_thread, new_continuation, ticks,
}
use libinger.Tests.Timed.{fresh-Valid}

-- One in a group and with a signal of its own.
abbrev user_timer : PreemptionSignal
user_timer = record { signal = user1; timer = 6 }

abbrev other : Continuation ℕ ℕ ℕ
other = fresh gotcha body 0 4 (some default_tls)

other-Valid : Valid gotcha body 4 user_timer 0 refl other
other-Valid = record {
  block = default_tls;
  tls = refl;
  group = refl;
  prompt = refl;
  booted = refl;
  idle = refl;
  state = inl (refl, refl, refl);
}

abbrev nothing : Resumed ℕ ℕ ℕ
nothing = record {
  reply = done;
  linger = continuation other;
  dropped = none;
  thread = main_thread;
  rest = [];
}

-- Preempted in the second step, and then where it yields.
abbrev hurried : List (ℕ × List Event)
hurried = (10, ticks 3 ++ elapse 20000 ∷ arrive alarm ∷ []) ∷ (50, ticks 20) ∷ (50, ticks 20) ∷ []

-- Undisturbed but for the other signal.
abbrev leisurely : List (ℕ × List Event)
leisurely = (18446744073709551615, arrive alarm ∷ ticks 30) ∷ (18446744073709551615, ticks 30) ∷ []

abbrev hurried_end : Resumed ℕ ℕ ℕ
hurried_end = returned nothing (
    session gotcha body (no_faults (answers alarm_timer)) hurried (continuation new_continuation)
      main_thread)

abbrev leisurely_end : Resumed ℕ ℕ ℕ
leisurely_end = returned nothing (
    session gotcha body (no_faults (answers user_timer)) leisurely (continuation other) main_thread)

hurried_runs :
    session gotcha body
      (no_faults (answers alarm_timer))
      hurried
      (continuation new_continuation)
      main_thread
    ≡ returns hurried_end
unfolding session resume begun number thread_setup switch_stack run deliver_pending step
    find_unblocked preempt pause enable_preemption disable_preemption propagate_errno stamp nsnow
    stamped thread_signal mask raise scope reenter jump settled descheduled restored enqueue
hurried_runs = refl

leisurely_runs :
    session gotcha body (no_faults (answers user_timer)) leisurely (continuation other) main_thread
    ≡ returns leisurely_end
unfolding session resume begun number thread_setup switch_stack run deliver_pending step
    find_unblocked preempt pause enable_preemption disable_preemption propagate_errno stamp nsnow
    stamped thread_signal mask raise scope reenter jump settled descheduled restored enqueue
leisurely_runs = refl

hurried_result : result_of hurried_end.reply hurried_end.linger ≡ some (ok 7)
unfolding session resume begun number thread_setup switch_stack run deliver_pending step
    find_unblocked preempt pause enable_preemption disable_preemption propagate_errno stamp nsnow
    stamped thread_signal mask raise scope reenter jump settled descheduled restored enqueue
hurried_result = refl

leisurely_result : result_of leisurely_end.reply leisurely_end.linger ≡ some (ok 7)
unfolding session resume begun number thread_setup switch_stack run deliver_pending step
    find_unblocked preempt pause enable_preemption disable_preemption propagate_errno stamp nsnow
    stamped thread_signal mask raise scope reenter jump settled descheduled restored enqueue
leisurely_result = refl

sessions_agree_example : ◌≡◌ {A = ThdResult ℕ} (ok 7) (ok 7)
sessions_agree_example =
    sessions_agree gotcha body 0 3 4 alarm_timer user_timer refl refl (answers alarm_timer)
      (answers user_timer) hurried leisurely new_continuation other main_thread main_thread
      hurried_end leisurely_end (ok 7) (ok 7) fresh-Valid other-Valid (inr (refl, refl, refl))
      (inr (refl, refl, refl)) hurried_runs leisurely_runs hurried_result leisurely_result
