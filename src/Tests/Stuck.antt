-- ===== src/Tests/Stuck.antt =====
-- A future over a channel whose function takes longer than two polls.
use libinger.Base.{
  Option, Safe, Ensures, err, ◌>>=◌, ℕ, suc, ◌==◌, if◌then◌else◌, Bool, true, false, ◌≡◌, refl,
  some, none, List, [], ◌∷◌, inr, ok, returns, Exec,
}
use libinger.Signal.{number, alarm}
use libinger.Signal.Set.{empty}
use libinger.Machine.{
  Action, compute, finish, Thread, Tls, Event, arrive, elapse, instruct, running, client,
  default_tls,
}
use libinger.Machine.{empty as over}
use libinger.Linger.Invariant.{Finishes, finishes, here}
use libinger.Linger.Resume.{Continuation, continuation, begun as begun_call, resume}
use libinger.Linger.Resume.Valid.{no_faults, answers, Valid}
use libinger.Linger.Run.{run, step, deliver_pending, find_unblocked}
use libinger.Linger.Switch.{switch_stack, scope, reenter, jump, settled, descheduled, restored}
use libinger.Linger.Preempt.{preempt, pause}
use libinger.Linger.Clock.{stamp, nsnow, stamped}
use libinger.Preemption.{
  enable_preemption, disable_preemption, propagate_errno, thread_signal, mask, raise, enqueue,
}
use libinger.Preemption.Setup.{thread_setup}
use libinger.Future.{Polled, ready, pending, resumed, poll_taken, kept, PreemptiveFuture}
use libinger.Future.Channel.{
  poll_fns, Phase, receiving, pausing, Turn, is_ready, is_pending, Loop, polling, looped, poll_with,
  poll_on, send, polled, received, at_phase,
}
use libinger.Future.Begins.{begun, Accepts, poll_fns-Fair}
use libinger.Future.Polls.{Fair}
use libinger.Statics.Stores.{default-Rested}
use libinger.Future.Blocked.{Calling, poll-Stuck, Stuck}
use libinger.Tests.Sample.{gotcha, alarm_timer, returned}

-- It counts to five.
abbrev counts : ℕ → Action ℕ (Turn ℕ ℕ)
counts u = if u == 5 then finish (ok (is_ready 7)) else compute 0 (suc u)

counted : ℕ → Bool → Action ℕ (Turn ℕ ℕ)
counted u b = if b then finish (ok (is_ready 7)) else compute 0 (suc u)

refused : (u w : ℕ) (b : Bool) → counted u b ≡ finish (ok (is_pending w)) → ⊥
unfolding counted
refused u w true e = cc
refused u w false e = cc

never_pending : (u w : ℕ) → Finishes counts u (ok (is_pending w)) → ⊥
unfolding counted
never_pending u w (finishes t r e) = refused t w (t == 5) e

abbrev add_to : ℕ → ℕ → ℕ
add_to i u = u

abbrev in_call : Loop ℕ ℕ
in_call = record { channel = none; phase = polling 0 }

abbrev block : Tls ℕ (Loop ℕ ℕ)
block = record default_tls { errno_location = some 3 }

abbrev paused : Continuation ℕ (Loop ℕ ℕ) ℕ
paused = record {
  functional = over;
  stateful = record {
    errno = some 0;
    checkpoint = some (record { control = running (some alarm) (client in_call); sigmask = empty });
    yielded = false;
  };
  group = 3;
  tls = some block;
}

paused-Calling : Calling gotcha add_to counts 0 3 alarm_timer refl 0 9 (never_pending 0) paused
paused-Calling = record {
  context = _;
  signal = some alarm;
  saved = refl;
  stopped = refl;
  called = refl;
}

paused-Valid : Valid gotcha (looped add_to counts 0) 3 alarm_timer in_call refl paused
paused-Valid = record {
  block = block;
  tls = refl;
  group = refl;
  prompt = refl;
  booted = refl;
  idle = refl;
  state = inr (record {
    errno = 0;
    context = _;
    signal = some alarm;
    told = refl;
    point = client in_call;
    kept = refl;
    saved = refl;
    stopped = refl;
    inside = refl;
    progress = (here, refl);
    located = refl;
  });
}

abbrev loop_thread : Thread ℕ (Loop ℕ ℕ)
loop_thread = record {
  clock = 1000000000;
  mask = empty;
  pending = [];
  group = 0;
  errno_shared = 0;
  errno_group = 0;
  signaler = none;
  hooked = false;
  tls = default_tls;
}

abbrev late : List Event
late = instruct ∷ elapse 20000 ∷ arrive alarm ∷ []

abbrev future : PreemptiveFuture ℕ (Loop ℕ ℕ) ℕ
future = record { fun = some (continuation paused); us = 10 }

abbrev second : Exec (Polled ℕ (Loop ℕ ℕ) ℕ)
second =
    poll_with gotcha add_to counts 0 (no_faults (answers alarm_timer)) (λ g. true) 9 future
      loop_thread late

abbrev unpolled : Polled ℕ (Loop ℕ ℕ) ℕ
unpolled = record {
  poll = ready (ok 0);
  woken = false;
  future = future;
  thread = loop_thread;
  rest = [];
}

second_pending : (returned unpolled second).poll ≡ pending
unfolding poll_with poll_on send polled at_phase received looped resume begun_call number
    thread_setup switch_stack run deliver_pending step find_unblocked preempt pause
    enable_preemption disable_preemption propagate_errno stamp nsnow stamped thread_signal mask
    raise scope reenter jump settled descheduled restored enqueue resumed poll_taken kept
second_pending = refl

second_returns : second ≡ returns (returned unpolled second)
unfolding poll_with poll_on send polled at_phase received looped resume begun_call number
    thread_setup switch_stack run deliver_pending step find_unblocked preempt pause
    enable_preemption disable_preemption propagate_errno stamp nsnow stamped thread_signal mask
    raise scope reenter jump settled descheduled restored enqueue resumed poll_taken kept
second_returns = refl

poll-Stuck_example : Stuck (
    poll_with gotcha add_to counts 0
      (no_faults (answers alarm_timer))
      (λ g. true)
      9
      (returned unpolled second).future
      loop_thread
      late)
poll-Stuck_example =
    poll-Stuck gotcha add_to counts 0 3 alarm_timer refl 0 9 (never_pending 0) (answers alarm_timer)
      (λ g. true) in_call paused 10 loop_thread late (returned unpolled second)
      (no_faults (answers alarm_timer)) 9 loop_thread late paused-Calling paused-Valid
      (inr (refl, refl, refl)) second_returns second_pending

call_calm :
    (ch : Option ℕ) (u e : ℕ) (b : Bool)
    → polled add_to counts 0 ch (counted u b) ≡ finish (err e)
    → ⊥
unfolding polled counted
call_calm ch u e true x = cc
call_calm ch u e false x = cc

phase_calm :
    (ch : Option ℕ) (ph : Phase ℕ) (e : ℕ) → at_phase add_to counts 0 ch ph ≡ finish (err e) → ⊥
unfolding at_phase received counted
phase_calm none (receiving u) e x = cc
phase_calm (some i) (receiving u) e x = cc
phase_calm ch (polling u) e x = call_calm ch u e (u == 5) x
phase_calm ch (pausing u) e x = cc

loop_calm : (s : Loop ℕ ℕ) (e : ℕ) → Finishes (looped add_to counts 0) s (err e) → ⊥
unfolding looped
loop_calm s e (finishes t r x) = phase_calm t.channel t.phase e x

poll_fns-Fair_example :
    Ensures (Accepts gotcha add_to counts 0 3 alarm_timer refl 0 9) (
      poll_fns gotcha add_to counts 0
        (no_faults (answers alarm_timer))
        (some 3)
        (some default_tls)
        0
        10
        loop_thread
        [])
    × Safe
        (Fair gotcha
          (looped add_to counts 0)
          3
          alarm_timer
          (begun gotcha add_to counts 0 3 alarm_timer refl 0 9)
          refl)
        (poll_fns gotcha add_to counts 0
            (no_faults (answers alarm_timer))
            (some 3)
            (some default_tls)
            0
            10
            loop_thread
            []
          >>= λ f.
              poll_with gotcha add_to counts 0
                (no_faults (answers alarm_timer))
                (λ g. true)
                9
                f
                loop_thread
                late)
poll_fns-Fair_example =
    poll_fns-Fair gotcha add_to counts 0 3 alarm_timer refl 0 9 (no_faults (answers alarm_timer))
      (answers alarm_timer) (λ g. true) (some default_tls) 10 loop_thread [] late
      (default-Rested ℕ (Loop ℕ ℕ)) (inr (refl, refl, refl)) (loop_calm _)
