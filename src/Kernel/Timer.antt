-- ===== src/Kernel/Timer.antt =====
-- src/timer.rs: clocks, timers and how a timer notifies.
use libinger.Base.{ℕ, Bool, none, some, Result, ok, err, ◌==◌, if◌then◌else◌}
use libinger.Signal.{Signal, number}
use libinger.Kernel.{Sigevent, Itimerspec, Kernel, checked}

pub data Clock : Type 0 where
  boot boot_alarm mono process real real_alarm thread : Clock

-- The numbers that Linux has for the clocks.
abbrev pub clock_id : Clock → ℕ
clock_id boot = 7
clock_id boot_alarm = 9
clock_id mono = 1
clock_id process = 2
clock_id real = 0
clock_id real_alarm = 8
clock_id thread = 3

unfoldable pub event : ℕ → Sigevent
event notify = record { sigev_notify = notify; sigev_signo = none; sigev_notify_thread_id = none }

abbrev pub sigev_signal : ℕ
sigev_signal = 0

abbrev pub sigev_none : ℕ
sigev_none = 1

abbrev pub sigev_thread_id : ℕ
sigev_thread_id = 4

unfoldable pub by_none : Sigevent
unfolding event
by_none = event sigev_none

unfoldable pub by_signal : Signal → Sigevent
unfolding event
by_signal signal = record (event sigev_signal) { sigev_signo = some (number signal) }

unfoldable pub by_thread_id : Signal → ℕ → Sigevent
unfolding event
by_thread_id signal tid = record (event sigev_thread_id) {
  sigev_signo = some (number signal);
  sigev_notify_thread_id = some tid;
}

abbrev pub abstime : Bool → ℕ
abstime absolute = if absolute then 1 else 0

-- The timer, where the code says that there is one.
abbrev pub created : ℕ → ℕ → ℕ → Result ℕ ℕ
created code timer error = if code == 0 then ok timer else err error

module _ {K : Type 0} (os : Kernel K) where
  unfoldable pub timer_create : Clock → Sigevent → K → Result ℕ ℕ × K
  timer_create clockid sevp k =
      let ((code, timer), k') = os.timer_create (clock_id clockid) sevp k in
      (created code timer (os.last_os_error k'), k')

  unfoldable pub timer_settime : ℕ → Bool → Itimerspec → K → Result (Unit {0}) ℕ × K
  timer_settime timerid absolute new k =
      let (code, k') = os.timer_settime timerid (abstime absolute) new k in
      (checked code (os.last_os_error k'), k')

  unfoldable pub timer_delete : ℕ → K → Result (Unit {0}) ℕ × K
  timer_delete timerid k =
      let (code, k') = os.timer_delete timerid k in (checked code (os.last_os_error k'), k')
