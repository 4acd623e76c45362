-- ===== src/Machine.antt =====
-- The state that preemption works on: one kernel thread with its signal mask, the thread-local
-- variables of src/preemption.rs and src/linger.rs, which live in the thread-control block that is
-- installed, and the program points between which a timed function can be interrupted.
use libinger.Base.{ℕ, Bool, false, Option, none, List, Result}
use libinger.Signal.{Signal}
use libinger.Signal.Set.{Sigset}

-- A function's result as `std::thread::Result`: a value, or the payload of its panic.
abbrev pub ThdResult : Type 0 → Type 0
ThdResult T = Result T ℕ

-- What a timed function does next, in state `S`: it computes and leaves an errno, it calls a
-- library function that is not preemptible and that leaves an errno in the shared group, it yields
-- by `pause`, or it finishes.
pub data Action (S T : Type 0) : Type 0 where
  compute : ℕ → S → Action S T
  library : ℕ → S → Action S T
  yield_now : S → Action S T
  finish : ThdResult T → Action S T

-- The state of the closure that `launch` boxes.
pub data Completion (S T : Type 0) : Type 0 where
  function : S → Completion S T
  return_value : ThdResult T → Completion S T
  empty : Completion S T

-- Where `schedule` and what it calls can be interrupted: before and after its call of the closure,
-- in the timed function, in a library call that will return into a group, and in the hook
-- after such a call, once the signal mask is open.
pub data Point (Group : Type 0) (S : Type 0) : Type 0 where
  before_fun : Point Group S
  client : S → Point Group S
  in_library : Group → S → Point Group S
  in_hook : ℕ → S → Point Group S
  after_fun : Point Group S

-- Where the processor is: in `switch_stack` at its jump, at the start of `schedule`, or beyond, with
-- the signal that `schedule` keeps in its local variable.
pub data Control (Group : Type 0) (S : Type 0) : Type 0 where
  call_site : Control Group S
  entry : Control Group S
  running : Option Signal → Point Group S → Control Group S

-- A machine context, as `timetravel` and a signal handler see it.
pub record Context (Group : Type 0) (S : Type 0) : Type 0 where
  pub control : Control Group S
  pub sigmask : Sigset

pub record Task (Group : Type 0) (S : Type 0) : Type 0 where
  pub errno : Option ℕ
  pub checkpoint : Option (Context Group S)
  pub yielded : Bool

abbrev pub default_task : {Group : Type 0} {S : Type 0} → Task Group S
default_task = record { errno = none; checkpoint = none; yielded = false }

-- A reference to the variable `SIGNALER` of the kernel thread that it is on.
pub data RealThreadId : Type 0 where
  real_thread : RealThreadId

pub record PreemptionSignal : Type 0 where
  pub signal : Signal
  pub timer : ℕ

-- The thread-local variables: `SIGNAL`, `DEFERRED` and `ERRNO_LOCATION` of src/preemption.rs, and
-- `BOOTSTRAP`, `TASK` and `DEADLINE` of src/linger.rs. The first half of a bootstrap, the closure's
-- address, is left out: it always is that of the machine's one closure.
pub record Tls (Group : Type 0) (S : Type 0) : Type 0 where
  pub signal : Option RealThreadId
  pub deferred : Bool
  pub errno_location : Option Group
  pub bootstrap : Option Group
  pub task : Task Group S
  pub deadline : ℕ

abbrev pub default_tls : {Group : Type 0} {S : Type 0} → Tls Group S
default_tls = record {
  signal = none;
  deferred = false;
  errno_location = none;
  bootstrap = none;
  task = default_task;
  deadline = 0;
}

-- `clock` is the wall clock in nanoseconds, `group` libgotcha's next group of the thread, and
-- `pending` the signals that wait for the mask to open, the oldest first. `signaler` is the thread's
-- own `SIGNALER`, outside every thread-control block of the library; `hooked` tells whether libgotcha
-- calls `resume_preemption`.
pub record Thread (Group : Type 0) (S : Type 0) : Type 0 where
  pub clock : ℕ
  pub mask : Sigset
  pub pending : List Signal
  pub group : Group
  pub errno_shared : ℕ
  pub errno_group : ℕ
  pub signaler : Option PreemptionSignal
  pub hooked : Bool
  pub tls : Tls Group S

-- A thread, the point where its processor is, and the closure that it has been given.
pub record Machine (Group : Type 0) (S T : Type 0) : Type 0 where
  pub thread : Thread Group S
  pub control : Control Group S
  pub fun : Completion S T

-- The cases of the environment: the processor goes on to the next point, a signal arrives, or time
-- passes.
pub data Event : Type 0 where
  instruct : Event
  arrive : Signal → Event
  elapse : ℕ → Event
