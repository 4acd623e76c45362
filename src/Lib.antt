-- ===== src/Lib.antt =====
-- libinger makes function calls with timeouts: `launch` runs a function for a budget of microseconds
-- on the caller's kernel thread, and a function that does not finish in time is paused by a
-- signal handler and handed back as a continuation, which `resume` continues. This library
-- models the parts that do this and proves what they promise.
--
-- The parts, with the file that models each:
-- * src/reusable.rs, pools of reusable values behind a lock: Reusable (the operations `try_from`,
--   `drop`, `new`, `prealloc`, over the interface `SharedMut` with the instances `mutex` and
--   `ref_cell`), Reusable/Handle (a handle and its value), Reusable/History (a client that acquires
--   and drops handles), Reusable/Prealloc.
-- * internal/libsignal/src/lib.rs, signals and sets of them: Signal, Signal/Set. src/signals.rs, the
--   table of signals and its pool: Signals, Signals/Assignment.
-- * src/preemption.rs, turning preemption on and off: Preemption (`thread_signal`,
--   `enable_preemption`, `disable_preemption`, `defer_preemption`, `errno_group`, `mask`),
--   Preemption/Setup (`thread_setup`, `PreemptionSignal::new`), Preemption/Cases.
-- * src/linger.rs, timed functions: Linger/Clock (`nsnow`, `stamp`), Linger/Preempt (`preempt`,
--   `pause`; Linger/Preempt/Pause has when it pauses), Linger/Run (`schedule`, the closure that
--   `launch` boxes, the hook after library calls), Linger/Switch (`switch_stack`), Linger/Resume
--   (`resume`, `launch`, `erase`, the drop of a continuation). Linger/Invariant and its children carry the
--   invariant, Linger/Resume/Value what it gives for one call of `resume`, and Linger/Resume/Sessions
--   for a client's many calls;
--   Linger/Resume/Budget and
--   Linger/Resume/Overdue are about the time that a call takes, and Linger/Resume/Unstopped about calls
--   that no signal meets, with the accounts Linger/Invariant/Spends,
--   Linger/Invariant/Prompt and Linger/Invariant/Unstopped of its run, and Linger/Switch/Through and Linger/Resume/Through carry any
--   such account from the call to its return. Linger/Resume/Failure is about calls that the operating system fails, Linger/Switch/Restore about
--   what a pause saves.
-- * src/groups.rs, src/stacks.rs and src/localstores.rs, the static pools of groups, stacks and
--   thread-control blocks: Statics, Statics/Stores, Statics/Stacks.
-- * These together, a client that launches, resumes, erases and drops functions, which take their
--   groups, stacks and blocks from the pools and give them back: Linger/Lifecycle. Its children carry the
--   invariant through each call (Sound, Calls, Books, Owned, Drops, Launches, Orders) and through any of them (Through). Which stack the
--   checkpoint of a function owns is kept beside it; Losses is about blocks that are lost.
-- * internal/libsignal/src/lib.rs and internal/libsignal/src/pthread.rs, the calls of the kernel on
--   signals: Kernel. src/timer.rs, timers: Kernel/Timer. `PreemptionSignal::new` and its drop
--   (src/preemption.rs) over these and over the pool of signals: Preemption/Signaler, whose child
--   Refines joins it to Preemption/Setup.
-- * src/profiler.rs, spans of time: Profiler, Profiler/Spans.
-- * src/ffi.rs, the C interface: Ffi (`launch`, `resume` and `cancel` as `launch_call`, `resume_call` and
--   `cancel`; `pause` is that of src/linger.rs), Ffi/Calls (what holds through any calls).
-- * src/tcb.rs, thread-control blocks, the register FS and the guards that put it back: Tcb, Tcb/Guards.
-- * src/future.rs, the polling of a preemptible future: Future, Future/Polls (a poll where the channel has
--   room); `poll_fns`, its loop and its channel: Future/Channel, Future/Begins, Future/Within,
--   Future/Blocked.
-- Machine holds the state that src/preemption.rs and src/linger.rs work on. A handler or a function
-- that may panic, abort or be undefined returns an `Exec` (Base/Outcomes), so that each theorem
-- says which of these it excludes.
--
-- How it is modelled. A kernel thread is a record: its clock, signal mask, pending signals,
-- libgotcha's next group, two errnos and the thread-local variables of the installed
-- thread-control block. The environment is an explicit list of events: the processor goes on to
-- the next program point, a signal arrives, time passes. After each event at most one pending
-- signal that the mask lets through is delivered. A timed function is a parameter, what it does
-- next in each of its states, and it can be interrupted between any two steps, inside a library
-- call, inside the hook after one, and at the ends of `schedule`. A run ends with the events if
-- the function has not come back by then (`runs_on`); there is no other fuel. A list of events of any
-- length is allowed, and each loop of the model is a recursion on it. That the events are enough is a
-- matter of the instructions among them: a step of the function takes one, and two more where it is
-- a library call with the hook after it, and the way in and out of `schedule` takes two besides
-- (Linger/Invariant/Due).
--
-- What is a parameter: libgotcha's groups (Gotcha: which group is the shared one), the values that
-- the pools' builders make (of `Group::new` the record `Supply` says that it makes different groups,
-- none of them the shared one), what the operating system answers where a call can fail (`Answers`
-- and `Faults`), and in Kernel the calls of libc as an interface with what they are documented to do.
-- The jumps of libtimetravel are read as its callers use them: `restorecontext` hands the context to
-- its scope, `sigsetcontext` and `swap` exchange it with the call site's. To
-- src/linger.rs a thread-control block is the thread-local variables in it, owned by the continuation
-- that it belongs to; to src/tcb.rs it is an address and four words.
-- Machine integers keep their wrap-around; arithmetic that panics only in debug builds wraps, as it
-- does in release builds, and assertions of debug builds are left out.
-- The client of Linger/Lifecycle catches the panics that reach it: that of a launch that is refused a
-- group, and that of its function, which `resume` raises again. A call that ends so is one of the run's
-- calls that are through.
--
-- Taken for granted: there is memory for a new stack and a new thread-control block (the panic of
-- `ThreadControlBlock::new` where there is none is in Tcb, not in Statics); the clock is past the
-- epoch, before which `nsnow` panics, and does not go back while a function runs; the change of
-- the mask in `switch_stack` succeeds (src/linger.rs has its error returned after the jump); and
-- FS can be put back when `resume` uninstalls the function's block (Tcb has the panic where it cannot).
--
-- Not modelled: a function that is resumed on a thread with another signal than it began with, where the
-- signal that `schedule` masks at its end is not the thread's, whose own may interrupt the change of
-- SIGNAL. The end of `schedule` is one step of Linger/Run, which is true to the code where the two
-- are the same, and the invariant asks for that (`told` in Linger/Invariant). Nor are
-- a panic while a continuation is dropped (it ends the run), and signals that meet one kernel thread while
-- another runs a function; src/tcbstub.rs, which stands in for the blocks where they are compiled out; the
-- pass-throughs of src/lifetime.rs, src/unfurl.rs, src/force.rs and src/compile_assert.rs, which
-- change types alone; `poll_fn` of src/future.rs, which is `poll_fns` with a message that does nothing;
-- the tests, the benchmarks and the compiler, which are clients.
pub mod Base
pub mod Reusable
pub mod Signal
pub mod Signals
pub mod Statics
pub mod Gotcha
pub mod Machine
pub mod Preemption
pub mod Linger
pub mod Ffi
pub mod Future
pub mod Tcb
pub mod Kernel
pub mod Profiler
mod Tests
