-- ===== src/Signals.antt =====
-- src/signals.rs: the signals that preemption may use, and the pool that gives each thread one.
pub mod Assignment
use libinger.Base.{
  ℕ, zero, suc, ◌+◌, ◌%◌, ◌≡◌, refl, Option, none, some, List, [], ◌∷◌, Result, get_elem?, length,
}
use libinger.Reusable.{Mutex, PoisonError, mutex, Pool, new, try_from}
use libinger.Signal.{
  Signal, alarm, virtual_alarm, profiling_timer, processor_limit, filesystem_limit, terminal_input,
  terminal_output, power_failure, user1, user2, urgent_socket, pollable, syscall, floating_point,
  hangup, child,
}

abbrev pub notification_signals : List Signal
notification_signals =
    alarm ∷ virtual_alarm ∷ profiling_timer ∷ processor_limit ∷ filesystem_limit ∷ terminal_input
    ∷ terminal_output ∷ power_failure ∷ user1 ∷ user2 ∷ urgent_socket ∷ pollable ∷ syscall
    ∷ floating_point ∷ hangup ∷ child ∷ []

-- A `usize` wraps around at this.
abbrev pub usize_mod : ℕ
usize_mod = 18446744073709551616

-- The pool's builder: `NOTIFICATION_SIGNALS.get(free.fetch_add(1)).copied()`. What it captures is
-- the counter.
unfoldable pub next_signal : ℕ → Option Signal × ℕ
next_signal free = (get_elem? notification_signals free, (free + 1) % usize_mod)

-- The static `SIGNALS`: `none` until the first call has made the pool.
abbrev pub Signals : Type 0
Signals = Option (Pool (Mutex Signal) ℕ)

abbrev pub initialized : Signals → Pool (Mutex Signal) ℕ
initialized none = new mutex next_signal 0
initialized (some p) = p

unfoldable pub assign_signal : Signals → Result Signal (Option PoisonError) × Signals
assign_signal s = let (r, p) = try_from mutex next_signal (initialized s) in (r, some p)
