-- ===== src/Linger/Clock.antt =====
-- src/linger.rs: `nsnow` and `stamp`, with 64-bit arithmetic that wraps around.
pub mod Deadline
use libinger.Base.{ℕ, ◌+◌, ◌*◌, ◌/◌, ◌%◌, Option, none, some, ltb, if◌then◌else◌}
use libinger.Gotcha.{Gotcha}
use libinger.Machine.{Thread}
use libinger.Preemption.{set_tls}

abbrev pub u64_mod : ℕ
u64_mod = 18446744073709551616

-- `u64::checked_mul`
abbrev pub checked_mul : ℕ → ℕ → Option ℕ
checked_mul a b = if ltb (a * b) u64_mod then some (a * b) else none

-- The new deadline, from the time and the budget that the old one holds.
unfoldable pub stamped : ℕ → ℕ → ℕ
stamped now us = elim (checked_mul us 1000) [ some timeout ↦ (now + timeout) % u64_mod | none ↦ us ]

module _ {Group : Type 0} (G : Gotcha Group) {S : Type 0} where
  -- The wall clock as the nanoseconds of its last second and its whole seconds.
  unfoldable pub nsnow : Thread Group S → ℕ
  nsnow t = (t.clock % 1000000000 + (t.clock / 1000000000 * 1000000000) % u64_mod) % u64_mod

  unfoldable pub stamp : Thread Group S → Thread Group S
  unfolding nsnow stamped
  stamp t = set_tls G (record t.tls { deadline = stamped (nsnow t) t.tls.deadline }) t
