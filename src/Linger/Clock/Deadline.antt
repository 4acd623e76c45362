-- ===== src/Linger/Clock/Deadline.antt =====
-- src/linger.rs: what deadline a budget comes to, and where it goes wrong.
use libinger.Base.{◌+◌, ◌-◌, ◌*◌, ◌<◌, ◌≤◌, ◌≡◌, ◌⊎◌, true, false, leb, arith}
use libinger.Gotcha.{Gotcha}
use libinger.Machine.{Thread}
use libinger.Linger.Clock.{u64_mod, stamped, nsnow, stamp}

module _ {Group : Type 0} (G : Gotcha Group) {S : Type 0} (t : Thread Group S) where
  -- Until the clock passes 2^64 nanoseconds after the epoch, `nsnow` reads it exactly.
  pub nsnow-clock : t.clock < u64_mod → nsnow G t ≡ t.clock
  unfolding nsnow
  nsnow-clock h = omega arith

  -- A budget whose end is a 64-bit time is counted exactly, from now and in nanoseconds.
  pub stamp-deadline :
      t.clock + t.tls.deadline * 1000 < u64_mod
      → (stamp G t).tls.deadline ≡ t.clock + t.tls.deadline * 1000
  unfolding stamp stamped
  stamp-deadline h = ground (arith, nsnow-clock (omega arith))

  -- With the budget `u64::MAX` the deadline is later than every time that `nsnow` can show, except the
  -- very last.
  pub stamp_unlimited :
      (later : Thread Group S)
      → t.tls.deadline ≡ u64_mod - 1
      → nsnow G later < u64_mod - 1
      → leb (stamp G t).tls.deadline (nsnow G later) ≡ false
  unfolding stamp stamped
  stamp_unlimited later u h = ground arith

  -- Other budgets that are too long are not unlimited but over at once: one that cannot be counted in
  -- nanoseconds, where the clock is later than its number, and one that can, but whose end is past
  -- 2^64 nanoseconds.
  pub stamp_expired :
      t.clock < u64_mod
      → ((u64_mod ≤ t.tls.deadline * 1000) × (t.tls.deadline ≤ t.clock))
        ⊎ ((t.tls.deadline * 1000 < u64_mod) × (u64_mod ≤ t.clock + t.tls.deadline * 1000))
      → leb (stamp G t).tls.deadline (nsnow G t) ≡ true
  unfolding stamp stamped
  stamp_expired h e = ground (arith, nsnow-clock h)
