-- ===== src/Tests/Pools.antt =====
-- The pools at concrete values.
use mathlib.Core.List.{Nodup, reverse}
use libinger.Base.{
  ℕ, zero, suc, ◌≡◌, ◌≤◌, refl, false, Option, none, some, List, [], ◌∷◌, length, ok, err, returns,
  panics, arith,
}
use libinger.Reusable.{Mutex, RefCell, mutex, ref_cell, Pool, Opens, new, try_from, drop, prealloc}
use libinger.Reusable.History.{Call, acquire, release, Client, Accounts, step, run, run-Accounts}
use libinger.Reusable.Handle.{Handle, deref, deref_mut, acquire_handle, drop_handle, deref-drop}
use libinger.Reusable.Prealloc.{prealloc_lem, prealloc_short}
use libinger.Signal.{Signal, alarm, virtual_alarm, hangup, child}
use libinger.Signals.{notification_signals, next_signal}
use libinger.Signals.Assignment.{
  made, Good, next_signal-Lasts, fresh, fresh-Accounts, run-fresh_distinct, run-fresh_refused,
}

abbrev signal_pool : List Signal → ℕ → Pool (Mutex Signal) ℕ
signal_pool vs free = record { allocated = record { poison = false; inner = vs }; builder = free }

abbrev history : List Call
history = acquire ∷ acquire ∷ release 1 ∷ acquire ∷ release 7 ∷ []

-- The alarm goes back, and is handed out again.
run-history :
    run mutex next_signal fresh history
    ≡ returns (record { pool = signal_pool [] 2; held = alarm ∷ virtual_alarm ∷ [] })
unfolding run step drop try_from next_signal new
run-history = refl

run-Accounts_example :
    (d : Client (Mutex Signal) Signal ℕ) × (run mutex next_signal fresh history ≡ returns d)
    × Accounts mutex next_signal made d
run-Accounts_example =
    run-Accounts mutex next_signal made Good next_signal-Lasts history fresh fresh-Accounts
      (unfold new in omega arith)

abbrev alarm_handle : Handle Signal
alarm_handle = record { value = some alarm }

deref-drop_example :
    (g gone next : Handle Signal) × (q s : Pool (Mutex Signal) ℕ) × (deref_mut
        (λ _. virtual_alarm)
        alarm_handle
      ≡ returns g)
    × (drop_handle mutex next_signal g (signal_pool [] 2) ≡ returns (gone, q))
    × (acquire_handle mutex next_signal q ≡ (ok next, s))
    × (deref next ≡ returns virtual_alarm)
    × Opens mutex next_signal s []
    × (s.builder ≡ 2)
    × (deref gone ≡ panics)
    × (deref_mut (λ _. virtual_alarm) gone ≡ panics)
    × (drop_handle mutex next_signal gone s ≡ panics)
deref-drop_example =
    deref-drop mutex next_signal alarm_handle alarm (λ _. virtual_alarm) (signal_pool [] 2) [] refl
      refl

-- A builder with three values and no more.
abbrev dispenser : ℕ → Option ℕ × ℕ
dispenser zero = (none, zero)
dispenser (suc n) = (some n, n)

abbrev stack_pool : Pool (RefCell ℕ) ℕ
stack_pool = record { allocated = record { borrowed = false; value = [] }; builder = 3 }

prealloc_example :
    (q : Pool (RefCell ℕ) ℕ) × (prealloc ref_cell dispenser stack_pool 2 ≡ returns (ok tt, q))
    × Opens ref_cell dispenser q (1 ∷ 2 ∷ [])
    × (q.builder ≡ 1)
prealloc_example =
    prealloc_lem ref_cell dispenser (2 ∷ 1 ∷ []) stack_pool 1 refl (2, refl, (1, refl, refl))

-- Two signals are left to assign, and the counter goes on past the end of the table.
prealloc_short_example :
    (q : Pool (Mutex Signal) ℕ) × (prealloc mutex next_signal (signal_pool [] 14) 5
      ≡ returns (err none, q))
    × Opens mutex next_signal q (child ∷ hangup ∷ [])
    × (q.builder ≡ 19)
unfolding next_signal
prealloc_short_example =
    prealloc_short mutex next_signal (hangup ∷ child ∷ []) (signal_pool [] 14) 16 19 2 refl
      (15, refl, (16, refl, refl)) (17, refl, (18, refl, (19, refl, refl)))

run-fresh_distinct_example :
    (d : Client (Mutex Signal) Signal ℕ) × (run mutex next_signal fresh history ≡ returns d)
    × Nodup d.held
    × (length d.held ≤ 16)
run-fresh_distinct_example = run-fresh_distinct history (omega arith)

abbrev acquisitions : ℕ → List Call
acquisitions zero = []
acquisitions (suc n) = acquire ∷ acquisitions n

abbrev all_out : Client (Mutex Signal) Signal ℕ
all_out = record { pool = signal_pool [] 16; held = reverse notification_signals }

run-fresh_refused_example : length all_out.held ≡ 16
unfolding run step drop try_from next_signal new
run-fresh_refused_example =
    run-fresh_refused (acquisitions 16) all_out none (signal_pool [] 17) (omega arith) refl refl
