-- ===== src/Signals/Assignment.antt =====
-- src/signals.rs over time: which signals are out.
use mathlib.Core.Logic.Or
use mathlib.Core.List.{Mem, Nodup, Perm, Nodup-cons, Nodup-nil, Nodup-append, mem-cons, not-mem-nil}
use mathlib.Core.List.Perm
use libinger.Base.{
  ℕ, suc, ◌+◌, ◌%◌, ◌<◌, ◌≤◌, ◌≡◌, refl, Bool, true, false, not, ◌&&◌, ◌||◌, Option, List, [], ◌∷◌,
  ◌++◌, length, get_elem?, take, take-suc, take_stop, ◌==◌, ==_refl, arith, returns, subst,
  Option-cases, inl, inr, ap, err, length-append, length-take_le, take_rest, perm-length,
}
use libinger.Reusable.{Mutex, PoisonError, mutex, Pool, new, try_from}
use libinger.Reusable.History.{
  Call, Client, Accounts, Lasts, run, run-Accounts, list_of, try_from-err,
}
use libinger.Signal.{Signal, number}
use libinger.Signals.{notification_signals, next_signal, usize_mod}

-- The signals that the builder has made when its counter stands at `free`.
abbrev pub made : ℕ → List Signal
made free = take free notification_signals

-- The counter does not wrap around within `n` calls.
abbrev pub Good : ℕ → ℕ → Type 0
Good n free = free + n < usize_mod

next_signal-grows :
    (free : ℕ) → Perm (made (suc free)) (list_of (get_elem? notification_signals free) ++ made free)
next_signal-grows free = elim (Option-cases (get_elem? notification_signals free)) [
  | inl e ↦ let (p, q) = take_stop free notification_signals e in rw (e, p, q) Perm.rfl
  | inr (s, e) ↦ rw e (take-suc free notification_signals e)
]

next-counter : (n free : ℕ) → Good (suc n) free → (free + 1) % usize_mod ≡ suc free
next-counter n free g = omega arith

pub next_signal-Lasts : Lasts next_signal made Good
unfolding next_signal
next_signal-Lasts = record {
  grows = λ n w g. rw (next-counter n w g) (next_signal-grows w);
  spends = λ n w g. rw (next-counter n w g) (omega arith);
  waits = λ n w g. omega arith;
}

-- A test for a list without repetitions, by the signals' numbers.
has : ℕ → List Signal → Bool
has n [] = false
has n (s ∷ ss) = n == number s || has n ss

distinct : List Signal → Bool
distinct [] = true
distinct (s ∷ ss) = not (has (number s) ss) && distinct ss

mem-has : (s : Signal) (ss : List Signal) → Mem s ss → has (number s) ss ≡ true
unfolding has
mem-has s [] m = absurd (not-mem-nil m)
mem-has s (t ∷ ss) m =
    Or.elim (hlevel) (mem-cons.0 m) (λ e. rw (e, ==_refl (number t)))
      (λ k. ground (arith, mem-has s ss k))

distinct-Nodup : (ss : List Signal) → distinct ss ≡ true → Nodup ss
unfolding distinct
distinct-Nodup [] d = Nodup-nil
distinct-Nodup (s ∷ ss) d =
    Nodup-cons.1 (λ m. ground (arith, mem-has s ss m), distinct-Nodup ss (ground arith))

notification_signals-Nodup : Nodup notification_signals
unfolding distinct has number
notification_signals-Nodup = distinct-Nodup notification_signals refl

-- The pool before its first call, with no signal out.
abbrev pub fresh : Client (Mutex Signal) Signal ℕ
fresh = record { pool = new mutex next_signal 0; held = [] }

pub fresh-Accounts : Accounts mutex next_signal made fresh
unfolding new
fresh-Accounts = record { free = []; opens = refl; owned = Perm.rfl }

-- What is held of the signals made so far.
module _ {d : Client (Mutex Signal) Signal ℕ} (a : Accounts mutex next_signal made d) where
  held-Nodup : Nodup d.held
  held-Nodup =
      let (rest, e) = take_rest d.pool.builder notification_signals in
      let all : Nodup (made d.pool.builder ++ rest) = rw (← e) notification_signals-Nodup in
      (Nodup-append.0 (Perm.nodup (Perm.symm a.owned) (Nodup-append.0 all).0)).0

  held-length : length d.held ≤ 16
  held-length = omega (
    arith,
    perm-length a.owned,
    length-append d.held a.free,
    length-take_le d.pool.builder notification_signals,
  )

all_out :
    (d : Client (Mutex Signal) Signal ℕ) (e : Option PoisonError) (q : Pool (Mutex Signal) ℕ)
    → Accounts mutex next_signal made d
    → try_from mutex next_signal d.pool ≡ (err e, q)
    → length d.held ≡ 16
unfolding next_signal
all_out d e q a t =
    let (_, nothing, stop) = try_from-err mutex next_signal d.pool a.free e q a.opens t in
    omega (
      arith,
      perm-length a.owned,
      length-append d.held a.free,
      ap length nothing,
      ap length (take_stop d.pool.builder notification_signals stop).1,
    )

-- After any history of fewer than 2^64 acquisitions and drops on the fresh pool of signals, none of
-- which panics, the signals that are out are pairwise different and are at most 16.
pub run-fresh_distinct :
    (xs : List Call)
    → length xs < usize_mod
    → (d : Client (Mutex Signal) Signal ℕ) × (run mutex next_signal fresh xs ≡ returns d)
      × Nodup d.held
      × (length d.held ≤ 16)
unfolding new
run-fresh_distinct xs h =
    let (d, r, a) =
      run-Accounts mutex next_signal made Good next_signal-Lasts xs fresh fresh-Accounts
        (omega arith) in
    (d, r, held-Nodup a, held-length a)

-- After such a history a further acquisition is refused only if all 16 signals are out.
pub run-fresh_refused :
    (xs : List Call) (d : Client (Mutex Signal) Signal ℕ) (e : Option PoisonError)
    (q : Pool (Mutex Signal) ℕ)
    → length xs < usize_mod
    → run mutex next_signal fresh xs ≡ returns d
    → try_from mutex next_signal d.pool ≡ (err e, q)
    → length d.held ≡ 16
unfolding new
run-fresh_refused xs d e q h r t =
    let (c, s, a) =
      run-Accounts mutex next_signal made Good next_signal-Lasts xs fresh fresh-Accounts
        (omega arith) in
    let same : c ≡ d = cc in all_out d e q (subst (Accounts mutex next_signal made) same a) t
