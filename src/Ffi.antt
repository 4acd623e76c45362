-- ===== src/Ffi.antt =====
-- src/ffi.rs: the C interface. A panic of the timed function leaves `launch` or `resume` by unwinding,
-- as it does in src/linger.rs.
pub mod Calls
use libinger.Base.{
  ℕ, Bool, true, Option, none, some, List, Result, Exec, returns, panics, aborts, ◌>>=◌,
}
use libinger.Gotcha.{Gotcha}
use libinger.Machine.{Action, Tls, Thread, Event}
use libinger.Linger.Resume.{
  Linger, completion, continuation, poison, is_completion, is_continuation, Faults, Reply, done,
  failed, unwinds, Resumed, resume, launch, drop_continuation,
}

-- The `Linger` of the C interface.
pub record Timed (Group S : Type 0) : Type 0 where
  pub is_complete : Bool
  pub continuation : Linger Group S (Unit {0})

-- What a call leaves: the caller's structure, the thread, and the events that are left.
pub record Called (Group S : Type 0) : Type 0 where
  pub timed : Timed Group S
  pub thread : Thread Group S
  pub rest : List Event

module _ {Group S : Type 0} where
  -- The structure made anew from a continuation.
  abbrev pub of_linger : Linger Group S (Unit {0}) → Timed Group S
  of_linger l = record { is_complete = is_completion l; continuation = l }

  -- Both `launch` and `resume` abort on an error.
  unfoldable pub outcome : Reply → Resumed Group S (Unit {0}) → Exec (Called Group S)
  outcome done r = returns (record { timed = of_linger r.linger; thread = r.thread; rest = r.rest })
  outcome (failed e) r = aborts
  outcome (unwinds e) r = panics

  -- Assigning the completion drops the continuation.
  unfoldable pub cancelled :
      (Group → Bool) → Timed Group S → Linger Group S (Unit {0}) → Exec (Timed Group S)
  unfolding drop_continuation
  cancelled renew timed (continuation c) = drop_continuation renew c >>= λ renewed.
      returns (record { is_complete = true; continuation = completion tt })
  cancelled renew timed (completion v) = returns timed
  cancelled renew timed poison = returns timed

  unfoldable pub cancel : (Group → Bool) → Option (Timed Group S) → Exec (Timed Group S)
  unfolding cancelled
  cancel renew none = aborts
  cancel renew (some timed) = cancelled renew timed timed.continuation

module _ {Group : Type 0} (G : Gotcha Group) {S : Type 0} (next : S → Action S (Unit {0})) where
  unfoldable pub launch_call :
      Faults
      → Option Group
      → Option (Tls Group S)
      → S
      → ℕ
      → Thread Group S
      → List Event
      → Exec (Called Group S)
  unfolding outcome
  launch_call faults group tls fun us t es =
      launch G next faults group tls fun us t es >>= λ r. outcome r.reply r

  unfoldable pub resume_call :
      Faults → Option (Timed Group S) → ℕ → Thread Group S → List Event → Exec (Called Group S)
  unfolding outcome
  resume_call faults none us t es = aborts
  resume_call faults (some timed) us t es =
      resume G next faults timed.continuation us t es >>= λ r. outcome r.reply r
