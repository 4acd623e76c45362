-- ===== src/Future.antt =====
-- src/future.rs: the `poll` of a preemptible future. Whether the channel to the timed function has room
-- is given; where it has none, `send` blocks.
pub mod Polls
pub mod Channel
pub mod Begins
pub mod Within
pub mod Blocked
use libinger.Base.{
  ℕ, Bool, true, false, not, Option, none, some, List, Result, ok, err, Exec, returns, panics,
  runs_on, ◌>>=◌,
}
use libinger.Gotcha.{Gotcha}
use libinger.Machine.{Action, Thread, Event}
use libinger.Linger.Resume.{
  Linger, completion, continuation, poison, yielded, Faults, Reply, done, failed, unwinds, Resumed,
  resume, drop_continuation,
}

pub data Poll (T : Type 0) : Type 0 where
  ready : Result T ℕ → Poll T
  pending : Poll T

pub record PreemptiveFuture (Group S T : Type 0) : Type 0 where
  pub fun : Option (Linger Group S T)
  pub us : ℕ

-- What a poll leaves, with whether it woke its task.
pub record Polled (Group S T : Type 0) : Type 0 where
  pub poll : Poll T
  pub woken : Bool
  pub future : PreemptiveFuture Group S T
  pub thread : Thread Group S
  pub rest : List Event

module _ {Group S T : Type 0} where
  -- From the return of `resume` by `Ok` on: the function goes back into the future.
  unfoldable pub kept : Linger Group S T → ℕ → Thread Group S → List Event → Polled Group S T
  kept (completion v) us t es = record {
    poll = ready (ok v);
    woken = false;
    future = record { fun = none; us = us };
    thread = t;
    rest = es;
  }
  kept (continuation c) us t es = record {
    poll = pending;
    woken = not (yielded (continuation c));
    future = record { fun = some (continuation c); us = us };
    thread = t;
    rest = es;
  }
  kept poison us t es = record {
    poll = pending;
    woken = true;
    future = record { fun = some poison; us = us };
    thread = t;
    rest = es;
  }

  -- On an error the function is dropped.
  unfoldable pub drop_fun : (Group → Bool) → Linger Group S T → Exec Bool
  unfolding drop_continuation
  drop_fun renew (continuation c) = drop_continuation renew c
  drop_fun renew (completion v) = returns false
  drop_fun renew poison = returns false

  unfoldable pub resumed :
      (Group → Bool)
      → ℕ
      → Reply
      → Linger Group S T
      → Thread Group S
      → List Event
      → Exec (Polled Group S T)
  unfolding kept drop_fun
  resumed renew us done l t es = returns (kept l us t es)
  resumed renew us (failed e) l t es = drop_fun renew l >>= λ renewed. returns (record {
    poll = ready (err e);
    woken = false;
    future = record { fun = none; us = us };
    thread = t;
    rest = es;
  })
  resumed renew us (unwinds e) l t es = panics

  -- Without a function it is pending for good.
  abbrev pub idle : ℕ → Thread Group S → List Event → Polled Group S T
  idle us t es = record {
    poll = pending;
    woken = false;
    future = record { fun = none; us = us };
    thread = t;
    rest = es;
  }

module _ {Group : Type 0} (G : Gotcha Group) {S T : Type 0} (next : S → Action S T) where
  unfoldable pub poll_taken :
      Faults
      → (Group → Bool)
      → Bool
      → ℕ
      → Option (Linger Group S T)
      → Thread Group S
      → List Event
      → Exec (Polled Group S T)
  unfolding resumed
  poll_taken faults renew room us none t es = returns (idle us t es)
  poll_taken faults renew false us (some l) t es = runs_on
  poll_taken faults renew true us (some l) t es =
      resume G next faults l us t es >>= λ r. resumed renew us r.reply r.linger r.thread r.rest

  unfoldable pub poll :
      Faults
      → (Group → Bool)
      → Bool
      → PreemptiveFuture Group S T
      → Thread Group S
      → List Event
      → Exec (Polled Group S T)
  unfolding poll_taken
  poll faults renew room f t es = poll_taken faults renew room f.us f.fun t es
