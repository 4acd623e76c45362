-- ===== src/Linger/Resume.antt =====
-- src/linger.rs: `Linger`, `resume` and `launch`, and the drop of a continuation. Which calls of the
-- operating system fail, and how, is given.
pub mod Valid
pub mod Value
pub mod Sessions
pub mod Failure
pub mod Through
pub mod Budget
pub mod Overdue
pub mod Unstopped
use libinger.Base.{
  ◌≡◌, refl, ℕ, Bool, true, false, Option, none, some, is_some, List, Result, ok, err, Exec,
  returns, panics, aborts, ◌>>=◌, ◌==◌, if◌then◌else◌,
}
use libinger.Gotcha.{Gotcha}
use libinger.Machine.{
  ThdResult, Action, Completion, function, return_value, empty, Control, call_site, entry, Context,
  Task, default_task, Tls, RealThreadId, real_thread, Thread, Machine, Event,
}
use libinger.Preemption.{set_tls}
use libinger.Preemption.Setup.{Answers, thread_setup}
use libinger.Linger.Switch.{Switched, switch_stack}

-- `tls` is the thread-control block of the function: its thread-local variables.
pub record Continuation (Group S T : Type 0) : Type 0 where
  pub functional : Completion S T
  pub stateful : Task Group S
  pub group : Group
  pub tls : Option (Tls Group S)

pub data Linger (Group S T : Type 0) : Type 0 where
  completion : T → Linger Group S T
  continuation : Continuation Group S T → Linger Group S T
  poison : Linger Group S T

abbrev pub is_completion : {Group S T : Type 0} → Linger Group S T → Bool
is_completion (completion v) = true
is_completion (continuation c) = false
is_completion poison = false

abbrev pub is_continuation : {Group S T : Type 0} → Linger Group S T → Bool
is_continuation (completion v) = false
is_continuation (continuation c) = true
is_continuation poison = false

abbrev pub yielded : {Group S T : Type 0} → Linger Group S T → Bool
yielded (completion v) = false
yielded (continuation c) = c.stateful.yielded
yielded poison = false

-- What the operating system answers during a call of `resume`: the errors of the installation of the
-- thread-control block, of the making of a stack and of the jump to it, and those in the set-up
-- of the thread.
pub record Faults : Type 0 where
  pub install : Option ℕ
  pub setup : Answers
  pub stack : Option ℕ
  pub switch : Option ℕ

-- How a call leaves: by `Ok`, by an error of the operating system, or by the function's own panic.
pub data Reply : Type 0 where
  done : Reply
  failed : ℕ → Reply
  unwinds : ℕ → Reply

-- `dropped` is the continuation that a completion or a panic takes the place of.
pub record Resumed (Group S T : Type 0) : Type 0 where
  pub reply : Reply
  pub linger : Linger Group S T
  pub dropped : Option (Continuation Group S T)
  pub thread : Thread Group S
  pub rest : List Event

module _ {Group : Type 0} (G : Gotcha Group) {S T : Type 0} (next : S → Action S T) where
  -- An early return drops the guard, which puts the caller's block back and frees the function's.
  unfoldable pub lost :
      ℕ → Continuation Group S T → Tls Group S → Thread Group S → List Event → Resumed Group S T
  lost e c parent t es = record {
    reply = failed e;
    linger = continuation (record c { tls = none });
    dropped = none;
    thread = set_tls G parent t;
    rest = es;
  }

  -- The value that the closure's second call stores, if any. A closure whose function has not run
  -- would run it now, and store nothing.
  abbrev pub retrieved : Completion S T → Option (ThdResult T)
  retrieved (function s) = none
  retrieved (return_value v) = some v
  retrieved empty = none

  unfoldable pub finish_call :
      Continuation Group S T
      → Option (ThdResult T)
      → Thread Group S
      → List Event
      → Exec (Resumed Group S T)
  finish_call c none t es = panics
  finish_call c (some (ok v)) t es = returns (record {
    reply = done;
    linger = completion v;
    dropped = some (record c { functional = empty });
    thread = t;
    rest = es;
  })
  finish_call c (some (err e)) t es = returns (record {
    reply = unwinds e;
    linger = poison;
    dropped = some (record c { functional = empty });
    thread = t;
    rest = es;
  })

  -- From the return of `switch_stack` on.
  unfoldable pub collected :
      Bool → Continuation Group S T → Thread Group S → List Event → Exec (Resumed Group S T)
  unfolding finish_call
  collected true c t es = finish_call c (retrieved c.functional) t es
  collected false c t es =
      returns
        (record { reply = done; linger = continuation c; dropped = none; thread = t; rest = es })

  unfoldable pub switched :
      Continuation Group S T
      → Tls Group S
      → Thread Group S
      → List Event
      → Result (Switched G next) ℕ
      → Exec (Resumed Group S T)
  unfolding lost collected
  switched c parent t es (err e) =
      returns (lost e (record c { stateful = record c.stateful { checkpoint = none } }) parent t es)
  switched c parent t es (ok s) =
      collected s.finished
        (record c {
          functional = s.machine.fun;
          stateful = s.task;
          tls = some s.machine.thread.tls;
        })
        (set_tls G parent s.machine.thread) s.rest

  -- From the setting of the deadline on.
  unfoldable pub call_on :
      Faults
      → ℕ
      → Continuation Group S T
      → Tls Group S
      → Thread Group S
      → List Event
      → Exec (Resumed Group S T)
  unfolding switched
  call_on faults us c parent t es =
      let m : Machine Group S T = record {
        thread = set_tls G (record t.tls { deadline = us }) t;
        control = call_site;
        fun = c.functional;
      } in
      switch_stack G next faults.switch c.stateful c.group m es >>= λ r.
      switched c parent m.thread es r

  -- A first launch: `setup_stack` makes the checkpoint, with the mask of now, and the closure is left for
  -- `schedule`.
  abbrev pub with_stack : Continuation Group S T → Thread Group S → Continuation Group S T
  with_stack c t =
      let made : Context Group S = record { control = entry; sigmask = t.mask } in
      record c { stateful = record c.stateful { checkpoint = some made } }

  abbrev pub with_bootstrap : Continuation Group S T → Thread Group S → Thread Group S
  with_bootstrap c t = set_tls G (record t.tls { bootstrap = some c.group }) t

  unfoldable pub launched :
      Faults
      → ℕ
      → Continuation Group S T
      → Tls Group S
      → Thread Group S
      → List Event
      → Option ℕ
      → Exec (Resumed Group S T)
  unfolding lost call_on
  launched faults us c parent t es (some e) = returns (lost e c parent t es)
  launched faults us c parent t es none =
      call_on faults us (with_stack c t) parent (with_bootstrap c t) es

  -- From the return of `setup_thread` on; the last argument is the errno of the task.
  unfoldable pub begun :
      Faults
      → ℕ
      → Continuation Group S T
      → Tls Group S
      → Thread Group S
      → List Event
      → Option ℕ
      → Exec (Resumed Group S T)
  unfolding launched call_on
  begun faults us c parent t es none = launched faults us c parent t es faults.stack
  begun faults us c parent t es (some erryes) = call_on faults us c parent t es

  abbrev pub set_up :
      Faults
      → ℕ
      → Continuation Group S T
      → Tls Group S
      → List Event
      → Result (Unit {0}) ℕ × Thread Group S
      → Exec (Resumed Group S T)
  set_up faults us c parent es (err e, t) = aborts
  set_up faults us c parent es (ok _, t) = begun faults us c parent t es c.stateful.errno

  unfoldable pub installed :
      Faults
      → ℕ
      → Continuation Group S T
      → Thread Group S
      → List Event
      → Tls Group S
      → Option ℕ
      → Exec (Resumed Group S T)
  unfolding lost
  installed faults us c t es tls (some e) = returns (lost e c t.tls t es)
  installed faults us c t es tls none =
      thread_setup G real_thread faults.setup (set_tls G tls t) >>= λ r.
      set_up faults us c t.tls es r

  unfoldable pub continued :
      Faults
      → ℕ
      → Continuation Group S T
      → Thread Group S
      → List Event
      → Option (Tls Group S)
      → Exec (Resumed Group S T)
  unfolding installed
  continued faults us c t es none = panics
  continued faults us c t es (some tls) = installed faults us c t es tls faults.install

  unfoldable pub resume :
      Faults → Linger Group S T → ℕ → Thread Group S → List Event → Exec (Resumed Group S T)
  unfolding continued
  resume faults (completion v) us t es =
      returns
        (record { reply = done; linger = completion v; dropped = none; thread = t; rest = es })
  resume faults (continuation c) us t es = continued faults us c t es c.tls
  resume faults poison us t es =
      returns (record { reply = done; linger = poison; dropped = none; thread = t; rest = es })

  -- `launch`, with the group and the block that the pools give it.
  abbrev pub fresh : S → Group → Option (Tls Group S) → Continuation Group S T
  fresh fun g tls = record {
    functional = function fun;
    stateful = default_task;
    group = g;
    tls = tls;
  }

  unfoldable pub launch :
      Faults
      → Option Group
      → Option (Tls Group S)
      → S
      → ℕ
      → Thread Group S
      → List Event
      → Exec (Resumed Group S T)
  unfolding resume
  launch faults none tls fun us t es = panics
  launch faults (some g) tls fun us t es =
      let linger : Linger Group S T = continuation (fresh fun g tls) in
      if us == 0
      then returns (record { reply = done; linger = linger; dropped = none; thread = t; rest = es })
      else resume faults linger us t es

-- `Linger::erase`, which changes the type alone: the fields are read one by one.
unfoldable pub erase : {Group S T : Type 0} → Linger Group S T → Linger Group S T
erase (completion this) = completion this
erase (continuation this) = continuation (record {
  functional = this.functional;
  stateful = this.stateful;
  group = this.group;
  tls = this.tls;
})
erase poison = poison

pub erase_lem : {Group S T : Type 0} (l : Linger Group S T) → erase l ≡ l
unfolding erase
erase_lem (completion v) = refl
erase_lem (continuation c) = refl
erase_lem poison = refl

-- The drop of a continuation: whether the group is renewed, if the renewal works; else it panics.
unfoldable pub drop_continuation :
    {Group S T : Type 0} → (Group → Bool) → Continuation Group S T → Exec Bool
drop_continuation renew c =
    if is_some c.stateful.errno
    then (if renew c.group then returns true else panics)
    else returns false
