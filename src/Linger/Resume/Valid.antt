-- ===== src/Linger/Resume/Valid.antt =====
-- src/linger.rs: continuations that can be resumed, and how a call of `resume` may leave them.
use libinger.Base.{
  Bool, if◌then◌else◌, is_some, returns, panics, subst, ap, Option, ℕ, true, false, ◌≡◌, refl, none,
  some, List, inl, inr, ◌⊎◌, Result, ok, err, Ensures, arith,
}
use libinger.Gotcha.{Gotcha}
use libinger.Machine.{
  empty, ThdResult, Action, function, PreemptionSignal, Thread, Tls, default_task, Event,
}
use libinger.Preemption.Setup.{Answers}
use libinger.Linger.Invariant.{Paused, Finishes}
use libinger.Linger.Switch.{Switched}
use libinger.Linger.Switch.Safe.{Okay}
use libinger.Linger.Resume.{
  Continuation, Linger, completion, continuation, poison, Faults, Reply, done, failed, unwinds,
  Resumed, drop_continuation, finish_call, retrieved, collected, switched,
}

-- The set-up of a thread works, and gives it the signal and the timer of `p`.
abbrev pub answers : PreemptionSignal → Answers
answers p = record {
  assigned = some p.signal;
  sigaction = none;
  timer_create = ok p.timer;
  timer_settime = none;
}

abbrev pub no_faults : Answers → Faults
no_faults a = record { install = none; setup = a; stack = none; switch = none }

module _ {Group : Type 0} (G : Gotcha Group) {S T : Type 0} (next : S → Action S T) (g : Group)
    (p : PreemptionSignal) (start : S) (private : G.is_shared g ≡ false) where
  -- A thread that has been set up, outside every timed function.
  pub record SetUp (t : Thread Group S) : Type 0 where
    pub own : t.signaler ≡ some p
    pub masked : t.mask p.signal ≡ true
    pub shared : t.group ≡ G.shared

  -- A thread outside every timed function that is set up, or will be.
  abbrev pub Idle : Answers → Thread Group S → Type 0
  Idle a t = SetUp t ⊎ ((t.signaler ≡ none) × (a ≡ answers p) × (t.group ≡ G.shared))

  -- A continuation between two calls of `resume`: its function has not begun, or is paused.
  pub record Valid (c : Continuation Group S T) : Type 0 where
    pub block : Tls Group S
    pub tls : c.tls ≡ some block
    pub group : c.group ≡ g
    pub prompt : block.deferred ≡ false
    pub booted : block.bootstrap ≡ none
    pub idle : block.task ≡ default_task
    pub state :
        ((c.stateful.errno ≡ none)
          × (c.stateful.checkpoint ≡ none)
          × (c.functional ≡ function start))
        ⊎ Paused G next g p start (record block { task = c.stateful }) c.functional

  -- How a call may leave the function.
  abbrev pub Outcome : Reply → Linger Group S T → Type 0
  Outcome done (continuation c) = Valid c
  Outcome done (completion v) = Finishes next start (ok v)
  Outcome done poison = ⊥
  Outcome (unwinds e) poison = Finishes next start (err e)
  Outcome (unwinds e) (continuation c) = ⊥
  Outcome (unwinds e) (completion v) = ⊥
  Outcome (failed e) l = ⊥

  -- A continuation that is dropped: not paused, and with its block as good as new.
  pub record Returned (c : Continuation Group S T) : Type 0 where
    pub block : Tls Group S
    pub tls : c.tls ≡ some block
    pub group : c.group ≡ g
    pub prompt : block.deferred ≡ false
    pub booted : block.bootstrap ≡ none
    pub idle : block.task ≡ default_task
    pub unpaused : c.stateful.errno ≡ none

  -- A function that is over leaves its continuation, and no other does.
  abbrev pub Dropped : Linger Group S T → Option (Continuation Group S T) → Type 0
  Dropped (continuation c) none = Unit {0}
  Dropped (continuation c) (some d) = ⊥
  Dropped (completion v) none = ⊥
  Dropped (completion v) (some d) = Returned d
  Dropped poison none = ⊥
  Dropped poison (some d) = Returned d

  pub record Post (parent : Tls Group S) (r : Resumed Group S T) : Type 0 where
    pub outcome : Outcome r.reply r.linger
    pub dropped : Dropped r.linger r.dropped
    pub thread : SetUp r.thread
    pub tls : r.thread.tls ≡ parent

  finish_call-Post :
      (c : Continuation Group S T) (parent : Tls Group S) (t : Thread Group S) (es : List Event)
      (v : ThdResult T) (o : Option (ThdResult T))
      → o ≡ some v
      → SetUp t
      → t.tls ≡ parent
      → Finishes next start v
      → Returned (record c { functional = empty })
      → Ensures (Post parent) (finish_call G next c o t es)
  unfolding finish_call
  finish_call-Post c parent t es v none h s e x r = cc
  finish_call-Post c parent t es v (some (ok w)) h s e x r =
      let same : v ≡ ok w = cc in
      record { outcome = subst (Finishes next start) same x; dropped = r; thread = s; tls = e }
  finish_call-Post c parent t es v (some (err w)) h s e x r =
      let same : v ≡ err w = cc in
      record { outcome = subst (Finishes next start) same x; dropped = r; thread = s; tls = e }

  pub switched-Post :
      (c : Continuation Group S T) (parent : Tls Group S) (t : Thread Group S) (es : List Event)
      (r : Result (Switched G next) ℕ)
      → c.group ≡ g
      → (d : Okay G next g p start private r)
      → Ensures (Post parent) (switched G next c parent t es r)
  unfolding switched collected
  switched-Post c parent t es (err e) i d = absurd d
  switched-Post c parent t es (ok s) i d = elim d.outcome [
    | inl (e, x) ↦ rw e (record {
      outcome = record {
        block = s.machine.thread.tls;
        tls = refl;
        group = i;
        prompt = d.left.prompt;
        booted = d.left.booted;
        idle = d.idle;
        state = inr x;
      };
      dropped = tt;
      thread = ground arith;
      tls = refl;
    })
    | inr (e, x) ↦ rw e (
        finish_call-Post
          (record c {
            functional = s.machine.fun;
            stateful = s.task;
            tls = some s.machine.thread.tls;
          })
          parent _ s.rest x.value (retrieved G next s.machine.fun) (ap (retrieved G next) x.result)
          (ground arith) refl x.finishes
          (record {
            block = s.machine.thread.tls;
            tls = refl;
            group = i;
            prompt = d.left.prompt;
            booted = d.left.booted;
            idle = d.idle;
            unpaused = x.unpaused;
          }))
  ]

-- The drop of a continuation whose group can be renewed does not panic.
pub drop-renews :
    {Group S T : Type 0} (renew : Group → Bool) (c : Continuation Group S T)
    → ((h : Group) → renew h ≡ true)
    → Ensures (λ b. Unit {0}) (drop_continuation renew c)
unfolding drop_continuation
drop-renews renew c r =
    elim (is_some c.stateful.errno)
      as (λ b.
        Ensures (λ x. Unit {0})
          (if b then (if renew c.group then returns true else panics) else returns false)) [
            | true ↦ rw (r c.group) tt
            | false ↦ tt
          ]
