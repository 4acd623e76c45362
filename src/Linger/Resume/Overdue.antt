-- ===== src/Linger/Resume/Overdue.antt =====
-- src/linger.rs: `resume` comes back by the first preemption signal after the budget, whatever the
-- function does.
use libinger.Base.{
  Safe-Ensures, ℕ, ◌+◌, ◌*◌, ◌≤◌, ◌<◌, ◌≡◌, refl, some, none, inl, List, ◌++◌, length, Result, ok,
  err, Option, Ensures, Allows, Ensures-Allows, Bool, true, false,
}
use libinger.Gotcha.{Gotcha}
use libinger.Signal.{Signal}
use libinger.Signal.Set.{Sigset}
use libinger.Machine.{ThdResult, Action, PreemptionSignal, Thread, Tls, Event}
use libinger.Preemption.Setup.{Answers}
use libinger.Linger.Clock.{u64_mod}
use libinger.Linger.Run.Pending.{Quiet, Unique, Quiet-block}
use libinger.Linger.Invariant.Due.{instructions}
use libinger.Linger.Invariant.Spends.{elapsed}
use libinger.Linger.Invariant.Overdue.Runs.{slice}
use libinger.Linger.Switch.{Switched, switch_stack}
use libinger.Linger.Switch.Through.{Comes}
use libinger.Linger.Switch.Safe.{Okay, switch_stack-Fresh, switch_stack-paused}
use libinger.Linger.Switch.Overdue.{
  Still, LeavesAfter, switch_stack-Fresh-LeavesAfter, switch_stack-paused-LeavesAfter,
}
use libinger.Linger.Resume.{
  Continuation, continuation, Resumed, resume, switched, collected, finish_call,
}
use libinger.Linger.Resume.Valid.{no_faults, Idle, Valid, Post, switched-Post}
use libinger.Linger.Resume.Through.{resume-Through}

module _ {Group : Type 0} (G : Gotcha Group) {S T : Type 0} (next : S → Action S T) (g : Group)
    (p : PreemptionSignal) (start : S) (private : G.is_shared g ≡ false) where
  -- The events after the slice are left.
  abbrev pub Leaves : List Event → Resumed Group S T → Type 0
  Leaves after r = length after ≤ length r.rest

  finish_call-Leaves :
      (after : List Event) (c : Continuation Group S T) (o : Option (ThdResult T))
      (t : Thread Group S) (rest : List Event)
      → length after ≤ length rest
      → Allows (Leaves after) (finish_call G next c o t rest)
  unfolding finish_call
  finish_call-Leaves after c none t rest l = tt
  finish_call-Leaves after c (some (ok v)) t rest l = l
  finish_call-Leaves after c (some (err e)) t rest l = l

  switched-Leaves :
      (us n : ℕ) (before after : List Event) (long : us * 1000 ≤ n)
      (begun : 1 ≤ instructions before) (c : Continuation Group S T) (parent : Tls Group S)
      (t : Thread Group S) (es : List Event) (r : Result (Switched G next) ℕ)
      → Comes G next (LeavesAfter G next g p start private us n before after long begun) r
      → Allows (Leaves after) (switched G next c parent t es r)
  unfolding switched collected
  switched-Leaves us n before after long begun c parent t es (err e) d = absurd d
  switched-Leaves us n before after long begun c parent t es (ok s) d =
      by_outcome s.finished _ _ s.rest d
    where
      by_outcome :
          (b : Bool) (c : Continuation Group S T) (t : Thread Group S) (rest : List Event)
          → length after ≤ length rest
          → Allows (Leaves after) (collected G next b c t rest)
      by_outcome true c t rest l = finish_call-Leaves after c _ t rest l
      by_outcome false c t rest l = l

  -- `resume` with a budget of `us` microseconds, on a continuation whose function has not begun or
  -- is paused, having begun with the thread's signal, where the operating system fails no call:
  -- whatever the function does, even if it would never finish, and whatever the events are, if
  -- after some of them, with an instruction of the processor among these, as much time passes as
  -- the budget, the thread's preemption signal arrives, and the processor makes one more step, then
  -- `resume` has come back by then, and the events after that are left: preemption is off, the
  -- thread's own block and mask are in place, and the function is paused in a continuation that can
  -- be resumed again, or has finished with the value or the panic that it has when it is called and
  -- left alone. No signal that the thread's mask lets through is waiting at the call, none waits
  -- twice, and the clock, the time that passes in the events and the budget come to less than 2^64
  -- nanoseconds.
  pub resume-slice :
      (a : Answers) (us n : ℕ) (before after : List Event) (c : Continuation Group S T)
      (t : Thread Group S)
      → Valid G next g p start private c
      → Idle G next g p start private a t
      → us * 1000 ≤ n
      → 1 ≤ instructions before
      → Quiet t.mask t.pending
      → Unique t.pending
      → t.clock + elapsed (before ++ slice p n after) + us * 1000 < u64_mod
      → Ensures
          (λ r. Post G next g p start private t.tls r × (length after ≤ length r.rest))
          (resume G next (no_faults a) (continuation c) us t (before ++ slice p n after))
  resume-slice a us n before after c t v i long begun q u short =
      resume-Through G next g p start private ⊥ es a us Stays
        (λ now mask ps (k, l, m). (Quiet-block p.signal mask ps k, l, m))
        (λ r. Okay G next g p start private r × Comes G next Left r) Both t.tls
        (λ m task b f d s.
          Safe-Ensures (Okay G next g p start private) (Comes G next Left)
            (switch_stack G next none task g m es)
            (switch_stack-Fresh G next g p start private (Unit {0}) es (inl tt) m task b f)
            (switch_stack-Fresh-LeavesAfter G next g p start private us n before after long begun m
              task b f d s))
        (λ m task b x d s.
          Safe-Ensures (Okay G next g p start private) (Comes G next Left)
            (switch_stack G next none task g m es)
            (switch_stack-paused G next g p start private (Unit {0}) es (inl tt) m task b x)
            (switch_stack-paused-LeavesAfter G next g p start private us n before after long begun m
              task b x d s))
        (λ c t' r j (o, d).
          Ensures-Allows (Post G next g p start private t.tls) (Leaves after)
            (switched G next c t.tls t' es r)
            (switched-Post G next g p start private c t.tls t' es r j o)
            (switched-Leaves us n before after long begun c t.tls t' es r d))
        c t refl v i (q, u, short)
    where
      es : List Event
      es = before ++ slice p n after

      Stays : ℕ → Sigset → List Signal → Type 0
      Stays = Still G next g p start private us n before after long begun

      Left : Switched G next → Type 0
      Left = LeavesAfter G next g p start private us n before after long begun

      Both : Resumed Group S T → Type 0
      Both r = Post G next g p start private t.tls r × (length after ≤ length r.rest)
