-- ===== src/Linger/Resume/Value.antt =====
-- src/linger.rs: a timed function, resumed with any budgets through any events, has the value that it
-- would have alone.
use libinger.Base.{
  ℕ, ◌+◌, ◌*◌, ◌≤◌, true, false, ◌≡◌, refl, Meets-of_Ensures, List, inl, inr, ◌⊎◌, Ensures, Safe,
  Meets,
}
use libinger.Gotcha.{Gotcha}
use libinger.Machine.{Action, PreemptionSignal, Thread, Event}
use libinger.Preemption.Setup.{Answers}
use libinger.Linger.Switch.Safe.{Okay, switch_stack-Fresh, switch_stack-paused}
use libinger.Linger.Resume.{Continuation, continuation, resume}
use libinger.Linger.Invariant.Due.{instructions, ends_within, Enough}
use libinger.Linger.Resume.Valid.{no_faults, Idle, Valid, Post, switched-Post}
use libinger.Linger.Resume.Through.{resume-Through}

module _ {Group : Type 0} (G : Gotcha Group) {S T : Type 0} (next : S → Action S T) (g : Group)
    (p : PreemptionSignal) (start : S) (private : G.is_shared g ≡ false) where
  -- The events `es` have instructions enough, or else a run that they end is one that `R` holds of.
  resumed-Post :
      (R : Type 0) (es : List Event)
      → R ⊎ Enough G next g p start private es
      → (a : Answers) (us : ℕ) (c : Continuation Group S T) (t : Thread Group S)
      → Valid G next g p start private c
      → Idle G next g p start private a t
      → Meets R
          (Post G next g p start private t.tls)
          (resume G next (no_faults a) (continuation c) us t es)
  resumed-Post R es enough a us c t v i =
      resume-Through G next g p start private R es a us (λ now mask ps. Unit {0})
        (λ now mask ps s. s) (Okay G next g p start private) (Post G next g p start private t.tls)
        t.tls (λ m task b f d s. switch_stack-Fresh G next g p start private R es enough m task b f)
        (λ m task b x d s. switch_stack-paused G next g p start private R es enough m task b x)
        (λ c t' r k o.
          Meets-of_Ensures R (Post G next g p start private t.tls) _
            (switched-Post G next g p start private c t.tls t' es r k o))
        c t refl v i tt

  -- `resume` on a continuation whose function has not begun or is paused, having begun with the
  -- thread's signal, where the operating system fails no call: with any budget and through any
  -- events it does not panic, abort or run into undefined behaviour. If it comes back before the
  -- events end, preemption is off, the thread's own block and mask are in place, and the function
  -- is paused in a continuation that can be resumed again, or has finished: then the value of the
  -- completion, or the panic that is raised again, is the one that the function has when it is
  -- called and left alone.
  pub resume-Post :
      (a : Answers) (us : ℕ) (c : Continuation Group S T) (t : Thread Group S) (es : List Event)
      → Valid G next g p start private c
      → Idle G next g p start private a t
      → Safe
          (Post G next g p start private t.tls)
          (resume G next (no_faults a) (continuation c) us t es)
  resume-Post a us c t es v i = resumed-Post (Unit {0}) es (inl tt) a us c t v i

  -- `resume` on such a continuation and thread, with a function that finishes within `n` steps when it
  -- is left alone, comes back in any events that have at least `3 * n + 2` instructions of the
  -- processor among them, whatever the budget: preemption is off, the thread's own block and
  -- mask are in place, and the function is paused in a continuation that can be resumed again, or
  -- has finished with the value or the panic that it has when it is called and left alone.
  pub resume_returns :
      (a : Answers) (us n : ℕ) (c : Continuation Group S T) (t : Thread Group S) (es : List Event)
      → Valid G next g p start private c
      → Idle G next g p start private a t
      → ends_within next n start ≡ true
      → n * 3 + 2 ≤ instructions es
      → Ensures
          (Post G next g p start private t.tls)
          (resume G next (no_faults a) (continuation c) us t es)
  resume_returns a us n c t es v i e l = resumed-Post ⊥ es (inr (n, e, l)) a us c t v i
