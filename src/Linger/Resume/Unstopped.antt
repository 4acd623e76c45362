-- ===== src/Linger/Resume/Unstopped.antt =====
-- src/linger.rs: a budget alone does not stop a function.
use libinger.Base.{
  ℕ, ◌+◌, ◌*◌, ◌≤◌, ◌≡◌, refl, true, false, inl, some, none, Bool, List, [], Result, ok, err,
  Ensures, Allows, Option, Ensures-Allows, Safe-Ensures,
}
use libinger.Gotcha.{Gotcha}
use libinger.Machine.{ThdResult, Action, PreemptionSignal, Thread, Tls, Event}
use libinger.Preemption.Setup.{Answers}
use libinger.Linger.Invariant.Due.{instructions, ends_within}
use libinger.Linger.Invariant.Unstopped.{yields, Silent}
use libinger.Linger.Switch.{Switched, switch_stack}
use libinger.Linger.Switch.Through.{Comes}
use libinger.Linger.Switch.Safe.{Okay, switch_stack-Fresh, switch_stack-paused}
use libinger.Linger.Switch.Unstopped.{
  IsFinished, switch_stack-Fresh-IsFinished, switch_stack-paused-IsFinished,
}
use libinger.Linger.Resume.{
  Continuation, continuation, is_continuation, Resumed, resume, switched, collected, finish_call,
}
use libinger.Linger.Resume.Valid.{no_faults, Idle, Valid, Post, switched-Post}
use libinger.Linger.Resume.Through.{resume-Through}

module _ {Group : Type 0} (G : Gotcha Group) {S T : Type 0} (next : S → Action S T) (g : Group)
    (p : PreemptionSignal) (start : S) (private : G.is_shared g ≡ false)
    (steady : (s : S) → yields (next s) ≡ false) where
  abbrev IsOver : Resumed Group S T → Type 0
  IsOver r = is_continuation r.linger ≡ false

  finish_call-IsOver :
      (c : Continuation Group S T) (o : Option (ThdResult T)) (t : Thread Group S)
      (rest : List Event)
      → Allows IsOver (finish_call G next c o t rest)
  unfolding finish_call
  finish_call-IsOver c none t rest = tt
  finish_call-IsOver c (some (ok v)) t rest = refl
  finish_call-IsOver c (some (err e)) t rest = refl

  collected-IsOver :
      (b : Bool) (c : Continuation Group S T) (t : Thread Group S) (rest : List Event)
      → b ≡ true
      → Allows IsOver (collected G next b c t rest)
  unfolding collected
  collected-IsOver true c t rest e = finish_call-IsOver c _ t rest
  collected-IsOver false c t rest e = cc

  module _ (n : ℕ) (es : List Event) (silent : Silent es) (ends : ends_within next n start ≡ true)
      (enough : n * 3 + 2 ≤ instructions es) where
    abbrev Finished : Switched G next → Type 0
    Finished = IsFinished G next g p start private steady n es silent ends enough

    switched-IsOver :
        (c : Continuation Group S T) (parent : Tls Group S) (t : Thread Group S)
        (r : Result (Switched G next) ℕ)
        → Comes G next Finished r
        → Allows IsOver (switched G next c parent t es r)
    unfolding switched
    switched-IsOver c parent t (err e) d = absurd d
    switched-IsOver c parent t (ok s) d = collected-IsOver s.finished _ _ s.rest d

  -- `resume` with any budget, 0 among them, on a continuation whose function has not begun or is
  -- paused, having begun with the thread's signal, where the operating system fails no call, no
  -- signal is waiting at the call and none arrives, for a function that never yields and finishes
  -- within `n` steps when it is left alone, and events with at least `3 * n + 2` instructions of
  -- the processor among them: the call returns without a panic, an abort or undefined behaviour,
  -- and the function is not paused, but has finished with the value or the panic that it has when
  -- it is called and left alone.
  pub resume_unstopped :
      (a : Answers) (us n : ℕ) (c : Continuation Group S T) (t : Thread Group S) (es : List Event)
      → Valid G next g p start private c
      → Idle G next g p start private a t
      → t.pending ≡ []
      → Silent es
      → ends_within next n start ≡ true
      → n * 3 + 2 ≤ instructions es
      → Ensures
          (λ r. Post G next g p start private t.tls r × (is_continuation r.linger ≡ false))
          (resume G next (no_faults a) (continuation c) us t es)
  resume_unstopped a us n c t es v i q silent ends enough =
      resume-Through G next g p start private ⊥ es a us (λ now mask ps. ps ≡ [])
        (λ now mask ps e. e) (λ r. Okay G next g p start private r × Comes G next Done r)
        (λ r. Post G next g p start private t.tls r × IsOver r) t.tls
        (λ m task b f d s.
          Safe-Ensures (Okay G next g p start private) (Comes G next Done)
            (switch_stack G next none task g m es)
            (switch_stack-Fresh G next g p start private (Unit {0}) es (inl tt) m task b f)
            (switch_stack-Fresh-IsFinished G next g p start private steady n es silent ends enough m
              task b f s))
        (λ m task b x d s.
          Safe-Ensures (Okay G next g p start private) (Comes G next Done)
            (switch_stack G next none task g m es)
            (switch_stack-paused G next g p start private (Unit {0}) es (inl tt) m task b x)
            (switch_stack-paused-IsFinished G next g p start private steady n es silent ends enough
              m task b x s))
        (λ c t' r j (o, d).
          Ensures-Allows (Post G next g p start private t.tls) IsOver
            (switched G next c t.tls t' es r)
            (switched-Post G next g p start private c t.tls t' es r j o)
            (switched-IsOver n es silent ends enough c t.tls t' r d))
        c t refl v i q
    where
      Done : Switched G next → Type 0
      Done = IsFinished G next g p start private steady n es silent ends enough
