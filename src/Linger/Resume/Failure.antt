-- ===== src/Linger/Resume/Failure.antt =====
-- src/linger.rs: `resume` where the operating system fails a call.
use libinger.Base.{
  ℕ, Bool, true, false, ◌≡◌, refl, subst, Option, none, some, List, Result, ok, err, returns,
  panics, Allows, Allows->>=_any,
}
use libinger.Gotcha.{Gotcha}
use libinger.Machine.{ThdResult, Action, Thread, Tls, Event}
use libinger.Preemption.{set_tls}
use libinger.Preemption.Setup.{thread_setup}
use libinger.Linger.Switch.{Switched, switch_stack}
use libinger.Linger.Resume.{
  Continuation, Linger, completion, continuation, poison, Faults, Reply, done, failed, unwinds,
  Resumed, finish_call, retrieved, collected, switched, call_on, launched, begun, set_up, installed,
  continued, resume, with_stack, with_bootstrap,
}

module _ {Group : Type 0} (G : Gotcha Group) {S T : Type 0} (next : S → Action S T) where
  -- A continuation without its thread-control block.
  abbrev pub Lost : Linger Group S T → Type 0
  Lost (continuation c) = c.tls ≡ none
  Lost (completion v) = ⊥
  Lost poison = ⊥

  abbrev Failing : Reply → Linger Group S T → Type 0
  Failing (failed e) l = Lost l
  Failing done l = Unit {0}
  Failing (unwinds e) l = Unit {0}

  abbrev Fails : Resumed Group S T → Type 0
  Fails r = Failing r.reply r.linger

  finish_call-Fails :
      (c : Continuation Group S T) (v : Option (ThdResult T)) (t : Thread Group S) (es : List Event)
      → Allows Fails (finish_call G next c v t es)
  unfolding finish_call
  finish_call-Fails c none t es = tt
  finish_call-Fails c (some (ok v)) t es = tt
  finish_call-Fails c (some (err e)) t es = tt

  collected-Fails :
      (b : Bool) (c : Continuation Group S T) (t : Thread Group S) (es : List Event)
      → Allows Fails (collected G next b c t es)
  unfolding collected
  collected-Fails true c t es = finish_call-Fails c (retrieved G next c.functional) t es
  collected-Fails false c t es = tt

  switched-Fails :
      (c : Continuation Group S T) (parent : Tls Group S) (t : Thread Group S) (es : List Event)
      (r : Result (Switched G next) ℕ)
      → Allows Fails (switched G next c parent t es r)
  unfolding switched
  switched-Fails c parent t es (err e) = refl
  switched-Fails c parent t es (ok s) = collected-Fails s.finished _ _ s.rest

  module _ (faults : Faults) (us : ℕ) (parent : Tls Group S) (es : List Event) where
    call_on-Fails :
        (c : Continuation Group S T) (t : Thread Group S)
        → Allows Fails (call_on G next faults us c parent t es)
    unfolding call_on
    call_on-Fails c t =
        Allows->>=_any Fails (switch_stack G next faults.switch c.stateful c.group _ es) _
          (switched-Fails c parent (set_tls G (record t.tls { deadline = us }) t) es)

    begun-Fails :
        (c : Continuation Group S T) (t : Thread Group S) (errno : Option ℕ)
        → Allows Fails (begun G next faults us c parent t es errno)
    unfolding begun launched
    begun-Fails c t (some e) = call_on-Fails c t
    begun-Fails c t none = launched-Fails faults.stack
      where
        launched-Fails : (o : Option ℕ) → Allows Fails (launched G next faults us c parent t es o)
        launched-Fails none = call_on-Fails (with_stack G next c t) (with_bootstrap G next c t)
        launched-Fails (some e) = refl

    set_up-Fails :
        (c : Continuation Group S T) (r : Result (Unit {0}) ℕ × Thread Group S)
        → Allows Fails (set_up G next faults us c parent es r)
    set_up-Fails c (err e, t) = tt
    set_up-Fails c (ok u, t) = begun-Fails c t c.stateful.errno

  installed-Fails :
      (faults : Faults) (us : ℕ) (c : Continuation Group S T) (t : Thread Group S) (es : List Event)
      (tls : Tls Group S) (o : Option ℕ)
      → Allows Fails (installed G next faults us c t es tls o)
  unfolding installed
  installed-Fails faults us c t es tls (some e) = refl
  installed-Fails faults us c t es tls none =
      Allows->>=_any Fails (thread_setup G _ faults.setup (set_tls G tls t)) _
        (set_up-Fails faults us t.tls es c)

  resume-Fails :
      (faults : Faults) (l : Linger Group S T) (us : ℕ) (t : Thread Group S) (es : List Event)
      → Allows Fails (resume G next faults l us t es)
  unfolding resume continued
  resume-Fails faults (completion v) us t es = tt
  resume-Fails faults poison us t es = tt
  resume-Fails faults (continuation c) us t es = continued-Fails c.tls
    where
      continued-Fails :
          (o : Option (Tls Group S)) → Allows Fails (continued G next faults us c t es o)
      continued-Fails none = tt
      continued-Fails (some tls) = installed-Fails faults us c t es tls faults.install

  resume-Lost :
      (faults : Faults) (l : Linger Group S T) (us : ℕ) (t : Thread Group S) (es : List Event)
      → Lost l
      → resume G next faults l us t es ≡ panics
  unfolding resume continued
  resume-Lost faults (continuation c) us t es e = rw e refl
  resume-Lost faults (completion v) us t es e = absurd e
  resume-Lost faults poison us t es e = absurd e

  -- Once a call of `resume` has returned an error of the operating system, whichever call failed, every
  -- further `resume` of the same function panics, even if no call fails any more.
  pub resume_again :
      (faults faults' : Faults) (l : Linger Group S T) (us us' e : ℕ) (t t' : Thread Group S)
      (es es' : List Event) (r : Resumed Group S T)
      → resume G next faults l us t es ≡ returns r
      → r.reply ≡ failed e
      → resume G next faults' r.linger us' t' es' ≡ panics
  resume_again faults faults' l us us' e t t' es es' r h k =
      resume-Lost faults' r.linger us' t' es'
        (subst (λ y. Failing y r.linger) k (subst (Allows Fails) h (resume-Fails faults l us t es)))
