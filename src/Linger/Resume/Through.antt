-- ===== src/Linger/Resume/Through.antt =====
-- src/linger.rs: `resume` from its call through the set-up of the thread and `switch_stack` to its
-- return, for any account that is kept of them.
use libinger.Base.{
  ℕ, false, ◌≡◌, refl, sym, subst, ap, ◌∙◌, ==_refl, none, some, is_some, List, inl, inr, Result,
  ok, err, Ensures, Meets, Ensures->>=, Ensures-Allows, Allows, Meets->>=, arith,
}
use libinger.Gotcha.{Gotcha}
use libinger.Signal.{Signal, number}
use libinger.Signal.Set.{Sigset, add, empty, block, changed}
use libinger.Machine.{
  Action, Completion, function, PreemptionSignal, real_thread, call_site, entry, Thread, Tls,
  default_task, Machine, Event, Task,
}
use libinger.Preemption.{set_tls}
use libinger.Preemption.Setup.{Answers, thread_setup}
use libinger.Linger.Invariant.{Paused}
use libinger.Linger.Switch.{Switched, switch_stack}
use libinger.Linger.Switch.Safe.{Before, Fresh, Stopped}
use libinger.Linger.Resume.{
  Continuation, continuation, Resumed, switched, call_on, with_stack, with_bootstrap, launched,
  begun, set_up, installed, continued, resume,
}
use libinger.Linger.Resume.Valid.{no_faults, Idle, Valid}

module _ {Group : Type 0} (G : Gotcha Group) {S T : Type 0} (next : S → Action S T) (g : Group)
    (p : PreemptionSignal) (start : S) (private : G.is_shared g ≡ false) where
  -- The machine that `call_on` hands to `switch_stack`.
  abbrev pub machine : ℕ → Completion S T → Thread Group S → Machine Group S T
  machine us f t = record {
    thread = set_tls G (record t.tls { deadline = us }) t;
    control = call_site;
    fun = f;
  }

  -- What holds of a block between two calls.
  pub record Rested (tls : Tls Group S) : Type 0 where
    pub prompt : tls.deferred ≡ false
    pub booted : tls.bootstrap ≡ none
    pub idle : tls.task ≡ default_task

  -- The thread after its set-up under the block.
  pub record Under (tls : Tls Group S) (t : Thread Group S) : Type 0 where
    pub before : Before G next g p start private t
    pub same : t.tls ≡ record tls { signal = some real_thread }

  -- A paused task on the machine that it goes on with.
  pub stopped :
      (us : ℕ) (c : Continuation Group S T) (t : Thread Group S)
      (v : Valid G next g p start private c)
      → t.tls ≡ record v.block { signal = some real_thread }
      → Paused G next g p start (record v.block { task = c.stateful }) c.functional
      → Stopped G next g p start private c.stateful (machine us c.functional t)
  stopped us c t v e x = (
    record {
      errno = x.errno;
      context = x.context;
      signal = x.signal;
      told = x.told;
      point = x.point;
      kept = x.kept;
      saved = x.saved;
      stopped = x.stopped;
      inside = x.inside;
      progress = x.progress;
      located = ap (λ (l : Tls Group S). is_some l.errno_location) e ∙ x.located;
    },
    ap (λ (l : Tls Group S). l.bootstrap) e ∙ v.booted,
  )

  -- The set-up works, and leaves the block alone but for the signal.
  abbrev pub Set : Tls Group S → Result (Unit {0}) ℕ × Thread Group S → Type 0
  Set tls (ok _, t) = Under tls t
  Set tls (err e, t) = ⊥

  pub thread_setup-Under :
      (a : Answers) (t : Thread Group S) (tls : Tls Group S)
      → Rested tls
      → Idle G next g p start private a t
      → Ensures (Set tls) (thread_setup G real_thread a (set_tls G tls t))
  unfolding thread_setup
  thread_setup-Under a t tls r (inl s) = rw s.own (record { before = ground arith; same = refl })
  thread_setup-Under a t tls r (inr (n, e, h)) =
      rw n (rw e (record { before = ground (arith, ==_refl (number p.signal)); same = refl }))

  -- `Still` is what is known of the clock, the mask and the signals that wait, `O` of what
  -- `switch_stack` comes back with, and `P` of what `resume` leaves; a run that the events `es` end
  -- is one that `R` holds of.
  module _ (R : Type 0) (es : List Event) (a : Answers) (us : ℕ)
      (Still : ℕ → Sigset → List Signal → Type 0)
      (blocks : (now : ℕ) (mask : Sigset) (ps : List Signal)
        → Still now mask ps
        → Still now (changed block (add empty p.signal) mask) ps)
      (O : Result (Switched G next) ℕ → Type 0) (P : Resumed Group S T → Type 0)
      (parent : Tls Group S)
      (begins : (m : Machine Group S T) (task : Task Group S)
        → Before G next g p start private m.thread
        → Fresh G next g p start private task m
        → m.thread.tls.deadline ≡ us
        → Still m.thread.clock m.thread.mask m.thread.pending
        → Meets R O (switch_stack G next none task g m es))
      (goes_on : (m : Machine Group S T) (task : Task Group S)
        → Before G next g p start private m.thread
        → Stopped G next g p start private task m
        → m.thread.tls.deadline ≡ us
        → Still m.thread.clock m.thread.mask m.thread.pending
        → Meets R O (switch_stack G next none task g m es))
      (leaves : (c : Continuation Group S T) (t : Thread Group S) (r : Result (Switched G next) ℕ)
        → c.group ≡ g
        → O r
        → Meets R P (switched G next c parent t es r)) where
    abbrev Stays : Thread Group S → Type 0
    Stays t = Still t.clock t.mask t.pending

    -- From the setting of the deadline on.
    call_on-Through :
        (c : Continuation Group S T) (t : Thread Group S)
        → c.group ≡ g
        → Meets R O (switch_stack G next none c.stateful g (machine us c.functional t) es)
        → Meets R P (call_on G next (no_faults a) us c parent t es)
    unfolding call_on
    call_on-Through c t i h =
        let m = machine us c.functional t in
        let here : Meets R O (switch_stack G next none c.stateful c.group m es) =
          subst (λ k. Meets R O (switch_stack G next none c.stateful k m es)) (sym i) h in
        Meets->>= R O P _ _ here (λ r d. leaves c m.thread r i d)

    -- A first launch, on a thread that has been set up under the block of the function.
    launched-Through :
        (c : Continuation Group S T) (t : Thread Group S)
        → c.group ≡ g
        → c.stateful.errno ≡ none
        → c.functional ≡ function start
        → Before G next g p start private t
        → Stays t
        → Meets R P (launched G next (no_faults a) us c parent t es none)
    unfolding launched
    launched-Through c t i n f b s =
        call_on-Through (with_stack G next c t) (with_bootstrap G next c t) i (
          begins (machine us c.functional (with_bootstrap G next c t))
            (with_stack G next c t).stateful (ground arith)
            (record {
              context = record { control = entry; sigmask = t.mask };
              unpaused = n;
              made = refl;
              at_entry = refl;
              masked = b.masked;
              boot = ap some i;
              same = refl;
              fun = f;
            })
            refl s)

    begun-Through :
        (c : Continuation Group S T) (t : Thread Group S)
        → (v : Valid G next g p start private c) → Under v.block t
        → Stays t
        → Meets R P (begun G next (no_faults a) us c parent t es c.stateful.errno)
    unfolding begun
    begun-Through c t v u s = elim v.state [
      | inl (n, k, f) ↦
          subst (λ e. Meets R P (begun G next (no_faults a) us c parent t es e)) (sym n)
            (launched-Through c t v.group n f u.before s)
      | inr x ↦
          subst (λ e. Meets R P (begun G next (no_faults a) us c parent t es e)) (sym x.kept)
            (call_on-Through c t v.group (
              goes_on (machine us c.functional t) c.stateful (ground (arith, u.before))
                (stopped us c t v u.same x) refl s))
    ]

    set_up-Through :
        (c : Continuation Group S T) (r : Result (Unit {0}) ℕ × Thread Group S)
        (v : Valid G next g p start private c)
        → Set v.block r
        → Stays r.1
        → Meets R P (set_up G next (no_faults a) us c parent es r)
    set_up-Through c (ok _, t) v u s = begun-Through c t v u s
    set_up-Through c (err e, t) v u s = absurd u

    -- The set-up of a thread blocks its signal, at most.
    thread_setup-Stays :
        (t : Thread Group S) (b : Tls Group S)
        → Idle G next g p start private a t
        → Stays t
        → Allows (λ r. Stays r.1) (thread_setup G real_thread a (set_tls G b t))
    unfolding thread_setup
    thread_setup-Stays t b (inl x) s = rw x.own s
    thread_setup-Stays t b (inr (n, e, h)) s = rw n (rw e (blocks t.clock t.mask t.pending s))

    -- All of `resume`.
    pub resume-Through :
        (c : Continuation Group S T) (t : Thread Group S)
        → t.tls ≡ parent
        → Valid G next g p start private c
        → Idle G next g p start private a t
        → Stays t
        → Meets R P (resume G next (no_faults a) (continuation c) us t es)
    unfolding resume continued installed
    resume-Through c t k v i s =
        subst (λ o. Meets R P (continued G next (no_faults a) us c t es o)) (sym v.tls)
          (Ensures->>= R (λ r. Set v.block r × Stays r.1) P
            (thread_setup G real_thread a (set_tls G v.block t)) _
            (Ensures-Allows (Set v.block) (λ r. Stays r.1) _
              (thread_setup-Under a t v.block
                (record { prompt = v.prompt; booted = v.booted; idle = v.idle }) i)
              (thread_setup-Stays t v.block i s))
            λ r (u, x).
              subst (λ q. Meets R P (set_up G next (no_faults a) us c q es r)) (sym k)
                (set_up-Through c r v u x))
