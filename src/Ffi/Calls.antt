-- ===== src/Ffi/Calls.antt =====
-- src/ffi.rs: what holds through any calls of the C interface.
use libinger.Base.{
  none, ℕ, Bool, false, true, ◌≡◌, refl, ap, some, List, [], ◌∷◌, inl, err, Exec, returns, ◌>>=◌,
  Safe, Ensures, Ensures->>=, Meets->>=, Meets-of_Ensures, if◌then◌else◌, ◌==◌,
}
use libinger.Gotcha.{Gotcha}
use libinger.Machine.{Action, PreemptionSignal, default_tls, Thread, Event}
use libinger.Preemption.Setup.{Answers}
use libinger.Linger.Invariant.{Finishes}
use libinger.Linger.Resume.{
  Linger, completion, continuation, poison, is_completion, Faults, Reply, done, failed, unwinds,
  Resumed, resume, drop_continuation, launch, fresh,
}
use libinger.Linger.Resume.Valid.{drop-renews, no_faults, SetUp, Idle, Valid, Outcome, Post}
use libinger.Linger.Resume.Value.{resume-Post}
use libinger.Ffi.{Timed, launch_call, Called, of_linger, outcome, cancelled, cancel, resume_call}

pub data Call : Type 0 where
  resuming : ℕ → List Event → Call
  cancelling : Call

module _ {Group : Type 0} (G : Gotcha Group) {S : Type 0} (next : S → Action S (Unit {0})) where
  unfoldable pub step : Faults → (Group → Bool) → Call → Called Group S → Exec (Called Group S)
  step faults renew (resuming us es) k = resume_call G next faults (some k.timed) us k.thread es
  step faults renew cancelling k =
      cancel renew (some k.timed) >>= λ l. returns (record k { timed = l })

  unfoldable pub run : Faults → (Group → Bool) → List Call → Called Group S → Exec (Called Group S)
  unfolding step
  run faults renew [] k = returns k
  run faults renew (x ∷ xs) k = step faults renew x k >>= run faults renew xs

  run_complete :
      (faults : Faults) (renew : Group → Bool) (xs : List Call) (t : Thread Group S)
      (es : List Event)
      → Ensures
          (λ k. (k.timed ≡ of_linger (completion tt)) × (k.thread ≡ t))
          (run faults renew xs
            (record { timed = of_linger (completion tt); thread = t; rest = es }))
  unfolding run step resume_call resume outcome cancel cancelled
  run_complete faults renew [] t es = (refl, refl)
  run_complete faults renew (resuming us ds ∷ xs) t es = run_complete faults renew xs t ds
  run_complete faults renew (cancelling ∷ xs) t es = run_complete faults renew xs t es

  module _ (g : Group) (p : PreemptionSignal) (start : S) (private : G.is_shared g ≡ false) where
    abbrev pub Usable : Linger Group S (Unit {0}) → Type 0
    Usable (completion v) = Unit {0}
    Usable (continuation c) = Valid G next g p start private c
    Usable poison = ⊥

    Usable-of_Outcome :
        (l : Linger Group S (Unit {0})) → Outcome G next g p start private done l → Usable l
    Usable-of_Outcome (completion v) o = tt
    Usable-of_Outcome (continuation c) o = o
    Usable-of_Outcome poison o = o

    cancelled_complete :
        (renew : Group → Bool) (timed : Timed Group S) (l : Linger Group S (Unit {0}))
        → ((h : Group) → renew h ≡ true)
        → timed.continuation ≡ l
        → timed.is_complete ≡ is_completion l
        → Usable l
        → Ensures (λ u. u ≡ of_linger (completion tt)) (cancelled renew timed l)
    unfolding cancelled
    cancelled_complete renew timed (continuation c) works e told u =
        Ensures->>= ⊥ (λ b. Unit {0}) (λ u. u ≡ of_linger (completion tt))
          (drop_continuation renew c) _ (drop-renews renew c works) (λ b k. refl)
    cancelled_complete renew timed (completion v) works e told u =
        λ i. record { is_complete = told i; continuation = e i }
    cancelled_complete renew timed poison works e told u = absurd u

    -- A structure whose function can be resumed or has completed, as its `is_complete` says, is
    -- cancelled where no renewal of a group fails, and then resumed and cancelled in any order, however
    -- the operating system answers these calls: all of them return, the thread is as it was, and the
    -- structure is complete and stays so.
    pub run_cancelled :
        (renew : Group → Bool) (k : Called Group S) (faults : Faults) (xs : List Call)
        → ((h : Group) → renew h ≡ true)
        → k.timed.is_complete ≡ is_completion k.timed.continuation
        → Usable k.timed.continuation
        → Ensures
            (λ r. (r.timed ≡ of_linger (completion tt)) × (r.thread ≡ k.thread))
            (run faults renew (cancelling ∷ xs) k)
    unfolding run step cancel
    run_cancelled renew k faults xs works told u =
        Ensures->>= ⊥ (λ c. c ≡ record k { timed = of_linger (completion tt) })
          (λ r. (r.timed ≡ of_linger (completion tt)) × (r.thread ≡ k.thread))
          (step faults renew cancelling k) (run faults renew xs)
          (Ensures->>= ⊥ (λ u. u ≡ of_linger (completion tt))
            (λ c. c ≡ record k { timed = of_linger (completion tt) })
            (cancelled renew k.timed k.timed.continuation) _
            (cancelled_complete renew k.timed k.timed.continuation works refl told u)
            (λ v e. ap (λ x. record k { timed = x }) e))
          (λ c e. rw e (run_complete faults renew xs k.thread k.rest))

    -- A structure that can be used again, on a thread outside every timed function.
    pub record Fair (a : Answers) (k : Called Group S) : Type 0 where
      pub told : k.timed.is_complete ≡ is_completion k.timed.continuation
      pub kept : Usable k.timed.continuation
      pub idle : Idle G next g p start private a k.thread

    never :
        (e : ℕ) (l : Linger Group S (Unit {0}))
        → ((e : ℕ) → Finishes next start (err e) → ⊥)
        → Outcome G next g p start private (unwinds e) l
        → ⊥
    never e poison n o = n e o
    never e (continuation c) n o = o
    never e (completion v) n o = o

    outcome-Fair :
        (a : Answers) (r : Resumed Group S (Unit {0}))
        → ((e : ℕ) → Finishes next start (err e) → ⊥)
        → (y : Reply) → Outcome G next g p start private y r.linger
        → SetUp G next g p start private r.thread
        → Ensures (Fair a) (outcome y r)
    unfolding outcome
    outcome-Fair a r n done o s = record {
      told = refl;
      kept = Usable-of_Outcome r.linger o;
      idle = inl s;
    }
    outcome-Fair a r n (failed e) o s = absurd o
    outcome-Fair a r n (unwinds e) o s = absurd (never e r.linger n o)

    module _ (a : Answers) (n : (e : ℕ) → Finishes next start (err e) → ⊥) where
      resumed-Fair :
          (l : Linger Group S (Unit {0})) (us : ℕ) (t : Thread Group S) (es : List Event)
          → Usable l
          → Idle G next g p start private a t
          → Safe (Fair a) (resume G next (no_faults a) l us t es >>= λ r. outcome r.reply r)
      unfolding resume outcome
      resumed-Fair (completion v) us t es o i = record { told = refl; kept = o; idle = i }
      resumed-Fair poison us t es o i = absurd o
      resumed-Fair (continuation c) us t es o i =
          Meets->>= (Unit {0}) (Post G next g p start private t.tls) (Fair a)
            (resume G next (no_faults a) (continuation c) us t es) (λ r. outcome r.reply r)
            (resume-Post G next g p start private a us c t es o i)
            λ r k.
              Meets-of_Ensures (Unit {0}) (Fair a) (outcome r.reply r)
                (outcome-Fair a r n r.reply k.outcome k.thread)

      launch-Fair :
          (us : ℕ) (t : Thread Group S) (es : List Event)
          → Idle G next g p start private a t
          → Safe
              (Fair a)
              (launch_call G next (no_faults a) (some g) (some default_tls) start us t es)
      unfolding launch_call launch outcome
      launch-Fair us t es i =
          elim (us == 0)
            as (λ b. Safe (Fair a) (
              (if b
                then returns
                    (record { reply = done; linger = made; dropped = none; thread = t; rest = es })
                else resume G next (no_faults a) made us t es)
              >>= λ r. outcome r.reply r)) [
                | true ↦ record { told = refl; kept = made-Valid; idle = i }
                | false ↦ resumed-Fair made us t es made-Valid i
              ]
        where
          made : Linger Group S (Unit {0})
          made = continuation (fresh G next start g (some default_tls))

          made-Valid : Valid G next g p start private (fresh G next start g (some default_tls))
          made-Valid = record {
            block = default_tls;
            tls = refl;
            group = refl;
            prompt = refl;
            booted = refl;
            idle = refl;
            state = inl (refl, refl, refl);
          }

      module _ (renew : Group → Bool) (works : (h : Group) → renew h ≡ true) where
        cancelled-Fair :
            (k : Called Group S) (l : Linger Group S (Unit {0}))
            → k.timed.continuation ≡ l
            → Fair a k
            → Ensures (λ u. Fair a (record k { timed = u })) (cancelled renew k.timed l)
        unfolding cancelled
        cancelled-Fair k (completion v) e f = f
        cancelled-Fair k poison e f = f
        cancelled-Fair k (continuation c) e f =
            Ensures->>= ⊥ (λ b. Unit {0}) (λ u. Fair a (record k { timed = u }))
              (drop_continuation renew c) _ (drop-renews renew c works)
              (λ b u. record { told = refl; kept = tt; idle = f.idle })

        step-Fair :
            (x : Call) (k : Called Group S)
            → Fair a k
            → Safe (Fair a) (step (no_faults a) renew x k)
        unfolding step resume_call cancel
        step-Fair (resuming us es) k f =
            resumed-Fair k.timed.continuation us k.thread es f.kept f.idle
        step-Fair cancelling k f =
            Ensures->>= (Unit {0}) (λ u. Fair a (record k { timed = u })) (Fair a)
              (cancelled renew k.timed k.timed.continuation) _
              (cancelled-Fair k k.timed.continuation refl f) (λ u h. h)

        -- `run` for the calls after a `launch`.
        run-Fair :
            (xs : List Call) (k : Called Group S)
            → Fair a k
            → Safe (Fair a) (run (no_faults a) renew xs k)
        unfolding run
        run-Fair [] k f = f
        run-Fair (x ∷ xs) k f =
            Meets->>= (Unit {0}) (Fair a) (Fair a) (step (no_faults a) renew x k) _
              (step-Fair x k f) (run-Fair xs)

        -- A function that does not panic, launched with a group that is assigned to it and a new
        -- thread-control block, and then resumed and cancelled through the C interface
        -- in any order, with any budgets and through any events, where no call of the operating system
        -- and no renewal of a group fails: no call aborts, panics or is undefined, and once the calls
        -- are through, `is_complete` tells whether there is nothing left to run, and a function that is
        -- left can be resumed.
        pub launch_run-Fair :
            (xs : List Call) (us : ℕ) (t : Thread Group S) (es : List Event)
            → Idle G next g p start private a t
            → Safe (Fair a) (
                launch_call G next (no_faults a) (some g) (some default_tls) start us t es
                >>= run (no_faults a) renew xs)
        launch_run-Fair xs us t es i =
            Meets->>= (Unit {0}) (Fair a) (Fair a)
              (launch_call G next (no_faults a) (some g) (some default_tls) start us t es) _
              (launch-Fair us t es i) (run-Fair xs)
