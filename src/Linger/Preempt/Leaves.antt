-- ===== src/Linger/Preempt/Leaves.antt =====
-- src/linger.rs: the two ways in which `preempt` leaves a thread that has a signal and a call site to
-- return to.
use libinger.Base.{
  Bool, true, false, ◌≡◌, refl, ◌==◌, Bool-cases, none, some, ok, inl, inr, ◌⊎◌, Ensures, leb,
  arith,
}
use libinger.Gotcha.{Gotcha}
use libinger.Signal.{Signal, eq}
use libinger.Signal.Set.{Sigset, add}
use libinger.Machine.{Context, Thread}
use libinger.Preemption.{get_errno, set_tls, thread_signal, is_preemptible, disable_preemption}
use libinger.Linger.Clock.{nsnow}
use libinger.Linger.Preempt.{Handled, preempt}
use libinger.Linger.Preempt.Cases.{preempt_foreign, preempt_outside, preempt_early, preempt_late}
use libinger.Linger.Preempt.Pause.{is_due}

module _ {Group : Type 0} (G : Gotcha Group) {S : Type 0} (s own : Signal) (uc : Context Group S)
    (t : Thread Group S) where
  -- The function goes on, with the signal masked or not, and a preemption put off or not.
  abbrev pub goes_on : Sigset → Bool → Handled Group S
  goes_on sigmask d =
      (record uc { sigmask = sigmask }, record t { tls = record t.tls { deferred = d } })

  -- The function is paused, and the processor goes to `site`.
  abbrev pub goes_back : Context Group S → Handled Group S
  goes_back site = (
    record site { sigmask = add site.sigmask s },
    disable_preemption G none (
        set_tls G
          (record t.tls {
            task = record {
              errno = some (get_errno G t);
              checkpoint = some uc;
              yielded = t.tls.deadline == 0;
            };
          })
          t),
  )

  -- What holds in both cases holds of what the handler leaves.
  pub preempt-Leaves :
      (Q : Handled Group S → Type 0) (site : Context Group S)
      → thread_signal G t ≡ ok own
      → t.tls.task.checkpoint ≡ some site
      → ((sigmask : Sigset) (d : Bool)
          → (sigmask ≡ uc.sigmask) ⊎ (sigmask ≡ add uc.sigmask s)
          → is_due G s own uc t ≡ false
          → Q (goes_on sigmask d))
      → (is_due G s own uc t ≡ true → Q (goes_back site))
      → Ensures Q (preempt G s uc t)
  preempt-Leaves Q site e c on back = elim (Bool-cases (eq s own)) [
    | inr d ↦
        rw (preempt_foreign G s own uc t (inr (e, d)))
          (on (add uc.sigmask s) t.tls.deferred (inr refl) (ground arith))
    | inl d ↦ elim (Bool-cases (is_preemptible G t)) [
      | inr i ↦
          rw (preempt_outside G s own uc t e d i)
            (on (add uc.sigmask s) true (inr refl) (ground arith))
      | inl i ↦ elim (Bool-cases (leb t.tls.deadline (nsnow G t))) [
        | inr l ↦
            rw (preempt_early G s own uc t e d i l)
              (on uc.sigmask t.tls.deferred (inl refl) (ground arith))
        | inl l ↦ rw (preempt_late G s own uc t site e d i l c) (back (ground arith))
      ]
    ]
  ]
