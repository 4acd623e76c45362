-- ===== src/Linger/Preempt/Pause.antt =====
-- src/linger.rs: when `preempt` pauses the function, and that the resumption takes up what it left.
use libinger.Base.{
  Bool, true, false, ◌&&◌, ◌≡◌, refl, ◌==◌, Bool-cases, some, none, ok, inl, inr, ◌⊎◌, Ensures, leb,
  arith,
}
use libinger.Gotcha.{Gotcha}
use libinger.Signal.{Signal, eq}
use libinger.Machine.{Context, Thread}
use libinger.Preemption.{get_errno, thread_signal, is_preemptible, disable_preemption}
use libinger.Linger.Clock.{nsnow}
use libinger.Linger.Preempt.{Handled, preempt}
use libinger.Linger.Preempt.Cases.{preempt_foreign, preempt_outside, preempt_early, preempt_late}

module _ {Group : Type 0} (G : Gotcha Group) {S : Type 0} (s own : Signal) (uc : Context Group S)
    (t : Thread Group S) where
  -- Whether the signal is the thread's own, meets preemptible code, and the deadline is reached.
  abbrev pub is_due : Bool
  is_due = eq s own && (is_preemptible G t && leb t.tls.deadline (nsnow G t))

  -- The function is paused: the checkpoint keeps the interrupted context and the task its errno, and
  -- the processor goes to `site`, with preemption off. A function whose deadline is 0 has yielded.
  pub record Pauses (site : Context Group S) (h : Handled Group S) : Type 0 where
    pub goes : h.0.control ≡ site.control
    pub kept : h.1.tls.task.checkpoint ≡ some uc
    pub errno : h.1.tls.task.errno ≡ some (get_errno G t)
    pub told : h.1.tls.task.yielded ≡ (t.tls.deadline == 0)
    pub unnamed : h.1.tls.signal ≡ none
    pub shared : h.1.group ≡ G.shared

  -- The function goes on: where it was, with its errno, its task and its group.
  pub record Continues (h : Handled Group S) : Type 0 where
    pub goes : h.0.control ≡ uc.control
    pub errno : get_errno G h.1 ≡ get_errno G t
    pub task : h.1.tls.task ≡ t.tls.task
    pub group : h.1.group ≡ t.group

  -- What the handler does where a function is running with a call site to return to: it pauses the
  -- function just if the signal is the thread's own, the code that it meets is preemptible and the
  -- deadline is reached; else the function goes on as it was.
  pub preempt_lem :
      (site : Context Group S)
      → thread_signal G t ≡ ok own
      → t.tls.task.checkpoint ≡ some site
      → Ensures
          (λ h. ((is_due ≡ true) × Pauses site h) ⊎ ((is_due ≡ false) × Continues h))
          (preempt G s uc t)
  unfolding disable_preemption
  preempt_lem site e c = elim (Bool-cases (eq s own)) [
    | inr d ↦
        rw (preempt_foreign G s own uc t (inr (e, d)))
          (inr (ground arith, record { goes = refl; errno = refl; task = refl; group = refl }))
    | inl d ↦ elim (Bool-cases (is_preemptible G t)) [
      | inr i ↦
          rw (preempt_outside G s own uc t e d i)
            (inr (ground arith, record { goes = refl; errno = refl; task = refl; group = refl }))
      | inl i ↦ elim (Bool-cases (leb t.tls.deadline (nsnow G t))) [
        | inr l ↦
            rw (preempt_early G s own uc t e d i l)
              (inr (ground arith, record { goes = refl; errno = refl; task = refl; group = refl }))
        | inl l ↦ rw (preempt_late G s own uc t site e d i l c) (
            inl (
              ground arith,
              record {
                goes = refl;
                kept = refl;
                errno = refl;
                told = refl;
                unnamed = refl;
                shared = refl;
              },
            ))
      ]
    ]
  ]
