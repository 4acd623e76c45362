-- ===== src/Linger/Preempt/Cases.antt =====
-- src/linger.rs: what `preempt` does in each of its cases, and `pause`.
use libinger.Base.{
  ℕ, ◌≡◌, refl, Bool, true, false, Option, none, some, Allows, ok, err, returns, panics, ap, ◌>>=◌,
  ◌==◌, leb, if◌then◌else◌, ◌⊎◌, inl, inr, Bool-cases,
}
use libinger.Gotcha.{Gotcha}
use libinger.Signal.{Signal, eq}
use libinger.Signal.Set.{add, block}
use libinger.Machine.{Context, Control, Thread}
use libinger.Preemption.{
  get_errno, set_errno, set_tls, thread_signal, is_preemptible, disable_preemption,
  defer_preemption, set_deferred, mask,
}
use libinger.Linger.Clock.{nsnow}
use libinger.Linger.Preempt.{
  Handled, preempt, pause, save, on_time, deferred, dispatch, is_relevant,
}

module _ {Group : Type 0} (G : Gotcha Group) {S : Type 0} where
  set_errno-get_errno : (t : Thread Group S) → set_errno G (get_errno G t) t ≡ t
  set_errno-get_errno t = elim (Bool-cases (G.is_shared t.group)) [
    | inl e ↦ rw (e, if◌then◌else◌)
    | inr e ↦ rw (e, if◌then◌else◌)
  ]

  module _ (s own : Signal) (uc : Context Group S) (t : Thread Group S) where
    -- A signal that is not the thread's own is masked in the interrupted code, and nothing else
    -- changes; so too where the thread has no signal.
    pub preempt_foreign :
        (thread_signal G t ≡ err tt) ⊎ ((thread_signal G t ≡ ok own) × (eq s own ≡ false))
        → preempt G s uc t ≡ returns (record uc { sigmask = add uc.sigmask s }, t)
    unfolding preempt dispatch is_relevant
    preempt_foreign (inl e) = rw e (rw (set_errno-get_errno t))
    preempt_foreign (inr (e, d)) = rw e (rw d (rw (set_errno-get_errno t)))

    -- The thread's own signal in a library call: it is masked in the interrupted code, and the
    -- preemption is put off.
    pub preempt_outside :
        thread_signal G t ≡ ok own
        → eq s own ≡ true
        → is_preemptible G t ≡ false
        → preempt G s uc t ≡ returns (record uc { sigmask = add uc.sigmask s }, set_deferred G t)
    unfolding preempt dispatch is_relevant deferred defer_preemption
    preempt_outside e d i = rw e (
        rw d (
          rw i (
            ap (λ u. returns (record uc { sigmask = add uc.sigmask s }, u))
              (set_errno-get_errno (set_deferred G t)))))

    -- The thread's own signal in preemptible code before the deadline: nothing changes.
    pub preempt_early :
        thread_signal G t ≡ ok own
        → eq s own ≡ true
        → is_preemptible G t ≡ true
        → leb t.tls.deadline (nsnow G t) ≡ false
        → preempt G s uc t ≡ returns (uc, t)
    unfolding preempt dispatch is_relevant on_time
    preempt_early e d i l = rw e (rw d (rw i (rw l (rw (set_errno-get_errno t)))))

    -- The same from the deadline on: the interrupted code changes places with the checkpoint.
    pub preempt_late :
        (site : Context Group S)
        → thread_signal G t ≡ ok own
        → eq s own ≡ true
        → is_preemptible G t ≡ true
        → leb t.tls.deadline (nsnow G t) ≡ true
        → t.tls.task.checkpoint ≡ some site
        → preempt G s uc t
          ≡ returns (
            record site { sigmask = add site.sigmask s },
            disable_preemption G none (
                set_tls G
                  (record t.tls {
                    task = record {
                      errno = some (get_errno G t);
                      checkpoint = some uc;
                      yielded = t.tls.deadline == 0;
                    };
                  })
                  t),
          )
    unfolding preempt dispatch is_relevant on_time save
    preempt_late site e d i l c = rw e (rw d (rw i (rw l (rw (c, save)))))

  thread_signal-deadline :
      (t : Thread Group S) (d : ℕ)
      → thread_signal G (set_tls G (record t.tls { deadline = d }) t) ≡ thread_signal G t
  unfolding thread_signal
  thread_signal-deadline t d = refl

  -- `pause` on a thread that has a signal: the deadline is gone, the signal is masked, and a
  -- preemption is due at the end of the library call. On one that has none it panics.
  pub pause_lem :
      (own : Signal) (t : Thread Group S)
      → thread_signal G t ≡ ok own
      → pause G t
        ≡ returns (set_deferred G (mask G block own (set_tls G (record t.tls { deadline = 0 }) t)))
  unfolding pause defer_preemption
  pause_lem own t e = rw (thread_signal-deadline t 0, e, ◌>>=◌)

  pub pause_panics : (t : Thread Group S) → thread_signal G t ≡ err tt → pause G t ≡ panics
  unfolding pause defer_preemption
  pause_panics t e = rw (thread_signal-deadline t 0, e, ◌>>=◌)

  -- Where the handler returns to: the code that it interrupted, or, for the thread's own signal, the
  -- checkpoint.
  module _ (P : Control Group S → Type 0) (s : Signal) (uc : Context Group S) (t : Thread Group S)
      (stay : P uc.control) where
    abbrev Goes : Handled Group S → Type 0
    Goes h = P h.0.control

    save-control :
        (e : ℕ) (u : Thread Group S) (o : Option (Context Group S))
        → ((site : Context Group S) → o ≡ some site → P site.control)
        → Allows Goes (save G s e uc o u)
    unfolding save
    save-control e u none k = tt
    save-control e u (some site) k = k site refl

    dispatch-control :
        (e : ℕ) (b c : Bool)
        → (b ≡ true → (site : Context Group S) → t.tls.task.checkpoint ≡ some site → P site.control)
        → Allows Goes (dispatch G s e uc t b c)
    unfolding dispatch on_time deferred defer_preemption
    dispatch-control e true true k = elim (Bool-cases (leb t.tls.deadline (nsnow G t))) [
      | inl late ↦ rw late (save-control e t t.tls.task.checkpoint (k refl))
      | inr early ↦ rw early stay
    ]
    dispatch-control e true false k = stay
    dispatch-control e false c k = stay

    pub preempt-control :
        (is_relevant s (thread_signal G t) ≡ true
          → (site : Context Group S) → t.tls.task.checkpoint ≡ some site
          → P site.control)
        → Allows Goes (preempt G s uc t)
    unfolding preempt
    preempt-control k =
        dispatch-control (get_errno G t) (is_relevant s (thread_signal G t)) (is_preemptible G t) k
