-- ===== src/Linger/Invariant/Handler.antt =====
-- src/linger.rs: the signal handler keeps the invariant, whatever signal it is called for.
use libinger.Base.{
  Option, true, false, ◌≡◌, refl, ap, Bool-cases, leb, none, List, inl, inr, ◌⊎◌, ok, err, Exec,
  Ensures, arith,
}
use libinger.Gotcha.{Gotcha}
use libinger.Signal.{Signal, eq, eq_iff}
use libinger.Signal.Set.{Sigset, add}
use libinger.Machine.{
  Action, Completion, PreemptionSignal, Point, before_fun, client, in_library, in_hook, after_fun,
  Control, call_site, entry, running, Thread,
}
use libinger.Preemption.{thread_signal, disable_preemption, is_preemptible, get_errno}
use libinger.Linger.Clock.{nsnow}
use libinger.Linger.Preempt.{Handled, preempt}
use libinger.Linger.Preempt.Cases.{preempt_foreign, preempt_outside, preempt_early, preempt_late}
use libinger.Linger.Invariant.{Where, is_inside, Ready, Open, Progress, site_of}

pub mask-eq : (mask : Sigset) (a b : Signal) → eq a b ≡ true → mask a ≡ mask b
mask-eq mask a b e = ap mask ((eq_iff a b).0 e)

module _ {Group : Type 0} (G : Gotcha Group) {S T : Type 0} (next : S → Action S T) (g : Group)
    (p : PreemptionSignal) (start : S) (private : G.is_shared g ≡ false) where
  abbrev At : Control Group S → Thread Group S → Completion S T → Type 0
  At = Where G next g p start

  -- A foreign signal more or less in the mask makes no difference.
  Where-foreign :
      (c : Control Group S) (s : Signal) (t : Thread Group S) (rest : List Signal)
      (f : Completion S T)
      → eq s p.signal ≡ false
      → At c t f
      → At c (record t { mask = add t.mask s; pending = rest }) f
  Where-foreign call_site s t rest f d (l, x) = (ground arith, x)
  Where-foreign entry s t rest f d w = ground arith
  Where-foreign (running u (in_library h x)) s t rest f d w = ground arith
  Where-foreign (running u before_fun) s t rest f d w = ground arith
  Where-foreign (running u (client x)) s t rest f d w = ground arith
  Where-foreign (running u (in_hook e x)) s t rest f d w = ground arith
  Where-foreign (running u after_fun) s t rest f d w = ground arith

  -- Beneath the handler the thread's mask is that of the handler.
  abbrev beneath : Signal → List Signal → Thread Group S → Thread Group S
  beneath s rest t = record t { mask = add t.mask s; pending = rest }

  -- What the handler leaves, read as the machine reads it.
  abbrev Keeps : Completion S T → Handled Group S → Type 0
  Keeps f h = At h.0.control (record h.1 { mask = h.0.sigmask }) f

  abbrev handled : Control Group S → Signal → List Signal → Thread Group S → Exec (Handled Group S)
  handled c s rest t = preempt G s (record { control = c; sigmask = t.mask }) (beneath s rest t)

  thread_signal-Ready :
      (t u : Thread Group S)
      → u.signaler ≡ t.signaler
      → u.tls ≡ t.tls
      → Ready G next g p start t
      → thread_signal G u ≡ ok p.signal
  unfolding thread_signal
  thread_signal-Ready t u e f r = rw (e, f, r.own, r.named)

  handle_foreign :
      (c : Control Group S) (s : Signal) (rest : List Signal) (t : Thread Group S)
      (f : Completion S T)
      → (thread_signal G (beneath s rest t) ≡ err tt)
        ⊎ ((thread_signal G (beneath s rest t) ≡ ok p.signal) × (eq s p.signal ≡ false))
      → At c (record t { mask = add t.mask s; pending = rest }) f
      → Ensures (Keeps f) (handled c s rest t)
  handle_foreign c s rest t f r w =
      rw
        (preempt_foreign G s p.signal (record { control = c; sigmask = t.mask }) (beneath s rest t)
          r)
        w

  -- The thread's own signal, at a point in the function's group.
  module _ (v : Option Signal) (q : Point Group S) (s : Signal) (rest : List Signal)
      (t : Thread Group S) (f : Completion S T) (own : eq s p.signal ≡ true)
      (r : Ready G next g p start t) (o : Open G next g p start v t)
      (pr : Progress G next g p start q f) (here_inside : is_inside G next g p start q ≡ true) where
    preemptible : is_preemptible G (beneath s rest t) ≡ true
    preemptible = rw (o.inside, private)

    handle_early :
        leb t.tls.deadline (nsnow G (beneath s rest t)) ≡ false
        → At (running v q) (record t { pending = rest }) f
        → Ensures (Keeps f) (handled (running v q) s rest t)
    handle_early l w =
        rw
          (preempt_early G s p.signal (record { control = running v q; sigmask = t.mask })
            (beneath s rest t) (thread_signal-Ready t (beneath s rest t) refl refl r) own
            preemptible l)
          w

    handle_late :
        leb t.tls.deadline (nsnow G (beneath s rest t)) ≡ true
        → Ensures (Keeps f) (handled (running v q) s rest t)
    unfolding disable_preemption
    handle_late l =
        let (site, e, c, k) = site_of G next g p start t.tls.task.checkpoint r.returns_to in
        rw
          (preempt_late G s p.signal (record { control = running v q; sigmask = t.mask })
            (beneath s rest t) site (thread_signal-Ready t (beneath s rest t) refl refl r) own
            preemptible l e)
          (rw c (
            record {
              own = r.own;
              shared = refl;
              masked = ground arith;
              prompt = refl;
              unnamed = refl;
              hook = r.hook;
              booted = o.booted;
            },
            inl (record {
              errno = get_errno G (beneath s rest t);
              context = record { control = running v q; sigmask = t.mask };
              signal = v;
              told = o.told;
              point = q;
              kept = refl;
              saved = refl;
              stopped = refl;
              inside = here_inside;
              progress = pr;
              located = o.located;
            }),
          ))

    handle_inside :
        At (running v q) (record t { pending = rest }) f
        → Ensures (Keeps f) (handled (running v q) s rest t)
    handle_inside w = elim (Bool-cases (leb t.tls.deadline (nsnow G (beneath s rest t)))) [
      | inl late ↦ handle_late late
      | inr early ↦ handle_early early w
    ]

  handle_library :
      (v : Option Signal) (h : Group) (x : S) (s : Signal) (rest : List Signal) (t : Thread Group S)
      (f : Completion S T)
      → eq s p.signal ≡ true
      → At (running v (in_library h x)) t f
      → Ensures (Keeps f) (handled (running v (in_library h x)) s rest t)
  handle_library v h x s rest t f own (r, (e, o), pr) =
      rw
        (preempt_outside G s p.signal
          (record { control = running v (in_library h x); sigmask = t.mask }) (beneath s rest t)
          (thread_signal-Ready t (beneath s rest t) refl refl r) own (rw (o.shared, G.shared_lem)))
        (ground arith, (e, ground arith), pr)

  thread_signal-none : (t : Thread Group S) → t.tls.signal ≡ none → thread_signal G t ≡ err tt
  unfolding thread_signal
  thread_signal-none t e = rw e

  -- The thread's own signal, wherever it can be delivered.
  handle_own :
      (c : Control Group S) (s : Signal) (rest : List Signal) (t : Thread Group S)
      (f : Completion S T)
      → t.mask s ≡ false
      → eq s p.signal ≡ true
      → At c t f
      → Ensures (Keeps f) (handled c s rest t)
  handle_own call_site s rest t f m own (l, x) =
      handle_foreign call_site s rest t f (inl (thread_signal-none _ l.unnamed)) (
        record {
          own = l.own;
          shared = l.shared;
          masked = ground arith;
          prompt = l.prompt;
          unnamed = l.unnamed;
          hook = l.hook;
          booted = l.booted;
        },
        x,
      )
  handle_own entry s rest t f m own (r, e, q) =
      absurd (ground (arith, mask-eq t.mask s p.signal own))
  handle_own (running u (in_library h x)) s rest t f m own w =
      handle_library u h x s rest t f own (ground arith)
  handle_own (running u before_fun) s rest t f m own w =
      handle_inside u before_fun s rest t f own w.0 w.1 w.2 refl (ground arith)
  handle_own (running u (client x)) s rest t f m own w =
      handle_inside u (client x) s rest t f own w.0 w.1 w.2 refl (ground arith)
  handle_own (running u (in_hook e x)) s rest t f m own w =
      handle_inside u (in_hook e x) s rest t f own w.0 w.1 w.2 refl (ground arith)
  handle_own (running u after_fun) s rest t f m own w =
      handle_inside u after_fun s rest t f own w.0 w.1 w.2 refl (ground arith)

  thread_signal-At :
      (c : Control Group S) (s : Signal) (rest : List Signal) (t : Thread Group S)
      (f : Completion S T)
      → eq s p.signal ≡ false
      → At c t f
      → (thread_signal G (beneath s rest t) ≡ err tt)
        ⊎ ((thread_signal G (beneath s rest t) ≡ ok p.signal) × (eq s p.signal ≡ false))
  thread_signal-At call_site s rest t f d w = inl (thread_signal-none _ w.0.unnamed)
  thread_signal-At entry s rest t f d w = inr (thread_signal-Ready t _ refl refl w.0, d)
  thread_signal-At (running u q) s rest t f d w = inr (thread_signal-Ready t _ refl refl w.0, d)

  -- Whatever signal the kernel delivers, the handler returns, and the invariant holds where it
  -- returns to.
  pub preempt-Where :
      (c : Control Group S) (s : Signal) (rest : List Signal) (t : Thread Group S)
      (f : Completion S T)
      → t.mask s ≡ false
      → At c t f
      → Ensures (Keeps f) (handled c s rest t)
  preempt-Where c s rest t f m w = elim (Bool-cases (eq s p.signal)) [
    | inl own ↦ handle_own c s rest t f m own w
    | inr foreign ↦
        handle_foreign c s rest t f (thread_signal-At c s rest t f foreign w)
          (Where-foreign c s t rest f foreign w)
  ]
