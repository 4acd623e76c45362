-- ===== src/Linger/Invariant/Yield.antt =====
-- src/linger.rs: a timed function that calls `pause` is paused there.
use libinger.Base.{
  ℕ, true, false, ◌≡◌, refl, some, is_some, List, [], ◌∷◌, returns, Ensures, arith, ==_refl, leb,
  ap, sym, subst, ◌∙◌, ◌==◌, ◌&&◌, ◌||◌, Bool, Ensures->>=,
}
use libinger.Gotcha.{Gotcha}
use libinger.Signal.{number}
use libinger.Signal.Set.{block}
use libinger.Machine.{
  Context, Tls, Action, yield_now, in_hook, Completion, PreemptionSignal, client, in_library,
  Control, entry, call_site, running, Thread, Machine, Event, instruct,
}
use libinger.Preemption.{mask, raise, set_deferred, set_tls, enqueue, disable_preemption}
use libinger.Preemption.Cases.{enable_preemption_due}
use libinger.Linger.Clock.{nsnow}
use libinger.Linger.Preempt.Cases.{pause_lem, preempt_late}
use libinger.Linger.Preempt.{Handled, preempt}
use libinger.Linger.Run.{
  find_unblocked, deliver, deliver_found, deliver_pending, resumed, act, go, leave, hooked,
  at_point, effect, instructed, step, run,
}
use libinger.Linger.Invariant.{Where, Ready, site_of}
use libinger.Linger.Invariant.Steps.{named}

none_left : (n : ℕ) → leb 0 n ≡ true
none_left n = ground arith

opened : (b : Bool) → ((b || true) && false) ≡ false
opened b = ground arith

module _ {Group : Type 0} (G : Gotcha Group) {S T : Type 0} (next : S → Action S T) (g : Group)
    (p : PreemptionSignal) (start : S) (private : G.is_shared g ≡ false) where
  -- The thread in `pause`, from its return on.
  abbrev in_pause : Thread Group S → Thread Group S
  in_pause t = set_deferred G (
      mask G block p.signal
        (set_tls G (record t.tls { deadline = 0 }) (record t { group = G.shared })))

  first :
      (m : Machine Group S T) (s x : S)
      → next s ≡ yield_now x
      → m.thread.pending ≡ []
      → Ready G next g p start m.thread
      → m.control ≡ running (some p.signal) (client s)
      → step G next instruct m
        ≡ returns (record m {
          thread = in_pause m.thread;
          control = running (some p.signal) (in_library m.thread.group x);
        })
  unfolding step effect instructed at_point act go deliver_pending deliver_found mask find_unblocked
  first m s x e q r c =
      rw (c, instructed)
        (rw (e, act)
          (rw
            (pause_lem G p.signal (record m.thread { group = G.shared })
              (named G next g p start private (record m.thread { group = G.shared }) r.own r.named))
            (rw q refl)))

  YieldsNow : Context Group S → Handled Group S → Type 0
  YieldsNow uc h =
      (h.0.control ≡ call_site)
      × (h.1.tls.task.yielded ≡ true)
      × (is_some h.1.tls.task.errno ≡ true)
      × (h.1.tls.task.checkpoint ≡ some uc)

  -- The machine at the call site, with a task that says that the function has yielded, and that it is
  -- paused: it keeps an errno, by which `switch_stack` knows that, and the function's place after its
  -- call of `pause`, in state `x` and in the hook with the errno `e`.
  pub record YieldedAt (x : S) (n : Machine Group S T) : Type 0 where
    pub site : n.control ≡ call_site
    pub told : n.thread.tls.task.yielded ≡ true
    pub unfinished : is_some n.thread.tls.task.errno ≡ true
    pub context : Context Group S
    pub e : ℕ
    pub saved : n.thread.tls.task.checkpoint ≡ some context
    pub stopped : context.control ≡ running (some p.signal) (in_hook e x)

  -- The signal meets the function when its deadline is gone.
  lands :
      (u t : Thread Group S) (uc : Context Group S)
      → Ready G next g p start t
      → u.signaler ≡ t.signaler
      → u.tls ≡ record t.tls { deferred = false; deadline = 0 }
      → u.group ≡ g
      → Ensures (YieldsNow uc) (preempt G p.signal uc u)
  unfolding disable_preemption YieldsNow
  lands u t uc r a b i =
      let (site, e, c, k) = site_of G next g p start t.tls.task.checkpoint r.returns_to in
      rw
        (preempt_late G p.signal p.signal uc u site
          (named G next g p start private u (a ∙ r.own)
            (ap (λ (l : Tls Group S). l.signal) b ∙ r.named))
          (==_refl (number p.signal)) (rw (i, private))
          (ap (λ (l : Tls Group S). leb l.deadline (nsnow G u)) b ∙ none_left (nsnow G u))
          (ap (λ (l : Tls Group S). l.task.checkpoint) b ∙ e))
        (c, ap (λ (l : Tls Group S). l.deadline == 0) b, refl, refl)

  -- The thread when `pause` has returned, and the signal of the yield has been delivered.
  second :
      (t : Thread Group S) (f : Completion S T) (x : S)
      → t.pending ≡ []
      → Ready G next g p start t
      → is_some t.tls.errno_location ≡ true
      → t.group ≡ g
      → Ensures (YieldedAt x) (
          step G next instruct (record {
            thread = in_pause t;
            control = running (some p.signal) (in_library g x);
            fun = f;
          }))
  unfolding step effect instructed at_point leave hooked go deliver_pending deliver_found deliver
      resumed mask raise enqueue find_unblocked YieldsNow
  second t f x q r l i =
      rw
        (enable_preemption_due G p.signal (record (in_pause t) { group = g }) l refl
          (named G next g p start private (record (in_pause t) { group = g }) r.own r.named))
        (rw r.hook (
          rw q (
            rw (==_refl (number p.signal)) (
              rw (opened (t.mask p.signal)) (
                Ensures->>= ⊥ (YieldsNow _) (YieldedAt x) (preempt G p.signal _ _) _
                  (lands _ t _ r refl refl refl)
                  (λ h (c, y, o, k). record {
                    site = c;
                    told = y;
                    unfinished = o;
                    context = _;
                    e = _;
                    saved = k;
                    stopped = refl;
                  }))))))

  abbrev pub Yielded : S → List Event → Machine Group S T × List Event → Type 0
  Yielded x es r = YieldedAt x r.0 × (r.1 ≡ es)

  run-Yielded :
      (x : S) (n : Machine Group S T) (c : Control Group S) (es : List Event)
      → c ≡ call_site
      → YieldedAt x n
      → Ensures (Yielded x es) (run G next es n c)
  unfolding run
  run-Yielded x n call_site es k y = (y, refl)
  run-Yielded x n entry es k y = cc
  run-Yielded x n (running u q) es k y = cc

  -- A function that is about to call `pause`, with preemption on and no signal waiting: whatever its
  -- deadline is, two instructions later the processor is back at its call site, the function is marked
  -- as having yielded and kept as a paused one, with an errno and its place right after the call of
  -- `pause`, and the events after these two are left.
  pub run_yields :
      (m : Machine Group S T) (s x : S) (es : List Event)
      → Where G next g p start (running (some p.signal) (client s)) m.thread m.fun
      → m.control ≡ running (some p.signal) (client s)
      → next s ≡ yield_now x
      → m.thread.pending ≡ []
      → Ensures (Yielded x es) (run G next (instruct ∷ instruct ∷ es) m m.control)
  unfolding run
  run_yields m s x es (r, o, pr) c e q =
      subst (λ k. Ensures (Yielded x es) (run G next (instruct ∷ instruct ∷ es) m k)) (sym c)
        (rw (first m s x e q r c) (
          Ensures->>= ⊥ (YieldedAt x) (Yielded x es) _ (λ n. run G next es n n.control)
            (subst
              (λ h. Ensures (YieldedAt x) (
                step G next instruct (record {
                  thread = in_pause m.thread;
                  control = running (some p.signal) (in_library h x);
                  fun = m.fun;
                })))
              (sym o.inside) (second m.thread m.fun x q r o.located o.inside))
            (λ n y. run-Yielded x n n.control es y.site y)))
