-- ===== src/Linger/Invariant/Prompt/Runs.antt =====
-- src/linger.rs: no event leaves a signal waiting that could be delivered, or the deadline further away
-- than the budget.
use libinger.Base.{
  ℕ, ◌+◌, ◌*◌, ◌≤◌, ◌<◌, ◌≡◌, refl, subst, sym, Bool, true, false, Option, none, some, is_some, ok,
  inl, inr, Allows, Ensures, Bool-cases, arith, ◌==◌,
}
use libinger.Gotcha.{Gotcha}
use libinger.Signal.{Signal}
use libinger.Machine.{
  Action, compute, library, yield_now, finish, PreemptionSignal, Point, before_fun, client,
  in_library, in_hook, after_fun, Control, call_site, entry, running, Thread, Machine, real_thread,
}
use libinger.Preemption.{
  disable_preemption, mask, raise, set_tls, propagate_errno, thread_signal, enqueue,
}
use libinger.Preemption.Cases.{
  enable_preemption-some, enable_preemption_quiet, enable_preemption_due,
}
use libinger.Linger.Clock.{u64_mod, stamp}
use libinger.Linger.Clock.Deadline.{stamp-deadline}
use libinger.Linger.Preempt.Cases.{pause_lem}
use libinger.Linger.Run.{
  deliver_pending, act, go, leave, hooked, bootstrapped, enabled, call_fun, arrive_at, at_point,
  instructed,
}
use libinger.Linger.Run.Pending.{
  Quiet, Unique, Lone, Lone-of_Quiet, Quiet-block, Lone-unblock, enqueue-Unique, enqueue-Lone,
}
use libinger.Linger.Invariant.{Where, Inv, Ready, site_of}
use libinger.Linger.Invariant.Steps.{named}
use libinger.Base.{Ensures->>=, Ensures-Allows}
use libinger.Machine.{Event, instruct, arrive, elapse}
use libinger.Linger.Run.{effect, step}
use libinger.Linger.Invariant.Steps.{effect-Inv, deliver_pending-Inv}
use libinger.Linger.Invariant.Spends.{passing}
use libinger.Linger.Invariant.Prompt.{Timely, Prompt, Loose, deliver_pending-Prompt}

-- Whether a run is still fresh after an event.
abbrev pub after_event : Bool → Event → Bool
after_event fresh instruct = false
after_event fresh (arrive s) = fresh
after_event fresh (elapse n) = fresh

module _ {Group : Type 0} (G : Gotcha Group) {S T : Type 0} (next : S → Action S T) (g : Group)
    (p : PreemptionSignal) (start : S) (private : G.is_shared g ≡ false) (us : ℕ) (fresh : Bool)
    (left : ℕ) where
  abbrev Loosely : Machine Group S T → Type 0
  Loosely = Loose G next g p start private us false left

  -- What holds of the thread at any point of the run.
  abbrev Here : Thread Group S → Type 0
  Here t =
      Quiet t.mask t.pending
      × Unique t.pending
      × (t.tls.deadline ≤ t.clock + us * 1000)
      × (t.clock + left < u64_mod)

  abbrev lone : (t : Thread Group S) → Here t → Lone p.signal t.mask t.pending
  lone t h = Lone-of_Quiet p.signal t.mask t.pending h.0

  loosen :
      (t : Thread Group S)
      → Here t
      → (s : Signal) × Timely us false (Lone s) left (running none before_fun) t
  loosen t h = (p.signal, (lone t h, h.1, h.2, h.3))

  act-Loose :
      (m : Machine Group S T) (u : Option Signal) (a : Action S T)
      → Ready G next g p start m.thread
      → Here m.thread
      → Allows Loosely (act G next m u m.thread a)
  unfolding act go mask
  act-Loose m u (compute e s) r h = loosen m.thread h
  act-Loose m u (library e s) r h = loosen m.thread h
  act-Loose m u (yield_now s) r h =
      let t = record m.thread { group = G.shared } in
      rw (pause_lem G p.signal t (named G next g p start private t r.own r.named)) (
        p.signal,
        (
          Lone-of_Quiet p.signal _ _ (Quiet-block p.signal m.thread.mask m.thread.pending h.0),
          h.1,
          omega arith,
          h.3,
        ),
      )
  act-Loose m u (finish v) r h = loosen m.thread h

  leave-Loose :
      (m : Machine Group S T) (u : Option Signal) (s : S) (t : Thread Group S)
      → Ready G next g p start t
      → is_some t.tls.errno_location ≡ true
      → Here t
      → Allows Loosely (leave G next m u s t)
  unfolding leave hooked go raise mask
  leave-Loose m u s t r l h = elim (Bool-cases t.tls.deferred) [
    | inl due ↦
        rw
          (enable_preemption_due G p.signal t l due
            (named G next g p start private t r.own r.named))
          (rw r.hook (
            p.signal,
            (
              Lone-unblock p.signal t.mask _ (enqueue-Lone p.signal t.mask t.pending (lone t h)),
              enqueue-Unique p.signal t.pending h.1,
              h.2,
              h.3,
            ),
          ))
    | inr quiet ↦ rw (enable_preemption_quiet G p.signal t l quiet) (rw r.hook (loosen t h))
  ]

  stamped_named :
      (t : Thread Group S)
      → t.signaler ≡ some p
      → t.tls.signal ≡ some real_thread
      → thread_signal G (stamp G t) ≡ ok p.signal
  unfolding stamp
  stamped_named t o n = named G next g p start private _ o n

  -- `schedule` stamps the deadline, which is then just the budget away.
  bootstrapped-Loose :
      (m : Machine Group S T)
      → Where G next g p start entry m.thread m.fun
      → Timely us fresh Quiet left entry m.thread
      → Allows Loosely (bootstrapped G next m (some g))
  unfolding bootstrapped enabled go mask
  bootstrapped-Loose m (r, e, f) h =
      let booted = set_tls G (record m.thread.tls { bootstrap = none }) m.thread in
      let t = stamp G booted in
      let k : t.tls.deadline ≡ m.thread.clock + m.thread.tls.deadline * 1000 =
        stamp-deadline G booted (ground (arith, h.2, h.3)) in
      let soon : t.tls.deadline ≤ t.clock + us * 1000 =
        subst (λ d. d ≤ t.clock + us * 1000) (sym k) (unfold stamp in ground (arith, h.2)) in
      rw
        (enable_preemption-some G p.signal t g (stamped_named booted r.own r.named)
          (unfold stamp in e.prompt))
        (
          p.signal,
          (
            unfold stamp in
                Lone-unblock p.signal m.thread.mask m.thread.pending
                  (Lone-of_Quiet p.signal _ _ h.0),
            unfold stamp in h.1,
            soon,
            unfold stamp in ground (arith, h.3),
          ),
        )

  at_point-Loose :
      (m : Machine Group S T) (u : Option Signal) (q : Point Group S)
      → Where G next g p start (running u q) m.thread m.fun
      → Here m.thread
      → Allows Loosely (at_point G next m u q)
  unfolding at_point call_fun go propagate_errno arrive_at disable_preemption
  at_point-Loose m u before_fun (r, o, pr) h = rw (pr, call_fun) (loosen m.thread h)
  at_point-Loose m u (client s) (r, o, pr) h = act-Loose m u (next s) r h
  at_point-Loose m u (in_library k s) (r, (e, o), pr) h =
      leave-Loose m u s (record m.thread { group = k }) (ground arith) o.located h
  at_point-Loose m u (in_hook e s) w h = elim (Bool-cases (e == 0)) [
    | inl z ↦ rw z (loosen m.thread h)
    | inr z ↦ rw z (loosen m.thread h)
  ]
  at_point-Loose m none after_fun (r, o, pr) h =
      let (c, e, a, b) = site_of G next g p start m.thread.tls.task.checkpoint r.returns_to in
      rw (e, arrive_at) (rw a (p.signal, tt))
  at_point-Loose m (some v) after_fun (r, o, pr) h =
      let (c, e, a, b) = site_of G next g p start m.thread.tls.task.checkpoint r.returns_to in
      rw (e, arrive_at) (rw a (p.signal, tt))

  pub instructed-Loose :
      (m : Machine Group S T) (c : Control Group S)
      → m.control ≡ c
      → Where G next g p start c m.thread m.fun
      → Timely us fresh Quiet left c m.thread
      → Allows Loosely (instructed G next m c)
  unfolding instructed
  instructed-Loose m call_site e w h = rw e (p.signal, tt)
  instructed-Loose m entry e w h = rw w.1.boot (bootstrapped-Loose m w h)
  instructed-Loose m (running u q) e w h = at_point-Loose m u q w h

module _ {Group : Type 0} (G : Gotcha Group) {S T : Type 0} (next : S → Action S T) (g : Group)
    (p : PreemptionSignal) (start : S) (private : G.is_shared g ≡ false) (us : ℕ) where
  abbrev pub Kept : Bool → ℕ → Machine Group S T → Type 0
  Kept fresh left m = Inv G next g p start m × Prompt G next g p start private us fresh left m

  Timely-elapse :
      (fresh : Bool) (left n : ℕ) (c : Control Group S) (t : Thread Group S)
      → Timely us fresh Quiet (n + left) c t
      → (s : Signal) × Timely us fresh (Lone s) left c (record t { clock = t.clock + n })
  Timely-elapse fresh left n call_site t h = (p.signal, tt)
  Timely-elapse fresh left n entry t h =
      (p.signal, (Lone-of_Quiet p.signal t.mask t.pending h.0, h.1, h.2, omega arith, h.4))
  Timely-elapse fresh left n (running u q) t h =
      (p.signal, (Lone-of_Quiet p.signal t.mask t.pending h.0, h.1, omega arith, omega arith))

  Timely-arrive :
      (fresh : Bool) (left : ℕ) (c : Control Group S) (t : Thread Group S) (s : Signal)
      → Timely us fresh Quiet (0 + left) c t
      → Timely us fresh (Lone s) left c (record t { pending = enqueue s t.pending })
  Timely-arrive fresh left call_site t s h = tt
  Timely-arrive fresh left entry t s h = (
    enqueue-Lone s t.mask t.pending (Lone-of_Quiet s t.mask t.pending h.0),
    enqueue-Unique s t.pending h.1,
    h.2,
    omega arith,
    h.4,
  )
  Timely-arrive fresh left (running u q) t s h = (
    enqueue-Lone s t.mask t.pending (Lone-of_Quiet s t.mask t.pending h.0),
    enqueue-Unique s t.pending h.1,
    h.2,
    omega arith,
  )

  Timely-less :
      (fresh : Bool) (k left : ℕ) (c : Control Group S) (t : Thread Group S)
      → k ≤ left
      → Timely us fresh Quiet left c t
      → Timely us fresh Quiet k c t
  Timely-less fresh k left call_site t l h = tt
  Timely-less fresh k left entry t l h = (h.0, h.1, h.2, omega arith, h.4)
  Timely-less fresh k left (running u q) t l h = (h.0, h.1, h.2, omega arith)

  pub Kept-less :
      (fresh : Bool) (k left : ℕ) (m : Machine Group S T)
      → k ≤ left
      → Kept fresh left m
      → Kept fresh k m
  Kept-less fresh k left m l (w, h) = (w, Timely-less fresh k left m.control m.thread l h)

  effect-Loose :
      (fresh : Bool) (left : ℕ) (e : Event) (m : Machine Group S T)
      → Kept fresh (passing e + left) m
      → Allows (Loose G next g p start private us (after_event fresh e) left) (effect G next e m)
  unfolding effect raise
  effect-Loose fresh left instruct m (w, h) =
      instructed-Loose G next g p start private us fresh left m m.control refl w
        (Timely-less fresh left _ m.control m.thread (omega arith) h)
  effect-Loose fresh left (arrive s) m (w, h) = (s, Timely-arrive fresh left m.control m.thread s h)
  effect-Loose fresh left (elapse n) m (w, h) = Timely-elapse fresh left n m.control m.thread h

  pub deliver_pending-Kept :
      (fresh : Bool) (left : ℕ) (m : Machine Group S T)
      → Inv G next g p start m × Loose G next g p start private us fresh left m
      → Ensures (Kept fresh left) (deliver_pending G next m)
  deliver_pending-Kept fresh left m (w, h) =
      Ensures-Allows (Inv G next g p start) (Prompt G next g p start private us fresh left)
        (deliver_pending G next m) (deliver_pending-Inv G next g p start private m w)
        (deliver_pending-Prompt G next g p start private us fresh left m w h)

  -- An event keeps both, with less time to come; an instruction leaves the start of `schedule`.
  pub step-Kept :
      (fresh : Bool) (left : ℕ) (e : Event) (m : Machine Group S T)
      → Kept fresh (passing e + left) m
      → Ensures (Kept (after_event fresh e) left) (step G next e m)
  unfolding step
  step-Kept fresh left e m k =
      Ensures->>= _
        (λ n.
          Inv G next g p start n × Loose G next g p start private us (after_event fresh e) left n)
        (Kept (after_event fresh e) left) (effect G next e m) (deliver_pending G next)
        (Ensures-Allows (Inv G next g p start)
          (Loose G next g p start private us (after_event fresh e) left) (effect G next e m)
          (effect-Inv G next g p start private e m k.0) (effect-Loose fresh left e m k))
        (deliver_pending-Kept (after_event fresh e) left)
