-- ===== src/Linger/Invariant/Overdue.antt =====
-- src/linger.rs: a preemption signal meets a timed function whose budget is over.
pub mod Runs
use libinger.Base.{
  ℕ, ◌+◌, ◌*◌, ◌≤◌, ◌<◌, ◌≡◌, refl, subst, sym, ap, ◌∙◌, Bool, true, false, Option, none, some,
  is_some, List, [], ◌∷◌, ◌++◌, ok, inl, inr, ◌⊎◌, returns, Allows, Allows->>=, Meets-Allows,
  Ensures, Ensures->>=, Bool-cases, arith, ◌==◌, if◌then◌else◌, leb, ==_refl, Ensures-Allows,
  length, length-append, Meets-imp, ◌>>=◌,
}
use libinger.Gotcha.{Gotcha}
use libinger.Signal.{Signal, eq, number}
use libinger.Signal.Set.{Sigset, add, unblock, changed, empty}
use libinger.Machine.{
  Action, Completion, PreemptionSignal, Point, before_fun, client, in_library, in_hook, after_fun,
  Control, call_site, entry, running, Context, Thread, Machine, Event, instruct, arrive, elapse,
}
use libinger.Preemption.{disable_preemption, mask, raise, is_preemptible, enqueue, set_deferred}
use libinger.Preemption.Cases.{enable_preemption_due}
use libinger.Linger.Clock.{u64_mod, nsnow}
use libinger.Linger.Clock.Deadline.{nsnow-clock}
use libinger.Linger.Preempt.{Handled, preempt}
use libinger.Linger.Preempt.Cases.{preempt_outside}
use libinger.Linger.Preempt.Pause.{is_due}
use libinger.Linger.Preempt.Leaves.{preempt-Leaves}
use libinger.Linger.Run.{
  deliver, deliver_found, deliver_pending, resumed, go, leave, hooked, at_point, effect, instructed,
  step, run, find_unblocked,
}
use libinger.Linger.Run.Pending.{
  Quiet, Unique, Lone, Lone-of_Quiet, Lone-unblock, find_unblocked-Quiet, Takes, enqueue-Takes,
  enqueue-Quiet,
}
use libinger.Linger.Invariant.{Where, Inv, Ready, Open, Outside, Sits, is_inside, site_of}
use libinger.Linger.Invariant.Steps.{named, step-Inv}
use libinger.Linger.Invariant.Due.{instructions}
use libinger.Linger.Invariant.Spends.{elapsed}
use libinger.Linger.Invariant.Prompt.{Prompt, Timely}
use libinger.Linger.Invariant.Prompt.Runs.{Kept, after_event, step-Kept}

module _ {Group : Type 0} (G : Gotcha Group) {S T : Type 0} (next : S → Action S T) (g : Group)
    (p : PreemptionSignal) (start : S) (private : G.is_shared g ≡ false) where
  abbrev pub Back : Machine Group S T → Type 0
  Back m = m.control ≡ call_site

  -- The budget is over.
  abbrev pub Over : Thread Group S → Type 0
  Over t = (t.tls.deadline ≤ t.clock) × (t.clock < u64_mod)

  Over-is_due :
      (s : Signal) (uc : Context Group S) (t : Thread Group S)
      → eq s p.signal ≡ true
      → t.group ≡ g
      → Over t
      → is_due G s p.signal uc t ≡ true
  Over-is_due s uc t e i o =
      let shared : G.is_shared t.group ≡ false = ap G.is_shared i ∙ private in
      ground (arith, nsnow-clock G t o.1)

  -- The thread's own signal is there, the function is in its group, and its budget is over: it is
  -- paused.
  found-Back :
      (m : Machine Group S T)
      → Ready G next g p start m.thread
      → m.thread.group ≡ g
      → Over m.thread
      → Takes p.signal m.thread.mask m.thread.pending
      → Allows Back (deliver_pending G next m)
  unfolding deliver_pending deliver_found deliver resumed disable_preemption
  found-Back m r i l t =
      let uc : Context Group S = record { control = m.control; sigmask = m.thread.mask } in
      let u : Thread Group S = record m.thread {
        mask = add m.thread.mask t.signal;
        pending = t.rest;
      } in
      let (site, k, e, x) = site_of G next g p start m.thread.tls.task.checkpoint r.returns_to in
      rw t.found (
        Allows->>= {A = Handled Group S} (λ h. h.0.control ≡ call_site) Back
          (preempt G t.signal uc u) (λ h. returns (resumed G next m h))
          (Meets-Allows ⊥ _ (preempt G t.signal uc u) (
            preempt-Leaves G t.signal p.signal uc u (λ h. h.0.control ≡ call_site) site
              (named G next g p start private u r.own r.named) k
              (λ sigmask d o n. absurd (ground (arith, Over-is_due t.signal uc u t.same i l)))
              (λ d. e)))
          (λ h b. b))

  -- The signal arrives at a point of the function's group: it is delivered there.
  pub arrive-Back :
      (m : Machine Group S T) (v : Option Signal)
      → Ready G next g p start m.thread
      → Open G next g p start v m.thread
      → Over m.thread
      → Quiet m.thread.mask m.thread.pending
      → Unique m.thread.pending
      → Allows Back (step G next (arrive p.signal) m)
  unfolding step effect raise
  arrive-Back m v r o l q u =
      found-Back
        (record m { thread = record m.thread { pending = enqueue p.signal m.thread.pending } })
        (ground (arith, r)) o.inside l
        (enqueue-Takes p.signal m.thread.mask m.thread.pending u
          (Lone-of_Quiet p.signal m.thread.mask m.thread.pending q) o.unmasked)

  -- The function is in a library call, and its preemption has been put off.
  pub record PutOff (h : Group) (x : S) (v : Option Signal) (m : Machine Group S T) : Type 0 where
    pub in_call : m.control ≡ running v (in_library h x)
    pub deferred : m.thread.tls.deferred ≡ true
    pub over : Over m.thread

  -- The signal arrives in a library call: the preemption is put off.
  pub arrive-PutOff :
      (m : Machine Group S T) (v : Option Signal) (h : Group) (x : S)
      → m.control ≡ running v (in_library h x)
      → Ready G next g p start m.thread
      → Outside G next g p start v m.thread
      → Over m.thread
      → Quiet m.thread.mask m.thread.pending
      → Unique m.thread.pending
      → Allows (PutOff h x v) (step G next (arrive p.signal) m)
  unfolding step effect raise deliver_pending deliver_found deliver resumed
  arrive-PutOff m v h x c r o l q u = elim (Bool-cases (m.thread.mask p.signal)) [
    | inl masked ↦
        rw
          (find_unblocked-Quiet m.thread.mask (enqueue p.signal m.thread.pending)
            (enqueue-Quiet p.signal m.thread.mask m.thread.pending q masked))
          (record { in_call = c; deferred = sym o.put_off ∙ masked; over = l })
    | inr unmasked ↦
        let t =
          enqueue-Takes p.signal m.thread.mask m.thread.pending u
            (Lone-of_Quiet p.signal m.thread.mask m.thread.pending q) unmasked in
        let beneath : Thread Group S = record m.thread {
          mask = add m.thread.mask t.signal;
          pending = t.rest;
        } in
        rw t.found (
          rw
            (preempt_outside G t.signal p.signal
              (record { control = m.control; sigmask = m.thread.mask }) beneath
              (named G next g p start private beneath r.own r.named) t.same
              (rw (o.shared, G.shared_lem)))
            (record { in_call = c; deferred = refl; over = l }))
  ]

  -- The library call returns: the signal is raised again, and delivered.
  pub leave-Back :
      (m : Machine Group S T) (v : Option Signal) (h : Group) (x : S)
      → PutOff h x v m
      → Where G next g p start (running v (in_library h x)) m.thread m.fun
      → Quiet m.thread.mask m.thread.pending
      → Unique m.thread.pending
      → Allows Back (step G next instruct m)
  unfolding step effect instructed at_point leave hooked go raise mask
  leave-Back m v h x d (r, (e, o), y) q u =
      let t : Thread Group S = record m.thread { group = h } in
      rw (d.in_call, instructed)
        (rw
          (enable_preemption_due G p.signal t o.located d.deferred
            (named G next g p start private t r.own r.named))
          (rw r.hook (
            found-Back _ (ground (arith, r)) e d.over (
              enqueue-Takes p.signal (changed unblock (add empty p.signal) m.thread.mask)
                m.thread.pending u
                (Lone-unblock p.signal m.thread.mask m.thread.pending
                  (Lone-of_Quiet p.signal m.thread.mask m.thread.pending q))
                (ground (arith, ==_refl (number p.signal)))))))
