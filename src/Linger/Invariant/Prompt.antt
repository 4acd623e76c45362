-- ===== src/Linger/Invariant/Prompt.antt =====
-- src/linger.rs: in a timed function's run no signal waits that could be delivered, and the deadline is
-- no further away than the budget.
pub mod Runs
use libinger.Base.{
  ℕ, ◌+◌, ◌*◌, ◌≤◌, ◌<◌, ◌≡◌, refl, subst, sym, ap, ◌∙◌, Bool, true, false, Option, none, some,
  is_some, List, [], ◌∷◌, ok, inl, inr, ◌⊎◌, returns, Allows, Allows->>=, Meets-Allows, Ensures,
  Bool-cases, arith, ◌==◌, if◌then◌else◌,
}
use libinger.Gotcha.{Gotcha}
use libinger.Signal.{Signal}
use libinger.Signal.Set.{Sigset, add}
use libinger.Machine.{
  Action, compute, library, yield_now, finish, Completion, PreemptionSignal, Point, before_fun,
  client, in_library, in_hook, after_fun, Control, call_site, entry, running, Context, Thread,
  Machine, real_thread,
}
use libinger.Preemption.{
  disable_preemption, mask, raise, set_tls, propagate_errno, is_preemptible, thread_signal, enqueue,
}
use libinger.Preemption.Cases.{
  enable_preemption-some, enable_preemption_quiet, enable_preemption_due,
}
use libinger.Linger.Clock.{u64_mod, nsnow, stamp}
use libinger.Linger.Clock.Deadline.{stamp-deadline}
use libinger.Linger.Preempt.{Handled, preempt}
use libinger.Linger.Preempt.Cases.{pause_lem, preempt_foreign}
use libinger.Linger.Preempt.Leaves.{preempt-Leaves}
use libinger.Linger.Run.{
  deliver, deliver_found, deliver_pending, resumed, act, go, leave, hooked, bootstrapped, enabled,
  call_fun, arrive_at, at_point, instructed, find_unblocked,
}
use libinger.Linger.Run.Pending.{
  Quiet, Unique, Lone, Lone-of_Quiet, Quiet-add, Quiet-block, Lone-unblock, enqueue-Unique,
  enqueue-Lone, find_unblocked-Quiet, Lone-cases, Takes,
}
use libinger.Linger.Invariant.{Where, Inv, Ready, site_of}
use libinger.Linger.Invariant.Steps.{named}

-- With `waits` for the signals that wait under the mask, and with `left` nanoseconds still to come:
-- once `schedule` has stamped the deadline, the function has no more than its budget `us` before it.
-- Only a `fresh` run may still be at the start of `schedule`.
abbrev pub Timely :
    {Group S : Type 0}
    → ℕ
    → Bool
    → (Sigset → List Signal → Type 0)
    → ℕ
    → Control Group S
    → Thread Group S
    → Type 0
Timely us fresh waits left call_site t = Unit {0}
Timely us fresh waits left entry t =
    waits t.mask t.pending
    × Unique t.pending
    × (t.tls.deadline ≡ us)
    × (t.clock + left + us * 1000 < u64_mod)
    × (fresh ≡ true)
Timely us fresh waits left (running u q) t =
    waits t.mask t.pending
    × Unique t.pending
    × (t.tls.deadline ≤ t.clock + us * 1000)
    × (t.clock + left < u64_mod)

module _ {Group : Type 0} (G : Gotcha Group) {S T : Type 0} (next : S → Action S T) (g : Group)
    (p : PreemptionSignal) (start : S) (private : G.is_shared g ≡ false) (us : ℕ) (fresh : Bool)
    (left : ℕ) where
  abbrev Good : Machine Group S T → Type 0
  Good = Inv G next g p start

  abbrev pub Prompt : Machine Group S T → Type 0
  Prompt m = Timely us fresh Quiet left m.control m.thread

  -- What holds before the kernel looks for a signal to deliver.
  abbrev pub Loose : Machine Group S T → Type 0
  Loose m = (s : Signal) × Timely us fresh (Lone s) left m.control m.thread

  abbrev Handles : Handled Group S → Type 0
  Handles h = Timely us fresh Quiet left h.0.control (record h.1 { mask = h.0.sigmask })

  module _ (s : Signal) (rest : List Signal) (t : Thread Group S) (q : Quiet t.mask rest)
      (u : Unique rest) where
    abbrev uc_at : Control Group S → Context Group S
    uc_at c = record { control = c; sigmask = t.mask }

    abbrev beneath : Thread Group S
    beneath = record t { mask = add t.mask s; pending = rest }

    waiting :
        (sigmask : Sigset) → (sigmask ≡ t.mask) ⊎ (sigmask ≡ add t.mask s) → Quiet sigmask rest
    waiting sigmask (inl e) = subst (λ k. Quiet k rest) (sym e) q
    waiting sigmask (inr e) = subst (λ k. Quiet k rest) (sym e) (Quiet-add s t.mask rest q)

    goes_on-Timely :
        (w : Sigset → List Signal → Type 0) (c : Control Group S) (sigmask : Sigset) (d : Bool)
        → Timely us fresh w left c t
        → (sigmask ≡ t.mask) ⊎ (sigmask ≡ add t.mask s)
        → Timely us fresh Quiet left c
            (record t { mask = sigmask; pending = rest; tls = record t.tls { deferred = d } })
    goes_on-Timely w call_site sigmask d h o = tt
    goes_on-Timely w entry sigmask d h o = (waiting sigmask o, u, h.2, h.3, h.4)
    goes_on-Timely w (running v x) sigmask d h o = (waiting sigmask o, u, h.2, h.3)

    interrupted :
        (w : Sigset → List Signal → Type 0) (c : Control Group S)
        → Ready G next g p start t
        → Timely us fresh w left c t
        → Ensures Handles (preempt G s (uc_at c) beneath)
    unfolding disable_preemption
    interrupted w c r h =
        let (site, k, e, x) = site_of G next g p start t.tls.task.checkpoint r.returns_to in
        preempt-Leaves G s p.signal (uc_at c) beneath Handles site
          (named G next g p start private beneath r.own r.named) k
          (λ sigmask d o n. goes_on-Timely w c sigmask d h o) (λ d. rw e tt)

  -- A signal is delivered at a point of the run.
  delivered :
      (w : Sigset → List Signal → Type 0) (m : Machine Group S T) (s : Signal) (rest : List Signal)
      → Quiet m.thread.mask rest
      → Unique rest
      → Ready G next g p start m.thread
      → Timely us fresh w left m.control m.thread
      → Allows Prompt (deliver_found G next m (some (s, rest)))
  unfolding deliver_found deliver resumed
  delivered w m s rest q u r h =
      Allows->>= {A = Handled Group S} Handles Prompt
        (preempt G s (uc_at s rest m.thread q u m.control) (beneath s rest m.thread q u))
        (λ x. returns (resumed G next m x))
        (Meets-Allows ⊥ Handles _ (interrupted s rest m.thread q u w m.control r h)) (λ x k. k)

  -- Or back at the call site.
  delivered_back :
      (m : Machine Group S T) (o : Option (Signal × List Signal))
      → m.control ≡ call_site
      → m.thread.tls.signal ≡ none
      → Allows Prompt (deliver_found G next m o)
  unfolding deliver_found deliver resumed thread_signal
  delivered_back m none e n = rw e tt
  delivered_back m (some (s, rest)) e n =
      rw
        (preempt_foreign G s p.signal (record { control = m.control; sigmask = m.thread.mask })
          (record m.thread { mask = add m.thread.mask s; pending = rest }) (inl (rw n refl)))
        (rw e tt)

  deliver_running :
      (m : Machine Group S T) (s : Signal)
      → Ready G next g p start m.thread
      → Lone s m.thread.mask m.thread.pending
      → Unique m.thread.pending
      → (Quiet m.thread.mask m.thread.pending → Prompt m)
      → Timely us fresh (Lone s) left m.control m.thread
      → Allows Prompt (deliver_pending G next m)
  unfolding deliver_pending
  deliver_running m s r l u k h = elim (Lone-cases s m.thread.mask m.thread.pending u l) [
    | inl q ↦
        rw (find_unblocked-Quiet m.thread.mask m.thread.pending q) (unfold deliver_found in k q)
    | inr t ↦ rw t.found (delivered (Lone s) m t.signal t.rest t.quiet t.unique r h)
  ]

  -- The kernel delivers what can be delivered, and then nothing more can be.
  pub deliver_pending-Prompt :
      (m : Machine Group S T) → Good m → Loose m → Allows Prompt (deliver_pending G next m)
  unfolding deliver_pending
  deliver_pending-Prompt m w h = at_control m.control refl w h
    where
      at_control :
          (c : Control Group S)
          → m.control ≡ c
          → Where G next g p start c m.thread m.fun
          → (s : Signal) × Timely us fresh (Lone s) left c m.thread
          → Allows Prompt (deliver_pending G next m)
      at_control call_site e (l, x) (s, h) = delivered_back m _ e l.unnamed
      at_control entry e (r, x, y) (s, h) =
          deliver_running m s r h.0 h.1 (λ q. rw e (q, h.1, h.2, h.3, h.4)) (rw e h)
      at_control (running v x) e (r, y, z) (s, h) =
          deliver_running m s r h.0 h.1 (λ q. rw e (q, h.1, h.2, h.3)) (rw e h)
