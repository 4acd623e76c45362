-- ===== src/Linger/Invariant/Spends.antt =====
-- src/linger.rs: the clock and the deadline at every point of a timed function's run, and how long a
-- function that did not yield has had when it is paused.
pub mod Runs
use libinger.Base.{
  ℕ, ◌+◌, ◌*◌, ◌≤◌, ◌<◌, ◌≡◌, refl, sym, subst, Bool, true, false, not, ◌&&◌, Option, none, some,
  is_some, List, [], ◌∷◌, ok, err, inl, inr, ◌⊎◌, returns, Allows, Allows->>=, Meets-Allows,
  Ensures, Meets, Meets-mono, Ensures->>=, Ensures-Allows, Bool-cases, leb, arith, ◌==◌,
  if◌then◌else◌, Safe,
}
use libinger.Gotcha.{Gotcha}
use libinger.Signal.{Signal, eq}
use libinger.Signal.Set.{Sigset, add}
use libinger.Machine.{
  Action, compute, library, yield_now, finish, Completion, PreemptionSignal, Point, before_fun,
  client, in_library, in_hook, after_fun, Control, call_site, entry, running, Context, Thread,
  Machine, Event, instruct, arrive, elapse, real_thread,
}
use libinger.Preemption.{
  disable_preemption, mask, raise, set_tls, propagate_errno, is_preemptible, thread_signal,
}
use libinger.Preemption.Cases.{
  enable_preemption-some, enable_preemption_quiet, enable_preemption_due,
}
use libinger.Linger.Clock.{u64_mod, nsnow, stamp, stamped}
use libinger.Linger.Clock.Deadline.{nsnow-clock, stamp-deadline}
use libinger.Linger.Preempt.{Handled, preempt}
use libinger.Linger.Preempt.Pause.{is_due}
use libinger.Linger.Preempt.Leaves.{preempt-Leaves}
use libinger.Linger.Preempt.Cases.{
  pause_lem, preempt_foreign, preempt_outside, preempt_early, preempt_late,
}
use libinger.Linger.Run.{
  deliver, deliver_found, deliver_pending, resumed, act, go, leave, hooked, bootstrapped, enabled,
  call_fun, arrive_at, at_point, effect, instructed, step, run,
}
use libinger.Linger.Invariant.{Where, Inv, Ready, Left, site_of}
use libinger.Linger.Invariant.Steps.{named, effect-Inv, deliver_pending-Inv}

abbrev pub passing : Event → ℕ
passing instruct = 0
passing (arrive s) = 0
passing (elapse n) = n

-- The time that passes in the events.
abbrev pub elapsed : List Event → ℕ
elapsed [] = 0
elapsed (e ∷ es) = passing e + elapsed es

module _ {Group : Type 0} (G : Gotcha Group) {S : Type 0} where
  -- A function that was paused, and not because it yielded.
  abbrev pub ran_out : Thread Group S → Bool
  ran_out t = is_some t.tls.task.errno && not t.tls.task.yielded

  nsnow_le : (t : Thread Group S) → nsnow G t ≤ t.clock
  unfolding nsnow
  nsnow_le t = omega arith

  module _ (from us : ℕ) where
    -- With the budget `us` from the time `from` on, and with `left` nanoseconds still to come: once
    -- `schedule` has stamped the deadline, it is the end of the budget, or gone by a yield.
    abbrev pub Spends : ℕ → Control Group S → Thread Group S → Type 0
    Spends left call_site t = ran_out t ≡ true → from + us * 1000 ≤ t.clock
    Spends left entry t =
        (t.tls.deadline ≡ us) × (from ≤ t.clock) × (t.clock + left + us * 1000 < u64_mod)
    Spends left (running u q) t = (t.tls.deadline ≡ 0) ⊎ (from + us * 1000 ≤ t.tls.deadline)

    abbrev pub SpendsAll : {T : Type 0} → ℕ → Machine Group S T → Type 0
    SpendsAll left m = Spends left m.control m.thread

module _ {Group : Type 0} (G : Gotcha Group) {S T : Type 0} (next : S → Action S T) (g : Group)
    (p : PreemptionSignal) (start : S) (private : G.is_shared g ≡ false) (from us left : ℕ) where
  abbrev Good : Machine Group S T → Type 0
  Good = Inv G next g p start

  abbrev Here : Control Group S → Thread Group S → Type 0
  Here = Spends G from us left

  abbrev Fine : Machine Group S T → Type 0
  Fine = SpendsAll G from us left

  -- What the handler leaves, read as the machine reads it.
  abbrev Handles : Handled Group S → Type 0
  Handles h = Here h.0.control (record h.1 { mask = h.0.sigmask })

  abbrev beneath : Signal → List Signal → Thread Group S → Thread Group S
  beneath s rest t = record t { mask = add t.mask s; pending = rest }

  Here-beneath :
      (c : Control Group S) (s : Signal) (rest : List Signal) (t : Thread Group S) (d : Bool)
      (sigmask : Sigset)
      → Here c t
      → Here c (record t { mask = sigmask; pending = rest; tls = record t.tls { deferred = d } })
  Here-beneath call_site s rest t d k h = h
  Here-beneath entry s rest t d k h = h
  Here-beneath (running u q) s rest t d k h = h

  module _ (s : Signal) (rest : List Signal) (t : Thread Group S) where
    abbrev uc_at : Control Group S → Context Group S
    uc_at c = record { control = c; sigmask = t.mask }

    abbrev due_at : Control Group S → Bool
    due_at c = is_due G s p.signal (uc_at c) (beneath s rest t)

    interrupted :
        (c : Control Group S)
        → Ready G next g p start t
        → Here c t
        → (due_at c ≡ true → (t.tls.deadline == 0) ≡ false → from + us * 1000 ≤ t.clock)
        → Ensures Handles (preempt G s (uc_at c) (beneath s rest t))
    unfolding disable_preemption
    interrupted c r h late =
        let (site, k, e, x) = site_of G next g p start t.tls.task.checkpoint r.returns_to in
        preempt-Leaves G s p.signal (uc_at c) (beneath s rest t) Handles site
          (named G next g p start private (beneath s rest t) r.own r.named) k
          (λ sigmask d o n. Here-beneath c s rest t d sigmask h)
          (λ d. rw e (λ y. late d (ground arith)))

    -- The handler, wherever it is called.
    handled :
        (c : Control Group S) (f : Completion S T)
        → Where G next g p start c t f
        → Here c t
        → Ensures Handles (preempt G s (uc_at c) (beneath s rest t))
    unfolding thread_signal
    handled call_site f (l, x) h =
        rw
          (preempt_foreign G s p.signal (uc_at call_site) (beneath s rest t)
            (inl (rw l.unnamed refl)))
          h
    handled entry f (r, e, x) h =
        interrupted entry r h λ d y. absurd (ground (arith, e.shared, G.shared_lem))
    handled (running u q) f (r, o, x) h =
        interrupted (running u q) r h (λ d y. ground (arith, nsnow_le G (beneath s rest t)))

  pub found-Fine :
      (m : Machine Group S T) (o : Option (Signal × List Signal))
      → Good m
      → Fine m
      → Allows Fine (deliver_found G next m o)
  unfolding deliver_found deliver resumed
  found-Fine m none w h = h
  found-Fine m (some (s, rest)) w h =
      Allows->>= {A = Handled Group S} Handles Fine
        (preempt G s (record { control = m.control; sigmask = m.thread.mask })
          (beneath s rest m.thread))
        (λ x. returns (resumed G next m x))
        (Meets-Allows ⊥ Handles _ (handled s rest m.thread m.control m.fun w h)) (λ x k. k)
