-- ===== src/Linger/Invariant/Ends.antt =====
-- src/linger.rs: a timed function that finishes when it is left alone also comes back under any
-- interruptions, given enough instructions of the processor.
use libinger.Base.{
  ℕ, zero, suc, ◌+◌, ◌*◌, ◌≤◌, ◌≡◌, refl, true, false, Option, none, some, List, [], ◌∷◌, ok, err,
  inl, inr, returns, Result, ◌>>=◌, Ensures, Allows, Allows->>=, Allows->>=_any, Ensures-Allows,
  Meets, Meets-mono, Meets-of_Ensures, ◌⊎◌, Ensures->>=, arith, subst, sym, if◌then◌else◌,
}
use libinger.Gotcha.{Gotcha}
use libinger.Signal.{Signal}
use libinger.Signal.Set.{add}
use libinger.Machine.{
  Action, compute, library, yield_now, finish, Completion, PreemptionSignal, Point, before_fun,
  client, in_library, in_hook, after_fun, Control, call_site, entry, running, Context, Thread,
  Machine, Event, instruct, arrive, elapse,
}
use libinger.Preemption.{disable_preemption, Enabled, thread_signal, enable_preemption}
use libinger.Linger.Preempt.{is_relevant, Handled, preempt, pause}
use libinger.Linger.Preempt.Cases.{preempt-control}
use libinger.Linger.Run.{
  deliver, deliver_found, deliver_pending, resumed, act, go, leave, hooked, bootstrapped, enabled,
  call_fun, arrive_at, at_point, effect, instructed, step, run,
}
use libinger.Linger.Invariant.{Where, Inv, site_of}
use libinger.Linger.Invariant.Due.{
  counted, instructions, ends_after, ends_within, Due, Due-now, Where-Due, Enough,
}
use libinger.Linger.Invariant.Steps.{run-Inv, effect-Inv, deliver_pending-Inv}

module _ {Group : Type 0} (G : Gotcha Group) {S T : Type 0} (next : S → Action S T) (g : Group)
    (p : PreemptionSignal) (start : S) (private : G.is_shared g ≡ false) where
  abbrev Good : Machine Group S T → Type 0
  Good = Inv G next g p start

  abbrev Left : ℕ → Machine Group S T → Type 0
  Left i m = Due next start i m.control

  -- A handler goes back to where it came from, or to the call site.
  relevant-Due :
      (i : ℕ) (c : Control Group S) (s : Signal) (t u : Thread Group S) (f : Completion S T)
      → Where G next g p start c t f
      → u.tls ≡ t.tls
      → is_relevant s (thread_signal G u) ≡ true
      → (site : Context Group S) → u.tls.task.checkpoint ≡ some site
      → Due next start i site.control
  unfolding thread_signal is_relevant
  relevant-Due i call_site s t u f (l, x) e r site k = ground (arith, l.unnamed)
  relevant-Due i entry s t u f (w, x, y) e r site k =
      let (c, h, a, b) = site_of G next g p start t.tls.task.checkpoint w.returns_to in
      let same : site.control ≡ call_site = cc in rw same tt
  relevant-Due i (running v q) s t u f (w, x, y) e r site k =
      let (c, h, a, b) = site_of G next g p start t.tls.task.checkpoint w.returns_to in
      let same : site.control ≡ call_site = cc in rw same tt

  found-Due :
      (i : ℕ) (m : Machine Group S T) (o : Option (Signal × List Signal))
      → Good m
      → Left i m
      → Allows (Left i) (deliver_found G next m o)
  unfolding deliver_found deliver resumed
  found-Due i m none w d = d
  found-Due i m (some (s, rest)) w d =
      Allows->>= {A = Handled Group S} (λ h. Due next start i h.0.control) (Left i)
        (preempt G s (record { control = m.control; sigmask = m.thread.mask })
          (record m.thread { mask = add m.thread.mask s; pending = rest }))
        (λ h. returns (resumed G next m h))
        (preempt-control G (Due next start i) s _ _ d
          (relevant-Due i m.control s m.thread _ m.fun w refl))
        (λ h k. k)

  act-Due :
      (i : ℕ) (m : Machine Group S T) (u : Option Signal) (t : Thread Group S) (a : Action S T)
      (n : ℕ)
      → ends_after next (ends_within next n) a ≡ true
      → suc n * 3 ≤ suc i
      → Allows (Left i) (act G next m u t a)
  unfolding act go
  act-Due i m u t (compute e s) n w l = (n, w, ground arith)
  act-Due i m u t (library e s) n w l = (n, w, ground arith)
  act-Due i m u t (yield_now s) n w l =
      Allows->>=_any (Left i) (pause G (record t { group = G.shared })) _
        (λ x. (n, w, ground arith))
  act-Due i m u t (finish v) n w l = ground arith

  hooked-Due :
      (i : ℕ) (m : Machine Group S T) (u : Option Signal) (s : S) (e : Enabled Group S) (n : ℕ)
      → ends_within next n s ≡ true
      → n * 3 + 1 ≤ i
      → Left i (hooked G next m u s e)
  unfolding hooked go
  hooked-Due i m u s e n w l =
      elim e.unblocked
        as (λ r. Left i (elim r [
          | err _ ↦ go G next m u (client s) e.thread
          | ok _ ↦ go G next m u (in_hook e.errno s) e.thread
        ])) [ err x ↦ (n, w, ground arith) | ok x ↦ (n, w, l) ]

  leave-Due :
      (i : ℕ) (m : Machine Group S T) (u : Option Signal) (s : S) (t : Thread Group S) (n : ℕ)
      → ends_within next n s ≡ true
      → n * 3 + 1 ≤ i
      → Allows (Left i) (leave G next m u s t)
  unfolding leave go
  leave-Due i m u s t n w l =
      elim t.hooked
        as (λ b. Allows (Left i) (
          if b
          then (enable_preemption G none t >>= λ e. returns (hooked G next m u s e))
          else returns (go G next m u (client s) t))) [
            | true ↦
                Allows->>=_any (Left i) (enable_preemption G none t) _
                  (λ e. hooked-Due i m u s e n w l)
            | false ↦ (n, w, ground arith)
          ]

  bootstrapped-Due :
      (i : ℕ) (m : Machine Group S T) (o : Option Group) (n : ℕ)
      → ends_within next n start ≡ true
      → n * 3 + 1 ≤ i
      → Allows (Left i) (bootstrapped G next m o)
  unfolding bootstrapped enabled go
  bootstrapped-Due i m none n w l = tt
  bootstrapped-Due i m (some h) n w l =
      Allows->>=_any (Left i) (enable_preemption G (some h) _) _ (λ e. entered e.unblocked e.thread)
    where
      entered :
          (r : Result (Option Signal) (Unit {0})) (t : Thread Group S)
          → Allows (Left i) (enabled G next m r t)
      entered (ok u) t = (n, w, l)
      entered (err x) t = tt

  at_point-Due :
      (i : ℕ) (m : Machine Group S T) (u : Option Signal) (q : Point Group S)
      → Where G next g p start (running u q) m.thread m.fun
      → Due next start (suc i) (running u q)
      → Allows (Left i) (at_point G next m u q)
  unfolding at_point call_fun go arrive_at disable_preemption ends_within
  at_point-Due i m u before_fun (r, o, pr) (n, w, l) = rw (pr, call_fun) (n, w, ground arith)
  at_point-Due i m u (client s) x (suc n, w, l) = act-Due i m u m.thread (next s) n w l
  at_point-Due i m u (client s) x (zero, w, l) = cc
  at_point-Due i m u (in_library h s) x (n, w, l) = leave-Due i m u s _ n w (ground arith)
  at_point-Due i m u (in_hook e s) x (n, w, l) = (n, w, ground arith)
  at_point-Due i m none after_fun (r, x, y) l =
      let (c, h, a, b) = site_of G next g p start m.thread.tls.task.checkpoint r.returns_to in
      rw (h, arrive_at) (rw a tt)
  at_point-Due i m (some v) after_fun (r, x, y) l =
      let (c, h, a, b) = site_of G next g p start m.thread.tls.task.checkpoint r.returns_to in
      rw (h, arrive_at) (rw a tt)

  instructed-Due :
      (i : ℕ) (m : Machine Group S T) (c : Control Group S)
      → m.control ≡ c
      → Where G next g p start c m.thread m.fun
      → Due next start (suc i) c
      → Allows (Left i) (instructed G next m c)
  unfolding instructed
  instructed-Due i m call_site e x d = rw e tt
  instructed-Due i m entry e x (n, w, l) = bootstrapped-Due i m _ n w (ground arith)
  instructed-Due i m (running u q) e x d = at_point-Due i m u q x d

  effect-Due :
      (i : ℕ) (e : Event) (m : Machine Group S T)
      → Good m
      → Left (counted e i) m
      → Allows (Left i) (effect G next e m)
  unfolding effect
  effect-Due i instruct m x d = instructed-Due i m m.control refl x d
  effect-Due i (arrive s) m x d = d
  effect-Due i (elapse n) m x d = d

  -- An instruction brings the call site nearer, and nothing that happens after it takes it away.
  step-Due :
      (i : ℕ) (e : Event) (m : Machine Group S T)
      → Good m
      → Left (counted e i) m
      → Ensures (λ n. Good n × Left i n) (step G next e m)
  unfolding step
  step-Due i e m x d =
      Ensures->>= _ (λ n. Good n × Left i n) (λ n. Good n × Left i n) (effect G next e m)
        (deliver_pending G next)
        (Ensures-Allows Good (Left i) (effect G next e m)
          (effect-Inv G next g p start private e m x) (effect-Due i e m x d))
        λ n k.
          Ensures-Allows Good (Left i) (deliver_pending G next n)
            (deliver_pending-Inv G next g p start private n k.0)
            (unfold deliver_pending in found-Due i n _ k.0 k.1)

  abbrev Back : Machine Group S T × List Event → Type 0
  Back r = Where G next g p start call_site r.0.thread r.0.fun

  -- With as many instructions among the events as are left.
  run-Back :
      (es : List Event) (m : Machine Group S T) (c : Control Group S)
      → m.control ≡ c
      → Good m
      → Due next start (instructions es) c
      → Ensures Back (run G next es m c)
  unfolding run
  run-Back es m call_site e w d = rw e at w
  run-Back [] m entry e w (n, x, l) = absurd (omega arith)
  run-Back [] m (running u q) e w d = absurd (Due-now next start u q d)
  run-Back (x ∷ es) m entry e w d =
      Ensures->>= _ (λ n. Good n × Left (instructions es) n) Back (step G next x m)
        (λ n. run G next es n n.control)
        (step-Due (instructions es) x m w
          (subst (Due next start (instructions (x ∷ es))) (sym e) d))
        (λ n k. run-Back es n n.control refl k.0 k.1)
  run-Back (x ∷ es) m (running u q) e w d =
      Ensures->>= _ (λ n. Good n × Left (instructions es) n) Back (step G next x m)
        (λ n. run G next es n n.control)
        (step-Due (instructions es) x m w
          (subst (Due next start (instructions (x ∷ es))) (sym e) d))
        (λ n k. run-Back es n n.control refl k.0 k.1)

  -- A function that finishes within `n` steps when it is left alone: whatever else the events are, the
  -- run comes back if there are `3 * n + 2` instructions among them.
  pub run_ends :
      (n : ℕ) (es : List Event) (m : Machine Group S T)
      → Good m
      → ends_within next n start ≡ true
      → n * 3 + 2 ≤ instructions es
      → Ensures Back (run G next es m m.control)
  run_ends n es m w e l =
      run-Back es m m.control refl w
        (Where-Due G next g p start private n (instructions es) m.control m.thread m.fun w e l)

  -- The two readings of a run in one: if it is still on its way when the events end, then `R`.
  pub run-Meets :
      (R : Type 0) (es : List Event) (m : Machine Group S T)
      → Good m
      → R ⊎ Enough G next g p start private es
      → Meets R Back (run G next es m m.control)
  run-Meets R es m w (inl r) =
      Meets-mono (Unit {0}) R Back (run G next es m m.control) (λ u. r)
        (run-Inv G next g p start private es m m.control refl w)
  run-Meets R es m w (inr (n, e, l)) =
      Meets-of_Ensures _ Back (run G next es m m.control) (run_ends n es m w e l)
