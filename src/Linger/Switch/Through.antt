-- ===== src/Linger/Switch/Through.antt =====
-- src/linger.rs: `switch_stack` from its scope through the jump and the run to its return, for any
-- account that is kept of them.
use libinger.Base.{
  ℕ, ◌≡◌, subst, sym, ap, Option, none, some, List, Result, ok, err, Exec, returns, panics, ◌>>=◌,
  Ensures, Meets, Ensures->>=, Meets->>=,
}
use libinger.Gotcha.{Gotcha}
use libinger.Machine.{Action, Context, Thread, Task, default_task, Machine, Event}
use libinger.Linger.Run.{deliver_pending, run}
use libinger.Linger.Switch.{
  get_or_insert, set_task, scope, jump, Switched, descheduled, restored, switch_stack,
}

module _ {Group : Type 0} (G : Gotcha Group) {S : Type 0} where
  -- The thread under its new call site.
  abbrev pub put_in : Thread Group S → Context Group S → Thread Group S
  put_in t c = set_task G (record t.tls.task { checkpoint = some c }) t

  get_or_insert-idle :
      (t : Thread Group S) (pause : Context Group S)
      → t.tls.task ≡ default_task
      → get_or_insert G t.tls.task.checkpoint pause ≡ pause
  get_or_insert-idle t pause e = ap (λ (k : Task Group S). get_or_insert G k.checkpoint pause) e

module _ {Group : Type 0} (G : Gotcha Group) {S T : Type 0} (next : S → Action S T) where
  -- `switch_stack` succeeds, and what it comes back with meets `D`.
  abbrev pub Comes : (Switched G next → Type 0) → Result (Switched G next) ℕ → Type 0
  Comes D (ok s) = D s
  Comes D (err e) = ⊥

  -- `K` is kept where the jump leads and `L` once a signal that waits has been delivered; `B` holds
  -- back at the call site. A run that the events `es` end is one that `R` holds of.
  module _ (R : Type 0) (es : List Event) (K L : Machine Group S T → Type 0)
      (B : Machine Group S T × List Event → Type 0) (D : Switched G next → Type 0)
      (delivers : (m : Machine Group S T) → K m → Ensures L (deliver_pending G next m))
      (runs : (m : Machine Group S T) → L m → Meets R B (run G next es m m.control))
      (ends : (task : Task Group S) (r : Machine Group S T × List Event)
        → B r
        → D (descheduled G next task r)) where
    jumped-Comes :
        (m : Machine Group S T) (task : Task Group S) (x : Exec (Context Group S × Thread Group S))
        → Ensures (λ r. K (jump G next m.thread.mask m r)) x
        → Meets R D (
            x >>= λ r. deliver_pending G next (jump G next m.thread.mask m r) >>= λ n.
            run G next es n n.control >>= λ back. returns (descheduled G next task back))
    jumped-Comes m task x h =
        Ensures->>= R (λ r. K (jump G next m.thread.mask m r)) D x _ h
          λ r k.
            Ensures->>= R L D (deliver_pending G next (jump G next m.thread.mask m r)) _
              (delivers _ k)
              λ n w. Meets->>= R B D (run G next es n n.control) _ (runs n w) (ends task)

    -- Where the scope leads to `K`, the code comes back so.
    pub switch_stack-Comes :
        (group : Group) (m : Machine Group S T) (task : Task Group S) (pause : Context Group S)
        → task.checkpoint ≡ some pause
        → m.thread.tls.task ≡ default_task
        → Ensures
            (λ r. K (jump G next m.thread.mask m r))
            (scope G task.errno group pause (put_in G m.thread pause))
        → Meets R (Comes D) (switch_stack G next none task group m es)
    unfolding switch_stack restored
    switch_stack-Comes group m task pause made idle h =
        subst
          (λ (c : Option (Context Group S)). Meets R (Comes D) (elim c [
            | none ↦ panics
            | some q ↦ restored G next task group m es q >>= λ s. returns (ok s)
          ]))
          (sym made)
          (Meets->>= R D (Comes D) (restored G next task group m es pause) _
            (jumped-Comes m task _ (
              subst
                (λ c.
                  Ensures (λ r. K (jump G next m.thread.mask m r))
                    (scope G task.errno group c (put_in G m.thread c)))
                (sym (get_or_insert-idle G m.thread pause idle)) h))
            (λ s d. d))
