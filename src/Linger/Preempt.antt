-- ===== src/Linger/Preempt.antt =====
-- src/linger.rs: the signal handler `preempt`, and `pause`.
pub mod Cases
pub mod Pause
pub mod Leaves
use libinger.Base.{
  ℕ, Bool, true, false, Option, none, some, Result, ok, err, Exec, returns, undefined, ◌>>=◌, ◌==◌,
  leb, if◌then◌else◌,
}
use libinger.Gotcha.{Gotcha}
use libinger.Signal.{Signal, eq}
use libinger.Signal.Set.{Sigset, add}
use libinger.Machine.{Context, Task, Thread}
use libinger.Preemption.{
  get_errno, set_errno, set_tls, thread_signal, is_preemptible, disable_preemption,
  defer_preemption,
}
use libinger.Linger.Clock.{nsnow}

-- `thread_signal().map(|signal| no == signal).unwrap_or(false)`
unfoldable pub is_relevant : Signal → Result Signal (Unit {0}) → Bool
is_relevant s (err _) = false
is_relevant s (ok own) = eq s own

-- The context of the interrupted code, as the handler leaves it, and the thread.
abbrev pub Handled : Type 0 → Type 0 → Type 0
Handled Group S = Context Group S × Thread Group S

module _ {Group : Type 0} (G : Gotcha Group) {S : Type 0} where
  -- The pause itself: `checkpoint.swap(uc)` exchanges the two contexts, and the errno of the function
  -- is kept for its resumption.
  save :
      Signal
      → ℕ
      → Context Group S
      → Option (Context Group S)
      → Thread Group S
      → Exec (Handled Group S)
  unfolding disable_preemption
  save s errno uc none t = undefined
  save s errno uc (some site) t =
      let paused : Task Group S = record {
        errno = some errno;
        checkpoint = some uc;
        yielded = t.tls.deadline == 0;
      } in
      returns (
        record site { sigmask = add site.sigmask s },
        disable_preemption G none (set_tls G (record t.tls { task = paused }) t),
      )

  -- A relevant signal in code that is preemptible.
  on_time : Signal → ℕ → Context Group S → Thread Group S → Exec (Handled Group S)
  unfolding nsnow save
  on_time s errno uc t =
      if leb t.tls.deadline (nsnow G t)
      then save s errno uc t.tls.task.checkpoint t
      else returns (uc, set_errno G errno t)

  -- The function is in a library call that is not preemptible.
  deferred : Signal → ℕ → Context Group S → Option Sigset × Thread Group S → Handled Group S
  deferred s errno uc (none, t) = (uc, set_errno G errno t)
  deferred s errno uc (some sigmask, t) = (record uc { sigmask = sigmask }, set_errno G errno t)

  dispatch : Signal → ℕ → Context Group S → Thread Group S → Bool → Bool → Exec (Handled Group S)
  unfolding on_time deferred defer_preemption
  dispatch s errno uc t true true = on_time s errno uc t
  dispatch s errno uc t true false =
      defer_preemption G (some (uc.sigmask, s)) t >>= λ d. returns (deferred s errno uc d)
  dispatch s errno uc t false inside =
      returns (record uc { sigmask = add uc.sigmask s }, set_errno G errno t)

  unfoldable pub preempt : Signal → Context Group S → Thread Group S → Exec (Handled Group S)
  unfolding dispatch thread_signal is_relevant
  preempt s uc t =
      dispatch s (get_errno G t) uc t (is_relevant s (thread_signal G t)) (is_preemptible G t)

  -- Runs within a library call that is not preemptible.
  unfoldable pub pause : Thread Group S → Exec (Thread Group S)
  unfolding defer_preemption
  pause t =
      defer_preemption G none (set_tls G (record t.tls { deadline = 0 }) t) >>= λ d. returns d.1
