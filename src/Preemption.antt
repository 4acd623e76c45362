-- ===== src/Preemption.antt =====
-- src/preemption.rs, without the set-up of a thread (Preemption/Setup). A thread's errno is that of the
-- group that it is in. A signal that is raised while it is masked waits; the machine delivers it
-- when the mask opens, which is where `enable_preemption` is cut in two.
pub mod Setup
pub mod Cases
pub mod Signaler
use libinger.Base.{
  ℕ, Bool, true, false, not, Option, none, some, List, [], ◌∷◌, ◌++◌, Result, ok, err, Exec,
  returns, panics, ◌>>=◌, ◌==◌, if◌then◌else◌, is_some,
}
use libinger.Gotcha.{Gotcha}
use libinger.Signal.{Signal, eq}
use libinger.Signal.Set.{Sigset, empty, add, Operation, block, unblock, changed}
use libinger.Machine.{Tls, Thread, PreemptionSignal, RealThreadId}

signal_of : Option PreemptionSignal → Result Signal (Unit {0})
signal_of none = err tt
signal_of (some p) = ok p.signal

through : Option RealThreadId → Option PreemptionSignal → Result Signal (Unit {0})
unfolding signal_of
through none cell = err tt
through (some id) cell = signal_of cell

abbrev pub is_pending : Signal → List Signal → Bool
is_pending s [] = false
is_pending s (p ∷ ps) = if eq p s then true else is_pending s ps

-- Standard signals do not queue.
unfoldable pub enqueue : Signal → List Signal → List Signal
enqueue s ps = if is_pending s ps then ps else ps ++ s ∷ []

abbrev pub get_or : Option Signal → Signal → Signal
get_or none s = s
get_or (some u) s = u

-- The first half of `enable_preemption`, up to and with the opening of the mask: the signal that
-- was unblocked, the errno that was read, and the thread. `Err(())` is for a thread that has no
-- signal.
pub record Enabled (Group : Type 0) (S : Type 0) : Type 0 where
  pub unblocked : Result (Option Signal) (Unit {0})
  pub errno : ℕ
  pub thread : Thread Group S

module _ {Group : Type 0} (G : Gotcha Group) {S : Type 0} where
  abbrev pub get_errno : Thread Group S → ℕ
  get_errno t = if G.is_shared t.group then t.errno_shared else t.errno_group

  abbrev pub set_errno : ℕ → Thread Group S → Thread Group S
  set_errno e t =
      if G.is_shared t.group then record t { errno_shared = e } else record t { errno_group = e }

  -- A change of the thread-local variables.
  abbrev pub set_tls : Tls Group S → Thread Group S → Thread Group S
  set_tls l t = record t { tls = l }

  unfoldable pub thread_signal : Thread Group S → Result Signal (Unit {0})
  unfolding signal_of through
  thread_signal t = through t.tls.signal t.signaler

  unfoldable pub mask : Operation → Signal → Thread Group S → Thread Group S
  mask un signal t = record t { mask = changed un (add empty signal) t.mask }

  -- `pthread_kill(pthread_self(), signal)`
  unfoldable pub raise : Signal → Thread Group S → Thread Group S
  raise s t = record t { pending = enqueue s t.pending }

  abbrev pub is_preemptible : Thread Group S → Bool
  is_preemptible t = not (G.is_shared t.group)

  -- `errno_group`: it panics where no group was ever looked up. The location is that of the errno of
  -- the group that the thread-control block serves.
  abbrev pub errno_group : Option Group → Thread Group S → Exec (Thread Group S)
  errno_group (some g) t = returns (set_tls (record t.tls { errno_location = some g }) t)
  errno_group none t = if is_some t.tls.errno_location then returns t else panics

  -- `if let Some(signal) = unblock { drop(mask(Unblock, signal)); }`
  unmask : Option Signal → Thread Group S → Thread Group S
  unfolding mask
  unmask none t = t
  unmask (some s) t = mask unblock s t

  opened : ℕ → Option Signal → Thread Group S → Enabled Group S
  unfolding unmask
  opened e u t = record { unblocked = ok u; errno = e; thread = unmask u t }

  failed : ℕ → Thread Group S → Enabled Group S
  failed e t = record { unblocked = err tt; errno = e; thread = t }

  -- From the test of `DEFERRED` on; `own` is the outcome of `thread_signal`.
  reenable : ℕ → Option Signal → Bool → Result Signal (Unit {0}) → Thread Group S → Enabled Group S
  unfolding raise opened failed
  reenable e u false own t = opened e u t
  reenable e u true (err _) t = failed e (set_tls (record t.tls { deferred = false }) t)
  reenable e u true (ok s) t =
      let cleared = set_tls (record t.tls { deferred = false }) t in
      opened e (some (get_or u s)) (raise (get_or u s) cleared)

  enter : ℕ → Option Group → Thread Group S → Enabled Group S
  unfolding reenable failed thread_signal
  enter e none t = reenable e none t.tls.deferred (thread_signal t) t
  enter e (some g) t = elim (thread_signal (record t { group = g })) [
    | err _ ↦ failed e (record t { group = g })
    | ok s ↦ reenable e (some s) t.tls.deferred (ok s) (record t { group = g })
  ]

  unfoldable pub enable_preemption : Option Group → Thread Group S → Exec (Enabled Group S)
  unfolding enter
  enable_preemption group t =
      errno_group group t >>= λ located. returns (enter (get_errno located) group located)

  -- The second half: `if group.is_none() && errno != 0 { *erryes = errno; }`.
  unfoldable pub propagate_errno : ℕ → Thread Group S → Thread Group S
  propagate_errno e t = if e == 0 then t else record t { errno_group = e }

  masked : Option Signal → Thread Group S → Thread Group S
  unfolding mask
  masked none t = t
  masked (some s) t = mask block s t

  unfoldable pub disable_preemption : Option Signal → Thread Group S → Thread Group S
  unfolding masked
  disable_preemption signal t =
      let t' = masked signal (record t { group = G.shared }) in
      set_tls (record t'.tls { signal = none; deferred = false }) t'

  abbrev pub set_deferred : Thread Group S → Thread Group S
  set_deferred t = set_tls (record t.tls { deferred = true }) t

  -- Beneath a signal handler the mask is the one that the interrupted code will get back; it is
  -- returned changed. Elsewhere it is the thread's, and there must be a signal.
  unfoldable pub defer_preemption :
      Option (Sigset × Signal) → Thread Group S → Exec (Option Sigset × Thread Group S)
  unfolding mask thread_signal
  defer_preemption (some (sigmask, signo)) t = returns (some (add sigmask signo), set_deferred t)
  defer_preemption none t = elim (thread_signal t) [
    | err _ ↦ panics
    | ok s ↦ returns (none, set_deferred (mask block s t))
  ]
