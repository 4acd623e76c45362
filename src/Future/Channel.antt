-- ===== src/Future/Channel.antt =====
-- src/future.rs: `poll_fns` with its channel, which holds one message, and the polls over it. The
-- function that is polled is a parameter, with what a message does to its state.
use libinger.Base.{
  ℕ, Bool, Option, none, some, List, ok, err, Exec, returns, panics, runs_on, ◌>>=◌, true,
}
use libinger.Gotcha.{Gotcha}
use libinger.Machine.{
  Action, compute, library, yield_now, finish, Completion, function, return_value, empty, Point,
  before_fun, client, in_library, in_hook, after_fun, Control, call_site, entry, running, Context,
  Tls, Thread, Event,
}
use libinger.Linger.Resume.{Continuation, Linger, completion, continuation, poison, Faults, launch}
use libinger.Future.{PreemptiveFuture, Polled, idle, poll_taken}

-- What a call of the polled function returns, with the state that it leaves for the next call.
pub data Turn (T U : Type 0) : Type 0 where
  is_ready : T → Turn T U
  is_pending : U → Turn T U

-- Where the loop is: at its `recv`, in a call of the function, or at its `pause`.
pub data Phase (U : Type 0) : Type 0 where
  receiving : U → Phase U
  polling : U → Phase U
  pausing : U → Phase U

pub record Loop (I U : Type 0) : Type 0 where
  pub channel : Option I
  pub phase : Phase U

-- `erryes` is the errno that a receive leaves.
module _ {I T U : Type 0} (apply : I → U → U) (fun : U → Action U (Turn T U)) (erryes : ℕ) where
  unfoldable pub polled : Option I → Action U (Turn T U) → Action (Loop I U) T
  polled ch (compute e u) = compute e (record { channel = ch; phase = polling u })
  polled ch (library e u) = library e (record { channel = ch; phase = polling u })
  polled ch (yield_now u) = yield_now (record { channel = ch; phase = polling u })
  polled ch (finish (err e)) = finish (err e)
  polled ch (finish (ok (is_ready v))) = finish (ok v)
  polled ch (finish (ok (is_pending u))) =
      compute erryes (record { channel = ch; phase = pausing u })

  -- `recv` waits for a message, which is then called.
  unfoldable pub received : Option I → U → Action (Loop I U) T
  received none u = compute erryes (record { channel = none; phase = receiving u })
  received (some i) u = compute erryes (record { channel = none; phase = polling (apply i u) })

  unfoldable pub at_phase : Option I → Phase U → Action (Loop I U) T
  unfolding polled received
  at_phase ch (receiving u) = received ch u
  at_phase ch (polling u) = polled ch (fun u)
  at_phase ch (pausing u) = yield_now (record { channel = ch; phase = receiving u })

  -- The timed function that `poll_fns` launches.
  unfoldable pub looped : Loop I U → Action (Loop I U) T
  unfolding at_phase
  looped s = at_phase s.channel s.phase

-- `send` from the future: it blocks while the channel is full.
module _ {I U : Type 0} where
  unfoldable pub offer : Option I → I → Phase U → Exec (Loop I U)
  offer none i ph = returns (record { channel = some i; phase = ph })
  offer (some j) i ph = runs_on

module _ {Group I U : Type 0} where
  unfoldable pub offer_at : I → Point Group (Loop I U) → Exec (Point Group (Loop I U))
  unfolding offer
  offer_at i before_fun = panics
  offer_at i (client s) = offer s.channel i s.phase >>= λ r. returns (client r)
  offer_at i (in_library h s) = offer s.channel i s.phase >>= λ r. returns (in_library h r)
  offer_at i (in_hook e s) = offer s.channel i s.phase >>= λ r. returns (in_hook e r)
  offer_at i after_fun = panics

  unfoldable pub offer_in : I → Control Group (Loop I U) → Exec (Control Group (Loop I U))
  unfolding offer_at
  offer_in i call_site = panics
  offer_in i entry = panics
  offer_in i (running v q) = offer_at i q >>= λ r. returns (running v r)

  unfoldable pub offer_paused :
      I → Option (Context Group (Loop I U)) → Exec (Option (Context Group (Loop I U)))
  unfolding offer_in
  offer_paused i none = panics
  offer_paused i (some uc) =
      offer_in i uc.control >>= λ r. returns (some (record uc { control = r }))

module _ {Group I T U : Type 0} where
  -- The channel is in the closure, or on its stack. With the closure over, its receiver is gone, and
  -- `send(...).unwrap()` panics.
  unfoldable pub send_to :
      I
      → Continuation Group (Loop I U) T
      → Completion (Loop I U) T
      → Exec (Continuation Group (Loop I U) T)
  unfolding offer offer_paused
  send_to i c (function s) =
      offer s.channel i s.phase >>= λ r. returns (record c { functional = function r })
  send_to i c empty = offer_paused i c.stateful.checkpoint >>= λ r.
      returns (record c { stateful = record c.stateful { checkpoint = r } })
  send_to i c (return_value v) = panics

  unfoldable pub send : I → Linger Group (Loop I U) T → Exec (Linger Group (Loop I U) T)
  unfolding send_to
  send i (continuation c) = send_to i c c.functional >>= λ d. returns (continuation d)
  send i (completion v) = panics
  send i poison = panics

module _ {Group I T U : Type 0} (G : Gotcha Group) (apply : I → U → U)
    (fun : U → Action U (Turn T U)) (erryes : ℕ) where
  unfoldable pub poll_on :
      Faults
      → (Group → Bool)
      → I
      → ℕ
      → Option (Linger Group (Loop I U) T)
      → Thread Group (Loop I U)
      → List Event
      → Exec (Polled Group (Loop I U) T)
  unfolding poll_taken
  poll_on faults renew i us none t es = returns (idle us t es)
  poll_on faults renew i us (some l) t es =
      send i l >>= λ k. poll_taken G (looped apply fun erryes) faults renew true us (some k) t es

  -- `poll`, with the message that it sends.
  unfoldable pub poll_with :
      Faults
      → (Group → Bool)
      → I
      → PreemptiveFuture Group (Loop I U) T
      → Thread Group (Loop I U)
      → List Event
      → Exec (Polled Group (Loop I U) T)
  unfolding poll_on
  poll_with faults renew i f t es = poll_on faults renew i f.us f.fun t es

  -- `poll_fns`, with the group and the block that the pools give it.
  unfoldable pub poll_fns :
      Faults
      → Option Group
      → Option (Tls Group (Loop I U))
      → U
      → ℕ
      → Thread Group (Loop I U)
      → List Event
      → Exec (PreemptiveFuture Group (Loop I U) T)
  unfolding launch
  poll_fns faults g tls u us t es =
      launch G (looped apply fun erryes) faults g tls
        (record { channel = none; phase = receiving u }) 0 t es
      >>= λ r. returns (record { fun = some r.linger; us = us })
