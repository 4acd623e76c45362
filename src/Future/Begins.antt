-- ===== src/Future/Begins.antt =====
-- src/future.rs: `poll_fns`, and the first poll of the future that it makes.
use libinger.Base.{
  ℕ, Bool, ◌≡◌, refl, false, Option, some, List, inl, err, returns, ◌>>=◌, Ensures, Safe, Meets->>=,
  Meets-of_Ensures,
}
use libinger.Gotcha.{Gotcha}
use libinger.Machine.{Action, PreemptionSignal, Tls, Thread, Event}
use libinger.Preemption.Setup.{Answers}
use libinger.Statics.Stores.{Rested}
use libinger.Linger.Invariant.{Finishes}
use libinger.Linger.Resume.{Continuation, Linger, continuation, fresh, Faults, launch, resume}
use libinger.Linger.Resume.Valid.{no_faults, Idle, Valid, Post}
use libinger.Linger.Resume.Value.{resume-Post}
use libinger.Future.{PreemptiveFuture, poll_taken}
use libinger.Future.Polls.{Fair, resumed-Fair}
use libinger.Future.Channel.{
  Turn, Loop, receiving, looped, offer, send_to, send, poll_on, poll_with, poll_fns,
}

module _ {Group I T U : Type 0} (G : Gotcha Group) (apply : I → U → U)
    (fun : U → Action U (Turn T U)) (erryes : ℕ) (g : Group) (p : PreemptionSignal)
    (private : G.is_shared g ≡ false) (u : U) (i : I) where
  abbrev next : Loop I U → Action (Loop I U) T
  next = looped apply fun erryes

  -- The loop at its first `recv`, with the first message in the channel.
  abbrev pub begun : Loop I U
  begun = record { channel = some i; phase = receiving u }

  abbrev first : Option (Tls Group (Loop I U)) → Continuation Group (Loop I U) T
  first tls = fresh G next begun g tls

  first-Valid :
      (tls : Option (Tls Group (Loop I U)))
      → Rested Group (Loop I U) tls
      → Valid G next g p begun private (first tls)
  first-Valid tls k = record {
    block = k.block;
    tls = k.tls_eq;
    group = refl;
    prompt = k.prompt;
    booted = k.booted;
    idle = k.idle;
    state = inl (refl, refl, refl);
  }

  -- A future whose function the message `i` can be sent to: the send returns.
  pub record Accepts (f : PreemptiveFuture Group (Loop I U) T) : Type 0 where
    pub linger : Linger Group (Loop I U) T
    pub holds : f.fun ≡ some linger
    pub sent : Linger Group (Loop I U) T
    pub sends : send i linger ≡ returns sent

  -- `poll_fns` with a group and a block as good as new returns a future without running anything, and
  -- the send to its function returns. The first poll of it, with any budget and through any events,
  -- on a thread that is set up or about to be, where no call of the operating system fails and the
  -- function does not panic, does not panic, abort or become undefined. If it comes back, it is
  -- ready with the value that the loop has when it is left alone with the message, or pending with
  -- a function that can be resumed, and its task has been woken unless the function yielded.
  pub poll_fns-Fair :
      (faults : Faults) (a : Answers) (renew : Group → Bool) (tls : Option (Tls Group (Loop I U)))
      (us : ℕ) (t : Thread Group (Loop I U)) (before es : List Event)
      → Rested Group (Loop I U) tls
      → Idle G next g p begun private a t
      → ((e : ℕ) → Finishes next begun (err e) → ⊥)
      → Ensures Accepts (poll_fns G apply fun erryes faults (some g) tls u us t before)
        × Safe (Fair G next g p begun private) (
            poll_fns G apply fun erryes faults (some g) tls u us t before >>= λ f.
            poll_with G apply fun erryes (no_faults a) renew i f t es)
  unfolding poll_fns launch poll_with poll_on send send_to offer poll_taken
  poll_fns-Fair faults a renew tls us t before es k w calm = (
    record { linger = _; holds = refl; sent = _; sends = refl },
    Meets->>= (Unit {0}) (Post G next g p begun private t.tls) (Fair G next g p begun private)
        (resume G next (no_faults a) (continuation (first tls)) us t es) _
        (resume-Post G next g p begun private a us (first tls) t es (first-Valid tls k) w)
        λ r o. Meets-of_Ensures (Unit {0}) (Fair G next g p begun private) _ (
          resumed-Fair G next g p begun private renew us r.reply r.linger r.thread r.rest calm
            o.outcome o.thread),
  )
