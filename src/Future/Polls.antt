-- ===== src/Future/Polls.antt =====
-- src/future.rs: what polls come to.
use libinger.Base.{Bool, ℕ, false, not, ◌≡◌, refl, Option, none, some, List, ok, err, Ensures}
use libinger.Gotcha.{Gotcha}
use libinger.Machine.{Action, PreemptionSignal, Thread, Event}
use libinger.Linger.Invariant.{Finishes}
use libinger.Linger.Resume.{
  Linger, completion, continuation, poison, yielded, Reply, done, failed, unwinds,
}
use libinger.Linger.Resume.Valid.{SetUp, Valid, Outcome}
use libinger.Future.{Poll, ready, pending, Polled, kept, resumed, poll}

module _ {Group : Type 0} (G : Gotcha Group) {S T : Type 0} (next : S → Action S T) (g : Group)
    (p : PreemptionSignal) (start : S) (private : G.is_shared g ≡ false) where
  -- A pending future has a function that can be resumed, and has woken its task unless the function
  -- yielded; a ready one has the value of the function alone, and keeps nothing.
  abbrev pub Told : Poll T → Bool → Option (Linger Group S T) → Type 0
  Told (ready (ok v)) w none = Finishes next start (ok v)
  Told (ready (ok v)) w (some l) = ⊥
  Told (ready (err e)) w o = ⊥
  Told pending w (some (continuation c)) =
      Valid G next g p start private c × (w ≡ not (yielded (continuation c)))
  Told pending w (some (completion v)) = ⊥
  Told pending w (some poison) = ⊥
  Told pending w none = ⊥

  pub record Fair (r : Polled Group S T) : Type 0 where
    pub told : Told r.poll r.woken r.future.fun
    pub thread : SetUp G next g p start private r.thread

  pub resumed-Fair :
      (renew : Group → Bool) (us : ℕ) (y : Reply) (l : Linger Group S T) (t : Thread Group S)
      (es : List Event)
      → ((e : ℕ) → Finishes next start (err e) → ⊥)
      → Outcome G next g p start private y l
      → SetUp G next g p start private t
      → Ensures Fair (resumed renew us y l t es)
  unfolding resumed kept
  resumed-Fair renew us done (completion v) t es n o s = record { told = o; thread = s }
  resumed-Fair renew us done (continuation c) t es n o s = record { told = (o, refl); thread = s }
  resumed-Fair renew us done poison t es n o s = absurd o
  resumed-Fair renew us (failed e) l t es n o s = absurd o
  resumed-Fair renew us (unwinds e) (completion v) t es n o s = absurd o
  resumed-Fair renew us (unwinds e) (continuation c) t es n o s = absurd o
  resumed-Fair renew us (unwinds e) poison t es n o s = absurd (n e o)
