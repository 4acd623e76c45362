-- ===== src/Future/Blocked.antt =====
-- src/future.rs: a future whose function is still in the same call after two polls is stuck at the third.
use libinger.Base.{
  ℕ, Bool, false, ◌≡◌, refl, subst, ap, Option, none, some, List, inl, inr, ◌⊎◌, ok, Exec, returns,
  panics, runs_on, ◌>>=◌, Allows, Allows->>=, Meets-Allows,
}
use libinger.Gotcha.{Gotcha}
use libinger.Signal.{Signal}
use libinger.Machine.{
  Action, empty, PreemptionSignal, Point, before_fun, client, in_library, in_hook, after_fun,
  running, Context, Thread, Event,
}
use libinger.Preemption.Setup.{Answers}
use libinger.Linger.Resume.{
  Continuation, Linger, completion, continuation, poison, Reply, done, failed, unwinds, resume,
  Faults,
}
use libinger.Linger.Resume.Valid.{no_faults, Idle, Valid, Outcome, Post}
use libinger.Linger.Resume.Value.{resume-Post}
use libinger.Future.{Poll, ready, pending, PreemptiveFuture, Polled, poll_taken, resumed, kept}
use libinger.Linger.Invariant.{Progress, here, Finishes}
use libinger.Future.Channel.{
  Turn, is_pending, polling, Loop, looped, offer, offer_at, offer_in, offer_paused, send_to, send,
  poll_on, poll_with,
}
use libinger.Future.Within.{Within, reaches-Within}

-- Code that does not come back: it blocks for good, or panics.
abbrev pub Stuck {ℓ} : {A : Type ℓ} → Exec A → Type ℓ
Stuck x = (x ≡ runs_on) ⊎ (x ≡ panics)

Stuck->>= : {A B : Type 0} (x : Exec A) (f : A → Exec B) → Stuck x → Stuck (x >>= f)
Stuck->>= x f (inl e) = inl (ap (λ y. y >>= f) e)
Stuck->>= x f (inr e) = inr (ap (λ y. y >>= f) e)

module _ {Group I T U : Type 0} (G : Gotcha Group) (apply : I → U → U)
    (fun : U → Action U (Turn T U)) (erryes : ℕ) (g : Group) (p : PreemptionSignal)
    (private : G.is_shared g ≡ false) (u : U) (i : I)
    (never : (w : U) → Finishes fun u (ok (is_pending w)) → ⊥) where
  abbrev next : Loop I U → Action (Loop I U) T
  next = looped apply fun erryes

  abbrev Sends : Loop I U → Continuation Group (Loop I U) T → Type 0
  Sends s c = Valid G next g p s private c

  -- A function that has a message waiting, or is over: a further message cannot be sent.
  offer-Stuck :
      (j : I) (s : Loop I U) → Within apply fun erryes u i s → offer s.channel j s.phase ≡ runs_on
  unfolding offer
  offer-Stuck j s w = rw w.full refl

  send_paused :
      (j : I) (s : Loop I U) (c : Continuation Group (Loop I U) T) (uc : Context Group (Loop I U))
      (v : Option Signal) (q : Point Group (Loop I U))
      → Within apply fun erryes u i s
      → c.stateful.checkpoint ≡ some uc
      → uc.control ≡ running v q
      → Progress G next g p s q c.functional
      → Stuck (send j (continuation c))
  unfolding send send_to offer_paused offer_in offer_at
  send_paused j s c uc v before_fun w e k f = inl (rw f (rw (offer-Stuck j s w) refl))
  send_paused j s c uc v (client x) w e k (r, f) = inl (
      rw (f, e)
        (rw k (rw (offer-Stuck j x (reaches-Within apply fun erryes u i never s x r w)) refl)))
  send_paused j s c uc v (in_library h x) w e k (r, f) = inl (
      rw (f, e)
        (rw k (rw (offer-Stuck j x (reaches-Within apply fun erryes u i never s x r w)) refl)))
  send_paused j s c uc v (in_hook n x) w e k (r, f) = inl (
      rw (f, e)
        (rw k (rw (offer-Stuck j x (reaches-Within apply fun erryes u i never s x r w)) refl)))
  send_paused j s c uc v after_fun w e k (x, f, n) = inr (rw f refl)

  send-Stuck :
      (j : I) (s : Loop I U) (c : Continuation Group (Loop I U) T)
      → Within apply fun erryes u i s
      → Sends s c
      → Stuck (send j (continuation c))
  unfolding send send_to
  send-Stuck j s c w v = elim v.state [
    | inl (n, k, f) ↦ inl (rw f (rw (offer-Stuck j s w) refl))
    | inr x ↦ send_paused j s c x.context x.signal x.point w x.saved x.stopped x.progress
  ]

  -- A function that is paused in a call that began in state `u`, between two of its steps, with its
  -- message received.
  pub record Calling (c : Continuation Group (Loop I U) T) : Type 0 where
    pub context : Context Group (Loop I U)
    pub signal : Option Signal
    pub saved : c.stateful.checkpoint ≡ some context
    pub stopped :
        context.control ≡ running signal (client (record { channel = none; phase = polling u }))
    pub called : c.functional ≡ empty

  abbrev messaged : Loop I U
  messaged = record { channel = some i; phase = polling u }

  messaged-Within : Within apply fun erryes u i messaged
  messaged-Within = record { state = u; full = refl; inside = refl; came = here }

  -- The same function with the message in its channel.
  abbrev with_message :
      (c : Continuation Group (Loop I U) T) → Calling c → Continuation Group (Loop I U) T
  with_message c k =
      let control = running k.signal (client messaged) in
      record c {
        stateful = record c.stateful { checkpoint = some (record k.context { control = control }) };
      }

  send-Calling :
      (c : Continuation Group (Loop I U) T) (k : Calling c)
      → send i (continuation c) ≡ returns (continuation (with_message c k))
  unfolding send send_to offer_paused offer_in offer_at offer
  send-Calling c k = rw (k.called, k.saved) (rw k.stopped refl)

  -- The signal that the function was told of is in its context.
  signal_told :
      {c : Continuation Group (Loop I U) T} (v : Option Signal) (q : Point Group (Loop I U))
      (uc : Context Group (Loop I U)) (k : Calling c)
      → c.stateful.checkpoint ≡ some uc
      → uc.control ≡ running v q
      → v ≡ some p.signal
      → k.signal ≡ some p.signal
  signal_told v q uc k a b d = let e = k.saved in let f = k.stopped in cc

  with_message-Valid :
      (s : Loop I U) (c : Continuation Group (Loop I U) T) (k : Calling c)
      → Sends s c
      → Sends messaged (with_message c k)
  with_message-Valid s c k v = record {
    block = v.block;
    tls = v.tls;
    group = v.group;
    prompt = v.prompt;
    booted = v.booted;
    idle = v.idle;
    state = elim v.state [
      | inl (n, m, f) ↦ cc
      | inr x ↦ inr (record {
        errno = x.errno;
        context = _;
        signal = k.signal;
        told = signal_told x.signal x.point x.context k x.saved x.stopped x.told;
        point = client messaged;
        kept = x.kept;
        saved = refl;
        stopped = refl;
        inside = refl;
        progress = (here, k.called);
        located = x.located;
      })
    ];
  }

  -- A pending future can be polled no more.
  abbrev Pends : Poll T → Option (Linger Group (Loop I U) T) → Type 0
  Pends pending (some (continuation d)) = Sends messaged d
  Pends pending (some (completion v)) = ⊥
  Pends pending (some poison) = ⊥
  Pends pending none = ⊥
  Pends (ready v) o = Unit {0}

  abbrev Pended : Polled Group (Loop I U) T → Type 0
  Pended r = Pends r.poll r.future.fun

  resumed-Pended :
      (renew : Group → Bool) (us : ℕ) (y : Reply) (l : Linger Group (Loop I U) T)
      (t : Thread Group (Loop I U)) (es : List Event)
      → Outcome G next g p messaged private y l
      → Allows Pended (resumed renew us y l t es)
  unfolding resumed kept
  resumed-Pended renew us done (completion v) t es o = tt
  resumed-Pended renew us done (continuation c) t es o = o
  resumed-Pended renew us done poison t es o = absurd o
  resumed-Pended renew us (failed e) l t es o = absurd o
  resumed-Pended renew us (unwinds e) l t es o = tt

  second-Pended :
      (a : Answers) (renew : Group → Bool) (s : Loop I U) (c : Continuation Group (Loop I U) T)
      (us : ℕ) (t : Thread Group (Loop I U)) (es : List Event)
      → Calling c
      → Sends s c
      → Idle G next g p messaged private a t
      → Allows Pended (
          poll_with G apply fun erryes
            (no_faults a)
            renew
            i
            (record { fun = some (continuation c); us = us })
            t
            es)
  unfolding poll_with poll_on poll_taken
  second-Pended a renew s c us t es k v w = rw (send-Calling c k) (
      Allows->>= (Post G next g p messaged private t.tls) Pended
        (resume G next (no_faults a) (continuation (with_message c k)) us t es) _
        (Meets-Allows (Unit {0}) (Post G next g p messaged private t.tls) _ (
          resume-Post G next g p messaged private a us (with_message c k) t es
            (with_message-Valid s c k v) w))
        λ r o. resumed-Pended renew us r.reply r.linger r.thread r.rest o.outcome)

  third-Stuck :
      (faults : Faults) (renew : Group → Bool) (j : I) (y : Poll T)
      (f : PreemptiveFuture Group (Loop I U) T) (t : Thread Group (Loop I U)) (es : List Event)
      → y ≡ pending
      → Pends y f.fun
      → Stuck (poll_with G apply fun erryes faults renew j f t es)
  unfolding poll_with poll_on
  third-Stuck faults renew j pending f t es e h = blocked f.fun h
    where
      blocked :
          (o : Option (Linger Group (Loop I U) T))
          → Pends pending o
          → Stuck (poll_on G apply fun erryes faults renew j f.us o t es)
      blocked none h = absurd h
      blocked (some (completion v)) h = absurd h
      blocked (some poison) h = absurd h
      blocked (some (continuation d)) h = Stuck->>= _ _ (send-Stuck j messaged d messaged-Within h)
  third-Stuck faults renew j (ready v) f t es e h = cc

  -- A future whose function is paused in a call, having begun with the thread's signal, between two
  -- of its steps, where that call does not return `Pending` and no call of the operating system
  -- fails: if a poll of it, with any budget and through any events, comes back pending, then the
  -- next poll does not come back, whatever it sends, however the operating system answers and
  -- whatever the events are: its `send` blocks for good, or panics where the function has finished
  -- meanwhile.
  pub poll-Stuck :
      (a : Answers) (renew : Group → Bool) (s : Loop I U) (c : Continuation Group (Loop I U) T)
      (us : ℕ) (t : Thread Group (Loop I U)) (es : List Event) (r : Polled Group (Loop I U) T)
      (faults : Faults) (j : I) (later : Thread Group (Loop I U)) (events : List Event)
      → Calling c
      → Sends s c
      → Idle G next g p messaged private a t
      → poll_with G apply fun erryes
          (no_faults a)
          renew
          i
          (record { fun = some (continuation c); us = us })
          t
          es
        ≡ returns r
      → r.poll ≡ pending
      → Stuck (poll_with G apply fun erryes faults renew j r.future later events)
  poll-Stuck a renew s c us t es r faults j later events k v w e y =
      third-Stuck faults renew j r.poll r.future later events y
        (subst (Allows Pended) e (second-Pended a renew s c us t es k v w))
