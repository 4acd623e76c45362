-- ===== src/Linger/Resume/Sessions.antt =====
-- src/linger.rs: a client that resumes a function again and again, and what its budgets and the
-- interruptions have to do with the result: nothing.
use libinger.Base.{
  ℕ, false, ◌≡◌, subst, Option, none, some, List, [], ◌∷◌, inl, ok, err, Exec, returns, ◌>>=◌, Safe,
  Meets->>=,
}
use libinger.Gotcha.{Gotcha}
use libinger.Machine.{ThdResult, Action, PreemptionSignal, Thread, Event}
use libinger.Preemption.Setup.{Answers}
use libinger.Linger.Invariant.{Finishes}
use libinger.Linger.Invariant.Alone.{Finishes-unique}
use libinger.Linger.Resume.{
  Continuation, Linger, completion, continuation, poison, Reply, done, failed, unwinds, Resumed,
  Faults, resume,
}
use libinger.Linger.Resume.Valid.{no_faults, Idle, Valid, Outcome, Post}
use libinger.Linger.Resume.Value.{resume-Post}

-- The result that the caller has in the end, if any: a value, or a panic.
abbrev pub result_of : {Group S T : Type 0} → Reply → Linger Group S T → Option (ThdResult T)
result_of done (completion v) = some (ok v)
result_of (unwinds e) l = some (err e)
result_of done (continuation c) = none
result_of done poison = none
result_of (failed e) l = none

module _ {Group : Type 0} (G : Gotcha Group) {S T : Type 0} (next : S → Action S T) where
  -- Calls of `resume`, each with its budget and its events, up to one that does not return by `Ok`.
  unfoldable pub session :
      Faults → List (ℕ × List Event) → Linger Group S T → Thread Group S → Exec (Resumed Group S T)
  session faults [] l t =
      returns (record { reply = done; linger = l; dropped = none; thread = t; rest = [] })
  session faults ((us, es) ∷ rest) l t = resume G next faults l us t es >>= λ r. elim r.reply [
    | done ↦ session faults rest r.linger r.thread
    | failed e ↦ returns r
    | unwinds e ↦ returns r
  ]

module _ {Group : Type 0} (G : Gotcha Group) {S T : Type 0} (next : S → Action S T) (g : Group)
    (p : PreemptionSignal) (start : S) (private : G.is_shared g ≡ false) where
  abbrev Leaves : Resumed Group S T → Type 0
  Leaves r = Outcome G next g p start private r.reply r.linger

  onwards :
      (y : Reply) (l : Linger Group S T) (r : Resumed Group S T) (x : Exec (Resumed Group S T))
      → Outcome G next g p start private y l
      → Leaves r
      → (Outcome G next g p start private done l → Safe Leaves x)
      → Safe Leaves (elim y [ done ↦ x | failed e ↦ returns r | unwinds e ↦ returns r ])
  onwards done l r x o k h = h o
  onwards (failed e) l r x o k h = k
  onwards (unwinds e) l r x o k h = k

  session-Outcome :
      (a : Answers) (bs : List (ℕ × List Event)) (l : Linger Group S T) (t : Thread Group S)
      → Outcome G next g p start private done l
      → Idle G next g p start private a t
      → Safe Leaves (session G next (no_faults a) bs l t)
  unfolding session resume
  session-Outcome a [] l t o i = o
  session-Outcome a ((us, es) ∷ bs) (completion v) t o i = session-Outcome a bs (completion v) t o i
  session-Outcome a ((us, es) ∷ bs) poison t o i = absurd o
  session-Outcome a ((us, es) ∷ bs) (continuation c) t o i =
      Meets->>= (Unit {0}) (Post G next g p start private t.tls) Leaves
        (resume G next (no_faults a) (continuation c) us t es) _
        (resume-Post G next g p start private a us c t es o i)
        λ r k.
          onwards r.reply r.linger r (session G next (no_faults a) bs r.linger r.thread) k.outcome
            k.outcome (λ d. session-Outcome a bs r.linger r.thread d (inl k.thread))

  -- What a result, if there is one, has to do with the function.
  Outcome-Finishes :
      (y : Reply) (l : Linger Group S T) (v : ThdResult T)
      → Outcome G next g p start private y l
      → result_of y l ≡ some v
      → Finishes next start v
  Outcome-Finishes done (completion x) v o e =
      let same : ok x ≡ v = cc in subst (Finishes next start) same o
  Outcome-Finishes done (continuation c) v o e = cc
  Outcome-Finishes done poison v o e = absurd o
  Outcome-Finishes (failed x) l v o e = absurd o
  Outcome-Finishes (unwinds x) (completion y) v o e = absurd o
  Outcome-Finishes (unwinds x) (continuation c) v o e = absurd o
  Outcome-Finishes (unwinds x) poison v o e =
      let same : err x ≡ v = cc in subst (Finishes next start) same o

  -- A client's calls of `resume`, with any budgets and through any events, have no result but that of
  -- the function alone.
  session-Finishes :
      (a : Answers) (bs : List (ℕ × List Event)) (c : Continuation Group S T) (t : Thread Group S)
      (r : Resumed Group S T) (v : ThdResult T)
      → Valid G next g p start private c
      → Idle G next g p start private a t
      → session G next (no_faults a) bs (continuation c) t ≡ returns r
      → result_of r.reply r.linger ≡ some v
      → Finishes next start v
  session-Finishes a bs c t r v o i e f =
      Outcome-Finishes r.reply r.linger v
        (subst (Safe Leaves) e (session-Outcome a bs (continuation c) t o i)) f

-- Two clients that resume a function, each on a thread outside every timed function, in a group and
-- with a signal of its own, from where it has not begun or is paused, having begun with that
-- signal, with any budgets and through any events, where the operating system fails no call: if
-- both have a result, it is the same one.
pub sessions_agree :
    {Group : Type 0} (G : Gotcha Group) {S T : Type 0} (next : S → Action S T) (start : S)
    (g h : Group) (p q : PreemptionSignal) (private : G.is_shared g ≡ false)
    (secret : G.is_shared h ≡ false) (a b : Answers) (bs cs : List (ℕ × List Event))
    (c d : Continuation Group S T) (t u : Thread Group S) (r s : Resumed Group S T)
    (v w : ThdResult T)
    → Valid G next g p start private c
    → Valid G next h q start secret d
    → Idle G next g p start private a t
    → Idle G next h q start secret b u
    → session G next (no_faults a) bs (continuation c) t ≡ returns r
    → session G next (no_faults b) cs (continuation d) u ≡ returns s
    → result_of r.reply r.linger ≡ some v
    → result_of s.reply s.linger ≡ some w
    → v ≡ w
sessions_agree G next start g h p q private secret a b bs cs c d t u r s v w vc vd it iu er es fr
      fs =
    Finishes-unique next v w (session-Finishes G next g p start private a bs c t r v vc it er fr)
      (session-Finishes G next h q start secret b cs d u s w vd iu es fs)
