-- ===== src/Linger/Lifecycle/Sound.antt =====
-- src/linger.rs with src/groups.rs and src/localstores.rs: what is right of a client's functions and of
-- the two pools between two calls, and how a call of `resume` leaves a function.
use mathlib.Core.List.{Perm, perm_middle}
use mathlib.Core.List.Perm
use libinger.Base.{
  ℕ, zero, suc, true, false, ◌≡◌, sym, subst, ap, Option, none, some, List, [], ◌∷◌, ◌++◌, inl, inr,
  ◌⊎◌, ok, err, get_elem?, erase_idx, ◌||◌, refl, is_some,
}
use libinger.Gotcha.{Gotcha}
use libinger.Machine.{Action, PreemptionSignal, Thread, Tls}
use libinger.Preemption.Setup.{Answers}
use libinger.Statics.Stores.{Rested}
use libinger.Linger.Invariant.{Finishes}
use libinger.Linger.Resume.{
  Continuation, Linger, completion, continuation, poison, Reply, done, failed, unwinds, Resumed,
}
use libinger.Linger.Resume.Valid.{
  answers, no_faults, SetUp, Idle, Valid, Outcome, Returned, Dropped, Post,
}
use libinger.Linger.Lifecycle.{Launched, is_first, has_checkpoint}

perm_swap {ℓ} : {A : Type ℓ} (xs ys zs : List A) → Perm (xs ++ (ys ++ zs)) (ys ++ (xs ++ zs))
perm_swap [] ys zs = Perm.rfl
perm_swap (x ∷ xs) ys zs =
    Perm.trans (Perm.cons x (perm_swap xs ys zs)) (Perm.symm (perm_middle ys (xs ++ zs)))

module _ {Group S T : Type 0} where
  -- What a client's functions have, all together.
  abbrev pub parts :
      {A : Type 0} → (Launched Group S T → List A) → List (Launched Group S T) → List A
  parts f [] = []
  parts f (l ∷ ls) = f l ++ parts f ls

  pub perm-parts :
      {A : Type 0} (f : Launched Group S T → List A) (ls : List (Launched Group S T)) (i : ℕ)
      {l : Launched Group S T}
      → get_elem? ls i ≡ some l
      → Perm (parts f ls) (f l ++ parts f (erase_idx ls i))
  perm-parts f [] i e = cc
  perm-parts f (k ∷ ks) zero {l} e =
      let same : k ≡ l = cc in
      subst (λ x. Perm (parts f (k ∷ ks)) (f x ++ parts f ks)) same Perm.rfl
  perm-parts f (k ∷ ks) (suc i) {l} e =
      Perm.trans (Perm.append_left (f k) (perm-parts f ks i e))
        (perm_swap (f k) (f l) (parts f (erase_idx ks i)))

  abbrev pub group_of : Linger Group S T → List Group
  group_of (completion v) = []
  group_of (continuation c) = c.group ∷ []
  group_of poison = []

  -- The groups of the functions that are still to go on.
  abbrev pub groups_of : List (Launched Group S T) → List Group
  groups_of ls = parts (λ l. group_of l.linger) ls

  abbrev pub dropped_groups : Option (Continuation Group S T) → List Group
  dropped_groups none = []
  dropped_groups (some c) = c.group ∷ []

  -- What is dropped gives back a block as good as new.
  abbrev pub Intact : Option (Continuation Group S T) → Type 0
  Intact none = Unit {0}
  Intact (some c) = Rested Group S c.tls

  -- A function that has a checkpoint owns a stack, and no other does.
  abbrev pub Fits : Launched Group S T → Type 0
  Fits l = is_some l.stack ≡ has_checkpoint l.linger

module _ {Group : Type 0} (G : Gotcha Group) {S T : Type 0} (next : S → Action S T)
    (p : PreemptionSignal) (a : Answers) where
  -- A function between two calls: it can be resumed, or is over with the result that it has when it
  -- is called and left alone.
  abbrev pub Kept : S → Linger Group S T → Type 0
  Kept fun (completion v) = Finishes next fun (ok v)
  Kept fun (continuation c) =
      (private : G.is_shared c.group ≡ false) × Valid G next c.group p fun private c
  Kept fun poison = (e : ℕ) × Finishes next fun (err e)

  -- A function has no checkpoint before it has begun.
  pub is_first-has_checkpoint :
      (fun : S) (c : Continuation Group S T)
      → Kept fun (continuation c)
      → (is_first (no_faults a) (continuation c) || has_checkpoint (continuation c)) ≡ true
  is_first-has_checkpoint fun c (private, v) = elim v.state [
    | inl (n, k, f) ↦ rw (n, k, v.tls) refl
    | inr x ↦ rw (x.kept, x.saved) refl
  ]

  -- A thread outside every timed function that is set up, or will be.
  abbrev pub Ready : Thread Group S → Type 0
  Ready t =
      ((t.signaler ≡ some p) × (t.mask p.signal ≡ true) × (t.group ≡ G.shared))
      ⊎ ((t.signaler ≡ none) × (a ≡ answers p) × (t.group ≡ G.shared))

  -- How a call leaves the function, when `gs` are the groups that it had.
  pub record Leaves (fun : S) (gs : List Group) (r : Resumed Group S T) : Type 0 where
    pub kept : Kept fun r.linger
    pub intact : Intact r.dropped
    pub owed : dropped_groups r.dropped ++ group_of r.linger ≡ gs
    pub ready : Ready r.thread

  module _ (g : Group) (fun : S) (private : G.is_shared g ≡ false) where
    pub Ready-Idle : (t : Thread Group S) → Ready t → Idle G next g p fun private a t
    Ready-Idle t (inl (x, y, z)) = inl (record { own = x; masked = y; shared = z })
    Ready-Idle t (inr x) = inr x

    SetUp-Ready : (t : Thread Group S) → SetUp G next g p fun private t → Ready t
    SetUp-Ready t s = inl (s.own, s.masked, s.shared)

    pub Valid-Kept :
        (c : Continuation Group S T) → Valid G next g p fun private c → Kept fun (continuation c)
    Valid-Kept c v =
        subst (λ k. (private : G.is_shared k ≡ false) × Valid G next k p fun private c)
          (sym v.group) (private, v)

    Outcome-Kept :
        (y : Reply) (l : Linger Group S T) → Outcome G next g p fun private y l → Kept fun l
    Outcome-Kept done (completion v) o = o
    Outcome-Kept done (continuation c) o = Valid-Kept c o
    Outcome-Kept done poison o = absurd o
    Outcome-Kept (unwinds e) poison o = (e, o)
    Outcome-Kept (unwinds e) (completion v) o = absurd o
    Outcome-Kept (unwinds e) (continuation c) o = absurd o
    Outcome-Kept (failed e) l o = absurd o

    Returned-Rested :
        (c : Continuation Group S T) → Returned G next g p fun private c → Rested Group S c.tls
    Returned-Rested c r = record {
      block = r.block;
      tls_eq = r.tls;
      prompt = r.prompt;
      booted = r.booted;
      idle = r.idle;
    }

    Dropped-Intact :
        (l : Linger Group S T) (o : Option (Continuation Group S T))
        → Dropped G next g p fun private l o
        → Intact o
    Dropped-Intact (continuation c) none d = tt
    Dropped-Intact (continuation c) (some x) d = absurd d
    Dropped-Intact (completion v) none d = tt
    Dropped-Intact (completion v) (some x) d = Returned-Rested x d
    Dropped-Intact poison none d = tt
    Dropped-Intact poison (some x) d = Returned-Rested x d

    -- The group stays with the function, or is dropped.
    Dropped-groups :
        (y : Reply) (l : Linger Group S T) (o : Option (Continuation Group S T))
        → Outcome G next g p fun private y l
        → Dropped G next g p fun private l o
        → dropped_groups o ++ group_of l ≡ g ∷ []
    Dropped-groups done (continuation c) none o d = ap (λ k. k ∷ []) o.group
    Dropped-groups (unwinds e) (continuation c) none o d = absurd o
    Dropped-groups (failed e) (continuation c) none o d = absurd o
    Dropped-groups y (continuation c) (some x) o d = absurd d
    Dropped-groups y (completion v) none o d = absurd d
    Dropped-groups y (completion v) (some x) o d = ap (λ k. k ∷ []) d.group
    Dropped-groups y poison none o d = absurd d
    Dropped-groups y poison (some x) o d = ap (λ k. k ∷ []) d.group

    pub Post-Leaves :
        (parent : Tls Group S) (r : Resumed Group S T)
        → Post G next g p fun private parent r
        → Leaves fun (g ∷ []) r
    Post-Leaves parent r o = record {
      kept = Outcome-Kept r.reply r.linger o.outcome;
      intact = Dropped-Intact r.linger r.dropped o.dropped;
      owed = Dropped-groups r.reply r.linger r.dropped o.outcome o.dropped;
      ready = SetUp-Ready r.thread o.thread;
    }
