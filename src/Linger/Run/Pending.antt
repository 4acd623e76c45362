-- ===== src/Linger/Run/Pending.antt =====
-- The signals that wait for a thread's mask to open: each is there at most once, and one that the mask
-- lets through does not stay.
use libinger.Base.{
  Bool, true, false, ◌||◌, ◌≡◌, refl, ap, List, [], ◌∷◌, ◌++◌, All, All-append, none, some, ◌⊎◌,
  inl, inr, Bool-cases, arith, ◌∙◌, subst, sym, Option-cases, ==_refl,
}
use libinger.Signal.{Signal, eq, eq_iff, number}
use libinger.Signal.Set.{Sigset, add, del, block, unblock, changed, empty}
use libinger.Preemption.{enqueue, is_pending}
use libinger.Linger.Run.{find_unblocked, put_back}

-- Nothing that waits can be delivered.
abbrev pub Quiet : Sigset → List Signal → Type 0
Quiet mask ps = All (λ p. mask p ≡ true) ps

abbrev pub Unique : List Signal → Type 0
Unique [] = Unit {0}
Unique (p ∷ ps) = All (λ x. eq x p ≡ false) ps × Unique ps

-- Nothing but the signal `s` can be delivered.
abbrev pub Lone : Signal → Sigset → List Signal → Type 0
Lone s mask ps = All (λ p. (eq p s || mask p) ≡ true) ps

pub All-imp :
    {A : Type 0} (P Q : A → Type 0) → ((x : A) → P x → Q x) → (xs : List A) → All P xs → All Q xs
All-imp P Q f [] h = tt
All-imp P Q f (x ∷ xs) h = (f x h.0, All-imp P Q f xs h.1)

or_true : (b c : Bool) → c ≡ true → (b || c) ≡ true
or_true b c h = ground arith

pub Lone-of_Quiet : (s : Signal) (mask : Sigset) (ps : List Signal) → Quiet mask ps → Lone s mask ps
Lone-of_Quiet s mask ps h =
    All-imp (λ p. mask p ≡ true) (λ p. (eq p s || mask p) ≡ true)
      (λ p e. or_true (eq p s) (mask p) e) ps h

-- A mask with one more signal in it lets no more through.
pub Quiet-add :
    (s : Signal) (mask : Sigset) (ps : List Signal) → Quiet mask ps → Quiet (add mask s) ps
Quiet-add s mask ps h =
    All-imp (λ p. mask p ≡ true) (λ p. add mask s p ≡ true) (λ p e. ground arith) ps h

pub Quiet-block :
    (s : Signal) (mask : Sigset) (ps : List Signal)
    → Quiet mask ps
    → Quiet (changed block (add empty s) mask) ps
Quiet-block s mask ps h =
    All-imp (λ p. mask p ≡ true) (λ p. changed block (add empty s) mask p ≡ true)
      (λ p e. ground arith) ps h

pub Lone-unblock :
    (s : Signal) (mask : Sigset) (ps : List Signal)
    → Lone s mask ps
    → Lone s (changed unblock (add empty s) mask) ps
Lone-unblock s mask ps h =
    All-imp (λ p. (eq p s || mask p) ≡ true)
      (λ p. (eq p s || changed unblock (add empty s) mask p) ≡ true) (λ p e. ground arith) ps h

eq_sym : (a b : Signal) → eq a b ≡ false → eq b a ≡ false
eq_sym a b h = ground arith

-- What is raised comes last, unless it is there.
is_pending-absent :
    (s : Signal) (ps : List Signal) → is_pending s ps ≡ false → All (λ x. eq x s ≡ false) ps
is_pending-absent s [] h = tt
is_pending-absent s (p ∷ ps) h = (ground arith, is_pending-absent s ps (ground arith))

append-Unique :
    (s : Signal) (ps : List Signal)
    → All (λ x. eq x s ≡ false) ps
    → Unique ps
    → Unique (ps ++ s ∷ [])
append-Unique s [] a u = (tt, tt)
append-Unique s (p ∷ ps) a u = (
  All-append (λ x. eq x p ≡ false) ps (s ∷ []) u.0 (eq_sym p s a.0, tt),
  append-Unique s ps a.1 u.1,
)

pub enqueue-Unique : (s : Signal) (ps : List Signal) → Unique ps → Unique (enqueue s ps)
unfolding enqueue
enqueue-Unique s ps u = elim (Bool-cases (is_pending s ps)) [
  | inl e ↦ rw e u
  | inr e ↦ rw e (append-Unique s ps (is_pending-absent s ps e) u)
]

pub enqueue-Lone :
    (s : Signal) (mask : Sigset) (ps : List Signal) → Lone s mask ps → Lone s mask (enqueue s ps)
unfolding enqueue
enqueue-Lone s mask ps h = elim (Bool-cases (is_pending s ps)) [
  | inl e ↦ rw e h
  | inr e ↦ rw e (All-append (λ p. (eq p s || mask p) ≡ true) ps (s ∷ []) h (ground arith, tt))
]

pub find_unblocked-Quiet :
    (mask : Sigset) (ps : List Signal) → Quiet mask ps → find_unblocked mask ps ≡ none
unfolding find_unblocked
find_unblocked-Quiet mask [] h = refl
find_unblocked-Quiet mask (p ∷ ps) h = rw h.0 (ap (put_back p) (find_unblocked-Quiet mask ps h.1))

found-All :
    (P : Signal → Type 0) (mask : Sigset) (ps : List Signal) (q : Signal) (rest : List Signal)
    → find_unblocked mask ps ≡ some (q, rest)
    → All P ps
    → All P rest
unfolding find_unblocked
found-All P mask [] q rest e h = cc
found-All P mask (p ∷ ps) q rest e h = elim (Bool-cases (mask p)) [
  | inr m ↦ let same : ps ≡ rest = ground (arith, m) in subst (All P) same h.1
  | inl m ↦ elim (Option-cases (find_unblocked mask ps)) [
    | inl n ↦ ground (arith, m, n)
    | inr ((x, ys), n) ↦
        let same : p ∷ ys ≡ rest = ground (arith, m, n) in
        subst (All P) same (h.0, found-All P mask ps x ys n h.1)
  ]
]

-- Where nothing but `s` can be delivered: it is not there, or it is found, and then what is left is
-- quiet.
pub record Takes (s : Signal) (mask : Sigset) (ps : List Signal) : Type 0 where
  pub signal : Signal
  pub rest : List Signal
  pub found : find_unblocked mask ps ≡ some (signal, rest)
  pub same : eq signal s ≡ true
  pub quiet : Quiet mask rest
  pub unique : Unique rest

others-Quiet :
    (s p : Signal) (mask : Sigset) (ps : List Signal)
    → eq p s ≡ true
    → All (λ x. eq x p ≡ false) ps
    → Lone s mask ps
    → Quiet mask ps
others-Quiet s p mask [] e a l = tt
others-Quiet s p mask (x ∷ ps) e a l = (ground arith, others-Quiet s p mask ps e a.1 l.1)

pub Lone-cases :
    (s : Signal) (mask : Sigset) (ps : List Signal)
    → Unique ps
    → Lone s mask ps
    → Quiet mask ps ⊎ Takes s mask ps
unfolding find_unblocked
Lone-cases s mask [] u l = inl tt
Lone-cases s mask (p ∷ ps) u l = elim (Bool-cases (mask p)) [
  | inr m ↦
      let own : eq p s ≡ true = ground arith in
      inr (record {
        signal = p;
        rest = ps;
        found = rw m refl;
        same = own;
        quiet = others-Quiet s p mask ps own u.0 l.1;
        unique = u.1;
      })
  | inl m ↦ elim (Lone-cases s mask ps u.1 l.1) [
    | inl q ↦ inl (m, q)
    | inr t ↦ inr (record {
      signal = t.signal;
      rest = p ∷ t.rest;
      found = rw (m, t.found) refl;
      same = t.same;
      quiet = (m, t.quiet);
      unique = (found-All (λ x. eq x p ≡ false) mask ps t.signal t.rest t.found u.0, t.unique);
    })
  ]
]

enqueue-is_pending : (s : Signal) (ps : List Signal) → is_pending s (enqueue s ps) ≡ true
unfolding enqueue
enqueue-is_pending s ps = elim (Bool-cases (is_pending s ps)) [
  | inl e ↦ rw (e, e) refl
  | inr e ↦ rw e (last ps)
]
  where
    last : (ps : List Signal) → is_pending s (ps ++ s ∷ []) ≡ true
    last [] = ground (arith, ==_refl (number s))
    last (p ∷ ps) = ground (arith, last ps)

Quiet-is_pending :
    (s : Signal) (mask : Sigset) (ps : List Signal)
    → Quiet mask ps
    → is_pending s ps ≡ true
    → mask s ≡ true
Quiet-is_pending s mask [] q e = cc
Quiet-is_pending s mask (p ∷ ps) q e = elim (Bool-cases (eq p s)) [
  | inl own ↦ ap mask (sym ((eq_iff p s).0 own)) ∙ q.0
  | inr other ↦ Quiet-is_pending s mask ps q.1 (ground arith)
]

-- A signal that is raised while the mask lets it through is found.
pub enqueue-Takes :
    (s : Signal) (mask : Sigset) (ps : List Signal)
    → Unique ps
    → Lone s mask ps
    → mask s ≡ false
    → Takes s mask (enqueue s ps)
enqueue-Takes s mask ps u l m =
    elim (Lone-cases s mask (enqueue s ps) (enqueue-Unique s ps u) (enqueue-Lone s mask ps l)) [
      | inl q ↦ absurd (ground (arith, Quiet-is_pending s mask _ q (enqueue-is_pending s ps)))
      | inr t ↦ t
    ]

-- One that is raised behind the mask waits like the others.
pub enqueue-Quiet :
    (s : Signal) (mask : Sigset) (ps : List Signal)
    → Quiet mask ps
    → mask s ≡ true
    → Quiet mask (enqueue s ps)
unfolding enqueue
enqueue-Quiet s mask ps q m = elim (Bool-cases (is_pending s ps)) [
  | inl e ↦ rw e q
  | inr e ↦ rw e (All-append (λ p. mask p ≡ true) ps (s ∷ []) q (m, tt))
]

pub Lone-del :
    (s : Signal) (mask : Sigset) (ps : List Signal) → Quiet mask ps → Lone s (del mask s) ps
Lone-del s mask ps h =
    All-imp (λ p. mask p ≡ true) (λ p. (eq p s || del mask s p) ≡ true) (λ p e. ground arith) ps h
