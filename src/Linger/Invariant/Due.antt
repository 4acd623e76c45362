-- ===== src/Linger/Invariant/Due.antt =====
-- src/linger.rs: how many instructions of the processor a timed function is from its call site, if it
-- finishes when it is left alone.
use libinger.Base.{
  ℕ, zero, suc, ◌+◌, ◌*◌, ◌≤◌, ◌≡◌, refl, sym, ap, ◌∙◌, Bool, true, false, Option, List, [], ◌∷◌,
  arith,
}
use libinger.Gotcha.{Gotcha}
use libinger.Signal.{Signal}
use libinger.Machine.{
  Action, compute, library, yield_now, finish, Completion, PreemptionSignal, Point, before_fun,
  client, in_library, in_hook, after_fun, Control, call_site, entry, running, Thread, Event,
  instruct, arrive, elapse,
}
use libinger.Linger.Invariant.{Where, Follows, computes, calls, yields, Reaches, here, then}

abbrev pub counted : Event → ℕ → ℕ
counted instruct i = suc i
counted (arrive s) i = i
counted (elapse n) i = i

-- How many of the events are instructions.
abbrev pub instructions : List Event → ℕ
instructions [] = zero
instructions (e ∷ es) = counted e (instructions es)

module _ {S T : Type 0} (next : S → Action S T) where
  abbrev pub ends_after : (S → Bool) → Action S T → Bool
  ends_after rest (compute e s) = rest s
  ends_after rest (library e s) = rest s
  ends_after rest (yield_now s) = rest s
  ends_after rest (finish v) = true

  -- Whether the function, left alone in state `s`, finishes within `n` steps.
  unfoldable pub ends_within : ℕ → S → Bool
  ends_within zero s = false
  ends_within (suc n) s = ends_after (ends_within n) (next s)

  -- A bound on the instructions that are left until the call site, for a function that finishes: at
  -- most three for each of its steps.
  abbrev pub Due : {Group : Type 0} → S → ℕ → Control Group S → Type 0
  Due start i call_site = Unit {0}
  Due start i entry = (n : ℕ) × (ends_within n start ≡ true) × (n * 3 + 2 ≤ i)
  Due start i (running u before_fun) = (n : ℕ) × (ends_within n start ≡ true) × (n * 3 + 1 ≤ i)
  Due start i (running u (client s)) = (n : ℕ) × (ends_within n s ≡ true) × (n * 3 ≤ i)
  Due start i (running u (in_library g s)) = (n : ℕ) × (ends_within n s ≡ true) × (n * 3 + 2 ≤ i)
  Due start i (running u (in_hook e s)) = (n : ℕ) × (ends_within n s ≡ true) × (n * 3 + 1 ≤ i)
  Due start i (running u after_fun) = 1 ≤ i

  ends_after_mono :
      (k l : S → Bool)
      → ((t : S) → k t ≡ true → l t ≡ true)
      → (a : Action S T) → ends_after k a ≡ true
      → ends_after l a ≡ true
  ends_after_mono k l h (compute e t) x = h t x
  ends_after_mono k l h (library e t) x = h t x
  ends_after_mono k l h (yield_now t) x = h t x
  ends_after_mono k l h (finish v) x = refl

  more : (n : ℕ) (s : S) → ends_within n s ≡ true → ends_within (suc n) s ≡ true
  unfolding ends_within
  more zero s e = cc
  more (suc n) s e = ends_after_mono (ends_within n) (ends_within (suc n)) (more n) (next s) e

  Follows-ends :
      (n : ℕ) (s t : S) → Follows next s t → ends_within n s ≡ true → ends_within n t ≡ true
  unfolding ends_within
  Follows-ends zero s t f e = cc
  Follows-ends (suc n) s t (computes h) e = more n t (ap (ends_after (ends_within n)) (sym h) ∙ e)
  Follows-ends (suc n) s t (calls h) e = more n t (ap (ends_after (ends_within n)) (sym h) ∙ e)
  Follows-ends (suc n) s t (yields h) e = more n t (ap (ends_after (ends_within n)) (sym h) ∙ e)

  Reaches-ends :
      (n : ℕ) (s t : S) → Reaches next s t → ends_within n s ≡ true → ends_within n t ≡ true
  Reaches-ends n s t here e = e
  Reaches-ends n s t (then {t = u} r f) e = Follows-ends n u t f (Reaches-ends n s u r e)

  pub Due-now :
      {Group : Type 0} (start : S) (u : Option Signal) (q : Point Group S)
      → Due start 0 (running u q)
      → ⊥
  unfolding ends_within
  Due-now start u before_fun (n, w, l) = omega arith
  Due-now start u (client s) (zero, w, l) = cc
  Due-now start u (client s) (suc n, w, l) = omega arith
  Due-now start u (in_library h s) (n, w, l) = omega arith
  Due-now start u (in_hook e s) (n, w, l) = omega arith
  Due-now start u after_fun l = omega arith

module _ {Group : Type 0} (G : Gotcha Group) {S T : Type 0} (next : S → Action S T) (g : Group)
    (p : PreemptionSignal) (start : S) (private : G.is_shared g ≡ false) where
  -- Wherever the machine is, no more is left than from the start.
  pub Where-Due :
      (n i : ℕ) (c : Control Group S) (t : Thread Group S) (f : Completion S T)
      → Where G next g p start c t f
      → ends_within next n start ≡ true
      → n * 3 + 2 ≤ i
      → Due next start i c
  Where-Due n i call_site t f w e l = tt
  Where-Due n i entry t f w e l = (n, e, l)
  Where-Due n i (running u before_fun) t f w e l = (n, e, omega arith)
  Where-Due n i (running u (client s)) t f w e l =
      (n, Reaches-ends next n start s w.2.0 e, omega arith)
  Where-Due n i (running u (in_library h s)) t f w e l = (n, Reaches-ends next n start s w.2.0 e, l)
  Where-Due n i (running u (in_hook k s)) t f w e l =
      (n, Reaches-ends next n start s w.2.0 e, omega arith)
  Where-Due n i (running u after_fun) t f w e l = omega arith

  -- The events have instructions enough for a function that finishes when it is left alone.
  abbrev pub Enough : List Event → Type 0
  Enough es = (n : ℕ) × (ends_within next n start ≡ true) × (n * 3 + 2 ≤ instructions es)
