-- ===== src/Linger/Invariant/Alone.antt =====
-- src/linger.rs: a timed function that is left alone goes one way only.
use libinger.Base.{◌≡◌, refl, sym, ap, ◌∙◌, subst, inl, inr, ◌⊎◌}
use libinger.Machine.{ThdResult, Action, finish}
use libinger.Linger.Invariant.{
  Follows, computes, calls, yields, Reaches, here, then, Finishes, finishes,
}

module _ {S T : Type 0} (next : S → Action S T) where
  Follows-unique : {s t u : S} → Follows next s t → Follows next s u → t ≡ u
  Follows-unique (computes a) (computes b) = cc
  Follows-unique (computes a) (calls b) = cc
  Follows-unique (computes a) (yields b) = cc
  Follows-unique (calls a) (computes b) = cc
  Follows-unique (calls a) (calls b) = cc
  Follows-unique (calls a) (yields b) = cc
  Follows-unique (yields a) (computes b) = cc
  Follows-unique (yields a) (calls b) = cc
  Follows-unique (yields a) (yields b) = cc

  finished-Follows : {s t : S} {v : ThdResult T} → next s ≡ finish v → Follows next s t → ⊥
  finished-Follows f (computes a) = cc
  finished-Follows f (calls a) = cc
  finished-Follows f (yields a) = cc

  Reaches-skip : {s t u : S} → Follows next s t → Reaches next s u → (s ≡ u) ⊎ Reaches next t u
  Reaches-skip f here = inl refl
  Reaches-skip {s} {t} f (then {t = w} {u = u} r x) = elim (Reaches-skip f r) [
    | inl e ↦
        inr
          (subst (Reaches next t) (Follows-unique f (subst (λ k. Follows next k u) (sym e) x)) here)
    | inr k ↦ inr (then k x)
  ]

  Reaches-linear :
      {s t u : S} → Reaches next s t → Reaches next s u → Reaches next t u ⊎ Reaches next u t
  Reaches-linear here r = inl r
  Reaches-linear {s} {t} {u} (then {t = w} r f) q = elim (Reaches-linear r q) [
    | inl k ↦ elim (Reaches-skip f k) [
      | inl e ↦ inr (subst (λ x. Reaches next x t) e (then here f))
      | inr j ↦ inl j
    ]
    | inr k ↦ inr (then k f)
  ]

  Reaches-finished : {s t : S} {v : ThdResult T} → next s ≡ finish v → Reaches next s t → s ≡ t
  Reaches-finished e here = refl
  Reaches-finished {s} {t} e (then {t = w} r f) =
      absurd (finished-Follows (ap next (sym (Reaches-finished e r)) ∙ e) f)

  -- A function that is left alone has one result.
  pub Finishes-unique : {s : S} (v w : ThdResult T) → Finishes next s v → Finishes next s w → v ≡ w
  Finishes-unique v w (finishes t r e) (finishes u q h) = elim (Reaches-linear r q) [
    | inl k ↦ let same = Reaches-finished e k in cc
    | inr k ↦ let same = Reaches-finished h k in cc
  ]
