-- ===== src/Future/Within.antt =====
-- src/future.rs: the loop of `poll_fns` while the polled function is in one call.
use libinger.Base.{ℕ, ◌≡◌, refl, subst, some, ok, err}
use libinger.Machine.{Action, compute, library, yield_now, finish}
use libinger.Linger.Invariant.{
  Follows, computes, calls, yields, Reaches, here, then, Finishes, finishes,
}
use libinger.Future.Channel.{Turn, is_ready, is_pending, polling, Loop, polled, at_phase, looped}

module _ {I T U : Type 0} (apply : I → U → U) (fun : U → Action U (Turn T U)) (erryes : ℕ) (u : U)
    (i : I) where
  abbrev loop : Loop I U → Action (Loop I U) T
  loop = looped apply fun erryes

  -- The function has been called in state `u` and is still in that call, with a message waiting.
  pub record Within (s : Loop I U) : Type 0 where
    pub state : U
    pub full : s.channel ≡ some i
    pub inside : s.phase ≡ polling state
    pub came : Reaches fun u state

  -- What the loop does next in such a state leads to another.
  abbrev Leads : Action (Loop I U) T → Type 0
  Leads (compute e t) = Within t
  Leads (library e t) = Within t
  Leads (yield_now t) = Within t
  Leads (finish v) = Unit {0}

  module _ (never : (w : U) → Finishes fun u (ok (is_pending w)) → ⊥) where
    polled-Leads :
        (v : U) (a : Action U (Turn T U))
        → fun v ≡ a
        → Reaches fun u v
        → Leads (polled apply fun erryes (some i) a)
    unfolding polled
    polled-Leads v (compute e w) n r = record {
      state = w;
      full = refl;
      inside = refl;
      came = then r (computes n);
    }
    polled-Leads v (library e w) n r = record {
      state = w;
      full = refl;
      inside = refl;
      came = then r (calls n);
    }
    polled-Leads v (yield_now w) n r = record {
      state = w;
      full = refl;
      inside = refl;
      came = then r (yields n);
    }
    polled-Leads v (finish (err e)) n r = tt
    polled-Leads v (finish (ok (is_ready x))) n r = tt
    polled-Leads v (finish (ok (is_pending w))) n r = absurd (never w (finishes v r n))

    loop-Leads : (s : Loop I U) → Within s → Leads (loop s)
    unfolding looped at_phase
    loop-Leads s w = rw (w.full, w.inside) (polled-Leads w.state (fun w.state) refl w.came)

    follows-Within : (s t : Loop I U) → Follows loop s t → Within s → Within t
    follows-Within s t (computes e) w = subst Leads e (loop-Leads s w)
    follows-Within s t (calls e) w = subst Leads e (loop-Leads s w)
    follows-Within s t (yields e) w = subst Leads e (loop-Leads s w)

    pub reaches-Within : (s t : Loop I U) → Reaches loop s t → Within s → Within t
    reaches-Within s t here w = w
    reaches-Within s t (then {t = x} r f) w = follows-Within x t f (reaches-Within s x r w)
