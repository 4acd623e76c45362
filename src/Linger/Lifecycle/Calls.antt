-- ===== src/Linger/Lifecycle/Calls.antt =====
-- src/linger.rs: what the calls of `resume` and `launch` do to a client's function.
use libinger.Base.{
  ℕ, ◌+◌, ◌*◌, ◌≤◌, ◌==◌, if◌then◌else◌, true, false, ◌≡◌, refl, Option, none, some, List, [], ◌∷◌,
  inl, inr, ◌⊎◌, Meets, Meets-imp, returns, Meets-mono, Meets-of_Ensures,
}
use libinger.Gotcha.{Gotcha}
use libinger.Machine.{Action, PreemptionSignal, Thread, Tls, Event}
use libinger.Preemption.Setup.{Answers}
use libinger.Statics.Stores.{Rested}
use libinger.Linger.Invariant.Due.{instructions, ends_within}
use libinger.Linger.Resume.{
  Continuation, Linger, completion, continuation, poison, done, Resumed, resume, launch, fresh,
}
use libinger.Linger.Resume.Valid.{no_faults, Post}
use libinger.Linger.Resume.Value.{resume-Post, resume_returns}
use libinger.Linger.Lifecycle.{has_checkpoint}
use libinger.Linger.Lifecycle.Sound.{group_of, Kept, Ready, Leaves, Ready-Idle, Post-Leaves}

module _ {Group : Type 0} (G : Gotcha Group) {S T : Type 0} (next : S → Action S T)
    (p : PreemptionSignal) (a : Answers) where
  abbrev calm : Linger Group S T → Thread Group S → List Event → Resumed Group S T
  calm l t es = record { reply = done; linger = l; dropped = none; thread = t; rest = es }

  Kept-Leaves :
      (fun : S) (l : Linger Group S T) (t : Thread Group S) (es : List Event)
      → Kept G next p a fun l
      → Ready G next p a t
      → Leaves G next p a fun (group_of l) (calm l t es)
  Kept-Leaves fun l t es k r = record { kept = k; intact = tt; owed = refl; ready = r }

  -- The events `es` have instructions enough for functions that all finish within `n` steps, or else a
  -- run that they end is one that `R` holds of.
  abbrev pub Ample : Type 0 → ℕ → List Event → Type 0
  Ample R n es = R ⊎ (((s : S) → ends_within next n s ≡ true) × (n * 3 + 2 ≤ instructions es))

  module _ (R : Type 0) (n : ℕ) where
    resume-valid :
        (fun : S) (c : Continuation Group S T) (us : ℕ) (t : Thread Group S) (es : List Event)
        → Ample R n es
        → Kept G next p a fun (continuation c)
        → Ready G next p a t
        → Meets R
            (Leaves G next p a fun (c.group ∷ []))
            (resume G next (no_faults a) (continuation c) us t es)
    resume-valid fun c us t es (inl u) (private, v) r =
        let x = resume G next (no_faults a) (continuation c) us t es in
        Meets-mono (Unit {0}) R (Leaves G next p a fun (c.group ∷ [])) x (λ y. u)
          (Meets-imp (Unit {0}) (Post G next c.group p fun private t.tls)
            (Leaves G next p a fun (c.group ∷ [])) x
            (resume-Post G next c.group p fun private a us c t es v
              (Ready-Idle G next p a c.group fun private t r))
            (Post-Leaves G next p a c.group fun private t.tls))
    resume-valid fun c us t es (inr (e, l)) (private, v) r =
        let x = resume G next (no_faults a) (continuation c) us t es in
        Meets-of_Ensures R (Leaves G next p a fun (c.group ∷ [])) x (
          Meets-imp ⊥ (Post G next c.group p fun private t.tls)
            (Leaves G next p a fun (c.group ∷ [])) x
            (resume_returns G next c.group p fun private a us n c t es v
              (Ready-Idle G next p a c.group fun private t r) (e fun) l)
            (Post-Leaves G next p a c.group fun private t.tls))

    pub resume-Leaves :
        (fun : S) (l : Linger Group S T) (us : ℕ) (t : Thread Group S) (es : List Event)
        → Ample R n es
        → Kept G next p a fun l
        → Ready G next p a t
        → Meets R (Leaves G next p a fun (group_of l)) (resume G next (no_faults a) l us t es)
    unfolding resume
    resume-Leaves fun (completion v) us t es e k r = Kept-Leaves fun (completion v) t es k r
    resume-Leaves fun (continuation c) us t es e k r = resume-valid fun c us t es e k r
    resume-Leaves fun poison us t es e k r = Kept-Leaves fun poison t es k r

    fresh-Kept :
        (fun : S) (g : Group) (tls : Option (Tls Group S))
        → G.is_shared g ≡ false
        → Rested Group S tls
        → Kept G next p a fun (continuation (fresh G next fun g tls))
    fresh-Kept fun g tls private k = (
      private,
      record {
        block = k.block;
        tls = k.tls_eq;
        group = refl;
        prompt = k.prompt;
        booted = k.booted;
        idle = k.idle;
        state = inl (refl, refl, refl);
      },
    )

    -- With no budget the function does not begin.
    abbrev pub Launches : S → Group → ℕ → Resumed Group S T → Type 0
    Launches fun g us r =
        Leaves G next p a fun (g ∷ []) r × (has_checkpoint r.linger ≡ true → (us == 0) ≡ false)

    pub launch-Leaves :
        (fun : S) (g : Group) (tls : Option (Tls Group S)) (us : ℕ) (t : Thread Group S)
        (es : List Event)
        → Ample R n es
        → G.is_shared g ≡ false
        → Rested Group S tls
        → Ready G next p a t
        → Meets R (Launches fun g us) (launch G next (no_faults a) (some g) tls fun us t es)
    unfolding launch
    launch-Leaves fun g tls us t es e private k r =
        let c = fresh G next fun g tls in
        let valid = fresh-Kept fun g tls private k in
        elim (us == 0)
          as (λ b.
            Meets R
              (λ r. Leaves G next p a fun (g ∷ []) r × (has_checkpoint r.linger ≡ true → b ≡ false))
              (if b
                then returns (calm (continuation c) t es)
                else resume G next (no_faults a) (continuation c) us t es)) [
                  | true ↦ (Kept-Leaves fun (continuation c) t es valid r, λ h. cc)
                  | false ↦
                      Meets-imp R (Leaves G next p a fun (g ∷ [])) _
                        (resume G next (no_faults a) (continuation c) us t es)
                        (resume-valid fun c us t es e valid r) (λ x k. (k, λ h. refl))
                ]
