-- ===== src/Linger/Lifecycle/Launches.antt =====
-- src/linger.rs with src/groups.rs, src/stacks.rs and src/localstores.rs: what a launch does to what is
-- right of a client's world.
use libinger.Base.{
  Bool, ℕ, suc, true, ◌≡◌, refl, sym, subst, ◌∙◌, Option, none, some, List, [], ◌∷◌, ◌++◌, Result,
  ok, err, returns, Ensures, Ensures->>=, Meets, Meets->>=, Meets-of_Ensures, false, not, ◌&&◌,
  ◌||◌, ◌==◌, is_some, arith,
}
use libinger.Gotcha.{Gotcha}
use libinger.Machine.{Action, PreemptionSignal, Event}
use libinger.Preemption.Setup.{Answers}
use libinger.Reusable.{PoisonError}
use libinger.Statics.{Static, alloc_localstore}
use libinger.Statics.Stores.{Handed, alloc_localstore-Handed}
use libinger.Linger.Resume.{Reply, done, failed, unwinds, Resumed, launch}
use libinger.Linger.Resume.Valid.{no_faults}
use libinger.Linger.Lifecycle.{
  World, discard, settle, landed, launched_with, setup_stack, keep_stack, is_first, has_checkpoint,
}
use libinger.Linger.Lifecycle.Sound.{group_of, groups_of, dropped_groups, Leaves}
use libinger.Linger.Lifecycle.Owned.{
  Shelf, owned, stacks_of, Begins, setup_stack-Begins, Ends, keep_stack-Ends,
}
use libinger.Linger.Lifecycle.Calls.{Ample, Launches, launch-Leaves}
use libinger.Statics.Stores.{Rested}
use libinger.Machine.{Tls}
use libinger.Linger.Resume.{continuation, fresh}
use libinger.Linger.Lifecycle.Books.{Supply, Assigned}
use libinger.Linger.Lifecycle.Drops.{Owing, settle-Owing, discard-Owing}

pub both : (b c : Bool) → (b ≡ true → c ≡ true) → (b && c) ≡ b
both b c h = ground arith

module _ {Group W : Type 0} (G : Gotcha Group) {S T : Type 0} (next : S → Action S T)
    (build : W → Option Group × W) (start : W) (built : W → List Group) (Good : ℕ → W → Type 0)
    (supply : Supply G build built Good) (p : PreemptionSignal) (a : Answers) (renew : Group → Bool)
    (works : (h : Group) → renew h ≡ true) (limit : ℕ) where
  module _ (R : Type 0) (bound : ℕ) where
    abbrev pub Enough : List Event → Type 0
    Enough = Ample G next p a R bound

    -- A world in the middle of a call.
    abbrev pub Mid : ℕ → List Group → List ℕ → World Group S T W → Type 0
    Mid = Owing G next build start built Good supply p a renew works limit

    landed-Owing :
        (n : ℕ) (fun : S) (out : List Group) (stack : Option ℕ) (w : World Group S T W)
        (r : Resumed Group S T)
        → Leaves G next p a fun out r
        → (has_checkpoint r.linger ≡ true → is_some stack ≡ true)
        → Mid n out (owned stack) w
        → Ensures (Mid n [] []) (landed G next build start renew limit (no_faults a) fun stack w r)
    unfolding landed
    landed-Owing n fun out stack w r l f o =
        Ensures->>= ⊥ (Ends (has_checkpoint r.linger) stack (stacks_of w.live)) (Mid n [] [])
          (keep_stack (has_checkpoint r.linger) stack w.stacks) _
          (keep_stack-Ends (has_checkpoint r.linger) stack (stacks_of w.live) w.stacks o.shelf)
          λ k (h, e).
            Ensures->>= ⊥ (Mid n (group_of r.linger) (owned k.0)) (Mid n [] [])
              (settle G next build start renew limit (no_faults a) r.dropped
                (record w { thread = r.thread; stacks = k.1 }))
              _
              (settle-Owing G next build start built Good supply p a renew works limit n
                (group_of r.linger) (owned k.0) r.dropped _ l.intact (owed k h))
              λ x q.
                landed-at k.0 (e ∙ both (has_checkpoint r.linger) (is_some stack) f) r.reply x q
      where
        owed :
            (k : Option ℕ × Static ℕ ℕ)
            → Shelf k.1 (owned k.0 ++ stacks_of w.live)
            → Mid n
                (dropped_groups r.dropped ++ group_of r.linger)
                (owned k.0)
                (record w { thread = r.thread; stacks = k.1 })
        owed k h =
            subst (λ gs. Mid n gs (owned k.0) (record w { thread = r.thread; stacks = k.1 }))
              (sym l.owed)
              (record {
                books = o.books;
                shelf = h;
                stores = o.stores;
                kept = o.kept;
                fits = o.fits;
                ready = l.ready;
              })

        landed-at :
            (k : Option ℕ)
            → is_some k ≡ has_checkpoint r.linger
            → (y : Reply) (x : World Group S T W) → Mid n (group_of r.linger) (owned k) x
            → Ensures (Mid n [] []) (elim y [
              | done ↦
                  returns (record x {
                    live = record { fun = fun; linger = r.linger; stack = k } ∷ x.live;
                  })
              | failed e ↦ discard G next build start renew limit (no_faults a) r.linger k x
              | unwinds e ↦ discard G next build start renew limit (no_faults a) r.linger k x
            ])
        landed-at k e done x q = record {
          books = q.books;
          shelf = q.shelf;
          stores = q.stores;
          kept = (l.kept, q.kept);
          fits = (e, q.fits);
          ready = q.ready;
        }
        landed-at k e (failed m) x q =
            discard-Owing G next build start built Good supply p a renew works limit n fun r.linger
              k x l.kept e q
        landed-at k e (unwinds m) x q =
            discard-Owing G next build start built Good supply p a renew works limit n fun r.linger
              k x l.kept e q

    pub launched_with-Owing :
        (n : ℕ) (fun : S) (us : ℕ) (es : List Event) (w : World Group S T W)
        (r : Result Group (Option PoisonError) × Static Group W)
        → Enough es
        → Mid (suc n) [] [] w
        → Assigned G build start built Good supply n (groups_of w.live) r
        → Meets R
            (Mid n [] [])
            (launched_with G next build start renew limit (no_faults a) fun us es w r)
    unfolding launched_with
    launched_with-Owing n fun us es w (err e, gs) x o b = record {
      books = b;
      shelf = o.shelf;
      stores = o.stores;
      kept = o.kept;
      fits = o.fits;
      ready = o.ready;
    }
    launched_with-Owing n fun us es w (ok g, gs) x o (b, private) =
        Ensures->>= R (Handed Group S) (Mid n [] []) (alloc_localstore limit w.localstores) _
          (alloc_localstore-Handed Group S limit w.localstores o.stores)
          λ m h.
            Ensures->>= R (Begins (first m.0) none (stacks_of w.live)) (Mid n [] [])
              (setup_stack limit (first m.0) none w.stacks) _
              (setup_stack-Begins limit (first m.0) none (stacks_of w.live) w.stacks o.shelf)
              λ k (sh, e).
                Meets->>= R (Launches G next p a R bound fun g us) (Mid n [] [])
                  (launch G next (no_faults a) (some g) m.0 fun us w.thread es) _
                  (launch-Leaves G next p a R bound fun g m.0 us w.thread es x private h.0 o.ready)
                  λ r (l, c). Meets-of_Ensures R (Mid n [] []) _ (
                    landed-Owing n fun (g ∷ []) k.0
                      (record w { groups = gs; stacks = k.1; localstores = m.1 }) r l
                      (λ y. e ∙ begun m.0 h.0 (c y))
                      (record {
                        books = b;
                        shelf = sh;
                        stores = h.1;
                        kept = o.kept;
                        fits = o.fits;
                        ready = o.ready;
                      }))
      where
        first : Option (Tls Group S) → Bool
        first tls = not (us == 0) && is_first (no_faults a) (continuation (fresh G next fun g tls))

        begun :
            (tls : Option (Tls Group S))
            → Rested Group S tls
            → (us == 0) ≡ false
            → (first tls || false) ≡ true
        begun tls h z = rw (z, h.tls_eq) refl
