-- ===== src/Linger/Lifecycle/Orders.antt =====
-- src/linger.rs with src/groups.rs, src/stacks.rs and src/localstores.rs: what each step of a client does
-- to what is right of its world.
use mathlib.Core.List.{append_assoc, append-nil, cons≢nil}
use libinger.Base.{
  Bool, ℕ, suc, true, ◌≡◌, refl, sym, subst, ap, ◌∙◌, Option, none, some, List, [], ◌∷◌, ◌++◌,
  Ensures, Ensures->>=, Meets, Meets->>=, Meets-of_Ensures, get_elem?, erase_idx, ◌||◌, is_some,
  ◌>>=◌, length, All, All-get_elem?, All-erase_idx,
}
use libinger.Gotcha.{Gotcha}
use libinger.Machine.{Action, PreemptionSignal, Event}
use libinger.Preemption.Setup.{Answers}
use libinger.Statics.{Static, assign_group}
use libinger.Linger.Resume.{Resumed, resume, erase_lem}
use libinger.Linger.Resume.Valid.{no_faults}
use libinger.Linger.Lifecycle.{
  Launched, World, Order, launching, resuming, erasing, dropping, erased_at, settle, resumed_at,
  dropped_at, step, run, setup_stack, keep_stack, is_first, has_checkpoint,
}
use libinger.Linger.Lifecycle.Sound.{
  group_of, groups_of, perm-parts, dropped_groups, Kept, Leaves, Fits, is_first-has_checkpoint,
}
use libinger.Linger.Lifecycle.Owned.{
  Shelf, owned, stacks_of, perm-Shelf, Begins, setup_stack-Begins, Ends, keep_stack-Ends,
}
use libinger.Linger.Lifecycle.Calls.{Ample, resume-Leaves}
use libinger.Linger.Resume.{Continuation, Linger, completion, continuation, poison}
use libinger.Linger.Lifecycle.Books.{Supply, Books, assign_group-Assigned, perm-Books, waits-Books}
use libinger.Linger.Lifecycle.Drops.{Owing, fewer, settle-Owing, discard-Owing}
use libinger.Linger.Lifecycle.Launches.{both, launched_with-Owing}

regroup {ℓ} : {A : Type ℓ} (xs ys zs : List A) → (xs ++ ys) ++ zs ≡ (xs ++ []) ++ (ys ++ zs)
regroup xs ys zs = rw (append-nil, append_assoc) refl

module _ {Group W : Type 0} (G : Gotcha Group) {S T : Type 0} (next : S → Action S T)
    (build : W → Option Group × W) (start : W) (built : W → List Group) (Good : ℕ → W → Type 0)
    (supply : Supply G build built Good) (p : PreemptionSignal) (a : Answers) (renew : Group → Bool)
    (works : (h : Group) → renew h ≡ true) (limit : ℕ) where
  module _ (R : Type 0) (bound : ℕ) where
    abbrev Enough : List Event → Type 0
    Enough = Ample G next p a R bound

    -- A world in the middle of a call.
    abbrev Mid : ℕ → List Group → List ℕ → World Group S T W → Type 0
    Mid = Owing G next build start built Good supply p a renew works limit

    -- The books when one function is taken out of the list.
    taken_out :
        (n i : ℕ) (w : World Group S T W) (l : Launched Group S T)
        → get_elem? w.live i ≡ some l
        → Mid (suc n) [] [] w
        → Books G build start built Good supply n w.groups
            (group_of l.linger ++ groups_of (erase_idx w.live i))
    taken_out n i w l e o = waits-Books G build start built Good supply n _ w.groups (
        perm-Books G build start built Good supply (suc n) w.groups
          (perm-parts (λ (k : Launched Group S T). group_of k.linger) w.live i e) o.books)

    stack_out :
        (n i : ℕ) (w : World Group S T W) (l : Launched Group S T)
        → get_elem? w.live i ≡ some l
        → Mid n [] [] w
        → Shelf w.stacks (owned l.stack ++ stacks_of (erase_idx w.live i))
    stack_out n i w l e o = perm-Shelf w.stacks (perm-parts (λ k. owned k.stack) w.live i e) o.shelf

    -- Only a function that had its group before has a checkpoint after, and then it has a stack.
    goes_on :
        (fun : S) (l : Linger Group S T) (stack : Option ℕ) (d : Option (Continuation Group S T))
        (k : Linger Group S T)
        → Kept G next p a fun l
        → is_some stack ≡ has_checkpoint l
        → dropped_groups d ++ group_of k ≡ group_of l
        → has_checkpoint k ≡ true
        → (is_first (no_faults a) l || is_some stack) ≡ true
    goes_on fun (continuation c) stack d k h f e x =
        ap (λ b. is_first (no_faults a) (continuation c) || b) f
        ∙ is_first-has_checkpoint G next p a fun c h
    goes_on fun (completion v) stack none (continuation k) h f e x = absurd (cons≢nil e)
    goes_on fun (completion v) stack (some d) (continuation k) h f e x = absurd (cons≢nil e)
    goes_on fun (completion v) stack d (completion k) h f e x = cc
    goes_on fun (completion v) stack d poison h f e x = cc
    goes_on fun poison stack none (continuation k) h f e x = absurd (cons≢nil e)
    goes_on fun poison stack (some d) (continuation k) h f e x = absurd (cons≢nil e)
    goes_on fun poison stack d (completion k) h f e x = cc
    goes_on fun poison stack d poison h f e x = cc

    -- From the return of `resume` on.
    resumed_in :
        (n i : ℕ) (w : World Group S T W) (l : Launched Group S T) (k : Option ℕ × Static ℕ ℕ)
        (r : Resumed Group S T)
        → get_elem? w.live i ≡ some l
        → Mid (suc n) [] [] w
        → Leaves G next p a l.fun (group_of l.linger) r
        → Shelf k.1 (owned k.0 ++ stacks_of (erase_idx w.live i))
        → (has_checkpoint r.linger ≡ true → is_some k.0 ≡ true)
        → Ensures (Mid n [] []) (
            keep_stack (has_checkpoint r.linger) k.0 k.1 >>= λ h.
            settle G next build start renew limit (no_faults a) r.dropped (record w {
              live = record { fun = l.fun; linger = r.linger; stack = h.0 } ∷ erase_idx w.live i;
              stacks = h.1;
              thread = r.thread;
            }))
    resumed_in n i w l k r e o v sh f =
        Ensures->>= ⊥ (Ends (has_checkpoint r.linger) k.0 (stacks_of (erase_idx w.live i)))
          (Mid n [] []) (keep_stack (has_checkpoint r.linger) k.0 k.1) _
          (keep_stack-Ends (has_checkpoint r.linger) k.0 (stacks_of (erase_idx w.live i)) k.1 sh)
          λ h (st, j).
            settle-Owing G next build start built Good supply p a renew works limit n [] []
              r.dropped _ v.intact
              (record {
                books =
                    subst (Books G build start built Good supply n w.groups)
                      (ap (λ gs. gs ++ groups_of (erase_idx w.live i)) (sym v.owed)
                        ∙ regroup (dropped_groups r.dropped) (group_of r.linger) _)
                      (taken_out n i w l e o);
                shelf = st;
                stores = o.stores;
                kept = (v.kept, All-erase_idx _ w.live i o.kept);
                fits = (
                  j ∙ both (has_checkpoint r.linger) (is_some k.0) f,
                  All-erase_idx Fits w.live i o.fits,
                );
                ready = v.ready;
              })

    resumed_at-Owing :
        (n i us : ℕ) (es : List Event) (w : World Group S T W) (o : Option (Launched Group S T))
        → Enough es
        → get_elem? w.live i ≡ o
        → Mid (suc n) [] [] w
        → Meets R
            (Mid n [] [])
            (resumed_at G next build start renew limit (no_faults a) i us es w o)
    unfolding resumed_at
    resumed_at-Owing n i us es w none x e o =
        fewer G next build start built Good supply p a renew works limit n w o
    resumed_at-Owing n i us es w (some l) x e o =
        let kept = All-get_elem? _ w.live i o.kept e in
        let fits = All-get_elem? Fits w.live i o.fits e in
        let rest = stacks_of (erase_idx w.live i) in
        Ensures->>= R (Begins (is_first (no_faults a) l.linger) l.stack rest) (Mid n [] [])
          (setup_stack limit (is_first (no_faults a) l.linger) l.stack w.stacks) _
          (setup_stack-Begins limit (is_first (no_faults a) l.linger) l.stack rest w.stacks
            (stack_out (suc n) i w l e o))
          λ k (sh, j).
            Meets->>= R (Leaves G next p a l.fun (group_of l.linger)) (Mid n [] [])
              (resume G next (no_faults a) l.linger us w.thread es) _
              (resume-Leaves G next p a R bound l.fun l.linger us w.thread es x kept o.ready)
              λ r v. Meets-of_Ensures R (Mid n [] []) _ (
                resumed_in n i w l k r e o v sh
                  (λ c. j ∙ goes_on l.fun l.linger l.stack r.dropped r.linger kept fits v.owed c))

    erased_at-Owing :
        (n i : ℕ) (w : World Group S T W) (o : Option (Launched Group S T))
        → get_elem? w.live i ≡ o
        → Mid (suc n) [] [] w
        → Ensures (Mid n [] []) (erased_at G next build start renew limit (no_faults a) i w o)
    unfolding erased_at
    erased_at-Owing n i w none e o =
        fewer G next build start built Good supply p a renew works limit n w o
    erased_at-Owing n i w (some l) e o = record {
      books =
          subst
            (λ k.
              Books G build start built Good supply n w.groups
                (group_of k ++ groups_of (erase_idx w.live i)))
            (sym (erase_lem l.linger)) (taken_out n i w l e o);
      shelf = stack_out (suc n) i w l e o;
      stores = o.stores;
      kept = (
        subst (Kept G next p a l.fun) (sym (erase_lem l.linger))
            (All-get_elem? _ w.live i o.kept e),
        All-erase_idx _ w.live i o.kept,
      );
      fits = (
        All-get_elem? Fits w.live i o.fits e ∙ ap has_checkpoint (sym (erase_lem l.linger)),
        All-erase_idx Fits w.live i o.fits,
      );
      ready = o.ready;
    }

    dropped_at-Owing :
        (n i : ℕ) (w : World Group S T W) (o : Option (Launched Group S T))
        → get_elem? w.live i ≡ o
        → Mid (suc n) [] [] w
        → Ensures (Mid n [] []) (dropped_at G next build start renew limit (no_faults a) i w o)
    unfolding dropped_at
    dropped_at-Owing n i w none e o =
        fewer G next build start built Good supply p a renew works limit n w o
    dropped_at-Owing n i w (some l) e o =
        discard-Owing G next build start built Good supply p a renew works limit n l.fun l.linger
          l.stack _ (All-get_elem? _ w.live i o.kept e) (All-get_elem? Fits w.live i o.fits e)
          (record {
            books = taken_out n i w l e o;
            shelf = stack_out (suc n) i w l e o;
            stores = o.stores;
            kept = All-erase_idx _ w.live i o.kept;
            fits = All-erase_idx Fits w.live i o.fits;
            ready = o.ready;
          })

    -- The calls that run code have events enough.
    abbrev pub Fed : Order S → Type 0
    Fed (launching fun us es) = Enough es
    Fed (resuming i us es) = Enough es
    Fed (erasing i) = Unit {0}
    Fed (dropping i) = Unit {0}

    step-Owing :
        (n : ℕ) (w : World Group S T W) (o : Order S)
        → Fed o
        → Mid (suc n) [] [] w
        → Meets R (Mid n [] []) (step G next build start renew limit (no_faults a) w o)
    unfolding step
    step-Owing n w (launching fun us es) f o =
        launched_with-Owing G next build start built Good supply p a renew works limit R bound n fun
          us es w (assign_group build start w.groups) f o
          (assign_group-Assigned G build start built Good supply n (groups_of w.live) w.groups
            o.books)
    step-Owing n w (resuming i us es) f o =
        resumed_at-Owing n i us es w (get_elem? w.live i) f refl o
    step-Owing n w (erasing i) f o =
        Meets-of_Ensures R (Mid n [] []) _ (erased_at-Owing n i w (get_elem? w.live i) refl o)
    step-Owing n w (dropping i) f o =
        Meets-of_Ensures R (Mid n [] []) _ (dropped_at-Owing n i w (get_elem? w.live i) refl o)

    pub run-Owing :
        (w : World Group S T W) (os : List (Order S))
        → All Fed os
        → Mid (length os) [] [] w
        → Meets R (Mid 0 [] []) (run G next build start renew limit (no_faults a) w os)
    unfolding run
    run-Owing w [] f o = o
    run-Owing w (x ∷ xs) f o =
        Meets->>= R (Mid (length xs) [] []) (Mid 0 [] [])
          (step G next build start renew limit (no_faults a) w x) _
          (step-Owing (length xs) w x f.0 o) λ y k. run-Owing y xs f.1 k
