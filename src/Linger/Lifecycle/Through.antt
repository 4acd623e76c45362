-- ===== src/Linger/Lifecycle/Through.antt =====
-- src/linger.rs with src/groups.rs and src/localstores.rs: what holds through any calls of a client.
use mathlib.Core.List.{Nodup, Nodup-append}
use mathlib.Core.List.Perm
use libinger.Base.{
  Bool, ℕ, ◌+◌, ◌*◌, ◌≤◌, true, ◌≡◌, refl, Option, none, List, [], ◌∷◌, inl, inr, Safe, Ensures,
  Meets-imp, length, All,
}
use libinger.Gotcha.{Gotcha}
use libinger.Machine.{Action, PreemptionSignal, Thread}
use libinger.Preemption.Setup.{Answers}
use libinger.Reusable.{new}
use libinger.Linger.Invariant.Due.{instructions, ends_within}
use libinger.Linger.Resume.Valid.{no_faults}
use libinger.Linger.Lifecycle.{World, Order, launching, resuming, erasing, dropping, run}
use libinger.Linger.Lifecycle.Sound.{groups_of, Ready, Fits}
use libinger.Linger.Lifecycle.Owned.{stacks_of}
use libinger.Statics.Stacks.{held-Nodup}
use libinger.Linger.Lifecycle.Books.{Supply}
use libinger.Linger.Lifecycle.Drops.{Owing}
use libinger.Linger.Lifecycle.Orders.{Fed, run-Owing}

module _ {Group W : Type 0} (G : Gotcha Group) {S T : Type 0} (next : S → Action S T)
    (build : W → Option Group × W) (start : W) (built : W → List Group) (Good : ℕ → W → Type 0)
    (supply : Supply G build built Good) (p : PreemptionSignal) (a : Answers) (renew : Group → Bool)
    (works : (h : Group) → renew h ≡ true) (limit : ℕ) where
  -- What is right of a world between two calls, while the builder of groups has `n` more in it.
  abbrev pub Sound : ℕ → World Group S T W → Type 0
  Sound n w = Owing G next build start built Good supply p a renew works limit n [] [] w

  -- Any calls of a client on a sound world, with any budgets and through any events, where no call of
  -- the operating system and no renewal of a group fails, and for each of which the builder of
  -- groups has a group or a refusal: none panics, aborts or is undefined, but for a launch that
  -- is refused a group and a call that raises the panic of its function again, both of which the
  -- client catches, and what they leave is a sound world. Every function that is
  -- still to go on is in a group that is its own, and has a stack that is its own just if it has a
  -- checkpoint; the groups and the stacks that are free are the rest of those made. Every function can be
  -- resumed, or is over with the result that it has when it is called and left alone; every block that is
  -- free is as good as new, and the thread is outside every timed function.
  pub run-Sound :
      (w : World Group S T W) (os : List (Order S))
      → Sound (length os) w
      → Safe (Sound 0) (run G next build start renew limit (no_faults a) w os)
  run-Sound w os o =
      run-Owing G next build start built Good supply p a renew works limit (Unit {0}) 0 w os
        (any os) o
    where
      any :
          (xs : List (Order S))
          → All (Fed G next build start built Good supply p a renew works limit (Unit {0}) 0) xs
      any [] = tt
      any (launching fun us es ∷ xs) = (inl tt, any xs)
      any (resuming i us es ∷ xs) = (inl tt, any xs)
      any (erasing i ∷ xs) = (tt, any xs)
      any (dropping i ∷ xs) = (tt, any xs)

  -- A call that runs a function has `3 * bound + 2` instructions of the processor among its events.
  abbrev pub Lasting : ℕ → Order S → Type 0
  Lasting bound (launching fun us es) = bound * 3 + 2 ≤ instructions es
  Lasting bound (resuming i us es) = bound * 3 + 2 ≤ instructions es
  Lasting bound (erasing i) = Unit {0}
  Lasting bound (dropping i) = Unit {0}

  -- Any calls of a client on a sound world, where no call of the operating system and no renewal of a
  -- group fails, and the builder of groups is good for as many calls; if every function finishes
  -- within `bound` steps when it is left alone, and each call that runs one has at least
  -- `3 * bound + 2` instructions of the processor among its events, then every call ends: it
  -- returns, but for a launch that is refused a group and a call that raises the panic of its function
  -- again, which panic and are caught by the client; and what they leave is a sound world.
  pub run_returns :
      (bound : ℕ) (w : World Group S T W) (os : List (Order S))
      → ((s : S) → ends_within next bound s ≡ true)
      → All (Lasting bound) os
      → Sound (length os) w
      → Ensures (Sound 0) (run G next build start renew limit (no_faults a) w os)
  run_returns bound w os e f o =
      run-Owing G next build start built Good supply p a renew works limit ⊥ bound w os (fed os f) o
    where
      fed :
          (xs : List (Order S))
          → All (Lasting bound) xs
          → All (Fed G next build start built Good supply p a renew works limit ⊥ bound) xs
      fed [] h = tt
      fed (launching fun us es ∷ xs) h = (inr (e, h.0), fed xs h.1)
      fed (resuming i us es ∷ xs) h = (inr (e, h.0), fed xs h.1)
      fed (erasing i ∷ xs) h = (tt, fed xs h.1)
      fed (dropping i ∷ xs) h = (tt, fed xs h.1)

  -- Before the first call of a process.
  abbrev pub beginning : Thread Group S → World Group S T W
  beginning t = record { groups = none; stacks = none; localstores = none; live = []; thread = t }

  pub beginning-Sound :
      (n : ℕ) (t : Thread Group S)
      → built start ≡ []
      → Good n start
      → Ready G next p a t
      → Sound n (beginning t)
  unfolding new
  beginning-Sound n t e good r = record {
    books = (record { free = []; opens = refl; owned = rw e Perm.rfl }, good);
    shelf = record { free = []; opens = refl; owned = Perm.rfl };
    stores = record { free = []; opens = refl; rested = tt };
    kept = tt;
    fits = tt;
    ready = r;
  }

  -- From the beginning of a process on, where no call of the operating system and no renewal of a
  -- group fails, and with a builder of groups that is good for as many calls: whatever calls a
  -- client makes, none panics, aborts or is undefined, but for a launch that is refused a group and
  -- a call that raises the panic of its function again, both of which the client catches, and once
  -- they are through, no two functions that are still to go on share a group, no two paused ones
  -- share a stack, and every function that has a checkpoint, and no other, owns a stack.
  pub run-distinct :
      (t : Thread Group S) (os : List (Order S))
      → built start ≡ []
      → Good (length os) start
      → Ready G next p a t
      → Safe
          (λ w. Nodup (groups_of w.live) × Nodup (stacks_of w.live) × All Fits w.live)
          (run G next build start renew limit (no_faults a) (beginning t) os)
  run-distinct t os e good r =
      let x = run G next build start renew limit (no_faults a) (beginning t) os in
      Meets-imp (Unit {0}) (Sound 0)
        (λ w. Nodup (groups_of w.live) × Nodup (stacks_of w.live) × All Fits w.live) x
        (run-Sound (beginning t) os (beginning-Sound (length os) t e good r))
        λ w o. (
          (Nodup-append.0
              (Perm.nodup (Perm.symm o.books.0.owned) (supply.distinct 0 _ o.books.1))).0,
          held-Nodup _ o.shelf,
          o.fits,
        )
