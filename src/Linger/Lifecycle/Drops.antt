-- ===== src/Linger/Lifecycle/Drops.antt =====
-- src/linger.rs with src/groups.rs and src/localstores.rs: what is right of a client's world, and
-- the drop of a function in it.
use libinger.Base.{
  Bool, ℕ, suc, true, ◌≡◌, Option, none, some, List, [], ◌∷◌, ◌++◌, Exec, Ensures, Ensures->>=, All,
  is_some, returns, ◌>>=◌,
}
use libinger.Gotcha.{Gotcha}
use libinger.Machine.{Action, PreemptionSignal}
use libinger.Preemption.Setup.{Answers}
use libinger.Statics.{Static, release, new_localstore}
use libinger.Statics.Stores.{Rested, Stores, release-Stores}
use libinger.Linger.Resume.{
  Continuation, Linger, completion, continuation, poison, drop_continuation,
}
use libinger.Linger.Resume.Valid.{no_faults, drop-renews}
use libinger.Linger.Lifecycle.{
  Launched, World, discard_continuation, discard, settle, put_back, has_checkpoint,
}
use libinger.Linger.Lifecycle.Owned.{Shelf, owned, stacks_of, put_back-Shelf}
use libinger.Linger.Lifecycle.Sound.{group_of, groups_of, dropped_groups, Intact, Kept, Ready, Fits}
use libinger.Linger.Lifecycle.Books.{Supply, Books, release-Books, waits-Books}

module _ {Group W : Type 0} (G : Gotcha Group) {S T : Type 0} (next : S → Action S T)
    (build : W → Option Group × W) (start : W) (built : W → List Group) (Good : ℕ → W → Type 0)
    (supply : Supply G build built Good) (p : PreemptionSignal) (a : Answers) (renew : Group → Bool)
    (works : (h : Group) → renew h ≡ true) (limit : ℕ) where
  -- What is right of a world, while the groups `out` and the stacks `off` are no function's any more, but
  -- not yet put back.
  pub record Owing (n : ℕ) (out : List Group) (off : List ℕ) (w : World Group S T W) : Type 0 where
    pub books : Books G build start built Good supply n w.groups (out ++ groups_of w.live)
    pub shelf : Shelf w.stacks (off ++ stacks_of w.live)
    pub stores : Stores Group S w.localstores
    pub kept : All (λ (l : Launched Group S T). Kept G next p a l.fun l.linger) w.live
    pub fits : All Fits w.live
    pub ready : Ready G next p a w.thread

  pub fewer : (n : ℕ) (w : World Group S T W) → Owing (suc n) [] [] w → Owing n [] [] w
  fewer n w o = record {
    books = waits-Books G build start built Good supply n (groups_of w.live) w.groups o.books;
    shelf = o.shelf;
    stores = o.stores;
    kept = o.kept;
    fits = o.fits;
    ready = o.ready;
  }

  abbrev drop_all : Continuation Group S T → Option ℕ → World Group S T W → Exec (World Group S T W)
  drop_all = discard_continuation G next build start renew limit (no_faults a)

  discard_continuation-Owing :
      (n : ℕ) (out : List Group) (off left : List ℕ) (c : Continuation Group S T) (stack : Option ℕ)
      (w : World Group S T W)
      → Rested Group S c.tls
      → Owing n (c.group ∷ out) off w
      → Shelf w.stacks (owned stack ++ (left ++ stacks_of w.live))
      → Ensures (Owing n out left) (drop_all c stack w)
  unfolding discard_continuation
  discard_continuation-Owing n out off left c stack w r o h =
      Ensures->>= ⊥ (λ b. Unit {0}) (Owing n out left) (drop_continuation renew c) _
        (drop-renews renew c works)
        λ b u.
          Ensures->>= ⊥ (λ s. Shelf s (left ++ stacks_of w.live)) (Owing n out left)
            (put_back stack w.stacks) _ (put_back-Shelf stack (left ++ stacks_of w.live) w.stacks h)
            rest_dropped
    where
      rest_dropped :
          (ss : Static ℕ ℕ)
          → Shelf ss (left ++ stacks_of w.live)
          → Ensures (Owing n out left) (
              release build start c.group w.groups >>= λ gs.
              release new_localstore tt c.tls w.localstores >>= λ ls.
              returns (record w { groups = gs; stacks = ss; localstores = ls }))
      rest_dropped ss sh =
          Ensures->>= ⊥ (λ s. Books G build start built Good supply n s (out ++ groups_of w.live))
            (Owing n out left) (release build start c.group w.groups) _
            (release-Books G build start built Good supply n c.group (out ++ groups_of w.live)
              w.groups o.books)
            λ gs k.
              Ensures->>= ⊥ (Stores Group S) (Owing n out left)
                (release new_localstore tt c.tls w.localstores) _
                (release-Stores Group S c.tls w.localstores r o.stores)
                λ ls m. record {
                  books = k;
                  shelf = sh;
                  stores = m;
                  kept = o.kept;
                  fits = o.fits;
                  ready = o.ready;
                }

  pub settle-Owing :
      (n : ℕ) (out : List Group) (off : List ℕ) (d : Option (Continuation Group S T))
      (w : World Group S T W)
      → Intact d
      → Owing n (dropped_groups d ++ out) off w
      → Ensures (Owing n out off) (settle G next build start renew limit (no_faults a) d w)
  unfolding settle
  settle-Owing n out off none w i o = o
  settle-Owing n out off (some c) w i o =
      discard_continuation-Owing n out off off c none w i o o.shelf

  Kept-Rested :
      (fun : S) (c : Continuation Group S T)
      → Kept G next p a fun (continuation c)
      → Rested Group S c.tls
  Kept-Rested fun c (private, v) = record {
    block = v.block;
    tls_eq = v.tls;
    prompt = v.prompt;
    booted = v.booted;
    idle = v.idle;
  }

  pub discard-Owing :
      (n : ℕ) (fun : S) (l : Linger Group S T) (stack : Option ℕ) (w : World Group S T W)
      → Kept G next p a fun l
      → is_some stack ≡ has_checkpoint l
      → Owing n (group_of l) (owned stack) w
      → Ensures (Owing n [] []) (discard G next build start renew limit (no_faults a) l stack w)
  unfolding discard
  discard-Owing n fun (completion v) none w k f o = o
  discard-Owing n fun (completion v) (some s) w k f o = cc
  discard-Owing n fun (continuation c) stack w k f o =
      discard_continuation-Owing n [] (owned stack) [] c stack w (Kept-Rested fun c k) o o.shelf
  discard-Owing n fun poison none w k f o = o
  discard-Owing n fun poison (some s) w k f o = cc
