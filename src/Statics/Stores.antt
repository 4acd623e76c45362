-- ===== src/Statics/Stores.antt =====
-- src/localstores.rs: the pool of thread-control blocks, where every block that is put back is as
-- good as new.
use libinger.Base.{
  ℕ, zero, suc, false, ◌≡◌, refl, Option, none, some, List, [], ◌∷◌, Ensures, Ensures->>=, ok, All,
  All-reverse, All-replicate, length-replicate, replicate, returns,
}
use libinger.Machine.{Tls, default_tls, default_task}
use libinger.Reusable.{mutex, Pool, Mutex, new, Opens, try_from, pop_or_build, prealloc, drop}
use libinger.Reusable.Prealloc.{Supplies, prealloc_lem}
use libinger.Statics.{
  initialized, release, ready, taken, alloc, new_localstore, Localstores, alloc_localstore,
}

module _ (Group S : Type 0) where
  -- A block that no task is in the middle of.
  pub record Rested (tls : Option (Tls Group S)) : Type 0 where
    pub block : Tls Group S
    pub tls_eq : tls ≡ some block
    pub prompt : block.deferred ≡ false
    pub booted : block.bootstrap ≡ none
    pub idle : block.task ≡ default_task

  pub default-Rested : Rested (some default_tls)
  default-Rested = record {
    block = default_tls;
    tls_eq = refl;
    prompt = refl;
    booted = refl;
    idle = refl;
  }

  -- All the free blocks of the pool are so.
  pub record Stocked (p : Pool (Mutex (Option (Tls Group S))) (Unit {0})) : Type 0 where
    pub free : List (Option (Tls Group S))
    pub opens : Opens mutex new_localstore p free
    pub rested : All Rested free

  abbrev pub Stores : Localstores Group S → Type 0
  Stores s = Stocked (initialized new_localstore tt s)

  abbrev stock : ℕ → List (Option (Tls Group S))
  stock n = replicate n (some default_tls)

  new-Supplies : (n : ℕ) → Supplies new_localstore tt (stock n) tt
  new-Supplies zero = refl
  new-Supplies (suc n) = (tt, refl, new-Supplies n)

  ready-Stocked :
      (limit : ℕ) (s : Localstores Group S)
      → Stores s
      → Ensures Stocked (ready new_localstore tt limit s)
  unfolding ready new
  ready-Stocked limit (some p) h = h
  ready-Stocked limit none h =
      let (q, e, o, b) =
        prealloc_lem mutex new_localstore (stock limit) (new mutex new_localstore tt) tt refl
          (new-Supplies limit) in
      let made : prealloc mutex (new_localstore {Group = Group} {S = S})
            (new mutex new_localstore tt) limit
          ≡ returns (ok tt, q) =
        rw length-replicate at e in
      rw made (record {
        free = _;
        opens = o;
        rested = All-reverse Rested _ (All-replicate Rested limit _ default-Rested);
      })

  -- What a call hands out is as good as new, and so is what it leaves.
  abbrev pub Handed : Option (Tls Group S) × Localstores Group S → Type 0
  Handed (tls, s) = Rested tls × Stores s

  taken-Handed :
      (free : List (Option (Tls Group S))) (p : Pool (Mutex (Option (Tls Group S))) (Unit {0}))
      → Opens mutex new_localstore p free
      → All Rested free
      → Ensures Handed (taken new_localstore tt (pop_or_build mutex new_localstore free p))
  unfolding pop_or_build
  taken-Handed [] p o h = (default-Rested, record { free = []; opens = o; rested = tt })
  taken-Handed (v ∷ vs) p o h =
      (h.0, record { free = vs; opens = mutex.write_opens _ _ _ o; rested = h.1 })

  -- On a pool whose free blocks are as good as new, made or still to be made, a call hands out such a
  -- block and leaves such a pool, where there is memory for the blocks that it makes.
  pub alloc_localstore-Handed :
      (limit : ℕ) (s : Localstores Group S) → Stores s → Ensures Handed (alloc_localstore limit s)
  unfolding alloc_localstore alloc try_from
  alloc_localstore-Handed limit s h =
      Ensures->>= ⊥ Stocked Handed _ _ (ready-Stocked limit s h)
        λ p k. rw (k.opens, try_from) (taken-Handed k.free p k.opens k.rested)

  -- Such a block may be put back.
  pub release-Stores :
      (tls : Option (Tls Group S)) (s : Localstores Group S)
      → Rested tls
      → Stores s
      → Ensures Stores (release new_localstore tt tls s)
  unfolding release drop
  release-Stores tls s r h =
      rw (h.opens, drop)
        (record {
          free = tls ∷ h.free;
          opens = mutex.write_opens _ _ _ h.opens;
          rested = (r, h.rested);
        })
