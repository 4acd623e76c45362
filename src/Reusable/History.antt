-- ===== src/Reusable/History.antt =====
-- src/reusable.rs over time: one client that acquires handles and drops them in any order.
use mathlib.Core.List.{Perm, perm_middle}
use mathlib.Core.List.Perm
use libinger.Base.{
  ℕ, ◌≡◌, refl, Option, none, some, List, [], ◌∷◌, ◌++◌, Result, ok, err, Exec, returns, panics,
  ◌>>=◌, suc, length, arith, get_elem?, erase_idx, perm-erase_idx,
}
use libinger.Reusable.{SharedMut, Pool, pop_or_build, found, try_from, drop, Opens}

pub data Call : Type 0 where
  acquire : Call
  release : ℕ → Call

-- A pool with the handles that are out, the latest first.
pub record Client {ℓ} (A T W : Type ℓ) : Type ℓ where
  pub pool : Pool A W
  pub held : List T

abbrev pub list_of {ℓ} : {T : Type ℓ} → Option T → List T
list_of none = []
list_of (some v) = v ∷ []

module _ {ℓ} {A T W : Type ℓ} {E : Type 0} (m : SharedMut A T E) (build : W → Option T × W) where
  abbrev pub keep : Client A T W → Result T (Option E) × Pool A W → Client A T W
  keep c (ok v, p) = record { pool = p; held = v ∷ c.held }
  keep c (err e, p) = record c { pool = p }

  abbrev pub give : Client A T W → ℕ → Option T → Exec (Client A T W)
  give c i none = returns c
  give c i (some v) =
      drop m build v c.pool >>= λ p. returns (record { pool = p; held = erase_idx c.held i })

  unfoldable pub step : Client A T W → Call → Exec (Client A T W)
  step c acquire = returns (keep c (try_from m build c.pool))
  step c (release i) = give c i (get_elem? c.held i)

  unfoldable pub run : Client A T W → List Call → Exec (Client A T W)
  run c [] = returns c
  run c (x ∷ xs) = step c x >>= λ d. run d xs

  -- Every value that was built is free or held, once; `built w` is what the builder has made by the
  -- time that it is in state `w`.
  pub record Accounts (built : W → List T) (c : Client A T W) : Type ℓ where
    pub free : List T
    pub opens : Opens m build c.pool free
    pub owned : Perm (c.held ++ free) (built c.pool.builder)

-- A builder that is good for `n` calls more: each adds what it makes to what was built.
pub record Lasts {ℓ} {T W : Type ℓ} (build : W → Option T × W) (built : W → List T)
    (Good : ℕ → W → Type ℓ) : Type ℓ where
  pub grows :
      (n : ℕ) (w : W) → Good (suc n) w → Perm (built (build w).1) (list_of (build w).0 ++ built w)
  pub spends : (n : ℕ) (w : W) → Good (suc n) w → Good n (build w).1
  pub waits : (n : ℕ) (w : W) → Good (suc n) w → Good n w

module _ {ℓ} {A T W : Type ℓ} {E : Type 0} (m : SharedMut A T E) (build : W → Option T × W)
    (built : W → List T) (Good : ℕ → W → Type ℓ) (lasts : Lasts build built Good) where
  -- The accounts of a client whose builder is good for `n` calls more.
  abbrev pub Solvent : ℕ → Client A T W → Type ℓ
  Solvent n c = Accounts m build built c × Good n c.pool.builder

  found-Accounts :
      (c : Client A T W) (made : Option T) (w : W)
      → Opens m build c.pool []
      → Perm (built w) (list_of made ++ built c.pool.builder)
      → Perm (c.held ++ []) (built c.pool.builder)
      → Accounts m build built (keep m build c (found m build made, record c.pool { builder = w }))
  found-Accounts c none w o g e = record {
    free = [];
    opens = o;
    owned = Perm.trans e (Perm.symm g);
  }
  found-Accounts c (some v) w o g e = record {
    free = [];
    opens = o;
    owned = Perm.trans (Perm.cons v e) (Perm.symm g);
  }

  found-builder :
      (c : Client A T W) (made : Option T) (w : W)
      → (keep m build c (found m build made, record c.pool { builder = w })).pool.builder ≡ w
  found-builder c none w = refl
  found-builder c (some v) w = refl

  pop_or_build-Solvent :
      (n : ℕ) (c : Client A T W) (free : List T)
      → Opens m build c.pool free
      → Perm (c.held ++ free) (built c.pool.builder)
      → Good (suc n) c.pool.builder
      → Solvent n (keep m build c (pop_or_build m build free c.pool))
  unfolding pop_or_build
  pop_or_build-Solvent n c (v ∷ vs) o e g = (
    record {
      free = vs;
      opens = m.write_opens _ _ _ o;
      owned = Perm.trans (Perm.symm (perm_middle c.held vs)) e;
    },
    lasts.waits n c.pool.builder g,
  )
  pop_or_build-Solvent n c [] o e g =
      let w = c.pool.builder in
      (
        found-Accounts c (build w).0 (build w).1 o (lasts.grows n w g) e,
        rw (found-builder c (build w).0 (build w).1) (lasts.spends n w g),
      )

  pub acquire-Solvent :
      (n : ℕ) (c : Client A T W)
      → Solvent (suc n) c
      → Solvent n (keep m build c (try_from m build c.pool))
  unfolding try_from
  acquire-Solvent n c (a, g) =
      rw (a.opens, try_from) (pop_or_build-Solvent n c a.free a.opens a.owned g)

  drop-Opens :
      (v : T) (p : Pool A W) (free : List T)
      → Opens m build p free
      → drop m build v p ≡ returns (record p { allocated = m.write (v ∷ free) p.allocated })
  unfolding drop
  drop-Opens v p free o = rw (o, drop)

  -- The first of the values held is put back.
  pub drop-Accounts :
      (v : T) (vs : List T) (p : Pool A W)
      → Accounts m build built (record { pool = p; held = v ∷ vs })
      → (q : Pool A W) × (drop m build v p ≡ returns q)
        × Accounts m build built (record { pool = q; held = vs })
        × (q.builder ≡ p.builder)
  drop-Accounts v vs p a = (
    record p { allocated = m.write (v ∷ a.free) p.allocated },
    drop-Opens v p a.free a.opens,
    record {
      free = v ∷ a.free;
      opens = m.write_opens _ _ _ a.opens;
      owned = Perm.trans (perm_middle vs a.free) a.owned;
    },
    refl,
  )

  give-Solvent :
      (n : ℕ) (c : Client A T W) (i : ℕ) (o : Option T)
      → get_elem? c.held i ≡ o
      → Solvent (suc n) c
      → (d : Client A T W) × (give m build c i o ≡ returns d) × Solvent n d
  give-Solvent n c i none e (a, g) = (c, refl, (a, lasts.waits n c.pool.builder g))
  give-Solvent n c i (some v) e (a, g) = (
    record {
      pool = record c.pool { allocated = m.write (v ∷ a.free) c.pool.allocated };
      held = erase_idx c.held i;
    },
    rw (drop-Opens v c.pool a.free a.opens),
    (
      record {
        free = v ∷ a.free;
        opens = m.write_opens _ _ _ a.opens;
        owned =
            Perm.trans (perm_middle (erase_idx c.held i) a.free) (
              Perm.trans (Perm.append_right a.free (Perm.symm (perm-erase_idx c.held i e)))
                a.owned);
      },
      lasts.waits n c.pool.builder g,
    ),
  )

  step-Solvent :
      (n : ℕ) (c : Client A T W) (x : Call)
      → Solvent (suc n) c
      → (d : Client A T W) × (step m build c x ≡ returns d) × Solvent n d
  unfolding step
  step-Solvent n c acquire a =
      (keep m build c (try_from m build c.pool), refl, acquire-Solvent n c a)
  step-Solvent n c (release i) a = give-Solvent n c i (get_elem? c.held i) refl a

  -- Whatever handles one client acquires and drops, in whatever order, on a pool that its lock
  -- opens and with a builder that is good for as many calls: no call panics, and at the end the
  -- values that are held and those that are free are, up to order, exactly the values that the
  -- builder has made.
  pub run-Accounts :
      (xs : List Call) (c : Client A T W)
      → Accounts m build built c
      → Good (length xs) c.pool.builder
      → (d : Client A T W) × (run m build c xs ≡ returns d) × Accounts m build built d
  unfolding run
  run-Accounts [] c a g = (c, refl, a)
  run-Accounts (x ∷ xs) c a g =
      let (d, e, b) = step-Solvent (length xs) c x (a, g) in
      let (f, r, k) = run-Accounts xs d b.0 b.1 in (f, rw e r, k)

module _ {ℓ} {A T W : Type ℓ} {E : Type 0} (m : SharedMut A T E) (build : W → Option T × W) where
  -- On a pool that its lock opens, a value that is put back is the next one to be handed out, and
  -- this pair of calls leaves the builder alone and the free values as they were.
  pub try_from-drop :
      (v : T) (p : Pool A W) (free : List T)
      → Opens m build p free
      → (q s : Pool A W) × (drop m build v p ≡ returns q)
        × (try_from m build q ≡ (ok v, s))
        × Opens m build s free
        × (s.builder ≡ p.builder)
  unfolding drop try_from pop_or_build
  try_from-drop v p free o =
      let a = m.write (v ∷ free) p.allocated in
      let opened : m.try_into_inner a ≡ ok (v ∷ free) = m.write_opens _ _ _ o in
      (
        record p { allocated = a },
        record p { allocated = m.write free a },
        rw (o, drop),
        rw (opened, try_from),
        m.write_opens _ _ _ opened,
        refl,
      )

  -- On a pool that its lock does not open, a drop panics, and an acquisition reports the lock's
  -- error and changes nothing.
  pub try_from-drop_locked :
      (v : T) (p : Pool A W) (e : E)
      → m.try_into_inner p.allocated ≡ err e
      → (drop m build v p ≡ panics) × (try_from m build p ≡ (err (some e), p))
  unfolding drop try_from
  try_from-drop_locked v p e l = (rw (l, drop), rw (l, try_from))

  -- A pool that its lock opens refuses an acquisition only when nothing is free and the builder
  -- has nothing to give, and then its error names no lock.
  pub try_from-err :
      (p : Pool A W) (free : List T) (e : Option E) (q : Pool A W)
      → Opens m build p free
      → try_from m build p ≡ (err e, q)
      → (e ≡ none) × (free ≡ []) × ((build p.builder).0 ≡ none)
  unfolding try_from pop_or_build
  try_from-err p free e q o h = ground arith
