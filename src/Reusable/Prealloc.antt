-- ===== src/Reusable/Prealloc.antt =====
-- src/reusable.rs: what `prealloc` leaves in a pool.
use mathlib.Core.List.{reverse, reverse-cons, append_assoc, append-nil}
use native.Mathlib.Nat.{add-zero}
use libinger.Base.{
  ℕ, zero, suc, ◌≡◌, refl, ◌∙◌, Option, none, some, List, [], ◌∷◌, ◌++◌, Result, ok, err, returns,
  arith, length, ◌+◌,
}
use libinger.Reusable.{
  SharedMut, Pool, found, try_from, drop, collect, drop_rest, give_back, prealloc, Opens,
}

module _ {ℓ} {T W : Type ℓ} (build : W → Option T × W) where
  -- From state `w` the builder makes the values `vs`, one a call, and is then in state `y`.
  abbrev pub Supplies : W → List T → W → Type ℓ
  Supplies w [] y = w ≡ y
  Supplies w (v ∷ vs) y = (x : W) × (build w ≡ (some v, x)) × Supplies x vs y

  -- From state `w` the next `k` calls of the builder make nothing, and leave it in state `y`.
  abbrev pub Refuses : W → ℕ → W → Type ℓ
  Refuses w zero y = w ≡ y
  Refuses w (suc k) y = (x : W) × (build w ≡ (none, x)) × Refuses x k y

-- `k` calls more than there are values.
abbrev count_past {ℓ} : {T : Type ℓ} → List T → ℕ → ℕ
count_past [] k = k
count_past (v ∷ vs) k = suc (count_past vs k)

count_past-eq-add {ℓ} : {T : Type ℓ} (vs : List T) (k : ℕ) → count_past vs k ≡ length vs + k
count_past-eq-add [] k = omega arith
count_past-eq-add (v ∷ vs) k = omega (arith, count_past-eq-add vs k)

module _ {ℓ} {A T W : Type ℓ} {E : Type 0} (m : SharedMut A T E) (build : W → Option T × W) where
  -- What `prealloc` collects when all goes well, and when the builder gives out with `k` calls left.
  abbrev oks : List T → List (Result T (Option E)) → List (Result T (Option E))
  oks [] rs = rs
  oks (v ∷ vs) rs = ok v ∷ oks vs rs

  abbrev failures : ℕ → List (Result T (Option E))
  failures zero = []
  failures (suc k) = err none ∷ failures k

  try_from-build :
      (p : Pool A W) (o : Option T) (w : W)
      → Opens m build p []
      → build p.builder ≡ (o, w)
      → try_from m build p ≡ (found m build o, record p { builder = w })
  unfolding try_from
  try_from-build p o w e b = rw (e, try_from) (rw b)

  give_back-oks :
      (vs free : List T) (rs : List (Result T (Option E))) (p : Pool A W)
      → Opens m build p free
      → (q : Pool A W) × (give_back m build (oks vs rs) p ≡ give_back m build rs q)
        × Opens m build q (reverse vs ++ free)
        × (q.builder ≡ p.builder)
  unfolding give_back drop
  give_back-oks [] free rs p o = (p, refl, o, refl)
  give_back-oks (v ∷ vs) free rs p o =
      let q : Pool A W = record p { allocated = m.write (v ∷ free) p.allocated } in
      let (s, e, t, b) = give_back-oks vs (v ∷ free) rs q (m.write_opens _ _ _ o) in
      (s, rw (o, drop) e, rw (reverse-cons v vs, append_assoc) t, b)

  drop_rest-failures : (k : ℕ) (p : Pool A W) → drop_rest m build (failures k) p ≡ returns p
  unfolding drop_rest
  drop_rest-failures zero p = refl
  drop_rest-failures (suc k) p = drop_rest-failures k p

  collect-failures :
      (k : ℕ) (p : Pool A W) (z : W)
      → Opens m build p []
      → Refuses build p.builder k z
      → collect m build k p ≡ (failures k, record p { builder = z })
  unfolding collect
  collect-failures zero p z o b = rw b refl
  collect-failures (suc k) p z o (x, b, r) =
      rw (try_from-build p none x o b)
        (rw (collect-failures k (record p { builder = x }) z o r) refl)

  collect-oks :
      (vs : List T) (k : ℕ) (p : Pool A W) (y z : W)
      → Opens m build p []
      → Supplies build p.builder vs y
      → collect m build k (record p { builder = y }) ≡ (failures k, record p { builder = z })
      → collect m build (count_past vs k) p ≡ (oks vs (failures k), record p { builder = z })
  unfolding collect
  collect-oks [] k p y z o s f = rw s f
  collect-oks (v ∷ vs) k p y z o (x, b, s) f =
      rw (try_from-build p (some v) x o b)
        (rw (collect-oks vs k (record p { builder = x }) y z o s f))

  preallocated :
      (vs : List T) (k : ℕ) (p : Pool A W) (y z : W)
      → Opens m build p []
      → Supplies build p.builder vs y
      → collect m build k (record p { builder = y }) ≡ (failures k, record p { builder = z })
      → (q : Pool A W) × (prealloc m build p (length vs + k) ≡ give_back m build (failures k) q)
        × Opens m build q (reverse vs)
        × (q.builder ≡ z)
  unfolding prealloc
  preallocated vs k p y z o s f =
      let (q, e, r, b) = give_back-oks vs [] (failures k) (record p { builder = z }) o in
      (
        q,
        rw (← count_past-eq-add vs k) (rw (collect-oks vs k p y z o s f) e),
        rw append-nil at r,
        b,
      )

  -- On a pool that its lock opens and that has nothing free, `prealloc` with a count for which the
  -- builder has values succeeds and leaves exactly those values free, the last made on top.
  pub prealloc_lem :
      (vs : List T) (p : Pool A W) (y : W)
      → Opens m build p []
      → Supplies build p.builder vs y
      → (q : Pool A W) × (prealloc m build p (length vs) ≡ returns (ok tt, q))
        × Opens m build q (reverse vs)
        × (q.builder ≡ y)
  unfolding collect give_back
  prealloc_lem vs p y o s =
      let (q, e, r, b) = preallocated vs 0 p y y o s refl in (q, rw add-zero at e, r, b)

  -- On a pool that its lock opens and that has nothing free, with a builder that makes the values `vs`
  -- and then nothing at each call that is left of the count, whatever state these calls take it
  -- through, `prealloc` reports an error that names no lock, and exactly the values `vs` are left
  -- free, the last made on top: the early return loses none.
  pub prealloc_short :
      (vs : List T) (p : Pool A W) (y z : W) (k : ℕ)
      → Opens m build p []
      → Supplies build p.builder vs y
      → Refuses build y (suc k) z
      → (q : Pool A W) × (prealloc m build p (length vs + suc k) ≡ returns (err none, q))
        × Opens m build q (reverse vs)
        × (q.builder ≡ z)
  unfolding collect give_back
  prealloc_short vs p y z k o s refuses =
      let (q, e, r, b) =
        preallocated vs (suc k) p y z o s
          (collect-failures (suc k) (record p { builder = y }) z o refuses) in
      (q, e ∙ rw (drop_rest-failures k q), r, b)
