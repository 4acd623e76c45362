-- ===== src/Reusable/Handle.antt =====
-- src/reusable.rs, a handle on a value of a pool: `Deref`, `DerefMut` and `Drop`. A handle owns its
-- value until it is dropped; a change made through it is a function on the value.
use libinger.Base.{
  ◌≡◌, refl, Option, none, some, List, Result, ok, err, Exec, returns, panics, ◌>>=◌,
}
use libinger.Reusable.{SharedMut, Pool, try_from, drop, Opens}
use libinger.Reusable.History.{try_from-drop}

pub record Handle {ℓ} (T : Type ℓ) : Type ℓ where
  pub value : Option T

module _ {ℓ} {T : Type ℓ} where
  abbrev pub unwrap : Option T → Exec T
  unwrap none = panics
  unwrap (some v) = returns v

  unfoldable pub deref : Handle T → Exec T
  deref h = unwrap h.value

  unfoldable pub deref_mut : (T → T) → Handle T → Exec (Handle T)
  deref_mut f h = unwrap h.value >>= λ v. returns (record { value = some (f v) })

  -- The handle over a value that `try_from` found.
  abbrev pub handle : {E : Type 0} → Result T E → Result (Handle T) E
  handle (ok v) = ok (record { value = some v })
  handle (err e) = err e

module _ {ℓ} {A T W : Type ℓ} {E : Type 0} (m : SharedMut A T E) (build : W → Option T × W) where
  abbrev pub acquire_handle : Pool A W → Result (Handle T) (Option E) × Pool A W
  acquire_handle p = let (found, q) = try_from m build p in (handle found, q)

  -- The value is taken before the lock is tried, so the handle is left without one.
  unfoldable pub drop_handle : Handle T → Pool A W → Exec (Handle T × Pool A W)
  drop_handle h p =
      unwrap h.value >>= λ v. drop m build v p >>= λ q. returns (record { value = none }, q)

  -- A handle that has its value, on a pool that its lock opens: a change made through it and its
  -- drop return; the next handle that the pool gives out reads the changed value, and the pool then
  -- has the builder and the free values that it had; the dropped handle panics when it is read,
  -- changed or dropped again.
  pub deref-drop :
      (h : Handle T) (v : T) (f : T → T) (p : Pool A W) (free : List T)
      → h.value ≡ some v
      → Opens m build p free
      → (g gone next : Handle T) × (q s : Pool A W) × (deref_mut f h ≡ returns g)
        × (drop_handle g p ≡ returns (gone, q))
        × (acquire_handle q ≡ (ok next, s))
        × (deref next ≡ returns (f v))
        × Opens m build s free
        × (s.builder ≡ p.builder)
        × (deref gone ≡ panics)
        × (deref_mut f gone ≡ panics)
        × (drop_handle gone s ≡ panics)
  unfolding deref deref_mut drop_handle
  deref-drop h v f p free e o =
      let (q, s, d, t, opens, b) = try_from-drop m build (f v) p free o in
      (
        record { value = some (f v) },
        record { value = none },
        record { value = some (f v) },
        q,
        s,
        rw e refl,
        rw d refl,
        rw t refl,
        refl,
        opens,
        b,
        refl,
        refl,
        refl,
      )
