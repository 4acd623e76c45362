-- ===== src/Reusable.antt =====
-- src/reusable.rs: pools of reusable values behind a lock. A pool hands out a value that came back
-- earlier, the latest first, or has its builder make one; a dropped handle puts its value back. The
-- top of the vector is the head of the list, and what the builder's closure captures is threaded
-- through the calls as a state of its own.
pub mod Handle
pub mod History
pub mod Prealloc
use libinger.Base.{
  ℕ, zero, suc, ◌≡◌, refl, Bool, true, false, Option, none, some, List, [], ◌∷◌, Result, ok, err,
  Exec, returns, panics, aborts, ◌>>=◌, if◌then◌else◌, arith,
}

-- What a pool asks of its lock: `try_into_inner` gives access to the vector or says why not, and
-- `write` is a change made through that access, which is then given up.
pub record SharedMut {ℓ} (A T : Type ℓ) (E : Type 0) : Type ℓ where
  pub default : A
  pub try_into_inner : A → Result (List T) E
  pub write : List T → A → A
  pub default_opens : try_into_inner default ≡ ok []
  pub write_opens :
      (a : A) (v w : List T) → try_into_inner a ≡ ok v → try_into_inner (write w a) ≡ ok w

pub data BorrowMutError : Type 0 where
  already_borrowed : BorrowMutError

pub data PoisonError : Type 0 where
  poisoned : PoisonError

pub record RefCell {ℓ} (T : Type ℓ) : Type ℓ where
  pub borrowed : Bool
  pub value : List T

pub record Mutex {ℓ} (T : Type ℓ) : Type ℓ where
  pub poison : Bool
  pub inner : List T

module _ {ℓ} {T : Type ℓ} where
  abbrev pub try_borrow_mut : RefCell T → Result (List T) BorrowMutError
  try_borrow_mut c = if c.borrowed then err already_borrowed else ok c.value

  abbrev pub lock : Mutex T → Result (List T) PoisonError
  lock m = if m.poison then err poisoned else ok m.inner

  pub write-try_borrow_mut :
      (a : RefCell T) (v w : List T)
      → try_borrow_mut a ≡ ok v
      → try_borrow_mut (record a { value = w }) ≡ ok w
  write-try_borrow_mut a v w e = ground arith

  pub write-lock :
      (a : Mutex T) (v w : List T) → lock a ≡ ok v → lock (record a { inner = w }) ≡ ok w
  write-lock a v w e = ground arith

  abbrev pub ref_cell : SharedMut (RefCell T) T BorrowMutError
  ref_cell = record {
    default = record { borrowed = false; value = [] };
    try_into_inner = try_borrow_mut;
    write = λ v a. record a { value = v };
    default_opens = refl;
    write_opens = write-try_borrow_mut;
  }

  abbrev pub mutex : SharedMut (Mutex T) T PoisonError
  mutex = record {
    default = record { poison = false; inner = [] };
    try_into_inner = lock;
    write = λ v a. record a { inner = v };
    default_opens = refl;
    write_opens = write-lock;
  }

-- `builder` is what the builder's closure has captured.
pub record Pool {ℓ} (A W : Type ℓ) : Type ℓ where
  pub allocated : A
  pub builder : W

module _ {ℓ} {A T W : Type ℓ} {E : Type 0} (m : SharedMut A T E) (build : W → Option T × W) where
  unfoldable pub new : W → Pool A W
  new w = record { allocated = m.default; builder = w }

  -- The end of `try_from`: a value, or the error that says there is none.
  abbrev pub found : Option T → Result T (Option E)
  found none = err none
  found (some v) = ok v

  -- `guard.pop().or_else(builder)`
  unfoldable pub pop_or_build : List T → Pool A W → Result T (Option E) × Pool A W
  pop_or_build (v ∷ vs) p = (ok v, record p { allocated = m.write vs p.allocated })
  pop_or_build [] p = let (made, w) = build p.builder in (found made, record p { builder = w })

  unfoldable pub try_from : Pool A W → Result T (Option E) × Pool A W
  unfolding pop_or_build
  try_from p = elim (m.try_into_inner p.allocated) [
    | ok v ↦ pop_or_build v p
    | err e ↦ (err (some e), p)
  ]

  -- The drop of a handle: it panics rather than lose the value.
  unfoldable pub drop : T → Pool A W → Exec (Pool A W)
  drop value p = elim (m.try_into_inner p.allocated) [
    | ok v ↦ returns (record p { allocated = m.write (value ∷ v) p.allocated })
    | err e ↦ panics
  ]

  -- `(0..count).map(|_| self.try_into()).collect()`
  pub collect : ℕ → Pool A W → List (Result T (Option E)) × Pool A W
  collect zero p = ([], p)
  collect (suc n) p = let (r, q) = try_from p in let (rs, s) = collect n q in (r ∷ rs, s)

  -- What an early return leaves in the list is dropped in order.
  pub drop_rest : List (Result T (Option E)) → Pool A W → Exec (Pool A W)
  drop_rest [] p = returns p
  drop_rest (ok v ∷ rs) p = drop v p >>= drop_rest rs
  drop_rest (err e ∷ rs) p = drop_rest rs p

  -- `for temp in swap { temp?; }`
  pub give_back :
      List (Result T (Option E)) → Pool A W → Exec (Result (Unit {0}) (Option E) × Pool A W)
  give_back [] p = returns (ok tt, p)
  give_back (ok v ∷ rs) p = drop v p >>= give_back rs
  give_back (err e ∷ rs) p = drop_rest rs p >>= λ q. returns (err e, q)

  unfoldable pub prealloc : Pool A W → ℕ → Exec (Result (Unit {0}) (Option E) × Pool A W)
  unfolding collect give_back drop_rest
  prealloc p count = let (swap, q) = collect count p in give_back swap q

  -- A pool that its lock opens onto the values `v`.
  abbrev pub Opens : Pool A W → List T → Type ℓ
  Opens p v = m.try_into_inner p.allocated ≡ ok v
