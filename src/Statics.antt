-- ===== src/Statics.antt =====
-- src/groups.rs, src/stacks.rs and src/localstores.rs: the three static pools that a timed function
-- takes its parts from. Each is made by the first call, through a `Once`.

pub mod Stores
pub mod Stacks
use libinger.Base.{ℕ, suc, Option, none, some, Result, ok, err, Exec, returns, panics, ◌>>=◌}
use libinger.Machine.{Tls, default_tls}
use libinger.Reusable.{Mutex, PoisonError, mutex, Pool, new, try_from, prealloc, drop}

-- A static pool: `none` until the first call has made it.
abbrev pub Static : Type 0 → Type 0 → Type 0
Static T W = Option (Pool (Mutex T) W)

-- A builder and what its closure captures at the start.
module _ {T W : Type 0} (build : W → Option T × W) (start : W) where
  abbrev pub initialized : Static T W → Pool (Mutex T) W
  initialized none = new mutex build start
  initialized (some p) = p

  -- The drop of a handle. There is none before the pool has been made.
  unfoldable pub release : T → Static T W → Exec (Static T W)
  release v s = drop mutex build v (initialized s) >>= λ p. returns (some p)

  abbrev pub preallocated :
      Result (Unit {0}) (Option PoisonError) × Pool (Mutex T) W → Exec (Pool (Mutex T) W)
  preallocated (ok _, p) = returns p
  preallocated (err e, p) = panics

  -- What `INIT.call_once` leaves in the static.
  unfoldable pub ready : ℕ → Static T W → Exec (Pool (Mutex T) W)
  ready limit none = prealloc mutex build (new mutex build start) limit >>= preallocated
  ready limit (some p) = returns p

  abbrev pub taken : Result T (Option PoisonError) × Pool (Mutex T) W → Exec (T × Static T W)
  taken (ok v, p) = returns (v, some p)
  taken (err e, p) = panics

  unfoldable pub alloc : ℕ → Static T W → Exec (T × Static T W)
  unfolding ready
  alloc limit s = ready limit s >>= λ p. taken (try_from mutex build p)

-- `Group::new`, and what it knows at the start, are given.
unfoldable pub assign_group :
    {Group W : Type 0}
    → (W → Option Group × W)
    → W
    → Static Group W
    → Result Group (Option PoisonError) × Static Group W
assign_group build start s =
    let (r, p) = try_from mutex build (initialized build start s) in (r, some p)

-- A stack stands for its number among those that the allocator has given out, and the builder's
-- state for how many these are.
abbrev pub new_stack : ℕ → Option ℕ × ℕ
new_stack n = (some (suc n), suc n)

-- `limit` is `Group::limit()`.
unfoldable pub alloc_stack : ℕ → Static ℕ ℕ → Exec (ℕ × Static ℕ ℕ)
unfolding alloc
alloc_stack limit s = alloc new_stack 0 limit s

abbrev pub Localstores : Type 0 → Type 0 → Type 0
Localstores Group S = Static (Option (Tls Group S)) (Unit {0})

module _ {Group S : Type 0} where
  -- `|| Some(Some(ThreadControlBlock::new()))`, where there is memory for a block.
  abbrev pub new_localstore : Unit {0} → Option (Option (Tls Group S)) × Unit {0}
  new_localstore u = (some (some default_tls), u)

  unfoldable pub alloc_localstore :
      ℕ → Localstores Group S → Exec (Option (Tls Group S) × Localstores Group S)
  unfolding alloc
  alloc_localstore limit s = alloc new_localstore tt limit s
