-- ===== src/Tcb.antt =====
-- src/tcb.rs: thread-control blocks. A block is what the code reads and writes of it; the destructors
-- and the tables of character types that libc keeps in the rest are left out. What the kernel and
-- the look-up of a group's function answer is given.
pub mod Guards
use libinger.Base.{
  ℕ, Bool, true, false, ◌&&◌, not, Option, none, some, Result, ok, err, Exec, returns, panics,
  aborts, undefined, ◌>>=◌, ◌==◌, if◌then◌else◌,
}

pub record Block : Type 0 where
  pub tls_ptr : ℕ
  pub self_ptr : ℕ
  pub pointer_guard : ℕ
  pub kernel_thread : ℕ

-- The register FS, and the blocks that are allocated, by address.
pub record Memory : Type 0 where
  pub fs : ℕ
  pub blocks : ℕ → Option Block

pub data MaybeMut : Type 0 where
  shared_ref : ℕ → MaybeMut
  mut_ref : ℕ → MaybeMut

abbrev pub ThreadControlBlock : Type 0
ThreadControlBlock = Option MaybeMut

pub record ThreadControlBlockGuard : Type 0 where
  pub this : ThreadControlBlock
  pub parent : ThreadControlBlock

-- The answers to one attempt to install a block: the errors of `arch_prctl` for reading and for
-- writing FS, and whether the group has a `__ctype_init`.
pub record Attempt : Type 0 where
  pub get : Option ℕ
  pub set : Option ℕ
  pub has_ctype_init : Bool

-- The change of one block, or its end.
abbrev pub put : ℕ → Option Block → Memory → Memory
put a b m = record m { blocks = λ x. if x == a then b else m.blocks x }

unfoldable pub current : Attempt → Memory → Result ThreadControlBlock ℕ
current k m = elim k.get [ some e ↦ err e | none ↦ ok (some (shared_ref m.fs)) ]

-- `_dl_allocate_tls` gives the address, if any, and the block.
unfoldable pub new : Option (ℕ × Block) → Memory → Exec (ThreadControlBlock × Memory)
new none m = panics
new (some (a, b)) m =
    returns (some (mut_ref a), put a (some (record b { tls_ptr = a; self_ptr = a })) m)

abbrev pub Installed : Type 0
Installed = Result (Option ThreadControlBlock) ℕ × Memory

-- `cur` is what the attempt found in FS, for a block of the library's own.
unfoldable pub set_fs : Attempt → Bool → ℕ → Option ThreadControlBlock → Memory → Exec Installed
set_fs k grouped a cur m = elim k.set [
  | some e ↦ returns (err e, m)
  | none ↦ if grouped && not k.has_ctype_init then aborts else returns (ok cur, record m { fs = a })
]

-- The pointer guard and the kernel's thread are those of the block that is installed now.
unfoldable pub copied : Attempt → Bool → ℕ → Option Block → Option Block → Memory → Exec Installed
unfolding set_fs
copied k grouped a none own m = undefined
copied k grouped a (some cur) none m = undefined
copied k grouped a (some cur) (some own) m = set_fs k grouped a (some (some (shared_ref m.fs))) (
    put a
      (some (record own { pointer_guard = cur.pointer_guard; kernel_thread = cur.kernel_thread }))
      m)

unfoldable pub install_unguarded : Attempt → Bool → ThreadControlBlock → Memory → Exec Installed
unfolding copied set_fs
install_unguarded k grouped none m = panics
install_unguarded k grouped (some (shared_ref a)) m = set_fs k false a none m
install_unguarded k grouped (some (mut_ref a)) m = elim k.get [
  | some e ↦ returns (err e, m)
  | none ↦ copied k grouped a (m.blocks m.fs) (m.blocks a) m
]

-- `this?.ok_or(()).or_else(|_| ThreadControlBlock::current())`
unfoldable pub unguarded_parent :
    Attempt → Result (Option ThreadControlBlock) ℕ → Memory → Result ThreadControlBlock ℕ
unfolding current
unguarded_parent k (err e) m = err e
unguarded_parent k (ok (some p)) m = ok p
unguarded_parent k (ok none) m = current k m

abbrev pub deallocate : ThreadControlBlock → Memory → Memory
deallocate none m = m
deallocate (some (shared_ref a)) m = m
deallocate (some (mut_ref a)) m = put a none m

unfoldable pub reinstalled :
    ThreadControlBlock → Result (Option ThreadControlBlock) ℕ → Memory → Exec Memory
reinstalled this (err e) m = panics
reinstalled this (ok cur) m = returns (deallocate this m)

-- The drop of a guard.
unfoldable pub drop_guard : Attempt → ThreadControlBlockGuard → Memory → Exec Memory
unfolding reinstalled
drop_guard k guard m =
    install_unguarded k false guard.parent m >>= λ r. reinstalled guard.this r.0 r.1

unfoldable pub dropped : Attempt → MaybeMut → Result ThreadControlBlock ℕ → Memory → Exec Memory
dropped k this (err e) m = returns m
dropped k this (ok parent) m = drop_guard k (record { this = some this; parent = parent }) m

-- The drop of a block: the first attempt installs it for its destructors, the second puts the
-- other one back.
unfoldable pub drop : Attempt → Attempt → ThreadControlBlock → Memory → Exec Memory
unfolding dropped
drop k back none m = returns m
drop k back (some (shared_ref a)) m = returns m
drop k back (some (mut_ref a)) m = install_unguarded k false (some (mut_ref a)) m >>= λ r.
    dropped back (mut_ref a) (unguarded_parent k r.0 r.1) r.1

-- An early return of `install` drops the block.
unfoldable pub guarded :
    Attempt
    → Attempt
    → ThreadControlBlock
    → Result ThreadControlBlock ℕ
    → Memory
    → Exec (Result ThreadControlBlockGuard ℕ × Memory)
guarded again back this (err e) m = drop again back this m >>= λ n. returns (err e, n)
guarded again back this (ok parent) m = returns (ok (record { this = this; parent = parent }), m)

unfoldable pub install :
    Attempt
    → Attempt
    → Attempt
    → ThreadControlBlock
    → Memory
    → Exec (Result ThreadControlBlockGuard ℕ × Memory)
unfolding guarded
install k again back this m = install_unguarded k true this m >>= λ r.
    guarded again back this (unguarded_parent k r.0 r.1) r.1

-- What is left of the guard is dropped.
unfoldable pub uninstall :
    Attempt → ThreadControlBlockGuard → Memory → Exec (Result ThreadControlBlock ℕ × Memory)
uninstall k guard m =
    drop_guard k (record guard { this = none }) m >>= λ n. returns (ok guard.this, n)
