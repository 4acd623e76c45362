-- ===== src/Statics/Stacks.antt =====
-- src/stacks.rs: the stacks that are out are different from one another.
use mathlib.Core.Logic.Or
use native.Mathlib.Bridge.{le_prop}
use mathlib.Core.List.{
  Mem, Nodup, Perm, Nodup-cons, Nodup-nil, Nodup-append, mem-cons, not-mem-nil, reverse,
  reverse-cons, append_assoc, append-nil,
}
use mathlib.Core.List.Perm
use libinger.Base.{
  ◌+◌, sym, subst, ap, ◌∙◌, ℕ, zero, suc, ◌≤◌, ◌≡◌, refl, some, none, List, [], ◌∷◌, ◌++◌, returns,
  ◌>>=◌, Ensures, Ensures->>=, Meets-imp, arith, length, ok,
}
use libinger.Reusable.{mutex, Mutex, new, prealloc, Opens, try_from, pop_or_build}
use libinger.Reusable.Prealloc.{Supplies, prealloc_lem}
use libinger.Reusable.History.{
  Call, Client, Accounts, Lasts, run, run-Accounts, acquire-Solvent, keep,
}
use libinger.Statics.{Static, initialized, ready, taken, alloc, new_stack, alloc_stack}

-- The stacks of the first `n` allocations, the latest first.
abbrev pub made : ℕ → List ℕ
made zero = []
made (suc n) = suc n ∷ made n

pub mem-made_pos : (n x : ℕ) → Mem x (made n) → 1 ≤ x
mem-made_pos zero x m = absurd (not-mem-nil m)
mem-made_pos (suc n) x m =
    Or.elim le_prop (mem-cons.0 m) (λ e. omega arith) (λ k. mem-made_pos n x k)

mem-made_le : (n x : ℕ) → Mem x (made n) → x ≤ n
mem-made_le zero x m = absurd (not-mem-nil m)
mem-made_le (suc n) x m =
    Or.elim le_prop (mem-cons.0 m) (λ e. omega arith) (λ k. omega (arith, mem-made_le n x k))

pub made-Nodup : (n : ℕ) → Nodup (made n)
made-Nodup zero = Nodup-nil
made-Nodup (suc n) =
    Nodup-cons.1 (λ m. absurd (omega (arith, mem-made_le n (suc n) m)), made-Nodup n)

abbrev pub Endless : ℕ → ℕ → Type 0
Endless n w = Unit {0}

pub new_stack-Lasts : Lasts new_stack made Endless
new_stack-Lasts = record { grows = λ n w g. Perm.rfl; spends = λ n w g. tt; waits = λ n w g. tt }

-- The static pool, and the stacks that are out.
abbrev pub Stacks : Type 0
Stacks = Client (Mutex ℕ) ℕ ℕ

abbrev pub SortedOut : Stacks → Type 0
SortedOut d = Accounts mutex new_stack made d

pub held-Nodup : (d : Stacks) → SortedOut d → Nodup d.held
held-Nodup d a = (Nodup-append.0 (Perm.nodup (Perm.symm a.owned) (made-Nodup d.pool.builder))).0

-- The builder makes `n` stacks, in order.
abbrev made_from : ℕ → ℕ → List ℕ
made_from zero w = []
made_from (suc n) w = suc w ∷ made_from n (suc w)

made_from-Supplies : (n w : ℕ) → Supplies new_stack w (made_from n w) (w + n)
made_from-Supplies zero w = omega arith
made_from-Supplies (suc n) w =
    let e : suc w + n ≡ w + suc n = omega arith in
    (
      suc w,
      refl,
      subst (Supplies new_stack (suc w) (made_from n (suc w))) e (made_from-Supplies n (suc w)),
    )

length-made_from : (n w : ℕ) → length (made_from n w) ≡ n
length-made_from zero w = refl
length-made_from (suc n) w = ap suc (length-made_from n (suc w))

reverse-made_from : (n w : ℕ) → reverse (made_from n w) ++ made w ≡ made (w + n)
reverse-made_from zero w = ap made (omega arith)
reverse-made_from (suc n) w =
    let e : suc w + n ≡ w + suc n = omega arith in
    rw (reverse-cons (suc w) (made_from n (suc w)), append_assoc)
      (reverse-made_from n (suc w) ∙ ap made e)

ready-SortedOut :
    (limit : ℕ)
    → Ensures (λ p. SortedOut (record { pool = p; held = [] })) (ready new_stack 0 limit none)
unfolding ready new
ready-SortedOut limit =
    let (q, e, o, b) =
      prealloc_lem mutex new_stack (made_from limit 0) (new mutex new_stack 0) (0 + limit) refl
        (made_from-Supplies limit 0) in
    let ran : prealloc mutex new_stack (new mutex new_stack 0) limit ≡ returns (ok tt, q) =
      rw length-made_from at e in
    let free : reverse (made_from limit 0) ≡ made q.builder =
      sym (append-nil _) ∙ reverse-made_from limit 0 ∙ ap made (sym b) in
    rw ran (record {
      free = _;
      opens = o;
      owned = subst (λ vs. Perm (reverse (made_from limit 0)) vs) free Perm.rfl;
    })

-- A stack is handed out, and what is out stays accounted for.
abbrev pub Held : List ℕ → ℕ × Static ℕ ℕ → Type 0
Held hs (v, s) = SortedOut (record { pool = initialized new_stack 0 s; held = v ∷ hs })

taken-Held :
    (d : Stacks) (free : List ℕ)
    → Opens mutex new_stack d.pool free
    → SortedOut (keep mutex new_stack d (pop_or_build mutex new_stack free d.pool))
    → Ensures (Held d.held) (taken new_stack 0 (pop_or_build mutex new_stack free d.pool))
unfolding pop_or_build
taken-Held d [] o a = a
taken-Held d (v ∷ vs) o a = a

pub taken-SortedOut :
    (limit : ℕ) (d : Stacks)
    → SortedOut d
    → Ensures (Held d.held) (taken new_stack 0 (try_from mutex new_stack d.pool))
unfolding try_from
taken-SortedOut limit d a =
    let b = (acquire-Solvent mutex new_stack made Endless new_stack-Lasts 0 d (a, tt)).0 in
    rw (a.opens, try_from) (taken-Held d a.free a.opens (rw (a.opens, try_from) at b))

pub alloc_stack-Held : (limit : ℕ) → Ensures (Held []) (alloc_stack limit none)
unfolding alloc_stack alloc
alloc_stack-Held limit =
    Ensures->>= ⊥ (λ p. SortedOut (record { pool = p; held = [] })) (Held [])
      (ready new_stack 0 limit none) _ (ready-SortedOut limit)
      λ p a. taken-SortedOut limit (record { pool = p; held = [] }) a

alloc_stack-again :
    (limit : ℕ) (d : Stacks)
    → SortedOut d
    → Ensures (λ r. Nodup (r.0 ∷ d.held)) (alloc_stack limit (some d.pool))
unfolding alloc_stack alloc ready
alloc_stack-again limit d a =
    Meets-imp ⊥ (Held d.held) (λ r. Nodup (r.0 ∷ d.held))
      (taken new_stack 0 (try_from mutex new_stack d.pool)) (taken-SortedOut limit d a)
      λ r h. held-Nodup _ h

-- After the first call of `alloc_stack` in a process, with the stack that it hands out.
abbrev pub first : ℕ × Static ℕ ℕ → Stacks
first (v, s) = record { pool = initialized new_stack 0 s; held = v ∷ [] }

-- The first call of `alloc_stack` in a process returns, whatever number of stacks it makes ahead, and
-- whatever stacks are then handed out and put back in any order: the stacks that are out are
-- pairwise different, and a further call returns yet another one.
pub alloc_stack-distinct :
    (limit : ℕ) (xs : List Call)
    → Ensures
        (λ d. Nodup d.held × Ensures (λ r. Nodup (r.0 ∷ d.held)) (alloc_stack limit (some d.pool)))
        (alloc_stack limit none >>= λ r. run mutex new_stack (first r) xs)
alloc_stack-distinct limit xs =
    Ensures->>= ⊥ (Held []) _ (alloc_stack limit none) _ (alloc_stack-Held limit) λ r h.
      let (d, e, a) = run-Accounts mutex new_stack made Endless new_stack-Lasts xs (first r) h tt in
      rw e (held-Nodup d a, alloc_stack-again limit d a)
