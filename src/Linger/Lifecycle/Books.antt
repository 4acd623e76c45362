-- ===== src/Linger/Lifecycle/Books.antt =====
-- src/groups.rs: which groups are out.
use mathlib.Core.List.{Mem, mem-cons_self, Perm, Nodup}
use mathlib.Core.List.Perm
use libinger.Base.{
  ℕ, suc, false, ◌≡◌, sym, subst, Option, some, List, ◌∷◌, ◌++◌, Result, ok, err, Ensures,
}
use libinger.Gotcha.{Gotcha}
use libinger.Reusable.{PoisonError, mutex, Pool, Mutex, try_from}
use libinger.Reusable.History.{Lasts, Client, Solvent, keep, drop-Accounts, acquire-Solvent}
use libinger.Statics.{Static, initialized, release, assign_group}

-- What a builder of groups is good for: in its state `w` it has made the groups `built w`, all
-- different and none the shared one, and it has `n` calls more in it.
pub record Supply {Group W : Type 0} (G : Gotcha Group) (build : W → Option Group × W)
    (built : W → List Group) (Good : ℕ → W → Type 0) : Type 0 where
  pub lasts : Lasts build built Good
  pub distinct : (n : ℕ) (w : W) → Good n w → Nodup (built w)
  pub private : (n : ℕ) (w : W) (g : Group) → Good n w → Mem g (built w) → G.is_shared g ≡ false

module _ {Group W : Type 0} (G : Gotcha Group) (build : W → Option Group × W) (start : W)
    (built : W → List Group) (Good : ℕ → W → Type 0) (supply : Supply G build built Good) where
  abbrev client : Static Group W → List Group → Client (Mutex Group) Group W
  client s gs = record { pool = initialized build start s; held = gs }

  -- The pool of groups, while the groups `gs` are out.
  abbrev pub Books : ℕ → Static Group W → List Group → Type 0
  Books n s gs = Solvent mutex build built Good supply.lasts n (client s gs)

  pub release-Books :
      (n : ℕ) (g : Group) (gs : List Group) (s : Static Group W)
      → Books n s (g ∷ gs)
      → Ensures (λ r. Books n r gs) (release build start g s)
  unfolding release
  release-Books n g gs s (b, good) =
      let (q, e, c, same) =
        drop-Accounts mutex build built Good supply.lasts g gs (initialized build start s) b in
      rw e (c, subst (Good n) (sym same) good)

  -- What a call of `assign_group` leaves, and that its group is not the shared one.
  abbrev pub Assigned : ℕ → List Group → Result Group (Option PoisonError) × Static Group W → Type 0
  Assigned n gs (ok g, s) = Books n s (g ∷ gs) × (G.is_shared g ≡ false)
  Assigned n gs (err e, s) = Books n s gs

  private-held :
      (n : ℕ) (g : Group) (gs : List Group) (s : Static Group W)
      → Books n s (g ∷ gs)
      → G.is_shared g ≡ false
  private-held n g gs s (b, good) =
      supply.private n _ g good (Perm.subset b.owned _ (mem-cons_self {l = gs ++ b.free}))

  assigned :
      (n : ℕ) (gs : List Group) (s : Static Group W)
      (r : Result Group (Option PoisonError) × Pool (Mutex Group) W)
      → Solvent mutex build built Good supply.lasts n (keep mutex build (client s gs) r)
      → Assigned n gs (r.0, some r.1)
  assigned n gs s (ok g, q) b = (b, private-held n g gs (some q) b)
  assigned n gs s (err e, q) b = b

  pub assign_group-Assigned :
      (n : ℕ) (gs : List Group) (s : Static Group W)
      → Books (suc n) s gs
      → Assigned n gs (assign_group build start s)
  unfolding assign_group
  assign_group-Assigned n gs s b =
      assigned n gs s (try_from mutex build (initialized build start s))
        (acquire-Solvent mutex build built Good supply.lasts n (client s gs) b)

  pub perm-Books :
      (n : ℕ) (s : Static Group W) {gs hs : List Group} → Perm gs hs → Books n s gs → Books n s hs
  perm-Books n s e (b, good) = (
    record {
      free = b.free;
      opens = b.opens;
      owned = Perm.trans (Perm.append_right b.free (Perm.symm e)) b.owned;
    },
    good,
  )

  pub waits-Books :
      (n : ℕ) (gs : List Group) (s : Static Group W) → Books (suc n) s gs → Books n s gs
  waits-Books n gs s (b, good) = (b, supply.lasts.waits n _ good)
