-- ===== src/Linger/Lifecycle/Owned.antt =====
-- src/stacks.rs with src/linger.rs: which stacks are out, when functions take them and give them back.
use mathlib.Core.List.{Perm, perm_middle, cons≢nil}
use mathlib.Core.List.Perm
use libinger.Base.{
  ℕ, Bool, true, false, ◌||◌, ◌&&◌, ◌≡◌, refl, subst, Option, none, some, is_some, List, [], ◌∷◌,
  ◌++◌, Ensures, Ensures->>=, sym,
}
use libinger.Reusable.{mutex, new}
use libinger.Reusable.History.{drop-Accounts}
use libinger.Statics.{Static, initialized, release, new_stack, ready, alloc, alloc_stack}
use libinger.Statics.Stacks.{
  SortedOut, made, Endless, new_stack-Lasts, taken-SortedOut, alloc_stack-Held,
}
use libinger.Linger.Lifecycle.Sound.{parts}
use libinger.Linger.Lifecycle.{Launched, put_back, setup_stack, keep_stack}

-- The pool of stacks, while the stacks `hs` are out.
abbrev pub Shelf : Static ℕ ℕ → List ℕ → Type 0
Shelf s hs = SortedOut (record { pool = initialized new_stack 0 s; held = hs })

abbrev pub owned : Option ℕ → List ℕ
owned none = []
owned (some v) = v ∷ []

-- The stacks of a client's functions.
abbrev pub stacks_of : {Group S T : Type 0} → List (Launched Group S T) → List ℕ
stacks_of ls = parts (λ l. owned l.stack) ls

pub perm-Shelf : (s : Static ℕ ℕ) {gs hs : List ℕ} → Perm gs hs → Shelf s gs → Shelf s hs
perm-Shelf s e b = record {
  free = b.free;
  opens = b.opens;
  owned = Perm.trans (Perm.append_right b.free (Perm.symm e)) b.owned;
}

none_out : (hs free : List ℕ) → Perm (hs ++ free) [] → hs ≡ []
none_out [] free e = refl
none_out (h ∷ hs) free e = absurd (cons≢nil (Perm.eq-nil e))

alloc_stack-Shelf :
    (limit : ℕ) (s : Static ℕ ℕ) (hs : List ℕ)
    → Shelf s hs
    → Ensures (λ r. Shelf r.1 (r.0 ∷ hs)) (alloc_stack limit s)
unfolding alloc_stack alloc ready new
alloc_stack-Shelf limit none hs b =
    subst (λ k. Ensures (λ r. Shelf r.1 (r.0 ∷ k)) (alloc_stack limit none))
      (sym (none_out hs b.free b.owned)) (alloc_stack-Held limit)
alloc_stack-Shelf limit (some q) hs b = taken-SortedOut limit (record { pool = q; held = hs }) b

release-Shelf :
    (v : ℕ) (hs : List ℕ) (s : Static ℕ ℕ)
    → Shelf s (v ∷ hs)
    → Ensures (λ t. Shelf t hs) (release new_stack 0 v s)
unfolding release
release-Shelf v hs s b =
    let (q, e, c, same) =
      drop-Accounts mutex new_stack made Endless new_stack-Lasts v hs (initialized new_stack 0 s)
        b in
    rw e c

pub put_back-Shelf :
    (o : Option ℕ) (hs : List ℕ) (s : Static ℕ ℕ)
    → Shelf s (owned o ++ hs)
    → Ensures (λ t. Shelf t hs) (put_back o s)
unfolding put_back
put_back-Shelf none hs s b = b
put_back-Shelf (some v) hs s b = release-Shelf v hs s b

-- A function that begins has a stack from then on.
abbrev pub Begins : Bool → Option ℕ → List ℕ → Option ℕ × Static ℕ ℕ → Type 0
Begins first o hs k = Shelf k.1 (owned k.0 ++ hs) × (is_some k.0 ≡ (first || is_some o))

pub setup_stack-Begins :
    (limit : ℕ) (first : Bool) (o : Option ℕ) (hs : List ℕ) (s : Static ℕ ℕ)
    → Shelf s (owned o ++ hs)
    → Ensures (Begins first o hs) (setup_stack limit first o s)
unfolding setup_stack
setup_stack-Begins limit false o hs s b = (b, refl)
setup_stack-Begins limit true o hs s b =
    Ensures->>= ⊥ (λ a. Shelf a.1 (a.0 ∷ owned o ++ hs)) (Begins true o hs) (alloc_stack limit s) _
      (alloc_stack-Shelf limit s (owned o ++ hs) b)
      λ a c.
        Ensures->>= ⊥ (λ t. Shelf t (a.0 ∷ hs)) (Begins true o hs) (put_back o a.1) _
          (put_back-Shelf o (a.0 ∷ hs) a.1
            (perm-Shelf a.1 (Perm.symm (perm_middle (owned o) hs)) c))
          λ t d. (d, refl)

-- One whose checkpoint is gone has none.
abbrev pub Ends : Bool → Option ℕ → List ℕ → Option ℕ × Static ℕ ℕ → Type 0
Ends kept o hs k = Shelf k.1 (owned k.0 ++ hs) × (is_some k.0 ≡ (kept && is_some o))

pub keep_stack-Ends :
    (kept : Bool) (o : Option ℕ) (hs : List ℕ) (s : Static ℕ ℕ)
    → Shelf s (owned o ++ hs)
    → Ensures (Ends kept o hs) (keep_stack kept o s)
unfolding keep_stack
keep_stack-Ends true o hs s b = (b, refl)
keep_stack-Ends false o hs s b =
    Ensures->>= ⊥ (λ t. Shelf t hs) (Ends false o hs) (put_back o s) _ (put_back-Shelf o hs s b)
      (λ t d. (d, refl))
