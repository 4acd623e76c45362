-- ===== src/Tcb/Guards.antt =====
-- src/tcb.rs: what installing, uninstalling and dropping a block of the library's own do.
use libinger.Base.{
  ◌>>=◌, ◌⊎◌, is_some, ◌||◌, ◌&&◌, not, if◌then◌else◌, aborts, Bool, ℕ, ◌≡◌, refl, true, false,
  Option, none, some, Option-cases, inl, inr, Result, ok, err, returns, Ensures, Ensures->>=,
  ==_refl, arith, ap, ◌∙◌, subst, ◌==◌,
}
use libinger.Tcb.{
  Block, Memory, shared_ref, mut_ref, ThreadControlBlock, ThreadControlBlockGuard, Attempt, put,
  current, Installed, set_fs, copied, install_unguarded, unguarded_parent, reinstalled, drop_guard,
  dropped, drop, guarded, install, uninstall,
}

-- A block with the pointer guard and the kernel's thread of another.
abbrev pub refreshed : Block → Block → Block
refreshed cur own = record own {
  pointer_guard = cur.pointer_guard;
  kernel_thread = cur.kernel_thread;
}

module _ (m : Memory) (a : ℕ) (cur own : Block) (installed : m.blocks m.fs ≡ some cur)
    (allocated : m.blocks a ≡ some own) where
  abbrev this : ThreadControlBlock
  this = some (mut_ref a)

  -- The blocks at other addresses are as they were.
  abbrev pub Frame : Memory → Type 0
  Frame n = (x : ℕ) → (x == a) ≡ false → n.blocks x ≡ m.blocks x

  -- How an attempt to install the block leaves the memory.
  abbrev Attempted : Attempt → Installed → Type 0
  Attempted k (ok c, n) =
      (c ≡ some (some (shared_ref m.fs)))
      × (n ≡ record (put a (some (refreshed cur own)) m) { fs = a })
  Attempted k (err e, n) =
      (n.fs ≡ m.fs)
      × Frame n
      × (is_some (n.blocks a) ≡ true)
      × ((k.get ≡ some e) ⊎ (k.set ≡ some e))

  set_fs-Attempted :
      (k : Attempt) (grouped : Bool)
      → (grouped && not k.has_ctype_init) ≡ false
      → Ensures
          (Attempted k)
          (set_fs k grouped a (some (some (shared_ref m.fs))) (put a (some (refreshed cur own)) m))
  unfolding set_fs
  set_fs-Attempted k grouped h = set_fs-cases k.set refl
    where
      set_fs-cases :
          (o : Option ℕ)
          → k.set ≡ o
          → Ensures (Attempted k) (elim o [
            | some e ↦ returns (err e, put a (some (refreshed cur own)) m)
            | none ↦
                if grouped && not k.has_ctype_init
                then aborts
                else returns (
                  ok (some (some (shared_ref m.fs))),
                  record (put a (some (refreshed cur own)) m) { fs = a },
                )
          ])
      set_fs-cases none e = rw h (refl, refl)
      set_fs-cases (some x) e = (refl, (λ y d. rw d refl), rw (==_refl a) refl, inr e)

  install-Attempted :
      (k : Attempt) (grouped : Bool)
      → (grouped && not k.has_ctype_init) ≡ false
      → Ensures (Attempted k) (install_unguarded k grouped this m)
  unfolding install_unguarded copied
  install-Attempted k grouped h = install-cases k.get refl
    where
      install-cases :
          (o : Option ℕ)
          → k.get ≡ o
          → Ensures (Attempted k) (elim o [
            | some e ↦ returns (err e, m)
            | none ↦ copied k grouped a (m.blocks m.fs) (m.blocks a) m
          ])
      install-cases none e = rw installed (rw allocated (set_fs-Attempted k grouped h))
      install-cases (some x) e = (refl, (λ y d. refl), ap is_some allocated, inl e)

  -- How the drop of the block leaves the memory.
  abbrev pub Dropped : Attempt → Memory → Type 0
  Dropped k n =
      (n.fs ≡ m.fs) × Frame n × ((n.blocks a ≡ none) ⊎ ((is_some k.get || is_some k.set) ≡ true))

  -- Dropping a block that is allocated, while another is installed and can be put back: FS and the
  -- other blocks are as they were, and the block is gone unless the kernel refused to install it
  -- for its destructors.
  pub drop_lem : (k back : Attempt) → back.set ≡ none → Ensures (Dropped k) (drop k back this m)
  unfolding drop dropped drop_guard reinstalled unguarded_parent install_unguarded set_fs
  drop_lem k back b =
      Ensures->>= ⊥ (Attempted k) (Dropped k) (install_unguarded k false this m) _
        (install-Attempted k false refl) λ r h. after r h
    where
      after :
          (r : Installed)
          → Attempted k r
          → Ensures (Dropped k) (dropped back (mut_ref a) (unguarded_parent k r.0 r.1) r.1)
      after (ok c, n) (e, f) =
          rw e (rw f (rw b (refl, (λ y d. rw d refl), inl (rw (==_refl a) refl))))
      after (err e, n) (f, x, l, inl g) = (f, x, inr (rw g refl))
      after (err e, n) (f, x, l, inr g) = (f, x, inr (ground arith))

-- How an installation leaves the guard and the memory.
module _ (m : Memory) (a : ℕ) (cur own : Block) where
  abbrev pub Installs : Result ThreadControlBlockGuard ℕ × Memory → Type 0
  Installs (ok g, n) =
      (g ≡ record { this = some (mut_ref a); parent = some (shared_ref m.fs) })
      × (n ≡ record (put a (some (refreshed cur own)) m) { fs = a })
  Installs (err e, n) = (n.fs ≡ m.fs) × ((x : ℕ) → (x == a) ≡ false → n.blocks x ≡ m.blocks x)

  -- Installing an allocated block while another one is installed, where the group has a `__ctype_init`
  -- and FS can be put back: either the block is installed, with the pointer guard and the kernel's
  -- thread of the other one, which is the guard's parent, or there is an error, and FS and all other
  -- blocks are as they were.
  pub install-Installs :
      (k again back : Attempt)
      → m.blocks m.fs ≡ some cur
      → m.blocks a ≡ some own
      → (m.fs == a) ≡ false
      → k.has_ctype_init ≡ true
      → back.set ≡ none
      → Ensures Installs (install k again back (some (mut_ref a)) m)
  unfolding install unguarded_parent guarded
  install-Installs k again back i l d h b =
      Ensures->>= ⊥ (Attempted m a cur own i l k) Installs
        (install_unguarded k true (some (mut_ref a)) m) _
        (install-Attempted m a cur own i l k true (ap not h)) λ r h. after r h
    where
      after :
          (r : Installed)
          → Attempted m a cur own i l k r
          → Ensures Installs
              (guarded again back (some (mut_ref a)) (unguarded_parent k r.0 r.1) r.1)
      after (ok c, n) (e, f) = rw e (refl, f)
      after (err e, n) (f, x, s, g) = elim (Option-cases (n.blocks a)) [
        | inl e ↦ absurd (ground (arith, e))
        | inr (own, j) ↦
            Ensures->>= ⊥ (Dropped n a cur own (ap n.blocks f ∙ x m.fs d ∙ i) j again) Installs
              (drop again back (some (mut_ref a)) n) _
              (drop_lem n a cur own (ap n.blocks f ∙ x m.fs d ∙ i) j again back b)
              λ o (p, q, t). (p ∙ f, λ y c. q y c ∙ x y c)
      ]

  -- Uninstalling what was installed gives the block back and puts FS back: nothing is changed but the
  -- two words of the block that `install` copies.
  pub uninstall-install :
      (k again back last : Attempt) (g : ThreadControlBlockGuard) (n : Memory)
      → m.blocks m.fs ≡ some cur
      → m.blocks a ≡ some own
      → (m.fs == a) ≡ false
      → k.has_ctype_init ≡ true
      → back.set ≡ none
      → last.set ≡ none
      → install k again back (some (mut_ref a)) m ≡ returns (ok g, n)
      → uninstall last g n ≡ returns (ok (some (mut_ref a)), put a (some (refreshed cur own)) m)
  unfolding uninstall drop_guard reinstalled install_unguarded set_fs
  uninstall-install k again back last g n i l d h b s e =
      let (x, y) = subst (Ensures Installs) e (install-Installs k again back i l d h b) in
      rw x (rw y (rw s refl))

-- A block that was not made by `new` but taken from FS by `current`, installed and uninstalled while no
-- call fails: it stays installed, whatever was installed before, since its guard takes it for its own
-- parent.
pub uninstall-install_ref :
    (m : Memory) (a : ℕ) (k again back last : Attempt)
    → k.get ≡ none
    → k.set ≡ none
    → last.set ≡ none
    → Ensures
        (λ r. (r.0 ≡ ok (some (shared_ref a))) × (r.1 ≡ record m { fs = a }))
        (install k again back (some (shared_ref a)) m >>= λ r. elim r.0 [
          | ok g ↦ uninstall last g r.1
          | err e ↦ returns (err e, r.1)
        ])
unfolding install uninstall guarded unguarded_parent current install_unguarded set_fs drop_guard
    reinstalled
uninstall-install_ref m a k again back last g s l = rw s (rw g (rw l (refl, refl)))
