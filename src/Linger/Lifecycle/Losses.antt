-- ===== src/Linger/Lifecycle/Losses.antt =====
-- src/linger.rs with src/localstores.rs: what the drop of a function does that has lost its block.
use libinger.Base.{
  ℕ, Bool, not, ◌&&◌, arith, false, true, ◌≡◌, refl, Option, none, some, List, ok, returns, panics,
  ◌==◌, Ensures-returns,
}
use libinger.Gotcha.{Gotcha}
use libinger.Machine.{Tls, Action, Thread, Event}
use libinger.Reusable.{Pool, Mutex, mutex, Opens}
use libinger.Reusable.History.{try_from-drop}
use libinger.Statics.{
  Static, initialized, release, assign_group, new_localstore, alloc_localstore, alloc, ready,
}
use libinger.Statics.Stores.{Rested, Stores, Handed, alloc_localstore-Handed}
use libinger.Linger.Resume.{
  lost, fresh, installed, Continuation, continuation, Faults, launch, resume, continued,
  drop_continuation,
}
use libinger.Linger.Resume.Valid.{drop-renews}
use libinger.Linger.Lifecycle.{
  World, landed, settle, launching, discard, discard_continuation, launched_with, step, put_back,
  setup_stack, keep_stack, is_first,
}

module _ {Group W : Type 0} (G : Gotcha Group) {S T : Type 0} (next : S → Action S T)
    (build : W → Option Group × W) (start : W) (renew : Group → Bool) (limit : ℕ)
    (faults later : Faults) where
  launch_blockless :
      (g : Group) (fun : S) (us : ℕ) (t : Thread Group S) (es : List Event)
      → (us == 0) ≡ false
      → launch G next later (some g) none fun us t es ≡ panics
  unfolding launch resume continued
  launch_blockless g fun us t es e = rw e refl

  -- A continuation that has lost its block, as one has whose `resume` returned an error, is
  -- dropped, on pools that their locks open, its stack put back if it has one, where groups can be
  -- renewed: the drop works, but the very next launch with a budget panics, whatever the operating
  -- system answers.
  pub step-after_loss :
      (c : Continuation Group S T) (stack : Option ℕ) (w : World Group S T W) (ss : Static ℕ ℕ)
      (gs : List Group) (free : List _) (fun : S) (us : ℕ) (es : List Event)
      → ((h : Group) → renew h ≡ true)
      → c.tls ≡ none
      → put_back stack w.stacks ≡ returns ss
      → Opens mutex build (initialized build start w.groups) gs
      → Opens mutex new_localstore (initialized new_localstore tt w.localstores) free
      → (us == 0) ≡ false
      → (v : World Group S T W) × (discard G next build start renew limit faults
            (continuation c)
            stack
            w
          ≡ returns v)
        × (step G next build start renew limit later v (launching fun us es) ≡ panics)
  unfolding discard discard_continuation release setup_stack step launched_with assign_group
      alloc_localstore alloc ready
  step-after_loss c stack w ss gs free fun us es works missing put o k e =
      let (b, d, _) =
        Ensures-returns (λ x. Unit {0}) (drop_continuation renew c) (drop-renews renew c works) in
      let (q, qs, dq, rq, _, _) =
        try_from-drop mutex build c.group (initialized build start w.groups) gs o in
      let (l, ls, dl, rl, _, _) =
        try_from-drop mutex new_localstore none (initialized new_localstore tt w.localstores) free
          k in
      (
        record w { groups = some q; stacks = ss; localstores = some l },
        rw (d, missing, put) (rw (dq, dl) refl),
        rw rq (rw rl (rw e (rw (launch_blockless c.group fun us w.thread es e) refl))),
      )

  no_setup :
      (none_left : Bool) (e : ℕ) (s : Static ℕ ℕ) (c : Continuation Group S T)
      → faults.install ≡ some e
      → setup_stack limit (not none_left && is_first faults (continuation c)) none s
        ≡ returns (none, s)
  unfolding setup_stack
  no_setup none_left e s c f =
      let refused : (not none_left && is_first faults (continuation c)) ≡ false =
        ground (arith, f) in
      rw refused refl

  launch_fails :
      (e : ℕ) (g : Group) (tls : Option (Tls Group S)) (fun : S) (us : ℕ) (t : Thread Group S)
      (es : List Event)
      → faults.install ≡ some e
      → (us == 0) ≡ false
      → Rested Group S tls
      → launch G next faults (some g) tls fun us t es
        ≡ returns (lost G next e (fresh G next fun g tls) t.tls t es)
  unfolding launch resume continued installed
  launch_fails e g tls fun us t es f z r = rw z (rw r.tls_eq (rw f refl))

  -- A client launches a function with a budget, on a world whose free blocks are as good as new, with a
  -- group that it is assigned and renewals that work, and the operating system fails to install
  -- the block: the launch returns, the function is dropped, and the next launch with a budget
  -- panics, whatever the operating system answers then.
  pub step-after_failure :
      (w : World Group S T W) (g : Group) (q : Pool (Mutex Group) W) (gs : List Group) (e : ℕ)
      (fun : S) (us : ℕ) (es : List Event) (other : S) (budget : ℕ) (events : List Event)
      → ((h : Group) → renew h ≡ true)
      → assign_group build start w.groups ≡ (ok g, some q)
      → Opens mutex build q gs
      → Stores Group S w.localstores
      → faults.install ≡ some e
      → (us == 0) ≡ false
      → (budget == 0) ≡ false
      → (v : World Group S T W) × (step G next build start renew limit faults w
            (launching fun us es)
          ≡ returns v)
        × (step G next build start renew limit later v (launching other budget events) ≡ panics)
  unfolding step launched_with landed settle lost setup_stack keep_stack put_back
  step-after_failure w g q gs e fun us es other budget events works h o m f y z =
      let ((tls, ls), al, (r, k)) =
        Ensures-returns (Handed Group S) (alloc_localstore limit w.localstores)
          (alloc_localstore-Handed Group S limit w.localstores m) in
      let x : World Group S T W = record w { groups = some q; localstores = ls } in
      let c : Continuation Group S T = record (fresh G next fun g tls) { tls = none } in
      let (v, d, p) =
        step-after_loss c none x w.stacks gs k.free other budget events works refl refl o k.opens
          z in
      (
        v,
        rw h (
            rw al (
              rw (no_setup (us == 0) e w.stacks (fresh G next fun g tls) f)
                (rw (launch_fails e g tls fun us w.thread es f y r) d))),
        p,
      )
