-- ===== src/Linger/Lifecycle.antt =====
-- src/linger.rs with src/groups.rs, src/stacks.rs and src/localstores.rs: a client that launches, resumes
-- and drops functions on one thread, where each takes its group, its stack and its thread-control block
-- from the pools and gives them back.
pub mod Sound
pub mod Owned
pub mod Calls
pub mod Books
pub mod Drops
pub mod Launches
pub mod Orders
pub mod Through
pub mod Losses
use libinger.Base.{
  ℕ, Bool, Option, none, some, List, [], ◌∷◌, Result, ok, err, Exec, returns, ◌>>=◌, get_elem?,
  erase_idx, is_some, not, ◌&&◌, true, false, ◌==◌,
}
use libinger.Gotcha.{Gotcha}
use libinger.Machine.{Action, Thread, Tls, Event}
use libinger.Reusable.{PoisonError}
use libinger.Statics.{
  Static, release, assign_group, new_stack, alloc_stack, Localstores, new_localstore,
  alloc_localstore,
}
use libinger.Linger.Resume.{
  Continuation, Linger, completion, continuation, poison, Faults, Reply, done, failed, unwinds,
  Resumed, resume, launch, drop_continuation, erase, fresh,
}

-- A `Linger` that a client holds, with the function that it was launched with and the stack that the
-- checkpoint of its continuation owns, if there is one.
pub record Launched (Group S T : Type 0) : Type 0 where
  pub fun : S
  pub linger : Linger Group S T
  pub stack : Option ℕ

-- The three pools, what the client holds, the latest first, and the thread. `W` is what the builder of
-- groups knows.
pub record World (Group S T W : Type 0) : Type 0 where
  pub groups : Static Group W
  pub stacks : Static ℕ ℕ
  pub localstores : Localstores Group S
  pub live : List (Launched Group S T)
  pub thread : Thread Group S

-- What the client does next, with the index of a function, its budget and the events of the call.
pub data Order (S : Type 0) : Type 0 where
  launching : S → ℕ → List Event → Order S
  resuming : ℕ → ℕ → List Event → Order S
  erasing : ℕ → Order S
  dropping : ℕ → Order S

-- The drop of a checkpoint puts its stack back.
unfoldable pub put_back : Option ℕ → Static ℕ ℕ → Exec (Static ℕ ℕ)
put_back none s = returns s
put_back (some v) s = release new_stack 0 v s

-- `task.checkpoint = setup_stack()?`, on a first launch.
unfoldable pub setup_stack : ℕ → Bool → Option ℕ → Static ℕ ℕ → Exec (Option ℕ × Static ℕ ℕ)
unfolding put_back
setup_stack limit false owned s = returns (owned, s)
setup_stack limit true owned s =
    alloc_stack limit s >>= λ a. put_back owned a.1 >>= λ t. returns (some a.0, t)

-- The function's stack stays with its checkpoint, or is put back where that is gone.
unfoldable pub keep_stack : Bool → Option ℕ → Static ℕ ℕ → Exec (Option ℕ × Static ℕ ℕ)
unfolding put_back
keep_stack true owned s = returns (owned, s)
keep_stack false owned s = put_back owned s >>= λ t. returns (none, t)

-- Whether a call of `resume` gets as far as `setup_stack`: on a function that has not begun, once its
-- thread-control block is installed.
abbrev pub is_first : {Group S T : Type 0} → Faults → Linger Group S T → Bool
is_first faults (completion v) = false
is_first faults (continuation c) =
    not (is_some c.stateful.errno) && (is_some c.tls && not (is_some faults.install))
is_first faults poison = false

abbrev pub has_checkpoint : {Group S T : Type 0} → Linger Group S T → Bool
has_checkpoint (completion v) = false
has_checkpoint (continuation c) = is_some c.stateful.checkpoint
has_checkpoint poison = false

module _ {Group W : Type 0} (G : Gotcha Group) {S T : Type 0} (next : S → Action S T)
    (build : W → Option Group × W) (start : W) (renew : Group → Bool) (limit : ℕ)
    (faults : Faults) where
  -- The drop of a continuation and then of its fields, with their handles.
  unfoldable pub discard_continuation :
      Continuation Group S T → Option ℕ → World Group S T W → Exec (World Group S T W)
  unfolding put_back
  discard_continuation c stack w = drop_continuation renew c >>= λ renewed.
      put_back stack w.stacks >>= λ ss. release build start c.group w.groups >>= λ gs.
      release new_localstore tt c.tls w.localstores >>= λ ls.
      returns (record w { groups = gs; stacks = ss; localstores = ls })

  unfoldable pub discard :
      Linger Group S T → Option ℕ → World Group S T W → Exec (World Group S T W)
  unfolding discard_continuation
  discard (completion v) stack w = returns w
  discard (continuation c) stack w = discard_continuation c stack w
  discard poison stack w = returns w

  -- What a call of `resume` has dropped, if anything: `switch_stack` has dropped its stack already.
  unfoldable pub settle :
      Option (Continuation Group S T) → World Group S T W → Exec (World Group S T W)
  unfolding discard_continuation
  settle none w = returns w
  settle (some c) w = discard_continuation c none w

  -- The end of `launch`: by an error or a panic the function is lost to the client, which catches the
  -- panic that `resume` raises again.
  unfoldable pub landed :
      S → Option ℕ → World Group S T W → Resumed Group S T → Exec (World Group S T W)
  unfolding settle discard keep_stack
  landed fun stack w r = keep_stack (has_checkpoint r.linger) stack w.stacks >>= λ k.
      settle r.dropped (record w { thread = r.thread; stacks = k.1 }) >>= λ x. elim r.reply [
        | done ↦
            returns
              (record x { live = record { fun = fun; linger = r.linger; stack = k.0 } ∷ x.live })
        | failed e ↦ discard r.linger k.0 x
        | unwinds e ↦ discard r.linger k.0 x
      ]

  -- With no group to be had `launch` panics, before it has done anything; the client catches that.
  unfoldable pub launched_with :
      S
      → ℕ
      → List Event
      → World Group S T W
      → Result Group (Option PoisonError) × Static Group W
      → Exec (World Group S T W)
  unfolding landed setup_stack
  launched_with fun us es w (err e, gs) = returns (record w { groups = gs })
  launched_with fun us es w (ok g, gs) = alloc_localstore limit w.localstores >>= λ a.
      setup_stack limit (not (us == 0) && is_first faults (continuation (fresh G next fun g a.0)))
        none w.stacks
      >>= λ k. launch G next faults (some g) a.0 fun us w.thread es >>= λ r.
          landed fun k.0 (record w { groups = gs; stacks = k.1; localstores = a.1 }) r

  unfoldable pub resumed_at :
      ℕ
      → ℕ
      → List Event
      → World Group S T W
      → Option (Launched Group S T)
      → Exec (World Group S T W)
  unfolding settle setup_stack keep_stack
  resumed_at i us es w none = returns w
  resumed_at i us es w (some l) =
      setup_stack limit (is_first faults l.linger) l.stack w.stacks >>= λ k.
      resume G next faults l.linger us w.thread es >>= λ r.
      keep_stack (has_checkpoint r.linger) k.0 k.1 >>= λ h. settle r.dropped (record w {
        live = record { fun = l.fun; linger = r.linger; stack = h.0 } ∷ erase_idx w.live i;
        stacks = h.1;
        thread = r.thread;
      })

  unfoldable pub erased_at :
      ℕ → World Group S T W → Option (Launched Group S T) → Exec (World Group S T W)
  unfolding erase
  erased_at i w none = returns w
  erased_at i w (some l) = returns (record w {
    live = record { fun = l.fun; linger = erase l.linger; stack = l.stack } ∷ erase_idx w.live i;
  })

  unfoldable pub dropped_at :
      ℕ → World Group S T W → Option (Launched Group S T) → Exec (World Group S T W)
  unfolding discard
  dropped_at i w none = returns w
  dropped_at i w (some l) = discard l.linger l.stack (record w { live = erase_idx w.live i })

  unfoldable pub step : World Group S T W → Order S → Exec (World Group S T W)
  unfolding launched_with resumed_at erased_at dropped_at
  step w (launching fun us es) = launched_with fun us es w (assign_group build start w.groups)
  step w (resuming i us es) = resumed_at i us es w (get_elem? w.live i)
  step w (erasing i) = erased_at i w (get_elem? w.live i)
  step w (dropping i) = dropped_at i w (get_elem? w.live i)

  unfoldable pub run : World Group S T W → List (Order S) → Exec (World Group S T W)
  unfolding step
  run w [] = returns w
  run w (x ∷ xs) = step w x >>= λ y. run y xs
