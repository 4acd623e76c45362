-- ===== src/Linger/Run.antt =====
-- src/linger.rs: `schedule` and the timed function, as the processor and the kernel run them. The timed
-- function is a parameter: what it does next in each state.
pub mod Pending
use libinger.Base.{
  ◌+◌, Option, none, some, List, [], ◌∷◌, Result, ok, err, Exec, returns, aborts, undefined,
  runs_on, ◌>>=◌, if◌then◌else◌,
}
use libinger.Gotcha.{Gotcha}
use libinger.Signal.{Signal}
use libinger.Signal.Set.{Sigset, add}
use libinger.Machine.{
  Action, compute, library, yield_now, finish, Completion, function, return_value, empty, Point,
  before_fun, client, in_library, in_hook, after_fun, Control, call_site, entry, running, Context,
  Thread, Machine, Event, instruct, arrive, elapse,
}
use libinger.Preemption.{
  set_tls, raise, Enabled, enable_preemption, propagate_errno, disable_preemption,
}
use libinger.Linger.Clock.{stamp}
use libinger.Linger.Preempt.{preempt, pause}

abbrev pub put_back : Signal → Option (Signal × List Signal) → Option (Signal × List Signal)
put_back p none = none
put_back p (some (s, rest)) = some (s, p ∷ rest)

-- The oldest pending signal that the mask lets through, and the rest.
unfoldable pub find_unblocked : Sigset → List Signal → Option (Signal × List Signal)
find_unblocked mask [] = none
find_unblocked mask (p ∷ ps) = if mask p then put_back p (find_unblocked mask ps) else some (p, ps)

module _ {Group : Type 0} (G : Gotcha Group) {S T : Type 0} (next : S → Action S T) where
  -- The processor leaves a handler by the context that the handler left.
  unfoldable pub resumed : Machine Group S T → Context Group S × Thread Group S → Machine Group S T
  resumed m (uc, t) = record m { thread = record t { mask = uc.sigmask }; control = uc.control }

  -- The kernel runs the handler with the signal masked.
  unfoldable pub deliver : Machine Group S T → Signal → List Signal → Exec (Machine Group S T)
  unfolding resumed
  deliver m s rest =
      let t = m.thread in
      preempt G s (record { control = m.control; sigmask = t.mask })
        (record t { mask = add t.mask s; pending = rest })
      >>= λ h. returns (resumed m h)

  unfoldable pub deliver_found :
      Machine Group S T → Option (Signal × List Signal) → Exec (Machine Group S T)
  unfolding deliver
  deliver_found m none = returns m
  deliver_found m (some (s, rest)) = deliver m s rest

  -- A pending signal is delivered as soon as the mask lets it through.
  unfoldable pub deliver_pending : Machine Group S T → Exec (Machine Group S T)
  unfolding deliver_found
  deliver_pending m = deliver_found m (find_unblocked m.thread.mask m.thread.pending)

  unfoldable pub go :
      Machine Group S T → Option Signal → Point Group S → Thread Group S → Machine Group S T
  go m signal p t = record m { thread = t; control = running signal p }

  -- `schedule` up to its call of the closure.
  unfoldable pub enabled :
      Machine Group S T
      → Result (Option Signal) (Unit {0})
      → Thread Group S
      → Exec (Machine Group S T)
  unfolding go
  enabled m (err _) t = aborts
  enabled m (ok signal) t = returns (go m signal before_fun t)

  unfoldable pub bootstrapped : Machine Group S T → Option Group → Exec (Machine Group S T)
  unfolding enabled
  bootstrapped m none = aborts
  bootstrapped m (some group) =
      let t = set_tls G (record m.thread.tls { bootstrap = none }) m.thread in
      enable_preemption G (some group) (stamp G t) >>= λ e. enabled m e.unblocked e.thread

  -- The closure, called as a nullary function: its first call runs the function.
  unfoldable pub call_fun :
      Machine Group S T → Option Signal → Completion S T → Exec (Machine Group S T)
  unfolding go
  call_fun m signal (function s) =
      returns (record (go m signal (client s) m.thread) { fun = empty })
  call_fun m signal (return_value v) = undefined
  call_fun m signal empty = returns (go m signal after_fun m.thread)

  -- The timed function, a step; a library call and `pause` run in the shared group.
  unfoldable pub act :
      Machine Group S T → Option Signal → Thread Group S → Action S T → Exec (Machine Group S T)
  unfolding go
  act m signal t (compute e s) = returns (go m signal (client s) (record t { errno_group = e }))
  act m signal t (library e s) =
      returns (go m signal (in_library t.group s) (record t { group = G.shared; errno_shared = e }))
  act m signal t (yield_now s) = pause G (record t { group = G.shared }) >>= λ p.
      returns (go m signal (in_library t.group s) p)
  act m signal t (finish v) = returns (record (go m signal after_fun t) { fun = return_value v })

  -- The hook `resume_preemption`, which drops what `enable_preemption` returns.
  unfoldable pub hooked :
      Machine Group S T → Option Signal → S → Enabled Group S → Machine Group S T
  unfolding go
  hooked m signal s e = elim e.unblocked [
    | err _ ↦ go m signal (client s) e.thread
    | ok _ ↦ go m signal (in_hook e.errno s) e.thread
  ]

  -- A library call returns into the group that made it.
  unfoldable pub leave :
      Machine Group S T → Option Signal → S → Thread Group S → Exec (Machine Group S T)
  unfolding go hooked
  leave m signal s t =
      if t.hooked
      then (enable_preemption G none t >>= λ e. returns (hooked m signal s e))
      else returns (go m signal (client s) t)

  -- `schedule` returns, to the context in the checkpoint.
  unfoldable pub arrive_at :
      Machine Group S T → Thread Group S → Option (Context Group S) → Exec (Machine Group S T)
  arrive_at m t none = undefined
  arrive_at m t (some site) =
      returns (record m { thread = record t { mask = site.sigmask }; control = site.control })

  -- The end of `schedule` is one step: `disable_preemption` first masks the signal that it is given,
  -- which is the thread's own where the function began with that, and no other may come between.
  unfoldable pub at_point :
      Machine Group S T → Option Signal → Point Group S → Exec (Machine Group S T)
  unfolding call_fun act leave go arrive_at
  at_point m signal before_fun = call_fun m signal m.fun
  at_point m signal (client s) = act m signal m.thread (next s)
  at_point m signal (in_library group s) = leave m signal s (record m.thread { group = group })
  at_point m signal (in_hook e s) = returns (go m signal (client s) (propagate_errno G e m.thread))
  at_point m signal after_fun =
      let t = disable_preemption G signal m.thread in arrive_at m t t.tls.task.checkpoint

  unfoldable pub instructed : Machine Group S T → Control Group S → Exec (Machine Group S T)
  unfolding bootstrapped at_point
  instructed m call_site = returns m
  instructed m entry = bootstrapped m m.thread.tls.bootstrap
  instructed m (running signal p) = at_point m signal p

  unfoldable pub effect : Event → Machine Group S T → Exec (Machine Group S T)
  unfolding instructed
  effect instruct m = instructed m m.control
  effect (arrive s) m = returns (record m { thread = raise G s m.thread })
  effect (elapse n) m =
      returns (record m { thread = record m.thread { clock = m.thread.clock + n } })

  -- One event, and the delivery of a signal that can be delivered after it.
  unfoldable pub step : Event → Machine Group S T → Exec (Machine Group S T)
  unfolding effect deliver_pending
  step e m = effect e m >>= deliver_pending

  -- The events up to the return to the call site, and those that are left.
  unfoldable pub run :
      List Event → Machine Group S T → Control Group S → Exec (Machine Group S T × List Event)
  run es m call_site = returns (m, es)
  run [] m _ = runs_on
  run (e ∷ es) m _ = step e m >>= λ n. run es n n.control
