-- ===== src/Linger/Invariant.antt =====
-- src/linger.rs: what holds at every point of a timed function's run, whatever signals arrive.
pub mod Handler
pub mod Steps
pub mod Due
pub mod Alone
pub mod Ends
pub mod Yield
pub mod Spends
pub mod Prompt
pub mod Overdue
pub mod Unstopped
use libinger.Base.{
  ◌&&◌, arith, Bool, true, false, ◌≡◌, refl, ◌⊎◌, Option, none, some, Result, ok, is_some, ℕ,
}
use libinger.Gotcha.{Gotcha}
use libinger.Signal.{Signal}
use libinger.Machine.{
  ThdResult, Action, compute, library, yield_now, finish, Completion, function, return_value, empty,
  RealThreadId, real_thread, PreemptionSignal, Point, before_fun, client, in_library, in_hook,
  after_fun, Control, call_site, entry, running, Context, Thread, Tls, Machine,
}

-- The steps of the function alone: what it does when nothing interrupts it.
module _ {S T : Type 0} (next : S → Action S T) where
  pub data Follows (s : S) : S → Type 0 where
    computes : {e : ℕ} {t : S} → next s ≡ compute e t → Follows s t
    calls : {e : ℕ} {t : S} → next s ≡ library e t → Follows s t
    yields : {t : S} → next s ≡ yield_now t → Follows s t

  pub data Reaches (s : S) : S → Type 0 where
    here : Reaches s s
    then : {t u : S} → Reaches s t → Follows t u → Reaches s u

  -- Called in state `s` and left alone, the function finishes with `v`.
  pub data Finishes (s : S) (v : ThdResult T) : Type 0 where
    finishes : (t : S) → Reaches s t → next t ≡ finish v → Finishes s v

module _ {Group : Type 0} (G : Gotcha Group) {S T : Type 0} (next : S → Action S T) (g : Group)
    (p : PreemptionSignal) (start : S) where
  -- How far the function has come, at a point and with a closure.
  abbrev pub Progress : Point Group S → Completion S T → Type 0
  Progress before_fun f = f ≡ function start
  Progress (client s) f = Reaches next start s × (f ≡ empty)
  Progress (in_library h s) f = Reaches next start s × (f ≡ empty)
  Progress (in_hook e s) f = Reaches next start s × (f ≡ empty)
  Progress after_fun f = (v : ThdResult T) × (f ≡ return_value v) × Finishes next start v

  abbrev pub is_call_site : Control Group S → Bool
  is_call_site call_site = true
  is_call_site entry = false
  is_call_site (running u q) = false

  -- The checkpoint is the call site that the function returns to, where the signal is masked.
  abbrev pub is_site : Option (Context Group S) → Bool
  is_site none = false
  is_site (some c) = is_call_site c.control && c.sigmask p.signal

  call_site_of :
      (c : Control Group S) (b : Bool) → (is_call_site c && b) ≡ true → (c ≡ call_site) × (b ≡ true)
  call_site_of call_site b h = (refl, ground arith)
  call_site_of entry b h = cc
  call_site_of (running u q) b h = cc

  pub site_of :
      (o : Option (Context Group S))
      → is_site o ≡ true
      → (site : Context Group S) × (o ≡ some site)
        × (site.control ≡ call_site)
        × (site.sigmask p.signal ≡ true)
  site_of none h = cc
  site_of (some c) h = let (e, m) = call_site_of c.control (c.sigmask p.signal) h in (c, refl, e, m)

  -- The thread between the jump into the function and the return from it.
  pub record Ready (t : Thread Group S) : Type 0 where
    pub own : t.signaler ≡ some p
    pub named : t.tls.signal ≡ some real_thread
    pub hook : t.hooked ≡ true
    pub unpaused : t.tls.task.errno ≡ none
    pub returns_to : is_site t.tls.task.checkpoint ≡ true

  -- The thread in the function's group: preemption is on. `u` is the signal that `schedule` was told of,
  -- which is the thread's own.
  pub record Open (u : Option Signal) (t : Thread Group S) : Type 0 where
    pub told : u ≡ some p.signal
    pub inside : t.group ≡ g
    pub unmasked : t.mask p.signal ≡ false
    pub prompt : t.tls.deferred ≡ false
    pub located : is_some t.tls.errno_location ≡ true
    pub booted : t.tls.bootstrap ≡ none

  -- The thread in a library call: the signal is masked just when a preemption was put off.
  pub record Outside (u : Option Signal) (t : Thread Group S) : Type 0 where
    pub told : u ≡ some p.signal
    pub shared : t.group ≡ G.shared
    pub put_off : t.mask p.signal ≡ t.tls.deferred
    pub located : is_some t.tls.errno_location ≡ true
    pub booted : t.tls.bootstrap ≡ none

  -- The thread at the first instruction of `schedule`.
  pub record Entering (t : Thread Group S) : Type 0 where
    pub shared : t.group ≡ G.shared
    pub masked : t.mask p.signal ≡ true
    pub prompt : t.tls.deferred ≡ false
    pub boot : t.tls.bootstrap ≡ some g

  abbrev pub Sits : Option Signal → Point Group S → Thread Group S → Type 0
  Sits u (in_library h s) t = (h ≡ g) × Outside u t
  Sits u before_fun t = Open u t
  Sits u (client s) t = Open u t
  Sits u (in_hook e s) t = Open u t
  Sits u after_fun t = Open u t

  -- Points in the function's own group.
  abbrev pub is_inside : Point Group S → Bool
  is_inside (in_library h s) = false
  is_inside _ = true

  -- A function that was paused at a point of its own group, with what it needs to go on. `signal` is the
  -- one that `schedule` was told of, which is the thread's own.
  pub record Paused (l : Tls Group S) (f : Completion S T) : Type 0 where
    pub errno : ℕ
    pub context : Context Group S
    pub signal : Option Signal
    pub told : signal ≡ some p.signal
    pub point : Point Group S
    pub kept : l.task.errno ≡ some errno
    pub saved : l.task.checkpoint ≡ some context
    pub stopped : context.control ≡ running signal point
    pub inside : is_inside point ≡ true
    pub progress : Progress point f
    pub located : is_some l.errno_location ≡ true

  -- A function that has finished.
  pub record Finished (l : Tls Group S) (f : Completion S T) : Type 0 where
    pub value : ThdResult T
    pub unpaused : l.task.errno ≡ none
    pub result : f ≡ return_value value
    pub finishes : Finishes next start value

  -- The thread back at the call site: preemption is off, and the thread's signal is forgotten.
  pub record Left (t : Thread Group S) : Type 0 where
    pub own : t.signaler ≡ some p
    pub shared : t.group ≡ G.shared
    pub masked : t.mask p.signal ≡ true
    pub prompt : t.tls.deferred ≡ false
    pub unnamed : t.tls.signal ≡ none
    pub hook : t.hooked ≡ true
    pub booted : t.tls.bootstrap ≡ none

  abbrev pub Where : Control Group S → Thread Group S → Completion S T → Type 0
  Where call_site t f = Left t × (Paused t.tls f ⊎ Finished t.tls f)
  Where entry t f = Ready t × Entering t × (f ≡ function start)
  Where (running u q) t f = Ready t × Sits u q t × Progress q f

  abbrev pub Inv : Machine Group S T → Type 0
  Inv m = Where m.control m.thread m.fun
