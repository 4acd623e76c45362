-- ===== src/Profiler.antt =====
-- src/profiler.rs. Times are readings of `nsnow`; the name of the thread, if any, and whether it is that
-- of the main thread are given. The message of the drop is left at its two numbers, before the
-- division in floating point.
pub mod Spans
use libinger.Base.{
  ℕ, zero, suc, ◌+◌, ◌-◌, ◌%◌, Bool, true, false, Option, none, some, List, [], ◌∷◌, ◌++◌, length,
  ◌==◌, if◌then◌else◌, Result, ok, err,
}
use libinger.Signal.{interrupt as interrupt_signal}
use libinger.Signal.Set.{Sigset, empty, add, block}
use libinger.Kernel.{Kernel, action, new, sigaction, pthread_sigmask}

abbrev pub u64_mod : ℕ
u64_mod = 18446744073709551616

-- `past` has its back at the end of the list.
pub record Profiler : Type 0 where
  pub past : List ℕ
  pub present : ℕ

abbrev pub default : Profiler
default = record { past = []; present = 0 }

-- `profiler.borrow_mut().get_or_insert_with(Profiler::default)`
abbrev pub get_or_insert : Option Profiler → Profiler
get_or_insert none = default
get_or_insert (some p) = p

-- `with_profiler`: the result, and the thread's profiler.
unfoldable pub with_profiler :
    {T : Type 0} → (Profiler → T × Profiler) → Option Profiler → T × Option Profiler
with_profiler fun cell = let (t, p) = fun (get_or_insert cell) in (t, some p)

-- What a process keeps besides: whether the handler was registered, which is done once.
pub record Process (K : Type 0) : Type 0 where
  pub once : Bool
  pub kernel : K

unfoldable pub registered : {K : Type 0} → Kernel K → ℕ → Process K → Process K
registered os handler w = if w.once then w else record {
  once = true;
  kernel = (sigaction os interrupt_signal (action (new handler empty 0)) w.kernel).1;
}

unfoldable pub begin : ℕ → Profiler → Profiler
begin now p = record p { present = now }

unfoldable pub begin_process :
    {K : Type 0} → Kernel K → ℕ → ℕ → Process K → Profiler → Process K × Profiler
unfolding registered begin
begin_process os handler now w p = (registered os handler w, begin now p)

-- `nsnow() - self.present` wraps around.
unfoldable pub end : ℕ → Profiler → Bool × Profiler
end now p =
    if p.present == 0
    then (false, p)
    else (true, record { past = p.past ++ (now + u64_mod - p.present) % u64_mod ∷ []; present = 0 })

abbrev pub sum : List ℕ → ℕ
sum [] = 0
sum (x ∷ xs) = x + sum xs

-- What the drop prints the quotient of.
unfoldable pub totals : Profiler → ℕ × ℕ
totals p = (sum p.past % u64_mod, length p.past)

-- How the handler of SIGINT leaves.
pub data Interrupted : Type 0 where
  exits : ℕ → Interrupted
  aborts : Interrupted
  masks : Sigset → Interrupted

unfoldable pub interrupt : Option Bool → Interrupted
interrupt none = aborts
interrupt (some true) = masks (add empty interrupt_signal)
interrupt (some false) = exits 100
