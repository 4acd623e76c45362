-- ===== src/Tests/Lives.antt =====
-- A client of three functions, with groups that are numbered from 1 on.
use mathlib.Core.List.{Nodup}
use libinger.Base.{
  ℕ, zero, suc, ◌≤◌, ◌==◌, false, true, ◌≡◌, refl, none, some, List, [], ◌∷◌, ◌++◌, inr, Safe,
  Ensures, All, arith, Exec, returns, panics, ◌>>=◌,
}
use libinger.Machine.{arrive, elapse}
use libinger.Signal.{alarm}
use libinger.Reusable.{mutex, Pool, Mutex, new, try_from}
use libinger.Reusable.History.{Call, acquire, release, run as held_run}
use libinger.Statics.{new_stack, assign_group, alloc_stack}
use libinger.Statics.Stacks.{
  made, mem-made_pos, made-Nodup, Endless, new_stack-Lasts, alloc_stack-distinct, first,
}
use libinger.Linger.Invariant.Due.{ends_within}
use libinger.Linger.Resume.{Faults}
use libinger.Linger.Resume.Valid.{no_faults, answers}
use libinger.Linger.Lifecycle.{World, Order, launching, resuming, erasing, dropping, run, step}
use libinger.Linger.Lifecycle.Sound.{groups_of, Fits}
use libinger.Linger.Lifecycle.Owned.{stacks_of}
use libinger.Linger.Lifecycle.Books.{Supply}
use libinger.Linger.Lifecycle.Through.{
  Sound, run-Sound, run_returns, beginning, beginning-Sound, run-distinct,
}
use libinger.Linger.Lifecycle.Losses.{step-after_failure}
use libinger.Tests.Sample.{gotcha, body, alarm_timer, main_thread, ticks}

not_shared : (g : ℕ) → 1 ≤ g → (g == 0) ≡ false
not_shared g h = ground arith

supply : Supply gotcha new_stack made Endless
supply = record {
  lasts = new_stack-Lasts;
  distinct = λ n w g. made-Nodup w;
  private = λ n w g e m. not_shared g (mem-made_pos w g m);
}

body_ends : (s : ℕ) → ends_within body 4 s ≡ true
unfolding ends_within
body_ends zero = refl
body_ends (suc zero) = refl
body_ends (suc (suc zero)) = refl
body_ends (suc (suc (suc s))) =
    let first : (suc (suc (suc s)) == 0) ≡ false = ground arith in
    let second : (suc (suc (suc s)) == 1) ≡ false = ground arith in
    let third : (suc (suc (suc s)) == 2) ≡ false = ground arith in rw (first, second, third) refl

-- The first function is preempted, the second is only made, the first goes on to its yield, the second
-- is erased and dropped, and a third is in its group.
abbrev orders : List (Order ℕ)
orders =
    launching 0 10 (ticks 3 ++ elapse 20000 ∷ arrive alarm ∷ ticks 11)
    ∷ launching 2 0 (ticks 14)
    ∷ resuming 1 50 (ticks 14)
    ∷ erasing 1
    ∷ dropping 0
    ∷ launching 2 50 (ticks 20)
    ∷ []

abbrev World0 : Type 0
World0 = World ℕ ℕ ℕ ℕ

abbrev here : World0
here =
    beginning gotcha body new_stack 0 made Endless supply alarm_timer (answers alarm_timer)
      (λ g. true) (λ g. refl) 2 main_thread

abbrev ran : List (Order ℕ) → World0 → Exec World0
ran os w = run gotcha body new_stack 0 (λ g. true) 2 (no_faults (answers alarm_timer)) w os

abbrev Fine : ℕ → World0 → Type 0
Fine =
    Sound gotcha body new_stack 0 made Endless supply alarm_timer (answers alarm_timer) (λ g. true)
      (λ g. refl) 2

here-Fine : (n : ℕ) → Fine n here
here-Fine n =
    beginning-Sound gotcha body new_stack 0 made Endless supply alarm_timer (answers alarm_timer)
      (λ g. true) (λ g. refl) 2 n main_thread refl tt (inr (refl, refl, refl))

run-Sound_example : Safe (Fine 0) (ran orders here)
run-Sound_example =
    run-Sound gotcha body new_stack 0 made Endless supply alarm_timer (answers alarm_timer)
      (λ g. true) (λ g. refl) 2 here orders (here-Fine 6)

run_returns_example : Ensures (Fine 0) (ran orders here)
run_returns_example =
    run_returns gotcha body new_stack 0 made Endless supply alarm_timer (answers alarm_timer)
      (λ g. true) (λ g. refl) 2 4 here orders body_ends
      (omega arith, (omega arith, (omega arith, (tt, (tt, (omega arith, tt)))))) (here-Fine 6)

run-distinct_example :
    Safe
      (λ w. Nodup (groups_of w.live) × Nodup (stacks_of w.live) × All Fits w.live)
      (ran orders here)
run-distinct_example =
    run-distinct gotcha body new_stack 0 made Endless supply alarm_timer (answers alarm_timer)
      (λ g. true) (λ g. refl) 2 main_thread orders refl tt (inr (refl, refl, refl))

-- Stacks are acquired past those made ahead.
abbrev history : List Call
history = acquire ∷ acquire ∷ release 1 ∷ acquire ∷ release 0 ∷ []

alloc_stack-distinct_example :
    Ensures
      (λ d. Nodup d.held × Ensures (λ r. Nodup (r.0 ∷ d.held)) (alloc_stack 2 (some d.pool)))
      (alloc_stack 2 none >>= λ r. held_run mutex new_stack (first r) history)
alloc_stack-distinct_example = alloc_stack-distinct 2 history

-- The system refuses to install the block.
abbrev refused : Faults
refused = record { install = some 12; setup = answers alarm_timer; stack = none; switch = none }

abbrev one_made : Pool (Mutex ℕ) ℕ
one_made = record { allocated = record { poison = false; inner = [] }; builder = 1 }

step-after_failure_example :
    (v : World0) × (step gotcha body new_stack 0 (λ g. true) 2 refused here (launching 0 10 [])
      ≡ returns v)
    × (step gotcha body new_stack 0
          (λ g. true)
          2
          (no_faults (answers alarm_timer))
          v
          (launching 0 10 [])
        ≡ panics)
unfolding assign_group new try_from
step-after_failure_example =
    step-after_failure gotcha body new_stack 0 (λ g. true) 2 refused
      (no_faults (answers alarm_timer)) here 1 one_made [] 12 0 10 [] 0 10 [] (λ g. refl) refl refl
      (here-Fine 1).stores refl refl refl
