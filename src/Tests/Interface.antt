-- ===== src/Tests/Interface.antt =====
-- The C interface on a function without a result.
use libinger.Base.{
  ℕ, zero, suc, true, ◌≡◌, refl, some, List, [], ◌∷◌, inl, inr, ok, err, ◌>>=◌, Safe, Ensures,
}
use libinger.Machine.{Action, library, finish, default_tls}
use libinger.Linger.Invariant.{Finishes, finishes}
use libinger.Linger.Resume.{completion, continuation, fresh}
use libinger.Linger.Resume.Valid.{no_faults, answers, Valid}
use libinger.Ffi.{Called, of_linger, launch_call}
use libinger.Ffi.Calls.{Call, resuming, cancelling, run, run_cancelled, Fair, launch_run-Fair}
use libinger.Tests.Sample.{gotcha, alarm_timer, main_thread, ticks}

-- It calls a library function and is done.
abbrev pub procedure : ℕ → Action ℕ (Unit {0})
procedure zero = library 4 1
procedure (suc n) = finish (ok tt)

pub procedure-Finishes : (e : ℕ) → Finishes procedure 0 (err e) → ⊥
procedure-Finishes e (finishes zero r h) = cc
procedure-Finishes e (finishes (suc n) r h) = cc

abbrev calls : List Call
calls = resuming 10 (ticks 5) ∷ cancelling ∷ resuming 10 (ticks 5) ∷ []

-- Launched with no budget, and cancelled before it has run.
abbrev launched : Called ℕ ℕ
launched = record {
  timed = of_linger (continuation (fresh gotcha procedure 0 3 (some default_tls)));
  thread = main_thread;
  rest = [];
}

launched-Valid :
    Valid gotcha procedure 3 alarm_timer 0 refl (fresh gotcha procedure 0 3 (some default_tls))
launched-Valid = record {
  block = default_tls;
  tls = refl;
  group = refl;
  prompt = refl;
  booted = refl;
  idle = refl;
  state = inl (refl, refl, refl);
}

run_cancelled_example :
    Ensures
      (λ r. (r.timed ≡ of_linger (completion tt)) × (r.thread ≡ main_thread))
      (run gotcha procedure
        (no_faults (answers alarm_timer))
        (λ g. true)
        (cancelling ∷ calls)
        launched)
run_cancelled_example =
    run_cancelled gotcha procedure 3 alarm_timer 0 refl (λ g. true) launched
      (no_faults (answers alarm_timer)) calls (λ h. refl) refl launched-Valid

launch_run-Fair_example : Safe (Fair gotcha procedure 3 alarm_timer 0 refl (answers alarm_timer)) (
    launch_call gotcha procedure
      (no_faults (answers alarm_timer))
      (some 3)
      (some default_tls)
      0
      10
      main_thread
      (ticks 3)
    >>= run gotcha procedure (no_faults (answers alarm_timer)) (λ g. true) calls)
launch_run-Fair_example =
    launch_run-Fair gotcha procedure 3 alarm_timer 0 refl (answers alarm_timer) procedure-Finishes
      (λ g. true) (λ h. refl) calls 10 main_thread (ticks 3) (inr (refl, refl, refl))
