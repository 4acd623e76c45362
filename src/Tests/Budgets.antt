-- ===== src/Tests/Budgets.antt =====
-- Functions and their budgets.
use libinger.Base.{
  zero, suc, false, ok, ◌==◌, if◌then◌else◌, ℕ, ◌≤◌, ◌≡◌, refl, inl, inr, some, List, ◌∷◌, ◌++◌,
  Ensures, length, arith,
}
use libinger.Signal.{alarm, hangup}
use libinger.Linger.Invariant.Unstopped.{yields, Silent}
use libinger.Linger.Invariant.Due.{ends_within}
use libinger.Linger.Resume.Unstopped.{resume_unstopped}
use libinger.Machine.{Action, library, finish, compute, Event, default_tls, arrive, elapse}
use libinger.Linger.Invariant.Overdue.Runs.{slice}
use libinger.Linger.Resume.{Continuation, continuation, is_continuation, resume, fresh}
use libinger.Linger.Resume.Valid.{no_faults, answers, Valid, Post}
use libinger.Linger.Resume.Overdue.{resume-slice}
use libinger.Tests.Sample.{gotcha, alarm_timer, main_thread, ticks}

-- It never finishes.
abbrev spin : ℕ → Action ℕ ℕ
spin s = compute 0 s

abbrev spinning : Continuation ℕ ℕ ℕ
spinning = fresh gotcha spin 0 3 (some default_tls)

spinning-Valid : Valid gotcha spin 3 alarm_timer 0 refl spinning
spinning-Valid = record {
  block = default_tls;
  tls = refl;
  group = refl;
  prompt = refl;
  booted = refl;
  idle = refl;
  state = inl (refl, refl, refl);
}

-- A signal that comes too early, and one that is another's.
abbrev early : List Event
early = ticks 4 ++ arrive alarm ∷ arrive hangup ∷ elapse 20 ∷ ticks 5

resume-slice_example :
    Ensures
      (λ r. Post gotcha spin 3 alarm_timer 0 refl default_tls r × (2 ≤ length r.rest))
      (resume gotcha spin
        (no_faults (answers alarm_timer))
        (continuation spinning)
        10
        main_thread
        (early ++ slice alarm_timer 10000 (ticks 2)))
resume-slice_example =
    resume-slice gotcha spin 3 alarm_timer 0 refl (answers alarm_timer) 10 10000 early (ticks 2)
      spinning main_thread spinning-Valid (inr (refl, refl, refl)) (omega arith) (omega arith) tt tt
      (omega arith)

-- It computes twice and returns 7.
abbrev short : ℕ → Action ℕ ℕ
short s = if s == 0 then compute 0 1 else if s == 1 then library 3 2 else finish (ok 7)

short-steady : (s : ℕ) → yields (short s) ≡ false
short-steady zero = refl
short-steady (suc zero) = refl
short-steady (suc (suc s)) =
    let first : (suc (suc s) == 0) ≡ false = ground arith in
    let second : (suc (suc s) == 1) ≡ false = ground arith in rw (first, second) refl

abbrev shortly : Continuation ℕ ℕ ℕ
shortly = fresh gotcha short 0 3 (some default_tls)

shortly-Valid : Valid gotcha short 3 alarm_timer 0 refl shortly
shortly-Valid = record {
  block = default_tls;
  tls = refl;
  group = refl;
  prompt = refl;
  booted = refl;
  idle = refl;
  state = inl (refl, refl, refl);
}

ticks-Silent : (n : ℕ) → Silent (ticks n)
ticks-Silent zero = tt
ticks-Silent (suc n) = (refl, ticks-Silent n)

-- With the budget 0.
resume_unstopped_example :
    Ensures
      (λ r.
        Post gotcha short 3 alarm_timer 0 refl default_tls r × (is_continuation r.linger ≡ false))
      (resume gotcha short
        (no_faults (answers alarm_timer))
        (continuation shortly)
        0
        main_thread
        (elapse 50000 ∷ ticks 11))
unfolding ends_within
resume_unstopped_example =
    resume_unstopped gotcha short 3 alarm_timer 0 refl short-steady (answers alarm_timer) 0 3
      shortly main_thread (elapse 50000 ∷ ticks 11) shortly-Valid (inr (refl, refl, refl)) refl
      (refl, ticks-Silent 11) refl (omega arith)
