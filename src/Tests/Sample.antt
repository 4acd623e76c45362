-- ===== src/Tests/Sample.antt =====
-- A libgotcha with numbers for groups, a timed function of four steps, and a thread to run it on.
use libinger.Base.{
  Exec, returns, panics, aborts, undefined, runs_on, ℕ, zero, suc, refl, false, none, some, List,
  [], ◌∷◌, ok, ◌==◌, if◌then◌else◌,
}
use libinger.Gotcha.{Gotcha}
use libinger.Signal.{alarm}
use libinger.Signal.Set.{empty}
use libinger.Machine.{
  Action, compute, library, yield_now, finish, PreemptionSignal, Thread, default_tls, Event,
  instruct,
}
use libinger.Linger.Resume.{Continuation, fresh}

abbrev pub gotcha : Gotcha ℕ
gotcha = record { shared = 0; is_shared = λ g. g == 0; shared_lem = refl }

-- It computes, calls a library function that fails with errno 4, yields, and returns 7.
abbrev pub body : ℕ → Action ℕ ℕ
body s =
    if s == 0
    then compute 2 1
    else if s == 1
    then library 4 2
    else if s == 2
    then yield_now 3
    else finish (ok 7)

abbrev pub alarm_timer : PreemptionSignal
alarm_timer = record { signal = alarm; timer = 5 }

abbrev pub main_thread : Thread ℕ ℕ
main_thread = record {
  clock = 1000000000;
  mask = empty;
  pending = [];
  group = 0;
  errno_shared = 0;
  errno_group = 0;
  signaler = none;
  hooked = false;
  tls = default_tls;
}

abbrev pub new_continuation : Continuation ℕ ℕ ℕ
new_continuation = fresh gotcha body 0 3 (some default_tls)

abbrev pub ticks : ℕ → List Event
ticks zero = []
ticks (suc n) = instruct ∷ ticks n

-- What a run returned, and something else where it did not.
abbrev pub returned : {A : Type 0} → A → Exec A → A
returned d (returns a) = a
returned d panics = d
returned d aborts = d
returned d undefined = d
returned d runs_on = d
