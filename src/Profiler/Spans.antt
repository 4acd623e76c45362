-- ===== src/Profiler/Spans.antt =====
-- src/profiler.rs: what a profiler counts through any calls.
use libinger.Base.{
  ℕ, ◌+◌, ◌-◌, ◌%◌, ◌≤◌, ◌<◌, ◌≡◌, refl, sym, ap, ◌∙◌, false, Option, none, some, List, [], ◌∷◌,
  ◌++◌, arith, ◌==◌,
}
use mathlib.Core.List.{append_assoc, append-nil}
use libinger.Profiler.{u64_mod, Profiler, begin, end}

pub data Call : Type 0 where
  beginning ending : ℕ → Call

unfoldable pub run : List Call → Profiler → Profiler
run [] p = p
run (beginning t ∷ xs) p = run xs (begin t p)
run (ending t ∷ xs) p = run xs (end t p).1

-- The plain reading: each end counts the time since the last begin, if there was one since the last
-- end.
abbrev pub spans : Option ℕ → List Call → List ℕ
spans o [] = []
spans o (beginning t ∷ xs) = spans (some t) xs
spans none (ending t ∷ xs) = spans none xs
spans (some b) (ending t ∷ xs) = (t - b) ∷ spans none xs

-- The clock has started, never goes back and does not wrap around.
abbrev pub Forward : ℕ → List Call → Type 0
Forward now [] = Unit {0}
Forward now (beginning t ∷ xs) = (now ≤ t) × (0 < t) × (t < u64_mod) × Forward t xs
Forward now (ending t ∷ xs) = (now ≤ t) × (0 < t) × (t < u64_mod) × Forward t xs

-- The span that is under way.
abbrev pub under_way : Option ℕ → ℕ
under_way none = 0
under_way (some b) = b

abbrev Started : ℕ → Option ℕ → Type 0
Started now none = Unit {0}
Started now (some b) = (0 < b) × (b ≤ now)

elapsed : (t b : ℕ) → b ≤ t → t < u64_mod → (t + u64_mod - b) % u64_mod ≡ t - b
elapsed t b l u = omega arith

end-past :
    (t b : ℕ) (past : List ℕ)
    → 0 < b
    → b ≤ t
    → t < u64_mod
    → (end t (record { past = past; present = b })).1
      ≡ record { past = past ++ (t - b) ∷ []; present = 0 }
unfolding end
end-past t b past q l u =
    let e : (b == 0) ≡ false = ground arith in rw e (rw (elapsed t b l u) refl)

run_from :
    (now : ℕ) (xs : List Call) (o : Option ℕ) (past : List ℕ)
    → Started now o
    → Forward now xs
    → (run xs (record { past = past; present = under_way o })).past ≡ past ++ spans o xs
unfolding run begin end
run_from now [] o past s f = sym (append-nil past)
run_from now (beginning t ∷ xs) o past s (l, p, u, f) =
    run_from t xs (some t) past (p, omega arith) f
run_from now (ending t ∷ xs) none past s (l, p, u, f) = run_from t xs none past tt f
run_from now (ending t ∷ xs) (some b) past (q, r) (l, p, u, f) =
    ap (λ p. (run xs p).past) (end-past t b past q (omega arith) u)
    ∙ run_from t xs none (past ++ (t - b) ∷ []) tt f
    ∙ append_assoc past ((t - b) ∷ []) (spans none xs)

-- Any calls of `begin` and `end` on a new profiler, at times of a clock that has started, does not go
-- back and does not wrap around: what it keeps is, in order, the time from the last begin to each
-- end that follows one.
pub run-spans :
    (xs : List Call)
    → Forward 0 xs
    → (run xs (record { past = []; present = 0 })).past ≡ spans none xs
run-spans xs f = run_from 0 xs none [] tt f

-- A clock that is set back, to a time from which a span is still under way: the end counts a span of
-- more than 2^63 nanoseconds if the clock went back by less than that.
pub end_back :
    (t b : ℕ) (past : List ℕ)
    → t < b
    → b < t + 9223372036854775808
    → b < u64_mod
    → (x : ℕ) × ((end t (record { past = past; present = b })).1.past ≡ past ++ x ∷ [])
      × (9223372036854775808 < x)
unfolding end
end_back t b past l d u =
    let e : (b == 0) ≡ false = ground arith in ((t + u64_mod - b) % u64_mod, rw e refl, omega arith)
