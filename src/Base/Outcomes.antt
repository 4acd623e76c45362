-- ===== src/Base/Outcomes.antt =====
-- Results as values: `Result` for the standard library's type of that name, and `Exec` for code
-- that may also leave by a panic or stop the process by an abort.
use mathlib.Core.Path.{◌≡◌, refl}

pub data Result {ℓ κ} (A : Type ℓ) (E : Type κ) : Type (ℓ ⊔ κ) where
  ok : A → Result A E
  err : E → Result A E

-- A run of the code: it returns, it unwinds with a panic, it aborts the process, its behaviour is
-- undefined, or it is still running when the events that it is given end.
pub data Exec {ℓ} (A : Type ℓ) : Type ℓ where
  returns : A → Exec A
  panics : Exec A
  aborts : Exec A
  undefined : Exec A
  runs_on : Exec A

infixl 5 ◌>>=◌
abbrev pub ◌>>=◌ {ℓ κ} : {A : Type ℓ} {B : Type κ} → Exec A → (A → Exec B) → Exec B
returns a >>= f = f a
panics >>= f = panics
aborts >>= f = aborts
undefined >>= f = undefined
runs_on >>= f = runs_on

-- The run returns, and what it returns meets `P`; or it is still on its way when the events end,
-- which is only so if `R`.
abbrev pub Meets : {A : Type 0} → Type 0 → (A → Type 0) → Exec A → Type 0
Meets R P (returns a) = P a
Meets R P panics = ⊥
Meets R P aborts = ⊥
Meets R P undefined = ⊥
Meets R P runs_on = R

-- The run returns, and what it returns meets `P`.
abbrev pub Ensures : {A : Type 0} → (A → Type 0) → Exec A → Type 0
Ensures P x = Meets ⊥ P x

-- The run returns so, or is still on its way when the events end.
abbrev pub Safe : {A : Type 0} → (A → Type 0) → Exec A → Type 0
Safe P x = Meets (Unit {0}) P x

module _ (R : Type 0) {A B : Type 0} (P : A → Type 0) (Q : B → Type 0) where
  pub Ensures->>= :
      (x : Exec A) (f : A → Exec B)
      → Ensures P x
      → ((a : A) → P a → Meets R Q (f a))
      → Meets R Q (x >>= f)
  Ensures->>= (returns a) f h k = k a h
  Ensures->>= panics f h k = absurd h
  Ensures->>= aborts f h k = absurd h
  Ensures->>= undefined f h k = absurd h
  Ensures->>= runs_on f h k = absurd h

  pub Meets->>= :
      (x : Exec A) (f : A → Exec B)
      → Meets R P x
      → ((a : A) → P a → Meets R Q (f a))
      → Meets R Q (x >>= f)
  Meets->>= (returns a) f h k = k a h
  Meets->>= panics f h k = absurd h
  Meets->>= aborts f h k = absurd h
  Meets->>= undefined f h k = absurd h
  Meets->>= runs_on f h k = h

-- To have more to say of a run that ends with the events, or nothing at all.
pub Meets-mono :
    (Q R : Type 0) {A : Type 0} (P : A → Type 0) (x : Exec A) → (Q → R) → Meets Q P x → Meets R P x
Meets-mono Q R P (returns a) k h = h
Meets-mono Q R P panics k h = h
Meets-mono Q R P aborts k h = h
Meets-mono Q R P undefined k h = h
Meets-mono Q R P runs_on k h = k h

-- To have less to say of what is returned.
pub Meets-imp :
    (R : Type 0) {A : Type 0} (P Q : A → Type 0) (x : Exec A)
    → Meets R P x
    → ((a : A) → P a → Q a)
    → Meets R Q x
Meets-imp R P Q (returns a) h k = k a h
Meets-imp R P Q panics h k = h
Meets-imp R P Q aborts h k = h
Meets-imp R P Q undefined h k = h
Meets-imp R P Q runs_on h k = h

pub Meets-of_Ensures :
    (R : Type 0) {A : Type 0} (P : A → Type 0) (x : Exec A) → Ensures P x → Meets R P x
Meets-of_Ensures R P x h = Meets-mono ⊥ R P x (λ a. absurd a) h

pub Ensures-returns :
    {A : Type 0} (P : A → Type 0) (x : Exec A) → Ensures P x → (a : A) × (x ≡ returns a) × P a
Ensures-returns P (returns a) h = (a, refl, h)
Ensures-returns P panics h = absurd h
Ensures-returns P aborts h = absurd h
Ensures-returns P undefined h = absurd h
Ensures-returns P runs_on h = absurd h

-- If the run returns, what it returns meets `P`.
abbrev pub Allows : {A : Type 0} → (A → Type 0) → Exec A → Type 0
Allows P (returns a) = P a
Allows P panics = Unit {0}
Allows P aborts = Unit {0}
Allows P undefined = Unit {0}
Allows P runs_on = Unit {0}

pub Allows->>= :
    {A B : Type 0} (P : A → Type 0) (Q : B → Type 0) (x : Exec A) (f : A → Exec B)
    → Allows P x
    → ((a : A) → P a → Allows Q (f a))
    → Allows Q (x >>= f)
Allows->>= P Q (returns a) f h k = k a h
Allows->>= P Q panics f h k = tt
Allows->>= P Q aborts f h k = tt
Allows->>= P Q undefined f h k = tt
Allows->>= P Q runs_on f h k = tt

pub Ensures-Allows :
    {A : Type 0} (P Q : A → Type 0) (x : Exec A)
    → Ensures P x
    → Allows Q x
    → Ensures (λ a. P a × Q a) x
Ensures-Allows P Q (returns a) h k = (h, k)
Ensures-Allows P Q panics h k = absurd h
Ensures-Allows P Q aborts h k = absurd h
Ensures-Allows P Q undefined h k = absurd h
Ensures-Allows P Q runs_on h k = absurd h

pub Allows->>=_any :
    {A B : Type 0} (Q : B → Type 0) (x : Exec A) (f : A → Exec B)
    → ((a : A) → Allows Q (f a))
    → Allows Q (x >>= f)
Allows->>=_any Q (returns a) f k = k a
Allows->>=_any Q panics f k = tt
Allows->>=_any Q aborts f k = tt
Allows->>=_any Q undefined f k = tt
Allows->>=_any Q runs_on f k = tt

pub Meets-Allows :
    (R : Type 0) {A : Type 0} (P : A → Type 0) (x : Exec A) → Meets R P x → Allows P x
Meets-Allows R P (returns a) h = h
Meets-Allows R P panics h = tt
Meets-Allows R P aborts h = tt
Meets-Allows R P undefined h = tt
Meets-Allows R P runs_on h = tt

pub Meets-and :
    (R : Type 0) {A : Type 0} (P Q : A → Type 0) (x : Exec A)
    → Meets R P x
    → Allows Q x
    → Meets R (λ a. P a × Q a) x
Meets-and R P Q (returns a) h k = (h, k)
Meets-and R P Q panics h k = h
Meets-and R P Q aborts h k = h
Meets-and R P Q undefined h k = h
Meets-and R P Q runs_on h k = h

-- A run that is safe and comes back has both properties.
pub Safe-Ensures :
    {A : Type 0} (P Q : A → Type 0) (x : Exec A)
    → Safe P x
    → Ensures Q x
    → Ensures (λ a. P a × Q a) x
Safe-Ensures P Q (returns a) h k = (h, k)
Safe-Ensures P Q panics h k = k
Safe-Ensures P Q aborts h k = k
Safe-Ensures P Q undefined h k = k
Safe-Ensures P Q runs_on h k = k
