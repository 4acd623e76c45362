-- ===== src/Base/Lists.antt =====
-- Lists measured and indexed by native numbers, under the library's names.
use Prim.Native.Nat.{ℕ, zero, suc, ◌+◌, ◌≤◌}
use mathlib.Core.Path.{◌≡◌, refl, ap, ◌∙◌, subst}
use mathlib.Core.List.{List, [], ◌∷◌, ◌++◌, reverse, reverse-cons}
use mathlib.Core.List.{Perm}
use mathlib.Core.List.{Permᴰ}
use mathlib.Core.Logic.{∥∥₁_elim}
use native.Mathlib.Nat.{ℕ_set}
use mathlib.Core.List.Perm
use mathlib.Core.Option.{Option, none, some}
use native.Mathlib.Omega.{arith}

module _ {ℓ} {A : Type ℓ} where
  abbrev pub length : List A → ℕ
  length [] = 0
  length (x ∷ xs) = suc (length xs)

  abbrev pub get_elem? : List A → ℕ → Option A
  get_elem? [] i = none
  get_elem? (x ∷ xs) zero = some x
  get_elem? (x ∷ xs) (suc i) = get_elem? xs i

  abbrev pub erase_idx : List A → ℕ → List A
  erase_idx [] i = []
  erase_idx (x ∷ xs) zero = xs
  erase_idx (x ∷ xs) (suc i) = x ∷ erase_idx xs i

  abbrev pub take : ℕ → List A → List A
  take zero xs = []
  take (suc n) [] = []
  take (suc n) (x ∷ xs) = x ∷ take n xs

  pub length-append : (xs ys : List A) → length (xs ++ ys) ≡ length xs + length ys
  length-append [] ys = omega arith
  length-append (x ∷ xs) ys = omega (arith, length-append xs ys)

  pub length-reverse : (xs : List A) → length (reverse xs) ≡ length xs
  length-reverse [] = refl
  length-reverse (x ∷ xs) =
      omega (
        arith,
        ap length (reverse-cons x xs),
        length-append (reverse xs) (x ∷ []),
        length-reverse xs,
      )

  -- Taking one entry out of a list, up to order.
  pub perm-erase_idx :
      (xs : List A) (i : ℕ) {x : A} → get_elem? xs i ≡ some x → Perm xs (x ∷ erase_idx xs i)
  perm-erase_idx [] i e = cc
  perm-erase_idx (y ∷ ys) zero e = Perm.cons' (ground arith) Perm.rfl
  perm-erase_idx (y ∷ ys) (suc i) {x} e =
      Perm.trans (Perm.cons y (perm-erase_idx ys i e)) (Perm.swap x y _)

  pub take-suc :
      (n : ℕ) (xs : List A) {x : A}
      → get_elem? xs n ≡ some x
      → Perm (take (suc n) xs) (x ∷ take n xs)
  take-suc n [] e = cc
  take-suc zero (y ∷ ys) e = Perm.cons' (ground arith) Perm.rfl
  take-suc (suc n) (y ∷ ys) {x} e = Perm.trans (Perm.cons y (take-suc n ys e)) (Perm.swap x y _)

  pub take_rest : (n : ℕ) (xs : List A) → (rest : List A) × (xs ≡ take n xs ++ rest)
  take_rest zero xs = (xs, refl)
  take_rest (suc n) [] = ([], refl)
  take_rest (suc n) (x ∷ xs) = let (r, e) = take_rest n xs in (r, ap (◌∷◌ x) e)

  pub length-take_le : (n : ℕ) (xs : List A) → length (take n xs) ≤ length xs
  length-take_le n xs =
      let (r, e) = take_rest n xs in omega (arith, ap length e, length-append (take n xs) r)

  pub take-length_le : (n : ℕ) (xs : List A) → length xs ≤ n → take n xs ≡ xs
  take-length_le zero [] h = refl
  take-length_le zero (x ∷ xs) h = absurd (omega arith)
  take-length_le (suc n) [] h = refl
  take-length_le (suc n) (x ∷ xs) h = ap (◌∷◌ x) (take-length_le n xs (omega arith))

  pub take_stop :
      (n : ℕ) (xs : List A) → get_elem? xs n ≡ none → (take (suc n) xs ≡ xs) × (take n xs ≡ xs)
  take_stop zero [] e = (refl, refl)
  take_stop (suc n) [] e = (refl, refl)
  take_stop zero (x ∷ xs) e = cc
  take_stop (suc n) (x ∷ xs) e = let (p, q) = take_stop n xs e in (ap (◌∷◌ x) p, ap (◌∷◌ x) q)

  perm_derivation-length : {xs ys : List A} → Permᴰ xs ys → length xs ≡ length ys
  perm_derivation-length Permᴰ.nil = refl
  perm_derivation-length (Permᴰ.cons e p) = ap suc (perm_derivation-length p)
  perm_derivation-length (Permᴰ.swap e f) = refl
  perm_derivation-length (Permᴰ.trans p q) = perm_derivation-length p ∙ perm_derivation-length q

  pub perm-length : {xs ys : List A} → Perm xs ys → length xs ≡ length ys
  perm-length p = ∥∥₁_elim p (ℕ_set _ _) perm_derivation-length

-- What holds of every entry.
abbrev pub All {ℓ κ} : {A : Type ℓ} → (A → Type κ) → List A → Type κ
All P [] = Unit
All P (x ∷ xs) = P x × All P xs

abbrev pub replicate {ℓ} : {A : Type ℓ} → ℕ → A → List A
replicate zero x = []
replicate (suc n) x = x ∷ replicate n x

module _ {ℓ κ} {A : Type ℓ} (P : A → Type κ) where
  pub All-get_elem? : (xs : List A) (i : ℕ) {x : A} → All P xs → get_elem? xs i ≡ some x → P x
  All-get_elem? [] i h e = cc
  All-get_elem? (y ∷ ys) zero {x} h e = let same : y ≡ x = cc in subst P same h.0
  All-get_elem? (y ∷ ys) (suc i) h e = All-get_elem? ys i h.1 e

  pub All-erase_idx : (xs : List A) (i : ℕ) → All P xs → All P (erase_idx xs i)
  All-erase_idx [] i h = h
  All-erase_idx (y ∷ ys) zero h = h.1
  All-erase_idx (y ∷ ys) (suc i) h = (h.0, All-erase_idx ys i h.1)

  pub All-append : (xs ys : List A) → All P xs → All P ys → All P (xs ++ ys)
  All-append [] ys h k = k
  All-append (x ∷ xs) ys h k = (h.0, All-append xs ys h.1 k)

  pub All-reverse : (xs : List A) → All P xs → All P (reverse xs)
  All-reverse [] h = h
  All-reverse (x ∷ xs) h =
      rw (reverse-cons x xs) (All-append (reverse xs) (x ∷ []) (All-reverse xs h.1) (h.0, tt))

  pub All-replicate : (n : ℕ) (x : A) → P x → All P (replicate n x)
  All-replicate zero x h = tt
  All-replicate (suc n) x h = (h, All-replicate n x h)

pub length-replicate {ℓ} : {A : Type ℓ} (n : ℕ) (x : A) → length (replicate n x) ≡ n
length-replicate zero x = refl
length-replicate (suc n) x = ap suc (length-replicate n x)
