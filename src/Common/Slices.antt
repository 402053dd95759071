-- ===== src/Common/Slices.antt =====
-- Windows of a list: `take` and `drop` together, and writes at an index of the window.
use Prim.Native.Nat.{ℕ, zero, suc, ◌+◌, ◌-◌, ◌≤◌, ◌<◌}
use mathlib.Core.Path.{◌≡◌, refl, sym, ap, ◌∙◌}
use mathlib.Core.List.{List, [], ◌∷◌, ◌++◌, append-nil, append_assoc}
use mathlib.Core.Option.{some}
use native.Mathlib.Omega.{arith}
use yanix.Common.Lists.{length, get_elem?, set, take, drop, length-set}

module _ {ℓ} {A : Type ℓ} where
  -- The elements of `xs` from `i` up to `j`.
  abbrev pub slice : List A → ℕ → ℕ → List A
  slice xs i j = take (j - i) (drop i xs)

  pub drop-cons :
      (xs : List A) (i : ℕ) {a : A} → get_elem? xs i ≡ some a → drop i xs ≡ a ∷ drop (suc i) xs
  drop-cons [] i h = ground arith
  drop-cons (x ∷ xs) zero h = ground arith
  drop-cons (x ∷ xs) (suc i) h = drop-cons xs i h

  drop-nil : (n : ℕ) → drop {A = A} n [] ≡ []
  drop-nil zero = refl
  drop-nil (suc n) = refl

  take-nil : (n : ℕ) → take {A = A} n [] ≡ []
  take-nil zero = refl
  take-nil (suc n) = refl

  pub drop-drop : (xs : List A) (i k : ℕ) → drop k (drop i xs) ≡ drop (i + k) xs
  drop-drop xs zero k = ap (λ n. drop n xs) {x = k} (omega arith)
  drop-drop [] (suc i) k = drop-nil k ∙ sym (drop-nil (suc i + k))
  drop-drop (x ∷ xs) (suc i) k =
      drop-drop xs i k ∙ ap (λ n. drop n (x ∷ xs)) {x = suc (i + k)} (omega arith)

  pub drop-take : (xs : List A) (n k : ℕ) → drop k (take n xs) ≡ take (n - k) (drop k xs)
  drop-take xs n zero = ap (λ m. take m xs) {x = n} (omega arith)
  drop-take xs zero (suc k) = ap (λ m. take m (drop (suc k) xs)) {x = 0} (omega arith)
  drop-take [] (suc n) (suc k) = sym (take-nil (suc n - suc k))
  drop-take (x ∷ xs) (suc n) (suc k) =
      drop-take xs n k ∙ ap (λ m. take m (drop k xs)) {x = n - k} (omega arith)

  pub take-take : (xs : List A) (n k : ℕ) → k ≤ n → take k (take n xs) ≡ take k xs
  take-take xs n zero h = refl
  take-take xs zero (suc k) h = absurd (omega arith)
  take-take [] (suc n) (suc k) h = refl
  take-take (x ∷ xs) (suc n) (suc k) h = ap (λ t. x ∷ t) (take-take xs n k (omega arith))

  pub take-set_last :
      (xs : List A) (e : ℕ) (a : A)
      → e < length xs
      → take (suc e) (set xs e a) ≡ take e xs ++ a ∷ []
  take-set_last [] e a h = absurd (omega arith)
  take-set_last (x ∷ xs) zero a h = refl
  take-set_last (x ∷ xs) (suc e) a h = ap (λ t. x ∷ t) (take-set_last xs e a (omega arith))

  -- Writing just past a window extends it.
  pub slice-set :
      (xs : List A) (b e : ℕ) (a : A)
      → b ≤ e
      → e < length xs
      → slice (set xs e a) b (suc e) ≡ slice xs b e ++ a ∷ []
  slice-set [] b e a h lt = absurd (omega arith)
  slice-set (x ∷ xs) zero e a h lt = ground (arith, take-set_last (x ∷ xs) e a)
  slice-set (x ∷ xs) (suc b) zero a h lt = absurd (omega arith)
  slice-set (x ∷ xs) (suc b) (suc e) a h lt = ground (arith, slice-set xs b e a)

  -- The list with `ys` written from index `i` on.
  abbrev pub overwrite : List A → ℕ → List A → List A
  overwrite xs i [] = xs
  overwrite xs i (y ∷ ys) = overwrite (set xs i y) (suc i) ys

  pub length-overwrite :
      (xs : List A) (i : ℕ) (ys : List A) → length (overwrite xs i ys) ≡ length xs
  length-overwrite xs i [] = refl
  length-overwrite xs i (y ∷ ys) = length-overwrite (set xs i y) (suc i) ys ∙ length-set xs i y

  pub slice-overwrite :
      (ys xs : List A) (b e : ℕ)
      → b ≤ e
      → e + length ys ≤ length xs
      → slice (overwrite xs e ys) b (e + length ys) ≡ slice xs b e ++ ys
  slice-overwrite [] xs b e h le = ground (arith, append-nil (slice xs b e))
  slice-overwrite (y ∷ ys) xs b e h le = ground (
    arith,
    slice-overwrite ys (set xs e y) b (suc e),
    length-set xs e y,
    slice-set xs b e y,
    append_assoc (slice xs b e) (y ∷ []) ys,
  )

  pub drop-slice : (xs : List A) (i j n : ℕ) → drop n (slice xs i j) ≡ slice xs (i + n) j
  drop-slice xs i j n =
      drop-take (drop i xs) (j - i) n
      ∙ ap (λ t. take (j - i - n) t) (drop-drop xs i n)
      ∙ ap (λ k. take k (drop (i + n) xs)) {x = j - i - n} (omega arith)

  take-set_past : (xs : List A) (n e : ℕ) (a : A) → n ≤ e → take n (set xs e a) ≡ take n xs
  take-set_past xs zero e a h = refl
  take-set_past [] (suc n) e a h = refl
  take-set_past (x ∷ xs) (suc n) zero a h = absurd (omega arith)
  take-set_past (x ∷ xs) (suc n) (suc e) a h =
      ap (λ t. x ∷ t) (take-set_past xs n e a (omega arith))

  -- A write at or past the end of a window leaves it.
  pub slice-set_past :
      (xs : List A) (i j e : ℕ) (a : A) → i ≤ e → j ≤ e → slice (set xs e a) i j ≡ slice xs i j
  slice-set_past [] i j e a h le = refl
  slice-set_past (x ∷ xs) zero j e a h le = take-set_past (x ∷ xs) (j - 0) e a (omega arith)
  slice-set_past (x ∷ xs) (suc i) j zero a h le = absurd (omega arith)
  slice-set_past (x ∷ xs) (suc i) zero (suc e) a h le =
      ap (λ k. take k (drop i (set xs e a))) {x = 0 - suc i} {y = 0} (omega arith)
      ∙ ap (λ k. take k (drop i xs)) {x = 0} {y = 0 - suc i} (omega arith)
  slice-set_past (x ∷ xs) (suc i) (suc j) (suc e) a h le =
      ap (λ k. take k (drop i (set xs e a))) {x = suc j - suc i} {y = j - i} (omega arith)
      ∙ slice-set_past xs i j e a (omega arith) (omega arith)
      ∙ ap (λ k. take k (drop i xs)) {x = j - i} {y = suc j - suc i} (omega arith)

  pub drop-set_before : (xs : List A) (n e : ℕ) (a : A) → e < n → drop n (set xs e a) ≡ drop n xs
  drop-set_before xs zero e a h = absurd (omega arith)
  drop-set_before [] (suc n) e a h = refl
  drop-set_before (x ∷ xs) (suc n) zero a h = refl
  drop-set_before (x ∷ xs) (suc n) (suc e) a h = drop-set_before xs n e a (omega arith)
