-- ===== src/Common/Overwrites.antt =====
-- Windows that are written into a list.
use Prim.Native.Nat.{ℕ, zero, suc, ◌+◌, ◌-◌, ◌≤◌, ◌<◌}
use mathlib.Core.Path.{◌≡◌, refl, ap, ◌∙◌}
use mathlib.Core.List.{List, [], ◌∷◌, ◌++◌}
use mathlib.Core.Option.{some}
use native.Mathlib.Omega.{arith}
use yanix.Common.Lists.{
  length, get_elem?, get_elem?-within, get_elem?-set_self, get_elem?-set_ne, set, take, drop,
  length-set, length-take, length-drop,
}
use mathlib.Core.Logic.{inl, inr, ◌⊎◌}
use yanix.Common.Slices.{
  slice, overwrite, drop-cons, slice-overwrite, slice-set_past, drop-set_before,
}

module _ {ℓ} {A : Type ℓ} where
  set-set : (xs : List A) (i : ℕ) (a b : A) → set (set xs i a) i b ≡ set xs i b
  set-set [] i a b = refl
  set-set (x ∷ xs) zero a b = refl
  set-set (x ∷ xs) (suc i) a b = ap (λ t. x ∷ t) (set-set xs i a b)

  set_comm : (xs : List A) (i k : ℕ) (a b : A) → i < k → set (set xs k a) i b ≡ set (set xs i b) k a
  set_comm [] i k a b lt = refl
  set_comm (x ∷ xs) i zero a b lt = absurd (omega arith)
  set_comm (x ∷ xs) zero (suc k) a b lt = refl
  set_comm (x ∷ xs) (suc i) (suc k) a b lt = ap (λ t. x ∷ t) (set_comm xs i k a b (omega arith))

  set_same : (xs : List A) (i : ℕ) (a : A) → get_elem? xs i ≡ some a → set xs i a ≡ xs
  set_same [] i a h = refl
  set_same (x ∷ xs) zero a h = ground (arith, h)
  set_same (x ∷ xs) (suc i) a h = ap (λ t. x ∷ t) (set_same xs i a h)

  set-overwrite :
      (ys xs : List A) (i k : ℕ) (b : A)
      → i < k
      → set (overwrite xs k ys) i b ≡ overwrite (set xs i b) k ys
  set-overwrite [] xs i k b lt = refl
  set-overwrite (y ∷ ys) xs i k b lt =
      set-overwrite ys (set xs k y) i (suc k) b (omega arith)
      ∙ ap (λ t. overwrite t (suc k) ys) (set_comm xs i k y b lt)

  overwrite-set :
      (ys xs : List A) (a j : ℕ) (b : A)
      → j < length ys
      → overwrite xs a (set ys j b) ≡ set (overwrite xs a ys) (a + j) b
  overwrite-set [] xs a j b lt = absurd (omega arith)
  overwrite-set (y ∷ ys) xs a zero b lt =
      let e : a + 0 ≡ a = omega arith in
      rw (e, set-overwrite ys (set xs a y) a (suc a) b (omega arith), set-set xs a y b) refl
  overwrite-set (y ∷ ys) xs a (suc j) b lt =
      let e : a + suc j ≡ suc a + j = omega arith in
      rw (e) (overwrite-set ys (set xs a y) (suc a) j b (omega arith))

  -- A window that is changed before it is written is a window and then the change.
  overwrite-overwrite :
      (zs ys xs : List A) (a j : ℕ)
      → j + length zs ≤ length ys
      → overwrite xs a (overwrite ys j zs) ≡ overwrite (overwrite xs a ys) (a + j) zs
  overwrite-overwrite [] ys xs a j le = refl
  overwrite-overwrite (z ∷ zs) ys xs a j le =
      let e : a + suc j ≡ suc (a + j) = omega arith in
      let long = length-set ys j z in
      overwrite-overwrite zs (set ys j z) xs a (suc j) (omega arith)
      ∙ rw (e, overwrite-set ys xs a j z (omega arith)) refl

  overwrite_same :
      (n : ℕ) (xs : List A) (a : ℕ) → a + n ≤ length xs → overwrite xs a (take n (drop a xs)) ≡ xs
  overwrite_same zero xs a le = refl
  overwrite_same (suc n) xs a le =
      let (x, at) = get_elem?-within xs a (omega arith) in
      ap (λ t. overwrite xs a (take (suc n) t)) (drop-cons xs a at)
      ∙ ap (λ t. overwrite t (suc a) (take n (drop (suc a) xs))) (set_same xs a x at)
      ∙ overwrite_same n xs (suc a) (omega arith)

  pub overwrite-append :
      (ys zs xs : List A) (i : ℕ)
      → overwrite xs i (ys ++ zs) ≡ overwrite (overwrite xs i ys) (i + length ys) zs
  overwrite-append [] zs xs i = let e : i + 0 ≡ i = omega arith in rw e refl
  overwrite-append (y ∷ ys) zs xs i =
      let e : i + suc (length ys) ≡ suc i + length ys = omega arith in
      rw (e) (overwrite-append ys zs (set xs i y) (suc i))

  -- A window that is read, changed at its start and written back.
  pub overwrite-slice :
      (xs zs : List A) (a n : ℕ)
      → a + n ≤ length xs
      → length zs ≤ n
      → overwrite xs a (overwrite (slice xs a (a + n)) 0 zs) ≡ overwrite xs a zs
  overwrite-slice xs zs a n le fits =
      let e : a + n - a ≡ n = omega arith in
      let f : a + 0 ≡ a = omega arith in
      let window = length-take n (drop a xs) in
      let rest = length-drop a xs in
      rw (e) (
        overwrite-overwrite zs (take n (drop a xs)) xs a 0 (omega arith)
        ∙ rw (f, overwrite_same n xs a le) refl)

  slice-set_past_end :
      (xs : List A) (i j e : ℕ) (a : A) → j ≤ e → i ≤ j → slice (set xs e a) i j ≡ slice xs i j
  slice-set_past_end xs i j e a le h = slice-set_past xs i j e a (omega arith) le

  -- What was written is read back.
  pub slice-overwrite_self :
      (ys xs : List A) (a : ℕ)
      → a + length ys ≤ length xs
      → slice (overwrite xs a ys) a (a + length ys) ≡ ys
  slice-overwrite_self ys xs a le =
      let e : a - a ≡ 0 = omega arith in
      slice-overwrite ys xs a a (omega arith) le ∙ ap (λ n. take n (drop a xs) ++ ys) e

  -- A window apart from what was written is as it was.
  pub slice-overwrite_apart :
      (ys xs : List A) (a i j : ℕ)
      → (j ≤ a) ⊎ (a + length ys ≤ i)
      → i ≤ j
      → slice (overwrite xs a ys) i j ≡ slice xs i j
  slice-overwrite_apart [] xs a i j away le = refl
  slice-overwrite_apart (y ∷ ys) xs a i j away le = elim away [
    | inl past ↦
        slice-overwrite_apart ys (set xs a y) (suc a) i j (inl (omega arith)) le
        ∙ slice-set_past_end xs i j a y past le
    | inr before ↦
        slice-overwrite_apart ys (set xs a y) (suc a) i j (inr (omega arith)) le
        ∙ ap (take (j - i)) (drop-set_before xs i a y (omega arith))
  ]

  get_elem?-overwrite_before :
      (ys xs : List A) (a i : ℕ) → i < a → get_elem? (overwrite xs a ys) i ≡ get_elem? xs i
  get_elem?-overwrite_before [] xs a i lt = refl
  get_elem?-overwrite_before (y ∷ ys) xs a i lt =
      get_elem?-overwrite_before ys (set xs a y) (suc a) i (omega arith)
      ∙ get_elem?-set_ne xs a i y (λ e. omega (arith, e))

  pub get_elem?-overwrite :
      (ys xs : List A) (a k : ℕ)
      → k < length ys
      → a + length ys ≤ length xs
      → get_elem? (overwrite xs a ys) (a + k) ≡ get_elem? ys k
  get_elem?-overwrite [] xs a k lt le = absurd (omega arith)
  get_elem?-overwrite (y ∷ ys) xs a zero lt le =
      let e : a + 0 ≡ a = omega arith in
      rw (e) (
        get_elem?-overwrite_before ys (set xs a y) (suc a) a (omega arith)
        ∙ get_elem?-set_self xs a y (omega arith))
  get_elem?-overwrite (y ∷ ys) xs a (suc k) lt le =
      let e : a + suc k ≡ suc a + k = omega arith in
      let long = length-set xs a y in
      rw (e) (get_elem?-overwrite ys (set xs a y) (suc a) k (omega arith) (omega arith))

  pub get_elem?-overwrite_after :
      (ys xs : List A) (a i : ℕ)
      → a + length ys ≤ i
      → get_elem? (overwrite xs a ys) i ≡ get_elem? xs i
  get_elem?-overwrite_after [] xs a i le = refl
  get_elem?-overwrite_after (y ∷ ys) xs a i le =
      get_elem?-overwrite_after ys (set xs a y) (suc a) i (omega arith)
      ∙ get_elem?-set_ne xs a i y (λ e. omega (arith, e))
