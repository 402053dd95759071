-- ===== src/Common/Windows.antt =====
-- Lists in parts: windows of two lists one after the other, and a part that is replaced.
use Prim.Native.Nat.{ℕ, zero, suc, ◌+◌, ◌<◌}
use mathlib.Core.Path.{◌≡◌, refl, ap, ◌∙◌}
use mathlib.Core.List.{List, [], ◌∷◌, ◌++◌}
use mathlib.Core.Option.{some}
use native.Mathlib.Omega.{arith}
use yanix.Common.Lists.{length, get_elem?, set, take, drop}
use yanix.Common.Slices.{overwrite}
use yanix.Common.Faults.{none_ne_some}

module _ {ℓ} {A : Type ℓ} where
  pub take-drop : (n : ℕ) (xs : List A) → take n xs ++ drop n xs ≡ xs
  take-drop zero xs = refl
  take-drop (suc n) [] = refl
  take-drop (suc n) (x ∷ xs) = ap (λ t. x ∷ t) (take-drop n xs)

  pub take-append : (xs ys : List A) (n : ℕ) → length xs ≡ n → take n (xs ++ ys) ≡ xs
  take-append [] ys zero e = refl
  take-append [] ys (suc n) e = absurd (omega (arith, e))
  take-append (x ∷ xs) ys zero e = absurd (omega (arith, e))
  take-append (x ∷ xs) ys (suc n) e = ap (λ t. x ∷ t) (take-append xs ys n (omega (arith, e)))

  pub drop-append : (xs ys : List A) (n : ℕ) → length xs ≡ n → drop n (xs ++ ys) ≡ ys
  drop-append [] ys zero e = refl
  drop-append [] ys (suc n) e = absurd (omega (arith, e))
  drop-append (x ∷ xs) ys zero e = absurd (omega (arith, e))
  drop-append (x ∷ xs) ys (suc n) e = drop-append xs ys n (omega (arith, e))

  pub get_elem?-take :
      (xs : List A) (n i : ℕ) {a : A}
      → get_elem? (take n xs) i ≡ some a
      → (i < n) × (get_elem? xs i ≡ some a)
  get_elem?-take [] zero i e = absurd (none_ne_some e)
  get_elem?-take [] (suc n) i e = absurd (none_ne_some e)
  get_elem?-take (x ∷ xs) zero i e = absurd (none_ne_some e)
  get_elem?-take (x ∷ xs) (suc n) zero e = (omega arith, e)
  get_elem?-take (x ∷ xs) (suc n) (suc i) e =
      let (lt, at) = get_elem?-take xs n i e in (omega (arith, lt), at)

  pub get_elem?-drop : (xs : List A) (n i : ℕ) → get_elem? (drop n xs) i ≡ get_elem? xs (n + i)
  get_elem?-drop xs zero i = let e : i ≡ zero + i = omega arith in ap (get_elem? xs) e
  get_elem?-drop [] (suc n) i = refl
  get_elem?-drop (x ∷ xs) (suc n) i =
      let e : suc (n + i) ≡ suc n + i = omega arith in
      get_elem?-drop xs n i ∙ ap (get_elem? (x ∷ xs)) e

  overwrite_behind :
      (ys xs : List A) (x : A) (i : ℕ) → overwrite (x ∷ xs) (suc i) ys ≡ x ∷ overwrite xs i ys
  overwrite_behind [] xs x i = refl
  overwrite_behind (y ∷ ys) xs x i = overwrite_behind ys (set xs i y) x (suc i)

  overwrite_front :
      (ys xs zs : List A) → length ys ≡ length xs → overwrite (xs ++ zs) 0 ys ≡ ys ++ zs
  overwrite_front [] [] zs e = refl
  overwrite_front [] (x ∷ xs) zs e = absurd (omega (arith, e))
  overwrite_front (y ∷ ys) [] zs e = absurd (omega (arith, e))
  overwrite_front (y ∷ ys) (x ∷ xs) zs e =
      overwrite_behind ys (xs ++ zs) y 0
      ∙ ap (λ t. y ∷ t) (overwrite_front ys xs zs (omega (arith, e)))

  -- A part between two others is replaced by one of its length.
  pub overwrite_middle :
      (ws xs ys zs : List A) (n : ℕ)
      → length ws ≡ n
      → length ys ≡ length xs
      → overwrite (ws ++ (xs ++ zs)) n ys ≡ ws ++ (ys ++ zs)
  overwrite_middle [] xs ys zs zero e long = overwrite_front ys xs zs long
  overwrite_middle [] xs ys zs (suc n) e long = absurd (omega (arith, e))
  overwrite_middle (w ∷ ws) xs ys zs zero e long = absurd (omega (arith, e))
  overwrite_middle (w ∷ ws) xs ys zs (suc n) e long =
      overwrite_behind ys (ws ++ (xs ++ zs)) w n
      ∙ ap (λ t. w ∷ t) (overwrite_middle ws xs ys zs n (omega (arith, e)) long)
