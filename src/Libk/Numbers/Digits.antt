-- ===== src/Libk/Numbers/Digits.antt =====
-- The decimal digits of a number, as `itoa` and `int_to_string` write them and `atoi` reads them.
use yanix.Common.{
  ℕ, zero, suc, ◌+◌, ◌-◌, ◌*◌, ◌/◌, ◌%◌, ◌^◌, ◌≤◌, ◌<◌, ◌≡◌, refl, ◌∙◌, some, List, [], ◌∷◌, ◌++◌,
  arith, ltb, if◌then◌else◌, length, lt→ltb, le→ltb, ne→==,
}
use native.Mathlib.Decide.{dec_lt}
use yanix.Libk.Memory.{Memory}
use yanix.Libk.Strings.Terminated.{Str}
use yanix.Libk.Strings.Reverse.{rev, Plain}
use yanix.Libk.Numbers.{digit0, digit9, atoi_loop}

-- The digits of `n`, the lowest first, up to `k` of them.
abbrev pub low_digits : (k n : ℕ) → List ℕ
low_digits zero n = []
low_digits (suc k) n =
    let rest = low_digits k (n / 10) in (digit0 + n % 10) ∷ (if ltb 0 (n / 10) then rest else [])

pub low_digits-more :
    (k n : ℕ) → 0 < n / 10 → low_digits (suc k) n ≡ (digit0 + n % 10) ∷ low_digits k (n / 10)
low_digits-more k n more = rw (lt→ltb 0 (n / 10) more) refl

pub low_digits-last : (k n : ℕ) → n / 10 ≤ 0 → low_digits (suc k) n ≡ (digit0 + n % 10) ∷ []
low_digits-last k n last = rw (le→ltb 0 (n / 10) last) refl

pub low_digits-pos : (k n : ℕ) → 0 < k → 0 < length (low_digits k n)
low_digits-pos zero n lt = lt
low_digits-pos (suc k) n lt = omega arith

-- The numeral, the highest digit first.
abbrev pub decimal : ℕ → List ℕ
decimal n = rev (low_digits (suc n) n)

abbrev pub Digits : List ℕ → Type 0
Digits [] = Unit {0}
Digits (x ∷ xs) = (digit0 ≤ x) × (x ≤ digit9) × Digits xs

-- The number that digits, the highest first, add to `num`.
abbrev pub value : (num : ℕ) → List ℕ → ℕ
value num [] = num
value num (x ∷ xs) = value (num * 10 + (x - digit0)) xs

low_digits-Digits : (k n : ℕ) → Digits (low_digits k n)
low_digits-Digits zero n = tt
low_digits-Digits (suc k) n = elim (dec_lt 0 (n / 10)) [
  | yes more ↦
      (omega arith, omega arith, rw (lt→ltb 0 (n / 10) more) (low_digits-Digits k (n / 10)))
  | no last ↦ (omega arith, omega arith, rw (le→ltb 0 (n / 10) (omega arith)) tt)
]

Digits-append : (xs ys : List ℕ) → Digits xs → Digits ys → Digits (xs ++ ys)
Digits-append [] ys h g = g
Digits-append (x ∷ xs) ys (lo, hi, h) g = (lo, hi, Digits-append xs ys h g)

Digits-rev : (xs : List ℕ) → Digits xs → Digits (rev xs)
Digits-rev [] h = tt
Digits-rev (x ∷ xs) (lo, hi, h) = Digits-append (rev xs) (x ∷ []) (Digits-rev xs h) (lo, hi, tt)

pub decimal-Digits : (n : ℕ) → Digits (decimal n)
decimal-Digits n = Digits-rev (low_digits (suc n) n) (low_digits-Digits (suc n) n)

pub Digits-Plain : (xs : List ℕ) → Digits xs → Plain xs
Digits-Plain [] h = tt
Digits-Plain (x ∷ xs) (lo, hi, h) = (λ e. omega (arith, e, lo), Digits-Plain xs h)

pub low_digits-Plain : (k n : ℕ) → Plain (low_digits k n)
low_digits-Plain k n = Digits-Plain (low_digits k n) (low_digits-Digits k n)

value-append : (xs ys : List ℕ) (num : ℕ) → value num (xs ++ ys) ≡ value (value num xs) ys
value-append [] ys num = refl
value-append (x ∷ xs) ys num = value-append xs ys (num * 10 + (x - digit0))

value-rev-low_digits : (k n : ℕ) → n < k → value 0 (rev (low_digits k n)) ≡ n
value-rev-low_digits zero n lt = absurd (omega arith)
value-rev-low_digits (suc k) n lt = elim (dec_lt 0 (n / 10)) [
  | yes more ↦
      let d = digit0 + n % 10 in
      let rest = low_digits k (n / 10) in
      let ind = value-rev-low_digits k (n / 10) (omega arith) in
      rw (lt→ltb 0 (n / 10) more) (value-append (rev rest) (d ∷ []) 0 ∙ rw (ind) (omega arith))
  | no last ↦ rw (le→ltb 0 (n / 10) (omega arith)) (omega arith)
]

-- A numeral stands for its number.
pub value-decimal : (n : ℕ) → value 0 (decimal n) ≡ n
value-decimal n = value-rev-low_digits (suc n) n (omega arith)

le-value : (xs : List ℕ) (num : ℕ) → num ≤ value num xs
le-value [] num = omega arith
le-value (x ∷ xs) num = omega (arith, le-value xs (num * 10 + (x - digit0)))

pub atoi_loop-value :
    (xs : List ℕ) (mem : Memory) (p num fuel : ℕ)
    → Str mem p xs
    → Digits xs
    → length xs < fuel
    → value num xs < 2 ^ 31
    → atoi_loop mem p num fuel ≡ some (value num xs)
unfolding atoi_loop
atoi_loop-value xs mem p num zero h d lt small = absurd (omega arith)
atoi_loop-value [] mem p num (suc fuel) h d lt small = rw (h) refl
atoi_loop-value (x ∷ xs) mem p num (suc fuel) (at, ne, h) (lo, hi, d) lt small =
    let next = num * 10 + (x - digit0) in
    let fits : next < 2 ^ 31 = omega (arith, le-value xs next, small) in
    let e : p + 1 ≡ suc p = omega arith in
    rw (at, ne→== x 0 ne, le→ltb digit9 x hi, le→ltb x digit0 lo, lt→ltb next (2 ^ 31) fits, e)
      (atoi_loop-value xs mem (suc p) next fuel h d (omega arith) small)
