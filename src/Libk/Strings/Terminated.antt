-- ===== src/Libk/Strings/Terminated.antt =====
-- Strings in memory, and what `strlen` and `strcmp` of string.c make of them.
use yanix.Common.{
  ℕ, zero, suc, ◌+◌, ◌≤◌, ◌<◌, ◌≡◌, ◌≢◌, refl, sym, ap, ◌∙◌, some, List, [], ◌∷◌, ◌++◌, arith, ◌==◌,
  if◌then◌else◌, length, get_elem?, ne→==, eq→==, lt-get_elem?, ◌↔◌,
}
use yanix.Common.Int.{ℤ, pos}
use yanix.Libk.Memory.{Memory}
use yanix.Libk.Strings.{strlen, strlen_loop, strcmp, strcmp_loop, difference}

-- The non-zero bytes `xs` and then a zero byte stand from `p` on.
abbrev pub Str : Memory → ℕ → List ℕ → Type 0
Str mem p [] = get_elem? mem p ≡ some 0
Str mem p (x ∷ xs) = (get_elem? mem p ≡ some x) × (x ≢ 0) × Str mem (suc p) xs

pub Str-within : (mem : Memory) (p : ℕ) (xs : List ℕ) → Str mem p xs → p + length xs < length mem
Str-within mem p [] h = omega (arith, lt-get_elem? mem p h)
Str-within mem p (x ∷ xs) (at, ne, rest) = omega (arith, Str-within mem (suc p) xs rest)

-- A string is where its bytes are.
pub Str-moved :
    (mem mem' : Memory) (p q : ℕ) (xs : List ℕ)
    → Str mem p xs
    → ((i : ℕ) → i ≤ length xs → get_elem? mem' (q + i) ≡ get_elem? mem (p + i))
    → Str mem' q xs
Str-moved mem mem' p q [] h same = ground (arith, same 0)
Str-moved mem mem' p q (x ∷ xs) (at, ne, rest) same = (
  ground (arith, same 0),
  ne,
  Str-moved mem mem' (suc p) (suc q) xs rest (λ i le. ground (arith, same (suc i))),
)

-- The bytes of two strings that follow each other.
pub Str-append :
    (mem old : Memory) (p : ℕ) (xs ys : List ℕ)
    → Str old p xs
    → ((i : ℕ) → i < length xs → get_elem? mem (p + i) ≡ get_elem? old (p + i))
    → Str mem (p + length xs) ys
    → Str mem p (xs ++ ys)
Str-append mem old p [] ys h same rest = let e : p + 0 ≡ p = omega arith in rw e at rest
Str-append mem old p (x ∷ xs) ys (at, ne, h) same rest =
    let e : suc p + length xs ≡ p + suc (length xs) = omega arith in
    (
      ground (arith, same 0),
      ne,
      Str-append mem old (suc p) xs ys h (λ i lt. ground (arith, same (suc i))) (rw e rest),
    )

strlen_loop-Str :
    (xs : List ℕ) (mem : Memory) (str len fuel : ℕ)
    → Str mem (str + len) xs
    → length xs < fuel
    → strlen_loop mem str len fuel ≡ some (len + length xs)
unfolding strlen_loop
strlen_loop-Str xs mem str len zero h lt = absurd (omega arith)
strlen_loop-Str [] mem str len (suc fuel) h lt = ground (arith, h)
strlen_loop-Str (x ∷ xs) mem str len (suc fuel) (at, ne, h) lt =
    let next : suc (str + len) ≡ str + (len + 1) = omega arith in
    rw (at, ne→== x 0 ne)
      (strlen_loop-Str xs mem str (len + 1) fuel (rw next at h) (omega arith)
        ∙ ap some (omega arith))

-- `strlen` returns the number of bytes before the zero byte.
pub strlen-Str :
    (mem : Memory) (str : ℕ) (xs : List ℕ)
    → str ≢ 0
    → Str mem str xs
    → strlen mem str ≡ some (length xs)
unfolding strlen
strlen-Str mem str xs ne h =
    let within' = Str-within mem str xs h in
    let e : str ≡ str + 0 = omega arith in
    rw (ne→== str 0 ne)
      (strlen_loop-Str xs mem str 0 (length mem) (rw e at h) (omega arith) ∙ ap some (omega arith))

-- The order that `strcmp` decides: the difference of the first bytes that differ, the zero byte
-- included, as unsigned bytes.
abbrev pub compare_spec : List ℕ → List ℕ → ℤ
compare_spec [] [] = pos 0
compare_spec [] (y ∷ ys) = difference 0 y
compare_spec (x ∷ xs) [] = difference x 0
compare_spec (x ∷ xs) (y ∷ ys) = if x == y then compare_spec xs ys else difference x y

strcmp_loop-spec :
    (xs ys : List ℕ) (mem : Memory) (x y fuel : ℕ)
    → Str mem x xs
    → Str mem y ys
    → length xs < fuel
    → strcmp_loop mem x y fuel ≡ some (compare_spec xs ys)
unfolding strcmp_loop
strcmp_loop-spec xs ys mem x y zero h g lt = absurd (omega arith)
strcmp_loop-spec [] [] mem x y (suc fuel) h g lt = ground (arith, h, g)
strcmp_loop-spec [] (b ∷ ys) mem x y (suc fuel) h (at, ne, g) lt = ground (arith, h, at)
strcmp_loop-spec (a ∷ xs) [] mem x y (suc fuel) (at, ne, h) g lt = ground (arith, at, g)
strcmp_loop-spec (a ∷ xs) (b ∷ ys) mem x y (suc fuel) (at, ne, h) (at', ne', g) lt =
    let nx : x + 1 ≡ suc x = omega arith in
    let ny : y + 1 ≡ suc y = omega arith in
    let rest = strcmp_loop-spec xs ys mem (suc x) (suc y) fuel h g (omega arith) in
    rw (at, at', nx, ny, rest, ne→== a 0 ne) (ground arith)

compare_spec-eq :
    (xs ys : List ℕ) (mem : Memory) (x y : ℕ)
    → Str mem x xs
    → Str mem y ys
    → compare_spec xs ys ≡ pos 0
    → xs ≡ ys
compare_spec-eq [] [] mem x y h g e = refl
compare_spec-eq [] (b ∷ ys) mem x y h (at, ne, g) e = absurd (ground arith)
compare_spec-eq (a ∷ xs) [] mem x y (at, ne, h) g e = absurd (ground arith)
compare_spec-eq (a ∷ xs) (b ∷ ys) mem x y (at, ne, h) (at', ne', g) e =
    ground (arith, compare_spec-eq xs ys mem (suc x) (suc y) h g)

compare_spec_self : (xs : List ℕ) → compare_spec xs xs ≡ pos 0
compare_spec_self [] = refl
compare_spec_self (x ∷ xs) = rw (eq→== x x refl) (compare_spec_self xs)

-- `strcmp` of two strings never faults and returns the difference of the first bytes that differ.
pub strcmp-spec :
    (mem : Memory) (x y : ℕ) (xs ys : List ℕ)
    → Str mem x xs
    → Str mem y ys
    → strcmp mem x y ≡ some (compare_spec xs ys)
unfolding strcmp
strcmp-spec mem x y xs ys h g =
    strcmp_loop-spec xs ys mem x y (length mem) h g (omega (arith, Str-within mem x xs h))

-- `strcmp` tells strings apart: it is 0 just where they are the same.
pub strcmp-same :
    (mem : Memory) (x y : ℕ) (xs ys : List ℕ)
    → Str mem x xs
    → Str mem y ys
    → (strcmp mem x y ≡ some (pos 0)) ↔ (xs ≡ ys)
strcmp-same mem x y xs ys h g = (
  λ e. compare_spec-eq xs ys mem x y h g (ground (arith, strcmp-spec mem x y xs ys h g)),
  λ e.
      strcmp-spec mem x y xs ys h g ∙ ap some (ap (compare_spec xs) (sym e) ∙ compare_spec_self xs),
)
