-- ===== src/Libk/Strings/Reverse.antt =====
-- `reverse` of string.c turns a string around in its place.
use yanix.Common.{
  ℕ, zero, suc, ◌+◌, ◌-◌, ◌≤◌, ◌<◌, ◌≡◌, ◌≢◌, refl, sym, ap, ◌∙◌, inl, inr, ◌⊎◌, some, List, [],
  ◌∷◌, ◌++◌, arith, length, length-set, get_elem?, get_elem?-within, lt→ltb, le→ltb, set,
  length-append, get_elem?-set_self, get_elem?-set_ne, get_elem?-append_left,
  get_elem?-append_right,
}
use native.Mathlib.Decide.{ℕ_discrete, dec_lt}
use yanix.Libk.Memory.{Memory}
use yanix.Libk.Memory.Copy.{poke-ok}
use yanix.Libk.Strings.{reverse, reverse_loop}
use yanix.Libk.Strings.Terminated.{Str, Str-within, strlen-Str}

-- The bytes from `str + i` to `str + j` are turned around, and the others stay.
pub record Turned (mem : Memory) (str i j : ℕ) (mem' : Memory) : Type 0 where
  pub size : length mem' ≡ length mem
  pub inside :
      (k : ℕ) → i ≤ k → k ≤ j → get_elem? mem' (str + k) ≡ get_elem? mem (str + (i + j - k))
  pub outside : (p : ℕ) → (p < str + i) ⊎ (str + j < p) → get_elem? mem' p ≡ get_elem? mem p

-- The two outer bytes are swapped, and then those between them are turned around.
Turned-swap :
    (mem : Memory) (str i j b c : ℕ) (mem' : Memory)
    → i < j
    → str + j < length mem
    → get_elem? mem (str + i) ≡ some b
    → get_elem? mem (str + j) ≡ some c
    → Turned (set (set mem (str + i) c) (str + j) b) str (i + 1) (j - 1) mem'
    → Turned mem str i j mem'
Turned-swap mem str i j b c mem' apart within at_i at_j t =
    let mem1 = set mem (str + i) c in
    let mem2 = set mem1 (str + j) b in
    let size1 = length-set mem (str + i) c in
    let size2 = length-set mem1 (str + j) b in
    let kept : (p : ℕ) → (str + i ≢ p) → (str + j ≢ p) → get_elem? mem2 p ≡ get_elem? mem p =
      λ p ne ne'. get_elem?-set_ne mem1 (str + j) p b ne' ∙ get_elem?-set_ne mem (str + i) p c ne in
    let first : get_elem? mem2 (str + i) ≡ some c =
      get_elem?-set_ne mem1 (str + j) (str + i) b (λ e. omega (arith, e))
      ∙ get_elem?-set_self mem (str + i) c (omega arith) in
    let last : get_elem? mem2 (str + j) ≡ some b =
      get_elem?-set_self mem1 (str + j) b (omega arith) in
    record {
      size = t.size ∙ size2 ∙ size1;
      inside = λ k le le'. elim (ℕ_discrete k i) [
        | yes at ↦
            let e : i + j - i ≡ j = omega arith in
            rw (at, e) (t.outside (str + i) (inl (omega arith)) ∙ first ∙ sym at_j)
        | no ne ↦ elim (ℕ_discrete k j) [
          | yes at ↦
              let e : i + j - j ≡ i = omega arith in
              rw (at, e) (t.outside (str + j) (inr (omega arith)) ∙ last ∙ sym at_i)
          | no ne' ↦
              let e : i + 1 + (j - 1) - k ≡ i + j - k = omega arith in
              t.inside k (omega arith) (omega arith)
              ∙ ap (λ x. get_elem? mem2 (str + x)) e
              ∙ kept (str + (i + j - k)) (λ z. omega (arith, z)) (λ z. omega (arith, z))
        ]
      ];
      outside = λ p out. elim out [
        | inl before ↦
            t.outside p (inl (omega arith)) ∙ kept p (λ z. omega (arith, z)) (λ z. omega (arith, z))
        | inr after ↦
            t.outside p (inr (omega arith)) ∙ kept p (λ z. omega (arith, z)) (λ z. omega (arith, z))
      ];
    }

reverse_loop-Turned :
    (fuel : ℕ) (mem : Memory) (str i j : ℕ)
    → str + j < length mem
    → j < i + fuel
    → (mem' : Memory) × (reverse_loop mem str i j fuel ≡ some mem') × Turned mem str i j mem'
unfolding reverse_loop
reverse_loop-Turned zero mem str i j within lt = (
  mem,
  refl,
  record { size = refl; inside = λ k le le'. absurd (omega arith); outside = λ p out. refl },
)
reverse_loop-Turned (suc fuel) mem str i j within lt = elim (dec_lt i j) [
  | no met ↦ (
    mem,
    rw (le→ltb i j (omega arith)) refl,
    record {
      size = refl;
      inside =
          λ k le le'. ap (λ x. get_elem? mem (str + x)) (let e : k ≡ i + j - k = omega arith in e);
      outside = λ p out. refl;
    },
  )
  | yes apart ↦
      let (b, at_i) = get_elem?-within mem (str + i) (omega arith) in
      let (c, at_j) = get_elem?-within mem (str + j) within in
      let mem1 = set mem (str + i) c in
      let mem2 = set mem1 (str + j) b in
      let size1 = length-set mem (str + i) c in
      let size2 = length-set mem1 (str + j) b in
      let (mem', run, t) =
        reverse_loop-Turned fuel mem2 str (i + 1) (j - 1) (omega arith) (omega arith) in
      (
        mem',
        rw
            (
              lt→ltb i j apart,
              at_i,
              at_j,
              poke-ok mem (str + i) c (omega arith),
              poke-ok mem1 (str + j) b (omega arith),
            )
            run,
        Turned-swap mem str i j b c mem' apart within at_i at_j t,
      )
]

abbrev pub rev : List ℕ → List ℕ
rev [] = []
rev (x ∷ xs) = rev xs ++ x ∷ []

pub length-rev : (xs : List ℕ) → length (rev xs) ≡ length xs
length-rev [] = refl
length-rev (x ∷ xs) = omega (arith, length-append (rev xs) (x ∷ []), length-rev xs)

get_elem?-rev :
    (xs : List ℕ) (i : ℕ) → i < length xs → get_elem? (rev xs) i ≡ get_elem? xs (length xs - 1 - i)
get_elem?-rev [] i lt = absurd (omega arith)
get_elem?-rev (x ∷ xs) i lt = elim (dec_lt i (length xs)) [
  | yes front ↦
      let long = length-rev xs in
      let e : length (x ∷ xs) - 1 - i ≡ suc (length xs - 1 - i) = omega arith in
      rw e (get_elem?-append_left (rev xs) (x ∷ []) i (omega arith) ∙ get_elem?-rev xs i front)
  | no back ↦
      let long = length-rev xs in
      let e : length (x ∷ xs) - 1 - i ≡ 0 = omega arith in
      let f : i - length (rev xs) ≡ 0 = omega arith in
      rw e (get_elem?-append_right (rev xs) (x ∷ []) i (omega arith) ∙ ap (get_elem? (x ∷ [])) f)
]

-- No byte is zero.
abbrev pub Plain : List ℕ → Type 0
Plain [] = Unit {0}
Plain (x ∷ xs) = (x ≢ 0) × Plain xs

pub Plain-append : (xs ys : List ℕ) → Plain xs → Plain ys → Plain (xs ++ ys)
Plain-append [] ys h g = g
Plain-append (x ∷ xs) ys (ne, h) g = (ne, Plain-append xs ys h g)

Plain-rev : (xs : List ℕ) → Plain xs → Plain (rev xs)
Plain-rev [] h = h
Plain-rev (x ∷ xs) (ne, h) = Plain-append (rev xs) (x ∷ []) (Plain-rev xs h) (ne, tt)

pub Str-Plain : (mem : Memory) (p : ℕ) (xs : List ℕ) → Str mem p xs → Plain xs
Str-Plain mem p [] h = tt
Str-Plain mem p (x ∷ xs) (at, ne, h) = (ne, Str-Plain mem (suc p) xs h)

Str-at :
    (mem : Memory) (p : ℕ) (xs : List ℕ) (i : ℕ)
    → Str mem p xs
    → i < length xs
    → get_elem? mem (p + i) ≡ get_elem? xs i
Str-at mem p [] i h lt = absurd (omega arith)
Str-at mem p (x ∷ xs) zero (at, ne, h) lt = let e : p + 0 ≡ p = omega arith in rw e at
Str-at mem p (x ∷ xs) (suc i) (at, ne, h) lt =
    let e : p + suc i ≡ suc p + i = omega arith in rw e (Str-at mem (suc p) xs i h (omega arith))

Str-end :
    (mem : Memory) (p : ℕ) (xs : List ℕ) → Str mem p xs → get_elem? mem (p + length xs) ≡ some 0
Str-end mem p [] h = let e : p + 0 ≡ p = omega arith in rw e h
Str-end mem p (x ∷ xs) (at, ne, h) =
    let e : p + suc (length xs) ≡ suc p + length xs = omega arith in rw e (Str-end mem (suc p) xs h)

pub Str-of :
    (mem : Memory) (p : ℕ) (ys : List ℕ)
    → ((i : ℕ) → i < length ys → get_elem? mem (p + i) ≡ get_elem? ys i)
    → Plain ys
    → get_elem? mem (p + length ys) ≡ some 0
    → Str mem p ys
Str-of mem p [] at plain end = let e : p + 0 ≡ p = omega arith in (rw e at end)
Str-of mem p (y ∷ ys) at (ne, plain) end =
    let e : p + suc (length ys) ≡ suc p + length ys = omega arith in
    let z : p + 0 ≡ p = omega arith in
    let first = at 0 (omega arith) in
    (
      (rw z at first),
      ne,
      Str-of mem (suc p) ys
          (λ i lt.
            (let f : suc p + i ≡ p + suc i = omega arith in
              ap (get_elem? mem) f ∙ at (suc i) (omega arith)))
          plain (rw e at end),
    )

-- `reverse` of a string never faults, and leaves the string with its bytes in the other order.
pub reverse-Str :
    (mem : Memory) (str : ℕ) (xs : List ℕ)
    → str ≢ 0
    → Str mem str xs
    → (mem' : Memory) × (reverse mem str ≡ some mem')
      × Str mem' str (rev xs)
      × (length mem' ≡ length mem)
unfolding reverse reverse_loop
reverse-Str mem str [] ne h = (mem, rw (strlen-Str mem str [] ne h) refl, h, refl)
reverse-Str mem str (x ∷ xs) ne h =
    let within = Str-within mem str (x ∷ xs) h in
    let n = length xs in
    let (mem', run, t) = reverse_loop-Turned (suc n) mem str 0 n (omega arith) (omega arith) in
    let e : suc n - 1 ≡ n = omega arith in
    let size = length-rev (x ∷ xs) in
    (
      mem',
      rw (strlen-Str mem str (x ∷ xs) ne h, e) run,
      Str-of mem' str (rev (x ∷ xs))
          (λ i lt.
            (let f : 0 + n - i ≡ suc n - 1 - i = omega arith in
              t.inside i (omega arith) (omega arith)
              ∙ ap (λ k. get_elem? mem (str + k)) f
              ∙ Str-at mem str (x ∷ xs) (suc n - 1 - i) h (omega arith)
              ∙ sym (get_elem?-rev (x ∷ xs) i (omega arith))))
          (Plain-rev (x ∷ xs) (Str-Plain mem str (x ∷ xs) h))
          (t.outside (str + length (rev (x ∷ xs))) (inr (omega arith))
            ∙ (let g : str + length (rev (x ∷ xs)) ≡ str + suc n = omega arith in
                ap (get_elem? mem) g ∙ Str-end mem str (x ∷ xs) h)),
      t.size,
    )
