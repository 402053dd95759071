-- ===== src/Libk/Numbers/RoundTrip.antt =====
-- `itoa` and `int_to_string` write the decimal numeral of a number, and `atoi` reads it.
use yanix.Common.{
  ℕ, zero, suc, ◌+◌, ◌-◌, ◌/◌, ◌%◌, ◌^◌, ◌≤◌, ◌<◌, ◌≡◌, ◌≢◌, refl, sym, ap, ◌∙◌, inl, inr, ◌⊎◌,
  some, List, [], ◌∷◌, arith, length, length-set, get_elem?, lt→ltb, le→ltb, set,
  get_elem?-set_self, get_elem?-set_ne,
}
use mathlib.Core.Path.{subst}
use native.Mathlib.Decide.{ℕ_discrete, dec_lt}
use yanix.Common.Int.{pos}
use yanix.Libk.Memory.{Memory}
use yanix.Libk.Memory.Copy.{poke-ok}
use yanix.Libk.Strings.{reverse}
use yanix.Libk.Strings.Terminated.{Str, Str-within}
use yanix.Libk.Strings.Reverse.{length-rev, Str-of, reverse-Str}
use yanix.Libk.Numbers.{digit0, atoi, put_digits, itoa}
use yanix.Libk.Numbers.Digits.{
  low_digits, low_digits-more, low_digits-last, low_digits-pos, decimal, decimal-Digits,
  low_digits-Plain, value-decimal, atoi_loop-value,
}

-- `atoi` of a numeral below 2 ^ 31 gives its number.
atoi-decimal : (mem : Memory) (p n : ℕ) → Str mem p (decimal n) → n < 2 ^ 31 → atoi mem p ≡ some n
unfolding atoi
atoi-decimal mem p n h lt =
    let e = value-decimal n in
    let within = Str-within mem p (decimal n) h in
    atoi_loop-value (decimal n) mem p 0 (length mem) h (decimal-Digits n) (omega arith) (rw e lt)
    ∙ ap some e

-- The digits stand from `str + i` on, and no other byte changes.
record Put (mem : Memory) (p : ℕ) (ds : List ℕ) (mem' : Memory) : Type 0 where
  size : length mem' ≡ length mem
  digits : (j : ℕ) → j < length ds → get_elem? mem' (p + j) ≡ get_elem? ds j
  others : (q : ℕ) → (q < p) ⊎ (p + length ds ≤ q) → get_elem? mem' q ≡ get_elem? mem q

-- The run of `put_digits` from the index `i` on that writes the digits.
abbrev Puts : Memory → (str i n max fuel : ℕ) → List ℕ → Type 0
Puts mem str i n max fuel ds =
    length ds ≤ fuel
    → i + length ds ≤ max
    → str + i + length ds ≤ length mem
    → (mem' : Memory) × (put_digits mem str i n max fuel ≡ some (i + length ds, mem'))
      × Put mem (str + i) ds mem'

-- The first digit, and then the others.
Put-cons :
    (mem : Memory) (p d : ℕ) (ds : List ℕ) (mem' : Memory)
    → p < length mem
    → Put (set mem p d) (p + 1) ds mem'
    → Put mem p (d ∷ ds) mem'
Put-cons mem p d ds mem' within t = record {
  size = t.size ∙ length-set mem p d;
  digits = λ j lt. elim (ℕ_discrete j 0) [
    | yes at ↦
        let e : p + 0 ≡ p = omega arith in
        rw (at, e) (t.others p (inl (omega arith)) ∙ get_elem?-set_self mem p d within)
    | no ne ↦
        let e : p + j ≡ p + 1 + (j - 1) = omega arith in
        let f : j ≡ suc (j - 1) = omega arith in
        ap (get_elem? mem') e ∙ t.digits (j - 1) (omega arith) ∙ sym (ap (get_elem? (d ∷ ds)) f)
  ];
  others = λ q out. elim out [
    | inl before ↦
        t.others q (inl (omega arith)) ∙ get_elem?-set_ne mem p q d (λ z. omega (arith, z))
    | inr after ↦
        t.others q (inr (omega arith)) ∙ get_elem?-set_ne mem p q d (λ z. omega (arith, z))
  ];
}

put_digits-Put :
    (k : ℕ) (mem : Memory) (str i n max fuel : ℕ)
    → n < k
    → Puts mem str i n max fuel (low_digits k n)
unfolding put_digits
put_digits-Put zero mem str i n max fuel lt = absurd (omega arith)
put_digits-Put (suc k) mem str i n max zero lt = λ short. absurd (omega arith)
put_digits-Put (suc k) mem str i n max (suc fuel) lt = elim (dec_lt 0 (n / 10)) [
  | yes more ↦
      let d = digit0 + n % 10 in
      let ds = low_digits k (n / 10) in
      let mem1 = set mem (str + i) d in
      subst (Puts mem str i n max (suc fuel)) (sym (low_digits-more k n more)) (λ short room within.
        (let size = length-set mem (str + i) d in
          let some_left = low_digits-pos k (n / 10) (omega arith) in
          let (mem', run, t) =
            put_digits-Put k mem1 str (i + 1) (n / 10) max fuel (omega arith) (omega arith)
              (omega arith) (omega arith) in
          let e : i + 1 + length ds ≡ i + suc (length ds) = omega arith in
          let f : str + (i + 1) ≡ str + i + 1 = omega arith in
          (
            mem',
            rw
                (
                  poke-ok mem (str + i) d (omega arith),
                  lt→ltb 0 (n / 10) more,
                  lt→ltb (i + 1) max (omega arith),
                  run,
                  e,
                )
                refl,
            Put-cons mem (str + i) d ds mem' (omega arith) (rw f at t),
          )))
  | no last ↦
      let d = digit0 + n % 10 in
      let mem1 = set mem (str + i) d in
      subst (Puts mem str i n max (suc fuel)) (sym (low_digits-last k n (omega arith)))
        (λ short room within. (
          mem1,
          rw (poke-ok mem (str + i) d (omega arith), le→ltb 0 (n / 10) (omega arith)) refl,
          Put-cons mem (str + i) d [] mem1 (omega arith) (record {
            size = refl;
            digits = λ j lt. absurd (omega arith);
            others = λ q out. refl;
          }),
        ))
]

-- `itoa` writes the digits, the zero behind them, and turns the string around.
itoa-steps :
    (mem : Memory) (n str max l i : ℕ) (mem1 mem3 : Memory)
    → i ≡ l
    → put_digits mem str 0 n max (length mem) ≡ some (i, mem1)
    → str + l < length mem1
    → reverse (set mem1 (str + l) 0) str ≡ some mem3
    → itoa mem (pos n) str max ≡ some mem3
unfolding itoa
itoa-steps mem n str max l i mem1 mem3 e run within turned =
    rw (run, e, poke-ok mem1 (str + l) 0 within) turned

-- `itoa` of a number that is not negative leaves its decimal numeral, and `atoi` reads the number
-- back. The buffer is in memory, not the null pointer, and long enough for the numeral and its zero.
pub atoi-itoa :
    (mem : Memory) (n str max : ℕ)
    → str ≢ 0
    → n < 2 ^ 31
    → length (decimal n) ≤ max
    → str + length (decimal n) < length mem
    → (mem' : Memory) × (itoa mem (pos n) str max ≡ some mem')
      × Str mem' str (decimal n)
      × (atoi mem' str ≡ some n)
atoi-itoa mem n str max ne small room within =
    let ds = low_digits (suc n) n in
    let long = length-rev ds in
    let (mem1, run, t) =
      put_digits-Put (suc n) mem str 0 n max (length mem) (omega arith) (omega arith) (omega arith)
        (omega arith) in
    let mem2 = set mem1 (str + length ds) 0 in
    let size = t.size in
    let size2 = length-set mem1 (str + length ds) 0 in
    let z : str + 0 ≡ str = omega arith in
    let (mem3, turned, h, _) = reverse-Str mem2 str ds ne (
      Str-of mem2 str ds
        (λ i lt.
          (let e : str + 0 + i ≡ str + i = omega arith in
            get_elem?-set_ne mem1 (str + length ds) (str + i) 0 (λ x. omega (arith, x))
            ∙ ap (get_elem? mem1) (sym e)
            ∙ t.digits i lt))
        (low_digits-Plain (suc n) n) (get_elem?-set_self mem1 (str + length ds) 0 (omega arith))) in
    (
      mem3,
      itoa-steps mem n str max (length ds) (0 + length ds) mem1 mem3 (omega arith) run (omega arith)
          turned,
      h,
      atoi-decimal mem3 str n h small,
    )
