-- ===== src/Paging/Search.antt =====
-- `first_frame` finds the lowest free frame.
use yanix.Common.{
  ℕ, zero, suc, ◌+◌, ◌*◌, ◌/◌, ◌%◌, ◌≤◌, ◌<◌, ◌≡◌, refl, ap, ◌∙◌, inl, inr, Bool, true, false,
  Option, none, some, List, [], ◌∷◌, arith, length, get_elem?, get_elem?-within, Bool-cases,
  Returns, returns, Returns-mono, lt-get_elem?,
}
use native.Mathlib.Decide.{dec_lt}
use yanix.Paging.{Frames, all_ones, first_zero, search_words, first_frame}
use yanix.Paging.Bits.{bit, Wide, Wide-get_elem?, IsValid}

-- The bits of `w` below `k` are set.
abbrev OnesBelow : List Bool → ℕ → Type 0
OnesBelow w k = (m : ℕ) → m < k → get_elem? w m ≡ some true

OnesBelow-cons : (w : List Bool) (k : ℕ) → OnesBelow w k → OnesBelow (true ∷ w) (suc k)
OnesBelow-cons w k h zero lt = refl
OnesBelow-cons w k h (suc m) lt = h m (omega arith)

all_ones-OnesBelow : (w : List Bool) → all_ones w ≡ true → OnesBelow w (length w)
unfolding all_ones
all_ones-OnesBelow [] h m lt = absurd (omega arith)
all_ones-OnesBelow (false ∷ w) h m lt = absurd (cc)
all_ones-OnesBelow (true ∷ w) h m lt = OnesBelow-cons w (length w) (all_ones-OnesBelow w h) m lt

-- The bit that `first_zero` comes back with, in a word that is not all ones.
first_zero-found :
    (w : List Bool) (j : ℕ)
    → all_ones w ≡ false
    → (k : ℕ) × (first_zero w j ≡ some (j + k)) × (get_elem? w k ≡ some false) × OnesBelow w k
unfolding all_ones first_zero
first_zero-found [] j h = absurd (cc)
first_zero-found (false ∷ w) j h = (0, ap some (omega arith), refl, λ m lt. absurd (omega arith))
first_zero-found (true ∷ w) j h =
    let (k, e, z, below) = first_zero-found w (j + 1) h in
    (suc k, e ∙ ap some {x = j + 1 + k} (omega arith), z, OnesBelow-cons w k below)

-- What the search over the `n` words from word `i` on comes back with.
pub data Found (words : List (List Bool)) (i n : ℕ) : Option ℕ → Type 0 where
  all_used : ((f : ℕ) → i * 32 ≤ f → f < (i + n) * 32 → bit words f ≡ true) → Found words i n none
  lowest :
      (f : ℕ)
      → i * 32 ≤ f
      → f < (i + n) * 32
      → bit words f ≡ false
      → ((g : ℕ) → i * 32 ≤ g → g < f → bit words g ≡ true)
      → Found words i n (some f)

-- A bit of word `i`, by its place in the word.
bit-word :
    (words : List (List Bool)) (i f : ℕ) {w : List Bool} {b : Bool}
    → get_elem? words i ≡ some w
    → f / 32 ≡ i
    → get_elem? w (f % 32) ≡ some b
    → bit words f ≡ b
bit-word words i f at e is = ground arith

module _ (words : List (List Bool)) (i n : ℕ) {w : List Bool} (at : get_elem? words i ≡ some w)
    (wide : length w ≡ 32) where
  -- The search from the next word on, after a word of ones.
  Found-cons : {r : Option ℕ} → OnesBelow w 32 → Found words (i + 1) n r → Found words i (suc n) r
  Found-cons ones (all_used rest) = all_used λ f lo hi. elim (dec_lt f ((i + 1) * 32)) [
    | yes here ↦ bit-word words i f at (omega arith) (ones (f % 32) (omega arith))
    | no on ↦ rest f (omega arith) (omega arith)
  ]
  Found-cons ones (lowest f lo hi free before) = lowest f (omega arith) (omega arith) free λ g a b.
      elim (dec_lt g ((i + 1) * 32)) [
        | yes here ↦ bit-word words i g at (omega arith) (ones (g % 32) (omega arith))
        | no on ↦ before g (omega arith) b
      ]

  Found-here :
      (k : ℕ)
      → get_elem? w k ≡ some false
      → OnesBelow w k
      → Found words i (suc n) (some (i * 32 + k))
  Found-here k free below =
      let lt : k < 32 = omega (arith, lt-get_elem? w k free) in
      lowest (i * 32 + k) (omega arith) (omega arith)
        (bit-word words i (i * 32 + k) at (omega arith)
          (let e : (i * 32 + k) % 32 ≡ k = omega arith in rw e free))
        λ g a b. bit-word words i g at (omega arith) (below (g % 32) (omega arith))

pub search_words-Found :
    (n : ℕ) (words : List (List Bool)) (i : ℕ)
    → Wide words
    → i + n ≤ length words
    → Returns (Found words i n) (search_words words i n)
unfolding search_words
search_words-Found zero words i h le = returns (all_used λ f lo hi. absurd (omega arith))
search_words-Found (suc n) words i h le =
    let (w, at) = get_elem?-within words i (omega arith) in
    let wide = Wide-get_elem? words i h at in
    elim (Bool-cases (all_ones w)) [
      | inl ones ↦
          rw (at, ones)
            (Returns-mono (search_words-Found n words (i + 1) h (omega arith))
              λ r. Found-cons words i n at wide (λ m lt. all_ones-OnesBelow w ones m (omega arith)))
      | inr some_zero ↦
          (let (k, e, free, below) = first_zero-found w 0 some_zero in
            let e' : first_zero w 0 ≡ some k = e ∙ ap some {x = 0 + k} (omega arith) in
            rw (at, some_zero, e') (returns (Found-here words i n at wide k free below)))
    ]

-- `first_frame` on a bitset that covers the frames never faults: it finds the lowest free frame of
-- the whole words, or says that none is free.
pub first_frame-Found :
    {s : Frames} → IsValid s → Returns (Found s.words 0 (s.nframes / 32)) (first_frame s)
unfolding first_frame
first_frame-Found {s} h =
    search_words-Found (s.nframes / 32) s.words 0 h.wide (omega (arith, h.covers))
