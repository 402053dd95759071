-- ===== src/Paging/Bits.antt =====
-- The bit of a frame, and what the writes of paging.c do to it.
use yanix.Common.{
  ℕ, zero, suc, ◌*◌, ◌/◌, ◌%◌, ◌^◌, ◌≤◌, ◌<◌, ◌≡◌, ◌∙◌, Bool, true, none, some, List, [], ◌∷◌,
  arith, ◌==◌, if◌then◌else◌, length, length-set, get_elem?, get_elem?-set, get_elem?-within, set,
}
use yanix.Paging.{Frames, write_bit, index_from_bit, offset_from_bit}

-- Whether a frame counts as used; a frame outside the bitset does.
abbrev pub bit : List (List Bool) → ℕ → Bool
bit words f = elim (get_elem? words (index_from_bit f)) [
  | none ↦ true
  | some w ↦ elim (get_elem? w (offset_from_bit f)) [ none ↦ true | some b ↦ b ]
]

-- The words have 32 bits each.
abbrev pub Wide : List (List Bool) → Type 0
Wide [] = Unit {0}
Wide (w ∷ ws) = (length w ≡ 32) × Wide ws

-- The bitset covers every frame that the search looks at.
pub record IsValid (s : Frames) : Type 0 where
  pub wide : Wide s.words
  pub covers : s.nframes ≤ 32 * length s.words
  pub small : s.nframes ≤ 2 ^ 20

pub Wide-get_elem? :
    (words : List (List Bool)) (i : ℕ) {w : List Bool}
    → Wide words
    → get_elem? words i ≡ some w
    → length w ≡ 32
Wide-get_elem? [] i h e = ground arith
Wide-get_elem? (x ∷ xs) zero h e = ground arith
Wide-get_elem? (x ∷ xs) (suc i) h e = Wide-get_elem? xs i h.1 e

Wide-set :
    (words : List (List Bool)) (i : ℕ) (w : List Bool)
    → Wide words
    → length w ≡ 32
    → Wide (set words i w)
Wide-set [] i w h e = tt
Wide-set (x ∷ xs) zero w h e = (e, h.1)
Wide-set (x ∷ xs) (suc i) w h e = (h.0, Wide-set xs i w h.1 e)

-- A write to the bit of a frame of the bitset succeeds and changes no other bit.
pub write_bit-bit :
    (words : List (List Bool)) (f : ℕ) (v : Bool)
    → Wide words
    → f < 32 * length words
    → (words' : List (List Bool)) × (write_bit words f v ≡ some words')
      × Wide words'
      × (length words' ≡ length words)
      × ((g : ℕ) → bit words' g ≡ (if f == g then v else bit words g))
write_bit-bit words f v h lt =
    let (w, at) = get_elem?-within words (f / 32) (omega arith) in
    let len = Wide-get_elem? words (f / 32) h at in
    let w' : List Bool = set w (f % 32) v in
    (
      set words (f / 32) w',
      rw at,
      Wide-set words (f / 32) w' h (length-set w (f % 32) v ∙ len),
      length-set words (f / 32) w',
      λ g.
          ground
            (arith, get_elem?-set words (f / 32) (g / 32) w', get_elem?-set w (f % 32) (g % 32) v),
    )
