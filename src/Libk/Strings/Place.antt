-- ===== src/Libk/Strings/Place.antt =====
-- `strcpy`, `strcat`, `append`, `remove` and `insert`: the strings that they leave.
use yanix.Common.{
  ℕ, zero, suc, ◌+◌, ◌-◌, ◌^◌, ◌≤◌, ◌<◌, ◌≡◌, ◌≢◌, refl, ap, ◌∙◌, inl, inr, ◌⊎◌, ◌&&◌, some, List,
  [], ◌∷◌, ◌++◌, arith, ◌==◌, ltb, leb, if◌then◌else◌, length, length-set, get_elem?, get_elem?-set,
  get_elem?-within, le→ltb, ne→==, set, take, get_elem?-set_self, get_elem?-set_ne,
}
use native.Mathlib.Decide.{dec_lt}
use yanix.Common.Int.{pos, negsuc}
use yanix.Libk.Memory.{Memory}
use yanix.Libk.Memory.Copy.{Copied, poke-ok}
use yanix.Libk.Strings.{copy_loop, strcpy, strcat, append, remove, insert, shift_up, sub32}
use yanix.Libk.Strings.Terminated.{Str, Str-within, Str-moved, Str-append, strlen-Str}

-- A string after a write in front of it.
Str-set :
    (mem : Memory) (p q b : ℕ) (xs : List ℕ)
    → Str mem p xs
    → (q < p) ⊎ (p + length xs < q)
    → Str (set mem q b) p xs
Str-set mem p q b xs h apart =
    Str-moved mem (set mem q b) p p xs h
      λ i le. get_elem?-set_ne mem q (p + i) b (λ e. ground (arith, apart))

copy_loop-Copied :
    (xs : List ℕ) (mem : Memory) (dest str fuel : ℕ)
    → Str mem str xs
    → length xs < fuel
    → dest + length xs < length mem
    → (dest < str) ⊎ (str + length xs < dest)
    → (mem' : Memory) × (copy_loop mem dest str fuel ≡ some (dest + length xs, mem'))
      × Copied mem dest str (suc (length xs)) mem'
unfolding copy_loop
copy_loop-Copied xs mem dest str zero h lt room apart = absurd (omega arith)
copy_loop-Copied [] mem dest str (suc fuel) h lt room apart =
    let e : dest ≡ dest + 0 = omega arith in
    (
      set mem dest 0,
      rw (h, poke-ok mem dest 0 (omega arith)) (ap (λ d. some (d, set mem dest 0)) e),
      record {
        size = length-set mem dest 0;
        bytes = λ a. ground (arith, get_elem?-set mem dest a 0);
      },
    )
copy_loop-Copied (x ∷ xs) mem dest str (suc fuel) (at, ne, h) lt room apart =
    let len = length-set mem dest x in
    let m1 = set mem dest x in
    let before : (dest < suc str) ⊎ (suc str + length xs < dest) = ground (arith, apart) in
    let apart' : (dest + 1 < suc str) ⊎ (suc str + length xs < dest + 1) = ground (arith, apart) in
    let (mem', run, c) =
      copy_loop-Copied xs m1 (dest + 1) (suc str) fuel (Str-set mem (suc str) dest x xs h before)
        (omega arith) (omega arith) apart' in
    let next : str + 1 ≡ suc str = omega arith in
    (
      mem',
      rw (at, ne→== x 0 ne, poke-ok mem dest x (omega arith), next)
          (run ∙ ap (λ d. some (d, mem')) {x = dest + 1 + length xs} (omega arith)),
      record {
        size = c.size ∙ len;
        bytes = λ a. ground (
          arith,
          apart,
          c.bytes a,
          get_elem?-set mem dest a x,
          get_elem?-set mem dest (suc str + (a - (dest + 1))) x,
        );
      },
    )

-- `strcpy` of a string to where there is room for it, in front of the string or behind its end,
-- never faults: it leaves the string at the destination, changes no byte but those of the copy, and
-- returns the address of the copy's zero byte.
pub strcpy-Str :
    (mem : Memory) (dest src : ℕ) (xs : List ℕ)
    → Str mem src xs
    → dest + length xs < length mem
    → (dest < src) ⊎ (src + length xs < dest)
    → (mem' : Memory) × (strcpy mem dest src ≡ some (dest + length xs, mem'))
      × Str mem' dest xs
      × Copied mem dest src (suc (length xs)) mem'
unfolding strcpy
strcpy-Str mem dest src xs h room apart =
    let (mem', run, c) =
      copy_loop-Copied xs mem dest src (length mem) h (omega (arith, Str-within mem src xs h)) room
        apart in
    (mem', run, Str-moved mem mem' src dest xs h (λ i le. ground (arith, c.bytes (dest + i))), c)

-- `strcat` of a string that lies behind the end of the first one or in front of it, with room for
-- the result, never faults and leaves the first string followed by the second.
pub strcat-Str :
    (mem : Memory) (buf str : ℕ) (xs ys : List ℕ)
    → buf ≢ 0
    → Str mem buf xs
    → Str mem str ys
    → buf + length xs + length ys < length mem
    → (buf + length xs < str) ⊎ (str + length ys < buf)
    → (mem' : Memory) × (strcat mem buf str ≡ some (buf + length xs + length ys, mem'))
      × Str mem' buf (xs ++ ys)
unfolding strcat
strcat-Str mem buf str xs ys ne h g room apart =
    let apart' : (buf + length xs < str) ⊎ (str + length ys < buf + length xs) =
      ground (arith, apart) in
    let (mem', run, c) =
      copy_loop-Copied ys mem (buf + length xs) str (length mem) g
        (omega (arith, Str-within mem str ys g)) room apart' in
    (
      mem',
      rw (strlen-Str mem buf xs ne h) run,
      Str-append mem' mem buf xs ys h (λ i lt. ground (arith, c.bytes (buf + i)))
          (Str-moved mem mem' str (buf + length xs) ys g
            (λ i le. ground (arith, c.bytes (buf + length xs + i)))),
    )

-- `append` of a non-zero byte, with room behind the string, leaves the string with that byte at its
-- end and returns the new length.
pub append-Str :
    (mem : Memory) (str character : ℕ) (xs : List ℕ)
    → str ≢ 0
    → character ≢ 0
    → Str mem str xs
    → str + length xs + 1 < length mem
    → (mem' : Memory) × (append mem str character ≡ some (length xs + 1, mem'))
      × Str mem' str (xs ++ character ∷ [])
unfolding append
append-Str mem str character xs ne some' h room =
    let l : ℕ = str + length xs in
    let m1 = set mem l character in
    let len = length-set mem l character in
    let m2 = set m1 (str + (length xs + 1)) 0 in
    let get2 = λ (a : ℕ). get_elem?-set m1 (str + (length xs + 1)) a 0 in
    let get1 = λ (a : ℕ). get_elem?-set mem l a character in
    (
      m2,
      rw (
        strlen-Str mem str xs ne h,
        poke-ok mem l character (omega arith),
        poke-ok m1 (str + (length xs + 1)) 0 (omega arith),
      ),
      Str-append m2 mem str xs (character ∷ []) h
          (λ i lt. ground (arith, get2 (str + i), get1 (str + i)))
          (ground (arith, get2 l, get1 l), some', ground (arith, get2 (suc l))),
    )

Str-take :
    (mem : Memory) (p k q : ℕ) (xs : List ℕ)
    → Str mem p xs
    → k ≤ length xs
    → p + k ≡ q
    → Str (set mem q 0) p (take k xs)
Str-take mem p zero q xs h le e =
    let e' : q ≡ p = omega arith in
    rw e' (get_elem?-set_self mem p 0 (omega (arith, Str-within mem p xs h)))
Str-take mem p (suc k) q [] h le e = absurd (omega arith)
Str-take mem p (suc k) q (x ∷ xs) (at, ne, h) le e = (
  get_elem?-set_ne mem q p 0 (λ r. omega arith) ∙ at,
  ne,
  Str-take mem (suc p) k q xs h (omega arith) (omega arith),
)

-- `remove` cuts the given number of bytes off the end of the string and returns the new length; for
-- more bytes than there are it returns -1 and changes nothing.
pub remove-Str :
    (mem : Memory) (str n : ℕ) (xs : List ℕ)
    → str ≢ 0
    → Str mem str xs
    → length mem ≤ 2 ^ 31
    → n < 2 ^ 31
    → (length xs < n) × (remove mem str n ≡ some (negsuc 0, mem))
      ⊎ (n ≤ length xs)
        × (mem' : Memory) × (remove mem str n ≡ some (pos (length xs - n), mem'))
        × Str mem' str (take (length xs - n) xs)
unfolding remove
remove-Str mem str n xs ne h small small' = elim (dec_lt (length xs) n) [
  | yes lt ↦ inl (lt, ground (arith, strlen-Str mem str xs ne h, Str-within mem str xs h))
  | no ge ↦
      (let q : ℕ = str + (length xs - n) in
        let cut : sub32 (length xs) n ≡ length xs - n = omega (arith, Str-within mem str xs h) in
        inr (
          omega arith,
          set mem q 0,
          ground (arith, strlen-Str mem str xs ne h, Str-within mem str xs h, poke-ok mem q 0),
          Str-take mem str (length xs - n) q xs h (omega arith) refl,
        ))
]

shift_up-bytes :
    (n : ℕ) (mem : Memory) (str location : ℕ)
    → str + location + n + 1 < length mem
    → (mem' : Memory) × (shift_up mem str location n ≡ some mem')
      × (length mem' ≡ length mem)
      × ((a : ℕ)
          → get_elem? mem' a ≡ (
              if ltb (str + location + 1) a && leb a (str + location + n + 1)
              then get_elem? mem (a - 1)
              else get_elem? mem a))
unfolding shift_up
shift_up-bytes zero mem str location room = (mem, refl, refl, λ a. ground arith)
shift_up-bytes (suc n) mem str location room =
    let (b, at) = get_elem?-within mem (str + (location + suc n)) (omega arith) in
    let q : ℕ = str + (location + suc n + 1) in
    let len = length-set mem q b in
    let (mem', run, size, bytes) = shift_up-bytes n (set mem q b) str location (omega arith) in
    (
      mem',
      rw (at, poke-ok mem q b (omega arith), run),
      size ∙ len,
      λ a. ground (arith, bytes a, get_elem?-set mem q a b, get_elem?-set mem q (a - 1) b),
    )

-- `insert` within a string writes over the byte at the location: that byte is lost, the one behind
-- it stands twice, and at the end of a string it is the zero byte that is lost.
pub insert-overwrites :
    (mem : Memory) (str location character : ℕ) (xs : List ℕ)
    → str ≢ 0
    → Str mem str xs
    → location ≤ length xs
    → str + length xs + 1 < length mem
    → (mem' : Memory) × (insert mem str location character ≡ some (pos (length xs + 1), mem'))
      × ((a : ℕ)
          → get_elem? mem' a ≡ (
              if a == str + location
              then some character
              else if ltb (str + location + 1) a && leb a (str + length xs + 1)
              then get_elem? mem (a - 1)
              else get_elem? mem a))
unfolding insert
insert-overwrites mem str location character xs ne h le room =
    let (m1, run, size, bytes) =
      shift_up-bytes (length xs - location) mem str location (omega arith) in
    let q : ℕ = str + location in
    (
      set m1 q character,
      rw (
        strlen-Str mem str xs ne h,
        le→ltb (length xs) location le,
        run,
        poke-ok m1 q character (omega arith),
      ),
      λ a. ground (arith, bytes a, get_elem?-set m1 q a character),
    )
