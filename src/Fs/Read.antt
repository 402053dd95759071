-- ===== src/Fs/Read.antt =====
-- `fs_read` from the start of a block: the bytes of the file, as many as were asked for.
use yanix.Common.{
  ℕ, zero, suc, ◌+◌, ◌-◌, ◌*◌, ◌/◌, ◌%◌, ◌^◌, ◌≤◌, ◌<◌, ◌≡◌, refl, false, some, List, [], ◌∷◌, ◌++◌,
  arith, length, le→leb, ne→==, eq→==, take, drop, length-take, length-drop, slice, drop-drop,
  take-take,
}
use native.Mathlib.Nat.{
  mul-div_cancel, mul-mod_left, mod-lt, lt_of_mul-lt-mul_right, mul-le-mul_right, div-add-mod',
  add-mod_right,
}
use yanix.Fs.{Progress, end_rest, read_start, read_blocks, read_end, fs_read}
use yanix.Fs.Device.{Device}

pub take-add :
    {A : Type 0} → (m n : ℕ) (xs : List A) → take (m + n) xs ≡ take m xs ++ take n (drop m xs)
take-add zero n xs = let e : zero + n ≡ n = omega arith in rw e refl
take-add (suc m) zero [] = let e : suc m + 0 ≡ suc m = omega arith in rw e refl
take-add (suc m) (suc n) [] = let e : suc m + suc n ≡ suc (m + suc n) = omega arith in rw e refl
take-add (suc m) n (x ∷ xs) =
    let e : suc m + n ≡ suc (m + n) = omega arith in rw (e, take-add m n xs) refl

pub slice-append :
    {A : Type 0}
    → (xs : List A) (i m n : ℕ)
    → slice xs i (i + m) ++ slice xs (i + m) (i + m + n) ≡ slice xs i (i + m + n)
slice-append xs i m n =
    let e : i + m - i ≡ m = omega arith in
    let f : i + m + n - (i + m) ≡ n = omega arith in
    let g : i + m + n - i ≡ m + n = omega arith in
    rw (e, f, g, take-add m n (drop i xs), drop-drop xs i m) refl

pub length-slice :
    {A : Type 0} → (xs : List A) (i n : ℕ) → i + n ≤ length xs → length (slice xs i (i + n)) ≡ n
length-slice xs i n le =
    let e : i + n - i ≡ n = omega arith in
    rw (e) (omega (arith, length-take n (drop i xs), length-drop i xs))

pub take-slice :
    {A : Type 0}
    → (xs : List A) (i m n : ℕ) → n ≤ m
    → take n (slice xs i (i + m)) ≡ slice xs i (i + n)
take-slice xs i m n le =
    let e : i + m - i ≡ m = omega arith in
    let f : i + n - i ≡ n = omega arith in rw (e, f) (take-take (drop i xs) m n le)

-- The rest in the last block, from the start of a block.
pub end_rest-aligned :
    (bs amount : ℕ) → 0 < bs → amount + bs < 2 ^ 32 → end_rest bs 0 amount ≡ amount % bs
end_rest-aligned bs amount some_size small =
    let e : (amount + (bs - 0)) % 2 ^ 32 ≡ amount + bs = omega arith in
    rw (e, add-mod_right amount bs) refl

module _ {D : Type 0} (block_read : (block count : ℕ) → D → ℕ × List ℕ)
    (block_write : (block count : ℕ) (bytes : List ℕ) → D → ℕ × D) (bs : ℕ) (content : D → List ℕ)
    (IsValid : D → Type 0) (device : Device D block_read block_write bs content IsValid) where
  -- The whole blocks.
  read_blocks-slice :
      (q k room : ℕ) (d : D)
      → IsValid d
      → (q + k) * bs ≤ length (content d)
      → k * bs ≤ room
      → read_blocks block_read bs k room d (record { stopped = false; ret = 0; block = q }) []
        ≡ some (
          record { stopped = false; ret = k * bs; block = q + k },
          slice (content d) (q * bs) (q * bs + k * bs),
        )
  unfolding read_blocks
  read_blocks-slice q zero room d v le fits =
      let none_read : q * bs + 0 * bs - q * bs ≡ 0 = omega arith in
      let e : 0 * bs ≡ 0 = omega arith in
      let f : q + 0 ≡ q = omega arith in rw (none_read, e, f) refl
  read_blocks-slice q (suc k) room d v le fits =
      let sum : (q + suc k) * bs ≡ q * bs + suc k * bs = grind arith in
      let long = length-slice (content d) (q * bs) (suc k * bs) (rw sum at le) in
      let all = length (slice (content d) (q * bs) (q * bs + suc k * bs)) in
      let fits' : 0 + all ≤ room = omega arith in
      let e : 0 + suc k * bs ≡ suc k * bs = omega arith in
      rw
        (
          ne→== (suc k) 0 (omega arith),
          device.read q (suc k) d v le,
          sum,
          eq→== (suc k) (suc k) refl,
        )
        (rw (le→leb (0 + all) room fits', e) refl)

  -- The bytes of the last block.
  read_end-slice :
      (q k e room : ℕ) (d : D) (p : Progress)
      → IsValid d
      → p.block ≡ q + k
      → (0 < e → (q + k + 1) * bs ≤ length (content d))
      → q * bs + k * bs ≤ length (content d)
      → e < bs
      → k * bs + e ≤ room
      → read_end block_read e room d p (slice (content d) (q * bs) (q * bs + k * bs))
        ≡ some (record p { ret = p.ret + e }, slice (content d) (q * bs) (q * bs + k * bs + e))
  unfolding read_end
  read_end-slice q k zero room d p v at le before small fits =
      let f : p.ret + 0 ≡ p.ret = omega arith in
      let g : q * bs + k * bs + 0 ≡ q * bs + k * bs = omega arith in rw (f, g) refl
  read_end-slice q k (suc e) room d p v at le before small fits =
      let out = slice (content d) (q * bs) (q * bs + k * bs) in
      let base : (q + k) * bs ≡ q * bs + k * bs = grind arith in
      let sum : (q + k + 1) * bs ≡ q * bs + k * bs + bs = grind arith in
      let whole = le (omega arith) in
      let part = take-slice (content d) (q * bs + k * bs) bs (suc e) (omega arith) in
      let joined = slice-append (content d) (q * bs) (k * bs) (suc e) in
      let long = length-slice (content d) (q * bs) (k * bs) before in
      let some_block = rw sum at whole in
      let long' = length-slice (content d) (q * bs + k * bs) (suc e) (omega arith) in
      let fits' : length out
            + length (slice (content d) (q * bs + k * bs) (q * bs + k * bs + suc e))
          ≤ room =
        omega arith in
      rw
        (
          ne→== (suc e) 0 (omega arith),
          at,
          device.read (q + k) 1 d v whole,
          base,
          sum,
          part,
          le→leb
              (length out + length (slice (content d) (q * bs + k * bs) (q * bs + k * bs + suc e)))
              room fits',
          joined,
        )
        refl

-- `fs_read` in a valid state, from the start of block `q`, within a file of `n` blocks and with room for the amount in
-- the buffer, never faults: it returns the amount, and the buffer has the bytes of the file.
pub fs_read-aligned :
    {D : Type 0} (block_read : (block count : ℕ) → D → ℕ × List ℕ)
    (block_write : (block count : ℕ) (bytes : List ℕ) → D → ℕ × D) (bs : ℕ) (content : D → List ℕ)
    (IsValid : D → Type 0)
    → Device D block_read block_write bs content IsValid
    → (q amount n room : ℕ) (d : D) → IsValid d
    → 0 < bs
    → amount + bs < 2 ^ 32
    → length (content d) ≡ n * bs
    → q * bs + amount ≤ n * bs
    → amount ≤ room
    → fs_read block_read bs (q * bs) amount room d
      ≡ some (amount, slice (content d) (q * bs) (q * bs + amount))
unfolding fs_read read_start
fs_read-aligned block_read block_write bs content IsValid device q amount n room d v some_size small
      whole within fits =
    let k = amount / bs in
    let e = amount % bs in
    let parts : k * bs + e ≡ amount = div-add-mod' amount bs in
    let base : (q + k) * bs ≡ q * bs + k * bs = grind arith in
    let blocks =
      read_blocks-slice block_read block_write bs content IsValid device q k room d v (omega arith)
        (omega arith) in
    let inside : 0 < e → (q + k + 1) * bs ≤ length (content d) = λ some_rest.
      let below : (q + k) * bs < n * bs = omega arith in
      let lt = lt_of_mul-lt-mul_right bs below in
      let top = mul-le-mul_right bs lt in
      let e1 : q + k + 1 ≡ suc (q + k) = omega arith in rw (e1, whole) top in
    let p : Progress = record { stopped = false; ret = k * bs; block = q + k } in
    let rest =
      read_end-slice block_read block_write bs content IsValid device q k e room d p v refl inside
        (omega arith) (mod-lt amount some_size) (omega arith) in
    let total : q * bs + k * bs + e ≡ q * bs + amount = omega arith in
    rw
      (
        ne→== bs 0 (omega arith),
        mul-mod_left q bs,
        mul-div_cancel q some_size,
        blocks,
        end_rest-aligned bs amount some_size small,
        rest,
        total,
        parts,
      )
      refl
