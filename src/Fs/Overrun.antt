-- ===== src/Fs/Overrun.antt =====
-- `fs_read` from within a block: a read that ends before the end of the block, and one that ends there.
use yanix.Common.{
  ℕ, ◌+◌, ◌-◌, ◌*◌, ◌/◌, ◌%◌, ◌^◌, ◌≤◌, ◌<◌, ◌≡◌, ◌≢◌, refl, ◌∙◌, false, none, some, List, arith,
  ltb, leb, length, lt→ltb, le→ltb, le→leb, lt→leb, ne→==, slice, drop-slice, ◌⊎◌, inl, inr, Bool,
  true, if◌then◌else◌, ap, Option, ◌>>=◌, ◌++◌,
}
use native.Mathlib.Decide.{dec_le}
use native.Mathlib.Nat.{
  mod-eq_of_lt, div-eq_of_lt, add-mod_left, mul-add-div_right, add-mul-mod_self_right,
}
use yanix.Fs.{Progress, start_size, read_start, read_blocks, read_end, fs_read}
use yanix.Fs.Device.{Device}
use yanix.Fs.Read.{length-slice, take-slice, slice-append}

within-mod : (q r bs : ℕ) → r < bs → (q * bs + r) % bs ≡ r
within-mod q r bs lt =
    let e : q * bs + r ≡ r + q * bs = omega arith in
    rw (e, add-mul-mod_self_right r q bs) (mod-eq_of_lt lt)

within-div : (q r bs : ℕ) → r < bs → (q * bs + r) / bs ≡ q
within-div q r bs lt =
    let e = div-eq_of_lt lt in mul-add-div_right (omega arith) q r ∙ omega (arith, e)

module _ {D : Type 0} (block_read : (block count : ℕ) → D → ℕ × List ℕ)
    (block_write : (block count : ℕ) (bytes : List ℕ) → D → ℕ × D) (bs : ℕ) (content : D → List ℕ)
    (IsValid : D → Type 0) (device : Device D block_read block_write bs content IsValid) where
  -- The bytes of the first block.
  read_start-slice :
      (q r amount n room : ℕ) (d : D)
      → IsValid d
      → 0 < r
      → r < bs
      → (q + 1) * bs ≤ length (content d)
      → start_size bs r amount ≡ n
      → n ≤ room
      → n ≤ bs - r
      → read_start block_read bs r amount q room d
        ≡ some (
          record { stopped = false; ret = n; block = q + 1 },
          slice (content d) (q * bs + r) (q * bs + r + n),
        )
  unfolding read_start
  read_start-slice q r amount n room d v some_rest lt le sized fits size =
      let sum : (q + 1) * bs ≡ q * bs + r + (bs - r) = grind arith in
      let tail = drop-slice (content d) (q * bs) (q * bs + r + (bs - r)) r in
      let part = take-slice (content d) (q * bs + r) (bs - r) n size in
      let whole = (rw sum at le) in
      let long = length-slice (content d) (q * bs + r) n (omega arith) in
      let fits' : 0 + length (slice (content d) (q * bs + r) (q * bs + r + n)) ≤ room =
        omega arith in
      let ne : r ≢ 0 = λ z. omega (arith, z) in
      rw
        (
          ne→== r 0 ne,
          device.read q 1 d v le,
          sum,
          tail,
          sized,
          part,
          le→leb (0 + length (slice (content d) (q * bs + r) (q * bs + r + n))) room fits',
        )
        refl

-- `fs_read` in a valid state, from within block `q` of the file, at most to before the end of the block, never
-- faults where the buffer has room: it returns the amount, and the buffer has the bytes of the file.
pub fs_read-inside :
    {D : Type 0} (block_read : (block count : ℕ) → D → ℕ × List ℕ)
    (block_write : (block count : ℕ) (bytes : List ℕ) → D → ℕ × D) (bs : ℕ) (content : D → List ℕ)
    (IsValid : D → Type 0)
    → Device D block_read block_write bs content IsValid
    → (q r amount room : ℕ) (d : D) → IsValid d
    → 0 < r
    → r + amount < bs
    → (q + 1) * bs ≤ length (content d)
    → amount ≤ room
    → fs_read block_read bs (q * bs + r) amount room d
      ≡ some (amount, slice (content d) (q * bs + r) (q * bs + r + amount))
unfolding fs_read read_blocks read_end
fs_read-inside block_read block_write bs content IsValid device q r amount room d v some_rest lt le
      fits =
    let below : amount < bs - r = omega arith in
    let test = lt→ltb amount (bs - r) below in
    let sized : start_size bs r amount ≡ amount = rw test refl in
    let start =
      read_start-slice block_read block_write bs content IsValid device q r amount amount room d v
        some_rest (omega arith) le sized fits (omega arith) in
    rw
      (
        ne→== bs 0 (λ z. omega (arith, z)),
        within-mod q r bs (omega arith),
        within-div q r bs (omega arith),
        start,
        div-eq_of_lt (let h : amount < bs = omega arith in h),
        ne→== r 0 (λ z. omega (arith, z)),
        test,
      )
      refl

taken :
    (b : Bool) (p : Progress) (out : List ℕ)
    → (let step : List ℕ → Option (Progress × List ℕ) = λ o. some (p, o) in
        let last : Progress × List ℕ → Option (ℕ × List ℕ) = λ x. some (x.0.ret, x.1) in
        ((if b then some out else none) >>= step) >>= last)
      ≡ (if b then some (p.ret, out) else none)
taken true p out = refl
taken false p out = refl

module _ {D : Type 0} (block_read : (block count : ℕ) → D → ℕ × List ℕ)
    (block_write : (block count : ℕ) (bytes : List ℕ) → D → ℕ × D) (bs : ℕ) (content : D → List ℕ)
    (IsValid : D → Type 0) (device : Device D block_read block_write bs content IsValid) where
  -- A read up to the end of block `q` puts the start of the next block behind it, where there is room.
  to_end :
      (q r n more room : ℕ) (d : D) (b : Bool)
      → IsValid d
      → 0 < r
      → 0 < more
      → r + n ≡ bs
      → r + r + more ≡ bs
      → bs + bs < 2 ^ 32
      → (q + 2) * bs ≤ length (content d)
      → n ≤ room
      → leb (n + more) room ≡ b
      → fs_read block_read bs (q * bs + r) n room d ≡ (
          if b
          then some (n + more, slice (content d) (q * bs + r) (q * bs + r + n + more))
          else none)
  unfolding fs_read read_blocks read_end
  to_end q r n more room d b v some_rest some_more size half small le fits enough =
      let block : bs - r ≡ n = omega (arith, size) in
      let test : ltb n (bs - r) ≡ false = le→ltb n (bs - r) (omega (arith, block)) in
      let sized : start_size bs r n ≡ n = rw (test) block in
      let one' : (q + 1) * bs ≡ q * bs + bs = grind arith in
      let next : (q + 1 + 1) * bs ≡ q * bs + bs + bs = grind arith in
      let two : (q + 2) * bs ≡ q * bs + bs + bs = grind arith in
      let whole = (rw two at le) in
      let start =
        read_start-slice block_read block_write bs content IsValid device q r n n room d v some_rest
          (omega (arith, size, some_more, half)) (rw (one') (omega arith)) sized fits
          (omega (arith, block)) in
      let twice : (n + (bs - r)) % 2 ^ 32 ≡ bs + more = omega (arith, size, half, small) in
      let rest : (n + (bs - r)) % 2 ^ 32 % bs ≡ more =
        rw (twice, add-mod_left bs more) (mod-eq_of_lt (omega (arith, half, some_rest))) in
      let end_is : q * bs + bs ≡ q * bs + r + n = omega (arith, size) in
      let part = take-slice (content d) (q * bs + bs) bs more (omega (arith, half)) in
      let long = length-slice (content d) (q * bs + r) n (omega (arith, size)) in
      let long' = length-slice (content d) (q * bs + bs) more (omega (arith, half)) in
      let both = slice-append (content d) (q * bs + r) n more in
      rw
        (
          ne→== bs 0 (λ z. omega (arith, z, size, some_rest)),
          within-mod q r bs (omega (arith, half, some_more)),
          within-div q r bs (omega (arith, half, some_more)),
          start,
          div-eq_of_lt (let h : n < bs = omega (arith, size, some_rest) in h),
          ne→== r 0 (λ z. omega (arith, z)),
          test,
          rest,
          ne→== more 0 (λ z. omega (arith, z)),
          device.read (q + 1) 1 d v (rw next (omega arith)),
          next,
          one',
          part,
          long,
          long',
          enough,
        )
        (taken b (record { stopped = false; ret = n + more; block = q + 1 })
            (slice (content d) (q * bs + r) (q * bs + r + n)
              ++ slice (content d) (q * bs + bs) (q * bs + bs + more))
          ∙ ap (λ bytes. if b then some (n + more, bytes) else none) (rw end_is both))

-- `fs_read` in a valid state, from within block `q` of the file, before its middle, of the `n` bytes up
-- to its end, while the file has another block. It goes on with bytes of the next block, as many as lie
-- between twice the offset within the block and the block's size: a buffer without room for those too
-- is overrun, which faults, and with room for them the read returns more than the amount asked for,
-- and the buffer has the bytes of both blocks.
pub fs_read-overruns :
    {D : Type 0} (block_read : (block count : ℕ) → D → ℕ × List ℕ)
    (block_write : (block count : ℕ) (bytes : List ℕ) → D → ℕ × D) (bs : ℕ) (content : D → List ℕ)
    (IsValid : D → Type 0)
    → Device D block_read block_write bs content IsValid
    → (q r n more room : ℕ) (d : D) → IsValid d
    → 0 < r
    → 0 < more
    → r + n ≡ bs
    → r + r + more ≡ bs
    → bs + bs < 2 ^ 32
    → (q + 2) * bs ≤ length (content d)
    → n ≤ room
    → ((room < n + more) × (fs_read block_read bs (q * bs + r) n room d ≡ none))
      ⊎ ((n + more ≤ room)
          × (fs_read block_read bs (q * bs + r) n room d
              ≡ some (n + more, slice (content d) (q * bs + r) (q * bs + r + n + more))))
fs_read-overruns block_read block_write bs content IsValid device q r n more room d v some_rest
      some_more size half small le fits =
    let run = λ (b : Bool).
      to_end block_read block_write bs content IsValid device q r n more room d b v some_rest
        some_more size half small le fits in
    elim (dec_le (n + more) room) [
      | yes enough ↦ inr (enough, run true (le→leb (n + more) room enough))
      | no short ↦
          inl (omega (arith, short), run false (lt→leb (n + more) room (omega (arith, short))))
    ]
