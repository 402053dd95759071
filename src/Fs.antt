-- ===== src/Fs.antt =====
-- kernel/fs/fs.c: `fs_read` and `fs_write`, which cut a transfer at any offset into transfers of whole
-- blocks. The block functions of the file system are arguments, over a state of theirs.
pub mod Device
pub mod Read
pub mod Overrun
pub mod Write
pub mod Tests
use yanix.Common.{
  ℕ, zero, suc, ◌+◌, ◌-◌, ◌*◌, ◌%◌, ◌/◌, ◌^◌, Bool, true, false, not, ◌&&◌, Option, none, some,
  List, [], ◌∷◌, ◌++◌, ◌==◌, ltb, leb, if◌then◌else◌, length, take, drop, overwrite, ◌>>=◌, ◌>>◌,
  check,
}

-- How far a transfer has come: whether it has returned, the bytes transferred, and the next block.
pub record Progress : Type 0 where
  pub stopped : Bool
  pub ret : ℕ
  pub block : ℕ

-- The last, partial block: how many bytes of it.
abbrev pub end_rest : (blocksize s_rest amount : ℕ) → ℕ
end_rest blocksize s_rest amount =
    if not (s_rest == 0) && ltb amount (blocksize - s_rest)
    then 0
    else ((amount + (blocksize - s_rest)) % 2 ^ 32) % blocksize

-- The first, partial block: how many bytes of it.
abbrev pub start_size : (blocksize s_rest amount : ℕ) → ℕ
start_size blocksize s_rest amount =
    if ltb amount (blocksize - s_rest) then amount else blocksize - s_rest

module _ {D : Type 0} (block_read : (block count : ℕ) → D → ℕ × List ℕ) where
  -- The bytes that go to the caller's buffer, of `room` bytes, behind those that are there.
  abbrev pub put : (room : ℕ) → (out bytes : List ℕ) → Option (List ℕ)
  put room out bytes = if leb (length out + length bytes) room then some (out ++ bytes) else none

  unfoldable pub read_start :
      (blocksize s_rest amount block room : ℕ) → D → Option (Progress × List ℕ)
  read_start blocksize s_rest amount block room d =
      if s_rest == 0 then some (record { stopped = false; ret = 0; block = block }, []) else (do
        let (r, tmp) = block_read block 1 d
        let size = start_size blocksize s_rest amount
        if r == 0 then some (record { stopped = true; ret = 0; block = block + 1 }, []) else (do
          out ← put room [] (take size (drop s_rest tmp))
          some (record { stopped = false; ret = size; block = block + 1 }, out)))

  unfoldable pub read_blocks :
      (blocksize blkcnt room : ℕ) → D → Progress → List ℕ → Option (Progress × List ℕ)
  read_blocks blocksize blkcnt room d p out = if blkcnt == 0 then some (p, out) else (do
    let (blks, bytes) = block_read p.block blkcnt d
    out' ← put room out bytes
    some (
      record {
        stopped = not (blks == blkcnt);
        ret = p.ret + blks * blocksize;
        block = p.block + blkcnt;
      },
      out',
    ))

  unfoldable pub read_end : (e_rest room : ℕ) → D → Progress → List ℕ → Option (Progress × List ℕ)
  read_end e_rest room d p out = if e_rest == 0 then some (p, out) else (do
    let (r, tmp) = block_read p.block 1 d
    if r == 0 then some (p, out) else (do
      out' ← put room out (take e_rest tmp)
      some (record p { ret = p.ret + e_rest }, out')))

  -- What is returned, and the bytes in the buffer.
  unfoldable pub fs_read : (blocksize seek amount room : ℕ) → D → Option (ℕ × List ℕ)
  fs_read blocksize seek amount room d = do
    check (not (blocksize == 0))
    let s_rest = seek % blocksize
    (p, out) ← read_start blocksize s_rest amount (seek / blocksize) room d
    if p.stopped then some (p.ret, out) else (do
      (p, out) ← read_blocks blocksize (amount / blocksize) room d p out
      if p.stopped then some (p.ret, out) else (do
        (p, out) ← read_end (end_rest blocksize s_rest amount) room d p out
        some (p.ret, out)))

-- `ret + seek` of two `int`s, the first of them modulo 2 ^ 32 and the second not negative.
abbrev pub sum_of : (ret seek : ℕ) → Option ℕ
sum_of ret seek =
    if ltb ret (2 ^ 31) && not (ltb (ret + seek) (2 ^ 31))
    then none
    else some ((ret + seek) % 2 ^ 32)

-- The bytes of the caller's buffer from `p` on.
abbrev pub get : (buf : List ℕ) (p n : ℕ) → Option (List ℕ)
get buf p n = if leb (p + n) (length buf) then some (take n (drop p buf)) else none

module _ {D : Type 0} (block_read : (block count : ℕ) → D → ℕ × List ℕ)
    (block_write : (block count : ℕ) (bytes : List ℕ) → D → ℕ × D) where
  unfoldable pub write_start :
      (blocksize s_rest amount block : ℕ) (buf : List ℕ) → D → Option (Progress × D)
  write_start blocksize s_rest amount block buf d =
      if s_rest == 0 then some (record { stopped = false; ret = 0; block = block }, d) else (do
        let tmp = (block_read block 1 d).1
        let size = start_size blocksize s_rest amount
        bytes ← get buf 0 size
        let d' = (block_write block 1 (overwrite tmp s_rest bytes) d).1
        some (record { stopped = false; ret = size; block = block + 1 }, d'))

  unfoldable pub write_blocks :
      (blocksize blkcnt : ℕ) (buf : List ℕ) → Progress → D → Option (Progress × D)
  write_blocks blocksize blkcnt buf p d = if blkcnt == 0 then some (p, d) else (do
    bytes ← get buf p.ret (blkcnt * blocksize)
    let (blks, d') = block_write p.block blkcnt bytes d
    some (
      record {
        stopped = not (blks == blkcnt);
        ret = p.ret + blks * blocksize;
        block = p.block + blks;
      },
      d',
    ))

  unfoldable pub write_end : (e_rest : ℕ) (buf : List ℕ) → Progress → D → Option (Progress × D)
  write_end e_rest buf p d = if e_rest == 0 then some (p, d) else (do
    let tmp = (block_read p.block 1 d).1
    bytes ← get buf p.ret e_rest
    let d' = (block_write p.block 1 (overwrite tmp 0 bytes) d).1
    some (record p { ret = p.ret + e_rest }, d'))

  -- `update_node` is the function of the file system, with the length that the node has then. What is
  -- returned, and that length, if it is set.
  unfoldable pub fs_write :
      (update_node : (filelength : ℕ) → D → Option D) (blocksize seek amount : ℕ) (buf : List ℕ)
      → D
      → Option (ℕ × Option ℕ × D)
  fs_write update_node blocksize seek amount buf d = do
    check (not (blocksize == 0))
    let s_rest = seek % blocksize
    let e_rest = end_rest blocksize s_rest amount
    (p, d) ← write_start blocksize s_rest amount (seek / blocksize) buf d
    (p, d) ← write_blocks blocksize ((amount + 2 ^ 32 - e_rest) % 2 ^ 32 / blocksize) buf p d
    if p.stopped then some (p.ret % 2 ^ 32, none, d) else (do
      (p, d) ← write_end e_rest buf p d
      let ret = p.ret % 2 ^ 32
      filelength ← sum_of ret seek
      d ← update_node filelength d
      some (ret, some filelength, d))
