-- ===== src/Ring/Write.antt =====
-- `ringbuffer_write_index`: where it appends, and where it leaves the block.
use yanix.Common.{
  ℕ, suc, ◌+◌, ◌-◌, ◌^◌, ◌≤◌, ◌<◌, ◌≡◌, ◌≢◌, refl, ◌∙◌, Bool, true, ◌||◌, none, some, List, [], ◌∷◌,
  ◌++◌, arith, ◌==◌, if◌then◌else◌, length, length-set, lt→ltb, le→ltb, Returns, returns,
  length-append,
}
use native.Mathlib.Decide.{dec_lt}
use yanix.Common.Int.{ℤ, pos}
use yanix.Common.{overwrite, slice-overwrite, length-overwrite}
use yanix.Ring.{
  RingBuffer, Done, write_loop, ringbuffer_write_index, put_byte, u16, u32, sub32, nonblock,
  newline,
}
use yanix.Ring.Contents.{IsValid, contents, length-contents}

-- `cursize` after the bytes from round `i` on, with `stored` bytes held before the call.
abbrev commit : (nonblocking : Bool) (stored i cursize : ℕ) → List ℕ → ℕ
commit nb stored i cursize [] = cursize
commit nb stored i cursize (b ∷ bytes) =
    commit nb stored (i + 1) (if nb || b == newline then u32 (stored + i + 1) else cursize) bytes

write_loop-overwrite :
    (bytes : List ℕ) (rb : RingBuffer) (ind i : ℕ)
    → length rb.buffer ≡ 65535
    → ind + length bytes ≤ 65535
    → write_loop rb ind i bytes
      ≡ some (record rb {
        buffer = overwrite rb.buffer ind bytes;
        cursize =
            commit (nonblock rb.flags) (sub32 rb.virtual_end rb.virtual_begin) i rb.cursize bytes;
      })
unfolding write_loop
write_loop-overwrite [] rb ind i block fits = refl
write_loop-overwrite (b ∷ bytes) rb ind i block fits =
    let next : u16 (ind + 1) ≡ suc ind = omega arith in
    rw (lt→ltb ind (length rb.buffer) (omega arith), next)
      (write_loop-overwrite bytes (put_byte rb ind i b) (suc ind) (i + 1)
        (length-set rb.buffer ind b ∙ block) (omega arith))

write_loop-faults :
    (bytes : List ℕ) (rb : RingBuffer) (ind i : ℕ)
    → length rb.buffer ≡ 65535
    → ind ≤ 65535
    → 65535 < ind + length bytes
    → write_loop rb ind i bytes ≡ none
unfolding write_loop
write_loop-faults [] rb ind i block at past = absurd (omega arith)
write_loop-faults (b ∷ bytes) rb ind i block at past = elim (dec_lt ind 65535) [
  | yes below ↦
      (let next : u16 (ind + 1) ≡ suc ind = omega arith in
        rw (lt→ltb ind (length rb.buffer) (omega arith), next)
          (write_loop-faults bytes (put_byte rb ind i b) (suc ind) (i + 1)
            (length-set rb.buffer ind b ∙ block) (omega arith) (omega arith)))
  | no end ↦ rw (le→ltb ind (length rb.buffer) (omega arith))
]

commit-le :
    (nb : Bool) (stored i cursize : ℕ) (bytes : List ℕ)
    → cursize ≤ stored + i
    → commit nb stored i cursize bytes ≤ stored + i + length bytes
commit-le nb stored i cursize [] h = omega arith
commit-le nb stored i cursize (b ∷ bytes) h =
    let next : ℕ = if nb || b == newline then u32 (stored + i + 1) else cursize in
    let small : next ≤ stored + (i + 1) = ground arith in
    omega (arith, commit-le nb stored (i + 1) next bytes small)

-- In the mode that does not block all that is held may be read after a write.
commit-nonblock :
    (stored i cursize : ℕ) (bytes : List ℕ)
    → stored + i + length bytes < 2 ^ 32
    → commit true stored i cursize bytes
      ≡ (if length bytes == 0 then cursize else stored + i + length bytes)
commit-nonblock stored i cursize [] h = refl
commit-nonblock stored i cursize (b ∷ bytes) h =
    ground (arith, commit-nonblock stored (i + 1) (u32 (stored + i + 1)) bytes)

nonempty :
    (a b c : ℕ) (bytes : List ℕ)
    → bytes ≢ []
    → a + length bytes ≡ b
    → (if length bytes == 0 then c else a + length bytes) ≡ b
nonempty a b c [] more e = absurd (more refl)
nonempty a b c (x ∷ bytes) more e = ground arith

-- What a write that stays in the block does.
pub record Wrote (rb : RingBuffer) (bytes : List ℕ) (done : Done ℤ) : Type 0 where
  pub valid : IsValid done.ring
  pub result : done.result ≡ pos (length bytes)
  pub appended : contents done.ring ≡ contents rb ++ bytes
  pub begin : done.ring.virtual_begin ≡ rb.virtual_begin
  pub lock : done.ring.spinlock ≡ rb.spinlock
  pub readable :
      nonblock rb.flags ≡ true → bytes ≢ [] → done.ring.cursize ≡ length (contents rb ++ bytes)

pub write_index-Wrote :
    {rb : RingBuffer} (bytes : List ℕ)
    → IsValid rb
    → rb.virtual_end + length bytes ≤ 65535
    → Returns (Wrote rb bytes) (ringbuffer_write_index bytes rb.virtual_end rb)
unfolding ringbuffer_write_index
write_index-Wrote {rb} bytes h fits =
    let start : u16 rb.virtual_end ≡ rb.virtual_end = omega arith in
    let stored : sub32 rb.virtual_end rb.virtual_begin ≡ rb.virtual_end - rb.virtual_begin =
      omega arith in
    let end : u32 (rb.virtual_end + length bytes) ≡ rb.virtual_end + length bytes = omega arith in
    let run = write_loop-overwrite bytes rb rb.virtual_end 0 h.block fits in
    rw (h.mode, start, run)
      (returns (record {
        valid = record {
          mode = h.mode;
          block = length-overwrite rb.buffer rb.virtual_end bytes ∙ h.block;
          order = omega arith;
          inside = omega arith;
          committed = omega (
            arith,
            commit-le (nonblock rb.flags) (sub32 rb.virtual_end rb.virtual_begin) 0 rb.cursize bytes
                (omega arith),
          );
        };
        result = refl;
        appended =
            rw end (
              slice-overwrite bytes rb.buffer rb.virtual_begin rb.virtual_end h.order
                (omega arith));
        begin = refl;
        lock = refl;
        readable = λ nb more. rw nb (
            commit-nonblock (sub32 rb.virtual_end rb.virtual_begin) 0 rb.cursize bytes (omega arith)
            ∙ nonempty _ _ rb.cursize bytes more
                (omega (arith, length-contents h, length-append (contents rb) bytes)));
      }))

-- `ringbuffer_write_index` at the end of a valid buffer of more bytes than are left of the block, counted from its
-- start whatever has been read since, writes outside the block.
pub write_index-faults :
    {rb : RingBuffer} (bytes : List ℕ)
    → IsValid rb
    → 65535 < rb.virtual_end + length bytes
    → ringbuffer_write_index bytes rb.virtual_end rb ≡ none
unfolding ringbuffer_write_index
write_index-faults {rb} bytes h past =
    let start : u16 rb.virtual_end ≡ rb.virtual_end = omega arith in
    let run = write_loop-faults bytes rb rb.virtual_end 0 h.block h.inside past in
    rw (h.mode, start, run)
