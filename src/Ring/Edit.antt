-- ===== src/Ring/Edit.antt =====
-- `ringbuffer_flush`, and `ringbuffer_remove` of the last byte, which is how a terminal erases.
use yanix.Common.{
  ◌-◌, ◌<◌, ◌≡◌, refl, sym, ap, ◌∙◌, none, [], arith, length, length-set, lt→ltb, le→ltb, ne→==,
  Returns, returns, take, drop,
}
use yanix.Common.Int.{ℤ, pos}
use yanix.Common.{slice-set_past, take-take}
use yanix.Ring.{RingBuffer, Done, ringbuffer_flush, ringbuffer_remove, sub32}
use yanix.Ring.Contents.{IsValid, contents, length-contents}

-- `ringbuffer_flush` throws away all that is held, and keeps the buffer valid.
pub flush-empty :
    {rb : RingBuffer}
    → IsValid rb
    → IsValid (ringbuffer_flush rb)
      × (contents (ringbuffer_flush rb) ≡ [])
      × ((ringbuffer_flush rb).cursize ≡ 0)
unfolding ringbuffer_flush
flush-empty {rb} h = (
  record {
    mode = h.mode;
    block = h.block;
    order = omega arith;
    inside = h.inside;
    committed = omega arith;
  },
  ap (λ k. take k (drop rb.virtual_end rb.buffer)) {x = rb.virtual_end - rb.virtual_end} {y = 0}
      (omega arith),
  refl,
)

-- What removing the last byte does.
pub record Erased (rb : RingBuffer) (done : Done ℤ) : Type 0 where
  pub valid : IsValid done.ring
  pub result : done.result ≡ pos 0
  pub left : contents done.ring ≡ take (length (contents rb) - 1) (contents rb)

-- `ringbuffer_remove` of location 1 on a valid buffer drops the newest byte and returns 0, where a
-- byte is held that no reader may take yet and the block is not used up.
pub remove-Erased :
    {rb : RingBuffer}
    → IsValid rb
    → rb.cursize < length (contents rb)
    → rb.virtual_end < 65535
    → Returns (Erased rb) (ringbuffer_remove 1 rb)
unfolding ringbuffer_remove
remove-Erased {rb} h more room =
    let held = length-contents h in
    let last : sub32 rb.virtual_end 1 ≡ rb.virtual_end - 1 = omega arith in
    rw
      (
        ne→== (sub32 rb.virtual_end rb.virtual_begin) 0 (λ e. omega arith),
        h.mode,
        lt→ltb rb.virtual_end (length rb.buffer) (omega arith),
        last,
      )
      (returns (record {
        valid = record {
          mode = h.mode;
          block = length-set rb.buffer rb.virtual_end 0 ∙ h.block;
          order = omega arith;
          inside = omega arith;
          committed = omega arith;
        };
        result = refl;
        left =
            slice-set_past rb.buffer rb.virtual_begin (rb.virtual_end - 1) rb.virtual_end 0 h.order
              (omega arith)
            ∙ sym (
                take-take (drop rb.virtual_begin rb.buffer) (rb.virtual_end - rb.virtual_begin)
                  (rb.virtual_end - 1 - rb.virtual_begin) (omega arith))
            ∙ ap (λ k. take k (contents rb)) {x = rb.virtual_end - 1 - rb.virtual_begin}
                {y = length (contents rb) - 1} (omega (arith, held));
      }))

-- On a used-up block the terminating zero is written past its end.
pub remove-faults :
    {rb : RingBuffer}
    → IsValid rb
    → 0 < length (contents rb)
    → rb.virtual_end ≡ 65535
    → ringbuffer_remove 1 rb ≡ none
unfolding ringbuffer_remove
remove-faults {rb} h more full =
    let held = length-contents h in
    rw (
      ne→== (sub32 rb.virtual_end rb.virtual_begin) 0 (λ e. omega arith),
      h.mode,
      le→ltb rb.virtual_end (length rb.buffer) (omega arith),
    )
