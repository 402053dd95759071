-- ===== src/Ring/Tests.antt =====
-- Runs of kernel/yanix/ds/ringbuffer.c on a block of USHRT_MAX bytes.
use yanix.Common.{ℕ, ◌<◌, refl, List, [], ◌∷◌, arith, length, replicate, Returns, length-replicate}
use yanix.Common.{◌≡◌, some, ◌^◌, ◌+◌}
use yanix.Common.Int.{ℤ, pos}
use yanix.Ring.{RingBuffer, Done, ringbuffer_read_index, ringbuffer_write_index}
use yanix.Ring.Contents.{IsValid, contents, length-contents}
use yanix.Ring.Read.{Took, read_index-Took}
use yanix.Ring.Transfer.{Delivered, read_index-write_index}

abbrev zeros : ℕ → List ℕ
zeros n = replicate n 0

-- Two bytes, neither of them for a reader yet.
abbrev two_bytes : RingBuffer
two_bytes = record {
  size = 65535;
  virtual_end = 2;
  virtual_begin = 0;
  buffer = 104 ∷ 105 ∷ zeros 65533;
  cursize = 0;
  spinlock = 0;
  flags = 1;
}

two_bytes-IsValid : IsValid two_bytes
two_bytes-IsValid = record {
  mode = refl;
  block = omega (arith, length-replicate {A = ℕ} 65533 0);
  order = omega arith;
  inside = omega arith;
  committed = omega arith;
}

-- A block that is used up but for nothing, with its last byte unread.
abbrev used_up : RingBuffer
used_up = record {
  size = 65535;
  virtual_end = 65535;
  virtual_begin = 65534;
  buffer = zeros 65535;
  cursize = 0;
  spinlock = 0;
  flags = 1;
}

used_up-IsValid : IsValid used_up
used_up-IsValid = record {
  mode = refl;
  block = length-replicate {A = ℕ} 65535 0;
  order = omega arith;
  inside = omega arith;
  committed = omega arith;
}

-- The same bytes in the mode that does not block.
abbrev at_once : RingBuffer
at_once = record two_bytes { flags = 2 ^ 14 + 1 }

at_once-IsValid : IsValid at_once
at_once-IsValid = record {
  mode = refl;
  block = omega (arith, length-replicate {A = ℕ} 65533 0);
  order = omega arith;
  inside = omega arith;
  committed = omega arith;
}

read_index-write_index_example :
    (w : Done ℤ) × (r : Done (ℤ × List ℕ)) × (ringbuffer_write_index (7 ∷ 8 ∷ []) 2 at_once
      ≡ some w)
    × (ringbuffer_read_index 9 w.ring.virtual_begin w.ring ≡ some r)
    × (w.result ≡ pos 2)
    × Delivered (104 ∷ 105 ∷ 7 ∷ 8 ∷ []) r
read_index-write_index_example =
    read_index-write_index (7 ∷ 8 ∷ []) 9 at_once-IsValid refl (λ e. cc) (omega arith) (omega arith)
      (omega arith)

read_index-Took_example : Returns (Took two_bytes 1) (ringbuffer_read_index 1 0 two_bytes)
read_index-Took_example = read_index-Took 1 two_bytes-IsValid (omega arith)

used_up-length : 0 < length (contents used_up)
used_up-length = omega (arith, length-contents used_up-IsValid)
