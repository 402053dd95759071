-- ===== src/Fd/Vector/Grow.antt =====
-- `vector_create` and `vector_expand` keep the invariant and every open entry.
use yanix.Common.{
  ℕ, ◌*◌, ◌^◌, ◌≤◌, ◌<◌, ◌≡◌, refl, Bool, true, false, none, some, arith, lt→ltb, replicate,
}
use yanix.Fd.Vector.{Vector, zeroed, create, expand, size_mul, sizeof_fd}
use yanix.Fd.Vector.Valid.{IsValid, entry, slot}
use yanix.Fd.Vector.Lemmas.{entries_lem, copy_into-zeroed, entry-replicate}

-- No block is larger than the kernel heap, KHEAP_MAXSIZE.
abbrev pub HeapLimit : (ℕ → Bool) → Type 0
HeapLimit kmalloc = (n : ℕ) → kmalloc n ≡ true → n ≤ 2 ^ 24

-- The vector `v'` holds the entries of `v` in a block of `maxsize` entries.
pub record Grown (v : Vector) (n : ℕ) (v' : Vector) : Type 0 where
  pub valid : IsValid v'
  pub maxsize : v'.maxsize ≡ n
  pub size : v'.size ≡ v.size
  pub same : (i : ℕ) → entry v'.buffer i ≡ entry v.buffer i

pub create-IsValid :
    (kmalloc : ℕ → Bool) {v : Vector}
    → create kmalloc ≡ some v
    → IsValid v × ((i : ℕ) → slot v i ≡ none)
unfolding create
create-IsValid kmalloc {v} h =
    let fresh : v ≡ record { buffer = replicate 8 zeroed; size = 0; maxsize = 8 } = ground arith in
    rw fresh (
      record {
        storage = refl;
        room = omega arith;
        small = omega arith;
        used = omega arith;
        unused = λ i p. entry-replicate 8 i;
      },
      λ i. ground (arith, entry-replicate 8 i),
    )

module _ {kmalloc : ℕ → Bool} (limit : HeapLimit kmalloc) {v : Vector} (h : IsValid v) where
  -- `vector_expand` of a valid vector to a capacity that is no smaller and that the heap grants
  -- returns 0; the vector is valid, has that capacity, and holds the same entries.
  pub expand-granted :
      (amount : ℕ)
      → v.maxsize ≤ v.maxsize * amount
      → v.maxsize * amount < 134217728
      → kmalloc (size_mul sizeof_fd (v.maxsize * amount)) ≡ true
      → (v' : Vector) × (expand kmalloc v amount ≡ some (true, v'))
        × Grown v (v.maxsize * amount) v'
  unfolding expand
  expand-granted amount le lt granted =
      let (ys, copied, len, same) =
        copy_into-zeroed v.buffer v.maxsize (v.maxsize * amount) h.storage le in
      let bound = limit _ granted in
      (
        record { buffer = ys; size = v.size; maxsize = v.maxsize * amount },
        rw (
          lt→ltb (v.maxsize * amount) (2 ^ 31) (omega arith),
          granted,
          entries_lem (v.maxsize * amount) lt,
          entries_lem v.maxsize (omega arith),
          copied,
        ),
        record {
          valid = record {
            storage = len;
            room = omega arith;
            small = omega arith;
            used = omega arith;
            unused = λ i p. rw (same i) (h.unused i p);
          };
          maxsize = refl;
          size = refl;
          same = same;
        },
      )

  pub expand-refused :
      (amount : ℕ)
      → v.maxsize * amount < 134217728
      → kmalloc (size_mul sizeof_fd (v.maxsize * amount)) ≡ false
      → expand kmalloc v amount ≡ some (false, v)
  unfolding expand
  expand-refused amount lt refused =
      rw (lt→ltb (v.maxsize * amount) (2 ^ 31) (omega arith), refused)
