-- ===== src/Queue/Fifo.antt =====
-- The queue of queue.c is a bounded first-in first-out queue, and its lock is never taken.
use yanix.Common.{
  ℕ, zero, suc, ◌+◌, ◌-◌, ◌≤◌, ◌<◌, ◌≡◌, refl, ◌∙◌, some, List, [], ◌∷◌, ◌++◌, arith, ◌==◌,
  if◌then◌else◌, length, length-set, get_elem?, get_elem?-within, lt→ltb, ne→==, eq→==, set,
  Returns, returns, take, drop, length-take,
}
use native.Mathlib.Decide.{ℕ_discrete}
use yanix.Common.Int.{ℤ, pos, negsuc}
use mathlib.Core.List.{append-nil, append_assoc}
use yanix.Common.{take-set_last, drop-set_before, drop-cons}
use yanix.Queue.{Queue, queue_pop, queue_push, move_down}

pub record IsValid (q : Queue) : Type 0 where
  pub block : length q.buffer ≡ q.capacity
  pub bounded : q.size ≤ q.capacity
  pub unlocked : q.lock ≡ 0

-- The elements, oldest first.
abbrev pub contents : Queue → List ℕ
contents q = take q.size q.buffer

-- The bounded queue that it stands for.
abbrev pub push_spec : (capacity : ℕ) → ℕ → List ℕ → ℤ × List ℕ
push_spec capacity x xs =
    if length xs == capacity then (negsuc 0, xs) else (pos (length xs), xs ++ x ∷ [])

abbrev pub pop_spec : List ℕ → ℕ × List ℕ
pop_spec [] = (0, [])
pop_spec (x ∷ xs) = (x, xs)

pub length-contents : {q : Queue} → IsValid q → length (contents q) ≡ q.size
length-contents {q} h = omega (arith, length-take q.size q.buffer, h.block)

pub record Implements {R : Type 0} (q : Queue) (spec : R × List ℕ) (out : R × Queue) : Type 0 where
  pub valid : IsValid out.1
  pub capacity : out.1.capacity ≡ q.capacity
  pub result : out.0 ≡ spec.0
  pub contents : contents out.1 ≡ spec.1

-- `queue_push` on a valid queue never faults or waits; it does what the bounded queue does, and
-- leaves the lock word 0.
pub push-Implements :
    {q : Queue} (x : ℕ)
    → IsValid q
    → Returns (Implements q (push_spec q.capacity x (contents q))) (queue_push x q)
unfolding queue_push
push-Implements {q} x h = elim (ℕ_discrete q.capacity q.size) [
  | yes full ↦
      rw (eq→== q.lock 0 h.unlocked, eq→== q.capacity q.size full)
        (returns (record {
          valid = record { block = h.block; bounded = h.bounded; unlocked = h.unlocked };
          capacity = refl;
          result = ground (arith, length-contents h);
          contents = ground (arith, length-contents h);
        }))
  | no room ↦
      rw
        (
          eq→== q.lock 0 h.unlocked,
          ne→== q.capacity q.size room,
          lt→ltb q.size (length q.buffer) (omega arith),
        )
        (returns (record {
          valid = record {
            block = length-set q.buffer q.size x ∙ h.block;
            bounded = omega arith;
            unlocked = refl;
          };
          capacity = refl;
          result = ground (arith, length-contents h);
          contents = ground (arith, length-contents h, take-set_last q.buffer q.size x);
        }))
]

move_down-shift :
    (n : ℕ) (xs : List ℕ) (i : ℕ)
    → i + n < length xs
    → (ys : List ℕ) × (move_down xs i n ≡ some ys)
      × (length ys ≡ length xs)
      × (take (i + n) ys ≡ take i xs ++ take n (drop (suc i) xs))
unfolding move_down
move_down-shift zero xs i lt = (xs, refl, refl, ground (arith, append-nil (take i xs)))
move_down-shift (suc n) xs i lt =
    let next : i + 1 ≡ suc i = omega arith in
    let (b, at) = get_elem?-within xs (suc i) (omega arith) in
    let (ys, run, len, moved) =
      move_down-shift n (set xs i b) (suc i) (omega (arith, length-set xs i b)) in
    (
      ys,
      rw (next, at, run),
      omega (arith, len, length-set xs i b),
      ground (
        arith,
        moved,
        take-set_last xs i b,
        drop-set_before xs (suc (suc i)) i b,
        drop-cons xs (suc i) at,
        append_assoc (take i xs) (b ∷ []) (take n (drop (suc (suc i)) xs)),
      ),
    )

drop_one :
    (n : ℕ) (xs : List ℕ) {x : ℕ}
    → get_elem? xs 0 ≡ some x
    → take (suc n) xs ≡ x ∷ take n (drop 1 xs)
drop_one n [] at = ground arith
drop_one n (y ∷ xs) at = ground arith

-- `queue_pop` on a valid queue never faults or waits; it takes the oldest element out, or returns
-- the null pointer from an empty queue, and leaves the lock word 0.
pub pop-Implements :
    {q : Queue} → IsValid q → Returns (Implements q (pop_spec (contents q))) (queue_pop q)
unfolding queue_pop
pop-Implements {q} h = elim (ℕ_discrete q.size 0) [
  | yes empty ↦
      rw (eq→== q.lock 0 h.unlocked, eq→== q.size 0 empty)
        (returns (record {
          valid = record { block = h.block; bounded = h.bounded; unlocked = h.unlocked };
          capacity = refl;
          result = ground arith;
          contents = ground arith;
        }))
  | no more ↦
      (let (x, at) = get_elem?-within q.buffer 0 (omega arith) in
        let (ys, run, len, moved) = move_down-shift (q.size - 1) q.buffer 0 (omega arith) in
        let held : contents q ≡ x ∷ take (q.size - 1) (drop 1 q.buffer) =
          ground (arith, drop_one (q.size - 1) q.buffer at) in
        rw (eq→== q.lock 0 h.unlocked, ne→== q.size 0 more, at, run, held)
          (returns (record {
            valid = record { block = len ∙ h.block; bounded = omega arith; unlocked = refl };
            capacity = refl;
            result = refl;
            contents = ground (arith, moved);
          })))
]
