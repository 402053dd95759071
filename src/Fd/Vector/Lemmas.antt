-- ===== src/Fd/Vector/Lemmas.antt =====
-- Entries of the lists that the functions of fd_vector.c build.
use yanix.Common.{
  ℕ, zero, suc, ◌-◌, ◌≤◌, ◌<◌, ◌≡◌, refl, ap, ◌∙◌, none, some, List, [], ◌∷◌, ◌++◌, arith, ◌==◌,
  if◌then◌else◌, length, set, get_elem?-set, drop, replicate, take_all, length-append,
  length-replicate,
}
use yanix.Fd.Vector.{FileDescriptor, zeroed, entries, copy_into}
use yanix.Fd.Vector.Valid.{entry, occupied}

drop-replicate {ℓ} : {A : Type ℓ} (n m : ℕ) (a : A) → drop n (replicate m a) ≡ replicate (m - n) a
drop-replicate zero m a = ap (λ k. replicate k a) {x = m} (omega arith)
drop-replicate (suc n) zero a = ap (λ k. replicate k a) {x = 0} (omega arith)
drop-replicate (suc n) (suc m) a = drop-replicate n m a ∙ ap (λ k. replicate k a) (omega arith)

pub entry-replicate : (n i : ℕ) → entry (replicate n zeroed) i ≡ none
entry-replicate zero i = refl
entry-replicate (suc n) zero = refl
entry-replicate (suc n) (suc i) = entry-replicate n i

entry-append :
    (xs ys : List FileDescriptor) (i : ℕ)
    → ((j : ℕ) → entry ys j ≡ none)
    → entry (xs ++ ys) i ≡ entry xs i
entry-append [] ys i h = h i
entry-append (x ∷ xs) ys zero h = refl
entry-append (x ∷ xs) ys (suc i) h = entry-append xs ys i h

-- Below the bound no `size_t` product wraps.
pub entries_lem : (n : ℕ) → n < 134217728 → entries n ≡ n
entries_lem n h = omega arith

-- Copying a whole list over zeroed entries keeps its entries and adds none.
pub copy_into-zeroed :
    (xs : List FileDescriptor) (n m : ℕ)
    → length xs ≡ n
    → n ≤ m
    → (ys : List FileDescriptor) × (copy_into (replicate m zeroed) xs n ≡ some ys)
      × (length ys ≡ m)
      × ((i : ℕ) → entry ys i ≡ entry xs i)
copy_into-zeroed xs n m e h = (
  xs ++ replicate (m - n) zeroed,
  ground (arith, take_all xs n (omega arith), drop-replicate n m zeroed, length-replicate m zeroed),
  omega (arith, length-append xs (replicate (m - n) zeroed), length-replicate (m - n) zeroed),
  λ i. entry-append xs (replicate (m - n) zeroed) i (entry-replicate (m - n)),
)

-- A stored entry is read back, and no other one changes.
pub entry-set :
    (xs : List FileDescriptor) (i j : ℕ) (e : FileDescriptor)
    → i < length xs
    → entry (set xs i e) j ≡ (if i == j then occupied (some e) else entry xs j)
entry-set xs i j e h = ground (arith, get_elem?-set xs i j e)
