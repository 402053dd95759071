-- ===== src/Space/Ends.antt =====
-- `remap_memory_block`: whether its loop ends.
use yanix.Common.{
  ℕ, zero, suc, ◌+◌, ◌-◌, ◌*◌, ◌/◌, ◌%◌, ◌^◌, ◌≤◌, ◌<◌, ◌≡◌, refl, sym, ap, ◌∙◌, inl, inr, ◌⊎◌,
  Bool, true, Option, none, some, arith, le→leb, lt→leb,
}
use native.Mathlib.Decide.{dec_lt}
use yanix.Common.Int.{ℤ, pos}
use yanix.Paging.{realloc_frame}
use yanix.Space.{Ptr, Machine, Cmd, pure, ◌>>=◌, and_then, get_page, on_page}
use yanix.Space.Ranges.{next_page, remap_memory_block}

-- Two ways to go on that do the same.
and_then-ext :
    {A B : Type 0}
    → (r : Option (A × Machine)) (f g : A → Cmd B) → ((a : A) (s : Machine) → f a s ≡ g a s)
    → and_then r f ≡ and_then r g
and_then-ext none f g same = refl
and_then-ext (some (a, s)) f g same = same a s

and_then-none :
    {A B : Type 0}
    → (r : Option (A × Machine)) (f : A → Cmd B) → ((a : A) (s : Machine) → f a s ≡ none)
    → and_then r f ≡ none
and_then-none none f faults = refl
and_then-none (some (a, s)) f faults = faults a s

-- `n` pages from an address on are mapped anew, one after the other.
pub remap_pages : (n startaddr : ℕ) (is_kernel writable : Bool) (dir : Ptr) → Cmd ℤ
remap_pages zero startaddr is_kernel writable dir = pure (pos 0)
remap_pages (suc n) startaddr is_kernel writable dir = do
  slot ← get_page startaddr true dir
  _ ← on_page slot (λ page. realloc_frame page is_kernel writable)
  remap_pages n (startaddr + 0x1000) is_kernel writable dir

module _ (endaddr : ℕ) (is_kernel writable : Bool) (dir : Ptr) where
  remap-enough :
      (f n startaddr : ℕ)
      → endaddr + 0x1000 < 2 ^ 32
      → n < f
      → endaddr < startaddr + n * 0x1000
      → startaddr + n * 0x1000 ≤ endaddr + 0x1000
      → (s : Machine)
      → remap_memory_block f startaddr endaddr is_kernel writable dir s
        ≡ remap_pages n startaddr is_kernel writable dir s
  unfolding remap_memory_block remap_pages
  remap-enough zero n startaddr low lt past last s = absurd (omega (arith, lt))
  remap-enough (suc f) zero startaddr low lt past last s =
      rw (lt→leb startaddr endaddr (omega (arith, past))) refl
  remap-enough (suc f) (suc n) startaddr low lt past last s =
      let le : startaddr ≤ endaddr = omega (arith, last) in
      let next : next_page startaddr ≡ startaddr + 0x1000 = omega (arith, le, low) in
      rw (le→leb startaddr endaddr le, next)
        (and_then-ext (get_page startaddr true dir s) _ _ (λ slot s1.
          and_then-ext (on_page slot (λ page. realloc_frame page is_kernel writable) s1) _ _
            (λ _ s2.
              remap-enough f n (startaddr + 0x1000) low (omega (arith, lt)) (omega (arith, past))
                (omega (arith, last)) s2)))

  remap-endless :
      (f n : ℕ)
      → n < 2 ^ 20
      → 0xfffff000 ≤ endaddr
      → (s : Machine) → remap_memory_block f (n * 0x1000) endaddr is_kernel writable dir s ≡ none
  unfolding remap_memory_block
  remap-endless zero n lt top s = refl
  remap-endless (suc f) n lt top s =
      let next : next_page (n * 0x1000) ≡ (n + 1) % 2 ^ 20 * 0x1000 = omega (arith, lt) in
      rw (le→leb (n * 0x1000) endaddr (omega (arith, lt, top)), next)
        (and_then-none (get_page (n * 0x1000) true dir s) _ (λ slot s1.
          and_then-none (on_page slot (λ page. realloc_frame page is_kernel writable) s1) _
            (λ _ s2. remap-endless f ((n + 1) % 2 ^ 20) (omega arith) top s2)))

-- How many pages a range that starts at a page has.
abbrev pub pages_to : (startaddr endaddr : ℕ) → ℕ
pages_to startaddr endaddr = (endaddr + 0x1000 - startaddr) / 0x1000

-- `remap_memory_block` over a range that starts at a page, with more fuel than the range has pages.
-- Where the range ends before the last page, the loop ends: it maps the pages of the range anew, each
-- of them once and in order. Where the range ends in the last page, the address wraps around, and
-- however much the fuel is, it runs out or a step faults.
pub remap_memory_block-ends :
    (f startaddr endaddr : ℕ) (is_kernel writable : Bool) (dir : Ptr) (s : Machine)
    → startaddr % 0x1000 ≡ 0
    → startaddr < 2 ^ 32
    → startaddr ≤ endaddr
    → pages_to startaddr endaddr < f
    → ((endaddr < 0xfffff000)
        × (remap_memory_block f startaddr endaddr is_kernel writable dir s
            ≡ remap_pages (pages_to startaddr endaddr) startaddr is_kernel writable dir s))
      ⊎ ((0xfffff000 ≤ endaddr)
          × (remap_memory_block f startaddr endaddr is_kernel writable dir s ≡ none))
remap_memory_block-ends f startaddr endaddr is_kernel writable dir s page small le enough =
    elim (dec_lt endaddr 0xfffff000) [
      | yes low ↦ inl (
        low,
        remap-enough endaddr is_kernel writable dir f (pages_to startaddr endaddr) startaddr
            (omega (arith, low)) enough (omega (arith, le)) (omega (arith, le)) s,
      )
      | no top ↦ inr (
        omega (arith, top),
        (let whole : startaddr / 0x1000 * 0x1000 ≡ startaddr = omega (arith, page) in
            ap (λ a. remap_memory_block f a endaddr is_kernel writable dir s) (sym whole)
            ∙ remap-endless endaddr is_kernel writable dir f (startaddr / 0x1000)
                (omega (arith, small)) (omega (arith, top)) s),
      )
    ]
