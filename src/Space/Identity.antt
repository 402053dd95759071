-- ===== src/Space/Identity.antt =====
-- `identity_map_memory_block`: every address of the range is mapped to itself.
use yanix.Common.{
  ℕ, zero, suc, ◌+◌, ◌*◌, ◌/◌, ◌%◌, ◌^◌, ◌≤◌, ◌<◌, ◌≡◌, refl, sym, ap, ◌∙◌, Bool, true, Option,
  some, arith, length, le→leb, lt→leb,
}
use mathlib.Core.Path.{subst}
use native.Mathlib.Decide.{ℕ_discrete, dec_le}
use yanix.Common.Int.{pos}
use yanix.Paging.{Page, bound, map_frame}
use yanix.Paging.Bits.{IsValid}
use yanix.Space.{Ptr, Directory, Machine, Slot, get_page, on_page, virt_to_phys_from_dir}
use yanix.Space.Ranges.{next_page, identity_map_memory_block}
use yanix.Space.Entries.{Space, Maps, Maps-translates}
use yanix.Space.Step.{map-Step}

-- The pages from `a` to `b` are bound to the frames with their numbers, and every page before `a`
-- that was mapped is as it was.
record Ranged (s : Machine) (dir : Ptr) (d : Directory) (a b : ℕ) (is_kernel writable : Bool)
    (s' : Machine) (d' : Directory) : Type 0 where
  space : Space s' dir d'
  mapped : (n : ℕ) → a ≤ n → n ≤ b → Maps s' d' n (bound n is_kernel writable)
  before : (n : ℕ) (page : Page) → n < a → Maps s d n page → Maps s' d' n page

module _ (dir : Ptr) (is_kernel writable : Bool) where
  identity-once :
      (fuel addr endaddr : ℕ) (slot : Option Slot) (s s1 s2 s' : Machine)
      → addr ≤ endaddr
      → get_page addr true dir s ≡ some (slot, s1)
      → on_page slot (λ page. map_frame page addr true is_kernel writable) s1 ≡ some (pos 0, s2)
      → identity_map_memory_block fuel (next_page addr) endaddr is_kernel writable dir s2
        ≡ some (pos 0, s')
      → identity_map_memory_block (suc fuel) addr endaddr is_kernel writable dir s
        ≡ some (pos 0, s')
  unfolding identity_map_memory_block
  identity-once fuel addr endaddr slot s s1 s2 s' le got run rest =
      rw (le→leb addr endaddr le, got, run) rest

  identity_loop :
      (fuel : ℕ) (s : Machine) (d : Directory) (a b endaddr : ℕ)
      → Space s dir d
      → IsValid s.frames
      → endaddr / 0x1000 ≡ b
      → a ≤ suc b
      → b < s.frames.nframes
      → suc b < 2 ^ 20
      → suc b < a + fuel
      → suc b ≤ a + length s.heap
      → (s' : Machine) × (d' : Directory) × (identity_map_memory_block fuel
            (a * 0x1000)
            endaddr
            is_kernel
            writable
            dir
            s
          ≡ some (pos 0, s'))
        × Ranged s dir d a b is_kernel writable s' d'
  unfolding identity_map_memory_block
  identity_loop zero s d a b endaddr h valid e le lt small enough supply = absurd (omega arith)
  identity_loop (suc fuel) s d a b endaddr h valid e le lt small enough supply = elim (dec_le a b) [
    | no over ↦ (
      s,
      d,
      (let le' = lt→leb (a * 0x1000) endaddr (omega (arith, e)) in rw le' refl),
      record { space = h; mapped = λ n lo hi. absurd (omega arith); before = λ n page _ m. m },
    )
    | yes more ↦
        let page_a : a * 0x1000 / 0x1000 ≡ a = omega arith in
        let (slot, s1, s2, d2, got, bound_page, m) =
          map-Step s dir d a (a * 0x1000) (a * 0x1000) is_kernel writable h page_a (omega arith)
            valid (omega arith) in
        let next : next_page (a * 0x1000) ≡ suc a * 0x1000 = omega arith in
        let (s', d', run, r) =
          identity_loop fuel s2 d2 (suc a) b endaddr m.space m.valid e (omega arith)
            (rw m.nframes lt) small (omega arith) (omega (arith, m.supply)) in
        (
          s',
          d',
          identity-once fuel (a * 0x1000) endaddr slot s s1 s2 s' (omega (arith, e)) got bound_page
              (ap (λ x. identity_map_memory_block fuel x endaddr is_kernel writable dir s2) next
                ∙ run),
          record {
            space = r.space;
            mapped = λ n lo hi. elim (ℕ_discrete n a) [
              | yes at ↦
                  subst (λ x. Maps s' d' x (bound x is_kernel writable)) (sym at)
                    (r.before a (bound a is_kernel writable) (omega arith)
                      (subst (λ x. Maps s2 d2 a (bound x is_kernel writable)) page_a m.here))
              | no ne ↦ r.mapped n (omega arith) hi
            ];
            before = λ n page early is.
                r.before n page (omega arith) (m.others n page (λ z. omega (arith, z)) is);
          },
        )
  ]

-- `identity_map_memory_block` over a range that starts at a page never faults and returns 0, where the
-- frames cover the range, `kmalloc_base` has a block for each page of it, and no address after it
-- is past 32 bits. After it, each address of the range but those of the first page of memory is its
-- own physical address.
pub identity_map-translates :
    (fuel : ℕ) (s : Machine) (dir : Ptr) (d : Directory) (startaddr endaddr : ℕ)
    (is_kernel writable : Bool)
    → Space s dir d
    → IsValid s.frames
    → startaddr % 0x1000 ≡ 0
    → startaddr ≤ endaddr
    → endaddr / 0x1000 < s.frames.nframes
    → endaddr + 0x1000 < 2 ^ 32
    → endaddr / 0x1000 + 1 < startaddr / 0x1000 + fuel
    → endaddr / 0x1000 + 1 ≤ startaddr / 0x1000 + length s.heap
    → (s' : Machine) × (identity_map_memory_block fuel startaddr endaddr is_kernel writable dir s
        ≡ some (pos 0, s'))
      × ((v : ℕ)
          → startaddr ≤ v
          → v ≤ endaddr
          → 0x1000 ≤ v
          → virt_to_phys_from_dir v dir s' ≡ some (v, s'))
identity_map-translates fuel s dir d startaddr endaddr is_kernel writable h valid page le covers
      small enough supply =
    let a = startaddr / 0x1000 in
    let b = endaddr / 0x1000 in
    let whole : a * 0x1000 ≡ startaddr = omega (arith, page) in
    let (s', d', run, r) =
      identity_loop dir is_kernel writable fuel s d a b endaddr h valid refl (omega (arith, le))
        covers (omega arith) (omega arith) (omega arith) in
    (
      s',
      ap (λ x. identity_map_memory_block fuel x endaddr is_kernel writable dir s) (sym whole) ∙ run,
      λ v lo hi past.
          (let m = r.mapped (v / 0x1000) (omega (arith, lo)) (omega (arith, hi)) in
            let n20 : v / 0x1000 < 2 ^ 20 = omega (arith, hi, small) in
            Maps-translates s' dir d' v (bound (v / 0x1000) is_kernel writable) r.space.at m
              (omega (arith, past, n20))
            ∙ ap (λ x. some (x, s'))
                (let e : (v / 0x1000) % 2 ^ 20 * 0x1000 + v % 0x1000 ≡ v = omega (arith, n20) in
                  e)),
    )
