-- ===== src/Paging/Free.antt =====
-- `free_frame`, `realloc_frame` and `phys_freeram_amount`: frames that are given up, and free ones.
use yanix.Common.{
  ℕ, zero, suc, ◌+◌, ◌*◌, ◌/◌, ◌%◌, ◌^◌, ◌≤◌, ◌<◌, ◌≡◌, ◌≢◌, refl, ap, ◌∙◌, Bool, true, false,
  Option, some, List, [], ◌∷◌, arith, ◌==◌, if◌then◌else◌, length, get_elem?-within, ne→==, Returns,
  returns, Returns-elim, take, drop,
}
use native.Mathlib.Decide.{dec_lt}
use yanix.Paging.{
  Frames, Page, realloc_frame, free_frame, clear_frame, first_frame, frame_address,
  phys_freeram_amount, count_free, count_clear, all_zeros,
}
use yanix.Common.{drop-cons}
use yanix.Paging.Bits.{bit, IsValid, write_bit-bit, Wide, Wide-get_elem?}
use yanix.Paging.Search.{Found, all_used, lowest, first_frame-Found}
use yanix.Paging.Alloc.{set_frame-Used}

-- `free_frame` of a page that has a frame gives nothing back: the page keeps its frame, and every
-- frame is used or free as before.
pub free_frame-leaks :
    (s : Frames) (page : Page)
    → page.frame ≢ 0
    → Returns
        (λ (page', s'). (page'.frame ≡ page.frame) × ((f : ℕ) → bit s'.words f ≡ bit s.words f))
        (free_frame page s)
unfolding free_frame
free_frame-leaks s page mapped = rw (ne→== page.frame 0 mapped) (returns (refl, λ f. refl))

-- The frames `s'` are `s` with frame `f` free.
record Cleared (s : Frames) (f : ℕ) (s' : Frames) : Type 0 where
  valid : IsValid s'
  nframes : s'.nframes ≡ s.nframes
  bits : (g : ℕ) → bit s'.words g ≡ (if f == g then false else bit s.words g)

clear_frame-Cleared :
    {s : Frames} (addr : ℕ)
    → IsValid s
    → addr / 0x1000 < s.nframes
    → (s' : Frames) × (clear_frame addr s ≡ some s') × Cleared s (addr / 0x1000) s'
unfolding clear_frame
clear_frame-Cleared {s} addr h lt =
    let (words, run, wide, len, bits) =
      write_bit-bit s.words (addr / 0x1000) false h.wide (omega (arith, h.covers)) in
    (
      record s { words = words },
      rw run,
      record {
        valid = record { wide = wide; covers = rw len h.covers; small = h.small };
        nframes = refl;
        bits = bits;
      },
    )

-- With every frame below `k` used and frame `k` cleared, the search ends at `k`.
ends_at :
    {s t : Frames} (k f : ℕ)
    → Cleared s k t
    → ((g : ℕ) → g < k → bit s.words g ≡ true)
    → bit t.words f ≡ false
    → ((g : ℕ) → g < f → bit t.words g ≡ true)
    → f ≡ k
ends_at k f c busy free before = elim (dec_lt f k) [
  | yes below ↦ absurd (ground (arith, c.bits f, busy f))
  | no above ↦ elim (dec_lt k f) [
    | yes past ↦ absurd (ground (arith, c.bits k, before k))
    | no reached ↦ omega arith
  ]
]

module _ {s : Frames} (page : Page) (is_kernel writable : Bool) (h : IsValid s)
    (mapped : page.frame ≢ 0) (small : page.frame < 2 ^ 20) (many : 256 ≤ s.nframes)
    (busy : (g : ℕ) → g < page.frame / 0x1000 → bit s.words g ≡ true) where
  -- The search after the frame number was taken for an address.
  realloc_by :
      (t : Frames) (r : Option ℕ)
      → clear_frame page.frame s ≡ some t
      → Cleared s (page.frame / 0x1000) t
      → first_frame t ≡ some r
      → Found t.words 0 (t.nframes / 32) r
      → Returns
          (λ done. done.page.frame ≡ page.frame / 0x1000)
          (realloc_frame page is_kernel writable s)
  unfolding realloc_frame
  realloc_by t r run c e (all_used used) =
      absurd (ground (arith, c.bits (page.frame / 0x1000), used (page.frame / 0x1000), c.nframes))
  realloc_by t r run c e (lowest f lo hi free before) =
      let at = ends_at (page.frame / 0x1000) f c busy free (λ g lt. before g (omega arith) lt) in
      let same : frame_address f / 0x1000 ≡ f = omega (arith, h.small, c.nframes) in
      let (s', set', used) =
        set_frame-Used {s = t} (frame_address f) f c.valid same (omega arith) in
      rw (ne→== page.frame 0 mapped, run, e, set') (returns (omega (arith, at)))

  -- `realloc_frame` of a page that has a frame, with 256 frames or more, takes the number of the
  -- frame for an address: with the frames below number `frame / 0x1000` used it binds the page to
  -- that number, whoever has that frame.
  pub realloc-steals :
      Returns
        (λ done. done.page.frame ≡ page.frame / 0x1000)
        (realloc_frame page is_kernel writable s)
  realloc-steals =
      let (t, run, c) = clear_frame-Cleared page.frame h (omega arith) in
      let (r, e, found) = Returns-elim (first_frame-Found c.valid) in realloc_by t r run c e found

-- The clear bits of the `n` words from word `i` on.
abbrev pub clear_bits : List (List Bool) → ℕ
clear_bits [] = 0
clear_bits (w ∷ ws) = count_clear w + clear_bits ws

all_zeros-count : (w : List Bool) → all_zeros w ≡ true → count_clear w ≡ length w
unfolding all_zeros count_clear
all_zeros-count [] h = refl
all_zeros-count (true ∷ w) h = absurd (cc)
all_zeros-count (false ∷ w) h = omega (arith, all_zeros-count w h)

count_free-clear :
    (n : ℕ) (words : List (List Bool)) (i freeram : ℕ)
    → Wide words
    → i + n ≤ length words
    → count_free words i n freeram ≡ some (freeram + clear_bits (take n (drop i words)))
unfolding count_free
count_free-clear zero words i freeram h le = ap some (omega arith)
count_free-clear (suc n) words i freeram h le =
    let (w, at) = get_elem?-within words i (omega arith) in
    let counted : (if all_zeros w then 32 else count_clear w) ≡ count_clear w =
      ground (arith, all_zeros-count w, Wide-get_elem? words i h at) in
    let next : i + 1 ≡ suc i = omega arith in
    rw (at, counted, next, drop-cons words i at)
      (count_free-clear n words (suc i) (freeram + count_clear w) h (omega arith)
        ∙ ap some (omega arith))

-- `phys_freeram_amount` is 0x1000 times the number of clear bits in the words of the bitset.
pub phys_freeram-clear :
    {s : Frames}
    → IsValid s
    → phys_freeram_amount s ≡ some ((clear_bits (take (s.nframes / 32) s.words) * 0x1000) % 2 ^ 32)
unfolding phys_freeram_amount
phys_freeram-clear {s} h =
    rw (count_free-clear (s.nframes / 32) s.words 0 0 h.wide (omega (arith, h.covers)))
      (ground arith)
