-- ===== src/Paging/Alloc.antt =====
-- `alloc_frame` and `flagforce_alloc_frame`: which frame a page gets.
use yanix.Common.{
  ℕ, ◌*◌, ◌/◌, ◌%◌, ◌^◌, ◌<◌, ◌≡◌, ◌≢◌, refl, inl, inr, ◌⊎◌, Bool, true, false, not, Option, none,
  some, List, arith, ◌==◌, if◌then◌else◌, ne→==, eq→==, Returns, returns, Returns-elim,
  Returns-bind,
}
use native.Mathlib.Decide.{ℕ_discrete}
use yanix.Common.Int.{pos, negsuc}
use yanix.Paging.{
  Frames, Page, Done, alloc_frame, flagforce_alloc_frame, set_frame, first_frame, enomem,
  frame_address, set_frame_flags,
}
use yanix.Paging.Bits.{bit, IsValid, write_bit-bit}
use yanix.Paging.{write_bit}
use yanix.Paging.Search.{Found, all_used, lowest, first_frame-Found}

-- The frames `s'` are `s` with frame `f` used, whether or not it was.
pub record Used (s : Frames) (f : ℕ) (s' : Frames) : Type 0 where
  pub valid : IsValid s'
  pub nframes : s'.nframes ≡ s.nframes
  pub bits : (g : ℕ) → bit s'.words g ≡ (if f == g then true else bit s.words g)

set_frame-by :
    (s : Frames) (addr f : ℕ) {words : List (List Bool)}
    → addr / 0x1000 ≡ f
    → write_bit s.words f true ≡ some words
    → set_frame addr s ≡ some (record s { words = words })
unfolding set_frame
set_frame-by s addr f e run = rw (e, run)

pub set_frame-Used :
    {s : Frames} (addr f : ℕ)
    → IsValid s
    → addr / 0x1000 ≡ f
    → f < s.nframes
    → (s' : Frames) × (set_frame addr s ≡ some s') × Used s f s'
set_frame-Used {s} addr f h e lt =
    let (words, run, wide, len, bits) =
      write_bit-bit s.words f true h.wide (omega (arith, h.covers)) in
    (
      record s { words = words },
      set_frame-by s addr f e run,
      record {
        valid = record { wide = wide; covers = rw len h.covers; small = h.small };
        nframes = refl;
        bits = bits;
      },
    )

-- What `alloc_frame` does with a page.
pub data Allocated (page : Page) (is_kernel writable : Bool) (s : Frames) : Done → Type 0 where
  has_frame :
      page.frame ≢ 0
      → Allocated page is_kernel writable s
          (record { result = negsuc 0; page = page; frames = s; errno = none })
  allocated :
      {s' : Frames} (f : ℕ)
      → page.frame ≡ 0
      → f < s.nframes
      → bit s.words f ≡ false
      → ((g : ℕ) → g < f → bit s.words g ≡ true)
      → Used s f s'
      → Allocated page is_kernel writable s (record {
        result = pos 0;
        page = record { present = true; rw = writable; user = not is_kernel; frame = f };
        frames = s';
        errno = none;
      })
  no_memory :
      page.frame ≡ 0
      → ((f : ℕ) → f < s.nframes / 32 * 32 → bit s.words f ≡ true)
      → Allocated page is_kernel writable s
          (record { result = negsuc 1; page = page; frames = s; errno = some enomem })

module _ {s : Frames} (page : Page) (is_kernel writable : Bool) (h : IsValid s) where
  alloc_by :
      (r : Option ℕ)
      → first_frame s ≡ some r
      → page.frame ≡ 0
      → Found s.words 0 (s.nframes / 32) r
      → Returns (Allocated page is_kernel writable s) (alloc_frame page is_kernel writable s)
  unfolding alloc_frame
  alloc_by r e null (all_used used) =
      rw (eq→== page.frame 0 null, e)
        (returns (no_memory null λ f lt. used f (omega arith) (omega arith)))
  alloc_by r e null (lowest f lo hi free before) =
      let same : frame_address f / 0x1000 ≡ f = omega (arith, h.small) in
      let (s', run, used) = set_frame-Used {s = s} (frame_address f) f h same (omega arith) in
      let small : f % 2 ^ 20 ≡ f = omega (arith, h.small) in
      rw (eq→== page.frame 0 null, e, run, small)
        (returns (allocated f null (omega arith) free (λ g lt. before g (omega arith) lt) used))

  -- `alloc_frame` on a bitset that covers the frames never faults. It returns -1 and leaves a page
  -- that has a frame alone; else it binds the page to the lowest free frame and marks that frame
  -- and no other as used, or returns -2 with ENOMEM where the words of the bitset have no free
  -- frame.
  pub alloc-Allocated :
      Returns (Allocated page is_kernel writable s) (alloc_frame page is_kernel writable s)
  alloc-Allocated = elim (ℕ_discrete page.frame 0) [
    | yes null ↦ (let (r, e, found) = Returns-elim (first_frame-Found h) in alloc_by r e null found)
    | no mapped ↦ kept mapped
  ]
    where
      kept :
          page.frame ≢ 0
          → Returns (Allocated page is_kernel writable s) (alloc_frame page is_kernel writable s)
      kept mapped =
          unfold alloc_frame in rw (ne→== page.frame 0 mapped) (returns (has_frame mapped))

  -- `flagforce_alloc_frame` gives a page without a frame a free one, and sets the flags of a page
  -- that has one; it fails only where no frame is free.
  pub flagforce_lem :
      Returns
        (λ done.
          (done.result ≡ pos 0) × (done.page.rw ≡ writable) × (done.page.user ≡ not is_kernel)
          ⊎ (done.result ≡ negsuc 0) × ((f : ℕ) → f < s.nframes / 32 * 32 → bit s.words f ≡ true))
        (flagforce_alloc_frame page is_kernel writable s)
  unfolding flagforce_alloc_frame
  flagforce_lem = Returns-bind alloc-Allocated forced
    where
      forced :
          (done : Done)
          → Allocated page is_kernel writable s done
          → Returns
              (λ done.
                (done.result ≡ pos 0) × (done.page.rw ≡ writable) × (done.page.user ≡ not is_kernel)
                ⊎ (done.result ≡ negsuc 0)
                  × ((f : ℕ) → f < s.nframes / 32 * 32 → bit s.words f ≡ true))
              (elim done.result [
                | negsuc n ↦
                    if n == 0
                    then some (record done {
                      result = pos 0;
                      page = set_frame_flags done.page is_kernel writable;
                    })
                    else if n == 1
                    then some (record done { result = negsuc 0 })
                    else some (record done { result = pos 0 })
                | pos n ↦ some (record done { result = pos 0 })
              ])
      forced _ (has_frame mapped) = returns (inl (refl, refl, refl))
      forced _ (allocated f null lt free before used) = returns (inl (refl, refl, refl))
      forced _ (no_memory null used) = returns (inr (refl, used))
