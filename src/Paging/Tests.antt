-- ===== src/Paging/Tests.antt =====
-- Runs of kernel/mm/paging.c on a bitset of 256 frames.
use yanix.Common.{
  ℕ, zero, suc, ◌<◌, ◌≡◌, refl, Bool, true, false, List, ◌∷◌, arith, replicate, Returns,
}
use yanix.Paging.{Frames, Page, no_page, alloc_frame}
use yanix.Paging.Bits.{bit, IsValid}
use yanix.Paging.Alloc.{Allocated, alloc-Allocated}

abbrev free_word : List Bool
free_word = replicate 32 false

-- Frame 0 is used.
abbrev frames : Frames
frames = record { words = (true ∷ replicate 31 false) ∷ replicate 7 free_word; nframes = 256 }

frames-IsValid : IsValid frames
frames-IsValid = record {
  wide = (refl, (refl, (refl, (refl, (refl, (refl, (refl, (refl, tt))))))));
  covers = omega arith;
  small = omega arith;
}

-- A page over frame 0x1000.
abbrev mapped : Page
mapped = record { present = true; rw = true; user = false; frame = 0x1000 }

alloc-Allocated_example :
    Returns (Allocated no_page true true frames) (alloc_frame no_page true true frames)
alloc-Allocated_example = alloc-Allocated no_page true true frames-IsValid

frame_zero-busy : (g : ℕ) → g < 1 → bit frames.words g ≡ true
frame_zero-busy zero h = refl
frame_zero-busy (suc g) h = absurd (omega arith)
