-- ===== src/Paging.antt =====
-- kernel/mm/paging.c: the bitset of physical frames, and the pages that frames are bound to.
-- A call faults (`none`) where it leaves the block of `g_frames`.
pub mod Bits
pub mod Search
pub mod Alloc
pub mod Free
mod Tests
use yanix.Common.{
  ℕ, zero, suc, ◌+◌, ◌-◌, ◌*◌, ◌/◌, ◌%◌, ◌^◌, Bool, true, false, not, ◌&&◌, Option, none, some,
  List, [], ◌∷◌, ◌==◌, ltb, if◌then◌else◌, get_elem?, set, ◌>>=◌,
}
use yanix.Common.Int.{ℤ, pos, negsuc}

-- `page_t` without the bits that the kernel neither sets nor reads.
pub record Page : Type 0 where
  pub present : Bool
  pub rw : Bool
  pub user : Bool
  pub frame : ℕ

-- The entry of a page table fresh from `memset`.
abbrev pub no_page : Page
no_page = record { present = false; rw = false; user = false; frame = 0 }

-- `g_frames` and `g_nframes`. A word is the list of its 32 bits, the lowest first.
pub record Frames : Type 0 where
  pub words : List (List Bool)
  pub nframes : ℕ

-- INDEX_FROM_BIT and OFFSET_FROM_BIT.
abbrev pub index_from_bit : ℕ → ℕ
index_from_bit a = a / 32

abbrev pub offset_from_bit : ℕ → ℕ
offset_from_bit a = a % 32

-- The bit of a frame is written in its word.
abbrev pub write_bit : List (List Bool) → (frame : ℕ) → Bool → Option (List (List Bool))
write_bit words frame v = do
  w ← get_elem? words (index_from_bit frame)
  some (set words (index_from_bit frame) (set w (offset_from_bit frame) v))

unfoldable pub set_frame : (frame_addr : ℕ) → Frames → Option Frames
set_frame frame_addr s = do
  words ← write_bit s.words (frame_addr / 0x1000) true
  some (record s { words = words })

unfoldable pub clear_frame : (frame_addr : ℕ) → Frames → Option Frames
clear_frame frame_addr s = do
  words ← write_bit s.words (frame_addr / 0x1000) false
  some (record s { words = words })

-- The bits of a word but for one are cleared.
pub keep_bit : List Bool → ℕ → List Bool
keep_bit [] k = []
keep_bit (b ∷ bs) zero = b ∷ keep_bit bs 32
keep_bit (b ∷ bs) (suc k) = false ∷ keep_bit bs k

-- `g_frames[index] &= ...` writes back what it tests.
unfoldable pub get_frame : (frame_addr : ℕ) → Frames → Option (List Bool × Frames)
unfolding keep_bit
get_frame frame_addr s = do
  let frame = frame_addr / 0x1000
  w ← get_elem? s.words (index_from_bit frame)
  let kept = keep_bit w (offset_from_bit frame)
  some (kept, record s { words = set s.words (index_from_bit frame) kept })

-- `g_frames[i] != 0xFFFFFFFF`, negated.
pub all_ones : List Bool → Bool
all_ones [] = true
all_ones (b ∷ bs) = b && all_ones bs

-- The loop over the bits of a word, from bit `j` on.
pub first_zero : List Bool → ℕ → Option ℕ
first_zero [] j = none
first_zero (true ∷ bs) j = first_zero bs (j + 1)
first_zero (false ∷ bs) j = some j

-- The loop over `n` words from word `i` on; `some none` is the -1 of `first_frame`.
pub search_words : List (List Bool) → (i n : ℕ) → Option (Option ℕ)
search_words words i zero = some none
search_words words i (suc n) = do
  w ← get_elem? words i
  let rest = search_words words (i + 1) n
  if all_ones w
      then rest
      else elim (first_zero w 0) [ some j ↦ some (some (i * 32 + j)) | none ↦ rest ]

unfoldable pub first_frame : Frames → Option (Option ℕ)
first_frame s = search_words s.words 0 (index_from_bit s.nframes)

-- ENOMEM of errno.h.
abbrev pub enomem : ℕ
enomem = 12

-- What a call hands back: its result, the page, the frames, and `errno` where the call sets it.
pub record Done : Type 0 where
  pub result : ℤ
  pub page : Page
  pub frames : Frames
  pub errno : Option ℕ

-- The page over the frame with number `index`. The field has 20 bits.
abbrev pub bound : (index : ℕ) (is_kernel writable : Bool) → Page
bound index is_kernel writable = record {
  present = true;
  rw = writable;
  user = not is_kernel;
  frame = index % 2 ^ 20;
}

-- `index * 0x1000` in 32 bits. The product is signed: from frame 2 ^ 19 on it overflows, and the
-- value that the compiler's wrapping instruction leaves is taken.
abbrev pub frame_address : ℕ → ℕ
frame_address index = (index * 0x1000) % 2 ^ 32

unfoldable pub alloc_frame : Page → (is_kernel writable : Bool) → Frames → Option Done
alloc_frame page is_kernel writable s =
    if page.frame == 0
    then (do
      found ← first_frame s
      elim found [
        | none ↦ some (record { result = negsuc 1; page = page; frames = s; errno = some enomem })
        | some index ↦ (do
          s' ← set_frame (frame_address index) s
          some (record {
            result = pos 0;
            page = bound index is_kernel writable;
            frames = s';
            errno = none;
          }))
      ])
    else some (record { result = negsuc 0; page = page; frames = s; errno = none })

abbrev pub set_frame_flags : Page → (kernel writable : Bool) → Page
set_frame_flags page kernel writable = record page { rw = writable; user = not kernel }

unfoldable pub flagforce_alloc_frame : Page → (is_kernel writable : Bool) → Frames → Option Done
flagforce_alloc_frame page is_kernel writable s = do
  done ← alloc_frame page is_kernel writable s
  elim done.result [
    | negsuc n ↦
        if n == 0
        then some
            (record done { result = pos 0; page = set_frame_flags done.page is_kernel writable })
        else if n == 1
        then some (record done { result = negsuc 0 })
        else some (record done { result = pos 0 })
    | pos n ↦ some (record done { result = pos 0 })
  ]

unfoldable pub realloc_frame : Page → (is_kernel writable : Bool) → Frames → Option Done
realloc_frame page is_kernel writable s = do
  s' ← (if page.frame == 0 then some s else clear_frame page.frame s)
  found ← first_frame s'
  elim found [
    | none ↦ some (record { result = negsuc 1; page = page; frames = s'; errno = some enomem })
    | some index ↦ (do
      s'' ← set_frame (frame_address index) s'
      some (record {
        result = pos 0;
        page = bound index is_kernel writable;
        frames = s'';
        errno = none;
      }))
  ]

unfoldable pub map_frame :
    Page → (addr : ℕ) (remap is_kernel writable : Bool) → Frames → Option Done
map_frame page addr remap is_kernel writable s =
    if not (page.frame == 0) && not remap
    then some (record { result = negsuc 0; page = page; frames = s; errno = none })
    else (do
      s' ← set_frame addr s
      some (record {
        result = pos 0;
        page = bound (addr / 0x1000) is_kernel writable;
        frames = s';
        errno = none;
      }))

-- The test reads `0 == page->frame`, so that only a page without a frame passes it.
unfoldable pub free_frame : Page → Frames → Option (Page × Frames)
free_frame page s =
    if page.frame == 0
    then (do s' ← clear_frame 0 s; some (record page { frame = 0 }, s'))
    else some (page, s)

-- The physical address behind a virtual one, for the page of its table entry.
unfoldable pub virt_to_phys : Page → (virtual_address : ℕ) → ℕ
virt_to_phys page virtual_address =
    if page.frame == 0 then 0 else page.frame * 0x1000 + virtual_address % 0x1000

-- The clear bits of a word, counted one by one.
pub count_clear : List Bool → ℕ
count_clear [] = 0
count_clear (b ∷ bs) = (if b then 0 else 1) + count_clear bs

pub all_zeros : List Bool → Bool
all_zeros [] = true
all_zeros (b ∷ bs) = not b && all_zeros bs

-- The loop of `phys_freeram_amount` over `n` words from word `i` on; a word of zeros counts 32.
pub count_free : List (List Bool) → (i n freeram : ℕ) → Option ℕ
unfolding all_zeros count_clear
count_free words i zero freeram = some freeram
count_free words i (suc n) freeram = do
  w ← get_elem? words i
  count_free words (i + 1) n (freeram + (if all_zeros w then 32 else count_clear w))

unfoldable pub phys_freeram_amount : Frames → Option ℕ
unfolding count_free
phys_freeram_amount s = do
  freeram ← count_free s.words 0 (s.nframes / 32) 0
  some ((freeram * 0x1000) % 2 ^ 32)
