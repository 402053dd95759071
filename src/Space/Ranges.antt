-- ===== src/Space/Ranges.antt =====
-- kernel/mm/paging.c: the calls that map ranges of addresses.
use yanix.Common.{
  ℕ, zero, suc, ◌+◌, ◌%◌, ◌^◌, Bool, true, false, not, ◌==◌, ltb, leb, if◌then◌else◌,
}
use yanix.Common.Int.{ℤ, pos, negsuc}
use yanix.Paging.{alloc_frame, flagforce_alloc_frame, realloc_frame, map_frame}
use yanix.Space.{Ptr, Cmd, pure, fault, get_current_dir, get_kernel_dir, get_page, on_page, ◌>>=◌}

abbrev pub is_zero : ℤ → Bool
is_zero (pos n) = n == 0
is_zero (negsuc n) = false

-- The address a page further on.
abbrev pub next_page : ℕ → ℕ
next_page a = (a + 0x1000) % 2 ^ 32

pub alloc_virt_loop : (fuel start i size : ℕ) (user : Bool) → Cmd (Unit {0})
alloc_virt_loop zero start i size user = fault
alloc_virt_loop (suc fuel) start i size user =
    if leb i size
    then (do
      dir ← get_kernel_dir
      slot ← get_page ((start + i) % 2 ^ 32) true dir
      _ ← on_page slot (λ page. alloc_frame page (not user) user)
      alloc_virt_loop fuel start (next_page i) size user)
    else pure tt

unfoldable pub alloc_virt : (fuel start size : ℕ) (user : Bool) → Cmd (Unit {0})
alloc_virt fuel start size user = alloc_virt_loop fuel start 0 size user

pub map_memory_block : (fuel startaddr endaddr : ℕ) (is_kernel writable : Bool) (dir : Ptr) → Cmd ℤ
map_memory_block zero startaddr endaddr is_kernel writable dir = fault
map_memory_block (suc fuel) startaddr endaddr is_kernel writable dir =
    if ltb startaddr endaddr
    then (do
      slot ← get_page startaddr true dir
      _ ← on_page slot (λ page. flagforce_alloc_frame page is_kernel writable)
      map_memory_block fuel (next_page startaddr) endaddr is_kernel writable dir)
    else pure (pos 0)

unfoldable pub remap_memory_block :
    (fuel startaddr endaddr : ℕ) (is_kernel writable : Bool) (dir : Ptr) → Cmd ℤ
remap_memory_block zero startaddr endaddr is_kernel writable dir = fault
remap_memory_block (suc fuel) startaddr endaddr is_kernel writable dir =
    if leb startaddr endaddr
    then (do
      slot ← get_page startaddr true dir
      _ ← on_page slot (λ page. realloc_frame page is_kernel writable)
      remap_memory_block fuel (next_page startaddr) endaddr is_kernel writable dir)
    else pure (pos 0)

unfoldable pub map_mem : (fuel startaddr endaddr : ℕ) (is_kernel writable : Bool) → Cmd ℤ
map_mem fuel startaddr endaddr is_kernel writable = do
  dir ← get_current_dir
  map_memory_block fuel startaddr endaddr is_kernel writable dir

unfoldable pub remap_mem : (fuel startaddr endaddr : ℕ) (is_kernel writable : Bool) → Cmd ℤ
remap_mem fuel startaddr endaddr is_kernel writable = do
  dir ← get_current_dir
  remap_memory_block fuel startaddr endaddr is_kernel writable dir

unfoldable pub identity_map_memory_block :
    (fuel startaddr endaddr : ℕ) (is_kernel writable : Bool) (dir : Ptr) → Cmd ℤ
identity_map_memory_block zero startaddr endaddr is_kernel writable dir = fault
identity_map_memory_block (suc fuel) startaddr endaddr is_kernel writable dir =
    if leb startaddr endaddr
    then (do
      slot ← get_page startaddr true dir
      ret ← on_page slot (λ page. map_frame page startaddr true is_kernel writable)
      if is_zero ret
          then identity_map_memory_block fuel (next_page startaddr) endaddr is_kernel writable dir
          else pure ret)
    else pure (pos 0)

pub map_physical_loop :
    (fuel physical_address virtual_address i size : ℕ) (is_kernel writable : Bool) (dir : Ptr)
    → Cmd ℤ
map_physical_loop zero physical_address virtual_address i size is_kernel writable dir = fault
map_physical_loop (suc fuel) physical_address virtual_address i size is_kernel writable dir =
    if ltb i size
    then (do
      slot ← get_page ((virtual_address + i) % 2 ^ 32) true dir
      ret ←
          on_page slot
            (λ page. map_frame page ((physical_address + i) % 2 ^ 32) true is_kernel writable)
      if is_zero ret
          then map_physical_loop fuel physical_address virtual_address (next_page i) size is_kernel
              writable dir
          else pure (negsuc 0))
    else pure (pos 0)

unfoldable pub map_physical_to_virtual :
    (fuel physical_address virtual_address size : ℕ) (is_kernel writable : Bool) (dir : Ptr) → Cmd ℤ
map_physical_to_virtual fuel physical_address virtual_address size is_kernel writable dir =
    map_physical_loop fuel physical_address virtual_address 0 size is_kernel writable dir

-- The test of the loop is `start < start + size`.
pub initialize_loop : (fuel start size : ℕ) (um : Bool) (dir : Ptr) → Cmd ℤ
initialize_loop zero start size um dir = fault
initialize_loop (suc fuel) start size um dir =
    if ltb start ((start + size) % 2 ^ 32)
    then (do
      slot ← get_page start true dir
      ret ← on_page slot (λ page. alloc_frame page (not um) um)
      if is_zero ret then initialize_loop fuel (next_page start) size um dir else pure (negsuc 0))
    else pure (pos 0)

unfoldable pub initialize_mem : (fuel start size : ℕ) (um : Bool) (dir : Ptr) → Cmd ℤ
initialize_mem fuel start size um dir = do
  current ← get_current_dir
  initialize_loop fuel start size um (if dir == 0 then current else dir)
