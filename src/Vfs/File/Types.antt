-- ===== src/Vfs/File/Types.antt =====
-- The types of nodes, as `_get_type`, `vfs_to_stat` and `_vfs_stat` turn them into modes and back.
use yanix.Common.{ℕ, zero, suc, ◌+◌, ◌*◌, ◌/◌, ◌%◌, ◌^◌, ◌<◌, ◌≡◌, refl, arith}
use native.Mathlib.Omega.{pow_step}
use yanix.Vfs.File.Stat.{get_type, vfs_to_stat, bit_or}

bit_or-double : (n a b : ℕ) → bit_or (suc n) (2 * a) b ≡ b % 2 + 2 * bit_or n a (b / 2)
unfolding bit_or
bit_or-double n a b =
    let even : 2 * a % 2 ≡ 0 = omega arith in
    let half : 2 * a / 2 ≡ a = omega arith in rw (even, half) refl

bit_or-scaled :
    (k n c b : ℕ) → b < 2 ^ k → bit_or n c 0 ≡ c → bit_or (k + n) (c * 2 ^ k) b ≡ c * 2 ^ k + b
bit_or-scaled zero n c b lt top =
    let b0 : b ≡ 0 = grind arith in
    let e : zero + n ≡ n = omega arith in
    let c1 : c * 2 ^ 0 ≡ c = grind arith in rw (b0, e, c1, top) (omega arith)
bit_or-scaled (suc k) n c b lt top =
    let e : suc k + n ≡ suc (k + n) = omega arith in
    let twice : c * 2 ^ suc k ≡ 2 * (c * 2 ^ k) = rw (pow_step 2 k) (grind arith) in
    let small : b / 2 < 2 ^ k = (let e = pow_step 2 k in omega arith) in
    rw (e, twice, bit_or-double (k + n) (c * 2 ^ k) b, bit_or-scaled k n c (b / 2) small top)
      (omega arith)

bit_or-mode :
    (c mode : ℕ)
    → mode < 2 ^ 12
    → bit_or 20 c 0 ≡ c
    → bit_or 32 (c * 2 ^ 12) mode ≡ c * 2 ^ 12 + mode
bit_or-mode c mode lt top = bit_or-scaled 12 20 c mode lt top

-- The type that a file format, above the permission bits, stands for.
get_type-format :
    (c mode t : ℕ)
    → mode < 2 ^ 12
    → bit_or 20 c 0 ≡ c
    → c < 16
    → get_type (c * 2 ^ 12) ≡ t
    → get_type (bit_or 32 (c * 2 ^ 12) mode) ≡ t
unfolding get_type
get_type-format c mode t lt top small h =
    let e : (bit_or 32 (c * 2 ^ 12) mode / 2 ^ 12) % 2 ^ 4 ≡ (c * 2 ^ 12 / 2 ^ 12) % 2 ^ 4 =
      rw (bit_or-mode c mode lt top) (omega arith) in
    rw e h

-- The mode that `_vfs_stat` gives a node of any type but a socket, with permissions below the file
-- format, is turned back into that type by `_get_type`.
pub get_type-vfs_to_stat :
    (t mode : ℕ) → 0 < t → t < 7 → mode < 2 ^ 12 → get_type (bit_or 32 (vfs_to_stat t) mode) ≡ t
unfolding get_type vfs_to_stat bit_or
get_type-vfs_to_stat zero mode some_type lt small = absurd (omega arith)
get_type-vfs_to_stat (suc zero) mode some_type lt small =
    get_type-format 8 mode 1 small refl (omega arith) refl
get_type-vfs_to_stat (suc (suc zero)) mode some_type lt small =
    get_type-format 4 mode 2 small refl (omega arith) refl
get_type-vfs_to_stat (suc (suc (suc zero))) mode some_type lt small =
    get_type-format 2 mode 3 small refl (omega arith) refl
get_type-vfs_to_stat (suc (suc (suc (suc zero)))) mode some_type lt small =
    get_type-format 6 mode 4 small refl (omega arith) refl
get_type-vfs_to_stat (suc (suc (suc (suc (suc zero))))) mode some_type lt small =
    get_type-format 1 mode 5 small refl (omega arith) refl
get_type-vfs_to_stat (suc (suc (suc (suc (suc (suc zero)))))) mode some_type lt small =
    get_type-format 10 mode 6 small refl (omega arith) refl
get_type-vfs_to_stat (suc (suc (suc (suc (suc (suc (suc n))))))) mode some_type lt small =
    absurd (omega arith)
