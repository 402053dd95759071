-- ===== src/Fs/Tests.antt =====
-- Runs of `fs_read` and `fs_write` on a file of three blocks of four bytes.
use yanix.Common.{
  ℕ, ◌+◌, ◌*◌, ◌≡◌, ◌<◌, ◌≤◌, ◌⊎◌, refl, Option, none, some, List, [], ◌∷◌, arith, slice, overwrite,
}
use yanix.Fs.{fs_read}
use yanix.Fs.Device.{Device}
use yanix.Fs.Read.{fs_read-aligned}
use yanix.Fs.Overrun.{fs_read-overruns}

abbrev read_list : (block count : ℕ) → List ℕ → ℕ × List ℕ
read_list b k d = (k, slice d (b * 4) ((b + k) * 4))

abbrev write_list : (block count : ℕ) (bytes : List ℕ) → List ℕ → ℕ × List ℕ
write_list b k bytes d = (k, overwrite d (b * 4) bytes)

list-Device : Device (List ℕ) read_list write_list 4 (λ d. d) (λ d. Unit {0})
list-Device = record {
  read = λ b k d v le. refl;
  wrote = λ b k bytes d v le size. (overwrite d (b * 4) bytes, refl, refl, tt);
}

abbrev some_length : (filelength : ℕ) → List ℕ → Option (List ℕ)
some_length filelength d = some d

abbrev file : List ℕ
file = 10 ∷ 11 ∷ 12 ∷ 13 ∷ 14 ∷ 15 ∷ 16 ∷ 17 ∷ 18 ∷ 19 ∷ 20 ∷ 21 ∷ []

fs_read-aligned_example :
    fs_read read_list 4 4 6 6 file ≡ some (6, 14 ∷ 15 ∷ 16 ∷ 17 ∷ 18 ∷ 19 ∷ [])
fs_read-aligned_example =
    fs_read-aligned read_list write_list 4 (λ d. d) (λ d. Unit {0}) list-Device 1 6 3 6 file tt
      (omega arith) (omega arith) refl (omega arith) (omega arith)

fs_read-overruns_example :
    ((6 < 3 + 2) × (fs_read read_list 4 5 3 6 file ≡ none))
    ⊎ ((3 + 2 ≤ 6) × (fs_read read_list 4 5 3 6 file ≡ some (5, 15 ∷ 16 ∷ 17 ∷ 18 ∷ 19 ∷ [])))
fs_read-overruns_example =
    fs_read-overruns read_list write_list 4 (λ d. d) (λ d. Unit {0}) list-Device 1 1 3 2 6 file tt
      (omega arith) (omega arith) refl refl (omega arith) (omega arith) (omega arith)
