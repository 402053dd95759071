-- ===== src/Fs/Device.antt =====
-- What `fs_read` and `fs_write` rely on of a file system: its block functions, over the content of the
-- file as a list of bytes.
use yanix.Common.{ℕ, ◌+◌, ◌*◌, ◌≤◌, ◌≡◌, List, length, slice, overwrite, some, Option, ◌<◌, ◌^◌}

-- Transfers of blocks within the content are whole: they return the count that is asked for, a read
-- gives the bytes there, and a write replaces them, in the valid states of the file system, which a
-- write leads to again.
pub record Device (D : Type 0) (block_read : (block count : ℕ) → D → ℕ × List ℕ)
    (block_write : (block count : ℕ) (bytes : List ℕ) → D → ℕ × D) (blocksize : ℕ)
    (content : D → List ℕ) (IsValid : D → Type 0) : Type 0 where
  pub read :
      (b k : ℕ) (d : D)
      → IsValid d
      → (b + k) * blocksize ≤ length (content d)
      → block_read b k d ≡ (k, slice (content d) (b * blocksize) ((b + k) * blocksize))
  pub wrote :
      (b k : ℕ) (bytes : List ℕ) (d : D)
      → IsValid d
      → (b + k) * blocksize ≤ length (content d)
      → length bytes ≡ k * blocksize
      → (d' : D) × (block_write b k bytes d ≡ (k, d'))
        × (content d' ≡ overwrite (content d) (b * blocksize) bytes)
        × IsValid d'

-- A length below 2 ^ 31 that a node gets is stored, and leaves the content as it is.
pub record Updates (D : Type 0) (update_node : (filelength : ℕ) → D → Option D)
    (content : D → List ℕ) (IsValid : D → Type 0) : Type 0 where
  pub updated :
      (filelength : ℕ) (d : D)
      → IsValid d
      → filelength < 2 ^ 31
      → (d' : D) × (update_node filelength d ≡ some d') × (content d' ≡ content d) × IsValid d'
