-- ===== src/Fs/Blocks.antt =====
-- proj4/cs1550.c: blocks, the bitmap and the image's bounds together.
use cs.Prelude.{ℕ, ◌+◌, ◌-◌, ◌*◌, ◌%◌, ◌≤◌, ◌<◌, ◌≡◌, ◌⊎◌, arith, ltb, ◌==◌, if◌then◌else◌, ap}
use cs.Fs.Bytes.{Buffer}
use cs.Fs.Disk.{Disk, open_block, write_block, set_bitmap, bit_of, bitmap_byte, get_ith_bit}
use cs.Fs.Bitmap.{IsDisk, set_bitmap-frame}

-- Block `i` lies before the bitmap.
abbrev pub IsData : Disk → ℕ → Type 0
IsData d i = 512 * i + 512 + 1536 ≤ d.size

-- A block of 512 bytes that is written, inside the image or past its end, is read back, and every
-- other block reads as before.
pub open_block-write_block :
    (d : Disk) (i j : ℕ) (b : Buffer) (k : ℕ)
    → open_block (write_block d i b) j k
      ≡ (if j == i then (if ltb k 512 then b k else 0) else open_block d j k)
unfolding open_block write_block
open_block-write_block d i j b k = ground (arith, shift)
  where
    shift : j ≡ i → b (512 * j + k - 512 * i) ≡ b k
    shift e = ap b (omega arith)

module _ (d : Disk) (i : ℕ) (b : Buffer) (h : IsData d i) where
  pub size-write_block : (write_block d i b).size ≡ d.size
  unfolding write_block
  size-write_block = ground arith

  pub bit_of-write_block : (j : ℕ) → bit_of (write_block d i b) j ≡ bit_of d j
  unfolding bit_of bitmap_byte write_block
  bit_of-write_block j = ap (λ byte. get_ith_bit byte (j % 8)) (ground arith)

  pub write_block-IsDisk : IsDisk d → ((k : ℕ) → b k < 256) → IsDisk (write_block d i b)
  unfolding write_block
  write_block-IsDisk v hb = record {
    bitmap_fits = ground (arith, v.bitmap_fits);
    bytes = λ p. ground (arith, v.bytes p, hb (p - 512 * i));
  }

-- A mark in the bitmap leaves every block before it.
pub open_block-set_bitmap :
    (junk : ℕ) (d : Disk) (v : IsDisk d) (i taken : ℕ)
    → i < 12288
    → (taken ≡ 0) ⊎ (taken ≡ 1)
    → (j : ℕ) → IsData d j
    → (k : ℕ) → open_block (set_bitmap junk d i taken) j k ≡ open_block d j k
unfolding open_block
open_block-set_bitmap junk d v i taken hi ht j hj k =
    let (same, frame) = set_bitmap-frame junk d v i taken hi ht in
    ground (arith, same, frame (512 * j + k))

pub open_block-lt : (d : Disk) → IsDisk d → (i k : ℕ) → open_block d i k < 256
unfolding open_block
open_block-lt d v i k = ground (arith, v.bytes (512 * i + k))
