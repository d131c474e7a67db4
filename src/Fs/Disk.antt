-- ===== src/Fs/Disk.antt =====
-- proj4/cs1550.c, "DISK OPERATIONS" and "BIT MAP": the image as a file of bytes.
-- A read past the end gives no byte; a write past the end makes the file longer.
use cs.Prelude.{
  ℕ, zero, suc, ◌+◌, ◌-◌, ◌*◌, ◌/◌, ◌%◌, ◌^◌, ◌&&◌, Option, none, some, ltb, leb, ◌==◌,
  if◌then◌else◌,
}
use cs.Fs.Bytes.{Buffer}

pub record Disk : Type 0 where
  pub size : ℕ
  pub byte : ℕ → ℕ

-- The image and the static variable `next_free_block_index`.
pub record Fs : Type 0 where
  pub disk : Disk
  pub next_free : ℕ

abbrev pub block_size : ℕ
block_size = 512

-- `(512 * 1024 * 1024 / 512) - 3`, as the macros expand.
abbrev pub total_blocks : ℕ
total_blocks = 512 * 1024 * 1024 / 512 - 3

-- The bytes of the bitmap, at the end of the image.
abbrev pub bitmap_bytes : ℕ
bitmap_bytes = 512 * 3

-- `calloc` clears the buffer, and `fread` fills what the file has.
unfoldable pub open_block : Disk → ℕ → Buffer
open_block d i k = if ltb k 512 && ltb (512 * i + k) d.size then d.byte (512 * i + k) else 0

unfoldable pub write_block : Disk → ℕ → Buffer → Disk
write_block d i b = record {
  size = if ltb d.size (512 * i + 512) then 512 * i + 512 else d.size;
  byte = λ p.
      if leb (512 * i) p && ltb p (512 * i + 512)
      then b (p - 512 * i)
      else if ltb p d.size
      then d.byte p
      else 0;
}

-- `(byte >> (8 - position - 1)) & 1`
unfoldable pub get_ith_bit : ℕ → ℕ → ℕ
get_ith_bit byte position = byte / 2 ^ (8 - position - 1) % 2

-- `byte | (1 << (8 - position - 1))`, or `byte & ~(1 << (8 - position - 1))`: the bit is put in
-- place of the old one.
unfoldable pub set_ith_bit : ℕ → ℕ → ℕ → ℕ
unfolding get_ith_bit
set_ith_bit byte position val =
    let old = get_ith_bit byte position * 2 ^ (8 - position - 1) in
    if val == 1 then byte - old + 2 ^ (8 - position - 1) else byte - old

-- The offset of the bitmap's byte for block `i`, from `SEEK_END`.
abbrev pub bitmap_position : Disk → ℕ → ℕ
bitmap_position d i = d.size - 1536 + i / 8

-- The byte that `find_next_free_block_index` reads: 0 if `fread` meets the end.
unfoldable pub bitmap_byte : Disk → ℕ → ℕ
bitmap_byte d i = if ltb (bitmap_position d i) d.size then d.byte (bitmap_position d i) else 0

unfoldable pub bit_of : Disk → ℕ → ℕ
unfolding bitmap_byte get_ith_bit
bit_of d i = get_ith_bit (bitmap_byte d i) (i % 8)

-- The loop from block `i`, with `n` blocks left.
unfoldable pub scan_bitmap : Disk → ℕ → ℕ → Option ℕ
unfolding bit_of
scan_bitmap d zero i = none
scan_bitmap d (suc n) i =
    let rest = scan_bitmap d n (i + 1) in if bit_of d i == 0 then some i else rest

-- `none` stands for the result -1.
unfoldable pub find_next_free_block_index : Fs → Option ℕ × Fs
unfolding scan_bitmap
find_next_free_block_index s = elim (scan_bitmap s.disk (total_blocks - s.next_free) s.next_free) [
  | none ↦ (none, s)
  | some i ↦ (some i, record s { next_free = i })
]

-- `junk` is what the uninitialised `byte` held: it is used where `fread` meets the end, which leaves
-- the position where it was, so that the byte before it is the one written.
unfoldable pub set_bitmap : ℕ → Disk → ℕ → ℕ → Disk
unfolding set_ith_bit
set_bitmap junk d index is_taken =
    let at = bitmap_position d index in
    let old = if ltb at d.size then d.byte at else junk in
    let target = if ltb at d.size then at else at - 1 in
    record {
      size = if ltb target d.size then d.size else target + 1;
      byte = λ p.
          if p == target
          then set_ith_bit old (index % 8) is_taken
          else if ltb p d.size
          then d.byte p
          else 0;
    }
