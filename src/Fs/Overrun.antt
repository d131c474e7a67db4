-- ===== src/Fs/Overrun.antt =====
-- proj4/cs1550.c: the last loop of cs1550_write, on data of more than two blocks.
use cs.Prelude.{
  ℕ, zero, suc, ◌+◌, ◌^◌, ◌≤◌, ◌<◌, ◌≡◌, ◌∙◌, sym, refl, arith, some, inl, inr, ◌⊎◌, List, length,
  take, drop, ltb, ◌==◌, length-drop, Bool-cases,
}
use cs.Fs.Bytes.{Buffer, get_int, put_int, get_int-put_int, get_int-Agree, copy_in, copy_in-outside}
use cs.Fs.Disk.{Disk, Fs, total_blocks, open_block, write_block, bit_of, find_next_free_block_index}
use cs.Fs.Bitmap.{find_hint, find_some}
use cs.Fs.Blocks.{IsData, open_block-write_block, bit_of-write_block, size-write_block}
use cs.Fs.Layout.{next_field}
use cs.Fs.Data.{next_of, write_rest}
use cs.Fs.Chain.{IsSearchable, write_rest-step, write_rest_total}

-- After a block is written its link is the one that it was given.
next_of-write_block :
    (d : Disk) (i : ℕ) (b : Buffer) → next_of (write_block d i b) i ≡ get_int 8 b next_field
next_of-write_block d i b =
    get_int-Agree 8 _ b next_field (λ k p q. ground (arith, open_block-write_block d i i b k))

link_lem : (b : Buffer) (n : ℕ) → n < 256 ^ 8 → get_int 8 (put_int 8 b next_field n) next_field ≡ n
link_lem b n h = get_int-put_int 8 b next_field n h

module _ (m : ℕ) (hm : m < total_blocks) where
  -- From a block that is the hint and still free, the loop goes on in the same block.
  write_rest_self :
      (fuel : ℕ) (s : Fs) (bytes : List ℕ) {s' : Fs}
      → s.next_free ≡ m
      → bit_of s.disk m ≡ 0
      → IsData s.disk m
      → (504 < length bytes) ⊎ (next_of s.disk m ≡ m)
      → write_rest fuel s m (open_block s.disk m) 0 bytes ≡ some s'
      → (next_of s'.disk m ≡ m) × (bit_of s'.disk m ≡ 0)
  unfolding write_rest
  write_rest_self zero s bytes e free data_block link ends = cc
  write_rest_self (suc fuel) s bytes {s'} e free data_block link ends =
      elim (Bool-cases (ltb 504 (length bytes))) [
        | inl long ↦
            write_rest_self fuel after (drop 504 bytes) refl (kept ∙ free)
              (omega (arith, size-write_block s.disk m filled data_block))
              (inr (
                next_of-write_block s.disk m filled
                ∙ link_lem (copy_in (open_block s.disk m) 0 (take 504 bytes)) m (omega arith)))
              (sym (write_rest-step fuel s m (open_block s.disk m) 0 bytes m here (ground arith))
                ∙ ends)
        | inr last ↦ elim (Bool-cases (length bytes == 0)) [
          | inl done ↦ (ground arith, ground arith)
          | inr more ↦ (
            ground (arith, stays),
            ground (
              arith,
              bit_of-write_block s.disk m (copy_in (open_block s.disk m) 0 bytes) data_block m,
            ),
          )
        ]
      ]
    where
      filled : Buffer
      filled = put_int 8 (copy_in (open_block s.disk m) 0 (take 504 bytes)) next_field m

      after : Fs
      after = record { disk = write_block s.disk m filled; next_free = m }

      kept : bit_of (write_block s.disk m filled) m ≡ bit_of s.disk m
      kept = bit_of-write_block s.disk m filled data_block m

      here : find_next_free_block_index s ≡ (some m, record s { next_free = m })
      here = rw (← e) (find_hint s (omega arith) (ground arith))

      stays :
          length bytes ≤ 504
          → next_of (write_block s.disk m (copy_in (open_block s.disk m) 0 bytes)) m
            ≡ next_of s.disk m
      stays h =
          next_of-write_block s.disk m (copy_in (open_block s.disk m) 0 bytes)
          ∙ get_int-Agree 8 _ (open_block s.disk m) next_field
              (λ k p q. copy_in-outside bytes (open_block s.disk m) 0 k (inr (omega arith)))

-- In the last loop of write, with more than 1008 bytes left, on an image whose bitmap fits and
-- where the search finds a block `m` before the bitmap, as the current one is: the loop ends with
-- the block `m` linked to itself and still free in the bitmap.
pub write_self_link :
    (s : Fs) (index : ℕ) (block : Buffer) (bytes : List ℕ) (m : ℕ)
    → IsSearchable s
    → (find_next_free_block_index s).0 ≡ some m
    → IsData s.disk index
    → IsData s.disk m
    → 1008 < length bytes
    → (s' : Fs) × (write_rest (length bytes + 1) s index block 0 bytes ≡ some s')
      × (next_of s'.disk m ≡ m)
      × (bit_of s'.disk m ≡ 0)
write_self_link s index block bytes m h found data_index data_m long =
    let (e, hm, free) = find_some s {r = m} found in
    let (s', ends, _) = write_rest_total (length bytes + 1) s index block 0 bytes h (omega arith) in
    let filled = put_int 8 (copy_in block 0 (take 504 bytes)) next_field m in
    let d = write_block s.disk index filled in
    let fuel : length bytes + 1 ≡ suc (length bytes) = omega arith in
    let step = write_rest-step (length bytes) s index block 0 bytes m e (omega arith) in
    let (link, unmarked) =
      write_rest_self m hm (length bytes) (record { disk = d; next_free = m }) (drop 504 bytes)
        {s' = s'} refl (bit_of-write_block s.disk index filled data_index m ∙ free)
        (omega (arith, size-write_block s.disk index filled data_index, data_m))
        (inl (omega (arith, length-drop 504 bytes))) (sym step ∙ rw fuel at ends) in
    (s', ends, link, unmarked)
