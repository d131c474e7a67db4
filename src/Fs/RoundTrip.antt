-- ===== src/Fs/RoundTrip.antt =====
-- proj4/cs1550.c: cs1550_write and cs1550_read within the first block of a file.
use cs.Prelude.{
  ℕ, suc, ◌+◌, ◌-◌, ◌^◌, ◌%◌, ◌≤◌, ◌<◌, ◌≡◌, ◌≢◌, ◌∙◌, ap₂, fun_ext, refl, arith, true, false, ◌&&◌,
  some, inl, inr, List, length, ltb, ◌==◌, if◌then◌else◌, Bool-cases,
}
use cs.Fs.Bytes.{
  Buffer, IsBytes, get_int, put_int, get_int-put_int, get_int-Agree, put_int-outside, str_eq-Agree,
  copy_in, copy_out, copy_out-copy_in, copy_out-Agree,
}
use cs.Fs.Disk.{Disk, Fs, open_block, write_block}
use cs.Fs.Blocks.{open_block-write_block}
use cs.Fs.Path.{Scan, sscanf_path}
use cs.Fs.Layout.{
  fname, fext, fsize, file_start, max_files_in_dir, open_root, open_dir, save_dir, find_file,
}
use cs.Prelude.Search.{search_from-congr}
use cs.Fs.Handlers.{success}
use cs.Fs.Data.{
  at_start, seek, read_rest, read_from, read_file, read_path, read, write_rest, write_from,
  write_file, write_path, write, find_path,
}

-- An offset in the first block.
pub seek_near :
    (d : Disk) (start offset : ℕ)
    → offset ≤ 504
    → seek (offset + 1) d offset (at_start start offset) ≡ (true, at_start start offset)
unfolding seek
seek_near d start offset h =
    let e : offset + 1 ≡ suc offset = omega arith in
    let stop : ltb 504 offset ≡ false = ground arith in rw (e, stop) refl

module _ (s : Fs) (p : Scan) (at i start offset : ℕ) (bytes : List ℕ)
    (found : find_path s.disk p ≡ some (at, some i))
    (starts : get_int 8 (open_dir s.disk at) (file_start i) ≡ start) (h1 : at ≢ 0) (h2 : start ≢ 0)
    (h3 : start ≢ at) (inside : i < max_files_in_dir)
    (few : get_int 4 (open_dir s.disk at) 0 ≤ max_files_in_dir) (short : length p.filename ≤ 8)
    (short_ext : length p.extension ≤ 3) (nonempty : 0 < length bytes)
    (fits : offset + length bytes ≤ 504) (hb : IsBytes bytes)
    (reachable : offset ≤ get_int 8 (open_dir s.disk at) (fsize i)) where
  abbrev dir : Buffer
  dir = open_dir s.disk at

  abbrev filled : Buffer
  filled = copy_in (open_block s.disk start) offset bytes

  abbrev dir' : Buffer
  dir' = put_int 8 dir (fsize i) (offset + length bytes)

  abbrev disk' : Disk
  disk' = save_dir (write_block s.disk start filled) at dir'

  write_rest_short :
      (index : ℕ)
      → write_rest (length bytes + 1) s index (open_block s.disk index) offset bytes
        ≡ some (record s {
          disk = write_block s.disk index (copy_in (open_block s.disk index) offset bytes);
        })
  unfolding write_rest
  write_rest_short index =
      let e : length bytes + 1 ≡ suc (length bytes) = omega arith in
      let more : (length bytes == 0) ≡ false = ground arith in
      let last : ltb 504 (length bytes) ≡ false = ground arith in rw (e, more, last) refl

  write_eq :
      (junk : ℕ)
      → write_path junk s p bytes offset ≡ some (success (length bytes), record s { disk = disk' })
  unfolding write_path write_file write_from
  write_eq junk =
      let near = seek_near s.disk start offset (omega arith) in
      let small : (offset + length bytes) % 2 ^ 64 ≡ offset + length bytes = omega arith in
      let int : length bytes % 2 ^ 32 ≡ length bytes = omega arith in
      ground (arith, found, starts, near, small, int, write_rest_short start)

  block' :
      (j k : ℕ)
      → open_block disk' j k ≡ (
          if j == at
          then (if ltb k 512 then dir' k else 0)
          else if j == start
          then (if ltb k 512 then filled k else 0)
          else open_block s.disk j k)
  unfolding save_dir
  block' j k = ground (
    arith,
    open_block-write_block (write_block s.disk start filled) at j dir' k,
    open_block-write_block s.disk start j filled k,
  )

  root' : open_root disk' ≡ open_root s.disk
  unfolding open_root
  root' = fun_ext (λ k. ground (arith, block' 0 k))

  -- The saved directory differs from the old one in the size of the file alone.
  same' : (k : ℕ) → k < 512 → (fsize i ≤ k → fsize i + 8 ≤ k) → open_dir disk' at k ≡ dir k
  unfolding open_dir
  same' k lt out = ground (arith, block' at k, elsewhere)
    where
      elsewhere : dir' k ≡ dir k
      elsewhere = elim (Bool-cases (ltb k (fsize i))) [
        | inl below ↦ put_int-outside 8 dir (fsize i) (offset + length bytes) k (inl (ground arith))
        | inr above ↦
            put_int-outside 8 dir (fsize i) (offset + length bytes) k (inr (out (ground arith)))
      ]

  names' :
      find_file (open_dir disk' at) p.filename p.extension ≡ find_file dir p.filename p.extension
  unfolding find_file
  names' =
      let count' : get_int 4 (open_dir disk' at) 0 ≡ get_int 4 dir 0 =
        get_int-Agree 4 _ _ 0 (λ k a b. same' k (omega arith) (λ c. omega arith)) in
      rw count' (
        search_from-congr (get_int 4 dir 0) 0 _ _ (λ j lo hi.
          ap₂ ◌&&◌
            (str_eq-Agree p.filename _ _ (fname j)
              (λ k a b. same' k (omega arith) (λ c. omega arith)))
            (str_eq-Agree p.extension _ _ (fext j)
              (λ k a b. same' k (omega arith) (λ c. omega arith)))))

  found' : find_path disk' p ≡ some (at, some i)
  unfolding find_path
  found' = ground (arith, found, root', names')

  start' : get_int 8 (open_dir disk' at) (file_start i) ≡ start
  start' =
      get_int-Agree 8 _ _ (file_start i) (λ k a b. same' k (omega arith) (λ c. omega arith))
      ∙ starts

  size' : get_int 8 (open_dir disk' at) (fsize i) ≡ offset + length bytes
  unfolding open_dir
  size' =
      get_int-Agree 8 _ dir' (fsize i) (λ k a b. ground (arith, block' at k))
      ∙ get_int-put_int 8 dir (fsize i) (offset + length bytes) (omega arith)

  data' : copy_out (length bytes) (open_block disk' start) offset ≡ bytes
  data' =
      copy_out-Agree (length bytes) _ filled offset (λ k a b. ground (arith, block' start k))
      ∙ copy_out-copy_in bytes (open_block s.disk start) offset hb

  read_rest_short :
      read_rest (length bytes + 1) disk' start offset (length bytes) 0
      ≡ copy_out (length bytes) (open_block disk' start) offset
  unfolding read_rest
  read_rest_short =
      let e : length bytes + 1 ≡ suc (length bytes) = omega arith in
      let whole : length bytes - 0 ≡ length bytes = omega arith in
      let more : ltb 0 (length bytes) ≡ true = ground arith in
      let last : ltb 504 (length bytes) ≡ false = ground arith in rw (e, more, whole, last) refl

  read_eq : read_path disk' p (length bytes) offset ≡ (success (length bytes), bytes)
  unfolding read_path read_file read_from
  read_eq =
      let total : (offset + length bytes + 2 ^ 64 - offset) % 2 ^ 64 ≡ length bytes = omega arith in
      let int : length bytes % 2 ^ 32 ≡ length bytes = omega arith in
      ground (
        arith,
        found',
        start',
        size',
        int,
        seek_near disk' start offset (omega arith),
        total,
        read_rest_short,
        data',
      )

-- With a path of three parts that fit 8.3 names, found at entry `i`, one of the at most 17, of
-- the directory in block `at`, whose first block is `start`, both not 0 and different: a write of
-- bytes, at least one, at an offset within the file, that ends within the first 504 bytes,
-- succeeds, and a read of as many bytes at that offset then returns them.
pub read-write :
    (junk : List ℕ) (byte : ℕ) (s : Fs) (path bytes : List ℕ) (offset at i start : ℕ)
    → (sscanf_path junk path).count ≡ 3
    → length (sscanf_path junk path).directory ≤ 8
    → length (sscanf_path junk path).filename ≤ 8
    → length (sscanf_path junk path).extension ≤ 3
    → find_path s.disk (sscanf_path junk path) ≡ some (at, some i)
    → get_int 8 (open_dir s.disk at) (file_start i) ≡ start
    → at ≢ 0
    → start ≢ 0
    → start ≢ at
    → i < max_files_in_dir
    → get_int 4 (open_dir s.disk at) 0 ≤ max_files_in_dir
    → offset ≤ get_int 8 (open_dir s.disk at) (fsize i)
    → 0 < length bytes
    → offset + length bytes ≤ 504
    → IsBytes bytes
    → (s' : Fs) × (write junk byte s path bytes offset ≡ some (success (length bytes), s'))
      × (read junk s'.disk path (length bytes) offset ≡ (success (length bytes), bytes))
unfolding write read
read-write junk byte s path bytes offset at i start three short_dir short short_ext found starts h1
      h2 h3 inside few reachable nonempty fits hb =
    let p = sscanf_path junk path in
    let written =
      write_eq s p at i start offset bytes found starts h1 h2 h3 inside few short short_ext nonempty
        fits hb reachable byte in
    let back =
      read_eq s p at i start offset bytes found starts h1 h2 h3 inside few short short_ext nonempty
        fits hb reachable in
    let d =
      disk' s p at i start offset bytes found starts h1 h2 h3 inside few short short_ext nonempty
        fits hb reachable in
    (record s { disk = d }, ground (arith, written), ground (arith, back))
