-- ===== src/Fs/Data.antt =====
-- proj4/cs1550.c: cs1550_read and cs1550_write, over the chain of blocks of a file.
-- Offsets and sizes are `size_t`; `size` and `offset` of a call are below 2 ^ 63. The size returned is an
-- `int`, here its 32 bits: from 2 ^ 31 on the caller sees it as negative.
use cs.Prelude.{
  ℕ, zero, suc, ◌+◌, ◌-◌, ◌%◌, ◌^◌, Bool, true, false, ◌||◌, not, List, [], ◌++◌, Option, none,
  some, ltb, ◌==◌, if◌then◌else◌, length, take, drop,
}
use cs.Fs.Bytes.{Buffer, get_int, put_int, copy_in, copy_out}
use cs.Fs.Disk.{Disk, Fs, open_block, write_block, find_next_free_block_index, set_bitmap}
use cs.Fs.Path.{Scan, sscanf_path}
use cs.Fs.Layout.{
  next_field, dir_start, fsize, file_start, open_root, open_dir, save_dir, find_dir, find_file,
}
use cs.Fs.Handlers.{Ret, success, failure, enoent, eperm, eexist, eisdir, efbig}

-- Where the walk along a chain stands: the block, `pos_so_far` and `adjusted_offset`.
pub record Cursor : Type 0 where
  pub index : ℕ
  pub pos : ℕ
  pub adjusted : ℕ

abbrev pub next_of : Disk → ℕ → ℕ
next_of d index = get_int 8 (open_block d index) next_field

abbrev pub advance : Disk → Cursor → Cursor
advance d c = record { index = next_of d c.index; pos = c.pos + 504; adjusted = c.adjusted - 504 }

abbrev pub at_start : ℕ → ℕ → Cursor
at_start index offset = record { index = index; pos = 504; adjusted = offset }

-- `while (offset > pos_so_far)`: the first part tells whether the loop ended by its test, and not
-- at a block with no next one.
unfoldable pub seek : ℕ → Disk → ℕ → Cursor → Bool × Cursor
seek zero d offset c = (not (ltb c.pos offset), c)
seek (suc fuel) d offset c =
    let rest = seek fuel d offset (advance d c) in
    if ltb c.pos offset then (if next_of d c.index == 0 then (false, c) else rest) else (true, c)

-- `while (size_read < fsize - offset)`: the bytes that are copied to `buf`, in order.
unfoldable pub read_rest : ℕ → Disk → ℕ → ℕ → ℕ → ℕ → List ℕ
read_rest zero d index adjusted total size_read = []
read_rest (suc fuel) d index adjusted total size_read =
    let block = open_block d index in
    let left = total - size_read in
    let more = read_rest fuel d (next_of d index) adjusted total (size_read + 504) in
    if ltb size_read total
    then (if ltb 504 left
        then copy_out 504 block adjusted ++ (if next_of d index == 0 then [] else more)
        else copy_out left block adjusted)
    else []

-- From the block that holds `offset`: the value returned and the bytes copied. A copy that runs past
-- the block, which the C code takes from the heap, has zeros there.
unfoldable pub read_from : Disk → Cursor → ℕ → ℕ → Ret × List ℕ
read_from d c size total =
    let block = open_block d c.index in
    if ltb 504 ((c.adjusted + size) % 2 ^ 64)
    then (let n = 504 - c.adjusted in
        if next_of d c.index == 0 then (failure enoent, copy_out n block c.adjusted) else (
          success (size % 2 ^ 32),
          copy_out n block c.adjusted ++ read_rest (total + 1) d (next_of d c.index) 0 total n,
        ))
    else (success (size % 2 ^ 32), read_rest (total + 1) d c.index c.adjusted total 0)

-- The request, cut to the file's size; both differences are `size_t`.
unfoldable pub read_file : Disk → ℕ → ℕ → ℕ → ℕ → Ret × List ℕ
read_file d start file_size size offset =
    let total = (file_size + 2 ^ 64 - offset) % 2 ^ 64 in
    let size' = if ltb file_size (offset + size) then total else size in
    let (reached, c) = seek (offset + 1) d offset (at_start start offset) in
    if reached then read_from d c size' total else (failure enoent, [])

-- The file of a path, as the handlers find it: its directory's block and its index there.
unfoldable pub find_path : Disk → Scan → Option (ℕ × Option ℕ)
find_path d p = elim (find_dir (open_root d) p.directory) [
  | none ↦ none
  | some i ↦
      let at = get_int 8 (open_root d) (dir_start i) in
      some (at, find_file (open_dir d at) p.filename p.extension)
]

unfoldable pub read_path : Disk → Scan → ℕ → ℕ → Ret × List ℕ
read_path d p size offset = elim (find_path d p) [
  | none ↦ (failure enoent, [])
  | some (at, none) ↦ (failure enoent, [])
  | some (at, some i) ↦
      let dir = open_dir d at in
      read_file d (get_int 8 dir (file_start i)) (get_int 8 dir (fsize i)) size offset
]

unfoldable pub read : List ℕ → Disk → List ℕ → ℕ → ℕ → Ret × List ℕ
read junk d path size offset =
    let p = sscanf_path junk path in
    if size == 0
    then (failure eperm, [])
    else if not (p.count == 3)
    then (failure eisdir, [])
    else if ltb 8 (length p.directory) || ltb 8 (length p.filename) || ltb 3 (length p.extension)
    then (failure enoent, [])
    else read_path d p size offset

-- A full block in the last loop of write: the data, the link to the next free block, and the block
-- itself written. `none`: the search gave -1, which write does not test.
unfoldable pub fill_block : Fs → ℕ → Buffer → ℕ → List ℕ → Option (ℕ × Fs)
fill_block s index block adjusted bytes =
    let (found, s') = find_next_free_block_index s in
    elim found [
      | none ↦ none
      | some n ↦
          let filled = put_int 8 (copy_in block adjusted (take 504 bytes)) next_field n in
          some (n, record s' { disk = write_block s'.disk index filled })
    ]

-- The last loop of write, over the bytes that are left.
unfoldable pub write_rest : ℕ → Fs → ℕ → Buffer → ℕ → List ℕ → Option Fs
write_rest zero s index block adjusted bytes = none
write_rest (suc fuel) s index block adjusted bytes =
    if length bytes == 0
    then some s
    else if ltb 504 (length bytes)
    then (elim (fill_block s index block adjusted bytes) [
      | none ↦ none
      | some (n, s') ↦ write_rest fuel s' n (open_block s'.disk n) adjusted (drop 504 bytes)
    ])
    else some (record s { disk = write_block s.disk index (copy_in block adjusted bytes) })

-- From the block where the walk ended. The link to a new block is set before the data is copied. `none`:
-- the search gave -1, or the chain is shorter than the offset, so that 504 less `adjusted` wraps and
-- the `memcpy` of nearly 2 ^ 64 bytes does not come back.
unfoldable pub write_from : ℕ → Fs → Cursor → List ℕ → Option Fs
write_from junk s c bytes =
    let block = open_block s.disk c.index in
    if ltb 504 c.adjusted
    then none
    else if ltb 504 (c.adjusted + length bytes)
    then (let (found, s') = find_next_free_block_index s in
        elim found [
          | none ↦ none
          | some n ↦
              let k = 504 - c.adjusted in
              let filled = copy_in (put_int 8 block next_field n) c.adjusted (take k bytes) in
              let d = write_block (set_bitmap junk s'.disk n 1) c.index filled in
              write_rest (length bytes + 1) (record s' { disk = d }) n (open_block d n) 0
                (drop k bytes)
        ])
    else write_rest (length bytes + 1) s c.index block c.adjusted bytes

unfoldable pub write_file : ℕ → Fs → ℕ → ℕ → List ℕ → ℕ → Option (Ret × Fs)
write_file junk s at i bytes offset =
    let dir = open_dir s.disk at in
    let (_, c) = seek (offset + 1) s.disk offset (at_start (get_int 8 dir (file_start i)) offset) in
    if ltb (get_int 8 dir (fsize i)) offset
    then some (failure efbig, s)
    else elim (write_from junk s c bytes) [
      | none ↦ none
      | some s' ↦ some (
        success (length bytes % 2 ^ 32),
        record s' {
          disk = save_dir s'.disk at (put_int 8 dir (fsize i) ((offset + length bytes) % 2 ^ 64));
        },
      )
    ]

unfoldable pub write_path : ℕ → Fs → Scan → List ℕ → ℕ → Option (Ret × Fs)
write_path junk s p bytes offset = elim (find_path s.disk p) [
  | none ↦ some (failure eexist, s)
  | some (at, none) ↦ some (failure enoent, s)
  | some (at, some i) ↦ write_file junk s at i bytes offset
]

unfoldable pub write : List ℕ → ℕ → Fs → List ℕ → List ℕ → ℕ → Option (Ret × Fs)
write junk byte s path bytes offset =
    let p = sscanf_path junk path in
    if length bytes == 0
    then some (failure eperm, s)
    else if not (p.count == 3)
    then some (failure eexist, s)
    else write_path byte s p bytes offset
