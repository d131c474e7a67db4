-- ===== src/Fs/Chain.antt =====
-- proj4/cs1550.c: the walk of read and write along a file's blocks, and the loops of write.
use cs.Prelude.{
  ℕ, zero, suc, ◌+◌, ◌-◌, ◌*◌, ◌≤◌, ◌<◌, ◌≡◌, ◌≢◌, ◌∙◌, refl, arith, Bool, true, false, Option,
  none, some, inl, inr, List, length, take, drop, length-drop, ltb, ◌==◌, Bool-cases, Option-cases,
}
use cs.Fs.Bytes.{Buffer, get_int, copy_in, put_int}
use cs.Fs.Disk.{Disk, Fs, open_block, write_block, set_bitmap, find_next_free_block_index}
use cs.Fs.Bitmap.{find_total}
use cs.Fs.Path.{Scan, sscanf_path}
use cs.Fs.Layout.{next_field, open_dir, file_start, fsize}
use cs.Fs.Handlers.{Ret}
use cs.Fs.Data.{
  Cursor, next_of, advance, at_start, seek, fill_block, write_rest, write_from, write_file,
  write_path, find_path, write,
}

-- The block `n` links after `index`.
unfoldable pub follow : Disk → ℕ → ℕ → ℕ
follow d index zero = index
follow d index (suc n) = follow d (next_of d index) n

-- Where a walk that began at `c` ended: past the offset, `n` links on, or at a block with no next.
pub record Reached (d : Disk) (offset : ℕ) (c c' : Cursor) (n : ℕ) : Type 0 where
  pub within : c'.adjusted ≤ 504
  pub offsets : c'.adjusted + c'.pos ≡ offset + 504
  pub position : c'.pos ≡ c.pos + 504 * n
  pub block : c'.index ≡ follow d c.index n

pub Outcome : Disk → ℕ → Cursor → Bool → Cursor → Type 0
Outcome d offset c true c' = (n : ℕ) × Reached d offset c c' n
Outcome d offset c false c' = (next_of d c'.index ≡ 0) × (c'.pos < offset)

Outcome-advance :
    (d : Disk) (offset : ℕ) (c : Cursor) (b : Bool) (c' : Cursor)
    → Outcome d offset (advance d c) b c'
    → Outcome d offset c b c'
unfolding Outcome follow
Outcome-advance d offset c true c' (n, r) = (
  suc n,
  record {
    within = r.within;
    offsets = r.offsets;
    position = omega (arith, r.position);
    block = r.block;
  },
)
Outcome-advance d offset c false c' h = h

-- The walk from a cursor that has not passed the offset, with enough fuel.
seek_lem :
    (fuel : ℕ) (d : Disk) (offset : ℕ) (c : Cursor)
    → offset < c.pos + 504 * fuel
    → c.pos ≤ offset + 504
    → c.adjusted + c.pos ≡ offset + 504
    → let (reached, c') = seek fuel d offset c in Outcome d offset c reached c'
unfolding seek Outcome follow
seek_lem zero d offset c enough near adj =
    let past : ltb c.pos offset ≡ false = ground arith in
    rw past
      (0, record { within = omega arith; offsets = adj; position = omega arith; block = refl })
seek_lem (suc fuel) d offset c enough near adj = elim (Bool-cases (ltb c.pos offset)) [
  | inr stop ↦
      rw stop
        (0, record { within = ground arith; offsets = adj; position = omega arith; block = refl })
  | inl on ↦ elim (Bool-cases (next_of d c.index == 0)) [
    | inl last ↦ rw (on, last) (ground arith, ground arith)
    | inr more ↦
        rw (on, more)
          (Outcome-advance d offset c _ _
            (seek_lem fuel d offset (advance d c) (omega arith) (ground arith) (ground arith)))
  ]
]

-- The walk of read and write from a file's first block ends within its fuel. It ends either after
-- as many links as it passed blocks of 504 bytes, with the rest of the offset at most 504, or
-- before the offset, at a block that has no next one.
pub seek-at_start :
    (d : Disk) (start offset : ℕ)
    → let (reached, c) = seek (offset + 1) d offset (at_start start offset) in
      Outcome d offset (at_start start offset) reached c
seek-at_start d start offset =
    seek_lem (offset + 1) d offset (at_start start offset) (omega arith) (omega arith) (omega arith)

-- What every write keeps, and the search for a block needs.
pub record IsSearchable (s : Fs) : Type 0 where
  pub bitmap_fits : 1536 ≤ s.disk.size
  pub hint : s.next_free ≤ 12288

size-write_block-le : (d : Disk) (i : ℕ) (b : Buffer) → d.size ≤ (write_block d i b).size
unfolding write_block
size-write_block-le d i b = ground arith

size-set_bitmap-le : (junk : ℕ) (d : Disk) (i v : ℕ) → d.size ≤ (set_bitmap junk d i v).size
unfolding set_bitmap
size-set_bitmap-le junk d i v = ground arith

fill_block_lem :
    (s : Fs) (index : ℕ) (block : Buffer) (adjusted : ℕ) (bytes : List ℕ) (n : ℕ)
    → find_next_free_block_index s ≡ (some n, record s { next_free = n })
    → fill_block s index block adjusted bytes
      ≡ some (
        n,
        record {
          disk =
              write_block s.disk index
                (put_int 8 (copy_in block adjusted (take 504 bytes)) next_field n);
          next_free = n;
        },
      )
unfolding fill_block
fill_block_lem s index block adjusted bytes n e = ground arith

-- One round of the last loop of write, with more than a block left.
pub write_rest-step :
    (fuel : ℕ) (s : Fs) (index : ℕ) (block : Buffer) (adjusted : ℕ) (bytes : List ℕ) (n : ℕ)
    → find_next_free_block_index s ≡ (some n, record s { next_free = n })
    → 504 < length bytes
    → let d =
        write_block s.disk index
          (put_int 8 (copy_in block adjusted (take 504 bytes)) next_field n) in
      write_rest (suc fuel) s index block adjusted bytes
      ≡ write_rest fuel
          (record { disk = d; next_free = n })
          n
          (open_block d n)
          adjusted
          (drop 504 bytes)
unfolding write_rest
write_rest-step fuel s index block adjusted bytes n e long =
    let more : (length bytes == 0) ≡ false = ground arith in
    let spills : ltb 504 (length bytes) ≡ true = ground arith in
    rw (more, spills, fill_block_lem s index block adjusted bytes n e) refl

-- The first new block of a write that spills over.
pub write_from-step :
    (junk : ℕ) (s : Fs) (c : Cursor) (bytes : List ℕ) (n : ℕ)
    → find_next_free_block_index s ≡ (some n, record s { next_free = n })
    → c.adjusted ≤ 504
    → 504 < c.adjusted + length bytes
    → let filled =
        copy_in
          (put_int 8 (open_block s.disk c.index) next_field n)
          c.adjusted
          (take (504 - c.adjusted) bytes) in
      let d = write_block (set_bitmap junk s.disk n 1) c.index filled in
      write_from junk s c bytes
      ≡ write_rest
          (length bytes + 1)
          (record { disk = d; next_free = n })
          n
          (open_block d n)
          0
          (drop (504 - c.adjusted) bytes)
unfolding write_from
write_from-step junk s c bytes n e near spills = ground arith

pub write_rest_total :
    (fuel : ℕ) (s : Fs) (index : ℕ) (block : Buffer) (adjusted : ℕ) (bytes : List ℕ)
    → IsSearchable s
    → length bytes < fuel
    → (s' : Fs) × (write_rest fuel s index block adjusted bytes ≡ some s') × IsSearchable s'
unfolding write_rest
write_rest_total zero s index block adjusted bytes h lt = absurd (omega arith)
write_rest_total (suc fuel) s index block adjusted bytes h lt =
    elim (Bool-cases (length bytes == 0)) [
      | inl done ↦ (s, rw done refl, h)
      | inr more ↦ elim (Bool-cases (ltb 504 (length bytes))) [
        | inr last ↦ (
          record s { disk = write_block s.disk index (copy_in block adjusted bytes) },
          rw (more, last) refl,
          record {
            bitmap_fits = omega (
              arith,
              size-write_block-le s.disk index (copy_in block adjusted bytes),
              h.bitmap_fits,
            );
            hint = h.hint;
          },
        )
        | inl long ↦
            let (n, e, lo, hi, _, _) = find_total s h.bitmap_fits h.hint in
            let filled = put_int 8 (copy_in block adjusted (take 504 bytes)) next_field n in
            let d = write_block s.disk index filled in
            let (s', e', h') =
              write_rest_total fuel (record { disk = d; next_free = n }) n (open_block d n) adjusted
                (drop 504 bytes)
                (record {
                  bitmap_fits =
                      omega (arith, size-write_block-le s.disk index filled, h.bitmap_fits);
                  hint = hi;
                })
                (ground (arith, length-drop 504 bytes)) in
            (s', write_rest-step fuel s index block adjusted bytes n e (ground arith) ∙ e', h')
      ]
    ]

write_from_total :
    (junk : ℕ) (s : Fs) (c : Cursor) (bytes : List ℕ)
    → IsSearchable s
    → c.adjusted ≤ 504
    → (s' : Fs) × (write_from junk s c bytes ≡ some s') × IsSearchable s'
unfolding write_from
write_from_total junk s c bytes h near = elim (Bool-cases (ltb 504 (c.adjusted + length bytes))) [
  | inr fits ↦
      let (s', e, h') =
        write_rest_total (length bytes + 1) s c.index (open_block s.disk c.index) c.adjusted bytes h
          (omega arith) in
      let inside : ltb 504 c.adjusted ≡ false = ground arith in (s', rw (inside, fits) e, h')
  | inl spills ↦
      let (n, e, lo, hi, _, _) = find_total s h.bitmap_fits h.hint in
      let k = 504 - c.adjusted in
      let filled =
        copy_in (put_int 8 (open_block s.disk c.index) next_field n) c.adjusted (take k bytes) in
      let marked = set_bitmap junk s.disk n 1 in
      let d = write_block marked c.index filled in
      let (s', e', h') =
        write_rest_total (length bytes + 1) (record { disk = d; next_free = n }) n (open_block d n)
          0 (drop k bytes)
          (record {
            bitmap_fits = omega (
              arith,
              size-write_block-le marked c.index filled,
              size-set_bitmap-le junk s.disk n 1,
              h.bitmap_fits,
            );
            hint = hi;
          })
          (omega (arith, length-drop k bytes)) in
      (s', write_from-step junk s c bytes n e near (ground arith) ∙ e', h')
]

-- The file of a path has the blocks for the offset: where the offset is within its size, the walk
-- along its chain gets there.
abbrev pub HasBlocks : Disk → Scan → ℕ → Type 0
HasBlocks d p offset =
    (at i : ℕ)
    → find_path d p ≡ some (at, some i)
    → offset ≤ get_int 8 (open_dir d at) (fsize i)
    → (seek (offset + 1) d offset (at_start (get_int 8 (open_dir d at) (file_start i)) offset)).0
      ≡ true

-- A walk that gets to the offset leaves at most a block of it.
seek_within :
    (d : Disk) (start offset : ℕ)
    → (seek (offset + 1) d offset (at_start start offset)).0 ≡ true
    → (seek (offset + 1) d offset (at_start start offset)).1.adjusted ≤ 504
unfolding Outcome
seek_within d start offset reached =
    go (seek (offset + 1) d offset (at_start start offset)) reached (seek-at_start d start offset)
  where
    go :
        (r : Bool × Cursor)
        → r.0 ≡ true
        → Outcome d offset (at_start start offset) r.0 r.1
        → r.1.adjusted ≤ 504
    go (true, c) e (n, r) = r.within
    go (false, c) e o = cc

write_file-ne-none :
    (junk : ℕ) (s : Fs) (at i : ℕ) (bytes : List ℕ) (offset : ℕ)
    → IsSearchable s
    → (offset ≤ get_int 8 (open_dir s.disk at) (fsize i)
        → (seek
            (offset + 1)
            s.disk
            offset
            (at_start (get_int 8 (open_dir s.disk at) (file_start i)) offset)).0
          ≡ true)
    → write_file junk s at i bytes offset ≢ none
unfolding write_file
write_file-ne-none junk s at i bytes offset h blocks =
    let start = get_int 8 (open_dir s.disk at) (file_start i) in
    let c = (seek (offset + 1) s.disk offset (at_start start offset)).1 in
    elim (Bool-cases (ltb (get_int 8 (open_dir s.disk at) (fsize i)) offset)) [
      | inl past ↦ ground (arith, past)
      | inr within ↦
          let near = seek_within s.disk start offset (blocks (ground arith)) in
          let (s', e, _) = write_from_total junk s c bytes h near in ground (arith, e)
    ]

write_path-ne-none :
    (junk : ℕ) (s : Fs) (p : Scan) (bytes : List ℕ) (offset : ℕ)
    → IsSearchable s
    → HasBlocks s.disk p offset
    → write_path junk s p bytes offset ≢ none
unfolding write_path
write_path-ne-none junk s p bytes offset h blocks = go (find_path s.disk p) refl
  where
    go :
        (o : Option (ℕ × Option ℕ))
        → find_path s.disk p ≡ o
        → write_path junk s p bytes offset ≢ none
    go none e = ground (arith, e)
    go (some (at, none)) e = ground (arith, e)
    go (some (at, some i)) e =
        ground (arith, e, write_file-ne-none junk s at i bytes offset h (blocks at i e))

-- With the image large enough for the bitmap, the hint at most 12288, and the file of the path,
-- if the offset is within its size, with a chain of blocks that the walk can follow to the
-- offset: write returns. Every search for a block finds one, the length of the first copy does
-- not wrap, and the loops end within their fuel.
pub write_total :
    (junk : List ℕ) (byte : ℕ) (s : Fs) (path bytes : List ℕ) (offset : ℕ)
    → IsSearchable s
    → HasBlocks s.disk (sscanf_path junk path) offset
    → (r : Ret × Fs) × (write junk byte s path bytes offset ≡ some r)
unfolding write
write_total junk byte s path bytes offset h blocks =
    let some_r = write_path-ne-none byte s (sscanf_path junk path) bytes offset h blocks in
    elim (Option-cases (write junk byte s path bytes offset)) [
      | inr found ↦ found
      | inl e ↦ absurd (ground (arith, e, some_r))
    ]
