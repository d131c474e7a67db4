-- ===== src/Fs/Bitmap.antt =====
-- proj4/cs1550.c, "BIT MAP": single bits, the search for a free block, and what a mark changes.
use cs.Prelude.{
  ℕ, zero, suc, ◌+◌, ◌-◌, ◌/◌, ◌%◌, ◌≤◌, ◌<◌, ◌≡◌, ◌≢◌, ◌⊎◌, refl, ap, arith, Bool, true, ◌&&◌,
  Option, none, some, ltb, ◌==◌, if◌then◌else◌, Bool-cases, Option-cases, dec_lt, inl, inr,
}
use cs.Fs.Disk.{
  Disk, Fs, total_blocks, bitmap_position, bitmap_byte, get_ith_bit, set_ith_bit, bit_of,
  scan_bitmap, find_next_free_block_index, set_bitmap,
}

-- A test at each number below a bound.
every_below : (ℕ → Bool) → ℕ → Bool
every_below test zero = true
every_below test (suc k) = every_below test k && test k

every_below_lem :
    (test : ℕ → Bool) (k : ℕ) → every_below test k ≡ true → (i : ℕ) → i < k → test i ≡ true
unfolding every_below
every_below_lem test zero all i below = absurd (omega arith)
every_below_lem test (suc k) all i below = elim (dec_lt i k) [
  | yes before ↦ every_below_lem test k (ground (arith, all)) i before
  | no last ↦ let e : i ≡ k = omega arith in rw e (ground (arith, all))
]

-- The bit at `q` after the bit at `p` of `byte` was set to `v`.
abbrev bit_law : ℕ → ℕ → ℕ → ℕ → Bool
bit_law v byte p q =
    (get_ith_bit (set_ith_bit byte p v) q == (if p == q then v else get_ith_bit byte q))
    && ltb (set_ith_bit byte p v) 256

abbrev bit_row : ℕ → ℕ → Bool
bit_row v byte = every_below (λ p. every_below (λ q. bit_law v byte p q) 8) 8

clear_table : every_below (bit_row 0) 256 ≡ true
unfolding every_below set_ith_bit get_ith_bit
clear_table = refl

mark_table : every_below (bit_row 1) 256 ≡ true
unfolding every_below set_ith_bit get_ith_bit
mark_table = refl

bit_table : (v : ℕ) → (v ≡ 0) ⊎ (v ≡ 1) → every_below (bit_row v) 256 ≡ true
bit_table v (inl e) = rw e clear_table
bit_table v (inr e) = rw e mark_table

module _ (byte p q v : ℕ) (fits : byte < 256) (hp : p < 8) (hq : q < 8)
    (hv : (v ≡ 0) ⊎ (v ≡ 1)) where
  bits : bit_law v byte p q ≡ true
  bits =
      let row = every_below_lem (bit_row v) 256 (bit_table v hv) byte fits in
      let cell = every_below_lem (λ p'. every_below (λ q'. bit_law v byte p' q') 8) 8 row p hp in
      every_below_lem (λ q'. bit_law v byte p q') 8 cell q hq

  -- `set_ith_bit` sets the bit that it names, leaves the others, and stays a byte.
  pub get_ith_bit-set_ith_bit :
      (get_ith_bit (set_ith_bit byte p v) q ≡ (if p == q then v else get_ith_bit byte q))
      × (set_ith_bit byte p v < 256)
  get_ith_bit-set_ith_bit = ground (arith, bits)

-- The search finds the first block from `i` on whose bit is 0.
pub scan_bitmap-some :
    (d : Disk) (n i : ℕ) {r : ℕ}
    → scan_bitmap d n i ≡ some r
    → (i ≤ r) × (r < i + n) × (bit_of d r ≡ 0) × ((j : ℕ) → i ≤ j → j < r → bit_of d j ≢ 0)
unfolding scan_bitmap
scan_bitmap-some d zero i h = absurd (ground arith)
scan_bitmap-some d (suc n) i {r} h = elim (Bool-cases (bit_of d i == 0)) [
  | inl free ↦ (ground arith, ground arith, ground arith, λ j p q. absurd (ground arith))
  | inr taken ↦ later (scan_bitmap-some d n (i + 1) (ground arith)) (ground arith)
]
  where
    later :
        (i + 1 ≤ r)
          × (r < i + 1 + n)
          × (bit_of d r ≡ 0)
          × ((j : ℕ) → i + 1 ≤ j → j < r → bit_of d j ≢ 0)
        → bit_of d i ≢ 0
        → (i ≤ r) × (r < i + suc n) × (bit_of d r ≡ 0) × ((j : ℕ) → i ≤ j → j < r → bit_of d j ≢ 0)
    later (a, b, c, f) t = (
      omega arith,
      omega arith,
      c,
      λ j p q e. elim (Bool-cases (j == i)) [
        | inl same ↦ t (ground arith)
        | inr other ↦ f j (ground arith) q e
      ],
    )

pub scan_bitmap-none :
    (d : Disk) (n i j : ℕ) → scan_bitmap d n i ≡ none → i ≤ j → j < i + n → bit_of d j ≢ 0
unfolding scan_bitmap
scan_bitmap-none d zero i j h p q = absurd (omega arith)
scan_bitmap-none d (suc n) i j h p q = ground (arith, scan_bitmap-none d n (i + 1) j)

-- Past the three blocks of the bitmap every block looks free.
pub bit_of_past : (d : Disk) (i : ℕ) → 1536 ≤ d.size → 12288 ≤ i → bit_of d i ≡ 0
unfolding bit_of
bit_of_past d i h k = ground arith

-- From a hint of at most 12288 on an image large enough for the bitmap, the search finds the
-- first block from the hint on whose bit is 0, which is at most 12288 (one past the bitmap), and
-- makes it the hint.
pub find_total :
    (s : Fs)
    → 1536 ≤ s.disk.size
    → s.next_free ≤ 12288
    → (r : ℕ) × (find_next_free_block_index s ≡ (some r, record s { next_free = r }))
      × (s.next_free ≤ r)
      × (r ≤ 12288)
      × (bit_of s.disk r ≡ 0)
      × ((j : ℕ) → s.next_free ≤ j → j < r → bit_of s.disk j ≢ 0)
unfolding find_next_free_block_index
find_total s h k =
    elim (Option-cases (scan_bitmap s.disk (total_blocks - s.next_free) s.next_free)) [
      | inl e ↦ absurd (
          scan_bitmap-none s.disk _ s.next_free 12288 e k (omega arith)
            (bit_of_past s.disk 12288 h (omega arith)))
      | inr (r, e) ↦
          let (lo, hi, free, below) = scan_bitmap-some s.disk _ s.next_free e in
          (r, rw (e, find_next_free_block_index) refl, lo, at_most r below, free, below)
    ]
  where
    at_most : (r : ℕ) → ((j : ℕ) → s.next_free ≤ j → j < r → bit_of s.disk j ≢ 0) → r ≤ 12288
    at_most r below = elim (dec_lt 12288 r) [
      | yes p ↦ absurd (below 12288 k p (bit_of_past s.disk 12288 h (omega arith)))
      | no p ↦ omega arith
    ]

-- The image holds bytes and has room for the bitmap.
pub record IsDisk (d : Disk) : Type 0 where
  pub bitmap_fits : 1536 ≤ d.size
  pub bytes : (p : ℕ) → d.byte p < 256

module _ (junk : ℕ) (d : Disk) (v : IsDisk d) (i taken : ℕ) (hi : i < 12288)
    (ht : (taken ≡ 0) ⊎ (taken ≡ 1)) where
  bitmap_byte-set_bitmap :
      (j : ℕ)
      → j < 12288
      → bitmap_byte (set_bitmap junk d i taken) j
        ≡ (if i / 8 == j / 8 then set_ith_bit (bitmap_byte d i) (i % 8) taken else bitmap_byte d j)
  unfolding set_bitmap bitmap_byte
  bitmap_byte-set_bitmap j hj = ground (arith, v.bitmap_fits)

  bitmap_byte-lt : (j : ℕ) → bitmap_byte d j < 256
  unfolding bitmap_byte
  bitmap_byte-lt j = ground (arith, v.bytes (bitmap_position d j))

  -- On an image of bytes large enough for the bitmap, set_bitmap of a block below 12288 to 0 or 1
  -- changes the bit of that block to it and no other bit of the bitmap.
  pub bit_of-set_bitmap :
      (j : ℕ)
      → j < 12288
      → bit_of (set_bitmap junk d i taken) j ≡ (if j == i then taken else bit_of d j)
  unfolding bit_of bitmap_byte
  bit_of-set_bitmap j hj = elim (Bool-cases (i / 8 == j / 8)) [
    | inl same ↦ ground (
      arith,
      bitmap_byte-set_bitmap j hj,
      shared same,
      get_ith_bit-set_ith_bit (bitmap_byte d i) (i % 8) (j % 8) taken (bitmap_byte-lt i)
          (omega arith) (omega arith) ht,
    )
    | inr other ↦ ground (arith, bitmap_byte-set_bitmap j hj)
  ]
    where
      shared : (i / 8 == j / 8) ≡ true → bitmap_byte d i ≡ bitmap_byte d j
      shared e =
          ap (λ k. if ltb (d.size - 1536 + k) d.size then d.byte (d.size - 1536 + k) else 0)
            (ground arith)

  -- It leaves the size of the image, and every byte before the bitmap.
  pub set_bitmap-frame :
      ((set_bitmap junk d i taken).size ≡ d.size)
      × ((p : ℕ) → p + 1536 < d.size → (set_bitmap junk d i taken).byte p ≡ d.byte p)
  unfolding set_bitmap
  set_bitmap-frame = (ground (arith, v.bitmap_fits), λ p h. ground (arith, v.bitmap_fits))

  pub set_bitmap-IsDisk : IsDisk (set_bitmap junk d i taken)
  unfolding set_bitmap
  set_bitmap-IsDisk = record {
    bitmap_fits = ground (arith, v.bitmap_fits);
    bytes = λ p. ground (
      arith,
      v.bitmap_fits,
      v.bytes p,
      get_ith_bit-set_ith_bit (d.byte (d.size - 1536 + i / 8)) (i % 8) 0 taken (v.bytes _)
          (omega arith) (omega arith) ht,
    );
  }

scan_bitmap-here : (d : Disk) (n i : ℕ) → 0 < n → bit_of d i ≡ 0 → scan_bitmap d n i ≡ some i
unfolding scan_bitmap
scan_bitmap-here d zero i h free = absurd (omega arith)
scan_bitmap-here d (suc n) i h free = rw free refl

-- A hint whose bit is 0 is returned again.
pub find_hint :
    (s : Fs)
    → s.next_free < total_blocks
    → bit_of s.disk s.next_free ≡ 0
    → find_next_free_block_index s ≡ (some s.next_free, s)
unfolding find_next_free_block_index
find_hint s h free =
    rw
      (
        scan_bitmap-here s.disk (total_blocks - s.next_free) s.next_free (omega arith) free,
        find_next_free_block_index,
      )
      refl

pub find_some :
    (s : Fs) {r : ℕ}
    → (find_next_free_block_index s).0 ≡ some r
    → (find_next_free_block_index s ≡ (some r, record s { next_free = r }))
      × (r < total_blocks)
      × (bit_of s.disk r ≡ 0)
unfolding find_next_free_block_index
find_some s {r} h = go (scan_bitmap s.disk (total_blocks - s.next_free) s.next_free) refl
  where
    go :
        (o : Option ℕ)
        → scan_bitmap s.disk (total_blocks - s.next_free) s.next_free ≡ o
        → (find_next_free_block_index s ≡ (some r, record s { next_free = r }))
          × (r < total_blocks)
          × (bit_of s.disk r ≡ 0)
    go none e = absurd (ground (arith, e))
    go (some i) e =
        let (lo, hi, free, _) =
          scan_bitmap-some s.disk (total_blocks - s.next_free) s.next_free e in
        (ground (arith, e), ground (arith, e), ground (arith, e))
