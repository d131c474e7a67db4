-- ===== src/Fs/Mkdir.antt =====
-- proj4/cs1550.c, cs1550_mkdir: its branches, and what getattr answers afterwards.
use cs.Prelude.{
  ℕ, ◌≤◌, ◌<◌, ◌≡◌, ◌≢◌, ◌∙◌, refl, arith, none, some, inl, inr, List, length, ltb, ◌==◌,
  if◌then◌else◌, Bool-cases,
}
use cs.Fs.Bytes.{Buffer, IsString, get_int, get_int-Agree, same_str}
use cs.Fs.Disk.{Disk, Fs, open_block, set_bitmap, bit_of, find_next_free_block_index}
use cs.Fs.Bitmap.{IsDisk, find_total, set_bitmap-frame, bit_of-set_bitmap}
use cs.Fs.Blocks.{IsData, open_block-write_block, open_block-set_bitmap, bit_of-write_block}
use cs.Fs.Path.{sscanf_path}
use cs.Fs.Layout.{max_dirs_in_root, dir_start, open_root, save_root, find_dir}
use cs.Prelude.Search.{or_else}
use cs.Fs.Entries.{count-add_dir, add_dir-start, find_dir-add_dir, find_dir-Agree}
use cs.Fs.Handlers.{success, failure, enoent, no_stat, dir_stat, getattr, mkdir, add_dir, slash}

-- An image on which a block can be allocated.
pub record IsReady (s : Fs) : Type 0 where
  pub disk : IsDisk s.disk
  pub root_fits : IsData s.disk 0
  pub hint : s.next_free ≤ 12288
  pub free : ℕ
  pub free_after : s.next_free ≤ free
  pub free_below : free < 12288
  pub free_bit : bit_of s.disk free ≡ 0

-- The block that is allocated: free, and covered by the bitmap.
pub allocate :
    (s : Fs)
    → IsReady s
    → (r : ℕ) × (find_next_free_block_index s ≡ (some r, record s { next_free = r }))
      × (s.next_free ≤ r)
      × (r < 12288)
      × (bit_of s.disk r ≡ 0)
allocate s h =
    let (r, e, lo, hi, free, below) = find_total s h.disk.bitmap_fits h.hint in
    (r, e, lo, inside r below, free)
  where
    inside : (r : ℕ) → ((j : ℕ) → s.next_free ≤ j → j < r → bit_of s.disk j ≢ 0) → r < 12288
    inside r below = elim (Bool-cases (ltb h.free r)) [
      | inl t ↦ absurd (below h.free h.free_after (ground arith) h.free_bit)
      | inr t ↦ let low : r ≤ h.free = ground arith in omega (arith, low, h.free_below)
    ]

module _ (byte : ℕ) (s : Fs) (h : IsReady s) (name : List ℕ) where
  abbrev root : Buffer
  root = open_root s.disk

  -- The image after the insertion of `name`, with its first block `r`.
  abbrev inserted : ℕ → Disk
  inserted r = save_root (set_bitmap byte s.disk r 1) (add_dir root name r)

  module _ (r : ℕ) (hr : r < 12288) where
    root-inserted : (k : ℕ) → k < 512 → open_root (inserted r) k ≡ add_dir root name r k
    unfolding open_root save_root
    root-inserted k hk = ground (
      arith,
      open_block-write_block (set_bitmap byte s.disk r 1) 0 0 (add_dir (open_block s.disk 0) name r)
          k,
    )

    -- The bitmap has the new block, and the other bits.
    bit_of-inserted :
        (j : ℕ) → j < 12288 → bit_of (inserted r) j ≡ (if j == r then 1 else bit_of s.disk j)
    unfolding save_root
    bit_of-inserted j hj =
        bit_of-write_block (set_bitmap byte s.disk r 1) 0 (add_dir root name r) fits j
        ∙ bit_of-set_bitmap byte s.disk h.disk r 1 hr (inr refl) j hj
      where
        fits : IsData (set_bitmap byte s.disk r 1) 0
        fits = omega (arith, (set_bitmap-frame byte s.disk h.disk r 1 hr (inr refl)).0, h.root_fits)

    block-inserted :
        (j k : ℕ) → j ≢ 0 → IsData s.disk j → open_block (inserted r) j k ≡ open_block s.disk j k
    unfolding save_root
    block-inserted j k hj data_block = ground (
      arith,
      open_block-write_block (set_bitmap byte s.disk r 1) 0 j (add_dir root name r) k,
      open_block-set_bitmap byte s.disk h.disk r 1 hr (inr refl) j data_block k,
    )

  module _ (fits : length name ≤ 8) (hn : IsString name)
      (room : get_int 4 root 0 < max_dirs_in_root) where
    find_dir-inserted :
        (r : ℕ)
        → r < 12288
        → (other : List ℕ) → IsString other
        → length other ≤ 8
        → find_dir (open_root (inserted r)) other
          ≡ or_else
              (find_dir root other)
              (if same_str name other then some (get_int 4 root 0) else none)
    find_dir-inserted r hr other ho short =
        find_dir-Agree (open_root (inserted r)) (add_dir root name r) other
          (λ k p q. root-inserted r hr k q) (omega (arith, count-add_dir root name r room fits))
          short
        ∙ find_dir-add_dir root name r room fits hn other ho short

mkdir_success :
    (junk : List ℕ) (byte : ℕ) (s : Fs) (path : List ℕ) (r : ℕ)
    → find_next_free_block_index s ≡ (some r, record s { next_free = r })
    → (sscanf_path junk path).count ≡ 1
    → length (sscanf_path junk path).directory ≤ 8
    → find_dir (open_root s.disk) (sscanf_path junk path).directory ≡ none
    → get_int 4 (open_root s.disk) 0 < max_dirs_in_root
    → mkdir junk byte s path ≡ (
      success 0,
      record {
        disk =
            save_root
              (set_bitmap byte s.disk r 1)
              (add_dir (open_root s.disk) (sscanf_path junk path).directory r);
        next_free = r;
      },
    )
unfolding mkdir
mkdir_success junk byte s path r e one fits fresh room = ground arith

-- What getattr answers on a path of one component.
getattr_dir :
    (junk : List ℕ) (d : Disk) (path : List ℕ)
    → (sscanf_path junk path).count ≡ 1
    → getattr junk d path ≡ (
        if same_str path slash
        then (success 0, dir_stat)
        else elim (find_dir (open_root d) (sscanf_path junk path).directory) [
          | none ↦ (failure enoent, no_stat)
          | some i ↦ (success 0, dir_stat)
        ])
unfolding getattr
getattr_dir junk d path one = ground arith

-- On an image with a free block, with a root that is not full, mkdir of a new name of at most 8
-- bytes succeeds. Then getattr of any path of one component of at most 8 bytes reports a
-- directory if the path has that name, and else what it reported before.
pub getattr-mkdir :
    (junk : List ℕ) (byte : ℕ) (s : Fs) (path other : List ℕ)
    → IsReady s
    → (sscanf_path junk path).count ≡ 1
    → length (sscanf_path junk path).directory ≤ 8
    → IsString (sscanf_path junk path).directory
    → find_dir (open_root s.disk) (sscanf_path junk path).directory ≡ none
    → get_int 4 (open_root s.disk) 0 < max_dirs_in_root
    → (sscanf_path junk other).count ≡ 1
    → length (sscanf_path junk other).directory ≤ 8
    → IsString (sscanf_path junk other).directory
    → ((mkdir junk byte s path).0 ≡ success 0)
      × (getattr junk (mkdir junk byte s path).1.disk other ≡ (
          if same_str (sscanf_path junk path).directory (sscanf_path junk other).directory
          then (success 0, dir_stat)
          else getattr junk s.disk other))
getattr-mkdir junk byte s path other h one fits hn fresh room one' short ho =
    let name = (sscanf_path junk path).directory in
    let (r, e, lo, hr, free) = allocate s h in
    let made = mkdir_success junk byte s path r e one fits fresh room in
    let found =
      find_dir-inserted byte s h name fits hn room r hr (sscanf_path junk other).directory ho
        short in
    (
      ground (arith, made),
      ground (
        arith,
        made,
        found,
        getattr_dir junk s.disk other one',
        getattr_dir junk (inserted byte s h name r) other one',
      ),
    )

-- On an image with a free block, with a root that is not full, mkdir of a new name of at most 8
-- bytes records in the new entry a block `r` that was free. The bitmap then has `r` as taken and
-- is unchanged elsewhere, and every block before the bitmap but the root's is as it was.
pub mkdir_allocates :
    (junk : List ℕ) (byte : ℕ) (s : Fs) (path : List ℕ)
    → IsReady s
    → (sscanf_path junk path).count ≡ 1
    → length (sscanf_path junk path).directory ≤ 8
    → find_dir (open_root s.disk) (sscanf_path junk path).directory ≡ none
    → get_int 4 (open_root s.disk) 0 < max_dirs_in_root
    → (r : ℕ) × (bit_of s.disk r ≡ 0)
      × (get_int 8
            (open_root (mkdir junk byte s path).1.disk)
            (dir_start (get_int 4 (open_root s.disk) 0))
          ≡ r)
      × ((j : ℕ)
          → j < 12288
          → bit_of (mkdir junk byte s path).1.disk j ≡ (if j == r then 1 else bit_of s.disk j))
      × ((j k : ℕ)
          → j ≢ 0
          → IsData s.disk j
          → open_block (mkdir junk byte s path).1.disk j k ≡ open_block s.disk j k)
mkdir_allocates junk byte s path h one fits fresh room =
    let name = (sscanf_path junk path).directory in
    let old = open_root s.disk in
    let (r, e, lo, hr, free) = allocate s h in
    let made = mkdir_success junk byte s path r e one fits fresh room in
    (
      r,
      free,
      rw made (
          get_int-Agree 8 _ (add_dir old name r) (dir_start (get_int 4 old 0))
            (λ k p q. root-inserted byte s h name r hr k (omega arith))
          ∙ add_dir-start old name r room fits (omega arith)),
      λ j hj. rw made (bit_of-inserted byte s h name r hr j hj),
      λ j k hj data_block. rw made (block-inserted byte s h name r hr j k hj data_block),
    )
