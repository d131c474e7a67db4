-- ===== src/Fs/Mknod.antt =====
-- proj4/cs1550.c, cs1550_mknod: its branches, and what getattr answers afterwards.
use cs.Prelude.{
  ℕ, suc, ◌≤◌, ◌<◌, ◌≡◌, ◌≢◌, ◌∙◌, fun_ext, ap, refl, arith, false, ◌&&◌, Option, none, some, inl,
  inr, List, length, ltb, ◌==◌, if◌then◌else◌, Bool-cases,
}
use cs.Fs.Bytes.{Buffer, IsString, get_int, get_int-Agree, same_str, same_str-eq, str_eq}
use cs.Fs.Disk.{Disk, Fs, open_block, set_bitmap, bit_of, find_next_free_block_index}
use cs.Fs.Bitmap.{set_bitmap-frame, bit_of-set_bitmap}
use cs.Fs.Blocks.{IsData, open_block-write_block, open_block-set_bitmap, bit_of-write_block}
use cs.Fs.Path.{Scan, sscanf_path}
use cs.Fs.Layout.{
  max_files_in_dir, fname, fext, dir_start, fsize, file_start, open_root, open_dir, save_dir,
  find_dir, find_file,
}
use cs.Prelude.Search.{or_else, search_from-lt}
use cs.Fs.Entries.{find_file-Agree}
use cs.Fs.Files.{count-add_file, add_file-size, add_file-kept, find_file-add_file}
use cs.Fs.Mkdir.{IsReady, allocate}
use cs.Fs.Handlers.{success, dir_stat, file_stat, stat_file, getattr, mknod, add_file, slash}

find_file-lt :
    (dir : Buffer) (name ext : List ℕ) {i : ℕ}
    → find_file dir name ext ≡ some i
    → i < get_int 4 dir 0
unfolding find_file
find_file-lt dir name ext {i} e =
    let (lo, hi, _) =
      search_from-lt (get_int 4 dir 0) 0 (λ i. str_eq dir (fname i) name && str_eq dir (fext i) ext)
        {r = i} e in
    omega (arith, hi)

-- What getattr answers from two directories that agree.
stat_file-Agree :
    (a b : Buffer) (p : Scan)
    → ((k : ℕ) → k < 512 → a k ≡ b k)
    → get_int 4 b 0 ≤ max_files_in_dir
    → length p.filename ≤ 8
    → length p.extension ≤ 3
    → stat_file a p ≡ stat_file b p
unfolding stat_file
stat_file-Agree a b p h few short short_ext = go (find_file b p.filename p.extension) refl
  where
    same : find_file a p.filename p.extension ≡ find_file b p.filename p.extension
    same = find_file-Agree a b p.filename p.extension (λ k _ q. h k q) few short short_ext

    go : (o : Option ℕ) → find_file b p.filename p.extension ≡ o → stat_file a p ≡ stat_file b p
    go none e = ground (arith, same)
    go (some i) e =
        let lt = find_file-lt b p.filename p.extension e in
        ground (arith, same, get_int-Agree 8 a b (fsize i) (λ k lo hi. h k (omega arith)))

module _ (dir : Buffer) (name ext : List ℕ) (start : ℕ) (fits : length name ≤ 8)
    (ext_fits : length ext ≤ 3) (hn : IsString name) (he : IsString ext)
    (room : get_int 4 dir 0 < max_files_in_dir) where
  -- In a directory with a new entry.
  stat_file-add_file :
      (p : Scan)
      → IsString p.filename
      → IsString p.extension
      → length p.filename ≤ 8
      → length p.extension ≤ 3
      → find_file dir name ext ≡ none
      → stat_file (add_file dir name ext start) p ≡ (
          if same_str name p.filename && same_str ext p.extension
          then (success 0, file_stat 0)
          else stat_file dir p)
  unfolding stat_file
  stat_file-add_file p h2 e2 short short_ext fresh = go (find_file dir p.filename p.extension) refl
    where
      after :
          find_file (add_file dir name ext start) p.filename p.extension
          ≡ or_else (find_file dir p.filename p.extension) (
              if same_str name p.filename && same_str ext p.extension
              then some (get_int 4 dir 0)
              else none)
      after =
          find_file-add_file dir name ext start fits ext_fits hn he p.filename p.extension h2 e2
            short short_ext room

      differs :
          (i : ℕ)
          → find_file dir p.filename p.extension ≡ some i
          → (same_str name p.filename && same_str ext p.extension) ≡ false
      differs i e = ground (arith, same_str-eq name p.filename, same_str-eq ext p.extension)

      go :
          (o : Option ℕ)
          → find_file dir p.filename p.extension ≡ o
          → stat_file (add_file dir name ext start) p ≡ (
              if same_str name p.filename && same_str ext p.extension
              then (success 0, file_stat 0)
              else stat_file dir p)
      go none e = ground (arith, after, add_file-size dir name ext start fits ext_fits)
      go (some i) e = ground (
        arith,
        after,
        differs i e,
        (add_file-kept dir name ext start fits ext_fits i
            (find_file-lt dir p.filename p.extension e)).0,
      )

module _ (byte : ℕ) (s : Fs) (h : IsReady s) (at r : ℕ) (hr : r < 12288)
    (data_block : IsData s.disk at) (entries : Buffer) where
  -- The image after `entries` is saved in block `at`, with the new block `r` marked.
  abbrev saved : Disk
  saved = save_dir (set_bitmap byte s.disk r 1) at entries

  block-saved :
      (j k : ℕ)
      → IsData s.disk j
      → open_block saved j k
        ≡ (if j == at then (if ltb k 512 then entries k else 0) else open_block s.disk j k)
  unfolding save_dir
  block-saved j k hj = ground (
    arith,
    open_block-write_block (set_bitmap byte s.disk r 1) at j entries k,
    open_block-set_bitmap byte s.disk h.disk r 1 hr (inr refl) j hj k,
  )

  bit_of-saved : (j : ℕ) → j < 12288 → bit_of saved j ≡ (if j == r then 1 else bit_of s.disk j)
  unfolding save_dir
  bit_of-saved j hj =
      bit_of-write_block (set_bitmap byte s.disk r 1) at entries fits j
      ∙ bit_of-set_bitmap byte s.disk h.disk r 1 hr (inr refl) j hj
    where
      fits : IsData (set_bitmap byte s.disk r 1) at
      fits = omega (arith, (set_bitmap-frame byte s.disk h.disk r 1 hr (inr refl)).0, data_block)

  dir-saved : (k : ℕ) → k < 512 → open_dir saved at k ≡ entries k
  unfolding open_dir
  dir-saved k hk = ground (arith, block-saved at k data_block)

  root-saved : at ≢ 0 → open_root saved ≡ open_root s.disk
  unfolding open_root
  root-saved h0 = fun_ext (λ k. ground (arith, block-saved 0 k h.root_fits))

-- What getattr answers on a path of three components whose directory is found.
getattr_file :
    (junk : List ℕ) (d : Disk) (path : List ℕ) (i : ℕ)
    → (sscanf_path junk path).count ≡ 3
    → find_dir (open_root d) (sscanf_path junk path).directory ≡ some i
    → getattr junk d path ≡ (
        if same_str path slash
        then (success 0, dir_stat)
        else stat_file (open_dir d (get_int 8 (open_root d) (dir_start i))) (sscanf_path junk path))
unfolding getattr
getattr_file junk d path i three found = ground arith

mknod_success :
    (junk : List ℕ) (byte : ℕ) (s : Fs) (path : List ℕ) (r i at : ℕ)
    → find_next_free_block_index s ≡ (some r, record s { next_free = r })
    → (sscanf_path junk path).count ≡ 3
    → length (sscanf_path junk path).filename ≤ 8
    → length (sscanf_path junk path).extension ≤ 3
    → find_dir (open_root s.disk) (sscanf_path junk path).directory ≡ some i
    → get_int 8 (open_root s.disk) (dir_start i) ≡ at
    → find_file
        (open_dir s.disk at)
        (sscanf_path junk path).filename
        (sscanf_path junk path).extension
      ≡ none
    → get_int 4 (open_dir s.disk at) 0 ≤ max_files_in_dir
    → mknod junk byte s path ≡ (
      success 0,
      record {
        disk = save_dir (set_bitmap byte s.disk r 1) at (
            add_file
              (open_dir s.disk at)
              (sscanf_path junk path).filename
              (sscanf_path junk path).extension
              r);
        next_free = r;
      },
    )
unfolding mknod
mknod_success junk byte s path r i at e three fits ext_fits found start fresh room = ground arith

three-ne-slash :
    (junk path : List ℕ) → (sscanf_path junk path).count ≡ 3 → same_str path slash ≡ false
unfolding sscanf_path
three-ne-slash junk path three = elim (Bool-cases (same_str path slash)) [
  | inr no_slash ↦ no_slash
  | inl is_slash ↦ absurd (clash (rw (same_str-eq path slash is_slash) at three))
]
  where
    clash : (sscanf_path junk slash).count ≡ 3 → ⊥
    clash e = omega arith

-- On an image with a free block, in a found directory with at most 16 entries whose block lies
-- before the bitmap and is not the root's, mknod of a new 8.3 name succeeds. Then getattr of any
-- path of three parts that fit 8.3 names in that directory reports an empty regular file if the
-- path names the new one, and else what it reported before.
pub getattr-mknod :
    (junk : List ℕ) (byte : ℕ) (s : Fs) (path other : List ℕ) (i j at : ℕ)
    → IsReady s
    → (sscanf_path junk path).count ≡ 3
    → length (sscanf_path junk path).filename ≤ 8
    → length (sscanf_path junk path).extension ≤ 3
    → IsString (sscanf_path junk path).filename
    → IsString (sscanf_path junk path).extension
    → find_dir (open_root s.disk) (sscanf_path junk path).directory ≡ some i
    → get_int 8 (open_root s.disk) (dir_start i) ≡ at
    → at ≢ 0
    → IsData s.disk at
    → find_file
        (open_dir s.disk at)
        (sscanf_path junk path).filename
        (sscanf_path junk path).extension
      ≡ none
    → get_int 4 (open_dir s.disk at) 0 < max_files_in_dir
    → (sscanf_path junk other).count ≡ 3
    → length (sscanf_path junk other).filename ≤ 8
    → length (sscanf_path junk other).extension ≤ 3
    → IsString (sscanf_path junk other).filename
    → IsString (sscanf_path junk other).extension
    → find_dir (open_root s.disk) (sscanf_path junk other).directory ≡ some j
    → get_int 8 (open_root s.disk) (dir_start j) ≡ at
    → ((mknod junk byte s path).0 ≡ success 0)
      × (getattr junk (mknod junk byte s path).1.disk other ≡ (
          if same_str (sscanf_path junk path).filename (sscanf_path junk other).filename
            && same_str (sscanf_path junk path).extension (sscanf_path junk other).extension
          then (success 0, file_stat 0)
          else getattr junk s.disk other))
getattr-mknod junk byte s path other i j at h three fits ext_fits hn he found start h0 data_block
      fresh room three' short short_ext hn2 he2 found' start' =
    let p = sscanf_path junk path in
    let q = sscanf_path junk other in
    let dir = open_dir s.disk at in
    let (r, e, lo, hr, free) = allocate s h in
    let entries = add_file dir p.filename p.extension r in
    let made =
      mknod_success junk byte s path r i at e three fits ext_fits found start fresh (omega arith) in
    let root = root-saved byte s h at r hr data_block entries h0 in
    let agree = dir-saved byte s h at r hr data_block entries in
    let more = count-add_file dir p.filename p.extension r fits ext_fits (omega arith) in
    let same =
      stat_file-Agree (open_dir (saved byte s h at r hr data_block entries) at) entries q agree
        (omega (arith, more)) short short_ext in
    let law =
      stat_file-add_file dir p.filename p.extension r fits ext_fits hn he room q hn2 he2 short
        short_ext fresh in
    (
      rw made refl,
      rw made (
          getattr_file junk _ other j three' (rw root found')
          ∙ rw
              (
                root,
                start',
                three-ne-slash junk other three',
                same,
                law,
                getattr_file junk s.disk other j three' found',
                start',
                three-ne-slash junk other three',
              )
              refl),
    )

-- On an image with a free block, in a found directory before the bitmap that has 17 entries,
-- mknod of a new 8.3 name succeeds and leaves a count of 18, and the block number of the new
-- entry lies past the directory's 512 bytes.
pub mknod_full :
    (junk : List ℕ) (byte : ℕ) (s : Fs) (path : List ℕ) (i at : ℕ)
    → IsReady s
    → (sscanf_path junk path).count ≡ 3
    → length (sscanf_path junk path).filename ≤ 8
    → length (sscanf_path junk path).extension ≤ 3
    → find_dir (open_root s.disk) (sscanf_path junk path).directory ≡ some i
    → get_int 8 (open_root s.disk) (dir_start i) ≡ at
    → IsData s.disk at
    → find_file
        (open_dir s.disk at)
        (sscanf_path junk path).filename
        (sscanf_path junk path).extension
      ≡ none
    → get_int 4 (open_dir s.disk at) 0 ≡ max_files_in_dir
    → ((mknod junk byte s path).0 ≡ success 0)
      × (get_int 4 (open_dir (mknod junk byte s path).1.disk at) 0 ≡ 18)
      × (512 ≤ file_start (get_int 4 (open_dir s.disk at) 0))
mknod_full junk byte s path i at h three fits ext_fits found start data_block fresh full =
    let p = sscanf_path junk path in
    let dir = open_dir s.disk at in
    let (r, e, lo, hr, free) = allocate s h in
    let entries = add_file dir p.filename p.extension r in
    let made =
      mknod_success junk byte s path r i at e three fits ext_fits found start fresh (omega arith) in
    (
      rw made refl,
      rw made (
          get_int-Agree 4 _ entries 0
            (λ k a b. dir-saved byte s h at r hr data_block entries k (omega arith))
          ∙ count-add_file dir p.filename p.extension r fits ext_fits (omega arith)
          ∙ ap suc full),
      omega arith,
    )
