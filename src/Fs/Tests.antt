-- ===== src/Fs/Tests.antt =====
-- proj4/cs1550.c: the theorems and some runs at concrete images.
use Prim.Native.Char.{code}
use Prim.Native.String.{String}
use cs.Prelude.{
  ℕ, zero, suc, ◌*◌, ◌-◌, ◌<◌, ◌≤◌, ◌≡◌, ◌≢◌, ap, refl, arith, List, [], ◌∷◌, some, replicate,
}
use cs.Prelude.{ltb, ◌==◌, if◌then◌else◌, get_or}
use cs.Prelude.Search.{search_from}
use cs.Fs.Bytes.{get_int, put_int, str_eq, strcpy, get_str, copy_in, copy_out, same_str, IsBytes}
use cs.Fs.Disk.{
  Fs, open_block, write_block, get_ith_bit, set_ith_bit, bitmap_byte, bit_of, scan_bitmap,
  find_next_free_block_index, set_bitmap,
}
use cs.Fs.Blocks.{IsData}
use cs.Fs.Bitmap.{IsDisk, find_total}
use cs.Fs.Path.{sscanf_path}
use cs.Fs.Layout.{
  open_root, save_root, open_dir, save_dir, find_dir, find_file, file_start, dir_start,
}
use cs.Fs.Handlers.{
  Ret, success, stat_file, stat_path, getattr, readdir, insert_dir, mkdir, create_file, insert_file,
  mknod, add_dir, add_file, dir_stat, file_stat,
}
use cs.Fs.Data.{
  seek, read_rest, read_from, read_file, read_path, read, fill_block, write_rest, write_from,
  write_file, write_path, write, find_path, next_of,
}
use cs.Fs.Mkdir.{IsReady, getattr-mkdir, mkdir_allocates}
use cs.Fs.Mknod.{getattr-mknod, mknod_full}
use cs.Fs.Chain.{IsSearchable, write_total}
use cs.Fs.RoundTrip.{read-write, seek_near}
use cs.Fs.Overrun.{write_self_link}

abbrev codes : String → List ℕ
codes String.[] = []
codes (String.◌∷◌ c s) = code c ∷ codes s

-- A declaration that says `unfolding running` computes with all of the handlers.
running : ℕ
unfolding search_from get_int put_int str_eq strcpy get_str copy_in copy_out same_str open_block
    write_block get_ith_bit set_ith_bit bitmap_byte bit_of scan_bitmap find_next_free_block_index
    set_bitmap sscanf_path open_root save_root open_dir save_dir find_dir find_file stat_file
    stat_path getattr readdir insert_dir mkdir create_file insert_file mknod add_dir add_file seek
    read_rest read_from read_file read_path read fill_block write_rest write_from write_file
    write_path write find_path
running = 0

-- 5K blocks of 1 KB, all zero: `dd bs=1K count=5K if=/dev/zero of=.disk`.
abbrev empty_fs : Fs
empty_fs = record { disk = record { size = 5 * 1024 * 1024; byte = λ p. 0 }; next_free = 1 }

abbrev docs : List ℕ
docs = codes "/docs"

abbrev note : List ℕ
note = codes "/docs/a.txt"

abbrev other_note : List ℕ
other_note = codes "/docs/b.c"

mkdir_run : getattr [] (mkdir [] 0 empty_fs docs).1.disk docs ≡ (success 0, dir_stat)
unfolding running
mkdir_run = refl

readdir_run :
    (readdir [] (mknod [] 0 (mkdir [] 0 empty_fs docs).1 note).1.disk docs).1
    ≡ codes "." ∷ codes ".." ∷ codes "a.txt" ∷ []
unfolding running
readdir_run = refl

-- The root with the directory `docs` in block 2; the directory with the file `a.txt` of 5 bytes in
-- block 3; the text of the file; and the bitmap with the blocks 2 and 3.
abbrev root_bytes : List ℕ
root_bytes = 1 ∷ 0 ∷ 0 ∷ 0 ∷ 100 ∷ 111 ∷ 99 ∷ 115 ∷ 0 ∷ 0 ∷ 0 ∷ 0 ∷ 0 ∷ 2 ∷ []

abbrev docs_bytes : List ℕ
docs_bytes =
    1 ∷ 0 ∷ 0 ∷ 0 ∷ 97 ∷ 0 ∷ 0 ∷ 0 ∷ 0 ∷ 0 ∷ 0 ∷ 0 ∷ 0 ∷ 116 ∷ 120 ∷ 116 ∷ 0 ∷ 5 ∷ 0 ∷ 0 ∷ 0 ∷ 0 ∷ 0
    ∷ 0 ∷ 0 ∷ 3 ∷ []

abbrev text_bytes : List ℕ
text_bytes = codes "hello"

abbrev image : List ℕ → ℕ → ℕ
image dir p =
    if ltb p 1024
    then get_or root_bytes p 0
    else if ltb p 1536
    then get_or dir (p - 1024) 0
    else if ltb p 5241344
    then get_or text_bytes (p - 1536) 0
    else get_or (48 ∷ []) (p - 5241344) 0

abbrev image_of : List ℕ → Fs
image_of dir = record { disk = record { size = 5 * 1024 * 1024; byte = image dir }; next_free = 1 }

get_or-lt : (l : List ℕ) (p : ℕ) → IsBytes l → get_or l p 0 < 256
get_or-lt [] p h = omega arith
get_or-lt (x ∷ l) zero h = h.0
get_or-lt (x ∷ l) (suc p) h = get_or-lt l p h.1

image-lt : (dir : List ℕ) (p : ℕ) → IsBytes dir → image dir p < 256
image-lt dir p h = ground (
  arith,
  get_or-lt root_bytes p (omega arith),
  get_or-lt dir (p - 1024) h,
  get_or-lt text_bytes (p - 1536) (omega arith),
  get_or-lt (48 ∷ []) (p - 5241344) (omega arith),
)

image-IsDisk : (dir : List ℕ) → IsBytes dir → IsDisk (image_of dir).disk
image-IsDisk dir h = record { bitmap_fits = omega arith; bytes = λ p. image-lt dir p h }

image-IsReady : (dir : List ℕ) → IsBytes dir → IsReady (image_of dir)
unfolding running
image-IsReady dir h = record {
  disk = image-IsDisk dir h;
  root_fits = omega arith;
  hint = omega arith;
  free = 4;
  free_after = omega arith;
  free_below = omega arith;
  free_bit = refl;
}

abbrev with_note : Fs
with_note = image_of docs_bytes

note-IsReady : IsReady with_note
note-IsReady = image-IsReady docs_bytes (omega arith)

getattr_run : getattr [] with_note.disk note ≡ (success 0, file_stat 5)
unfolding running
getattr_run = refl

read_run : read [] with_note.disk note 100 0 ≡ (success 5, codes "hello")
unfolding running
read_run = refl

abbrev music : List ℕ
music = codes "/music"

getattr-mkdir_example :
    ((mkdir [] 0 with_note music).0 ≡ success 0)
    × (getattr [] (mkdir [] 0 with_note music).1.disk music ≡ (success 0, dir_stat))
unfolding running
getattr-mkdir_example =
    getattr-mkdir [] 0 with_note music music note-IsReady refl (omega arith) (omega arith) refl
      (omega arith) refl (omega arith) (omega arith)

mkdir_allocates_example :
    (r : ℕ) × (bit_of with_note.disk r ≡ 0)
    × (get_int 8
          (open_root (mkdir [] 0 with_note music).1.disk)
          (dir_start (get_int 4 (open_root with_note.disk) 0))
        ≡ r)
    × ((j : ℕ)
        → j < 12288
        → bit_of (mkdir [] 0 with_note music).1.disk j
          ≡ (if j == r then 1 else bit_of with_note.disk j))
    × ((j k : ℕ)
        → j ≢ 0
        → IsData with_note.disk j
        → open_block (mkdir [] 0 with_note music).1.disk j k ≡ open_block with_note.disk j k)
unfolding running
mkdir_allocates_example =
    mkdir_allocates [] 0 with_note music note-IsReady refl (omega arith) refl (omega arith)

getattr-mknod_example :
    ((mknod [] 0 with_note other_note).0 ≡ success 0)
    × (getattr [] (mknod [] 0 with_note other_note).1.disk other_note ≡ (success 0, file_stat 0))
unfolding running
getattr-mknod_example =
    getattr-mknod [] 0 with_note other_note other_note 0 0 2 note-IsReady refl (omega arith)
      (omega arith) (omega arith) (omega arith) refl refl (omega arith) (omega arith) refl
      (omega arith) refl (omega arith) (omega arith) (omega arith) (omega arith) refl refl

-- The directory `docs` with 17 files, none of which has a name.
abbrev full_fs : Fs
full_fs = image_of (17 ∷ [])

full-IsReady : IsReady full_fs
full-IsReady = image-IsReady (17 ∷ []) (omega arith)

mknod_full_example :
    ((mknod [] 0 full_fs note).0 ≡ success 0)
    × (get_int 4 (open_dir (mknod [] 0 full_fs note).1.disk 2) 0 ≡ 18)
    × (512 ≤ file_start (get_int 4 (open_dir full_fs.disk 2) 0))
unfolding running
mknod_full_example =
    mknod_full [] 0 full_fs note 0 2 full-IsReady refl (omega arith) (omega arith) refl refl
      (omega arith) refl refl

note-IsSearchable : IsSearchable with_note
note-IsSearchable = record { bitmap_fits = omega arith; hint = omega arith }

write_total_example : (r : Ret × Fs) × (write [] 0 with_note note (codes "world") 5 ≡ some r)
write_total_example =
    write_total [] 0 with_note note (codes "world") 5 note-IsSearchable
      (λ at i e w. ap (λ r. r.0) (seek_near with_note.disk _ 5 (omega arith)))

find_total_example :
    (r : ℕ) × (find_next_free_block_index with_note ≡ (some r, record with_note { next_free = r }))
    × (1 ≤ r)
    × (r ≤ 12288)
    × (bit_of with_note.disk r ≡ 0)
    × ((j : ℕ) → 1 ≤ j → j < r → bit_of with_note.disk j ≢ 0)
find_total_example = find_total with_note (omega arith) (omega arith)

write_self_link_example :
    (s : Fs) × (write_rest 1010 with_note 3 (open_block with_note.disk 3) 0 (replicate 1009 7)
      ≡ some s)
    × (next_of s.disk 1 ≡ 1)
    × (bit_of s.disk 1 ≡ 0)
write_self_link_example =
    write_self_link with_note 3 (open_block with_note.disk 3) (replicate 1009 7) 1 note-IsSearchable
      (unfold running in refl) (omega arith) (omega arith) (omega arith)

read-write_example :
    (s : Fs) × (write [] 0 with_note note (codes "world") 5 ≡ some (success 5, s))
    × (read [] s.disk note 5 5 ≡ (success 5, codes "world"))
read-write_example =
    read-write [] 0 with_note note (codes "world") 5 2 0 3 (unfold running in refl)
      (unfold running in omega arith) (unfold running in omega arith)
      (unfold running in omega arith) (unfold running in refl) (unfold running in refl)
      (omega arith) (omega arith) (omega arith) (omega arith) (unfold running in omega arith)
      (unfold running in omega arith) (omega arith) (omega arith) (omega arith)
