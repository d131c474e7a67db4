-- ===== src/Fs/Handlers.antt =====
-- proj4/cs1550.c: the handlers that FUSE calls on names: getattr, readdir, mkdir and mknod.
use cs.Prelude.{
  ℕ, zero, suc, ◌+◌, ◌%◌, ◌^◌, ◌||◌, not, List, [], ◌∷◌, ◌++◌, none, some, ltb, leb, ◌==◌,
  if◌then◌else◌, length,
}
use cs.Fs.Bytes.{Buffer, get_int, put_int, strcpy, get_str, same_str}
use cs.Fs.Disk.{Disk, Fs, find_next_free_block_index, set_bitmap}
use cs.Fs.Path.{Scan, sscanf_path}
use cs.Fs.Layout.{
  max_dirs_in_root, max_files_in_dir, dname, dir_start, fname, fext, fsize, file_start, open_root,
  save_root, open_dir, save_dir, find_dir, find_file,
}

pub data Errno : Type 0 where
  enoent eperm enametoolong eexist enospc eisdir efbig : Errno

-- The `int` that a handler returns: a count, or the negation of an error number.
pub data Ret : Type 0 where
  success : ℕ → Ret
  failure : Errno → Ret

-- The fields of `struct stat` that getattr sets.
pub record Stat : Type 0 where
  pub mode : ℕ
  pub nlink : ℕ
  pub size : ℕ

abbrev pub no_stat : Stat
no_stat = record { mode = 0; nlink = 0; size = 0 }

-- `S_IFDIR | 0755` and `S_IFREG | 0666`: the bits are disjoint.
abbrev pub dir_stat : Stat
dir_stat = record { mode = 0o40000 + 0o755; nlink = 2; size = 0 }

abbrev pub file_stat : ℕ → Stat
file_stat n = record { mode = 0o100000 + 0o666; nlink = 1; size = n }

abbrev pub slash : List ℕ
slash = b'/' ∷ []

unfoldable pub stat_file : Buffer → Scan → Ret × Stat
stat_file dir p = elim (find_file dir p.filename p.extension) [
  | none ↦ (failure enoent, no_stat)
  | some i ↦ (success 0, file_stat (get_int 8 dir (fsize i)))
]

unfoldable pub stat_path : Disk → Scan → Ret × Stat
unfolding stat_file
stat_path d p =
    if p.count == 0 then (failure enoent, no_stat) else elim (find_dir (open_root d) p.directory) [
      | none ↦ (failure enoent, no_stat)
      | some i ↦
          if p.count == 1
          then (success 0, dir_stat)
          else stat_file (open_dir d (get_int 8 (open_root d) (dir_start i))) p
    ]

unfoldable pub getattr : List ℕ → Disk → List ℕ → Ret × Stat
unfolding stat_path
getattr junk d path =
    if same_str path slash then (success 0, dir_stat) else stat_path d (sscanf_path junk path)

-- The names handed to `filler`, for entries `i` to `i + n`.
fill_dirs : Buffer → ℕ → ℕ → List (List ℕ)
fill_dirs root zero i = []
fill_dirs root (suc n) i = get_str 512 root (dname i) ∷ fill_dirs root n (i + 1)

fill_files : Buffer → ℕ → ℕ → List (List ℕ)
fill_files dir zero i = []
fill_files dir (suc n) i =
    (get_str 512 dir (fname i) ++ (b'.' ∷ get_str 512 dir (fext i))) ∷ fill_files dir n (i + 1)

abbrev pub dots : List (List ℕ)
dots = (b'.' ∷ []) ∷ (b'.' ∷ b'.' ∷ []) ∷ []

unfoldable pub readdir : List ℕ → Disk → List ℕ → Ret × List (List ℕ)
unfolding fill_dirs fill_files
readdir junk d path =
    let root = open_root d in
    let p = sscanf_path junk path in
    if same_str path slash
    then (success 0, dots ++ fill_dirs root (get_int 4 root 0) 0)
    else if ltb 1 p.count
    then (failure enoent, dots)
    else elim (find_dir root p.directory) [
      | none ↦ (failure enoent, dots)
      | some i ↦
          let dir = open_dir d (get_int 8 root (dir_start i)) in
          (success 0, dots ++ fill_files dir (get_int 4 dir 0) 0)
    ]

-- `nDirectories++` and the new entry's name and block.
unfoldable pub add_dir : Buffer → List ℕ → ℕ → Buffer
add_dir root name start =
    let i = get_int 4 root 0 in
    let counted = put_int 4 root 0 ((i + 1) % 2 ^ 32) in
    put_int 8 (strcpy counted (dname i) name) (dir_start i) start

unfoldable pub insert_dir : ℕ → Fs → List ℕ → Ret × Fs
unfolding add_dir
insert_dir junk s name =
    let root = open_root s.disk in
    let (found, s') = find_next_free_block_index s in
    elim found [
      | none ↦ (failure enospc, s')
      | some n ↦ (
        success 0,
        record s' { disk = save_root (set_bitmap junk s'.disk n 1) (add_dir root name n) },
      )
    ]

unfoldable pub mkdir : List ℕ → ℕ → Fs → List ℕ → Ret × Fs
unfolding insert_dir
mkdir junk byte s path =
    let p = sscanf_path junk path in
    let root = open_root s.disk in
    if not (p.count == 1)
    then (failure eperm, s)
    else if ltb 8 (length p.directory)
    then (failure enametoolong, s)
    else elim (find_dir root p.directory) [
      | some i ↦ (failure eexist, s)
      | none ↦
          if leb max_dirs_in_root (get_int 4 root 0)
          then (failure enospc, s)
          else insert_dir byte s p.directory
    ]

unfoldable pub rmdir : List ℕ → Ret
rmdir path = success 0

-- `nFiles++` and the new entry. The writes past the block's 512 bytes that a full directory makes
-- land in the buffer beyond what is saved.
unfoldable pub add_file : Buffer → List ℕ → List ℕ → ℕ → Buffer
add_file dir name ext start =
    let i = get_int 4 dir 0 in
    let counted = put_int 4 dir 0 ((i + 1) % 2 ^ 32) in
    let named = strcpy (strcpy counted (fname i) name) (fext i) ext in
    put_int 8 (put_int 8 named (fsize i) 0) (file_start i) start

unfoldable pub insert_file : ℕ → Fs → ℕ → List ℕ → List ℕ → Ret × Fs
unfolding add_file
insert_file junk s at name ext =
    let dir = open_dir s.disk at in
    let (found, s') = find_next_free_block_index s in
    elim found [
      | none ↦ (failure enospc, s')
      | some n ↦ (
        success 0,
        record s' { disk = save_dir (set_bitmap junk s'.disk n 1) at (add_file dir name ext n) },
      )
    ]

unfoldable pub create_file : ℕ → Fs → ℕ → List ℕ → List ℕ → Ret × Fs
unfolding insert_file
create_file junk s at name ext =
    let dir = open_dir s.disk at in
    elim (find_file dir name ext) [
      | some i ↦ (failure eexist, s)
      | none ↦
          if ltb max_files_in_dir (get_int 4 dir 0)
          then (failure enospc, s)
          else insert_file junk s at name ext
    ]

unfoldable pub mknod : List ℕ → ℕ → Fs → List ℕ → Ret × Fs
unfolding create_file
mknod junk byte s path =
    let p = sscanf_path junk path in
    let root = open_root s.disk in
    if ltb p.count 3
    then (failure eperm, s)
    else if ltb 8 (length p.filename) || ltb 3 (length p.extension)
    then (failure enametoolong, s)
    else elim (find_dir root p.directory) [
      | none ↦ (failure enoent, s)
      | some i ↦ create_file byte s (get_int 8 root (dir_start i)) p.filename p.extension
    ]

unfoldable pub unlink : List ℕ → Ret
unlink path = success 0

unfoldable pub truncate : List ℕ → ℕ → Ret
truncate path size = success 0

unfoldable pub open_file : List ℕ → Ret
open_file path = success 0

unfoldable pub flush : List ℕ → Ret
flush path = success 0
