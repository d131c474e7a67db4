-- ===== src/Fs/Layout.antt =====
-- proj4/cs1550.c: the structs laid over a block, with their packed offsets (`int` of 4 bytes, `long`
-- and `size_t` of 8), the calls that load and save them, and the loops that look a name up.
use cs.Prelude.{ℕ, ◌+◌, ◌-◌, ◌*◌, ◌/◌, ◌&&◌, List, Option}
use cs.Prelude.Search.{search_from}
use cs.Fs.Bytes.{Buffer, get_int, str_eq}
use cs.Fs.Disk.{Disk, open_block, write_block}

-- The macros: `(512 - 4) / (8 + 1 + 8)` and `(512 - 4) / (8 + 1 + (3 + 1) + 8 + 8)`.
abbrev pub max_dirs_in_root : ℕ
max_dirs_in_root = (512 - 4) / (8 + 1 + 8)

abbrev pub max_files_in_dir : ℕ
max_files_in_dir = (512 - 4) / (8 + 1 + (3 + 1) + 8 + 8)

abbrev pub max_data_in_block : ℕ
max_data_in_block = 512 - 8

-- `root->directories[i].dname` and `.nStartBlock`.
abbrev pub dname : ℕ → ℕ
dname i = 4 + 17 * i

abbrev pub dir_start : ℕ → ℕ
dir_start i = 4 + 17 * i + 9

-- `dir->files[i].fname`, `.fext`, `.fsize` and `.nStartBlock`.
abbrev pub fname : ℕ → ℕ
fname i = 4 + 29 * i

abbrev pub fext : ℕ → ℕ
fext i = 4 + 29 * i + 9

abbrev pub fsize : ℕ → ℕ
fsize i = 4 + 29 * i + 13

abbrev pub file_start : ℕ → ℕ
file_start i = 4 + 29 * i + 21

-- `block->next`; the data stands before it.
abbrev pub next_field : ℕ
next_field = 504

unfoldable pub open_root : Disk → Buffer
unfolding open_block
open_root d = open_block d 0

unfoldable pub save_root : Disk → Buffer → Disk
unfolding write_block
save_root d root = write_block d 0 root

unfoldable pub open_dir : Disk → ℕ → Buffer
unfolding open_block
open_dir d index = open_block d index

unfoldable pub save_dir : Disk → ℕ → Buffer → Disk
unfolding write_block
save_dir d index dir = write_block d index dir

unfoldable pub find_dir : Buffer → List ℕ → Option ℕ
unfolding search_from
find_dir root name = search_from (get_int 4 root 0) 0 (λ i. str_eq root (dname i) name)

unfoldable pub find_file : Buffer → List ℕ → List ℕ → Option ℕ
unfolding search_from
find_file dir name ext =
    search_from (get_int 4 dir 0) 0 (λ i. str_eq dir (fname i) name && str_eq dir (fext i) ext)
