-- ===== src/Fs/Entries.antt =====
-- proj4/cs1550.c: what a new entry changes in the tables of the root and of a directory.
use cs.Prelude.{
  ℕ, suc, ◌+◌, ◌^◌, ◌≤◌, ◌<◌, ◌≡◌, ◌∙◌, ap₂, arith, ◌&&◌, none, some, inl, inr, ◌⊎◌, List, length,
  if◌then◌else◌,
}
use cs.Prelude.Search.{or_else, search_from-last, search_from-congr}
use cs.Fs.Bytes.{
  Buffer, IsString, Agree, get_int, str_eq, same_str, get_int-put_int, get_int-Agree, str_eq-Agree,
  str_eq-strcpy, put_int-outside, strcpy-outside,
}
use cs.Fs.Layout.{
  dname, dir_start, fname, fext, max_dirs_in_root, max_files_in_dir, find_dir, find_file,
}
use cs.Fs.Handlers.{add_dir}

module _ (root : Buffer) (name : List ℕ) (start : ℕ) where
  abbrev count : ℕ
  count = get_int 4 root 0

  -- The new entry writes the counter and the 17 bytes of its own slot.
  add_dir-outside :
      length name ≤ 8
      → (k : ℕ) → 4 ≤ k
      → (k < dname count) ⊎ (dname count + 17 ≤ k)
      → add_dir root name start k ≡ root k
  unfolding add_dir
  add_dir-outside fits k low (inl h) =
      put_int-outside 8 _ (dir_start count) start k (inl (omega arith))
      ∙ strcpy-outside name _ (dname count) k (inl h)
      ∙ put_int-outside 4 root 0 _ k (inr (omega arith))
  add_dir-outside fits k low (inr h) =
      put_int-outside 8 _ (dir_start count) start k (inr (omega arith))
      ∙ strcpy-outside name _ (dname count) k (inr (omega arith))
      ∙ put_int-outside 4 root 0 _ k (inr (omega arith))

  module _ (room : count < max_dirs_in_root) (fits : length name ≤ 8) where
    pub count-add_dir : get_int 4 (add_dir root name start) 0 ≡ suc count
    unfolding add_dir
    count-add_dir =
        get_int-Agree 4 _ _ 0
          (λ k p q. put_int-outside 8 _ (dir_start count) start k (inl (omega arith)))
        ∙ get_int-Agree 4 _ _ 0 (λ k p q. strcpy-outside name _ (dname count) k (inl (omega arith)))
        ∙ get_int-put_int 4 root 0 _ (omega arith)
        ∙ omega arith

    -- The new entry has its name and its block.
    pub add_dir-start :
        start < 256 ^ 8 → get_int 8 (add_dir root name start) (dir_start count) ≡ start
    unfolding add_dir
    add_dir-start h = get_int-put_int 8 _ (dir_start count) start h

    add_dir-name :
        IsString name
        → (other : List ℕ) → IsString other
        → length other ≤ 8
        → str_eq (add_dir root name start) (dname count) other ≡ same_str name other
    unfolding add_dir
    add_dir-name hn other ho short =
        str_eq-Agree other _ _ (dname count)
          (λ k p q. put_int-outside 8 _ (dir_start count) start k (inl (omega arith)))
        ∙ str_eq-strcpy name other _ (dname count) hn ho

    -- The entries before it keep theirs.
    pub add_dir-kept :
        (j : ℕ)
        → j < count
        → get_int 8 (add_dir root name start) (dir_start j) ≡ get_int 8 root (dir_start j)
    add_dir-kept j h =
        get_int-Agree 8 _ _ (dir_start j)
          (λ k p q. add_dir-outside fits k (omega arith) (inl (omega arith)))

    -- In a root with room, once an entry with a name of at most 8 bytes is added, the lookup of
    -- any name of at most 8 bytes finds what it found before, and if that was nothing, the new
    -- entry if it has the name.
    pub find_dir-add_dir :
        IsString name
        → (other : List ℕ) → IsString other
        → length other ≤ 8
        → find_dir (add_dir root name start) other
          ≡ or_else (find_dir root other) (if same_str name other then some count else none)
    unfolding find_dir
    find_dir-add_dir hn other ho short =
        rw (count-add_dir, ← add_dir-name hn other ho short)
          (search_from-last count (λ i. str_eq root (dname i) other)
            (λ i. str_eq (add_dir root name start) (dname i) other)
            (λ j b.
              str_eq-Agree other _ _ (dname j)
                (λ k p q. add_dir-outside fits k (omega arith) (inl (omega arith)))))

-- A lookup reads the block alone.
pub find_dir-Agree :
    (a b : Buffer) (name : List ℕ)
    → Agree a b 0 512
    → get_int 4 b 0 ≤ max_dirs_in_root
    → length name ≤ 8
    → find_dir a name ≡ find_dir b name
unfolding find_dir
find_dir-Agree a b name h few short = rw (get_int-Agree 4 a b 0 (λ k p q. h k p (omega arith))) (
    search_from-congr (get_int 4 b 0) 0 _ _
      (λ j p q. str_eq-Agree name a b (dname j) (λ k lo hi. h k (omega arith) (omega arith))))

pub find_file-Agree :
    (a b : Buffer) (name ext : List ℕ)
    → Agree a b 0 512
    → get_int 4 b 0 ≤ max_files_in_dir
    → length name ≤ 8
    → length ext ≤ 3
    → find_file a name ext ≡ find_file b name ext
unfolding find_file
find_file-Agree a b name ext h few short short_ext =
    rw (get_int-Agree 4 a b 0 (λ k p q. h k p (omega arith))) (
      search_from-congr (get_int 4 b 0) 0 _ _ (λ j p q.
        ap₂ ◌&&◌ (str_eq-Agree name a b (fname j) (λ k lo hi. h k (omega arith) (omega arith)))
          (str_eq-Agree ext a b (fext j) (λ k lo hi. h k (omega arith) (omega arith)))))
