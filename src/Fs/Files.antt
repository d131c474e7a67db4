-- ===== src/Fs/Files.antt =====
-- proj4/cs1550.c: what a new entry changes in the table of a directory that is not full.
use cs.Prelude.{
  ℕ, suc, ◌+◌, ◌^◌, ◌≤◌, ◌<◌, ◌≡◌, ◌∙◌, ap₂, arith, ◌&&◌, none, some, inl, inr, ◌⊎◌, List, length,
  if◌then◌else◌,
}
use cs.Fs.Bytes.{
  Buffer, IsString, get_int, str_eq, same_str, get_int-put_int, get_int-Agree, str_eq-Agree,
  str_eq-strcpy, put_int-outside, strcpy-outside,
}
use cs.Fs.Layout.{fname, fext, fsize, file_start, max_files_in_dir, find_file}
use cs.Fs.Handlers.{add_file}
use cs.Prelude.Search.{or_else, search_from-last}

module _ (dir : Buffer) (name ext : List ℕ) (start : ℕ) where
  abbrev count : ℕ
  count = get_int 4 dir 0

  module _ (fits : length name ≤ 8) (ext_fits : length ext ≤ 3) where
    -- The new entry writes the counter and the 29 bytes of its own slot.
    pub add_file-outside :
        (k : ℕ)
        → 4 ≤ k
        → (k < fname count) ⊎ (fname count + 29 ≤ k)
        → add_file dir name ext start k ≡ dir k
    unfolding add_file
    add_file-outside k low (inl h) =
        put_int-outside 8 _ (file_start count) start k (inl (omega arith))
        ∙ put_int-outside 8 _ (fsize count) 0 k (inl (omega arith))
        ∙ strcpy-outside ext _ (fext count) k (inl (omega arith))
        ∙ strcpy-outside name _ (fname count) k (inl h)
        ∙ put_int-outside 4 dir 0 _ k (inr (omega arith))
    add_file-outside k low (inr h) =
        put_int-outside 8 _ (file_start count) start k (inr (omega arith))
        ∙ put_int-outside 8 _ (fsize count) 0 k (inr (omega arith))
        ∙ strcpy-outside ext _ (fext count) k (inr (omega arith))
        ∙ strcpy-outside name _ (fname count) k (inr (omega arith))
        ∙ put_int-outside 4 dir 0 _ k (inr (omega arith))

    pub count-add_file :
        count ≤ max_files_in_dir → get_int 4 (add_file dir name ext start) 0 ≡ suc count
    unfolding add_file
    count-add_file room =
        get_int-Agree 4 _ _ 0
          (λ k p q. put_int-outside 8 _ (file_start count) start k (inl (omega arith)))
        ∙ get_int-Agree 4 _ _ 0 (λ k p q. put_int-outside 8 _ (fsize count) 0 k (inl (omega arith)))
        ∙ get_int-Agree 4 _ _ 0 (λ k p q. strcpy-outside ext _ (fext count) k (inl (omega arith)))
        ∙ get_int-Agree 4 _ _ 0 (λ k p q. strcpy-outside name _ (fname count) k (inl (omega arith)))
        ∙ get_int-put_int 4 dir 0 _ (omega arith)
        ∙ omega arith

    -- The new entry has its block, and size 0.
    pub add_file-start :
        start < 256 ^ 8 → get_int 8 (add_file dir name ext start) (file_start count) ≡ start
    unfolding add_file
    add_file-start h = get_int-put_int 8 _ (file_start count) start h

    pub add_file-size : get_int 8 (add_file dir name ext start) (fsize count) ≡ 0
    unfolding add_file
    add_file-size =
        get_int-Agree 8 _ _ (fsize count)
          (λ k p q. put_int-outside 8 _ (file_start count) start k (inl (omega arith)))
        ∙ get_int-put_int 8 _ (fsize count) 0 (omega arith)

    -- The entries before it keep their size and block.
    pub add_file-kept :
        (j : ℕ)
        → j < count
        → (get_int 8 (add_file dir name ext start) (fsize j) ≡ get_int 8 dir (fsize j))
          × (get_int 8 (add_file dir name ext start) (file_start j) ≡ get_int 8 dir (file_start j))
    add_file-kept j h = (
      get_int-Agree 8 _ _ (fsize j) (λ k p q. add_file-outside k (omega arith) (inl (omega arith))),
      get_int-Agree 8 _ _ (file_start j)
          (λ k p q. add_file-outside k (omega arith) (inl (omega arith))),
    )

    module _ (hn : IsString name) (he : IsString ext) (n2 e2 : List ℕ) (hn2 : IsString n2)
        (he2 : IsString e2) (short : length n2 ≤ 8) (short_ext : length e2 ≤ 3) where
      add_file-name : str_eq (add_file dir name ext start) (fname count) n2 ≡ same_str name n2
      unfolding add_file
      add_file-name =
          str_eq-Agree n2 _ _ (fname count)
            (λ k p q. put_int-outside 8 _ (file_start count) start k (inl (omega arith)))
          ∙ str_eq-Agree n2 _ _ (fname count)
              (λ k p q. put_int-outside 8 _ (fsize count) 0 k (inl (omega arith)))
          ∙ str_eq-Agree n2 _ _ (fname count)
              (λ k p q. strcpy-outside ext _ (fext count) k (inl (omega arith)))
          ∙ str_eq-strcpy name n2 _ (fname count) hn hn2

      add_file-ext : str_eq (add_file dir name ext start) (fext count) e2 ≡ same_str ext e2
      unfolding add_file
      add_file-ext =
          str_eq-Agree e2 _ _ (fext count)
            (λ k p q. put_int-outside 8 _ (file_start count) start k (inl (omega arith)))
          ∙ str_eq-Agree e2 _ _ (fext count)
              (λ k p q. put_int-outside 8 _ (fsize count) 0 k (inl (omega arith)))
          ∙ str_eq-strcpy ext e2 _ (fext count) he he2

      -- In a directory with room, once an entry with an 8.3 name is added, the lookup of any 8.3
      -- name finds what it found before, and if that was nothing, the new entry if it has the
      -- name.
      pub find_file-add_file :
          count < max_files_in_dir
          → find_file (add_file dir name ext start) n2 e2
            ≡ or_else
                (find_file dir n2 e2)
                (if same_str name n2 && same_str ext e2 then some count else none)
      unfolding find_file
      find_file-add_file room =
          rw (count-add_file (omega arith), ← add_file-name, ← add_file-ext)
            (search_from-last count (λ i. str_eq dir (fname i) n2 && str_eq dir (fext i) e2)
              (λ i.
                str_eq (add_file dir name ext start) (fname i) n2
                && str_eq (add_file dir name ext start) (fext i) e2)
              (λ j b.
                ap₂ ◌&&◌
                  (str_eq-Agree n2 _ _ (fname j)
                    (λ k p q. add_file-outside k (omega arith) (inl (omega arith))))
                  (str_eq-Agree e2 _ _ (fext j)
                    (λ k p q. add_file-outside k (omega arith) (inl (omega arith))))))
