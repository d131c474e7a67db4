-- ===== src/Fs/Path.antt =====
-- proj4/cs1550.c: `sscanf (path, "/%[^/]/%[^.].%s", directory, filename, extension)`, which every
-- handler calls. The strings are as long as the path makes them: the arrays' sizes are not applied.
use cs.Prelude.{ℕ, Bool, ◌&&◌, ◌||◌, not, List, [], ◌∷◌, leb, ◌==◌, if◌then◌else◌}

pub record Scan : Type 0 where
  pub count : ℕ
  pub directory : List ℕ
  pub filename : List ℕ
  pub extension : List ℕ

unfoldable pub take_while : (ℕ → Bool) → List ℕ → List ℕ
take_while p [] = []
take_while p (c ∷ s) = if p c then c ∷ take_while p s else []

unfoldable pub drop_while : (ℕ → Bool) → List ℕ → List ℕ
drop_while p [] = []
drop_while p (c ∷ s) = if p c then drop_while p s else c ∷ s

abbrev pub is_space : ℕ → Bool
is_space c = (c == 32) || (leb 9 c && leb c 13)

-- `%s` skips white space and takes what is none.
scan_extension : List ℕ → Scan → Scan
unfolding take_while drop_while
scan_extension s r = elim (take_while (λ c. not (is_space c)) (drop_while is_space s)) [
  | [] ↦ r
  | c ∷ t ↦ record r { count = 3; extension = c ∷ t }
]

scan_dot : List ℕ → Scan → Scan
unfolding scan_extension
scan_dot [] r = r
scan_dot (c ∷ s) r = if c == b'.' then scan_extension s r else r

scan_filename : List ℕ → Scan → Scan
unfolding scan_dot take_while drop_while
scan_filename s r = elim (take_while (λ c. not (c == b'.')) s) [
  | [] ↦ r
  | c ∷ t ↦
      scan_dot (drop_while (λ c. not (c == b'.')) s) (record r { count = 2; filename = c ∷ t })
]

scan_slash : List ℕ → Scan → Scan
unfolding scan_filename
scan_slash [] r = r
scan_slash (c ∷ s) r = if c == b'/' then scan_filename s r else r

scan_directory : List ℕ → Scan → Scan
unfolding scan_slash take_while drop_while
scan_directory s r = elim (take_while (λ c. not (c == b'/')) s) [
  | [] ↦ r
  | c ∷ t ↦
      scan_slash (drop_while (λ c. not (c == b'/')) s) (record r { count = 1; directory = c ∷ t })
]

-- `junk` is the string that the arrays happen to hold before the call. `EOF` counts as 0.
unfoldable pub sscanf_path : List ℕ → List ℕ → Scan
unfolding scan_directory
sscanf_path junk [] = record { count = 0; directory = junk; filename = junk; extension = junk }
sscanf_path junk (c ∷ s) =
    let blank : Scan = record { count = 0; directory = junk; filename = junk; extension = junk } in
    if c == b'/' then scan_directory s blank else blank
