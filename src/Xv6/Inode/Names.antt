-- ===== src/Xv6/Inode/Names.antt =====
-- lab3/xv6-public/fs.c: skipelem, and the loop of namex that calls it. A path is its bytes up to the NUL.
use cs.Prelude.{
  ℕ, zero, suc, ◌+◌, ◌≤◌, ◌<◌, ◌≡◌, ◌∙◌, refl, sym, arith, Bool, true, false, ◌&&◌, not,
  if◌then◌else◌, ◌==◌, Option, none, some, List, [], ◌∷◌, ◌++◌, length, take, replicate,
  length-append,
}

abbrev pub dirsiz : ℕ
dirsiz = 14

-- `while(*path == '/') path++;`
unfoldable pub skip_slashes : List ℕ → List ℕ
skip_slashes [] = []
skip_slashes (c ∷ path) = let rest = skip_slashes path in if c == b'/' then rest else c ∷ path

-- `while(*path != '/' && *path != 0) path++;`: what is passed, and what is left.
unfoldable pub pass_name : List ℕ → List ℕ × List ℕ
pass_name [] = ([], [])
pass_name (c ∷ path) =
    let (name, rest) = pass_name path in if c == b'/' then ([], c ∷ path) else (c ∷ name, rest)

-- The name as it is compared, up to its NUL or 14 bytes, and the rest of the path; `none` for 0.
unfoldable pub skipelem : List ℕ → Option (List ℕ × List ℕ)
skipelem path = elim (skip_slashes path) [
  | [] ↦ none
  | c ∷ s ↦ let (name, rest) = pass_name (c ∷ s) in some (take dirsiz name, skip_slashes rest)
]

-- The names that the loop of namex looks up, one after the other; `none` if there is no fuel left.
unfoldable pub names_from : ℕ → List ℕ → Option (List (List ℕ))
names_from zero path = none
names_from (suc fuel) path = elim (skipelem path) [
  | none ↦ some []
  | some (name, rest) ↦ elim (names_from fuel rest) [
    | none ↦ none
    | some names ↦ some (name ∷ names)
  ]
]

-- A path written with one slash and `k` more before each name, and with `last` slashes at its end.
abbrev pub written_path : List (ℕ × List ℕ) → ℕ → List ℕ
written_path [] last = replicate last b'/'
written_path ((k, name) ∷ parts) last =
    b'/' ∷ (replicate k b'/' ++ (name ++ written_path parts last))

abbrev pub is_name_bytes : List ℕ → Bool
is_name_bytes [] = true
is_name_bytes (c ∷ s) = not (c == b'/') && is_name_bytes s

abbrev pub is_name : List ℕ → Bool
is_name [] = false
is_name (c ∷ s) = is_name_bytes (c ∷ s)

abbrev pub AllNames : List (ℕ × List ℕ) → Type 0
AllNames [] = Unit {0}
AllNames ((k, name) ∷ parts) = (is_name name ≡ true) × AllNames parts

abbrev pub short_names : List (ℕ × List ℕ) → List (List ℕ)
short_names [] = []
short_names ((k, name) ∷ parts) = take dirsiz name ∷ short_names parts

skip_slashes-replicate :
    (k : ℕ) (path : List ℕ) → skip_slashes (replicate k b'/' ++ path) ≡ skip_slashes path
unfolding skip_slashes
skip_slashes-replicate zero path = refl
skip_slashes-replicate (suc k) path = skip_slashes-replicate k path

skip_slashes_name :
    (c : ℕ) (s path : List ℕ)
    → is_name_bytes (c ∷ s) ≡ true
    → skip_slashes ((c ∷ s) ++ path) ≡ (c ∷ s) ++ path
unfolding skip_slashes
skip_slashes_name c s path h = ground (arith, h)

pass_name-written :
    (name : List ℕ) (parts : List (ℕ × List ℕ)) (last : ℕ)
    → is_name_bytes name ≡ true
    → pass_name (name ++ written_path parts last) ≡ (name, written_path parts last)
unfolding pass_name
pass_name-written [] [] zero h = refl
pass_name-written [] [] (suc last) h = refl
pass_name-written [] ((k, n) ∷ parts) last h = refl
pass_name-written (c ∷ s) parts last h = ground (arith, h, pass_name-written s parts last)

skip_slashes_twice : (path : List ℕ) → skip_slashes (skip_slashes path) ≡ skip_slashes path
unfolding skip_slashes
skip_slashes_twice [] = refl
skip_slashes_twice (c ∷ path) = ground (arith, skip_slashes_twice path)

skip_slashes_last : (last : ℕ) → skip_slashes (replicate last b'/') ≡ []
unfolding skip_slashes
skip_slashes_last zero = refl
skip_slashes_last (suc last) = skip_slashes_last last

skipelem-written :
    (path : List ℕ) (k : ℕ) (name : List ℕ) (parts : List (ℕ × List ℕ)) (last : ℕ)
    → is_name name ≡ true
    → skip_slashes path ≡ skip_slashes (replicate k b'/' ++ (name ++ written_path parts last))
    → skipelem path ≡ some (take dirsiz name, skip_slashes (written_path parts last))
unfolding skipelem
skipelem-written path k [] parts last h e = absurd (ground (arith, h))
skipelem-written path k (c ∷ s) parts last h e =
    let w = written_path parts last in
    let start : skip_slashes path ≡ c ∷ (s ++ w) =
      e ∙ skip_slashes-replicate k ((c ∷ s) ++ w) ∙ skip_slashes_name c s w h in
    let passed : pass_name (c ∷ (s ++ w)) ≡ (c ∷ s, w) = pass_name-written (c ∷ s) parts last h in
    ground (arith, start, passed)

skipelem-none : (path : List ℕ) → skip_slashes path ≡ [] → skipelem path ≡ none
unfolding skipelem
skipelem-none path e = ground (arith, e)

names_from-written :
    (fuel : ℕ) (path : List ℕ) (parts : List (ℕ × List ℕ)) (last : ℕ)
    → length parts < fuel
    → AllNames parts
    → skip_slashes path ≡ skip_slashes (written_path parts last)
    → names_from fuel path ≡ some (short_names parts)
unfolding names_from
names_from-written zero path parts last lt h e = absurd (omega (arith, lt))
names_from-written (suc fuel) path [] last lt h e =
    ground (arith, skipelem-none path (e ∙ skip_slashes_last last))
names_from-written (suc fuel) path ((k, name) ∷ parts) last lt (is, h) e =
    let w = written_path parts last in
    let first =
      skipelem-written path k name parts last is
        (e ∙ skip_slashes-replicate 1 (replicate k b'/' ++ (name ++ w))) in
    let rest =
      names_from-written fuel (skip_slashes w) parts last (omega (arith, lt)) h
        (skip_slashes_twice w) in
    ground (arith, first, rest)

length-written :
    (parts : List (ℕ × List ℕ)) (last : ℕ) → length parts ≤ length (written_path parts last)
length-written [] last = omega arith
length-written ((k, name) ∷ parts) last = omega (
  arith,
  length-written parts last,
  length-append (replicate k b'/') (name ++ written_path parts last),
  length-append name (written_path parts last),
)

-- For a path of names that are not empty and have no slash, with any number of slashes before the
-- first, one or more between two, and any number at the end, repeated calls of skipelem end
-- within the path's length and one, and give the names in order, each cut at 14 bytes.
pub names_from_path :
    (lead : ℕ) (name : List ℕ) (parts : List (ℕ × List ℕ)) (last : ℕ)
    → is_name name ≡ true
    → AllNames parts
    → names_from
        (length (replicate lead b'/' ++ (name ++ written_path parts last)) + 1)
        (replicate lead b'/' ++ (name ++ written_path parts last))
      ≡ some (take dirsiz name ∷ short_names parts)
names_from_path lead name parts last is h =
    let w = written_path parts last in
    let size = length-append (replicate lead b'/') (name ++ w) in
    let tail = length-append name w in
    names_from-written (length (replicate lead b'/' ++ (name ++ w)) + 1)
      (replicate lead b'/' ++ (name ++ w)) ((lead, name) ∷ parts) last
      (omega (arith, size, tail, length-written parts last, filled name is)) (is, h)
      (sym (skip_slashes-replicate 1 (replicate lead b'/' ++ (name ++ w))))
  where
    filled : (n : List ℕ) → is_name n ≡ true → 0 < length n
    filled [] e = ground (arith, e)
    filled (c ∷ s) e = omega arith
