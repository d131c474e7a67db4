-- ===== src/User/Grep.antt =====
-- lab3/xv6-public/grep.c: the matcher, and the loop over the lines of a file.
pub mod Regex
pub mod Starts
pub mod Decides
pub mod Matcher
pub mod Lines
mod Tests
use cs.Prelude.{
  ◌+◌, Option, none, some, ℕ, zero, suc, ◌-◌, Bool, true, false, ◌&&◌, ◌||◌, List, [], ◌∷◌, ◌++◌,
  if◌then◌else◌, ◌==◌, leb, length, take, drop,
}

-- `re[0]=='.' || re[0]==*text`
abbrev pub accepts : ℕ → ℕ → Bool
accepts r c = (r == b'.') || (r == c)

-- matchstar, where `here` is matchhere of the pattern after the star.
unfoldable pub matchstar : (List ℕ → Bool) → ℕ → List ℕ → Bool
matchstar here c [] = here []
matchstar here c (a ∷ text) = here (a ∷ text) || (accepts c a && matchstar here c text)

abbrev pub at_end : List ℕ → Bool
at_end [] = true
at_end (a ∷ text) = false

-- One character of the pattern, with `here` for the rest.
abbrev pub match_one : (List ℕ → Bool) → ℕ → List ℕ → Bool
match_one here r [] = false
match_one here r (a ∷ text) = accepts r a && here text

unfoldable pub matchhere : List ℕ → List ℕ → Bool
matchhere [] text = true
matchhere (r ∷ []) text = if r == b'$' then at_end text else match_one (matchhere []) r text
matchhere (r ∷ s ∷ re) text =
    let star = matchstar (matchhere re) r text in
    let one = match_one (matchhere (s ∷ re)) r text in if s == b'*' then star else one

-- The loop of match over the places in the text.
unfoldable pub search_text : (List ℕ → Bool) → List ℕ → Bool
search_text here [] = here []
search_text here (a ∷ text) = here (a ∷ text) || search_text here text

unfoldable pub match : List ℕ → List ℕ → Bool
match [] text = search_text (matchhere []) text
match (r ∷ re) text = if r == b'^' then matchhere re text else search_text (matchhere (r ∷ re)) text

abbrev pub newline : ℕ
newline = 10

-- strchr (p, '\n'), which stops at a NUL: the line before the newline, and what follows it.
unfoldable pub take_line : List ℕ → Option (List ℕ × List ℕ)
take_line [] = none
take_line (c ∷ p) =
    if c == 0
    then none
    else if c == newline
    then some ([], p)
    else elim (take_line p) [ none ↦ none | some (line, rest) ↦ some (c ∷ line, rest) ]

-- The inner loop of grep: what is written, and where `p` ends.
unfoldable pub print_lines : ℕ → List ℕ → List ℕ → List ℕ × List ℕ
print_lines zero pattern p = ([], p)
print_lines (suc fuel) pattern p = elim (take_line p) [
  | none ↦ ([], p)
  | some (line, rest) ↦
      let (out, end) = print_lines fuel pattern rest in
      ((if match pattern line then line ++ newline ∷ [] else []) ++ out, end)
]

-- The calls of read: each gives the next piece of the file, up to `n` bytes.
unfoldable pub read : ℕ → List (List ℕ) → List ℕ × List (List ℕ)
read n [] = ([], [])
read n (piece ∷ pieces) =
    if leb (length piece) n then (piece, pieces) else (take n piece, drop n piece ∷ pieces)

abbrev pub buf_size : ℕ
buf_size = 1024

-- The outer loop, with the `m` bytes `held` at the front of `buf`: what is written.
unfoldable pub grep : ℕ → List ℕ → List ℕ → List (List ℕ) → List ℕ
grep zero pattern held pieces = []
grep (suc fuel) pattern held pieces =
    let (bytes, rest) = read (buf_size - length held - 1) pieces in
    let buf = held ++ bytes in
    let (out, p) = print_lines (length buf + 1) pattern buf in
    let more = grep fuel pattern (if length p == length buf then [] else p) rest in
    if length bytes == 0 then [] else out ++ more
