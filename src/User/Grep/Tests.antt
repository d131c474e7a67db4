-- ===== src/User/Grep/Tests.antt =====
-- lab3/xv6-public/grep.c on small texts.
use cs.Prelude.{ℕ, ◌≡◌, ◌↔◌, refl, arith, List, [], ◌∷◌, ◌++◌, true}
use cs.User.Grep.{match, newline, grep, matchstar, matchhere, search_text}
use cs.User.Grep.Regex.{Occurs, regex_of}
use cs.User.Grep.Matcher.{match_iff}
use cs.User.Grep.Lines.{lines_of, matching, grep_lem}

abbrev star_pattern : List ℕ
star_pattern = b'^' ∷ b'a' ∷ b'b' ∷ b'*' ∷ b'c' ∷ b'$' ∷ []

abbrev word : List ℕ
word = b'a' ∷ b'b' ∷ b'b' ∷ b'c' ∷ []

match_iff_example : (match star_pattern word ≡ true) ↔ Occurs (regex_of star_pattern) word
match_iff_example = match_iff star_pattern word

match_word : match star_pattern word ≡ true
unfolding match matchhere matchstar search_text
match_word = refl

abbrev pieces : List (List ℕ)
pieces = (word ++ newline ∷ b'x' ∷ []) ∷ (b'y' ∷ newline ∷ []) ∷ []

abbrev all_bytes : List ℕ
all_bytes = word ++ newline ∷ b'x' ∷ b'y' ∷ newline ∷ []

grep_lem_example : grep 3 star_pattern [] pieces ≡ matching star_pattern (lines_of all_bytes).0
unfolding lines_of
grep_lem_example = grep_lem 3 star_pattern pieces (omega arith) (
  ground arith,
  omega arith,
  omega arith,
  omega arith,
  (ground arith, omega arith, omega arith, omega arith, tt),
)
