-- ===== src/User/Ulib.antt =====
-- lab3/xv6-public/ulib.c: texts and numbers.
pub mod Lines
use cs.Prelude.{
  ℕ, zero, suc, ◌+◌, ◌-◌, ◌*◌, ◌%◌, ◌^◌, Bool, true, false, ◌&&◌, ◌||◌, Option, none, some, List,
  [], ◌∷◌, if◌then◌else◌, leb, ltb, ◌==◌,
}
use cs.Prelude.Int.{ℤ, sub_ℕ}

-- `'0' <= *s && *s <= '9'`
abbrev pub is_digit : ℕ → Bool
is_digit c = leb b'0' c && leb c b'9'

-- The loop of atoi, from `n`.
unfoldable pub atoi_from : ℕ → List ℕ → ℕ
atoi_from n [] = n
atoi_from n (c ∷ s) =
    let more = atoi_from ((n * 10 + c - b'0') % 2 ^ 32) s in if is_digit c then more else n

-- atoi. The `int` is given by its 32 bits: a number from 2 ^ 31 on, where the C code overflows, comes out
-- as on a machine whose additions and multiplications wrap.
unfoldable pub atoi : List ℕ → ℕ
unfolding atoi_from
atoi s = atoi_from 0 s

-- What follows the first `c`, with it.
unfoldable pub strchr : List ℕ → ℕ → Option (List ℕ)
strchr [] c = none
strchr (a ∷ s) c = if a == c then some (a ∷ s) else strchr s c

-- The difference of the first characters that differ, with NUL at the end of a text.
unfoldable pub strcmp : List ℕ → List ℕ → ℤ
strcmp [] [] = sub_ℕ 0 0
strcmp [] (b ∷ q) = sub_ℕ 0 b
strcmp (a ∷ p) [] = sub_ℕ a 0
strcmp (a ∷ p) (b ∷ q) = let rest = strcmp p q in if a == b then rest else sub_ℕ a b

-- The loop of gets with `room` bytes left for `buf[i]`, on what read still gives: the text read, and
-- what is left.
unfoldable pub gets_loop : ℕ → List ℕ → List ℕ × List ℕ
gets_loop zero input = ([], input)
gets_loop (suc room) [] = ([], [])
gets_loop (suc room) (c ∷ input) =
    let (buf, rest) = gets_loop room input in
    if (c == 10) || (c == 13) then (c ∷ [], input) else (c ∷ buf, rest)

unfoldable pub gets : ℕ → List ℕ → List ℕ × List ℕ
unfolding gets_loop
gets max input = gets_loop (max - 1) input
