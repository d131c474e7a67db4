-- ===== src/User/Printf.antt =====
-- lab3/xv6-public/printf.c: the bytes that printf writes. Arguments are `uint`s, and `string_at` gives
-- the text at an address.
pub mod Numbers
pub mod Formats
use cs.Prelude.{
  ℕ, zero, suc, ◌+◌, ◌-◌, ◌/◌, ◌%◌, ◌^◌, Bool, true, false, ◌&&◌, ◌||◌, List, [], ◌∷◌, ◌++◌,
  if◌then◌else◌, leb, ltb, ◌==◌, get_or,
}

abbrev pub digits : List ℕ
digits =
    b'0' ∷ b'1' ∷ b'2' ∷ b'3' ∷ b'4' ∷ b'5' ∷ b'6' ∷ b'7' ∷ b'8' ∷ b'9' ∷ b'A' ∷ b'B' ∷ b'C' ∷ b'D'
    ∷ b'E' ∷ b'F' ∷ []

-- The do-while loop of printint: what it puts into `buf`. 32 rounds are enough for any base.
unfoldable pub put_digits : ℕ → ℕ → ℕ → List ℕ
put_digits zero base x = []
put_digits (suc fuel) base x =
    let rest = put_digits fuel base (x / base) in
    get_or digits (x % base) 0 ∷ (if x / base == 0 then [] else rest)

-- The last loop of printint, from the end of `buf`.
unfoldable pub backwards : List ℕ → List ℕ
backwards [] = []
backwards (c ∷ buf) = backwards buf ++ c ∷ []

-- `sgn && xx < 0`
abbrev pub is_negative : Bool → ℕ → Bool
is_negative sgn xx = sgn && leb (2 ^ 31) xx

-- `buf` before it is written.
unfoldable pub int_buf : ℕ → ℕ → Bool → List ℕ
int_buf xx base sgn =
    if is_negative sgn xx
    then put_digits 32 base ((2 ^ 32 - xx) % 2 ^ 32) ++ b'-' ∷ []
    else put_digits 32 base xx

unfoldable pub printint : ℕ → ℕ → Bool → List ℕ
printint xx base sgn = backwards (int_buf xx base sgn)

abbrev pub null_text : List ℕ
null_text = b'(' ∷ b'n' ∷ b'u' ∷ b'l' ∷ b'l' ∷ b')' ∷ []

module _ (string_at : ℕ → List ℕ) (args : ℕ → ℕ) where
  -- One character after a '%', with `*ap` as the argument: what is written, and by how much `ap` grows.
  unfoldable pub conversion : ℕ → ℕ → List ℕ × ℕ
  conversion c arg =
      if c == b'd'
      then (printint arg 10 true, 1)
      else if (c == b'x') || (c == b'p')
      then (printint arg 16 false, 1)
      else if c == b's'
      then (if arg == 0 then null_text else string_at arg, 1)
      else if c == b'c'
      then (arg % 2 ^ 8 ∷ [], 1)
      else if c == b'%'
      then (c ∷ [], 0)
      else (b'%' ∷ c ∷ [], 0)

  -- The loop of printf, with `ap` as an index; `after` is `state == '%'`.
  unfoldable pub printf_from : Bool → ℕ → List ℕ → List ℕ
  unfolding conversion
  printf_from after ap [] = []
  printf_from false ap (c ∷ fmt) =
      let plain = printf_from false ap fmt in
      let special = printf_from true ap fmt in if c == b'%' then special else c ∷ plain
  printf_from true ap (c ∷ fmt) =
      let (out, used) = conversion c (args ap) in out ++ printf_from false (ap + used) fmt

  unfoldable pub printf : List ℕ → List ℕ
  unfolding printf_from
  printf fmt = printf_from false 0 fmt
