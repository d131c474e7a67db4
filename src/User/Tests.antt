-- ===== src/User/Tests.antt =====
-- lab3/xv6-public/printf.c and ulib.c on small values.
use cs.Prelude.{ℕ, ◌+◌, ◌^◌, ◌≡◌, ◌⊎◌, arith, true, false, List, [], ◌∷◌}
use cs.User.Ulib.{atoi}
use cs.User.Printf.{printint, is_negative}
use cs.User.Printf.Numbers.{atoi-printint}
use cs.User.Printf.Formats.{Piece, decimal, text, percent}

-- -7, as 32 bits.
abbrev minus_seven : ℕ
minus_seven = 4294967289

atoi-printint_example :
    (is_negative true minus_seven ≡ false) × (atoi (printint minus_seven 10 true) ≡ minus_seven)
    ⊎ (is_negative true minus_seven ≡ true)
      × (s : List ℕ) × (printint minus_seven 10 true ≡ b'-' ∷ s)
      × (atoi s + minus_seven ≡ 2 ^ 32)
atoi-printint_example = atoi-printint minus_seven (omega arith)

abbrev name : List ℕ
name = b'c' ∷ b'a' ∷ b't' ∷ []

abbrev other : List ℕ
other = b'c' ∷ b'p' ∷ []

abbrev typed : List ℕ
typed = b'l' ∷ b's' ∷ 10 ∷ b'x' ∷ []

abbrev pieces : List Piece
pieces = text ∷ decimal ∷ percent ∷ []

abbrev string_at : ℕ → List ℕ
string_at p = name

abbrev args : ℕ → ℕ
args k = k + 2
