-- ===== src/User/Printf/Formats.antt =====
-- lab3/xv6-public/printf.c: formats.
use cs.Prelude.{
  ℕ, ◌+◌, ◌≡◌, refl, ap, arith, true, false, List, [], ◌∷◌, ◌++◌, if◌then◌else◌, ◌==◌, ◌^◌, ◌%◌,
}
use cs.User.Printf.{printf, printf_from, conversion, printint, null_text}

-- A format, piece by piece.
pub data Piece : Type 0 where
  plain : (c : ℕ) → (c == b'%') ≡ false → Piece
  percent decimal hex text char : Piece

abbrev pub spelled : List Piece → List ℕ
spelled [] = []
spelled (plain c h ∷ ps) = c ∷ spelled ps
spelled (percent ∷ ps) = b'%' ∷ b'%' ∷ spelled ps
spelled (decimal ∷ ps) = b'%' ∷ b'd' ∷ spelled ps
spelled (hex ∷ ps) = b'%' ∷ b'x' ∷ spelled ps
spelled (text ∷ ps) = b'%' ∷ b's' ∷ spelled ps
spelled (char ∷ ps) = b'%' ∷ b'c' ∷ spelled ps

module _ (string_at : ℕ → List ℕ) where
  -- What the pieces show of the arguments from `ap` on.
  abbrev pub shown : (ℕ → ℕ) → ℕ → List Piece → List ℕ
  shown args ap [] = []
  shown args ap (plain c h ∷ ps) = c ∷ shown args ap ps
  shown args ap (percent ∷ ps) = b'%' ∷ shown args ap ps
  shown args ap (decimal ∷ ps) = printint (args ap) 10 true ++ shown args (ap + 1) ps
  shown args ap (hex ∷ ps) = printint (args ap) 16 false ++ shown args (ap + 1) ps
  shown args ap (text ∷ ps) =
      (if args ap == 0 then null_text else string_at (args ap)) ++ shown args (ap + 1) ps
  shown args ap (char ∷ ps) = args ap % 2 ^ 8 ∷ shown args (ap + 1) ps

  printf_from-spelled :
      (args : ℕ → ℕ) (ap : ℕ) (ps : List Piece)
      → printf_from string_at args false ap (spelled ps) ≡ shown args ap ps
  unfolding printf_from conversion
  printf_from-spelled args ap [] = refl
  printf_from-spelled args ap (plain c h ∷ ps) = ground (arith, h, printf_from-spelled args ap ps)
  printf_from-spelled args ap (percent ∷ ps) =
      let e : ap + 0 ≡ ap = omega arith in rw e (ground (arith, printf_from-spelled args ap ps))
  printf_from-spelled args ap (decimal ∷ ps) = ground (arith, printf_from-spelled args (ap + 1) ps)
  printf_from-spelled args ap (hex ∷ ps) = ground (arith, printf_from-spelled args (ap + 1) ps)
  printf_from-spelled args ap (text ∷ ps) = ground (arith, printf_from-spelled args (ap + 1) ps)
  printf_from-spelled args ap (char ∷ ps) = ground (arith, printf_from-spelled args (ap + 1) ps)

  -- A format that is spelled from pieces shows each piece with the next argument.
  pub printf-spelled :
      (args : ℕ → ℕ) (ps : List Piece) → printf string_at args (spelled ps) ≡ shown args 0 ps
  unfolding printf
  printf-spelled args ps = printf_from-spelled args 0 ps
