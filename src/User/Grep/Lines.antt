-- ===== src/User/Grep/Lines.antt =====
-- lab3/xv6-public/grep.c: the lines that grep writes.
use cs.Prelude.{
  ℕ, zero, suc, ◌+◌, ◌-◌, ◌≤◌, ◌<◌, ◌≡◌, ◌∙◌, refl, sym, ap, subst, arith, none, some, List, [],
  ◌∷◌, ◌++◌, if◌then◌else◌, ◌==◌, length, Bool-cases, Option-cases, inl, inr,
}
use mathlib.Core.List.{append-nil, append_assoc}
use cs.User.Ulib.Lines.{NoNul}
use cs.User.Grep.{match, newline, take_line, print_lines, read, buf_size, grep}

-- The lines of a text that end in a newline, and what follows the last of them.
abbrev pub push_char : ℕ → List (List ℕ) → List ℕ → List (List ℕ) × List ℕ
push_char c [] last = ([], c ∷ last)
push_char c (line ∷ lines) last = ((c ∷ line) ∷ lines, last)

unfoldable pub lines_of : List ℕ → List (List ℕ) × List ℕ
lines_of [] = ([], [])
lines_of (c ∷ text) =
    let (lines, last) = lines_of text in
    if c == newline then ([] ∷ lines, last) else push_char c lines last

abbrev pub matching : List ℕ → List (List ℕ) → List ℕ
matching pattern [] = []
matching pattern (line ∷ lines) =
    (if match pattern line then line ++ newline ∷ [] else []) ++ matching pattern lines

take_line-none : (p : List ℕ) → NoNul p → take_line p ≡ none → lines_of p ≡ ([], p)
unfolding take_line lines_of
take_line-none [] h e = refl
take_line-none (c ∷ p) (pos, h) e = ground (arith, pos, e, take_line-none p h)

take_line-some :
    (p : List ℕ) {line rest : List ℕ}
    → NoNul p
    → take_line p ≡ some (line, rest)
    → (lines_of p ≡ (line ∷ (lines_of rest).0, (lines_of rest).1))
      × (length rest < length p)
      × NoNul rest
unfolding take_line lines_of
take_line-some [] h e = absurd (ground (arith, e))
take_line-some (c ∷ p) {line} {rest} (pos, h) e = elim (Bool-cases (c == newline)) [
  | inl here ↦
      let over : p ≡ rest = ground (arith, e, here, pos) in
      (ground (arith, e, here, pos), ground (arith, e, here, pos), subst NoNul over h)
  | inr later ↦ elim (Option-cases (take_line p)) [
    | inl q ↦ absurd (ground (arith, e, later, q, pos))
    | inr ((l, r), q) ↦
        let (same, shorter, rest_NoNul) = take_line-some p {line = l} {rest = r} h q in
        let over : r ≡ rest = ground (arith, e, later, q, pos) in
        (
          ground (arith, e, later, q, same, pos),
          ground (arith, e, later, q, shorter, pos),
          subst NoNul over rest_NoNul,
        )
  ]
]

print_lines-matching :
    (fuel : ℕ) (pattern p : List ℕ)
    → NoNul p
    → length p < fuel
    → print_lines fuel pattern p ≡ (matching pattern (lines_of p).0, (lines_of p).1)
unfolding print_lines
print_lines-matching zero pattern p text h = absurd (omega (arith, h))
print_lines-matching (suc fuel) pattern p text h = elim (Option-cases (take_line p)) [
  | inl e ↦ ground (arith, e, take_line-none p text e)
  | inr ((line, rest), e) ↦
      let (same, shorter, rest_NoNul) = take_line-some p text e in
      ground (
        arith,
        e,
        same,
        print_lines-matching fuel pattern rest rest_NoNul (omega (arith, h, shorter)),
      )
]

lines_of-append :
    (a b : List ℕ)
    → lines_of (a ++ b)
      ≡ ((lines_of a).0 ++ (lines_of ((lines_of a).1 ++ b)).0, (lines_of ((lines_of a).1 ++ b)).1)
unfolding lines_of
lines_of-append [] b = refl
lines_of-append (c ∷ a) b = elim (Bool-cases (c == newline)) [
  | inl e ↦ ground (arith, e, lines_of-append a b)
  | inr e ↦ ground (arith, e, lines_of-append a b)
]

length-lines_of : (p : List ℕ) → length (lines_of p).1 + length (lines_of p).0 ≤ length p
unfolding lines_of
length-lines_of [] = omega arith
length-lines_of (c ∷ p) = elim (Bool-cases (c == newline)) [
  | inl e ↦ ground (arith, e, length-lines_of p)
  | inr e ↦ ground (arith, e, length-lines_of p)
]

matching-append :
    (pattern : List ℕ) (a b : List (List ℕ))
    → matching pattern (a ++ b) ≡ matching pattern a ++ matching pattern b
matching-append pattern [] b = refl
matching-append pattern (line ∷ a) b =
    ap (◌++◌ (if match pattern line then line ++ newline ∷ [] else []))
      (matching-append pattern a b)
    ∙ sym (append_assoc (if match pattern line then line ++ newline ∷ [] else []) _ _)

NoNul-append : (a b : List ℕ) → NoNul a → NoNul b → NoNul (a ++ b)
NoNul-append [] b h g = g
NoNul-append (c ∷ a) b (pos, h) g = (pos, NoNul-append a b h g)

push_char-NoNul :
    (c : ℕ) (lines : List (List ℕ)) (last : List ℕ)
    → 0 < c
    → NoNul last
    → NoNul (push_char c lines last).1
push_char-NoNul c [] last pos h = (pos, h)
push_char-NoNul c (line ∷ lines) last pos h = h

NoNul-lines_of : (p : List ℕ) → NoNul p → NoNul (lines_of p).1
unfolding lines_of
NoNul-lines_of [] h = tt
NoNul-lines_of (c ∷ p) (pos, h) = elim (Bool-cases (c == newline)) [
  | inl e ↦ rw e (NoNul-lines_of p h)
  | inr e ↦ rw e (push_char-NoNul c (lines_of p).0 (lines_of p).1 pos (NoNul-lines_of p h))
]

-- Each call of read returns a whole piece, which ends a line, fits behind the bytes
-- held and has no NUL.
abbrev pub Fits : List ℕ → List (List ℕ) → Type 0
Fits held [] = Unit
Fits held (piece ∷ pieces) =
    NoNul piece
    × (0 < length piece)
    × (length held + length piece < buf_size)
    × (0 < length (lines_of (held ++ piece)).0)
    × Fits (lines_of (held ++ piece)).1 pieces

abbrev pub concat : List (List ℕ) → List ℕ
concat [] = []
concat (piece ∷ pieces) = piece ++ concat pieces

lines_of-rest : (p : List ℕ) → lines_of (lines_of p).1 ≡ ([], (lines_of p).1)
unfolding lines_of
lines_of-rest [] = refl
lines_of-rest (c ∷ p) = elim (Bool-cases (c == newline)) [
  | inl e ↦ ground (arith, e, lines_of-rest p)
  | inr e ↦ ground (arith, e, lines_of-rest p)
]

read_whole :
    (n : ℕ) (piece : List ℕ) (pieces : List (List ℕ))
    → length piece ≤ n
    → read n (piece ∷ pieces) ≡ (piece, pieces)
unfolding read
read_whole n piece pieces h = ground (arith, h)

-- One turn of the outer loop, when the piece read ends a line.
grep-piece :
    (fuel : ℕ) (pattern held piece : List ℕ) (pieces : List (List ℕ))
    → NoNul (held ++ piece)
    → 0 < length piece
    → length held + length piece < buf_size
    → 0 < length (lines_of (held ++ piece)).0
    → grep (suc fuel) pattern held (piece ∷ pieces)
      ≡ matching pattern (lines_of (held ++ piece)).0
        ++ grep fuel pattern (lines_of (held ++ piece)).1 pieces
unfolding grep
grep-piece fuel pattern held piece pieces text some_bytes room ends =
    let whole = read_whole (buf_size - length held - 1) piece pieces (omega (arith, room)) in
    let printed =
      print_lines-matching (length (held ++ piece) + 1) pattern (held ++ piece) text
        (omega arith) in
    ground (arith, some_bytes, ends, whole, printed, length-lines_of (held ++ piece))

grep-end : (fuel : ℕ) (pattern held : List ℕ) → grep (suc fuel) pattern held [] ≡ []
unfolding grep read
grep-end fuel pattern held = refl

grep-held :
    (fuel : ℕ) (pattern held : List ℕ) (pieces : List (List ℕ))
    → length pieces < fuel
    → NoNul held
    → lines_of held ≡ ([], held)
    → Fits held pieces
    → grep fuel pattern held pieces ≡ matching pattern (lines_of (held ++ concat pieces)).0
grep-held zero pattern held pieces h clean e fits = absurd (omega (arith, h))
grep-held (suc fuel) pattern held [] h clean e fits =
    grep-end fuel pattern held
    ∙ ap (λ x. matching pattern x.0) (sym e ∙ ap lines_of (sym (append-nil held)))
grep-held (suc fuel) pattern held (piece ∷ pieces) h clean e fits =
    let (piece_NoNul, some_bytes, room, ends, later) = fits in
    let (lines, last) = lines_of (held ++ piece) in
    let text = NoNul-append held piece clean piece_NoNul in
    let more =
      grep-held fuel pattern last pieces (omega (arith, h)) (NoNul-lines_of (held ++ piece) text)
        (lines_of-rest (held ++ piece)) later in
    grep-piece fuel pattern held piece pieces text some_bytes room ends
    ∙ ap (◌++◌ (matching pattern lines)) more
    ∙ sym (matching-append pattern lines (lines_of (last ++ concat pieces)).0)
    ∙ ap (λ x. matching pattern x.0)
        (sym (lines_of-append (held ++ piece) (concat pieces))
          ∙ ap lines_of (append_assoc held piece (concat pieces)))

-- When each read returns a piece of the file that is not empty, has no NUL, ends a line that is
-- being read, and is shorter than the buffer together with the part of a line held: grep writes
-- the lines of the whole file that match, each with its newline, in their order; the fuel is more
-- than the number of pieces.
pub grep_lem :
    (fuel : ℕ) (pattern : List ℕ) (pieces : List (List ℕ))
    → length pieces < fuel
    → Fits [] pieces
    → grep fuel pattern [] pieces ≡ matching pattern (lines_of (concat pieces)).0
unfolding lines_of
grep_lem fuel pattern pieces h fits = grep-held fuel pattern [] pieces h tt refl fits
