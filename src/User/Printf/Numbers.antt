-- ===== src/User/Printf/Numbers.antt =====
-- lab3/xv6-public/printf.c and ulib.c: numbers printed in decimal, and read back.
use cs.Prelude.{
  ℕ, zero, suc, ◌+◌, ◌-◌, ◌*◌, ◌/◌, ◌%◌, ◌^◌, ◌≤◌, ◌<◌, ◌≡◌, ◌⊎◌, refl, arith, Bool, true, false,
  List, [], ◌∷◌, ◌++◌, ◌==◌, get_or, length, length-append, Bool-cases, inl, inr,
}
use native.Mathlib.Numerals.{unary_clauses}
use native.Mathlib.Nat.{div-lt_iff_lt-mul, pow-suc, mul-le-mul_left}
use cs.User.Ulib.{is_digit, atoi_from, atoi}
use cs.User.Printf.{digits, put_digits, backwards, is_negative, int_buf, printint}

digit_lem : (d : ℕ) → d < 10 → get_or digits d 0 ≡ b'0' + d
digit_lem zero h = refl
digit_lem (suc zero) h = refl
digit_lem (suc (suc zero)) h = refl
digit_lem (suc (suc (suc zero))) h = refl
digit_lem (suc (suc (suc (suc zero)))) h = refl
digit_lem (suc (suc (suc (suc (suc zero))))) h = refl
digit_lem (suc (suc (suc (suc (suc (suc zero)))))) h = refl
digit_lem (suc (suc (suc (suc (suc (suc (suc zero))))))) h = refl
digit_lem (suc (suc (suc (suc (suc (suc (suc (suc zero)))))))) h = refl
digit_lem (suc (suc (suc (suc (suc (suc (suc (suc (suc zero))))))))) h = refl
digit_lem (suc (suc (suc (suc (suc (suc (suc (suc (suc (suc d)))))))))) h =
    absurd (omega (arith, h))

abbrev pub AllDigits : List ℕ → Type 0
AllDigits [] = Unit {0}
AllDigits (c ∷ s) = (is_digit c ≡ true) × AllDigits s

AllDigits-append : (s t : List ℕ) → AllDigits s → AllDigits t → AllDigits (s ++ t)
AllDigits-append [] t h g = g
AllDigits-append (c ∷ s) t (d, h) g = (d, AllDigits-append s t h g)

put_digits-AllDigits : (fuel x : ℕ) → AllDigits (backwards (put_digits fuel 10 x))
unfolding put_digits backwards
put_digits-AllDigits zero x = tt
put_digits-AllDigits (suc fuel) x =
    let low : x % 10 < 10 = omega arith in
    let digit : is_digit (get_or digits (x % 10) 0) ≡ true =
      ground (arith, digit_lem (x % 10) low, low) in
    elim (Bool-cases (x / 10 == 0)) [
      | inl last ↦ ground (arith, last, digit)
      | inr more ↦ rw more (
          AllDigits-append (backwards (put_digits fuel 10 (x / 10))) _
            (put_digits-AllDigits fuel (x / 10)) (digit, tt))
    ]

atoi_from-append :
    (n : ℕ) (s t : List ℕ) → AllDigits s → atoi_from n (s ++ t) ≡ atoi_from (atoi_from n s) t
unfolding atoi_from
atoi_from-append n [] t h = refl
atoi_from-append n (c ∷ s) t (d, h) =
    ground (arith, d, atoi_from-append ((n * 10 + c - b'0') % 2 ^ 32) s t h)

-- The digits of a number below 2^32, read back.
atoi_from-put_digits :
    (fuel x : ℕ) → x < 10 ^ fuel → x < 2 ^ 32 → atoi_from 0 (backwards (put_digits fuel 10 x)) ≡ x
unfolding atoi_from put_digits backwards
atoi_from-put_digits zero x enough small = omega (arith, enough)
atoi_from-put_digits (suc fuel) x enough small =
    let low : x % 10 < 10 = omega arith in
    let few : x < 10 ^ fuel * 10 = simp unary_clauses at enough in
    let rest = atoi_from-put_digits fuel (x / 10) (omega (arith, few)) (omega (arith, small)) in
    let digit = digit_lem (x % 10) low in
    elim (Bool-cases (x / 10 == 0)) [
      | inl last ↦ ground (arith, last, digit, small)
      | inr more ↦
          let front = put_digits-AllDigits fuel (x / 10) in
          let split =
            atoi_from-append 0 (backwards (put_digits fuel 10 (x / 10)))
              (get_or digits (x % 10) 0 ∷ []) front in
          rw (more, split, rest) (ground (arith, digit, small))
    ]

backwards-last : (buf : List ℕ) (c : ℕ) → backwards (buf ++ c ∷ []) ≡ c ∷ backwards buf
unfolding backwards
backwards-last [] c = refl
backwards-last (b ∷ buf) c = rw (backwards-last buf c) refl

-- For 32 bits that are not negative as an int, atoi of what printint prints in base 10 is the
-- number. For negative ones a minus sign comes first, and atoi of the rest is the number's
-- absolute value.
pub atoi-printint :
    (xx : ℕ)
    → xx < 2 ^ 32
    → (is_negative true xx ≡ false) × (atoi (printint xx 10 true) ≡ xx)
      ⊎ (is_negative true xx ≡ true)
        × (s : List ℕ) × (printint xx 10 true ≡ b'-' ∷ s)
        × (atoi s + xx ≡ 2 ^ 32)
unfolding printint int_buf atoi
atoi-printint xx h = elim (Bool-cases (is_negative true xx)) [
  | inr plus ↦ inl (plus, ground (arith, plus, atoi_from-put_digits 32 xx (omega (arith, h)) h))
  | inl minus ↦
      let x = (2 ^ 32 - xx) % 2 ^ 32 in
      let small : x < 2 ^ 32 = omega arith in
      let back = atoi_from-put_digits 32 x (omega (arith, small)) small in
      inr (
        minus,
        backwards (put_digits 32 10 x),
        rw minus (backwards-last (put_digits 32 10 x) b'-'),
        ground (arith, minus, h, back),
      )
]

-- A division by ten at least takes a digit.
div_lt : (x base p : ℕ) → 10 ≤ base → x < p * 10 → x / base < p
div_lt x base p wide small =
    (div-lt_iff_lt-mul (omega (arith, wide))).1 (omega (arith, small, mul-le-mul_left p wide))

length-put_digits :
    (fuel base x k : ℕ) → 10 ≤ base → x < 10 ^ suc k → length (put_digits fuel base x) ≤ suc k
unfolding put_digits
length-put_digits zero base x k wide small = omega arith
length-put_digits (suc fuel) base x zero wide small =
    let last : x / base < 1 = div_lt x base 1 wide (omega (arith, small)) in ground (arith, last)
length-put_digits (suc fuel) base x (suc k) wide small =
    let few : x < 10 ^ suc k * 10 = rw (pow-suc 10 (suc k)) at small in
    let rest =
      length-put_digits fuel base (x / base) k wide (div_lt x base (10 ^ suc k) wide few) in
    ground (arith, rest)

-- For any 32 bits and a base of 10 at least, printint puts at most 11 characters, the sign
-- included, into its buffer of 16.
pub length-int_buf :
    (xx base : ℕ) (sgn : Bool) → xx < 2 ^ 32 → 10 ≤ base → length (int_buf xx base sgn) ≤ 11
unfolding int_buf
length-int_buf xx base sgn h wide = elim (Bool-cases (is_negative sgn xx)) [
  | inl minus ↦ ground (
    arith,
    minus,
    length-put_digits 32 base ((2 ^ 32 - xx) % 2 ^ 32) 9 wide (omega arith),
    length-append (put_digits 32 base ((2 ^ 32 - xx) % 2 ^ 32)) (b'-' ∷ []),
  )
  | inr plus ↦ ground (arith, plus, length-put_digits 32 base xx 9 wide (omega (arith, h)))
]
