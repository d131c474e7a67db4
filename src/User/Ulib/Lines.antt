-- ===== src/User/Ulib/Lines.antt =====
-- lab3/xv6-public/ulib.c: gets and strcmp.
use cs.Prelude.{
  ℕ, zero, suc, ◌-◌, ◌≤◌, ◌<◌, ◌≡◌, ◌↔◌, ◌⊎◌, ◌∙◌, refl, sym, ap, arith, Bool, true, false, ◌||◌,
  List, [], ◌∷◌, ◌++◌, ◌==◌, length, Bool-cases, inl, inr,
}
use cs.Prelude.Int.{pos}
use cs.User.Ulib.{gets_loop, gets, strcmp}

-- A newline or a carriage return.
abbrev pub is_break : ℕ → Bool
is_break c = (c == 10) || (c == 13)

abbrev pub breaks_at_end : List ℕ → Bool
breaks_at_end [] = false
breaks_at_end (c ∷ []) = is_break c
breaks_at_end (c ∷ d ∷ s) = breaks_at_end (d ∷ s)

-- No character but the last is a newline or a carriage return.
abbrev pub OneLine : List ℕ → Type 0
OneLine [] = Unit {0}
OneLine (c ∷ []) = Unit {0}
OneLine (c ∷ d ∷ s) = (is_break c ≡ false) × OneLine (d ∷ s)

OneLine-cons : (c : ℕ) (s : List ℕ) → is_break c ≡ false → OneLine s → OneLine (c ∷ s)
OneLine-cons c [] h o = tt
OneLine-cons c (d ∷ s) h o = (h, o)

pub record IsLineRead (room : ℕ) (input buf rest : List ℕ) : Type 0 where
  pub whole : buf ++ rest ≡ input
  pub fits : length buf ≤ room
  pub line : OneLine buf
  pub why : (length buf ≡ room) ⊎ ((rest ≡ []) ⊎ (breaks_at_end buf ≡ true))

cons_why :
    (room c : ℕ) (buf rest : List ℕ)
    → (length buf ≡ room) ⊎ ((rest ≡ []) ⊎ (breaks_at_end buf ≡ true))
    → (length (c ∷ buf) ≡ suc room) ⊎ ((rest ≡ []) ⊎ (breaks_at_end (c ∷ buf) ≡ true))
cons_why room c buf rest (inl full) = inl (omega (arith, full))
cons_why room c buf rest (inr (inl over)) = inr (inl over)
cons_why room c [] rest (inr (inr broken)) = absurd (ground (arith, broken))
cons_why room c (d ∷ buf) rest (inr (inr broken)) = inr (inr broken)

gets_loop-IsLineRead :
    (room : ℕ) (input : List ℕ)
    → IsLineRead room input (gets_loop room input).0 (gets_loop room input).1
unfolding gets_loop
gets_loop-IsLineRead zero input = record {
  whole = refl;
  fits = omega arith;
  line = tt;
  why = inl refl;
}
gets_loop-IsLineRead (suc room) [] = record {
  whole = refl;
  fits = omega arith;
  line = tt;
  why = inr (inl refl);
}
gets_loop-IsLineRead (suc room) (c ∷ input) = elim (Bool-cases (is_break c)) [
  | inl broken ↦
      rw broken (record { whole = refl; fits = omega arith; line = tt; why = inr (inr broken) })
  | inr more ↦
      let x = gets_loop-IsLineRead room input in
      rw more (record {
        whole = ap (◌∷◌ c) x.whole;
        fits = omega (arith, x.fits);
        line = OneLine-cons c (gets_loop room input).0 more x.line;
        why = cons_why room c (gets_loop room input).0 (gets_loop room input).1 x.why;
      })
]

-- gets reads a line of fewer than `max` characters: it stops behind the first newline or carriage
-- return, at the end of the input, or where the buffer is full, and leaves the rest.
pub gets-IsLineRead :
    (max : ℕ) (input : List ℕ) → IsLineRead (max - 1) input (gets max input).0 (gets max input).1
unfolding gets
gets-IsLineRead max input = gets_loop-IsLineRead (max - 1) input

abbrev pub NoNul : List ℕ → Type 0
NoNul [] = Unit {0}
NoNul (c ∷ s) = (0 < c) × NoNul s

same_text : (p q : List ℕ) → NoNul p → NoNul q → strcmp p q ≡ pos 0 → p ≡ q
unfolding strcmp
same_text [] [] hp hq e = refl
same_text [] (b ∷ q) hp (hb, hq) e = absurd (ground (arith, e, hb))
same_text (a ∷ p) [] (ha, hp) hq e = absurd (ground (arith, e, ha))
same_text (a ∷ p) (b ∷ q) (ha, hp) (hb, hq) e = elim (Bool-cases (a == b)) [
  | inl same ↦ ground (arith, same, same_text p q hp hq (ground (arith, e, same)))
  | inr other ↦ absurd (ground (arith, e, other))
]

strcmp_self : (p : List ℕ) → strcmp p p ≡ pos 0
unfolding strcmp
strcmp_self [] = refl
strcmp_self (a ∷ p) = ground (arith, strcmp_self p)

-- strcmp of two texts without NUL is 0 exactly where they are the same.
pub strcmp_iff : (p q : List ℕ) → NoNul p → NoNul q → (strcmp p q ≡ pos 0) ↔ (p ≡ q)
strcmp_iff p q hp hq = (same_text p q hp hq, λ e. ap (strcmp p) (sym e) ∙ strcmp_self p)
