-- ===== src/User/Umalloc/Same.antt =====
-- lab3/xv6-public/umalloc.c: a part of the free list that is not written to.
use cs.Prelude.{ℕ, ◌+◌, ◌≤◌, ◌<◌, ◌≡◌, ◌∙◌, refl, ap₂, arith, ◌||◌, List, [], ◌∷◌}
use cs.User.Umalloc.{Arena}
use cs.User.Umalloc.Place.{Chain, inside, covered}

-- The headers behind the block `x` are as they were.
abbrev pub SameAbove : ℕ → Arena → Arena → Type 0
SameAbove x a a' =
    (k : ℕ) → x < k → x + a.size x ≤ k → (a'.ptr k ≡ a.ptr k) × (a'.size k ≡ a.size k)

pub Chain-from :
    (a a' : Arena) (x p : ℕ) (xs : List ℕ) (to : ℕ)
    → Chain a x xs to
    → a'.ptr p ≡ a.ptr x
    → p ≤ x
    → p + a'.size p ≤ x + a.size x
    → SameAbove x a a'
    → Chain a' p xs to
Chain-from a a' x p [] to c e le le' same = e ∙ c
Chain-from a a' x p (y ∷ ys) to (e', up, apart, pos, c) e le le' same =
    let (same_ptr, same_size) = same y up apart in
    (
      e ∙ e',
      omega (arith, le, up),
      omega (arith, le', apart),
      omega (arith, same_size, pos),
      Chain-from a a' y y ys to c same_ptr (omega arith) (omega (arith, same_size))
          (λ k lt le. same k (omega (arith, lt, up)) (omega (arith, apart, lt))),
    )

pub covered-same :
    (a a' : Arena) (x : ℕ) (xs : List ℕ) (to u : ℕ)
    → Chain a x xs to
    → SameAbove x a a'
    → covered a' xs u ≡ covered a xs u
covered-same a a' x [] to u c same = refl
covered-same a a' x (y ∷ ys) to u (e, up, apart, pos, c) same =
    let (same_ptr, same_size) = same y up apart in
    ap₂ (λ n b. inside y n u || b) same_size
      (covered-same a a' y ys to u c
        (λ k lt le. same k (omega (arith, lt, up)) (omega (arith, apart, lt))))
