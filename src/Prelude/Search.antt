-- ===== src/Prelude/Search.antt =====
-- Search loops: the first index at which a test holds.
use cs.Prelude.{
  ℕ, zero, suc, ◌+◌, ◌≤◌, ◌<◌, ◌≡◌, ◌∙◌, ap, refl, arith, Bool, true, Option, none, some,
  if◌then◌else◌, ◌≢◌, ◌==◌, inl, inr, Bool-cases,
}

-- `for (i = 0; i < n; i++) if (test (i)) break;` from `i`, with `n` rounds left; `none` where the
-- loop ends with `i == n`.
unfoldable pub search_from : ℕ → ℕ → (ℕ → Bool) → Option ℕ
search_from zero i test = none
search_from (suc n) i test =
    let rest = search_from n (i + 1) test in if test i then some i else rest

abbrev pub or_else : Option ℕ → Option ℕ → Option ℕ
or_else (some a) b = some a
or_else none b = b

-- A search over one more entry, where the tests of the earlier ones agree.
search_from-suc :
    (n i : ℕ) (p q : ℕ → Bool)
    → ((j : ℕ) → i ≤ j → j < i + n → q j ≡ p j)
    → search_from (suc n) i q
      ≡ or_else (search_from n i p) (if q (i + n) then some (i + n) else none)
unfolding search_from
search_from-suc zero i p q h = let e : i + 0 ≡ i = omega arith in rw e refl
search_from-suc (suc n) i p q h =
    let e : i + 1 + n ≡ i + suc n = omega arith in
    let ih = search_from-suc n (i + 1) p q (λ j a b. h j (omega arith) (omega arith)) in
    ground (arith, h i (omega arith) (omega arith), rw e at ih)

pub search_from-last :
    (n : ℕ) (p q : ℕ → Bool)
    → ((j : ℕ) → j < n → q j ≡ p j)
    → search_from (suc n) 0 q ≡ or_else (search_from n 0 p) (if q n then some n else none)
search_from-last n p q h =
    search_from-suc n 0 p q (λ j a b. h j (omega arith))
    ∙ ap (λ k. or_else (search_from n 0 p) (if q k then some k else none)) (omega arith)

pub search_from-lt :
    (n i : ℕ) (p : ℕ → Bool) {r : ℕ}
    → search_from n i p ≡ some r
    → (i ≤ r) × (r < i + n) × (p r ≡ true)
unfolding search_from
search_from-lt zero i p h = absurd (ground arith)
search_from-lt (suc n) i p {r} h = ground (arith, search_from-lt n (i + 1) p {r = r})

pub search_from-congr :
    (n i : ℕ) (p q : ℕ → Bool)
    → ((j : ℕ) → i ≤ j → j < i + n → p j ≡ q j)
    → search_from n i p ≡ search_from n i q
unfolding search_from
search_from-congr zero i p q h = refl
search_from-congr (suc n) i p q h = ground (
  arith,
  h i (omega arith) (omega arith),
  search_from-congr n (i + 1) p q (λ j a b. h j (omega arith) (omega arith)),
)

pub search_from-none :
    (n i : ℕ) (p : ℕ → Bool) (j : ℕ) → search_from n i p ≡ none → i ≤ j → j < i + n → p j ≢ true
unfolding search_from
search_from-none zero i p j h lo hi = absurd (omega arith)
search_from-none (suc n) i p j h lo hi = elim (Bool-cases (j == i)) [
  | inl here ↦ λ e. let e' : j ≡ i = ground arith in ground (arith, rw e' at e)
  | inr later ↦ search_from-none n (i + 1) p j (ground arith) (ground arith) (omega arith)
]
