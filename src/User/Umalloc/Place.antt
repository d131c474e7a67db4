-- ===== src/User/Umalloc/Place.antt =====
-- lab3/xv6-public/umalloc.c: the free list in the order of addresses, and the place of a block in it.
use cs.Prelude.{
  ℕ, zero, suc, ◌+◌, ◌≤◌, ◌<◌, ◌≡◌, ◌⊎◌, ◌∙◌, refl, ap, arith, Bool, false, ◌&&◌, ◌||◌, Option,
  List, [], ◌∷◌, ltb, leb, length, inl, inr,
}
use cs.User.Umalloc.{Arena, find_place}

-- The blocks after `p`, each behind the end of the one before, and where the last one points.
abbrev pub Chain : Arena → ℕ → List ℕ → ℕ → Type 0
Chain a p [] to = a.ptr p ≡ to
Chain a p (x ∷ xs) to =
    (a.ptr p ≡ x) × (p < x) × (p + a.size p ≤ x) × (0 < a.size x) × Chain a x xs to

abbrev pub Among : ℕ → List ℕ → Type 0
Among f [] = ⊥
Among f (x ∷ xs) = (f ≡ x) ⊎ Among f xs

-- `n` units at `bp` overlap no block.
abbrev pub Apart : Arena → ℕ → ℕ → List ℕ → Type 0
Apart a bp n [] = Unit {0}
Apart a bp n (x ∷ xs) = ((x + a.size x ≤ bp) ⊎ (bp + n ≤ x)) × Apart a bp n xs

-- Whether the unit `u` is in one of the blocks.
abbrev pub inside : ℕ → ℕ → ℕ → Bool
inside p n u = leb p u && ltb u (p + n)

abbrev pub covered : Arena → List ℕ → ℕ → Bool
covered a [] u = false
covered a (x ∷ xs) u = inside x (a.size x) u || covered a xs u

-- Past a block that is not the place.
abbrev pub Goes : Arena → ℕ → ℕ → ℕ → Type 0
Goes a bp p q = (a.ptr p ≡ q) × (((p < q) × (q ≤ bp)) ⊎ ((p < q) × (bp < p)))

pub find_place-next :
    (fuel : ℕ) (a : Arena) (bp p q : ℕ)
    → Goes a bp p q
    → find_place (suc fuel) a bp p ≡ find_place fuel a bp q
unfolding find_place
find_place-next fuel a bp p q (e, inl (up, le)) = ground (arith, e, up, le)
find_place-next fuel a bp p q (e, inr (up, lt)) = ground (arith, e, up, lt)

pub find_place-last :
    (fuel : ℕ) (a : Arena) (bp p : ℕ)
    → a.ptr p < bp
    → a.ptr p ≤ p
    → bp < p
    → find_place (suc fuel) a bp p ≡ find_place fuel a bp (a.ptr p)
unfolding find_place
find_place-last fuel a bp p below up lt = ground (arith, below, up, lt)

pub Chain-Among :
    (a : Arena) (p : ℕ) (xs : List ℕ) (to f : ℕ) → Chain a p xs to → Among f xs → p < f
Chain-Among a p [] to f c m = absurd m
Chain-Among a p (x ∷ xs) to f (e, up, _, _, c) (inl here) = omega (arith, up, here)
Chain-Among a p (x ∷ xs) to f (e, up, _, _, c) (inr later) =
    omega (arith, up, Chain-Among a x xs to f c later)

-- From a block above `bp` the loop comes to the end of the list and round to its start.
pub find_place-round :
    (a : Arena) (bp p f : ℕ) (xs : List ℕ) (base N : ℕ) (r : Option ℕ)
    → Chain a p xs base
    → base ≤ p
    → base < bp
    → Among f (p ∷ xs)
    → bp < f
    → ((fuel : ℕ) → N ≤ fuel → find_place fuel a bp base ≡ r)
    → (fuel : ℕ) → N + length xs + 1 ≤ fuel
    → find_place fuel a bp f ≡ r
find_place-round a bp p f [] base N r c low above (inl here) lt h zero enough =
    absurd (omega (arith, enough))
find_place-round a bp p f [] base N r c low above (inl here) lt h (suc fuel) enough = rw here (
    find_place-last fuel a bp p (omega (arith, c, above)) (omega (arith, c, low))
      (omega (arith, lt, here))
    ∙ ap (find_place fuel a bp) c
    ∙ h fuel (omega (arith, enough)))
find_place-round a bp p f [] base N r c low above (inr m) lt h fuel enough = absurd m
find_place-round a bp p f (x ∷ xs) base N r c low above m lt h zero enough =
    absurd (omega (arith, enough))
find_place-round a bp p f (x ∷ xs) base N r (e, up, apart, pos, c) low above (inl here) lt h
      (suc fuel) enough =
    rw here (
      find_place-next fuel a bp p x (e, inr (up, omega (arith, lt, here)))
      ∙ find_place-round a bp x x xs base N r c (omega (arith, low, up)) above (inl refl)
          (omega (arith, lt, up, here)) h fuel (omega (arith, enough)))
find_place-round a bp p f (x ∷ xs) base N r (e, up, apart, pos, c) low above (inr later) lt h
      (suc fuel) enough =
    find_place-round a bp x f xs base N r c (omega (arith, low, up)) above later lt h (suc fuel)
      (omega (arith, enough))
