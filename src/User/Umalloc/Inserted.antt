-- ===== src/User/Umalloc/Inserted.antt =====
-- lab3/xv6-public/umalloc.c: what it means that a block is put into the free list.
use cs.Prelude.{
  ℕ, zero, suc, ◌≤◌, ◌<◌, ◌≡◌, ◌⊎◌, refl, arith, ◌||◌, some, List, ◌∷◌, length, inl, inr,
}
use cs.User.Umalloc.{Arena, find_place, insert_at}
use cs.User.Umalloc.Same.{SameAbove}
use cs.User.Umalloc.Place.{Chain, Among, inside, covered}

pub insert_at-SameAbove : (a : Arena) (bp p : ℕ) → p < bp → SameAbove bp a (insert_at a bp p)
unfolding insert_at
insert_at-SameAbove a bp p lt k lt' le = (ground (arith, lt, lt'), ground (arith, lt, lt'))

-- The list from `p` on, with the block `bp` in it.
pub record Inserted (a : Arena) (bp p : ℕ) (xs : List ℕ) (to : ℕ) : Type 0 where
  pub place : ℕ
  pub ys : List ℕ
  pub found :
      (f : ℕ)
      → Among f (p ∷ xs)
      → f < bp
      → (fuel : ℕ) → length xs < fuel
      → find_place fuel a bp f ≡ some place
  pub after : p ≤ place
  pub before : place < bp
  pub chain : Chain (insert_at a bp place) p ys to
  pub there : Among place (p ∷ ys)
  pub count : length ys ≤ suc (length xs)
  pub holder : ℕ
  pub held : Among holder (p ∷ ys)
  pub holds : a.size bp ≤ (insert_at a bp place).size holder
  pub units :
      (u : ℕ)
      → covered (insert_at a bp place) (p ∷ ys) u
        ≡ (covered a (p ∷ xs) u || inside bp (a.size bp) u)

find_place-here :
    (fuel : ℕ) (a : Arena) (bp p : ℕ)
    → p < bp
    → (bp < a.ptr p) ⊎ (a.ptr p ≤ p)
    → find_place (suc fuel) a bp p ≡ some p
unfolding find_place
find_place-here fuel a bp p lt (inl up) = ground (arith, lt, up)
find_place-here fuel a bp p lt (inr last) = ground (arith, lt, last)

pub found_here :
    (a : Arena) (bp p : ℕ) (xs : List ℕ)
    → p < bp
    → (bp < a.ptr p) ⊎ (a.ptr p ≤ p)
    → ((f : ℕ) → Among f xs → bp < f)
    → (f : ℕ) → Among f (p ∷ xs)
    → f < bp
    → (fuel : ℕ) → length xs < fuel
    → find_place fuel a bp f ≡ some p
found_here a bp p xs lt stop above f m lt' zero enough = absurd (omega (arith, enough))
found_here a bp p xs lt stop above f (inl e) lt' (suc fuel) enough =
    rw e (find_place-here fuel a bp p lt stop)
found_here a bp p xs lt stop above f (inr m) lt' (suc fuel) enough =
    absurd (omega (arith, above f m, lt'))

pub put_here :
    (a : Arena) (bp p : ℕ) (xs : List ℕ) (to : ℕ) (ys : List ℕ) (holder : ℕ)
    → p < bp
    → ((f : ℕ)
        → Among f (p ∷ xs)
        → f < bp
        → (fuel : ℕ) → length xs < fuel
        → find_place fuel a bp f ≡ some p)
    → Chain (insert_at a bp p) p ys to
    → length ys ≤ suc (length xs)
    → Among holder (p ∷ ys)
    → a.size bp ≤ (insert_at a bp p).size holder
    → ((u : ℕ)
        → covered (insert_at a bp p) (p ∷ ys) u ≡ (covered a (p ∷ xs) u || inside bp (a.size bp) u))
    → Inserted a bp p xs to
put_here a bp p xs to ys holder lt found chain count held holds units = record {
  place = p;
  ys = ys;
  found = found;
  after = omega arith;
  before = lt;
  chain = chain;
  there = inl refl;
  count = count;
  holder = holder;
  held = held;
  holds = holds;
  units = units;
}
