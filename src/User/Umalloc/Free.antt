-- ===== src/User/Umalloc/Free.antt =====
-- lab3/xv6-public/umalloc.c: what free does to the free list.
use cs.Prelude.{
  ℕ, suc, ◌+◌, ◌-◌, ◌*◌, ◌≤◌, ◌<◌, ◌≡◌, ◌≢◌, refl, ap, arith, ◌||◌, some, List, [], ◌∷◌, ltb,
  length, Bool-cases, inl, inr,
}
use cs.User.Umalloc.{Arena, find_place, insert_at, free}
use cs.User.Umalloc.Insert.{insert_forward}
use cs.User.Umalloc.Place.{Chain, Among, Apart, inside, covered, find_place-round}

-- A circular list from the header `base`, which has no units of its own, and `freep` in it.
pub record IsFreeList (base : ℕ) (a : Arena) (xs : List ℕ) : Type 0 where
  pub chain : Chain a base xs base
  pub empty : a.size base ≡ 0
  pub start : Among a.freep (base ∷ xs)

insert_at-empty :
    (a : Arena) (bp p base : ℕ)
    → p < bp
    → base < bp
    → a.size base ≡ 0
    → (insert_at a bp p).size base ≡ 0
unfolding insert_at
insert_at-empty a bp p base lt lt' e = ground (arith, lt, lt', e)

insert_at-brk : (a : Arena) (bp p : ℕ) → (insert_at a bp p).brk ≡ a.brk
unfolding insert_at
insert_at-brk a bp p = ground arith

insert_at-freep :
    (a : Arena) (bp p : ℕ) (xs : List ℕ) → Among p xs → Among (insert_at a bp p).freep xs
unfolding insert_at
insert_at-freep a bp p xs m = m

Apart-Among :
    (a : Arena) (bp n p : ℕ) (xs : List ℕ) (to f : ℕ)
    → Chain a p xs to
    → 0 < n
    → Apart a bp n xs
    → Among f xs
    → f ≢ bp
Apart-Among a bp n p [] to f c pos apart m = absurd m
Apart-Among a bp n p (x ∷ xs) to f (e, up, le, some_x, c) pos (inl under, apart) (inl here) =
    omega (arith, here, under, some_x)
Apart-Among a bp n p (x ∷ xs) to f (e, up, le, some_x, c) pos (inr over, apart) (inl here) =
    omega (arith, here, over, pos)
Apart-Among a bp n p (x ∷ xs) to f (e, up, le, some_x, c) pos (first, apart) (inr m) =
    Apart-Among a bp n x xs to f c pos apart m

holder_Among :
    (a : Arena) (n base k : ℕ) (ys : List ℕ)
    → a.size base ≡ 0
    → 0 < n
    → n ≤ a.size k
    → Among k (base ∷ ys)
    → (j : ℕ) × Among j ys × (n ≤ a.size j)
holder_Among a n base k ys empty pos le (inl e) =
    absurd (let at : a.size k ≡ a.size base = ap a.size e in omega (arith, at, empty, pos, le))
holder_Among a n base k ys empty pos le (inr m) = (k, m, le)

-- On a free list that is circular, in the order of addresses and without overlaps: free of a
-- block above its start, of one unit at least, that overlaps no free block, finds its place with
-- fuel of 2 for each free block and 2 more. The list stays circular, ordered and without
-- overlaps, with one block more at most, the memory ends where it did, a block of the list is at
-- least as large as the one freed, and exactly the units of that block are free in addition.
pub free-IsFreeList :
    (base fuel bp : ℕ) (a : Arena) (xs : List ℕ)
    → IsFreeList base a xs
    → base < bp
    → 0 < a.size bp
    → Apart a bp (a.size bp) xs
    → 2 * length xs + 2 ≤ fuel
    → (a' : Arena) × (ys : List ℕ) × (free fuel a (bp + 1) ≡ some a')
      × IsFreeList base a' ys
      × (a'.brk ≡ a.brk)
      × (length ys ≤ suc (length xs))
      × ((k : ℕ) × Among k ys × (a.size bp ≤ a'.size k))
      × ((u : ℕ) → covered a' ys u ≡ (covered a xs u || inside bp (a.size bp) u))
unfolding free
free-IsFreeList base fuel bp a xs l lt pos apart enough =
    let i =
      insert_forward a bp base xs base l.chain (omega arith) lt (omega (arith, lt, l.empty)) pos
        apart in
    let differs : (f : ℕ) → Among f (base ∷ xs) → bp ≤ f → bp < f = λ f m le. elim m [
      | inl here ↦ absurd (omega (arith, here, le, lt))
      | inr later ↦
          omega (arith, le, Apart-Among a bp (a.size bp) base xs base f l.chain pos apart later)
    ] in
    let empty = insert_at-empty a bp i.place base i.before lt l.empty in
    let held_in =
      holder_Among (insert_at a bp i.place) (a.size bp) base i.holder i.ys empty pos i.holds
        i.held in
    let back : bp + 1 - 1 ≡ bp = omega arith in
    let found : find_place fuel a bp a.freep ≡ some i.place = elim (Bool-cases (ltb a.freep bp)) [
      | inl below ↦ i.found a.freep l.start (ground (arith, below)) fuel (omega (arith, enough))
      | inr above ↦
          find_place-round a bp base a.freep xs base (length xs + 1) (some i.place) l.chain
            (omega arith) lt l.start (differs a.freep l.start (ground (arith, above)))
            (λ fuel' le. i.found base (inl refl) lt fuel' (omega (arith, le))) fuel
            (omega (arith, enough))
    ] in
    (
      insert_at a bp i.place,
      i.ys,
      ground (arith, back, found),
      record {
        chain = i.chain;
        empty = empty;
        start = insert_at-freep a bp i.place (base ∷ i.ys) i.there;
      },
      insert_at-brk a bp i.place,
      i.count,
      held_in,
      λ u. ground (arith, empty, l.empty, i.units u),
    )
