-- ===== src/User/Umalloc/Insert.antt =====
-- lab3/xv6-public/umalloc.c: a block put into the free list.
use cs.Prelude.{
  ℕ, zero, suc, ◌+◌, ◌≤◌, ◌<◌, ◌≡◌, ◌≢◌, ◌∙◌, refl, arith, some, List, [], ◌∷◌, ◌==◌, length,
  Bool-cases, inl, inr,
}
use cs.User.Umalloc.{Arena, find_place, insert_at}
use cs.User.Umalloc.Same.{SameAbove, Chain-from, covered-same}
use cs.User.Umalloc.Place.{Chain, Among, Apart, covered, Goes, find_place-next, Chain-Among}
use cs.User.Umalloc.Inserted.{Inserted, insert_at-SameAbove, found_here, put_here}

insert_last :
    (a : Arena) (bp p to : ℕ)
    → a.ptr p ≡ to
    → to ≤ p
    → p < bp
    → p + a.size p ≤ bp
    → 0 < a.size bp
    → Inserted a bp p [] to
unfolding insert_at
insert_last a bp p to e low lt fits pos =
    let found = found_here a bp p [] lt (inr (omega (arith, e, low))) (λ f m. absurd m) in
    elim (Bool-cases (p + a.size p == bp)) [
      | inl joined ↦
          put_here a bp p [] to [] p lt found (ground (arith, e, low, lt, joined, pos))
            (omega arith) (inl refl) (ground (arith, e, low, lt, joined, pos))
            (λ u. ground (arith, e, low, lt, joined, pos))
      | inr apart ↦
          put_here a bp p [] to (bp ∷ []) bp lt found
            (
              ground (arith, e, low, lt, apart, pos),
              lt,
              ground (arith, e, low, lt, apart, fits),
              ground (arith, e, low, lt, apart, pos),
              ground (arith, e, low, lt, apart, pos),
            )
            (omega arith) (inr (inl refl)) (ground (arith, e, low, lt, apart, pos))
            (λ u. ground (arith, e, low, lt, apart, pos))
    ]

-- Between `p` and the block `x` behind it, joined with each or not.
module _ (a : Arena) (bp p x : ℕ) (xs : List ℕ) (to : ℕ) (chain : Chain a p (x ∷ xs) to)
    (lt : p < bp) (fits : p + a.size p ≤ bp) (pos : 0 < a.size bp) (room : bp + a.size bp ≤ x) where
  e : a.ptr p ≡ x
  e = chain.0

  up : p < x
  up = chain.1

  c : Chain a x xs to
  c = chain.4

  same : SameAbove bp a (insert_at a bp p)
  same = insert_at-SameAbove a bp p lt

  same_x : ((insert_at a bp p).ptr x ≡ a.ptr x) × ((insert_at a bp p).size x ≡ a.size x)
  same_x = same x (omega (arith, room, pos)) room

  above : SameAbove x a (insert_at a bp p)
  above k lt' le = same k (omega (arith, lt', room)) (omega (arith, lt', room))

  rest : (u : ℕ) → covered (insert_at a bp p) xs u ≡ covered a xs u
  rest u = covered-same a (insert_at a bp p) x xs to u c above

  stop :
      (f : ℕ)
      → Among f (p ∷ x ∷ xs)
      → f < bp
      → (fuel : ℕ) → length (x ∷ xs) < fuel
      → find_place fuel a bp f ≡ some p
  stop = found_here a bp p (x ∷ xs) lt (inl (omega (arith, e, room, pos))) (λ f m. elim m [
    | inl here ↦ omega (arith, here, room, pos)
    | inr m' ↦ omega (arith, room, Chain-Among a x xs to f c m')
  ])

  between_both : bp + a.size bp ≡ x → p + a.size p ≡ bp → Inserted a bp p (x ∷ xs) to
  unfolding insert_at
  between_both right left =
      put_here a bp p (x ∷ xs) to xs p lt stop
        (Chain-from a (insert_at a bp p) x p xs to c (ground (arith, e, left, right, lt))
          (omega (arith, up)) (ground (arith, e, left, right, lt, up)) above)
        (omega arith) (inl refl) (ground (arith, e, left, right, lt, up))
        (λ u. ground (arith, e, left, right, lt, up, rest u))

  between_next : bp + a.size bp ≡ x → p + a.size p ≢ bp → Inserted a bp p (x ∷ xs) to
  unfolding insert_at
  between_next right no_left =
      put_here a bp p (x ∷ xs) to (bp ∷ xs) bp lt stop
        (
          ground (arith, e, no_left, right, lt, up),
          lt,
          ground (arith, e, no_left, right, lt, up, fits),
          ground (arith, e, no_left, right, lt, up, pos),
          Chain-from a (insert_at a bp p) x bp xs to c (ground (arith, e, no_left, right, lt, up))
              (omega (arith, room)) (ground (arith, e, no_left, right, lt, up)) above,
        )
        (omega arith) (inr (inl refl)) (ground (arith, e, no_left, right, lt, up))
        (λ u. ground (arith, e, no_left, right, lt, up, rest u))

  from_x : Chain (insert_at a bp p) x xs to
  from_x =
      Chain-from a (insert_at a bp p) x x xs to c same_x.0 (omega arith) (omega (arith, same_x.1))
        above

  between_previous : bp + a.size bp ≢ x → p + a.size p ≡ bp → Inserted a bp p (x ∷ xs) to
  unfolding insert_at
  between_previous no_right left =
      put_here a bp p (x ∷ xs) to (x ∷ xs) p lt stop
        (
          ground (arith, e, left, no_right, lt, up),
          up,
          ground (arith, e, left, no_right, lt, up, room),
          omega (arith, same_x.1, chain.3),
          from_x,
        )
        (omega arith) (inl refl) (ground (arith, e, left, no_right, lt, up))
        (λ u. ground (arith, e, left, no_right, lt, up, rest u, same_x))

  between_alone : bp + a.size bp ≢ x → p + a.size p ≢ bp → Inserted a bp p (x ∷ xs) to
  unfolding insert_at
  between_alone no_right no_left =
      put_here a bp p (x ∷ xs) to (bp ∷ x ∷ xs) bp lt stop
        (
          ground (arith, e, no_left, no_right, lt, up),
          lt,
          ground (arith, e, no_left, no_right, lt, up, fits),
          ground (arith, e, no_left, no_right, lt, up, pos),
          (
            ground (arith, e, no_left, no_right, lt, up),
            omega (arith, room, pos),
            ground (arith, e, no_left, no_right, lt, up, room),
            omega (arith, same_x.1, chain.3),
            from_x,
          ),
        )
        (omega arith) (inr (inl refl)) (ground (arith, e, no_left, no_right, lt, up))
        (λ u. ground (arith, e, no_left, no_right, lt, up, rest u, same_x))

  insert_between : Inserted a bp p (x ∷ xs) to
  insert_between = elim (Bool-cases (bp + a.size bp == x)) [
    | inl right ↦ elim (Bool-cases (p + a.size p == bp)) [
      | inl left ↦ between_both (ground (arith, right)) (ground (arith, left))
      | inr no_left ↦ between_next (ground (arith, right)) (ground (arith, no_left))
    ]
    | inr no_right ↦ elim (Bool-cases (p + a.size p == bp)) [
      | inl left ↦ between_previous (ground (arith, no_right)) (ground (arith, left))
      | inr no_left ↦ between_alone (ground (arith, no_right)) (ground (arith, no_left))
    ]
  ]

insert_at-below :
    (a : Arena) (bp p k : ℕ)
    → k < p
    → p < bp
    → ((insert_at a bp p).ptr k ≡ a.ptr k) × ((insert_at a bp p).size k ≡ a.size k)
unfolding insert_at
insert_at-below a bp p k lt lt' = (ground (arith, lt, lt'), ground (arith, lt, lt'))

insert_at-size : (a : Arena) (bp p k : ℕ) → p < bp → k < bp → a.size k ≤ (insert_at a bp p).size k
unfolding insert_at
insert_at-size a bp p k lt lt' = ground (arith, lt, lt')

found_after :
    (a : Arena) (bp p x : ℕ) (xs : List ℕ) (place : ℕ)
    → Goes a bp p x
    → x < bp
    → ((f : ℕ)
        → Among f (x ∷ xs)
        → f < bp
        → (fuel : ℕ) → length xs < fuel
        → find_place fuel a bp f ≡ some place)
    → (f : ℕ) → Among f (p ∷ x ∷ xs)
    → f < bp
    → (fuel : ℕ) → length (x ∷ xs) < fuel
    → find_place fuel a bp f ≡ some place
found_after a bp p x xs place goes lt h f m lt' zero enough = absurd (omega (arith, enough))
found_after a bp p x xs place goes lt h f (inl e) lt' (suc fuel) enough =
    rw e (find_place-next fuel a bp p x goes ∙ h x (inl refl) lt fuel (omega (arith, enough)))
found_after a bp p x xs place goes lt h f (inr m) lt' (suc fuel) enough =
    h f m lt' (suc fuel) (omega (arith, enough))

pub insert_forward :
    (a : Arena) (bp p : ℕ) (xs : List ℕ) (to : ℕ)
    → Chain a p xs to
    → to ≤ p
    → p < bp
    → p + a.size p ≤ bp
    → 0 < a.size bp
    → Apart a bp (a.size bp) xs
    → Inserted a bp p xs to
insert_forward a bp p [] to e low lt fits pos apart = insert_last a bp p to e low lt fits pos
insert_forward a bp p (x ∷ xs) to (e, up, le, some_x, c) low lt fits pos (inr over, apart) =
    insert_between a bp p x xs to (e, up, le, some_x, c) lt fits pos over
insert_forward a bp p (x ∷ xs) to (e, up, le, some_x, c) low lt fits pos (inl under, apart) =
    let i =
      insert_forward a bp x xs to c (omega (arith, low, up)) (omega (arith, under, some_x)) under
        pos apart in
    let (same_ptr, same_size) =
      insert_at-below a bp i.place p (omega (arith, up, i.after)) i.before in
    record {
      place = i.place;
      ys = x ∷ i.ys;
      found =
          found_after a bp p x xs i.place (e, inl (up, omega (arith, under)))
            (omega (arith, under, some_x)) i.found;
      after = omega (arith, up, i.after);
      before = i.before;
      chain = (
        same_ptr ∙ e,
        up,
        omega (arith, same_size, le),
        omega
            (arith, some_x, insert_at-size a bp i.place x i.before (omega (arith, under, some_x))),
        i.chain,
      );
      there = inr i.there;
      count = omega (arith, i.count);
      holder = i.holder;
      held = inr i.held;
      holds = i.holds;
      units = λ u. ground (arith, same_size, i.units u);
    }
