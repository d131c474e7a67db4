-- ===== src/User/Umalloc/Take.antt =====
-- lab3/xv6-public/umalloc.c: a block taken off the free list.
use cs.Prelude.{
  ℕ, ◌+◌, ◌-◌, ◌≤◌, ◌<◌, ◌≡◌, ◌≢◌, ◌∙◌, refl, sym, ap, subst, arith, true, false, not, ◌&&◌, List,
  [], ◌∷◌, ltb, ◌==◌, Bool-cases, inl, inr,
}
use cs.User.Umalloc.{Arena, take_block}
use cs.User.Umalloc.Place.{Chain, Among, Chain-Among, inside, covered}
use cs.User.Umalloc.Same.{SameAbove, Chain-from, covered-same}

-- Where the block of `n` units stands that is taken from the end of the free block `x`.
abbrev pub taken_at : Arena → ℕ → ℕ → ℕ
taken_at a n x = x + (a.size x - n)

pub record Taken (a a' : Arena) (n v x p : ℕ) (xs : List ℕ) (to : ℕ) : Type 0 where
  pub ys : List ℕ
  pub chain : Chain a' p ys to
  pub there : Among v (p ∷ ys)
  pub above : p < x
  pub units :
      (u : ℕ) → covered a' (p ∷ ys) u ≡ (covered a (p ∷ xs) u && not (inside (taken_at a n x) n u))
  pub taken : (u : ℕ) → inside (taken_at a n x) n u ≡ true → covered a (p ∷ xs) u ≡ true

covered-above :
    (a : Arena) (x : ℕ) (xs : List ℕ) (to u : ℕ)
    → Chain a x xs to
    → u < x + a.size x
    → covered a xs u ≡ false
covered-above a x [] to u c lt = refl
covered-above a x (y ∷ ys) to u (e, up, le, pos, c) lt =
    let rest = covered-above a y ys to u c (omega (arith, lt, le)) in ground (arith, rest, lt, le)

take_exact :
    (a a' : Arena) (n p x : ℕ) (xs : List ℕ) (to : ℕ)
    → Chain a p (x ∷ xs) to
    → a.size x ≡ n
    → a'.ptr p ≡ a.ptr x
    → ((k : ℕ) → p < k → a'.ptr k ≡ a.ptr k)
    → ((k : ℕ) → a'.size k ≡ a.size k)
    → Taken a a' n p x p (x ∷ xs) to
take_exact a a' n p x xs to (e, up, le, pos, c) whole next ptrs sizes =
    let same : SameAbove x a a' = λ k lt le'. (ptrs k (omega (arith, up, lt)), sizes k) in
    record {
      ys = xs;
      chain =
          Chain-from a a' x p xs to c next (omega (arith, up)) (omega (arith, sizes p, le)) same;
      there = inl refl;
      above = up;
      units = λ u.
          let rest = covered-same a a' x xs to u c same in
          elim (Bool-cases (ltb u (x + a.size x))) [
            | inl before ↦
                let clear = covered-above a x xs to u c (ground (arith, before)) in
                ground (arith, rest, clear, before, sizes p, whole, up, le)
            | inr behind ↦ ground (arith, rest, behind, sizes p, whole, up, le)
          ];
      taken = λ u h. ground (arith, h, whole);
    }

take_end :
    (a a' : Arena) (n p x : ℕ) (xs : List ℕ) (to : ℕ)
    → Chain a p (x ∷ xs) to
    → n < a.size x
    → 0 < n
    → ((k : ℕ) → a'.ptr k ≡ a.ptr k)
    → a'.size x ≡ a.size x - n
    → ((k : ℕ) → k ≢ x → k ≢ taken_at a n x → a'.size k ≡ a.size k)
    → Taken a a' n p x p (x ∷ xs) to
take_end a a' n p x xs to (e, up, le, pos, c) large some_units ptrs left sizes =
    let same : SameAbove x a a' =
      λ k lt le'. (ptrs k, sizes k (omega (arith, lt)) (omega (arith, le', some_units, large))) in
    let same_p = sizes p (omega (arith, up)) (omega (arith, up)) in
    record {
      ys = x ∷ xs;
      chain = (
        ptrs p ∙ e,
        up,
        omega (arith, same_p, le),
        omega (arith, left, large),
        Chain-from a a' x x xs to c (ptrs x) (omega arith) (omega (arith, left)) same,
      );
      there = inl refl;
      above = up;
      units = λ u.
          let rest = covered-same a a' x xs to u c same in
          elim (Bool-cases (ltb u (x + a.size x))) [
            | inl before ↦
                let clear = covered-above a x xs to u c (ground (arith, before)) in
                ground (arith, rest, clear, before, same_p, left, large, up, le)
            | inr behind ↦ ground (arith, rest, behind, same_p, left, large, up, le)
          ];
      taken = λ u h. ground (arith, h, large);
    }

take_here :
    (a : Arena) (n p x : ℕ) (xs : List ℕ) (to : ℕ)
    → Chain a p xs to
    → a.size to ≡ 0
    → 0 < n
    → n ≤ a.size x
    → a.ptr p ≡ x
    → Taken a (take_block a n p x).1 n p x p xs to
unfolding take_block
take_here a n p x [] to c empty some_units fits e = absurd (
    let at : a.size x ≡ a.size to = ap a.size (sym e ∙ c) in
    omega (arith, at, empty, some_units, fits))
take_here a n p x (y ∷ xs) to (next, up, le, pos, c) empty some_units fits e =
    let same : y ≡ x = sym next ∙ e in
    let c' : Chain a p (x ∷ xs) to =
      subst (λ z. Chain a p (z ∷ xs) to) same (next, up, le, pos, c) in
    subst (λ z. Taken a (take_block a n p x).1 n p x p (z ∷ xs) to) (sym same)
      (elim (Bool-cases (a.size x == n)) [
        | inl whole ↦
            take_exact a (take_block a n p x).1 n p x xs to c' (ground (arith, whole))
              (ground (arith, whole)) (λ k lt. ground (arith, whole, lt))
              (λ k. ground (arith, whole))
        | inr part ↦
            take_end a (take_block a n p x).1 n p x xs to c' (ground (arith, part, fits)) some_units
              (λ k. ground (arith, part)) (ground (arith, part, some_units, fits))
              (λ k ne ne'. ground (arith, part, ne, ne'))
      ])

take_block-below :
    (a : Arena) (n v x k : ℕ)
    → k < v
    → k < x
    → ((take_block a n v x).1.ptr k ≡ a.ptr k) × ((take_block a n v x).1.size k ≡ a.size k)
unfolding take_block
take_block-below a n v x k lt lt' = (ground (arith, lt, lt'), ground (arith, lt, lt'))

take_block-between : (a : Arena) (n v x k : ℕ) → k < x → (take_block a n v x).1.size k ≡ a.size k
unfolding take_block
take_block-between a n v x k lt = ground (arith, lt)

Among_le : (a : Arena) (p : ℕ) (xs : List ℕ) (to f : ℕ) → Chain a p xs to → Among f (p ∷ xs) → p ≤ f
Among_le a p xs to f c (inl e) = omega (arith, e)
Among_le a p xs to f c (inr m) = omega (arith, Chain-Among a p xs to f c m)

take_first :
    (a : Arena) (n v x p : ℕ) (xs : List ℕ) (to : ℕ)
    → Chain a p xs to
    → a.size to ≡ 0
    → 0 < n
    → n ≤ a.size x
    → a.ptr v ≡ x
    → v ≡ p
    → Taken a (take_block a n v x).1 n v x p xs to
take_first a n v x p xs to c empty some_units fits e here =
    subst (λ w. a.ptr w ≡ x → Taken a (take_block a n w x).1 n w x p xs to) (sym here)
      (λ e'. take_here a n p x xs to c empty some_units fits e') e

pub take_forward :
    (a : Arena) (n v x p : ℕ) (xs : List ℕ) (to : ℕ)
    → Chain a p xs to
    → a.size to ≡ 0
    → 0 < n
    → n ≤ a.size x
    → a.ptr v ≡ x
    → Among v (p ∷ xs)
    → Taken a (take_block a n v x).1 n v x p xs to
take_forward a n v x p [] to c empty some_units fits e (inl here) =
    take_first a n v x p [] to c empty some_units fits e here
take_forward a n v x p (y ∷ xs) to c empty some_units fits e (inl here) =
    take_first a n v x p (y ∷ xs) to c empty some_units fits e here
take_forward a n v x p [] to c empty some_units fits e (inr m) = absurd m
take_forward a n v x p (y ∷ xs) to (next, up, le, pos, c) empty some_units fits e (inr m) =
    let t = take_forward a n v x y xs to c empty some_units fits e m in
    let low = Among_le a y xs to v c m in
    let (same_ptr, same_size) =
      take_block-below a n v x p (omega (arith, up, low)) (omega (arith, up, t.above)) in
    let same_y = take_block-between a n v x y t.above in
    record {
      ys = y ∷ t.ys;
      chain =
          (same_ptr ∙ next, up, omega (arith, same_size, le), omega (arith, same_y, pos), t.chain);
      there = inr t.there;
      above = omega (arith, up, t.above);
      units = λ u. ground (arith, t.units u, same_size, le, t.above);
      taken = λ u h. ground (arith, t.taken u h);
    }
