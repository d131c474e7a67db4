-- ===== src/User/Umalloc/Given.antt =====
-- lab3/xv6-public/umalloc.c: what malloc gives, and a block taken from an arena.
use cs.Prelude.{
  ℕ, ◌+◌, ◌-◌, ◌≤◌, ◌<◌, ◌≡◌, ◌⊎◌, ◌∙◌, refl, sym, ap, subst, arith, true, not, ◌&&◌, ◌||◌, Option,
  some, List, [], ◌∷◌, inl, inr,
}
use cs.User.Umalloc.{Arena, take_block}
use cs.User.Umalloc.Place.{Chain, Among, Apart, inside, covered}
use cs.User.Umalloc.Free.{IsFreeList}
use cs.User.Umalloc.Take.{taken_at, take_forward}

-- The free list, with its units below the end of the memory.
pub record IsArena (base : ℕ) (a : Arena) (xs : List ℕ) : Type 0 where
  pub free_list : IsFreeList base a xs
  pub below : (u : ℕ) → covered a xs u ≡ true → u < a.brk
  pub base_pos : 0 < base
  pub base_below : base < a.brk

-- malloc of `n` units was refused, or took the units from the free ones and `grown` new ones.
pub record Given (base : ℕ) (a : Arena) (xs : List ℕ) (n : ℕ) (r : Option (ℕ × Arena))
    : Type 0 where
  pub at : ℕ
  pub after : Arena
  pub ys : List ℕ
  pub grown : ℕ
  pub result : r ≡ some (at + 1, after)
  pub arena : IsArena base after ys
  pub header : after.size at ≡ n
  pub brk : after.brk ≡ a.brk + grown
  pub taken : (u : ℕ) → inside at n u ≡ true → (covered a xs u || inside a.brk grown u) ≡ true
  pub units :
      (u : ℕ)
      → covered after ys u ≡ ((covered a xs u || inside a.brk grown u) && not (inside at n u))

abbrev pub Answer : ℕ → Arena → List ℕ → ℕ → Option (ℕ × Arena) → Type 0
Answer base a xs n r = (r ≡ some (0, a)) ⊎ Given base a xs n r

pub Chain-same :
    (a a' : Arena) (p : ℕ) (xs : List ℕ) (to : ℕ)
    → Chain a p xs to
    → ((k : ℕ) → Among k (p ∷ xs) → (a'.ptr k ≡ a.ptr k) × (a'.size k ≡ a.size k))
    → Chain a' p xs to
Chain-same a a' p [] to c same = (same p (inl refl)).0 ∙ c
Chain-same a a' p (x ∷ xs) to (e, up, le, pos, c) same =
    let (same_ptr, same_size) = same p (inl refl) in
    (
      same_ptr ∙ e,
      up,
      omega (arith, same_size, le),
      omega (arith, (same x (inr (inl refl))).1, pos),
      Chain-same a a' x xs to c (λ k m. same k (inr m)),
    )

pub covered-Among :
    (a a' : Arena) (xs : List ℕ) (u : ℕ)
    → ((k : ℕ) → Among k xs → a'.size k ≡ a.size k)
    → covered a' xs u ≡ covered a xs u
covered-Among a a' [] u same = refl
covered-Among a a' (x ∷ xs) u same =
    let first = same x (inl refl) in
    let rest = covered-Among a a' xs u (λ k m. same k (inr m)) in ground (arith, first, rest)

pub Among-covered :
    (a : Arena) (p : ℕ) (xs : List ℕ) (to k : ℕ)
    → Chain a p xs to
    → Among k xs
    → (0 < a.size k) × (covered a xs (k + a.size k - 1) ≡ true)
Among-covered a p [] to k c m = absurd m
Among-covered a p (x ∷ xs) to k (e, up, le, pos, c) (inl here) = rw here (pos, ground (arith, pos))
Among-covered a p (x ∷ xs) to k (e, up, le, pos, c) (inr m) =
    let (some_k, in_rest) = Among-covered a x xs to k c m in (some_k, ground (arith, in_rest))

pub Apart-above :
    (a : Arena) (bp n : ℕ) (xs : List ℕ)
    → ((k : ℕ) → Among k xs → k + a.size k ≤ bp)
    → Apart a bp n xs
Apart-above a bp n [] h = tt
Apart-above a bp n (x ∷ xs) h = (inl (h x (inl refl)), Apart-above a bp n xs (λ k m. h k (inr m)))

take_block-result :
    (a : Arena) (n v x : ℕ)
    → n ≤ a.size x
    → take_block a n v x ≡ (taken_at a n x + 1, (take_block a n v x).1)
unfolding take_block
take_block-result a n v x fits = ground (arith, fits)

take_block-fields :
    (a : Arena) (n v x base : ℕ)
    → n ≤ a.size x
    → base < x
    → ((take_block a n v x).1.size (taken_at a n x) ≡ n)
      × ((take_block a n v x).1.brk ≡ a.brk)
      × ((take_block a n v x).1.freep ≡ v)
      × ((take_block a n v x).1.size base ≡ a.size base)
unfolding take_block
take_block-fields a n v x base fits lt =
    (ground (arith, fits), ground (arith, fits), ground (arith, fits), ground (arith, lt))

-- Where a block of the list is large enough.
pub take_block-Given :
    (base n v x : ℕ) (a : Arena) (xs : List ℕ)
    → IsArena base a xs
    → 0 < n
    → Among v (base ∷ xs)
    → a.ptr v ≡ x
    → n ≤ a.size x
    → Given base a xs n (some (take_block a n v x))
take_block-Given base n v x a xs l some_units m e fits =
    let t =
      take_forward a n v x base xs base l.free_list.chain l.free_list.empty some_units fits e m in
    let (header, brk, freep, same) = take_block-fields a n v x base fits t.above in
    let a' = (take_block a n v x).1 in
    let empty = same ∙ l.free_list.empty in
    let units : (u : ℕ)
        → covered a' t.ys u ≡ (covered a xs u && not (inside (taken_at a n x) n u)) =
      λ u. ground (arith, t.units u, empty, l.free_list.empty) in
    record {
      at = taken_at a n x;
      after = a';
      ys = t.ys;
      grown = 0;
      result = ap some (take_block-result a n v x fits);
      arena = record {
        free_list = record {
          chain = t.chain;
          empty = empty;
          start = subst (λ f. Among f (base ∷ t.ys)) (sym freep) t.there;
        };
        below = λ u h. rw brk (l.below u (ground (arith, h, units u)));
        base_pos = l.base_pos;
        base_below = omega (arith, l.base_below, brk);
      };
      header = header;
      brk = omega (arith, brk);
      taken = λ u h. ground (arith, t.taken u h, l.free_list.empty);
      units = λ u. ground (arith, units u);
    }
