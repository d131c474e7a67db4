-- ===== src/User/Umalloc/Malloc.antt =====
-- lab3/xv6-public/umalloc.c: malloc.
use cs.Prelude.{
  ℕ, suc, ◌+◌, ◌-◌, ◌*◌, ◌/◌, ◌%◌, ◌^◌, ◌≤◌, ◌<◌, ◌≡◌, ◌≢◌, ◌∙◌, refl, sym, subst, arith, Bool,
  true, false, ◌||◌, Option, some, List, [], ◌∷◌, if◌then◌else◌, ltb, length, Bool-cases, inl, inr,
}
use cs.User.Umalloc.{Arena, put_size, free, morecore, malloc_loop, start_list, malloc}
use cs.User.Umalloc.Place.{Among, Chain-Among, Apart, inside, covered}
use cs.User.Umalloc.Free.{IsFreeList, free-IsFreeList}
use cs.User.Umalloc.Scan.{scan}
use cs.User.Umalloc.Given.{
  IsArena, Given, Answer, Chain-same, covered-Among, Among-covered, Apart-above, take_block-Given,
}

-- The arena with `m` units more, which are one block behind the end of the memory.
abbrev longer : Arena → ℕ → Arena
longer a m = put_size (record a { brk = a.brk + m }) a.brk m

-- What morecore asks for.
abbrev asked : ℕ → ℕ
asked n = if ltb n 4096 then 4096 else n

-- After the new block is freed.
record Grown (base : ℕ) (a : Arena) (xs : List ℕ) (m : ℕ) (r : Option Arena) : Type 0 where
  after : Arena
  ys : List ℕ
  result : r ≡ some after
  arena : IsArena base after ys
  brk : after.brk ≡ a.brk + m
  count : length ys ≤ suc (length xs)
  holder : ℕ
  held : Among holder ys
  holds : m ≤ after.size holder
  units : (u : ℕ) → covered after ys u ≡ (covered a xs u || inside a.brk m u)

free-longer :
    (base fuel m : ℕ) (a : Arena) (xs : List ℕ)
    → IsArena base a xs
    → 0 < m
    → 2 * length xs + 2 ≤ fuel
    → Grown base a xs m (free fuel (longer a m) (a.brk + 1))
free-longer base fuel m a xs l pos enough =
    let a0 = longer a m in
    let low : (k : ℕ) → Among k xs → k + a.size k ≤ a.brk = λ k m'.
      let (some_k, in_list) = Among-covered a base xs base k l.free_list.chain m' in
      omega (arith, l.below (k + a.size k - 1) in_list, some_k) in
    let not_end : (k : ℕ) → Among k (base ∷ xs) → k < a.brk = λ k m'. elim m' [
      | inl here ↦ omega (arith, here, l.base_below)
      | inr later ↦
          let (some_k, in_list) = Among-covered a base xs base k l.free_list.chain later in
          omega (arith, low k later, some_k)
    ] in
    let same : (k : ℕ) → Among k (base ∷ xs) → (a0.ptr k ≡ a.ptr k) × (a0.size k ≡ a.size k) =
      λ k m'. let lt = not_end k m' in (refl, ground (arith, lt)) in
    let new : a0.size a.brk ≡ m = ground arith in
    let list : IsFreeList base a0 xs = record {
      chain = Chain-same a a0 base xs base l.free_list.chain same;
      empty = (same base (inl refl)).1 ∙ l.free_list.empty;
      start = l.free_list.start;
    } in
    let apart : Apart a0 a.brk (a0.size a.brk) xs =
      Apart-above a0 a.brk (a0.size a.brk) xs
        (λ k m'. omega (arith, low k m', (same k (inr m')).1)) in
    let (a1, ys, result, list', brk', count, (k, held, holds), units) =
      free-IsFreeList base fuel a.brk a0 xs list l.base_below (omega (arith, new, pos)) apart
        enough in
    let all : (u : ℕ) → covered a1 ys u ≡ (covered a xs u || inside a.brk m u) =
      λ u. ground (arith, units u, new, covered-Among a a0 xs u (λ k' m'. (same k' (inr m')).1)) in
    record {
      after = a1;
      ys = ys;
      result = result;
      arena = record {
        free_list = list';
        below = λ u h. elim (Bool-cases (covered a xs u)) [
          | inl old ↦ omega (arith, l.below u old, brk')
          | inr fresh ↦ ground (arith, all u, h, fresh, brk')
        ];
        base_pos = l.base_pos;
        base_below = omega (arith, l.base_below, brk');
      };
      brk = brk';
      count = count;
      holder = k;
      held = held;
      holds = omega (arith, holds, new);
      units = all;
    }

-- What is given after the arena has grown is given from the arena before.
Given-Grown :
    (base n m : ℕ) (a : Arena) (xs : List ℕ) {o : Option Arena} {r : Option (ℕ × Arena)}
    (g : Grown base a xs m o)
    → Given base g.after g.ys n r
    → Given base a xs n r
Given-Grown base n m a xs g x = record {
  at = x.at;
  after = x.after;
  ys = x.ys;
  grown = m + x.grown;
  result = x.result;
  arena = x.arena;
  header = x.header;
  brk = omega (arith, x.brk, g.brk);
  taken = λ u h. ground (arith, x.taken u h, g.units u, g.brk);
  units = λ u. ground (arith, x.units u, g.units u, g.brk);
}

malloc_loop-refused :
    (can_grow : ℕ → ℕ → Bool) (fuel : ℕ) (a : Arena) (n v : ℕ)
    → a.size a.freep < n
    → can_grow a.brk (asked n) ≡ false
    → malloc_loop can_grow (suc fuel) a n v a.freep ≡ some (0, a)
unfolding malloc_loop morecore
malloc_loop-refused can_grow fuel a n v small refused = ground (arith, small, refused)

malloc_loop-grown :
    (can_grow : ℕ → ℕ → Bool) (fuel : ℕ) (a : Arena) (n v : ℕ) {a1 : Arena}
    → a.size a.freep < n
    → can_grow a.brk (asked n) ≡ true
    → free fuel (longer a (asked n)) (a.brk + 1) ≡ some a1
    → a1.freep ≢ 0
    → malloc_loop can_grow (suc fuel) a n v a.freep
      ≡ malloc_loop can_grow fuel a1 n a1.freep (a1.ptr a1.freep)
unfolding malloc_loop morecore
malloc_loop-grown can_grow fuel a n v small granted freed some_list =
    ground (arith, small, granted, freed, some_list)

freep_pos : (base : ℕ) (a : Arena) (xs : List ℕ) → IsArena base a xs → 0 < a.freep
freep_pos base a xs l = elim l.free_list.start [
  | inl here ↦ omega (arith, here, l.base_pos)
  | inr later ↦ omega (arith, Chain-Among a base xs base a.freep l.free_list.chain later)
]

-- The second round finds the block that morecore got.
malloc_loop-Grown :
    (can_grow : ℕ → ℕ → Bool) (fuel base n m : ℕ) (a : Arena) (xs : List ℕ) {o : Option Arena}
    (g : Grown base a xs m o)
    → n ≤ m
    → 0 < n
    → 2 * length xs + 3 ≤ fuel
    → Given base a xs n
        (malloc_loop can_grow fuel g.after n g.after.freep (g.after.ptr g.after.freep))
malloc_loop-Grown can_grow fuel base n m a xs g le pos enough = Given-Grown base n m a xs g (
    scan can_grow g.after n base 0 g.ys (Given base g.after g.ys n) g.arena.free_list
      (λ v x m' e fits. take_block-Given base n v x g.after g.ys g.arena pos m' e fits)
      (λ v fuel' le' small. absurd (omega (arith, small g.holder (inr g.held), g.holds, le))) fuel
      (omega (arith, enough, g.count)))

malloc_loop-Answer :
    (can_grow : ℕ → ℕ → Bool) (fuel base n : ℕ) (a : Arena) (xs : List ℕ)
    → IsArena base a xs
    → 0 < n
    → 4 * length xs + 4 ≤ fuel
    → Answer base a xs n (malloc_loop can_grow fuel a n a.freep (a.ptr a.freep))
malloc_loop-Answer can_grow fuel base n a xs l pos enough =
    scan can_grow a n base (2 * length xs + 3) xs (Answer base a xs n) l.free_list
      (λ v x m e fits. inr (take_block-Given base n v x a xs l pos m e fits))
      (λ v fuel' le small.
        let small_here = small a.freep l.free_list.start in
        elim (Bool-cases (can_grow a.brk (asked n))) [
          | inr refused ↦ inl (malloc_loop-refused can_grow fuel' a n v small_here refused)
          | inl granted ↦
              let g = free-longer base fuel' (asked n) a xs l (ground arith) (omega (arith, le)) in
              let some_list = freep_pos base g.after g.ys g.arena in
              inr (
                subst (Given base a xs n)
                  (sym (
                    malloc_loop-grown can_grow fuel' a n v small_here granted g.result
                      (omega (arith, some_list))))
                  (malloc_loop-Grown can_grow fuel' base n (asked n) a xs g (ground arith) pos le))
        ])
      fuel (omega (arith, enough))

-- On an arena whose free list is circular, in the order of addresses, without overlaps and below
-- the end of the memory, or on the list of the first call: malloc of at most 2^31 - 16 bytes
-- returns with fuel of 4 for each free block and 4 more, whatever sbrk answers. It returns 0 and
-- changes nothing more, or it returns the address behind a header that has the size of the block,
-- with room for the bytes; each unit of the block was free or is new, exactly the units of the
-- block are then not free any more, and the arena is one as before.
pub malloc-Answer :
    (can_grow : ℕ → ℕ → Bool) (fuel base nbytes : ℕ) (a : Arena) (xs : List ℕ)
    → IsArena base (start_list base a) xs
    → nbytes + 16 ≤ 2 ^ 31
    → 4 * length xs + 4 ≤ fuel
    → (n : ℕ) × (nbytes + 8 ≤ 8 * n)
      × Answer base (start_list base a) xs n (malloc can_grow fuel base a nbytes)
unfolding malloc
malloc-Answer can_grow fuel base nbytes a xs l small enough =
    let n = (nbytes + 8 - 1) % 2 ^ 32 / 8 + 1 in
    (
      n,
      omega (arith, small),
      malloc_loop-Answer can_grow fuel base n (start_list base a) xs l (omega arith) enough,
    )

pub start_list-IsArena :
    (base : ℕ) (a : Arena)
    → a.freep ≡ 0
    → 0 < base
    → base < a.brk
    → IsArena base (start_list base a) []
unfolding start_list
start_list-IsArena base a none_yet pos below = record {
  free_list = record {
    chain = ground (arith, none_yet);
    empty = ground (arith, none_yet);
    start = inl (ground (arith, none_yet));
  };
  below = λ u h. absurd (ground (arith, h));
  base_pos = pos;
  base_below = ground (arith, none_yet, below);
}
