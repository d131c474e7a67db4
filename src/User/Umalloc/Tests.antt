-- ===== src/User/Umalloc/Tests.antt =====
-- lab3/xv6-public/umalloc.c: the first call of malloc, and a block that is freed.
use cs.Prelude.{
  ℕ, ◌+◌, ◌*◌, ◌≤◌, ◌≡◌, refl, arith, Bool, true, List, [], ◌∷◌, ◌||◌, ◌==◌, if◌then◌else◌, length,
  some, inl, inr,
}
use cs.User.Umalloc.{Arena, start_list, malloc, free}
use cs.User.Umalloc.Place.{Among, covered, inside}
use cs.User.Umalloc.Free.{IsFreeList, free-IsFreeList}
use cs.User.Umalloc.Given.{Answer}
use cs.User.Umalloc.Malloc.{malloc-Answer, start_list-IsArena}

abbrev fresh : Arena
fresh = record { ptr = λ k. 0; size = λ k. 0; freep = 0; brk = 10 }

abbrev grows : ℕ → ℕ → Bool
grows brk n = true

malloc-Answer_example :
    (n : ℕ) × (20 + 8 ≤ 8 * n) × Answer 1 (start_list 1 fresh) [] n (malloc grows 9 1 fresh 20)
malloc-Answer_example =
    malloc-Answer grows 9 1 20 fresh []
      (start_list-IsArena 1 fresh refl (omega arith) (omega arith)) (omega arith) (omega arith)

-- A free block of 4 units at 10, and one of 3 at 14 that is in use.
abbrev used : Arena
used = record {
  ptr = λ k. if k == 1 then 10 else 1;
  size = λ k. if k == 10 then 4 else if k == 14 then 3 else 0;
  freep = 10;
  brk = 30;
}

used-IsFreeList : IsFreeList 1 used (10 ∷ [])
used-IsFreeList = record {
  chain = (refl, omega arith, omega arith, omega arith, refl);
  empty = refl;
  start = inr (inl refl);
}

free-IsFreeList_example :
    (a' : Arena) × (ys : List ℕ) × (free 4 used 15 ≡ some a')
    × IsFreeList 1 a' ys
    × (a'.brk ≡ 30)
    × (length ys ≤ 2)
    × ((k : ℕ) × Among k ys × (3 ≤ a'.size k))
    × ((u : ℕ) → covered a' ys u ≡ (covered used (10 ∷ []) u || inside 14 3 u))
free-IsFreeList_example =
    free-IsFreeList 1 4 14 used (10 ∷ []) used-IsFreeList (omega arith) (omega arith)
      (inl (omega arith), tt) (omega arith)
