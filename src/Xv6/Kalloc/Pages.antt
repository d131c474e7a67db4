-- ===== src/Xv6/Kalloc/Pages.antt =====
-- lab3/xv6-public/kalloc.c: free and owned pages.
use cs.Prelude.{
  ℕ, zero, suc, ◌+◌, ◌/◌, ◌≤◌, ◌≡◌, ◌≢◌, ap, refl, arith, List, [], ◌∷◌, ◌++◌, some, if◌then◌else◌,
  leb, ◌==◌, Bool-cases, Option-cases, inl, inr,
}
use cs.Xv6.Kalloc.{pg_size, pg_round_up, kfree, kalloc, free_from, freerange}

unfoldable pub times : ℕ → List ℕ → ℕ
times a [] = 0
times a (x ∷ xs) = (if x == a then 1 else 0) + times a xs

times-middle :
    (a p : ℕ) (xs ys : List ℕ)
    → times a (xs ++ (p ∷ ys)) ≡ (if p == a then 1 else 0) + times a (xs ++ ys)
unfolding times
times-middle a p [] ys = refl
times-middle a p (x ∷ xs) ys = omega (arith, times-middle a p xs ys)

-- The free pages, and those handed out and not yet given back.
pub record Pages : Type 0 where
  pub free : List ℕ
  pub owned : List ℕ

-- Calls of the allocator by owners that give back only pages that they own.
pub data Step (kernel_end : ℕ) (s : Pages) : Pages → Type 0 where
  gets :
      {p : ℕ} {rest : List ℕ}
      → s.free ≢ []
      → kalloc s.free ≡ (p, rest)
      → Step kernel_end s (record { free = rest; owned = p ∷ s.owned })
  gives :
      {more : List ℕ} (p : ℕ) (xs ys : List ℕ)
      → s.owned ≡ xs ++ (p ∷ ys)
      → kfree kernel_end s.free p ≡ some more
      → Step kernel_end s (record { free = more; owned = xs ++ ys })

pub data Reach (kernel_end : ℕ) (s : Pages) : Pages → Type 0 where
  here : Reach kernel_end s s
  next : {t u : Pages} → Reach kernel_end s t → Step kernel_end t u → Reach kernel_end s u

abbrev pub count : ℕ → Pages → ℕ
count a s = times a s.free + times a s.owned

kalloc-times :
    (a : ℕ) (free : List ℕ) {p : ℕ} {rest : List ℕ}
    → free ≢ []
    → kalloc free ≡ (p, rest)
    → times a free ≡ (if p == a then 1 else 0) + times a rest
unfolding kalloc times
kalloc-times a [] h e = absurd (h refl)
kalloc-times a (r ∷ free) h e = ground arith

kfree-times :
    (k a p : ℕ) (free : List ℕ) {more : List ℕ}
    → kfree k free p ≡ some more
    → times a more ≡ (if p == a then 1 else 0) + times a free
unfolding kfree times
kfree-times k a p free e = ground (arith, e, times)

Step-count : {k : ℕ} {s t : Pages} → Step k s t → (a : ℕ) → count a t ≡ count a s
unfolding times
Step-count {s} (gets h e) a = omega (arith, kalloc-times a s.free h e)
Step-count {k} {s} (gives p xs ys split e) a =
    omega (arith, kfree-times k a p s.free e, times-middle a p xs ys, ap (times a) split)

-- If every page is free or owned at most once at the start, then so it is after any calls: no page is
-- handed out to two owners, and none that is owned is on the free list.
pub pages_exclusive :
    {k : ℕ} {s t : Pages}
    → Reach k s t
    → ((a : ℕ) → count a s ≤ 1)
    → (a : ℕ) → times a t.free + times a t.owned ≤ 1
pages_exclusive here once a = once a
pages_exclusive (next path step) once a =
    omega (arith, Step-count step a, pages_exclusive path once a)

-- The loop adds pages from `p` on, each once.
free_from-times :
    (k n p vend a : ℕ) (free : List ℕ) {more : List ℕ}
    → free_from k n p vend free ≡ some more
    → (p ≤ a → times a free ≡ 0)
    → times a free ≤ 1
    → times a more ≤ 1
unfolding free_from
free_from-times k zero p vend a free e above once = ground (arith, e, once)
free_from-times k (suc n) p vend a free {more} e above once =
    elim (Bool-cases (leb (p + pg_size) vend)) [
      | inr ends ↦ ground (arith, e, ends, once)
      | inl on ↦ elim (Option-cases (kfree k free p)) [
        | inl f ↦ absurd (ground (arith, e, on, f))
        | inr (free', f) ↦
            let grown = kfree-times k a p free f in
            let e' : free_from k n (p + pg_size) vend free' ≡ some more =
              ground (arith, e, on, f) in
            free_from-times k n (p + pg_size) vend a free' e' (λ h. ground (arith, grown, above))
              (ground (arith, grown, above, once))
      ]
    ]

-- If freerange on an empty list ends without a panic, then after any sequence of kalloc and kfree
-- by owners who give back only what they own, every address is on the free list or with an owner
-- at most once.
pub kinit_exclusive :
    {k : ℕ} (vstart vend : ℕ) {free : List ℕ} {t : Pages}
    → freerange k vstart vend [] ≡ some free
    → Reach k (record { free = free; owned = [] }) t
    → (a : ℕ) → times a t.free + times a t.owned ≤ 1
unfolding freerange
kinit_exclusive {k} vstart vend {free} made path a = pages_exclusive path start a
  where
    start : (b : ℕ) → times b free + times b [] ≤ 1
    start b =
        let once =
          free_from-times k (vend / pg_size + 1) (pg_round_up vstart) vend b [] made
            (λ h. unfold times in refl) (unfold times in omega arith) in
        unfold times in omega (arith, once)
