-- ===== src/Xv6/Bio/Unique.antt =====
-- lab3/xv6-public/bio.c: how many buffers cache a block, across bget.
use cs.Prelude.{
  ℕ, ◌+◌, ◌≤◌, ◌<◌, ◌≡◌, ◌≢◌, ap, refl, arith, ◌&&◌, List, [], ◌∷◌, Option, none, some,
  if◌then◌else◌, ◌==◌, Option-cases, inl, inr,
}
use cs.Xv6.Bio.{Buf, caches, take_cached, recycle, bget}

-- How many buffers have a block cached, those that are free to be recycled with stale content included.
unfoldable pub copies : ℕ → ℕ → List Buf → ℕ
copies dev blockno [] = 0
copies dev blockno (b ∷ l) = (if caches dev blockno b then 1 else 0) + copies dev blockno l

-- A hit changes no buffer's block, and the block has a buffer.
take_cached-copies :
    (dev blockno : ℕ) (l : List Buf) {i : ℕ} {l' : List Buf}
    → take_cached dev blockno l ≡ some (i, l')
    → ((d n : ℕ) → copies d n l' ≡ copies d n l) × (0 < copies dev blockno l)
unfolding take_cached copies
take_cached-copies dev blockno [] e = absurd (ground (arith, e))
take_cached-copies dev blockno (b ∷ l) {i} {l'} e =
    elim (Option-cases (take_cached dev blockno l)) [
      | inl f ↦ (λ d n. ground (arith, e, f), ground (arith, e, f))
      | inr (r, f) ↦
          let (ih, found) = take_cached-copies dev blockno l {i = r.0} {l' = r.1} f in
          (λ d n. ground (arith, e, f, ih d n), ground (arith, e, f, found))
    ]

take_cached-none :
    (dev blockno : ℕ) (l : List Buf) → take_cached dev blockno l ≡ none → copies dev blockno l ≡ 0
unfolding take_cached copies
take_cached-none dev blockno [] e = refl
take_cached-none dev blockno (b ∷ l) e = ground (arith, e, take_cached-none dev blockno l)

abbrev one_if : ℕ → ℕ → ℕ → ℕ → ℕ
one_if dev blockno d n = if (dev == d) && (blockno == n) then 1 else 0

-- A recycled buffer gives up its old block for the new one.
recycle-copies :
    (dev blockno : ℕ) (l : List Buf) {i : ℕ} {l' : List Buf}
    → recycle dev blockno l ≡ some (i, l')
    → ((d n : ℕ) → copies d n l' ≤ copies d n l + one_if dev blockno d n)
      × (0 < copies dev blockno l')
unfolding recycle copies
recycle-copies dev blockno [] e = absurd (ground (arith, e))
recycle-copies dev blockno (b ∷ l) {i} {l'} e = elim (Option-cases (recycle dev blockno l)) [
  | inl f ↦ (λ d n. ground (arith, e, f), ground (arith, e, f))
  | inr (r, f) ↦
      let (ih, found) = recycle-copies dev blockno l {i = r.0} {l' = r.1} f in
      (λ d n. ground (arith, e, f, ih d n), ground (arith, e, f, found))
]

-- When bget finds or recycles a buffer for a block of a device other than 0, on a list that has
-- no block of such a device twice, the resulting list has the block exactly once, and still no
-- block of such a device twice.
pub bget_unique :
    (dev blockno : ℕ) (l : List Buf) {i : ℕ} {l' : List Buf}
    → ((d n : ℕ) → d ≢ 0 → copies d n l ≤ 1)
    → dev ≢ 0
    → bget dev blockno l ≡ some (i, l')
    → (copies dev blockno l' ≡ 1) × ((d n : ℕ) → d ≢ 0 → copies d n l' ≤ 1)
unfolding bget
bget_unique dev blockno l {i} {l'} unique real e = go (take_cached dev blockno l) refl
  where
    go :
        (o : Option (ℕ × List Buf))
        → take_cached dev blockno l ≡ o
        → (copies dev blockno l' ≡ 1) × ((d n : ℕ) → d ≢ 0 → copies d n l' ≤ 1)
    go (some (j, rest)) f =
        let e' : take_cached dev blockno l ≡ some (i, l') = ground (arith, e, f) in
        let (same, found) = take_cached-copies dev blockno l e' in
        (
          omega (arith, same dev blockno, found, unique dev blockno real),
          λ d n h. omega (arith, same d n, unique d n h),
        )
    go none f =
        let e' : recycle dev blockno l ≡ some (i, l') = ground (arith, e, f) in
        let (grown, found) = recycle-copies dev blockno l e' in
        let fresh = take_cached-none dev blockno l f in
        (
          ground (arith, grown dev blockno, found, fresh),
          λ d n h. ground (
            arith,
            grown d n,
            unique d n h,
            ap (λ k. copies k n l) {x = dev} {y = d},
            ap (copies d) {x = blockno} {y = n},
            fresh,
          ),
        )
