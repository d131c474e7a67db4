-- ===== src/Xv6/Memory/Move.antt =====
-- lab3/xv6-public/string.c: memmove, also on ranges that overlap.
use cs.Prelude.{
  ℕ, zero, suc, ◌+◌, ◌-◌, ◌≤◌, ◌<◌, ◌≡◌, ◌⊎◌, ap, arith, false, ◌&&◌, if◌then◌else◌, ◌==◌, ltb, leb,
  Bool-cases, inl, inr,
}
use cs.Xv6.Memory.{Memory, poke, copy_up, copy_down, memmove}

-- Inside `[dst, dst + n)` the bytes of the source, and outside it the old bytes.
abbrev pub moved : Memory → ℕ → ℕ → ℕ → ℕ → ℕ
moved m dst src n k = if leb dst k && ltb k (dst + n) then m (src + (k - dst)) else m k

copy_up_lem :
    (n : ℕ) (m : Memory) (d s k : ℕ) → (d ≤ s) ⊎ (s + n ≤ d) → copy_up m d s n k ≡ moved m d s n k
unfolding copy_up poke
copy_up_lem zero m d s k apart = ground arith
copy_up_lem (suc n) m d s k apart =
    let ih = copy_up_lem n (poke m d (m s)) (d + 1) (s + 1) k (omega arith) in
    elim (Bool-cases (k == d)) [
      | inl here ↦ let e : s + (k - d) ≡ s = ground arith in ground (arith, ih, ap m e)
      | inr other ↦ elim (Bool-cases (leb (d + 1) k && ltb k (d + 1 + n))) [
        | inl inside ↦
            let e : s + 1 + (k - (d + 1)) ≡ s + (k - d) = ground arith in ground (arith, ih, ap m e)
        | inr outside ↦ ground (arith, ih)
      ]
    ]

copy_down_lem : (n : ℕ) (m : Memory) (d s k : ℕ) → s < d → copy_down m d s n k ≡ moved m d s n k
unfolding copy_down poke
copy_down_lem zero m d s k below = ground arith
copy_down_lem (suc n) m d s k below =
    let ih = copy_down_lem n (poke m (d + n) (m (s + n))) d s k below in
    elim (Bool-cases (k == d + n)) [
      | inl here ↦ let e : s + (k - d) ≡ s + n = ground arith in ground (arith, ih, ap m e)
      | inr other ↦ ground (arith, ih)
    ]

-- memmove leaves in the destination the bytes that the source held before, and every other byte
-- alone, whether or not the ranges overlap.
pub memmove_lem : (m : Memory) (dst src n k : ℕ) → memmove m dst src n k ≡ moved m dst src n k
unfolding memmove
memmove_lem m dst src n k = elim (Bool-cases (ltb src dst && ltb dst (src + n))) [
  | inl overlap ↦ rw overlap (copy_down_lem n m dst src k (ground arith))
  | inr apart ↦ rw apart (copy_up_lem n m dst src k (disjoint apart))
]
  where
    disjoint : (ltb src dst && ltb dst (src + n)) ≡ false → (dst ≤ src) ⊎ (src + n ≤ dst)
    disjoint h = elim (Bool-cases (ltb src dst)) [
      | inl before ↦ inr (ground arith)
      | inr after ↦ inl (ground arith)
    ]
