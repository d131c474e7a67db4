-- ===== src/Xv6/Memory/Strings.antt =====
-- lab3/xv6-public/string.c: the routines on C strings.
use cs.Prelude.{ℕ, zero, suc, ◌+◌, ◌≤◌, ◌<◌, ◌≡◌, ◌⊎◌, arith, ◌==◌, Bool-cases, inl, inr}
use cs.Xv6.Memory.{Memory, poke, safe_loop, safestrcpy}

safe_loop-outside :
    (n : ℕ) (m : Memory) (s t k : ℕ) → (k < s) ⊎ (s + n < k) → safe_loop m s t n k ≡ m k
unfolding safe_loop poke
safe_loop-outside zero m s t k h = ground arith
safe_loop-outside (suc n) m s t k h =
    ground (arith, safe_loop-outside n (poke m s (m t)) (s + 1) (t + 1) k)

safe_loop-ends :
    (n : ℕ) (m : Memory) (s t : ℕ) → (k : ℕ) × (s ≤ k) × (k ≤ s + n) × (safe_loop m s t n k ≡ 0)
unfolding safe_loop poke
safe_loop-ends zero m s t = (s, omega arith, omega arith, ground arith)
safe_loop-ends (suc n) m s t = elim (Bool-cases (m t == 0)) [
  | inl ends ↦ (s + 1, omega arith, omega arith, ground arith)
  | inr on ↦
      let (k, lo, hi, e) = safe_loop-ends n (poke m s (m t)) (s + 1) (t + 1) in
      (k, omega arith, omega arith, rw on e)
]

-- safestrcpy into a buffer of `n` bytes, `n` above 0, leaves a NUL among them and changes no byte
-- outside them.
safestrcpy_lem :
    (m : Memory) (s t n : ℕ)
    → 0 < n
    → ((k : ℕ) × (s ≤ k) × (k < s + n) × (safestrcpy m s t n k ≡ 0))
      × ((k : ℕ) → (k < s) ⊎ (s + n ≤ k) → safestrcpy m s t n k ≡ m k)
unfolding safestrcpy
safestrcpy_lem m s t zero h = absurd (omega arith)
safestrcpy_lem m s t (suc n) h =
    let (k, lo, hi, e) = safe_loop-ends n m s t in
    ((k, lo, omega arith, e), λ j out. safe_loop-outside n m s t j (omega arith))
