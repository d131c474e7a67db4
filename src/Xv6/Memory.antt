-- ===== src/Xv6/Memory.antt =====
-- lab3/xv6-public/string.c: the kernel's routines on memory. A memory gives the byte at each address;
-- addresses are numbers, and no range wraps round the address space.
pub mod Move
pub mod Strings
use cs.Prelude.{
  ℕ, zero, suc, ◌+◌, ◌-◌, ◌*◌, ◌%◌, ◌^◌, Bool, true, false, ◌&&◌, ◌||◌, if◌then◌else◌, ◌==◌, ltb,
}
use cs.Prelude.Int.{ℤ, pos, negsuc, sub_ℕ}

abbrev pub Memory : Type 0
Memory = ℕ → ℕ

unfoldable pub poke : Memory → ℕ → ℕ → Memory
poke m a v k = if k == a then v else m k

-- `stosb` and `stosl` both store the low byte of `c` at each of the `n` addresses.
unfoldable pub memset : Memory → ℕ → ℕ → ℕ → Memory
memset m dst c zero = m
memset m dst c (suc n) = memset (poke m dst (c % 256)) (dst + 1) c n

unfoldable pub memcmp : Memory → ℕ → ℕ → ℕ → ℤ
memcmp m a b zero = pos 0
memcmp m a b (suc n) = if m a == m b then memcmp m (a + 1) (b + 1) n else sub_ℕ (m a) (m b)

-- `while (n-- > 0) *d++ = *s++;`
unfoldable pub copy_up : Memory → ℕ → ℕ → ℕ → Memory
copy_up m d s zero = m
copy_up m d s (suc n) = copy_up (poke m d (m s)) (d + 1) (s + 1) n

-- `while (n-- > 0) *--d = *--s;`, with `d` and `s` the addresses before the ranges' ends.
unfoldable pub copy_down : Memory → ℕ → ℕ → ℕ → Memory
copy_down m d s zero = m
copy_down m d s (suc n) = copy_down (poke m (d + n) (m (s + n))) d s n

unfoldable pub memmove : Memory → ℕ → ℕ → ℕ → Memory
memmove m dst src n =
    if ltb src dst && ltb dst (src + n) then copy_down m dst src n else copy_up m dst src n

unfoldable pub strncmp : Memory → ℕ → ℕ → ℕ → ℤ
strncmp m p q zero = pos 0
strncmp m p q (suc n) =
    if m p == 0
    then sub_ℕ (m p) (m q)
    else if m p == m q
    then strncmp m (p + 1) (q + 1) n
    else sub_ℕ (m p) (m q)

-- `while (n-- > 0) *s++ = 0;`
unfoldable pub pad : Memory → ℕ → ℕ → Memory
pad m s zero = m
pad m s (suc n) = pad (poke m s 0) (s + 1) n

unfoldable pub strncpy : Memory → ℕ → ℕ → ℕ → Memory
strncpy m s t zero = m
strncpy m s t (suc n) =
    let m' = poke m s (m t) in
    let rest = strncpy m' (s + 1) (t + 1) n in if m t == 0 then pad m' (s + 1) n else rest

-- The loop of safestrcpy, and then `*s = 0`: `n` counts what `--n` leaves.
unfoldable pub safe_loop : Memory → ℕ → ℕ → ℕ → Memory
safe_loop m s t zero = poke m s 0
safe_loop m s t (suc n) =
    let m' = poke m s (m t) in
    let rest = safe_loop m' (s + 1) (t + 1) n in if m t == 0 then poke m' (s + 1) 0 else rest

unfoldable pub safestrcpy : Memory → ℕ → ℕ → ℕ → Memory
safestrcpy m s t zero = m
safestrcpy m s t (suc n) = safe_loop m s t n

-- `for (n = 0; s[n]; n++)`, on fuel.
unfoldable pub strlen_from : ℕ → Memory → ℕ → ℕ → ℕ
strlen_from zero m s n = n
strlen_from (suc fuel) m s n =
    let rest = strlen_from fuel m s (n + 1) in if m (s + n) == 0 then n else rest
