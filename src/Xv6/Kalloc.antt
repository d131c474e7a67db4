-- ===== src/Xv6/Kalloc.antt =====
-- lab3/xv6-public/kalloc.c: the allocator of pages. The list is `kmem.freelist`; addresses are numbers.
pub mod Pages
use cs.Prelude.{
  ℕ, zero, suc, ◌+◌, ◌-◌, ◌*◌, ◌/◌, ◌%◌, ◌^◌, Bool, true, false, ◌||◌, not, List, [], ◌∷◌,
  if◌then◌else◌, ltb, leb, ◌==◌, Option, none, some,
}

abbrev pub pg_size : ℕ
pg_size = 4096

-- `KERNBASE` and `PHYSTOP` of memlayout.h.
abbrev pub kern_base : ℕ
kern_base = 0x80000000

abbrev pub phys_stop : ℕ
phys_stop = 0xE000000

-- `kernel_end` is the symbol `end` of the linker script, at or above `KERNBASE`. `none` is the panic.
unfoldable pub kfree : ℕ → List ℕ → ℕ → Option (List ℕ)
kfree kernel_end free v =
    if not (v % pg_size == 0) || ltb v kernel_end || leb phys_stop (v - kern_base)
    then none
    else some (v ∷ free)

-- The address, or 0.
unfoldable pub kalloc : List ℕ → ℕ × List ℕ
kalloc [] = (0, [])
kalloc (r ∷ next) = (r, next)

abbrev pub pg_round_up : ℕ → ℕ
pg_round_up sz = (sz + pg_size - 1) / pg_size * pg_size

-- The loop of freerange from `p`, with at most `n` pages.
unfoldable pub free_from : ℕ → ℕ → ℕ → ℕ → List ℕ → Option (List ℕ)
free_from kernel_end zero p vend free = some free
free_from kernel_end (suc n) p vend free =
    if leb (p + pg_size) vend
    then elim (kfree kernel_end free p) [
      | none ↦ none
      | some free' ↦ free_from kernel_end n (p + pg_size) vend free'
    ]
    else some free

unfoldable pub freerange : ℕ → ℕ → ℕ → List ℕ → Option (List ℕ)
freerange kernel_end vstart vend free =
    free_from kernel_end (vend / pg_size + 1) (pg_round_up vstart) vend free
