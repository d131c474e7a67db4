-- ===== src/Lab4/Lazy.antt =====
-- lab4/xv6-public: sys_sbrk of sysproc.c and the page fault of trap.c.
pub mod Fault
use cs.Prelude.{ℕ, ◌+◌, ◌-◌, ◌%◌, ◌^◌, Bool, true, false, Option, none, some, if◌then◌else◌, ◌==◌}
use cs.Prelude.Int.{ℤ, pos, negsuc}
use cs.Xv6.Kalloc.{pg_size}
use cs.Lab4.Vm.{Ram, new_page, pg_round_down, pte_w_u, v2p, mappages}
use cs.Lab4.Unmap.{free_page}

-- `sz` as an `uint`: the size before, which is the result, and the size after.
unfoldable pub sys_sbrk : ℤ → ℕ → ℕ × ℕ
sys_sbrk (pos n) sz = (sz, (sz + n) % 2 ^ 32)
sys_sbrk (negsuc n) sz = (sz, (sz + 2 ^ 32 - (n + 1) % 2 ^ 32) % 2 ^ 32)

-- The branch of trap on T_PGFLT for a process in user space, at the address `cr2`.
unfoldable pub page_fault : ℕ → ℕ → ℕ → Ram → Option Ram
page_fault kernel_end pgdir cr2 r = elim (new_page r) [
  | none ↦ some r
  | some (v, r') ↦ elim (mappages pgdir (pg_round_down cr2) pg_size (v2p v) pte_w_u r') [
    | none ↦ none
    | some (true, r'') ↦ some r''
    | some (false, r'') ↦ free_page kernel_end v r''
  ]
]
