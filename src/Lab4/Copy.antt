-- ===== src/Lab4/Copy.antt =====
-- lab4/xv6-public/vm.c: setupkvm, copyuvm and the functions that reach user memory.
pub mod Keeps
pub mod Absent
use cs.Prelude.{
  ℕ, zero, suc, ◌+◌, ◌-◌, ◌*◌, ◌/◌, ◌%◌, ◌^◌, Bool, true, false, ◌&&◌, not, List, [], ◌∷◌, Option,
  none, some, if◌then◌else◌, ◌==◌, ltb, leb,
}
use cs.Xv6.Kalloc.{pg_size, kern_base, phys_stop, pg_round_up, kalloc, kfree}
use cs.Lab4.Vm.{
  Ram, put_word, new_page, pdx, ptx, pg_round_down, pte_addr, pte_flags, is_present, is_user,
  pte_w_u, v2p, p2v, walkpgdir, mappages, entry_of,
}
use cs.Lab4.Unmap.{free_page, deallocuvm, freevm}

-- `kmap`: virtual address, physical start and end, and permissions. `kdata` is the symbol `data`.
pub record Kmap : Type 0 where
  pub virt : ℕ
  pub phys_start : ℕ
  pub phys_end : ℕ
  pub perm : ℕ

abbrev pub kmap : ℕ → List Kmap
kmap kdata =
    record { virt = kern_base; phys_start = 0; phys_end = 0x100000; perm = 2 }
    ∷ record { virt = kern_base + 0x100000; phys_start = 0x100000; phys_end = v2p kdata; perm = 0 }
    ∷ record { virt = kdata; phys_start = v2p kdata; phys_end = phys_stop; perm = 2 }
    ∷ record { virt = 0xFE000000; phys_start = 0xFE000000; phys_end = 0; perm = 2 }
    ∷ []

-- The loop of setupkvm: whether all entries are mapped.
unfoldable pub map_kernel : ℕ → List Kmap → Ram → Option (Bool × Ram)
map_kernel pgdir [] r = some (true, r)
map_kernel pgdir (k ∷ ks) r =
    elim (mappages pgdir k.virt ((k.phys_end + 2 ^ 32 - k.phys_start) % 2 ^ 32) k.phys_start k.perm
      r) [
        | none ↦ none
        | some (false, r') ↦ some (false, r')
        | some (true, r') ↦ map_kernel pgdir ks r'
      ]

-- Free `pgdir` after a failure; the result is 0.
abbrev pub give_up : ℕ → ℕ → Ram → Option (Option ℕ × Ram)
give_up kernel_end pgdir r = elim (freevm kernel_end pgdir r) [
  | none ↦ none
  | some r' ↦ some (none, r')
]

unfoldable pub setupkvm : ℕ → ℕ → Ram → Option (Option ℕ × Ram)
setupkvm kernel_end kdata r = elim (new_page r) [
  | none ↦ some (none, r)
  | some (pgdir, r') ↦ elim (map_kernel pgdir (kmap kdata) r') [
    | none ↦ none
    | some (false, r'') ↦ give_up kernel_end pgdir r''
    | some (true, r'') ↦ some (some pgdir, r'')
  ]
]

-- One round of the loop of copyuvm: whether the page was copied; `none` is one of its two panics, or
-- that of mappages.
unfoldable pub copy_page : ℕ → ℕ → ℕ → ℕ → Ram → Option (Bool × Ram)
copy_page kernel_end pgdir d i r = elim (entry_of pgdir i r) [
  | none ↦ none
  | some e ↦ elim (new_page r) [
    | none ↦ some (false, r)
    | some (v, r') ↦
        let filled = record r' {
          word = λ w k. if w == v then r.word (p2v (pte_addr e)) k else r'.word w k;
        } in
        elim (mappages d i pg_size (v2p v) (pte_flags e) filled) [
          | none ↦ none
          | some (true, r'') ↦ some (true, r'')
          | some (false, r'') ↦ elim (free_page kernel_end v r'') [
            | none ↦ none
            | some r3 ↦ some (false, r3)
          ]
        ]
  ]
]

unfoldable pub copy_from : ℕ → ℕ → ℕ → ℕ → ℕ → Ram → Option (Bool × Ram)
copy_from zero kernel_end pgdir d i r = some (true, r)
copy_from (suc n) kernel_end pgdir d i r = elim (copy_page kernel_end pgdir d i r) [
  | none ↦ none
  | some (false, r') ↦ some (false, r')
  | some (true, r') ↦ copy_from n kernel_end pgdir d (i + pg_size) r'
]

-- The new page directory, or `none` inside for 0.
unfoldable pub copyuvm : ℕ → ℕ → ℕ → ℕ → Ram → Option (Option ℕ × Ram)
copyuvm kernel_end kdata pgdir sz r = elim (setupkvm kernel_end kdata r) [
  | none ↦ none
  | some (none, r') ↦ some (none, r')
  | some (some d, r') ↦ elim (copy_from ((sz + pg_size - 1) / pg_size) kernel_end pgdir d 0 r') [
    | none ↦ none
    | some (true, r'') ↦ some (some d, r'')
    | some (false, r'') ↦ give_up kernel_end d r''
  ]
]

-- The loop of allocuvm: whether the pages were had. On a failure the new pages are given back.
unfoldable pub alloc_from : ℕ → ℕ → ℕ → ℕ → ℕ → ℕ → Ram → Option (Bool × Ram)
alloc_from zero kernel_end pgdir a oldsz newsz r = some (true, r)
alloc_from (suc n) kernel_end pgdir a oldsz newsz r = elim (new_page r) [
  | none ↦ elim (deallocuvm kernel_end pgdir newsz oldsz r) [
    | none ↦ none
    | some (_, r') ↦ some (false, r')
  ]
  | some (v, r') ↦ elim (mappages pgdir a pg_size (v2p v) pte_w_u r') [
    | none ↦ none
    | some (true, r'') ↦ alloc_from n kernel_end pgdir (a + pg_size) oldsz newsz r''
    | some (false, r'') ↦ elim (deallocuvm kernel_end pgdir newsz oldsz r'') [
      | none ↦ none
      | some (_, r3) ↦ elim (free_page kernel_end v r3) [ none ↦ none | some r4 ↦ some (false, r4) ]
    ]
  ]
]

-- The new size, or 0.
unfoldable pub allocuvm : ℕ → ℕ → ℕ → ℕ → Ram → Option (ℕ × Ram)
allocuvm kernel_end pgdir oldsz newsz r =
    if leb kern_base newsz
    then some (0, r)
    else if ltb newsz oldsz
    then some (oldsz, r)
    else elim (alloc_from ((newsz + pg_size - 1 - pg_round_up oldsz) / pg_size) kernel_end pgdir
        (pg_round_up oldsz) oldsz newsz r) [
          | none ↦ none
          | some (true, r') ↦ some (newsz, r')
          | some (false, r') ↦ some (0, r')
        ]

-- clearpteu.
unfoldable pub clearpteu : ℕ → ℕ → Ram → Option Ram
clearpteu pgdir uva r = elim ((walkpgdir pgdir uva false r).0) [
  | none ↦ none
  | some (t, j) ↦ let e = r.word t j in some (if is_user e then put_word r t j (e - 4) else r)
]

-- The result of uva2ka: an address, 0, or the read through a null `pte` where there is no page table.
pub data Mapped : Type 0 where
  ka : ℕ → Mapped
  no_ka : Mapped
  null_pte : Mapped

unfoldable pub uva2ka : ℕ → ℕ → Ram → Mapped
uva2ka pgdir uva r = elim ((walkpgdir pgdir uva false r).0) [
  | none ↦ null_pte
  | some (t, j) ↦
      let e = r.word t j in
      if not (is_present e) then no_ka else if not (is_user e) then no_ka else ka (p2v (pte_addr e))
]
