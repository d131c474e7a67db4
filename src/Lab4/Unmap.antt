-- ===== src/Lab4/Unmap.antt =====
-- lab4/xv6-public/vm.c: deallocuvm and freevm. What kfree writes into a page is not recorded: a freed
-- page is cleared or overwritten before it is read.
use cs.Prelude.{
  ℕ, zero, suc, ◌+◌, ◌*◌, ◌/◌, ◌^◌, true, false, not, Option, none, some, if◌then◌else◌, ◌==◌, ltb,
  leb,
}
use cs.Xv6.Kalloc.{pg_size, kern_base, pg_round_up, kfree}
use cs.Lab4.Vm.{Ram, put_word, pdx, pte_addr, is_present, p2v, walkpgdir}

abbrev pub free_page : ℕ → ℕ → Ram → Option Ram
free_page kernel_end v r = elim (kfree kernel_end r.free v) [
  | none ↦ none
  | some l ↦ some (record r { free = l })
]

-- One round of the loop of deallocuvm, and the address of the next round.
unfoldable pub unmap_page : ℕ → ℕ → ℕ → Ram → Option (ℕ × Ram)
unmap_page kernel_end pgdir a r =
    let (pte, _) = walkpgdir pgdir a false r in
    elim pte [
      | none ↦ some ((pdx a + 1) * 2 ^ 22, r)
      | some (t, j) ↦
          let e = r.word t j in
          if not (is_present e)
          then some (a + pg_size, r)
          else if pte_addr e == 0
          then none
          else elim (free_page kernel_end (p2v (pte_addr e)) r) [
            | none ↦ none
            | some r' ↦ some (a + pg_size, put_word r' t j 0)
          ]
    ]

unfoldable pub unmap_from : ℕ → ℕ → ℕ → ℕ → ℕ → Ram → Option Ram
unmap_from zero kernel_end pgdir a oldsz r = some r
unmap_from (suc n) kernel_end pgdir a oldsz r = elim (ltb a oldsz) [
  | false ↦ some r
  | true ↦ elim (unmap_page kernel_end pgdir a r) [
    | none ↦ none
    | some (b, r') ↦ unmap_from n kernel_end pgdir b oldsz r'
  ]
]

-- The new size; each round goes on by a page at least.
unfoldable pub deallocuvm : ℕ → ℕ → ℕ → ℕ → Ram → Option (ℕ × Ram)
deallocuvm kernel_end pgdir oldsz newsz r =
    if leb oldsz newsz
    then some (oldsz, r)
    else elim (unmap_from (oldsz / pg_size + 1) kernel_end pgdir (pg_round_up newsz) oldsz r) [
      | none ↦ none
      | some r' ↦ some (newsz, r')
    ]

-- The loop of freevm over the page tables.
unfoldable pub free_tables : ℕ → ℕ → ℕ → ℕ → Ram → Option Ram
free_tables zero kernel_end pgdir i r = some r
free_tables (suc n) kernel_end pgdir i r = elim (is_present (r.word pgdir i)) [
  | false ↦ free_tables n kernel_end pgdir (i + 1) r
  | true ↦ elim (free_page kernel_end (p2v (pte_addr (r.word pgdir i))) r) [
    | none ↦ none
    | some r' ↦ free_tables n kernel_end pgdir (i + 1) r'
  ]
]

unfoldable pub freevm : ℕ → ℕ → Ram → Option Ram
freevm kernel_end pgdir r =
    if pgdir == 0 then none else elim (deallocuvm kernel_end pgdir kern_base 0 r) [
      | none ↦ none
      | some (_, r') ↦ elim (free_tables 1024 kernel_end pgdir 0 r') [
        | none ↦ none
        | some r'' ↦ free_page kernel_end pgdir r''
      ]
    ]
