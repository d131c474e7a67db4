-- ===== src/Lab4/Vm.antt =====
-- lab4/xv6-public/vm.c: page tables of two levels in pages of 1024 words. A page has a kernel address;
-- the physical one is below it by KERNBASE. `none` is a panic.
use cs.Prelude.{
  ℕ, zero, suc, ◌+◌, ◌-◌, ◌*◌, ◌/◌, ◌%◌, ◌^◌, Bool, true, false, ◌&&◌, not, List, Option, none,
  some, if◌then◌else◌, ◌==◌,
}
use cs.Xv6.Kalloc.{pg_size, kern_base, kalloc}

-- `kmem.freelist`, and the words of every page.
pub record Ram : Type 0 where
  pub free : List ℕ
  pub word : ℕ → ℕ → ℕ

abbrev pub put_word : Ram → ℕ → ℕ → ℕ → Ram
put_word r v j x = record r { word = λ w k. if (w == v) && (k == j) then x else r.word w k }

-- A page taken from the list and cleared by memset; `none` where kalloc gives 0.
abbrev pub new_page : Ram → Option (ℕ × Ram)
new_page r =
    let (v, rest) = kalloc r.free in
    if v == 0
    then none
    else some (v, record { free = rest; word = λ w k. if w == v then 0 else r.word w k })

abbrev pub pdx : ℕ → ℕ
pdx va = va / 2 ^ 22 % 1024

abbrev pub ptx : ℕ → ℕ
ptx va = va / 2 ^ 12 % 1024

abbrev pub pg_round_down : ℕ → ℕ
pg_round_down a = a / pg_size * pg_size

abbrev pub pte_addr : ℕ → ℕ
pte_addr e = e / 4096 * 4096

abbrev pub pte_flags : ℕ → ℕ
pte_flags e = e % 4096

-- PTE_P, PTE_W and PTE_U.
abbrev pub is_present : ℕ → Bool
is_present e = e % 2 == 1

abbrev pub is_user : ℕ → Bool
is_user e = e / 4 % 2 == 1

abbrev pub pte_w_u : ℕ
pte_w_u = 2 + 4

abbrev pub v2p : ℕ → ℕ
v2p v = (v + 2 ^ 32 - kern_base) % 2 ^ 32

abbrev pub p2v : ℕ → ℕ
p2v pa = (pa + kern_base) % 2 ^ 32

-- `pa | perm | PTE_P`, for an address of a page.
abbrev pub make_pte : ℕ → ℕ → ℕ
make_pte pa perm = pa + (perm / 2 * 2 + 1)

-- The page table and the index of the entry, or `none` for the result 0.
unfoldable pub walkpgdir : ℕ → ℕ → Bool → Ram → Option (ℕ × ℕ) × Ram
walkpgdir pgdir va alloc r =
    let pde = r.word pgdir (pdx va) in
    if is_present pde
    then (some (p2v (pte_addr pde), ptx va), r)
    else if not alloc
    then (none, r)
    else elim (new_page r) [
      | none ↦ (none, r)
      | some (t, r') ↦ (some (t, ptx va), put_word r' pgdir (pdx va) (make_pte (v2p t) pte_w_u))
    ]

-- One round of the loop of mappages: whether there was a page table, or the panic "remap".
unfoldable pub map_page : ℕ → ℕ → ℕ → ℕ → Ram → Option (Bool × Ram)
map_page pgdir a pa perm r =
    let (pte, r') = walkpgdir pgdir a true r in
    elim pte [
      | none ↦ some (false, r')
      | some (t, j) ↦
          if is_present (r'.word t j) then none else some (true, put_word r' t j (make_pte pa perm))
    ]

-- The loop over `n` more pages after the page `a`.
unfoldable pub map_from : ℕ → ℕ → ℕ → ℕ → ℕ → Ram → Option (Bool × Ram)
map_from zero pgdir a pa perm r = map_page pgdir a pa perm r
map_from (suc n) pgdir a pa perm r = elim (map_page pgdir a pa perm r) [
  | none ↦ none
  | some (false, r') ↦ some (false, r')
  | some (true, r') ↦ map_from n pgdir ((a + pg_size) % 2 ^ 32) ((pa + pg_size) % 2 ^ 32) perm r'
]

-- `true` for 0, `false` for -1.
unfoldable pub mappages : ℕ → ℕ → ℕ → ℕ → ℕ → Ram → Option (Bool × Ram)
mappages pgdir va size pa perm r =
    let last = pg_round_down ((va + size + 2 ^ 32 - 1) % 2 ^ 32) in
    let a = pg_round_down va in map_from ((last + 2 ^ 32 - a) % 2 ^ 32 / pg_size) pgdir a pa perm r

-- The entry of a page, if it is present.
abbrev pub entry_of : ℕ → ℕ → Ram → Option ℕ
entry_of pgdir va r = elim ((walkpgdir pgdir va false r).0) [
  | none ↦ none
  | some (t, j) ↦ if is_present (r.word t j) then some (r.word t j) else none
]
