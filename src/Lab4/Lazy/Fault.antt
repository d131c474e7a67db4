-- ===== src/Lab4/Lazy/Fault.antt =====
-- lab4/xv6-public: the page fault of trap.c, on a page directory whose tables are pages of their own.
use cs.Prelude.{
  ℕ, ◌+◌, ◌-◌, ◌/◌, ◌%◌, ◌^◌, ◌<◌, ◌≡◌, ◌≢◌, inl, inr, refl, ap, arith, Bool, true, false, ◌&&◌,
  not, List, ◌∷◌, none, some, if◌then◌else◌, ◌==◌, Bool-cases,
}
use cs.Xv6.Kalloc.{pg_size, kalloc}
use cs.Lab4.Vm.{
  Ram, put_word, new_page, pdx, ptx, pg_round_down, pte_addr, is_present, make_pte, pte_w_u, v2p,
  p2v, walkpgdir, map_page, map_from, mappages, entry_of,
}
use cs.Lab4.Copy.Keeps.{IsPage, listed, p2v-make_pte}
use cs.Lab4.Lazy.{page_fault}

-- The page table that an entry of the directory names.
abbrev pub table_at : ℕ → ℕ → Ram → ℕ
table_at pgdir i r = p2v (pte_addr (r.word pgdir i))

-- The directory and its tables are pages apart from each other and from the free ones.
pub record IsDir (pgdir : ℕ) (r : Ram) : Type 0 where
  pub dir_used : listed pgdir r.free ≡ false
  pub table_used :
      (i : ℕ) → is_present (r.word pgdir i) ≡ true → listed (table_at pgdir i r) r.free ≡ false
  pub table_apart : (i : ℕ) → is_present (r.word pgdir i) ≡ true → table_at pgdir i r ≢ pgdir
  pub distinct :
      (i j : ℕ)
      → is_present (r.word pgdir i) ≡ true
      → is_present (r.word pgdir j) ≡ true
      → table_at pgdir i r ≡ table_at pgdir j r
      → i ≡ j

-- The address `b` is in another page than `a`.
abbrev pub is_elsewhere : ℕ → ℕ → Bool
is_elsewhere a b = not ((pdx a == pdx b) && (ptx a == ptx b))

-- The page of `a` is mapped to `v`, cleared, and no other page's entry has changed.
pub record IsMapped (pgdir a v : ℕ) (r r' : Ram) : Type 0 where
  pub entry : entry_of pgdir a r' ≡ some (make_pte (v2p v) pte_w_u)
  pub zeroed : (k : ℕ) → r'.word v k ≡ 0
  pub others : (b : ℕ) → is_elsewhere a b ≡ true → entry_of pgdir b r' ≡ entry_of pgdir b r

-- The pages after `v` was taken.
abbrev taken_from : ℕ → List ℕ → Ram → Ram
taken_from v rest r = record { free = rest; word = λ w k. if w == v then 0 else r.word w k }

new_page-take :
    (v : ℕ) (rest : List ℕ) (r : Ram)
    → r.free ≡ v ∷ rest
    → v ≢ 0
    → new_page r ≡ some (v, taken_from v rest r)
unfolding kalloc
new_page-take v rest r e real = ground (arith, e, real)

module _ (pgdir a v : ℕ) (r : Ram) (dir : IsDir pgdir r) (page : IsPage v) where
  -- The page has a page table.
  map_page-table :
      (rest : List ℕ)
      → r.free ≡ v ∷ rest
      → is_present (r.word pgdir (pdx a)) ≡ true
      → entry_of pgdir a r ≡ none
      → (r' : Ram) × (map_page pgdir a (v2p v) pte_w_u (taken_from v rest r) ≡ some (true, r'))
        × IsMapped pgdir a v r r'
  unfolding map_page walkpgdir
  map_page-table rest e there gap =
      let s = taken_from v rest r in
      let t = table_at pgdir (pdx a) r in
      let apart : t ≢ v = λ q. ground (arith, dir.table_used (pdx a) there, ap (listed t) e, q) in
      let away : pgdir ≢ v = λ q. ground (arith, dir.dir_used, ap (listed pgdir) e, q) in
      let off = dir.table_apart (pdx a) there in
      (
        put_word s t (ptx a) (make_pte (v2p v) pte_w_u),
        ground (arith, there, gap, apart, away),
        record {
          entry = ground (arith, there, away, off, apart, page);
          zeroed = λ k. ground (arith, apart);
          others = λ b far. elim (Bool-cases (is_present (r.word pgdir (pdx b)))) [
            | inr absent ↦ ground (arith, absent, away, off)
            | inl present ↦
                let tb = table_at pgdir (pdx b) r in
                let from_v : tb ≢ v =
                  λ q. ground (arith, dir.table_used (pdx b) present, ap (listed tb) e, q) in
                ground (
                  arith,
                  present,
                  away,
                  off,
                  from_v,
                  far,
                  dir.distinct (pdx b) (pdx a) present there,
                )
          ];
        },
      )

  -- The page table is a new page, too.
  map_page-new_table :
      (u : ℕ) (rest : List ℕ)
      → r.free ≡ v ∷ u ∷ rest
      → u ≢ v
      → IsPage u
      → is_present (r.word pgdir (pdx a)) ≡ false
      → (r' : Ram) × (map_page pgdir a (v2p v) pte_w_u (taken_from v (u ∷ rest) r)
          ≡ some (true, r'))
        × IsMapped pgdir a v r r'
  unfolding map_page walkpgdir
  map_page-new_table u rest e other upage absent =
      let s = taken_from v (u ∷ rest) r in
      let s1 = taken_from u rest s in
      let s2 = put_word s1 pgdir (pdx a) (make_pte (v2p u) pte_w_u) in
      let taken : new_page s ≡ some (u, s1) = new_page-take u rest s refl (omega (arith, upage)) in
      let away : pgdir ≢ v = λ q. ground (arith, dir.dir_used, ap (listed pgdir) e, q) in
      let off : pgdir ≢ u = λ q. ground (arith, dir.dir_used, ap (listed pgdir) e, q) in
      let back : p2v (pte_addr (make_pte (v2p u) pte_w_u)) ≡ u =
        p2v-make_pte u pte_w_u upage (omega arith) in
      (
        put_word s2 u (ptx a) (make_pte (v2p v) pte_w_u),
        ground (arith, absent, away, off, taken),
        record {
          entry = ground (arith, absent, away, off, back, page);
          zeroed = λ k. ground (arith, other, away);
          others = λ b far. elim (Bool-cases (is_present (r.word pgdir (pdx b)))) [
            | inr none_there ↦ ground (arith, none_there, absent, away, off, back, far)
            | inl present ↦
                let tb = table_at pgdir (pdx b) r in
                let from_v : tb ≢ v =
                  λ q. ground (arith, dir.table_used (pdx b) present, ap (listed tb) e, q) in
                let from_u : tb ≢ u =
                  λ q. ground (arith, dir.table_used (pdx b) present, ap (listed tb) e, q) in
                ground (
                  arith,
                  present,
                  absent,
                  away,
                  off,
                  from_v,
                  from_u,
                  dir.table_apart (pdx b) present,
                  ap (λ i. is_present (r.word pgdir i)) {x = pdx b} {y = pdx a},
                )
          ];
        },
      )

round_down-page : (a : ℕ) → (pdx (pg_round_down a) ≡ pdx a) × (ptx (pg_round_down a) ≡ ptx a)
round_down-page a = (omega arith, omega arith)

-- mappages on one page.
mappages-page :
    (pgdir a pa perm : ℕ) (r : Ram)
    → a < 2 ^ 32
    → mappages pgdir (pg_round_down a) pg_size pa perm r
      ≡ map_page pgdir (pg_round_down a) pa perm r
unfolding mappages map_from
mappages-page pgdir a pa perm r small =
    let start : pg_round_down (pg_round_down a) ≡ pg_round_down a = omega arith in
    let last : pg_round_down ((pg_round_down a + pg_size + 2 ^ 32 - 1) % 2 ^ 32) ≡ pg_round_down a =
      omega (arith, small) in
    let one : (pg_round_down a + 2 ^ 32 - pg_round_down a) % 2 ^ 32 / pg_size ≡ 0 = omega arith in
    rw (start, last, one) refl

page_fault-page :
    (kernel_end pgdir cr2 v : ℕ) (r s r' : Ram)
    → cr2 < 2 ^ 32
    → new_page r ≡ some (v, s)
    → map_page pgdir (pg_round_down cr2) (v2p v) pte_w_u s ≡ some (true, r')
    → page_fault kernel_end pgdir cr2 r ≡ some r'
unfolding page_fault
page_fault-page kernel_end pgdir cr2 v r s r' small had mapped =
    ground (arith, had, mapped, mappages-page pgdir cr2 (v2p v) pte_w_u s small)

-- On a page directory whose tables are pages apart from it, from each other and from the free
-- ones, with two free pages at least: a page fault at an address below 2^32 whose page has no
-- present entry succeeds. The page is then mapped for the user to the first free page, which is
-- cleared, and the entry of every other page is as before.
pub page_fault_maps :
    (kernel_end pgdir cr2 v u : ℕ) (rest : List ℕ) (r : Ram)
    → cr2 < 2 ^ 32
    → IsDir pgdir r
    → r.free ≡ v ∷ u ∷ rest
    → u ≢ v
    → IsPage v
    → IsPage u
    → entry_of pgdir cr2 r ≡ none
    → (r' : Ram) × (page_fault kernel_end pgdir cr2 r ≡ some r') × IsMapped pgdir cr2 v r r'
unfolding walkpgdir
page_fault_maps kernel_end pgdir cr2 v u rest r small dir e other vpage upage gap =
    let a = pg_round_down cr2 in
    let (same_pdx, same_ptx) = round_down-page cr2 in
    let had : new_page r ≡ some (v, taken_from v (u ∷ rest) r) =
      new_page-take v (u ∷ rest) r e (omega (arith, vpage)) in
    let gap' : entry_of pgdir a r ≡ none = ground (arith, gap, same_pdx, same_ptx) in
    let (r', mapped, is) = found a gap' in
    (
      r',
      page_fault-page kernel_end pgdir cr2 v r _ r' small had mapped,
      record {
        entry = ground (arith, is.entry, same_pdx, same_ptx);
        zeroed = is.zeroed;
        others = λ b far. is.others b (ground (arith, far, same_pdx, same_ptx));
      },
    )
  where
    found :
        (a : ℕ)
        → entry_of pgdir a r ≡ none
        → (r' : Ram) × (map_page pgdir a (v2p v) pte_w_u (taken_from v (u ∷ rest) r)
            ≡ some (true, r'))
          × IsMapped pgdir a v r r'
    found a gap = elim (Bool-cases (is_present (r.word pgdir (pdx a)))) [
      | inl there ↦ map_page-table pgdir a v r dir vpage (u ∷ rest) e there gap
      | inr absent ↦ map_page-new_table pgdir a v r dir vpage u rest e other upage absent
    ]

-- On a page directory whose tables are pages apart from the free ones, with a free page: a page
-- fault at an address below 2^32 whose page has a present entry panics.
pub page_fault_remap :
    (kernel_end pgdir cr2 v pte : ℕ) (rest : List ℕ) (r : Ram)
    → cr2 < 2 ^ 32
    → IsDir pgdir r
    → r.free ≡ v ∷ rest
    → IsPage v
    → entry_of pgdir cr2 r ≡ some pte
    → page_fault kernel_end pgdir cr2 r ≡ none
unfolding page_fault map_page walkpgdir
page_fault_remap kernel_end pgdir cr2 v pte rest r small dir e vpage there =
    let a = pg_round_down cr2 in
    let s = taken_from v rest r in
    let (same_pdx, same_ptx) = round_down-page cr2 in
    let had : new_page r ≡ some (v, s) = new_page-take v rest r e (omega (arith, vpage)) in
    let table : is_present (r.word pgdir (pdx cr2)) ≡ true = ground (arith, there) in
    let t = table_at pgdir (pdx cr2) r in
    let apart : t ≢ v = λ q. ground (arith, dir.table_used (pdx cr2) table, ap (listed t) e, q) in
    let away : pgdir ≢ v = λ q. ground (arith, dir.dir_used, ap (listed pgdir) e, q) in
    let panics : map_page pgdir a (v2p v) pte_w_u s ≡ none =
      ground (arith, there, table, apart, away, same_pdx, same_ptx) in
    ground (arith, had, panics, mappages-page pgdir cr2 (v2p v) pte_w_u s small)
