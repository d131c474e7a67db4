-- ===== src/Lab4/Copy/Absent.antt =====
-- lab4/xv6-public: copyuvm, which fork calls, on a process with a page that no fault has allocated.
use cs.Prelude.{
  ℕ, zero, suc, ◌+◌, ◌-◌, ◌*◌, ◌/◌, ◌<◌, ◌≡◌, ◌≢◌, ◌∙◌, ◌⊎◌, inl, inr, refl, ap, arith, Bool, true,
  false, not, List, [], ◌∷◌, Option, none, some, if◌then◌else◌, ◌==◌, Option-cases,
}
use cs.Xv6.Kalloc.{pg_size}
use cs.Lab4.Vm.{Ram, new_page, pte_addr, pte_flags, is_present, v2p, p2v, mappages, entry_of}
use cs.Lab4.Copy.Keeps.{
  IsPage, listed, Taken, new_page-Taken, Within, Keeps, new_page-Keeps, Keeps-trans, mappages-Keeps,
  map_kernel-Keeps, IsForeign, entry_of-Keeps, Keeps-IsForeign,
}
use cs.Lab4.Unmap.{free_page, freevm}
use cs.Lab4.Copy.{kmap, map_kernel, setupkvm, copy_page, copy_from, copyuvm}

module _ (own : ℕ → Bool) (pages : (v : ℕ) → own v ≡ true → IsPage v) (d : ℕ) where
  -- A page that was copied.
  copy_page-Keeps :
      (kernel_end pgdir i : ℕ) (r : Ram) {r' : Ram}
      → Within own pages d r
      → copy_page kernel_end pgdir d i r ≡ some (true, r')
      → Keeps own pages d r r'
  unfolding copy_page
  copy_page-Keeps kernel_end pgdir i r {r'} h e = go (entry_of pgdir i r) refl (new_page r) refl
    where
      filled : ℕ → ℕ → Ram → Ram
      filled pte v s = record s {
        word = λ w k. if w == v then r.word (p2v (pte_addr pte)) k else s.word w k;
      }

      maps : ℕ → ℕ → Ram → Option (Bool × Ram)
      maps pte v s = mappages d i pg_size (v2p v) (pte_flags pte) (filled pte v s)

      mapped :
          (pte v : ℕ) (s : Ram) (o : Option (Bool × Ram))
          → maps pte v s ≡ o
          → entry_of pgdir i r ≡ some pte
          → new_page r ≡ some (v, s)
          → maps pte v s ≡ some (true, r')
      mapped pte v s none m p q = absurd (ground (arith, e, p, q, m))
      mapped pte v s (some (true, t)) m p q = ground (arith, e, p, q, m)
      mapped pte v s (some (false, t)) m p q = elim (Option-cases (free_page kernel_end v t)) [
        | inl z ↦ absurd (ground (arith, e, p, q, m, z))
        | inr (u, z) ↦ absurd (ground (arith, e, p, q, m, z))
      ]

      go :
          (o : Option ℕ)
          → entry_of pgdir i r ≡ o
          → (n : Option (ℕ × Ram)) → new_page r ≡ n
          → Keeps own pages d r r'
      go none p n q = absurd (ground (arith, e, p))
      go (some pte) p none q = absurd (ground (arith, e, p, q))
      go (some pte) p (some (v, s)) q =
          let (k, mine, away) = new_page-Keeps own pages d r h q in
          let f : Keeps own pages d r (filled pte v s) = record {
            within = record {
              dir = h.dir;
              off_list = k.within.off_list;
              tables = λ l there. ground (arith, k.within.tables l, there, away);
              free_list = k.within.free_list;
            };
            others = λ w l o. ground (arith, o, k.others w l, mine, ap own {x = w} {y = v});
          } in
          let done : maps pte v s ≡ some (true, r') = mapped pte v s (maps pte v s) refl p q in
          Keeps-trans own pages d f (mappages-Keeps own pages d _ _ _ _ _ f.within done)

  -- The loop never gets past a page with no entry.
  copy_from-absent :
      (n kernel_end pgdir i j : ℕ) (r : Ram) {r' : Ram}
      → Within own pages d r
      → IsForeign own pages d pgdir r
      → j < n
      → entry_of pgdir (i + j * pg_size) r ≡ none
      → copy_from n kernel_end pgdir d i r ≢ some (true, r')
  unfolding copy_from copy_page
  copy_from-absent zero kernel_end pgdir i j r h f small gap e = omega (arith, small)
  copy_from-absent (suc n) kernel_end pgdir i zero r h f small gap e =
      absurd (ground (arith, e, here))
    where
      here : copy_page kernel_end pgdir d i r ≡ none
      here =
          let at : i + 0 * pg_size ≡ i = omega arith in
          let gone : entry_of pgdir i r ≡ none = rw (← at) gap in ground (arith, gone)
  copy_from-absent (suc n) kernel_end pgdir i (suc j) r {r'} h f small gap e =
      go
        (λ s w g q.
          copy_from-absent n kernel_end pgdir (i + pg_size) j s {r' = r'} w g (omega (arith, small))
            q)
        (copy_page kernel_end pgdir d i r) refl
    where
      go :
          ((s : Ram)
            → Within own pages d s
            → IsForeign own pages d pgdir s
            → entry_of pgdir (i + pg_size + j * pg_size) s ≡ none
            → copy_from n kernel_end pgdir d (i + pg_size) s ≢ some (true, r'))
          → (o : Option (Bool × Ram)) → copy_page kernel_end pgdir d i r ≡ o
          → ⊥
      go rest none q = absurd (ground (arith, e, q))
      go rest (some (false, s)) q = absurd (ground (arith, e, q))
      go rest (some (true, s)) q =
          let k = copy_page-Keeps kernel_end pgdir i r h q in
          let at : i + pg_size + j * pg_size ≡ i + suc j * pg_size = omega arith in
          rest s k.within (Keeps-IsForeign own pages d pgdir f k)
            (entry_of-Keeps own pages d pgdir _ f k ∙ (rw at gap)) (ground (arith, e, q))

-- The pages of the process at `pgdir` are none of the free ones.
abbrev pub IsApart : ℕ → Ram → Type 0
IsApart pgdir r =
    (listed pgdir r.free ≡ false)
    × ((i : ℕ)
        → is_present (r.word pgdir i) ≡ true
        → listed (p2v (pte_addr (r.word pgdir i))) r.free ≡ false)

-- The first free page is on the list once.
abbrev pub is_once : List ℕ → Bool
is_once [] = true
is_once (x ∷ xs) = not (listed x xs)

-- The pages of the new page directory were free ones.
setupkvm-Keeps :
    (kernel_end kdata : ℕ) (r : Ram) (pages : (v : ℕ) → listed v r.free ≡ true → IsPage v) {d : ℕ}
    {r' : Ram}
    → is_once r.free ≡ true
    → setupkvm kernel_end kdata r ≡ some (some d, r')
    → Keeps (λ v. listed v r.free) pages d r r'
unfolding setupkvm
setupkvm-Keeps kernel_end kdata r pages {d} {r'} once e = go (new_page r) refl
  where
    own : ℕ → Bool
    own v = listed v r.free

    cleared : (s : Ram) → Taken r d s → Keeps own pages d r s
    cleared s t = record {
      within = record {
        dir = rw t.first (ground arith);
        off_list = ground (arith, once, ap is_once t.first);
        tables = λ i p. ground (arith, p, t.cleared d i);
        free_list = λ w m. rw t.first (ground (arith, m));
      };
      others = λ w k o. ground (arith, o, ap (listed w) t.first, t.cleared w k);
    }

    mapped :
        (v : ℕ) (s : Ram) (o : Option (Bool × Ram))
        → map_kernel v (kmap kdata) s ≡ o
        → new_page r ≡ some (v, s)
        → (v ≡ d) × (map_kernel v (kmap kdata) s ≡ some (true, r'))
    mapped v s none m q = absurd (ground (arith, e, q, m))
    mapped v s (some (true, u)) m q = (ground (arith, e, q, m), ground (arith, e, q, m))
    mapped v s (some (false, u)) m q = elim (Option-cases (freevm kernel_end v u)) [
      | inl z ↦ absurd (ground (arith, e, q, m, z))
      | inr (x, z) ↦ absurd (ground (arith, e, q, m, z))
    ]

    go : (n : Option (ℕ × Ram)) → new_page r ≡ n → Keeps own pages d r r'
    go none q = absurd (ground (arith, e, q))
    go (some (v, s)) q =
        let (same, m) = mapped v s (map_kernel v (kmap kdata) s) refl q in
        let taken : new_page r ≡ some (d, s) = rw (← same) q in
        let k = cleared s (new_page-Taken r taken) in
        Keeps-trans own pages d k (
          map_kernel-Keeps own pages d (kmap kdata) s {b = true} {r' = r'} k.within (rw (← same) m))

-- The call does not give a page directory.
copyuvm-none :
    (kernel_end kdata pgdir sz j : ℕ) (r : Ram)
    → ((v : ℕ) → listed v r.free ≡ true → IsPage v)
    → is_once r.free ≡ true
    → IsApart pgdir r
    → j * pg_size < sz
    → entry_of pgdir (j * pg_size) r ≡ none
    → (d : ℕ) (r' : Ram) → copyuvm kernel_end kdata pgdir sz r ≢ some (some d, r')
unfolding copyuvm
copyuvm-none kernel_end kdata pgdir sz j r pages once (da, ta) small gap d r' e =
    ground (arith, go (setupkvm kernel_end kdata r) refl)
  where
    own : ℕ → Bool
    own v = listed v r.free

    n : ℕ
    n = (sz + pg_size - 1) / pg_size

    copied :
        (c : ℕ) (s : Ram) (o : Option (Bool × Ram))
        → copy_from n kernel_end pgdir c 0 s ≡ o
        → setupkvm kernel_end kdata r ≡ some (some c, s)
        → (c ≡ d) × (copy_from n kernel_end pgdir c 0 s ≡ some (true, r'))
    copied c s none m q = absurd (ground (arith, e, q, m))
    copied c s (some (true, u)) m q = (ground (arith, e, q, m), ground (arith, e, q, m))
    copied c s (some (false, u)) m q = elim (Option-cases (freevm kernel_end c u)) [
      | inl z ↦ absurd (ground (arith, e, q, m, z))
      | inr (x, z) ↦ absurd (ground (arith, e, q, m, z))
    ]

    go : (o : Option (Option ℕ × Ram)) → setupkvm kernel_end kdata r ≡ o → true ≡ false
    go none q = ground (arith, e, q)
    go (some (none, s)) q = ground (arith, e, q)
    go (some (some c, s)) q =
        let (same, m) = copied c s (copy_from n kernel_end pgdir c 0 s) refl q in
        let k : Keeps own pages d r s =
          setupkvm-Keeps kernel_end kdata r pages once (rw (← same) q) in
        let at : 0 + j * pg_size ≡ j * pg_size = omega arith in
        let f : IsForeign own pages d pgdir r = record { dir_apart = da; tables_apart = ta } in
        absurd (
          copy_from-absent own pages d n kernel_end pgdir 0 j s {r' = r'} k.within
            (Keeps-IsForeign own pages d pgdir f k) (omega (arith, small))
            (entry_of-Keeps own pages d pgdir (0 + j * pg_size) f k ∙ rw at gap) (rw (← same) m))

-- When all free pages are pages of the kernel, the first is free once, and none of them belongs
-- to the page directory of a process: if a page below the process's size has no present entry,
-- copyuvm panics or gives 0, never a copy.
pub copyuvm_absent :
    (kernel_end kdata pgdir sz j : ℕ) (r : Ram)
    → ((v : ℕ) → listed v r.free ≡ true → IsPage v)
    → is_once r.free ≡ true
    → IsApart pgdir r
    → j * pg_size < sz
    → entry_of pgdir (j * pg_size) r ≡ none
    → (copyuvm kernel_end kdata pgdir sz r ≡ none)
      ⊎ ((r' : Ram) × (copyuvm kernel_end kdata pgdir sz r ≡ some (none, r')))
copyuvm_absent kernel_end kdata pgdir sz j r pages once apart small gap =
    elim (Option-cases (copyuvm kernel_end kdata pgdir sz r)) [
      | inl panics ↦ inl panics
      | inr ((none, r'), e) ↦ inr (r', e)
      | inr ((some d, r'), e) ↦
          absurd (copyuvm-none kernel_end kdata pgdir sz j r pages once apart small gap d r' e)
    ]
