-- ===== src/Lab4/Copy/Keeps.antt =====
-- lab4/xv6-public/vm.c: the pages that mappages and setupkvm may write, for a page directory that is
-- being filled.
use cs.Prelude.{
  ℕ, zero, suc, ◌+◌, ◌-◌, ◌%◌, ◌^◌, ◌≤◌, ◌<◌, ◌≡◌, ◌≢◌, ◌∙◌, inl, inr, refl, ap, arith, Bool, true,
  false, ◌||◌, List, [], ◌∷◌, Option, none, some, if◌then◌else◌, ◌==◌, Bool-cases, Option-cases,
}
use cs.Xv6.Kalloc.{pg_size, kern_base, kalloc}
use cs.Lab4.Vm.{
  Ram, put_word, new_page, pdx, ptx, pte_addr, is_present, make_pte, pte_w_u, v2p, p2v, walkpgdir,
  map_page, map_from, mappages, entry_of,
}
use cs.Lab4.Copy.{Kmap, map_kernel}

-- An address of a page of the kernel.
abbrev pub IsPage : ℕ → Type 0
IsPage v = (kern_base ≤ v) × (v < 2 ^ 32) × (v % pg_size ≡ 0)

abbrev pub listed : ℕ → List ℕ → Bool
listed v [] = false
listed v (x ∷ xs) = (v == x) || listed v xs

-- The page of an entry that was made for it.
pub p2v-make_pte :
    (v perm : ℕ) → IsPage v → perm < 4096 → p2v (pte_addr (make_pte (v2p v) perm)) ≡ v
p2v-make_pte v perm h small = omega arith

-- A page that is had was the first of the list.
pub record Taken (r : Ram) (v : ℕ) (r' : Ram) : Type 0 where
  pub first : r.free ≡ v ∷ r'.free
  pub real : v ≢ 0
  pub cleared : (w k : ℕ) → r'.word w k ≡ (if w == v then 0 else r.word w k)

pub new_page-Taken : (r : Ram) {v : ℕ} {r' : Ram} → new_page r ≡ some (v, r') → Taken r v r'
unfolding kalloc
new_page-Taken r {v} {r'} e = go r.free refl
  where
    go : (l : List ℕ) → r.free ≡ l → Taken r v r'
    go [] q = absurd (ground (arith, e, q))
    go (x ∷ xs) q = record {
      first = ground (arith, e, q);
      real = ground (arith, e, q);
      cleared = λ w k. ground (arith, e, q);
    }

-- The page directory `d` stands on pages of the set `own` only, and so will those to come.
module _ (own : ℕ → Bool) (pages : (v : ℕ) → own v ≡ true → IsPage v) (d : ℕ) where
  pub record Within (r : Ram) : Type 0 where
    pub dir : own d ≡ true
    pub off_list : listed d r.free ≡ false
    pub tables :
        (i : ℕ)
        → is_present (r.word d i) ≡ true
        → (own (p2v (pte_addr (r.word d i))) ≡ true) × (p2v (pte_addr (r.word d i)) ≢ d)
    pub free_list : (v : ℕ) → listed v r.free ≡ true → own v ≡ true

  -- What a step keeps: the pages of others, and the rule above.
  pub record Keeps (r r' : Ram) : Type 0 where
    pub within : Within r'
    pub others : (w k : ℕ) → own w ≡ false → r'.word w k ≡ r.word w k

  -- The new page, cleared.
  pub new_page-Keeps :
      (r : Ram) {v : ℕ} {r' : Ram}
      → Within r
      → new_page r ≡ some (v, r')
      → Keeps r r' × (own v ≡ true) × (v ≢ d)
  new_page-Keeps r {v} {r'} h e = (
    record {
      within = record {
        dir = h.dir;
        off_list = ground (arith, h.off_list, t.first, same);
        tables = λ i p. ground (arith, h.tables i, p, t.cleared d (i), away);
        free_list = λ w m. h.free_list w (rw t.first (ground (arith, m)));
      };
      others = λ w k o. ground (arith, o, mine, t.cleared w k, ap own {x = w} {y = v});
    },
    mine,
    away,
  )
    where
      t : Taken r v r'
      t = new_page-Taken r e

      same : listed d r.free ≡ listed d (v ∷ r'.free)
      same = ap (listed d) t.first

      mine : own v ≡ true
      mine = h.free_list v (rw t.first (ground arith))

      away : v ≢ d
      away = λ q. absurd (ground (arith, h.off_list, same, q))

  -- A write into a page of a table, or of an entry of the directory that names a page of the set.
  pub walkpgdir-Keeps :
      (va : ℕ) (r : Ram)
      → Within r
      → Keeps r (walkpgdir d va true r).1
        × ((t j : ℕ) → (walkpgdir d va true r).0 ≡ some (t, j) → (own t ≡ true) × (t ≢ d))
  unfolding walkpgdir
  walkpgdir-Keeps va r h = elim (Bool-cases (is_present (r.word d (pdx va)))) [
    | inl there ↦ rw there (
      record { within = h; others = λ w k o. refl },
      λ t j e. ground (arith, e, h.tables (pdx va) there),
    )
    | inr absent ↦ elim (Option-cases (new_page r)) [
      | inl e ↦
          rw (absent, e) (record { within = h; others = λ w k o. refl }, λ t j q. ground (arith, q))
      | inr ((v, r1), e) ↦
          let (k, mine, away) = new_page-Keeps r h e in
          rw (absent, e)
            (
              record {
                within = record {
                  dir = h.dir;
                  off_list = k.within.off_list;
                  tables = λ i p. ground (
                    arith,
                    k.within.tables i,
                    p,
                    p2v-make_pte v pte_w_u (pages v mine),
                    mine,
                    away,
                  );
                  free_list = k.within.free_list;
                };
                others = λ w j o. ground (arith, o, k.others w j, h.dir, ap own {x = w} {y = d});
              },
              λ t j q. ground (arith, q, mine, away, ap own {x = v} {y = t}),
            )
    ]
  ]

  pub Keeps-trans : {r s t : Ram} → Keeps r s → Keeps s t → Keeps r t
  Keeps-trans a b = record { within = b.within; others = λ w k o. b.others w k o ∙ a.others w k o }

  pub map_page-Keeps :
      (a pa perm : ℕ) (r : Ram) {b : Bool} {r' : Ram}
      → Within r
      → map_page d a pa perm r ≡ some (b, r')
      → Keeps r r'
  unfolding map_page
  map_page-Keeps a pa perm r {b} {r'} h e = go (walkpgdir d a true r).0 refl
    where
      r1 : Ram
      r1 = (walkpgdir d a true r).1

      k : Keeps r r1
      k = (walkpgdir-Keeps a r h).0

      go : (o : Option (ℕ × ℕ)) → (walkpgdir d a true r).0 ≡ o → Keeps r r'
      go none q = let same : r1 ≡ r' = ground (arith, e, q) in rw (← same) k
      go (some (t, j)) q =
          let (mine, away) = (walkpgdir-Keeps a r h).1 t j q in
          let same : put_word r1 t j (make_pte pa perm) ≡ r' = ground (arith, e, q) in
          rw (← same) (record {
            within = record {
              dir = h.dir;
              off_list = k.within.off_list;
              tables = λ i p. ground (arith, k.within.tables i, p, away);
              free_list = k.within.free_list;
            };
            others = λ w l o. ground (arith, o, k.others w l, mine, ap own {x = w} {y = t});
          })

  pub map_from-Keeps :
      (n a pa perm : ℕ) (r : Ram) {b : Bool} {r' : Ram}
      → Within r
      → map_from n d a pa perm r ≡ some (b, r')
      → Keeps r r'
  unfolding map_from
  map_from-Keeps zero a pa perm r h e = map_page-Keeps a pa perm r h e
  map_from-Keeps (suc n) a pa perm r {b} {r'} h e =
      go
        (λ s w q.
          map_from-Keeps n ((a + pg_size) % 2 ^ 32) ((pa + pg_size) % 2 ^ 32) perm s {b = b}
            {r' = r'} w q)
        (map_page d a pa perm r) refl
    where
      go :
          ((s : Ram)
            → Within s
            → map_from n d ((a + pg_size) % 2 ^ 32) ((pa + pg_size) % 2 ^ 32) perm s ≡ some (b, r')
            → Keeps s r')
          → (o : Option (Bool × Ram)) → map_page d a pa perm r ≡ o
          → Keeps r r'
      go rest none q = absurd (ground (arith, e, q))
      go rest (some (false, s)) q =
          let same : s ≡ r' = ground (arith, e, q) in rw (← same) (map_page-Keeps a pa perm r h q)
      go rest (some (true, s)) q =
          let k = map_page-Keeps a pa perm r h q in
          Keeps-trans k (rest s k.within (ground (arith, e, q)))

  pub mappages-Keeps :
      (va size pa perm : ℕ) (r : Ram) {b : Bool} {r' : Ram}
      → Within r
      → mappages d va size pa perm r ≡ some (b, r')
      → Keeps r r'
  unfolding mappages
  mappages-Keeps va size pa perm r h e = map_from-Keeps _ _ pa perm r h e

  pub map_kernel-Keeps :
      (ks : List Kmap) (r : Ram) {b : Bool} {r' : Ram}
      → Within r
      → map_kernel d ks r ≡ some (b, r')
      → Keeps r r'
  unfolding map_kernel
  map_kernel-Keeps [] r {b} {r'} h e =
      let same : r ≡ r' = ground (arith, e) in
      rw (← same) (record { within = h; others = λ w k o. refl })
  map_kernel-Keeps (m ∷ ks) r {b} {r'} h e =
      go (λ s w q. map_kernel-Keeps ks s {b = b} {r' = r'} w q) (step r) refl
    where
      step : Ram → Option (Bool × Ram)
      step s =
          mappages d m.virt ((m.phys_end + 2 ^ 32 - m.phys_start) % 2 ^ 32) m.phys_start m.perm s

      go :
          ((s : Ram) → Within s → map_kernel d ks s ≡ some (b, r') → Keeps s r')
          → (o : Option (Bool × Ram)) → step r ≡ o
          → Keeps r r'
      go rest none q = absurd (ground (arith, e, q))
      go rest (some (false, s)) q =
          let same : s ≡ r' = ground (arith, e, q) in rw (← same) (mappages-Keeps _ _ _ _ r h q)
      go rest (some (true, s)) q =
          let k = mappages-Keeps _ _ _ _ r h q in
          Keeps-trans k (rest s k.within (ground (arith, e, q)))

  -- A page directory whose pages are none of the set.
  pub record IsForeign (pgdir : ℕ) (r : Ram) : Type 0 where
    pub dir_apart : own pgdir ≡ false
    pub tables_apart :
        (i : ℕ) → is_present (r.word pgdir i) ≡ true → own (p2v (pte_addr (r.word pgdir i))) ≡ false

  pub entry_of-Keeps :
      {r r' : Ram} (pgdir va : ℕ)
      → IsForeign pgdir r
      → Keeps r r'
      → entry_of pgdir va r' ≡ entry_of pgdir va r
  unfolding walkpgdir
  entry_of-Keeps {r} {r'} pgdir va f k = elim (Bool-cases (is_present (r.word pgdir (pdx va)))) [
    | inl there ↦ ground (
      arith,
      there,
      k.others pgdir (pdx va) f.dir_apart,
      k.others (p2v (pte_addr (r.word pgdir (pdx va)))) (ptx va) (f.tables_apart (pdx va) there),
    )
    | inr absent ↦ ground (arith, absent, k.others pgdir (pdx va) f.dir_apart)
  ]

  pub Keeps-IsForeign :
      {r r' : Ram} (pgdir : ℕ) → IsForeign pgdir r → Keeps r r' → IsForeign pgdir r'
  Keeps-IsForeign {r} {r'} pgdir f k = record {
    dir_apart = f.dir_apart;
    tables_apart = λ i p.
        let same = k.others pgdir i f.dir_apart in rw same (f.tables_apart i (rw (← same) p));
  }
