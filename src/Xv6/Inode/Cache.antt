-- ===== src/Xv6/Inode/Cache.antt =====
-- lab3/xv6-public/fs.c: the entries of the inode cache, across iget.
use cs.Prelude.{
  ℕ, ◌+◌, ◌<◌, ◌≡◌, ◌≢◌, ◌⊎◌, refl, ap, arith, true, false, ◌==◌, Option, none, some, inl, inr,
}
use cs.Prelude.Search.{search_from, search_from-lt, search_from-none}
use cs.Xv6.Inode.{Inode, ninode, put_inode, is_inode, iget}

-- Two entries in use that name the same inode are the same entry.
abbrev pub IsUnique : (ℕ → Inode) → Type 0
IsUnique cache =
    (i j dev inum : ℕ)
    → i < ninode
    → j < ninode
    → is_inode dev inum (cache i) ≡ true
    → is_inode dev inum (cache j) ≡ true
    → i ≡ j

abbrev again : Inode → Inode
again ip = record ip { ref = ip.ref + 1 }

abbrev anew : ℕ → ℕ → Inode → Inode
anew dev inum ip = record ip { dev = dev; inum = inum; ref = 1; valid = false }

-- A hit takes one more reference; a miss recycles an entry that is not in use.
iget-cases :
    (dev inum : ℕ) (cache : ℕ → Inode) {i : ℕ} {cache' : ℕ → Inode}
    → iget dev inum cache ≡ some (i, cache')
    → ((is_inode dev inum (cache i) ≡ true)
        × (i < ninode)
        × (cache' ≡ put_inode cache i (again (cache i))))
      ⊎ (((k : ℕ) → k < ninode → is_inode dev inum (cache k) ≢ true)
          × ((cache i).ref ≡ 0)
          × (i < ninode)
          × (cache' ≡ put_inode cache i (anew dev inum (cache i))))
unfolding iget
iget-cases dev inum cache {i} {cache'} e =
    found (search_from ninode 0 (λ k. is_inode dev inum (cache k))) refl
  where
    Cases : Type 0
    Cases =
        ((is_inode dev inum (cache i) ≡ true)
          × (i < ninode)
          × (cache' ≡ put_inode cache i (again (cache i))))
        ⊎ (((k : ℕ) → k < ninode → is_inode dev inum (cache k) ≢ true)
            × ((cache i).ref ≡ 0)
            × (i < ninode)
            × (cache' ≡ put_inode cache i (anew dev inum (cache i))))

    missed :
        (o : Option ℕ)
        → search_from ninode 0 (λ k. (cache k).ref == 0) ≡ o
        → search_from ninode 0 (λ k. is_inode dev inum (cache k)) ≡ none
        → Cases
    missed none g f = absurd (ground (arith, e, f, g))
    missed (some r) g f =
        let same : r ≡ i = ground (arith, e, f, g) in
        let (lo, hi, free) =
          search_from-lt ninode 0 (λ k. (cache k).ref == 0) {r = i} (rw same at g) in
        inr (
          λ k h.
              search_from-none ninode 0 (λ j. is_inode dev inum (cache j)) k f (omega arith)
                (omega arith),
          ground arith,
          hi,
          rw (← same) (ground (arith, e, f, g)),
        )

    found : (o : Option ℕ) → search_from ninode 0 (λ k. is_inode dev inum (cache k)) ≡ o → Cases
    found none f = missed (search_from ninode 0 (λ k. (cache k).ref == 0)) refl f
    found (some r) f =
        let same : r ≡ i = ground (arith, e, f) in
        let (lo, hi, is) =
          search_from-lt ninode 0 (λ k. is_inode dev inum (cache k)) {r = i} (rw same at f) in
        inl (is, hi, rw (← same) (ground (arith, e, f)))

-- When no inode is in two entries of the cache that are in use and iget does not panic, the entry
-- that it returns is in use for the inode asked for, and still no inode is in two entries in use.
pub iget-IsUnique :
    (dev inum : ℕ) (cache : ℕ → Inode) {i : ℕ} {cache' : ℕ → Inode}
    → IsUnique cache
    → iget dev inum cache ≡ some (i, cache')
    → (i < ninode) × (is_inode dev inum (cache' i) ≡ true) × IsUnique cache'
iget-IsUnique dev inum cache {i} {cache'} unique e = elim (iget-cases dev inum cache e) [
  | inl (is, hi, q) ↦ (
    hi,
    rw q (ground (arith, is)),
    rw q (λ j k d n hj hk a b.
        unique j k d n hj hk (ground (arith, is, a, ap cache {x = j} {y = i}))
          (ground (arith, is, b, ap cache {x = k} {y = i}))),
  )
  | inr (fresh, free, hi, q) ↦ (
    hi,
    rw q (ground arith),
    rw q (λ j k d n hj hk a b. ground (arith, a, b, fresh j hj, fresh k hk, unique j k d n hj hk)),
  )
]
