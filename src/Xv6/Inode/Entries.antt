-- ===== src/Xv6/Inode/Entries.antt =====
-- lab3/xv6-public/fs.c: searches for a name before and after one entry changes.
use cs.Prelude.{
  ℕ, zero, suc, ◌+◌, ◌*◌, ◌<◌, ◌≡◌, ◌≢◌, ◌∙◌, refl, sym, ap, arith, Bool, true, false,
  if◌then◌else◌, Option, none, some, Bool-cases, inl, inr, List,
}
use cs.Xv6.Inode.Names.{dirsiz}
use cs.Xv6.Inode.Dir.{inum_of, name_of, namecmp}
use cs.Xv6.Inode.Lookup.{has_name, find_entry, find_entry-hit, find_entry-miss}

pick_true : (b : Bool) (u v : Option (ℕ × ℕ)) → b ≡ true → (if b then u else v) ≡ u
pick_true b u v e = ground (arith, e)

pick_false : (b : Bool) (u v : Option (ℕ × ℕ)) → b ≡ false → (if b then u else v) ≡ v
pick_false b u v e = ground (arith, e)

find_entry-congr :
    (n : ℕ) (name : List ℕ) (off : ℕ) (es es' : ℕ → List ℕ)
    → ((j : ℕ) → j < n → es' (off + 16 * j) ≡ es (off + 16 * j))
    → find_entry n name off es' ≡ find_entry n name off es
find_entry-congr zero name off es es' h = refl
find_entry-congr (suc n) name off es es' h =
    let first : es' off ≡ es off =
      (let e : off + 16 * 0 ≡ off = omega arith in rw e at (h 0 (omega arith))) in
    let rest = find_entry-congr n name (off + 16) es es' (λ j lt.
      let e : off + 16 + 16 * j ≡ off + 16 * suc j = omega arith in
      rw e (h (suc j) (omega (arith, lt)))) in
    rw (first, rest) refl

-- An entry that was not in use gets the name.
pub find_entry-put :
    (n k : ℕ) (name : List ℕ) (off : ℕ) (es es' : ℕ → List ℕ)
    → k < n
    → ((j : ℕ) → j < n → j ≢ k → es' (off + 16 * j) ≡ es (off + 16 * j))
    → inum_of (es (off + 16 * k)) ≡ 0
    → inum_of (es' (off + 16 * k)) ≢ 0
    → (namecmp dirsiz name (name_of (es' (off + 16 * k))) ≡ true → find_entry n name off es ≡ none)
    → find_entry n name off es' ≡ (
        if namecmp dirsiz name (name_of (es' (off + 16 * k)))
        then some (off + 16 * k, inum_of (es' (off + 16 * k)))
        else find_entry n name off es)
find_entry-put zero k name off es es' lt same old new fresh = absurd (omega (arith, lt))
find_entry-put (suc n) zero name off es es' lt same old new fresh =
    let at : off + 16 * 0 ≡ off = omega arith in
    let rest = find_entry-congr n name (off + 16) es es' (λ j small.
      let e : off + 16 + 16 * j ≡ off + 16 * suc j = omega arith in
      rw e (same (suc j) (omega (arith, small)) (omega arith))) in
    rw at (elim (Bool-cases (namecmp dirsiz name (name_of (es' off)))) [
      | inl hit ↦
          sym (find_entry-hit n name off es' (ground (arith, hit, rw at at new)))
          ∙ sym (pick_true _ _ _ hit)
      | inr miss ↦
          sym (find_entry-miss n name off es' (ground (arith, miss)))
          ∙ rest
          ∙ find_entry-miss n name off es (ground (arith, rw at at old))
          ∙ sym (pick_false _ _ _ miss)
    ])
find_entry-put (suc n) (suc k) name off es es' lt same old new fresh =
    let at : off + 16 * suc k ≡ off + 16 + 16 * k = omega arith in
    let first : es' off ≡ es off =
      (let e : off + 16 * 0 ≡ off = omega arith in rw e at (same 0 (omega arith) (omega arith))) in
    elim (Bool-cases (has_name name (es off))) [
      | inl hit ↦
          let found : find_entry (suc n) name off es' ≡ find_entry (suc n) name off es =
            sym (find_entry-hit n name off es' (rw first hit))
            ∙ rw first (find_entry-hit n name off es hit) in
          elim (Bool-cases (namecmp dirsiz name (name_of (es' (off + 16 * suc k))))) [
            | inl both ↦ absurd (ground (arith, fresh both, find_entry-hit n name off es hit))
            | inr miss ↦ found ∙ sym (pick_false _ _ _ miss)
          ]
      | inr miss ↦
          let there = find_entry-miss n name off es miss in
          let ih =
            find_entry-put n k name (off + 16) es es' (omega (arith, lt))
              (λ j small other.
                let e : off + 16 + 16 * j ≡ off + 16 * suc j = omega arith in
                rw e (same (suc j) (omega (arith, small)) (omega (arith, other))))
              (rw at at old) (rw at at new) (λ b. there ∙ fresh (rw at b)) in
          sym (find_entry-miss n name off es' (rw first miss))
          ∙ ih
          ∙ rw at (
              ap
                (λ r.
                  if namecmp dirsiz name (name_of (es' (off + 16 + 16 * k)))
                  then some (off + 16 + 16 * k, inum_of (es' (off + 16 + 16 * k)))
                  else r)
                there)
    ]

-- One entry more at the end.
find_entry-append :
    (n : ℕ) (name : List ℕ) (off : ℕ) (es es' : ℕ → List ℕ)
    → ((j : ℕ) → j < n → es' (off + 16 * j) ≡ es (off + 16 * j))
    → inum_of (es' (off + 16 * n)) ≢ 0
    → (namecmp dirsiz name (name_of (es' (off + 16 * n))) ≡ true → find_entry n name off es ≡ none)
    → find_entry (suc n) name off es' ≡ (
        if namecmp dirsiz name (name_of (es' (off + 16 * n)))
        then some (off + 16 * n, inum_of (es' (off + 16 * n)))
        else find_entry n name off es)
find_entry-append zero name off es es' same new fresh =
    let at : off + 16 * 0 ≡ off = omega arith in
    rw at (elim (Bool-cases (namecmp dirsiz name (name_of (es' off)))) [
      | inl hit ↦
          sym (find_entry-hit 0 name off es' (ground (arith, hit, rw at at new)))
          ∙ sym (pick_true _ _ _ hit)
      | inr miss ↦
          sym (find_entry-miss 0 name off es' (ground (arith, miss))) ∙ sym (pick_false _ _ _ miss)
    ])
find_entry-append (suc n) name off es es' same new fresh =
    let at : off + 16 * suc n ≡ off + 16 + 16 * n = omega arith in
    let first : es' off ≡ es off =
      (let e : off + 16 * 0 ≡ off = omega arith in rw e at (same 0 (omega arith))) in
    elim (Bool-cases (has_name name (es off))) [
      | inl hit ↦
          let found : find_entry (suc (suc n)) name off es' ≡ find_entry (suc n) name off es =
            sym (find_entry-hit (suc n) name off es' (rw first hit))
            ∙ rw first (find_entry-hit n name off es hit) in
          elim (Bool-cases (namecmp dirsiz name (name_of (es' (off + 16 * suc n))))) [
            | inl both ↦ absurd (ground (arith, fresh both, find_entry-hit n name off es hit))
            | inr miss ↦ found ∙ sym (pick_false _ _ _ miss)
          ]
      | inr miss ↦
          let there = find_entry-miss n name off es miss in
          let ih =
            find_entry-append n name (off + 16) es es'
              (λ j small.
                let e : off + 16 + 16 * j ≡ off + 16 * suc j = omega arith in
                rw e (same (suc j) (omega (arith, small))))
              (rw at at new) (λ b. there ∙ fresh (rw at b)) in
          sym (find_entry-miss (suc n) name off es' (rw first miss))
          ∙ ih
          ∙ rw at (
              ap
                (λ r.
                  if namecmp dirsiz name (name_of (es' (off + 16 + 16 * n)))
                  then some (off + 16 + 16 * n, inum_of (es' (off + 16 + 16 * n)))
                  else r)
                there)
    ]

pub find_entry-end :
    (n k : ℕ) (name : List ℕ) (off : ℕ) (es es' : ℕ → List ℕ)
    → k ≡ n
    → ((j : ℕ) → j < n → es' (off + 16 * j) ≡ es (off + 16 * j))
    → inum_of (es' (off + 16 * k)) ≢ 0
    → (namecmp dirsiz name (name_of (es' (off + 16 * k))) ≡ true → find_entry n name off es ≡ none)
    → find_entry (suc n) name off es' ≡ (
        if namecmp dirsiz name (name_of (es' (off + 16 * k)))
        then some (off + 16 * k, inum_of (es' (off + 16 * k)))
        else find_entry n name off es)
find_entry-end n k name off es es' q same new fresh =
    rw q (find_entry-append n name off es es' same (rw q at new) (λ b. fresh (rw q b)))
