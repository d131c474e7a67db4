-- ===== src/Xv6/Inode/Read.antt =====
-- lab3/xv6-public/fs.c: readi and writei on what a file holds.
use cs.Prelude.{
  ℕ, zero, suc, ◌+◌, ◌-◌, ◌*◌, ◌/◌, ◌%◌, ◌≤◌, ◌<◌, ◌≡◌, ◌≢◌, ◌∙◌, refl, sym, ap, arith, ◌==◌, some,
  Option-cases, Bool-cases, inl, inr, List, [], ◌∷◌, ◌++◌,
}
use cs.Xv6.Inode.{Device, bmap}
use cs.Xv6.Inode.Bytes.{get_byte, bytes_at}
use cs.Xv6.Inode.Data.{bsize, maxfile, round_size, read_loop}
use cs.Xv6.Inode.Content.{addr_of, content, IsFile, Found}
use cs.Xv6.Inode.Bmap.{bmap-Found}

-- The `n` bytes of `c` from `off` on.
abbrev pub slice : (ℕ → ℕ) → ℕ → ℕ → List ℕ
slice c off zero = []
slice c off (suc n) = c off ∷ slice c (off + 1) n

slice-append :
    (c : ℕ → ℕ) (off m n : ℕ) → slice c off (m + n) ≡ slice c off m ++ slice c (off + m) n
slice-append c off zero n =
    let e : off + 0 ≡ off = omega arith in let z : 0 + n ≡ n = omega arith in rw (e, z) refl
slice-append c off (suc m) n =
    let e : suc m + n ≡ suc (m + n) = omega arith in
    let f : off + suc m ≡ off + 1 + m = omega arith in
    rw (e, f) (ap (λ l. c off ∷ l) (slice-append c (off + 1) m n))

pub slice-congr :
    (c c' : ℕ → ℕ) (off n : ℕ)
    → ((i : ℕ) → off ≤ i → i < off + n → c i ≡ c' i)
    → slice c off n ≡ slice c' off n
slice-congr c c' off zero h = refl
slice-congr c c' off (suc n) h =
    rw
      (
        h off (omega arith) (omega arith),
        slice-congr c c' (off + 1) n (λ i a b. h i (omega arith) (omega arith)),
      )
      refl

bytes_at-congr :
    (blk c : ℕ → ℕ) (k o m : ℕ)
    → ((j : ℕ) → j < m → get_byte blk (k + j) ≡ c (o + j))
    → bytes_at blk k m ≡ slice c o m
unfolding bytes_at
bytes_at-congr blk c k o zero h = refl
bytes_at-congr blk c k o (suc m) h =
    let first : get_byte blk k ≡ c o =
      (let a : k + 0 ≡ k = omega arith in
        let b : o + 0 ≡ o = omega arith in rw (a, b) at (h 0 (omega arith))) in
    let rest : bytes_at blk (k + 1) m ≡ slice c (o + 1) m =
      bytes_at-congr blk c (k + 1) (o + 1) m (λ j lt.
        let a : k + 1 + j ≡ k + suc j = omega arith in
        let b : o + 1 + j ≡ o + suc j = omega arith in rw (a, b) (h (suc j) (omega (arith, lt)))) in
    rw (first, rest) refl

-- The offsets in one block of the file.
same_block :
    (off j : ℕ)
    → off % bsize + j < bsize
    → ((off + j) / bsize ≡ off / bsize) × ((off + j) % bsize ≡ off % bsize + j)
same_block off j h = (omega (arith, h), omega (arith, h))

bytes_at-slice :
    (d : Device) (addrs : ℕ → ℕ) (off m : ℕ)
    → addr_of d addrs (off / bsize) ≢ 0
    → off % bsize + m ≤ bsize
    → bytes_at (d.block (addr_of d addrs (off / bsize))) (off % bsize) m
      ≡ slice (content d addrs) off m
bytes_at-slice d addrs off m real fits =
    bytes_at-congr (d.block (addr_of d addrs (off / bsize))) (content d addrs) (off % bsize) off m
      (λ j lt.
        let (p, q) = same_block off j (omega (arith, fits, lt)) in rw (p, q) (ground (arith, real)))

pub round_size_le :
    (off left : ℕ)
    → left ≢ 0
    → (round_size off left ≤ left)
      × (off % bsize + round_size off left ≤ bsize)
      × (0 < round_size off left)
round_size_le off left h = (ground arith, ground arith, ground arith)

-- What a file holds below the largest offset is the same.
abbrev pub SameContent : Device → (ℕ → ℕ) → Device → (ℕ → ℕ) → Type 0
SameContent d addrs d' addrs' = (i : ℕ) → i / bsize < 140 → content d' addrs' i ≡ content d addrs i

SameContent-slice :
    (d : Device) (addrs : ℕ → ℕ) (d' : Device) (addrs' : ℕ → ℕ) (off n : ℕ)
    → SameContent d addrs d' addrs'
    → off + n ≤ maxfile * bsize
    → slice (content d' addrs') off n ≡ slice (content d addrs) off n
SameContent-slice d addrs d' addrs' off n h max =
    slice-congr (content d' addrs') (content d addrs) off n
      (λ i a b. h i (omega (arith, a, b, max)))

-- One round of readi.
Found-slice :
    (d : Device) (addrs : ℕ → ℕ) (off m b : ℕ) (addrs' : ℕ → ℕ) (d' : Device)
    → Found d addrs (off / bsize) b addrs' d'
    → off % bsize + m ≤ bsize
    → off + m ≤ maxfile * bsize
    → bytes_at (d'.block b) (off % bsize) m ≡ slice (content d addrs) off m
Found-slice d addrs off m b addrs' d' x fits max =
    let here = x.here in
    let read : bytes_at (d'.block b) (off % bsize) m ≡ slice (content d' addrs') off m =
      (rw here at (bytes_at-slice d' addrs' off m (rw here x.real) fits)) in
    read ∙ SameContent-slice d addrs d' addrs' off m x.same max

pub record ReadLoop (d : Device) (addrs : ℕ → ℕ) (off left : ℕ) (bytes : List ℕ) (addrs' : ℕ → ℕ)
    (d' : Device) : Type 0 where
  pub read : bytes ≡ slice (content d addrs) off left
  pub is_file : IsFile d' addrs'
  pub same : SameContent d addrs d' addrs'

ReadLoop-done :
    (d : Device) (addrs : ℕ → ℕ) (off left : ℕ)
    → left ≡ 0
    → IsFile d addrs
    → ReadLoop d addrs off left [] addrs d
ReadLoop-done d addrs off left e f = record { read = rw e refl; is_file = f; same = λ i lt. refl }

-- The loop of readi reads the bytes of the file, and leaves what it holds.
pub read_loop-slice :
    (fuel off left : ℕ) (addrs : ℕ → ℕ) (d : Device) {bytes : List ℕ} {addrs' : ℕ → ℕ} {d' : Device}
    → left ≤ fuel
    → off + left ≤ maxfile * bsize
    → IsFile d addrs
    → read_loop fuel off left addrs d ≡ some (bytes, addrs', d')
    → ReadLoop d addrs off left bytes addrs' d'
unfolding read_loop
read_loop-slice zero off left addrs d {bytes} {addrs'} {d'} le max f e =
    let b : [] ≡ bytes = ground (arith, e) in
    let table : addrs ≡ addrs' = ground (arith, e) in
    let device : d ≡ d' = ground (arith, e) in
    rw (← b, ← table, ← device) (ReadLoop-done d addrs off left (omega (arith, le)) f)
read_loop-slice (suc fuel) off left addrs d {bytes} {addrs'} {d'} le max f e =
    elim (Bool-cases (left == 0)) [
      | inl over ↦
          let b : [] ≡ bytes = ground (arith, e, over) in
          let table : addrs ≡ addrs' = ground (arith, e, over) in
          let device : d ≡ d' = ground (arith, e, over) in
          rw (← b, ← table, ← device) (ReadLoop-done d addrs off left (ground (arith, over)) f)
      | inr more ↦ elim (Option-cases (bmap d addrs (off / bsize))) [
        | inl g ↦ absurd (ground (arith, e, more, g))
        | inr ((b, addrs1, d1), g) ↦
            let m = round_size off left in
            let (small, fits, some_left) = round_size_le off left (ground (arith, more)) in
            let x = bmap-Found d addrs (off / bsize) f g in
            elim (Option-cases (read_loop fuel (off + m) (left - m) addrs1 d1)) [
              | inl h ↦ absurd (ground (arith, e, more, g, h))
              | inr ((rest, addrs2, d2), h) ↦
                  let ih =
                    read_loop-slice fuel (off + m) (left - m) addrs1 d1 {bytes = rest}
                      {addrs' = addrs2} {d' = d2} (omega (arith, le, some_left))
                      (omega (arith, max, small)) x.is_file h in
                  let all : bytes_at (d1.block b) (off % bsize) m ++ rest ≡ bytes =
                    ground (arith, e, more, g, h) in
                  let table : addrs2 ≡ addrs' = ground (arith, e, more, g, h) in
                  let device : d2 ≡ d' = ground (arith, e, more, g, h) in
                  let front =
                    Found-slice d addrs off m b addrs1 d1 x fits (omega (arith, max, small)) in
                  let back =
                    ih.read
                    ∙ SameContent-slice d addrs d1 addrs1 (off + m) (left - m) x.same
                        (omega (arith, max, small)) in
                  let whole : m + (left - m) ≡ left = omega (arith, small) in
                  rw (← table, ← device)
                    (record {
                      read =
                          sym all
                          ∙ rw (front, back)
                              (sym (slice-append (content d addrs) off m (left - m))
                                ∙ rw whole refl);
                      is_file = ih.is_file;
                      same = λ i lt. ih.same i lt ∙ x.same i lt;
                    })
            ]
      ]
    ]
