-- ===== src/Xv6/Inode/Write.antt =====
-- lab3/xv6-public/fs.c: what the loop of writei does to what a file holds.
use cs.Prelude.{
  ℕ, zero, suc, ◌+◌, ◌-◌, ◌*◌, ◌/◌, ◌%◌, ◌≤◌, ◌<◌, ◌≡◌, ◌≢◌, ◌∙◌, refl, sym, ap, arith, false, ◌&&◌,
  if◌then◌else◌, ltb, leb, ◌==◌, some, Option-cases, Bool-cases, inl, inr, List, [], ◌∷◌, length,
  take, drop, get_or, length-take, length-drop,
}
use cs.Xv6.Inode.{Device, bmap}
use cs.Xv6.Inode.Bytes.{get_byte, fill, AllBytes, get_byte-fill}
use cs.Xv6.Inode.Data.{bsize, maxfile, round_size, put_block, write_loop}
use cs.Xv6.Inode.Content.{addr_of, content, IsFile, Found}
use cs.Xv6.Inode.Bmap.{bmap-Found}
use cs.Xv6.Inode.Read.{round_size_le}

-- The bytes `src` at `off`, over what was there.
abbrev pub overlay : ℕ → List ℕ → (ℕ → ℕ) → ℕ → ℕ
overlay off src c i = if leb off i && ltb i (off + length src) then get_or src (i - off) 0 else c i

get_or-take : (xs : List ℕ) (m k : ℕ) → k < m → get_or (take m xs) k 0 ≡ get_or xs k 0
get_or-take [] zero k h = absurd (omega (arith, h))
get_or-take [] (suc m) k h = refl
get_or-take (x ∷ xs) zero k h = absurd (omega (arith, h))
get_or-take (x ∷ xs) (suc m) zero h = refl
get_or-take (x ∷ xs) (suc m) (suc k) h = get_or-take xs m k (omega (arith, h))

get_or-drop : (xs : List ℕ) (m k : ℕ) → get_or (drop m xs) k 0 ≡ get_or xs (m + k) 0
get_or-drop xs zero k = let e : 0 + k ≡ k = omega arith in rw e refl
get_or-drop [] (suc m) k = refl
get_or-drop (x ∷ xs) (suc m) k =
    let e : suc m + k ≡ suc (m + k) = omega arith in rw e (get_or-drop xs m k)

pub AllBytes-take : (xs : List ℕ) (m : ℕ) → AllBytes xs → AllBytes (take m xs)
AllBytes-take xs zero h = ground arith
AllBytes-take [] (suc m) h = h
AllBytes-take (x ∷ xs) (suc m) (a, h) = (a, AllBytes-take xs m h)

pub AllBytes-drop : (xs : List ℕ) (m : ℕ) → AllBytes xs → AllBytes (drop m xs)
AllBytes-drop xs zero h = h
AllBytes-drop [] (suc m) h = h
AllBytes-drop (x ∷ xs) (suc m) (a, h) = AllBytes-drop xs m h

-- A write into a block of the file.
module _ (d : Device) (addrs : ℕ → ℕ) (n b : ℕ) (blk : ℕ → ℕ) (f : IsFile d addrs) (small : n < 140)
    (here : addr_of d addrs n ≡ b) (real : b ≢ 0) where
  put_addr_of : (m : ℕ) → m < 140 → addr_of (put_block d b blk) addrs m ≡ addr_of d addrs m
  put_addr_of m lt = ground (arith, f.apart n small, here, real)

  put_block-IsFile : IsFile (put_block d b blk) addrs
  put_block-IsFile = record {
    boot = f.boot;
    table_used = f.table_used;
    mapped = λ m lt h. let e = put_addr_of m lt in rw e (f.mapped m lt (rw e at h));
    distinct = λ m k ltm ltk h e.
        f.distinct m k ltm ltk (rw (put_addr_of m ltm) at h)
          (rw (put_addr_of m ltm, put_addr_of k ltk) at e);
    apart = λ m lt h. let e = put_addr_of m lt in rw e (f.apart m lt (rw e at h));
  }

  content-put_block :
      (i : ℕ)
      → i / bsize < 140
      → content (put_block d b blk) addrs i
        ≡ (if i / bsize == n then get_byte blk (i % bsize) else content d addrs i)
  content-put_block i lt =
      let e = put_addr_of (i / bsize) lt in
      rw e (elim (Bool-cases (i / bsize == n)) [
        | inl same ↦
            let at : addr_of d addrs (i / bsize) ≡ b =
              ap (addr_of d addrs) (ground (arith, same)) ∙ here in
            rw at (ground (arith, same, real))
        | inr other ↦ ground (arith, other, f.distinct (i / bsize) n lt small, here, real)
      ])

pub overlay-congr :
    (off : ℕ) (src : List ℕ) (c c' : ℕ → ℕ) (i : ℕ)
    → c i ≡ c' i
    → overlay off src c i ≡ overlay off src c' i
overlay-congr off src c c' i e = ground (arith, e)

pub overlay-drop :
    (off m : ℕ) (src : List ℕ) (c : ℕ → ℕ) (i : ℕ)
    → m ≤ length src
    → overlay (off + m) (drop m src) (overlay off (take m src) c) i ≡ overlay off src c i
overlay-drop off m src c i le =
    let all = length-drop m src in
    let front = length-take m src in
    elim (Bool-cases (ltb i (off + m))) [
      | inl before ↦ ground (arith, before, all, front, le, get_or-take src m (i - off))
      | inr after ↦
          let at : m + (i - (off + m)) ≡ i - off = ground (arith, after) in
          let same : get_or (drop m src) (i - (off + m)) 0 ≡ get_or src (i - off) 0 =
            rw at at (get_or-drop src m (i - (off + m))) in
          ground (arith, after, all, front, le, same)
    ]

-- One round of writei.
Found-overlay :
    (d : Device) (addrs : ℕ → ℕ) (off b : ℕ) (src : List ℕ) (addrs' : ℕ → ℕ) (d' : Device)
    → Found d addrs (off / bsize) b addrs' d'
    → off < maxfile * bsize
    → off % bsize + length src ≤ bsize
    → AllBytes src
    → (i : ℕ) → i / bsize < 140
    → content (put_block d' b (fill (d'.block b) (off % bsize) src)) addrs' i
      ≡ overlay off src (content d addrs) i
Found-overlay d addrs off b src addrs' d' x small fits bytes i lt =
    let blk = fill (d'.block b) (off % bsize) src in
    let low : off / bsize < 140 = omega (arith, small) in
    let put = content-put_block d' addrs' (off / bsize) b blk x.is_file low x.here x.real i lt in
    let filled = get_byte-fill (d'.block b) (off % bsize) src (i % bsize) bytes in
    let kept : content d' addrs' i ≡ content d addrs i = x.same i lt in
    elim (Bool-cases (i / bsize == off / bsize)) [
      | inr other ↦
          let outside : (leb off i && ltb i (off + length src)) ≡ false =
            ground (arith, other, fits) in
          ground (arith, put, other, kept, outside)
      | inl same ↦
          let at : addr_of d' addrs' (i / bsize) ≡ b =
            ap (addr_of d' addrs') (ground (arith, same)) ∙ x.here in
          let was : get_byte (d'.block b) (i % bsize) ≡ content d' addrs' i =
            rw at (ground (arith, x.real)) in
          let index : i % bsize - off % bsize ≡ i - off = ground (arith, same) in
          let inside : (leb (off % bsize) (i % bsize) && ltb (i % bsize) (off % bsize + length src))
              ≡ (leb off i && ltb i (off + length src)) =
            ground (arith, same, fits) in
          put
          ∙ ground (arith, same, filled, inside, index, was, kept, ap (λ k. get_or src k 0) index)
    ]

pub record WriteLoop (d : Device) (addrs : ℕ → ℕ) (off : ℕ) (src : List ℕ) (end : ℕ)
    (addrs' : ℕ → ℕ) (d' : Device) : Type 0 where
  pub at_end : end ≡ off + length src
  pub is_file : IsFile d' addrs'
  pub written :
      (i : ℕ) → i / bsize < 140 → content d' addrs' i ≡ overlay off src (content d addrs) i
  pub kept : (m : ℕ) → m < 140 → addr_of d addrs m ≢ 0 → addr_of d' addrs' m ≢ 0
  pub there : (i : ℕ) → off ≤ i → i < off + length src → addr_of d' addrs' (i / bsize) ≢ 0

WriteLoop-done :
    (d : Device) (addrs : ℕ → ℕ) (off : ℕ) (src : List ℕ)
    → length src ≡ 0
    → IsFile d addrs
    → WriteLoop d addrs off src off addrs d
WriteLoop-done d addrs off src e f = record {
  at_end = omega (arith, e);
  is_file = f;
  written = λ i lt. ground (arith, e);
  kept = λ m lt h. h;
  there = λ i lo hi. absurd (omega (arith, e, lo, hi));
}

-- The loop of writei puts the bytes over those of the file, and their blocks are there.
pub write_loop-overlay :
    (fuel off : ℕ) (src : List ℕ) (addrs : ℕ → ℕ) (d : Device) {end : ℕ} {addrs' : ℕ → ℕ}
    {d' : Device}
    → length src ≤ fuel
    → off + length src ≤ maxfile * bsize
    → AllBytes src
    → IsFile d addrs
    → write_loop fuel off src addrs d ≡ some (end, addrs', d')
    → WriteLoop d addrs off src end addrs' d'
unfolding write_loop
write_loop-overlay zero off src addrs d {end} {addrs'} {d'} le max bytes f e =
    let stop : off ≡ end = ground (arith, e) in
    let table : addrs ≡ addrs' = ground (arith, e) in
    let device : d ≡ d' = ground (arith, e) in
    rw (← stop, ← table, ← device) (WriteLoop-done d addrs off src (omega (arith, le)) f)
write_loop-overlay (suc fuel) off src addrs d {end} {addrs'} {d'} le max bytes f e =
    elim (Bool-cases (length src == 0)) [
      | inl over ↦
          let stop : off ≡ end = ground (arith, e, over) in
          let table : addrs ≡ addrs' = ground (arith, e, over) in
          let device : d ≡ d' = ground (arith, e, over) in
          rw (← stop, ← table, ← device) (WriteLoop-done d addrs off src (ground (arith, over)) f)
      | inr more ↦ elim (Option-cases (bmap d addrs (off / bsize))) [
        | inl g ↦ absurd (ground (arith, e, more, g))
        | inr ((b, addrs1, d1), g) ↦
            let m = round_size off (length src) in
            let (small, fits, some_left) = round_size_le off (length src) (ground (arith, more)) in
            let x = bmap-Found d addrs (off / bsize) f g in
            let blk = fill (d1.block b) (off % bsize) (take m src) in
            let d2 = put_block d1 b blk in
            let back = length-drop m src in
            let front : length (take m src) ≡ m = omega (arith, length-take m src, small) in
            let low : off / bsize < 140 = omega (arith, max, small, some_left) in
            let is = put_block-IsFile d1 addrs1 (off / bsize) b blk x.is_file low x.here x.real in
            let ih =
              write_loop-overlay fuel (off + m) (drop m src) addrs1 d2 {end = end} {addrs' = addrs'}
                {d' = d'} (omega (arith, le, some_left, back)) (omega (arith, max, small, back))
                (AllBytes-drop src m bytes) is (ground (arith, e, more, g)) in
            let put =
              Found-overlay d addrs off b (take m src) addrs1 d1 x
                (omega (arith, max, small, some_left)) (omega (arith, fits, front))
                (AllBytes-take src m bytes) in
            let stays : (k : ℕ) → k < 140 → addr_of d1 addrs1 k ≢ 0 → addr_of d2 addrs1 k ≢ 0 =
              λ k lt h.
                rw (put_addr_of d1 addrs1 (off / bsize) b blk x.is_file low x.here x.real k lt) h in
            record {
              at_end = omega (arith, ih.at_end, back, small);
              is_file = ih.is_file;
              written = λ i lt.
                  ih.written i lt
                  ∙ overlay-congr (off + m) (drop m src) (content d2 addrs1)
                      (overlay off (take m src) (content d addrs)) i (put i lt)
                  ∙ overlay-drop off m src (content d addrs) i small;
              kept = λ k lt h. ih.kept k lt (stays k lt (x.kept k lt h));
              there = λ i lo hi. elim (Bool-cases (ltb i (off + m))) [
                | inr later ↦ ih.there i (ground (arith, later)) (omega (arith, hi, back, small))
                | inl now ↦
                    let block : i / bsize ≡ off / bsize = ground (arith, now, lo, fits) in
                    rw block (
                      ih.kept (off / bsize) low
                        (stays (off / bsize) low (λ z. x.real (sym x.here ∙ z))))
              ];
            }
      ]
    ]
