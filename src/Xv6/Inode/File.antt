-- ===== src/Xv6/Inode/File.antt =====
-- lab3/xv6-public/fs.c: readi and writei of a file, as reads and writes of a sequence of bytes.
use cs.Prelude.{
  ℕ, zero, suc, ◌+◌, ◌-◌, ◌*◌, ◌/◌, ◌%◌, ◌^◌, ◌≤◌, ◌<◌, ◌≡◌, ◌≢◌, ◌∙◌, ◌⊎◌, refl, ap, arith, Bool,
  true, false, ◌&&◌, ◌||◌, not, if◌then◌else◌, ltb, ◌==◌, Option, none, some, Option-cases,
  Bool-cases, inl, inr, List, [], ◌∷◌, ◌++◌, length, get_or,
}
use cs.Xv6.Inode.{Inode, Device, iupdate}
use cs.Xv6.Inode.Bytes.{AllBytes, bytes_at}
use cs.Xv6.Inode.Data.{
  bsize, maxfile, t_dev, round_size, read_loop, write_loop, with_addrs, cut, readi, writei, grown,
}
use cs.Xv6.Inode.Content.{addr_of, content, IsFile}
use cs.Xv6.Inode.Bmap.{bmap-there}
use cs.Xv6.Inode.Read.{slice, SameContent, read_loop-slice, round_size_le}
use cs.Xv6.Inode.Write.{overlay, write_loop-overlay}

-- The guards of readi and writei.
abbrev pub can_read : ℕ → ℕ → ℕ → Bool
can_read size off n = not (ltb size off || ltb ((off + n) % 2 ^ 32) off)

abbrev pub can_write : ℕ → ℕ → ℕ → Bool
can_write size off n =
    not (ltb size off || (ltb ((off + n) % 2 ^ 32) off || ltb (maxfile * bsize) (off + n)))

-- The file after a read: the same bytes, in blocks of its own.
pub record IsKept (ip : Inode) (d : Device) (ip' : Inode) (d' : Device) : Type 0 where
  pub size : ip'.copy.size ≡ ip.copy.size
  pub file : IsFile d' ip'.copy.addrs
  pub same : SameContent d ip.copy.addrs d' ip'.copy.addrs

-- The file after a write.
pub record IsWritten (off : ℕ) (src : List ℕ) (ip : Inode) (d : Device) (ip' : Inode) (d' : Device)
    : Type 0 where
  pub size :
      ip'.copy.size
      ≡ (if ltb ip.copy.size (off + length src) then off + length src else ip.copy.size)
  pub file : IsFile d' ip'.copy.addrs
  pub written :
      (i : ℕ)
      → i / bsize < 140
      → content d' ip'.copy.addrs i ≡ overlay off src (content d ip.copy.addrs) i
  pub there : (i : ℕ) → off ≤ i → i < off + length src → addr_of d' ip'.copy.addrs (i / bsize) ≢ 0
  pub kept : (m : ℕ) → m < 140 → addr_of d ip.copy.addrs m ≢ 0 → addr_of d' ip'.copy.addrs m ≢ 0
  pub kind : ip'.copy.type ≡ ip.copy.type

-- When readi of a file that is no device, of at most the largest size, whose blocks are different
-- and in use, returns: if the offset is at most the size and the range does not wrap round, it
-- gives the bytes that the file holds there, up to its end, and the file holds what it held. If
-- not, it fails and nothing changes.
pub readi_lem :
    (driver : ℕ → Option (ℕ → Option (List ℕ))) (off n : ℕ) (ip : Inode) (d : Device)
    {r : Option (List ℕ)} {ip' : Inode} {d' : Device}
    → ip.copy.type ≢ t_dev
    → ip.copy.size ≤ maxfile * bsize
    → IsFile d ip.copy.addrs
    → readi driver off n ip d ≡ some (r, ip', d')
    → ((can_read ip.copy.size off n ≡ true)
        × (r ≡ some (slice (content d ip.copy.addrs) off (cut ip.copy.size off n)))
        × IsKept ip d ip' d')
      ⊎ ((can_read ip.copy.size off n ≡ false) × (r ≡ none) × (ip' ≡ ip) × (d' ≡ d))
unfolding readi
readi_lem driver off n ip d {r} {ip'} {d'} file max f e =
    let plain : (ip.copy.type == t_dev) ≡ false = ground (arith, file) in
    let k = cut ip.copy.size off n in
    elim (Bool-cases (can_read ip.copy.size off n)) [
      | inr bad ↦ inr (
        bad,
        ground (arith, e, plain, bad),
        ground (arith, e, plain, bad),
        ground (arith, e, plain, bad),
      )
      | inl good ↦ elim (Option-cases (read_loop k off k ip.copy.addrs d)) [
        | inl g ↦ absurd (ground (arith, e, plain, good, g))
        | inr ((bytes, addrs1, d1), g) ↦
            let x =
              read_loop-slice k off k ip.copy.addrs d (omega arith) (ground (arith, good, max)) f
                g in
            let result : some bytes ≡ r = ground (arith, e, plain, good, g) in
            let inode : with_addrs ip addrs1 ≡ ip' = ground (arith, e, plain, good, g) in
            let device : d1 ≡ d' = ground (arith, e, plain, good, g) in
            rw (← result, ← inode, ← device)
              (inl (good, ap some x.read, record { size = refl; file = x.is_file; same = x.same }))
      ]
    ]

-- When writei of bytes to a file that is no device, whose blocks are different and in use,
-- returns: if the offset is at most the size and the end at most the largest file's, it returns
-- the number of bytes, the file holds them at the offset and elsewhere what it held, its size
-- grows to the end if that is larger, and its blocks are different and in use. If not, it fails
-- and nothing changes.
pub writei_lem :
    (driver : ℕ → Option (List ℕ → Option ℕ)) (off : ℕ) (src : List ℕ) (ip : Inode) (d : Device)
    {r : Option ℕ} {ip' : Inode} {d' : Device}
    → ip.copy.type ≢ t_dev
    → AllBytes src
    → IsFile d ip.copy.addrs
    → writei driver off src ip d ≡ some (r, ip', d')
    → ((can_write ip.copy.size off (length src) ≡ true)
        × (r ≡ some (length src))
        × IsWritten off src ip d ip' d')
      ⊎ ((can_write ip.copy.size off (length src) ≡ false) × (r ≡ none) × (ip' ≡ ip) × (d' ≡ d))
unfolding writei iupdate
writei_lem driver off src ip d {r} {ip'} {d'} file bytes f e =
    let plain : (ip.copy.type == t_dev) ≡ false = ground (arith, file) in
    elim (Bool-cases (can_write ip.copy.size off (length src))) [
      | inr bad ↦ inr (
        bad,
        ground (arith, e, plain, bad),
        ground (arith, e, plain, bad),
        ground (arith, e, plain, bad),
      )
      | inl good ↦ elim (Option-cases (write_loop (length src) off src ip.copy.addrs d)) [
        | inl g ↦ absurd (ground (arith, e, plain, good, g))
        | inr ((end, addrs1, d1), g) ↦
            let x =
              write_loop-overlay (length src) off src ip.copy.addrs d (omega arith)
                (ground (arith, good)) bytes f g in
            let stop = x.at_end in
            let result : some (length src) ≡ r = ground (arith, e, plain, good, g) in
            elim (Bool-cases (ltb 0 (length src) && ltb ip.copy.size end)) [
              | inl longer ↦
                  let inode : grown end (with_addrs ip addrs1) ≡ ip' =
                    ground (arith, e, plain, good, g, longer) in
                  let device : iupdate d1 (grown end (with_addrs ip addrs1)) ≡ d' =
                    ground (arith, e, plain, good, g, longer) in
                  rw (← result, ← inode, ← device)
                    (inl (
                      good,
                      refl,
                      record {
                        size = ground (arith, longer, stop);
                        file = x.is_file;
                        written = x.written;
                        there = x.there;
                        kept = x.kept;
                        kind = refl;
                      },
                    ))
              | inr within ↦
                  let inode : with_addrs ip addrs1 ≡ ip' =
                    ground (arith, e, plain, good, g, within) in
                  let device : d1 ≡ d' = ground (arith, e, plain, good, g, within) in
                  rw (← result, ← inode, ← device)
                    (inl (
                      good,
                      refl,
                      record {
                        size = ground (arith, within, stop, good);
                        file = x.is_file;
                        written = x.written;
                        there = x.there;
                        kept = x.kept;
                        kind = refl;
                      },
                    ))
            ]
      ]
    ]

-- Where every block is there, the loop of readi returns and changes nothing.
read_loop-there :
    (fuel off left : ℕ) (addrs : ℕ → ℕ) (d : Device)
    → left ≤ fuel
    → off + left ≤ maxfile * bsize
    → ((i : ℕ) → off ≤ i → i < off + left → addr_of d addrs (i / bsize) ≢ 0)
    → (bytes : List ℕ) × (read_loop fuel off left addrs d ≡ some (bytes, addrs, d))
unfolding read_loop
read_loop-there zero off left addrs d le max there = ([], refl)
read_loop-there (suc fuel) off left addrs d le max there = elim (Bool-cases (left == 0)) [
  | inl over ↦ ([], ground (arith, over))
  | inr more ↦
      let m = round_size off left in
      let (small, fits, some_left) = round_size_le off left (ground (arith, more)) in
      let (rest, g) =
        read_loop-there fuel (off + m) (left - m) addrs d (omega (arith, le, some_left))
          (omega (arith, max, small))
          (λ i lo hi. there i (omega (arith, lo)) (omega (arith, hi, small))) in
      let found =
        bmap-there d addrs (off / bsize) (omega (arith, max, small, some_left))
          (there off (omega arith) (omega (arith, small, some_left))) in
      (
        bytes_at (d.block (addr_of d addrs (off / bsize))) (off % bsize) m ++ rest,
        ground (arith, more, found, g),
      )
]

pub slice_list :
    (c : ℕ → ℕ) (off : ℕ) (src : List ℕ)
    → ((k : ℕ) → k < length src → c (off + k) ≡ get_or src k 0)
    → slice c off (length src) ≡ src
slice_list c off [] h = refl
slice_list c off (x ∷ xs) h =
    let first : c off ≡ x = (let e : off + 0 ≡ off = omega arith in rw e at (h 0 (omega arith))) in
    let rest : slice c (off + 1) (length xs) ≡ xs = slice_list c (off + 1) xs (λ k lt.
      let e : off + 1 + k ≡ off + suc k = omega arith in rw e (h (suc k) (omega (arith, lt)))) in
    rw (first, rest) refl

-- Where the blocks of the range are there, readi returns its bytes and changes nothing.
pub readi_there :
    (reader : ℕ → Option (ℕ → Option (List ℕ))) (off n : ℕ) (ip : Inode) (d : Device)
    → ip.copy.type ≢ t_dev
    → IsFile d ip.copy.addrs
    → off ≤ ip.copy.size
    → off + n ≤ maxfile * bsize
    → cut ip.copy.size off n ≡ n
    → ((i : ℕ) → off ≤ i → i < off + n → addr_of d ip.copy.addrs (i / bsize) ≢ 0)
    → readi reader off n ip d ≡ some (some (slice (content d ip.copy.addrs) off n), ip, d)
unfolding readi
readi_there reader off n ip d file f start max whole there =
    let plain : (ip.copy.type == t_dev) ≡ false = ground (arith, file) in
    let guard : (ltb ip.copy.size off || ltb ((off + n) % 2 ^ 32) off) ≡ false =
      ground (arith, start, max) in
    let (found, g) = read_loop-there n off n ip.copy.addrs d (omega arith) max there in
    let x = read_loop-slice n off n ip.copy.addrs d (omega arith) max f g in
    let back : read_loop n off n ip.copy.addrs d
        ≡ some (slice (content d ip.copy.addrs) off n, ip.copy.addrs, d) =
      g ∙ ap (λ b. some (b, ip.copy.addrs, d)) x.read in
    let cut_back : read_loop (cut ip.copy.size off n) off (cut ip.copy.size off n) ip.copy.addrs d
        ≡ some (slice (content d ip.copy.addrs) off n, ip.copy.addrs, d) =
      ap (λ l. read_loop l off l ip.copy.addrs d) whole ∙ back in
    ground (arith, plain, guard, cut_back)

-- What was written is what readi returns, with neither the inode nor the device changed.
pub readi-IsWritten :
    (reader : ℕ → Option (ℕ → Option (List ℕ))) (off : ℕ) (src : List ℕ) (ip : Inode) (d : Device)
    (ip' : Inode) (d' : Device)
    → ip.copy.type ≢ t_dev
    → off + length src ≤ maxfile * bsize
    → IsWritten off src ip d ip' d'
    → readi reader off (length src) ip' d' ≡ some (some src, ip', d')
readi-IsWritten reader off src ip d ip' d' file max w =
    let n = length src in
    let whole : cut ip'.copy.size off n ≡ n = ground (arith, w.size) in
    let start : off ≤ ip'.copy.size = ground (arith, w.size) in
    let src_there : slice (content d' ip'.copy.addrs) off n ≡ src =
      slice_list (content d' ip'.copy.addrs) off src (λ j lt.
        let at : off + j - off ≡ j = omega arith in
        w.written (off + j) (omega (arith, max, lt))
        ∙ ground (arith, lt, at, ap (λ i. get_or src i 0) at)) in
    readi_there reader off n ip' d' (ground (arith, file, w.kind)) w.file start max whole w.there
    ∙ ap (λ b. some (some b, ip', d')) src_there

-- When writei of bytes to a file that is no device, whose blocks are different and in use,
-- succeeds: readi of as many bytes at the same offset returns them, and changes neither the inode
-- nor the device.
pub readi-writei :
    (writer : ℕ → Option (List ℕ → Option ℕ)) (reader : ℕ → Option (ℕ → Option (List ℕ))) (off : ℕ)
    (src : List ℕ) (ip : Inode) (d : Device) {k : ℕ} {ip' : Inode} {d' : Device}
    → ip.copy.type ≢ t_dev
    → AllBytes src
    → IsFile d ip.copy.addrs
    → writei writer off src ip d ≡ some (some k, ip', d')
    → readi reader off (length src) ip' d' ≡ some (some src, ip', d')
readi-writei writer reader off src ip d {k} {ip'} {d'} file bytes f e =
    elim (writei_lem writer off src ip d file bytes f e) [
      | inr (_, failed, _, _) ↦ absurd (ground (arith, failed))
      | inl (good, _, w) ↦ readi-IsWritten reader off src ip d ip' d' file (ground (arith, good)) w
    ]
