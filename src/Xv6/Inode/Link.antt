-- ===== src/Xv6/Inode/Link.antt =====
-- lab3/xv6-public/fs.c: a name that dirlink adds, as dirlookup finds it.
use cs.Prelude.{
  ℕ, zero, suc, ◌+◌, ◌-◌, ◌*◌, ◌/◌, ◌≤◌, ◌<◌, ◌≡◌, ◌≢◌, ◌∙◌, ◌⊎◌, refl, sym, ap, ap₂, arith, true,
  false, if◌then◌else◌, ltb, ◌==◌, Option, none, some, Option-cases, Bool-cases, inl, inr, List, [],
  ◌∷◌, length, get_or,
}
use cs.Xv6.Inode.{Inode, Device}
use cs.Xv6.Inode.Bytes.{AllBytes}
use cs.Xv6.Inode.Data.{bsize, maxfile, writei}
use cs.Xv6.Inode.Content.{content}
use cs.Xv6.Inode.Read.{slice, slice-congr}
use cs.Xv6.Inode.Write.{overlay}
use cs.Xv6.Inode.File.{IsWritten, writei_lem, slice_list}
use cs.Xv6.Inode.Names.{dirsiz}
use cs.Xv6.Inode.Dir.{inum_of, name_of, namecmp, padded, dirent, dir_scan, free_scan, add_entry}
use cs.Xv6.Inode.Entries.{find_entry-put, find_entry-end}
use cs.Xv6.Inode.Lookup.{find_entry, IsDirectory, entry_at, dir_scan-find, free_scan-at}

same_of : (a b : ℕ) → (a == b) ≡ true → a ≡ b
same_of a b e = ground (arith, e)

differ_of : (a b : ℕ) → (a == b) ≡ false → a ≢ b
differ_of a b e = ground (arith, e)

count_inner :
    (k n n' size : ℕ)
    → size ≡ 16 * n'
    → size ≡ (if k == n then 16 * n + 16 else 16 * n)
    → k ≤ n
    → k ≢ n
    → (n' ≡ n) × (k < n)
count_inner k n n' size a b le ne = (ground arith, omega arith)

count_last :
    (k n n' size : ℕ)
    → size ≡ 16 * n'
    → size ≡ (if k == n then 16 * n + 16 else 16 * n)
    → k ≡ n
    → n' ≡ suc n
count_last k n n' size a b e = ground arith

length-padded : (n : ℕ) (s : List ℕ) → length (padded n s) ≡ n
unfolding padded
length-padded zero s = refl
length-padded (suc n) [] = ap suc (length-padded n [])
length-padded (suc n) (a ∷ s) = ap suc (length-padded n s)

padded-AllBytes : (n : ℕ) (s : List ℕ) → AllBytes s → AllBytes (padded n s)
unfolding padded
padded-AllBytes zero s h = ground arith
padded-AllBytes (suc n) [] h = (omega arith, padded-AllBytes n [] h)
padded-AllBytes (suc n) (a ∷ s) (ha, h) = (ha, padded-AllBytes n s h)

dirent-AllBytes : (name : List ℕ) (inum : ℕ) → AllBytes name → AllBytes (dirent name inum)
dirent-AllBytes name inum h = (omega arith, (omega arith, padded-AllBytes dirsiz name h))

-- What dirlink has written: entry `k`.
record IsLinked (name : List ℕ) (inum : ℕ) (ip : Inode) (d : Device) (ip' : Inode) (d' : Device)
    : Type 0 where
  k : ℕ
  n : ℕ
  entries : ip.copy.size ≡ 16 * n
  at : k ≤ n
  free : (k ≡ n) ⊎ (inum_of (slice (content d ip.copy.addrs) (16 * k) 16) ≡ 0)
  fits : 16 * k + 16 ≤ maxfile * bsize
  written : IsWritten (16 * k) (dirent name inum) ip d ip' d'

add_entry-IsLinked :
    (name : List ℕ) (inum : ℕ) (ip : Inode) (d : Device) {ip' : Inode} {d' : Device}
    → IsDirectory ip d
    → AllBytes name
    → add_entry name inum ip d ≡ some (ip', d')
    → IsLinked name inum ip d ip' d'
unfolding add_entry
add_entry-IsLinked name inum ip d {ip'} {d'} dir bytes e =
    let n = ip.copy.size / 16 in
    let size : ip.copy.size ≡ 16 * n = omega (arith, dir.whole) in
    let (k, le, found, stop) =
      free_scan-at ip d dir (n + 1) n 0 (omega arith) (omega (arith, size)) in
    let zero_off : 0 + 16 * k ≡ 16 * k = omega arith in
    let scanned : free_scan (ip.copy.size / 16 + 1) 0 ip d ≡ some (16 * k, ip, d) =
      rw zero_off at found in
    elim (Option-cases (writei (λ major. none) (16 * k) (dirent name inum) ip d)) [
      | inl z ↦ absurd (ground (arith, e, scanned, z))
      | inr ((none, i1, d1), z) ↦ absurd (ground (arith, e, scanned, z))
      | inr ((some m, i1, d1), z) ↦
          let inode : i1 ≡ ip' = ground (arith, e, scanned, z) in
          let device : d1 ≡ d' = ground (arith, e, scanned, z) in
          elim (writei_lem (λ major. none) (16 * k) (dirent name inum) ip d
            (omega (arith, dir.kind)) (dirent-AllBytes name inum bytes) dir.file z) [
              | inr (_, failed, _, _) ↦ absurd (ground (arith, failed))
              | inl (good, _, w) ↦
                  rw (← inode, ← device)
                    (record {
                      k = k;
                      n = n;
                      entries = size;
                      at = le;
                      free = rw zero_off at stop;
                      fits = ground (arith, good, length-padded dirsiz name);
                      written = w;
                    })
            ]
    ]

-- The entries after dirlink.
module _ (name : List ℕ) (inum : ℕ) (ip : Inode) (d : Device) (ip' : Inode) (d' : Device)
    (dir : IsDirectory ip d) (x : IsLinked name inum ip d ip' d') where
  IsLinked-new : slice (content d' ip'.copy.addrs) (16 * x.k) 16 ≡ dirent name inum
  IsLinked-new =
      let long : length (dirent name inum) ≡ 16 =
        ap (λ l. suc (suc l)) (length-padded dirsiz name) in
      let all = slice_list (content d' ip'.copy.addrs) (16 * x.k) (dirent name inum) (λ j lt.
        let at : 16 * x.k + j - 16 * x.k ≡ j = omega arith in
        x.written.written (16 * x.k + j) (omega (arith, x.fits, lt, long))
        ∙ ground (arith, lt, at, ap (λ i. get_or (dirent name inum) i 0) at)) in
      ap (slice (content d' ip'.copy.addrs) (16 * x.k)) (sym long) ∙ all

  IsLinked-others :
      (j : ℕ)
      → j < x.n
      → j ≢ x.k
      → slice (content d' ip'.copy.addrs) (16 * j) 16 ≡ slice (content d ip.copy.addrs) (16 * j) 16
  IsLinked-others j lt other =
      slice-congr (content d' ip'.copy.addrs) (content d ip.copy.addrs) (16 * j) 16 (λ i lo hi.
        x.written.written i (omega (arith, lo, hi, lt, x.entries, dir.small))
        ∙ outside i (omega (arith, lo)) hi)
    where
      long : length (dirent name inum) ≡ 16
      long = ap (λ l. suc (suc l)) (length-padded dirsiz name)

      outside :
          (i : ℕ)
          → 16 * j ≤ i
          → i < 16 * j + 16
          → overlay (16 * x.k) (dirent name inum) (content d ip.copy.addrs) i
            ≡ content d ip.copy.addrs i
      outside i lo hi = ground (arith, lo, hi, other, long)

  IsLinked-size : ip'.copy.size ≡ (if x.k == x.n then 16 * x.n + 16 else 16 * x.n)
  IsLinked-size = ground (arith, x.written.size, x.entries, x.at, length-padded dirsiz name)

  IsLinked-IsDirectory : IsDirectory ip' d'
  IsLinked-IsDirectory = record {
    kind = x.written.kind ∙ dir.kind;
    whole = ground (arith, IsLinked-size);
    small = ground (arith, IsLinked-size, x.fits, x.entries, dir.small);
    file = x.written.file;
    there = λ i lt. elim (Bool-cases (ltb i ip.copy.size)) [
      | inl old ↦
          x.written.kept (i / bsize) (ground (arith, old, dir.small))
            (dir.there i (ground (arith, old)))
      | inr new ↦
          x.written.there i (ground (arith, new, lt, IsLinked-size, x.entries, x.at))
            (ground (arith, new, lt, IsLinked-size, x.entries, x.at, length-padded dirsiz name))
    ];
  }

  -- The first entry with a name, after dirlink.
  find_entry-linked :
      (other : List ℕ) (n' : ℕ)
      → ip'.copy.size ≡ 16 * n'
      → inum ≢ 0
      → inum < 65536
      → (namecmp dirsiz other (padded dirsiz name) ≡ true
          → find_entry x.n other 0 (entry_at ip d dir) ≡ none)
      → find_entry n' other 0 (λ off. slice (content d' ip'.copy.addrs) off 16) ≡ (
          if namecmp dirsiz other (padded dirsiz name)
          then some (16 * x.k, inum)
          else find_entry x.n other 0 (entry_at ip d dir))
  find_entry-linked other n' size real small fresh =
      let es : ℕ → List ℕ = λ off. slice (content d ip.copy.addrs) off 16 in
      let es' : ℕ → List ℕ = λ off. slice (content d' ip'.copy.addrs) off 16 in
      let zero_off : 0 + 16 * x.k ≡ 16 * x.k = omega arith in
      let new : es' (0 + 16 * x.k) ≡ dirent name inum = rw zero_off IsLinked-new in
      let number : inum_of (es' (0 + 16 * x.k)) ≡ inum = ap inum_of new ∙ omega (arith, small) in
      let named : name_of (es' (0 + 16 * x.k)) ≡ padded dirsiz name = ap name_of new in
      let same : (j : ℕ) → j < x.n → j ≢ x.k → es' (0 + 16 * j) ≡ es (0 + 16 * j) = λ j lt far.
        (let z : 0 + 16 * j ≡ 16 * j = omega arith in rw z (IsLinked-others j lt far)) in
      let fresh' : namecmp dirsiz other (name_of (es' (0 + 16 * x.k))) ≡ true
          → find_entry x.n other 0 es ≡ none =
        λ b. fresh (sym (ap (namecmp dirsiz other) named) ∙ b) in
      let result : (if namecmp dirsiz other (name_of (es' (0 + 16 * x.k)))
            then some (0 + 16 * x.k, inum_of (es' (0 + 16 * x.k)))
            else find_entry x.n other 0 es)
          ≡ (if namecmp dirsiz other (padded dirsiz name)
              then some (16 * x.k, inum)
              else find_entry x.n other 0 es) =
        ap
          (λ t.
            if namecmp dirsiz other t
            then some (0 + 16 * x.k, inum_of (es' (0 + 16 * x.k)))
            else find_entry x.n other 0 es)
          named
        ∙ ap
            (λ t.
              if namecmp dirsiz other (padded dirsiz name)
              then some t
              else find_entry x.n other 0 es)
            (ap₂ (λ a b. (a, b)) zero_off number) in
      elim (Bool-cases (x.k == x.n)) [
        | inl last ↦
            let end = same_of x.k x.n last in
            ap (λ m. find_entry m other 0 es')
              (count_last x.k x.n n' ip'.copy.size size IsLinked-size end)
            ∙ find_entry-end x.n x.k other 0 es es' end (λ j lt. same j lt (omega (arith, lt, end)))
                (λ z. real (sym number ∙ z)) fresh'
            ∙ result
        | inr inner ↦
            let apart = differ_of x.k x.n inner in
            let (count, lt) = count_inner x.k x.n n' ip'.copy.size size IsLinked-size x.at apart in
            let old : inum_of (es (0 + 16 * x.k)) ≡ 0 = elim x.free [
              | inl q ↦ absurd (apart q)
              | inr gone ↦ rw zero_off gone
            ] in
            ap (λ m. find_entry m other 0 es') count
            ∙ find_entry-put x.n x.k other 0 es es' lt same old (λ z. real (sym number ∙ z)) fresh'
            ∙ result
      ]

abbrev result_of : Option (Option (ℕ × ℕ) × Inode × Device) → Option (ℕ × ℕ)
result_of none = none
result_of (some (r, _, _)) = r

-- In a directory of whole entries whose blocks are all there, are different and in use: when
-- dirlink's part that adds a name, with an inode number that is not 0 and fits 16 bits, succeeds,
-- the result is such a directory. There dirlookup's loop, for any name for which it found no
-- entry before if strncmp takes it for equal to the new one on 14 bytes, finds the new entry with
-- that number if strncmp takes the names for equal, and else what it found before.
pub dir_scan-add_entry :
    (name : List ℕ) (inum : ℕ) (ip : Inode) (d : Device) {ip' : Inode} {d' : Device}
    (other : List ℕ) {r : Option (ℕ × ℕ)}
    → IsDirectory ip d
    → AllBytes name
    → inum ≢ 0
    → inum < 65536
    → dir_scan (ip.copy.size / 16 + 1) other 0 ip d ≡ some (r, ip, d)
    → (namecmp dirsiz other (padded dirsiz name) ≡ true → r ≡ none)
    → add_entry name inum ip d ≡ some (ip', d')
    → IsDirectory ip' d'
      × (o : ℕ) × (dir_scan (ip'.copy.size / 16 + 1) other 0 ip' d'
          ≡ some (if namecmp dirsiz other (padded dirsiz name) then some (o, inum) else r, ip', d'))
dir_scan-add_entry name inum ip d {ip'} {d'} other {r} dir bytes real small before fresh e =
    let x = add_entry-IsLinked name inum ip d dir bytes e in
    let dir' = IsLinked-IsDirectory name inum ip d ip' d' dir x in
    let n' = ip'.copy.size / 16 in
    let size : ip'.copy.size ≡ 16 * n' = omega (arith, dir'.whole) in
    let was : find_entry x.n other 0 (entry_at ip d dir) ≡ r = ap result_of (
      sym (
        dir_scan-find ip d dir (ip.copy.size / 16 + 1) x.n other 0 (omega (arith, x.entries))
          (omega (arith, x.entries)))
      ∙ before) in
    let now = dir_scan-find ip' d' dir' (n' + 1) n' other 0 (omega arith) (omega (arith, size)) in
    let linked =
      find_entry-linked name inum ip d ip' d' dir x other n' size real small (λ b. was ∙ fresh b) in
    (
      dir',
      16 * x.k,
      now
          ∙ ap (λ f. some (f, ip', d'))
              (linked
                ∙ ap
                    (λ f.
                      if namecmp dirsiz other (padded dirsiz name)
                      then some (16 * x.k, inum)
                      else f)
                    was),
    )
