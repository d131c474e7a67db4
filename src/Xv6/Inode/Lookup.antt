-- ===== src/Xv6/Inode/Lookup.antt =====
-- lab3/xv6-public/fs.c: a directory as a sequence of entries, and what dirlink changes in it.
use cs.Prelude.{
  ℕ, zero, suc, ◌+◌, ◌*◌, ◌/◌, ◌%◌, ◌≤◌, ◌<◌, ◌≡◌, ◌≢◌, ◌∙◌, ◌⊎◌, refl, sym, ap, arith, Bool, true,
  false, ◌&&◌, not, if◌then◌else◌, ltb, ◌==◌, Option, none, some, Bool-cases, inl, inr, List,
  length,
}
use cs.Xv6.Inode.{Inode, Device}
use cs.Xv6.Inode.Data.{bsize, maxfile, t_dev}
use cs.Xv6.Inode.Content.{addr_of, content, IsFile}
use cs.Xv6.Inode.Read.{slice}
use cs.Xv6.Inode.File.{readi_there}
use cs.Xv6.Inode.Names.{dirsiz}
use cs.Xv6.Inode.Dir.{t_dir, inum_of, name_of, namecmp, read_entry, dir_scan, free_scan}

-- An entry that is in use and has the name.
abbrev pub has_name : List ℕ → List ℕ → Bool
has_name name e = not (inum_of e == 0) && namecmp dirsiz name (name_of e)

-- The first of the `n` entries from `off` on that has the name; `es` gives the entry at an offset.
abbrev pub find_entry : ℕ → List ℕ → ℕ → (ℕ → List ℕ) → Option (ℕ × ℕ)
find_entry zero name off es = none
find_entry (suc n) name off es =
    if has_name name (es off) then some (off, inum_of (es off)) else find_entry n name (off + 16) es

-- A directory of whole entries, with all its blocks.
pub record IsDirectory (ip : Inode) (d : Device) : Type 0 where
  pub kind : ip.copy.type ≡ t_dir
  pub whole : ip.copy.size % 16 ≡ 0
  pub small : ip.copy.size ≤ maxfile * bsize
  pub file : IsFile d ip.copy.addrs
  pub there : (i : ℕ) → i < ip.copy.size → addr_of d ip.copy.addrs (i / bsize) ≢ 0

length-slice : (c : ℕ → ℕ) (off n : ℕ) → length (slice c off n) ≡ n
length-slice c off zero = refl
length-slice c off (suc n) = ap suc (length-slice c (off + 1) n)

pub find_entry-hit :
    (n : ℕ) (name : List ℕ) (off : ℕ) (es : ℕ → List ℕ)
    → has_name name (es off) ≡ true
    → some (off, inum_of (es off)) ≡ find_entry (suc n) name off es
find_entry-hit n name off es hit =
    ap (λ b. if b then some (off, inum_of (es off)) else find_entry n name (off + 16) es) (sym hit)

pub find_entry-miss :
    (n : ℕ) (name : List ℕ) (off : ℕ) (es : ℕ → List ℕ)
    → has_name name (es off) ≡ false
    → find_entry n name (off + 16) es ≡ find_entry (suc n) name off es
find_entry-miss n name off es miss =
    ap (λ b. if b then some (off, inum_of (es off)) else find_entry n name (off + 16) es) (sym miss)

module _ (ip : Inode) (d : Device) (dir : IsDirectory ip d) where
  abbrev pub entry_at : ℕ → List ℕ
  entry_at off = slice (content d ip.copy.addrs) off 16

  read_entry-at :
      (off : ℕ) → off + 16 ≤ ip.copy.size → read_entry off ip d ≡ some (entry_at off, ip, d)
  unfolding read_entry
  read_entry-at off le =
      let plain : ip.copy.type ≢ t_dev = omega (arith, dir.kind) in
      let read =
        readi_there (λ major. none) off 16 ip d plain dir.file (omega (arith, le))
          (omega (arith, le, dir.small)) (ground (arith, le))
          (λ i lo hi. dir.there i (omega (arith, le, hi))) in
      ground (arith, read, length-slice (content d ip.copy.addrs) off 16)

  dir_scan-hit :
      (fuel : ℕ) (name : List ℕ) (off : ℕ) (e : List ℕ)
      → ltb off ip.copy.size ≡ true
      → read_entry off ip d ≡ some (e, ip, d)
      → has_name name e ≡ true
      → dir_scan (suc fuel) name off ip d ≡ some (some (off, inum_of e), ip, d)
  unfolding dir_scan
  dir_scan-hit fuel name off e inside read hit = ground (arith, inside, read, hit)

  dir_scan-miss :
      (fuel : ℕ) (name : List ℕ) (off : ℕ) (e : List ℕ)
      → ltb off ip.copy.size ≡ true
      → read_entry off ip d ≡ some (e, ip, d)
      → has_name name e ≡ false
      → dir_scan (suc fuel) name off ip d ≡ dir_scan fuel name (off + 16) ip d
  unfolding dir_scan
  dir_scan-miss fuel name off e inside read miss = ground (arith, inside, read, miss)

  -- The loop of dirlookup finds the first entry with the name, and changes nothing.
  pub dir_scan-find :
      (fuel n : ℕ) (name : List ℕ) (off : ℕ)
      → n < fuel
      → ip.copy.size ≡ off + 16 * n
      → dir_scan fuel name off ip d ≡ some (find_entry n name off entry_at, ip, d)
  unfolding dir_scan
  dir_scan-find zero n name off lt e = absurd (omega (arith, lt))
  dir_scan-find (suc fuel) zero name off lt e = ground (arith, e)
  dir_scan-find (suc fuel) (suc n) name off lt e =
      let inside : ltb off ip.copy.size ≡ true = ground (arith, e) in
      let read = read_entry-at off (omega (arith, e)) in
      let rest = dir_scan-find fuel n name (off + 16) (omega (arith, lt)) (omega (arith, e)) in
      elim (Bool-cases (has_name name (entry_at off))) [
        | inl hit ↦
            dir_scan-hit fuel name off (entry_at off) inside read hit
            ∙ ap (λ r. some (r, ip, d)) (find_entry-hit n name off entry_at hit)
        | inr miss ↦
            dir_scan-miss fuel name off (entry_at off) inside read miss
            ∙ rest
            ∙ ap (λ r. some (r, ip, d)) (find_entry-miss n name off entry_at miss)
      ]

  -- The loop of dirlink stops at an entry that is not in use, or at the end.
  pub free_scan-at :
      (fuel n off : ℕ)
      → n < fuel
      → ip.copy.size ≡ off + 16 * n
      → (k : ℕ) × (k ≤ n)
        × (free_scan fuel off ip d ≡ some (off + 16 * k, ip, d))
        × ((k ≡ n) ⊎ (inum_of (entry_at (off + 16 * k)) ≡ 0))
  unfolding free_scan
  free_scan-at zero n off lt e = absurd (omega (arith, lt))
  free_scan-at (suc fuel) zero off lt e =
      let at : off + 16 * 0 ≡ off = omega arith in
      (0, omega arith, rw at (ground (arith, e)), inl refl)
  free_scan-at (suc fuel) (suc n) off lt e =
      let inside : ltb off ip.copy.size ≡ true = ground (arith, e) in
      let read = read_entry-at off (omega (arith, e)) in
      elim (Bool-cases (inum_of (entry_at off) == 0)) [
        | inl free ↦
            let at : off + 16 * 0 ≡ off = omega arith in
            (
              0,
              omega arith,
              rw at (ground (arith, inside, read, free)),
              rw at (inr (ground (arith, free))),
            )
        | inr used ↦
            let (k, le, found, stop) =
              free_scan-at fuel n (off + 16) (omega (arith, lt)) (omega (arith, e)) in
            let at : off + 16 * suc k ≡ off + 16 + 16 * k = omega arith in
            (
              suc k,
              omega (arith, le),
              rw at (ground (arith, inside, read, used, found)),
              rw at (elim stop [ inl q ↦ inl (ap suc q) | inr z ↦ inr z ]),
            )
      ]
