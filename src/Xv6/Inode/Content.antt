-- ===== src/Xv6/Inode/Content.antt =====
-- lab3/xv6-public/fs.c: what the blocks of an inode hold, as a function of the offset, and what bmap
-- does to it.
use cs.Prelude.{
  ℕ, ◌-◌, ◌/◌, ◌%◌, ◌<◌, ◌≡◌, ◌≢◌, ◌∙◌, refl, ap, arith, Bool, true, false, not, if◌then◌else◌, ltb,
  ◌==◌, Option, none, some, Bool-cases, inl, inr,
}
use cs.Prelude.Search.{search_from, search_from-lt}
use cs.Xv6.Inode.{Device, ndirect, balloc}
use cs.Xv6.Inode.Bytes.{get_byte, byte_of}
use cs.Xv6.Inode.Data.{bsize}

-- The block of the device for block `bn` of the file, or 0.
abbrev pub addr_of : Device → (ℕ → ℕ) → ℕ → ℕ
addr_of d addrs bn =
    if ltb bn ndirect
    then addrs bn
    else if addrs ndirect == 0
    then 0
    else d.block (addrs ndirect) (bn - ndirect)

-- The byte at an offset; a block that is not there reads as zeros.
abbrev pub content : Device → (ℕ → ℕ) → ℕ → ℕ
content d addrs i =
    if addr_of d addrs (i / bsize) == 0
    then 0
    else get_byte (d.block (addr_of d addrs (i / bsize))) (i % bsize)

-- The blocks of a file, with its indirect block, are in use and different.
pub record IsMap (addr : ℕ → ℕ) (table : ℕ) (used : ℕ → Bool) : Type 0 where
  pub boot : used 0 ≡ true
  pub table_used : table ≢ 0 → used table ≡ true
  pub mapped : (m : ℕ) → m < 140 → addr m ≢ 0 → used (addr m) ≡ true
  pub distinct : (m n : ℕ) → m < 140 → n < 140 → addr m ≢ 0 → addr m ≡ addr n → m ≡ n
  pub apart : (m : ℕ) → m < 140 → addr m ≢ 0 → addr m ≢ table

-- A new block for block `n` of the file.
pub IsMap-add :
    (addr addr' : ℕ → ℕ) (table n b : ℕ) (used used' : ℕ → Bool)
    → IsMap addr table used
    → used b ≡ false
    → ((k : ℕ) → used' k ≡ (if k == b then true else used k))
    → ((m : ℕ) → m < 140 → addr' m ≡ (if m == n then b else addr m))
    → IsMap addr' table used'
IsMap-add addr addr' table n b used used' f free u a = record {
  boot = ground (arith, f.boot, u 0);
  table_used = λ h. ground (arith, f.table_used h, u table);
  mapped = λ m lt h. ground (arith, a m lt, f.mapped m lt, u (addr' m), h);
  distinct = λ m k ltm ltk h e. ground (
    arith,
    a m ltm,
    a k ltk,
    f.distinct m k ltm ltk,
    f.mapped m ltm,
    f.mapped k ltk,
    free,
    h,
    e,
    ap used {x = b} {y = addr m},
    ap used {x = b} {y = addr k},
    f.boot,
    ap used {x = b} {y = 0},
  );
  apart = λ m lt h e. ground (
    arith,
    a m lt,
    f.apart m lt,
    f.table_used,
    free,
    h,
    e,
    ap used {x = b} {y = table},
    ap used {x = b} {y = 0},
    f.boot,
  );
}

-- A new indirect block, which is empty.
pub IsMap-table :
    (addr addr' : ℕ → ℕ) (b : ℕ) (used used' : ℕ → Bool)
    → IsMap addr 0 used
    → used b ≡ false
    → ((k : ℕ) → used' k ≡ (if k == b then true else used k))
    → ((m : ℕ) → m < 140 → addr' m ≡ addr m)
    → IsMap addr' b used'
IsMap-table addr addr' b used used' f free u a = record {
  boot = ground (arith, f.boot, u 0);
  table_used = λ h. ground (arith, u b);
  mapped = λ m lt h. ground (arith, a m lt, f.mapped m lt, u (addr' m), h);
  distinct = λ m k ltm ltk h e.
      f.distinct m k ltm ltk (ground (arith, a m ltm, h)) (ground (arith, a m ltm, a k ltk, e));
  apart =
      λ m lt h e. ground (arith, a m lt, f.mapped m lt, free, h, e, ap used {x = b} {y = addr m});
}

abbrev pub IsFile : Device → (ℕ → ℕ) → Type 0
IsFile d addrs = IsMap (addr_of d addrs) (addrs ndirect) d.used

-- A block that balloc gave.
pub record Got (d : Device) (b : ℕ) (d' : Device) : Type 0 where
  pub free : d.used b ≡ false
  pub marked : (k : ℕ) → d'.used k ≡ (if k == b then true else d.used k)
  pub blocks : (k j : ℕ) → d'.block k j ≡ (if k == b then 0 else d.block k j)

pub balloc-Got : (d : Device) {b : ℕ} {d' : Device} → balloc d ≡ some (b, d') → Got d b d'
unfolding balloc
balloc-Got d {b} {d'} e = go (search_from d.size 0 (λ k. not (d.used k))) refl
  where
    go : (o : Option ℕ) → search_from d.size 0 (λ k. not (d.used k)) ≡ o → Got d b d'
    go none f = absurd (ground (arith, e, f))
    go (some r) f =
        let same : r ≡ b = ground (arith, e, f) in
        let (lo, hi, free) = search_from-lt d.size 0 (λ k. not (d.used k)) {r = b} (rw same at f) in
        record {
          free = ground (arith, free);
          marked = λ k. ground (arith, e, f);
          blocks = λ k j. ground (arith, e, f);
        }

-- Block `n` of the file is block `b`, and the file holds what it held.
pub record Found (d : Device) (addrs : ℕ → ℕ) (n b : ℕ) (addrs' : ℕ → ℕ) (d' : Device)
    : Type 0 where
  pub is_file : IsFile d' addrs'
  pub here : addr_of d' addrs' n ≡ b
  pub real : b ≢ 0
  pub same : (i : ℕ) → i / bsize < 140 → content d' addrs' i ≡ content d addrs i
  pub kept : (m : ℕ) → m < 140 → addr_of d addrs m ≢ 0 → addr_of d' addrs' m ≢ 0

get_byte_zero : (blk : ℕ → ℕ) (j : ℕ) → ((w : ℕ) → blk w ≡ 0) → get_byte blk j ≡ 0
unfolding byte_of
get_byte_zero blk j z = ground (arith, z (j / 4))

pub content-add :
    (d d' : Device) (addrs addrs' : ℕ → ℕ) (n b : ℕ)
    → b ≢ 0
    → addr_of d addrs n ≡ 0
    → ((m : ℕ) → m < 140 → addr_of d' addrs' m ≡ (if m == n then b else addr_of d addrs m))
    → ((m : ℕ)
        → m < 140
        → addr_of d addrs m ≢ 0
        → d'.block (addr_of d addrs m) ≡ d.block (addr_of d addrs m))
    → ((j : ℕ) → d'.block b j ≡ 0)
    → (i : ℕ) → i / bsize < 140
    → content d' addrs' i ≡ content d addrs i
content-add d d' addrs addrs' n b real gone a same zeroed i small =
    let m = i / bsize in
    elim (Bool-cases (m == n)) [
      | inl here ↦
          let at : addr_of d addrs m ≡ 0 = ap (addr_of d addrs) (ground (arith, here)) ∙ gone in
          let now : addr_of d' addrs' m ≡ b = ground (arith, a m small, here) in
          rw (at, now) (ground (arith, real, get_byte_zero (d'.block b) (i % bsize) zeroed))
      | inr there ↦
          let now : addr_of d' addrs' m ≡ addr_of d addrs m = ground (arith, a m small, there) in
          rw now (elim (Bool-cases (addr_of d addrs m == 0)) [
            | inl none_there ↦ ground (arith, none_there)
            | inr some_there ↦ ground (
              arith,
              some_there,
              ap (λ blk. get_byte blk (i % bsize)) (same m small (ground (arith, some_there))),
            )
          ])
    ]
