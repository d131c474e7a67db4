-- ===== src/Xv6/Inode.antt =====
-- lab3/xv6-public/fs.c: the cache of inodes, the free map and the blocks of an inode. A block is a
-- sequence of `uint`s. The sleep lock of an inode belongs to its holder.
pub mod Cache
pub mod Blocks
pub mod Bytes
pub mod Data
pub mod Content
pub mod Bmap
pub mod Read
pub mod Write
pub mod File
pub mod Names
pub mod Dir
pub mod Lookup
pub mod Entries
pub mod Link
pub mod Walk
mod Tests
use cs.Prelude.{
  ℕ, zero, suc, ◌+◌, ◌-◌, Bool, true, false, ◌&&◌, not, if◌then◌else◌, ltb, ◌==◌, Option, none,
  some,
}
use cs.Prelude.Search.{search_from}

-- What `struct inode` and `struct dinode` share.
pub record Dinode : Type 0 where
  pub type : ℕ
  pub major : ℕ
  pub minor : ℕ
  pub nlink : ℕ
  pub size : ℕ
  pub addrs : ℕ → ℕ

pub record Inode : Type 0 where
  pub dev : ℕ
  pub inum : ℕ
  pub ref : ℕ
  pub valid : Bool
  pub copy : Dinode

-- The free map, the blocks, and the inodes of a device of `size` blocks.
pub record Device : Type 0 where
  pub size : ℕ
  pub used : ℕ → Bool
  pub block : ℕ → ℕ → ℕ
  pub inodes : ℕ → Dinode

abbrev pub ninode : ℕ
ninode = 50

abbrev pub ndirect : ℕ
ndirect = 12

abbrev pub nindirect : ℕ
nindirect = 128

abbrev pub put_inode : (ℕ → Inode) → ℕ → Inode → ℕ → Inode
put_inode cache i ip k = if k == i then ip else cache k

abbrev pub is_inode : ℕ → ℕ → Inode → Bool
is_inode dev inum ip = ltb 0 ip.ref && ((ip.dev == dev) && (ip.inum == inum))

-- `none` is the panic "no inodes".
unfoldable pub iget : ℕ → ℕ → (ℕ → Inode) → Option (ℕ × (ℕ → Inode))
iget dev inum cache = elim (search_from ninode 0 (λ i. is_inode dev inum (cache i))) [
  | some i ↦ some (i, put_inode cache i (record (cache i) { ref = (cache i).ref + 1 }))
  | none ↦ elim (search_from ninode 0 (λ i. (cache i).ref == 0)) [
    | none ↦ none
    | some i ↦
        some (
          i,
          put_inode cache i (record (cache i) { dev = dev; inum = inum; ref = 1; valid = false }),
        )
  ]
]

unfoldable pub idup : ℕ → (ℕ → Inode) → ℕ → Inode
idup i cache = put_inode cache i (record (cache i) { ref = (cache i).ref + 1 })

-- `none` is a panic.
unfoldable pub ilock : Device → Inode → Option Inode
ilock d ip =
    if ltb ip.ref 1
    then none
    else if ip.valid
    then some ip
    else if (d.inodes ip.inum).type == 0
    then none
    else some (record ip { copy = d.inodes ip.inum; valid = true })

unfoldable pub iupdate : Device → Inode → Device
iupdate d ip = record d { inodes = λ k. if k == ip.inum then ip.copy else d.inodes k }

-- The first free block, zeroed. `none` is the panic "out of blocks".
unfoldable pub balloc : Device → Option (ℕ × Device)
balloc d = elim (search_from d.size 0 (λ b. not (d.used b))) [
  | none ↦ none
  | some b ↦ some (
    b,
    record d {
      used = λ k. if k == b then true else d.used k;
      block = λ k j. if k == b then 0 else d.block k j;
    },
  )
]

-- `none` is the panic "freeing free block".
unfoldable pub bfree : Device → ℕ → Option Device
bfree d b =
    if d.used b then some (record d { used = λ k. if k == b then false else d.used k }) else none

abbrev pub put_addr : (ℕ → ℕ) → ℕ → ℕ → ℕ → ℕ
put_addr addrs n b k = if k == n then b else addrs k

-- `ip->addrs[n]`, allocated if it is 0.
unfoldable pub bmap_addr : Device → (ℕ → ℕ) → ℕ → Option (ℕ × (ℕ → ℕ) × Device)
bmap_addr d addrs n =
    if addrs n == 0
    then elim (balloc d) [ none ↦ none | some (b, d') ↦ some (b, put_addr addrs n b, d') ]
    else some (addrs n, addrs, d)

-- `a[bn]` of the indirect block, allocated if it is 0.
unfoldable pub bmap_entry : Device → ℕ → ℕ → Option (ℕ × Device)
bmap_entry d at bn =
    if d.block at bn == 0
    then elim (balloc d) [
      | none ↦ none
      | some (b, d') ↦ some (
        b,
        record d' { block = λ k. if k == at then put_addr (d'.block at) bn b else d'.block k },
      )
    ]
    else some (d.block at bn, d)

-- The block, the addresses of the inode and the device; `none` is a panic.
unfoldable pub bmap : Device → (ℕ → ℕ) → ℕ → Option (ℕ × (ℕ → ℕ) × Device)
bmap d addrs bn =
    if ltb bn ndirect
    then bmap_addr d addrs bn
    else if ltb (bn - ndirect) nindirect
    then elim (bmap_addr d addrs ndirect) [
      | none ↦ none
      | some (at, addrs', d') ↦ elim (bmap_entry d' at (bn - ndirect)) [
        | none ↦ none
        | some (b, d'') ↦ some (b, addrs', d'')
      ]
    ]
    else none

-- The loops of itrunc, over `n` addresses from the `i`th on.
unfoldable pub free_addrs : ℕ → ℕ → (ℕ → ℕ) → Device → Option Device
free_addrs zero i a d = some d
free_addrs (suc n) i a d =
    if a i == 0
    then free_addrs n (i + 1) a d
    else elim (bfree d (a i)) [ none ↦ none | some d' ↦ free_addrs n (i + 1) a d' ]

unfoldable pub free_indirect : (ℕ → ℕ) → Device → Option Device
free_indirect addrs d =
    if addrs ndirect == 0
    then some d
    else elim (free_addrs nindirect 0 (d.block (addrs ndirect)) d) [
      | none ↦ none
      | some d' ↦ bfree d' (addrs ndirect)
    ]

unfoldable pub itrunc : Device → Inode → Option (Inode × Device)
itrunc d ip = elim (free_addrs ndirect 0 ip.copy.addrs d) [
  | none ↦ none
  | some d' ↦ elim (free_indirect ip.copy.addrs d') [
    | none ↦ none
    | some d'' ↦
        let ip' = record ip {
          copy = record ip.copy { size = 0; addrs = λ k. if ltb k 13 then 0 else ip.copy.addrs k };
        } in
        some (ip', iupdate d'' ip')
  ]
]

-- iput up to the last acquisition of the cache's lock: an inode that nothing names any more is freed.
unfoldable pub iput_free : Device → Inode → Option (Inode × Device)
iput_free d ip =
    if ip.valid && ((ip.copy.nlink == 0) && (ip.ref == 1))
    then elim (itrunc d ip) [
      | none ↦ none
      | some (ip', d') ↦
          let gone = record ip' { copy = record ip'.copy { type = 0 } } in
          some (record gone { valid = false }, iupdate d' gone)
    ]
    else some (ip, d)

-- iput: the caller has a reference, so `ref` is not 0.
unfoldable pub iput : ℕ → Device → (ℕ → Inode) → Option ((ℕ → Inode) × Device)
iput i d cache = elim (iput_free d (cache i)) [
  | none ↦ none
  | some (ip, d') ↦ some (put_inode cache i (record ip { ref = ip.ref - 1 }), d')
]

-- The first inode from 1 on that is not in use, cleared; `none` is the panic "ialloc: no inodes", or
-- that of iget.
unfoldable pub ialloc : ℕ → ℕ → ℕ → (ℕ → Inode) → Device → Option (ℕ × (ℕ → Inode) × Device)
ialloc ninodes dev type cache d = elim (search_from (ninodes - 1) 1 (λ k. (d.inodes k).type == 0)) [
  | none ↦ none
  | some inum ↦
      let fresh : Dinode = record {
        type = type;
        major = 0;
        minor = 0;
        nlink = 0;
        size = 0;
        addrs = λ k. 0;
      } in
      elim (iget dev inum cache) [
        | none ↦ none
        | some (i, cache') ↦
            some (i, cache', record d { inodes = λ k. if k == inum then fresh else d.inodes k })
      ]
]
