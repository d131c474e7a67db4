-- ===== src/Xv6/Inode/Data.antt =====
-- lab3/xv6-public/fs.c: readi and writei. The function of a device's driver is a parameter; `major` is
-- not negative.
use cs.Prelude.{
  ℕ, zero, suc, ◌+◌, ◌-◌, ◌*◌, ◌/◌, ◌%◌, ◌^◌, true, false, ◌&&◌, ◌||◌, if◌then◌else◌, ltb, leb,
  ◌==◌, Option, none, some, List, [], ◌++◌, length, take, drop,
}
use cs.Xv6.Inode.{Inode, Device, ndirect, nindirect, bmap, iupdate}
use cs.Xv6.Inode.Bytes.{fill, bytes_at}

abbrev pub bsize : ℕ
bsize = 512

abbrev pub t_dev : ℕ
t_dev = 3

abbrev pub ndev : ℕ
ndev = 10

-- `min(n - tot, BSIZE - off%BSIZE)`
abbrev pub round_size : ℕ → ℕ → ℕ
round_size off left = if ltb left (bsize - off % bsize) then left else bsize - off % bsize

-- The loop of readi with `left` bytes to go: the bytes, the addresses of the inode and the device.
-- Each round takes a byte at least.
unfoldable pub read_loop : ℕ → ℕ → ℕ → (ℕ → ℕ) → Device → Option (List ℕ × (ℕ → ℕ) × Device)
read_loop zero off left addrs d = some ([], addrs, d)
read_loop (suc fuel) off left addrs d = elim (left == 0) [
  | true ↦ some ([], addrs, d)
  | false ↦ elim (bmap d addrs (off / bsize)) [
    | none ↦ none
    | some (b, addrs', d') ↦
        let m = round_size off left in
        elim (read_loop fuel (off + m) (left - m) addrs' d') [
          | none ↦ none
          | some (rest, addrs'', d'') ↦
              some (bytes_at (d'.block b) (off % bsize) m ++ rest, addrs'', d'')
        ]
  ]
]

abbrev pub put_block : Device → ℕ → (ℕ → ℕ) → Device
put_block d b blk = record d { block = λ k. if k == b then blk else d.block k }

-- The loop of writei: the offset where it ends, the addresses and the device.
unfoldable pub write_loop : ℕ → ℕ → List ℕ → (ℕ → ℕ) → Device → Option (ℕ × (ℕ → ℕ) × Device)
write_loop zero off src addrs d = some (off, addrs, d)
write_loop (suc fuel) off src addrs d = elim (length src == 0) [
  | true ↦ some (off, addrs, d)
  | false ↦ elim (bmap d addrs (off / bsize)) [
    | none ↦ none
    | some (b, addrs', d') ↦
        let m = round_size off (length src) in
        write_loop fuel (off + m) (drop m src) addrs'
          (put_block d' b (fill (d'.block b) (off % bsize) (take m src)))
  ]
]

abbrev pub with_addrs : Inode → (ℕ → ℕ) → Inode
with_addrs ip addrs = record ip { copy = record ip.copy { addrs = addrs } }

-- `n` cut at the end of the file.
abbrev pub cut : ℕ → ℕ → ℕ → ℕ
cut size off n = if ltb size (off + n) then size - off else n

module _ (driver : ℕ → Option (ℕ → Option (List ℕ))) where
  -- The bytes, or `none` inside for -1; `none` is a panic.
  unfoldable pub readi : ℕ → ℕ → Inode → Device → Option (Option (List ℕ) × Inode × Device)
  readi off n ip d = elim (ip.copy.type == t_dev) [
    | true ↦ elim (leb ndev ip.copy.major) [
      | true ↦ some (none, ip, d)
      | false ↦ elim (driver ip.copy.major) [
        | none ↦ some (none, ip, d)
        | some read ↦ some (read n, ip, d)
      ]
    ]
    | false ↦ elim (ltb ip.copy.size off || ltb ((off + n) % 2 ^ 32) off) [
      | true ↦ some (none, ip, d)
      | false ↦
          elim (read_loop (cut ip.copy.size off n) off (cut ip.copy.size off n) ip.copy.addrs d) [
            | none ↦ none
            | some (bytes, addrs, d') ↦ some (some bytes, with_addrs ip addrs, d')
          ]
    ]
  ]

abbrev pub maxfile : ℕ
maxfile = ndirect + nindirect

-- The size after a write that ended at `off`.
abbrev pub grown : ℕ → Inode → Inode
grown off ip = record ip { copy = record ip.copy { size = off } }

module _ (driver : ℕ → Option (List ℕ → Option ℕ)) where
  -- The number of bytes written, or `none` inside for -1; `none` is a panic.
  unfoldable pub writei : ℕ → List ℕ → Inode → Device → Option (Option ℕ × Inode × Device)
  writei off src ip d = elim (ip.copy.type == t_dev) [
    | true ↦ elim (leb ndev ip.copy.major) [
      | true ↦ some (none, ip, d)
      | false ↦ elim (driver ip.copy.major) [
        | none ↦ some (none, ip, d)
        | some write ↦ some (write src, ip, d)
      ]
    ]
    | false ↦
        elim (ltb ip.copy.size off
          || (ltb ((off + length src) % 2 ^ 32) off || ltb (maxfile * bsize) (off + length src))) [
            | true ↦ some (none, ip, d)
            | false ↦ elim (write_loop (length src) off src ip.copy.addrs d) [
              | none ↦ none
              | some (end, addrs, d') ↦
                  let ip' = with_addrs ip addrs in
                  some (
                    if ltb 0 (length src) && ltb ip.copy.size end
                    then (some (length src), grown end ip', iupdate d' (grown end ip'))
                    else (some (length src), ip', d'))
            ]
          ]
  ]
