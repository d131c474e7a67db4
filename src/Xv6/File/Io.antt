-- ===== src/Xv6/File/Io.antt =====
-- lab3/xv6-public/file.c: fileread and filewrite, on what an open file refers to. The drivers of the
-- devices are parameters. The locks of the inode and the log's begin_op and end_op, which stand
-- around each call of readi and writei, are modelled with their own components. filewrite gives up the
-- inode between two chunks; here no other process uses the inode or the device meanwhile.
use cs.Prelude.{
  ℕ, zero, suc, ◌+◌, ◌-◌, ◌*◌, ◌/◌, ◌%◌, ◌^◌, Bool, true, false, if◌then◌else◌, ltb, ◌==◌, Option,
  none, some, List, length, take, drop,
}
use cs.Xv6.Log.{max_op_blocks}
use cs.Xv6.Pipe.{
  Pipe, Writing, wrote, write_failed, Reading, read_bytes, read_failed, pipewrite, piperead,
}
use cs.Xv6.Inode.{Inode, Device}
use cs.Xv6.Inode.Data.{readi, writei}

-- `type`, with what `pipe` or `ip` points to.
pub data Target : Type 0 where
  fd_none : Target
  fd_pipe : Pipe → Target
  fd_inode : Inode → Target

-- `struct file`; `off` is a `uint`.
pub record OpenFile : Type 0 where
  pub target : Target
  pub readable : Bool
  pub writable : Bool
  pub off : ℕ

-- `f->off += r`
abbrev pub advance : ℕ → ℕ → ℕ
advance off r = (off + r) % 2 ^ 32

module _ (driver : ℕ → Option (ℕ → Option (List ℕ))) where
  -- How the call ends, the file and the device; `none` is a panic.
  unfoldable pub fileread : Bool → OpenFile → ℕ → Device → Option (Reading × OpenFile × Device)
  fileread killed f n d = elim f.readable [
    | false ↦ some (read_failed, f, d)
    | true ↦ elim f.target [
      | fd_none ↦ none
      | fd_pipe p ↦
          let (r, p') = piperead killed p n in some (r, record f { target = fd_pipe p' }, d)
      | fd_inode ip ↦ elim (readi driver f.off n ip d) [
        | none ↦ none
        | some (none, ip', d') ↦ some (read_failed, record f { target = fd_inode ip' }, d')
        | some (some bytes, ip', d') ↦ some (
          read_bytes bytes,
          record f { target = fd_inode ip'; off = advance f.off (length bytes) },
          d',
        )
      ]
    ]
  ]

abbrev pub max_write : ℕ
max_write = (max_op_blocks - 1 - 1 - 2) / 2 * 512

-- `n1`
abbrev pub write_size : ℕ → ℕ
write_size n = if ltb max_write n then max_write else n

module _ (driver : ℕ → Option (List ℕ → Option ℕ)) where
  -- The loop of filewrite, with the bytes from `addr + i` on: whether all are written, the offset, the
  -- inode and the device. Each round writes a byte at least, and the next one goes on from what it left.
  unfoldable pub write_chunks : ℕ → ℕ → List ℕ → Inode → Device → Option (Bool × ℕ × Inode × Device)
  write_chunks zero off src ip d = some (length src == 0, off, ip, d)
  write_chunks (suc fuel) off src ip d = elim (length src == 0) [
    | true ↦ some (true, off, ip, d)
    | false ↦
        let n1 = write_size (length src) in
        elim (writei driver off (take n1 src) ip d) [
          | none ↦ none
          | some (none, ip', d') ↦ some (false, off, ip', d')
          | some (some r, ip', d') ↦ elim (r == n1) [
            | false ↦ none
            | true ↦ write_chunks fuel (advance off r) (drop n1 src) ip' d'
          ]
        ]
  ]

  unfoldable pub filewrite :
      Bool → OpenFile → List ℕ → Device → Option (Writing × OpenFile × Device)
  filewrite killed f src d = elim f.writable [
    | false ↦ some (write_failed, f, d)
    | true ↦ elim f.target [
      | fd_none ↦ none
      | fd_pipe p ↦
          let (r, p') = pipewrite killed p src in some (r, record f { target = fd_pipe p' }, d)
      | fd_inode ip ↦ elim (write_chunks (length src) f.off src ip d) [
        | none ↦ none
        | some (all, off, ip', d') ↦
            some (
              if all then wrote else write_failed,
              record f { target = fd_inode ip'; off = off },
              d',
            )
      ]
    ]
  ]
