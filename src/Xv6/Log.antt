-- ===== src/Xv6/Log.antt =====
-- lab3/xv6-public/log.c: the write-ahead log of the file system, with a disk that may lose power.
-- The blocks of the disk have an abstract content `B`; the block `log.start` holds the header.
pub mod Crash
pub mod Full
pub mod Reserve
use cs.Prelude.{
  ℕ, zero, suc, ◌+◌, ◌-◌, ◌*◌, Bool, true, false, ◌||◌, not, List, [], ◌∷◌, ◌++◌, if◌then◌else◌,
  ◌==◌, ltb, leb, length, Option, none, some,
}

abbrev pub max_op_blocks : ℕ
max_op_blocks = 10

abbrev pub log_size : ℕ
log_size = max_op_blocks * 3

-- The blocks that mkfs gives to the log, with the header.
abbrev pub nlog : ℕ
nlog = log_size

-- `struct log` without its lock. `blocks` is `lh.block[0 .. lh.n)`.
pub record Log : Type 0 where
  pub start : ℕ
  pub size : ℕ
  pub outstanding : ℕ
  pub committing : Bool
  pub blocks : List ℕ

-- What `bread` returns for each block, what the disk holds, the header on the disk, and how many
-- more writes reach the disk before the power fails.
pub record Machine (B : Type 0) : Type 0 where
  pub view : ℕ → B
  pub disk : ℕ → B
  pub head : List ℕ
  pub left : ℕ

abbrev pub put {ℓ} : {B : Type ℓ} → (ℕ → B) → ℕ → B → ℕ → B
put f i b k = if k == i then b else f k

module _ {B : Type 0} where
  -- The buffer of block `i` is given the content `b` and written by `bwrite`.
  unfoldable pub bwrite : Machine B → ℕ → B → Machine B
  bwrite m i b =
      if m.left == 0
      then record m { view = put m.view i b }
      else record m { view = put m.view i b; disk = put m.disk i b; left = m.left - 1 }

  -- `write_head`
  unfoldable pub write_head : Machine B → List ℕ → Machine B
  write_head m blocks = if m.left == 0 then m else record m { head = blocks; left = m.left - 1 }

  -- `write_log`, from `tail` on.
  unfoldable pub write_log : ℕ → ℕ → List ℕ → Machine B → Machine B
  write_log start tail [] m = m
  write_log start tail (b ∷ bs) m =
      write_log start (tail + 1) bs (bwrite m (start + tail + 1) (m.view b))

  -- `install_trans`, from `tail` on.
  unfoldable pub install_trans : ℕ → ℕ → List ℕ → Machine B → Machine B
  install_trans start tail [] m = m
  install_trans start tail (b ∷ bs) m =
      install_trans start (tail + 1) bs (bwrite m b (m.view (start + tail + 1)))

  -- `commit`, which also empties `log.lh`.
  unfoldable pub commit : ℕ → List ℕ → Machine B → Machine B
  commit start [] m = m
  commit start (b ∷ bs) m =
      let logged = write_head (write_log start 0 (b ∷ bs) m) (b ∷ bs) in
      write_head (install_trans start 0 (b ∷ bs) logged) []

  -- The machine after the power comes back: what was in memory is gone.
  unfoldable pub reboot : Machine B → ℕ → Machine B
  reboot m left = record m { view = m.disk; left = left }

  -- `recover_from_log`, with `read_head`.
  unfoldable pub recover_from_log : ℕ → Machine B → Machine B
  recover_from_log start m = write_head (install_trans start 0 m.head m) []

-- One round of the loop of `begin_op`: `none` where the caller sleeps.
unfoldable pub begin_op : Log → Option Log
begin_op l =
    if l.committing
    then none
    else if ltb log_size (length l.blocks + (l.outstanding + 1) * max_op_blocks)
    then none
    else some (record l { outstanding = l.outstanding + 1 })

-- `end_op` up to the commit: whether the caller commits. `none` is the panic. The caller has an
-- operation running, so `outstanding` is not 0; where it is, the `int` of the C code becomes -1.
unfoldable pub end_op : Log → Option (Bool × Log)
end_op l =
    if l.committing
    then none
    else if l.outstanding == 1
    then some (true, record l { outstanding = l.outstanding - 1; committing = true })
    else some (false, record l { outstanding = l.outstanding - 1 })

-- The rest of `end_op`, after `commit`.
unfoldable pub end_commit : Log → Log
end_commit l = record l { blocks = []; committing = false }

unfoldable pub logged : List ℕ → ℕ → Bool
logged [] b = false
logged (c ∷ bs) b = (c == b) || logged bs b

-- `log_write`: a block that is in the log already takes its old slot. `none` is a panic.
unfoldable pub log_write : Log → ℕ → Option Log
unfolding logged
log_write l b =
    if leb log_size (length l.blocks) || leb (l.size - 1) (length l.blocks)
    then none
    else if ltb l.outstanding 1
    then none
    else some (if logged l.blocks b then l else record l { blocks = l.blocks ++ (b ∷ []) })
