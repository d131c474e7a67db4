-- ===== src/Xv6/Tests.antt =====
-- lab3/xv6-public: the theorems at concrete states of the kernel.
use mathlib.Core.Option
use cs.Prelude.{
  ℕ, ◌+◌, ◌-◌, ◌^◌, ◌≤◌, ◌≡◌, ◌≢◌, ◌↔◌, ◌<◌, ◌⊎◌, inl, inr, refl, arith, Bool, true, false, List,
  [], ◌∷◌, Option, none, some, length, if◌then◌else◌, ltb, ◌==◌,
}
use cs.Xv6.Inode.{Dinode, Inode, Device, put_addr}
use cs.Xv6.Inode.Cache.{IsUnique}
use cs.Xv6.Sleeplock.{unlocked, acquiresleep}
use cs.Xv6.Sleeplock.Exclusion.{Holding, lock_exclusion}
use cs.Xv6.Sleeplock.Exclusion
use cs.Xv6.Pipe.{Pipe, pipewrite, piperead, read_bytes, read_failed, read_sleeps}
use cs.Xv6.Pipe.Fifo.{IsPipe, Written, Taken, contents, pipewrite_lem, piperead_lem}
use cs.Xv6.Log.{
  Machine, log_size, nlog, commit, reboot, recover_from_log, logged, log_write, end_op,
}
use cs.Xv6.Log.Crash.{commit_atomic}
use cs.Xv6.Log.Reserve.{sum, Running, IsReserved, log_write-panic}
use cs.Xv6.Log.Full.{idle, log_write_panics}
use cs.Xv6.Log.Reserve
use cs.Xv6.Memory.{Memory, memmove}
use cs.Xv6.Memory.Move.{memmove_lem}
use cs.Xv6.Bio.{Buf, fresh_buf}
use cs.Xv6.Bio.Unique.{copies}
use cs.Xv6.Kalloc.{kalloc, kfree, free_from, freerange}
use cs.Xv6.Kalloc.Pages.{Pages, times, kinit_exclusive, pages_exclusive}
use cs.Xv6.Kalloc.Pages
use cs.Xv6.File.{Files, argfd, sys_close}
use cs.Xv6.File.Refs.{uses, IsCounted, sys_close-IsCounted}

-- A pipe whose counters are about to wrap, with one byte in it.
abbrev wrapping : Pipe
wrapping = record {
  bytes = λ k. if k == 511 then 7 else 0;
  nread = 2 ^ 32 - 1;
  nwrite = 0;
  readopen = true;
  writeopen = true;
}

wrapping-IsPipe : IsPipe wrapping
wrapping-IsPipe = record {
  read_fits = omega arith;
  write_fits = omega arith;
  bounded = omega arith;
}

pipewrite_example :
    (k : ℕ) × Written false wrapping
      (1 ∷ 2 ∷ [])
      (pipewrite false wrapping (1 ∷ 2 ∷ [])).0
      (pipewrite false wrapping (1 ∷ 2 ∷ [])).1
      k
pipewrite_example = pipewrite_lem false wrapping (1 ∷ 2 ∷ []) wrapping-IsPipe

piperead_example :
    ((contents wrapping ≡ [])
      × (wrapping.writeopen ≡ true)
      × (piperead false wrapping 4 ≡ (if false then read_failed else read_sleeps, wrapping)))
    ⊎ ((got : List ℕ) × ((piperead false wrapping 4).0 ≡ read_bytes got)
        × Taken wrapping 4 got (piperead false wrapping 4).1)
piperead_example = piperead_lem false wrapping 4 wrapping-IsPipe

-- A log at block 2 with a transaction of the blocks 40 and 41; block 40 is to hold 4, and 41 to hold 5.
abbrev machine : ℕ → Machine ℕ
machine left = record {
  view = λ k. if k == 40 then 4 else if k == 41 then 5 else 0;
  disk = λ k. 0;
  head = [];
  left = left;
}

commit_atomic_example :
    (recover_from_log 2 (reboot (commit 2 (40 ∷ 41 ∷ []) (machine 3)) 31)).disk 41 ≡ 5
unfolding logged
commit_atomic_example =
    commit_atomic 2 29 (40 ∷ 41 ∷ []) (machine 3) 31 (omega arith)
      (inr (omega arith), (inr (omega arith), tt)) refl (omega arith) 41 (inr (omega arith))

-- On the log that mkfs makes, one operation runs and has logged one block.
abbrev one_running : Running
one_running = record {
  log = record { start = 2; size = nlog; outstanding = 1; committing = false; blocks = 40 ∷ [] };
  budgets = 9 ∷ [];
}

one-IsReserved : IsReserved one_running
unfolding sum
one-IsReserved = record {
  fits = omega arith;
  counted = refl;
  small = (omega arith, tt);
  quiet = ground arith;
}

log_write-panic_example :
    ((log_write one_running.log 41 ≡ none) ↔ (30 ≤ 2))
    × (end_op one_running.log ≢ none)
    × (length one_running.log.blocks < log_size)
log_write-panic_example = log_write-panic 41 8 [] [] one-IsReserved Reserve.here refl

log_write_panics_example :
    (s : Running) × Reserve.Reach (idle 2) s
    × (s.budgets ≡ 0 ∷ 0 ∷ 1 ∷ [])
    × (log_write s.log 40 ≡ none)
log_write_panics_example = log_write_panics 2 40

-- "abcd" at address 0, moved up by 2.
abbrev letters : Memory
letters k = if ltb k 4 then 97 + k else 0

memmove_example : memmove letters 2 0 4 5 ≡ 100
memmove_example = memmove_lem letters 2 0 4 5

abbrev cache : List Buf
cache =
    record { id = 1; dev = 1; blockno = 5; refcnt = 1; valid = true; dirty = false }
    ∷ fresh_buf 0
    ∷ []

abbrev cache_after : List Buf
cache_after =
    record { id = 1; dev = 1; blockno = 5; refcnt = 1; valid = true; dirty = false }
    ∷ record { id = 0; dev = 1; blockno = 6; refcnt = 1; valid = false; dirty = false }
    ∷ []

cache-copies : (d n : ℕ) → d ≢ 0 → copies d n cache ≤ 1
unfolding copies
cache-copies d n h = ground arith

abbrev free_pages : List ℕ
free_pages = 0x80002000 ∷ 0x80001000 ∷ []

abbrev after_kalloc : Pages
after_kalloc = record { free = 0x80001000 ∷ []; owned = 0x80002000 ∷ [] }

kinit_exclusive_example :
    times 0x80001000 after_kalloc.free + times 0x80001000 after_kalloc.owned ≤ 1
unfolding kalloc kfree free_from freerange
kinit_exclusive_example =
    kinit_exclusive {k = 0x80000800} 0x80000800 0x80003000 {free = free_pages} refl
      (Pages.next Pages.here (Pages.gets (λ e. absurd (ground (arith, e))) refl)) 0x80001000

abbrev descriptors : Files
descriptors = record {
  ref = λ k. if k == 3 then 2 else 0;
  ofile = λ k. if ltb k 2 then some 3 else none;
}

descriptors-IsCounted : IsCounted (λ f. 0) descriptors
unfolding uses
descriptors-IsCounted f = ground arith

sys_close-IsCounted_example :
    (r : Option Bool × Files) × (sys_close descriptors 1 ≡ some r)
    × IsCounted (λ f. 0) r.1
    × (r.0 ≡ Option.map (λ f. r.1.ref f == 0) (argfd descriptors 1))
sys_close-IsCounted_example = sys_close-IsCounted (λ f. 0) descriptors 1 descriptors-IsCounted

abbrev before_kalloc : Pages
before_kalloc = record { free = free_pages; owned = [] }

-- The inode 7 in entry 0, with one reference.
abbrev no_dinode : Dinode
no_dinode = record { type = 0; major = 0; minor = 0; nlink = 0; size = 0; addrs = λ k. 0 }

abbrev inodes : ℕ → Inode
inodes k = record {
  dev = 1;
  inum = 7;
  ref = if k == 0 then 1 else 0;
  valid = true;
  copy = no_dinode;
}

inodes-IsUnique : IsUnique inodes
inodes-IsUnique i j dev inum hi hj a b = ground (arith, a, b)

abbrev device : Device
device = record { size = 1000; used = λ k. ltb k 60; block = λ k j. 9; inodes = λ k. no_dinode }

-- Block 20 of a file without blocks: the indirect block is 60, and the block 61.
abbrev device_after : Device
device_after = record {
  size = 1000;
  used = λ k. if k == 61 then true else if k == 60 then true else ltb k 60;
  block = λ k.
      if k == 60
      then put_addr (λ j. if 60 == 61 then 0 else if 60 == 60 then 0 else 9) 8 61
      else λ j. if k == 61 then 0 else if k == 60 then 0 else 9;
  inodes = λ k. no_dinode;
}

abbrev second_block : ℕ
second_block = 61

-- The process 3 has acquired the lock, and the process 4 asks for it.
abbrev held_by_three : Holding
held_by_three = record { lock = record { locked = true; pid = 3 }; inside = 3 ∷ [] }

lock_exclusion_example :
    (length held_by_three.inside ≤ 1)
    × ((held_by_three.inside ≡ []) ⊎ (acquiresleep 4 held_by_three.lock ≡ none))
unfolding acquiresleep
lock_exclusion_example =
    lock_exclusion {h = record { lock = unlocked; inside = [] }} {i = held_by_three} 4
      (inl (refl, refl)) (Exclusion.next Exclusion.here (Exclusion.enters 3 refl))
