-- ===== src/Xv6/Pipe.antt =====
-- lab3/xv6-public/pipe.c: a ring of 512 bytes between two descriptors.
-- A call runs under `p->lock` until it returns or sleeps; a call that sleeps goes on from where it
-- stopped when it is woken, and what the other processes did in between is in the pipe it is given.
pub mod Fifo
use cs.Prelude.{
  ℕ, zero, suc, ◌+◌, ◌-◌, ◌%◌, ◌^◌, Bool, true, false, ◌&&◌, ◌||◌, not, List, [], ◌∷◌, ◌++◌,
  if◌then◌else◌, ◌==◌,
}

-- `struct pipe` without its lock; `nread` and `nwrite` are `uint`.
pub record Pipe : Type 0 where
  pub bytes : ℕ → ℕ
  pub nread : ℕ
  pub nwrite : ℕ
  pub readopen : Bool
  pub writeopen : Bool

-- The channels that a process sleeps on and that are woken: `&p->nread` and `&p->nwrite`.
pub data Chan : Type 0 where
  at_nread at_nwrite : Chan

abbrev pub pipe_size : ℕ
pipe_size = 512

-- What `pipealloc` puts into a page.
unfoldable pub pipe_init : (ℕ → ℕ) → Pipe
pipe_init page = record { bytes = page; nread = 0; nwrite = 0; readopen = true; writeopen = true }

-- The pipe, the channel woken, and whether the page is freed.
unfoldable pub pipeclose : Pipe → Bool → Pipe × Chan × Bool
pipeclose p writable =
    let p' : Pipe =
      if writable then record p { writeopen = false } else record p { readopen = false } in
    (p', if writable then at_nread else at_nwrite, not p'.readopen && not p'.writeopen)

-- How a stretch of a call ends: it returns, or it sleeps with bytes still to write.
pub data Writing : Type 0 where
  wrote : Writing
  write_failed : Writing
  write_sleeps : List ℕ → Writing

-- `p->data[p->nwrite++ % PIPESIZE] = c`
unfoldable pub put_byte : Pipe → ℕ → Pipe
put_byte p c =
    let at = p.nwrite % 512 in
    record p { bytes = λ k. if k == at then c else p.bytes k; nwrite = (p.nwrite + 1) % 2 ^ 32 }

abbrev pub is_full : Pipe → Bool
is_full p = p.nwrite == (p.nread + 512) % 2 ^ 32

-- The loop of `pipewrite`, from the byte `addr[i]`.
unfoldable pub pipewrite : Bool → Pipe → List ℕ → Writing × Pipe
unfolding put_byte
pipewrite killed p [] = (wrote, p)
pipewrite killed p (c ∷ rest) =
    let more = pipewrite killed (put_byte p c) rest in
    if is_full p
    then (if not p.readopen || killed then (write_failed, p) else (write_sleeps (c ∷ rest), p))
    else more

pub data Reading : Type 0 where
  read_bytes : List ℕ → Reading
  read_failed : Reading
  read_sleeps : Reading

abbrev pub is_empty : Pipe → Bool
is_empty p = p.nread == p.nwrite

-- The copying loop of `piperead`, at most `n` bytes.
unfoldable pub read_loop : ℕ → Pipe → List ℕ × Pipe
read_loop zero p = ([], p)
read_loop (suc n) p =
    let p' = record p { nread = (p.nread + 1) % 2 ^ 32 } in
    let rest = read_loop n p' in
    if is_empty p then ([], p) else (p.bytes (p.nread % 512) ∷ rest.0, rest.1)

unfoldable pub piperead : Bool → Pipe → ℕ → Reading × Pipe
piperead killed p n =
    let (got, p') = read_loop n p in
    if is_empty p && p.writeopen
    then (if killed then read_failed else read_sleeps, p)
    else (read_bytes got, p')
