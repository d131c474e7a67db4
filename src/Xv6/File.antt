-- ===== src/Xv6/File.antt =====
-- lab3/xv6-public/file.c and sysfile.c: the table of open files and one process's descriptors.
pub mod Refs
pub mod Io
pub mod Write
pub mod Back
use cs.Prelude.{
  ℕ, zero, suc, ◌+◌, ◌-◌, Bool, true, false, if◌then◌else◌, ltb, ◌==◌, Option, none, some,
}
use cs.Prelude.Search.{search_from}

-- `ref` of each slot of `ftable`, and `ofile` of the process.
pub record Files : Type 0 where
  pub ref : ℕ → ℕ
  pub ofile : ℕ → Option ℕ

abbrev pub nfile : ℕ
nfile = 100

abbrev pub nofile : ℕ
nofile = 16

abbrev pub put_ref : Files → ℕ → ℕ → Files
put_ref s f n = record s { ref = λ k. if k == f then n else s.ref k }

abbrev pub put_fd : Files → ℕ → Option ℕ → Files
put_fd s fd o = record s { ofile = λ k. if k == fd then o else s.ofile k }

unfoldable pub filealloc : Files → Option ℕ × Files
filealloc s = elim (search_from nfile 0 (λ f. s.ref f == 0)) [
  | none ↦ (none, s)
  | some f ↦ (some f, put_ref s f 1)
]

-- `none` is the panic.
unfoldable pub filedup : Files → ℕ → Option Files
filedup s f = if ltb (s.ref f) 1 then none else some (put_ref s f (s.ref f + 1))

-- fileclose under the lock: whether this was the last reference, and so pipeclose, or iput between
-- begin_op and end_op, is still to come after the release. `none` is the panic.
unfoldable pub fileclose : Files → ℕ → Option (Bool × Files)
fileclose s f =
    if ltb (s.ref f) 1
    then none
    else if ltb 0 (s.ref f - 1)
    then some (false, put_ref s f (s.ref f - 1))
    else some (true, put_ref s f 0)

-- argfd: the file of a descriptor.
unfoldable pub argfd : Files → ℕ → Option ℕ
argfd s fd = if ltb fd nofile then s.ofile fd else none

abbrev pub is_closed : Option ℕ → Bool
is_closed none = true
is_closed (some f) = false

unfoldable pub fdalloc : Files → ℕ → Option ℕ × Files
fdalloc s f = elim (search_from nofile 0 (λ fd. is_closed (s.ofile fd))) [
  | none ↦ (none, s)
  | some fd ↦ (some fd, put_fd s fd (some f))
]

-- The new descriptor, or -1 as the inner `none`; the outer one is a panic.
unfoldable pub sys_dup : Files → ℕ → Option (Option ℕ × Files)
sys_dup s fd = elim (argfd s fd) [
  | none ↦ some (none, s)
  | some f ↦
      let (new, s') = fdalloc s f in
      elim new [
        | none ↦ some (none, s')
        | some n ↦ elim (filedup s' f) [ none ↦ none | some t ↦ some (some n, t) ]
      ]
]

-- sys_close with fileclose up to the release of the lock. The inner `none` is -1; else the result will be
-- 0, and what is given is whether the rest of fileclose is still to come. The outer `none` is the panic.
unfoldable pub sys_close : Files → ℕ → Option (Option Bool × Files)
sys_close s fd = elim (argfd s fd) [
  | none ↦ some (none, s)
  | some f ↦ elim (fileclose (put_fd s fd none) f) [
    | none ↦ none
    | some (last, t) ↦ some (some last, t)
  ]
]
