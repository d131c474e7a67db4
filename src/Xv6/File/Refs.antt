-- ===== src/Xv6/File/Refs.antt =====
-- lab3/xv6-public/file.c and sysfile.c: reference counts and descriptors.
use mathlib.Core.Option
use cs.Prelude.{
  ℕ, zero, suc, ◌+◌, ◌-◌, ◌≤◌, ◌<◌, ◌≡◌, ap, refl, arith, Bool, Option, none, some, if◌then◌else◌,
  ltb, ◌==◌, Bool-cases, Option-cases, inl, inr, dec_lt,
}
use cs.Prelude.Search.{search_from, search_from-lt}
use cs.Xv6.File.{
  Files, nofile, put_ref, put_fd, filedup, fileclose, argfd, is_closed, fdalloc, sys_dup, sys_close,
}

abbrev pub names : ℕ → Option ℕ → ℕ
names f none = 0
names f (some g) = if g == f then 1 else 0

-- How many of the first `n` descriptors name the file `f`.
unfoldable pub uses : ℕ → ℕ → (ℕ → Option ℕ) → ℕ
uses zero f ofile = 0
uses (suc n) f ofile = uses n f ofile + names f (ofile n)

uses-outside :
    (n f : ℕ) (s : Files) (fd : ℕ) (o : Option ℕ)
    → n ≤ fd
    → uses n f (put_fd s fd o).ofile ≡ uses n f s.ofile
unfolding uses
uses-outside zero f s fd o h = refl
uses-outside (suc n) f s fd o h = ground (arith, uses-outside n f s fd o)

uses-put :
    (n f : ℕ) (s : Files) (fd : ℕ) (o : Option ℕ)
    → fd < n
    → uses n f (put_fd s fd o).ofile + names f (s.ofile fd) ≡ uses n f s.ofile + names f o
unfolding uses
uses-put zero f s fd o h = absurd (omega arith)
uses-put (suc n) f s fd o h = elim (dec_lt fd n) [
  | yes below ↦ ground (arith, uses-put n f s fd o below)
  | no last ↦ let e : n ≡ fd = omega arith in ground (arith, uses-outside n f s fd o, ap s.ofile e)
]

-- The references that are not this process's descriptors are `others`.
abbrev pub IsCounted : (ℕ → ℕ) → Files → Type 0
IsCounted others s = (f : ℕ) → s.ref f ≡ others f + uses nofile f s.ofile

-- A descriptor that is in range and open has a reference.
ref-pos :
    (others : ℕ → ℕ) (s : Files) (fd f : ℕ)
    → IsCounted others s
    → fd < nofile
    → s.ofile fd ≡ some f
    → 0 < s.ref f
ref-pos others s fd f c h e =
    let gone = uses-put nofile f s fd none h in
    let one : names f (s.ofile fd) ≡ 1 = rw e (ground arith) in omega (arith, c f, gone, one)

fileclose_lem :
    (s : Files) (f : ℕ)
    → 0 < s.ref f
    → fileclose s f ≡ some (s.ref f - 1 == 0, put_ref s f (s.ref f - 1))
unfolding fileclose
fileclose_lem s f h = elim (Bool-cases (ltb 0 (s.ref f - 1))) [
  | inl more ↦ ground arith
  | inr last ↦ let e : s.ref f - 1 ≡ 0 = ground arith in rw e (ground arith)
]

-- If every file's reference count is the number of the process's descriptors that name it plus
-- those of others, close of any number does not panic on a file without references, and the
-- counts are right after the part of it up to the release of the lock of the file table. A number
-- without an open file gives -1; for any other the rest of fileclose is still to come exactly if
-- no reference is left.
pub sys_close-IsCounted :
    (others : ℕ → ℕ) (s : Files) (fd : ℕ)
    → IsCounted others s
    → (r : Option Bool × Files) × (sys_close s fd ≡ some r)
      × IsCounted others r.1
      × (r.0 ≡ Option.map (λ f. r.1.ref f == 0) (argfd s fd))
unfolding sys_close argfd
sys_close-IsCounted others s fd c = elim (Bool-cases (ltb fd nofile)) [
  | inr out ↦ ((none, s), ground arith, c, ground arith)
  | inl inside ↦ elim (Option-cases (s.ofile fd)) [
    | inl e ↦ ((none, s), ground (arith, e), c, ground (arith, e))
    | inr (f, e) ↦
        let lt : fd < nofile = ground arith in
        let closed = put_fd s fd none in
        let done = fileclose_lem closed f (ref-pos others s fd f c lt e) in
        (
          (some (s.ref f - 1 == 0), put_ref closed f (s.ref f - 1)),
          ground (arith, e, done),
          λ g. ground (
            arith,
            c g,
            c f,
            uses-put nofile g s fd none lt,
            ap (names g) e,
            ref-pos others s fd f c lt e,
            ap s.ref {x = g} {y = f},
          ),
          ground (arith, e),
        )
  ]
]

-- If every file's reference count is the number of the process's descriptors that name it plus
-- those of others, dup of any number never panics, and the counts are right afterwards.
pub sys_dup-IsCounted :
    (others : ℕ → ℕ) (s : Files) (fd : ℕ)
    → IsCounted others s
    → (r : Option ℕ × Files) × (sys_dup s fd ≡ some r) × IsCounted others r.1
unfolding sys_dup argfd fdalloc filedup
sys_dup-IsCounted others s fd c = elim (Bool-cases (ltb fd nofile)) [
  | inr out ↦ ((none, s), ground arith, c)
  | inl inside ↦ elim (Option-cases (s.ofile fd)) [
    | inl e ↦ ((none, s), ground (arith, e), c)
    | inr (f, e) ↦ elim (Option-cases (search_from nofile 0 (λ k. is_closed (s.ofile k)))) [
      | inl full ↦ ((none, s), ground (arith, e, full), c)
      | inr (n, found) ↦
          let (lo, lt, closed) =
            search_from-lt nofile 0 (λ k. is_closed (s.ofile k)) {r = n} found in
          let pos = ref-pos others s fd f c (ground arith) e in
          (
            (some n, put_ref (put_fd s n (some f)) f (s.ref f + 1)),
            ground (arith, e, found, pos),
            λ g.
                ground
                  (arith, c g, closed, uses-put nofile g s n (some f) lt, ap s.ref {x = g} {y = f}),
          )
    ]
  ]
]
