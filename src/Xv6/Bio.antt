-- ===== src/Xv6/Bio.antt =====
-- lab3/xv6-public/bio.c: the buffer cache. The list is `bcache`, from `head.next` on: the buffer used
-- most recently first. The content of a buffer and its sleep lock belong to the caller who holds it.
pub mod Unique
use cs.Prelude.{
  ℕ, zero, suc, ◌+◌, ◌%◌, ◌^◌, ◌-◌, Bool, true, false, ◌&&◌, not, List, [], ◌∷◌, ◌++◌,
  if◌then◌else◌, ◌==◌, Option, none, some,
}

-- `id` is the slot of `bcache.buf`.
pub record Buf : Type 0 where
  pub id : ℕ
  pub dev : ℕ
  pub blockno : ℕ
  pub refcnt : ℕ
  pub valid : Bool
  pub dirty : Bool

abbrev pub fresh_buf : ℕ → Buf
fresh_buf i = record { id = i; dev = 0; blockno = 0; refcnt = 0; valid = false; dirty = false }

-- The loop of binit: each buffer from slot `i` on is put at the head.
unfoldable pub binit : ℕ → ℕ → List Buf → List Buf
binit zero i l = l
binit (suc n) i l = binit n (i + 1) (fresh_buf i ∷ l)

abbrev pub caches : ℕ → ℕ → Buf → Bool
caches dev blockno b = (b.dev == dev) && (b.blockno == blockno)

-- The first loop of bget: the buffer that has the block gets one more reference.
unfoldable pub take_cached : ℕ → ℕ → List Buf → Option (ℕ × List Buf)
take_cached dev blockno [] = none
take_cached dev blockno (b ∷ l) =
    if caches dev blockno b
    then some (b.id, record b { refcnt = (b.refcnt + 1) % 2 ^ 32 } ∷ l)
    else elim (take_cached dev blockno l) [ none ↦ none | some (i, l') ↦ some (i, b ∷ l') ]

abbrev pub is_free : Buf → Bool
is_free b = (b.refcnt == 0) && not b.dirty

-- The second loop, which runs from the tail: the last free buffer is recycled.
unfoldable pub recycle : ℕ → ℕ → List Buf → Option (ℕ × List Buf)
recycle dev blockno [] = none
recycle dev blockno (b ∷ l) = elim (recycle dev blockno l) [
  | some (i, l') ↦ some (i, b ∷ l')
  | none ↦
      if is_free b
      then some (
        b.id,
        record b { dev = dev; blockno = blockno; valid = false; dirty = false; refcnt = 1 } ∷ l,
      )
      else none
]

-- `none` is the panic "no buffers".
unfoldable pub bget : ℕ → ℕ → List Buf → Option (ℕ × List Buf)
bget dev blockno l = elim (take_cached dev blockno l) [
  | some r ↦ some r
  | none ↦ recycle dev blockno l
]

-- The buffer of a slot, and the list without it.
unfoldable pub pull : ℕ → List Buf → Option (Buf × List Buf)
pull i [] = none
pull i (b ∷ l) =
    if b.id == i
    then some (b, l)
    else elim (pull i l) [ none ↦ none | some (c, l') ↦ some (c, b ∷ l') ]

-- `refcnt--` on a `uint`.
abbrev pub less : ℕ → ℕ
less n = (n + 2 ^ 32 - 1) % 2 ^ 32

unfoldable pub drop_ref : ℕ → List Buf → List Buf
drop_ref i [] = []
drop_ref i (b ∷ l) = if b.id == i then record b { refcnt = less b.refcnt } ∷ l else b ∷ drop_ref i l

-- brelse, for the holder of the buffer's lock: the last reference moves the buffer to the head.
unfoldable pub brelse : ℕ → List Buf → List Buf
brelse i l = elim (pull i l) [
  | none ↦ l
  | some (b, rest) ↦
      if less b.refcnt == 0 then record b { refcnt = less b.refcnt } ∷ rest else drop_ref i l
]
