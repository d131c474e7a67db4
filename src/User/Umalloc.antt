-- ===== src/User/Umalloc.antt =====
-- lab3/xv6-public/umalloc.c: malloc and free. Addresses count in headers of 8 bytes, a pointer to a block is
-- the address after its header, and 0 is the null pointer. The loops run on fuel. The memory of the
-- process ends at a multiple of 8 bytes, and a count given to sbrk is taken to fit its int.
pub mod Place
pub mod Same
pub mod Inserted
pub mod Insert
pub mod Free
pub mod Take
pub mod Scan
pub mod Given
pub mod Malloc
mod Tests
use cs.Prelude.{
  ℕ, zero, suc, ◌+◌, ◌-◌, ◌/◌, ◌%◌, ◌^◌, Bool, true, false, ◌&&◌, ◌||◌, Option, none, some,
  if◌then◌else◌, ltb, leb, ◌==◌,
}

-- `s.ptr` and `s.size` of the header at each address, `freep`, and the end of the process's memory.
pub record Arena : Type 0 where
  pub ptr : ℕ → ℕ
  pub size : ℕ → ℕ
  pub freep : ℕ
  pub brk : ℕ

abbrev pub put_ptr : Arena → ℕ → ℕ → Arena
put_ptr a p q = record a { ptr = λ k. if k == p then q else a.ptr k }

abbrev pub put_size : Arena → ℕ → ℕ → Arena
put_size a p n = record a { size = λ k. if k == p then n else a.size k }

-- The loop of free: the block that `bp` comes after.
unfoldable pub find_place : ℕ → Arena → ℕ → ℕ → Option ℕ
find_place zero a bp p = none
find_place (suc fuel) a bp p =
    let q = a.ptr p in
    let later = find_place fuel a bp q in
    if (ltb p bp && ltb bp q) || (leb q p && (ltb p bp || ltb bp q)) then some p else later

-- `bp` joined with the block after it.
abbrev pub join_next : Arena → ℕ → ℕ → Arena
join_next a bp p =
    let q = a.ptr p in
    if bp + a.size bp == q
    then put_ptr (put_size a bp (a.size bp + a.size q)) bp (a.ptr q)
    else put_ptr a bp q

-- `bp` joined with the block before it.
abbrev pub join_previous : Arena → ℕ → ℕ → Arena
join_previous a bp p =
    if p + a.size p == bp
    then put_ptr (put_size a p (a.size p + a.size bp)) p (a.ptr bp)
    else put_ptr a p bp

-- What free does at the place `p`.
unfoldable pub insert_at : Arena → ℕ → ℕ → Arena
insert_at a bp p = record (join_previous (join_next a bp p) bp p) { freep = p }

-- free of the block whose header is at `ap - 1`.
unfoldable pub free : ℕ → Arena → ℕ → Option Arena
free fuel a ap = elim (find_place fuel a (ap - 1) a.freep) [
  | none ↦ none
  | some p ↦ some (insert_at a (ap - 1) p)
]

-- What malloc does with a block that is large enough.
unfoldable pub take_block : Arena → ℕ → ℕ → ℕ → ℕ × Arena
take_block a nunits prevp p =
    if a.size p == nunits
    then (p + 1, record (put_ptr a prevp (a.ptr p)) { freep = prevp })
    else let left = a.size p - nunits in
      (p + left + 1, record (put_size (put_size a p left) (p + left) nunits) { freep = prevp })

-- The list of the first call: `base` is the address of the static header.
unfoldable pub start_list : ℕ → Arena → Arena
start_list base a =
    if a.freep == 0 then record (put_size (put_ptr a base base) base 0) { freep = base } else a

-- The system call may refuse; otherwise it gives the end of the memory and moves it.
module _ (can_grow : ℕ → ℕ → Bool) where
  -- The result: `freep` or 0.
  unfoldable pub morecore : ℕ → Arena → ℕ → Option (ℕ × Arena)
  morecore fuel a nu =
      let n = if ltb nu 4096 then 4096 else nu in
      if can_grow a.brk n
      then elim (free fuel (put_size (record a { brk = a.brk + n }) a.brk n) (a.brk + 1)) [
        | none ↦ none
        | some a' ↦ some (a'.freep, a')
      ]
      else some (0, a)

  -- The loop of malloc: the pointer returned.
  unfoldable pub malloc_loop : ℕ → Arena → ℕ → ℕ → ℕ → Option (ℕ × Arena)
  malloc_loop zero a nunits prevp p = none
  malloc_loop (suc fuel) a nunits prevp p = elim (leb nunits (a.size p)) [
    | true ↦ some (take_block a nunits prevp p)
    | false ↦ elim (p == a.freep) [
      | false ↦ malloc_loop fuel a nunits p (a.ptr p)
      | true ↦ elim (morecore fuel a nunits) [
        | none ↦ none
        | some (q, a') ↦ elim (q == 0) [
          | true ↦ some (0, a')
          | false ↦ malloc_loop fuel a' nunits q (a'.ptr q)
        ]
      ]
    ]
  ]

  unfoldable pub malloc : ℕ → ℕ → Arena → ℕ → Option (ℕ × Arena)
  malloc fuel base a nbytes =
      let nunits = (nbytes + 8 - 1) % 2 ^ 32 / 8 + 1 in
      let a' = start_list base a in malloc_loop fuel a' nunits a'.freep (a'.ptr a'.freep)
