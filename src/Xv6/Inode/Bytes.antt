-- ===== src/Xv6/Inode/Bytes.antt =====
-- lab3/xv6-public/fs.c: a block of `uint`s as 512 bytes, little endian.
use cs.Prelude.{
  ℕ, zero, suc, ◌+◌, ◌-◌, ◌*◌, ◌/◌, ◌%◌, ◌<◌, ◌≡◌, inl, inr, arith, ◌&&◌, if◌then◌else◌, ltb, leb,
  ◌==◌, List, [], ◌∷◌, length, get_or, Bool-cases, ap,
}

-- Byte `k` of a `uint`.
unfoldable pub byte_of : ℕ → ℕ → ℕ
byte_of w k =
    if k == 0
    then w % 256
    else if k == 1
    then w / 256 % 256
    else if k == 2
    then w / 65536 % 256
    else w / 16777216 % 256

unfoldable pub with_byte : ℕ → ℕ → ℕ → ℕ
with_byte w k x =
    if k == 0
    then w / 256 * 256 + x
    else if k == 1
    then w / 65536 * 65536 + x * 256 + w % 256
    else if k == 2
    then w / 16777216 * 16777216 + x * 65536 + w % 65536
    else x * 16777216 + w % 16777216

byte_of-with_byte :
    (w k l x : ℕ)
    → k < 4
    → l < 4
    → x < 256
    → byte_of (with_byte w k x) l ≡ (if l == k then x else byte_of w l)
unfolding byte_of with_byte
byte_of-with_byte w k l x hk hl hx = ground arith

abbrev pub get_byte : (ℕ → ℕ) → ℕ → ℕ
get_byte blk j = byte_of (blk (j / 4)) (j % 4)

abbrev pub put_byte : (ℕ → ℕ) → ℕ → ℕ → ℕ → ℕ
put_byte blk j x w = if w == j / 4 then with_byte (blk w) (j % 4) x else blk w

pub get_byte-put_byte :
    (blk : ℕ → ℕ) (j x i : ℕ)
    → x < 256
    → get_byte (put_byte blk j x) i ≡ (if i == j then x else get_byte blk i)
get_byte-put_byte blk j x i h =
    let own : byte_of (with_byte (blk (j / 4)) (j % 4) x) (i % 4)
        ≡ (if i % 4 == j % 4 then x else byte_of (blk (j / 4)) (i % 4)) =
      byte_of-with_byte (blk (j / 4)) (j % 4) (i % 4) x (omega arith) (omega arith) h in
    elim (Bool-cases (i / 4 == j / 4)) [
      | inl same ↦ ground (arith, own, same, ap blk {x = i / 4} {y = j / 4})
      | inr other ↦ ground (arith, other)
    ]

-- memmove of bytes into a block, and out of it.
unfoldable pub fill : (ℕ → ℕ) → ℕ → List ℕ → ℕ → ℕ
fill blk at [] = blk
fill blk at (x ∷ xs) = fill (put_byte blk at x) (at + 1) xs

unfoldable pub bytes_at : (ℕ → ℕ) → ℕ → ℕ → List ℕ
bytes_at blk at zero = []
bytes_at blk at (suc n) = get_byte blk at ∷ bytes_at blk (at + 1) n

abbrev pub AllBytes : List ℕ → Type 0
AllBytes [] = Unit {0}
AllBytes (x ∷ xs) = (x < 256) × AllBytes xs

pub get_byte-fill :
    (blk : ℕ → ℕ) (at : ℕ) (xs : List ℕ) (j : ℕ)
    → AllBytes xs
    → get_byte (fill blk at xs) j
      ≡ (if leb at j && ltb j (at + length xs) then get_or xs (j - at) 0 else get_byte blk j)
unfolding fill
get_byte-fill blk at [] j h = ground arith
get_byte-fill blk at (x ∷ xs) j (hx, h) = elim (Bool-cases (j == at)) [
  | inl here ↦
      let zero_off : j - at ≡ 0 = ground (arith, here) in
      rw zero_off (
        ground (
          arith,
          here,
          get_byte-fill (put_byte blk at x) (at + 1) xs j h,
          get_byte-put_byte blk at x j hx,
        ))
  | inr there ↦ elim (Bool-cases (ltb j at)) [
    | inl before ↦ ground (
      arith,
      before,
      there,
      get_byte-fill (put_byte blk at x) (at + 1) xs j h,
      get_byte-put_byte blk at x j hx,
    )
    | inr after ↦
        let step : j - at ≡ suc (j - (at + 1)) = ground (arith, after, there) in
        rw step (
          ground (
            arith,
            after,
            there,
            get_byte-fill (put_byte blk at x) (at + 1) xs j h,
            get_byte-put_byte blk at x j hx,
          ))
  ]
]
