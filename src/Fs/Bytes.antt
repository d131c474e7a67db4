-- ===== src/Fs/Bytes.antt =====
-- proj4/cs1550.c: the 512-byte blocks as the C code sees them, through the structs laid over them.
-- A buffer gives the byte at each offset; the fields are read and written at their offsets.
use cs.Prelude.{
  ℕ, zero, suc, ◌+◌, ◌*◌, ◌/◌, ◌%◌, ◌^◌, ◌≤◌, ◌<◌, ◌≡◌, refl, Bool, true, false, ◌&&◌, List, [],
  ◌∷◌, arith, ◌⊎◌, ◌==◌, if◌then◌else◌, length,
}
use native.Mathlib.Nat.{pow-suc}

abbrev pub Buffer : Type 0
Buffer = ℕ → ℕ

-- One byte assigned.
unfoldable pub poke : Buffer → ℕ → ℕ → Buffer
poke b o v k = if k == o then v % 256 else b k

-- A little-endian integer of `n` bytes at offset `o`.
unfoldable pub get_int : ℕ → Buffer → ℕ → ℕ
get_int zero b o = 0
get_int (suc n) b o = b o + 256 * get_int n b (o + 1)

unfoldable pub put_int : ℕ → Buffer → ℕ → ℕ → Buffer
unfolding poke
put_int zero b o v = b
put_int (suc n) b o v = poke (put_int n b (o + 1) (v / 256)) o v

-- `strcmp (b + o, s) == 0` for a string `s` with no NUL inside.
unfoldable pub str_eq : Buffer → ℕ → List ℕ → Bool
str_eq b o [] = b o == 0
str_eq b o (c ∷ s) = (b o == c) && str_eq b (o + 1) s

-- `strcpy (b + o, s)`, the NUL included.
unfoldable pub strcpy : Buffer → ℕ → List ℕ → Buffer
unfolding poke
strcpy b o [] = poke b o 0
strcpy b o (c ∷ s) = strcpy (poke b o c) (o + 1) s

-- The C string at `o`, read up to its NUL, at most `n` bytes.
unfoldable pub get_str : ℕ → Buffer → ℕ → List ℕ
get_str zero b o = []
get_str (suc n) b o = elim (b o == 0) [ true ↦ [] | false ↦ b o ∷ get_str n b (o + 1) ]

-- `memcpy (dst + o, src, n)` from a list of bytes, and out of a buffer into one.
unfoldable pub copy_in : Buffer → ℕ → List ℕ → Buffer
unfolding poke
copy_in b o [] = b
copy_in b o (c ∷ s) = copy_in (poke b o c) (o + 1) s

unfoldable pub copy_out : ℕ → Buffer → ℕ → List ℕ
copy_out zero b o = []
copy_out (suc n) b o = b o ∷ copy_out n b (o + 1)

-- The bytes of a string: none is NUL, and each is below 256.
abbrev pub IsString : List ℕ → Type 0
IsString [] = Unit {0}
IsString (c ∷ s) = (0 < c) × (c < 256) × IsString s

abbrev pub IsBytes : List ℕ → Type 0
IsBytes [] = Unit {0}
IsBytes (c ∷ s) = (c < 256) × IsBytes s

-- Equality of two strings.
unfoldable pub same_str : List ℕ → List ℕ → Bool
same_str [] [] = true
same_str [] (d ∷ t) = false
same_str (c ∷ s) [] = false
same_str (c ∷ s) (d ∷ t) = (c == d) && same_str s t

pub same_str_refl : (s : List ℕ) → same_str s s ≡ true
unfolding same_str
same_str_refl [] = refl
same_str_refl (c ∷ s) = ground (arith, same_str_refl s)

-- Two buffers that agree on `n` bytes from `o`.
abbrev pub Agree : Buffer → Buffer → ℕ → ℕ → Type 0
Agree a b lo hi = (k : ℕ) → lo ≤ k → k < hi → a k ≡ b k

pub get_int-Agree :
    (n : ℕ) (a b : Buffer) (o : ℕ) → Agree a b o (o + n) → get_int n a o ≡ get_int n b o
unfolding get_int
get_int-Agree zero a b o h = refl
get_int-Agree (suc n) a b o h = omega (
  arith,
  h o (omega arith) (omega arith),
  get_int-Agree n a b (o + 1) (λ k p q. h k (omega arith) (omega arith)),
)

pub str_eq-Agree :
    (s : List ℕ) (a b : Buffer) (o : ℕ)
    → Agree a b o (o + length s + 1)
    → str_eq a o s ≡ str_eq b o s
unfolding str_eq
str_eq-Agree [] a b o h = ground (arith, h o (omega arith) (omega arith))
str_eq-Agree (c ∷ s) a b o h = ground (
  arith,
  h o (omega arith) (omega arith),
  str_eq-Agree s a b (o + 1) (λ k p q. h k (omega arith) (omega arith)),
)

-- What a write leaves alone.
pub put_int-outside :
    (n : ℕ) (b : Buffer) (o v k : ℕ) → (k < o) ⊎ (o + n ≤ k) → put_int n b o v k ≡ b k
unfolding put_int
put_int-outside zero b o v k h = refl
put_int-outside (suc n) b o v k h = ground (arith, put_int-outside n b (o + 1) (v / 256) k)

pub strcpy-outside :
    (s : List ℕ) (b : Buffer) (o k : ℕ) → (k < o) ⊎ (o + length s + 1 ≤ k) → strcpy b o s k ≡ b k
unfolding strcpy
strcpy-outside [] b o k h = ground arith
strcpy-outside (c ∷ s) b o k h = ground (arith, strcpy-outside s (poke b o c) (o + 1) k)

pub copy_in-outside :
    (s : List ℕ) (b : Buffer) (o k : ℕ) → (k < o) ⊎ (o + length s ≤ k) → copy_in b o s k ≡ b k
unfolding copy_in
copy_in-outside [] b o k h = refl
copy_in-outside (c ∷ s) b o k h = ground (arith, copy_in-outside s (poke b o c) (o + 1) k)

-- What is written is read back.
pub get_int-put_int :
    (n : ℕ) (b : Buffer) (o v : ℕ) → v < 256 ^ n → get_int n (put_int n b o v) o ≡ v
unfolding get_int put_int
get_int-put_int zero b o v h = omega arith
get_int-put_int (suc n) b o v h =
    let low : poke (put_int n b (o + 1) (v / 256)) o v o ≡ v % 256 = ground arith in
    let small : v / 256 < 256 ^ n = omega (arith, pow-suc 256 n) in
    let rest : get_int n (poke (put_int n b (o + 1) (v / 256)) o v) (o + 1)
        ≡ get_int n (put_int n b (o + 1) (v / 256)) (o + 1) =
      get_int-Agree n _ _ (o + 1) (λ k p q. ground arith) in
    omega (arith, low, rest, get_int-put_int n b (o + 1) (v / 256) small)

pub str_eq-strcpy :
    (s t : List ℕ) (b : Buffer) (o : ℕ)
    → IsString s
    → IsString t
    → str_eq (strcpy b o s) o t ≡ same_str s t
unfolding str_eq strcpy same_str
str_eq-strcpy [] [] b o hs ht = ground arith
str_eq-strcpy [] (d ∷ t) b o hs ht = ground arith
str_eq-strcpy (c ∷ s) [] b o hs ht = ground (arith, strcpy-outside s (poke b o c) (o + 1) o)
str_eq-strcpy (c ∷ s) (d ∷ t) b o hs ht = ground (
  arith,
  strcpy-outside s (poke b o c) (o + 1) o,
  str_eq-strcpy s t (poke b o c) (o + 1) hs.2 ht.2,
)

pub copy_out-copy_in :
    (s : List ℕ) (b : Buffer) (o : ℕ) → IsBytes s → copy_out (length s) (copy_in b o s) o ≡ s
unfolding copy_out copy_in
copy_out-copy_in [] b o h = refl
copy_out-copy_in (c ∷ s) b o h =
    ground
      (arith, copy_in-outside s (poke b o c) (o + 1) o, copy_out-copy_in s (poke b o c) (o + 1) h.1)

pub same_str-eq : (s t : List ℕ) → same_str s t ≡ true → s ≡ t
unfolding same_str
same_str-eq [] [] h = refl
same_str-eq [] (d ∷ t) h = cc
same_str-eq (c ∷ s) [] h = cc
same_str-eq (c ∷ s) (d ∷ t) h = ground (arith, same_str-eq s t)

pub copy_out-Agree :
    (n : ℕ) (a b : Buffer) (o : ℕ) → Agree a b o (o + n) → copy_out n a o ≡ copy_out n b o
unfolding copy_out
copy_out-Agree zero a b o h = refl
copy_out-Agree (suc n) a b o h = ground (
  arith,
  h o (omega arith) (omega arith),
  copy_out-Agree n a b (o + 1) (λ k p q. h k (omega arith) (omega arith)),
)
