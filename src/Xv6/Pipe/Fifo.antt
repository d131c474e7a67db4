-- ===== src/Xv6/Pipe/Fifo.antt =====
-- lab3/xv6-public/pipe.c: the queue of bytes that the pipe stands for.
use cs.Prelude.{
  ℕ, zero, suc, ◌+◌, ◌-◌, ◌%◌, ◌^◌, ◌≤◌, ◌<◌, ◌≡◌, ◌≢◌, ◌∙◌, ap, ap₂, sym, refl, arith, Bool, true,
  false, ◌&&◌, ◌||◌, not, List, [], ◌∷◌, ◌++◌, if◌then◌else◌, ◌==◌, length, take, drop, Bool-cases,
  inl, inr, ◌⊎◌,
}
use Prim.Native.Nat.{min}
use mathlib.Core.List.{append-nil, append_assoc}
use cs.Xv6.Pipe.{
  Pipe, put_byte, is_full, is_empty, Writing, wrote, write_failed, write_sleeps, pipewrite,
  read_bytes, read_failed, read_sleeps, read_loop, piperead,
}

-- The bytes held, as the counters say modulo 2 ^ 32.
abbrev pub held : Pipe → ℕ
held p = (p.nwrite + 2 ^ 32 - p.nread) % 2 ^ 32

pub record IsPipe (p : Pipe) : Type 0 where
  pub read_fits : p.nread < 2 ^ 32
  pub write_fits : p.nwrite < 2 ^ 32
  pub bounded : held p ≤ 512

-- `n` bytes from the counter `at` on.
abbrev pub window : (ℕ → ℕ) → ℕ → ℕ → List ℕ
window bytes at zero = []
window bytes at (suc n) = bytes (at % 512) ∷ window bytes ((at + 1) % 2 ^ 32) n

-- The queue that the pipe stands for, oldest byte first.
abbrev pub contents : Pipe → List ℕ
contents p = window p.bytes p.nread (held p)

window-put :
    (bytes : ℕ → ℕ) (c n at w : ℕ)
    → at < 2 ^ 32
    → n < 512
    → w ≡ (at + n) % 2 ^ 32
    → window (λ k. if k == w % 512 then c else bytes k) at (suc n) ≡ window bytes at n ++ (c ∷ [])
window-put bytes c zero at w fits small e = ground arith
window-put bytes c (suc n) at w fits small e =
    ap₂ ◌∷◌ (ground arith)
      (window-put bytes c n ((at + 1) % 2 ^ 32) w (omega arith) (omega arith) (e ∙ omega arith))

-- A byte that is put into a pipe with room joins the queue at its end.
put_byte_lem :
    (p : Pipe) (c : ℕ)
    → IsPipe p
    → is_full p ≡ false
    → IsPipe (put_byte p c) × (contents (put_byte p c) ≡ contents p ++ (c ∷ []))
unfolding put_byte
put_byte_lem p c v room =
    let below : held p ≢ 512 = λ e. absurd (ground arith) in
    let more : held (put_byte p c) ≡ suc (held p) =
      omega (arith, below, v.bounded, v.read_fits, v.write_fits) in
    (
      record {
        read_fits = v.read_fits;
        write_fits = omega arith;
        bounded = omega (arith, more, below, v.bounded);
      },
      rw more (
          window-put p.bytes c (held p) p.nread p.nwrite v.read_fits
            (omega (arith, below, v.bounded)) (omega (arith, v.read_fits, v.write_fits))),
    )

held_full : (p : Pipe) → IsPipe p → is_full p ≡ true → held p ≡ 512
held_full p v full = ground arith

length-window : (bytes : ℕ → ℕ) (at n : ℕ) → length (window bytes at n) ≡ n
length-window bytes at zero = refl
length-window bytes at (suc n) = ap suc (length-window bytes ((at + 1) % 2 ^ 32) n)

-- How a call of pipewrite that cannot finish ends.
abbrev pub stuck : Bool → Pipe → List ℕ → Writing
stuck killed p rest = if not p.readopen || killed then write_failed else write_sleeps rest

-- What a call of pipewrite may do: take the first `k` bytes, all of them or as many as fit.
pub record Written (killed : Bool) (p : Pipe) (bytes : List ℕ) (o : Writing) (p' : Pipe) (k : ℕ)
    : Type 0 where
  pub valid : IsPipe p'
  pub appended : contents p' ≡ contents p ++ take k bytes
  pub ends : (p'.readopen ≡ p.readopen) × (p'.writeopen ≡ p.writeopen)
  pub outcome :
      ((o ≡ wrote) × (k ≡ length bytes))
      ⊎ ((o ≡ stuck killed p (drop k bytes)) × (k < length bytes) × (held p' ≡ 512))

pipewrite-go :
    (killed : Bool) (p : Pipe) (c : ℕ) (rest : List ℕ) (o : Writing) (p' : Pipe) (k : ℕ)
    → contents (put_byte p c) ≡ contents p ++ (c ∷ [])
    → Written killed (put_byte p c) rest o p' k
    → Written killed p (c ∷ rest) o p' (suc k)
unfolding put_byte
pipewrite-go killed p c rest o p' k put w = record {
  valid = w.valid;
  appended =
      w.appended
      ∙ ap (λ l. l ++ take k rest) put
      ∙ append_assoc (contents p) (c ∷ []) (take k rest);
  ends = w.ends;
  outcome = elim (w.outcome) [
    | inl (a, b) ↦ inl (a, omega arith)
    | inr (a, b, d) ↦ inr (a, omega arith, d)
  ];
}

-- A stretch of pipewrite on a valid pipe keeps it valid and appends the first `k` bytes to the
-- queue that it stands for. Either these are all and the call returns, or the queue then holds
-- 512 bytes, and the call fails if the reader has closed its end or the process was killed, and
-- else sleeps with the other bytes left.
pub pipewrite_lem :
    (killed : Bool) (p : Pipe) (bytes : List ℕ)
    → IsPipe p
    → (k : ℕ) × Written killed p bytes (pipewrite killed p bytes).0 (pipewrite killed p bytes).1 k
unfolding pipewrite
pipewrite_lem killed p [] v = (
  0,
  record {
    valid = v;
    appended = sym (append-nil (contents p));
    ends = (refl, refl);
    outcome = inl (refl, refl);
  },
)
pipewrite_lem killed p (c ∷ rest) v = elim (Bool-cases (is_full p)) [
  | inl full ↦ (
    0,
    rw full (record {
      valid = ground (arith, v);
      appended = ground (arith, append-nil (contents p));
      ends = ground arith;
      outcome = inr (ground arith, omega arith, ground (arith, held_full p v full));
    }),
  )
  | inr room ↦
      let (valid', put) = put_byte_lem p c v room in
      let (k, w) = pipewrite_lem killed (put_byte p c) rest valid' in
      (suc k, rw room (pipewrite-go killed p c rest _ _ k put w))
]

-- What a read of up to `n` bytes takes is the front of the queue: `n` bytes, or all.
pub record Taken (p : Pipe) (n : ℕ) (got : List ℕ) (p' : Pipe) : Type 0 where
  pub valid : IsPipe p'
  pub split : contents p ≡ got ++ contents p'
  pub count : length got ≡ min n (held p)
  pub ends : (p'.readopen ≡ p.readopen) × (p'.writeopen ≡ p.writeopen)

read_loop_lem : (n : ℕ) (p : Pipe) → IsPipe p → Taken p n (read_loop n p).0 (read_loop n p).1
unfolding read_loop
read_loop_lem zero p v = record {
  valid = v;
  split = refl;
  count = omega arith;
  ends = (refl, refl);
}
read_loop_lem (suc n) p v = elim (Bool-cases (is_empty p)) [
  | inl none_left ↦ rw none_left (record {
    valid = v;
    split = refl;
    count = omega (arith, none_held none_left);
    ends = (refl, refl);
  })
  | inr some_left ↦
      let p' : Pipe = record p { nread = (p.nread + 1) % 2 ^ 32 } in
      let less : held p ≡ suc (held p') = ground (arith, v.bounded, v.read_fits, v.write_fits) in
      let t = read_loop_lem n p' (record {
        read_fits = omega arith;
        write_fits = v.write_fits;
        bounded = omega (arith, less, v.bounded);
      }) in
      rw some_left (record {
        valid = t.valid;
        split = ap (window p.bytes p.nread) less ∙ ap (λ l. p.bytes (p.nread % 512) ∷ l) t.split;
        count = omega (arith, t.count, less);
        ends = t.ends;
      })
]
  where
    none_held : is_empty p ≡ true → held p ≡ 0
    none_held e = ground (arith, v.read_fits)

-- A stretch of piperead on a valid pipe takes nothing if the queue is empty and the write end
-- open: it fails if the process was killed, and else sleeps. Otherwise it returns the first `n`
-- bytes of the queue, or all of them if these are fewer, and leaves the rest in a valid pipe.
pub piperead_lem :
    (killed : Bool) (p : Pipe) (n : ℕ)
    → IsPipe p
    → ((contents p ≡ [])
        × (p.writeopen ≡ true)
        × (piperead killed p n ≡ (if killed then read_failed else read_sleeps, p)))
      ⊎ ((got : List ℕ) × ((piperead killed p n).0 ≡ read_bytes got)
          × Taken p n got (piperead killed p n).1)
unfolding piperead
piperead_lem killed p n v = elim (Bool-cases (is_empty p && p.writeopen)) [
  | inl waits ↦
      let nothing : held p ≡ 0 = ground (arith, v.read_fits) in
      inl (ap (window p.bytes p.nread) nothing, ground arith, rw waits refl)
  | inr goes ↦ inr ((read_loop n p).0, rw goes refl, rw goes (read_loop_lem n p v))
]
