-- ===== src/Xv6/Inode/Walk.antt =====
-- lab3/xv6-public/fs.c: the fuel of namex.
use cs.Prelude.{
  ℕ, zero, suc, ◌≤◌, ◌<◌, ◌≡◌, refl, ap, arith, Bool, false, ◌==◌, none, some, Option-cases, inl,
  inr, List, [], ◌∷◌, length,
}
use cs.Xv6.Inode.{Inode, Device, put_inode, ilock, iput}
use cs.Xv6.Inode.Names.{skip_slashes, pass_name, skipelem}
use cs.Xv6.Inode.Dir.{dirlookup, walk}

length-skip_slashes : (path : List ℕ) → length (skip_slashes path) ≤ length path
unfolding skip_slashes
length-skip_slashes [] = omega arith
length-skip_slashes (c ∷ path) = ground (arith, length-skip_slashes path)

length-pass_name : (path : List ℕ) → length (pass_name path).1 ≤ length path
unfolding pass_name
length-pass_name [] = omega arith
length-pass_name (c ∷ path) = ground (arith, length-pass_name path)

skip_slashes_first :
    (path : List ℕ) {c : ℕ} {s : List ℕ} → skip_slashes path ≡ c ∷ s → (c == b'/') ≡ false
unfolding skip_slashes
skip_slashes_first [] e = ground (arith, e)
skip_slashes_first (a ∷ path) {c} {s} e = ground (arith, e, skip_slashes_first path {c = c} {s = s})

-- What skipelem leaves is shorter.
length-skipelem :
    (path : List ℕ) {name rest : List ℕ}
    → skipelem path ≡ some (name, rest)
    → length rest < length path
unfolding skipelem pass_name
length-skipelem path {name} {rest} e = go (skip_slashes path) refl
  where
    go : (l : List ℕ) → skip_slashes path ≡ l → length rest < length path
    go [] q = absurd (ground (arith, e, q))
    go (c ∷ s) q =
        let first = skip_slashes_first path q in
        let left : skip_slashes (pass_name s).1 ≡ rest = ground (arith, e, q, first) in
        omega (
          arith,
          length-skip_slashes path,
          ap length q,
          ap length left,
          length-skip_slashes (pass_name s).1,
          length-pass_name s,
        )

-- One unit more than the path's length is enough: more give the same.
walk_fuel :
    (f g : ℕ) (parent : Bool) (path last : List ℕ) (i : ℕ) (cache : ℕ → Inode) (d : Device)
    → length path < f
    → length path < g
    → walk f parent path last i cache d ≡ walk g parent path last i cache d
unfolding walk
walk_fuel zero g parent path last i cache d hf hg = absurd (omega (arith, hf))
walk_fuel (suc f) zero parent path last i cache d hf hg = absurd (omega (arith, hg))
walk_fuel (suc f) (suc g) parent path last i cache d hf hg = elim (Option-cases (skipelem path)) [
  | inl over ↦ ground (arith, over)
  | inr ((name, rest), e) ↦
      let shorter = length-skipelem path e in
      elim (Option-cases (ilock d (cache i))) [
        | inl a ↦ ground (arith, e, a)
        | inr (ip, a) ↦ elim (Option-cases (dirlookup i name (put_inode cache i ip) d)) [
          | inl b ↦ ground (arith, e, a, b)
          | inr ((none, cache1, d1), b) ↦ ground (arith, e, a, b)
          | inr ((some (off, j), cache1, d1), b) ↦ elim (Option-cases (iput i d1 cache1)) [
            | inl c ↦ ground (arith, e, a, b, c)
            | inr ((cache2, d2), c) ↦
                let ih =
                  walk_fuel f g parent rest name j cache2 d2 (omega (arith, hf, shorter))
                    (omega (arith, hg, shorter)) in
                ground (arith, e, a, b, c, ih)
          ]
        ]
      ]
]
