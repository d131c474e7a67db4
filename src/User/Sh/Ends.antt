-- ===== src/User/Sh/Ends.antt =====
-- lab3/xv6-public/sh.c: every loop and every call of the parser takes characters off the line.
use cs.Prelude.{
  ℕ, zero, suc, ◌+◌, ◌≤◌, ◌<◌, ◌≡◌, ◌⊎◌, refl, sym, subst, arith, true, false, List, [], ◌∷◌, ◌==◌,
  leb, length, Bool-cases, inl, inr,
}
use cs.User.Sh.{
  Cmd, exec, pipe, list, back, Parsed, parsed, syntax_error, out_of_fuel, and_then, max_args,
  whitespace, has_char, skip_space, take_word, token_at, gettoken, peek,
}
use cs.User.Sh.Parser.{
  redirect, redirs_loop, parseredirs, add_arg, args_loop, close_block, parseblock, parseexec,
  parsepipe, back_loop, parseline, parsecmd,
}

-- The parser returned, with at most `n` characters left.
abbrev pub Within : ℕ → Parsed → Type 0
Within n (parsed cmd s) = length s ≤ n
Within n syntax_error = Unit {0}
Within n out_of_fuel = ⊥

Within-cases :
    (n : ℕ) (r : Parsed)
    → Within n r
    → ((cmd : Cmd) × (s : List ℕ) × (r ≡ parsed cmd s) × (length s ≤ n)) ⊎ (r ≡ syntax_error)
Within-cases n (parsed cmd s) w = inl (cmd, s, refl, w)
Within-cases n syntax_error w = inr refl
Within-cases n out_of_fuel w = absurd w

List-cases : (s : List ℕ) → (s ≡ []) ⊎ ((c : ℕ) × (r : List ℕ) × (s ≡ c ∷ r))
List-cases [] = inl refl
List-cases (c ∷ r) = inr (c, r, refl)

Within-and_then :
    (n m : ℕ) (r : Parsed) (f : Cmd → List ℕ → Parsed)
    → Within n r
    → ((cmd : Cmd) (s : List ℕ) → length s ≤ n → Within m (f cmd s))
    → Within m (and_then r f)
Within-and_then n m (parsed cmd s) f w h = h cmd s w
Within-and_then n m syntax_error f w h = tt
Within-and_then n m out_of_fuel f w h = absurd w

Within-eq : (n : ℕ) {r r' : Parsed} → r ≡ r' → Within n r' → Within n r
Within-eq n e w = subst (Within n) (sym e) w

Within-le : (n m : ℕ) (r : Parsed) → n ≤ m → Within n r → Within m r
Within-le n m (parsed cmd s) le w = omega (arith, le, w)
Within-le n m syntax_error le w = tt
Within-le n m out_of_fuel le w = w

pub length-skip_space : (s : List ℕ) → length (skip_space s) ≤ length s
unfolding skip_space
length-skip_space [] = omega arith
length-skip_space (c ∷ s) = ground (arith, length-skip_space s)

skip_space-head : (s r : List ℕ) (c : ℕ) → skip_space s ≡ c ∷ r → has_char whitespace c ≡ false
unfolding skip_space
skip_space-head [] r c e = absurd (ground (arith, e))
skip_space-head (a ∷ s) r c e = elim (Bool-cases (has_char whitespace a)) [
  | inl space ↦ skip_space-head s r c (ground (arith, e, space))
  | inr word ↦ ground (arith, e, word)
]

length-take_word : (s : List ℕ) → length (take_word s).1 ≤ length s
unfolding take_word
length-take_word [] = omega arith
length-take_word (c ∷ s) = ground (arith, length-take_word s)

length-token_at :
    (c : ℕ) (s : List ℕ)
    → has_char whitespace c ≡ false
    → length (token_at (c ∷ s)).2 < length (c ∷ s)
unfolding token_at take_word has_char
length-token_at c [] h = ground (arith, h)
length-token_at c (a ∷ s) h = ground (arith, h, length-take_word (a ∷ s))

-- At the end of the line, or a token is taken.
pub length-gettoken :
    (s : List ℕ)
    → ((skip_space s ≡ []) × (gettoken s ≡ (0, [], []))) ⊎ (length (gettoken s).2 < length s)
unfolding gettoken skip_space token_at
length-gettoken s = elim (List-cases (skip_space s)) [
  | inl e ↦ inl (e, ground (arith, e))
  | inr (c, r, e) ↦
      let taken = length-token_at c r (skip_space-head s r c e) in
      inr (ground (arith, e, taken, length-skip_space s, length-skip_space (token_at (c ∷ r)).2))
]

-- Where peek finds a character, it is there to be taken.
pub gettoken-peek : (s toks : List ℕ) → peek s toks ≡ true → length (gettoken s).2 < length s
unfolding peek
gettoken-peek s toks e = elim (length-gettoken s) [
  | inl (over, _) ↦ absurd (ground (arith, e, over))
  | inr less ↦ less
]

gettoken_le : (s : List ℕ) → length (gettoken s).2 ≤ length s
gettoken_le s = elim (length-gettoken s) [
  | inl (_, over) ↦ rw over (omega arith)
  | inr less ↦ omega (arith, less)
]

redirs_loop-Within :
    (fuel n : ℕ) (cmd : Cmd) (s : List ℕ)
    → length s < fuel
    → length s ≤ n
    → Within n (redirs_loop fuel cmd s)
unfolding redirs_loop
redirs_loop-Within zero n cmd s h le = absurd (omega (arith, h))
redirs_loop-Within (suc fuel) n cmd s h le = elim (Bool-cases (peek s (b'<' ∷ b'>' ∷ []))) [
  | inr over ↦
      Within-eq _ {r' = parsed cmd (skip_space s)} (ground (arith, over))
        (omega (arith, le, length-skip_space s))
  | inl more ↦
      let (tok, _, s1) = gettoken s in
      let (kind, file, s2) = gettoken s1 in
      let less = gettoken-peek s (b'<' ∷ b'>' ∷ []) more in
      let less' = gettoken_le s1 in
      let rest =
        redirs_loop-Within fuel n (redirect tok cmd file) s2 (omega (arith, h, less, less'))
          (omega (arith, le, less, less')) in
      elim (Bool-cases (kind == b'a')) [
        | inl word ↦ Within-eq _ (ground (arith, more, word)) rest
        | inr other ↦ Within-eq _ {r' = syntax_error} (ground (arith, more, other)) tt
      ]
]

parseredirs-Within : (n : ℕ) (cmd : Cmd) (s : List ℕ) → length s ≤ n → Within n (parseredirs cmd s)
unfolding parseredirs
parseredirs-Within n cmd s le = redirs_loop-Within (length s + 1) n cmd s (omega arith) le

args_loop-Within :
    (fuel n argc : ℕ) (ret : Cmd) (s : List ℕ)
    → length s < fuel
    → length s ≤ n
    → Within n (args_loop fuel argc ret s)
unfolding args_loop
args_loop-Within zero n argc ret s h le = absurd (omega (arith, h))
args_loop-Within (suc fuel) n argc ret s h le =
    elim (Bool-cases (peek s (b'|' ∷ b')' ∷ b'&' ∷ b';' ∷ []))) [
      | inl over ↦
          Within-eq _ {r' = parsed ret (skip_space s)} (ground (arith, over))
            (omega (arith, le, length-skip_space s))
      | inr more ↦
          let (tok, q, s1) = gettoken s in
          elim (length-gettoken s) [
            | inl (_, none_left) ↦
                Within-eq _ {r' = parsed ret []} (ground (arith, more, none_left)) (omega arith)
            | inr less ↦ elim (Bool-cases (tok == 0)) [
              | inl over ↦
                  Within-eq _ {r' = parsed ret s1} (ground (arith, more, over))
                    (omega (arith, less, le))
              | inr some_left ↦ elim (Bool-cases (tok == b'a')) [
                | inr other ↦
                    Within-eq _ {r' = syntax_error} (ground (arith, more, some_left, other)) tt
                | inl word ↦ elim (Bool-cases (leb max_args (argc + 1))) [
                  | inl many ↦
                      Within-eq _ {r' = syntax_error} (ground (arith, more, some_left, word, many))
                        tt
                  | inr few ↦ Within-eq _ (ground (arith, more, some_left, word, few)) (
                      Within-and_then (length s1) n (parseredirs (add_arg ret q) s1)
                        (args_loop fuel (argc + 1))
                        (parseredirs-Within (length s1) (add_arg ret q) s1 (omega arith))
                        (λ ret' s2 le'.
                          args_loop-Within fuel n (argc + 1) ret' s2 (omega (arith, h, less, le'))
                            (omega (arith, le, less, le'))))
                ]
              ]
            ]
          ]
    ]

module _ (line : List ℕ → Parsed) (n : ℕ)
    (line-Within : (s : List ℕ) → length s < n → Within (length s) (line s)) where
  parseblock-Within : (s : List ℕ) → length s ≤ n → Within (length s) (parseblock line s)
  unfolding parseblock
  parseblock-Within s le = elim (Bool-cases (peek s (b'(' ∷ []))) [
    | inr missing ↦ Within-eq _ {r' = syntax_error} (ground (arith, missing)) tt
    | inl found ↦
        let less = gettoken-peek s (b'(' ∷ []) found in
        Within-eq _ (ground (arith, found)) (
          Within-and_then (length s) (length s) (line (gettoken s).2) close_block
            (Within-le (length (gettoken s).2) (length s) _ (omega (arith, less))
              (line-Within (gettoken s).2 (omega (arith, less, le))))
            (λ cmd s1 le'. elim (Bool-cases (peek s1 (b')' ∷ []))) [
              | inr missing ↦ Within-eq _ {r' = syntax_error} (ground (arith, missing)) tt
              | inl closed ↦ Within-eq _ (ground (arith, closed)) (
                  parseredirs-Within (length s) cmd (gettoken s1).2
                    (omega (arith, le', gettoken_le s1)))
            ]))
  ]

  parseexec-Within : (s : List ℕ) → length s ≤ n → Within (length s) (parseexec line s)
  unfolding parseexec
  parseexec-Within s le = elim (Bool-cases (peek s (b'(' ∷ []))) [
    | inl block ↦ Within-eq _ (ground (arith, block)) (parseblock-Within s le)
    | inr simple ↦ Within-eq _ (ground (arith, simple)) (
        Within-and_then (length s) (length s) (parseredirs (exec []) s) _
          (parseredirs-Within (length s) (exec []) s (omega arith))
          (λ ret s1 le'. args_loop-Within (length s1 + 1) (length s) 0 ret s1 (omega arith) le'))
  ]

  parsepipe-Within :
      (fuel m : ℕ) (s : List ℕ)
      → length s < fuel
      → length s ≤ n
      → length s ≤ m
      → Within m (parsepipe line fuel s)
  unfolding parsepipe
  parsepipe-Within zero m s h le le' = absurd (omega (arith, h))
  parsepipe-Within (suc fuel) m s h le le' =
      Within-and_then (length s) m (parseexec line s) _ (parseexec-Within s le) (λ cmd s1 le1.
        elim (Bool-cases (peek s1 (b'|' ∷ []))) [
          | inr over ↦
              Within-eq _ {r' = parsed cmd (skip_space s1)} (ground (arith, over))
                (omega (arith, le', le1, length-skip_space s1))
          | inl more ↦
              let less = gettoken-peek s1 (b'|' ∷ []) more in
              Within-eq _ (ground (arith, more)) (
                Within-and_then m m (parsepipe line fuel (gettoken s1).2)
                  (λ right s2. parsed (pipe cmd right) s2)
                  (parsepipe-Within fuel m (gettoken s1).2 (omega (arith, h, le1, less))
                    (omega (arith, le, le1, less)) (omega (arith, le', le1, less)))
                  (λ right s2 le2. le2))
        ])

back_loop-Within :
    (fuel n : ℕ) (cmd : Cmd) (s : List ℕ)
    → length s < fuel
    → length s ≤ n
    → Within n (back_loop fuel cmd s)
unfolding back_loop
back_loop-Within zero n cmd s h le = absurd (omega (arith, h))
back_loop-Within (suc fuel) n cmd s h le = elim (Bool-cases (peek s (b'&' ∷ []))) [
  | inr over ↦
      Within-eq _ {r' = parsed cmd (skip_space s)} (ground (arith, over))
        (omega (arith, le, length-skip_space s))
  | inl more ↦
      let less = gettoken-peek s (b'&' ∷ []) more in
      Within-eq _ (ground (arith, more)) (
        back_loop-Within fuel n (back cmd) (gettoken s).2 (omega (arith, h, less))
          (omega (arith, le, less)))
]

parseline-Within : (fuel : ℕ) (s : List ℕ) → length s < fuel → Within (length s) (parseline fuel s)
unfolding parseline
parseline-Within zero s h = absurd (omega (arith, h))
parseline-Within (suc fuel) s h =
    let n = length s in
    Within-and_then n n (parsepipe (parseline fuel) (n + 1) s) _
      (parsepipe-Within (parseline fuel) fuel (λ t less. parseline-Within fuel t less) (n + 1) n s
        (omega arith) (omega (arith, h)) (omega arith))
      (λ cmd s1 le1.
        Within-and_then n n (back_loop (length s1 + 1) cmd s1) _
          (back_loop-Within (length s1 + 1) n cmd s1 (omega arith) le1)
          (λ cmd' s2 le2. elim (Bool-cases (peek s2 (b';' ∷ []))) [
            | inr over ↦
                Within-eq _ {r' = parsed cmd' (skip_space s2)} (ground (arith, over))
                  (omega (arith, le2, length-skip_space s2))
            | inl more ↦
                let less = gettoken-peek s2 (b';' ∷ []) more in
                let rest = parseline-Within fuel (gettoken s2).2 (omega (arith, h, le2, less)) in
                Within-eq _ (ground (arith, more)) (
                  Within-and_then n n (parseline fuel (gettoken s2).2)
                    (λ right s3. parsed (list cmd' right) s3)
                    (Within-le (length (gettoken s2).2) n _ (omega (arith, le2, less)) rest)
                    (λ right s3 le3. le3))
          ]))

-- On every line parsecmd returns a command with nothing left over, or ends with an error: the
-- fuel, one more than the length of the line, is always enough.
pub parsecmd_returns :
    (s : List ℕ) → ((cmd : Cmd) × (parsecmd s ≡ parsed cmd [])) ⊎ (parsecmd s ≡ syntax_error)
unfolding parsecmd
parsecmd_returns s =
    elim (Within-cases (length s) (parseline (length s + 1) s)
      (parseline-Within (length s + 1) s (omega arith))) [
        | inr bad ↦ inr (ground (arith, bad))
        | inl (cmd, s1, good, _) ↦ elim (List-cases (skip_space s1)) [
          | inl over ↦ inl (cmd, ground (arith, good, over))
          | inr (c, rest, more) ↦ inr (ground (arith, good, more))
        ]
      ]
